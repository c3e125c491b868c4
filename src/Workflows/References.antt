-- ===== src/Workflows/References.antt =====
-- The references of a stored graph stay inside the graph.
use nd3x.Prelude.{
  ℕ, suc, ◌+◌, Bool, true, ◌&&◌, ◌||◌, ◌≡◌, refl, sym, ap, subst, ◌∙◌, inl, inr, Option, none, some,
  List, [], ◌∷◌, ◌++◌, map, arith, ◌==◌, ==_refl, all, elem, length, Bool-cases, Option-cases,
  if◌then◌else◌,
}
use nd3x.Prelude.Results.{Result, returned, failed_with, after, returned-injective}
use nd3x.Table.{modify}
use nd3x.Engine.{Dict, lookup, put}
use nd3x.Engine.Settled.{lookup-put}
use nd3x.Workflows.Graph.{
  Error, OperationCreate, OperationRow, row_key, or_fallback, normalize_all, bare_row, Stored,
  has_name, store_operations, or_unknown, resolve_position_list, resolve_position_or_none,
  set_references, resolve_one, resolve_references, replace_operations,
}

abbrev pub keys : List OperationRow → List ℕ
keys = map row_key

abbrev pub option_within : List ℕ → Option ℕ → Bool
option_within ids none = true
option_within ids (some id) = elem id ids

-- The dependencies and the follow-ups of the row are among the keys.
abbrev pub refers_within : List ℕ → OperationRow → Bool
refers_within ids o =
    all (λ d. elem d ids) o.depends_on
    && option_within ids o.on_success_follow_up
    && option_within ids o.on_failure_follow_up

both_true : (a b : Bool) → a ≡ true → b ≡ true → (a && b) ≡ true
both_true a b h k = ground arith

three_true : (a b c : Bool) → a ≡ true → b ≡ true → c ≡ true → (a && b && c) ≡ true
three_true a b c h k l = ground arith

-- Every position leads to a row.
record IsIndexed (ids : List ℕ) (positions : Dict ℕ) : Type 0 where
  pub at : (p id : ℕ) → lookup p positions ≡ some id → elem id ids ≡ true

module _ (ids : List ℕ) (positions : Dict ℕ) (indexed : IsIndexed ids positions) where
  known-elem :
      (p : ℕ) (id : ℕ) → or_unknown p (lookup p positions) ≡ returned id → elem id ids ≡ true
  known-elem p id h = elim (Option-cases (lookup p positions)) [
    | inl e ↦ absurd (unknown (rw e at h))
    | inr (j, e) ↦ indexed.at p id (e ∙ ap some (same j (rw e at h)))
  ]
    where
      unknown : or_unknown p none ≡ returned id → ⊥
      unknown h = cc

      same : (j : ℕ) → or_unknown p (some j) ≡ returned id → j ≡ id
      same j h = cc

  list-within :
      (values out : List ℕ)
      → resolve_position_list values positions ≡ returned out
      → all (λ d. elem d ids) out ≡ true
  unfolding resolve_position_list
  list-within [] [] h = refl
  list-within [] (d ∷ out) h = cc
  list-within (p ∷ values) out h =
      after (or_unknown p (lookup p positions)) _
        (λ id e. after (resolve_position_list values positions) _ λ rest f g.
          subst (λ o. all (λ d. elem d ids) o ≡ true) (returned-injective g)
            (both_true (elem id ids) (all (λ d. elem d ids) rest) (known-elem p id e)
              (list-within values rest f)))
        h

  option-within :
      (value out : Option ℕ)
      → resolve_position_or_none value positions ≡ returned out
      → option_within ids out ≡ true
  unfolding resolve_position_or_none
  option-within none none h = refl
  option-within none (some id) h = cc
  option-within (some p) out h =
      after (or_unknown p (lookup p positions)) _
        (λ id e g.
          subst (λ o. option_within ids o ≡ true) (returned-injective g) (known-elem p id e))
        h

  module _ (depends_on : List ℕ) (success failure : Option ℕ) where
    keys-set :
        (id : ℕ) (rows : List OperationRow)
        → keys (modify row_key id (set_references depends_on success failure) rows) ≡ keys rows
    unfolding modify
    keys-set id [] = refl
    keys-set id (o ∷ rows) = elim (Bool-cases (row_key o == id)) [
      | inl e ↦ rw e refl
      | inr e ↦ rw e (ap (λ ks. o.id ∷ ks) (keys-set id rows))
    ]

    all-set :
        (id : ℕ) (rows : List OperationRow)
        → (all (λ d. elem d ids) depends_on
            && option_within ids success
            && option_within ids failure)
          ≡ true
        → all (refers_within ids) rows ≡ true
        → all
            (refers_within ids)
            (modify row_key id (set_references depends_on success failure) rows)
          ≡ true
    unfolding modify
    all-set id [] within h = refl
    all-set id (o ∷ rows) within h = ground (arith, all-set id rows within)

  resolve_one-within :
      (op : OperationCreate) (id : ℕ) (rows out : List OperationRow)
      → resolve_one op positions id rows ≡ returned out
      → all (refers_within ids) rows ≡ true
      → (keys out ≡ keys rows) × (all (refers_within ids) out ≡ true)
  unfolding resolve_one
  resolve_one-within op id rows out h k =
      after (resolve_position_list op.depends_on positions) _
        (λ deps e. after (resolve_position_or_none op.on_success_follow_up positions) _ λ success f.
          after (resolve_position_or_none op.on_failure_follow_up positions) _ λ failure g same.
            subst (λ o. (keys o ≡ keys rows) × (all (refers_within ids) o ≡ true))
              (returned-injective same)
              (
                keys-set deps success failure id rows,
                all-set deps success failure id rows
                    (three_true _ _ _ (list-within op.depends_on deps e)
                      (option-within op.on_success_follow_up success f)
                      (option-within op.on_failure_follow_up failure g))
                    k,
              ))
        h

  resolve_references-within :
      (ops : List OperationCreate) (rows out : List OperationRow)
      → resolve_references ops positions rows ≡ returned out
      → all (refers_within ids) rows ≡ true
      → (keys out ≡ keys rows) × (all (refers_within ids) out ≡ true)
  unfolding resolve_references
  resolve_references-within [] rows out h k =
      subst (λ o. (keys o ≡ keys rows) × (all (refers_within ids) o ≡ true)) (returned-injective h)
        (refl, k)
  resolve_references-within (op ∷ ops) rows out h k =
      elim (Option-cases (lookup op.position positions)) [
        | inl e ↦ resolve_references-within ops rows out (rw (e, resolve_references) at h) k
        | inr (id, e) ↦
            after (resolve_one op positions id rows) (resolve_references ops positions)
              (λ mid f g.
                let (same, within) = resolve_one-within op id rows mid f k in
                let (same', within') = resolve_references-within ops mid out g within in
                (same' ∙ same, within'))
              (rw (e, resolve_references) at h)
      ]

elem-keys_append :
    (id : ℕ) (rows more : List OperationRow)
    → elem id (keys (rows ++ more)) ≡ (elem id (keys rows) || elem id (keys more))
elem-keys_append id [] more = refl
elem-keys_append id (o ∷ rows) more = ground (arith, elem-keys_append id rows more)

all-append :
    (p : OperationRow → Bool) (rows more : List OperationRow)
    → all p (rows ++ more) ≡ (all p rows && all p more)
all-append p [] more = refl
all-append p (o ∷ rows) more = ground (arith, all-append p rows more)

-- What the first pass keeps true: every position leads to a row, and no row refers to anything.
record IsBare (done : Stored) : Type 0 where
  pub indexed : IsIndexed (keys done.rows) done.positions
  pub bare : (ids : List ℕ) → all (refers_within ids) done.rows ≡ true

module _ (workflow_id : ℕ) (fresh : ℕ → ℕ) where
  put-IsIndexed :
      (position id : ℕ) (rows : List OperationRow) (row : OperationRow) (positions : Dict ℕ)
      → row.id ≡ id
      → IsIndexed (keys rows) positions
      → IsIndexed (keys (rows ++ row ∷ [])) (put position id positions)
  put-IsIndexed position id rows row positions same h = record {
    at = λ p j e. elim (Bool-cases (position == p)) [
      | inl here ↦
          let found : (if position == p then some id else lookup p positions) ≡ some j =
            sym (lookup-put position id p positions) ∙ e in
          let key : id ≡ j = ground arith in
          elem-keys_append j rows (row ∷ []) ∙ ground (arith, ==_refl j)
      | inr there ↦
          let found : (if position == p then some id else lookup p positions) ≡ some j =
            sym (lookup-put position id p positions) ∙ e in
          elem-keys_append j rows (row ∷ []) ∙ ground (arith, h.at p j)
    ];
  }

  store_operations-IsBare :
      (ops : List OperationCreate) (k : ℕ) (done out : Stored)
      → store_operations workflow_id fresh k ops done ≡ returned out
      → IsBare done
      → IsBare out
  unfolding store_operations bare_row
  store_operations-IsBare [] k done out h s = subst IsBare (returned-injective h) s
  store_operations-IsBare (op ∷ ops) k done out h s =
      elim (Bool-cases (has_name op.name done.rows)) [
        | inl e ↦ absurd (refused (rw e at h))
        | inr e ↦
            let position = or_fallback op.position (length done.positions + 1) in
            let row = bare_row workflow_id (fresh k) position op in
            store_operations-IsBare ops (suc k)
              (record {
                rows = done.rows ++ row ∷ [];
                positions = put position (fresh k) done.positions;
              })
              out (rw e at h)
              (record {
                indexed =
                    put-IsIndexed position (fresh k) done.rows row done.positions refl s.indexed;
                bare = λ ids.
                    all-append (refers_within ids) done.rows (row ∷ [])
                    ∙ ground (arith, s.bare ids);
              })
      ]
    where
      refused : ◌≡◌ {A = Result Error Stored} (failed_with Error.integrity_error) (returned out) → ⊥
      refused h = cc

  -- A graph that is stored is closed: every dependency and every follow-up of an operation is the key
  -- of an operation of the same graph.
  pub replace_operations-closed :
      (operations : List OperationCreate) (rows : List OperationRow)
      → replace_operations workflow_id fresh operations ≡ returned rows
      → all (refers_within (keys rows)) rows ≡ true
  unfolding replace_operations lookup
  replace_operations-closed operations rows h =
      let ops = normalize_all 1 operations in
      let empty : Stored = record { rows = []; positions = [] } in
      after (store_operations workflow_id fresh 0 ops empty) _
        (λ done e f.
          let s =
            store_operations-IsBare ops 0 empty done e
              (record { indexed = record { at = λ p id g. nothing id g }; bare = λ ids. refl }) in
          let (same, within) =
            resolve_references-within (keys done.rows) done.positions s.indexed ops done.rows rows f
              (s.bare (keys done.rows)) in
          subst (λ ks. all (refers_within ks) rows ≡ true) (sym same) within)
        h
    where
      nothing : (id : ℕ) → none ≡ some id → elem id [] ≡ true
      nothing id g = cc
