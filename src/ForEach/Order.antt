-- ===== src/ForEach/Order.antt =====
-- The results of a for_each do not depend on the order in which its items complete.
use nd3x.Prelude.{
  ℕ, zero, suc, ◌≡◌, refl, sym, ap, ◌∙◌, subst, Bool, ◌⊎◌, inl, inr, none, List, [], ◌∷◌, ◌++◌, map,
  append-nil, append_assoc, arith, length, Bool-cases,
}
use mathlib.Core.List.{Permᴰ}
use nd3x.Prelude.Results.{Result, returned, failed_with, returned-injective}
use nd3x.Json.{Value}
use nd3x.Runs.Queries.{insert_by, order_by}
use nd3x.ForEach.{
  ItemResult, Failure, before, sorted_results, run_item, end_item, success, ChildEnd, collect,
  output_of, operation_cancelled,
}

abbrev insert : ItemResult → List ItemResult → List ItemResult
insert = insert_by before

-- enumerate(items), from `i`
abbrev pub indexes : ℕ → ℕ → List ℕ
indexes i zero = []
indexes i (suc n) = i ∷ indexes (suc i) n

insert_comm :
    (x y : ItemResult) (rs : List ItemResult)
    → (x.index ≡ y.index → x ≡ y)
    → insert x (insert y rs) ≡ insert y (insert x rs)
unfolding insert_by
insert_comm x y [] h = ground arith
insert_comm x y (r ∷ rs) h = ground (arith, insert_comm x y rs h)

module _ (f : ℕ → ItemResult) (indexed : (i : ℕ) → (f i).index ≡ i) where
  same_item : (i j : ℕ) → (f i).index ≡ (f j).index → f i ≡ f j
  same_item i j h = ap f (sym (indexed i) ∙ h ∙ indexed j)

  sorted-perm :
      (order other : List ℕ)
      → Permᴰ order other
      → sorted_results (map f order) ≡ sorted_results (map f other)
  unfolding order_by
  sorted-perm _ _ Permᴰ.nil = refl
  sorted-perm _ _ (Permᴰ.cons {a = a} {b = b} {l₁ = l} {l₂ = m} e p) =
      ap (λ i. insert (f i) (sorted_results (map f l))) e ∙ ap (insert (f b)) (sorted-perm l m p)
  sorted-perm _ _ (Permᴰ.swap {a = a} {b = b} {a' = c} {b' = d} {l = l} e k) =
      insert_comm (f a) (f b) (sorted_results (map f l)) (same_item a b)
      ∙ ap (λ i. insert (f i) (insert (f a) (sorted_results (map f l)))) k
      ∙ ap (λ i. insert (f c) (insert (f i) (sorted_results (map f l)))) e
  sorted-perm _ _ (Permᴰ.trans {l₁ = l} {l₂ = m} {l₃ = n} p q) =
      sorted-perm l m p ∙ sorted-perm m n q

  insert-first :
      (i n : ℕ) → insert (f i) (map f (indexes (suc i) n)) ≡ f i ∷ map f (indexes (suc i) n)
  unfolding insert_by
  insert-first i zero = refl
  insert-first i (suc n) = ground (arith, indexed i, indexed (suc i))

  sorted-indexes : (i n : ℕ) → sorted_results (map f (indexes i n)) ≡ map f (indexes i n)
  unfolding order_by
  sorted-indexes i zero = refl
  sorted-indexes i (suc n) = ap (insert (f i)) (sorted-indexes (suc i) n) ∙ insert-first i n

abbrev AllReturn : (ℕ → Result Failure ItemResult) → (ℕ → ItemResult) → List ℕ → Type 0
AllReturn run f [] = Unit {0}
AllReturn run f (i ∷ is) = (run i ≡ returned (f i)) × AllReturn run f is

AllReturn-perm :
    (run : ℕ → Result Failure ItemResult) (f : ℕ → ItemResult) (order other : List ℕ)
    → Permᴰ order other
    → AllReturn run f order
    → AllReturn run f other
AllReturn-perm run f _ _ Permᴰ.nil h = tt
AllReturn-perm run f _ _ (Permᴰ.cons {l₁ = l} {l₂ = m} e p) (h, t) =
    (subst (λ i. run i ≡ returned (f i)) e h, AllReturn-perm run f l m p t)
AllReturn-perm run f _ _ (Permᴰ.swap e k) (h, (j, t)) =
    (subst (λ i. run i ≡ returned (f i)) k j, (subst (λ i. run i ≡ returned (f i)) e h, t))
AllReturn-perm run f _ _ (Permᴰ.trans {l₁ = l} {l₂ = m} {l₃ = n} p q) h =
    AllReturn-perm run f m n q (AllReturn-perm run f l m p h)

AllReturn-map :
    (run : ℕ → Result Failure ItemResult) (f : ℕ → ItemResult) (is : List ℕ)
    → AllReturn run f is
    → map returned (map f is) ≡ map run is
AllReturn-map run f [] h = refl
AllReturn-map run f (i ∷ is) (h, t) =
    ap (λ r. r ∷ map returned (map f is)) (sym h) ∙ ap (λ rs. run i ∷ rs) (AllReturn-map run f is t)

Result-cases :
    (m : Result Failure ItemResult)
    → ((e : Failure) × (m ≡ failed_with e)) ⊎ ((r : ItemResult) × (m ≡ returned r))
Result-cases (failed_with e) = inl (e, refl)
Result-cases (returned r) = inr (r, refl)

module _ (stop : Bool) (item : ℕ → Value) (child : ℕ → ChildEnd) (total : ℕ)
    (cancel_seen : ℕ → Bool) where
  abbrev run : ℕ → Result Failure ItemResult
  run i = run_item stop i (item i) (child i)

  abbrev blank : ℕ → ItemResult
  blank i = record {
    index = i;
    status = success;
    child_workflow_run_id = none;
    input = item i;
    result_status = none;
    error = none;
  }

  abbrev value_or : ItemResult → Result Failure ItemResult → ItemResult
  value_or r (returned s) = s
  value_or r (failed_with e) = r

  result_at : ℕ → ItemResult
  result_at i = value_or (blank i) (run i)

  result_at-index : (i : ℕ) → (result_at i).index ≡ i
  unfolding result_at run_item end_item
  result_at-index i = ground arith

  result_at-returned : (i : ℕ) (r : ItemResult) → run i ≡ returned r → r ≡ result_at i
  unfolding result_at
  result_at-returned i r h = sym (ap (value_or (blank i)) h)

  collect-returned :
      (order : List ℕ) (results rs : List ItemResult)
      → (collect total run cancel_seen order results).outcome ≡ returned rs
      → (results ++ map result_at order ≡ rs) × AllReturn run result_at order
  unfolding collect
  collect-returned [] results rs h = (append-nil results ∙ returned-injective h, tt)
  collect-returned (i ∷ order) results rs h = elim (Result-cases (run i)) [
    | inl (e, f) ↦ absurd (no_result e (rw (f, collect) at h))
    | inr (r, f) ↦ elim (Bool-cases (cancel_seen (length (results ++ r ∷ [])))) [
      | inl c ↦ absurd (no_result operation_cancelled (rw (f, c, collect) at h))
      | inr c ↦
          let (same, all) =
            collect-returned order (results ++ r ∷ []) rs (rw (f, c, collect) at h) in
          let mine : r ≡ result_at i = result_at-returned i r f in
          (
            sym (append_assoc results (result_at i ∷ []) (map result_at order))
                ∙ ap (λ x. (results ++ x ∷ []) ++ map result_at order) (sym mine)
                ∙ same,
            (f ∙ ap (λ x. returned x) mine, all),
          )
    ]
  ]
    where
      no_result :
          (e : Failure)
          → ◌≡◌ {A = Result Failure (List ItemResult)} (failed_with e) (returned rs)
          → ⊥
      no_result e h = cc

  -- Where a for_each answers, every item has returned a result, and the results stand in the order of
  -- the items, whatever the order in which the items completed.
  pub for_each-in_order :
      (order : List ℕ) (rs : List ItemResult)
      → Permᴰ order (indexes 0 total)
      → (collect total run cancel_seen order []).outcome ≡ returned rs
      → map returned (output_of total rs).results ≡ map run (indexes 0 total)
  unfolding output_of
  for_each-in_order order rs p h =
      let (same, all) = collect-returned order [] rs h in
      ap (λ l. map returned (sorted_results l)) (sym same)
      ∙ ap (map returned) (
          sorted-perm result_at result_at-index order (indexes 0 total) p
          ∙ sorted-indexes result_at result_at-index 0 total)
      ∙ AllReturn-map run result_at (indexes 0 total)
          (AllReturn-perm run result_at order (indexes 0 total) p all)
