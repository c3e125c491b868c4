-- ===== src/Payload/Mapping/Complete.antt =====
-- An operation that starts has all the inputs that its mapping names.
use nd3x.Prelude.{
  ◌≡◌, refl, ap, subst, ◌∙◌, Bool, true, false, ◌&&◌, not, ◌⊎◌, inl, inr, String, Option, none,
  some, List, [], ◌∷◌, ◌++◌, arith, any, str_eq, eq_iff, if◌then◌else◌, Bool-cases,
}
use nd3x.Prelude.Results.{Result, returned, failed_with}
use nd3x.Json.{Value, Fields, field, end, truthy, get_field, has_key, put_field}
use nd3x.Payload.{Node, Scope}
use nd3x.Payload.Words.{field?}
use nd3x.Payload.Mapping.{
  Error, Mapped, is_key, not_found, with_error, take_source, spec_of, nothing_mapped,
  resolve_input_mapping_source, resolve_each, mapped_inputs_of,
}

-- No key stands twice, as in every dict.
abbrev pub is_dict : Fields → Bool
is_dict end = true
is_dict (field k v fs) = not (has_key k fs) && is_dict fs

-- An input is what its source has, or else, if it is not required, its default.
abbrev pub Supplied : Result Error (Option Value) → Fields → Value → Type 0
Supplied r spec v =
    (r ≡ returned (some v))
    ⊎ ((r ≡ returned none)
        × (truthy (get_field "required" spec) ≡ false)
        × (get_field "default" spec ≡ v))

record IsClean (m : Mapped) : Type 0 where
  pub missing : m.missing ≡ []
  pub errors : m.errors ≡ []

append-ne-nil : {A : Type 0} (xs : List A) (x : A) → xs ++ x ∷ [] ≡ [] → ⊥
append-ne-nil [] x h = cc
append-ne-nil (y ∷ xs) x h = cc

field?-put_field :
    (key : String) (v : Value) (k : String) (fs : Fields)
    → field? k (put_field key v fs) ≡ (if str_eq key k then some v else field? k fs)
unfolding put_field
field?-put_field key v k end = refl
field?-put_field key v k (field j w fs) =
    ground (arith, eq_iff key k, eq_iff j key, eq_iff j k, field?-put_field key v k fs)

-- What one input leaves, if it leaves nothing missing and no error.
record Took (r : Result Error (Option Value)) (key : String) (spec : Fields) (m n : Mapped)
    : Type 0 where
  pub clean : IsClean m
  pub value : Value
  pub supplied : Supplied r spec value
  pub put : n.inputs ≡ put_field key value m.inputs

not_found-IsClean :
    (key : String) (spec : Fields) (m : Mapped)
    → IsClean (not_found key spec m)
    → IsClean m
      × (truthy (get_field "required" spec) ≡ false)
      × ((not_found key spec m).inputs ≡ put_field key (get_field "default" spec) m.inputs)
unfolding not_found
not_found-IsClean key spec m h = elim (Bool-cases (truthy (get_field "required" spec))) [
  | inl e ↦ absurd (append-ne-nil m.missing key (subst IsClean (step true e) h).missing)
  | inr e ↦
      let c = subst IsClean (step false e) h in
      (record { missing = c.missing; errors = c.errors }, e, ap (λ n. n.inputs) (step false e))
]
  where
    step :
        (b : Bool)
        → truthy (get_field "required" spec) ≡ b
        → not_found key spec m ≡ (
            if b
            then record m {
              missing = m.missing ++ key ∷ [];
              errors =
                  if any (is_key key) m.errors
                  then m.errors
                  else m.errors ++ record { key = key; error = Error.required_missing } ∷ [];
            }
            else record m { inputs = put_field key (get_field "default" spec) m.inputs })
    step b e = rw e refl

take_source-Took :
    (key : String) (spec : Fields) (r : Result Error (Option Value)) (m : Mapped)
    → IsClean (take_source key spec r m)
    → Took r key spec m (take_source key spec r m)
unfolding take_source
take_source-Took key spec (returned (some v)) m h = record {
  clean = record { missing = h.missing; errors = h.errors };
  value = v;
  supplied = inl refl;
  put = refl;
}
take_source-Took key spec (returned none) m h =
    let (clean, free, put) = not_found-IsClean key spec m h in
    record {
      clean = clean;
      value = get_field "default" spec;
      supplied = inr (refl, free, refl);
      put = put;
    }
take_source-Took key spec (failed_with e) m h =
    let (clean, free, put) = not_found-IsClean key spec (with_error key e m) h in
    absurd (append-ne-nil m.errors (record { key = key; error = e }) clean.errors)

module _ (text_of : Value → String) (op : Node) (scope : Scope) where
  abbrev source : Value → Result Error (Option Value)
  source raw = resolve_input_mapping_source text_of (spec_of raw) op scope

  abbrev next : String → Value → Mapped → Mapped
  next key raw m = take_source key (spec_of raw) (source raw) m

  resolve_each-IsClean :
      (mapping : Fields) (m : Mapped)
      → IsClean (resolve_each text_of op scope mapping m)
      → IsClean m
  unfolding resolve_each
  resolve_each-IsClean end m h = h
  resolve_each-IsClean (field key raw mapping) m h =
      (take_source-Took key (spec_of raw) (source raw) m
        (resolve_each-IsClean mapping (next key raw m) h)).clean

  resolve_each-keeps :
      (mapping : Fields) (m : Mapped) (k : String)
      → has_key k mapping ≡ false
      → IsClean (resolve_each text_of op scope mapping m)
      → field? k (resolve_each text_of op scope mapping m).inputs ≡ field? k m.inputs
  unfolding resolve_each
  resolve_each-keeps end m k other h = refl
  resolve_each-keeps (field key raw mapping) m k other h =
      let took =
        take_source-Took key (spec_of raw) (source raw) m
          (resolve_each-IsClean mapping (next key raw m) h) in
      let apart : str_eq key k ≡ false = ground arith in
      let rest : has_key k mapping ≡ false = ground arith in
      resolve_each-keeps mapping (next key raw m) k rest h
      ∙ ap (field? k) took.put
      ∙ field?-put_field key took.value k m.inputs
      ∙ rw apart refl

  resolve_each-Supplied :
      (mapping : Fields) (m : Mapped) (k : String) (raw : Value)
      → is_dict mapping ≡ true
      → field? k mapping ≡ some raw
      → IsClean (resolve_each text_of op scope mapping m)
      → (v : Value) × Supplied (source raw) (spec_of raw) v
        × (field? k (resolve_each text_of op scope mapping m).inputs ≡ some v)
  unfolding resolve_each
  resolve_each-Supplied end m k raw d e h = cc
  resolve_each-Supplied (field key raw' mapping) m k raw d e h = elim (Bool-cases (str_eq key k)) [
    | inl here ↦
        let took =
          take_source-Took key (spec_of raw') (source raw') m
            (resolve_each-IsClean mapping (next key raw' m) h) in
        let same : raw' ≡ raw = ground arith in
        let name : key ≡ k = (eq_iff key k).0 here in
        let gone : has_key k mapping ≡ false =
          subst (λ j. has_key j mapping ≡ false) name (ground arith) in
        (
          took.value,
          subst (λ x. Supplied (source x) (spec_of x) took.value) same took.supplied,
          resolve_each-keeps mapping (next key raw' m) k gone h
              ∙ ap (field? k) took.put
              ∙ field?-put_field key took.value k m.inputs
              ∙ rw here refl,
        )
    | inr there ↦
        resolve_each-Supplied mapping (next key raw' m) k raw (ground arith) (ground arith) h
  ]

  accepted-IsClean :
      (m : Mapped) (inputs : Fields)
      → mapped_inputs_of text_of op scope m ≡ returned inputs
      → IsClean m × (m.inputs ≡ inputs)
  unfolding mapped_inputs_of
  accepted-IsClean m inputs h = ground arith

  -- If an operation is given its inputs, each key of its mapping has a value among them: what its
  -- source has, or, where the source has nothing and the input is not required, its default.
  pub mapped_inputs_of-Supplied :
      (mapping inputs : Fields) (k : String) (raw : Value)
      → is_dict mapping ≡ true
      → mapped_inputs_of text_of op scope (resolve_each text_of op scope mapping nothing_mapped)
        ≡ returned inputs
      → field? k mapping ≡ some raw
      → (v : Value) × Supplied
          (resolve_input_mapping_source text_of (spec_of raw) op scope)
          (spec_of raw)
          v
        × (field? k inputs ≡ some v)
  mapped_inputs_of-Supplied mapping inputs k raw d h e =
      let (clean, same) =
        accepted-IsClean (resolve_each text_of op scope mapping nothing_mapped) inputs h in
      let (v, s, f) = resolve_each-Supplied mapping nothing_mapped k raw d e clean in
      (v, s, subst (λ fs. field? k fs ≡ some v) same f)
