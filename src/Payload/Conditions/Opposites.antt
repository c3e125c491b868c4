-- ===== src/Payload/Conditions/Opposites.antt =====
-- The operators of a condition come in pairs of opposites.
use nd3x.Prelude.{
  ℕ, ◌≡◌, refl, sym, ap, Bool, true, false, not, ◌||◌, inl, inr, String, Option, none, some, List,
  [], ◌∷◌, map, arith, ==_iff, Bool-cases, if◌then◌else◌,
}
use nd3x.Policy.Text.{strip}
use nd3x.Board.Words.{is_word, same_codes, codes, lower_code}
use nd3x.Prelude.Results.{Result, returned}
use nd3x.Json.{Value}
use nd3x.Payload.Conditions.{
  Error, Operator, exists, not_exists, equals, not_equals, contains_, not_contains, in_, not_in,
  is_truthy, is_falsey, read_operator, member, map_result, or_false, negated_or_true,
  evaluate_found, evaluate_missing, named, greater_than, greater_than_or_equal, less_than,
  less_than_or_equal, evaluate_condition_operator,
}

-- Two operators of which one is the negation of the other.
pub data Opposite : Operator → Operator → Type 0 where
  existence : Opposite exists not_exists
  equality : Opposite equals not_equals
  containment : Opposite contains_ not_contains
  membership : Opposite in_ not_in
  truth : Opposite is_truthy is_falsey

abbrev is_not_exists : Operator → Bool
is_not_exists not_exists = true
is_not_exists _ = false

abbrev has_not_exists : List (String × Operator) → Bool
has_not_exists [] = false
has_not_exists ((word, op) ∷ words) = is_not_exists op || has_not_exists words

-- the words after `exists` and `not_exists`
abbrev other_words : List (String × Operator)
other_words =
    ("equals", equals)
    ∷ ("not_equals", not_equals)
    ∷ ("contains", contains_)
    ∷ ("not_contains", not_contains)
    ∷ ("greater_than", greater_than)
    ∷ ("greater_than_or_equal", greater_than_or_equal)
    ∷ ("less_than", less_than)
    ∷ ("less_than_or_equal", less_than_or_equal)
    ∷ ("in", in_)
    ∷ ("not_in", not_in)
    ∷ ("is_truthy", is_truthy)
    ∷ ("is_falsey", is_falsey)
    ∷ []

empty_word : is_word "not_exists" "" ≡ false
unfolding is_word strip
empty_word = refl

-- Two words that a text has are the same.
same_codes-join :
    (as_ bs cs : List ℕ)
    → same_codes as_ bs ≡ true
    → same_codes as_ cs ≡ true
    → same_codes bs cs ≡ true
same_codes-join [] [] [] h k = refl
same_codes-join [] [] (c ∷ cs) h k = cc
same_codes-join [] (b ∷ bs) cs h k = cc
same_codes-join (a ∷ as_) [] cs h k = cc
same_codes-join (a ∷ as_) (b ∷ bs) [] h k = cc
same_codes-join (a ∷ as_) (b ∷ bs) (c ∷ cs) h k =
    ground (arith, same_codes-join as_ bs cs, ==_iff a b, ==_iff a c, ==_iff b c)

not_exists-other :
    (text : String) → is_word "not_exists" text ≡ true → is_word "exists" text ≡ false
unfolding is_word
not_exists-other text h = elim (Bool-cases (is_word "exists" text)) [
  | inr e ↦ e
  | inl e ↦ absurd (
      apart (
        same_codes-join (map lower_code (codes (strip text))) (codes "exists") (codes "not_exists")
          e h))
]
  where
    apart : same_codes (codes "exists") (codes "not_exists") ≡ true → ⊥
    apart k = cc

or_true-not-or_false :
    (m : Option (Result Error Bool)) → negated_or_true m ≡ map_result not (or_false m)
or_true-not-or_false none = refl
or_true-not-or_false (some r) = refl

module _ {F : Type 0} (as_float : Value → Option F) (lt le : F → F → Bool) where
  Opposite-found :
      {op opposite : Operator} (left right : Value)
      → Opposite op opposite
      → evaluate_found as_float lt le opposite left right
        ≡ map_result not (evaluate_found as_float lt le op left right)
  unfolding evaluate_found
  Opposite-found left right existence = refl
  Opposite-found left right equality = refl
  Opposite-found left right containment = or_true-not-or_false (member right left)
  Opposite-found left right membership = or_true-not-or_false (member left right)
  Opposite-found left right truth = refl

  missing-other :
      (op : Operator)
      → is_not_exists op ≡ false
      → evaluate_missing as_float lt le (some op) ≡ returned false
  unfolding evaluate_missing
  missing-other not_exists h = cc
  missing-other op h = refl

  missing-named :
      (text : String) (words : List (String × Operator))
      → has_not_exists words ≡ false
      → evaluate_missing as_float lt le (named text words) ≡ returned false
  unfolding evaluate_missing
  missing-named text [] h = refl
  missing-named text ((word, op) ∷ words) h = elim (Bool-cases (is_word word text)) [
    | inl e ↦ rw e (missing-other op (ground arith))
    | inr e ↦ rw e (missing-named text words (ground arith))
  ]

  missing-both :
      (x n : Bool) (later : Option Operator)
      → (n ≡ true → x ≡ false)
      → evaluate_missing as_float lt le later ≡ returned false
      → evaluate_missing as_float lt le
          (if x then some exists else (if n then some not_exists else later))
        ≡ returned n
  unfolding evaluate_missing
  missing-both true true later apart h = absurd (never (apart refl))
    where
      never : true ≡ false → ⊥
      never k = cc
  missing-both true false later apart h = refl
  missing-both false true later apart h = refl
  missing-both false false later apart h = h

  missing-not_exists :
      (word : String)
      → evaluate_missing as_float lt le (read_operator word) ≡ returned (is_word "not_exists" word)
  unfolding read_operator evaluate_missing
  missing-not_exists String.[] = ap returned (sym empty_word)
  missing-not_exists (String.◌∷◌ c s) =
      missing-both (is_word "exists" (String.◌∷◌ c s)) (is_word "not_exists" (String.◌∷◌ c s))
        (named (String.◌∷◌ c s) other_words) (not_exists-other (String.◌∷◌ c s))
        (missing-named (String.◌∷◌ c s) other_words refl)

  -- A condition on a value that is there and the condition with the opposite operator have opposite
  -- results, or raise the same error. On a value that is not there a condition with any operator, known
  -- or not, has the result that its word is `not_exists`, up to its case and the white space around it.
  pub evaluate-Opposite :
      (op opposite : Operator) (word other any_word : String) (left right : Value)
      → Opposite op opposite
      → read_operator word ≡ some op
      → read_operator other ≡ some opposite
      → (evaluate_condition_operator as_float lt le (some left) other right
          ≡ map_result not (evaluate_condition_operator as_float lt le (some left) word right))
        × (evaluate_condition_operator as_float lt le none any_word right
            ≡ returned (is_word "not_exists" any_word))
  unfolding evaluate_condition_operator
  evaluate-Opposite op opposite word other any_word left right h here there = (
    rw (here, there, evaluate_condition_operator) (Opposite-found left right h),
    missing-not_exists any_word,
  )
