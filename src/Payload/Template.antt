-- ===== src/Payload/Template.antt =====
-- `_resolve_template_value` of src/services/workflows/workflow_executor.py: a configuration with
-- its expressions `${...}` replaced by what they refer to.
mod SameText
pub mod SecretTexts
pub mod Secrets
use Prim.Native.Char.{code}
use Prim.Native.String.{◌++◌}
use nd3x.Prelude.{
  ℕ, zero, suc, Bool, true, false, ◌&&◌, not, String, Option, none, some, List, [], ◌∷◌, ◌==◌,
  str_eq, if◌then◌else◌,
}
use nd3x.Prelude.Results.{Result, returned, failed_with, ◌>>=◌}
use nd3x.Json.{Value, obj, arr, str, num, bool, null, Fields, field, end, Items, cons, nil}
use nd3x.Policy.Text.{replace_from, is_empty_text}
use nd3x.Payload.{Scope, resolve_reference}

-- ValueError: an expression that does not resolve
pub data Error : Type 0 where
  unresolved : String → Error

-- What `[^}]+` and the brace after it match, and the rest; `none` if the text has no brace.
unfoldable pub until_brace : String → Option (String × String)
until_brace String.[] = none
until_brace (String.◌∷◌ c s) =
    let rest = until_brace s in
    if code c == b'}'
    then some ("", s)
    else elim rest [ none ↦ none | some (group, after) ↦ some (String.◌∷◌ c group, after) ]

abbrev not_empty : Option (String × String) → Option (String × String)
not_empty none = none
not_empty (some (String.[], after)) = none
not_empty (some (group, after)) = some (group, after)

abbrev after_dollar : String → Option (String × String)
after_dollar String.[] = none
after_dollar (String.◌∷◌ c s) = if code c == b'{' then not_empty (until_brace s) else none

-- A match of `\$\{([^}]+)\}` at the start of a text.
unfoldable pub match_here : String → Option (String × String)
unfolding until_brace
match_here String.[] = none
match_here (String.◌∷◌ c s) = if code c == b'$' then after_dollar s else none

abbrev text_length : String → ℕ
text_length String.[] = 0
text_length (String.◌∷◌ c s) = suc (text_length s)

-- The groups of `re.finditer`, from left to right; `skip` is what is left of a match.
unfoldable pub matches_from : ℕ → String → List String
unfolding match_here
matches_from skip String.[] = []
matches_from (suc skip) (String.◌∷◌ c s) = matches_from skip s
matches_from zero (String.◌∷◌ c s) = elim (match_here (String.◌∷◌ c s)) [
  | none ↦ matches_from zero s
  | some (group, after) ↦ group ∷ matches_from (suc (suc (text_length group))) s
]

-- The one match that spans the whole text.
abbrev pub spans : Option (String × String) → Option String
spans none = none
spans (some (group, String.[])) = some group
spans (some (group, after)) = none

-- found, or None where `allow_null`
unfoldable pub or_unresolved : Bool → String → Option Value → Result Error Value
or_unresolved allow_null expression (some v) = returned v
or_unresolved true expression none = returned null
or_unresolved false expression none = failed_with (unresolved expression)

-- str(value) is a parameter.
module _ (text_of : Value → String) (scope : Scope) (previous : Option ℕ) (allow_null : Bool) where
  unfoldable pub resolve_expression : String → Result Error Value
  unfolding resolve_reference or_unresolved
  resolve_expression expression =
      or_unresolved allow_null expression (resolve_reference expression scope previous)

  -- "" if resolved is None else str(resolved)
  abbrev pub inserted : Value → String
  inserted null = ""
  inserted (str s) = s
  inserted v = text_of v

  -- `for match in matches`: each replaces its text wherever it stands in what is there by then.
  unfoldable pub interpolate : List String → String → Result Error String
  unfolding replace_from
  interpolate [] text = returned text
  interpolate (expression ∷ more) text = resolve_expression expression >>= λ v.
      interpolate more (replace_from zero ("${" ++ (expression ++ "}")) (inserted v) text)

  unfoldable pub resolve_text : String → Result Error Value
  unfolding match_here matches_from resolve_expression interpolate
  resolve_text text = elim (spans (match_here text)) [
    | some expression ↦ resolve_expression expression
    | none ↦ interpolate (matches_from zero text) text >>= λ t. returned (str t)
  ]

  unfoldable mutual
    pub resolve_template_value : Value → Result Error Value
    resolve_template_value (obj fs) = resolve_fields fs >>= λ gs. returned (obj gs)
    resolve_template_value (arr xs) = resolve_items xs >>= λ ys. returned (arr ys)
    resolve_template_value (str s) = resolve_text s
    resolve_template_value (num n) = returned (num n)
    resolve_template_value (bool b) = returned (bool b)
    resolve_template_value null = returned null

    pub resolve_fields : Fields → Result Error Fields
    resolve_fields end = returned end
    resolve_fields (field k v fs) =
        resolve_template_value v >>= λ w. resolve_fields fs >>= λ gs. returned (field k w gs)

    pub resolve_items : Items → Result Error Items
    resolve_items nil = returned nil
    resolve_items (cons v xs) =
        resolve_template_value v >>= λ w. resolve_items xs >>= λ ys. returned (cons w ys)
