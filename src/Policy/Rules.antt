-- ===== src/Policy/Rules.antt =====
-- One rule of a policy: `_resolve_policy_value`, `_match_rule` and `_sanitize_rule`.
use nd3x.Prelude.{Bool, true, false, not, String, Option, none, some, str_eq, if◌then◌else◌}
use text.Mathlib.Text.{starts_with}
use nd3x.Policy.Text.{contains, replace, command_preview}

-- An operator or a value that is no text is none.
pub record Rule : Type 0 where
  pub operator : Option String
  pub value : Option String

pub data Operator : Type 0 where
  equals starts contains_text does_not_contain regex : Operator

-- what a rule looks like in the trace
pub record Matched : Type 0 where
  pub operator : Operator
  pub value : String

-- SUPPORTED_OPERATORS
abbrev pub supported : String → Option Operator
supported s =
    if str_eq s "equals"
    then some equals
    else (if str_eq s "starts_with"
        then some starts
        else (if str_eq s "contains"
            then some contains_text
            else (if str_eq s "does_not_contain"
                then some does_not_contain
                else (if str_eq s "regex" then some regex else none))))

abbrev pub skill_files_root_var : String
skill_files_root_var = "${skill_files_root}"

-- The variable needs a root that is not empty, and any other variable is refused.
unfoldable pub resolve_policy_value : Option String → Option String → Option String
resolve_policy_value none root = none
resolve_policy_value (some value) root =
    if contains skill_files_root_var value
    then (elim root [
      | none ↦ none
      | some String.[] ↦ none
      | some replacement ↦ some (replace skill_files_root_var replacement value)
    ])
    else (if contains "${" value then none else some value)

module _ (re_search : String → String → Option Bool) where
  -- a pattern that is no regular expression matches nothing
  abbrev pub search_or_false : Option Bool → Bool
  search_or_false none = false
  search_or_false (some b) = b

  unfoldable pub holds : Operator → String → String → Bool
  holds equals value candidate = str_eq candidate value
  holds starts value candidate = starts_with candidate value
  holds contains_text value candidate = contains value candidate
  holds does_not_contain value candidate = not (contains value candidate)
  holds regex value candidate = search_or_false (re_search value candidate)

  abbrev pub matched_if : Bool → Operator → String → Option Matched
  matched_if false operator value = none
  matched_if true operator value =
      some (record { operator = operator; value = command_preview value })

  abbrev pub operator_of : Option String → Option Operator
  operator_of none = none
  operator_of (some s) = supported s

  -- A rule that is no dict is none.
  unfoldable pub match_rule : String → Option String → Option Rule → Option Matched
  match_rule candidate root none = none
  match_rule candidate root (some rule) = elim (operator_of rule.operator) [
    | none ↦ none
    | some operator ↦ elim (resolve_policy_value rule.value root) [
      | none ↦ none
      | some value ↦ matched_if (holds operator value candidate) operator value
    ]
  ]
