-- ===== src/Plan.antt =====
-- src/services/assistants/plan_validator.py: what is wrong with the plan that a language model
-- returned. The problems that the JSON schema finds are an argument, since a library finds them.
-- A call of a text method on another value raises, which is none here.
mod Tests
use nd3x.Prelude.{
  ℕ, suc, Bool, true, false, ◌&&◌, not, ◌≡◌, refl, sym, ap, ◌∙◌, arith, inl, inr, String, Option,
  none, some, List, [], ◌∷◌, ◌++◌, str_eq, Bool-cases, Option-cases, if◌then◌else◌,
}
use nd3x.Json.{Value, Items, Fields, str, arr, obj, null, nil, cons, truthy, get_field}
use nd3x.Policy.Text.{strip, is_blank, is_empty_text}

pub data Problem : Type 0 where
  not_an_object no_tool_calls no_skill_names : Problem
  missing_tool_name : ℕ → Problem
  schema_problem : String → Problem

-- (value or "").strip()
unfoldable pub stripped : Value → Option String
stripped (str s) = some (strip s)
stripped v = if truthy v then none else some ""

-- not (call.get("tool") or "").strip()
abbrev pub is_unnamed : Value → Option Bool
is_unnamed v = elim (stripped v) [ none ↦ none | some s ↦ some (is_empty_text s) ]

-- not isinstance(call, dict) or not (call.get("tool") or "").strip()
unfoldable pub lacks_name : Value → Option Bool
lacks_name (obj fs) = is_unnamed (get_field "tool" fs)
lacks_name _ = some true

abbrev pub problem_if : Bool → ℕ → List Problem → List Problem
problem_if true i problems = missing_tool_name i ∷ problems
problem_if false i problems = problems

-- for i, call in enumerate(calls)
unfoldable pub call_problems : ℕ → Items → Option (List Problem)
call_problems i nil = some []
call_problems i (cons call calls) =
    let rest = call_problems (suc i) calls in
    elim (lacks_name call) [
      | none ↦ none
      | some lacks ↦ elim rest [ none ↦ none | some problems ↦ some (problem_if lacks i problems) ]
    ]

unfoldable pub tool_calls_problems : Value → Option (List Problem)
tool_calls_problems (arr (cons call calls)) = call_problems 0 (cons call calls)
tool_calls_problems _ = some (no_tool_calls ∷ [])

-- [n for n in names if isinstance(n, str) and n.strip()]
unfoldable pub has_skill_name : Items → Bool
has_skill_name nil = false
has_skill_name (cons (str s) names) =
    let rest = has_skill_name names in if is_blank s then rest else true
has_skill_name (cons _ names) = has_skill_name names

unfoldable pub skill_names_problems : Value → List Problem
skill_names_problems (arr names) = if has_skill_name names then [] else no_skill_names ∷ []
skill_names_problems _ = no_skill_names ∷ []

abbrev pub action_problems : Fields → String → Option (List Problem)
action_problems plan action =
    if str_eq action "tool_calls"
    then tool_calls_problems (get_field "tool_calls" plan)
    else (if str_eq action "select_skills"
        then some (skill_names_problems (get_field "selected_skill_names" plan))
        else some [])

unfoldable pub semantic_problems : Fields → Option (List Problem)
semantic_problems plan = elim (stripped (get_field "action" plan)) [
  | none ↦ none
  | some action ↦ action_problems plan action
]

-- problems.extend(...)
abbrev pub extended : Option (List Problem) → List Problem → Option (List Problem)
extended none more = none
extended (some problems) more = some (problems ++ more)

unfoldable pub validate_plan : (Fields → List Problem) → Value → Option (List Problem)
validate_plan schema_problems (obj plan) = extended (semantic_problems plan) (schema_problems plan)
validate_plan schema_problems _ = some (not_an_object ∷ [])

-- A dict whose "tool" is a text that is more than white space.
abbrev pub IsNamed : Value → Type 0
IsNamed call =
    (fs : Fields) × (s : String) × (call ≡ obj fs)
    × (get_field "tool" fs ≡ str s)
    × (is_blank s ≡ false)

abbrev pub AllNamed : Items → Type 0
AllNamed nil = Unit
AllNamed (cons call calls) = IsNamed call × AllNamed calls

is_unnamed-text :
    (v : Value) → is_unnamed v ≡ some false → (s : String) × (v ≡ str s) × (is_blank s ≡ false)
unfolding stripped
is_unnamed-text (str s) h = (s, refl, cc)
is_unnamed-text (obj fs) h = ground arith
is_unnamed-text (arr xs) h = ground arith
is_unnamed-text (Value.num n) h = ground arith
is_unnamed-text (Value.bool b) h = ground arith
is_unnamed-text null h = cc

lacks_name-IsNamed : (call : Value) → lacks_name call ≡ some false → IsNamed call
unfolding lacks_name
lacks_name-IsNamed (obj fs) h =
    let (s, tool, text) = is_unnamed-text (get_field "tool" fs) h in (fs, s, refl, tool, text)
lacks_name-IsNamed (str s) h = cc
lacks_name-IsNamed (arr xs) h = cc
lacks_name-IsNamed (Value.num n) h = cc
lacks_name-IsNamed (Value.bool b) h = cc
lacks_name-IsNamed null h = cc

call_problems-AllNamed : (i : ℕ) (calls : Items) → call_problems i calls ≡ some [] → AllNamed calls
unfolding call_problems
call_problems-AllNamed i nil h = tt
call_problems-AllNamed i (cons call calls) h = elim (Option-cases (lacks_name call)) [
  | inl e ↦ cc (rw (e, call_problems) at h)
  | inr (lacks, e) ↦ elim (Option-cases (call_problems (suc i) calls)) [
    | inl f ↦ cc (rw f at (rw (e, call_problems) at h))
    | inr (problems, f) ↦
        let (g, k) = no_problem lacks problems (rw f at (rw (e, call_problems) at h)) in
        (lacks_name-IsNamed call (e ∙ ap some g), call_problems-AllNamed (suc i) calls (f ∙ k))
  ]
]
  where
    no_problem :
        (lacks : Bool) (problems : List Problem)
        → some (problem_if lacks i problems) ≡ some []
        → (lacks ≡ false) × (some problems ≡ some [])
    no_problem true problems h = cc
    no_problem false problems h = (refl, h)

tool_calls-AllNamed :
    (v : Value)
    → tool_calls_problems v ≡ some []
    → (call : Value) × (calls : Items) × (v ≡ arr (cons call calls)) × AllNamed (cons call calls)
unfolding tool_calls_problems
tool_calls-AllNamed (arr (cons call calls)) h =
    (call, calls, refl, call_problems-AllNamed 0 (cons call calls) h)
tool_calls-AllNamed (arr nil) h = cc
tool_calls-AllNamed (obj fs) h = cc
tool_calls-AllNamed (str s) h = cc
tool_calls-AllNamed (Value.num n) h = cc
tool_calls-AllNamed (Value.bool b) h = cc
tool_calls-AllNamed null h = cc

extended-nil :
    (x : Option (List Problem)) (more : List Problem) → extended x more ≡ some [] → x ≡ some []
extended-nil none more h = cc
extended-nil (some []) more h = refl
extended-nil (some (p ∷ problems)) more h = cc

-- A plan to call tools that is accepted, whatever the schema says, has a list of calls that is not
-- empty, and every call in it is an object whose tool is a text that is more than white space.
pub accepted_plan-AllNamed :
    (schema_problems : Fields → List Problem) (plan : Fields)
    → stripped (get_field "action" plan) ≡ some "tool_calls"
    → validate_plan schema_problems (obj plan) ≡ some []
    → (call : Value) × (calls : Items) × (get_field "tool_calls" plan ≡ arr (cons call calls))
      × AllNamed (cons call calls)
unfolding validate_plan semantic_problems
accepted_plan-AllNamed schema_problems plan action h =
    tool_calls-AllNamed (get_field "tool_calls" plan) (
      rw (action, semantic_problems) at
        (extended-nil (semantic_problems plan) (schema_problems plan) h))
