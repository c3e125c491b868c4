-- ===== src/ToolGuard.antt =====
-- src/services/assistants/tool_guard.py: which tools an assistant may call with the skills that
-- were selected. int() of a tool id is a parameter, none where it raises.
pub mod Callable
mod Tests
use nd3x.Prelude.{
  ℕ, Bool, true, false, ◌&&◌, ◌||◌, not, String, Option, none, some, List, [], ◌∷◌, ◌++◌, map, any,
  elem, keep, str_eq, if◌then◌else◌,
}
use nd3x.Json.{ℤ, pos, negsuc, Value}
use nd3x.Policy.Text.{strip, is_empty_text}

pub record Tool : Type 0 where
  pub id : Option ℕ
  pub name : String
  pub is_enabled : Bool

pub record Skill : Type 0 where
  pub name : String
  pub is_enabled : Bool
  pub is_system : Bool
  pub is_runtime : Bool
  pub tools : List Tool

pub record AssistantConfig : Type 0 where
  pub name : String
  pub skills : List Skill
  pub tools : List Tool

pub record ToolCall : Type 0 where
  pub tool : String
  pub tool_id : Option Value

-- The ValueErrors of the guard.
pub data Refusal : Type 0 where
  no_skill_selected missing_tool_id invalid_tool_id : Refusal
  skills_not_allowed : List String → Refusal
  tool_id_not_allowed : ℤ → Refusal
  tool_not_allowed : String → Refusal

abbrev pub text_in : String → List String → Bool
text_in s = any (λ t. str_eq t s)

-- DEFAULT_MUTATION_TOOLS
unfoldable pub is_mutation_tool : String → Bool
is_mutation_tool name = text_in (strip name) ("text_update" ∷ "text_delete" ∷ [])

-- The four tests of the loop, in its order.
abbrev pub is_active : List String → Skill → Bool
is_active selected skill =
    if not skill.is_enabled
    then false
    else (if skill.is_system
        then true
        else (if skill.is_runtime && text_in skill.name selected
            then true
            else text_in skill.name selected))

unfoldable pub active_skills : AssistantConfig → List String → List Skill
active_skills assistant selected = keep (is_active selected) assistant.skills

abbrev pub is_selectable : Skill → Bool
is_selectable skill = skill.is_enabled && not skill.is_system

abbrev pub skill_name : Skill → String
skill_name skill = skill.name

unfoldable pub allowed_skill_names_for : AssistantConfig → List String
allowed_skill_names_for assistant = map skill_name (keep is_selectable assistant.skills)

abbrev refuse_missing : List String → Option Refusal
refuse_missing [] = none
refuse_missing (name ∷ names) = some (skills_not_allowed (name ∷ names))

-- None, or the error.
unfoldable pub assert_selected_skills_allowed : AssistantConfig → List String → Option Refusal
assert_selected_skills_allowed assistant [] = some no_skill_selected
assert_selected_skills_allowed assistant (name ∷ names) =
    refuse_missing (keep (λ n. not (text_in n (allowed_skill_names_for assistant))) (name ∷ names))

abbrev pub with_id : Option ℕ → List ℕ → List ℕ
with_id none ids = ids
with_id (some id) ids = id ∷ ids

-- the ids that a loop over tools adds
unfoldable pub ids_of : List Tool → List ℕ
ids_of [] = []
ids_of (tool ∷ tools) =
    let rest = ids_of tools in if tool.is_enabled then with_id tool.id rest else rest

unfoldable pub names_of : List Tool → List String
names_of [] = []
names_of (tool ∷ tools) =
    let rest = names_of tools in
    if tool.is_enabled
    then (if is_empty_text (strip tool.name) then rest else strip tool.name ∷ rest)
    else rest

unfoldable pub ids_of_skills : List Skill → List ℕ
ids_of_skills [] = []
ids_of_skills (skill ∷ skills) = ids_of skill.tools ++ ids_of_skills skills

unfoldable pub names_of_skills : List Skill → List String
names_of_skills [] = []
names_of_skills (skill ∷ skills) = names_of skill.tools ++ names_of_skills skills

unfoldable pub allowed_tool_ids_for : AssistantConfig → List String → List ℕ
allowed_tool_ids_for assistant selected =
    ids_of assistant.tools ++ ids_of_skills (active_skills assistant selected)

unfoldable pub allowed_tool_names_for : AssistantConfig → List String → List String
allowed_tool_names_for assistant selected =
    names_of assistant.tools ++ names_of_skills (active_skills assistant selected)

abbrev pub id_in : ℤ → List ℕ → Bool
id_in (pos n) ids = elem n ids
id_in (negsuc n) ids = false

abbrev pub is_empty_list : List String → Bool
is_empty_list [] = true
is_empty_list (s ∷ names) = false

module _ (to_int : Value → Option ℤ) where
  -- One turn of the loop.
  unfoldable pub check_call : List ℕ → List String → ToolCall → Option Refusal
  check_call ids names call = elim call.tool_id [
    | none ↦ some missing_tool_id
    | some value ↦ elim (to_int value) [
      | none ↦ some invalid_tool_id
      | some id ↦
          let tool = strip call.tool in
          if not (id_in id ids)
          then some (tool_id_not_allowed id)
          else (if not (is_empty_text tool) && not (is_empty_list names) && not (text_in tool names)
              then some (tool_not_allowed tool)
              else none)
    ]
  ]

  unfoldable pub check_calls : List ℕ → List String → List ToolCall → Option Refusal
  check_calls ids names [] = none
  check_calls ids names (call ∷ calls) =
      let rest = check_calls ids names calls in
      elim (check_call ids names call) [ none ↦ rest | some refusal ↦ some refusal ]

  unfoldable pub assert_tools_allowed :
      AssistantConfig → List ToolCall → List String → Option Refusal
  assert_tools_allowed assistant calls selected =
      check_calls (allowed_tool_ids_for assistant selected)
        (allowed_tool_names_for assistant selected) calls
