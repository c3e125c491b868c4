-- ===== src/ToolGuard/Callable.antt =====
-- What the guard lets through, in terms of the assistant's tools.
use nd3x.Prelude.{
  ℕ, Bool, true, false, ◌&&◌, ◌||◌, not, ◌≡◌, refl, sym, ap, ◌∙◌, inl, inr, String, Option, none,
  some, List, [], ◌∷◌, ◌++◌, arith, any, all, elem, keep, ◌==◌, is_some_of, str_eq, Bool-cases,
  Option-cases,
}
use nd3x.Json.{ℤ, pos, negsuc, Value}
use nd3x.Policy.Text.{strip, is_empty_text, is_some}
use nd3x.ToolGuard.{
  Tool, Skill, AssistantConfig, ToolCall, text_in, is_active, active_skills, ids_of, names_of,
  ids_of_skills, names_of_skills, allowed_tool_ids_for, allowed_tool_names_for, is_empty_list,
  check_call, check_calls, assert_tools_allowed,
}

-- Some tool that the assistant always has, or that an active skill brings, passes the test.
abbrev pub any_tool : AssistantConfig → List String → (Tool → Bool) → Bool
any_tool assistant selected p =
    any p assistant.tools
    || any (λ skill. is_active selected skill && any p skill.tools) assistant.skills

abbrev pub has_id : ℕ → Tool → Bool
has_id n tool = tool.is_enabled && is_some_of tool.id n

abbrev pub has_name : String → Tool → Bool
has_name name tool =
    tool.is_enabled && not (is_empty_text (strip tool.name)) && str_eq (strip tool.name) name

abbrev pub is_named : Tool → Bool
is_named tool = tool.is_enabled && not (is_empty_text (strip tool.name))

any-append :
    {A : Type 0} (p : A → Bool) (xs ys : List A) → any p (xs ++ ys) ≡ (any p xs || any p ys)
any-append p [] ys = refl
any-append p (x ∷ xs) ys = ground (arith, any-append p xs ys)

elem-ids_of : (n : ℕ) (tools : List Tool) → elem n (ids_of tools) ≡ any (has_id n) tools
unfolding ids_of
elem-ids_of n [] = refl
elem-ids_of n (tool ∷ tools) = ground (arith, elem-ids_of n tools)

text-names_of :
    (s : String) (tools : List Tool) → text_in s (names_of tools) ≡ any (has_name s) tools
unfolding names_of
text-names_of s [] = refl
text-names_of s (tool ∷ tools) = ground (arith, text-names_of s tools)

elem-ids_of_skills :
    (n : ℕ) (selected : List String) (skills : List Skill)
    → elem n (ids_of_skills (keep (is_active selected) skills))
      ≡ any (λ skill. is_active selected skill && any (has_id n) skill.tools) skills
unfolding ids_of_skills
elem-ids_of_skills n selected [] = refl
elem-ids_of_skills n selected (skill ∷ skills) = elim (Bool-cases (is_active selected skill)) [
  | inl e ↦ rw e (
      any-append (λ m. m == n) (ids_of skill.tools)
        (ids_of_skills (keep (is_active selected) skills))
      ∙ rw (elem-ids_of n skill.tools, elem-ids_of_skills n selected skills) refl)
  | inr e ↦ rw e (elem-ids_of_skills n selected skills)
]

text-names_of_skills :
    (s : String) (selected : List String) (skills : List Skill)
    → text_in s (names_of_skills (keep (is_active selected) skills))
      ≡ any (λ skill. is_active selected skill && any (has_name s) skill.tools) skills
unfolding names_of_skills
text-names_of_skills s selected [] = refl
text-names_of_skills s selected (skill ∷ skills) = elim (Bool-cases (is_active selected skill)) [
  | inl e ↦ rw e (
      any-append (λ t. str_eq t s) (names_of skill.tools)
        (names_of_skills (keep (is_active selected) skills))
      ∙ rw (text-names_of s skill.tools, text-names_of_skills s selected skills) refl)
  | inr e ↦ rw e (text-names_of_skills s selected skills)
]

passed : (b rest : Bool) → false ≡ not b → not rest ≡ not (b && rest)
passed b rest h = ground arith

refused : (b rest : Bool) → true ≡ not b → true ≡ not (b && rest)
refused b rest h = ground arith

module _ (assistant : AssistantConfig) (selected : List String) where
  pub elem-allowed_tool_ids_for :
      (n : ℕ)
      → elem n (allowed_tool_ids_for assistant selected) ≡ any_tool assistant selected (has_id n)
  unfolding allowed_tool_ids_for active_skills
  elem-allowed_tool_ids_for n =
      any-append (λ m. m == n) (ids_of assistant.tools) _
      ∙ rw (elem-ids_of n assistant.tools, elem-ids_of_skills n selected assistant.skills) refl

  text-allowed_tool_names_for :
      (s : String)
      → text_in s (allowed_tool_names_for assistant selected)
        ≡ any_tool assistant selected (has_name s)
  unfolding allowed_tool_names_for active_skills
  text-allowed_tool_names_for s =
      any-append (λ t. str_eq t s) (names_of assistant.tools) _
      ∙ rw (text-names_of s assistant.tools, text-names_of_skills s selected assistant.skills) refl

  module _ (to_int : Value → Option ℤ) where
    abbrev pub id_callable : Option ℤ → Bool
    id_callable none = false
    id_callable (some (negsuc n)) = false
    id_callable (some (pos n)) = any_tool assistant selected (has_id n)

    abbrev pub value_callable : Option Value → Bool
    value_callable none = false
    value_callable (some value) = id_callable (to_int value)

    -- The call's id is that of an enabled tool that the assistant has now, and its name is empty or
    -- that of such a tool, unless no such tool has a name.
    abbrev pub is_callable : ToolCall → Bool
    is_callable call =
        value_callable call.tool_id
        && (is_empty_text (strip call.tool)
            || is_empty_list (allowed_tool_names_for assistant selected)
            || any_tool assistant selected (has_name (strip call.tool)))

    call-callable :
        (call : ToolCall)
        → is_some (
            check_call to_int
              (allowed_tool_ids_for assistant selected)
              (allowed_tool_names_for assistant selected)
              call)
          ≡ not (is_callable call)
    unfolding check_call
    call-callable call = elim (Option-cases call.tool_id) [
      | inl e ↦ rw (e, check_call) refl
      | inr (value, e) ↦ elim (Option-cases (to_int value)) [
        | inl f ↦ rw (e, check_call) (rw f refl)
        | inr (negsuc n, f) ↦ rw (e, check_call) (rw f refl)
        | inr (pos n, f) ↦
            rw (e, check_call)
              (rw f (
                rw (elem-allowed_tool_ids_for n, text-allowed_tool_names_for (strip call.tool))
                  (ground arith)))
      ]
    ]

    calls-callable :
        (calls : List ToolCall)
        → is_some (
            check_calls to_int
              (allowed_tool_ids_for assistant selected)
              (allowed_tool_names_for assistant selected)
              calls)
          ≡ not (all is_callable calls)
    unfolding check_calls
    calls-callable [] = refl
    calls-callable (call ∷ calls) =
        let first =
          check_call to_int (allowed_tool_ids_for assistant selected)
            (allowed_tool_names_for assistant selected) call in
        let here = call-callable call in
        elim (Option-cases first) [
          | inl e ↦
              rw (e, check_calls)
                (calls-callable calls
                  ∙ passed (is_callable call) (all is_callable calls) (sym (ap is_some e) ∙ here))
          | inr (refusal, e) ↦
              rw (e, check_calls)
                (refused (is_callable call) (all is_callable calls) (sym (ap is_some e) ∙ here))
        ]

    -- The guard refuses a list of calls exactly if one of them is not callable.
    pub assert_tools_allowed-callable :
        (calls : List ToolCall)
        → is_some (assert_tools_allowed to_int assistant calls selected)
          ≡ not (all is_callable calls)
    unfolding assert_tools_allowed
    assert_tools_allowed-callable calls = calls-callable calls
