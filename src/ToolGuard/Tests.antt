-- ===== src/ToolGuard/Tests.antt =====
-- An assistant with a skill, on which the guard's theorem is applied.
use nd3x.Prelude.{true, false, not, ◌≡◌, refl, all, Option, none, some, List, [], ◌∷◌}
use nd3x.Json.{ℤ, pos, Value, num}
use nd3x.Policy.Text.{is_some}
use nd3x.ToolGuard.{AssistantConfig, ToolCall, assert_tools_allowed}
use nd3x.ToolGuard.Callable.{is_callable, assert_tools_allowed-callable}

abbrev to_int : Value → Option ℤ
to_int (num z) = some z
to_int _ = none

abbrev assistant : AssistantConfig
assistant = record {
  name = "helper";
  skills =
      record {
        name = "mail";
        is_enabled = true;
        is_system = false;
        is_runtime = false;
        tools = record { id = some 7; name = "send"; is_enabled = true } ∷ [];
      }
      ∷ [];
  tools = record { id = some 1; name = "clock"; is_enabled = true } ∷ [];
}

abbrev calls : List ToolCall
calls =
    record { tool = "clock"; tool_id = some (num (pos 1)) }
    ∷ record { tool = "send"; tool_id = some (num (pos 7)) }
    ∷ []

assert_tools_allowed-callable_example :
    is_some (assert_tools_allowed to_int assistant calls [])
    ≡ not (all (is_callable assistant [] to_int) calls)
assert_tools_allowed-callable_example = assert_tools_allowed-callable assistant [] to_int calls

-- Without the skill its tool is refused.
send_refused : is_some (assert_tools_allowed to_int assistant calls []) ≡ true
unfolding assert_tools_allowed nd3x.ToolGuard.check_calls nd3x.ToolGuard.check_call
    nd3x.ToolGuard.allowed_tool_ids_for nd3x.ToolGuard.allowed_tool_names_for nd3x.ToolGuard.ids_of
    nd3x.ToolGuard.names_of nd3x.ToolGuard.ids_of_skills nd3x.ToolGuard.names_of_skills
    nd3x.ToolGuard.active_skills nd3x.Policy.Text.strip
send_refused = refl
