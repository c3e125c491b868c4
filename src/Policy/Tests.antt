-- ===== src/Policy/Tests.antt =====
-- A policy for a shell tool, on which the theorems are applied.
use nd3x.Prelude.{Bool, true, ◌&&◌, ◌≡◌, refl, not, any, ltb, String, Option, none, some, [], ◌∷◌}
use nd3x.Json.{Value, num, pos}
use nd3x.Policy.Text.{strip, contains}
use nd3x.Policy.Rules.{Rule}
use nd3x.Policy.{Policy, ToolArgs, evaluate_workflow_guarded_tool_policy}
use nd3x.Policy.Verdict.{matches, permitted, with_deny, allowed-permitted, deny_overrides}
use nd3x.Policy.Trace.{IsJustified, asked_command, deny_rules, allow_rules, evaluate-IsJustified}

-- Patterns without special characters, paths that are already absolute, and whole numbers.
abbrev plain_search : String → String → Option Bool
plain_search pattern text = some (contains pattern text)

abbrev absolute : String → Option String
absolute path = some path

abbrev exceeds : Value → Value → Option Bool
exceeds (num (pos a)) (num (pos b)) = some (ltb b a)
exceeds a b = none

abbrev rule : String → String → Option Rule
rule operator value = some (record { operator = some operator; value = some value })

abbrev policy : Policy
policy = record {
  on_denied = some "pause";
  auto_confirm = true;
  deny = some (rule "contains" "rm " ∷ []);
  allow = some (rule "starts_with" "git " ∷ []);
  allowed_working_dirs = some "/srv" ∷ [];
  max_timeout_seconds = some (num (pos 120));
}

abbrev args : ToolArgs
args = record {
  command = some " git status";
  working_dir = some "/srv";
  cwd = none;
  timeout = none;
}

allowed-permitted_example :
    (evaluate_workflow_guarded_tool_policy plain_search absolute exceeds "shell" args
      (some policy)
      none).allowed
    ≡ permitted plain_search absolute exceeds args policy none
allowed-permitted_example = allowed-permitted plain_search absolute exceeds "shell" args policy none

deny_overrides_example :
    (evaluate_workflow_guarded_tool_policy plain_search absolute exceeds "shell" args
      (some (with_deny plain_search absolute exceeds (rule "contains" "push" ∷ []) policy))
      none).allowed
    ≡ (not (
          any
            (matches plain_search absolute exceeds (strip " git status") none)
            (rule "contains" "push" ∷ []))
        && (evaluate_workflow_guarded_tool_policy plain_search absolute exceeds "shell" args
            (some policy)
            none).allowed)
deny_overrides_example =
    deny_overrides plain_search absolute exceeds "shell" args policy none
      (rule "contains" "push" ∷ []) " git status" refl

evaluate-IsJustified_example :
    IsJustified plain_search
      (asked_command args)
      none
      (deny_rules (some policy))
      (allow_rules (some policy))
      (evaluate_workflow_guarded_tool_policy plain_search absolute exceeds "shell" args
        (some policy)
        none)
evaluate-IsJustified_example =
    evaluate-IsJustified plain_search absolute exceeds "shell" args (some policy) none

-- The call of the example is allowed.
git_status_allowed :
    (evaluate_workflow_guarded_tool_policy plain_search absolute exceeds "shell" args
      (some policy)
      none).allowed
    ≡ true
unfolding evaluate_workflow_guarded_tool_policy nd3x.Policy.check_rules nd3x.Policy.check_allow
    nd3x.Policy.check_timeout nd3x.Policy.first_match nd3x.Policy.matches_allowed_working_dir
    nd3x.Policy.is_entry_of nd3x.Policy.Rules.match_rule nd3x.Policy.Rules.holds
    nd3x.Policy.Rules.resolve_policy_value nd3x.Policy.Text.strip
git_status_allowed = refl
