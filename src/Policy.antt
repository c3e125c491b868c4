-- ===== src/Policy.antt =====
-- src/services/assistants/orchestration/guarded_tool_policy.py: whether a workflow may run a
-- guarded tool without a confirmation. Regular expressions, path resolution and float() are
-- parameters: `re_search pattern text` is none on re.error, `resolve path` is none where
-- Path.resolve raises, and `exceeds a b` is float(a) > float(b), none where one is no number.
pub mod Text
pub mod Rules
pub mod Verdict
pub mod Trace
mod Tests
use nd3x.Prelude.{
  ℕ, Bool, true, false, String, Option, none, some, List, [], ◌∷◌, not, ◌||◌, any, str_eq,
  if◌then◌else◌,
}
use nd3x.Json.{Value, num, pos}
use nd3x.Policy.Text.{strip, is_blank}
use nd3x.Policy.Rules.{Rule, Matched, match_rule, resolve_policy_value}

-- The policy of one tool. A rule list that is missing is empty, one that is no list is none.
pub record Policy : Type 0 where
  pub on_denied : Option String
  pub auto_confirm : Bool
  pub deny : Option (List (Option Rule))
  pub allow : Option (List (Option Rule))
  pub allowed_working_dirs : List (Option String)
  pub max_timeout_seconds : Option Value

-- The arguments of the call: a command that is no text is none.
pub record ToolArgs : Type 0 where
  pub command : Option String
  pub working_dir : Option String
  pub cwd : Option String
  pub timeout : Option Value

pub record Decision : Type 0 where
  pub tool : String
  pub allowed : Bool
  pub auto_confirmed : Bool
  pub on_denied : String
  pub reason : String
  pub matched_allow_rule : Option Matched
  pub matched_deny_rule : Option Matched

-- policy.get("on_denied") if it is "fail" or "pause", else "fail"
abbrev pub on_denied_of : Option String → String
on_denied_of none = "fail"
on_denied_of (some s) = if str_eq s "fail" || str_eq s "pause" then s else "fail"

unfoldable pub denied : String → String → String → Option Matched → Option Matched → Decision
denied tool on_denied reason allow deny = record {
  tool = tool;
  allowed = false;
  auto_confirmed = false;
  on_denied = on_denied;
  reason = reason;
  matched_allow_rule = allow;
  matched_deny_rule = deny;
}

-- `a or b` on texts
abbrev pub or_text : Option String → Option String → Option String
or_text none b = b
or_text (some String.[]) b = b
or_text (some s) b = some s

-- args.get("timeout"), with 60.0 for None
abbrev pub timeout_or_default : Option Value → Value
timeout_or_default none = num (pos 60)
timeout_or_default (some v) = v

abbrev pub same_directory : String → Option String → Bool
same_directory dir none = false
same_directory dir (some allowed) = str_eq dir allowed

abbrev pub rules_or_none : Option (List (Option Rule)) → List (Option Rule)
rules_or_none none = []
rules_or_none (some rules) = rules

module _ (re_search : String → String → Option Bool) (resolve : String → Option String)
    (exceeds : Value → Value → Option Bool) where
  -- The first rule that matches.
  unfoldable pub first_match : String → Option String → List (Option Rule) → Option Matched
  first_match command root [] = none
  first_match command root (rule ∷ rules) =
      let rest = first_match command root rules in
      elim (match_rule re_search command root rule) [ none ↦ rest | some found ↦ some found ]

  -- A directory that cannot be resolved matches nothing.
  unfoldable pub is_entry_of : Option String → String → Option String → Bool
  is_entry_of root dir entry = elim (resolve_policy_value entry root) [
    | none ↦ false
    | some value ↦ same_directory dir (resolve value)
  ]

  unfoldable pub matches_allowed_working_dir :
      Option String → List (Option String) → Option String → Bool
  matches_allowed_working_dir dir [] root = true
  matches_allowed_working_dir none (entry ∷ entries) root = false
  matches_allowed_working_dir (some String.[]) (entry ∷ entries) root = false
  matches_allowed_working_dir (some dir) (entry ∷ entries) root = elim (resolve dir) [
    | none ↦ false
    | some normalized ↦ any (is_entry_of root normalized) (entry ∷ entries)
  ]

  -- From the timeout on.
  unfoldable pub check_timeout : String → String → Policy → ToolArgs → Matched → Decision
  check_timeout tool on_denied policy args allow = elim policy.max_timeout_seconds [
    | none ↦ accepted
    | some limit ↦ elim (exceeds (timeout_or_default args.timeout) limit) [
      | none ↦ denied tool on_denied "timeout is not numeric" (some allow) none
      | some true ↦
          denied tool on_denied "timeout exceeds workflow policy maximum" (some allow) none
      | some false ↦ accepted
    ]
  ]
    where
      accepted : Decision
      accepted = record {
        tool = tool;
        allowed = true;
        auto_confirmed = true;
        on_denied = on_denied;
        reason = "allowed by workflow policy";
        matched_allow_rule = some allow;
        matched_deny_rule = none;
      }

  -- From the allow rules on.
  unfoldable pub check_allow :
      String → String → Policy → ToolArgs → String → Option String → List (Option Rule) → Decision
  unfolding check_timeout
  check_allow tool on_denied policy args command root [] =
      denied tool on_denied "no allow rules configured" none none
  check_allow tool on_denied policy args command root (rule ∷ rules) =
      elim (first_match command root (rule ∷ rules)) [
        | none ↦ denied tool on_denied "no allow rule matched" none none
        | some allow ↦
            if matches_allowed_working_dir (or_text args.working_dir args.cwd)
              policy.allowed_working_dirs root
            then check_timeout tool on_denied policy args allow
            else denied tool on_denied "working_dir is not allowed by workflow policy" (some allow)
                none
      ]

  -- From the deny rules on; deny rules that are no list are passed over.
  unfoldable pub check_rules :
      String → String → Policy → ToolArgs → String → Option String → Decision
  check_rules tool on_denied policy args command root =
      elim (first_match command root (rules_or_none policy.deny)) [
        | some deny ↦ denied tool on_denied "deny rule matched" none (some deny)
        | none ↦ check_allow tool on_denied policy args command root (rules_or_none policy.allow)
      ]

  -- The policy is that of the tool under `guarded_tools`, if it is a dict there.
  unfoldable pub evaluate_workflow_guarded_tool_policy :
      String → ToolArgs → Option Policy → Option String → Decision
  evaluate_workflow_guarded_tool_policy tool args none root =
      denied (strip tool) "fail" "missing guarded tool workflow policy" none none
  evaluate_workflow_guarded_tool_policy tool args (some policy) root =
      let on_denied = on_denied_of policy.on_denied in
      if policy.auto_confirm
      then (elim args.command [
        | none ↦ denied (strip tool) on_denied "missing command" none none
        | some command ↦
            if is_blank command
            then denied (strip tool) on_denied "missing command" none none
            else check_rules (strip tool) on_denied policy args (strip command) root
      ])
      else denied (strip tool) on_denied "workflow policy does not enable auto_confirm" none none
