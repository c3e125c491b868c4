-- ===== src/Policy/Verdict.antt =====
-- What the decision over a guarded tool allows, independently of the order of its checks.
use nd3x.Prelude.{
  Bool, true, false, ◌&&◌, ◌||◌, not, ◌≡◌, refl, inl, inr, arith, String, Option, none, some, List,
  [], ◌∷◌, ◌++◌, any, Bool-cases, Option-cases,
}
use nd3x.Json.{Value}
use nd3x.Policy.Text.{strip, is_blank, is_some}
use nd3x.Policy.Rules.{Rule, Matched, match_rule}
use nd3x.Policy.{
  Policy, ToolArgs, Decision, denied, on_denied_of, or_text, timeout_or_default, first_match,
  matches_allowed_working_dir, rules_or_none, check_timeout, check_allow, check_rules,
  evaluate_workflow_guarded_tool_policy,
}

module _ (re_search : String → String → Option Bool) (resolve : String → Option String)
    (exceeds : Value → Value → Option Bool) where
  abbrev pub matches : String → Option String → Option Rule → Bool
  matches command root rule = is_some (match_rule re_search command root rule)

  abbrev not_over : Option Bool → Bool
  not_over none = false
  not_over (some over) = not over

  abbrev pub within_timeout : Option Value → Option Value → Bool
  within_timeout none timeout = true
  within_timeout (some limit) timeout = not_over (exceeds (timeout_or_default timeout) limit)

  abbrev pub command_permitted : ToolArgs → Policy → Option String → Option String → Bool
  command_permitted args policy root none = false
  command_permitted args policy root (some command) =
      not (is_blank command)
      && not (any (matches (strip command) root) (rules_or_none policy.deny))
      && any (matches (strip command) root) (rules_or_none policy.allow)
      && matches_allowed_working_dir re_search resolve exceeds (or_text args.working_dir args.cwd)
          policy.allowed_working_dirs root
      && within_timeout policy.max_timeout_seconds args.timeout

  -- The policy confirms by itself, the command is no blank text, no deny rule matches it and some
  -- allow rule does, and the directory and the timeout are within the limits.
  abbrev pub permitted : ToolArgs → Policy → Option String → Bool
  permitted args policy root =
      policy.auto_confirm && command_permitted args policy root args.command

  abbrev decide : String → ToolArgs → Option Policy → Option String → Decision
  decide = evaluate_workflow_guarded_tool_policy re_search resolve exceeds

  first_match-any :
      (command : String) (root : Option String) (rules : List (Option Rule))
      → is_some (first_match re_search resolve exceeds command root rules)
        ≡ any (matches command root) rules
  unfolding first_match
  first_match-any command root [] = refl
  first_match-any command root (rule ∷ rules) =
      elim (Option-cases (match_rule re_search command root rule)) [
        | inl e ↦ rw (e, first_match) (first_match-any command root rules)
        | inr (found, e) ↦ rw (e, first_match) refl
      ]

  module _ (tool on_denied : String) (policy : Policy) (args : ToolArgs) where
    timeout-allowed :
        (allow : Matched)
        → (check_timeout re_search resolve exceeds tool on_denied policy args allow).allowed
          ≡ within_timeout policy.max_timeout_seconds args.timeout
    unfolding check_timeout denied
    timeout-allowed allow = elim (Option-cases policy.max_timeout_seconds) [
      | inl e ↦ rw (e, check_timeout) refl
      | inr (limit, e) ↦ elim (Option-cases (exceeds (timeout_or_default args.timeout) limit)) [
        | inl f ↦ rw (e, check_timeout) (rw f refl)
        | inr (true, f) ↦ rw (e, check_timeout) (rw f refl)
        | inr (false, f) ↦ rw (e, check_timeout) (rw f refl)
      ]
    ]

    abbrev directory : Option String → Bool
    directory =
        matches_allowed_working_dir re_search resolve exceeds (or_text args.working_dir args.cwd)
          policy.allowed_working_dirs

    allow-allowed :
        (command : String) (root : Option String) (rules : List (Option Rule))
        → (check_allow re_search resolve exceeds tool on_denied policy args command root
            rules).allowed
          ≡ (any (matches command root) rules
              && directory root
              && within_timeout policy.max_timeout_seconds args.timeout)
    unfolding check_allow denied
    allow-allowed command root [] = refl
    allow-allowed command root (rule ∷ rules) =
        elim (Option-cases (first_match re_search resolve exceeds command root (rule ∷ rules))) [
          | inl e ↦ rw (← first_match-any command root (rule ∷ rules), e, check_allow) refl
          | inr (allow, e) ↦
              rw (← first_match-any command root (rule ∷ rules), e, check_allow)
                (elim (Bool-cases (directory root)) [
                  | inl d ↦ rw d (timeout-allowed allow)
                  | inr d ↦ rw d refl
                ])
        ]

    rules-allowed :
        (command : String) (root : Option String)
        → (check_rules re_search resolve exceeds tool on_denied policy args command root).allowed
          ≡ (not (any (matches command root) (rules_or_none policy.deny))
              && any (matches command root) (rules_or_none policy.allow)
              && directory root
              && within_timeout policy.max_timeout_seconds args.timeout)
    unfolding check_rules denied
    rules-allowed command root =
        let deny = first_match re_search resolve exceeds command root (rules_or_none policy.deny) in
        elim (Option-cases deny) [
          | inl e ↦
              rw (← first_match-any command root (rules_or_none policy.deny), e, check_rules)
                (allow-allowed command root (rules_or_none policy.allow))
          | inr (found, e) ↦
              rw (← first_match-any command root (rules_or_none policy.deny), e, check_rules) refl
        ]

  -- A call is allowed exactly if the policy permits it.
  pub allowed-permitted :
      (tool : String) (args : ToolArgs) (policy : Policy) (root : Option String)
      → (decide tool args (some policy) root).allowed ≡ permitted args policy root
  unfolding evaluate_workflow_guarded_tool_policy denied
  allowed-permitted tool args policy root = elim (Bool-cases policy.auto_confirm) [
    | inr e ↦ rw e refl
    | inl e ↦ elim (Option-cases args.command) [
      | inl f ↦ rw (e, f) refl
      | inr (command, f) ↦ elim (Bool-cases (is_blank command)) [
        | inl b ↦ rw (e, f) (rw b refl)
        | inr b ↦
            rw (e, f)
              (rw b (
                rules-allowed (strip tool) (on_denied_of policy.on_denied) policy args
                  (strip command) root))
      ]
    ]
  ]

  any-append :
      (p : Option Rule → Bool) (more rules : List (Option Rule))
      → any p (more ++ rules) ≡ (any p more || any p rules)
  any-append p [] rules = refl
  any-append p (rule ∷ more) rules = ground (arith, any-append p more rules)

  abbrev pub with_deny : List (Option Rule) → Policy → Policy
  with_deny more policy = record policy { deny = some (more ++ rules_or_none policy.deny) }

  -- With deny rules put before those of a policy, a call that has a command is allowed exactly if
  -- none of them matches the command and the policy allows the call without them.
  pub deny_overrides :
      (tool : String) (args : ToolArgs) (policy : Policy) (root : Option String)
      (more : List (Option Rule)) (command : String)
      → args.command ≡ some command
      → (decide tool args (some (with_deny more policy)) root).allowed ≡ (
          not (any (matches (strip command) root) more)
          && (decide tool args (some policy) root).allowed)
  deny_overrides tool args policy root more command given =
      rw
        (
          allowed-permitted tool args (with_deny more policy) root,
          allowed-permitted tool args policy root,
          given,
          any-append (matches (strip command) root) more (rules_or_none policy.deny),
        )
        (ground arith)
