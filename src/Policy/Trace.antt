-- ===== src/Policy/Trace.antt =====
-- What a decision records beside its verdict.
use nd3x.Prelude.{
  Bool, true, false, ◌≡◌, refl, subst, inl, inr, String, Option, none, some, List, [], ◌∷◌, ◌∙◌,
  if◌then◌else◌, Bool-cases, Option-cases,
}
use nd3x.Json.{Value}
use nd3x.Policy.Text.{strip, is_blank, is_some}
use nd3x.Policy.Rules.{Rule, Matched, match_rule}
use nd3x.Policy.{
  Policy, ToolArgs, Decision, denied, on_denied_of, timeout_or_default, first_match, rules_or_none,
  check_timeout, check_allow, check_rules, evaluate_workflow_guarded_tool_policy,
}

-- the deny and the allow rules, of which a missing policy has none
abbrev pub deny_rules : Option Policy → List (Option Rule)
deny_rules none = []
deny_rules (some policy) = rules_or_none policy.deny

abbrev pub allow_rules : Option Policy → List (Option Rule)
allow_rules none = []
allow_rules (some policy) = rules_or_none policy.allow

-- the command of the call that the rules are asked about
abbrev pub asked_command : ToolArgs → String
asked_command args = elim (args.command) [ none ↦ "" | some command ↦ strip command ]

module _ (re_search : String → String → Option Bool) (command : String) (root : Option String) where
  -- A rule of the list matches the command, and `m` is what is recorded of it.
  pub data IsMatch (m : Matched) : List (Option Rule) → Type 0 where
    here :
        {rule : Option Rule} {rules : List (Option Rule)}
        → match_rule re_search command root rule ≡ some m
        → IsMatch m (rule ∷ rules)
    there :
        {rule : Option Rule} {rules : List (Option Rule)}
        → IsMatch m rules
        → IsMatch m (rule ∷ rules)

  -- A call is confirmed exactly if it is allowed, then with an allow rule. A rule that is named is one
  -- of the policy's that matches the command, and a call with a deny rule that matched is not allowed.
  pub record IsJustified (deny allow : List (Option Rule)) (d : Decision) : Type 0 where
    pub confirmed : d.auto_confirmed ≡ d.allowed
    pub matched : d.allowed ≡ true → is_some d.matched_allow_rule ≡ true
    pub allow_named : (m : Matched) → d.matched_allow_rule ≡ some m → IsMatch m allow
    pub deny_named :
        (m : Matched) → d.matched_deny_rule ≡ some m → IsMatch m deny × (d.allowed ≡ false)

module _ (re_search : String → String → Option Bool) (resolve : String → Option String)
    (exceeds : Value → Value → Option Bool) where
  first_match-IsMatch :
      (command : String) (root : Option String) (rules : List (Option Rule)) (m : Matched)
      → first_match re_search resolve exceeds command root rules ≡ some m
      → IsMatch re_search command root m rules
  unfolding first_match
  first_match-IsMatch command root [] m h = cc
  first_match-IsMatch command root (rule ∷ rules) m h =
      elim (Option-cases (match_rule re_search command root rule)) [
        | inl e ↦ there (first_match-IsMatch command root rules m (rw (e, first_match) at h))
        | inr (found, e) ↦ here (e ∙ (rw (e, first_match) at h))
      ]

  module _ (command : String) (root : Option String) (deny allow : List (Option Rule)) where
    abbrev Named : List (Option Rule) → Option Matched → Type 0
    Named rules found = (m : Matched) → found ≡ some m → IsMatch re_search command root m rules

    nothing-Named : (rules : List (Option Rule)) → Named rules none
    nothing-Named rules m h = cc

    one-Named :
        (rules : List (Option Rule)) (found : Matched)
        → IsMatch re_search command root found rules
        → Named rules (some found)
    one-Named rules found k m h =
        let same : found ≡ m = cc in subst (λ x. IsMatch re_search command root x rules) same k

    denied-IsJustified :
        (tool on_denied reason : String) (a d : Option Matched)
        → Named allow a
        → Named deny d
        → IsJustified re_search command root deny allow (denied tool on_denied reason a d)
    unfolding denied
    denied-IsJustified tool on_denied reason a d na nd = record {
      confirmed = refl;
      matched = λ h. cc;
      allow_named = na;
      deny_named = λ m h. (nd m h, refl);
    }

    refused-IsJustified :
        (tool on_denied reason : String)
        → IsJustified re_search command root deny allow (denied tool on_denied reason none none)
    refused-IsJustified tool on_denied reason =
        denied-IsJustified tool on_denied reason none none (nothing-Named allow)
          (nothing-Named deny)

    module _ (tool on_denied : String) (policy : Policy) (args : ToolArgs) where
      timeout-IsJustified :
          (found : Matched)
          → IsMatch re_search command root found allow
          → IsJustified re_search command root deny allow
              (check_timeout re_search resolve exceeds tool on_denied policy args found)
      unfolding check_timeout
      timeout-IsJustified found k = elim (Option-cases policy.max_timeout_seconds) [
        | inl e ↦ rw (e, check_timeout) ok_then
        | inr (limit, e) ↦ elim (Option-cases (exceeds (timeout_or_default args.timeout) limit)) [
          | inl f ↦ rw (e, check_timeout) (rw f (late _))
          | inr (true, f) ↦ rw (e, check_timeout) (rw f (late _))
          | inr (false, f) ↦ rw (e, check_timeout) (rw f ok_then)
        ]
      ]
        where
          late :
              (reason : String)
              → IsJustified re_search command root deny allow
                  (denied tool on_denied reason (some found) none)
          late reason =
              denied-IsJustified tool on_denied reason (some found) none (one-Named allow found k)
                (nothing-Named deny)

          ok_then : IsJustified re_search command root deny allow (record {
            tool = tool;
            allowed = true;
            auto_confirmed = true;
            on_denied = on_denied;
            reason = "allowed by workflow policy";
            matched_allow_rule = some found;
            matched_deny_rule = none;
          })
          ok_then = record {
            confirmed = refl;
            matched = λ h. refl;
            allow_named = one-Named allow found k;
            deny_named = λ m h. cc;
          }

      inside-IsJustified :
          (found : Matched) (inside : Bool)
          → IsMatch re_search command root found allow
          → IsJustified re_search command root deny allow (
              if inside
              then check_timeout re_search resolve exceeds tool on_denied policy args found
              else denied tool on_denied "working_dir is not allowed by workflow policy"
                  (some found)
                  none)
      inside-IsJustified found true k = timeout-IsJustified found k
      inside-IsJustified found false k =
          denied-IsJustified tool on_denied _ (some found) none (one-Named allow found k)
            (nothing-Named deny)

      allow-IsJustified :
          (rules : List (Option Rule))
          → rules ≡ allow
          → IsJustified re_search command root deny allow
              (check_allow re_search resolve exceeds tool on_denied policy args command root rules)
      unfolding check_allow
      allow-IsJustified [] same = refused-IsJustified _ _ _
      allow-IsJustified (rule ∷ rules) same =
          elim (Option-cases (first_match re_search resolve exceeds command root (rule ∷ rules))) [
            | inl e ↦ rw (e, check_allow) (refused-IsJustified _ _ _)
            | inr (found, e) ↦
                rw (e, check_allow)
                  (inside-IsJustified found _ (
                    subst (IsMatch re_search command root found) same
                      (first_match-IsMatch command root (rule ∷ rules) found e)))
          ]

  -- Whatever the policy, a decision confirms a call exactly if it allows it, and then it names an allow
  -- rule. An allow rule that it names, also where it refuses, is one of the policy's that matches the
  -- command; a deny rule that it names is one of the policy's that matches it, and the call is refused.
  pub evaluate-IsJustified :
      (tool : String) (args : ToolArgs) (policy : Option Policy) (root : Option String)
      → IsJustified re_search
          (asked_command args)
          root
          (deny_rules policy)
          (allow_rules policy)
          (evaluate_workflow_guarded_tool_policy re_search resolve exceeds tool args policy root)
  unfolding evaluate_workflow_guarded_tool_policy check_rules
  evaluate-IsJustified tool args none root = refused-IsJustified _ root _ _ _ _ _
  evaluate-IsJustified tool args (some policy) root = elim (Bool-cases policy.auto_confirm) [
    | inr e ↦ rw e (refused-IsJustified _ root _ _ _ _ _)
    | inl e ↦ elim (Option-cases args.command) [
      | inl f ↦ rw (e, f) (refused-IsJustified _ root _ _ _ _ _)
      | inr (command, f) ↦ elim (Bool-cases (is_blank command)) [
        | inl b ↦ rw (e, f) (rw b (refused-IsJustified _ root _ _ _ _ _))
        | inr b ↦ rw (e, f) (rw b (asked command))
      ]
    ]
  ]
    where
      asked :
          (command : String)
          → IsJustified re_search
              (strip command)
              root
              (deny_rules (some policy))
              (allow_rules (some policy))
              (check_rules re_search resolve exceeds
                (strip tool)
                (on_denied_of policy.on_denied)
                policy
                args
                (strip command)
                root)
      asked command =
          elim (Option-cases (
            first_match re_search resolve exceeds (strip command) root
              (rules_or_none policy.deny))) [
                | inl e ↦
                    rw (e, check_rules)
                      (allow-IsJustified (strip command) root (rules_or_none policy.deny)
                        (rules_or_none policy.allow) (strip tool) (on_denied_of policy.on_denied)
                        policy args (rules_or_none policy.allow) refl)
                | inr (found, e) ↦
                    rw (e, check_rules)
                      (denied-IsJustified (strip command) root (rules_or_none policy.deny)
                        (rules_or_none policy.allow) (strip tool) (on_denied_of policy.on_denied)
                        "deny rule matched" none (some found)
                        (nothing-Named (strip command) root (rules_or_none policy.deny)
                          (rules_or_none policy.allow) (rules_or_none policy.allow))
                        (one-Named (strip command) root (rules_or_none policy.deny)
                          (rules_or_none policy.allow) (rules_or_none policy.deny) found
                          (first_match-IsMatch (strip command) root (rules_or_none policy.deny)
                            found e)))
              ]
