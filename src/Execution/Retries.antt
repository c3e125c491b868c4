-- ===== src/Execution/Retries.antt =====
-- Which attempt of an operation counts.
use nd3x.Prelude.{
  ℕ, zero, suc, ◌+◌, ◌-◌, ◌≤◌, ◌<◌, ◌≡◌, refl, ap, Bool, true, false, String, arith, ◌==◌,
  Bool-cases, inl, inr, sym, ◌∙◌,
}
use nd3x.Execution.{
  BodyEnd, output, pause, workflow_cancelled, task_cancelled, bad_output, raises, RetryPolicy,
  RetryEnd, got, after_attempt, retry, max_attempts_of,
}

-- An attempt that is followed by another: it raised, and its task was not stopped.
abbrev pub raised_error : BodyEnd → Bool
raised_error (workflow_cancelled m) = true
raised_error (bad_output m v trace) = true
raised_error (raises m) = true
raised_error _ = false

pub record IsFirst (body : ℕ → BodyEnd) (start last : ℕ) (e : BodyEnd) (n : ℕ) : Type 0 where
  pub its : body n ≡ e
  pub from : start ≤ n
  pub until : n ≤ last
  pub before : (k : ℕ) → start ≤ k → k < n → raised_error (body k) ≡ true

module _ (body : ℕ → BodyEnd) where
  abbrev Finds : ℕ → ℕ → RetryEnd → Type 0
  Finds left attempt r =
      (e : BodyEnd) (n : ℕ) → r ≡ got e n → IsFirst body attempt (attempt + left - 1) e n

  got-IsFirst :
      (left attempt : ℕ) (e : BodyEnd) (e' : BodyEnd) (n : ℕ)
      → body attempt ≡ e
      → got e attempt ≡ got e' n
      → IsFirst body attempt (attempt + suc left - 1) e' n
  got-IsFirst left attempt e e' n f h =
      let same : e ≡ e' = cc in
      let number : attempt ≡ n = cc in
      record {
        its = ap body (sym number) ∙ f ∙ same;
        from = omega arith;
        until = omega arith;
        before = λ k p q. absurd (omega arith);
      }

  next-first :
      (left attempt : ℕ) (b : BodyEnd) (r : RetryEnd)
      → body attempt ≡ b
      → raised_error b ≡ true
      → Finds left (suc attempt) r
      → Finds (suc left) attempt r
  next-first left attempt b r f raised ih e n h =
      let first = ih e n h in
      record {
        its = first.its;
        from = omega (arith, first.from);
        until = omega (arith, first.until);
        before = λ k p q. elim (Bool-cases (k == attempt)) [
          | inl here ↦ let same : k ≡ attempt = ground arith in rw same (rw f raised)
          | inr there ↦ first.before k (ground arith) q
        ];
      }

  attempt-first :
      (left attempt : ℕ) (b : BodyEnd) (next : String → RetryEnd)
      → body attempt ≡ b
      → ((m : String) → Finds left (suc attempt) (next m))
      → Finds (suc left) attempt (after_attempt b attempt next)
  attempt-first left attempt (output v) next f ih e n h =
      got-IsFirst left attempt (output v) e n f h
  attempt-first left attempt (pause status pending trace v) next f ih e n h =
      got-IsFirst left attempt (pause status pending trace v) e n f h
  attempt-first left attempt task_cancelled next f ih e n h = cc
  attempt-first left attempt (workflow_cancelled m) next f ih e n h =
      next-first left attempt (workflow_cancelled m) (next m) f refl (ih m) e n h
  attempt-first left attempt (bad_output m v trace) next f ih e n h =
      next-first left attempt (bad_output m v trace) (next m) f refl (ih m) e n h
  attempt-first left attempt (raises m) next f ih e n h =
      next-first left attempt (raises m) (next m) f refl (ih m) e n h

  retry-Finds :
      (left attempt : ℕ) (last : String) → Finds left attempt (retry body left attempt last)
  unfolding retry
  retry-Finds zero attempt last e n h = cc
  retry-Finds (suc left) attempt last e n h =
      attempt-first left attempt (body attempt) (retry body left (suc attempt)) refl
        (λ m. retry-Finds left (suc attempt) m) e n h

  max_attempts_bounds :
      (policy : RetryPolicy) → (1 ≤ max_attempts_of policy) × (max_attempts_of policy ≤ 5)
  unfolding max_attempts_of
  max_attempts_bounds policy = ground arith

  -- An output that the retries of a failed operation give is that of the first attempt that does not
  -- raise, and this is the fifth attempt at the latest, whatever the policy asks for.
  pub retry-IsFirst :
      (policy : RetryPolicy) (message : String) (e : BodyEnd) (n : ℕ)
      → retry body (max_attempts_of policy - 1) 2 message ≡ got e n
      → IsFirst body 2 5 e n
  retry-IsFirst policy message e n h =
      let first = retry-Finds (max_attempts_of policy - 1) 2 message e n h in
      record {
        its = first.its;
        from = first.from;
        until = omega (arith, first.until, max_attempts_bounds policy);
        before = first.before;
      }
