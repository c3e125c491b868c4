-- ===== src/Login/Tests.antt =====
-- Runs of the login limiter, on which its theorems are applied.
use nd3x.Prelude.{◌-◌, ◌+◌, ◌/◌, ◌≤◌, ◌≡◌, arith, List, [], ◌∷◌}
use nd3x.Login.{lockout, millis, retry_after}
use nd3x.Login.Lockout.{
  Attempt, failure, success, attempt, attempts, IsBurst, burst_locks, few_failures_free,
}

-- Five failures of "a" within a minute, and one of "b".
abbrev burst : List Attempt
burst =
    failure "a" 1000
    ∷ failure "a" 9000
    ∷ failure "b" 10000
    ∷ failure "a" 20000
    ∷ failure "a" 30000
    ∷ failure "a" 60000
    ∷ []

burst-IsBurst : IsBurst "a" 1000 burst
burst-IsBurst = ground arith

burst_locks_example :
    (1000 + lockout - 61000) / millis
    ≤ retry_after "a" 61000 (attempts burst (attempts (success "b" ∷ []) []))
burst_locks_example =
    burst_locks "a" 1000 (success "b" ∷ []) burst 61000 burst-IsBurst (omega arith)

few_failures_free_example :
    retry_after "a" 5000 (
      attempts
        (failure "a" 3000 ∷ failure "b" 4000 ∷ [])
        (attempt (success "a") (attempts burst [])))
    ≡ 0
few_failures_free_example =
    few_failures_free "a" burst (failure "a" 3000 ∷ failure "b" 4000 ∷ []) 5000 (omega arith)
