-- ===== src/Engine/Settled.antt =====
-- An execution that finishes has settled every operation of the graph.
use nd3x.Prelude.{
  ℕ, zero, suc, ◌≡◌, refl, Bool, true, ◌⊎◌, inl, inr, String, some, List, [], ◌∷◌, map, arith, ◌==◌,
  elem, keep, length, Bool-cases, Option-cases, if◌then◌else◌,
}
use nd3x.Json.{Value, Fields}
use nd3x.Engine.{
  Operation, NodeStatus, success, failed, skipped, Dict, lookup, put, is_ended, operation_key,
}
use nd3x.Engine.Loop.{
  Answer, Context, Exit, going, finished, waiting, failure, out_of_fuel, and_then, is_empty,
  discard, settle, branch_output, dead_output, error_output, truthy_id, follow, follow_success,
  skip_branch, failed_operation, take_answer, take_answers, ready, dead, skip_dead, run_round,
  run_rounds, execute_operations, is_unknown, start_context,
}
use nd3x.Engine.Pending.{elem-discard}
use nd3x.Engine.Gate.{List-cases}

pub lookup-put :
    {V : Type 0} (k : ℕ) (v : V) (j : ℕ) (d : Dict V)
    → lookup j (put k v d) ≡ (if k == j then some v else lookup j d)
unfolding lookup put
lookup-put k v j [] = refl
lookup-put k v j ((i, w) ∷ d) = ground (arith, lookup-put k v j d)

-- Every id of the list is pending or has ended.
pub record Covers (ids : List ℕ) (c : Context) : Type 0 where
  pub at :
      (id : ℕ)
      → elem id ids ≡ true
      → (elem id c.pending ≡ true) ⊎ (is_ended (lookup id c.operation_statuses) ≡ true)

abbrev CoversExit : List ℕ → Exit → Type 0
CoversExit ids (going c) = Covers ids c
CoversExit ids (finished c) =
    (id : ℕ) → elem id ids ≡ true → is_ended (lookup id c.operation_statuses) ≡ true
CoversExit ids _ = Unit

module _ (ids : List ℕ) where
  settle-Covers :
      (id : ℕ) (status : NodeStatus) (output : Value) (c : Context)
      → is_ended (some status) ≡ true
      → Covers ids c
      → Covers ids (settle id status output (record c { pending = discard id c.pending }))
  unfolding settle
  settle-Covers id status output c ended h = record {
    at = λ j e.
        ground (
          arith,
          h.at j e,
          elem-discard id j c.pending,
          lookup-put id status j c.operation_statuses,
        );
  }

  follow_success-Covers :
      (op : Operation) (c : Context) → Covers ids c → Covers ids (follow_success op c)
  unfolding follow_success follow
  follow_success-Covers op c h = record { at = λ j e. ground (arith, h.at j e) }

  skip_branch-Covers :
      (source : ℕ) (skips : List ℕ) (c : Context)
      → Covers ids c
      → Covers ids (skip_branch source skips c)
  unfolding skip_branch
  skip_branch-Covers source [] c h = h
  skip_branch-Covers source (id ∷ skips) c h =
      skip_branch-Covers source skips _ (settle-Covers id skipped (branch_output source) c refl h)

  failed_operation-Covers :
      (op : Operation) (message : String) (c : Context)
      → Covers ids (settle op.id failed (error_output message) c)
      → CoversExit ids (failed_operation op message c)
  unfolding failed_operation follow settle
  failed_operation-Covers op message c h = elim (Option-cases (truthy_id op.on_failure_follow_up)) [
    | inl e ↦ rw (e, failed_operation) tt
    | inr (target, e) ↦ elim (Bool-cases (elem target c.pending)) [
      | inl p ↦ rw (e, failed_operation) (rw p (record { at = h.at }))
      | inr p ↦ rw (e, failed_operation) (rw p h)
    ]
  ]

  take_answer-Covers :
      (op : Operation) (a : Answer) (c : Context)
      → Covers ids c
      → CoversExit ids (take_answer op a (record c { pending = discard op.id c.pending }))
  unfolding take_answer
  take_answer-Covers op (Answer.raised message) c h =
      failed_operation-Covers op message (record c { pending = discard op.id c.pending })
        (settle-Covers op.id failed (error_output message) c refl h)
  take_answer-Covers op (Answer.skip output) c h = settle-Covers op.id skipped output c refl h
  take_answer-Covers op (Answer.pause status output) c h = tt
  take_answer-Covers op (Answer.set_variable variables output) c h =
      follow_success-Covers op _ (record { at = (settle-Covers op.id success output c refl h).at })
  take_answer-Covers op (Answer.condition named output) c h =
      follow_success-Covers op _
        (skip_branch-Covers op.id _ _ (settle-Covers op.id success output c refl h))
  take_answer-Covers op (Answer.result output) c h =
      follow_success-Covers op _ (settle-Covers op.id success output c refl h)

  and_then-Covers :
      (x : Exit) (k : Context → Exit)
      → CoversExit ids x
      → ((c : Context) → Covers ids c → CoversExit ids (k c))
      → CoversExit ids (and_then x k)
  and_then-Covers (going c) k h rest = rest c h
  and_then-Covers (finished c) k h rest = h
  and_then-Covers (waiting id c) k h rest = tt
  and_then-Covers (failure f c) k h rest = tt
  and_then-Covers out_of_fuel k h rest = tt

  take_answers-Covers :
      (batch : List (Operation × Answer)) (c : Context)
      → Covers ids c
      → CoversExit ids (take_answers batch c)
  unfolding take_answers
  take_answers-Covers [] c h = h
  take_answers-Covers ((op, a) ∷ rest) c h = elim (Bool-cases (elem op.id c.pending)) [
    | inl e ↦ rw e (
        and_then-Covers _ (take_answers rest) (take_answer-Covers op a c h)
          (λ d k. take_answers-Covers rest d k))
    | inr e ↦ rw e tt
  ]

  skip_dead-Covers :
      (ops : List Operation) (c : Context) → Covers ids c → Covers ids (skip_dead ops c)
  unfolding skip_dead
  skip_dead-Covers [] c h = h
  skip_dead-Covers (op ∷ ops) c h =
      skip_dead-Covers ops _ (settle-Covers op.id skipped dead_output c refl h)

  all_ended : (c : Context) → is_empty c.pending ≡ true → Covers ids c → CoversExit ids (finished c)
  all_ended c e h id k = elim (h.at id k) [ inl p ↦ absurd (not_elem c.pending e p) | inr q ↦ q ]
    where
      not_elem : (xs : List ℕ) → is_empty xs ≡ true → elem id xs ≡ true → ⊥
      not_elem [] e p = cc
      not_elem (x ∷ xs) e p = cc

  module _ (answer : ℕ → Context → Operation → Answer) (cancelled : ℕ → Bool) where
    run_round-Covers :
        (round : ℕ) (c : Context)
        → Covers ids c
        → CoversExit ids (run_round answer cancelled round c)
    unfolding run_round
    run_round-Covers round c h = elim (List-cases (ready c)) [
      | inl none_ready ↦ elim (List-cases (dead c)) [
        | inl none_dead ↦ rw (none_ready, run_round) (rw none_dead tt)
        | inr (op, ops, some_dead) ↦
            rw (none_ready, run_round) (rw some_dead (skip_dead-Covers (op ∷ ops) c h))
      ]
      | inr (op, ops, some_ready) ↦ elim (Bool-cases (cancelled (suc round))) [
        | inl e ↦ rw (some_ready, run_round) (rw e tt)
        | inr e ↦ rw (some_ready, run_round) (rw e (take_answers-Covers _ c h))
      ]
    ]

    run_rounds-Covers :
        (fuel round : ℕ) (c : Context)
        → Covers ids c
        → CoversExit ids (run_rounds answer cancelled fuel round c)
    unfolding run_rounds
    run_rounds-Covers zero round c h = tt
    run_rounds-Covers (suc fuel) round c h = elim (Bool-cases (is_empty c.pending)) [
      | inl e ↦ rw e (all_ended c e h)
      | inr e ↦ elim (Bool-cases (cancelled round)) [
        | inl s ↦ rw e (rw s tt)
        | inr s ↦ rw e (
            rw s (
              and_then-Covers (run_round answer cancelled round c)
                (run_rounds answer cancelled fuel (suc (suc round))) (run_round-Covers round c h)
                (λ d k. run_rounds-Covers fuel (suc (suc round)) d k)))
      ]
    ]

    execute_operations-Covers :
        (c : Context) → Covers ids c → CoversExit ids (execute_operations answer cancelled c)
    unfolding execute_operations
    execute_operations-Covers c h = elim (Bool-cases (cancelled 0)) [
      | inl e ↦ rw e tt
      | inr e ↦ rw e (run_rounds-Covers (suc (length c.pending)) 1 c h)
    ]

elem-keep_all :
    (id : ℕ) (ids : List ℕ)
    → elem id ids ≡ true
    → elem id (keep (λ x. is_unknown (lookup {V = NodeStatus} x [])) ids) ≡ true
unfolding lookup
elem-keep_all id [] h = h
elem-keep_all id (x ∷ ids) h = ground (arith, elem-keep_all id ids)

start-Covers :
    (ops : List Operation) → Covers (map operation_key ops) (start_context ops [] [] Fields.end)
unfolding start_context
start-Covers ops = record { at = λ id h. inl (elem-keep_all id (map operation_key ops) h) }

-- A run that starts with no operation done and finishes has ended every operation of its workflow:
-- each has succeeded, failed or been skipped.
pub finished_settles :
    (answer : ℕ → Context → Operation → Answer) (cancelled : ℕ → Bool) (ops : List Operation)
    (c : Context)
    → execute_operations answer cancelled (start_context ops [] [] Fields.end) ≡ finished c
    → (id : ℕ) → elem id (map operation_key ops) ≡ true
    → is_ended (lookup id c.operation_statuses) ≡ true
finished_settles answer cancelled ops c e =
    let covers =
      execute_operations-Covers (map operation_key ops) answer cancelled
        (start_context ops [] [] Fields.end) (start-Covers ops) in
    rw e at covers
