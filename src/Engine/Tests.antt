-- ===== src/Engine/Tests.antt =====
-- A small graph, on which the theorems about the executor's loop are applied.
use nd3x.Prelude.{
  ℕ, ◌≡◌, ◌≢◌, refl, ◌⊎◌, Bool, true, false, not, ◌==◌, Option, none, some, List, [], ◌∷◌, arith,
  elem,
}
use nd3x.Json.{Value, Fields}
use nd3x.Engine.{
  Operation, NodeStatus, Dict, Kind, on_success, on_failure, incoming_followups, any_pending,
  any_fired, gate_open, followup_branch_dead, dependencies_satisfied, lookup, is_ended,
  operation_key,
}
use nd3x.Engine.Skips.{skip_closure}
use nd3x.Engine.Closure.{IsClosed}
use nd3x.Engine.Loop.{
  Answer, Context, Exit, finished, out_of_fuel, execute_operations, start_context,
}
use nd3x.Engine.Gate.{followup_cases}
use nd3x.Engine.Termination.{execute_operations_ends}
use nd3x.Engine.Settled.{finished_settles}
use nd3x.Engine.Least.{skip_closure_least, skip_closure-IsClosed}

abbrev operation : ℕ → List ℕ → Option ℕ → Option ℕ → Operation
operation id depends_on success failure = record {
  id = id;
  depends_on = depends_on;
  on_success_follow_up = success;
  on_failure_follow_up = failure;
}

-- 1 leads to 2 if it succeeds and to 3 if it fails; 4 depends on 2 and 5 on 4.
abbrev graph : List Operation
graph =
    operation 1 [] (some 2) (some 3)
    ∷ operation 2 [] none none
    ∷ operation 3 [] none none
    ∷ operation 4 (2 ∷ []) none none
    ∷ operation 5 (4 ∷ []) none none
    ∷ []

-- 4 is a condition that skips 5; every other operation has a result.
abbrev answers : ℕ → Context → Operation → Answer
answers round c op = elim (op.id == 4) [
  | true ↦ Answer.condition (5 ∷ []) Value.null
  | false ↦ Answer.result Value.null
]

abbrev never_cancelled : ℕ → Bool
never_cancelled n = false

-- 1 has failed.
abbrev after_failure : Dict NodeStatus
after_failure = (1, NodeStatus.failed) ∷ []

followup_cases_example :
    ((any_pending after_failure ((1, on_success) ∷ []) ≡ true)
      × (gate_open after_failure (incoming_followups 2 graph) ≡ false)
      × (followup_branch_dead (operation 2 [] none none) graph after_failure ≡ false))
    ⊎ (((any_pending after_failure ((1, on_success) ∷ []) ≡ false)
          × (any_fired after_failure ((1, on_success) ∷ []) ≡ true)
          × (gate_open after_failure (incoming_followups 2 graph) ≡ true)
          × (followup_branch_dead (operation 2 [] none none) graph after_failure ≡ false))
        ⊎ ((any_pending after_failure ((1, on_success) ∷ []) ≡ false)
            × (any_fired after_failure ((1, on_success) ∷ []) ≡ false)
            × (gate_open after_failure (incoming_followups 2 graph) ≡ false)
            × (followup_branch_dead (operation 2 [] none none) graph after_failure ≡ true)))
unfolding incoming_followups
followup_cases_example =
    followup_cases (operation 2 [] none none) graph after_failure (1, on_success) [] refl

execute_operations_ends_example :
    execute_operations answers never_cancelled (start_context graph [] [] Fields.end) ≢ out_of_fuel
execute_operations_ends_example =
    execute_operations_ends answers never_cancelled (start_context graph [] [] Fields.end)

skip_closure-IsClosed_example :
    ((x : ℕ) → elem x (2 ∷ []) ≡ true → elem x (skip_closure graph (4 ∷ 5 ∷ []) (2 ∷ [])) ≡ true)
    × IsClosed graph (4 ∷ 5 ∷ []) (skip_closure graph (4 ∷ 5 ∷ []) (2 ∷ []))
skip_closure-IsClosed_example = skip_closure-IsClosed graph (4 ∷ 5 ∷ []) (2 ∷ [])

abbrev context_of : Exit → Context
context_of (finished c) = c
context_of _ = start_context [] [] [] Fields.end

abbrev final : Context
final =
    context_of (execute_operations answers never_cancelled (start_context graph [] [] Fields.end))

finished_settles_example : is_ended (lookup 3 final.operation_statuses) ≡ true
unfolding execute_operations nd3x.Engine.Loop.run_rounds nd3x.Engine.Loop.run_round
    nd3x.Engine.Loop.take_answers nd3x.Engine.Loop.take_answer nd3x.Engine.Loop.settle
    nd3x.Engine.Loop.follow_success nd3x.Engine.Loop.follow nd3x.Engine.Loop.skip_branch
    nd3x.Engine.Loop.skip_dead nd3x.Engine.Loop.select nd3x.Engine.Loop.start_context
    nd3x.Engine.incoming_followups nd3x.Engine.any_pending nd3x.Engine.any_fired
    nd3x.Engine.dead_from nd3x.Engine.lookup nd3x.Engine.put nd3x.Engine.dependencies_satisfied
    nd3x.Engine.followup_branch_dead nd3x.Engine.Skips.skip_closure nd3x.Engine.Skips.skip_rounds
    nd3x.Engine.Skips.skip_round nd3x.Engine.Skips.skip_one nd3x.Engine.Skips.set_of
    nd3x.Engine.Skips.sorted nd3x.Engine.Skips.insert_sorted nd3x.Engine.Skips.depends_on_of
    nd3x.Table.find nd3x.Table.modify
finished_settles_example = finished_settles answers never_cancelled graph final refl 3 refl

abbrev is_later : ℕ → Bool
is_later x = not (x == 1)

later_absorbs : (c : ℕ) → elem c (4 ∷ 5 ∷ []) ≡ true → is_later c ≡ true
later_absorbs c h = ground arith

named_later : (x : ℕ) → elem x (2 ∷ []) ≡ true → is_later x ≡ true
named_later x h = ground arith

skip_closure_least_example : is_later 5 ≡ true
unfolding nd3x.Engine.Skips.skip_closure nd3x.Engine.Skips.skip_rounds nd3x.Engine.Skips.skip_round
    nd3x.Engine.Skips.skip_one nd3x.Engine.Skips.set_of nd3x.Engine.Skips.depends_on_of
    nd3x.Table.find
skip_closure_least_example =
    skip_closure_least graph is_later (4 ∷ 5 ∷ []) (2 ∷ []) (λ c h _ _. later_absorbs c h)
      named_later 5 refl
