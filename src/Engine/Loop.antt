-- ===== src/Engine/Loop.antt =====
-- `_execute_operations` of src/services/workflows/workflow_executor.py: the loop that runs the
-- ready operations of the graph, a batch at a time, until none is pending.
--
-- What an operation's body does is the environment's: `answer` gives, for each round, what
-- `_execute_single_operation` returned or raised, sorted by the `mode` of the returned dict, and
-- `cancelled` says whether a cancellation was found before or after a round's batch.
use nd3x.Prelude.{
  ℕ, zero, suc, Bool, true, false, not, Option, none, some, String, List, [], ◌∷◌, map, ◌==◌, elem,
  keep, length, if◌then◌else◌,
}
use nd3x.Json.{Value, Fields, end, field, obj, num, pos, put_field}
use nd3x.Table.{find, modify}
use nd3x.Engine.{
  Operation, NodeStatus, success, failed, skipped, held, Dict, put, lookup, operation_key,
  dependencies_satisfied, followup_branch_dead,
}
use nd3x.Engine.Skips.{set_add, sorted, skip_closure}

-- What `gather` returns for an operation. A CancelledError among its results, which is no Exception
-- and which the loop takes for a result, is not modelled.
pub data Answer : Type 0 where
  raised : String → Answer
  -- mode "skipped"
  skip : Value → Answer
  -- mode "workflow_waiting", with its status
  pause : String → Value → Answer
  -- mode "set_variable", with `variables_set`
  set_variable : Fields → Value → Answer
  -- mode "condition", with `skipped_operation_ids`
  condition : List ℕ → Value → Answer
  -- any other result
  result : Value → Answer

pub record Context : Type 0 where
  pub operations : List Operation
  pub operation_statuses : Dict NodeStatus
  pub operation_outputs : Dict Value
  pub workflow_variables : Fields
  pub pending : List ℕ
  pub allowed_after_failure : List (ℕ × ℕ)

pub data Failure : Type 0 where
  -- WorkflowCancelled
  workflow_cancelled : Failure
  -- RuntimeError: the operation failed and has no failure follow-up
  failed_without_follow_up : ℕ → String → Failure
  -- RuntimeError: the graph is stuck
  stuck : List ℕ → Failure
  -- KeyError of `pending.remove`
  not_pending : ℕ → Failure

-- How the loop leaves: `going` is a batch that was taken in without leaving.
pub data Exit : Type 0 where
  going : Context → Exit
  finished : Context → Exit
  waiting : ℕ → Context → Exit
  failure : Failure → Context → Exit
  out_of_fuel : Exit

-- The rest of the loop, unless this part has left it.
abbrev pub and_then : Exit → (Context → Exit) → Exit
and_then (going c) k = k c
and_then other k = other

abbrev pub discard : ℕ → List ℕ → List ℕ
discard x = keep (λ y. not (y == x))

-- d.update(other)
unfoldable pub update : Fields → Fields → Fields
unfolding put_field
update variables end = variables
update variables (field k v fs) = update (put_field k v variables) fs

unfoldable pub error_output : String → Value
error_output message = obj (field "error" (Value.str message) end)

unfoldable pub dead_output : Value
dead_output = obj (
    field "mode" (Value.str "skipped")
      (field "reason" (Value.str "follow-up branch not taken") end))

unfoldable pub branch_output : ℕ → Value
branch_output condition_id = obj (
    field "status" (Value.str "skipped") (
      field "reason" (Value.str "condition_branch_not_selected")
        (field "condition_operation_id" (num (pos condition_id)) end)))

unfoldable pub settle : ℕ → NodeStatus → Value → Context → Context
settle id status output c = record c {
  operation_statuses = put id status c.operation_statuses;
  operation_outputs = put id output c.operation_outputs;
}

-- deps = set(depends_on); deps.add(source); op_by_id[target].depends_on = list(deps)
abbrev pub add_dependency : ℕ → Operation → Operation
add_dependency source op = record op { depends_on = set_add source op.depends_on }

unfoldable pub follow : ℕ → ℕ → Context → Context
follow source target c = record c {
  operations = modify operation_key target (add_dependency source) c.operations;
}

-- A follow-up of 0 or None is none.
abbrev pub truthy_id : Option ℕ → Option ℕ
truthy_id (some zero) = none
truthy_id f = f

unfoldable pub follow_success : Operation → Context → Context
follow_success op c = elim (truthy_id op.on_success_follow_up) [
  | none ↦ c
  | some target ↦ if elem target c.pending then follow op.id target c else c
]

-- the operations of a branch that a condition did not select
unfoldable pub skip_branch : ℕ → List ℕ → Context → Context
skip_branch condition_id [] c = c
skip_branch condition_id (id ∷ ids) c =
    skip_branch condition_id ids
      (settle id skipped (branch_output condition_id) (record c { pending = discard id c.pending }))

unfoldable pub failed_operation : Operation → String → Context → Exit
failed_operation op message c =
    let c' = settle op.id failed (error_output message) c in
    elim (truthy_id op.on_failure_follow_up) [
      | none ↦ failure (failed_without_follow_up op.id message) c'
      | some target ↦ going (
          if elem target c'.pending
          then follow op.id target
              (record c' { allowed_after_failure = (op.id, target) ∷ c'.allowed_after_failure })
          else c')
    ]

-- What the loop does with one operation's result, once it has left the pending ones.
unfoldable pub take_answer : Operation → Answer → Context → Exit
take_answer op (raised message) c = failed_operation op message c
take_answer op (skip output) c = going (settle op.id skipped output c)
take_answer op (pause status output) c = waiting op.id (settle op.id (held status) output c)
take_answer op (set_variable variables output) c =
    let c' = settle op.id success output c in
    going (
      follow_success op (record c' { workflow_variables = update c'.workflow_variables variables }))
take_answer op (condition ids output) c =
    let c' = settle op.id success output c in
    going (
      follow_success op (skip_branch op.id (sorted (skip_closure c'.operations c'.pending ids)) c'))
take_answer op (result output) c = going (follow_success op (settle op.id success output c))

-- `for op, result in zip(ready, results)`; `pending.remove` raises if the operation is gone.
unfoldable pub take_answers : List (Operation × Answer) → Context → Exit
take_answers [] c = going c
take_answers ((op, answer) ∷ rest) c =
    if elem op.id c.pending
    then and_then (take_answer op answer (record c { pending = discard op.id c.pending }))
        (take_answers rest)
    else failure (not_pending op.id) c

-- [op_by_id[id] for id in sorted(pending) if test(op)]
unfoldable pub select : (Operation → Bool) → List Operation → List ℕ → List Operation
select test ops [] = []
select test ops (id ∷ ids) =
    let rest = select test ops ids in
    elim (find operation_key id ops) [ none ↦ rest | some op ↦ if test op then op ∷ rest else rest ]

abbrev pub ready : Context → List Operation
ready c =
    select
      (λ op. dependencies_satisfied op c.operations c.operation_statuses c.allowed_after_failure)
      c.operations (sorted c.pending)

abbrev pub dead : Context → List Operation
dead c =
    select (λ op. followup_branch_dead op c.operations c.operation_statuses) c.operations
      (sorted c.pending)

unfoldable pub skip_dead : List Operation → Context → Context
skip_dead [] c = c
skip_dead (op ∷ ops) c =
    skip_dead ops
      (settle op.id skipped dead_output (record c { pending = discard op.id c.pending }))

abbrev pub is_empty : List ℕ → Bool
is_empty [] = true
is_empty (x ∷ xs) = false

module _ (answer : ℕ → Context → Operation → Answer) (cancelled : ℕ → Bool) where
  -- asyncio.gather: every operation of the batch runs from the context before the batch
  abbrev pub gather : ℕ → Context → List (Operation × Answer)
  gather round c = map (λ op. (op, answer round c op)) (ready c)

  -- One round of the loop.
  unfoldable pub run_round : ℕ → Context → Exit
  run_round round c = elim (ready c) [
    | [] ↦ elim (dead c) [
      | [] ↦ failure (stuck (sorted c.pending)) c
      | op ∷ ops ↦ going (skip_dead (op ∷ ops) c)
    ]
    | _ ↦
        if cancelled (suc round)
        then failure workflow_cancelled c
        else take_answers (gather round c) c
  ]

  -- `cancelled` is asked twice a round: at its start and after its batch.
  unfoldable pub run_rounds : ℕ → ℕ → Context → Exit
  run_rounds zero round c = out_of_fuel
  run_rounds (suc fuel) round c =
      if is_empty c.pending
      then finished c
      else and_then (if cancelled round then failure workflow_cancelled c else run_round round c)
          (run_rounds fuel (suc (suc round)))

  -- Every round takes an operation off the pending ones, so their number is fuel enough.
  unfoldable pub execute_operations : Context → Exit
  unfolding run_rounds
  execute_operations c =
      if cancelled 0 then failure workflow_cancelled c else run_rounds (suc (length c.pending)) 1 c

abbrev pub is_unknown : Option NodeStatus → Bool
is_unknown none = true
is_unknown (some s) = false

-- The context at the start: the operations without a status are pending.
unfoldable pub start_context : List Operation → Dict NodeStatus → Dict Value → Fields → Context
start_context ops statuses outputs variables = record {
  operations = ops;
  operation_statuses = statuses;
  operation_outputs = outputs;
  workflow_variables = variables;
  pending = keep (λ id. is_unknown (lookup id statuses)) (map operation_key ops);
  allowed_after_failure = [];
}
