-- ===== src/ForEach.antt =====
-- `_execute_for_each_operation` of src/services/workflows/workflow_executor.py: a child run of a
-- workflow for every item, and the results in the order of the items.
--
-- What the run of an item's child returns or raises is a parameter, and so are the order in which
-- the tasks complete and the moments at which a cancellation is seen. The writes to the rows of the
-- children and the previews of items are left out, and the output holds the whole result of each
-- item, where the source's holds a compact one: without the item's input and its `result_status`.
pub mod Nesting
pub mod Order
mod Tests
use nd3x.Prelude.{
  ℕ, zero, suc, Bool, true, false, ◌&&◌, ◌||◌, not, String, Option, none, some, List, [], ◌∷◌, ◌++◌,
  ◌==◌, elem, keep, length, leb, if◌then◌else◌,
}
use nd3x.Prelude.Results.{Result, returned, failed_with, ◌>>=◌}
use nd3x.Json.{Value, obj}
use nd3x.Runs.Queries.{order_by}

pub data ItemStatus : Type 0 where
  success cancelled failed : ItemStatus

pub record ItemResult : Type 0 where
  pub index : ℕ
  pub status : ItemStatus
  pub child_workflow_run_id : Option ℕ
  pub input : Value
  pub result_status : Option String
  pub error : Option String

-- How the `try` of an item ends.
pub data ChildEnd : Type 0 where
  -- execute_run of the child returned a dict of this status
  ended : ℕ → Option String → ChildEnd
  workflow_cancelled : Option ℕ → String → ChildEnd
  task_cancelled : ChildEnd
  raised : Option ℕ → String → ChildEnd

pub data Failure : Type 0 where
  max_depth_exceeded recursive_loop : Failure
  not_an_object : ℕ → Failure
  item_failed : ℕ → String → Failure
  operation_cancelled task_stopped : Failure

abbrev is_object : Value → Bool
is_object (obj fs) = true
is_object _ = false

-- run_item; `stop` is the failure strategy "stop"
unfoldable pub end_item : Bool → ℕ → Value → ChildEnd → Result Failure ItemResult
end_item stop index item (ended child status) = returned (record {
  index = index;
  status = success;
  child_workflow_run_id = some child;
  input = item;
  result_status = status;
  error = none;
})
end_item stop index item (workflow_cancelled child message) = returned (record {
  index = index;
  status = cancelled;
  child_workflow_run_id = child;
  input = item;
  result_status = none;
  error = some message;
})
end_item stop index item task_cancelled = failed_with task_stopped
end_item stop index item (raised child message) =
    if stop
    then failed_with (item_failed index message)
    else returned (record {
      index = index;
      status = failed;
      child_workflow_run_id = child;
      input = item;
      result_status = none;
      error = some message;
    })

unfoldable pub run_item : Bool → ℕ → Value → ChildEnd → Result Failure ItemResult
unfolding end_item
run_item stop index item child =
    if is_object item then end_item stop index item child else failed_with (not_an_object index)

abbrev pub is_success : ItemResult → Bool
is_success r = elim (r.status) [ success ↦ true | _ ↦ false ]

abbrev pub is_failed : ItemResult → Bool
is_failed r = elim (r.status) [ failed ↦ true | _ ↦ false ]

-- sorted(results, key=lambda r: r["index"])
abbrev pub before : ItemResult → ItemResult → Bool
before a b = leb a.index b.index

abbrev pub sorted_results : List ItemResult → List ItemResult
sorted_results = order_by before

-- What is written as the progress of the operation run after each item.
pub record Progress : Type 0 where
  pub items_total : ℕ
  pub items_done : ℕ
  pub items_success : ℕ
  pub items_failed : ℕ
  pub latest : ItemResult
  pub results : List ItemResult

unfoldable pub progress_of : ℕ → ItemResult → List ItemResult → Progress
unfolding order_by
progress_of total latest results = record {
  items_total = total;
  items_done = length results;
  items_success = length (keep is_success results);
  items_failed = length (keep is_failed results);
  latest = latest;
  results = sorted_results results;
}

-- The progress that was written, and how the loop left.
pub record Collected : Type 0 where
  pub progress : List Progress
  pub outcome : Result Failure (List ItemResult)

abbrev with_progress : Progress → Collected → Collected
with_progress p c = record c { progress = p ∷ c.progress }

abbrev stopped : Failure → Collected
stopped e = record { progress = []; outcome = failed_with e }

module _ (total : ℕ) (run : ℕ → Result Failure ItemResult) (cancel_seen : ℕ → Bool) where
  -- `for completed in asyncio.as_completed(tasks)`, over the items in the order of completion
  unfoldable pub collect : List ℕ → List ItemResult → Collected
  unfolding progress_of
  collect [] results = record { progress = []; outcome = returned results }
  collect (index ∷ order) results = elim (run index) [
    | failed_with e ↦ stopped e
    | returned r ↦
        let done = results ++ r ∷ [] in
        with_progress (progress_of total r done)
          (if cancel_seen (length done) then stopped operation_cancelled else collect order done)
  ]

pub data FinalStatus : Type 0 where
  all_succeeded partial_success : FinalStatus

pub record Output : Type 0 where
  pub status : FinalStatus
  pub items_total : ℕ
  pub items_success : ℕ
  pub items_failed : ℕ
  pub results : List ItemResult

abbrev final_status : List ItemResult → FinalStatus
final_status [] = all_succeeded
final_status (r ∷ rs) = partial_success

unfoldable pub output_of : ℕ → List ItemResult → Output
unfolding order_by
output_of total results =
    let sorted = sorted_results results in
    record {
      status = final_status (keep is_failed sorted);
      items_total = total;
      items_success = length (keep is_success sorted);
      items_failed = length (keep is_failed sorted);
      results = sorted;
    }

-- len(workflow_stack) >= max_depth, and a workflow that is on the stack or runs already
unfoldable pub recursion_guard : ℕ → List ℕ → ℕ → ℕ → Option Failure
recursion_guard max_depth stack current target =
    if leb max_depth (length stack)
    then some max_depth_exceeded
    else (if elem target stack || target == current then some recursive_loop else none)

-- [*workflow_stack, current_workflow_id]
abbrev pub child_stack : List ℕ → ℕ → List ℕ
child_stack stack current = stack ++ current ∷ []
