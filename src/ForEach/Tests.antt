-- ===== src/ForEach/Tests.antt =====
-- Three items of which the last completes first, and a chain of three workflows.
use nd3x.Prelude.{
  ℕ, zero, suc, ◌≡◌, ◌≤◌, refl, Bool, String, true, false, Option, none, some, List, [], ◌∷◌, map,
  length,
}
use mathlib.Core.List.{Permᴰ}
use nd3x.Prelude.Results.{returned}
use nd3x.Json.{Value, empty_dict}
use nd3x.ForEach.{
  ItemResult, ItemStatus, ChildEnd, ended, raised, run_item, end_item, collect, progress_of,
  output_of, recursion_guard, child_stack,
}
use nd3x.ForEach.Order.{indexes, for_each-in_order}
use nd3x.ForEach.Nesting.{Nested, at_top, below, is_distinct, Nested-bounded}

abbrev item : ℕ → Value
item i = empty_dict

abbrev child : ℕ → ChildEnd
child zero = ended 11 (some "success")
child (suc zero) = raised (some 12) "no such file"
child (suc (suc n)) = ended 13 (some "success")

abbrev never : ℕ → Bool
never n = false

abbrev last_first : List ℕ
last_first = 2 ∷ 0 ∷ 1 ∷ []

abbrev result : ℕ → ItemStatus → Option ℕ → Option String → ItemResult
result i status child status_text = record {
  index = i;
  status = status;
  child_workflow_run_id = child;
  input = empty_dict;
  result_status = status_text;
  error = none;
}

abbrev failure : ItemResult
failure = record (result 1 ItemStatus.failed (some 12) none) { error = some "no such file" }

abbrev completed : List ItemResult
completed =
    result 2 ItemStatus.success (some 13) (some "success")
    ∷ result 0 ItemStatus.success (some 11) (some "success")
    ∷ failure
    ∷ []

completed_returned :
    (collect 3 (λ i. run_item false i (item i) (child i)) never last_first []).outcome
    ≡ returned completed
unfolding collect run_item end_item progress_of
completed_returned = refl

last_first-perm : Permᴰ last_first (indexes 0 3)
last_first-perm = Permᴰ.trans (Permᴰ.swap refl refl) (Permᴰ.cons refl (Permᴰ.swap refl refl))

for_each-in_order_example :
    map returned (output_of 3 completed).results
    ≡ map (λ i. run_item false i (item i) (child i)) (indexes 0 3)
for_each-in_order_example =
    for_each-in_order false item child 3 never last_first completed last_first-perm
      completed_returned

-- An item whose child run was cancelled counts as a success.
cancelled_child_succeeds :
    run_item true 0 empty_dict (ended 9 (some "cancelled"))
    ≡ returned (result 0 ItemStatus.success (some 9) (some "cancelled"))
unfolding run_item end_item
cancelled_child_succeeds = refl

three_deep : Nested 5 1 (1 ∷ 2 ∷ []) 3
unfolding recursion_guard
three_deep = below (below (at_top refl refl) refl refl) refl refl

Nested-bounded_example :
    (is_distinct (child_stack (1 ∷ 2 ∷ []) 3) ≡ true) × (length {A = ℕ} (1 ∷ 2 ∷ []) ≤ 5)
Nested-bounded_example = Nested-bounded 5 1 (1 ∷ 2 ∷ []) 3 three_deep
