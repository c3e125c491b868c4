-- ===== src/Board/Tests.antt =====
-- A small board, on which its theorems are applied.
use nd3x.Prelude.{
  ℕ, ◌≤◌, Bool, true, ◌≡◌, refl, ◌⊎◌, none, some, List, [], ◌∷◌, ◌++◌, ◌==◌, keep, count, length,
  if◌then◌else◌,
}
use nd3x.Json.{pos}
use nd3x.Policy.Text.{is_some}
use nd3x.Runs.Operations.{ok}
use nd3x.Board.{BoardItem, Reply, get_item, update_item, delete_item, move_item, status_patch}
use nd3x.Board.Words.{Status, todo, doing, done, Priority, medium, urgent, Origin, agent, user}
use nd3x.Board.Order.{IsOrdered}
use nd3x.Board.Pull.{pull, is_eligible, pull-best}
use nd3x.Board.Fields.{IsUpdate}
use nd3x.Board.Writes.{update_item-get}

abbrev item : ℕ → Status → Priority → List ℕ → BoardItem
item id status priority depends_on = record {
  id = id;
  title = "an item";
  description = none;
  status = status;
  priority = priority;
  acceptance = none;
  depends_on = depends_on;
  labels = [];
  origin = agent;
  updated_by = agent;
  result = none;
  position = pos 100;
  workflow_run_id = none;
  thread_id = none;
}

abbrev board : List BoardItem
board =
    item 1 todo medium []
    ∷ item 2 todo urgent (4 ∷ [])
    ∷ item 3 todo urgent (1 ∷ [])
    ∷ item 4 done medium []
    ∷ []

-- The urgent item whose dependency is done comes first; the other urgent one waits.
pull_two :
    pull (some " ToDo") (pos 2) true board
    ≡ ok (item 2 todo urgent (4 ∷ []) ∷ item 1 todo medium [] ∷ [])
unfolding pull nd3x.Board.Pull.list_items nd3x.Board.Pull.items_of nd3x.Board.Pull.take
    nd3x.Board.is_ready nd3x.Board.Order.precedes nd3x.Board.Order.insert_item
    nd3x.Board.Order.sort_items nd3x.Board.Words.is_word nd3x.Board.Words.one_of
    nd3x.Board.Words.validate_enum nd3x.Policy.Text.strip
pull_two = refl

pull-best_example :
    (out rest : List BoardItem) × (pull (some " ToDo") (pos 1) true board ≡ ok out)
    × IsOrdered (out ++ rest)
    × ((p : BoardItem → Bool)
        → count p (out ++ rest) ≡ count p (keep (is_eligible todo board) board))
    × (length out ≤ 1)
    × ((length out ≡ 1) ⊎ (rest ≡ []))
unfolding nd3x.Board.Words.is_word nd3x.Board.Words.one_of nd3x.Board.Words.validate_enum
    nd3x.Policy.Text.strip
pull-best_example = pull-best " ToDo" todo 1 board refl

abbrev finished : BoardItem
finished = record (item 1 done medium []) { updated_by = user; result = some "shipped" }

update_item-get_example :
    (new : BoardItem) × (some finished ≡ some new)
    × IsUpdate (status_patch "done" (some "shipped")) "user" (item 1 todo medium []) new
    × ((j : ℕ)
        → get_item j (
            finished
            ∷ item 2 todo urgent (4 ∷ [])
            ∷ item 3 todo urgent (1 ∷ [])
            ∷ item 4 done medium []
            ∷ [])
          ≡ (if 1 == j then some new else get_item j board))
unfolding update_item nd3x.Board.apply_update nd3x.Board.Words.is_word nd3x.Board.Words.one_of
    nd3x.Board.Words.validate_enum nd3x.Policy.Text.strip nd3x.Table.find nd3x.Table.modify
update_item-get_example =
    update_item-get 1 (status_patch "done" (some "shipped")) "user" board (item 1 todo medium [])
      (
        some finished,
        finished
            ∷ item 2 todo urgent (4 ∷ [])
            ∷ item 3 todo urgent (1 ∷ [])
            ∷ item 4 done medium []
            ∷ [],
      )
      refl refl
