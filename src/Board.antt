-- ===== src/Board.antt =====
-- src/services/board_service.py and src/models/board.py: the agent's board of items. The two
-- time stamps are columns that the database fills in, and are left out; the key of a new item is
-- the database's, and an argument.
pub mod Words
pub mod Order
pub mod Pull
pub mod Fields
pub mod Writes
mod Tests
use nd3x.Prelude.{
  ℕ, zero, suc, Bool, true, false, ◌&&◌, ◌||◌, not, String, Option, none, some, List, [], ◌∷◌, ◌++◌,
  ◌==◌, leb, ltb, keep, all, any, if◌then◌else◌,
}
use nd3x.Json.{ℤ, pos, negsuc}
use nd3x.Runs.Operations.{Outcome, ok, raised, ◌>>=◌}
use nd3x.Policy.Text.{strip}
use nd3x.Table.{find, modify}
use nd3x.Board.Words.{
  Status, todo, done, Priority, medium, Origin, user, validate_status, validate_priority,
  validate_origin, is_status,
}

pub record BoardItem : Type 0 where
  pub id : ℕ
  pub title : String
  pub description : Option String
  pub status : Status
  pub priority : Priority
  pub acceptance : Option String
  pub depends_on : List ℕ
  pub labels : List String
  pub origin : Origin
  pub updated_by : Origin
  pub result : Option String
  pub position : ℤ
  pub workflow_run_id : Option ℕ
  pub thread_id : Option String

abbrev pub item_key : BoardItem → ℕ
item_key item = item.id

pub record BoardItemCreate : Type 0 where
  pub title : String
  pub description : Option String
  pub status : Option String
  pub priority : Option String
  pub acceptance : Option String
  pub depends_on : List ℕ
  pub labels : List String
  pub origin : Option String

-- A field that the client did not send is none, and one that it sent as null is some none.
pub record BoardItemUpdate : Type 0 where
  pub title : Option (Option String)
  pub description : Option (Option String)
  pub status : Option (Option String)
  pub priority : Option (Option String)
  pub acceptance : Option (Option String)
  pub depends_on : Option (Option (List ℕ))
  pub labels : Option (Option (List String))
  pub result : Option (Option String)
  pub position : Option (Option ℤ)

abbrev pub get_item : ℕ → List BoardItem → Option BoardItem
get_item id items = find item_key id items

-- the item is there, and done
abbrev pub is_done_item : List BoardItem → ℕ → Bool
is_done_item items dep = any (λ r. r.id == dep && is_status done r.status) items

unfoldable pub is_ready : List BoardItem → BoardItem → Bool
is_ready items item = all (is_done_item items) item.depends_on

abbrev pub or_else {ℓ} : {A : Type ℓ} → Option A → A → A
or_else none a = a
or_else (some b) a = b

unfoldable pub create_item :
    ℕ → BoardItemCreate → String → List BoardItem → Outcome (BoardItem × List BoardItem)
create_item id data_ actor items = do
  by ← validate_origin (some actor)
  status ← validate_status data_.status
  priority ← validate_priority data_.priority
  origin ← validate_origin data_.origin
  ok (
      insert (record {
        id = id;
        title = strip data_.title;
        description = data_.description;
        status = or_else status todo;
        priority = or_else priority medium;
        acceptance = data_.acceptance;
        depends_on = data_.depends_on;
        labels = data_.labels;
        origin = or_else origin (or_else by user);
        updated_by = or_else by user;
        result = none;
        position = pos 100;
        workflow_run_id = none;
        thread_id = none;
      }))
  where
    insert : BoardItem → BoardItem × List BoardItem
    insert item = (item, items ++ item ∷ [])

-- `if "status" in fields: fields["status"] = _validate_enum(...)`
abbrev pub validate_sent {ℓ κ} :
    {A : Type ℓ} {B : Type κ}
    → (Option A → Outcome (Option B))
    → Option (Option A)
    → Outcome (Option (Option B))
validate_sent validate none = ok none
validate_sent validate (some v) = validate v >>= λ w. ok (some w)

-- a field that is sent and not null
abbrev pub set_sent {ℓ} : {A : Type ℓ} → Option (Option A) → A → A
set_sent (some (some v)) old = v
set_sent _ old = old

-- a field that null clears
abbrev pub set_cleared {ℓ} : {A : Type ℓ} → Option (Option A) → Option A → Option A
set_cleared (some v) old = v
set_cleared none old = old

unfoldable pub apply_update :
    Option (Option Status)
    → Option (Option Priority)
    → BoardItemUpdate
    → Origin
    → BoardItem
    → BoardItem
apply_update status priority fields by item = record item {
  title = set_sent fields.title item.title;
  description = set_cleared fields.description item.description;
  status = set_sent status item.status;
  priority = set_sent priority item.priority;
  acceptance = set_cleared fields.acceptance item.acceptance;
  depends_on = set_sent fields.depends_on item.depends_on;
  labels = set_sent fields.labels item.labels;
  result = set_cleared fields.result item.result;
  position = set_sent fields.position item.position;
  updated_by = by;
}

abbrev pub Reply : Type 0
Reply = Option BoardItem × List BoardItem

unfoldable pub update_item : ℕ → BoardItemUpdate → String → List BoardItem → Outcome Reply
update_item id fields actor items = elim (get_item id items) [
  | none ↦ ok (none, items)
  | some item ↦ (do
    by ← validate_origin (some actor)
    status ← validate_sent validate_status fields.status
    priority ← validate_sent validate_priority fields.priority
    ok (commit (apply_update status priority fields (or_else by user)) item))
]
  where
    commit : (BoardItem → BoardItem) → BoardItem → Reply
    commit change item = (some (change item), modify item_key id change items)

abbrev pub status_patch : String → Option String → BoardItemUpdate
status_patch status result = record {
  title = none;
  description = none;
  status = some (some status);
  priority = none;
  acceptance = none;
  depends_on = none;
  labels = none;
  result = elim result [ none ↦ none | some r ↦ some (some r) ];
  position = none;
}

unfoldable pub move_item : ℕ → String → Option String → String → List BoardItem → Outcome Reply
move_item id status result actor items = update_item id (status_patch status result) actor items

unfoldable pub delete_item : ℕ → List BoardItem → Bool × List BoardItem
delete_item id items = elim (get_item id items) [
  | none ↦ (false, items)
  | some item ↦ (true, keep (λ r. not (r.id == id)) items)
]
