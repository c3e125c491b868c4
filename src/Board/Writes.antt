-- ===== src/Board/Writes.antt =====
-- What the writes of the board change, and what they leave.
use nd3x.Prelude.{
  ℕ, not, ◌≡◌, refl, subst, ◌∙◌, inl, inr, String, Option, none, some, List, [], ◌∷◌, arith, ◌==◌,
  ==_iff, ==_refl, keep, Bool-cases, Option-cases, if◌then◌else◌,
}
use nd3x.Table.{find, modify, find-modify}
use nd3x.Runs.Operations.{Outcome, ok, raised, ◌>>=◌}
use nd3x.Policy.Text.{is_some}
use nd3x.Board.{
  BoardItem, BoardItemUpdate, item_key, get_item, update_item, delete_item, apply_update,
  validate_sent, or_else, Reply,
}
use nd3x.Board.Fields.{IsUpdate, apply-IsUpdate}
use nd3x.Board.Words.{
  Status, Priority, Origin, user, validate_status, validate_priority, validate_origin,
}

bind-ok :
    {A B C : Type 0} (x : Outcome A) (k : A → Outcome B) {b : B}
    → ((a : A) → x ≡ ok a → k a ≡ ok b → C)
    → (x >>= k) ≡ ok b
    → C
bind-ok (ok a) k next h = next a refl h
bind-ok (raised e) k next h = cc

ok-injective : {A : Type 0} {a b : A} → ok a ≡ ok b → a ≡ b
ok-injective h = cc

apply-id :
    (status : Option (Option Status)) (priority : Option (Option Priority))
    (fields : BoardItemUpdate) (by : Origin) (item : BoardItem)
    → (apply_update status priority fields by item).id ≡ item.id
unfolding apply_update
apply-id status priority fields by item = refl

module _ (id : ℕ) (fields : BoardItemUpdate) (actor : String) (items : List BoardItem) where
  abbrev Updated : BoardItem → Reply → Type 0
  Updated item reply =
      (new : BoardItem) × (reply.0 ≡ some new)
      × IsUpdate fields actor item new
      × ((j : ℕ) → get_item j reply.1 ≡ (if id == j then some new else get_item j items))

  committed :
      (item : BoardItem) (change : BoardItem → BoardItem)
      → get_item id items ≡ some item
      → ((x : BoardItem) → (change x).id ≡ x.id)
      → IsUpdate fields actor item (change item)
      → Updated item (some (change item), modify item_key id change items)
  committed item change found keeps same = (
    change item,
    refl,
    same,
    λ j. find-modify item_key id change j items (λ x _. keeps x) ∙ elim (Bool-cases (id == j)) [
      | inl e ↦ rw (← (==_iff id j).0 e, found) refl
      | inr e ↦ rw e refl
    ],
  )

  -- An update that succeeds on an item answers the item as the board then has it, and leaves every
  -- other item as it was. Of the item, each field that was sent is set to its value, status and
  -- priority to what their words name; a null clears the texts that may be missing and changes nothing
  -- else; what was not sent is kept, and so are its key, its origin and its links. The actor's word
  -- names who changed it.
  pub update_item-get :
      (item : BoardItem) (reply : Reply)
      → get_item id items ≡ some item
      → update_item id fields actor items ≡ ok reply
      → (new : BoardItem) × (reply.0 ≡ some new)
        × IsUpdate fields actor item new
        × ((j : ℕ) → get_item j reply.1 ≡ (if id == j then some new else get_item j items))
  unfolding update_item
  update_item-get item reply found h =
      bind-ok (validate_origin (some actor)) _
        (λ by named. bind-ok (validate_sent validate_status fields.status) _ λ status e.
          bind-ok (validate_sent validate_priority fields.priority) _ λ priority f h'.
            let change = apply_update status priority fields (or_else by user) in
            subst (Updated item) (ok-injective h') (
              committed item change found (apply-id status priority fields (or_else by user))
                (apply-IsUpdate by status priority fields actor item named e f)))
        (rw (found, update_item) at h)

find-delete :
    (id j : ℕ) (items : List BoardItem)
    → get_item j (keep (λ r. not (r.id == id)) items) ≡ (if id == j then none else get_item j items)
unfolding find
find-delete id j [] = ground arith
find-delete id j (x ∷ items) = ground (arith, find-delete id j items)

-- A deletion answers whether the item was there, and takes exactly that item off the board.
delete_item-get :
    (id : ℕ) (items : List BoardItem)
    → ((delete_item id items).0 ≡ is_some (get_item id items))
      × ((j : ℕ)
          → get_item j (delete_item id items).1 ≡ (if id == j then none else get_item j items))
unfolding delete_item
delete_item-get id items = elim (Option-cases (get_item id items)) [
  | inl e ↦ (
    rw (e, delete_item) refl,
    λ j. elim (Bool-cases (id == j)) [
      | inl f ↦ rw (e, delete_item) (rw (← (==_iff id j).0 f, e) (rw (==_refl id) refl))
      | inr f ↦ rw (e, delete_item) (rw f refl)
    ],
  )
  | inr (item, e) ↦ (rw (e, delete_item) refl, λ j. rw (e, delete_item) (find-delete id j items))
]
