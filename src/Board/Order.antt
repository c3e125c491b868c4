-- ===== src/Board/Order.antt =====
-- The order of a column, and a stable sort by it (`items.sort(key=...)`).
use nd3x.Prelude.{
  Bool, true, false, ◌≡◌, refl, inl, inr, List, [], ◌∷◌, arith, leb, ltb, all, count, Bool-cases,
  if◌then◌else◌,
}
use nd3x.Json.{ℤ, pos, negsuc}
use nd3x.Board.{BoardItem}
use nd3x.Board.Words.{priority_order}

abbrev pub le_position : ℤ → ℤ → Bool
le_position (pos a) (pos b) = leb a b
le_position (pos a) (negsuc b) = false
le_position (negsuc a) (pos b) = true
le_position (negsuc a) (negsuc b) = leb b a

-- the comparison of the tuples (-PRIORITY_ORDER[priority], position, id)
unfoldable pub precedes : BoardItem → BoardItem → Bool
precedes a b =
    if ltb (priority_order b.priority) (priority_order a.priority)
    then true
    else (if ltb (priority_order a.priority) (priority_order b.priority)
        then false
        else (if le_position a.position b.position
            then (if le_position b.position a.position then leb a.id b.id else true)
            else false))

unfoldable pub insert_item : BoardItem → List BoardItem → List BoardItem
insert_item x [] = x ∷ []
insert_item x (y ∷ items) =
    let rest = insert_item x items in if precedes x y then x ∷ y ∷ items else y ∷ rest

unfoldable pub sort_items : List BoardItem → List BoardItem
sort_items [] = []
sort_items (x ∷ items) = insert_item x (sort_items items)

-- Every item comes before all that follow it.
abbrev pub IsOrdered : List BoardItem → Type 0
IsOrdered [] = Unit
IsOrdered (x ∷ items) = (all (precedes x) items ≡ true) × IsOrdered items

le_position_total : (x y : ℤ) → le_position x y ≡ false → le_position y x ≡ true
le_position_total (pos a) (pos b) h = ground arith
le_position_total (pos a) (negsuc b) h = refl
le_position_total (negsuc a) (pos b) h = cc
le_position_total (negsuc a) (negsuc b) h = ground arith

le_position_trans :
    (x y z : ℤ) → le_position x y ≡ true → le_position y z ≡ true → le_position x z ≡ true
le_position_trans (pos a) (pos b) (pos c) h k = ground arith
le_position_trans (pos a) (pos b) (negsuc c) h k = cc
le_position_trans (pos a) (negsuc b) z h k = cc
le_position_trans (negsuc a) y (pos c) h k = refl
le_position_trans (negsuc a) (pos b) (negsuc c) h k = cc
le_position_trans (negsuc a) (negsuc b) (negsuc c) h k = ground arith

precedes_total : (a b : BoardItem) → precedes a b ≡ false → precedes b a ≡ true
unfolding precedes
precedes_total a b h = ground (arith, le_position_total a.position b.position)

precedes_trans :
    (a b c : BoardItem) → precedes a b ≡ true → precedes b c ≡ true → precedes a c ≡ true
unfolding precedes
precedes_trans a b c h k = ground (
  arith,
  le_position_trans a.position b.position c.position,
  le_position_trans c.position b.position a.position,
  le_position_trans b.position c.position a.position,
  le_position_trans c.position a.position b.position,
  le_position_total a.position b.position,
  le_position_total b.position c.position,
)

all_after :
    (x y : BoardItem) (items : List BoardItem)
    → precedes x y ≡ true
    → all (precedes y) items ≡ true
    → all (precedes x) items ≡ true
all_after x y [] h k = refl
all_after x y (z ∷ items) h k = ground (arith, precedes_trans x y z, all_after x y items h)

all-insert :
    (p : BoardItem → Bool) (x : BoardItem) (items : List BoardItem)
    → p x ≡ true
    → all p items ≡ true
    → all p (insert_item x items) ≡ true
unfolding insert_item
all-insert p x [] h k = ground arith
all-insert p x (y ∷ items) h k = ground (arith, all-insert p x items h)

insert_item-IsOrdered :
    (x : BoardItem) (items : List BoardItem) → IsOrdered items → IsOrdered (insert_item x items)
unfolding insert_item
insert_item-IsOrdered x [] h = (refl, tt)
insert_item-IsOrdered x (y ∷ items) (after, rest) = elim (Bool-cases (precedes x y)) [
  | inl e ↦ rw e (rw (e, all_after x y items e after) refl, (after, rest))
  | inr e ↦ rw e (
    all-insert (precedes y) x items (precedes_total x y e) after,
    insert_item-IsOrdered x items rest,
  )
]

pub sort_items-IsOrdered : (items : List BoardItem) → IsOrdered (sort_items items)
unfolding sort_items
sort_items-IsOrdered [] = tt
sort_items-IsOrdered (x ∷ items) =
    insert_item-IsOrdered x (sort_items items) (sort_items-IsOrdered items)

count-insert :
    (p : BoardItem → Bool) (x : BoardItem) (items : List BoardItem)
    → count p (insert_item x items) ≡ count p (x ∷ items)
unfolding insert_item
count-insert p x [] = refl
count-insert p x (y ∷ items) = ground (arith, count-insert p x items)

pub count-sort_items :
    (p : BoardItem → Bool) (items : List BoardItem) → count p (sort_items items) ≡ count p items
unfolding sort_items
count-sort_items p [] = refl
count-sort_items p (x ∷ items) =
    ground (arith, count-insert p x (sort_items items), count-sort_items p items)
