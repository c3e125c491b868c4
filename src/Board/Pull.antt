-- ===== src/Board/Pull.antt =====
-- `list_items` and `pull`: what a workflow is given to work on.
use nd3x.Prelude.{
  ℕ, zero, suc, ◌≤◌, Bool, true, ◌≡◌, refl, sym, ◌∙◌, ◌&&◌, ◌⊎◌, inl, inr, String, Option, none,
  some, List, [], ◌∷◌, ◌++◌, arith, all, keep, count, length, Bool-cases, if◌then◌else◌,
}
use nd3x.Json.{ℤ, pos, negsuc}
use nd3x.Runs.Operations.{Outcome, ok, ◌>>=◌}
use nd3x.Board.{BoardItem, is_ready}
use nd3x.Board.Words.{Status, is_status, validate_status, validate_enum, one_of, is_word}
use nd3x.Board.Order.{precedes, sort_items, IsOrdered, sort_items-IsOrdered, count-sort_items}

abbrev column : List BoardItem → Option Status → List BoardItem
column items none = items
column items (some s) = keep (λ item. is_status s item.status) items

-- `if status: q = q.filter(...)`
unfoldable pub items_of : Option String → List BoardItem → Outcome (List BoardItem)
items_of none items = ok items
items_of (some String.[]) items = ok items
items_of (some word) items = validate_status (some word) >>= λ s. ok (column items s)

unfoldable pub take : ℕ → List BoardItem → List BoardItem
take zero items = []
take (suc n) [] = []
take (suc n) (item ∷ items) = item ∷ take n items

abbrev pub limited : Option ℤ → List BoardItem → List BoardItem
limited (some (pos n)) items = take n items
limited _ items = items

unfoldable pub list_items :
    Option String → Option ℤ → Bool → List BoardItem → Outcome (List BoardItem)
list_items status limit ready_only items = items_of status items >>= λ found.
    let sorted = sort_items found in
    ok (limited limit (if ready_only then keep (is_ready items) sorted else sorted))

-- max(0, limit)
abbrev pub at_least_zero : ℤ → ℤ
at_least_zero (pos n) = pos n
at_least_zero (negsuc n) = pos 0

unfoldable pub pull : Option String → ℤ → Bool → List BoardItem → Outcome (List BoardItem)
unfolding list_items
pull status limit ready_only items = list_items status (some (at_least_zero limit)) ready_only items

unfoldable pub drop : ℕ → List BoardItem → List BoardItem
drop zero items = items
drop (suc n) [] = []
drop (suc n) (item ∷ items) = drop n items

take-drop : (n : ℕ) (items : List BoardItem) → take n items ++ drop n items ≡ items
unfolding take drop
take-drop zero items = refl
take-drop (suc n) [] = refl
take-drop (suc n) (item ∷ items) = cc (take-drop n items)

-- A list cut at `n` is full or has nothing left.
cut : (n : ℕ) (items : List BoardItem) → (length (take n items) ≡ n) ⊎ (drop n items ≡ [])
unfolding take drop
cut zero items = inl refl
cut (suc n) [] = inr refl
cut (suc n) (item ∷ items) = elim (cut n items) [ inl e ↦ inl (omega (arith, e)) | inr e ↦ inr e ]

length-take : (n : ℕ) (items : List BoardItem) → length (take n items) ≤ n
unfolding take
length-take zero items = omega arith
length-take (suc n) [] = omega arith
length-take (suc n) (item ∷ items) = omega (arith, length-take n items)

all-keep :
    (p q : BoardItem → Bool) (items : List BoardItem)
    → all p items ≡ true
    → all p (keep q items) ≡ true
all-keep p q [] h = refl
all-keep p q (x ∷ items) h = ground (arith, all-keep p q items)

keep-IsOrdered :
    (q : BoardItem → Bool) (items : List BoardItem) → IsOrdered items → IsOrdered (keep q items)
keep-IsOrdered q [] h = tt
keep-IsOrdered q (x ∷ items) (after, rest) = elim (Bool-cases (q x)) [
  | inl e ↦ rw e (all-keep (precedes x) q items after, keep-IsOrdered q items rest)
  | inr e ↦ rw e (keep-IsOrdered q items rest)
]

count-keep :
    (p q : BoardItem → Bool) (items : List BoardItem)
    → count p (keep q items) ≡ count (λ x. q x && p x) items
count-keep p q [] = refl
count-keep p q (x ∷ items) = ground (arith, count-keep p q items)

count-same :
    (p q : BoardItem → Bool) (items : List BoardItem)
    → ((x : BoardItem) → p x ≡ q x)
    → count p items ≡ count q items
count-same p q [] h = refl
count-same p q (x ∷ items) h = ground (arith, h x, count-same p q items h)

-- In the column, with every dependency done.
abbrev pub is_eligible : Status → List BoardItem → BoardItem → Bool
is_eligible s items item = is_status s item.status && is_ready items item

count-eligible :
    (s : Status) (items : List BoardItem) (p : BoardItem → Bool)
    → count p (keep (is_ready items) (sort_items (column items (some s))))
      ≡ count p (keep (is_eligible s items) items)
count-eligible s items p =
    count-keep p (is_ready items) (sort_items (column items (some s)))
    ∙ count-sort_items (λ x. is_ready items x && p x) (column items (some s))
    ∙ count-keep (λ x. is_ready items x && p x) (λ x. is_status s x.status) items
    ∙ count-same (λ x. is_status s x.status && (is_ready items x && p x))
        (λ x. is_eligible s items x && p x) items (λ x. ground arith)
    ∙ sym (count-keep p (is_eligible s items) items)

items_of-column :
    (word : String) (s : Status) (items : List BoardItem)
    → validate_status (some word) ≡ ok (some s)
    → items_of (some word) items ≡ ok (column items (some s))
unfolding items_of validate_enum one_of is_word nd3x.Policy.Text.strip
items_of-column String.[] s items h = cc
items_of-column (String.◌∷◌ c w) s items h = rw h refl

-- What a pull of at most `n` ready items of a column gives is the beginning of the column's ready
-- items in order: `n` of them, or all. What is left comes after every item that is pulled.
pub pull-best :
    (word : String) (s : Status) (n : ℕ) (items : List BoardItem)
    → validate_status (some word) ≡ ok (some s)
    → (out rest : List BoardItem) × (pull (some word) (pos n) true items ≡ ok out)
      × IsOrdered (out ++ rest)
      × ((p : BoardItem → Bool)
          → count p (out ++ rest) ≡ count p (keep (is_eligible s items) items))
      × (length out ≤ n)
      × ((length out ≡ n) ⊎ (rest ≡ []))
unfolding pull list_items
pull-best word s n items h =
    let found = keep (is_ready items) (sort_items (column items (some s))) in
    let whole = take-drop n found in
    (
      take n found,
      drop n found,
      rw (items_of-column word s items h) refl,
      rw whole (
          keep-IsOrdered (is_ready items) (sort_items (column items (some s)))
            (sort_items-IsOrdered (column items (some s)))),
      λ p. rw whole (count-eligible s items p),
      length-take n found,
      cut n found,
    )
