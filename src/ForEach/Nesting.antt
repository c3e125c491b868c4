-- ===== src/ForEach/Nesting.antt =====
-- The recursion guard of for_each operations and of the sub-workflow branches of conditions.
use nd3x.Prelude.{
  ℕ, suc, ◌≤◌, ◌≡◌, refl, Bool, true, false, ◌&&◌, ◌||◌, not, none, List, [], ◌∷◌, ◌++◌, arith,
  ◌==◌, elem, length, ap, ==_iff,
}
use nd3x.ForEach.{recursion_guard, child_stack}

-- The runs below a run at the top by way of guarded operations: the stack that a run is given, and
-- its workflow.
pub data Nested (limit top : ℕ) : List ℕ → ℕ → Type 0 where
  at_top :
      {stack : List ℕ} {current : ℕ} → stack ≡ [] → current ≡ top → Nested limit top stack current
  below :
      {stack : List ℕ} {current : ℕ} {inner : List ℕ} {target : ℕ}
      → Nested limit top stack current
      → recursion_guard limit stack current target ≡ none
      → inner ≡ child_stack stack current
      → Nested limit top inner target

abbrev pub is_distinct : List ℕ → Bool
is_distinct [] = true
is_distinct (x ∷ xs) = not (elem x xs) && is_distinct xs

elem-append_one : (x y : ℕ) (xs : List ℕ) → elem x (xs ++ y ∷ []) ≡ (elem x xs || y == x)
elem-append_one x y [] = ground arith
elem-append_one x y (z ∷ xs) = ground (arith, elem-append_one x y xs)

distinct-append_one :
    (xs : List ℕ) (y : ℕ)
    → is_distinct xs ≡ true
    → elem y xs ≡ false
    → is_distinct (xs ++ y ∷ []) ≡ true
distinct-append_one [] y d n = refl
distinct-append_one (x ∷ xs) y d n =
    ground (arith, elem-append_one x y xs, distinct-append_one xs y, ==_iff x y, ==_iff y x)

length-append_one : (xs : List ℕ) (y : ℕ) → length (xs ++ y ∷ []) ≡ suc (length xs)
length-append_one [] y = refl
length-append_one (x ∷ xs) y = ap suc (length-append_one xs y)

guard-passed :
    (limit : ℕ) (stack : List ℕ) (current target : ℕ)
    → recursion_guard limit stack current target ≡ none
    → (suc (length stack) ≤ limit) × (elem target (child_stack stack current) ≡ false)
unfolding recursion_guard
guard-passed limit stack current target h =
    ground
      (arith, elem-append_one target current stack, ==_iff target current, ==_iff current target)

-- No workflow stands twice on the stack of a run with the run's own, and the stack is no longer than
-- the limit on the depth, if all guards have this limit: chains of guarded operations are bounded.
pub Nested-bounded :
    (limit top : ℕ) (stack : List ℕ) (current : ℕ)
    → Nested limit top stack current
    → (is_distinct (child_stack stack current) ≡ true) × (length stack ≤ limit)
Nested-bounded limit top stack current (at_top e f) = rw e (refl, omega arith)
Nested-bounded limit top stack current (below {stack = outer} {current = parent} n g e) =
    let (distinct, short) = Nested-bounded limit top outer parent n in
    let (deep, fresh) = guard-passed limit outer parent current g in
    rw e (
      distinct-append_one (child_stack outer parent) current distinct fresh,
      omega (arith, length-append_one outer parent),
    )
