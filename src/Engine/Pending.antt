-- ===== src/Engine/Pending.antt =====
-- The pending operations through the loop's parts: they only leave.
use nd3x.Prelude.{
  ℕ, ◌≤◌, ◌<◌, ◌≡◌, refl, Bool, true, ◌&&◌, ◌||◌, not, inl, inr, List, [], ◌∷◌, arith, ◌==◌, elem,
  length, Option-cases,
}
use nd3x.Table.{find, find_key}
use nd3x.Engine.{Operation, NodeStatus, operation_key}
use nd3x.Engine.Skips.{insert_sorted, sorted}
use nd3x.Engine.Loop.{
  Answer, raised, skip, pause, set_variable, condition, result, Context, Exit, going, discard,
  settle, follow, follow_success, skip_branch, failed_operation, take_answer, select,
}

pub length-discard-le : (x : ℕ) (xs : List ℕ) → length (discard x xs) ≤ length xs
length-discard-le x [] = omega arith
length-discard-le x (y ∷ ys) = ground (arith, length-discard-le x ys)

pub length-discard-lt : (x : ℕ) (xs : List ℕ) → elem x xs ≡ true → length (discard x xs) < length xs
length-discard-lt x [] h = ground arith
length-discard-lt x (y ∷ ys) h = ground (arith, length-discard-lt x ys, length-discard-le x ys)

pub elem-discard : (x y : ℕ) (xs : List ℕ) → elem y (discard x xs) ≡ (elem y xs && not (y == x))
elem-discard x y [] = ground arith
elem-discard x y (z ∷ zs) = ground (arith, elem-discard x y zs)

elem-insert_sorted : (x y : ℕ) (xs : List ℕ) → elem y (insert_sorted x xs) ≡ ((x == y) || elem y xs)
unfolding insert_sorted
elem-insert_sorted x y [] = refl
elem-insert_sorted x y (z ∷ zs) = ground (arith, elem-insert_sorted x y zs)

pub elem-sorted : (y : ℕ) (xs : List ℕ) → elem y (sorted xs) ≡ elem y xs
unfolding sorted
elem-sorted y [] = refl
elem-sorted y (x ∷ xs) = ground (arith, elem-insert_sorted x y (sorted xs), elem-sorted y xs)

-- The first operation that is selected is among the candidates.
pub select-elem :
    (test : Operation → Bool) (ops : List Operation) (ids : List ℕ) (op : Operation)
    (rest : List Operation)
    → select test ops ids ≡ op ∷ rest
    → elem op.id ids ≡ true
unfolding select
select-elem test ops [] op rest h = cc
select-elem test ops (id ∷ ids) op rest h = elim (Option-cases (find operation_key id ops)) [
  | inl e ↦ ground (arith, select-elem test ops ids op rest)
  | inr (o, e) ↦
      ground (arith, select-elem test ops ids op rest, find_key operation_key id ops {a = o} e)
]

pub pending-follow_success :
    (op : Operation) (c : Context) → (follow_success op c).pending ≡ c.pending
unfolding follow_success follow
pending-follow_success op c = ground arith

pub pending-skip_branch :
    (source : ℕ) (ids : List ℕ) (c : Context)
    → length (skip_branch source ids c).pending ≤ length c.pending
unfolding skip_branch settle
pending-skip_branch source [] c = omega arith
pending-skip_branch source (id ∷ ids) c = omega (
  arith,
  pending-skip_branch source ids
      (settle id NodeStatus.skipped _ (record c { pending = discard id c.pending })),
  length-discard-le id c.pending,
)

-- What an exit that goes on leaves pending is at most `n`.
abbrev pub GoesBelow : ℕ → Exit → Type 0
GoesBelow n (going c) = length c.pending ≤ n
GoesBelow n _ = Unit

pub take_answer-GoesBelow :
    (op : Operation) (a : Answer) (c : Context) → GoesBelow (length c.pending) (take_answer op a c)
unfolding take_answer failed_operation settle follow
take_answer-GoesBelow op (raised message) c = ground arith
take_answer-GoesBelow op (skip output) c = omega arith
take_answer-GoesBelow op (pause status output) c = tt
take_answer-GoesBelow op (set_variable variables output) c =
    rw (pending-follow_success op) (omega arith)
take_answer-GoesBelow op (condition ids output) c =
    rw (pending-follow_success op) (pending-skip_branch op.id _ _)
take_answer-GoesBelow op (result output) c = rw (pending-follow_success op) (omega arith)
