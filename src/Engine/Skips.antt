-- ===== src/Engine/Skips.antt =====
-- The operations that a condition skips: those that it names, and then every pending operation
-- whose dependencies are all skipped.
use nd3x.Prelude.{
  ℕ, zero, suc, Bool, false, none, some, List, [], ◌∷◌, ◌==◌, leb, elem, all, length, if◌then◌else◌,
}
use nd3x.Table.{find}
use nd3x.Engine.{Operation, operation_key}

-- s.add(x) on a set
abbrev pub set_add : ℕ → List ℕ → List ℕ
set_add x s = if elem x s then s else x ∷ s

-- set(xs)
unfoldable pub set_of : List ℕ → List ℕ
set_of [] = []
set_of (x ∷ xs) = set_add x (set_of xs)

-- sorted(xs)
unfoldable pub insert_sorted : ℕ → List ℕ → List ℕ
insert_sorted x [] = x ∷ []
insert_sorted x (y ∷ ys) = if leb x y then x ∷ y ∷ ys else y ∷ insert_sorted x ys

unfoldable pub sorted : List ℕ → List ℕ
unfolding insert_sorted
sorted [] = []
sorted (x ∷ xs) = insert_sorted x (sorted xs)

-- op_by_id[id].depends_on or []
unfoldable pub depends_on_of : ℕ → List Operation → List ℕ
depends_on_of id ops = elim (find operation_key id ops) [ none ↦ [] | some op ↦ op.depends_on ]

-- `deps and deps.issubset(to_skip)`
abbrev pub is_cut_off : List ℕ → List ℕ → Bool
is_cut_off [] to_skip = false
is_cut_off (d ∷ deps) to_skip = all (λ x. elem x to_skip) (d ∷ deps)

-- the body of the `for` over the pending operations
unfoldable pub skip_one : List Operation → ℕ → List ℕ → List ℕ
skip_one ops c to_skip =
    if elem c to_skip
    then to_skip
    else (if is_cut_off (depends_on_of c ops) to_skip then c ∷ to_skip else to_skip)

-- one round of the `for`
unfoldable pub skip_round : List Operation → List ℕ → List ℕ → List ℕ
skip_round ops [] to_skip = to_skip
skip_round ops (c ∷ pending) to_skip = skip_round ops pending (skip_one ops c to_skip)

-- `while changed`: a round that adds nothing is the last one.
unfoldable pub skip_rounds : ℕ → List Operation → List ℕ → List ℕ → List ℕ
skip_rounds zero ops pending to_skip = to_skip
skip_rounds (suc fuel) ops pending to_skip =
    let next = skip_round ops pending to_skip in
    let rest = skip_rounds fuel ops pending next in
    if length next == length to_skip then next else rest

-- Each round but the last adds a pending operation, so one more round than these is enough.
unfoldable pub skip_closure : List Operation → List ℕ → List ℕ → List ℕ
skip_closure ops pending named = skip_rounds (suc (length pending)) ops pending (set_of named)
