-- ===== src/Engine/Least.antt =====
-- What a condition skips, as a least set.
use nd3x.Prelude.{
  ℕ, zero, suc, ◌≡◌, refl, ◌∙◌, Bool, true, false, inl, inr, List, [], ◌∷◌, arith, ◌==◌, ==_iff,
  elem, all, length, Bool-cases,
}
use nd3x.Engine.{Operation}
use nd3x.Engine.Skips.{
  set_of, depends_on_of, is_cut_off, skip_one, skip_round, skip_rounds, skip_closure,
}
use nd3x.Engine.Closure.{
  missing-le-length, skip_one-cases, skip_round-elem, skip_rounds-IsClosed, IsClosed,
}

elem-set_of : (x : ℕ) (xs : List ℕ) → elem x (set_of xs) ≡ elem x xs
unfolding set_of
elem-set_of x [] = refl
elem-set_of x (y ∷ xs) = elim (Bool-cases (elem y (set_of xs))) [
  | inl e ↦ elim (Bool-cases (y == x)) [
    | inl i ↦
        let here : elem x (set_of xs) ≡ true = rw ((==_iff y x).0 i) at e in rw e (ground arith)
    | inr i ↦ rw e (ground (arith, elem-set_of x xs))
  ]
  | inr e ↦ rw e (ground (arith, elem-set_of x xs))
]

abbrev pub is_nonempty : List ℕ → Bool
is_nonempty [] = false
is_nonempty (x ∷ xs) = true

-- Every member of `s` has the property `S`.
abbrev Within : (ℕ → Bool) → List ℕ → Type 0
Within S s = (x : ℕ) → elem x s ≡ true → S x ≡ true

all-Within :
    (S : ℕ → Bool) (s deps : List ℕ)
    → Within S s
    → all (λ x. elem x s) deps ≡ true
    → all S deps ≡ true
all-Within S s [] w h = refl
all-Within S s (d ∷ deps) w h = ground (arith, w d, all-Within S s deps w)

cut_off-all :
    (S : ℕ → Bool) (s deps : List ℕ)
    → Within S s
    → is_cut_off deps s ≡ true
    → (is_nonempty deps ≡ true) × (all S deps ≡ true)
cut_off-all S s [] w h = cc
cut_off-all S s (d ∷ deps) w h = (refl, all-Within S s (d ∷ deps) w h)

module _ (ops : List Operation) (S : ℕ → Bool) where
  -- `S` holds of every candidate all of whose dependencies, one at least, have it.
  abbrev pub Absorbs : List ℕ → Type 0
  Absorbs pending =
      (c : ℕ)
      → elem c pending ≡ true
      → is_nonempty (depends_on_of c ops) ≡ true
      → all S (depends_on_of c ops) ≡ true
      → S c ≡ true

  skip_one-Within :
      (c : ℕ) (s : List ℕ)
      → (is_nonempty (depends_on_of c ops) ≡ true → all S (depends_on_of c ops) ≡ true → S c ≡ true)
      → Within S s
      → Within S (skip_one ops c s)
  skip_one-Within c s absorbs w x h = elim (skip_one-cases ops c s) [
    | inl (e, _) ↦ w x (rw e at h)
    | inr (e, _, cut) ↦
        let (some_deps, deps_in) = cut_off-all S s (depends_on_of c ops) w cut in
        let h' : elem x (c ∷ s) ≡ true = rw e at h in
        elim (Bool-cases (c == x)) [
          | inl i ↦ rw (← (==_iff c x).0 i) (absorbs some_deps deps_in)
          | inr i ↦ w x (ground arith)
        ]
  ]

  skip_round-Within :
      (pending s : List ℕ) → Absorbs pending → Within S s → Within S (skip_round ops pending s)
  unfolding skip_round
  skip_round-Within [] s absorbs w = w
  skip_round-Within (c ∷ pending) s absorbs w =
      skip_round-Within pending (skip_one ops c s) (λ d m. absorbs d (ground arith))
        (skip_one-Within c s (absorbs c (ground arith)) w)

  skip_rounds-Within :
      (fuel : ℕ) (pending s : List ℕ)
      → Absorbs pending
      → Within S s
      → Within S (skip_rounds fuel ops pending s)
  unfolding skip_rounds
  skip_rounds-Within zero pending s absorbs w = w
  skip_rounds-Within (suc fuel) pending s absorbs w =
      let next = skip_round-Within pending s absorbs w in
      elim (Bool-cases (length (skip_round ops pending s) == length s)) [
        | inl e ↦ rw e next
        | inr e ↦ rw e (skip_rounds-Within fuel pending (skip_round ops pending s) absorbs next)
      ]

  -- A condition skips no more than it must: a property of the operations that it names, which goes
  -- over from all dependencies of a pending operation to that operation, holds of all it skips.
  pub skip_closure_least :
      (pending named : List ℕ)
      → Absorbs pending
      → ((x : ℕ) → elem x named ≡ true → S x ≡ true)
      → (x : ℕ) → elem x (skip_closure ops pending named) ≡ true
      → S x ≡ true
  unfolding skip_closure
  skip_closure_least pending named absorbs w =
      skip_rounds-Within (suc (length pending)) pending (set_of named) absorbs
        (λ x h. w x (rw (elem-set_of x named) at h))

skip_rounds-elem :
    (ops : List Operation) (x fuel : ℕ) (pending s : List ℕ)
    → elem x s ≡ true
    → elem x (skip_rounds fuel ops pending s) ≡ true
unfolding skip_rounds
skip_rounds-elem ops x zero pending s h = h
skip_rounds-elem ops x (suc fuel) pending s h =
    let next = skip_round-elem ops x pending s h in
    elim (Bool-cases (length (skip_round ops pending s) == length s)) [
      | inl e ↦ rw e next
      | inr e ↦ rw e (skip_rounds-elem ops x fuel pending (skip_round ops pending s) next)
    ]

-- A condition skips every operation that it names, and every pending operation that has
-- dependencies all of which are skipped: the rounds of the model are enough to find them all.
pub skip_closure-IsClosed :
    (ops : List Operation) (pending named : List ℕ)
    → ((x : ℕ) → elem x named ≡ true → elem x (skip_closure ops pending named) ≡ true)
      × IsClosed ops pending (skip_closure ops pending named)
unfolding skip_closure
skip_closure-IsClosed ops pending named = (
  λ x h.
      skip_rounds-elem ops x (suc (length pending)) pending (set_of named)
        (elem-set_of x named ∙ h),
  skip_rounds-IsClosed ops (suc (length pending)) pending (set_of named)
      (omega (arith, missing-le-length (set_of named) pending)),
)
