-- ===== src/Engine/Closure.antt =====
-- What a condition skips is the least set that holds the operations it names and, with all the
-- dependencies of a pending operation, that operation.
use nd3x.Prelude.{
  ℕ, zero, suc, ◌≤◌, ◌<◌, ◌≡◌, refl, sym, ap, subst, true, false, not, ◌⊎◌, inl, inr, List, [], ◌∷◌,
  arith, ◌==◌, ==_iff, ==_refl, elem, all, count, length, Bool-cases,
}
use nd3x.Engine.{Operation}
use nd3x.Engine.Skips.{depends_on_of, is_cut_off, skip_one, skip_round, skip_rounds}

abbrev pub missing : List ℕ → List ℕ → ℕ
missing s = count (λ c. not (elem c s))

missing-cons_le : (c : ℕ) (s full : List ℕ) → missing (c ∷ s) full ≤ missing s full
missing-cons_le c s [] = omega arith
missing-cons_le c s (x ∷ full) = ground (arith, missing-cons_le c s full)

missing-cons_lt :
    (c : ℕ) (s full : List ℕ)
    → elem c full ≡ true
    → elem c s ≡ false
    → missing (c ∷ s) full < missing s full
missing-cons_lt c s [] h k = cc
missing-cons_lt c s (x ∷ full) h k = elim (Bool-cases (x == c)) [
  | inl e ↦
      let here : elem x s ≡ false = rw ((==_iff x c).0 e) k in
      ground (arith, missing-cons_le c s full)
  | inr e ↦ ground (arith, missing-cons_lt c s full)
]

pub missing-le-length : (s full : List ℕ) → missing s full ≤ length full
missing-le-length s [] = omega arith
missing-le-length s (x ∷ full) = ground (arith, missing-le-length s full)

all_mono :
    (s t : List ℕ) (xs : List ℕ)
    → ((x : ℕ) → elem x s ≡ true → elem x t ≡ true)
    → all (λ x. elem x s) xs ≡ true
    → all (λ x. elem x t) xs ≡ true
all_mono s t [] h k = refl
all_mono s t (x ∷ xs) h k = ground (arith, h x, all_mono s t xs h)

module _ (ops : List Operation) where
  -- A candidate is left out, because it is there or not cut off, or is added.
  pub skip_one-cases :
      (c : ℕ) (s : List ℕ)
      → ((skip_one ops c s ≡ s)
          × ((elem c s ≡ true) ⊎ (is_cut_off (depends_on_of c ops) s ≡ false)))
        ⊎ ((skip_one ops c s ≡ c ∷ s)
            × (elem c s ≡ false)
            × (is_cut_off (depends_on_of c ops) s ≡ true))
  unfolding skip_one
  skip_one-cases c s = elim (Bool-cases (elem c s)) [
    | inl e ↦ inl (rw e refl, inl e)
    | inr e ↦ elim (Bool-cases (is_cut_off (depends_on_of c ops) s)) [
      | inl k ↦ inr (rw e (rw k refl), e, k)
      | inr k ↦ inl (rw e (rw k refl), inr k)
    ]
  ]

  skip_one-elem : (x c : ℕ) (s : List ℕ) → elem x s ≡ true → elem x (skip_one ops c s) ≡ true
  skip_one-elem x c s h = elim (skip_one-cases c s) [
    | inl (e, _) ↦ rw e h
    | inr (e, _, _) ↦ rw e (ground arith)
  ]

  pub skip_round-elem :
      (x : ℕ) (pending s : List ℕ) → elem x s ≡ true → elem x (skip_round ops pending s) ≡ true
  unfolding skip_round
  skip_round-elem x [] s h = h
  skip_round-elem x (c ∷ pending) s h =
      skip_round-elem x pending (skip_one ops c s) (skip_one-elem x c s h)

  length-skip_one : (c : ℕ) (s : List ℕ) → length s ≤ length (skip_one ops c s)
  length-skip_one c s = elim (skip_one-cases c s) [
    | inl (e, _) ↦ rw e (omega arith)
    | inr (e, _, _) ↦ rw e (omega arith)
  ]

  length-skip_round : (pending s : List ℕ) → length s ≤ length (skip_round ops pending s)
  unfolding skip_round
  length-skip_round [] s = omega arith
  length-skip_round (c ∷ pending) s =
      omega (arith, length-skip_one c s, length-skip_round pending (skip_one ops c s))

  -- Every pending operation that is cut off is in the set.
  abbrev pub IsClosed : List ℕ → List ℕ → Type 0
  IsClosed pending s =
      (c : ℕ) → elem c pending ≡ true → is_cut_off (depends_on_of c ops) s ≡ true → elem c s ≡ true

  -- A round that adds nothing changes nothing, and its set is closed.
  still_round :
      (pending s : List ℕ)
      → length (skip_round ops pending s) ≡ length s
      → (skip_round ops pending s ≡ s) × IsClosed pending s
  unfolding skip_round
  still_round [] s h = (refl, λ c e k. cc)
  still_round (c ∷ pending) s h = elim (skip_one-cases c s) [
    | inl (e, why) ↦
        let (same, closed) = still_round pending s (rw e at h) in
        (
          rw e same,
          λ d m k. elim (Bool-cases (c == d)) [
            | inl i ↦
                let j = (==_iff c d).0 i in elim why [ inl p ↦ rw (← j) p | inr p ↦ cc (k, j, p) ]
            | inr i ↦ closed d (ground arith) k
          ],
        )
    | inr (e, _, _) ↦
        let h' : length (skip_round ops pending (c ∷ s)) ≡ length s = rw e at h in
        absurd (omega (arith, length-skip_round pending (c ∷ s)))
  ]

  -- A round leaves the set as it is, or lowers the number of pending operations outside it.
  round_progress :
      (full pending s : List ℕ)
      → ((c : ℕ) → elem c pending ≡ true → elem c full ≡ true)
      → (skip_round ops pending s ≡ s) ⊎ (missing (skip_round ops pending s) full < missing s full)
  unfolding skip_round
  round_progress full [] s h = inl refl
  round_progress full (c ∷ pending) s h =
      let within = λ (d : ℕ) (m : elem d pending ≡ true). h d (ground arith) in
      elim (skip_one-cases c s) [
        | inl (e, _) ↦ rw e (round_progress full pending s within)
        | inr (e, new, _) ↦
            let less = missing-cons_lt c s full (h c (ground (arith, ==_refl c))) new in
            rw e (elim (round_progress full pending (c ∷ s) within) [
              | inl same ↦ inr (rw same less)
              | inr more ↦ inr (omega arith)
            ])
      ]

  pub skip_rounds-IsClosed :
      (fuel : ℕ) (pending s : List ℕ)
      → missing s pending < fuel
      → IsClosed pending (skip_rounds fuel ops pending s)
  unfolding skip_rounds
  skip_rounds-IsClosed zero pending s h = absurd (omega arith)
  skip_rounds-IsClosed (suc fuel) pending s h =
      let next = skip_round ops pending s in
      elim (Bool-cases (length next == length s)) [
        | inl e ↦
            let (same, closed) = still_round pending s ((==_iff (length next) (length s)).0 e) in
            rw e (subst (IsClosed pending) (sym same) closed)
        | inr e ↦
            let less : missing next pending < missing s pending =
              elim (round_progress pending pending s (λ c m. m)) [
                | inl same ↦ cc (e, ap length same, ==_refl (length s))
                | inr l ↦ l
              ] in
            rw e (skip_rounds-IsClosed fuel pending next (omega arith))
      ]
