-- ===== src/Table/Steps.antt =====
-- Rows before and after a write: every row is still there under its key, and is related to what
-- it was.
use nd3x.Prelude.{
  ℕ, ◌≡◌, refl, ◌∙◌, subst, Bool, true, some, inl, inr, List, ◌∷◌, ◌++◌, arith, ◌==◌, ==_iff,
  Bool-cases,
}
use nd3x.Table.{find, modify, modify_where, find-modify, find-modify_where, find-append}

pub record Steps {A : Type 0} (key : A → ℕ) (R : A → A → Type 0) (rows rows' : List A)
    : Type 0 where
  pub at :
      (id : ℕ) (r : A) → find key id rows ≡ some r → (s : A) × (find key id rows' ≡ some s) × R r s

module _ {A : Type 0} (key : A → ℕ) {R : A → A → Type 0} where
  pub Steps-trans :
      {xs ys zs : List A}
      → ((r s t : A) → R r s → R s t → R r t)
      → Steps key R xs ys
      → Steps key R ys zs
      → Steps key R xs zs
  Steps-trans trans e f = record {
    at = λ id r h.
        let (s, hs, es) = e.at id r h in
        let (t, ht, et) = f.at id s hs in (t, ht, trans r s t es et);
  }

module _ {A : Type 0} (key : A → ℕ) {R : A → A → Type 0} (same : (r : A) → R r r) where
  pub Steps-refl : (rows : List A) → Steps key R rows rows
  Steps-refl rows = record { at = λ id r h. (r, h, same r) }

  pub Steps-append : (rows more : List A) → Steps key R rows (rows ++ more)
  Steps-append rows more = record { at = λ id r h. (r, find-append key id rows more h, same r) }

  pub Steps-modify_where :
      (p : A → Bool) (f : A → A) (rows : List A)
      → ((r : A) → key (f r) ≡ key r)
      → ((r : A) → p r ≡ true → R r (f r))
      → Steps key R rows (modify_where p f rows)
  Steps-modify_where p f rows keeps evolves = record {
    at = λ id r h. elim (Bool-cases (p r)) [
      | inl e ↦ (f r, find-modify_where key p f id rows keeps ∙ cc (h, e), evolves r e)
      | inr e ↦ (r, find-modify_where key p f id rows keeps ∙ cc (h, e), same r)
    ];
  }

  pub Steps-modify :
      (j : ℕ) (f : A → A) (rows : List A)
      → ((r : A) → key r ≡ j → key (f r) ≡ key r)
      → ((r : A) → find key j rows ≡ some r → R r (f r))
      → Steps key R rows (modify key j f rows)
  Steps-modify j f rows keeps evolves = record {
    at = λ id r h. elim (Bool-cases (j == id)) [
      | inl e ↦ (
        f r,
        find-modify key j f id rows keeps ∙ rw (e, h) refl,
        evolves r (rw ((==_iff j id).0 e) h),
      )
      | inr e ↦ (r, find-modify key j f id rows keeps ∙ rw (e, h) refl, same r)
    ];
  }

head_found :
    {A : Type 0} (key : A → ℕ) (id : ℕ) (xs : List A) {r x : A}
    → (key r == id) ≡ true
    → find key id (r ∷ xs) ≡ some x
    → r ≡ x
unfolding find
head_found key id xs hit h = ground arith

module _ {A : Type 0} (key : A → ℕ) {R : A → A → Type 0} {r s : A} {xs ys : List A} where
  pub Steps-cons : key s ≡ key r → R r s → Steps key R xs ys → Steps key R (r ∷ xs) (s ∷ ys)
  unfolding find
  Steps-cons k e es = record {
    at = λ id x h. elim (Bool-cases (key r == id)) [
      | inl hit ↦ (s, rw k (rw hit refl), subst (λ y. R y s) (head_found key id xs hit h) e)
      | inr miss ↦ let (y, f, ev) = es.at id x (rw miss at h) in (y, rw k (rw miss f), ev)
    ];
  }
