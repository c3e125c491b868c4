-- ===== src/Table.antt =====
-- Database rows under their primary key. SQLAlchemy hands out one object for a row, so a method
-- that fetches a row and assigns to its attributes rewrites that row.
pub mod Steps
use nd3x.Prelude.{
  ℕ, ◌≡◌, refl, Bool, Option, none, some, List, [], ◌∷◌, ◌++◌, arith, ◌==◌, if◌then◌else◌,
}

abbrev pub map_option {ℓ κ} : {A : Type ℓ} {B : Type κ} → (A → B) → Option A → Option B
map_option f none = none
map_option f (some a) = some (f a)

module _ {ℓ} {A : Type ℓ} where
  -- assignments to every row that a query selects
  unfoldable pub modify_where : (A → Bool) → (A → A) → List A → List A
  modify_where p f [] = []
  modify_where p f (a ∷ rows) = (if p a then f a else a) ∷ modify_where p f rows

module _ {ℓ} {A : Type ℓ} (key : A → ℕ) where
  -- db.query(A).filter(A.id == id).first()
  unfoldable pub find : ℕ → List A → Option A
  find id [] = none
  find id (a ∷ rows) = if key a == id then some a else find id rows

  unfoldable pub modify : ℕ → (A → A) → List A → List A
  modify id f [] = []
  modify id f (a ∷ rows) = if key a == id then f a ∷ rows else a ∷ modify id f rows

  pub find_key : (id : ℕ) (rows : List A) {a : A} → find id rows ≡ some a → key a ≡ id
  unfolding find
  find_key id [] h = ground arith
  find_key id (b ∷ rows) {a} h = ground (arith, find_key id rows {a = a})

  pub find-modify :
      (id : ℕ) (f : A → A) (j : ℕ) (rows : List A)
      → ((a : A) → key a ≡ id → key (f a) ≡ key a)
      → find j (modify id f rows) ≡ (if id == j then map_option f (find j rows) else find j rows)
  unfolding find modify
  find-modify id f j [] h = ground arith
  find-modify id f j (a ∷ rows) h = ground (arith, h a, find-modify id f j rows h)

  pub find-modify_where :
      (p : A → Bool) (f : A → A) (j : ℕ) (rows : List A)
      → ((a : A) → key (f a) ≡ key a)
      → find j (modify_where p f rows) ≡ map_option (λ a. if p a then f a else a) (find j rows)
  unfolding find modify_where
  find-modify_where p f j [] h = refl
  find-modify_where p f j (a ∷ rows) h = ground (arith, h a, find-modify_where p f j rows h)

  pub find-append :
      (j : ℕ) (rows more : List A) {a : A} → find j rows ≡ some a → find j (rows ++ more) ≡ some a
  unfolding find
  find-append j [] more h = ground arith
  find-append j (b ∷ rows) more {a} h = ground (arith, find-append j rows more {a = a})

  pub find-append_fresh :
      (j : ℕ) (rows more : List A) → find j rows ≡ none → find j (rows ++ more) ≡ find j more
  unfolding find
  find-append_fresh j [] more h = refl
  find-append_fresh j (b ∷ rows) more h = ground (arith, find-append_fresh j rows more)
