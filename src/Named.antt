-- ===== src/Named.antt =====
-- A dict from texts, in the order of insertion: the tables that services keep in memory.
use nd3x.Prelude.{
  ◌≡◌, refl, arith, String, str_eq, eq_iff, Option, none, some, List, [], ◌∷◌, if◌then◌else◌,
}

-- dict[str, V]
abbrev pub Named : Type 0 → Type 0
Named V = List (String × V)

module _ {V : Type 0} where
  -- d.get(key)
  unfoldable pub get : String → Named V → Option V
  get key [] = none
  get key ((k, v) ∷ d) = if str_eq k key then some v else get key d

  -- d[key] = v, which keeps the place of a key that is there
  unfoldable pub set : String → V → Named V → Named V
  set key v [] = (key, v) ∷ []
  set key v ((k, w) ∷ d) = if str_eq k key then (k, v) ∷ d else (k, w) ∷ set key v d

  -- d.pop(key, None)
  unfoldable pub pop : String → Named V → Named V
  pop key [] = []
  pop key ((k, v) ∷ d) = let rest = pop key d in if str_eq k key then rest else (k, v) ∷ rest

  pub get-set :
      (key : String) (v : V) (k : String) (d : Named V)
      → get k (set key v d) ≡ (if str_eq key k then some v else get k d)
  unfolding get set
  get-set key v k [] = refl
  get-set key v k ((j, w) ∷ d) =
      ground (arith, eq_iff key k, eq_iff j key, eq_iff j k, get-set key v k d)

  pub get-pop :
      (key k : String) (d : Named V) → get k (pop key d) ≡ (if str_eq key k then none else get k d)
  unfolding get pop
  get-pop key k [] = ground arith
  get-pop key k ((j, w) ∷ d) =
      ground (arith, eq_iff key k, eq_iff j key, eq_iff j k, get-pop key k d)
