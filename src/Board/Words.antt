-- ===== src/Board/Words.antt =====
-- The fixed words of the board, and `_validate_enum`.
use Prim.Native.Char.{code}
use nd3x.Prelude.{
  ℕ, ◌+◌, Bool, true, false, ◌&&◌, String, Option, none, some, List, [], ◌∷◌, map, ◌==◌, leb,
  if◌then◌else◌,
}
use nd3x.Runs.Operations.{Error, Outcome, ok, raised}
use nd3x.Policy.Text.{strip}

-- BOARD_STATUSES
pub data Status : Type 0 where
  todo doing blocked done : Status

-- BOARD_PRIORITIES
pub data Priority : Type 0 where
  low medium high urgent : Priority

-- BOARD_ORIGINS
pub data Origin : Type 0 where
  agent user : Origin

-- PRIORITY_ORDER
abbrev pub priority_order : Priority → ℕ
priority_order low = 0
priority_order medium = 1
priority_order high = 2
priority_order urgent = 3

abbrev pub is_status : Status → Status → Bool
is_status todo todo = true
is_status doing doing = true
is_status blocked blocked = true
is_status done done = true
is_status _ _ = false

abbrev pub codes : String → List ℕ
codes String.[] = []
codes (String.◌∷◌ c s) = code c ∷ codes s

-- str.lower() as far as the words can tell: besides the capitals, the Kelvin sign becomes a `k`.
abbrev pub lower_code : ℕ → ℕ
lower_code c = if leb 65 c && leb c 90 then c + 32 else (if c == 8490 then 107 else c)

abbrev pub same_codes : List ℕ → List ℕ → Bool
same_codes [] [] = true
same_codes (a ∷ as_) (b ∷ bs) = a == b && same_codes as_ bs
same_codes _ _ = false

-- str(value).strip().lower() == word
unfoldable pub is_word : String → String → Bool
is_word word value = same_codes (map lower_code (codes (strip value))) (codes word)

unfoldable pub one_of {ℓ} : {A : Type ℓ} → List (String × A) → String → Outcome (Option A)
one_of [] value = raised Error.value_error
one_of ((word, a) ∷ allowed) value =
    let rest = one_of allowed value in if is_word word value then ok (some a) else rest

-- None is passed on.
unfoldable pub validate_enum {ℓ} :
    {A : Type ℓ} → List (String × A) → Option String → Outcome (Option A)
validate_enum allowed none = ok none
validate_enum allowed (some value) = one_of allowed value

abbrev pub validate_status : Option String → Outcome (Option Status)
validate_status =
    validate_enum (("todo", todo) ∷ ("doing", doing) ∷ ("blocked", blocked) ∷ ("done", done) ∷ [])

abbrev pub validate_priority : Option String → Outcome (Option Priority)
validate_priority =
    validate_enum (("low", low) ∷ ("medium", medium) ∷ ("high", high) ∷ ("urgent", urgent) ∷ [])

abbrev pub validate_origin : Option String → Outcome (Option Origin)
validate_origin = validate_enum (("agent", agent) ∷ ("user", user) ∷ [])
