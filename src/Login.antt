-- ===== src/Login.antt =====
-- src/authentication/login_rate_limit.py: the lockout of the login endpoint after repeated
-- failures. The clock is an argument, in milliseconds; a lock makes every call one step.
pub mod Lockout
mod Tests
use nd3x.Named.{Named, get, set, pop}
use nd3x.Prelude.{
  ℕ, ◌+◌, ◌-◌, ◌*◌, ◌/◌, Bool, ◌≡◌, refl, arith, String, str_eq, eq_iff, Option, none, some, List,
  [], ◌∷◌, ◌++◌, keep, length, ltb, leb, if◌then◌else◌,
}

abbrev pub millis : ℕ
millis = 1000

abbrev pub max_failures : ℕ
max_failures = 5

abbrev pub window : ℕ
window = 300 * millis

abbrev pub lockout : ℕ
lockout = 900 * millis

pub record Entry : Type 0 where
  pub failures : List ℕ
  pub locked_until : ℕ

abbrev pub empty_entry : Entry
empty_entry = record { failures = []; locked_until = 0 }

-- _entries
abbrev pub Entries : Type 0
Entries = Named Entry

abbrev pub entry_or_new : Option Entry → Entry
entry_or_new none = empty_entry
entry_or_new (some e) = e

-- int() cuts the fraction of a second off, and a lock in the past gives 0.
unfoldable pub retry_after : String → ℕ → Entries → ℕ
retry_after key now entries = elim (get key entries) [
  | none ↦ 0
  | some e ↦ (e.locked_until - now) / millis
]

abbrev pub is_recent : ℕ → ℕ → Bool
is_recent now t = ltb (now - t) window

-- what `record_failure` does to the key's entry
unfoldable pub fail_entry : ℕ → Entry → Entry
fail_entry now e =
    let failures = keep (is_recent now) e.failures ++ now ∷ [] in
    if leb max_failures (length failures)
    then record { failures = []; locked_until = now + lockout }
    else record e { failures = failures }

unfoldable pub record_failure : String → ℕ → Entries → Entries
record_failure key now entries = set key (fail_entry now (entry_or_new (get key entries))) entries

unfoldable pub record_success : String → Entries → Entries
record_success key entries = pop key entries
