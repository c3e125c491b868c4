-- ===== src/Login/Lockout.antt =====
-- A burst of failures locks the key out.
use nd3x.Prelude.{
  ℕ, suc, ◌+◌, ◌-◌, ◌/◌, ◌≤◌, ◌<◌, true, false, ◌≡◌, ◌⊎◌, inl, inr, refl, arith, String, str_eq,
  eq_iff, List, [], ◌∷◌, ◌++◌, keep, count, length, leb, Bool-cases, Option-cases, if◌then◌else◌,
}
use nd3x.Login.{
  window, lockout, millis, max_failures, Entry, Entries, empty_entry, entry_or_new, retry_after,
  is_recent, fail_entry, record_failure, record_success,
}
use nd3x.Named.{get, get-set, get-pop}

-- What the endpoint tells the limiter: a login of a key that failed at a time, or that succeeded.
pub data Attempt : Type 0 where
  failure : String → ℕ → Attempt
  success : String → Attempt

unfoldable pub attempt : Attempt → Entries → Entries
attempt (failure key now) entries = record_failure key now entries
attempt (success key) entries = record_success key entries

unfoldable pub attempts : List Attempt → Entries → Entries
attempts [] entries = entries
attempts (a ∷ rest) entries = attempts rest (attempt a entries)

module _ (key : String) (start : ℕ) where
  -- Every attempt of the key is a failure within one window from `start` on.
  abbrev pub IsBurst : List Attempt → Type 0
  IsBurst [] = Unit
  IsBurst (failure k now ∷ rest) =
      (str_eq k key ≡ true → (start ≤ now) × (now < start + window)) × IsBurst rest
  IsBurst (success k ∷ rest) = (str_eq k key ≡ false) × IsBurst rest

  abbrev pub failures_in : List Attempt → ℕ
  failures_in [] = 0
  failures_in (failure k now ∷ rest) = let n = failures_in rest in if str_eq k key then suc n else n
  failures_in (success k ∷ rest) = failures_in rest

  -- The key is locked until the lockout after `start` at least, or `n` failures since `start`
  -- are on record.
  abbrev Counts : ℕ → Entry → Type 0
  Counts n e = (start + lockout ≤ e.locked_until) ⊎ (n ≤ count (leb start) e.failures)

  count-le-length : (ts : List ℕ) → count (leb start) ts ≤ length ts
  count-le-length [] = omega arith
  count-le-length (t ∷ ts) = ground (arith, count-le-length ts)

  -- The failures since `start` are still in the window.
  count-keep :
      (now : ℕ) (ts : List ℕ)
      → start ≤ now
      → now < start + window
      → count (leb start) (keep (is_recent now) ts ++ now ∷ []) ≡ suc (count (leb start) ts)
  count-keep now [] h k = ground arith
  count-keep now (t ∷ ts) h k = ground (arith, count-keep now ts h k)

  fail_entry-Counts :
      (n now : ℕ) (e : Entry)
      → start ≤ now
      → now < start + window
      → Counts n e
      → Counts (suc n) (fail_entry now e)
  unfolding fail_entry
  fail_entry-Counts n now e h k c = ground (arith, count-keep now e.failures h k)

  -- Between calls there are fewer failures on record than lock the key.
  abbrev IsBelow : Entry → Type 0
  IsBelow e = length e.failures < max_failures

  fail_entry-IsBelow : (now : ℕ) (e : Entry) → IsBelow (fail_entry now e)
  unfolding fail_entry
  fail_entry-IsBelow now e = ground arith

  abbrev entry_at : Entries → Entry
  entry_at entries = entry_or_new (get key entries)

  entry-failure :
      (k : String) (now : ℕ) (entries : Entries)
      → entry_at (record_failure k now entries)
        ≡ (if str_eq k key then fail_entry now (entry_at entries) else entry_at entries)
  unfolding record_failure
  entry-failure k now entries = elim (Bool-cases (str_eq k key)) [
    | inl e ↦
        rw (get-set k (fail_entry now (entry_or_new (get k entries))) key entries)
          (rw ((eq_iff k key).0 e) (ground (arith, eq_iff key key)))
    | inr e ↦ rw (get-set k (fail_entry now (entry_or_new (get k entries))) key entries) (rw e refl)
  ]

  entry-success :
      (k : String) (entries : Entries)
      → entry_at (record_success k entries)
        ≡ (if str_eq k key then empty_entry else entry_at entries)
  unfolding record_success
  entry-success k entries = elim (Bool-cases (str_eq k key)) [
    | inl e ↦ rw (get-pop k key entries) (rw e refl)
    | inr e ↦ rw (get-pop k key entries) (rw e refl)
  ]

  attempts-IsBelow :
      (more : List Attempt) (entries : Entries)
      → IsBelow (entry_at entries)
      → IsBelow (entry_at (attempts more entries))
  unfolding attempts attempt
  attempts-IsBelow [] entries h = h
  attempts-IsBelow (failure k now ∷ more) entries h =
      attempts-IsBelow more (record_failure k now entries)
        (ground (arith, entry-failure k now entries, fail_entry-IsBelow now (entry_at entries)))
  attempts-IsBelow (success k ∷ more) entries h =
      attempts-IsBelow more (record_success k entries) (ground (arith, entry-success k entries))

  attempts-Counts :
      (more : List Attempt) (n : ℕ) (entries : Entries)
      → IsBurst more
      → Counts n (entry_at entries)
      → Counts (failures_in more + n) (entry_at (attempts more entries))
  unfolding attempts attempt
  attempts-Counts [] n entries b c = ground arith
  attempts-Counts (failure k now ∷ more) n entries (in_window, b) c =
      elim (Bool-cases (str_eq k key)) [
        | inl e ↦
            let (h, l) = in_window e in
            let rest_counts = attempts-Counts more (suc n) (record_failure k now entries) b (
              rw (entry-failure k now entries, e)
                (fail_entry-Counts n now (entry_at entries) h l c)) in
            rw e (ground arith)
        | inr e ↦ rw e (
            attempts-Counts more n (record_failure k now entries) b
              (rw (entry-failure k now entries, e) c))
      ]
  attempts-Counts (success k ∷ more) n entries (other, b) c =
      attempts-Counts more n (record_success k entries) b (rw (entry-success k entries, other) c)

  retry_after-entry :
      (now : ℕ) (entries : Entries)
      → retry_after key now entries ≡ ((entry_at entries).locked_until - now) / millis
  unfolding retry_after
  retry_after-entry now entries = elim (Option-cases (get key entries)) [
    | inl e ↦ rw (e, retry_after) (omega arith)
    | inr (x, e) ↦ rw (e, retry_after) refl
  ]

  -- A key that fails five times within one window, with any attempts of other keys in between and
  -- whatever came before, is told to wait for what is left of the lockout from the first failure.
  pub burst_locks :
      (before burst : List Attempt) (now : ℕ)
      → IsBurst burst
      → max_failures ≤ failures_in burst
      → (start + lockout - now) / millis ≤ retry_after key now (attempts burst (attempts before []))
  unfolding get
  burst_locks before burst now b enough =
      let counts = attempts-Counts burst 0 (attempts before []) b (inr (omega arith)) in
      let below =
        attempts-IsBelow burst (attempts before []) (attempts-IsBelow before [] (omega arith)) in
      let entry = entry_at (attempts burst (attempts before [])) in
      ground (
        arith,
        retry_after-entry now (attempts burst (attempts before [])),
        count-le-length entry.failures,
      )

module _ (key : String) where
  abbrev Quiet : ℕ → Entry → Type 0
  Quiet n e = (e.locked_until ≡ 0) × (length e.failures ≤ n)

  length-keep_recent :
      (now : ℕ) (ts : List ℕ) → length (keep (is_recent now) ts ++ now ∷ []) ≤ suc (length ts)
  length-keep_recent now [] = omega arith
  length-keep_recent now (t ∷ ts) = ground (arith, length-keep_recent now ts)

  fail_entry-Quiet :
      (n now : ℕ) (e : Entry) → suc n < max_failures → Quiet n e → Quiet (suc n) (fail_entry now e)
  unfolding fail_entry
  fail_entry-Quiet n now e h q = ground (arith, length-keep_recent now e.failures)

  attempts-Quiet :
      (more : List Attempt) (n : ℕ) (entries : Entries)
      → failures_in key 0 more + n < max_failures
      → Quiet n (entry_at key 0 entries)
      → (entry_at key 0 (attempts more entries)).locked_until ≡ 0
  unfolding attempts attempt
  attempts-Quiet [] n entries h q = q.0
  attempts-Quiet (failure k now ∷ more) n entries h q = elim (Bool-cases (str_eq k key)) [
    | inl e ↦ attempts-Quiet more (suc n) (record_failure k now entries) (ground arith) (
        rw (entry-failure key 0 k now entries, e)
          (fail_entry-Quiet n now (entry_at key 0 entries) (ground arith) q))
    | inr e ↦
        attempts-Quiet more n (record_failure k now entries) (ground arith)
          (rw (entry-failure key 0 k now entries, e) q)
  ]
  attempts-Quiet (success k ∷ more) n entries h q =
      attempts-Quiet more n (record_success k entries) h
        (ground (arith, entry-success key 0 k entries))

  -- After a successful login, fewer than five failures of the key lock nothing, at whatever times
  -- they come and whatever other keys do.
  pub few_failures_free :
      (before after : List Attempt) (now : ℕ)
      → failures_in key 0 after < max_failures
      → retry_after key now (attempts after (attempt (success key) (attempts before []))) ≡ 0
  unfolding attempt
  few_failures_free before after now few =
      let entries = attempts before [] in
      let free =
        attempts-Quiet after 0 (record_success key entries) (ground arith)
          (ground (arith, entry-success key 0 key entries, eq_iff key key)) in
      ground (arith, retry_after-entry key 0 now (attempts after (record_success key entries)))
