-- ===== src/Limiter/Wait.antt =====
-- A caller of the limiter is let through.
use nd3x.Prelude.{
  ℕ, zero, suc, ◌+◌, ◌-◌, ◌*◌, ◌≤◌, ◌<◌, ◌≡◌, refl, Bool, true, ◌&&◌, ◌⊎◌, inl, inr, Option, none,
  some, List, [], ◌∷◌, ◌++◌, arith, all, keep, length, leb, Bool-cases,
}
use nd3x.Limiter.{
  Event, window, is_recent, used_tokens, smaller, larger, oldest_of, granted, refused, turn,
  acquire_from,
}

-- Every event is at `start` or before.
abbrev pub is_by : ℕ → Event → Bool
is_by start e = leb e.ts start

keep-by :
    (start now : ℕ) (events : List Event)
    → all (is_by start) events ≡ true
    → all (is_by start) (keep (is_recent now) events) ≡ true
keep-by start now [] h = refl
keep-by start now (e ∷ events) h = ground (arith, keep-by start now events)

-- A minute later none is recent.
keep-old :
    (start now : ℕ) (events : List Event)
    → start + window ≤ now
    → all (is_by start) events ≡ true
    → keep (is_recent now) events ≡ []
keep-old start now [] h k = refl
keep-old start now (e ∷ events) h k = ground (arith, keep-old start now events)

pause-ge : (n : ℕ) → 250 ≤ smaller (larger 250 n) 5000
pause-ge n = ground arith

-- How the loop has ended.
abbrev pub IsGranted : Option (List Event) → Type 0
IsGranted none = ⊥
IsGranted (some events) = Unit

module _ (rpm tpm estimated : ℕ) (delay : ℕ → ℕ) (one : 1 ≤ rpm) (fits : estimated ≤ tpm) where
  fits_empty : (leb (0 + 1) rpm && leb (0 + estimated) tpm) ≡ true
  fits_empty = ground arith

  abbrev alone : ℕ → List Event
  alone now = record { ts = now; tokens = estimated } ∷ []

  turn-empty :
      (start now : ℕ) (events : List Event)
      → start + window ≤ now
      → all (is_by start) events ≡ true
      → turn rpm tpm estimated now events ≡ granted (alone now)
  unfolding turn
  turn-empty start now events h k = rw (keep-old start now events h k) (rw fits_empty refl)

  module _ (now : ℕ) (events : List Event) where
    abbrev recent : List Event
    recent = keep (is_recent now) events

    abbrev pause : ℕ
    pause = smaller (larger 250 (window - (now - oldest_of now recent))) 5000

    turn-cases :
        ((more : List Event) × (turn rpm tpm estimated now events ≡ granted more))
        ⊎ (turn rpm tpm estimated now events ≡ refused recent pause)
    unfolding turn
    turn-cases =
        elim (Bool-cases
          (leb (length recent + 1) rpm && leb (used_tokens recent + estimated) tpm)) [
            | inl e ↦ inl (recent ++ record { ts = now; tokens = estimated } ∷ [], rw e refl)
            | inr e ↦ inr (rw e refl)
          ]

  acquire-IsGranted :
      (fuel start now : ℕ) (events : List Event)
      → start + window < suc (now + 250 * fuel)
      → all (is_by start) events ≡ true
      → IsGranted (acquire_from (suc fuel) rpm tpm estimated delay now events)
  unfolding acquire_from
  acquire-IsGranted zero start now events h k =
      rw (turn-empty start now events (omega arith) k, acquire_from) tt
  acquire-IsGranted (suc fuel) start now events h k = elim (turn-cases now events) [
    | inl (more, e) ↦ rw (e, acquire_from) tt
    | inr e ↦
        rw (e, acquire_from)
          (acquire-IsGranted fuel start (now + pause now events + delay (suc fuel))
            (recent now events)
            (omega (arith, pause-ge (window - (now - oldest_of now (recent now events)))))
            (keep-by start now events k))
  ]

  -- A request that fits into an empty minute is let through: alone on its model, the loop ends
  -- within 241 turns, however long it oversleeps, if no event is later than the start.
  pub acquire-ends :
      (now : ℕ) (events : List Event)
      → all (is_by now) events ≡ true
      → IsGranted (acquire_from 241 rpm tpm estimated delay now events)
  acquire-ends now events h = acquire-IsGranted 240 now now events (omega arith) h
