-- ===== src/Limiter/Window.antt =====
-- No minute has more requests or tokens than the limits.
use nd3x.Prelude.{
  ℕ, ◌+◌, ◌-◌, ◌≤◌, ◌≡◌, refl, sym, ap, ◌∙◌, Bool, true, ◌&&◌, inl, inr, List, [], ◌∷◌, ◌++◌, arith,
  all, keep, length, ltb, leb, Bool-cases,
}
use nd3x.Limiter.{Event, window, is_recent, used_tokens, Turn, granted, refused, turn}

-- A request for a model, with its estimate, at a time.
pub record Request : Type 0 where
  pub now : ℕ
  pub estimated : ℕ

abbrev pub events_after : Turn → List Event
events_after (granted events) = events
events_after (refused events pause) = events

-- What is let through.
abbrev pub log_after : ℕ → ℕ → Turn → List Event → List Event
log_after now estimated (granted events) log = log ++ record { ts = now; tokens = estimated } ∷ []
log_after now estimated (refused events pause) log = log

-- The turns of all callers, one after the other: the events of the limiter and what was let
-- through since the start.
unfoldable pub serve : ℕ → ℕ → List Request → List Event → List Event → List Event
serve rpm tpm [] events log = log
serve rpm tpm (r ∷ requests) events log =
    let t = turn rpm tpm r.estimated r.now events in
    serve rpm tpm requests (events_after t) (log_after r.now r.estimated t log)

-- The clock does not go back.
abbrev pub IsOrderedFrom : ℕ → List Request → Type 0
IsOrderedFrom p [] = Unit
IsOrderedFrom p (r ∷ requests) = (p ≤ r.now) × IsOrderedFrom r.now requests

-- in the minute that ends at `t`
abbrev pub is_within : ℕ → Event → Bool
is_within t e = leb e.ts t && ltb (t - e.ts) window

abbrev pub minute : ℕ → List Event → List Event
minute t log = keep (is_within t) log

abbrev is_before : ℕ → Event → Bool
is_before p e = leb e.ts p

keep-append : (p : Event → Bool) (xs ys : List Event) → keep p (xs ++ ys) ≡ keep p xs ++ keep p ys
keep-append p [] ys = refl
keep-append p (x ∷ xs) ys = ground (arith, keep-append p xs ys)

length-append : (xs ys : List Event) → length (xs ++ ys) ≡ length xs + length ys
length-append [] ys = omega arith
length-append (x ∷ xs) ys = omega (arith, length-append xs ys)

used-append : (xs ys : List Event) → used_tokens (xs ++ ys) ≡ used_tokens xs + used_tokens ys
used-append [] ys = omega arith
used-append (x ∷ xs) ys = omega (arith, used-append xs ys)

-- Pruning at a time and again later is pruning at the later time.
keep-recent :
    (p now : ℕ) (log : List Event)
    → p ≤ now
    → keep (is_recent now) (keep (is_recent p) log) ≡ keep (is_recent now) log
keep-recent p now [] h = refl
keep-recent p now (e ∷ log) h = ground (arith, keep-recent p now log h)

minute-le :
    (t now : ℕ) (log : List Event)
    → now ≤ t
    → (length (minute t log) ≤ length (keep (is_recent now) log))
      × (used_tokens (minute t log) ≤ used_tokens (keep (is_recent now) log))
minute-le t now [] h = (omega arith, omega arith)
minute-le t now (e ∷ log) h = ground (arith, minute-le t now log h)

all-later :
    (p q : ℕ) (log : List Event)
    → p ≤ q
    → all (is_before p) log ≡ true
    → all (is_before q) log ≡ true
all-later p q [] h k = refl
all-later p q (e ∷ log) h k = ground (arith, all-later p q log h)

all-append_one :
    (p : ℕ) (log : List Event) (e : Event)
    → e.ts ≤ p
    → all (is_before p) log ≡ true
    → all (is_before p) (log ++ e ∷ []) ≡ true
all-append_one p [] e h k = ground arith
all-append_one p (x ∷ log) e h k = ground (arith, all-append_one p log e h)

ends_later : (t : ℕ) (e : Event) → is_within t e ≡ true → e.ts ≤ t
ends_later t e i = ground arith

keep-appended :
    (now estimated : ℕ) (log : List Event)
    → keep (is_recent now) log ++ record { ts = now; tokens = estimated } ∷ []
      ≡ keep (is_recent now) (log ++ record { ts = now; tokens = estimated } ∷ [])
keep-appended now estimated log =
    sym (
      keep-append (is_recent now) log (record { ts = now; tokens = estimated } ∷ []) ∙ ground arith)

fits_both : (a b c d : ℕ) → (leb a b && leb c d) ≡ true → (a ≤ b) × (c ≤ d)
fits_both a b c d h = ground arith

module _ (rpm tpm : ℕ) where
  abbrev IsBounded : List Event → Type 0
  IsBounded log = (t : ℕ) → (length (minute t log) ≤ rpm) × (used_tokens (minute t log) ≤ tpm)

  -- The limiter's events are those of the log that were recent at the last turn, and the log keeps
  -- to the limits.
  record IsSound (p : ℕ) (events log : List Event) : Type 0 where
    pub recent : events ≡ keep (is_recent p) log
    pub before : all (is_before p) log ≡ true
    pub bounded : IsBounded log

  -- A new event at `now` adds one request and its tokens to the minutes that end then or later.
  appended :
      (now estimated : ℕ) (log : List Event)
      → length (keep (is_recent now) log) + 1 ≤ rpm
      → used_tokens (keep (is_recent now) log) + estimated ≤ tpm
      → IsBounded log
      → IsBounded (log ++ record { ts = now; tokens = estimated } ∷ [])
  appended now estimated log h k b t =
      let e : Event = record { ts = now; tokens = estimated } in
      rw (keep-append (is_within t) log (e ∷ [])) (elim (Bool-cases (is_within t e)) [
        | inl i ↦
            let (fewer, less) = minute-le t now log (ends_later t e i) in
            rw i (
              omega (arith, length-append (minute t log) (e ∷ []), fewer, h),
              omega (arith, used-append (minute t log) (e ∷ []), less, k),
            )
        | inr i ↦ rw i (
          omega (arith, length-append (minute t log) [], (b t).0),
          omega (arith, used-append (minute t log) [], (b t).1),
        )
      ])

  turn-IsSound :
      (p : ℕ) (r : Request) (events log : List Event)
      → p ≤ r.now
      → IsSound p events log
      → IsSound r.now
          (events_after (turn rpm tpm r.estimated r.now events))
          (log_after r.now r.estimated (turn rpm tpm r.estimated r.now events) log)
  unfolding turn
  turn-IsSound p r events log h s =
      let kept : keep (is_recent r.now) events ≡ keep (is_recent r.now) log =
        ap (keep (is_recent r.now)) s.recent ∙ keep-recent p r.now log h in
      let recent = keep (is_recent r.now) log in
      let fits = leb (length recent + 1) rpm && leb (used_tokens recent + r.estimated) tpm in
      rw kept (elim (Bool-cases fits) [
        | inl e ↦
            let (fewer, less) =
              fits_both (length recent + 1) rpm (used_tokens recent + r.estimated) tpm e in
            rw e (record {
              recent = keep-appended r.now r.estimated log;
              before =
                  all-append_one r.now log (record { ts = r.now; tokens = r.estimated })
                    (omega arith) (all-later p r.now log h s.before);
              bounded = appended r.now r.estimated log fewer less s.bounded;
            })
        | inr e ↦ rw e (record {
          recent = refl;
          before = all-later p r.now log h s.before;
          bounded = s.bounded;
        })
      ])

  serve-IsBounded :
      (requests : List Request) (p : ℕ) (events log : List Event)
      → IsOrderedFrom p requests
      → IsSound p events log
      → IsBounded (serve rpm tpm requests events log)
  unfolding serve
  serve-IsBounded [] p events log o s = s.bounded
  serve-IsBounded (r ∷ requests) p events log (h, o) s =
      serve-IsBounded requests r.now _ _ o (turn-IsSound p r events log h s)

  -- Whatever requests are made at whatever times, in no minute are more requests let through for a
  -- model than its limit, nor more tokens.
  pub serve-bounded :
      (requests : List Request) (t : ℕ)
      → IsOrderedFrom 0 requests
      → (length (minute t (serve rpm tpm requests [] [])) ≤ rpm)
        × (used_tokens (minute t (serve rpm tpm requests [] [])) ≤ tpm)
  serve-bounded requests t o =
      serve-IsBounded requests 0 [] [] o
        (record { recent = refl; before = refl; bounded = λ t. (omega arith, omega arith) }) t
