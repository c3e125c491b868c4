-- ===== src/Limiter.antt =====
-- OpenAIRateLimiter of src/services/openai_usage_control.py: how many requests and tokens a model
-- is sent in a minute. The monotonic clock is an argument, in milliseconds, and the lock makes
-- every turn of the loop one step.
pub mod Window
pub mod Wait
mod Tests
use nd3x.Prelude.{
  ℕ, zero, suc, ◌+◌, ◌-◌, ◌*◌, ◌^◌, Bool, true, false, ◌&&◌, String, Option, none, some, List, [],
  ◌∷◌, ◌++◌, keep, length, ltb, leb, if◌then◌else◌,
}
use nd3x.Named.{Named, get, set}

pub record Event : Type 0 where
  pub ts : ℕ
  pub tokens : ℕ

abbrev pub window : ℕ
window = 60000

abbrev pub is_recent : ℕ → Event → Bool
is_recent now e = ltb (now - e.ts) window

-- sum(int(e["tokens"]) for e in events)
abbrev pub used_tokens : List Event → ℕ
used_tokens [] = 0
used_tokens (e ∷ events) = e.tokens + used_tokens events

abbrev pub smaller : ℕ → ℕ → ℕ
smaller a b = if leb a b then a else b

abbrev pub larger : ℕ → ℕ → ℕ
larger a b = if leb a b then b else a

-- min((float(e["ts"]) for e in events), default=now)
unfoldable pub oldest_of : ℕ → List Event → ℕ
oldest_of now [] = now
oldest_of now (e ∷ []) = e.ts
oldest_of now (e ∷ f ∷ events) = smaller e.ts (oldest_of now (f ∷ events))

pub data Turn : Type 0 where
  -- the events with the new one
  granted : List Event → Turn
  -- the events that are left, and the time that the caller sleeps
  refused : List Event → ℕ → Turn

-- One turn of `while True` under the lock.
unfoldable pub turn : ℕ → ℕ → ℕ → ℕ → List Event → Turn
turn rpm tpm estimated now events =
    let recent = keep (is_recent now) events in
    if leb (length recent + 1) rpm && leb (used_tokens recent + estimated) tpm
    then granted (recent ++ record { ts = now; tokens = estimated } ∷ [])
    else refused recent (smaller (larger 250 (window - (now - oldest_of now recent))) 5000)

-- The loop, alone on its model: after a sleep the clock is on by what was slept and by a delay.
-- `none` is fuel that ran out.
unfoldable pub acquire_from : ℕ → ℕ → ℕ → ℕ → (ℕ → ℕ) → ℕ → List Event → Option (List Event)
acquire_from zero rpm tpm estimated delay now events = none
acquire_from (suc fuel) rpm tpm estimated delay now events =
    elim (turn rpm tpm estimated now events) [
      | granted events' ↦ some events'
      | refused recent pause ↦
          acquire_from fuel rpm tpm estimated delay (now + pause + delay fuel) recent
    ]

abbrev pub or_default : Option ℕ → ℕ → ℕ
or_default none default = default
or_default (some zero) default = default
or_default (some (suc n)) default = suc n

-- `model or "default"`
abbrev pub model_key : String → String
model_key String.[] = "default"
model_key model = model

abbrev pub events_of : Option (List Event) → List Event
events_of none = []
events_of (some events) = events

pub record Limits : Type 0 where
  pub default_requests_per_minute : ℕ
  pub default_tokens_per_minute : ℕ

-- The table of the events by model, after the call.
unfoldable pub acquire :
    ℕ
    → Limits
    → String
    → ℕ
    → Option ℕ
    → Option ℕ
    → (ℕ → ℕ)
    → ℕ
    → Named (List Event)
    → Option (Named (List Event))
unfolding acquire_from
acquire fuel limits model estimated rpm tpm delay now events_by_model =
    elim (acquire_from fuel (or_default rpm limits.default_requests_per_minute)
      (or_default tpm limits.default_tokens_per_minute) estimated delay now
      (events_of (get (model_key model) events_by_model))) [
        | none ↦ none
        | some events ↦ some (set (model_key model) events events_by_model)
      ]

abbrev wait_of : ℕ → ℕ → ℕ → Option ℕ → ℕ
wait_of attempt default_wait max_wait none = smaller max_wait (default_wait * 2 ^ (attempt - 1))
wait_of attempt default_wait max_wait (some said) = said

-- How long sleep_for_rate_limit_retry sleeps, given what the error says and the jitter.
unfoldable pub sleep_for_rate_limit_retry : Option ℕ → ℕ → ℕ → ℕ → ℕ → ℕ
sleep_for_rate_limit_retry said attempt default_wait max_wait jitter =
    smaller max_wait (wait_of attempt default_wait max_wait said + jitter)
