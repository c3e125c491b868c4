-- ===== src/Execution/Settles.antt =====
-- An operation that has run leaves a verdict in its row.
use nd3x.Prelude.{ℕ, ◌≡◌, true, Option, List}
use nd3x.Json.{Value}
use nd3x.Runs.{Db}
use nd3x.Runs.Calls.{Call, history}
use nd3x.Payload.Contract.{Contract}
use nd3x.Execution.{BodyEnd, Ended, RetryPolicy}
use nd3x.Execution.Rows.{HasVerdict, is_verdict}

module _ (id run_id operation_id now : ℕ) (others : ℕ → List Call) (body : ℕ → BodyEnd)
    (trace : Value) (waiting_result : Value → Value) (policy : RetryPolicy)
    (contract : Option Contract) where
  -- What a part of the operation must leave, if its exit is a verdict.
  abbrev Leaves : Ended → Type 0
  Leaves e = is_verdict e.exit ≡ true → HasVerdict id e.db

  abbrev later : ℕ → Db → Db
  later k db = history db (others k)
