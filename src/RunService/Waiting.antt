-- ===== src/RunService/Waiting.antt =====
-- What a timeout leaves, and what a user is shown.
use nd3x.Prelude.{
  ℕ, ◌≡◌, refl, sym, ap, ◌∙◌, subst, Bool, true, false, inl, inr, [], ◌∷◌, String, Option, some,
  arith, Bool-cases,
}
use nd3x.Json.{Value}
use nd3x.Runs.{WorkflowRun, WorkflowOperationRun, Db, is_terminal, get_run}
use nd3x.Runs.Marks.{is_over, mark_failed, mark_cancelled}
use nd3x.Runs.Operations.{
  Outcome, ok, raised, ◌>>=◌, OperationReply, mark_operation_cancelled, fail_operation_run,
}
use nd3x.Execution.{Exit, after_write}
use nd3x.Table.{find}
use nd3x.Runs.{edit_run, operation_run_key}
use nd3x.Runs.Calls.{history, step, cancel_operation, fail_operation}
use nd3x.Runs.Calls.Rows.{operations-edit_run}
use nd3x.Execution.WholeRun.{run_failed}
use nd3x.Execution.Rows.{IsThere, HasVerdict, cancelled-HasVerdict, failed-HasVerdict}
use nd3x.Execution.WholeRun.Left.{IsRun, IsLeft-edited, IsRun-history}
use nd3x.RunService.{
  OnTimeout, cancel, fail, keep_waiting, is_pending_expired, on_timeout_of, pending_of,
  append_timeout_trace, word_of, timeout_error, end_waiting, enforce_policy,
  enforce_waiting_timeout,
}

-- A run and its operation have ended.
pub record BothOver (run_id id : ℕ) (db : Db) : Type 0 where
  pub operation : HasVerdict id db
  pub row : WorkflowRun
  pub found : get_run run_id db ≡ some row
  pub over : is_terminal row.status ≡ true

module _ (text_of : Value → String) (fromisoformat : String → Option ℕ) (r : WorkflowRun)
    (o : WorkflowOperationRun) (now : ℕ) where
  abbrev pub TimesOut : Bool → Db → Db → Type 0
  TimesOut true db db' = BothOver r.id o.id db'
  TimesOut false db db' = db' ≡ db

  over_after :
      (f : WorkflowRun → WorkflowRun) (db : Db)
      → ((s : WorkflowRun) → (f s).id ≡ s.id)
      → ((s : WorkflowRun) → is_terminal (f s).status ≡ true)
      → HasVerdict o.id db
      → IsRun r.id db
      → BothOver r.id o.id (edit_run r.id is_over f db).1
  over_after f db keeps ends v there =
      let left =
        IsLeft-edited run_failed r.id is_over f db keeps (λ s. ground (arith, ends s)) there in
      record {
        operation = record {
          row = v.row;
          found =
              ap (λ rows. find operation_run_key o.id rows) (operations-edit_run r.id is_over f db)
              ∙ v.found;
          over = v.over;
        };
        row = left.row;
        found = left.found;
        over = left.status;
      }

  closed :
      (m : Outcome OperationReply) (g : Db → Db) (b : Bool) (db db' : Db)
      → ((x : Option WorkflowOperationRun) (db1 : Db)
          → m ≡ ok (x, db1)
          → BothOver r.id o.id (g db1))
      → ◌>>=◌ {B = Bool × Db} m (λ (x, db1). ok (true, g db1)) ≡ ok (b, db')
      → TimesOut b db db'
  closed (raised e) g b db db' over h = cc
  closed (ok (x, db1)) g b db db' over h =
      let (answer, same) = parts h in
      subst (λ c. TimesOut c db db') answer (subst (BothOver r.id o.id) same (over x db1 refl))
    where
      parts :
          ◌≡◌ {A = Outcome (Bool × Db)} (ok (true, g db1)) (ok (b, db'))
          → (true ≡ b) × (g db1 ≡ db')
      parts h = (cc, cc)

  cancel-TimesOut :
      (output trace : Value) (b : Bool) (db db' : Db)
      → IsRun r.id db
      → IsThere o.id db
      → end_waiting text_of fromisoformat cancel r o output trace now db ≡ ok (b, db')
      → TimesOut b db db'
  unfolding end_waiting mark_cancelled after_write history step
  cancel-TimesOut output trace b db db' run op h =
      let error = timeout_error text_of fromisoformat o in
      closed (mark_operation_cancelled o.id error output trace now db) _ b db db'
        (λ x db1 f.
          over_after _ db1 (λ s. refl) (λ s. refl)
            (rw (f, after_write) at
              (cancelled-HasVerdict o.id now Exit.cancelled db op error output trace
                (rw (f, after_write) refl)))
            (rw (f, history, step) at
              (IsRun-history r.id db (cancel_operation o.id error output trace now ∷ []) run)))
        h

  fail-TimesOut :
      (output trace : Value) (b : Bool) (db db' : Db)
      → IsRun r.id db
      → IsThere o.id db
      → end_waiting text_of fromisoformat fail r o output trace now db ≡ ok (b, db')
      → TimesOut b db db'
  unfolding end_waiting mark_failed after_write history step
  fail-TimesOut output trace b db db' run op h =
      let error = timeout_error text_of fromisoformat o in
      closed (fail_operation_run o.id error output trace now db) _ b db db'
        (λ x db1 f.
          over_after _ db1 (λ s. refl) (λ s. refl)
            (rw (f, after_write) at
              (failed-HasVerdict o.id now Exit.input_mapping_failed db op error output trace
                (rw (f, after_write) refl)))
            (rw (f, history, step) at
              (IsRun-history r.id db (fail_operation o.id error output trace now ∷ []) run)))
        h

  traced :
      (policy : OnTimeout) (m : Outcome Value) (output : Value) (b : Bool) (db db' : Db)
      → ((trace : Value)
          → end_waiting text_of fromisoformat policy r o output trace now db ≡ ok (b, db')
          → TimesOut b db db')
      → (m >>= λ trace. end_waiting text_of fromisoformat policy r o output trace now db)
        ≡ ok (b, db')
      → TimesOut b db db'
  traced policy (ok trace) output b db db' ended h = ended trace h
  traced policy (raised e) output b db db' ended h = cc

  kept-TimesOut :
      (b : Bool) (db db' : Db)
      → ◌≡◌ {A = Outcome (Bool × Db)} (ok (false, db)) (ok (b, db'))
      → TimesOut b db db'
  kept-TimesOut b db db' h = subst (λ c. TimesOut c db db') answer (sym same)
    where
      answer : false ≡ b
      answer = cc

      same : db ≡ db'
      same = cc

  policy-TimesOut :
      (policy : OnTimeout) (b : Bool) (db db' : Db)
      → IsRun r.id db
      → IsThere o.id db
      → enforce_policy text_of fromisoformat policy r o now db ≡ ok (b, db')
      → TimesOut b db db'
  unfolding enforce_policy
  policy-TimesOut keep_waiting b db db' run op h = kept-TimesOut b db db' h
  policy-TimesOut cancel b db db' run op h =
      traced cancel (append_timeout_trace text_of fromisoformat o (pending_of o) (word_of cancel)) _
        b db db' (λ trace e. cancel-TimesOut _ trace b db db' run op e) h
  policy-TimesOut fail b db db' run op h =
      traced fail (append_timeout_trace text_of fromisoformat o (pending_of o) (word_of fail)) _ b
        db db' (λ trace e. fail-TimesOut _ trace b db db' run op e) h

  -- Where the timeout of a waiting operation is looked at without an exception, and the answer is that
  -- it has struck, the row of the operation and that of its run have ended, the two of them together;
  -- where the answer is that it has not, nothing is written.
  pub enforce_waiting_timeout-TimesOut :
      (b : Bool) (db db' : Db)
      → IsRun r.id db
      → IsThere o.id db
      → enforce_waiting_timeout text_of fromisoformat r o now db ≡ ok (b, db')
      → TimesOut b db db'
  unfolding enforce_waiting_timeout
  enforce_waiting_timeout-TimesOut b db db' run op h =
      elim (Bool-cases (is_pending_expired text_of fromisoformat now (pending_of o))) [
        | inl e ↦
            policy-TimesOut (on_timeout_of text_of fromisoformat (pending_of o)) b db db' run op
              (rw (e, enforce_waiting_timeout) at h)
        | inr e ↦ kept-TimesOut b db db' (rw (e, enforce_waiting_timeout) at h)
      ]
