-- ===== src/Runs/Descendants.antt =====
-- What a cancellation request does to the run, to the live runs below it, and to all others.
use nd3x.Prelude.{
  ℕ, ◌≡◌, refl, sym, ap, subst, ◌∙◌, true, false, Option, some, inl, inr, List, [], ◌∷◌, arith,
  ◌==◌, ==_iff, ==_refl, Option-cases, Bool-cases,
}
use nd3x.Table.{find, modify, find-modify}
use nd3x.Runs.{WorkflowRun, RunStatus, Db, cancel_requested, is_terminal, run_key, get_run}
use nd3x.Runs.Cancel.{
  request_cancel, is_live_child, cascade_fuel, request_cancel_child_runs, request_cancel_run,
}
use nd3x.Runs.Sweep.{Link, Links, IsSwept, request_cancel_child_runs-Links}

-- Run `c` is `root`, or is reached from it by parent links through runs that are queued or running.
pub data LiveUnder (db : Db) (root : ℕ) : ℕ → Type 0 where
  self : {c : ℕ} → c ≡ root → LiveUnder db root c
  below :
      {p c : ℕ} {r : WorkflowRun}
      → LiveUnder db root p
      → get_run c db ≡ some r
      → is_live_child p r ≡ true
      → LiveUnder db root c

abbrev pub StatusAt : ℕ → RunStatus → List WorkflowRun → Type 0
StatusAt c status rows = (s : WorkflowRun) × (find run_key c rows ≡ some s) × (s.status ≡ status)

Links-find :
    (now : ℕ) (Q : ℕ → Type 0) (c : ℕ) (rows rows' : List WorkflowRun) {r : WorkflowRun}
    → Links now Q rows rows'
    → find run_key c rows ≡ some r
    → (s : WorkflowRun) × (find run_key c rows' ≡ some s) × Link now Q r s × (r.id ≡ c)
unfolding find
Links-find now Q c [] rows' l h = cc
Links-find now Q c (x ∷ rows) [] l h = absurd l
Links-find now Q c (x ∷ rows) (y ∷ rows') {r} (l, ls) h = elim (Bool-cases (x.id == c)) [
  | inl e ↦
      let same : x ≡ r = ground arith in
      (
        y,
        rw (Link-id now Q x y l ∙ refl) (rw e refl),
        subst (λ z. Link now Q z y) same l,
        ap (λ (z : WorkflowRun). z.id) (sym same) ∙ (==_iff x.id c).0 e,
      )
  | inr e ↦
      let (s, f, k, i) = Links-find now Q c rows rows' {r = r} ls (ground arith) in
      (s, rw (Link-id now Q x y l ∙ refl) (rw e f), k, i)
]
  where
    Link-id : (now : ℕ) (Q : ℕ → Type 0) (x y : WorkflowRun) → Link now Q x y → y.id ≡ x.id
    Link-id now Q x y (inl e) = ap (λ (z : WorkflowRun). z.id) e
    Link-id now Q x y (inr (_, e, _)) = ap (λ (z : WorkflowRun). z.id) e

IsSwept-find :
    (p c : ℕ) (rows : List WorkflowRun) {s : WorkflowRun}
    → IsSwept rows p
    → find run_key c rows ≡ some s
    → is_live_child p s ≡ false
unfolding find
IsSwept-find p c [] h f = cc
IsSwept-find p c (x ∷ rows) {s} h f = ground (arith, IsSwept-find p c rows {s = s})

Link-cancelled :
    (now : ℕ) (Q : ℕ → Type 0) (r s : WorkflowRun)
    → Link now Q (request_cancel now r) s
    → s.status ≡ cancel_requested
Link-cancelled now Q r s (inl e) = ap (λ (x : WorkflowRun). x.status) e
Link-cancelled now Q r s (inr (_, e, _)) = ap (λ (x : WorkflowRun). x.status) e

abbrev marked : ℕ → ℕ → Db → List WorkflowRun
marked id now db = modify run_key id (request_cancel now) db.runs

-- A request that returns for a run that is not over has run the cascade.
cascade_of :
    (id now : ℕ) (db db' : Db) {r : WorkflowRun} {out : Option WorkflowRun}
    → get_run id db ≡ some r
    → is_terminal r.status ≡ false
    → request_cancel_run id now db ≡ some (out, db')
    → request_cancel_child_runs (cascade_fuel (marked id now db)) now id (marked id now db)
      ≡ some db'.runs
unfolding request_cancel_run
cascade_of id now db db' {r} {out} e h f =
    elim (Option-cases
      (request_cancel_child_runs (cascade_fuel (marked id now db)) now id (marked id now db))) [
        | inl g ↦ ground arith
        | inr (rows, g) ↦ ground arith
      ]

module _ (id now : ℕ) (db db' : Db) {root : WorkflowRun} {out : Option WorkflowRun}
    (found : get_run id db ≡ some root) (open_run : is_terminal root.status ≡ false)
    (done : request_cancel_run id now db ≡ some (out, db')) where
  links : Links now (IsSwept db'.runs) (marked id now db) db'.runs × IsSwept db'.runs id
  links =
      request_cancel_child_runs-Links now (cascade_fuel (marked id now db)) id (marked id now db)
        db'.runs (cascade_of id now db db' found open_run done)

  root_cancelled : StatusAt id cancel_requested db'.runs
  root_cancelled =
      let m = find-modify run_key id (request_cancel now) id db.runs (λ r _. refl) in
      let (s, f, l, i) =
        Links-find now (IsSwept db'.runs) id (marked id now db) db'.runs
          {r = request_cancel now root} links.0 (m ∙ rw (==_refl id, found) refl) in
      (s, f, Link-cancelled now (IsSwept db'.runs) root s l)

  reached :
      (p c : ℕ) {r : WorkflowRun}
      → IsSwept db'.runs p
      → get_run c db ≡ some r
      → is_live_child p r ≡ true
      → IsSwept db'.runs c × StatusAt c cancel_requested db'.runs
  reached p c {r} swept at_c live = elim (Bool-cases (id == c)) [
    | inl e ↦
        subst (λ x. IsSwept db'.runs x × StatusAt x cancel_requested db'.runs) ((==_iff id c).0 e)
          (links.1, root_cancelled)
    | inr e ↦
        let m = find-modify run_key id (request_cancel now) c db.runs (λ r _. refl) in
        let (s, f, l, i) =
          Links-find now (IsSwept db'.runs) c (marked id now db) db'.runs {r = r} links.0
            (m ∙ rw (e, at_c) refl) in
        elim l [
          | inl same ↦
              cc (sym (IsSwept-find p c db'.runs {s = s} swept f), ap (is_live_child p) same, live)
          | inr (_, changed, q) ↦
              (subst (IsSwept db'.runs) i q, (s, f, ap (λ (x : WorkflowRun). x.status) changed))
        ]
  ]

  -- A cancellation request for a run that is not over leaves its status at `cancel_requested`, whether
  -- it has children or not, and so that of every run that is reached from it by parent links through
  -- queued or running runs; no child of any of these runs is queued or running afterwards.
  pub request_cancel_run-descendants :
      (c : ℕ) → LiveUnder db id c → StatusAt c cancel_requested db'.runs × IsSwept db'.runs c
  request_cancel_run-descendants c (self e) =
      subst (λ x. StatusAt x cancel_requested db'.runs × IsSwept db'.runs x) (sym e)
        (root_cancelled, links.1)
  request_cancel_run-descendants c (below {p = p} {r = r} under at_c live) =
      let (swept, status) =
        reached p c {r = r} (request_cancel_run-descendants p under).1 at_c live in
      (status, swept)
