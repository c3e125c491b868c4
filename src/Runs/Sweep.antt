-- ===== src/Runs/Sweep.antt =====
-- What the cancellation cascade does to the rows, and that its fuel is enough.
use nd3x.Prelude.{
  ℕ, zero, suc, ◌≤◌, ◌≡◌, refl, subst, ◌∙◌, ◌⊎◌, Bool, true, false, Option, some, inl, inr, List,
  [], ◌∷◌, arith, keep, any, count, Option-cases, Bool-cases,
}
use nd3x.Table.{modify_where}
use nd3x.Runs.{WorkflowRun, is_cancellable}
use nd3x.Runs.Cancel.{request_cancel, is_live_child, cancel_each, request_cancel_child_runs}

abbrev pub is_live : WorkflowRun → Bool
is_live r = is_cancellable r.status

-- No run is a live child of `p`.
abbrev pub IsSwept : List WorkflowRun → ℕ → Type 0
IsSwept rows p = any (is_live_child p) rows ≡ false

-- A row is as it was, or was live, has its cancellation requested, and its id has `Q`.
abbrev pub Link : ℕ → (ℕ → Type 0) → WorkflowRun → WorkflowRun → Type 0
Link now Q r s = (s ≡ r) ⊎ ((is_live r ≡ true) × (s ≡ request_cancel now r) × Q r.id)

abbrev pub Links : ℕ → (ℕ → Type 0) → List WorkflowRun → List WorkflowRun → Type 0
Links now Q [] [] = Unit
Links now Q (r ∷ rows) (s ∷ rows') = Link now Q r s × Links now Q rows rows'
Links now Q _ _ = ⊥

live_child : (p : ℕ) (r : WorkflowRun) → is_live_child p r ≡ true → is_live r ≡ true
live_child p r h = ground arith

abbrev AllSwept : (ℕ → Type 0) → List WorkflowRun → Type 0
AllSwept Q [] = Unit
AllSwept Q (r ∷ rows) = Q r.id × AllSwept Q rows

module _ (now : ℕ) where
  Links-refl : (Q : ℕ → Type 0) (rows : List WorkflowRun) → Links now Q rows rows
  Links-refl Q [] = tt
  Links-refl Q (r ∷ rows) = (inl refl, Links-refl Q rows)

  Links-mono :
      (Q Q' : ℕ → Type 0) (rows rows' : List WorkflowRun)
      → ((q : ℕ) → Q q → Q' q)
      → Links now Q rows rows'
      → Links now Q' rows rows'
  Links-mono Q Q' [] [] f l = tt
  Links-mono Q Q' [] (s ∷ rows') f l = absurd l
  Links-mono Q Q' (r ∷ rows) [] f l = absurd l
  Links-mono Q Q' (r ∷ rows) (s ∷ rows') f (l, ls) = (
    elim l [ inl e ↦ inl e | inr (h, e, q) ↦ inr (h, e, f r.id q) ],
    Links-mono Q Q' rows rows' f ls,
  )

  Link-trans :
      (Q : ℕ → Type 0) (r s t : WorkflowRun) → Link now Q r s → Link now Q s t → Link now Q r t
  Link-trans Q r s t (inl e) (inl f) = inl (f ∙ e)
  Link-trans Q r s t (inl e) (inr (h, f, q)) =
      inr (subst (λ x. (is_live x ≡ true) × (t ≡ request_cancel now x) × Q x.id) e (h, f, q))
  Link-trans Q r s t (inr (h, e, q)) (inl f) = inr (h, f ∙ e, q)
  Link-trans Q r s t (inr (h, e, q)) (inr (k, f, p)) = ground arith

  Links-trans :
      (Q : ℕ → Type 0) (xs ys zs : List WorkflowRun)
      → Links now Q xs ys
      → Links now Q ys zs
      → Links now Q xs zs
  Links-trans Q [] [] zs l m = m
  Links-trans Q [] (y ∷ ys) zs l m = absurd l
  Links-trans Q (x ∷ xs) [] zs l m = absurd l
  Links-trans Q (x ∷ xs) (y ∷ ys) [] l m = absurd m
  Links-trans Q (x ∷ xs) (y ∷ ys) (z ∷ zs) (l, ls) (m, ms) =
      (Link-trans Q x y z l m, Links-trans Q xs ys zs ls ms)

  Links-modify_where :
      (Q : ℕ → Type 0) (p : ℕ) (rows : List WorkflowRun)
      → AllSwept Q (keep (is_live_child p) rows)
      → Links now Q rows (modify_where (is_live_child p) (request_cancel now) rows)
  unfolding modify_where
  Links-modify_where Q p [] a = tt
  Links-modify_where Q p (r ∷ rows) a = elim (Bool-cases (is_live_child p r)) [
    | inl h ↦
        let a' : Q r.id × AllSwept Q (keep (is_live_child p) rows) = rw h at a in
        rw h (inr (live_child p r h, refl, a'.0), Links-modify_where Q p rows a'.1)
    | inr h ↦
        let a' : AllSwept Q (keep (is_live_child p) rows) = rw h at a in
        rw h (inl refl, Links-modify_where Q p rows a')
  ]

  pub Links-count :
      (Q : ℕ → Type 0) (rows rows' : List WorkflowRun)
      → Links now Q rows rows'
      → count is_live rows' ≤ count is_live rows
  Links-count Q [] [] l = omega arith
  Links-count Q [] (s ∷ rows') l = absurd l
  Links-count Q (r ∷ rows) [] l = absurd l
  Links-count Q (r ∷ rows) (s ∷ rows') (inl e, ls) =
      rw e (ground (arith, Links-count Q rows rows' ls))
  Links-count Q (r ∷ rows) (s ∷ rows') (inr (h, e, q), ls) =
      rw e (ground (arith, Links-count Q rows rows' ls))

  Links-IsSwept :
      (Q : ℕ → Type 0) (p : ℕ) (rows rows' : List WorkflowRun)
      → Links now Q rows rows'
      → IsSwept rows p
      → IsSwept rows' p
  Links-IsSwept Q p [] [] l h = refl
  Links-IsSwept Q p [] (s ∷ rows') l h = absurd l
  Links-IsSwept Q p (r ∷ rows) [] l h = absurd l
  Links-IsSwept Q p (r ∷ rows) (s ∷ rows') (inl e, ls) h =
      rw e (ground (arith, Links-IsSwept Q p rows rows' ls))
  Links-IsSwept Q p (r ∷ rows) (s ∷ rows') (inr (k, e, q), ls) h =
      rw e (ground (arith, Links-IsSwept Q p rows rows' ls))

  IsSwept-modify_where :
      (p : ℕ) (rows : List WorkflowRun)
      → IsSwept (modify_where (is_live_child p) (request_cancel now) rows) p
  unfolding modify_where
  IsSwept-modify_where p [] = refl
  IsSwept-modify_where p (r ∷ rows) = ground (arith, IsSwept-modify_where p rows)

  -- `cancel_each` with a step that sweeps: all that was marked is swept at the end.
  pub cancel_each-Links :
      (recur : ℕ → List WorkflowRun → Option (List WorkflowRun))
      → ((q : ℕ) (rows rows' : List WorkflowRun)
          → recur q rows ≡ some rows'
          → Links now (IsSwept rows') rows rows' × IsSwept rows' q)
      → (selected rows rows' : List WorkflowRun) → cancel_each recur selected rows ≡ some rows'
      → Links now (IsSwept rows') rows rows' × AllSwept (IsSwept rows') selected
  unfolding cancel_each
  cancel_each-Links recur step [] rows rows' h =
      (subst (Links now (IsSwept rows') rows) (cc h) (Links-refl (IsSwept rows') rows), tt)
  cancel_each-Links recur step (r ∷ rest) rows rows' h = elim (Option-cases (recur r.id rows)) [
    | inl e ↦ cc (h, e)
    | inr (mid, e) ↦
        let (l, sw) = step r.id rows mid e in
        let (ls, all) = cancel_each-Links recur step rest mid rows' (rw (e, cancel_each) at h) in
        let later = λ (q : ℕ). Links-IsSwept (IsSwept rows') q mid rows' ls in
        (
          Links-trans (IsSwept rows') rows mid rows'
              (Links-mono (IsSwept mid) (IsSwept rows') rows mid later l) ls,
          (later r.id sw, all),
        )
  ]

  -- The cascade sweeps the run that it starts from and every run that it marks, and changes no other.
  pub request_cancel_child_runs-Links :
      (fuel p : ℕ) (rows rows' : List WorkflowRun)
      → request_cancel_child_runs fuel now p rows ≡ some rows'
      → Links now (IsSwept rows') rows rows' × IsSwept rows' p
  unfolding request_cancel_child_runs
  request_cancel_child_runs-Links zero p rows rows' h = cc
  request_cancel_child_runs-Links (suc fuel) p rows rows' h =
      let marked = modify_where (is_live_child p) (request_cancel now) rows in
      let (ls, all) =
        cancel_each-Links (request_cancel_child_runs fuel now)
          (request_cancel_child_runs-Links fuel) (keep (is_live_child p) rows) marked rows' h in
      (
        Links-trans (IsSwept rows') rows marked rows'
            (Links-modify_where (IsSwept rows') p rows all) ls,
        Links-IsSwept (IsSwept rows') p marked rows' ls (IsSwept-modify_where p rows),
      )
