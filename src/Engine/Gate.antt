-- ===== src/Engine/Gate.antt =====
-- The follow-up gate: when an operation that is the target of follow-up edges waits, may run, or
-- is on a branch that was not taken.
use nd3x.Prelude.{
  ℕ, ◌≡◌, refl, ◌∙◌, Bool, true, false, ◌&&◌, ◌||◌, not, ◌⊎◌, inl, inr, List, [], ◌∷◌, arith, all,
}
use nd3x.Engine.{
  Operation, NodeStatus, Dict, Kind, incoming_followups, fires, any_pending, any_fired, gate_open,
  dependency_met, dependencies_satisfied, dead_from, followup_branch_dead,
}

dead_from_lem :
    (statuses : Dict NodeStatus) (edges : List (ℕ × Kind)) (fired : Bool)
    → dead_from statuses edges fired
      ≡ (not (any_pending statuses edges) && not (fired || any_fired statuses edges))
unfolding dead_from any_pending any_fired
dead_from_lem statuses [] fired = ground arith
dead_from_lem statuses (e ∷ edges) fired =
    ground (arith, dead_from_lem statuses edges (fired || fires statuses e))

pub List-cases :
    {A : Type 0} (xs : List A) → (xs ≡ []) ⊎ ((x : A) × (rest : List A) × (xs ≡ x ∷ rest))
List-cases [] = inl refl
List-cases (x ∷ rest) = inr (x, rest, refl)

and_right : (a b : Bool) → (a && b) ≡ true → b ≡ true
and_right a b h = ground arith

dead-eq :
    (op : Operation) (ops : List Operation) (statuses : Dict NodeStatus) (e : ℕ × Kind)
    (edges : List (ℕ × Kind))
    → incoming_followups op.id ops ≡ e ∷ edges
    → followup_branch_dead op ops statuses ≡ dead_from statuses (e ∷ edges) false
unfolding followup_branch_dead
dead-eq op ops statuses e edges h = rw (h, followup_branch_dead) refl

module _ (op : Operation) (ops : List Operation) (statuses : Dict NodeStatus) where
  -- An operation that is the target of follow-up edges is in exactly one of three cases: a source
  -- has not ended, and the gate is shut; all sources ended and one fired, and the gate is open; or
  -- all ended and none fired, and the operation's branch is dead.
  pub followup_cases :
      (e : ℕ × Kind) (edges : List (ℕ × Kind))
      → incoming_followups op.id ops ≡ e ∷ edges
      → ((any_pending statuses (e ∷ edges) ≡ true)
          × (gate_open statuses (incoming_followups op.id ops) ≡ false)
          × (followup_branch_dead op ops statuses ≡ false))
        ⊎ (((any_pending statuses (e ∷ edges) ≡ false)
              × (any_fired statuses (e ∷ edges) ≡ true)
              × (gate_open statuses (incoming_followups op.id ops) ≡ true)
              × (followup_branch_dead op ops statuses ≡ false))
            ⊎ ((any_pending statuses (e ∷ edges) ≡ false)
                × (any_fired statuses (e ∷ edges) ≡ false)
                × (gate_open statuses (incoming_followups op.id ops) ≡ false)
                × (followup_branch_dead op ops statuses ≡ true)))
  followup_cases e edges h =
      rw (dead-eq op ops statuses e edges h, dead_from_lem statuses (e ∷ edges) false, h)
        (ground arith)

  -- An operation whose branch is dead is never one that the loop would run.
  ready_not_dead :
      (allowed : List (ℕ × ℕ))
      → dependencies_satisfied op ops statuses allowed ≡ true
      → followup_branch_dead op ops statuses ≡ false
  unfolding dependencies_satisfied followup_branch_dead
  ready_not_dead allowed h = elim (List-cases (incoming_followups op.id ops)) [
    | inl e ↦ rw (e, followup_branch_dead) refl
    | inr (e, edges, f) ↦
        let g : gate_open statuses (e ∷ edges) ≡ true = rw f at (gate_of allowed h) in
        dead-eq op ops statuses e edges f ∙ dead_from_lem statuses (e ∷ edges) false ∙ ground arith
  ]
    where
      gate_of :
          (allowed : List (ℕ × ℕ))
          → dependencies_satisfied op ops statuses allowed ≡ true
          → gate_open statuses (incoming_followups op.id ops) ≡ true
      gate_of allowed h =
          and_right (all (dependency_met statuses allowed op.id) op.depends_on)
            (gate_open statuses (incoming_followups op.id ops)) h
