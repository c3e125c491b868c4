-- ===== src/Engine/Termination.antt =====
-- The executor's loop ends: every round takes an operation off the pending ones.
use nd3x.Prelude.{
  ℕ, zero, suc, ◌≤◌, ◌<◌, ◌≡◌, ◌≢◌, sym, ◌∙◌, Bool, true, inl, inr, List, [], ◌∷◌, map, arith, elem,
  length, Bool-cases, if◌then◌else◌,
}
use nd3x.Engine.{Operation, NodeStatus}
use nd3x.Engine.Loop.{
  Answer, Context, Exit, going, finished, waiting, failure, out_of_fuel, and_then, is_empty,
  Failure, workflow_cancelled, discard, settle, dead_output, take_answer, take_answers, ready, dead,
  skip_dead, gather, run_round, run_rounds, execute_operations, select,
}
use nd3x.Engine.Pending.{
  length-discard-le, length-discard-lt, elem-sorted, select-elem, GoesBelow, take_answer-GoesBelow,
}
use nd3x.Engine.Gate.{List-cases}

-- A part of the loop that is handed `c` never runs out of fuel, and takes something off.
abbrev Falls : ℕ → Exit → Type 0
Falls n (going c) = length c.pending < n
Falls n out_of_fuel = ⊥
Falls n _ = Unit

abbrev NotOut : Exit → Type 0
NotOut out_of_fuel = ⊥
NotOut _ = Unit

after_answer-NotOut : (op : Operation) (a : Answer) (c : Context) → NotOut (take_answer op a c)
unfolding take_answer nd3x.Engine.Loop.failed_operation
after_answer-NotOut op (Answer.raised message) c = ground arith
after_answer-NotOut op (Answer.skip output) c = tt
after_answer-NotOut op (Answer.pause status output) c = tt
after_answer-NotOut op (Answer.set_variable variables output) c = tt
after_answer-NotOut op (Answer.condition ids output) c = tt
after_answer-NotOut op (Answer.result output) c = tt

and_then-Falls :
    (x : Exit) (k : Context → Exit) (m n : ℕ)
    → GoesBelow m x
    → NotOut x
    → ((c : Context) → length c.pending ≤ m → Falls n (k c))
    → Falls n (and_then x k)
and_then-Falls (going c) k m n below out rest = rest c below
and_then-Falls (finished c) k m n below out rest = tt
and_then-Falls (waiting id c) k m n below out rest = tt
and_then-Falls (failure f c) k m n below out rest = tt
and_then-Falls out_of_fuel k m n below out rest = absurd out

take_answers-Falls :
    (batch : List (Operation × Answer)) (c : Context) (n : ℕ)
    → length c.pending < n
    → Falls n (take_answers batch c)
unfolding take_answers
take_answers-Falls [] c n h = h
take_answers-Falls ((op, a) ∷ rest) c n h = elim (Bool-cases (elem op.id c.pending)) [
  | inl e ↦
      let c' = record c { pending = discard op.id c.pending } in
      rw e (
        and_then-Falls (take_answer op a c') (take_answers rest) (length c'.pending) n
          (take_answer-GoesBelow op a c') (after_answer-NotOut op a c')
          (λ d below.
            take_answers-Falls rest d n (omega (arith, length-discard-le op.id c.pending))))
  | inr e ↦ rw e tt
]

-- A batch that is not empty takes its first operation off.
batch-Falls :
    (op : Operation) (a : Answer) (rest : List (Operation × Answer)) (c : Context)
    → elem op.id c.pending ≡ true
    → Falls (length c.pending) (take_answers ((op, a) ∷ rest) c)
unfolding take_answers
batch-Falls op a rest c e =
    let c' = record c { pending = discard op.id c.pending } in
    rw e (
      and_then-Falls (take_answer op a c') (take_answers rest) (length c'.pending)
        (length c.pending) (take_answer-GoesBelow op a c') (after_answer-NotOut op a c')
        (λ d below.
          take_answers-Falls rest d (length c.pending)
            (omega (arith, length-discard-lt op.id c.pending e))))

pending-skip_dead :
    (ops : List Operation) (c : Context) → length (skip_dead ops c).pending ≤ length c.pending
unfolding skip_dead settle
pending-skip_dead [] c = omega arith
pending-skip_dead (op ∷ ops) c = omega (
  arith,
  pending-skip_dead ops (
      settle op.id NodeStatus.skipped dead_output (record c { pending = discard op.id c.pending })),
  length-discard-le op.id c.pending,
)

skip_dead-Falls :
    (op : Operation) (ops : List Operation) (c : Context)
    → elem op.id c.pending ≡ true
    → length (skip_dead (op ∷ ops) c).pending < length c.pending
unfolding skip_dead settle
skip_dead-Falls op ops c e = omega (
  arith,
  pending-skip_dead ops (
      settle op.id NodeStatus.skipped dead_output (record c { pending = discard op.id c.pending })),
  length-discard-lt op.id c.pending e,
)

and_then-NotOut :
    (x : Exit) (k : Context → Exit) (n : ℕ)
    → Falls n x
    → ((c : Context) → length c.pending < n → NotOut (k c))
    → NotOut (and_then x k)
and_then-NotOut (going c) k n f rest = rest c f
and_then-NotOut (finished c) k n f rest = tt
and_then-NotOut (waiting id c) k n f rest = tt
and_then-NotOut (failure x c) k n f rest = tt
and_then-NotOut out_of_fuel k n f rest = f

module _ (answer : ℕ → Context → Operation → Answer) (cancelled : ℕ → Bool) where
  run_round-Falls :
      (round : ℕ) (c : Context) → Falls (length c.pending) (run_round answer cancelled round c)
  unfolding run_round
  run_round-Falls round c = elim (List-cases (ready c)) [
    | inl none_ready ↦ elim (List-cases (dead c)) [
      | inl none_dead ↦ rw (none_ready, run_round) (rw none_dead tt)
      | inr (op, ops, some_dead) ↦
          rw (none_ready, run_round)
            (rw some_dead (
              skip_dead-Falls op ops c
                (sym (elem-sorted op.id c.pending) ∙ select-elem _ _ _ op ops some_dead)))
    ]
    | inr (op, ops, some_ready) ↦ elim (Bool-cases (cancelled (suc round))) [
      | inl e ↦ rw (some_ready, run_round) (rw e tt)
      | inr e ↦
          rw (some_ready, run_round)
            (rw e (
              rw some_ready (
                batch-Falls op (answer round c op) (map (λ o. (o, answer round c o)) ops) c
                  (sym (elem-sorted op.id c.pending) ∙ select-elem _ _ _ op ops some_ready))))
    ]
  ]

  round-Falls :
      (round : ℕ) (c : Context)
      → Falls (length c.pending) (
          if cancelled round
          then failure workflow_cancelled c
          else run_round answer cancelled round c)
  round-Falls round c = elim (Bool-cases (cancelled round)) [
    | inl e ↦ rw e tt
    | inr e ↦ rw e (run_round-Falls round c)
  ]

  run_rounds-NotOut :
      (fuel round : ℕ) (c : Context)
      → length c.pending < fuel
      → NotOut (run_rounds answer cancelled fuel round c)
  unfolding run_rounds
  run_rounds-NotOut zero round c h = absurd (omega arith)
  run_rounds-NotOut (suc fuel) round c h = elim (Bool-cases (is_empty c.pending)) [
    | inl e ↦ rw e tt
    | inr e ↦ rw e (
        and_then-NotOut
          (if cancelled round
            then failure workflow_cancelled c
            else run_round answer cancelled round c)
          (run_rounds answer cancelled fuel (suc (suc round))) (length c.pending)
          (round-Falls round c)
          (λ d less. run_rounds-NotOut fuel (suc (suc round)) d (omega arith)))
  ]

  -- The executor's loop ends, whatever the operations return, raise or wait for and whenever the run
  -- is cancelled: the fuel of the model, one more than the number of pending operations, is enough.
  pub execute_operations_ends : (c : Context) → execute_operations answer cancelled c ≢ out_of_fuel
  unfolding execute_operations
  execute_operations_ends c e = not_out (execute_operations answer cancelled c) (start_NotOut c) e
    where
      start_NotOut : (c : Context) → NotOut (execute_operations answer cancelled c)
      start_NotOut c = elim (Bool-cases (cancelled 0)) [
        | inl h ↦ rw h tt
        | inr h ↦ rw h (run_rounds-NotOut (suc (length c.pending)) 1 c (omega arith))
      ]

      not_out : (x : Exit) → NotOut x → x ≢ out_of_fuel
      not_out out_of_fuel n h = n
      not_out _ n h = cc
