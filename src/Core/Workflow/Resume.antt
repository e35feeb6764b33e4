-- ===== src/Core/Workflow/Resume.antt =====
-- `execute` (core/workflow.py) on a context with some of its steps pending.
use supply_chain_execution.Common.{
  Bool-cases, List, Option, [], append-nil, append_assoc, arith, false, filter, inl, inr, refl,
  some, ℕ, ◌++◌, ◌==◌, ◌∷◌, ◌≡◌,
}
use supply_chain_execution.Core.Effect.{ok}
use supply_chain_execution.Core.Workflow.{
  State, StepHandler, Steps, WorkflowContext, execute, has_step, mark_step_complete, remove_step,
  run_steps,
}

-- Steps whose handlers return and leave the context alone: a name, and what is done to the world.
abbrev pub Work : Type 0 → Type 0
Work W = List (ℕ × (W → W) × Option (StepHandler W))

unfoldable pub removed : List ℕ → List ℕ → List ℕ
removed [] waiting = waiting
removed (name ∷ used) waiting = removed used (remove_step name waiting)

has_step-remove_step :
    (name other : ℕ) (l : List ℕ)
    → (name == other) ≡ false
    → has_step other (remove_step name l) ≡ has_step other l
unfolding remove_step
has_step-remove_step name other [] differs = refl
has_step-remove_step name other (x ∷ l) differs =
    ground (arith, has_step-remove_step name other l differs)

module _ {W : Type 0} where
  abbrev pub steps_of : Work W → Steps W
  steps_of [] = []
  steps_of ((name, f, compensation) ∷ work) =
      (name, (λ (s : State W). (ok tt, (s.0, f s.1))), compensation) ∷ steps_of work

  abbrev pub names_of : Work W → List ℕ
  names_of [] = []
  names_of ((name, _, _) ∷ work) = name ∷ names_of work

  -- The effects of some work in turn.
  abbrev pub done_by : Work W → W → W
  done_by [] w = w
  done_by ((_, f, _) ∷ work) w = done_by work (f w)

  -- The work whose step is pending.
  abbrev pub pending_in : List ℕ → Work W → Work W
  pending_in waiting work =
      filter (λ (x : ℕ × (W → W) × Option (StepHandler W)). has_step x.0 waiting) work

  -- No name is used twice.
  abbrev pub AreNamed : Work W → Type 0
  AreNamed [] = Unit
  AreNamed ((name, _, _) ∷ work) = (has_step name (names_of work) ≡ false) × AreNamed work

  pending_in-remove_step :
      (name : ℕ) (waiting : List ℕ) (work : Work W)
      → has_step name (names_of work) ≡ false
      → pending_in (remove_step name waiting) work ≡ pending_in waiting work
  pending_in-remove_step name waiting [] h = refl
  pending_in-remove_step name waiting ((other, f, c) ∷ work) h =
      let rest = pending_in-remove_step name waiting work (ground (arith, h)) in
      let same = has_step-remove_step name other waiting (ground (arith, h)) in rw (same, rest) refl

  run_steps-pending :
      (work : Work W) (done : List (Option (StepHandler W))) (ctx : WorkflowContext) (w : W)
      → AreNamed work
      → let now = pending_in ctx.steps_pending work in
        run_steps (steps_of work) done (ctx, w) ≡ (
          ok tt,
          (
            record {
              steps_completed = ctx.steps_completed ++ names_of now;
              steps_pending = removed (names_of now) ctx.steps_pending;
            },
            done_by now w,
          ),
        )
  unfolding run_steps mark_step_complete removed
  run_steps-pending [] done ctx w named = rw (append-nil ctx.steps_completed) refl
  run_steps-pending ((name, f, c) ∷ work) done ctx w named =
      elim (Bool-cases (has_step name ctx.steps_pending)) [
        | inl waits ↦
            let later =
              run_steps-pending work (done ++ c ∷ []) (mark_step_complete name ctx) (f w) named.1 in
            let same = pending_in-remove_step name ctx.steps_pending work named.0 in
            let now = names_of (pending_in ctx.steps_pending work) in
            rw (waits, later, same, append_assoc ctx.steps_completed (name ∷ []) now) refl
        | inr over ↦ rw over (run_steps-pending work done ctx w named.1)
      ]

  -- If no two steps have one name, and every handler returns and leaves the context alone, then
  -- `execute` on a context returns, having run exactly the steps that the context has as pending, in
  -- their order and once each: they are marked as complete and removed from the pending ones, and
  -- the world is as their handlers leave it. No compensation runs.
  pub execute-pending :
      (work : Work W) (ctx : WorkflowContext) (w : W)
      → AreNamed work
      → let now = pending_in ctx.steps_pending work in
        execute (steps_of work) (some ctx) w ≡ (
          ok tt,
          (
            record {
              steps_completed = ctx.steps_completed ++ names_of now;
              steps_pending = removed (names_of now) ctx.steps_pending;
            },
            done_by now w,
          ),
        )
  unfolding execute
  execute-pending work ctx w named = run_steps-pending work [] ctx w named
