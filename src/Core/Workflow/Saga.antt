-- ===== src/Core/Workflow/Saga.antt =====
-- What `execute` (core/workflow.py) runs when a step fails.
use supply_chain_execution.Common.{
  List, Option, [], ap, append-nil, append_assoc, none, refl, reverse, some, true, ℕ, ◌++◌, ◌∙◌,
  ◌∷◌, ◌≡◌,
}
use supply_chain_execution.Core.Effect.{Result, catch, ok, pure, raised, recover}
use supply_chain_execution.Core.Exceptions.{Error, workflow_error}
use supply_chain_execution.Core.Workflow.{
  State, StepHandler, Steps, WorkflowContext, compensate, execute, has_step, mark_step_complete,
  run_compensations, run_steps,
}
use supply_chain_execution.Transportation.Scheduling.Methods.{after}

-- The steps that a run completes in turn, and the state that it is then in.
pub data Completes (W : Type 0) : Steps W → State W → State W → Type 0 where
  none_done : (s : State W) → Completes W [] s s
  one_more :
      (name : ℕ) (handler : StepHandler W) (compensation : Option (StepHandler W)) (steps : Steps W)
      (s s' s'' : State W)
      → has_step name s.0.steps_pending ≡ true
      → handler s ≡ (ok tt, s')
      → Completes W steps (mark_step_complete name s'.0, s'.1) s''
      → Completes W ((name, handler, compensation) ∷ steps) s s''

module _ {W : Type 0} where
  -- A compensation, as `_compensate` runs it: its error is only logged.
  abbrev pub effect : Option (StepHandler W) → State W → State W
  effect none s = s
  effect (some compensation) s = (compensation s).1

  abbrev pub effects : List (Option (StepHandler W)) → State W → State W
  effects [] s = s
  effects (c ∷ cs) s = effects cs (effect c s)

  caught : (m : StepHandler W) (s : State W) → catch m (λ e. pure tt) s ≡ (ok tt, (m s).1)
  caught m s = go (m s)
    where
      go : (x : Result (Unit {0}) × State W) → recover x.0 (λ e. pure tt) x.1 ≡ (ok tt, x.1)
      go (ok tt, s') = refl
      go (raised e, s') = refl

  run_compensations-effects :
      (cs : List (Option (StepHandler W))) (s : State W)
      → run_compensations cs s ≡ (ok tt, effects cs s)
  unfolding run_compensations
  run_compensations-effects [] s = refl
  run_compensations-effects (none ∷ cs) s = run_compensations-effects cs s
  run_compensations-effects (some c ∷ cs) s = rw (caught c s) (run_compensations-effects cs (c s).1)

  abbrev pub compensations : Steps W → List (Option (StepHandler W))
  compensations [] = []
  compensations ((_, _, c) ∷ steps) = c ∷ compensations steps

  run_steps-compensates :
      (before : Steps W) (name : ℕ) (handler : StepHandler W)
      (compensation : Option (StepHandler W)) (after : Steps W)
      (done : List (Option (StepHandler W))) (s s' s'' : State W) (x : Error)
      → Completes W before s s'
      → has_step name s'.0.steps_pending ≡ true
      → handler s' ≡ (raised x, s'')
      → run_steps (before ++ (name, handler, compensation) ∷ after) done s
        ≡ (raised workflow_error, effects (reverse (done ++ compensations before)) s'')
  unfolding run_steps compensate
  run_steps-compensates before name handler compensation after done s s' s'' x (none_done s₀) e f =
      rw (e, f, append-nil done, run_compensations-effects (reverse done) s'') refl
  run_steps-compensates before name handler compensation after done s s' s'' x
        (one_more n h c steps s₀ s₁ s₂ p q rest) e f =
      rw (p, q)
        (run_steps-compensates steps name handler compensation after (done ++ c ∷ [])
            (mark_step_complete n s₁.0, s₁.1) s' s'' x rest e f
          ∙ ap
              (λ (l : List (Option (StepHandler W))).
                (raised workflow_error, effects (reverse l) s''))
              (append_assoc done (c ∷ []) (compensations steps)))

  -- If a workflow completes its first steps, and the handler of the next, pending one raises, then
  -- the workflow raises WorkflowError after the compensations of the completed steps, the last
  -- first; a compensation that raises does not stop the ones after it.
  pub execute-compensates :
      (before : Steps W) (name : ℕ) (handler : StepHandler W)
      (compensation : Option (StepHandler W)) (after : Steps W) (ctx : WorkflowContext) (w : W)
      (s' s'' : State W) (x : Error)
      → Completes W before (ctx, w) s'
      → has_step name s'.0.steps_pending ≡ true
      → handler s' ≡ (raised x, s'')
      → execute (before ++ (name, handler, compensation) ∷ after) (some ctx) w
        ≡ (raised workflow_error, effects (reverse (compensations before)) s'')
  unfolding execute
  execute-compensates before name handler compensation after ctx w s' s'' x run e f =
      run_steps-compensates before name handler compensation after [] (ctx, w) s' s'' x run e f
