-- ===== src/Core/Workflow.antt =====
-- src/nexusops/core/workflow.py, and `WorkflowContext` of core/context.py. The handlers are not the
-- orchestrator's: they act on the context and on a world `W` of which it knows nothing. A step is
-- named by a number.
pub mod Saga
pub mod Resume
use supply_chain_execution.Common.{
  Bool, List, Option, [], any, if◌then◌else◌, length, none, reverse, some, ℕ, ◌++◌, ◌==◌, ◌∷◌,
}
use supply_chain_execution.Core.Effect.{Action, Result, catch, modify, ok, pure, raise, ◌>>=◌, ◌>>◌}
use supply_chain_execution.Core.Exceptions.{workflow_error}

-- The fields of the context that the orchestrator reads or writes.
pub record WorkflowContext : Type 0 where
  pub steps_completed : List ℕ
  pub steps_pending : List ℕ

-- `step in steps`
abbrev pub has_step : ℕ → List ℕ → Bool
has_step name steps = any (λ (x : ℕ). x == name) steps

-- `steps.remove(step)`, for a step that is there.
unfoldable pub remove_step : ℕ → List ℕ → List ℕ
remove_step name [] = []
remove_step name (x ∷ xs) = if x == name then xs else x ∷ remove_step name xs

unfoldable pub mark_step_complete : ℕ → WorkflowContext → WorkflowContext
mark_step_complete name ctx = record {
  steps_completed = ctx.steps_completed ++ name ∷ [];
  steps_pending = remove_step name ctx.steps_pending;
}

abbrev pub is_complete : WorkflowContext → Bool
is_complete ctx = length ctx.steps_pending == 0

abbrev pub State : Type 0 → Type 0
State W = WorkflowContext × W

abbrev pub StepHandler : Type 0 → Type 0
StepHandler W = Action (State W) (Unit {0})

abbrev pub Steps : Type 0 → Type 0
Steps W = List (ℕ × StepHandler W × Option (StepHandler W))

module _ {W : Type 0} where
  abbrev pub step_names : Steps W → List ℕ
  step_names [] = []
  step_names ((name, _, _) ∷ steps) = name ∷ step_names steps

  -- `add_step`
  abbrev pub add_step : ℕ → StepHandler W → Option (StepHandler W) → Steps W → Steps W
  add_step name handler compensation steps = steps ++ (name, handler, compensation) ∷ []

  -- `_compensate`, on the handlers in the order in which it runs them.
  unfoldable pub run_compensations : List (Option (StepHandler W)) → StepHandler W
  run_compensations [] = pure tt
  run_compensations (none ∷ rest) = run_compensations rest
  run_compensations (some compensation ∷ rest) =
      catch compensation (λ e. pure tt) >> run_compensations rest

  unfoldable pub compensate : List (Option (StepHandler W)) → StepHandler W
  compensate done = run_compensations (reverse done)

  -- The loop of `execute`.
  unfoldable pub run_steps : Steps W → List (Option (StepHandler W)) → StepHandler W
  run_steps [] done s = (ok tt, s)
  run_steps ((name, handler, compensation) ∷ steps) done s =
      let skipped = run_steps steps done s in
      let taken =
        catch (do handler; modify λ (x : State W). (mark_step_complete name x.0, x.1))
          (λ e. compensate done >> raise workflow_error)
        >> run_steps steps (done ++ compensation ∷ []) in
      if has_step name s.0.steps_pending then taken s else skipped

  -- `execute`, on the context given or on a new one.
  unfoldable pub execute : Steps W → Option WorkflowContext → W → Result (Unit {0}) × State W
  execute steps none w =
      run_steps steps [] (record { steps_completed = []; steps_pending = step_names steps }, w)
  execute steps (some ctx) w = run_steps steps [] (ctx, w)
