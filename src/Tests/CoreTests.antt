-- ===== src/Tests/CoreTests.antt =====
-- The validators and the workflow at concrete inputs.
use Prim.Native.String.{count}
use supply_chain_execution.Common.{
  All, [], arith, false, none, refl, reverse, some, true, ℕ, ◌*◌, ◌+◌, ◌-◌, ◌↔◌, ◌∷◌, ◌≡◌, ◌≤◌,
}
use supply_chain_execution.Common.Int.{pos, ◌-ℤ◌, ◌≤ℤ◌}
use supply_chain_execution.Core.Effect.{ok, raised}
use supply_chain_execution.Core.Exceptions.{value_error, workflow_error}
use supply_chain_execution.Core.Quantities.{
  IsQuantity, Quantity, add_quantity, make_quantity, sub_quantity, sub_quantity-add,
}
use supply_chain_execution.Core.Validators.{Address, lacks_required, validate_create}
use supply_chain_execution.Core.Validators.Laws.{IsOrderQuantity, validate_create-valid}
use supply_chain_execution.Core.Workflow.{
  StepHandler, WorkflowContext, execute, mark_step_complete, remove_step,
}
use supply_chain_execution.Core.Workflow.Resume.{Work, execute-pending, removed, steps_of}
use supply_chain_execution.Core.Workflow.Saga.{
  Completes, effects, execute-compensates, none_done, one_more,
}

-- A world that counts: each step adds one, its compensation takes two, and the last step raises.
abbrev add_one : StepHandler ℕ
add_one s = (ok tt, (s.0, s.1 + 1))

abbrev take_two : StepHandler ℕ
take_two s = (raised value_error, (s.0, s.1 - 2))

abbrev fails : StepHandler ℕ
fails s = (raised value_error, s)

abbrev two_steps : WorkflowContext
two_steps = record { steps_completed = []; steps_pending = 1 ∷ 2 ∷ [] }

abbrev one_done : WorkflowContext
one_done = record { steps_completed = 1 ∷ []; steps_pending = 2 ∷ [] }

first-Completes : Completes ℕ ((1, add_one, some take_two) ∷ []) (two_steps, 5) (one_done, 6)
unfolding mark_step_complete remove_step
first-Completes =
    one_more 1 add_one (some take_two) [] (two_steps, 5) (two_steps, 6) (one_done, 6) refl refl
      (none_done (one_done, 6))

execute-compensates_example :
    execute ((1, add_one, some take_two) ∷ (2, fails, none) ∷ []) (some two_steps) 5
    ≡ (raised workflow_error, effects (reverse (some take_two ∷ [])) (one_done, 6))
execute-compensates_example =
    execute-compensates ((1, add_one, some take_two) ∷ []) 2 fails none [] two_steps 5 (one_done, 6)
      (one_done, 6) value_error first-Completes refl refl

-- Of three steps, the second is not pending.
abbrev three_jobs : Work ℕ
three_jobs = (1, (λ n. n + 1), none) ∷ (2, (λ n. n + 10), none) ∷ (3, (λ n. n * 2), none) ∷ []

abbrev one_and_three : WorkflowContext
one_and_three = record { steps_completed = 2 ∷ []; steps_pending = 3 ∷ 1 ∷ [] }

execute-pending_example :
    execute (steps_of three_jobs) (some one_and_three) 5
    ≡ (ok tt, (record { steps_completed = 2 ∷ 1 ∷ 3 ∷ []; steps_pending = [] }, 12))
unfolding removed remove_step
execute-pending_example = execute-pending three_jobs one_and_three 5 (refl, (refl, (refl, tt)))

abbrev complete_address : Address
complete_address = ("city", "Ghent") ∷ ("state", "OV") ∷ ("postal_code", "9000") ∷ []

validate_create-valid_example :
    ((validate_create "A-1" (some (pos 2) ∷ none ∷ []) complete_address (pos 5)).is_valid ≡ true)
    ↔ ((1 ≤ count "A-1")
        × (count "A-1" ≤ 128)
        × (1 ≤ 2)
        × (2 ≤ 500)
        × All IsOrderQuantity (some (pos 2) ∷ none ∷ [])
        × (lacks_required complete_address ≡ false)
        × (pos 1 ≤ℤ pos 5)
        × (pos 5 ≤ℤ pos 10))
validate_create-valid_example =
    validate_create-valid "A-1" (some (pos 2) ∷ none ∷ []) complete_address (pos 5)

abbrev boxes : ℕ → Quantity
boxes n = record { value = pos n; uom = "EA" }

sub_quantity-add_example : (sub_quantity (boxes 7) (boxes 4) ≡ ok (boxes 3)) ↔ (
    IsQuantity (boxes 3)
    × ((boxes 7).uom ≡ (boxes 4).uom)
    × (add_quantity (boxes 4) (boxes 3) ≡ ok (boxes 7)))
sub_quantity-add_example = sub_quantity-add (boxes 7) (boxes 4) (boxes 3) (omega arith)

-- More cannot be subtracted than there is, and no other unit.
refuses :
    (sub_quantity (boxes 3) (boxes 4) ≡ raised value_error)
    × (sub_quantity (boxes 3) (record { value = pos 1; uom = "KG" }) ≡ raised value_error)
unfolding sub_quantity make_quantity ◌-ℤ◌
refuses = (refl, refl)
