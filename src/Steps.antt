-- ===== src/Steps.antt =====
-- domain/steps.go: how one use of an ability went.
mod Agreement
mod Examples
use open_kael.Prelude.{String, Bool, true, false, Option, none, some, if◌then◌else◌}
use open_kael.Prelude.Text.{◌=ₛ◌, starts_with}
use open_kael.Values.{Value, str}
use open_kael.Outcome.{GoError, outcome_of, output_not_approved, output_auth_pending_prefix}

pub data StepState : Type 0 where
  running waiting done failed declined signin stopped : StepState

-- `Ended`.
pub ended : StepState → Bool
ended running = false
ended waiting = false
ended _ = true

-- The end of `StepStateOf`: how `OutcomeOf` reads a result without an error.
judged : {F : Type 0} → Value F → StepState
judged output = if (outcome_of output none).done then done else failed

state_of_text : Bool → Bool → StepState → StepState
state_of_text not_approved auth_pending otherwise =
    if not_approved then declined else if auth_pending then signin else otherwise

pub step_state_of : {F : Type 0} → Value F → Option GoError → StepState
unfolding judged state_of_text
step_state_of output (some err) = if err.superseded then stopped else failed
step_state_of {F} (str s) none =
    state_of_text (s =ₛ output_not_approved) (starts_with s output_auth_pending_prefix)
      (judged {F = F} (str s))
step_state_of output none = judged output
