-- ===== src/Steps/Examples.antt =====
-- A declined change, read both ways.
use open_kael.Prelude.{true, none, ◌≡◌, ◌↔◌}
use open_kael.Values.{Value, str}
use open_kael.Outcome.{outcome_of}
use open_kael.Steps.{done, step_state_of, ended}
use open_kael.Steps.Agreement.{step_state_of-done_iff}

abbrev declined_output : Value (Unit {0})
declined_output = str "not approved"

step_state_of-done_iff_example :
    ((step_state_of declined_output none ≡ done) ↔ ((outcome_of declined_output none).done ≡ true))
    × (ended (step_state_of declined_output none) ≡ true)
step_state_of-done_iff_example = step_state_of-done_iff declined_output none
