-- ===== src/Steps/Agreement.antt =====
-- That steps.go and outcome.go read a result alike.
use open_kael.Prelude.{true, Option, none, some, ◌≡◌, ◌↔◌, arith}
use open_kael.Values.{Value, null, bool, num, str, arr, obj}
use open_kael.Outcome.{GoError, outcome_of}
use open_kael.Steps.{done, step_state_of, ended}

-- An action's step ends as done exactly when its result counts as the action having done its job,
-- and no ended action's step is left running or waiting.
pub step_state_of-done_iff :
    {F : Type 0} (output : Value F) (err : Option GoError)
    → ((step_state_of output err ≡ done) ↔ ((outcome_of output err).done ≡ true))
      × (ended (step_state_of output err) ≡ true)
unfolding step_state_of outcome_of ended
step_state_of-done_iff output (some err) = ground arith
step_state_of-done_iff null none = ground arith
step_state_of-done_iff (bool b) none = ground arith
step_state_of-done_iff (num x) none = ground arith
step_state_of-done_iff (str s) none = ground arith
step_state_of-done_iff (arr xs) none = ground arith
step_state_of-done_iff (obj m) none = ground arith
