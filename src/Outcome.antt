-- ===== src/Outcome.antt =====
-- domain/outcome.go: what an agent may claim, and how that is checked; and domain/steps.go's
-- reading of the same results. Whatever `fmt` builds from constants is written out.
pub mod Honesty
pub mod Truth
mod Examples
use open_kael.Prelude.{
  String, Bool, true, false, not, ◌&&◌, ◌||◌, Option, none, some, List, [], ◌∷◌, if◌then◌else◌, any,
  last_where, has,
}
use open_kael.Prelude.Text.{◌<>◌, ◌=ₛ◌, starts_with, is_empty, trim_space, trim_right_dots, join}
use open_kael.Values.{Value, str, obj, Fields, get, as_bool, text_at}

-- An error as far as the program tells errors apart: `errors.Is(err, ErrSuperseded)`,
-- `errors.Is(err, ErrLLMOutOfCredit)`, and its text.
pub record GoError : Type 0 where
  pub superseded : Bool
  pub out_of_credit : Bool
  pub text : String

pub record ActionRecord : Type 0 where
  pub name : String
  pub changes : Bool
  pub done : Bool
  pub message : String
  pub reason : String

-- The three results of `OutcomeOf`.
pub record Verdict : Type 0 where
  pub done : Bool
  pub message : String
  pub reason : String

abbrev pub output_not_approved : String
output_not_approved = "not approved"

abbrev pub output_auth_pending_prefix : String
output_auth_pending_prefix = "auth_pending"

abbrev pub output_timezone_pending_prefix : String
output_timezone_pending_prefix = "timezone_pending"

is_timezone_pending : String → Bool
is_timezone_pending v = starts_with v output_timezone_pending_prefix

abbrev refused : String → Verdict
refused reason = record { done = false; message = ""; reason = reason }

abbrev accepted : String → Verdict
accepted message = record { done = true; message = message; reason = "" }

-- The case of a text, and of an object whose `changed` and `message` are given.
outcome_of_text : String → Verdict
unfolding is_timezone_pending
outcome_of_text v =
    if v =ₛ output_not_approved
    then refused "it wasn't approved"
    else if starts_with v output_auth_pending_prefix
    then refused "you need to connect your account first"
    else if is_timezone_pending v
    then refused "I need your time zone first"
    else accepted ""

outcome_of_object : Option Bool → String → Verdict
unfolding trim_space trim_right_dots
outcome_of_object (some false) message =
    let reason = trim_space message in
    record {
      done = false;
      message = message;
      reason = trim_right_dots (if is_empty reason then "nothing was changed" else reason);
    }
outcome_of_object _ message = accepted message

unfoldable pub outcome_of : {F : Type 0} → Value F → Option GoError → Verdict
unfolding outcome_of_text outcome_of_object
outcome_of output (some err) = refused "it didn't go through"
outcome_of (str v) none = outcome_of_text v
outcome_of (obj m) none = outcome_of_object (as_bool (get "changed" m)) (text_at "message" m)
outcome_of _ none = accepted ""

-- What must have really happened for a turn to be called done.
pub record Requirements : Type 0 where
  pub tools : List String
  pub any_change : Bool

abbrev pub is_nil {ℓ} : {A : Type ℓ} → List A → Bool
is_nil [] = true
is_nil (x ∷ xs) = false

-- `Active`, on a pointer that may be nil.
unfoldable pub active : Option Requirements → Bool
active none = false
active (some r) = not (is_nil r.tools) || r.any_change

abbrev pub is_change : ActionRecord → Bool
is_change rec = rec.changes && rec.done

-- loop.go's `changedAnything`, and the same loop in `satisfied` and `NothingChangedMessage`.
unfoldable pub changed_anything : List ActionRecord → Bool
changed_anything records = any is_change records

-- Whether the action of that name succeeded.
abbrev pub succeeded : String → List ActionRecord → Bool
succeeded name records = any (λ rec. rec.name =ₛ name && rec.done) records

unfoldable pub satisfied : Requirements → List ActionRecord → Bool
unfolding changed_anything
satisfied r records =
    if is_nil r.tools
    then changed_anything records
    else any (λ name. succeeded name records) r.tools

-- Whether a record is an attempt at what is required.
abbrev pub is_attempt : Requirements → ActionRecord → Bool
is_attempt r rec = if is_nil r.tools then rec.changes else has rec.name r.tools

unfoldable pub last_attempt : Requirements → List ActionRecord → Option ActionRecord
unfolding last_where
last_attempt r records = last_where (is_attempt r) records

-- What a record must be to be reported: a change that went through, with words not yet said.
abbrev pub is_fresh : ActionRecord → List String → Bool
is_fresh rec seen =
    rec.changes && rec.done && not (is_empty (trim_space rec.message)) && not (has rec.message seen)

-- The loop of `receipts`, with the messages already seen.
receipts_from : List String → List ActionRecord → List String
receipts_from seen [] = []
receipts_from seen (rec ∷ records) = elim (is_fresh rec seen) [
  | true ↦ ("✓ " <> trim_space rec.message) ∷ receipts_from (rec.message ∷ seen) records
  | false ↦ receipts_from seen records
]

unfoldable pub receipts : List ActionRecord → List String
unfolding receipts_from trim_space
receipts records = receipts_from [] records

-- Why the last attempt did not happen, where that is known.
nothing_changed_reason : Option ActionRecord → String
nothing_changed_reason none = "I didn't carry that out"
nothing_changed_reason (some att) =
    if not att.done && not (is_empty att.reason) then att.reason else "I didn't carry that out"

unfoldable pub nothing_changed_message : Requirements → List ActionRecord → String
unfolding nothing_changed_reason join
nothing_changed_message r records =
    if changed_anything records
    then (if is_nil (receipts records)
        then "Part of that went through, but I couldn't confirm all of it. Please check."
        else "This went through, but I couldn't confirm it was everything you asked for:\n"
          <> join "\n" (receipts records))
    else "Nothing was changed: " <> (nothing_changed_reason (last_attempt r records) <> ".")

abbrev pub outcome_done : String
outcome_done = "done"

abbrev pub outcome_need_details : String
outcome_need_details = "need_details"

abbrev pub outcome_cannot : String
outcome_cannot = "cannot"

abbrev pub max_finish_bounces : Prim.Native.Nat.ℕ
max_finish_bounces = 2

-- What a refused `done` says of the last attempt.
attempt_note : Option ActionRecord → String
attempt_note none = " You have not tried it."
attempt_note (some att) =
    if att.done then "" else " The last attempt did not go through: " <> (att.reason <> ".")

done_feedback : Requirements → List ActionRecord → String
unfolding attempt_note
done_feedback r records =
    "You finished with outcome \"done\", but "
    <> ((if is_nil r.tools
          then "the action you were asked to carry out has not succeeded this turn"
          else "none of " <> (join ", " r.tools <> " has succeeded this turn"))
        <> ("."
            <> (attempt_note (last_attempt r records)
                <> " Call the action now. If you can't (for example you need a detail from the person, or their account isn't connected), finish with outcome \"need_details\" or \"cannot\" and say so. Do not tell the person it is done unless it is.")))

-- The `switch` of `finishCheck`, with whether the requirements are satisfied: accepted, or what is
-- sent back to the agent.
judge_finish : String → Bool → String → Bool × String
judge_finish outcome is_satisfied feedback =
    if outcome =ₛ outcome_need_details || outcome =ₛ outcome_cannot
    then (true, "")
    else if outcome =ₛ outcome_done
    then (if is_satisfied then (true, "") else (false, feedback))
    else (false, "Say how this ended: set outcome to \"done\", \"need_details\" or \"cannot\".")

unfoldable pub finish_check :
    {F : Type 0} → Fields F → Requirements → List ActionRecord → Bool × String
unfolding judge_finish done_feedback
finish_check args r records =
    judge_finish (text_at "outcome" args) (satisfied r records) (done_feedback r records)

-- The loop of `ChangeFailed`, with whether a change was tried so far.
change_failed_from : Bool → List ActionRecord → Bool
change_failed_from tried [] = tried
change_failed_from tried (r ∷ records) =
    let rest = change_failed_from (r.changes || tried) records in
    if r.changes && r.done then false else rest

unfoldable pub change_failed : List ActionRecord → Bool
unfolding change_failed_from
change_failed records = change_failed_from false records
