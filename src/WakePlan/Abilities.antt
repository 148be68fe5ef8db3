-- ===== src/WakePlan/Abilities.antt =====
-- runtime/wake_plan.go: the abilities of a planning step, which share its state; and the two of
-- runtime/host.go that every turn has.
use open_kael.Prelude.Text.{is_empty}
use open_kael.WakePlan.{validate, max_wake_say, input_text, cut_to, WakeState, Times}
use open_kael.Schema.{schema, property, no_items, Schema, Properties}
use open_kael.Outcome.{outcome_of, GoError}
use open_kael.Values.{end, str, obj, null, field, Value, Fields}
use open_kael.Loop.{finish_action_name, BoundAction, ActionSpec}
use open_kael.Prelude.{
  ◌∷◌, ℕ, true, some, ok, none, map_ok, if◌then◌else◌, false, bad, [], String, Result, Option, Bool,
  ◌==◌, ◌+◌,
}

-- The world, and beside it the state of the planning step.
abbrev pub Planning : Type 0 → Type 0
Planning V = V × WakeState

abbrev no_properties : Schema
no_properties = schema "object" "" Properties.end no_items [] []

abbrev text_property : String → Schema
text_property description = schema "string" description Properties.end no_items [] []

abbrev plain_spec : String → String → Schema → ActionSpec
plain_spec name description input = record {
  name = name;
  description = description;
  instructions = "";
  input_schema = input;
  output_schema = schema "" "" Properties.end no_items [] [];
  max_calls = 0;
  hidden = false;
  read_only = false;
  changes = false;
}

abbrev said : String → GoError
said text = record { superseded = false; out_of_credit = false; text = text }

abbrev noted : {F : Type 0} → String → Value F
noted text = obj (field "message" (str text) end)

-- The state after a look-up that ended as it says.
abbrev pub counted_look_up : Bool → WakeState → WakeState
counted_look_up worked st = if worked then record st { lookups = st.lookups + 1 } else st

unfoldable pub confirmed : WakeState → Result (String × WakeState)
confirmed st =
    if st.lookups == 0
    then bad "look it up again first: use your tools to check that the time still holds"
    else ok (
      "Noted: the job will be done now. Now call set_next_wake for the one after.",
      record st { do_now = true },
    )

unfoldable pub told_cannot : String → WakeState → Result (String × WakeState)
told_cannot msg st =
    if is_empty msg
    then bad "say what you couldn't find, in one plain sentence"
    else ok ("Noted. Now call finish.", record st { say = cut_to max_wake_say msg })

-- An action with nothing but a spec and a function.
abbrev bare :
    {F W : Type 0} → ActionSpec → (W → Fields F → Value F × Option GoError × W) → BoundAction F W
bare spec invoke = record {
  spec = spec;
  invoke = invoke;
  needs = [];
  app = "";
  app_name = "";
  with_look_ups = [];
  declared = false;
  limited = false;
}

module _ {F V : Type 0} where
  -- `countLookups`.
  unfoldable pub count_lookups : BoundAction F V → BoundAction F (Planning V)
  count_lookups a = record {
    spec = a.spec;
    invoke = λ w input.
        let (output, err, v) = a.invoke w.0 input in
        (output, err, (v, counted_look_up (outcome_of output err).done w.1));
    needs = a.needs;
    app = a.app;
    app_name = a.app_name;
    with_look_ups = a.with_look_ups;
    declared = a.declared;
    limited = a.limited;
  }

  -- What an ability of the planning step answers, with the state it leaves: an error changes nothing.
  abbrev pub ability_answer :
      Planning V → Result (String × WakeState) → Value F × Option GoError × Planning V
  ability_answer w (bad e) = (null, some (said e), w)
  ability_answer w (ok (text, st)) = (noted text, none, (w.0, st))

  -- `confirmMoment`.
  unfoldable pub confirm_moment : BoundAction F (Planning V)
  confirm_moment =
      bare
        (plain_spec "confirm_moment"
          "Call this when the time you planned has now come and, after looking everything up again, it still holds: the job should be done right now. Do not call it if the time moved or is not here yet. Then still call set_next_wake for the one after this."
          no_properties)
        (λ w input. ability_answer w (confirmed w.1))

  unfoldable pub next_set : Times V → (now : ℕ) → Fields F → WakeState → Result (String × WakeState)
  next_set t now input st =
      map_ok (λ plan. ("Noted. Now call finish.", record st { plan = some plan }))
        (validate t now st input)

  -- `setNextWake`.
  unfoldable pub set_next_wake : Times V → (now : ℕ) → BoundAction F (Planning V)
  set_next_wake t now =
      bare
        (record (plain_spec "set_next_wake"
          "Say when the job should next happen (kind act) or when to look again (kind check). Call it once, after looking the facts up with your other tools."
          (schema "object" ""
            (property "at"
              (text_property "The time, with its offset, like 2026-10-25T08:30:00+01:00.")
              (property "kind"
                (schema "string" "act (do the job then) or check (look again then)." Properties.end
                  no_items [] ("act" ∷ "check" ∷ []))
                (property "reason"
                  (text_property
                    "One plain sentence for the person about this next wake-up only: what you found and how you got this time. Never say what is being done now.")
                  Properties.end)))
            no_items ("at" ∷ "kind" ∷ "reason" ∷ []) [])) { max_calls = 3 })
        (λ w input. ability_answer w (next_set t now input w.1))

  -- `cannotPlan`.
  unfoldable pub cannot_plan : BoundAction F (Planning V)
  cannot_plan =
      bare
        (record (plain_spec "cannot_plan"
          "Use this only when, with the tools you have, you cannot find out when the job should happen. Say it in one plain sentence to the person: what you couldn't find and what you'd need."
          (schema "object" ""
            (property "message" (text_property "One plain sentence for the person.") Properties.end)
            no_items ("message" ∷ []) [])) { max_calls = 1 })
        (λ w input. ability_answer w (told_cannot (input_text "message" input) w.1))

  -- `buildGetCurrentTimeAction`.
  unfoldable pub get_current_time : Times V → BoundAction F (Planning V)
  get_current_time t =
      bare
        (plain_spec "get_current_time"
          "Returns the current UTC date and time. Call this when you need to know today's date or the current time."
          no_properties)
        (λ w input.
          let now = t.now w.0 in
          (
            obj (
                field "utc" (str (t.rfc3339 now)) (
                  field "date" (str (t.date now)) (
                    field "time" (str (t.time_of_day now))
                      (field "day_of_week" (str (t.weekday now)) end)))),
            none,
            w,
          ))

  -- `buildFinishAction(false)`: the loop answers its calls itself, and it has no function.
  unfoldable pub finish_action : BoundAction F (Planning V)
  finish_action =
      bare
        (record (plain_spec finish_action_name
          "Call this once you have your final answer for the user."
          (schema "object" ""
            (property "content" (text_property "Your final answer.") Properties.end) no_items
            ("content" ∷ []) [])) { hidden = true })
        (λ w input. (null, none, w))
