-- ===== src/WakePlan.antt =====
-- runtime/wake_plan.go: an agent works out when a task should next happen. What one planning step has
-- found and decided is the state that its abilities share; the lock makes each use of it one step. Times
-- are in nanoseconds. Go's reading and writing of times is a parameter.
pub mod Abilities
pub mod Prompt
pub mod Plan
pub mod Bounds
pub mod Kept
pub mod Decision
mod Examples
use open_kael.Loop.Flow.{first_runes}
use Prim.Native.String.{count}
use open_kael.Values.{text_at, Fields}
use open_kael.Prelude.Text.{trim_space, is_empty, ◌=ₛ◌, ◌<>◌}
use open_kael.Prelude.{
  true, ◌∷◌, ℕ, ◌||◌, some, ok, not, none, ltb, leb, is_some, if◌then◌else◌, false, bad, [], String,
  Result, Option, List, Bool, ◌==◌, ◌+◌, ◌*◌, ◌&&◌,
}

pub data WakeKind : Type 0 where
  act check : WakeKind

pub record WakeRecord : Type 0 where
  pub at : ℕ
  pub kind : WakeKind
  pub reason : String

-- The zone is part of `Times`, the person of what the host gives; a zero `now` is 0.
pub record WakeRequest : Type 0 where
  pub agent_id : String
  pub action : String
  pub timing : String
  pub now : ℕ
  pub last : Option WakeRecord
  pub due : Bool

pub record WakePlan : Type 0 where
  pub at : ℕ
  pub kind : WakeKind
  pub reason : String
  pub do_it_now : Bool
  pub say : String

abbrev pub minute : ℕ
minute = 60000000000

abbrev pub min_act_ahead : ℕ
min_act_ahead = 15 * minute

abbrev pub min_check_ahead : ℕ
min_check_ahead = 60 * minute

abbrev pub max_wake_ahead : ℕ
max_wake_ahead = 7 * 24 * 60 * minute

abbrev pub late_wake : ℕ
late_wake = 60 * minute

abbrev pub max_wake_reason : ℕ
max_wake_reason = 200

abbrev pub max_wake_say : ℕ
max_wake_say = 300

-- What the code takes from Go's time, fmt and strings, for the location of the request: `parse` is
-- `time.Parse(time.RFC3339, s)`, `parse_in` reads a layout in the location, `rfc3339` and `utc` write a
-- time in UTC and `local` in the location.
pub record Times (V : Type 0) : Type 0 where
  pub now : V → ℕ
  pub zone : String
  pub parse : String → Option ℕ
  pub parse_in : (layout : String) → String → Option ℕ
  pub rfc3339 : ℕ → String
  pub utc : ℕ → String
  pub local : ℕ → String
  pub date : ℕ → String
  pub time_of_day : ℕ → String
  pub weekday : ℕ → String
  pub to_lower : String → String
  pub quote : String → String
  pub itoa : ℕ → String

-- `wakeState`, beside the request that it is for.
pub record WakeState : Type 0 where
  pub lookups : ℕ
  pub plan : Option WakePlan
  pub say : String
  pub do_now : Bool

abbrev pub new_state : WakeState
new_state = record { lookups = 0; plan = none; say = ""; do_now = false }

abbrev pub decided : WakeState → Bool
decided st = is_some st.plan || not (is_empty st.say)

-- The wake-up of an act time that is still on time.
abbrev pub is_act : WakeKind → Bool
is_act act = true
is_act check = false

abbrev pub last_on_time : (now : ℕ) → Option WakeRecord → Bool
last_on_time now none = false
last_on_time now (some r) = is_act r.kind && leb now (r.at + late_wake)

abbrev pub may_act_now : WakeRequest → Bool
may_act_now r = r.due && last_on_time r.now r.last

abbrev pub kind_name : WakeKind → String
kind_name act = "act"
kind_name check = "check"

abbrev pub kind_of : String → Option WakeKind
kind_of k = if k =ₛ "act" then some act else if k =ₛ "check" then some check else none

abbrev pub min_ahead : WakeKind → ℕ
min_ahead act = min_act_ahead
min_ahead check = min_check_ahead

abbrev pub min_minutes : WakeKind → ℕ
min_minutes act = 15
min_minutes check = 60

-- `string([]rune(s)[:max])` of a text that is longer.
abbrev pub cut_to : ℕ → String → String
cut_to max s = if ltb max (count s) then first_runes max s else s

-- `str(k)`: the text of an input, trimmed.
abbrev pub input_text : {F : Type 0} → String → Fields F → String
input_text k input = trim_space (text_at k input)

module _ {V : Type 0} (t : Times V) where
  abbrev pub no_time : String → String
  no_time s = t.quote s <> " is not a time: use the form 2026-10-25T08:30:00+01:00"

  abbrev pub first_time : List (Option ℕ) → Option ℕ
  first_time [] = none
  first_time (some at ∷ rest) = some at
  first_time (none ∷ rest) = first_time rest

  unfoldable pub parse_wake_time : String → Result ℕ
  parse_wake_time s =
      if is_empty s
      then bad "give the time, like 2026-10-25T08:30:00+01:00"
      else elim (first_time (
          t.parse s
          ∷ t.parse_in "2006-01-02T15:04:05" s
          ∷ t.parse_in "2006-01-02T15:04" s
          ∷ t.parse_in "2006-01-02 15:04" s
          ∷ [])) [ some at ↦ ok at | none ↦ bad (no_time s) ]

  abbrev pub too_soon : WakeKind → (now : ℕ) → String
  too_soon kind now =
      "that is too soon: a "
      <> (t.quote (kind_name kind)
          <> (" wake-up must be at least "
              <> (t.itoa (min_minutes kind)
                  <> (" minutes from now (now is "
                      <> (t.rfc3339 now
                          <> "). If the moment is nearer than that, use the one after it")))))

  abbrev pub too_far : (now : ℕ) → String
  too_far now =
      "that is too far ahead: choose a time no later than "
      <> (t.rfc3339 (now + max_wake_ahead) <> ", and use kind \"check\" to look again then")

  -- The end of `validate`, on a time that was read.
  unfoldable pub in_range : (now : ℕ) → WakeKind → (reason : String) → Result ℕ → Result WakePlan
  in_range now kind reason (bad e) = bad e
  in_range now kind reason (ok at) =
      if ltb at (now + min_ahead kind)
      then bad (too_soon kind now)
      else if ltb (now + max_wake_ahead) at
      then bad (too_far now)
      else ok (record { at = at; kind = kind; reason = reason; do_it_now = false; say = "" })

  unfoldable pub with_kind : (now : ℕ) → (reason at : String) → Option WakeKind → Result WakePlan
  with_kind now reason at none = bad "kind must be \"act\" or \"check\""
  with_kind now reason at (some kind) =
      if is_empty reason
      then bad "give the reason in one plain sentence"
      else in_range now kind (cut_to max_wake_reason reason) (parse_wake_time at)

  unfoldable pub validate : {F : Type 0} → (now : ℕ) → WakeState → Fields F → Result WakePlan
  validate now st input =
      if st.lookups == 0
      then bad
          "look it up first: use your tools to find out when it happens, then set the time. A time from memory is not accepted"
      else with_kind now (input_text "reason" input) (input_text "at" input)
          (kind_of (t.to_lower (input_text "kind" input)))
