-- ===== src/Loop.antt =====
-- domain/loop.go and domain/action.go: the types that the agent loop works on. `F` is the type of
-- numbers in arguments, and `W` the state of all that the loop does not implement: the services that
-- actions reach, the models and the clock.
pub mod Providers
pub mod Fallback
pub mod History
pub mod OpenCalls
pub mod Flow
pub mod Calls
pub mod Run
pub mod Budget
pub mod Termination
pub mod Safety
pub mod Honesty
pub mod Cut
pub mod Beside
pub mod Recorded
mod Examples
use open_kael.Prelude.{
  ℕ, ◌+◌, String, Bool, Option, none, some, List, [], ◌∷◌, ◌++◌, ◌&&◌, if◌then◌else◌, is_some,
  last_where,
}
use open_kael.Prelude.Text.{◌=ₛ◌}
use open_kael.Values.{Value, Fields, str}
use open_kael.Schema.{Schema, has_property}
use open_kael.Messages.{Message, LlmResponse}
use open_kael.Outcome.{GoError, ActionRecord, Requirements, active}

-- A negative `MaxCalls` counts as 0, no limit, in the only test made of it.
pub record ActionSpec : Type 0 where
  pub name : String
  pub description : String
  pub instructions : String
  pub input_schema : Schema
  pub output_schema : Schema
  pub max_calls : ℕ
  pub hidden : Bool
  pub read_only : Bool
  pub changes : Bool

-- `Invoke` takes the outside world as it finds it and leaves it changed.
pub record BoundAction (F W : Type 0) : Type 0 where
  pub spec : ActionSpec
  pub invoke : W → Fields F → Value F × Option GoError × W
  pub needs : List String
  pub app : String
  pub app_name : String
  pub with_look_ups : List String
  pub declared : Bool
  pub limited : Bool

-- What an LLM answers: `(*LLMResponse, error)`.
pub data Reply (F : Type 0) : Type 0 where
  answered : LlmResponse F → Reply F
  failed : GoError → Reply F

pub data LoopStatus : Type 0 where
  complete max_iteration error : LoopStatus

pub record LoopResult (F : Type 0) : Type 0 where
  pub status : LoopStatus
  pub content : String
  pub output : Option (Fields F)
  pub actions : List ActionRecord

-- What the loop takes from Go's fmt, strconv and encoding/json: how a value is written as text.
pub record Printing (F : Type 0) : Type 0 where
  pub marshal : Fields F → Option String
  pub marshal_value : Value F → Option String
  pub sprint : Value F → String
  pub quote : String → String
  pub itoa : ℕ → String

-- The clock, in seconds: its time, and a wait, which the run's context may cut short with an error.
pub record Clock (W : Type 0) : Type 0 where
  pub now : W → ℕ
  pub wait : ℕ → W → Option GoError × W

abbrev pub Provider : Type 0 → Type 0 → Type 0
Provider F W = W → List (Message F) → List ActionSpec → Reply F × W

-- One call of `Run`: the loop's own fields, the actions, and the context's requirements.
pub record Config (F W : Type 0) : Type 0 where
  pub llms : List (Provider F W)
  pub max_iterations : ℕ
  pub actions : List (BoundAction F W)
  pub requirements : Option Requirements
  pub printing : Printing F
  pub clock : Clock W

-- The variables of `Run` and of the loop's circuit breaker. `down_until` is 0 where the map has no
-- entry, and `count` is 0.
pub record State (F W : Type 0) : Type 0 where
  pub messages : List (Message F)
  pub records : List ActionRecord
  pub done_changes : List (String × String)
  pub looked_up : List (String × String)
  pub call_counts : String → ℕ
  pub consecutive_failures : ℕ
  pub stale : ℕ
  pub bounces : ℕ
  pub progressed : Bool
  pub down_until : ℕ → ℕ
  pub world : W

abbrev pub finish_action_name : String
finish_action_name = "finish"

abbrev pub max_consecutive_failures : ℕ
max_consecutive_failures = 3

abbrev pub max_same_action_calls : ℕ
max_same_action_calls = 15

abbrev pub max_tool_calls_per_iter : ℕ
max_tool_calls_per_iter = 10

abbrev pub max_stale_steps : ℕ
max_stale_steps = 2

unfoldable pub stringify_result : {F : Type 0} → Printing F → Value F → String
stringify_result p (str s) = s
stringify_result p v = elim (p.marshal_value v) [ some b ↦ b | none ↦ p.sprint v ]

module _ {F W : Type 0} where
  -- `actionsByName[name]`: of two actions of one name, the last.
  unfoldable pub find_action : String → List (BoundAction F W) → Option (BoundAction F W)
  unfolding last_where
  find_action name actions = last_where (λ a. a.spec.name =ₛ name) actions

  abbrev pub say : State F W → List (Message F) → State F W
  say s more = record s { messages = s.messages ++ more }

  -- Only a loop whose finish asks for an outcome is held to the requirements.
  unfoldable pub held : Config F W → Option Requirements
  unfolding active find_action has_property
  held c = elim (find_action finish_action_name c.actions) [
    | none ↦ none
    | some fin ↦
        if active c.requirements && has_property fin.spec.input_schema "outcome"
        then c.requirements
        else none
  ]
