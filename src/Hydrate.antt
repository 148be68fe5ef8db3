-- ===== src/Hydrate.antt =====
-- domain/hydrate.go, domain/prepare.go and domain/executor.go: a stored tool becomes an action that
-- runs behind every gate. What a run's context holds is a `Turn`, which gates pass on, changed or not;
-- what calls leave behind is the state, `Ctx` over `Once`.
pub mod Prompt
pub mod Approval
pub mod SignIn
pub mod Bind
pub mod Quiet
pub mod Denied
pub mod Related
pub mod Service
pub mod OneShot
pub mod Calm
pub mod Skills
mod Examples
use open_kael.Prelude.{
  ℕ, String, Bool, true, false, Option, none, some, List, [], ◌∷◌, if◌then◌else◌, lookup, is_some,
}
use open_kael.Values.{Value, Fields}
use open_kael.Outcome.{GoError}
use open_kael.Tools.{Identity}
use open_kael.Gates.{Invoke}
use open_kael.Gates.Journal.{Ctx}

-- What the guards of one reply remember, beside the world outside: each of them its own keys. A guard
-- stands under the name of the copy of a tool that was bound with it.
pub record Once (W : Type 0) : Type 0 where
  pub done : List (String × String)
  pub outside : W

abbrev pub Run : Type 0 → Type 0 → Type 0
Run F W = Ctx F (Once W)

-- An error of a sign-in, which may say that none can be offered (`ErrSignInUnavailable`).
pub record ConnectError : Type 0 where
  pub unavailable : Bool
  pub error : GoError

-- What the context of a turn holds, as far as the gates look: the conversation (of type `C`), and
-- those who ask the person, each of them changing the world. A set of ids is the list of them.
pub record Turn (C W : Type 0) : Type 0 where
  pub conversation : Option C
  pub user_in : C → String
  pub user_id : String
  pub timezone : String
  pub unattended_allowed : List String
  pub user_tool_approvals : List String
  pub connection_refs : Option (List (String × String))
  pub connect_tool_name : String
  pub request_approval : Option (C → String → ℕ → W → Bool × Option GoError × W)
  pub request_connect :
      Option (C → Identity → String → String → W → String × Option ConnectError × W)
  pub request_timezone : Option (C → String → W → Option GoError × W)

-- A function that runs in a turn.
abbrev pub Gate : Type 0 → Type 0 → Type 0 → Type 0
Gate F C W = Turn C W → Invoke F (Run F W)

-- `Executor`, and `Preparer` where it is one too. It is given the identity, the person's own
-- connection and the id of the calling identity.
pub record Executor (F W : Type 0) : Type 0 where
  pub execute :
      Option Identity → String → String → String → Fields F → W → Value F × Option GoError × W
  pub prepare :
      Option
        (Option Identity → String → String → Fields F → W → Option (Fields F) × Option GoError × W)

-- `ExecutorRegistry`, without its lock.
pub record ExecutorRegistry (F W : Type 0) : Type 0 where
  pub executors : List (String × Executor F W)
  pub fallback : Option (String → Option (Executor F W))

module _ {F W : Type 0} where
  -- `Register`.
  abbrev pub register : String → Executor F W → ExecutorRegistry F W → ExecutorRegistry F W
  register service e r = record r { executors = (service, e) ∷ r.executors }

  -- `For`: registered executors win over the fallback.
  unfoldable pub executor_for : ExecutorRegistry F W → String → Option (Executor F W)
  executor_for r service = elim (lookup service r.executors) [
    | some e ↦ some e
    | none ↦ elim r.fallback [ some f ↦ f service | none ↦ none ]
  ]

  abbrev pub outside_of : Run F W → W
  outside_of s = s.world.outside

  abbrev pub with_outside : Run F W → W → Run F W
  with_outside s w = record s { world = record s.world { outside = w } }

  -- An error of the gate's own.
  abbrev pub own_error : String → Run F W → Value F × Option GoError × Run F W
  own_error text s =
      (Value.null, some (record { superseded = false; out_of_credit = false; text = text }), s)

  -- `fmt.Errorf(prefix + "%w", err)`.
  abbrev pub wrapped_error : String → GoError → Run F W → Value F × Option GoError × Run F W
  wrapped_error prefix err s = (Value.null, some (open_kael.Loop.Providers.wrap prefix err), s)

module _ {C W : Type 0} where
  -- `ConnectionRefFromContext`, "" where there is none.
  unfoldable pub connection_ref : Turn C W → String → String
  connection_ref turn id = elim turn.connection_refs [
    | none ↦ ""
    | some refs ↦ open_kael.Values.text_or_empty (lookup id refs)
  ]

  -- `WithConnectionRefs` with one more.
  abbrev pub add_ref : Turn C W → String → String → Turn C W
  add_ref turn id ref = elim turn.connection_refs [
    | none ↦ record turn { connection_refs = some ((id, ref) ∷ []) }
    | some refs ↦ record turn { connection_refs = some ((id, ref) ∷ refs) }
  ]
