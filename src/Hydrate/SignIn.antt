-- ===== src/Hydrate/SignIn.antt =====
-- domain/hydrate.go and domain/timezone.go: a person signs in, or gives their time zone, before a call
-- that needs it.
use open_kael.Prelude.{String, Bool, true, false, not, Option, none, some, if◌then◌else◌}
use open_kael.Prelude.Text.{◌<>◌, is_empty}
use open_kael.Values.{Value, str, Fields}
use open_kael.Outcome.{GoError, output_auth_pending_prefix, output_timezone_pending_prefix}
use open_kael.Tools.{ToolDefinition, Identity}
use open_kael.Hydrate.{
  Run, ConnectError, Turn, Gate, outside_of, with_outside, own_error, wrapped_error, connection_ref,
  add_ref,
}

module _ {F : Type 0} where
  abbrev pub auth_pending : Value F
  auth_pending = str (
      output_auth_pending_prefix
      <> ": the connect prompt has been sent to the user directly — do NOT write anything additional to the user. Call finish now with content set to exactly empty string \"\".")

  abbrev pub timezone_pending : Value F
  timezone_pending = str (
      output_timezone_pending_prefix
      <> ": the person has been asked for their time zone, directly — do NOT write anything additional to them. Call finish now with content set to exactly empty string \"\".")

module _ {W : Type 0} where
  abbrev pub sent : Option GoError × W → Bool × W
  sent (none, w) = (true, w)
  sent (some err, w) = (false, w)

module _ {C W : Type 0} where
  abbrev pub named_turn : String → Turn C W → Turn C W
  named_turn tool_name turn =
      if is_empty tool_name then turn else record turn { connect_tool_name = tool_name }

  -- Whom the prompt for a time zone is for.
  abbrev pub user_to_ask : Turn C W → C → String
  user_to_ask turn conv = if is_empty (turn.user_in conv) then turn.user_id else turn.user_in conv

  -- `AskForTimezone`: whether the prompt was sent, and the world it leaves.
  unfoldable pub ask_for_timezone : Turn C W → W → Bool × W
  ask_for_timezone turn w =
      if not (is_empty turn.timezone) then (false, w) else elim turn.request_timezone [
        | none ↦ (false, w)
        | some ask ↦ elim turn.conversation [
          | none ↦ (false, w)
          | some conv ↦
              if is_empty (user_to_ask turn conv)
              then (false, w)
              else sent (ask conv (user_to_ask turn conv) w)
        ]
      ]

module _ {F C W : Type 0} where
  -- What the person's answer to the connect prompt leads to.
  unfoldable pub after_connect :
      Identity
      → String
      → Gate F C W
      → Turn C W
      → Fields F
      → String × Option ConnectError × W
      → Run F W
      → Value F × Option GoError × Run F W
  after_connect identity tool_name inner turn input (ref, some err, w) s =
      if err.unavailable
      then own_error
          (tool_name
            <> (" can't be used right now ("
                <> (err.error.text
                    <> "). Don't call it again in this reply: answer with what you can, and tell the person plainly what you couldn't do")))
          (with_outside s w)
      else wrapped_error "tool requires authentication — " err.error (with_outside s w)
  after_connect identity tool_name inner turn input (ref, none, w) s =
      if is_empty ref
      then (auth_pending, none, with_outside s w)
      else inner (add_ref turn identity.id ref) (with_outside s w) input

  -- `withAuthGate`.
  unfoldable pub with_auth_gate : Identity → String → Gate F C W → Gate F C W
  with_auth_gate identity tool_name inner turn s input =
      if not (is_empty (connection_ref turn identity.id))
      then inner turn s input
      else elim turn.request_connect [
        | none ↦ inner turn s input
        | some connect ↦ elim turn.conversation [
          | none ↦ inner turn s input
          | some conv ↦
              after_connect identity tool_name inner (named_turn tool_name turn) input
                (connect conv identity turn.user_id (named_turn tool_name turn).connect_tool_name
                  (outside_of s))
                s
        ]
      ]

  abbrev pub after_timezone :
      Gate F C W → Turn C W → Fields F → Bool × W → Run F W → Value F × Option GoError × Run F W
  after_timezone inner turn input (true, w) s = (timezone_pending, none, with_outside s w)
  after_timezone inner turn input (false, w) s = inner turn (with_outside s w) input

  -- `withTimezoneGate`.
  unfoldable pub with_timezone_gate : ToolDefinition → Gate F C W → Gate F C W
  with_timezone_gate def inner turn s input =
      if def.needs_local_time
      then after_timezone inner turn input (ask_for_timezone turn (outside_of s)) s
      else inner turn s input
