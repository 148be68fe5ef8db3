-- ===== src/Hydrate/Bind.antt =====
-- domain/hydrate.go, domain/prepare.go and domain/tool_interface.go: `BindTool`, a tool behind all its
-- gates. A function behind the rules may panic, at a limit that is no number: it is `none` there.
use open_kael.Gates.Journal.{with_journal}
use open_kael.Hydrate.SignIn.{with_timezone_gate, with_auth_gate}
use open_kael.Hydrate.Approval.{with_user_approval_gate, with_one_shot_guard, with_approval_gate}
use open_kael.Gates.Shown.{spec_with_rules}
use open_kael.Contract.{invalid, check_input, accepted}
use open_kael.Gates.Rules.{with_rules, with_pins, ToolRule}
use open_kael.Prelude.{some, ok, not, none, if◌then◌else◌, bad, String, Result, Option, List}
use open_kael.Tools.{
  token_kind, spec_of, model_name, ToolSpec, ToolDefinition, Integration, Identity,
}
use open_kael.Outcome.{GoError}
use open_kael.Gates.{Texts, Floats}
use open_kael.Values.{Value, Fields}
use open_kael.Hydrate.{
  wrapped_error, with_outside, own_error, outside_of, executor_for, connection_ref, Turn, Run, Gate,
  ExecutorRegistry, Executor,
}
use open_kael.Prelude.Text.{◌=ₛ◌, ◌<>◌}

-- A function that runs in a turn, or panics.
abbrev pub Handler : Type 0 → Type 0 → Type 0 → Type 0
Handler F C W = Turn C W → Run F W → Fields F → Option (Value F × Option GoError × Run F W)

-- `boundTool`.
pub record Tool (F C W : Type 0) : Type 0 where
  pub spec : ToolSpec
  pub invoke : Handler F C W

abbrev pub id_of : Option Identity → String
id_of none = ""
id_of (some i) = i.id

module _ {C W : Type 0} where
  abbrev pub ref_of : Turn C W → Option Identity → String
  ref_of turn none = ""
  ref_of turn (some i) = connection_ref turn i.id

module _ {F W : Type 0} where
  abbrev pub back_inside :
      Run F W → Value F × Option GoError × W → Value F × Option GoError × Run F W
  back_inside s (out, err, w) = (out, err, with_outside s w)

module _ {F C W : Type 0} where
  -- The call of the executor.
  unfoldable pub execute_tool : Executor F W → ToolDefinition → Option Identity → Gate F C W
  execute_tool e def identity turn s input =
      back_inside s
        (e.execute identity (ref_of turn identity) (id_of identity) def.action input (outside_of s))

  -- The sign-in check, where there is an identity that is not one key for everybody.
  unfoldable pub sign_in_gate : Option Identity → String → Gate F C W → Gate F C W
  sign_in_gate none name inner turn s input = inner turn s input
  sign_in_gate (some i) name inner turn s input =
      if i.kind =ₛ token_kind then inner turn s input else with_auth_gate i name inner turn s input

  -- What `Prepare` returns: an error, or other inputs, or none for the same.
  unfoldable pub after_prepare :
      ToolDefinition
      → Handler F C W
      → Turn C W
      → Fields F
      → Option (Fields F) × Option GoError × W
      → Run F W
      → Option (Value F × Option GoError × Run F W)
  after_prepare def inner turn input (prepared, some err, w) s =
      some (wrapped_error (model_name def <> ": ") err (with_outside s w))
  after_prepare def inner turn input (some prepared, none, w) s =
      inner turn (with_outside s w) prepared
  after_prepare def inner turn input (none, none, w) s = inner turn (with_outside s w) input

  -- `withPrepare`, for an executor that prepares calls.
  unfoldable pub with_prepare :
      Executor F W → ToolDefinition → Option Identity → Handler F C W → Handler F C W
  with_prepare e def identity inner turn s input = elim e.prepare [
    | none ↦ inner turn s input
    | some prepare ↦
        after_prepare def inner turn input
          (prepare identity (ref_of turn identity) def.action input (outside_of s)) s
  ]

module _ {F C W : Type 0} (t : Texts F) (n : Floats F) where
  -- `withInputContract`.
  unfoldable pub with_input_contract : ToolDefinition → Handler F C W → Handler F C W
  with_input_contract def inner turn s input = elim (check_input t n def.input_schema input) [
    | accepted clean ↦ inner turn s clean
    | invalid problem ↦ some (own_error (model_name def <> (": " <> problem)) s)
  ]

  abbrev pub rules_gate : List (ToolRule F) → Gate F C W → Handler F C W
  rules_gate rules inner turn = with_rules t n rules (inner turn)

module _ {F C W : Type 0} (t : Texts F) (n : Floats F) (guard : String) where
  -- The gates of a tool that a person must approve, around the rest.
  unfoldable pub approval_gates : ToolDefinition → Gate F C W → Gate F C W
  approval_gates def inner turn s input =
      if def.requires_approval
      then with_one_shot_guard t guard def.once_for (with_approval_gate t def inner) turn s input
      else inner turn s input

  -- The call, noted in the journal, behind the sign-in and the person's own approval setting.
  abbrev pub asked_call : Executor F W → ToolDefinition → Option Identity → Gate F C W
  asked_call e def identity = with_user_approval_gate t def (
      sign_in_gate identity def.name
        (λ turn. with_journal t def.id (execute_tool e def identity turn)))

  -- What stands behind the rules: that, the tool's own approval, the time zone.
  unfoldable pub guarded : Executor F W → ToolDefinition → Option Identity → Gate F C W
  guarded e def identity = with_timezone_gate def (approval_gates def (asked_call e def identity))

  -- All the gates: the fixed values, the input check, what the executor prepares, the rules.
  unfoldable pub invoke_of :
      Executor F W → ToolDefinition → Option Identity → List (ToolRule F) → Handler F C W
  invoke_of e def identity rules turn = with_pins rules (
      with_input_contract t n def
        (with_prepare e def identity (rules_gate t n rules (guarded e def identity))) turn)

  -- `BindTool`.
  unfoldable pub bind_tool :
      ToolDefinition
      → Option Identity
      → Integration
      → ExecutorRegistry F W
      → List (ToolRule F)
      → Option (Result (Tool F C W))
  bind_tool def identity integration registry rules =
      if not (def.integration_id =ₛ integration.id)
      then some (
          bad (
            "hydrate tool "
            <> (t.quoted def.id
                <> (": belongs to integration "
                    <> (t.quoted def.integration_id <> (", got " <> t.quoted integration.id))))))
      else elim (executor_for registry integration.service) [
        | none ↦ some (
            bad (
              "hydrate tool "
              <> (t.quoted def.id
                  <> (": no executor registered for service " <> t.quoted integration.service))))
        | some e ↦ elim (spec_with_rules t n (spec_of def) rules) [
          | none ↦ none
          | some spec ↦ some (ok (record { spec = spec; invoke = invoke_of e def identity rules }))
        ]
      ]
