-- ===== src/Hydrate/Approval.antt =====
-- domain/hydrate.go: a person approves a call before it runs, and a change that went through is not
-- made again.
use open_kael.Prelude.{
  String, Bool, false, not, ◌&&◌, ◌||◌, Option, none, some, List, [], ◌∷◌, if◌then◌else◌, has, map,
}
use open_kael.Prelude.Text.{◌<>◌, ◌=ₛ◌, trim_space, join}
use open_kael.Values.{Value, str, Fields}
use open_kael.Outcome.{GoError, outcome_of, output_not_approved}
use open_kael.Tools.{ToolDefinition, model_name}
use open_kael.Gates.{Texts, value_at}
use open_kael.Hydrate.{Run, Turn, Gate, outside_of, with_outside, own_error, wrapped_error}
use open_kael.Hydrate.Prompt.{render_approval_prompt}

-- `agreedInAdvance`.
unfoldable pub agreed_in_advance :
    {C W : Type 0} → (unattended : Bool) → Turn C W → ToolDefinition → Bool
agreed_in_advance unattended turn def = unattended && has (model_name def) turn.unattended_allowed

-- The words of one of the two gates that ask for approval.
pub record AskingWords : Type 0 where
  pub no_requester : String
  pub no_conversation : String
  pub asking : String

module _ {F : Type 0} where
  abbrev pub already_completed : Value F
  already_completed =
      str
        "already completed: this exact change went through earlier in this reply, so it was not made again — call finish to tell the person what was done"

module _ {F W : Type 0} where
  abbrev pub mark_done : String → String → Run F W → Run F W
  mark_done guard key s = record s { world = record s.world { done = (guard, key) ∷ s.world.done } }

-- `done[key]` of one guard.
unfoldable pub is_marked : String → String → List (String × String) → Bool
is_marked guard key [] = false
is_marked guard key ((g, k) ∷ marks) = g =ₛ guard && k =ₛ key || is_marked guard key marks

module _ {F : Type 0} (t : Texts F) where
  abbrev pub tool_words : ToolDefinition → AskingWords
  tool_words def = record {
    no_requester =
        "tool "
        <> (t.quoted def.id
            <> " requires approval, but this run has no ApprovalRequester attached — refusing to run rather than executing unapproved");
    no_conversation =
        "tool "
        <> (t.quoted def.id
            <> " requires approval, but this run has no active conversation to ask in");
    asking = "tool " <> (t.quoted def.id <> ": requesting approval: ");
  }

  abbrev pub user_words : ToolDefinition → AskingWords
  user_words def = record {
    no_requester =
        "tool "
        <> (t.quoted def.id
            <> ": user requires approval, but this run has no ApprovalRequester attached");
    no_conversation =
        "tool "
        <> (t.quoted def.id <> ": user requires approval, but this run has no active conversation");
    asking = "tool " <> (t.quoted def.id <> ": requesting user approval: ");
  }

  -- `onceKey`.
  unfoldable pub once_key : List String → Fields F → String
  once_key [] input = ""
  once_key (k ∷ ks) input =
      join "\u{1f}" (map (λ i. t.to_upper (trim_space (t.sprint (value_at i input)))) (k ∷ ks))

module _ {F C W : Type 0} (t : Texts F) where
  -- The answer that the person gave.
  unfoldable pub after_asking :
      AskingWords
      → Gate F C W
      → Turn C W
      → Fields F
      → Bool × Option GoError × W
      → Run F W
      → Value F × Option GoError × Run F W
  after_asking words inner turn input (approved, some err, w) s =
      wrapped_error words.asking err (with_outside s w)
  after_asking words inner turn input (approved, none, w) s =
      if approved
      then inner turn (with_outside s w) input
      else (str output_not_approved, none, with_outside s w)

  -- Asking the person, where they can be asked; the call behind it where they agree.
  unfoldable pub ask_first : AskingWords → ToolDefinition → Gate F C W → Gate F C W
  ask_first words def inner turn s input = elim turn.request_approval [
    | none ↦ own_error words.no_requester s
    | some ask ↦ elim turn.conversation [
      | none ↦ own_error words.no_conversation s
      | some conv ↦
          after_asking words inner turn input
            (ask conv (render_approval_prompt t def input) def.approval_timeout_seconds
              (outside_of s))
            s
    ]
  ]

  -- `withApprovalGate`.
  unfoldable pub with_approval_gate : ToolDefinition → Gate F C W → Gate F C W
  with_approval_gate def inner turn s input =
      if agreed_in_advance s.unattended turn def
      then inner turn s input
      else ask_first (tool_words t def) def inner turn s input

  -- `withUserApprovalGate`: a look-up never asks.
  unfoldable pub with_user_approval_gate : ToolDefinition → Gate F C W → Gate F C W
  with_user_approval_gate def inner turn s input =
      if def.read_only
        || not (has def.id turn.user_tool_approvals)
        || agreed_in_advance s.unattended turn def
      then inner turn s input
      else ask_first (user_words t def) def inner turn s input

  -- `withOneShotGuard`: what the guard remembers is in the state, under its name.
  unfoldable pub with_one_shot_guard : String → List String → Gate F C W → Gate F C W
  with_one_shot_guard guard once_for inner turn s input =
      if is_marked guard (once_key t once_for input) s.world.done
      then (already_completed, none, s)
      else (let (output, err, s') = inner turn s input in
          (
            output,
            err,
            if (outcome_of output err).done
                then mark_done guard (once_key t once_for input) s'
                else s',
          ))
