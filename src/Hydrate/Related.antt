-- ===== src/Hydrate/Related.antt =====
-- domain/hydrate.go: what holds of the calls behind the gates that people answer holds of the gated
-- calls, for one tool or for two that are compared. The gates pass the input on as it is, and change
-- nothing of a run but the world outside.
use open_kael.Prelude.Text.{◌=ₛ◌, is_empty}
use open_kael.Prelude.{◌||◌, not, has, Bool, true, false, Option, some, none, String, if◌then◌else◌}
use open_kael.Outcome.{GoError}
use open_kael.Values.{Value, Fields}
use open_kael.Tools.{ToolDefinition, Identity, token_kind}
use open_kael.Gates.{Texts}
use open_kael.Hydrate.{Turn, Run, Gate, ConnectError, with_outside, connection_ref}
use open_kael.Hydrate.Bind.{sign_in_gate}
use open_kael.Hydrate.SignIn.{
  after_connect, with_auth_gate, named_turn, after_timezone, with_timezone_gate, ask_for_timezone,
}
use open_kael.Hydrate.Approval.{
  AskingWords, after_asking, ask_first, with_approval_gate, with_user_approval_gate,
  agreed_in_advance, tool_words, user_words,
}
use open_kael.Hydrate.Prompt.{render_approval_prompt}

Option-both :
    {A B : Type 0} (Q : B → B → Type 0) (o : Option A) {f g : A → B} {d e : B}
    → ((a : A) → Q (f a) (g a))
    → Q d e
    → Q (elim o [ some a ↦ f a | none ↦ d ]) (elim o [ some a ↦ g a | none ↦ e ])
Option-both Q none hs hn = hn
Option-both Q (some a) hs hn = hs a

pub if_both :
    {B : Type 0} (Q : B → B → Type 0) (b : Bool) {x y z w : B}
    → Q x z
    → Q y w
    → Q (if b then x else y) (if b then z else w)
if_both Q true hx hy = hx
if_both Q false hx hy = hy

abbrev pub Result : Type 0 → Type 0 → Type 0
Result F W = Value F × Option GoError × Run F W

module _ {F W : Type 0} (Q : Result F W → Result F W → Type 0) (s : Run F W) where
  -- What a gate answers itself, to either of the calls.
  abbrev pub Own : Type 0
  Own =
      (v : Value F) (err : Option GoError) (w : W)
      → Q (v, err, with_outside s w) (v, err, with_outside s w)

module _ {F C W : Type 0} (Q : Result F W → Result F W → Type 0) (s : Run F W)
    (input : Fields F) where
  abbrev pub Related : (inner other : Gate F C W) → Type 0
  Related inner other =
      (turn : Turn C W) (w : W)
      → Q (inner turn (with_outside s w) input) (other turn (with_outside s w) input)

  module _ (t : Texts F) (own : Own Q s) (inner other : Gate F C W) (h : Related inner other) where
    after_asking-Related :
        (words : AskingWords) (turn : Turn C W) (r : Bool × Option GoError × W) (v : W)
        → Q
            (after_asking t words inner turn input r (with_outside s v))
            (after_asking t words other turn input r (with_outside s v))
    unfolding after_asking
    after_asking-Related words turn (approved, some err, w) v = own _ _ w
    after_asking-Related words turn (approved, none, w) v =
        if_both Q approved (h turn w) (own _ _ w)

    ask_first-Related :
        (words : AskingWords) (def : ToolDefinition)
        → Related (ask_first t words def inner) (ask_first t words def other)
    unfolding ask_first
    ask_first-Related words def turn w =
        Option-both Q turn.request_approval
          (λ ask.
            Option-both Q turn.conversation
              (λ conv.
                after_asking-Related words turn
                  (ask conv (render_approval_prompt t def input) def.approval_timeout_seconds w) w)
              (own _ _ w))
          (own _ _ w)

    pub with_approval_gate-Related :
        (def : ToolDefinition)
        → Related (with_approval_gate t def inner) (with_approval_gate t def other)
    unfolding with_approval_gate
    with_approval_gate-Related def turn w =
        if_both Q (agreed_in_advance s.unattended turn def) (h turn w)
          (ask_first-Related (tool_words t def) def turn w)

    pub with_user_approval_gate-Related :
        (def : ToolDefinition)
        → Related (with_user_approval_gate t def inner) (with_user_approval_gate t def other)
    unfolding with_user_approval_gate
    with_user_approval_gate-Related def turn w =
        if_both Q
          (def.read_only
            || not (has def.id turn.user_tool_approvals)
            || agreed_in_advance s.unattended turn def)
          (h turn w) (ask_first-Related (user_words t def) def turn w)

    after_connect-Related :
        (i : Identity) (name : String) (turn : Turn C W) (r : String × Option ConnectError × W)
        (v : W)
        → Q
            (after_connect i name inner turn input r (with_outside s v))
            (after_connect i name other turn input r (with_outside s v))
    unfolding after_connect
    after_connect-Related i name turn (ref, some err, w) v =
        if_both Q err.unavailable (own _ _ w) (own _ _ w)
    after_connect-Related i name turn (ref, none, w) v =
        if_both Q (is_empty ref) (own _ _ w) (h _ w)

    with_auth_gate-Related :
        (i : Identity) (name : String)
        → Related (with_auth_gate i name inner) (with_auth_gate i name other)
    unfolding with_auth_gate
    with_auth_gate-Related i name turn w =
        if_both Q (not (is_empty (connection_ref turn i.id))) (h turn w) (
          Option-both Q turn.request_connect
            (λ connect.
              Option-both Q turn.conversation
                (λ conv.
                  after_connect-Related i name (named_turn name turn)
                    (connect conv i turn.user_id (named_turn name turn).connect_tool_name w) w)
                (h turn w))
            (h turn w))

    pub sign_in_gate-Related :
        (i : Option Identity) (name : String)
        → Related (sign_in_gate i name inner) (sign_in_gate i name other)
    unfolding sign_in_gate
    sign_in_gate-Related none name turn w = h turn w
    sign_in_gate-Related (some i) name turn w =
        if_both Q (i.kind =ₛ token_kind) (h turn w) (with_auth_gate-Related i name turn w)

    after_timezone-Related :
        (turn : Turn C W) (r : Bool × W) (v : W)
        → Q
            (after_timezone inner turn input r (with_outside s v))
            (after_timezone other turn input r (with_outside s v))
    after_timezone-Related turn (true, w) v = own _ _ w
    after_timezone-Related turn (false, w) v = h turn w

    pub with_timezone_gate-Related :
        (def : ToolDefinition)
        → Related (with_timezone_gate def inner) (with_timezone_gate def other)
    unfolding with_timezone_gate
    with_timezone_gate-Related def turn w =
        if_both Q def.needs_local_time (after_timezone-Related turn (ask_for_timezone turn w) w)
          (h turn w)
