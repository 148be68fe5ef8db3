-- ===== src/Hydrate/Quiet.antt =====
-- domain/hydrate.go: the gates that ask a person keep whatever asking keeps, while nobody agrees.
use open_kael.Prelude.Text.{is_empty}
use open_kael.Hydrate.SignIn.{
  user_to_ask, sent, with_timezone_gate, ask_for_timezone, after_timezone,
}
use open_kael.Hydrate.Prompt.{render_approval_prompt}
use open_kael.Hydrate.Bind.{guarded, approval_gates}
use open_kael.Tools.{ToolDefinition, Identity}
use open_kael.Outcome.{outcome_of, GoError}
use open_kael.Gates.{Texts, Floats}
use open_kael.Values.{Value, Fields}
use open_kael.Hydrate.{with_outside, outside_of, Turn, Run, Gate, Executor}
use open_kael.Hydrate.Approval.{
  is_marked, user_words, once_key, mark_done, with_user_approval_gate, with_one_shot_guard,
  with_approval_gate, tool_words, ask_first, agreed_in_advance, after_asking, AskingWords,
}
use open_kael.Prelude.{
  refl, arith, ◌≡◌, ℕ, ◌||◌, true, some, not, none, if_rule, has, false, String, Option-rule,
  Option, List, Bool, ◌&&◌,
}

-- Whether a person must agree to a call of a tool: by the tool's own definition, or by their setting.
unfoldable pub needs_approval : {C W : Type 0} → Turn C W → ToolDefinition → Bool
needs_approval turn def =
    def.requires_approval || not def.read_only && has def.id turn.user_tool_approvals

module _ {C W : Type 0} (P : W → Type 0) where
  -- Nobody agrees to a call in this turn, and asking them keeps what `P` says of the world.
  pub record NobodyAgrees (turn : Turn C W) : Type 0 where
    pub asked :
        (ask : C → String → ℕ → W → Bool × Option GoError × W)
        → turn.request_approval ≡ some ask
        → (conv : C) (prompt : String) (timeout : ℕ) (w : W) → P w
        → P (ask conv prompt timeout w).2
    pub never_yes :
        (ask : C → String → ℕ → W → Bool × Option GoError × W)
        → turn.request_approval ≡ some ask
        → (conv : C) (prompt : String) (timeout : ℕ) (w : W) → (ask conv prompt timeout w).1 ≡ none
        → (ask conv prompt timeout w).0 ≡ false
    pub asked_timezone :
        (ask : C → String → W → Option GoError × W)
        → turn.request_timezone ≡ some ask
        → (conv : C) (user : String) (w : W) → P w
        → P (ask conv user w).1

module _ {F W : Type 0} (P : W → Type 0) where
  -- What an executor prepares keeps it too.
  pub record PreparesQuietly (e : Executor F W) : Type 0 where
    pub prepared :
        (p : Option Identity
          → String
          → String
          → Fields F
          → W
          → Option (Fields F) × Option GoError × W)
        → e.prepare ≡ some p
        → (i : Option Identity) (ref action : String) (input : Fields F) (w : W) → P w
        → P (p i ref action input w).2

  -- A call that left it so.
  pub record Quiet (r : Value F × Option GoError × Run F W) : Type 0 where
    pub kept : P (outside_of r.2)

  -- The same of a call that may panic.
  pub data QuietOrPanics : Option (Value F × Option GoError × Run F W) → Type 0 where
    panicked : QuietOrPanics none
    quiet : {r : Value F × Option GoError × Run F W} → Quiet r → QuietOrPanics (some r)

module _ {W : Type 0} (P : W → Type 0) where
  -- A question that kept it.
  record Kept (r : Bool × W) : Type 0 where
    kept : P r.1

  sent-Kept : (r : Option GoError × W) → P r.1 → Kept (sent r)
  sent-Kept (none, w) h = record { kept = h }
  sent-Kept (some err, w) h = record { kept = h }

module _ {C W : Type 0} (P : W → Type 0) where
  ask_for_timezone-Kept :
      (turn : Turn C W) (w : W) → NobodyAgrees P turn → P w → Kept P (ask_for_timezone turn w)
  unfolding ask_for_timezone
  ask_for_timezone-Kept turn w deny h =
      if_rule (Kept P) (not (is_empty turn.timezone)) (λ known. record { kept = h })
        (λ unknown.
          Option-rule (Kept P) turn.request_timezone
            (λ ask e.
              Option-rule (Kept P) turn.conversation
                (λ conv e'.
                  if_rule (Kept P) (is_empty (user_to_ask turn conv))
                    (λ nobody. record { kept = h })
                    (λ somebody.
                      sent-Kept P (ask conv (user_to_ask turn conv) w)
                        (deny.asked_timezone ask e conv (user_to_ask turn conv) w h)))
                (λ e'. record { kept = h }))
            (λ e. record { kept = h }))

module _ {F C W : Type 0} (P : W → Type 0) where
  after_timezone-Quiet :
      (inner : Gate F C W) (turn : Turn C W) (input : Fields F) (r : Bool × W) (s : Run F W)
      → P r.1
      → ((w : W) → P w → Quiet P (inner turn (with_outside s w) input))
      → Quiet P (after_timezone inner turn input r s)
  after_timezone-Quiet inner turn input (true, w) s h q = record { kept = h }
  after_timezone-Quiet inner turn input (false, w) s h q = q w h

module _ {F C W : Type 0} (P : W → Type 0) (t : Texts F) (n : Floats F) (guard : String) where
  after_asking-Quiet :
      (words : AskingWords) (inner : Gate F C W) (turn : Turn C W) (input : Fields F)
      (r : Bool × Option GoError × W) (s : Run F W)
      → P r.2
      → (r.1 ≡ none → r.0 ≡ false)
      → Quiet P (after_asking t words inner turn input r s)
  unfolding after_asking
  after_asking-Quiet words inner turn input (approved, some err, w) s h deny = record { kept = h }
  after_asking-Quiet words inner turn input (true, none, w) s h deny =
      let agreed : true ≡ false = deny refl in cc
  after_asking-Quiet words inner turn input (false, none, w) s h deny = record { kept = h }

  ask_first-Quiet :
      (words : AskingWords) (def : ToolDefinition) (inner : Gate F C W) (turn : Turn C W)
      (s : Run F W) (input : Fields F)
      → NobodyAgrees P turn
      → P (outside_of s)
      → Quiet P (ask_first t words def inner turn s input)
  unfolding ask_first
  ask_first-Quiet words def inner turn s input deny h =
      Option-rule (Quiet P) turn.request_approval
        (λ ask e.
          Option-rule (Quiet P) turn.conversation
            (λ conv e'.
              after_asking-Quiet words inner turn input
                (ask conv (render_approval_prompt t def input) def.approval_timeout_seconds
                  (outside_of s))
                s (deny.asked ask e conv _ _ _ h) (deny.never_yes ask e conv _ _ _))
            (λ e'. record { kept = h }))
        (λ e. record { kept = h })

  with_approval_gate-Quiet :
      (def : ToolDefinition) (inner : Gate F C W) (turn : Turn C W) (s : Run F W) (input : Fields F)
      → NobodyAgrees P turn
      → agreed_in_advance s.unattended turn def ≡ false
      → P (outside_of s)
      → Quiet P (with_approval_gate t def inner turn s input)
  unfolding with_approval_gate
  with_approval_gate-Quiet def inner turn s input deny unagreed h =
      if_rule (Quiet P) (agreed_in_advance s.unattended turn def) (λ agreed. cc)
        (λ other. ask_first-Quiet (tool_words t def) def inner turn s input deny h)

  with_user_approval_gate-Quiet :
      (def : ToolDefinition) (inner : Gate F C W) (turn : Turn C W) (s : Run F W) (input : Fields F)
      → NobodyAgrees P turn
      → agreed_in_advance s.unattended turn def ≡ false
      → def.read_only ≡ false
      → has def.id turn.user_tool_approvals ≡ true
      → P (outside_of s)
      → Quiet P (with_user_approval_gate t def inner turn s input)
  unfolding with_user_approval_gate
  with_user_approval_gate-Quiet def inner turn s input deny unagreed alters flagged h =
      if_rule (Quiet P)
        (def.read_only
          || not (has def.id turn.user_tool_approvals)
          || agreed_in_advance s.unattended turn def)
        (λ free. ground arith)
        (λ asked. ask_first-Quiet (user_words t def) def inner turn s input deny h)

  with_one_shot_guard-Quiet :
      (once_for : List String) (inner : Gate F C W) (turn : Turn C W) (s : Run F W)
      (input : Fields F)
      → P (outside_of s)
      → Quiet P (inner turn s input)
      → Quiet P (with_one_shot_guard t guard once_for inner turn s input)
  unfolding with_one_shot_guard
  with_one_shot_guard-Quiet once_for inner turn s input h q =
      if_rule (Quiet P) (is_marked guard (once_key t once_for input) s.world.done)
        (λ again. record { kept = h })
        (λ first. record {
          kept =
              if_rule (λ (s' : Run F W). P (outside_of s'))
                (outcome_of (inner turn s input).0 (inner turn s input).1).done
                {x = mark_done guard (once_key t once_for input) (inner turn s input).2}
                {y = (inner turn s input).2} (λ done. q.kept) (λ not_done. q.kept);
        })

  -- The gates of a person's approval keep it, where they need it from someone.
  approved_gates-Quiet :
      (def : ToolDefinition) (inner : Gate F C W) (turn : Turn C W) (s : Run F W) (input : Fields F)
      → NobodyAgrees P turn
      → agreed_in_advance s.unattended turn def ≡ false
      → needs_approval turn def ≡ true
      → P (outside_of s)
      → Quiet P (approval_gates t n guard def (with_user_approval_gate t def inner) turn s input)
  unfolding approval_gates needs_approval
  approved_gates-Quiet def inner turn s input deny unagreed needs h =
      if_rule (Quiet P) def.requires_approval
        (λ by_tool.
          with_one_shot_guard-Quiet def.once_for _ turn s input h
            (with_approval_gate-Quiet def _ turn s input deny unagreed h))
        (λ by_setting.
          with_user_approval_gate-Quiet def inner turn s input deny unagreed (ground arith)
            (ground arith) h)

  timezone_gate-Quiet :
      (def : ToolDefinition) (inner : Gate F C W) (turn : Turn C W) (s : Run F W) (input : Fields F)
      → NobodyAgrees P turn
      → P (outside_of s)
      → ((w : W) → P w → Quiet P (inner turn (with_outside s w) input))
      → Quiet P (with_timezone_gate def inner turn s input)
  unfolding with_timezone_gate
  timezone_gate-Quiet def inner turn s input deny h q =
      if_rule (Quiet P) def.needs_local_time
        (λ needed.
          after_timezone-Quiet P inner turn input (ask_for_timezone turn (outside_of s)) s
            (ask_for_timezone-Kept P turn (outside_of s) deny h).kept q)
        (λ other. q (outside_of s) h)

  pub guarded-Quiet :
      (e : Executor F W) (def : ToolDefinition) (identity : Option Identity) (turn : Turn C W)
      (s : Run F W) (input : Fields F)
      → NobodyAgrees P turn
      → agreed_in_advance s.unattended turn def ≡ false
      → needs_approval turn def ≡ true
      → P (outside_of s)
      → Quiet P (guarded t n guard e def identity turn s input)
  unfolding guarded
  guarded-Quiet e def identity turn s input deny unagreed needs h =
      timezone_gate-Quiet def _ turn s input deny h
        (λ w hw. approved_gates-Quiet def _ turn (with_outside s w) input deny unagreed needs hw)
