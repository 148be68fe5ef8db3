-- ===== src/Hydrate/Denied.antt =====
-- domain/hydrate.go: a change that a person must approve does not run while they do not.
use open_kael.Hydrate.Quiet.{panicked}
use open_kael.Hydrate.Quiet.{
  quiet, needs_approval, guarded-Quiet, QuietOrPanics, Quiet, PreparesQuietly, NobodyAgrees,
}
use open_kael.Contract.{invalid, check_input, accepted, CheckedInput}
use open_kael.Prelude.Text.{is_empty, ◌<>◌}
use open_kael.Gates.Rules.{
  breaks, with_rules, panics, keeps, broken, apply_pins, Check, with_pins, ToolRule,
}
use open_kael.Hydrate.Bind.{
  with_prepare, with_input_contract, rules_gate, ref_of, guarded, after_prepare, Handler, invoke_of,
}
use open_kael.Tools.{model_name, ToolDefinition, Identity}
use open_kael.Outcome.{GoError}
use open_kael.Gates.{refusal, Texts, Floats}
use open_kael.Values.{Fields}
use open_kael.Hydrate.{own_error, with_outside, outside_of, Turn, Run, Gate, Executor}
use open_kael.Hydrate.Approval.{agreed_in_advance}
use open_kael.Prelude.{
  if◌then◌else◌, ◌≡◌, true, some, none, if_rule, false, String, Option-rule, Option, List,
}

module _ {F C W : Type 0} (P : W → Type 0) (t : Texts F) (n : Floats F) (guard : String) where
  with_rules-QuietOrPanics :
      (rules : List (ToolRule F)) (inner : Gate F C W) (turn : Turn C W) (s : Run F W)
      (input : Fields F)
      → P (outside_of s)
      → Quiet P (inner turn s input)
      → QuietOrPanics P (with_rules t n rules (inner turn) s input)
  unfolding with_rules
  with_rules-QuietOrPanics rules inner turn s input h q = after (breaks t n rules input)
    where
      after :
          (c : Check)
          → QuietOrPanics P (elim c [
            | keeps ↦ some (inner turn s input)
            | broken why ↦
                some (if is_empty why then inner turn s input else (refusal why, none, s))
            | panics ↦ none
          ])
      after keeps = quiet q
      after (broken why) =
          quiet (if_rule (Quiet P) (is_empty why) (λ blank. q) (λ told. record { kept = h }))
      after panics = panicked

  after_prepare-QuietOrPanics :
      (def : ToolDefinition) (inner : Handler F C W) (turn : Turn C W) (input : Fields F)
      (r : Option (Fields F) × Option GoError × W) (s : Run F W)
      → P r.2
      → ((i : Fields F) (w : W) → P w → QuietOrPanics P (inner turn (with_outside s w) i))
      → QuietOrPanics P (after_prepare def inner turn input r s)
  unfolding after_prepare
  after_prepare-QuietOrPanics def inner turn input (prepared, some err, w) s h q =
      quiet (record { kept = h })
  after_prepare-QuietOrPanics def inner turn input (some prepared, none, w) s h q = q prepared w h
  after_prepare-QuietOrPanics def inner turn input (none, none, w) s h q = q input w h

  with_prepare-QuietOrPanics :
      (e : Executor F W) (def : ToolDefinition) (identity : Option Identity) (inner : Handler F C W)
      (turn : Turn C W) (s : Run F W) (input : Fields F)
      → PreparesQuietly P e
      → P (outside_of s)
      → ((i : Fields F) (w : W) → P w → QuietOrPanics P (inner turn (with_outside s w) i))
      → QuietOrPanics P (with_prepare e def identity inner turn s input)
  unfolding with_prepare
  with_prepare-QuietOrPanics e def identity inner turn s input prep h q =
      Option-rule (QuietOrPanics P) e.prepare
        (λ p eq.
          after_prepare-QuietOrPanics def inner turn input
            (p identity (ref_of turn identity) def.action input (outside_of s)) s
            (prep.prepared p eq identity _ _ input (outside_of s) h) q)
        (λ eq. q input (outside_of s) h)

  -- A call of a tool that needs a person's approval, in a turn where nobody agrees to it and none was
  -- agreed in advance, never reaches the service: it keeps whatever asking and preparing keep, or the
  -- code panics, at a limit that is no number.
  pub invoke_of-Quiet :
      (e : Executor F W) (def : ToolDefinition) (identity : Option Identity)
      (rules : List (ToolRule F)) (turn : Turn C W) (s : Run F W) (input : Fields F)
      → NobodyAgrees P turn
      → PreparesQuietly P e
      → agreed_in_advance s.unattended turn def ≡ false
      → needs_approval turn def ≡ true
      → P (outside_of s)
      → QuietOrPanics P (invoke_of t n guard e def identity rules turn s input)
  unfolding invoke_of with_pins with_input_contract
  invoke_of-Quiet e def identity rules turn s input deny prep unagreed needs h =
      contract (check_input t n def.input_schema (apply_pins rules input))
    where
      contract :
          (c : CheckedInput F)
          → QuietOrPanics P (elim c [
            | accepted clean ↦
                with_prepare e def identity
                  (rules_gate t n rules (guarded t n guard e def identity))
                  turn
                  s
                  clean
            | invalid problem ↦ some (own_error (model_name def <> (": " <> problem)) s)
          ])
      contract (accepted clean) =
          with_prepare-QuietOrPanics e def identity _ turn s clean prep h (λ i w hw.
            with_rules-QuietOrPanics rules (guarded t n guard e def identity) turn
              (with_outside s w) i hw
              (guarded-Quiet P t n guard e def identity turn (with_outside s w) i deny unagreed
                needs hw))
      contract (invalid problem) = quiet (record { kept = h })
