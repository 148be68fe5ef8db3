-- ===== src/Hydrate/Service.antt =====
-- domain/hydrate.go: what the service behind a tool is given.
use open_kael.Prelude.{
  inl, inr, sym, Option-cases, refl, ap, ◌≡◌, some, none, if◌then◌else◌, String, Option, List,
}
use open_kael.Prelude.Text.{◌<>◌, is_empty}
use open_kael.Contract.{CheckedInput, invalid, check_input, accepted}
use open_kael.Gates.{refusal, Texts, Floats}
use open_kael.Gates.Limits.{Speaks, stops_it, stops_broken, stops_panics, breaks-Speaks}
use open_kael.Gates.Rules.{
  ToolRule, Check, keeps, broken, panics, breaks, with_rules, with_pins, apply_pins,
}
use open_kael.Gates.Journal.{with_journal}
use open_kael.Hydrate.{with_outside, own_error, Turn, Run, Executor}
use open_kael.Hydrate.Approval.{with_approval_gate, with_one_shot_guard}
use open_kael.Hydrate.Bind.{
  approval_gates, asked_call, execute_tool, guarded, invoke_of, rules_gate, with_input_contract,
  with_prepare, after_prepare, ref_of,
}
use open_kael.Hydrate.Related.{
  Related, if_both, sign_in_gate-Related, with_approval_gate-Related, with_timezone_gate-Related,
  with_user_approval_gate-Related,
}
use open_kael.Outcome.{GoError}
use open_kael.Tools.{model_name, ToolDefinition, Identity}
use open_kael.Values.{Fields}

-- Two services that do the same with an input of a tool.
abbrev pub SameOn : {F W : Type 0} → (e other : Executor F W) → ToolDefinition → Fields F → Type 0
SameOn {W = W} e other def input =
    (identity : Option Identity) (ref id : String) (w : W)
    → e.execute identity ref id def.action input w
      ≡ other.execute identity ref id def.action input w

module _ {F C W : Type 0} (t : Texts F) (n : Floats F) (guard : String) (e other : Executor F W)
    (def : ToolDefinition) (identity : Option Identity) where
  execute_tool-same :
      (s : Run F W) (input : Fields F)
      → SameOn e other def input
      → Related {C = C}
          (λ r r'. r ≡ r')
          s
          input
          (execute_tool e def identity)
          (execute_tool other def identity)
  unfolding execute_tool
  execute_tool-same s input same turn w = rw (same _ _ _ w) refl

  journal-same :
      (s : Run F W) (input : Fields F)
      → SameOn e other def input
      → Related {C = C}
          (λ r r'. r ≡ r')
          s
          input
          (λ turn. with_journal t def.id (execute_tool e def identity turn))
          (λ turn. with_journal t def.id (execute_tool other def identity turn))
  unfolding with_journal
  journal-same s input same turn w = rw (execute_tool-same s input same turn w) refl

  asked_call-same :
      (s : Run F W) (input : Fields F)
      → SameOn e other def input
      → Related {C = C}
          (λ r r'. r ≡ r')
          s
          input
          (asked_call t n guard e def identity)
          (asked_call t n guard other def identity)
  asked_call-same s input same =
      with_user_approval_gate-Related (λ r r'. r ≡ r') s input t (λ v err w. refl) _ _
        (sign_in_gate-Related (λ r r'. r ≡ r') s input t (λ v err w. refl) _ _
          (journal-same s input same) identity def.name)
        def

  approved-same :
      (s : Run F W) (input : Fields F)
      → SameOn e other def input
      → Related {C = C}
          (λ r r'. r ≡ r')
          s
          input
          (with_approval_gate t def (asked_call t n guard e def identity))
          (with_approval_gate t def (asked_call t n guard other def identity))
  approved-same s input same =
      with_approval_gate-Related (λ r r'. r ≡ r') s input t (λ v err w. refl) _ _
        (asked_call-same s input same) def

  guard-same :
      (s : Run F W) (input : Fields F)
      → SameOn e other def input
      → Related {C = C}
          (λ r r'. r ≡ r')
          s
          input
          (with_one_shot_guard t guard def.once_for
            (with_approval_gate t def (asked_call t n guard e def identity)))
          (with_one_shot_guard t guard def.once_for
            (with_approval_gate t def (asked_call t n guard other def identity)))
  unfolding with_one_shot_guard
  guard-same s input same turn w = rw (approved-same s input same turn w) refl

  approval_gates-same :
      (s : Run F W) (input : Fields F)
      → SameOn e other def input
      → Related {C = C}
          (λ r r'. r ≡ r')
          s
          input
          (approval_gates t n guard def (asked_call t n guard e def identity))
          (approval_gates t n guard def (asked_call t n guard other def identity))
  unfolding approval_gates
  approval_gates-same s input same turn w =
      if_both (λ r r'. r ≡ r') def.requires_approval (guard-same s input same turn w)
        (asked_call-same s input same turn w)

  -- Behind the rules, services that do the same with an input cannot be told apart by a call with it.
  guarded-same :
      (turn : Turn C W) (s : Run F W) (input : Fields F)
      → SameOn e other def input
      → guarded t n guard e def identity turn s input
        ≡ guarded t n guard other def identity turn s input
  unfolding guarded
  guarded-same turn s input same =
      with_timezone_gate-Related (λ r r'. r ≡ r') s input t (λ v err w. refl) _ _
        (approval_gates-same s input same) def turn s.world.outside

  rules_gate-same :
      (rules : List (ToolRule F)) (turn : Turn C W) (s : Run F W) (input : Fields F)
      → (breaks t n rules input ≡ keeps → SameOn e other def input)
      → rules_gate t n rules (guarded t n guard e def identity) turn s input
        ≡ rules_gate t n rules (guarded t n guard other def identity) turn s input
  unfolding with_rules
  rules_gate-same rules turn s input same =
      by_check (breaks t n rules input) same (breaks-Speaks t n rules input)
    where
      by_check :
          (c : Check)
          → (c ≡ keeps → SameOn e other def input)
          → Speaks c
          → elim c [
            | keeps ↦ some (guarded t n guard e def identity turn s input)
            | broken why ↦ some (
                if is_empty why
                then guarded t n guard e def identity turn s input
                else (refusal why, none, s))
            | panics ↦ none
          ]
            ≡ elim c [
              | keeps ↦ some (guarded t n guard other def identity turn s input)
              | broken why ↦ some (
                  if is_empty why
                  then guarded t n guard other def identity turn s input
                  else (refusal why, none, s))
              | panics ↦ none
            ]
      by_check keeps k h = ap some (guarded-same turn s input (k refl))
      by_check c k (stops_it (stops_broken u)) = rw u refl
      by_check c k (stops_it stops_panics) = refl

  after_prepare-same :
      (rules : List (ToolRule F)) (turn : Turn C W) (s : Run F W) (input : Fields F)
      (r : Option (Fields F) × Option GoError × W)
      → ((given : Fields F) → breaks t n rules given ≡ keeps → SameOn e other def given)
      → after_prepare def (rules_gate t n rules (guarded t n guard e def identity)) turn input r s
        ≡ after_prepare def
            (rules_gate t n rules (guarded t n guard other def identity))
            turn
            input
            r
            s
  unfolding after_prepare
  after_prepare-same rules turn s input (prepared, some err, w) same = refl
  after_prepare-same rules turn s input (some prepared, none, w) same =
      rules_gate-same rules turn (with_outside s w) prepared (same prepared)
  after_prepare-same rules turn s input (none, none, w) same =
      rules_gate-same rules turn (with_outside s w) input (same input)

  with_prepare-same :
      (rules : List (ToolRule F)) (turn : Turn C W) (s : Run F W) (clean : Fields F)
      → e.prepare ≡ other.prepare
      → ((given : Fields F)
          → (e.prepare ≡ none → given ≡ clean)
          → breaks t n rules given ≡ keeps
          → SameOn e other def given)
      → with_prepare e def identity
          (rules_gate t n rules (guarded t n guard e def identity))
          turn
          s
          clean
        ≡ with_prepare other def identity
            (rules_gate t n rules (guarded t n guard other def identity))
            turn
            s
            clean
  unfolding with_prepare guarded execute_tool
  with_prepare-same rules turn s clean p same = elim (Option-cases e.prepare) [
    | inl nothing ↦
        rw (sym p, nothing) (rules_gate-same rules turn s clean (same clean (λ e'. refl)))
    | inr (prepare, some_) ↦
        rw (sym p, some_)
          (after_prepare-same rules turn s clean
            (prepare identity (ref_of turn identity) def.action clean s.world.outside)
            (λ given. same given (λ nothing. cc)))
  ]

  -- The service behind a tool is only ever given an input that breaks none of the rules and, where it
  -- prepares nothing, is what the tool's schema says, with the fixed values filled in: two services that
  -- prepare alike and do the same with every such input cannot be told apart by any call, whoever is
  -- asked and whatever they answer.
  pub invoke_of-same :
      (rules : List (ToolRule F)) (turn : Turn C W) (s : Run F W) (input : Fields F)
      → e.prepare ≡ other.prepare
      → ((given : Fields F)
          → (e.prepare ≡ none
              → check_input t n def.input_schema (apply_pins rules input) ≡ accepted given)
          → breaks t n rules given ≡ keeps
          → SameOn e other def given)
      → invoke_of t n guard e def identity rules turn s input
        ≡ invoke_of t n guard other def identity rules turn s input
  unfolding invoke_of with_pins with_input_contract
  invoke_of-same rules turn s input p same =
      by_contract (check_input t n def.input_schema (apply_pins rules input)) same
    where
      by_contract :
          (c : CheckedInput F)
          → ((given : Fields F)
              → (e.prepare ≡ none → c ≡ accepted given)
              → breaks t n rules given ≡ keeps
              → SameOn e other def given)
          → elim c [
            | accepted clean ↦
                with_prepare e def identity
                  (rules_gate t n rules (guarded t n guard e def identity))
                  turn
                  s
                  clean
            | invalid problem ↦ some (own_error (model_name def <> (": " <> problem)) s)
          ]
            ≡ elim c [
              | accepted clean ↦
                  with_prepare other def identity
                    (rules_gate t n rules (guarded t n guard other def identity))
                    turn
                    s
                    clean
              | invalid problem ↦ some (own_error (model_name def <> (": " <> problem)) s)
            ]
      by_contract (accepted clean) k =
          with_prepare-same rules turn s clean p
            (λ given is. k given (λ nothing. rw (is nothing) refl))
      by_contract (invalid problem) k = refl
