-- ===== src/Hydrate/Calm.antt =====
-- domain/hydrate.go and domain/tool_rule.go: with rules as they are saved, no tool panics.
use open_kael.Gates.SavedRules.Together.{normalize_rules}
use open_kael.Gates.SavedRules.Whole.{saved, normalize_rules-Saved, Saved}
use open_kael.Hydrate.Skills.{rules_for, Skill, Agent}
use open_kael.Gates.Shown.{spec_with_rules, shown_of, show_rules, show_rule, limit_text, Shown}
use open_kael.Gates.Rules.{
  rules_of_tool, with_pins, rule_one_of, rule_none_of, rule_min, rule_max_product, rule_max,
  rule_fixed, rule_default, other_kind, apply_pins, ToolRule, RuleKind,
}
use open_kael.Tools.{spec_of, model_name, ToolSpec, ToolDefinition, Integration, Identity}
use open_kael.Hydrate.Bind.{
  with_prepare, with_input_contract, rules_gate, ref_of, invoke_of, guarded, bind_tool,
  after_prepare, Tool, Handler,
}
use open_kael.Gates.{Texts, Floats}
use open_kael.Values.{str, obj, num, null, bool, arr, Value, Fields}
use open_kael.Hydrate.{
  with_outside, own_error, outside_of, executor_for, Turn, ExecutorRegistry, Executor,
}
use open_kael.Contract.{invalid, check_input, accepted, CheckedInput}
use open_kael.Prelude.Text.{◌=ₛ◌, ◌<>◌}
use open_kael.Outcome.{GoError}
use open_kael.Hydrate.{Run}
use mathlib.Core.Path.{subst}
use open_kael.Prelude.{
  ok, all-append, Option, Bool, ◌≡◌, ◌∷◌, true, sym, some, refl, not, none, is_some, false, arith,
  ap, all, [], String, Result, List, Option-rule, if_rule,
}
use open_kael.Gates.SavedRules.Calm.{is_num, is_well, well_kinded, with_rules-is_some}

-- What comes of something that is there, and goes on to something that is.
then_some :
    {A B : Type 0} (o : Option A) (f : A → Option B)
    → is_some o ≡ true
    → ((a : A) → is_some (f a) ≡ true)
    → is_some (elim o [ none ↦ none | some a ↦ f a ]) ≡ true
then_some none f h k = cc
then_some (some a) f h k = k a

module _ {F : Type 0} (t : Texts F) (n : Floats F) where
  limit_text-is_some : (v : Value F) → is_num v ≡ true → is_some (limit_text t n v) ≡ true
  limit_text-is_some (num x) h = refl
  limit_text-is_some null h = cc
  limit_text-is_some (bool b) h = cc
  limit_text-is_some (str s) h = cc
  limit_text-is_some (arr a) h = cc
  limit_text-is_some (obj m) h = cc

  show_rule-is_some :
      (r : ToolRule F) (k : RuleKind) (v : Shown)
      → well_kinded k r.value ≡ true
      → is_some (show_rule t n r k v) ≡ true
  unfolding show_rule well_kinded
  show_rule-is_some r rule_fixed v h = refl
  show_rule-is_some r rule_default v h = refl
  show_rule-is_some r rule_max_product v h =
      then_some (limit_text t n r.value) _ (limit_text-is_some r.value h) (λ limit. refl)
  show_rule-is_some r rule_max v h =
      then_some (limit_text t n r.value) _ (limit_text-is_some r.value h) (λ limit. refl)
  show_rule-is_some r rule_min v h =
      then_some (limit_text t n r.value) _ (limit_text-is_some r.value h) (λ limit. refl)
  show_rule-is_some r rule_one_of v h = refl
  show_rule-is_some r rule_none_of v h = refl
  show_rule-is_some r (other_kind k) v h = refl

  show_rules-is_some :
      (rules : List (ToolRule F)) (v : Shown)
      → all is_well rules ≡ true
      → is_some (show_rules t n rules v) ≡ true
  unfolding show_rules
  show_rules-is_some [] v h = refl
  show_rules-is_some (r ∷ rules) v h =
      then_some (show_rule t n r r.kind v) _ (show_rule-is_some r r.kind v (ground arith))
        (λ v'. show_rules-is_some rules v' (ground arith))

  spec_with_rules-is_some :
      (spec : ToolSpec) (rules : List (ToolRule F))
      → all is_well rules ≡ true
      → is_some (spec_with_rules t n spec rules) ≡ true
  unfolding spec_with_rules
  spec_with_rules-is_some spec rules h =
      then_some (show_rules t n rules (shown_of t n spec.input)) _
        (show_rules-is_some rules (shown_of t n spec.input) h) (λ v. refl)

module _ {F W : Type 0} (t : Texts F) (n : Floats F) (guard : String) where
  bind_tool-is_some :
      (C : Type 0) (def : ToolDefinition) (identity : Option Identity) (integration : Integration)
      (registry : ExecutorRegistry F W) (rules : List (ToolRule F))
      → all is_well rules ≡ true
      → is_some (bind_tool {C = C} t n guard def identity integration registry rules) ≡ true
  unfolding bind_tool
  bind_tool-is_some C def identity integration registry rules h =
      let S = λ (o : Option (Result (Tool F C W))). is_some o ≡ true in
      if_rule S (not (def.integration_id =ₛ integration.id)) (λ other. refl)
        (λ own.
          Option-rule S (executor_for registry integration.service)
            (λ e found.
              Option-rule S (spec_with_rules t n (spec_of def) rules) (λ spec shown. refl)
                (λ lost.
                  let shown = spec_with_rules-is_some t n (spec_of def) rules h in
                  let never : false ≡ true = rw (sym (ap is_some lost)) shown in cc))
            (λ missing. refl))

module _ {F C W : Type 0} (t : Texts F) (n : Floats F) (guard : String) where
  after_prepare-is_some :
      (def : ToolDefinition) (inner : Handler F C W) (turn : Turn C W) (input : Fields F)
      (r : Option (Fields F) × Option GoError × W) (s : Run F W)
      → ((i : Fields F) (w : W) → is_some (inner turn (with_outside s w) i) ≡ true)
      → is_some (after_prepare def inner turn input r s) ≡ true
  unfolding after_prepare
  after_prepare-is_some def inner turn input (prepared, some err, w) s h = refl
  after_prepare-is_some def inner turn input (some prepared, none, w) s h = h prepared w
  after_prepare-is_some def inner turn input (none, none, w) s h = h input w

  invoke_of-is_some :
      (e : Executor F W) (def : ToolDefinition) (identity : Option Identity)
      (rules : List (ToolRule F)) (turn : Turn C W) (s : Run F W) (input : Fields F)
      → all is_well rules ≡ true
      → is_some (invoke_of t n guard e def identity rules turn s input) ≡ true
  unfolding invoke_of with_pins with_input_contract with_prepare
  invoke_of-is_some e def identity rules turn s input h =
      contract (check_input t n def.input_schema (apply_pins rules input))
    where
      ruled :
          (w : Run F W) (i : Fields F)
          → is_some (rules_gate t n rules (guarded t n guard e def identity) turn w i) ≡ true
      ruled w i = with_rules-is_some t n rules (guarded t n guard e def identity turn) w i h

      contract :
          (c : CheckedInput F)
          → is_some (elim c [
            | accepted clean ↦
                with_prepare e def identity
                  (rules_gate t n rules (guarded t n guard e def identity))
                  turn
                  s
                  clean
            | invalid problem ↦ some (own_error (model_name def <> (": " <> problem)) s)
          ])
            ≡ true
      contract (accepted clean) =
          Option-rule (λ (o : Option (Value F × Option GoError × Run F W)). is_some o ≡ true)
            e.prepare
            (λ p eq.
              after_prepare-is_some def _ turn clean
                (p identity (ref_of turn identity) def.action clean (outside_of s)) s
                (λ i w. ruled (with_outside s w) i))
            (λ eq. ruled s clean)
      contract (invalid problem) = refl

module _ {F : Type 0} (t : Texts F) (n : Floats F) where
  saved-well :
      {rules : List (ToolRule F)} → Saved t n F (some (ok rules)) → all is_well rules ≡ true
  saved-well (saved few calm well) = well

  rules_of_tool-all :
      (q : ToolRule F → Bool) (id : String) (rules : List (ToolRule F))
      → all q rules ≡ true
      → all q (rules_of_tool id rules) ≡ true
  unfolding rules_of_tool
  rules_of_tool-all q id [] h = refl
  rules_of_tool-all q id (r ∷ rules) h = ground (arith, rules_of_tool-all q id rules)

  rules_for-well :
      (agent : Agent F) (skill : Skill F) (id : String) (own theirs : List (ToolRule F))
      (tools : List (String × ToolDefinition))
      → normalize_rules t n own tools ≡ some (ok agent.rules)
      → normalize_rules t n theirs tools ≡ some (ok skill.rules)
      → all is_well (rules_for agent skill id) ≡ true
  rules_for-well agent skill id own theirs tools a s =
      let agents = saved-well (subst (Saved t n F) a (normalize_rules-Saved t n F own tools)) in
      let skills = saved-well (subst (Saved t n F) s (normalize_rules-Saved t n F theirs tools)) in
      ground (
        arith,
        all-append is_well (rules_of_tool id agent.rules) (rules_of_tool id skill.rules),
        rules_of_tool-all is_well id agent.rules agents,
        rules_of_tool-all is_well id skill.rules skills,
      )

module _ {F C W : Type 0} (t : Texts F) (n : Floats F) (guard : String) where
  -- Where the rules of an agent and of a capability were saved by the check, binding a tool with them does
  -- not panic, and neither does any call of what is bound.
  pub bind_tool-calm :
      (agent : Agent F) (skill : Skill F) (own theirs : List (ToolRule F))
      (tools : List (String × ToolDefinition)) (def : ToolDefinition) (identity : Option Identity)
      (integration : Integration) (registry : ExecutorRegistry F W) (e : Executor F W)
      (turn : Turn C W) (s : Run F W) (input : Fields F)
      → normalize_rules t n own tools ≡ some (ok agent.rules)
      → normalize_rules t n theirs tools ≡ some (ok skill.rules)
      → (is_some (
            bind_tool {C = C} t n guard def identity integration registry
              (rules_for agent skill def.id))
          ≡ true)
        × (is_some (invoke_of t n guard e def identity (rules_for agent skill def.id) turn s input)
            ≡ true)
  bind_tool-calm agent skill own theirs tools def identity integration registry e turn s input a b =
      let well = rules_for-well t n agent skill def.id own theirs tools a b in
      (
        bind_tool-is_some t n guard C def identity integration registry
            (rules_for agent skill def.id) well,
        invoke_of-is_some t n guard e def identity (rules_for agent skill def.id) turn s input well,
      )
