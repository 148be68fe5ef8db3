-- ===== src/Gates/SavedRules/Kinds.antt =====
-- domain/tool_rule.go: a rule that is saved has a value of the kind that the gate reads.
use open_kael.Gates.SavedRules.Calm.{well_kinded, is_well}
use open_kael.Outcome.{is_nil}
use Prim.Native.String.{count}
use open_kael.Gates.SavedRules.{
  enum_values, trimmed, normalize_value, normalize_trimmed, normalize_rule, normalize_product,
  normalize_list, normalize_limit, normalize_kind, normalize_items, max_rule_values,
  max_rule_message, item_count, is_number, enum_has, check_rule_value,
}
use open_kael.Tools.{detail, ToolDefinition}
use open_kael.Schema.{Schema}
use open_kael.Prelude.Text.{trim_space, ◌=ₛ◌, ◌<>◌}
use open_kael.Gates.{Texts, Floats}
use open_kael.Values.{str, obj, num, null, bool, arr, Value}
use open_kael.Gates.Rules.{
  humanize, to_number, rule_one_of, rule_none_of, rule_min, rule_max_product, rule_max, rule_fixed,
  rule_default, other_kind, ToolRule, RuleKind,
}
use open_kael.Prelude.{
  ◌||◌, ok, not, none_saved, map_ok, ltb, good, bad, Result, Option, OkIf, ◌==◌, ◌&&◌, ◌≡◌, true,
  some, refl, none, if_rule, if◌then◌else◌, false, Option-rule, Bool,
}
use open_kael.Values.{Items}

module _ {F : Type 0} (t : Texts F) (n : Floats F) where
  normalize_product-OkIf :
      (r : ToolRule F) (def : ToolDefinition) (prop : Schema)
      → r.kind ≡ rule_max_product
      → OkIf is_well (normalize_product t n r def prop)
  unfolding normalize_product well_kinded
  normalize_product-OkIf r def prop k =
      let W = OkIf is_well in
      Option-rule W (detail def r.with_input)
        (λ other e.
          if_rule W (r.with_input =ₛ r.input) (λ same. none_saved)
            (λ two.
              if_rule W (not (is_number prop)) (λ no_number. none_saved)
                (λ number.
                  if_rule W (not (is_number other)) (λ no_number. none_saved)
                    (λ both.
                      Option-rule W (to_number t n r.value)
                        (λ x e'.
                          if_rule W (n.less n.zero x) (λ above. good (rw k refl))
                            (λ below. none_saved))
                        (λ e'. none_saved)))))
        (λ e. none_saved)

  any_number : (k : RuleKind) (x : F) → well_kinded k (num x) ≡ true
  unfolding well_kinded
  any_number rule_max x = refl
  any_number rule_min x = refl
  any_number rule_max_product x = refl
  any_number rule_one_of x = refl
  any_number rule_none_of x = refl
  any_number rule_fixed x = refl
  any_number rule_default x = refl
  any_number (other_kind k) x = refl

  normalize_limit-OkIf :
      (r : ToolRule F) (prop : Schema) → OkIf is_well (normalize_limit t n r prop)
  unfolding normalize_limit
  normalize_limit-OkIf r prop =
      let W = OkIf is_well in
      if_rule W (not (is_number prop)) (λ no_number. none_saved)
        (λ number.
          Option-rule W (to_number t n r.value) (λ x e. good (any_number r.kind x))
            (λ e. none_saved))

  -- Kinds of which the gate takes any value.
  abbrev is_free : RuleKind → Bool
  is_free rule_max = false
  is_free rule_min = false
  is_free rule_max_product = false
  is_free k = true

  free-well : (k : RuleKind) (v : Value F) → is_free k ≡ true → well_kinded k v ≡ true
  unfolding well_kinded
  free-well rule_max v h = cc
  free-well rule_min v h = cc
  free-well rule_max_product v h = cc
  free-well rule_one_of v h = refl
  free-well rule_none_of v h = refl
  free-well rule_fixed v h = refl
  free-well rule_default v h = refl
  free-well (other_kind k) v h = refl

  normalize_list-OkIf :
      (r : ToolRule F) (prop : Schema) (v : Value F)
      → is_free r.kind ≡ true
      → OkIf is_well (normalize_list t n r prop v)
  normalize_list-OkIf r prop (arr items) h =
      if_rule (OkIf is_well) (item_count items == 0 || ltb max_rule_values (item_count items))
        (λ wrong_count. none_saved) (λ right. after (normalize_items t n r prop items))
    where
      after :
          (c : Result (Items F)) → OkIf is_well (map_ok (λ canon. record r { value = arr canon }) c)
      after (ok canon) = good (free-well r.kind (arr canon) h)
      after (bad e) = none_saved
  normalize_list-OkIf r prop null h = none_saved
  normalize_list-OkIf r prop (bool b) h = none_saved
  normalize_list-OkIf r prop (num x) h = none_saved
  normalize_list-OkIf r prop (str s) h = none_saved
  normalize_list-OkIf r prop (obj m) h = none_saved

  normalize_value-OkIf :
      (r : ToolRule F) (prop : Schema)
      → is_free r.kind ≡ true
      → OkIf is_well (normalize_value t n r prop)
  unfolding normalize_value
  normalize_value-OkIf r prop h = after (check_rule_value t n prop r.value)
    where
      after :
          (c : Result (Value F))
          → OkIf is_well (elim c [
            | bad e ↦ bad ("that isn't a valid value for " <> (humanize r.input <> (": " <> e)))
            | ok cv ↦
                if not (is_nil (enum_values prop)) && not (enum_has t n (enum_values prop) cv)
                then bad ("that isn't one of the values " <> (humanize r.input <> " can take"))
                else ok (record r { value = cv })
          ])
      after (bad e) = none_saved
      after (ok cv) =
          if_rule (OkIf is_well)
            (not (is_nil (enum_values prop)) && not (enum_has t n (enum_values prop) cv))
            (λ other. none_saved) (λ one. good (free-well r.kind cv h))

  normalize_kind-OkIf :
      (k : RuleKind) (r : ToolRule F) (def : ToolDefinition) (prop : Schema)
      → r.kind ≡ k
      → OkIf is_well (normalize_kind t n k r def prop)
  unfolding normalize_kind
  normalize_kind-OkIf rule_max_product r def prop e = normalize_product-OkIf _ def prop e
  normalize_kind-OkIf rule_max r def prop e = normalize_limit-OkIf _ prop
  normalize_kind-OkIf rule_min r def prop e = normalize_limit-OkIf _ prop
  normalize_kind-OkIf rule_one_of r def prop e = normalize_list-OkIf _ prop r.value (rw e refl)
  normalize_kind-OkIf rule_none_of r def prop e = normalize_list-OkIf _ prop r.value (rw e refl)
  normalize_kind-OkIf rule_fixed r def prop e = normalize_value-OkIf _ prop (rw e refl)
  normalize_kind-OkIf rule_default r def prop e = normalize_value-OkIf _ prop (rw e refl)
  normalize_kind-OkIf (other_kind k) r def prop e = none_saved

  pub normalize_rule-OkIf :
      (r : ToolRule F) (d : Option ToolDefinition) → OkIf is_well (normalize_rule t n r d)
  unfolding normalize_rule normalize_trimmed
  normalize_rule-OkIf r none = none_saved
  normalize_rule-OkIf r (some def) =
      if_rule (OkIf is_well) (ltb max_rule_message (count (trim_space r.message)))
        (λ long. none_saved)
        (λ short.
          Option-rule (OkIf is_well) (detail def (trim_space r.input))
            (λ prop e. normalize_kind-OkIf r.kind (trimmed r) def prop refl) (λ e. none_saved))
