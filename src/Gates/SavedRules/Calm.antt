-- ===== src/Gates/SavedRules/Calm.antt =====
-- domain/tool_rule.go: the gate never panics at rules that were saved.
use open_kael.Prelude.Text.{is_empty}
use open_kael.Gates.{value_at, refusal, Texts, Invoke, Floats}
use open_kael.Values.{str, obj, num, null, bool, arr, Value, Fields}
use open_kael.Gates.Rules.{
  value_in, with_rules, to_number, rule_one_of, rule_none_of, rule_min, rule_max_product, rule_max,
  rule_fixed, rule_default, other_kind, limit, keeps, broken, breaks_value, breaks_rule,
  breaks_product, breaks_min, breaks_max, breaks_given, ToolRule, RuleKind, Check,
}
use open_kael.Prelude.{
  ◌≡◌, ◌∷◌, true, some, refl, none, is_some, if◌then◌else◌, false, arith, all, [], String,
  Option-rule, List, Bool,
}
use open_kael.Gates.Rules.{breaks, panics}

-- A check that was made.
data Decided : Check → Type 0 where
  kept : Decided keeps
  broke : {why : String} → Decided (broken why)

if_broke : (b : Bool) (why : String) → Decided (if b then broken why else keeps)
if_broke true why = broke
if_broke false why = kept

if_kept : (b : Bool) (why : String) → Decided (if b then keeps else broken why)
if_kept true why = kept
if_kept false why = broke

module _ {F : Type 0} where
  abbrev pub is_num : Value F → Bool
  is_num (num x) = true
  is_num v = false

  -- Whether a value is of the kind that the gate takes a rule's own value for.
  unfoldable pub well_kinded : RuleKind → Value F → Bool
  well_kinded rule_max v = is_num v
  well_kinded rule_min v = is_num v
  well_kinded rule_max_product v = is_num v
  well_kinded k v = true

  abbrev pub is_well : ToolRule F → Bool
  is_well r = well_kinded r.kind r.value

module _ {F : Type 0} (t : Texts F) (n : Floats F) where
  limit-Decided :
      (v : Value F) (f : F → Check)
      → is_num v ≡ true
      → ((x : F) → Decided (f x))
      → Decided (limit t n v f)
  limit-Decided (num x) f h d = d x
  limit-Decided null f h d = cc
  limit-Decided (bool b) f h d = cc
  limit-Decided (str s) f h d = cc
  limit-Decided (arr a) f h d = cc
  limit-Decided (obj m) f h d = cc

  breaks_product-Decided :
      (r : ToolRule F) (input : Fields F)
      → is_num r.value ≡ true
      → Decided (breaks_product t n r input)
  unfolding breaks_product
  breaks_product-Decided r input h =
      Option-rule Decided (to_number t n (value_at r.input input))
        (λ a e.
          Option-rule Decided (to_number t n (value_at r.with_input input))
            (λ b e'. limit-Decided r.value _ h (λ most.
              if_broke
                (n.less (n.times n.billionth (n.max n.one (n.abs most)))
                  (n.minus (n.times a b) most))
                _))
            (λ e'. broke))
        (λ e. broke)

  breaks_value-Decided :
      (r : ToolRule F) (k : RuleKind) (v : Value F)
      → well_kinded k r.value ≡ true
      → Decided (breaks_value t n r k v)
  unfolding breaks_value breaks_max breaks_min well_kinded
  breaks_value-Decided r rule_max v h =
      Option-rule Decided (to_number t n v)
        (λ x e. limit-Decided r.value _ h (λ most. if_broke (n.less most x) _)) (λ e. kept)
  breaks_value-Decided r rule_min v h =
      Option-rule Decided (to_number t n v)
        (λ x e. limit-Decided r.value _ h (λ least. if_broke (n.less x least) _)) (λ e. kept)
  breaks_value-Decided r rule_one_of v h = if_kept (value_in t n r.value v) _
  breaks_value-Decided r rule_none_of v h = if_broke (value_in t n r.value v) _
  breaks_value-Decided r rule_max_product v h = kept
  breaks_value-Decided r rule_fixed v h = kept
  breaks_value-Decided r rule_default v h = kept
  breaks_value-Decided r (other_kind k) v h = kept

  breaks_given-Decided :
      (r : ToolRule F) (v : Value F) → is_well r ≡ true → Decided (breaks_given t n r v)
  breaks_given-Decided r null h = kept
  breaks_given-Decided r (bool b) h = breaks_value-Decided r r.kind (bool b) h
  breaks_given-Decided r (num x) h = breaks_value-Decided r r.kind (num x) h
  breaks_given-Decided r (str s) h = breaks_value-Decided r r.kind (str s) h
  breaks_given-Decided r (arr a) h = breaks_value-Decided r r.kind (arr a) h
  breaks_given-Decided r (obj m) h = breaks_value-Decided r r.kind (obj m) h

  breaks_rule-Decided :
      (r : ToolRule F) (k : RuleKind) (input : Fields F)
      → well_kinded k r.value ≡ true
      → is_well r ≡ true
      → Decided (breaks_rule t n r k input)
  unfolding breaks_rule well_kinded
  breaks_rule-Decided r rule_max_product input h w = breaks_product-Decided r input h
  breaks_rule-Decided r rule_max input h w = breaks_given-Decided r (value_at r.input input) w
  breaks_rule-Decided r rule_min input h w = breaks_given-Decided r (value_at r.input input) w
  breaks_rule-Decided r rule_one_of input h w = breaks_given-Decided r (value_at r.input input) w
  breaks_rule-Decided r rule_none_of input h w = breaks_given-Decided r (value_at r.input input) w
  breaks_rule-Decided r rule_fixed input h w = breaks_given-Decided r (value_at r.input input) w
  breaks_rule-Decided r rule_default input h w = breaks_given-Decided r (value_at r.input input) w
  breaks_rule-Decided r (other_kind k) input h w = breaks_given-Decided r (value_at r.input input) w

  first-Decided :
      {c later : Check}
      → Decided c
      → Decided later
      → Decided (elim c [ keeps ↦ later | broken why ↦ broken why | panics ↦ panics ])
  first-Decided kept d = d
  first-Decided broke d = broke

  breaks-Decided :
      (rules : List (ToolRule F)) (input : Fields F)
      → all is_well rules ≡ true
      → Decided (breaks t n rules input)
  unfolding breaks
  breaks-Decided [] input h = kept
  breaks-Decided (r ∷ rules) input h =
      first-Decided (breaks_rule-Decided r r.kind input (ground arith) (ground arith))
        (breaks-Decided rules input (ground arith))

  pub with_rules-is_some :
      {W : Type 0} (rules : List (ToolRule F)) (inner : Invoke F W) (w : W) (input : Fields F)
      → all is_well rules ≡ true
      → is_some (with_rules t n rules inner w input) ≡ true
  unfolding with_rules
  with_rules-is_some rules inner w input h = after (breaks-Decided rules input h)
    where
      after :
          {c : Check}
          → Decided c
          → is_some (elim c [
            | keeps ↦ some (inner w input)
            | broken why ↦ some (if is_empty why then inner w input else (refusal why, none, w))
            | panics ↦ none
          ])
            ≡ true
      after kept = refl
      after broke = refl
