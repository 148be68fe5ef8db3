-- ===== src/Gates/Fixed.antt =====
-- domain/tool_rule.go: a value that a creator fixed is what the tool gets.
use text.Mathlib.TextPositions.{eq_refl}
use open_kael.Prelude.{
  String, Bool, true, false, ◌&&◌, some, List, [], ◌∷◌, ◌++◌, ◌≡◌, ◌∙◌, ap, refl, arith, any,
  if_rule,
}
use open_kael.Prelude.Text.{◌=ₛ◌, eq_iff}
use open_kael.Values.{Value, Fields, end, field, get}
use open_kael.Gates.Rules.{
  RuleKind, rule_fixed, rule_default, ToolRule, set, not_given, is_pin, pin, pins, apply_pins,
}

-- A pin on an input.
abbrev pub pins_input : {F : Type 0} → String → ToolRule F → Bool
pins_input name r = is_pin r.kind && r.input =ₛ name

module _ {F : Type 0} where
  get-set : (k : String) (v : Value F) (m : Fields F) → get k (set k v m) ≡ some v
  unfolding get set
  get-set k v end = rw (eq_refl k)
  get-set k v (field j w rest) =
      if_rule (λ m. get k m ≡ some v) (j =ₛ k) (λ same. rw (eq_refl k) refl)
        (λ other. rw other (get-set k v rest))

  get-set-other :
      (k j : String) (v : Value F) (m : Fields F) → (j =ₛ k) ≡ false → get k (set j v m) ≡ get k m
  unfolding get set
  get-set-other k j v end h = rw h
  get-set-other k j v (field i w rest) h =
      if_rule (λ m. get k m ≡ get k (field i w rest)) (i =ₛ j) (λ same. ground (arith, eq_iff i j))
        (λ other. ground (arith, get-set-other k j v rest h))

  get-pin :
      (r : ToolRule F) (kind : RuleKind) (k : String) (out : Fields F)
      → (is_pin kind && r.input =ₛ k) ≡ false
      → get k (pin r kind out) ≡ get k out
  unfolding pin
  get-pin r rule_fixed k out h = get-set-other k r.input r.value out h
  get-pin r rule_default k out h =
      if_rule (λ m. get k m ≡ get k out) (not_given (get r.input out))
        (λ yes. get-set-other k r.input r.value out h) (λ no. refl)
  get-pin r _ k out h = refl

  get-pins :
      (rules : List (ToolRule F)) (k : String) (out : Fields F)
      → any (pins_input k) rules ≡ false
      → get k (pins rules out) ≡ get k out
  unfolding pins
  get-pins [] k out h = refl
  get-pins (r ∷ rules) k out h =
      get-pins rules k (pin r r.kind out) (ground arith) ∙ get-pin r r.kind k out (ground arith)

  pins-append :
      (rules after : List (ToolRule F)) (out : Fields F)
      → pins (rules ++ after) out ≡ pins after (pins rules out)
  unfolding pins
  pins-append [] after out = refl
  pins-append (r ∷ rules) after out = pins-append rules after (pin r r.kind out)

  some_pin :
      (rules : List (ToolRule F)) (r : ToolRule F) (after : List (ToolRule F))
      → r.kind ≡ rule_fixed
      → any (λ q. is_pin q.kind) (rules ++ r ∷ after) ≡ true
  some_pin [] r after h = ground arith
  some_pin (q ∷ rules) r after h = ground (arith, some_pin rules r after h)

  get-pin-fixed :
      (r : ToolRule F) (kind : RuleKind) (out : Fields F)
      → kind ≡ rule_fixed
      → get r.input (pin r kind out) ≡ some r.value
  unfolding pin
  get-pin-fixed r kind out h = rw h (get-set r.input r.value out)

  -- A fixed value is what the tool gets, whatever the model gave, where no later rule fixes or
  -- defaults the same input.
  apply_pins-fixed :
      (rules : List (ToolRule F)) (input : Fields F) (r : ToolRule F) (after : List (ToolRule F))
      → r.kind ≡ rule_fixed
      → any (pins_input r.input) after ≡ false
      → get r.input (apply_pins (rules ++ r ∷ after) input) ≡ some r.value
  unfolding apply_pins pins
  apply_pins-fixed rules input r after h free = rw (some_pin rules r after h) (
      ap (get r.input) (pins-append rules (r ∷ after) input)
      ∙ get-pins after r.input (pin r r.kind (pins rules input)) free
      ∙ get-pin-fixed r r.kind (pins rules input) h)
