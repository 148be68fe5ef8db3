-- ===== src/Gates/Limits.antt =====
-- domain/tool_rule.go: a call that breaks a rule is not made.
use mathlib.Core.List.{Memᴰ}
use open_kael.Prelude.{
  String, Bool, true, false, Option, none, some, List, [], ◌∷◌, ◌≡◌, refl, arith, if◌then◌else◌,
  all, if_rule, Option-rule,
}
use open_kael.Prelude.Text.{is_empty, is_empty-append, opens}
use open_kael.Values.{Value, null, num, Fields}
use open_kael.Outcome.{GoError}
use open_kael.Gates.{Invoke, Texts, Floats, refusal, Refused, value_at}
use open_kael.Gates.Rules.{
  RuleKind, rule_max, rule_max_product, rule_min, rule_one_of, rule_none_of, ToolRule, Check, keeps,
  broken, panics, refusal_text, breaks_product, breaks_max, breaks_min, breaks_value, breaks_rule,
  breaks, with_rules, to_number, value_in, limit, breaks_given,
}

-- A check that does not let a call through, with words to say so.
pub data Stops : Check → Type 0 where
  stops_broken : {why : String} → is_empty why ≡ false → Stops (broken why)
  stops_panics : Stops panics

-- What a call comes to that a rule stopped: the code panics, or the model is refused.
pub data Stopped {F W : Type 0} (w : W) : Option (Value F × Option GoError × W) → Type 0 where
  panicked : Stopped w none
  refused : {r : Value F × Option GoError × W} → Refused w r → Stopped w (some r)

-- Whether a check lets a call through.
abbrev pub lets_through : Check → Bool
lets_through keeps = true
lets_through c = false

-- A check that has words where it does not let a call through.
pub data Speaks : Check → Type 0 where
  keeps_it : Speaks keeps
  stops_it : {c : Check} → Stops c → Speaks c

first-Stops :
    (c later : Check)
    → Speaks c
    → (lets_through c ≡ true → Stops later)
    → Stops (elim c [ keeps ↦ later | broken why ↦ broken why | panics ↦ panics ])
first-Stops keeps later s h = h refl
first-Stops c later (stops_it (stops_broken e)) h = stops_broken e
first-Stops c later (stops_it stops_panics) h = stops_panics

through-keeps : (c : Check) → lets_through c ≡ true → c ≡ keeps
through-keeps keeps h = refl
through-keeps (broken why) h = cc
through-keeps panics h = cc

told :
    {F : Type 0} (r : ToolRule F) (standard : String)
    → is_empty standard ≡ false
    → Speaks (broken (refusal_text r standard))
unfolding refusal_text
told r standard h = stops_it (
    stops_broken
      (if_rule (λ s. is_empty s ≡ false) (is_empty r.message) (λ empty. h) (λ given. given)))

module _ {F : Type 0} (t : Texts F) (n : Floats F) where
  limit-Speaks :
      (r : ToolRule F) (v : Value F) (use_it : F → Check)
      → ((x : F) → Speaks (use_it x))
      → Speaks (limit t n v use_it)
  limit-Speaks r (num x) use_it h = h x
  limit-Speaks r _ use_it h = stops_it stops_panics

  breaks_product-Speaks : (r : ToolRule F) (input : Fields F) → Speaks (breaks_product t n r input)
  unfolding breaks_product
  breaks_product-Speaks r input =
      Option-rule Speaks (to_number t n (value_at r.input input))
        (λ a e.
          Option-rule Speaks (to_number t n (value_at r.with_input input))
            (λ b e'. limit-Speaks r r.value _ (λ most.
              if_rule Speaks
                (n.less (n.times n.billionth (n.max n.one (n.abs most)))
                  (n.minus (n.times a b) most))
                (λ over. told r _ (opens _ _ refl)) (λ within. keeps_it)))
            (λ e'. told r _ (opens _ _ refl)))
        (λ e. told r _ (opens _ _ refl))

  breaks_max-Speaks : (r : ToolRule F) (v : Value F) → Speaks (breaks_max t n r v)
  unfolding breaks_max
  breaks_max-Speaks r v =
      Option-rule Speaks (to_number t n v)
        (λ x e. limit-Speaks r r.value _ (λ most.
          if_rule Speaks (n.less most x) (λ over. told r _ (opens _ _ refl)) (λ within. keeps_it)))
        (λ e. keeps_it)

  breaks_min-Speaks : (r : ToolRule F) (v : Value F) → Speaks (breaks_min t n r v)
  unfolding breaks_min
  breaks_min-Speaks r v =
      Option-rule Speaks (to_number t n v)
        (λ x e. limit-Speaks r r.value _ (λ least.
          if_rule Speaks (n.less x least) (λ under. told r _ (opens _ _ refl))
            (λ within. keeps_it)))
        (λ e. keeps_it)

  breaks_value-Speaks :
      (r : ToolRule F) (kind : RuleKind) (v : Value F) → Speaks (breaks_value t n r kind v)
  unfolding breaks_value
  breaks_value-Speaks r rule_max v = breaks_max-Speaks r v
  breaks_value-Speaks r rule_min v = breaks_min-Speaks r v
  breaks_value-Speaks r rule_one_of v =
      if_rule Speaks (value_in t n r.value v) (λ within. keeps_it)
        (λ other. told r _ (opens _ _ refl))
  breaks_value-Speaks r rule_none_of v =
      if_rule Speaks (value_in t n r.value v)
        (λ within. told r _ (is_empty-append _ _ (opens _ _ refl))) (λ other. keeps_it)
  breaks_value-Speaks r _ v = keeps_it

  breaks_given-Speaks : (r : ToolRule F) (v : Value F) → Speaks (breaks_given t n r v)
  breaks_given-Speaks r null = keeps_it
  breaks_given-Speaks r _ = breaks_value-Speaks r r.kind _

  breaks_rule-Speaks :
      (r : ToolRule F) (kind : RuleKind) (input : Fields F) → Speaks (breaks_rule t n r kind input)
  unfolding breaks_rule
  breaks_rule-Speaks r rule_max_product input = breaks_product-Speaks r input
  breaks_rule-Speaks r _ input = breaks_given-Speaks r (value_at r.input input)

  -- The rules stop a call that one of them does not let through.
  breaks-Stops :
      (rules : List (ToolRule F)) (input : Fields F) (r : ToolRule F)
      → Memᴰ r rules
      → lets_through (breaks_rule t n r r.kind input) ≡ false
      → Stops (breaks t n rules input)
  unfolding breaks
  breaks-Stops [] input r m h = elim m [ ]
  breaks-Stops (q ∷ rules) input r (Memᴰ.head e) h =
      first-Stops _ _ (breaks_rule-Speaks q q.kind input) (λ through. cc)
  breaks-Stops (q ∷ rules) input r (Memᴰ.tail m) h =
      first-Stops _ _ (breaks_rule-Speaks q q.kind input)
        (λ through. breaks-Stops rules input r m h)

  first-Speaks :
      (c later : Check)
      → Speaks c
      → Speaks later
      → Speaks (elim c [ keeps ↦ later | broken why ↦ broken why | panics ↦ panics ])
  first-Speaks keeps later s h = h
  first-Speaks (broken why) later s h = s
  first-Speaks panics later s h = s

  -- The rules have words where they do not let a call through.
  pub breaks-Speaks :
      (rules : List (ToolRule F)) (input : Fields F) → Speaks (breaks t n rules input)
  unfolding breaks
  breaks-Speaks [] input = keeps_it
  breaks-Speaks (r ∷ rules) input =
      first-Speaks _ _ (breaks_rule-Speaks r r.kind input) (breaks-Speaks rules input)

  -- A call that breaks any one of the rules is not made: the model is refused and nothing changes,
  -- or the code panics first, at a limit that is no number.
  pub with_rules-Stopped :
      {W : Type 0} (rules : List (ToolRule F)) (inner : Invoke F W) (w : W) (input : Fields F)
      (r : ToolRule F)
      → Memᴰ r rules
      → lets_through (breaks_rule t n r r.kind input) ≡ false
      → Stopped w (with_rules t n rules inner w input)
  unfolding with_rules
  with_rules-Stopped rules inner w input r m h = stopped _ (breaks-Stops rules input r m h)
    where
      stopped :
          (c : Check)
          → Stops c
          → Stopped w (elim c [
            | keeps ↦ some (inner w input)
            | broken why ↦ some (if is_empty why then inner w input else (refusal why, none, w))
            | panics ↦ none
          ])
      stopped c (stops_broken {why} e) = rw e (refused (record { message = why; told = refl }))
      stopped c stops_panics = panicked

  breaks-keeps :
      (rules : List (ToolRule F)) (input : Fields F)
      → all (λ r. lets_through (breaks_rule t n r r.kind input)) rules ≡ true
      → breaks t n rules input ≡ keeps
  unfolding breaks
  breaks-keeps [] input h = refl
  breaks-keeps (r ∷ rules) input h =
      rw (through-keeps (breaks_rule t n r r.kind input) (ground arith), breaks)
        (breaks-keeps rules input (ground arith))

  -- A call that every rule lets through is made as it would be without rules.
  pub with_rules-runs :
      {W : Type 0} (rules : List (ToolRule F)) (inner : Invoke F W) (w : W) (input : Fields F)
      → all (λ r. lets_through (breaks_rule t n r r.kind input)) rules ≡ true
      → with_rules t n rules inner w input ≡ some (inner w input)
  unfolding with_rules
  with_rules-runs rules inner w input h = rw (breaks-keeps rules input h, with_rules) refl
