-- ===== src/Gates/SavedRules/Whole.antt =====
-- domain/tool_rule.go: what holds of the rules that are saved.
use open_kael.Gates.SavedRules.Kinds.{normalize_rule-OkIf}
use open_kael.Gates.SavedRules.{normalize_rule, max_rules_per_tool}
use open_kael.Gates.SavedRules.Calm.{with_rules-is_some, is_num, well_kinded, is_well}
use open_kael.Tools.{ToolDefinition}
use open_kael.Gates.SavedRules.Together.{
  nothing_seen, if_uncrossed, crossed, with_number, slot_of, normalize_rules, keep_rules,
  keep_product, keep_pin, keep_min, keep_max, keep_kind, keep_counted, how_many, has_product,
  count_it, at_slot, Seen,
}
use open_kael.Gates.Rules.{
  rules_of_tool, with_rules, rule_one_of, rule_none_of, rule_min, rule_max_product, rule_max,
  rule_fixed, rule_default, other_kind, ToolRule, RuleKind,
}
use open_kael.Gates.{Texts, Invoke, Floats}
use open_kael.Values.{str, obj, num, null, bool, arr, Value, Fields}
use open_kael.Prelude.Text.{eq_iff, ◌=ₛ◌}
use open_kael.Prelude.{
  ◌≤◌, ◌≡◌, ◌∷◌, ℕ, ◌||◌, true, some, refl, ok, none, ltb, lookup, length, is_some, if_rule,
  if◌then◌else◌, good, false, bad, arith, all-append, all, [], String, Result, Option-rule, Option,
  OkIf, List, ◌++◌, ◌+◌,
}

module _ {F : Type 0} where
  -- The rules kept so far: each well, and counted by tool, at most so many of each.
  record Well (kept : List (ToolRule F)) (per_tool : List (String × ℕ)) : Type 0 where
    well : all is_well kept ≡ true
    counted : (id : String) → length (rules_of_tool id kept) ≡ how_many id per_tool
    bounded : (id : String) → how_many id per_tool ≤ max_rules_per_tool

  -- A step of the loop, which does not panic.
  data Keeps : Option (Result (Seen F)) → Type 0 where
    refuses : {e : String} → Keeps (some (bad e))
    keeps_on : {s : Seen F} → Well s.kept s.per_tool → Keeps (some (ok s))

  length-rules_of_tool :
      (id : String) (kept : List (ToolRule F)) (r : ToolRule F)
      → length (rules_of_tool id (kept ++ r ∷ []))
        ≡ length (rules_of_tool id kept) + (if r.tool_id =ₛ id then 1 else 0)
  unfolding rules_of_tool
  length-rules_of_tool id [] r = ground arith
  length-rules_of_tool id (q ∷ kept) r = ground (arith, length-rules_of_tool id kept r)

  how_many-count :
      (id : String) (r : ToolRule F) (s : Seen F)
      → how_many id (count_it r s).per_tool
        ≡ how_many id s.per_tool + (if r.tool_id =ₛ id then 1 else 0)
  unfolding lookup
  how_many-count id r s = ground (arith, eq_iff r.tool_id id)

  one_more-Well :
      (r : ToolRule F) (s : Seen F)
      → is_well r ≡ true
      → Well s.kept s.per_tool
      → ltb max_rules_per_tool (how_many r.tool_id (count_it r s).per_tool) ≡ false
      → Well (s.kept ++ r ∷ []) (count_it r s).per_tool
  one_more-Well r s w q few = record {
    well = ground (arith, all-append is_well s.kept (r ∷ []), q.well);
    counted = λ id. rw (length-rules_of_tool id s.kept r, how_many-count id r s, q.counted id) refl;
    bounded = λ id. ground (arith, how_many-count id r s, q.bounded id, eq_iff r.tool_id id);
  }

  with_number-Keeps :
      (v : Value F) (f : F → Seen F)
      → is_num v ≡ true
      → ((x : F) → Keeps (some (ok (f x))))
      → Keeps (with_number v f)
  with_number-Keeps (num x) f h k = k x
  with_number-Keeps null f h k = cc
  with_number-Keeps (bool b) f h k = cc
  with_number-Keeps (str s) f h k = cc
  with_number-Keeps (arr a) f h k = cc
  with_number-Keeps (obj m) f h k = cc

  keep_kind-Keeps :
      (k : RuleKind) (r : ToolRule F) (s : Seen F)
      → well_kinded k r.value ≡ true
      → Well (s.kept ++ r ∷ []) s.per_tool
      → Keeps (keep_kind k r s)
  unfolding keep_kind keep_pin keep_product keep_max keep_min well_kinded
  keep_kind-Keeps rule_fixed r s h w =
      Option-rule Keeps (at_slot (slot_of r) s.pinned) (λ prev e. refuses) (λ e. keeps_on w)
  keep_kind-Keeps rule_default r s h w =
      Option-rule Keeps (at_slot (slot_of r) s.pinned) (λ prev e. refuses) (λ e. keeps_on w)
  keep_kind-Keeps rule_max_product r s h w =
      if_rule Keeps
        (has_product r.tool_id (r.input, r.with_input) s.products
          || has_product r.tool_id (r.with_input, r.input) s.products)
        (λ had. refuses) (λ fresh. keeps_on w)
  keep_kind-Keeps rule_max r s h w =
      Option-rule Keeps (at_slot (slot_of r) s.maxes) (λ x e. refuses)
        (λ e. with_number-Keeps r.value _ h (λ x. keeps_on w))
  keep_kind-Keeps rule_min r s h w =
      Option-rule Keeps (at_slot (slot_of r) s.mins) (λ x e. refuses)
        (λ e. with_number-Keeps r.value _ h (λ x. keeps_on w))
  keep_kind-Keeps rule_one_of r s h w = keeps_on w
  keep_kind-Keeps rule_none_of r s h w = keeps_on w
  keep_kind-Keeps (other_kind k) r s h w = keeps_on w

module _ {F : Type 0} (t : Texts F) (n : Floats F) where
  keep_counted-Keeps :
      (r : ToolRule F) (s : Seen F)
      → is_well r ≡ true
      → Well s.kept s.per_tool
      → Keeps (keep_counted t n r (count_it r s))
  unfolding keep_counted
  keep_counted-Keeps r s h w =
      if_rule Keeps (ltb max_rules_per_tool (how_many r.tool_id (count_it r s).per_tool))
        (λ many. refuses)
        (λ few. keep_kind-Keeps r.kind r (count_it r s) h (one_more-Well r s h w few))

  keep_rules-Keeps :
      (rules : List (ToolRule F)) (tools : List (String × ToolDefinition)) (s : Seen F)
      → Well s.kept s.per_tool
      → Keeps (keep_rules t n rules tools s)
  unfolding keep_rules
  keep_rules-Keeps [] tools s w = keeps_on w
  keep_rules-Keeps (r ∷ rules) tools s w =
      after (normalize_rule t n r (lookup r.tool_id tools))
        (normalize_rule-OkIf t n r (lookup r.tool_id tools))
        (λ s' w'. keep_rules-Keeps rules tools s' w')
    where
      more :
          (c : Option (Result (Seen F)))
          → Keeps c
          → ((s' : Seen F) → Well s'.kept s'.per_tool → Keeps (keep_rules t n rules tools s'))
          → Keeps (elim c [
            | none ↦ none
            | some (bad e) ↦ some (bad e)
            | some (ok s') ↦ keep_rules t n rules tools s'
          ])
      more none k loop = elim k [ ]
      more (some (bad e)) k loop = refuses
      more (some (ok s')) (keeps_on w') loop = loop s' w'

      after :
          (c : Result (ToolRule F))
          → OkIf is_well c
          → ((s' : Seen F) → Well s'.kept s'.per_tool → Keeps (keep_rules t n rules tools s'))
          → Keeps (elim c [
            | bad e ↦ some (bad e)
            | ok r' ↦ elim (keep_counted t n r' (count_it r' s)) [
              | none ↦ none
              | some (bad e) ↦ some (bad e)
              | some (ok s') ↦ keep_rules t n rules tools s'
            ]
          ])
      after (bad e) o loop = refuses
      after (ok r') (good h) loop =
          more (keep_counted t n r' (count_it r' s)) (keep_counted-Keeps r' s h w) loop

  -- What the check of a set of rules may come to: it is refused, or the rules are saved.
  pub data Saved (W : Type 0) : Option (Result (List (ToolRule F))) → Type 0 where
    refused : {e : String} → Saved W (some (bad e))
    saved :
        {rules : List (ToolRule F)}
        → ((id : String) → length (rules_of_tool id rules) ≤ max_rules_per_tool)
        → ((inner : Invoke F W) (w : W) (input : Fields F)
            → is_some (with_rules t n rules inner w input) ≡ true)
        → all is_well rules ≡ true
        → Saved W (some (ok rules))

  -- The check of a creator's rules does not panic, whatever they are. Rules that it accepts are at
  -- most twenty for each tool, each limit of them is a number, and the gate that keeps them never panics.
  pub normalize_rules-Saved :
      (W : Type 0) (rules : List (ToolRule F)) (tools : List (String × ToolDefinition))
      → Saved W (normalize_rules t n rules tools)
  unfolding normalize_rules rules_of_tool lookup
  normalize_rules-Saved W rules tools =
      after (keep_rules t n rules tools nothing_seen)
        (keep_rules-Keeps rules tools nothing_seen none_yet)
    where
      none_yet : Well {F = F} [] []
      none_yet = record { well = refl; counted = λ id. refl; bounded = λ id. omega arith }

      uncrossed :
          (s : Seen F) (c : Option String)
          → Well s.kept s.per_tool
          → Saved W (some (if_uncrossed s c))
      uncrossed s (some e) w = refused
      uncrossed s none w =
          saved (λ id. ground (arith, w.counted id, w.bounded id))
            (λ inner world input. with_rules-is_some t n s.kept inner world input w.well) w.well

      after :
          (c : Option (Result (Seen F)))
          → Keeps c
          → Saved W (elim c [
            | none ↦ none
            | some (bad e) ↦ some (bad e)
            | some (ok s) ↦ some (if_uncrossed s (crossed t n s.maxes s.mins))
          ])
      after none k = elim k [ ]
      after (some (bad e)) k = refused
      after (some (ok s)) (keeps_on w) = uncrossed s (crossed t n s.maxes s.mins) w
