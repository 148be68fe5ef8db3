-- ===== src/Hydrate/Skills/Order.antt =====
-- domain/hydrate.go: an ability does not run before what its own tool must come after.
use open_kael.Gates.Waiting.{invoke_after-refuses}
use open_kael.Prelude.Search.{any-Passes}
use open_kael.Hydrate.Skills.Waits.{model_names, waiting}
use open_kael.Outcome.{is_nil}
use text.Mathlib.TextPositions.{eq_refl}
use open_kael.Hydrate.Skills.Waits.{
  with_first, with_any, waits_for, wait_for, tool_id_of, rules_before, prerequisites_of,
  others_held, first_rule, any_rule,
}
use open_kael.Tools.{ToolDefinition}
use open_kael.Hydrate.{Turn, Run}
use open_kael.Gates.Prerequisites.{rule_holds, Prerequisite}
use mathlib.Core.List.{Memᴰ}
use open_kael.Gates.{refusal, Texts, Floats}
use open_kael.Values.{Fields}
use open_kael.Gates.Journal.{has_run, Ctx}
use open_kael.Hydrate.Skills.{Ability}
use open_kael.Prelude.Text.{eq_iff, ◌=ₛ◌}
use open_kael.Prelude.{
  any-append, all-append, ◌≡◌, ◌∷◌, ◌||◌, true, some, refl, not, none, lookup, if_rule, has, false,
  arith, any, all, [], String, List, Bool, ◌++◌, ◌&&◌,
}

-- Whether a rule waits for any run of a tool, and for nothing else.
abbrev only_waits : String → Prerequisite → Bool
only_waits first r = waits_for first r && is_nil r.one_of

is_nil-nil : {A : Type 0} (xs : List A) → is_nil xs ≡ true → xs ≡ []
is_nil-nil [] h = refl
is_nil-nil (x ∷ xs) h = cc

-- Of the rules that creators write, none waits for one of several.
abbrev pub Plain : List Prerequisite → Type 0
Plain rules = all (λ p. is_nil p.one_of) rules ≡ true

rules_before-Plain :
    (id : String) (rules : List Prerequisite) → Plain rules → Plain (rules_before id rules)
unfolding rules_before
rules_before-Plain id [] h = refl
rules_before-Plain id (p ∷ rules) h =
    let rest = rules_before-Plain id rules (ground arith) in
    if_rule Plain (p.before =ₛ id) (λ its. ground arith) (λ other. rest)

any-Plain :
    (first : String) (rules : List Prerequisite)
    → Plain rules
    → any (waits_for first) rules ≡ true
    → any (only_waits first) rules ≡ true
any-Plain first [] h w = w
any-Plain first (p ∷ rules) h w = ground (arith, any-Plain first rules)

-- What is waited for stays so when more is.
with_first-keeps :
    (p : Prerequisite → Bool) (id : String) (held : List String) (rules : List Prerequisite)
    (firsts : List String)
    → any p rules ≡ true
    → any p (with_first id held rules firsts) ≡ true
unfolding with_first
with_first-keeps p id held rules [] h = h
with_first-keeps p id held rules (f ∷ firsts) h =
    if_rule (λ rs. any p rs ≡ true) (not (has f held) || f =ₛ id || any (waits_for f) rules)
      (λ skipped. with_first-keeps p id held rules firsts h)
      (λ added.
        with_first-keeps p id held (rules ++ first_rule id f ∷ []) firsts
          (ground (arith, any-append p rules (first_rule id f ∷ []))))

with_first-waits :
    (first id : String) (held : List String) (rules : List Prerequisite) (firsts : List String)
    → Memᴰ first firsts
    → has first held ≡ true
    → (first =ₛ id) ≡ false
    → Plain rules
    → any (only_waits first) (with_first id held rules firsts) ≡ true
unfolding with_first
with_first-waits first id held rules [] m h other plain = elim m [ ]
with_first-waits first id held rules (f ∷ firsts) m h other plain =
    let appended : Plain (rules ++ first_rule id f ∷ []) =
      ground (arith, all-append (λ p. is_nil p.one_of) rules (first_rule id f ∷ [])) in
    if_rule (λ rs. any (only_waits first) rs ≡ true)
      (not (has f held) || f =ₛ id || any (waits_for f) rules)
      (λ skipped. elim m [
        | Memᴰ.head e ↦
            with_first-keeps (only_waits first) id held rules firsts
              (any-Plain first rules plain (rw e (ground arith)))
        | Memᴰ.tail m ↦ with_first-waits first id held rules firsts m h other plain
      ])
      (λ added. elim m [
        | Memᴰ.head e ↦
            with_first-keeps (only_waits first) id held (rules ++ first_rule id f ∷ []) firsts (
              ground
                (arith, e, eq_refl f, any-append (only_waits first) rules (first_rule id f ∷ [])))
        | Memᴰ.tail m ↦
            with_first-waits first id held (rules ++ first_rule id f ∷ []) firsts m h other appended
      ])

with_any-keeps :
    (p : Prerequisite → Bool) (id : String) (rules : List Prerequisite) (xs : List String)
    → any p rules ≡ true
    → any p (with_any id rules xs) ≡ true
with_any-keeps p id rules [] h = h
with_any-keeps p id rules (x ∷ xs) h =
    ground (arith, any-append p rules (any_rule id (x ∷ xs) ∷ []))

prerequisites_of-waits :
    (said : List Prerequisite) (tools : List (String × ToolDefinition)) (held : List String)
    (id first : String) (def : ToolDefinition)
    → lookup id tools ≡ some def
    → Memᴰ first def.first
    → has first held ≡ true
    → (first =ₛ id) ≡ false
    → Plain said
    → any (only_waits first) (prerequisites_of said tools held id) ≡ true
unfolding prerequisites_of
prerequisites_of-waits said tools held id first def found m h other plain =
    rw (found, prerequisites_of)
      (with_any-keeps (only_waits first) id (with_first id held (rules_before id said) def.first)
        (others_held id held def.first_any)
        (with_first-waits first id held (rules_before id said) def.first m h other
          (rules_before-Plain id said plain)))

module _ {F W : Type 0} (t : Texts F) (n : Floats F) where
  only_waits-fails :
      (s : Ctx F W) (input : Fields F) (first : String) (r : Prerequisite)
      → only_waits first r ≡ true
      → has_run t n s.journal first [] input ≡ false
      → rule_holds t n s input r ≡ false
  unfolding rule_holds
  only_waits-fails s input first r h no_run =
      let same = is_nil-nil r.same (ground arith) in
      let asked : r.first ≡ first = (eq_iff r.first first).0 (ground arith) in
      if_rule (λ b. b ≡ false) (is_nil r.one_of) (λ alone. rw (asked, same) no_run)
        (λ several. ground arith)

module _ {F C W : Type 0} (t : Texts F) (n : Floats F) where
  waiting-refuses :
      (a : Ability F C W) (rules : List Prerequisite) (names : List (String × String))
      (turn : Turn C W) (s : Run F W) (input : Fields F) (r : Prerequisite)
      → Memᴰ r rules
      → rule_holds t n s input r ≡ false
      → (message : String) × ((waiting t n a rules names).invoke turn s input
          ≡ some (refusal message, none, s))
  unfolding waiting
  waiting-refuses a [] names turn s input r m h = elim m [ ]
  waiting-refuses a (q ∷ rules) names turn s input r m h =
      invoke_after-refuses t n names (λ back. some back) a.spec.name (q ∷ rules) (a.invoke turn) s
        input r m h

  -- An ability whose tool must come after another tool of the agent is refused to the model, without
  -- running, while the other has not run in this reply, where no rule of the creator's waits for one
  -- of several.
  pub wait_for-refuses :
      (said : List Prerequisite) (tools : List (String × ToolDefinition)) (held : List String)
      (a : Ability F C W) (first : String) (def : ToolDefinition) (turn : Turn C W) (s : Run F W)
      (input : Fields F)
      → lookup (tool_id_of tools a.spec.name) tools ≡ some def
      → Memᴰ first def.first
      → has first held ≡ true
      → (first =ₛ tool_id_of tools a.spec.name) ≡ false
      → Plain said
      → has_run t n s.journal first [] input ≡ false
      → (message : String) × ((wait_for t n said tools held a).invoke turn s input
          ≡ some (refusal message, none, s))
  unfolding wait_for
  wait_for-refuses said tools held a first def turn s input found m h other plain no_run =
      let id = tool_id_of tools a.spec.name in
      let (r, at, waits) =
        any-Passes (only_waits first) (prerequisites_of said tools held id)
          (prerequisites_of-waits said tools held id first def found m h other plain) in
      waiting-refuses a (prerequisites_of said tools held id) (model_names tools) turn s input r at
        (only_waits-fails t n s input first r waits no_run)
