-- ===== src/Hydrate/Skills/Granted.antt =====
-- domain/hydrate.go: what a capability ends up with.
use mathlib.Core.List.{Memᴰ}
use mathlib.Core.List.Memᴰ
use open_kael.Tools.{model_name, ToolDefinition, Integration}
use open_kael.Gates.{Texts, Floats}
use open_kael.Hydrate.Skills.{
  names_bound, runs_here, more_bound, hydrate_tools, hydrate_tool, comes_with, bind_named,
  bind_granted_tools, bind_granted, and_then, Stored, Skill, Agent, Ability,
}
use open_kael.Prelude.Text.{◌=ₛ◌}
use mathlib.Core.Path.{subst}
use open_kael.Prelude.{
  ◌++◌, sym, sym, ◌≡◌, ◌∷◌, ◌||◌, true, some, refl, ok, not, none, lookup, inr, inl, if_rule, has,
  false, bad, arith, [], String, Result, Option-rule, Option, List, ◌&&◌,
}

module _ {F C W : Type 0} (t : Texts F) (n : Floats F) (agent : Agent F) (skill : Skill F)
    (stored : Stored F W) where
  -- How an ability came to be one of the capability's.
  pub data Granted (a : Ability F C W) : Type 0 where
    named :
        (id : String) (left : List String) (def : ToolDefinition) (integration : Integration)
        → Memᴰ id skill.tools
        → lookup id stored.tools_by_id ≡ some def
        → def.disabled ≡ false
        → hydrate_tool t n agent skill stored left def integration ≡ some (ok a)
        → Granted a
    comes :
        (id key : String) (def : ToolDefinition) (integration : Integration)
        → Memᴰ id skill.integrations
        → Memᴰ (key, def) stored.tools_by_id
        → (def.integration_id =ₛ id) ≡ true
        → def.disabled ≡ false
        → (has id skill.limited_integrations ≡ true
            → (def.read_only ≡ true) × (skill.all_look_ups ≡ true))
        → hydrate_tool t n agent skill stored [] def integration ≡ some (ok a)
        → Granted a

-- What may come of binding: a panic, an error, or abilities of which each is as `P` says.
pub data Abilities {F C W : Type 0} (P : Ability F C W → Type 0)
    : Option (Result (List (Ability F C W))) → Type 0 where
  panicked : Abilities P none
  refused : {why : String} → Abilities P (some (bad why))
  bound :
      {bs : List (Ability F C W)}
      → ((a : Ability F C W) → Memᴰ a bs → P a)
      → Abilities P (some (ok bs))

module _ {F C W : Type 0} (P : Ability F C W → Type 0) where
  and_then-Abilities :
      (r : Option (Result (Ability F C W))) (rest : Option (Result (List (Ability F C W))))
      → ((a : Ability F C W) → r ≡ some (ok a) → P a)
      → Abilities P rest
      → Abilities P (and_then r rest)
  and_then-Abilities none rest h q = panicked
  and_then-Abilities (some (bad why)) rest h q = refused
  and_then-Abilities (some (ok a)) none h q = panicked
  and_then-Abilities (some (ok a)) (some (bad why)) h q = refused
  and_then-Abilities (some (ok a)) (some (ok bs)) h (bound q) =
      bound (λ b m. elim m [ Memᴰ.head e ↦ subst P (sym e) (h a refl) | Memᴰ.tail m ↦ q b m ])

  more_bound-Abilities :
      (before : List (Ability F C W)) (rest : Option (Result (List (Ability F C W))))
      → ((a : Ability F C W) → Memᴰ a before → P a)
      → Abilities P rest
      → Abilities P (more_bound before rest)
  more_bound-Abilities before none h q = panicked
  more_bound-Abilities before (some (bad why)) h q = refused
  more_bound-Abilities before (some (ok bs)) h (bound q) =
      bound (λ b m. elim (Memᴰ.append_cases before m) [ inl m ↦ h b m | inr m ↦ q b m ])

  -- Binding some and then more.
  after_bound :
      (r : Option (Result (List (Ability F C W))))
      {k : List (Ability F C W) → Option (Result (List (Ability F C W)))}
      → Abilities P r
      → ((bs : List (Ability F C W)) → Abilities P (k bs))
      → Abilities P (elim r [
        | none ↦ none
        | some (bad why) ↦ some (bad why)
        | some (ok bs) ↦ more_bound bs (k bs)
      ])
  after_bound none q k = panicked
  after_bound (some (bad why)) q k = refused
  after_bound (some (ok bs)) (bound q) k = more_bound-Abilities bs _ q (k bs)

module _ {F C W : Type 0} (t : Texts F) (n : Floats F) (agent : Agent F) (skill : Skill F)
    (stored : Stored F W) where
  bind_named-Granted :
      (ids : List String)
      → ((id : String) → Memᴰ id ids → Memᴰ id skill.tools)
      → Abilities {F = F} {C = C}
          (Granted t n agent skill stored)
          (bind_named t n agent skill stored ids)
  unfolding bind_named
  bind_named-Granted [] h = bound (λ a m. elim m [ ])
  bind_named-Granted (id ∷ ids) h =
      let rest = bind_named-Granted ids (λ i m. h i (Memᴰ.tail m)) in
      let G = Abilities {F = F} {C = C} (Granted t n agent skill stored) in
      Option-rule G (lookup id stored.tools_by_id)
        (λ def found.
          if_rule G def.disabled (λ off. rest)
            (λ on.
              Option-rule G (lookup def.integration_id stored.integrations_by_id)
                (λ integration there.
                  if_rule G (runs_here stored.registry integration)
                    (λ runs.
                      and_then-Abilities (Granted t n agent skill stored) _ _
                        (λ a e.
                          named id (id ∷ ids) def integration (h id (Memᴰ.head refl)) found on e)
                        rest)
                    (λ absent. rest))
                (λ missing. refused)))
        (λ missing. refused)

  bind_granted_tools-Granted :
      (integration : Integration) (id : String) (seen : List String)
      (tools : List (String × ToolDefinition))
      → Memᴰ id skill.integrations
      → (has id skill.limited_integrations ≡ true → skill.all_look_ups ≡ true)
      → ((p : String × ToolDefinition) → Memᴰ p tools → Memᴰ p stored.tools_by_id)
      → Abilities {F = F} {C = C} (Granted t n agent skill stored) (
          bind_granted_tools t n agent skill stored integration id
            (has id skill.limited_integrations)
            seen
            tools)
  unfolding bind_granted_tools comes_with
  bind_granted_tools-Granted integration id seen [] i wide h = bound (λ a m. elim m [ ])
  bind_granted_tools-Granted integration id seen ((key, def) ∷ tools) i wide h =
      let G = Abilities {F = F} {C = C} (Granted t n agent skill stored) in
      if_rule G
        (not (comes_with id (has id skill.limited_integrations) def) || has (model_name def) seen)
        (λ skipped.
          bind_granted_tools-Granted integration id seen tools i wide (λ p m. h p (Memᴰ.tail m)))
        (λ taken.
          and_then-Abilities (Granted t n agent skill stored) _ _
            (λ a e.
              comes id key def integration i (h (key, def) (Memᴰ.head refl)) (ground arith)
                (ground arith) (λ limited. (ground arith, wide limited)) e)
            (bind_granted_tools-Granted integration id (model_name def ∷ seen) tools i wide
              (λ p m. h p (Memᴰ.tail m))))

  bind_granted-Granted :
      (seen ids : List String)
      → ((id : String) → Memᴰ id ids → Memᴰ id skill.integrations)
      → Abilities {F = F} {C = C}
          (Granted t n agent skill stored)
          (bind_granted t n agent skill stored seen ids)
  unfolding bind_granted
  bind_granted-Granted seen [] h = bound (λ a m. elim m [ ])
  bind_granted-Granted seen (id ∷ ids) h =
      let G = Abilities {F = F} {C = C} (Granted t n agent skill stored) in
      let skipped = bind_granted-Granted seen ids (λ i m. h i (Memᴰ.tail m)) in
      if_rule G (has id skill.limited_integrations && not skill.all_look_ups) (λ narrow. skipped)
        (λ wide.
          Option-rule G (lookup id stored.integrations_by_id)
            (λ integration there.
              if_rule G (runs_here stored.registry integration)
                (λ runs.
                  after_bound (Granted t n agent skill stored) _
                    (bind_granted_tools-Granted integration id seen stored.tools_by_id
                      (h id (Memᴰ.head refl)) (λ limited. ground arith) (λ p m. m))
                    (λ bs.
                      bind_granted-Granted (names_bound bs ++ seen) ids (λ i m. h i (Memᴰ.tail m))))
                (λ absent. skipped))
            (λ missing. refused))

  -- Every ability that a capability ends up with is hydrated from a stored tool that is not disabled,
  -- and that the capability names, or that belongs to an integration it is granted; of an integration
  -- that it has limited, an ability which it does not name only looks things up, and is there only where
  -- the capability may use all look-ups.
  pub hydrate_tools-Granted :
      Abilities {F = F} {C = C}
        (Granted t n agent skill stored)
        (hydrate_tools t n agent skill stored)
  unfolding hydrate_tools
  hydrate_tools-Granted =
      after_bound (Granted t n agent skill stored) _ (bind_named-Granted skill.tools (λ i m. m))
        (λ bs. bind_granted-Granted _ skill.integrations (λ i m. m))
