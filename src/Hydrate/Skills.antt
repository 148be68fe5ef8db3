-- ===== src/Hydrate/Skills.antt =====
-- domain/hydrate.go: `HydrateSkillTools`, which of the stored tools a capability can use, and what
-- each of them waits for. A map that the code goes through is gone through in the order in which it is
-- listed; an action carries the turn that it runs in, and may panic.
pub mod Granted
pub mod Waits
pub mod Order
use open_kael.Outcome.{is_nil}
use open_kael.Gates.Rules.{rules_of_tool, ToolRule}
use open_kael.Gates.Prerequisites.{Prerequisite}
use open_kael.Hydrate.Bind.{bind_tool, Tool, Handler}
use open_kael.Gates.{Texts, Floats}
use open_kael.Hydrate.{executor_for, ExecutorRegistry}
use open_kael.Tools.{reads, model_name, changes, ToolDefinition, Integration, Identity, Effect}
use open_kael.Loop.{ActionSpec}
use open_kael.Prelude.Text.{◌=ₛ◌, ◌<>◌}
use open_kael.Prelude.{
  ◌||◌, map_ok, map, has, ◌&&◌, ◌∷◌, true, some, ok, not, none, lookup, is_some, if◌then◌else◌,
  false, bad, [], String, Result, Option, List, Bool, ◌++◌,
}

-- `Skill` and `Agent`, as far as hydration looks.
pub record Skill (F : Type 0) : Type 0 where
  pub id : String
  pub tools : List String
  pub integrations : List String
  pub limited_integrations : List String
  pub all_look_ups : Bool
  pub rules : List (ToolRule F)
  pub prerequisites : List Prerequisite

pub record Agent (F : Type 0) : Type 0 where
  pub identity_ids : List String
  pub rules : List (ToolRule F)

-- `BoundAction`.
pub record Ability (F C W : Type 0) : Type 0 where
  pub spec : ActionSpec
  pub invoke : Handler F C W
  pub needs : List String
  pub app : String
  pub app_name : String
  pub with_look_ups : List String
  pub declared : Bool
  pub limited : Bool

-- The maps that hydration looks things up in.
pub record Stored (F W : Type 0) : Type 0 where
  pub tools_by_id : List (String × ToolDefinition)
  pub identities_by_id : List (String × Identity)
  pub integrations_by_id : List (String × Integration)
  pub registry : Option (ExecutorRegistry F W)

-- `rulesFor`.
abbrev pub rules_for : {F : Type 0} → Agent F → Skill F → String → List (ToolRule F)
rules_for agent skill tool_id =
    rules_of_tool tool_id agent.rules ++ rules_of_tool tool_id skill.rules

-- The first of an agent's identities that is of the integration.
unfoldable pub own_identity : List (String × Identity) → Integration → List String → Option Identity
own_identity identities integration [] = none
own_identity identities integration (id ∷ ids) =
    let rest = own_identity identities integration ids in
    elim (lookup id identities) [
      | none ↦ rest
      | some i ↦ if i.integration_id =ₛ integration.id then some i else rest
    ]

unfoldable pub any_identity : Integration → List (String × Identity) → Option Identity
any_identity integration [] = none
any_identity integration ((id, i) ∷ identities) =
    let rest = any_identity integration identities in
    if i.integration_id =ₛ integration.id then some i else rest

-- `resolveIdentityForIntegration`.
unfoldable pub resolve_identity :
    {F : Type 0} → Agent F → Integration → List (String × Identity) → Option Identity
resolve_identity agent integration identities =
    elim (own_identity identities integration agent.identity_ids) [
      | some i ↦ some i
      | none ↦ any_identity integration identities
    ]

module _ {F W : Type 0} where
  -- `runsHere`.
  unfoldable pub runs_here : Option (ExecutorRegistry F W) → Integration → Bool
  runs_here none integration = false
  runs_here (some registry) integration = is_some (executor_for registry integration.service)

-- The look-ups that come with a tool, by the names that the model calls them.
unfoldable pub names_of : List (String × ToolDefinition) → List String → List String
names_of tools [] = []
names_of tools (id ∷ ids) =
    let rest = names_of tools ids in
    elim (lookup id tools) [ some w ↦ model_name w ∷ rest | none ↦ rest ]

abbrev pub is_reads : Effect → Bool
is_reads reads = true
is_reads changes = false

-- A mark for each of the names.
abbrev marks : List String → String
marks [] = ""
marks (name ∷ names) = String.◌∷◌ "|" (marks names)

-- The name under which the guard of a capability's own copy of a tool remembers. Each copy that is bound
-- has a guard of its own, also where a capability names a tool twice: what is left of the names tells
-- the copies apart, none of them for a tool that comes with an integration, which is bound once.
abbrev pub guard_of : String → (left : List String) → String → String
guard_of skill_id left tool_id = skill_id <> (marks left <> ("/" <> tool_id))

module _ {F C W : Type 0} where
  -- `ActionOf` and `describe`.
  unfoldable pub ability_of :
      Skill F
      → List (String × ToolDefinition)
      → ToolDefinition
      → Integration
      → Tool F C W
      → Ability F C W
  ability_of skill tools def integration bound = record {
    spec = record {
      name = bound.spec.name;
      description = bound.spec.description;
      instructions = bound.spec.instructions;
      input_schema = bound.spec.input;
      output_schema = bound.spec.output;
      max_calls = bound.spec.max_calls;
      hidden = false;
      read_only = is_reads bound.spec.effect;
      changes = not (is_reads bound.spec.effect);
    };
    invoke = bound.invoke;
    needs = [];
    app = integration.id;
    app_name = integration.name;
    with_look_ups = names_of tools def.with_look_ups;
    declared = not integration.source_given;
    limited = not (is_nil (rules_of_tool def.id skill.rules));
  }

-- Whether a tool comes with an integration that is granted, limited or not.
unfoldable pub comes_with : (integration_id : String) → (narrowed : Bool) → ToolDefinition → Bool
comes_with integration_id narrowed def =
    def.integration_id =ₛ integration_id && not def.disabled && (not narrowed || def.read_only)

module _ {F C W : Type 0} where
  abbrev pub and_then :
      Option (Result (Ability F C W))
      → Option (Result (List (Ability F C W)))
      → Option (Result (List (Ability F C W)))
  and_then none rest = none
  and_then (some (bad why)) rest = some (bad why)
  and_then (some (ok a)) none = none
  and_then (some (ok a)) (some rest) = some (map_ok (λ more. a ∷ more) rest)

  abbrev pub more_bound :
      List (Ability F C W)
      → Option (Result (List (Ability F C W)))
      → Option (Result (List (Ability F C W)))
  more_bound before none = none
  more_bound before (some r) = some (map_ok (λ more. before ++ more) r)

  abbrev pub names_bound : List (Ability F C W) → List String
  names_bound abilities = map (λ a. a.spec.name) abilities

module _ {F C W : Type 0} (t : Texts F) (n : Floats F) (agent : Agent F) (skill : Skill F)
    (stored : Stored F W) where
  -- `HydrateTool` for this capability, with what is noted on the action; `left` are the names that the
  -- capability has from this one on.
  unfoldable pub hydrate_tool :
      (left : List String) → ToolDefinition → Integration → Option (Result (Ability F C W))
  hydrate_tool left def integration = elim stored.registry [
    | none ↦ none
    | some registry ↦
        elim (bind_tool t n (guard_of skill.id left def.id) def
          (resolve_identity agent integration stored.identities_by_id) integration registry
          (rules_for agent skill def.id)) [
            | none ↦ none
            | some (bad why) ↦ some (bad ("skill " <> (t.quoted skill.id <> (": " <> why))))
            | some (ok bound) ↦
                some (ok (ability_of skill stored.tools_by_id def integration bound))
          ]
  ]

  abbrev pub in_skill : String → Option (Result (List (Ability F C W)))
  in_skill what = some (bad ("skill " <> (t.quoted skill.id <> (": " <> what))))

  -- The tools that the capability names.
  unfoldable pub bind_named : List String → Option (Result (List (Ability F C W)))
  bind_named [] = some (ok [])
  bind_named (id ∷ ids) =
      let rest = bind_named ids in
      elim (lookup id stored.tools_by_id) [
        | none ↦ in_skill ("unknown tool " <> t.quoted id)
        | some def ↦
            if def.disabled
            then rest
            else elim (lookup def.integration_id stored.integrations_by_id) [
              | none ↦ in_skill (
                  "tool "
                  <> (t.quoted def.id
                      <> (" references unknown integration " <> t.quoted def.integration_id)))
              | some integration ↦
                  if runs_here stored.registry integration
                  then and_then (hydrate_tool (id ∷ ids) def integration) rest
                  else rest
            ]
      ]

  -- The tools of one integration, but those whose names are taken.
  unfoldable pub bind_granted_tools :
      Integration
      → (integration_id : String) → (narrowed : Bool) → (seen : List String)
      → List (String × ToolDefinition)
      → Option (Result (List (Ability F C W)))
  bind_granted_tools integration id narrowed seen [] = some (ok [])
  bind_granted_tools integration id narrowed seen ((key, def) ∷ tools) =
      let skipped = bind_granted_tools integration id narrowed seen tools in
      let rest = bind_granted_tools integration id narrowed (model_name def ∷ seen) tools in
      if not (comes_with id narrowed def) || has (model_name def) seen
      then skipped
      else and_then (hydrate_tool [] def integration) rest

  -- The integrations that are granted.
  unfoldable pub bind_granted :
      (seen : List String) → List String → Option (Result (List (Ability F C W)))
  bind_granted seen [] = some (ok [])
  bind_granted seen (id ∷ ids) =
      let skipped = bind_granted seen ids in
      let narrowed = has id skill.limited_integrations in
      if narrowed && not skill.all_look_ups
      then skipped
      else elim (lookup id stored.integrations_by_id) [
        | none ↦ in_skill ("unknown integration " <> t.quoted id)
        | some integration ↦
            if runs_here stored.registry integration
            then elim (bind_granted_tools integration id narrowed seen stored.tools_by_id) [
              | none ↦ none
              | some (bad why) ↦ some (bad why)
              | some (ok abilities) ↦
                  more_bound abilities (bind_granted (names_bound abilities ++ seen) ids)
            ]
            else skipped
      ]

  -- `hydrateSkillTools`.
  unfoldable pub hydrate_tools : Option (Result (List (Ability F C W)))
  hydrate_tools = elim (bind_named skill.tools) [
    | none ↦ none
    | some (bad why) ↦ some (bad why)
    | some (ok abilities) ↦
        more_bound abilities (bind_granted (names_bound abilities) skill.integrations)
  ]
