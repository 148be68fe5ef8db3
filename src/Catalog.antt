-- ===== src/Catalog.antt =====
-- domain/catalog.go: the one list of integrations, identities and tools. Each operation is one step, as
-- its lock makes it; a map is the list of its pairs, the newest of a key first. Nil entries of a source
-- have no place here. The errors are the texts of what `AddSource` joins.
pub mod Kept
pub mod Sound
mod Examples
use open_kael.Hydrate.Skills.Waits.{hydrate_skill_tools}
use open_kael.Hydrate.{ExecutorRegistry}
use open_kael.Hydrate.Skills.{Skill, Agent, Ability}
use open_kael.ToolContract.{validate_tools, validate_tool, problem}
use open_kael.Loop.Calls.{keep}
use open_kael.Outcome.{is_nil}
use open_kael.Gates.{Floats, Texts}
use open_kael.Tools.{model_name, ToolDefinition, Integration, Identity}
use open_kael.Prelude.Text.{is_empty, ◌=ₛ◌, ◌<>◌}
use open_kael.Prelude.{
  lookup, Result, ◌∷◌, ◌||◌, some, not, none, if◌then◌else◌, has, [], String, Option, List, Bool,
  ◌++◌,
}

pub record Catalog : Type 0 where
  pub tools : List (String × ToolDefinition)
  pub integrations : List (String × Integration)
  pub identities : List (String × Identity)

-- `NewCatalog`.
abbrev pub new_catalog : Catalog
new_catalog = record { tools = []; integrations = []; identities = [] }

-- `StaticSource`, the values of a `ToolSource`.
pub record ToolSource : Type 0 where
  pub integration : Option Integration
  pub identities : List Identity
  pub tools : List ToolDefinition

module _ {A : Type 0} where
  -- A map without what passes a test.
  unfoldable pub without_those : (String × A → Bool) → List (String × A) → List (String × A)
  without_those p [] = []
  without_those p (x ∷ m) = let rest = without_those p m in if p x then rest else x ∷ rest

  -- `m[k] = a`.
  abbrev pub put : String → A → List (String × A) → List (String × A)
  put k a m = (k, a) ∷ without_those (λ (j, b). j =ₛ k) m

unfoldable pub put_tools :
    List ToolDefinition → List (String × ToolDefinition) → List (String × ToolDefinition)
put_tools [] m = m
put_tools (d ∷ tools) m = put_tools tools (put d.id d m)

unfoldable pub put_identities : List Identity → List (String × Identity) → List (String × Identity)
put_identities [] m = m
put_identities (i ∷ identities) m = put_identities identities (put i.id i m)

-- `dropDuplicates`.
unfoldable pub drop_from : (ids names : List String) → List ToolDefinition → List ToolDefinition
drop_from ids names [] = []
drop_from ids names (d ∷ tools) =
    let skipped = drop_from ids names tools in
    let rest = drop_from (d.id ∷ ids) (model_name d ∷ names) tools in
    if has d.id ids || has (model_name d) names then skipped else d ∷ rest

abbrev pub drop_duplicates : List ToolDefinition → List ToolDefinition
drop_duplicates tools = drop_from [] [] tools

-- The copy of a source's tool, which belongs to the source's integration where it says none.
abbrev pub owned : Integration → ToolDefinition → ToolDefinition
owned integration d =
    if is_empty d.integration_id then record d { integration_id = integration.id } else d

abbrev pub of_integration : String → String × ToolDefinition → Bool
of_integration id (key, d) = d.integration_id =ₛ id

abbrev pub runs_with : String → String × Identity → Bool
runs_with id (key, i) = i.integration_id =ₛ id

module _ {F : Type 0} (t : Texts F) (prompt_fields : String → List String) where
  -- What is kept of one tool, and its errors.
  abbrev pub checked_tool : Integration → ToolDefinition → List String × List ToolDefinition
  checked_tool integration d =
      if not (d.integration_id =ₛ integration.id)
      then (
        problem t prompt_fields d (
              "belongs to integration "
              <> (t.quoted d.integration_id <> (", not " <> t.quoted integration.id)))
            ∷ [],
        [],
      )
      else if is_nil (validate_tool t prompt_fields d)
      then ([], d ∷ [])
      else (validate_tool t prompt_fields d, [])

  -- The loop over the source's tools.
  unfoldable pub check_tools : Integration → List ToolDefinition → List String × List ToolDefinition
  check_tools integration [] = ([], [])
  check_tools integration (d ∷ tools) =
      let (errs, keep) = checked_tool integration (owned integration d) in
      let (more_errs, more) = check_tools integration tools in (errs ++ more_errs, keep ++ more)

  -- The tools that are kept, of those that keep the contract each.
  abbrev pub distinct_tools : List ToolDefinition → List ToolDefinition
  distinct_tools keep =
      if is_nil (validate_tools t prompt_fields keep) then keep else drop_duplicates keep

  abbrev pub replace_source : Integration → List Identity → List ToolDefinition → Catalog → Catalog
  replace_source integration identities keep c = record {
    tools = put_tools keep (without_those (of_integration integration.id) c.tools);
    identities = put_identities identities (without_those (runs_with integration.id) c.identities);
    integrations = put integration.id integration c.integrations;
  }

  abbrev pub add_checked :
      Integration
      → List Identity
      → List String × List ToolDefinition
      → Catalog
      → List String × Catalog
  add_checked integration identities (errs, keep) c = (
    errs ++ validate_tools t prompt_fields keep,
    replace_source integration identities (distinct_tools keep) c,
  )

  abbrev pub no_integration : Catalog → List String × Catalog
  no_integration c = ("catalog: a source must have an integration with an ID" ∷ [], c)

  -- `AddSource`.
  unfoldable pub add_source : ToolSource → Catalog → List String × Catalog
  add_source source c = elim source.integration [
    | none ↦ no_integration c
    | some integration ↦
        if is_empty integration.id
        then no_integration c
        else add_checked integration source.identities (check_tools integration source.tools) c
  ]

-- `RemoveSource`.
unfoldable pub remove_source : String → Catalog → Catalog
remove_source id c = record {
  integrations = without_those (λ (j, i). j =ₛ id) c.integrations;
  tools = without_those (of_integration id) c.tools;
  identities = without_those (runs_with id) c.identities;
}

-- `PutIntegration`, `PutIdentity` and `PutTool`.
abbrev pub put_integration : Integration → Catalog → Catalog
put_integration i c = record c { integrations = put i.id i c.integrations }

abbrev pub put_identity : Identity → Catalog → Catalog
put_identity i c = record c { identities = put i.id i c.identities }

abbrev pub put_tool : ToolDefinition → Catalog → Catalog
put_tool d c = record c { tools = put d.id d c.tools }

-- `VisibleTo`.
abbrev pub visible_to : Integration → String → Bool
visible_to i owner = is_empty i.created_by || i.created_by =ₛ owner

-- `Tool` and `Integration`.
abbrev pub tool_at : String → Catalog → Option ToolDefinition
tool_at id c = lookup id c.tools

abbrev pub integration_at : String → Catalog → Option Integration
integration_at id c = lookup id c.integrations

-- `ToolsOf`.
unfoldable pub tools_in : String → List (String × ToolDefinition) → List ToolDefinition
tools_in id [] = []
tools_in id ((key, d) ∷ tools) =
    let rest = tools_in id tools in if d.integration_id =ₛ id then d ∷ rest else rest

abbrev pub tools_of : String → Catalog → List ToolDefinition
tools_of id c = tools_in id c.tools

module _ {F C W : Type 0} (t : Texts F) (n : Floats F) where
  -- `HydrateSkill`.
  abbrev pub hydrate_skill :
      Skill F
      → Agent F
      → Option (ExecutorRegistry F W)
      → Catalog
      → Option (Result (List (Ability F C W)))
  hydrate_skill skill agent executors c = hydrate_skill_tools t n agent skill (record {
    tools_by_id = c.tools;
    identities_by_id = c.identities;
    integrations_by_id = c.integrations;
    registry = executors;
  })
