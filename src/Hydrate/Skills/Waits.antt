-- ===== src/Hydrate/Skills/Waits.antt =====
-- domain/hydrate.go: `HydrateSkillTools`, in which an ability waits for what must happen first: what
-- the creator said, and what the ability itself needs when the agent has it.
use open_kael.Values.{text_or_empty}
use open_kael.Outcome.{is_nil}
use open_kael.Tools.{model_name, ToolDefinition}
use open_kael.Gates.Prerequisites.{needs_of, invoke_after, Prerequisite}
use open_kael.Gates.{Texts, Floats}
use open_kael.Hydrate.Skills.{names_bound, hydrate_tools, Stored, Skill, Agent, Ability}
use open_kael.Prelude.Text.{◌=ₛ◌}
use open_kael.Prelude.{
  ◌∷◌, ◌||◌, some, not, none, map_ok, map, lookup, if◌then◌else◌, has, any, [], String, Result,
  Option, List, Bool, ◌++◌, ◌&&◌,
}

-- The names of the tools, by their ids, and the id of the tool that the model calls by a name: the
-- last one, where several have it.
abbrev pub model_names : List (String × ToolDefinition) → List (String × String)
model_names tools = map (λ (id, def). (id, model_name def)) tools

unfoldable pub id_named : String → List (String × ToolDefinition) → Option String
id_named name [] = none
id_named name ((id, def) ∷ tools) = elim (id_named name tools) [
  | some found ↦ some found
  | none ↦ if model_name def =ₛ name then some id else none
]

abbrev pub tool_id_of : List (String × ToolDefinition) → String → String
tool_id_of tools name = text_or_empty (id_named name tools)

unfoldable pub rules_before : String → List Prerequisite → List Prerequisite
rules_before id [] = []
rules_before id (p ∷ rules) =
    let rest = rules_before id rules in if p.before =ₛ id then p ∷ rest else rest

-- What a tool itself must come after.
abbrev pub first_rule : String → String → Prerequisite
first_rule id first = record {
  id = "";
  before = id;
  first = first;
  same = [];
  text = "";
  one_of = [];
}

abbrev pub any_rule : String → List String → Prerequisite
any_rule id one_of = record {
  id = "";
  before = id;
  first = "";
  same = [];
  text = "";
  one_of = one_of;
}

-- Whether a rule waits for any run of a tool.
abbrev pub waits_for : String → Prerequisite → Bool
waits_for first r = r.first =ₛ first && is_nil r.same

unfoldable pub with_first :
    String → List String → List Prerequisite → List String → List Prerequisite
with_first id held rules [] = rules
with_first id held rules (first ∷ firsts) =
    if not (has first held) || first =ₛ id || any (waits_for first) rules
    then with_first id held rules firsts
    else with_first id held (rules ++ first_rule id first ∷ []) firsts

unfoldable pub others_held : String → List String → List String → List String
others_held id held [] = []
others_held id held (first ∷ firsts) =
    let rest = others_held id held firsts in
    if has first held && not (first =ₛ id) then first ∷ rest else rest

abbrev pub with_any : String → List Prerequisite → List String → List Prerequisite
with_any id rules [] = rules
with_any id rules (x ∷ xs) = rules ++ any_rule id (x ∷ xs) ∷ []

-- All that one tool waits for.
unfoldable pub prerequisites_of :
    List Prerequisite
    → List (String × ToolDefinition)
    → (held : List String) → String
    → List Prerequisite
prerequisites_of said tools held id = elim (lookup id tools) [
  | none ↦ rules_before id said
  | some def ↦
      with_any id (with_first id held (rules_before id said) def.first)
        (others_held id held def.first_any)
]

module _ {F C W : Type 0} (t : Texts F) (n : Floats F) where
  -- `WrapPrerequisites`.
  unfoldable pub waiting :
      Ability F C W → List Prerequisite → List (String × String) → Ability F C W
  waiting a [] names = a
  waiting a (r ∷ rules) names = record a {
    needs = a.needs ++ needs_of (r ∷ rules) names;
    invoke =
        λ turn. invoke_after t n (λ back. some back) a.spec.name names (r ∷ rules) (a.invoke turn);
  }

  -- One ability, of an agent that has the tools `held`.
  unfoldable pub wait_for :
      List Prerequisite
      → List (String × ToolDefinition)
      → (held : List String) → Ability F C W
      → Ability F C W
  wait_for said tools held a =
      waiting a (prerequisites_of said tools held (tool_id_of tools a.spec.name))
        (model_names tools)

  -- All of them.
  unfoldable pub wait_all :
      List Prerequisite
      → List (String × ToolDefinition)
      → List (Ability F C W)
      → List (Ability F C W)
  wait_all said tools abilities =
      map (wait_for said tools (map (tool_id_of tools) (names_bound abilities))) abilities

module _ {F C W : Type 0} (t : Texts F) (n : Floats F) (agent : Agent F) (skill : Skill F)
    (stored : Stored F W) where
  -- `HydrateSkillTools`.
  unfoldable pub hydrate_skill_tools : Option (Result (List (Ability F C W)))
  hydrate_skill_tools = elim (hydrate_tools t n agent skill stored) [
    | none ↦ none
    | some r ↦ some (map_ok (wait_all t n skill.prerequisites stored.tools_by_id) r)
  ]
