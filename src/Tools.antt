-- ===== src/Tools.antt =====
-- domain/tool.go, domain/tool_contract.go and domain/tool_interface.go: a stored tool, and what the
-- model is told of it; domain/identity.go and domain/integration.go: what it runs with.
use open_kael.Prelude.{ℕ, String, Bool, false, Option, none, some, List, [], if◌then◌else◌, has}
use open_kael.Prelude.Text.{is_empty}
use open_kael.Schema.{Schema, schema, Properties, no_items, find_property, properties_of}

pub record ToolDefinition : Type 0 where
  pub id : String
  pub name : String
  pub function_name : String
  pub description : String
  pub instructions : String
  pub integration_id : String
  pub input_schema : Schema
  pub output_schema : Schema
  pub action : String
  pub max_calls : ℕ
  pub requires_approval : Bool
  pub approval_prompt_template : String
  pub prepared : List String
  pub prepared_inputs : Properties
  pub first : List String
  pub first_any : List String
  pub with_look_ups : List String
  pub once_for : List String
  pub approval_timeout_seconds : ℕ
  pub read_only : Bool
  pub disabled : Bool
  pub needs_local_time : Bool

abbrev pub empty_schema : Schema
empty_schema = schema "" "" Properties.end no_items [] []

-- Go's zero value of a tool.
abbrev pub empty_tool : ToolDefinition
empty_tool = record {
  id = "";
  name = "";
  function_name = "";
  description = "";
  instructions = "";
  integration_id = "";
  input_schema = empty_schema;
  output_schema = empty_schema;
  action = "";
  max_calls = 0;
  requires_approval = false;
  approval_prompt_template = "";
  prepared = [];
  prepared_inputs = Properties.end;
  first = [];
  first_any = [];
  with_look_ups = [];
  once_for = [];
  approval_timeout_seconds = 0;
  read_only = false;
  disabled = false;
  needs_local_time = false;
}

-- `ModelName`.
abbrev pub model_name : ToolDefinition → String
model_name t = if is_empty t.function_name then t.name else t.function_name

pub data Effect : Type 0 where
  reads changes : Effect

abbrev pub effect_of : ToolDefinition → Effect
effect_of t = if t.read_only then reads else changes

-- `detail`: an input a limit may be set on.
unfoldable pub detail : ToolDefinition → String → Option Schema
detail t name = elim (find_property name (properties_of t.input_schema)) [
  | some p ↦ some p
  | none ↦ find_property name t.prepared_inputs
]

-- `prepares`.
abbrev pub prepares : ToolDefinition → String → Bool
prepares t name = has name t.prepared

pub record ToolSpec : Type 0 where
  pub id : String
  pub source_id : String
  pub name : String
  pub title : String
  pub description : String
  pub instructions : String
  pub input : Schema
  pub output : Schema
  pub effect : Effect
  pub approval_required : Bool
  pub approval_template : String
  pub approval_timeout : ℕ
  pub max_calls : ℕ

-- `ToolDefinition.Spec`.
abbrev pub spec_of : ToolDefinition → ToolSpec
spec_of t = record {
  id = t.id;
  source_id = t.integration_id;
  name = model_name t;
  title = t.name;
  description = t.description;
  instructions = t.instructions;
  input = t.input_schema;
  output = t.output_schema;
  effect = effect_of t;
  approval_required = t.requires_approval;
  approval_template = t.approval_prompt_template;
  approval_timeout = t.approval_timeout_seconds;
  max_calls = t.max_calls;
}

pub record Identity : Type 0 where
  pub id : String
  pub integration_id : String
  pub kind : String

-- `IdentityKindToken`.
abbrev pub token_kind : String
token_kind = "token"

-- `source_given` is whether a creator built it.
pub record Integration : Type 0 where
  pub id : String
  pub name : String
  pub service : String
  pub created_by : String
  pub source_given : Bool
