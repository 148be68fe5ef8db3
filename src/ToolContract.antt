-- ===== src/ToolContract.antt =====
-- domain/tool_contract.go: `ValidateTool`, every way in which a stored tool breaks the contract, as the
-- texts of the errors. The numbers of a tool are natural, so what the code says of negative ones has no
-- place here. The search of the approval prompt by a regular expression is a parameter.
use Prim.Native.String.{len}
use open_kael.Messages.{message}
use Prim.Native.String.{count}
use open_kael.Tools.{prepares, model_name, ToolDefinition}
use open_kael.Gates.{Texts}
use open_kael.Schema.{schema, property, properties_of, find_property, Schema, Properties}
use Prim.Native.Char.{code, Char}
use open_kael.Prelude.Text.{trim_space, is_empty, ◌=ₛ◌, ◌<>◌}
use open_kael.Prelude.{
  ◌∷◌, ℕ, ◌||◌, true, some, not, none, ltb, lookup, leb, is_some, if◌then◌else◌, has, false, [],
  String, Option, List, Bool, ◌==◌, ◌++◌, ◌&&◌,
}

abbrev pub max_tool_name_len : ℕ
max_tool_name_len = 64

abbrev pub max_tool_description_len : ℕ
max_tool_description_len = 1024

abbrev between : ℕ → ℕ → Char → Bool
between low high c = leb low (code c) && leb (code c) high

abbrev pub is_ascii_letter : Char → Bool
is_ascii_letter c = between b'A' b'Z' c || between b'a' b'z' c

abbrev pub is_name_char : Char → Bool
is_name_char c = is_ascii_letter c || between b'0' b'9' c || code c == b'_' || code c == b'-'

unfoldable pub all_chars : (Char → Bool) → String → Bool
all_chars q String.[] = true
all_chars q (String.◌∷◌ c s) = q c && all_chars q s

-- `toolNameRe`: `^[A-Za-z][A-Za-z0-9_-]{0,63}$`.
unfoldable pub is_tool_name : String → Bool
is_tool_name String.[] = false
is_tool_name (String.◌∷◌ c s) =
    is_ascii_letter c && all_chars is_name_char s && ltb (count s) max_tool_name_len

abbrev pub type_name : Schema → String
type_name (schema type d p i r e) = type

abbrev pub required_of : Schema → List String
required_of (schema type d p i r e) = r

unfoldable pub property_names : Properties → List String
property_names Properties.end = []
property_names (property n s props) = n ∷ property_names props

-- An error where a test says so.
abbrev pub said_if : Bool → String → List String
said_if true text = text ∷ []
said_if false text = []

module _ {F : Type 0} (t : Texts F) (prompt_fields : String → List String) where
  -- `ToolProblem.Error`.
  abbrev pub problem : ToolDefinition → String → String
  problem d message = "tool " <> (t.quoted d.id <> (": " <> message))

  abbrev pub description_problems : ToolDefinition → String → List String
  description_problems d text =
      if is_empty text
      then problem d "has no description, so the model can't tell when to use it" ∷ []
      else if ltb max_tool_description_len (len text)
      then problem d (
          "description is "
          <> (t.itoa (len text)
              <> (" characters; the most allowed is " <> t.itoa max_tool_description_len)))
        ∷ []
      else []

  -- The inputs that are required and not declared.
  unfoldable pub undeclared : ToolDefinition → List String → List String
  undeclared d [] = []
  undeclared d (r ∷ required) =
      said_if (not (is_some (find_property r (properties_of d.input_schema))))
        (problem d ("requires input " <> (t.quoted r <> ", which it doesn't declare")))
      ++ undeclared d required

  abbrev pub lacks_type : Option Schema → Bool
  lacks_type none = true
  lacks_type (some s) = is_empty (type_name s)

  unfoldable pub untyped : ToolDefinition → List String → List String
  untyped d [] = []
  untyped d (n ∷ names) =
      said_if (lacks_type (find_property n (properties_of d.input_schema)))
        (problem d ("input " <> (t.quoted n <> " has no type")))
      ++ untyped d names

  unfoldable pub unknown_mentions : ToolDefinition → List String → List String
  unknown_mentions d [] = []
  unknown_mentions d (m ∷ mentions) =
      said_if (not (is_some (find_property m (properties_of d.input_schema))) && not (prepares d m))
        (problem d ("approval prompt mentions {{" <> (m <> "}}, which the tool doesn't take")))
      ++ unknown_mentions d mentions

  -- `ValidateTool`.
  unfoldable pub validate_tool : ToolDefinition → List String
  validate_tool d =
      said_if (is_empty (trim_space d.id)) (problem d "has no ID")
      ++ said_if (is_empty (trim_space d.integration_id)) (problem d "belongs to no integration")
      ++ said_if (not (is_tool_name (model_name d))) (
          problem d (
            "the name the model sees, "
            <> (t.quoted (model_name d)
                <> (", must start with a letter and use only letters, digits, _ and - (at most "
                    <> (t.itoa max_tool_name_len <> " characters)")))))
      ++ description_problems d (trim_space d.description)
      ++ said_if (is_empty (trim_space d.action)) (problem d "has no action for its executor")
      ++ said_if (not (type_name d.input_schema =ₛ "object")) (
          problem d ("input schema must be an object, not " <> t.quoted (type_name d.input_schema)))
      ++ undeclared d (required_of d.input_schema)
      ++ untyped d (t.sorted (property_names (properties_of d.input_schema)))
      ++ (if d.requires_approval
          then unknown_mentions d (prompt_fields d.approval_prompt_template)
          else [])

  -- The key of a tool's name.
  abbrev pub name_key : ToolDefinition → String
  name_key d = d.integration_id <> ("/" <> model_name d)

  abbrev pub same_name : ToolDefinition → Option String → List String
  same_name d none = []
  same_name d (some other) =
      problem d ("has the same name as " <> (t.quoted other <> " within its integration")) ∷ []

  -- The loop of `ValidateTools`.
  unfoldable pub validate_from :
      (by_id : List String) → (by_name : List (String × String)) → List ToolDefinition → List String
  validate_from by_id by_name [] = []
  validate_from by_id by_name (d ∷ tools) =
      validate_tool d
      ++ said_if (has d.id by_id) (problem d "ID is used by more than one tool")
      ++ same_name d (lookup (name_key d) by_name)
      ++ validate_from (d.id ∷ by_id) ((name_key d, d.id) ∷ by_name) tools

  -- `ValidateTools`.
  abbrev pub validate_tools : List ToolDefinition → List String
  validate_tools tools = validate_from [] [] tools
