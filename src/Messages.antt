-- ===== src/Messages.antt =====
-- domain/message.go and domain/llm.go: the messages of a conversation, and a model's answer.
-- `F` is the type of numbers in an action call's arguments.
use open_kael.Prelude.{String, Bool, false, List, [], ◌∷◌, if◌then◌else◌}
use open_kael.Values.{Fields}

pub data Role : Type 0 where
  system user assistant tool : Role

module _ (F : Type 0) where
  pub record ToolCall : Type 0 where
    pub id : String
    pub name : String
    pub arguments : Fields F

  pub record Message : Type 0 where
    pub role : Role
    pub content : String
    pub tool_calls : List ToolCall
    pub tool_call_id : String
    pub name : String
    pub internal : Bool

  pub record LlmResponse : Type 0 where
    pub content : String
    pub tool_calls : List ToolCall

module _ {F : Type 0} where
  -- `Message{Role: role, Content: content}`, and the answer to a call.
  abbrev pub message : Role → String → Message F
  message role content = record {
    role = role;
    content = content;
    tool_calls = [];
    tool_call_id = "";
    name = "";
    internal = false;
  }

  abbrev pub answer : ToolCall F → String → Message F
  answer call content = record {
    role = tool;
    content = content;
    tool_calls = [];
    tool_call_id = call.id;
    name = call.name;
    internal = false;
  }

  unfoldable pub kept : List (Message F) → List (Message F)
  kept [] = []
  kept (m ∷ msgs) = let rest = kept msgs in if m.internal then rest else m ∷ rest
