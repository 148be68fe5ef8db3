-- ===== src/Gates/Saved/Examples.antt =====
-- A concrete capability's prerequisites.
use open_kael.Prelude.{ℕ, String, Bool, true, false, none, List, [], ◌∷◌, ◌≡◌, refl, all, lookup}
use open_kael.Prelude.Text.{◌=ₛ◌, trim_space, join}
use open_kael.Schema.{schema, Properties, property, no_items, has_property, find_property}
use open_kael.Tools.{ToolDefinition, empty_tool}
use open_kael.Gates.{Texts}
use open_kael.Gates.Prerequisites.{Prerequisite}
use open_kael.Gates.Saved.{
  ok, normalize_prerequisites, normalize_from, normalize_one, normalize_found, normalize_same,
}
use open_kael.Gates.Saved.Soundness.{is_sound, normalize_prerequisites-is_sound}

abbrev texts : Texts ℕ
texts = record {
  equal_fold = λ a b. a =ₛ b;
  to_lower = λ s. s;
  to_upper = λ s. s;
  sorted = λ l. l;
  sprint = λ v. "";
  itoa = λ k. "10";
  quoted = λ s. s;
  marshal_value = λ v. none;
}

abbrev on_symbol : String → Bool → ToolDefinition
on_symbol name read_only = record empty_tool {
  name = name;
  input_schema =
      schema "object" ""
        (property "symbol" (schema "string" "" Properties.end no_items [] []) Properties.end)
        no_items [] [];
  read_only = read_only;
}

abbrev granted : List (String × ToolDefinition)
granted = ("t1", on_symbol "place" false) ∷ ("t2", on_symbol "list" true) ∷ []

abbrev wait_for : List String → Prerequisite
wait_for same = record { id = ""; before = "t1"; first = "t2"; same = same; text = ""; one_of = [] }

-- A repeat is dropped, and a blank input.
saved_once :
    normalize_prerequisites texts
      (wait_for ("symbol" ∷ " " ∷ []) ∷ wait_for (" symbol" ∷ []) ∷ [])
      granted
    ≡ ok (wait_for ("symbol" ∷ []) ∷ [])
unfolding normalize_prerequisites normalize_from normalize_one normalize_found normalize_same lookup
    has_property find_property trim_space join
saved_once = refl

normalize_prerequisites-is_sound_example :
    all (is_sound granted) (wait_for ("symbol" ∷ []) ∷ []) ≡ true
normalize_prerequisites-is_sound_example =
    normalize_prerequisites-is_sound texts
      (wait_for ("symbol" ∷ " " ∷ []) ∷ wait_for (" symbol" ∷ []) ∷ []) granted
      (wait_for ("symbol" ∷ []) ∷ []) saved_once
