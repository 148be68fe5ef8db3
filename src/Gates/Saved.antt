-- ===== src/Gates/Saved.antt =====
-- domain/prerequisite.go: `NormalizePrerequisites`, the check of a creator's prerequisites as they
-- are saved.
pub mod Soundness
mod Examples
use Prim.Native.String.{count}
use open_kael.Prelude.{
  map_ok, ok, bad, Result, ℕ, String, Bool, true, false, not, ◌||◌, Option, none, some, List, [],
  ◌∷◌, if◌then◌else◌, ltb, length, lookup, has,
}
use open_kael.Prelude.Text.{◌<>◌, ◌=ₛ◌, is_empty, trim_space, join}
use open_kael.Schema.{Schema, has_property}
use open_kael.Loop.Flow.{first_runes}
use open_kael.Tools.{ToolDefinition, model_name}
use open_kael.Gates.{Texts}
use open_kael.Gates.Prerequisites.{Prerequisite}

abbrev pub max_prerequisites : ℕ
max_prerequisites = 10

abbrev pub in_both : (before first : ToolDefinition) → String → Bool
in_both before first s =
    if has_property before.input_schema s then has_property first.input_schema s else false

-- The loop over the inputs that must be the same.
unfoldable pub normalize_same :
    {F : Type 0} → Texts F → (before first : ToolDefinition) → List String → Result (List String)
normalize_same t before first [] = ok []
normalize_same t before first (s ∷ same) =
    let rest = normalize_same t before first same in
    if is_empty (trim_space s)
    then rest
    else if in_both before first (trim_space s)
    then map_ok (λ kept. trim_space s ∷ kept) rest
    else bad (
        model_name before
        <> (" and " <> (model_name first <> (" don't both have " <> t.quoted (trim_space s)))))

abbrev pub short_text : String → String
short_text s =
    if ltb 200 (count (trim_space s)) then first_runes 200 (trim_space s) else trim_space s

-- What is wrong with a prerequisite on two abilities, before its inputs are looked at.
unfoldable pub normalize_found :
    {F : Type 0} → Texts F → Prerequisite → (before first : ToolDefinition) → Result Prerequisite
normalize_found t p before first =
    if p.before =ₛ p.first
    then bad "something can't have to happen before itself"
    else if not first.read_only
    then bad (
        "only something that looks things up can be made to happen first ("
        <> (model_name first <> " changes things)"))
    else map_ok (λ same. record p { same = same; text = short_text p.text })
        (normalize_same t before first p.same)

abbrev pub not_granted : {F : Type 0} → Texts F → String → Result Prerequisite
not_granted t id = bad (t.quoted id <> " isn't something this capability can do")

-- The body of the loop.
unfoldable pub normalize_one :
    {F : Type 0} → Texts F → List (String × ToolDefinition) → Prerequisite → Result Prerequisite
normalize_one t granted p = elim (lookup p.before granted) [
  | none ↦ not_granted t p.before
  | some before ↦ elim (lookup p.first granted) [
    | none ↦ not_granted t p.first
    | some first ↦ normalize_found t p before first
  ]
]

-- `p.Before + "|" + p.First + "|" + strings.Join(same, ",")`.
abbrev pub key_of : Prerequisite → String
key_of p = p.before <> ("|" <> (p.first <> ("|" <> join "," p.same)))

unfoldable pub normalize_from :
    {F : Type 0}
    → Texts F
    → List (String × ToolDefinition)
    → (seen : List String) → List Prerequisite
    → Result (List Prerequisite)
normalize_from t granted seen [] = ok []
normalize_from t granted seen (p ∷ ps) = elim (normalize_one t granted p) [
  | bad e ↦ bad e
  | ok p' ↦ elim (has (key_of p') seen) [
    | true ↦ normalize_from t granted seen ps
    | false ↦ map_ok (λ out. p' ∷ out) (normalize_from t granted (key_of p' ∷ seen) ps)
  ]
]

-- `NormalizePrerequisites`.
unfoldable pub normalize_prerequisites :
    {F : Type 0}
    → Texts F
    → List Prerequisite
    → List (String × ToolDefinition)
    → Result (List Prerequisite)
normalize_prerequisites t ps granted =
    if ltb max_prerequisites (length ps)
    then bad ("a capability can keep at most " <> (t.itoa max_prerequisites <> " of these"))
    else normalize_from t granted [] ps
