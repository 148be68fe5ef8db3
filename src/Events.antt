-- ===== src/Events.antt =====
-- domain/integration.go, domain/event_contract.go and domain/event_summary.go: what happens on a
-- connection, and the line that tells it. Regular expressions, and fmt's writing of numbers, are
-- parameters.
use open_kael.ToolContract.{required_of, type_name}
use open_kael.Loop.Flow.{truncate_runes}
use open_kael.ToolContract.{said_if}
use open_kael.Outcome.{is_nil}
use open_kael.Proposal.{fields}
use Prim.Native.Char.{Char, code}
use open_kael.Gates.{Texts}
use open_kael.Schema.{properties_of, find_property, Schema, Properties}
use open_kael.Values.{num, null, get, Value, Fields}
use open_kael.Prelude.Text.{trim_space, join, is_space, is_empty, ◌=ₛ◌, ◌<>◌}
use open_kael.Prelude.{
  ok, leb, bad, Result, ◌∷◌, ℕ, ◌||◌, some, not, none, ltb, if◌then◌else◌, has, false, [], Option,
  List, Bool, ◌==◌, ◌++◌, ◌&&◌,
}
use Prim.Native.String.{count, String}
pub mod Contract
pub mod Told
pub mod Kept
pub mod Line
mod Examples

-- `EventArrival` and `SubjectKind` are their texts. A handler is only asked whether it is there.
pub record EventSubject : Type 0 where
  pub kind : String
  pub field : String
  pub account : String

pub record IntegrationEvent (F : Type 0) : Type 0 where
  pub name : String
  pub description : String
  pub arrival : String
  pub subject : EventSubject
  pub payload : Schema
  pub options : Schema
  pub repeat_key : String
  pub sample : Option (Fields F)
  pub summary : String
  pub has_handler : Bool

-- What `summaryBlank` finds in a text: its blanks by their names, and what stands between them.
pub data Piece : Type 0 where
  words : String → Piece
  blank : (name : String) → Piece

-- What the code takes from regexp and fmt: `pieces` is what `summaryBlank` finds, `platform_word` is
-- `platformWords.FindString` where it finds one, and `whole` is "%d" of a number that is whole.
pub record Reading (F : Type 0) : Type 0 where
  pub pieces : String → List Piece
  pub platform_word : String → Option String
  pub whole : F → Option String

abbrev pub max_event_summary_len : ℕ
max_event_summary_len = 280

abbrev pub max_summary_value_len : ℕ
max_summary_value_len = 200

-- `FindAllStringSubmatch`: the names of the blanks.
abbrev pub blanks_of : List Piece → List String
blanks_of [] = []
blanks_of (words s ∷ rest) = blanks_of rest
blanks_of (blank name ∷ rest) = name ∷ blanks_of rest

-- `ReplaceAllString(s, "")`.
abbrev pub without_blanks : List Piece → String
without_blanks [] = ""
without_blanks (words s ∷ rest) = s <> without_blanks rest
without_blanks (blank name ∷ rest) = without_blanks rest

-- `strings.ContainsAny(s, "\n\r")`.
unfoldable pub has_line_break : String → Bool
has_line_break String.[] = false
has_line_break (String.◌∷◌ c s) = code c == 10 || code c == 13 || has_line_break s

-- `strings.Contains(s, "{{")`, and with "}}".
unfoldable pub has_twice : ℕ → String → Bool
has_twice n String.[] = false
has_twice n (String.◌∷◌ c String.[]) = false
has_twice n (String.◌∷◌ c (String.◌∷◌ d s)) =
    (code c == n && code d == n) || has_twice n (String.◌∷◌ d s)

abbrev pub is_plain_type : String → Bool
is_plain_type type = type =ₛ "string" || type =ₛ "integer" || type =ₛ "number" || type =ₛ "boolean"

-- `unicode.IsControl`.
abbrev pub is_control : Char → Bool
is_control c = ltb (code c) 32 || (leb 127 (code c) && leb (code c) 159)

-- What is wrong with a blank, whose property is given.
unfoldable pub blank_problem :
    (required : List String) → (name : String) → Option Schema → List String
blank_problem required name none =
    ("the summary uses {{" <> (name <> "}}, which the payload doesn't have")) ∷ []
blank_problem required name (some s) =
    if not (has name required)
    then ("the summary uses {{" <> (name <> "}}, which is not always there (it must be required)"))
      ∷ []
    else said_if (not (is_plain_type (type_name s)))
        ("the summary uses {{" <> (name <> "}}, which is not a plain value"))

unfoldable pub blank_problems : Properties → (required : List String) → List String → List String
blank_problems props required [] = []
blank_problems props required (b ∷ blanks) =
    blank_problem required b (find_property b props) ++ blank_problems props required blanks

-- `strings.Map` in `plainValue`: a space for white space, and nothing for a control character.
unfoldable pub one_line : String → String
one_line String.[] = String.[]
one_line (String.◌∷◌ c s) =
    let rest = one_line s in
    if is_space c then String.◌∷◌ " " rest else if is_control c then rest else String.◌∷◌ c rest

module _ {F : Type 0} (t : Texts F) (r : Reading F) where
  abbrev pub word_problem : Option String → List String
  word_problem none = []
  word_problem (some w) =
      ("the summary uses a platform word (" <> (t.quoted w <> "); say it in plain words")) ∷ []

  -- The problems before those of the blanks, and behind them.
  abbrev pub form_problems : (summary : String) → (blanks : List String) → List String
  form_problems summary blanks =
      said_if (ltb max_event_summary_len (count summary)) (
        "the summary is "
        <> (t.itoa (count summary)
            <> (" characters; the most allowed is " <> t.itoa max_event_summary_len)))
      ++ said_if (has_line_break summary) "the summary must be one line"
      ++ said_if (is_nil blanks)
          "the summary has no blanks, so it would say the same thing every time"

  abbrev pub rest_problems : (rest : String) → List String
  rest_problems rest =
      said_if (has_twice b'{' rest || has_twice b'}' rest)
        "the summary has a blank that is not written {{name}}"
      ++ word_problem (r.platform_word rest)

  unfoldable pub template_problems : IntegrationEvent F → List String
  template_problems e =
      let pieces = r.pieces e.summary in
      form_problems e.summary (blanks_of pieces)
      ++ blank_problems (properties_of e.payload) (required_of e.payload) (blanks_of pieces)
      ++ rest_problems (without_blanks pieces)

  -- `summaryProblems`.
  unfoldable pub summary_problems : IntegrationEvent F → List String
  summary_problems e =
      if is_empty (trim_space e.summary)
      then said_if (not (is_empty e.summary)) "the summary is only spaces"
      else template_problems e

  abbrev pub written : Value F → String
  written (num x) = elim (r.whole x) [ some s ↦ s | none ↦ t.sprint (num x) ]
  written v = t.sprint v

  -- `plainValue`.
  unfoldable pub plain_value : Value F → String
  plain_value v = truncate_runes (join " " (fields (one_line (written v)))) max_summary_value_len

  -- The summary with its blanks filled in, and the facts that are missing.
  unfoldable pub fill_in : Fields F → List Piece → String × List String
  fill_in facts [] = ("", [])
  fill_in facts (words s ∷ rest) = let (text, missing) = fill_in facts rest in (s <> text, missing)
  fill_in facts (blank name ∷ rest) =
      let (text, missing) = fill_in facts rest in
      elim (get name facts) [
        | none ↦ (text, name ∷ missing)
        | some null ↦ (text, name ∷ missing)
        | some v ↦ (plain_value v <> text, missing)
      ]

  -- `RenderSummary`.
  abbrev pub rendered : IntegrationEvent F → String × List String → Result String
  rendered e (text, []) = ok text
  rendered e (text, m ∷ missing) =
      bad ("event " <> (t.quoted e.name <> (": the summary needs " <> join ", " (m ∷ missing))))

  unfoldable pub render_summary : IntegrationEvent F → Fields F → Result String
  render_summary e facts =
      if is_empty (trim_space e.summary)
      then bad ("event " <> (t.quoted e.name <> " has no summary"))
      else rendered e (fill_in facts (r.pieces e.summary))
