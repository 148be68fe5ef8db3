-- ===== src/Events/Examples.antt =====
-- domain/event_contract.go and domain/event_summary.go: a pull request is opened.
use open_kael.Gates.{value_at}
use open_kael.Loop.Flow.{truncate_runes}
use open_kael.Gates.Rules.{set}
use open_kael.Prelude.Text.{trim_space, join}
use open_kael.Proposal.{words_from, fields}
use open_kael.Gates.Examples.{texts, floats}
use open_kael.Events.Contract.{
  check_payload, not_described, is_dotted, event_messages, all_prop_problems, validate_event,
  valid_events,
}
use open_kael.Contract.{
  check, without, type_of, take_property, take_given, require, in_enum, finish_object, convert,
  checked_object, check_required, check_properties, check_input, as_string,
}
use open_kael.Events.Line.{plain_value-printed, is_printed}
use Prim.Native.String.{count}
use open_kael.ToolContract.{property_names, all_chars}
use open_kael.Prelude.{◌≤◌, ◌≡◌, ◌∷◌, ℕ, true, some, refl, ok, none, []}
use open_kael.Events.{
  template_problems, summary_problems, one_line, has_twice, has_line_break, fill_in, blank_problems,
  blank_problem, words, render_summary, plain_value, blank, Reading, IntegrationEvent,
}
use open_kael.Events.Kept.{valid_events-AreKept, AreKept}
use open_kael.Values.{get, str, Fields, end, field}
use open_kael.Schema.{find_property, schema, no_items, Schema, Properties, property}
use open_kael.Events.Told.{check_payload-IsComplete, IsComplete}

abbrev reading : Reading ℕ
reading = record {
  pieces = λ s. words "New: " ∷ blank "title" ∷ [];
  platform_word = λ s. none;
  whole = λ x. none;
}

abbrev some_text : Schema
some_text = schema "string" "What it says" Properties.end no_items [] []

abbrev payload : Schema
payload =
    schema "object" "" (property "title" some_text (property "author" some_text Properties.end))
      no_items ("title" ∷ "author" ∷ []) []

abbrev facts : Fields ℕ
facts = field "title" (str "Fix the  door") (field "author" (str "ann") end)

abbrev pull_request : IntegrationEvent ℕ
pull_request = record {
  name = "github.pull_request.opened";
  description = "A pull request was opened";
  arrival = "pushed";
  subject = record { kind = "payload"; field = "author"; account = "github_login" };
  payload = payload;
  options = schema "" "" Properties.end no_items [] [];
  repeat_key = "title";
  sample = some facts;
  summary = "New: {{title}}";
  has_handler = true;
}

pull_request-valid : validate_event texts floats reading "github" pull_request ≡ []
unfolding validate_event event_messages trim_space all_prop_problems not_described find_property
    summary_problems template_problems blank_problems blank_problem has_line_break has_twice
    property_names is_dotted all_chars check_input checked_object check_properties take_given
    take_property finish_object check_required require check convert as_string in_enum type_of get
    set value_at without
pull_request-valid = refl

render_lem : render_summary texts reading pull_request facts ≡ ok "New: Fix the door"
unfolding render_summary fill_in plain_value one_line fields words_from join truncate_runes
    trim_space get
render_lem = refl

check_payload-IsComplete_example : IsComplete texts floats reading pull_request facts
unfolding check_payload check_input checked_object finish_object check_required require get
    check_properties take_given value_at take_property convert type_of as_string in_enum set
check_payload-IsComplete_example =
    check_payload-IsComplete texts floats reading "github" pull_request (ok facts) facts
      pull_request-valid refl

valid_events-AreKept_example :
    AreKept texts floats reading "github" []
      (valid_events texts floats reading "github" (pull_request ∷ pull_request ∷ [])).1
valid_events-AreKept_example =
    valid_events-AreKept texts floats reading "github" (pull_request ∷ pull_request ∷ [])

plain_value-printed_example :
    (all_chars is_printed (plain_value texts reading (str "a\nb")) ≡ true)
    × (count (plain_value texts reading (str "a\nb")) ≤ 201)
plain_value-printed_example = plain_value-printed texts reading (str "a\nb")
