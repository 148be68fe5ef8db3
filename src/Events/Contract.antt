-- ===== src/Events/Contract.antt =====
-- domain/event_contract.go: `ValidateEvent`, every way in which an event breaks the contract, as the texts
-- of the errors; `ValidEvents` and `CheckPayload`.
use Prim.Native.String.{len}
use open_kael.Schema.{items_of}
use open_kael.Outcome.{is_nil}
use open_kael.Schema.{schema, properties_of, no_items, find_property, Schema, Properties}
use open_kael.Events.{summary_problems, Reading, IntegrationEvent}
use open_kael.Gates.{Texts, Floats}
use open_kael.Values.{Fields}
use open_kael.Contract.{invalid, check_input, accepted, CheckedInput}
use Prim.Native.Char.{code, Char}
use open_kael.Prelude.Text.{trim_space, starts_with, is_empty, ◌=ₛ◌, ◌<>◌}
use open_kael.Prelude.{
  ◌∷◌, ℕ, ◌||◌, true, some, ok, not, none, map, ltb, length, leb, is_some, if◌then◌else◌, has,
  false, bad, [], String, Result, Option, List, Bool, ◌==◌, ◌++◌, ◌&&◌,
}
use open_kael.ToolContract.{said_if, property_names, all_chars, required_of, type_name}

abbrev pub arrival_pushed : String
arrival_pushed = "pushed"

abbrev pub arrival_internal : String
arrival_internal = "internal"

abbrev pub subject_payload : String
subject_payload = "payload"

abbrev pub subject_nobody : String
subject_nobody = "nobody"

abbrev pub max_event_description_len : ℕ
max_event_description_len = 120

abbrev pub max_event_payload_properties : ℕ
max_event_payload_properties = 20

abbrev pub is_lower : Char → Bool
is_lower c = leb b'a' (code c) && leb (code c) b'z'

abbrev pub is_word_char : Char → Bool
is_word_char c = is_lower c || (leb b'0' (code c) && leb (code c) b'9') || code c == b'_'

-- `eventNameRe` behind its first letter: whether there was a dot, and whether one stands right before.
unfoldable pub is_dotted : (dotted fresh : Bool) → String → Bool
is_dotted dotted fresh String.[] = dotted && not fresh
is_dotted dotted fresh (String.◌∷◌ c s) = elim (code c == b'.') [
  | true ↦ not fresh && is_dotted true true s
  | false ↦ is_word_char c && is_dotted dotted false s
]

-- `eventNameRe`: `^[a-z][a-z0-9_]*(\.[a-z0-9_]+)+$`.
abbrev pub is_event_name : String → Bool
is_event_name String.[] = false
is_event_name (String.◌∷◌ c s) = is_lower c && is_dotted false false s

-- `eventAccountRe`: `^[a-z][a-z0-9_]*$`.
abbrev pub is_account : String → Bool
is_account String.[] = false
is_account (String.◌∷◌ c s) = is_lower c && all_chars is_word_char s

abbrev pub item_type : Schema → String
item_type (schema type d p no_items r e) = ""
item_type (schema type d p (items_of (schema inner d' p' i' r' e')) r e) = inner

abbrev pub description_of : Schema → String
description_of (schema type d p i r e) = d

module _ {F : Type 0} (t : Texts F) (n : Floats F) (r : Reading F) where
  -- `EventProblem.Error`.
  abbrev pub event_problem : IntegrationEvent F → String → String
  event_problem e message = "event " <> (t.quoted e.name <> (": " <> message))

  abbrev pub name_problems : String → IntegrationEvent F → List String
  name_problems service e =
      if not (is_event_name e.name)
      then ("the name must be lowercase words separated by dots, such as "
          <> (service <> ".thing.happened"))
        ∷ []
      else said_if (not (starts_with e.name (service <> ".")))
          ("the name must start with its integration, " <> t.quoted (service <> "."))

  abbrev pub word_in_description : Option String → List String
  word_in_description none = []
  word_in_description (some w) =
      ("description uses a platform word ("
        <> (t.quoted w <> "); say what happened in plain words"))
      ∷ []

  abbrev pub event_description_problems : String → List String
  event_description_problems d =
      if is_empty d
      then "has no description" ∷ []
      else if ltb max_event_description_len (len d)
      then ("description is "
          <> (t.itoa (len d)
              <> (" characters; the most allowed is " <> t.itoa max_event_description_len)))
        ∷ []
      else word_in_description (r.platform_word d)

  abbrev pub arrival_problems : IntegrationEvent F → List String
  arrival_problems e =
      if e.arrival =ₛ arrival_pushed
      then said_if (not e.has_handler) "is pushed to us but has no handler to decode a delivery"
      else said_if (not (e.arrival =ₛ arrival_internal))
          ("must say how it arrives (pushed or internal), not " <> t.quoted e.arrival)

  abbrev pub prop_problems : (what : String) → (name : String) → Option Schema → List String
  prop_problems what name none = []
  prop_problems what name (some p) =
      said_if (is_empty (type_name p)) (what <> (" " <> (t.quoted name <> " has no type")))
      ++ said_if (is_empty (trim_space (description_of p)))
          (what <> (" " <> (t.quoted name <> " has no description")))
      ++ said_if (type_name p =ₛ "array" && is_empty (item_type p))
          (what <> (" " <> (t.quoted name <> " is a list without a type for its items")))

  unfoldable pub all_prop_problems : (what : String) → Properties → List String → List String
  all_prop_problems what props [] = []
  all_prop_problems what props (name ∷ names) =
      prop_problems what name (find_property name props) ++ all_prop_problems what props names

  unfoldable pub not_described : (what : String) → Properties → List String → List String
  not_described what props [] = []
  not_described what props (name ∷ required) =
      said_if (not (is_some (find_property name props)))
        (what <> (" requires " <> (t.quoted name <> ", which it doesn't describe")))
      ++ not_described what props required

  -- `badProps`.
  abbrev pub bad_props : (what : String) → Schema → List String
  bad_props what s =
      all_prop_problems what (properties_of s) (t.sorted (property_names (properties_of s)))
      ++ not_described what (properties_of s) (required_of s)

  abbrev pub payload_problems : IntegrationEvent F → List String
  payload_problems e =
      said_if (not (type_name e.payload =ₛ "object"))
        ("payload must be an object, not " <> t.quoted (type_name e.payload))
      ++ said_if (is_nil (property_names (properties_of e.payload))) "payload describes nothing"
      ++ said_if
          (ltb max_event_payload_properties (length (property_names (properties_of e.payload))))
          ("payload has "
            <> (t.itoa (length (property_names (properties_of e.payload)))
                <> (" properties; the most allowed is " <> t.itoa max_event_payload_properties)))
      ++ bad_props "payload property" e.payload

  abbrev pub option_problems : IntegrationEvent F → List String
  option_problems e =
      said_if (not (is_empty (type_name e.options)) && not (type_name e.options =ₛ "object"))
        ("options must be an object, not " <> t.quoted (type_name e.options))
      ++ bad_props "option" e.options

  -- What is wrong with the property that says who an event is about.
  abbrev pub field_problems : IntegrationEvent F → (name : String) → Option Schema → List String
  field_problems e name found =
      if is_empty name
      then "says it is about someone in the payload but not which property" ∷ []
      else elim found [
        | none ↦
            ("the property that says who it is about, "
              <> (t.quoted name <> ", is not in the payload"))
            ∷ []
        | some f ↦
            if not (type_name f =ₛ "string")
            then ("the property that says who it is about, " <> (t.quoted name <> ", must be text"))
              ∷ []
            else said_if (not (has name (required_of e.payload))) (
                "the property that says who it is about, "
                <> (t.quoted name <> ", must be required"))
      ]

  abbrev pub subject_problems : IntegrationEvent F → List String
  subject_problems e =
      if e.subject.kind =ₛ subject_payload
      then field_problems e e.subject.field
          (find_property e.subject.field (properties_of e.payload))
        ++ said_if (not (is_account e.subject.account))
            "must say what kind of account the person is identified by, such as github_login"
      else if e.subject.kind =ₛ subject_nobody
      then said_if (not (is_empty e.subject.field) || not (is_empty e.subject.account))
          "is about nobody, so it has no property or account for who"
      else ("must say who it is about, not " <> t.quoted e.subject.kind) ∷ []

  abbrev pub repeat_problems : IntegrationEvent F → (name : String) → Option Schema → List String
  repeat_problems e name found =
      if is_empty name
      then "has no repeat key, so the same occurrence could be handled twice" ∷ []
      else elim found [
        | none ↦ ("the repeat key " <> (t.quoted name <> " is not in the payload")) ∷ []
        | some k ↦
            if not (type_name k =ₛ "string") && not (type_name k =ₛ "integer")
            then ("the repeat key " <> (t.quoted name <> " must be text or a whole number")) ∷ []
            else said_if (not (has name (required_of e.payload)))
                ("the repeat key " <> (t.quoted name <> " must be required"))
      ]

  abbrev pub checked_sample : CheckedInput F → List String
  checked_sample (accepted out) = []
  checked_sample (invalid e) =
      ("the sample payload doesn't satisfy its own schema (" <> (e <> ")")) ∷ []

  abbrev pub sample_problems : IntegrationEvent F → Option (Fields F) → List String
  sample_problems e none = "has no sample payload" ∷ []
  sample_problems e (some sample) =
      if is_nil (property_names (properties_of e.payload))
      then []
      else checked_sample (check_input t n e.payload sample)

  -- The messages of `ValidateEvent`, in their order.
  unfoldable pub event_messages : (service : String) → IntegrationEvent F → List String
  event_messages service e =
      name_problems service e
      ++ event_description_problems (trim_space e.description)
      ++ arrival_problems e
      ++ payload_problems e
      ++ option_problems e
      ++ subject_problems e
      ++ repeat_problems e e.repeat_key (find_property e.repeat_key (properties_of e.payload))
      ++ summary_problems t r e
      ++ sample_problems e e.sample

  -- `ValidateEvent`.
  unfoldable pub validate_event : (service : String) → IntegrationEvent F → List String
  validate_event service e = map (λ message. event_problem e message) (event_messages service e)

  -- The loop of `ValidEvents`: the errors, and the events that are kept.
  unfoldable pub valid_from :
      (service : String)
      → (seen : List String) → List (IntegrationEvent F)
      → List String × List (IntegrationEvent F)
  valid_from service seen [] = ([], [])
  valid_from service seen (e ∷ events) =
      let (errs, skipped) = valid_from service seen events in
      let (errs', rest) = valid_from service (e.name ∷ seen) events in
      if not (is_nil (validate_event service e))
      then (validate_event service e ++ errs, skipped)
      else if has e.name seen
      then (event_problem e "is used by more than one event" ∷ errs, skipped)
      else (errs', e ∷ rest)

  -- `ValidEvents`.
  abbrev pub valid_events :
      (service : String) → List (IntegrationEvent F) → List String × List (IntegrationEvent F)
  valid_events service events = valid_from service [] events

  -- `CheckPayload`; `decoded` is what `json.Unmarshal` makes of the text.
  abbrev pub named_check : IntegrationEvent F → CheckedInput F → CheckedInput F
  named_check e (accepted out) = accepted out
  named_check e (invalid why) = invalid (event_problem e why)

  unfoldable pub check_payload : IntegrationEvent F → (decoded : Result (Fields F)) → CheckedInput F
  check_payload e decoded =
      if not (type_name e.payload =ₛ "object")
      then invalid (event_problem e "it describes no payload, so a delivery can't be checked")
      else elim decoded [
        | bad why ↦ invalid (event_problem e ("the payload is not a JSON object: " <> why))
        | ok input ↦ named_check e (check_input t n e.payload input)
      ]
