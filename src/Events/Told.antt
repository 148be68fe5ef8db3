-- ===== src/Events/Told.antt =====
-- domain/event_contract.go and domain/event_summary.go: an event that keeps the contract, and
-- a payload that passed its check.
use open_kael.Events.Contract.{
  named_check, is_account, check_payload, validate_event, subject_problems, sample_problems,
  repeat_problems, field_problems, event_messages,
}
use open_kael.Gates.Rules.{not_given}
use open_kael.Contract.Required.{check_input-given}
use open_kael.Contract.{invalid, CheckedInput, check_input, accepted}
use open_kael.Schema.{properties_of, find_property, Schema, Properties}
use open_kael.Events.{
  rendered, without_blanks, summary_problems, rest_problems, render_summary, form_problems, words,
  template_problems, fill_in, blanks_of, blank_problems, blank_problem, blank, Reading, Piece,
  IntegrationEvent,
}
use open_kael.Gates.{Texts, Floats}
use open_kael.Values.{get, Fields}
use open_kael.Prelude.Text.{trim_space, is_empty, eq_iff, ◌=ₛ◌}
use open_kael.Prelude.{
  not, bad, Result, ◌≡◌, ◌∷◌, true, sym, some, refl, ok, none, map, inr, inl, has, false, arith, [],
  String, Option, List, Bool-cases, All, ◌++◌,
}
use mathlib.Core.List.{Memᴰ}
use open_kael.ToolContract.{said_if, required_of}

append-nil : {A : Type 0} (xs ys : List A) → xs ++ ys ≡ [] → (xs ≡ []) × (ys ≡ [])
append-nil [] ys h = (refl, h)
append-nil (x ∷ xs) ys h = cc

map-nil : {A B : Type 0} (f : A → B) (xs : List A) → map f xs ≡ [] → xs ≡ []
map-nil f [] h = refl
map-nil f (x ∷ xs) h = cc

has-Mem : (name : String) (names : List String) → has name names ≡ true → Memᴰ name names
has-Mem name [] h = cc
has-Mem name (n ∷ names) h = elim (Bool-cases (n =ₛ name)) [
  | inl same ↦ Memᴰ.head (sym ((eq_iff n name).0 same))
  | inr other ↦ Memᴰ.tail (has-Mem name names (ground arith))
]

blank_problem-required :
    (required : List String) (name : String) (found : Option Schema)
    → blank_problem required name found ≡ []
    → has name required ≡ true
unfolding blank_problem
blank_problem-required required name none h = cc
blank_problem-required required name (some s) h = ground arith

-- Every blank is required of the payload.
blank_problems-required :
    (props : Properties) (required names : List String)
    → blank_problems props required names ≡ []
    → All (λ b. has b required ≡ true) names
unfolding blank_problems
blank_problems-required props required [] h = tt
blank_problems-required props required (b ∷ names) h =
    let (first, rest) = append-nil (blank_problem required b (find_property b props)) _ h in
    (
      blank_problem-required required b (find_property b props) first,
      blank_problems-required props required names rest,
    )

module _ {F : Type 0} (t : Texts F) (n : Floats F) (r : Reading F) where
  -- Where no fact is missing, the filling lacks none.
  fill_in-none_missing :
      (facts : Fields F) (pieces : List Piece)
      → All (λ b. not_given (get b facts) ≡ false) (blanks_of pieces)
      → (fill_in t r facts pieces).1 ≡ []
  unfolding fill_in
  fill_in-none_missing facts [] h = refl
  fill_in-none_missing facts (words s ∷ rest) h = fill_in-none_missing facts rest h
  fill_in-none_missing facts (blank name ∷ rest) h =
      ground (arith, fill_in-none_missing facts rest h.1)

  given_blanks :
      (e : IntegrationEvent F) (input facts : Fields F) (names : List String)
      → check_input t n e.payload input ≡ accepted facts
      → All (λ b. has b (required_of e.payload) ≡ true) names
      → All (λ b. not_given (get b facts) ≡ false) names
  given_blanks e input facts [] passed h = tt
  given_blanks e input facts (b ∷ names) passed h = (
    check_input-given t n e.payload input facts b passed (has-Mem b (required_of e.payload) h.0),
    given_blanks e input facts names passed h.1,
  )

  template_problems-required :
      (e : IntegrationEvent F)
      → template_problems t r e ≡ []
      → All (λ b. has b (required_of e.payload) ≡ true) (blanks_of (r.pieces e.summary))
  unfolding template_problems
  template_problems-required e h =
      let pieces = r.pieces e.summary in
      let before = append-nil _ (rest_problems t r (without_blanks pieces)) h in
      let blanks =
        append-nil (form_problems t r e.summary (blanks_of pieces))
          (blank_problems (properties_of e.payload) (required_of e.payload) (blanks_of pieces))
          before.0 in
      blank_problems-required (properties_of e.payload) (required_of e.payload) _ blanks.1

  -- What is wrong with each part of an event that keeps the contract: nothing.
  record KeepsContract (e : IntegrationEvent F) : Type 0 where
    subject : subject_problems t n r e ≡ []
    repeats :
        repeat_problems t n r e e.repeat_key (find_property e.repeat_key (properties_of e.payload))
        ≡ []
    summary : summary_problems t r e ≡ []

  event_messages-nil :
      (service : String) (e : IntegrationEvent F)
      → event_messages t n r service e ≡ []
      → KeepsContract e
  unfolding event_messages
  event_messages-nil service e h =
      let h1 = append-nil _ (sample_problems t n r e e.sample) h in
      let h2 = append-nil _ (summary_problems t r e) h1.0 in
      let h3 =
        append-nil _
          (repeat_problems t n r e e.repeat_key
            (find_property e.repeat_key (properties_of e.payload)))
          h2.0 in
      let h4 = append-nil _ (subject_problems t n r e) h3.0 in
      record { subject = h4.1; repeats = h3.1; summary = h2.1 }

  validate_event-nil :
      (service : String) (e : IntegrationEvent F)
      → validate_event t n r service e ≡ []
      → KeepsContract e
  unfolding validate_event
  validate_event-nil service e h =
      event_messages-nil service e (map-nil _ (event_messages t n r service e) h)

  -- A line that was told.
  pub data IsTold : Result String → Type 0 where
    told : (text : String) → IsTold (ok text)

  all_filled :
      (e : IntegrationEvent F) (filled : String × List String)
      → filled.1 ≡ []
      → IsTold (rendered t r e filled)
  all_filled e (text, []) h = told text
  all_filled e (text, m ∷ missing) h = cc

  render_summary-IsTold :
      (e : IntegrationEvent F) (input facts : Fields F)
      → is_empty (trim_space e.summary) ≡ false
      → summary_problems t r e ≡ []
      → check_input t n e.payload input ≡ accepted facts
      → IsTold (render_summary t r e facts)
  unfolding render_summary summary_problems
  render_summary-IsTold e input facts present h passed =
      let lines : template_problems t r e ≡ [] = rw present at h in
      let nothing = fill_in-none_missing facts (r.pieces e.summary) (
        given_blanks e input facts (blanks_of (r.pieces e.summary)) passed
          (template_problems-required e lines)) in
      rw present (all_filled e (fill_in t r facts (r.pieces e.summary)) nothing)

  repeat_problems-required :
      (e : IntegrationEvent F) (name : String) (found : Option Schema)
      → repeat_problems t n r e name found ≡ []
      → has name (required_of e.payload) ≡ true
  repeat_problems-required e name none h = ground arith
  repeat_problems-required e name (some k) h = ground arith

  field_problems-required :
      (e : IntegrationEvent F) (name : String) (found : Option Schema)
      → field_problems t n r e name found ≡ []
      → has name (required_of e.payload) ≡ true
  field_problems-required e name none h = ground arith
  field_problems-required e name (some k) h = ground arith

  -- What is there for an occurrence of an event.
  pub record IsComplete (e : IntegrationEvent F) (facts : Fields F) : Type 0 where
    pub repeat_key : not_given (get e.repeat_key facts) ≡ false
    pub person :
        (e.subject.kind =ₛ "payload") ≡ true → not_given (get e.subject.field facts) ≡ false
    pub line : is_empty (trim_space e.summary) ≡ false → IsTold (render_summary t r e facts)

  subject_problems-required :
      (e : IntegrationEvent F)
      → subject_problems t n r e ≡ []
      → (e.subject.kind =ₛ "payload") ≡ true
      → has e.subject.field (required_of e.payload) ≡ true
  subject_problems-required e h about =
      let parts =
        append-nil
          (field_problems t n r e e.subject.field
            (find_property e.subject.field (properties_of e.payload)))
          (said_if (not (is_account e.subject.account))
            "must say what kind of account the person is identified by, such as github_login")
          (rw about at h) in
      field_problems-required e e.subject.field
        (find_property e.subject.field (properties_of e.payload)) parts.0

  contract-IsComplete :
      (service : String) (e : IntegrationEvent F) (input facts : Fields F)
      → validate_event t n r service e ≡ []
      → check_input t n e.payload input ≡ accepted facts
      → IsComplete e facts
  contract-IsComplete service e input facts valid passed =
      let k = validate_event-nil service e valid in
      record {
        repeat_key = check_input-given t n e.payload input facts e.repeat_key passed (
            has-Mem e.repeat_key (required_of e.payload) (
              repeat_problems-required e e.repeat_key
                (find_property e.repeat_key (properties_of e.payload)) k.repeats));
        person = λ about. check_input-given t n e.payload input facts e.subject.field passed (
            has-Mem e.subject.field (required_of e.payload)
              (subject_problems-required e k.subject about));
        line = λ present. render_summary-IsTold e input facts present k.summary passed;
      }

  named_check-accepted :
      (e : IntegrationEvent F) (c : CheckedInput F) {facts : Fields F}
      → named_check t n r e c ≡ accepted facts
      → c ≡ accepted facts
  named_check-accepted e (accepted out) h = h
  named_check-accepted e (invalid why) h = cc

  -- Of an event that keeps the contract, whatever payload passes its check can be used: it has the key
  -- by which a repeated delivery is known, it has the person where the event is about someone (neither
  -- is null or empty text), and the event's summary, if it has one, can be told, with no fact missing.
  pub check_payload-IsComplete :
      (service : String) (e : IntegrationEvent F) (decoded : Result (Fields F)) (facts : Fields F)
      → validate_event t n r service e ≡ []
      → check_payload t n r e decoded ≡ accepted facts
      → IsComplete e facts
  unfolding check_payload
  check_payload-IsComplete service e (bad why) facts valid h = ground arith
  check_payload-IsComplete service e (ok input) facts valid h =
      contract-IsComplete service e input facts valid
        (named_check-accepted e (check_input t n e.payload input) (ground (arith, h)))
