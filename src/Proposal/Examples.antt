-- ===== src/Proposal/Examples.antt =====
-- Proposals at concrete inputs: a printer of one digit, and no words that say when.
use open_kael.Proposal.RoundTrip.{
  proposal_data-parse_proposal_data, parse_proposal_data-proposal_data, has_colon,
}
use open_kael.Prelude.{◌≡◌, ◌∷◌, ℕ, some, refl, none, if◌then◌else◌, false, []}
use open_kael.Proposal.Offer.{parse_proposal_choices-Offer, Offer}
use open_kael.Prelude.Text.{trim_space, join, is_space, ◌=ₛ◌}
use open_kael.Proposal.{
  words_from, with_timing, proposal_data, parse_proposal_data, parse_proposal_choices, fields,
  cut_prefix, cut_last, choices_from, Wording, pos, negsuc,
}
use open_kael.Values.{text_at, str, obj, get, field, arr, Value, end, nil, cons}

abbrev wording : Wording
wording = record {
  print = λ i. elim i [ pos k ↦ "7" | negsuc k ↦ "-1" ];
  scan = λ s. if s =ₛ "7" then some (pos 7) else none;
  timing = λ s. "";
  has_timing = λ s. false;
  says_when = λ s. false;
  to_lower = λ s. s;
}

parse_proposal_data-proposal_data_example :
    parse_proposal_data wording (proposal_data wording "a:b" (pos 7)) ≡ some ("a:b", pos 7)
unfolding has_colon
parse_proposal_data-proposal_data_example =
    parse_proposal_data-proposal_data wording "a:b" 7 refl refl refl

proposal_data-parse_proposal_data_example : proposal_data wording "a:b" (pos 7) ≡ "prop:a:b:7"
unfolding parse_proposal_data cut_prefix cut_last
proposal_data-parse_proposal_data_example =
    proposal_data-parse_proposal_data wording "prop:a:b:7" "a:b" (pos 7) refl

abbrev move : Value ℕ
move = obj (field "label" (str " Move  it ") (field "say" (str "Move my dentist appointment.") end))

abbrev keep : Value ℕ
keep = obj (field "label" (str "Keep it") (field "say" (str "Keep it as it is.") end))

abbrev given : Value ℕ
given = arr (cons move (cons (str "?") (cons keep (cons move nil))))

offered :
    parse_proposal_choices wording given
    ≡ record { label = "Move it"; say = "Move my dentist appointment." }
      ∷ record { label = "Keep it"; say = "Keep it as it is." }
      ∷ []
unfolding parse_proposal_choices choices_from text_at get fields words_from is_space join trim_space
    with_timing
offered = refl

parse_proposal_choices-Offer_example : Offer wording (parse_proposal_choices wording given)
parse_proposal_choices-Offer_example = parse_proposal_choices-Offer wording given
