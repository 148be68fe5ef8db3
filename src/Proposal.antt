-- ===== src/Proposal.antt =====
-- domain/proposal.go: a message with choices that a person can tap. Regular expressions, and fmt's
-- printing and scanning of numbers, are parameters.
pub mod RoundTrip
pub mod Offer
mod Examples
use Prim.Native.String.{count}
use open_kael.Gates.Rules.{items_of}
use open_kael.Values.{Items}
use open_kael.Values.{text_or_empty, text_at, obj, nil, cons, Value}
use Prim.Native.Char.{code, Char}
use open_kael.Prelude.{
  ◌∷◌, ℕ, ◌||◌, take, some, none, ltb, length, if◌then◌else◌, has, [], String, Option, List, Bool,
  ◌==◌,
}
use open_kael.Prelude.Text.{trim_space, trim_right_of, join, is_space, is_empty, ◌=ₛ◌, ◌<>◌}

-- `int`.
pub data ℤ : Type 0 where
  pos : ℕ → ℤ
  negsuc : ℕ → ℤ

pub record ProposalChoice : Type 0 where
  pub label : String
  pub say : String

abbrev pub proposal_callback_prefix : String
proposal_callback_prefix = "prop:"

-- What the code takes from fmt, regexp and strings. `scan` is `Sscanf` with "%d", `timing` is
-- `timing.FindString`, and the two tests are `MatchString` of `timing` and `saysWhen`.
pub record Wording : Type 0 where
  pub print : ℤ → String
  pub scan : String → Option ℤ
  pub timing : String → String
  pub has_timing : String → Bool
  pub says_when : String → Bool
  pub to_lower : String → String

-- `strings.CutPrefix`.
unfoldable pub cut_prefix : (prefix : String) → String → Option String
cut_prefix String.[] s = some s
cut_prefix (String.◌∷◌ c p) String.[] = none
cut_prefix (String.◌∷◌ c p) (String.◌∷◌ d s) =
    let rest = cut_prefix p s in if code c == code d then rest else none

-- The texts before and behind the last colon.
abbrev pub cut_behind : Char → String → Option (String × String) → Option (String × String)
cut_behind c s (some (a, b)) = some (String.◌∷◌ c a, b)
cut_behind c s none = if code c == b':' then some ("", s) else none

unfoldable pub cut_last : String → Option (String × String)
cut_last String.[] = none
cut_last (String.◌∷◌ c s) = cut_behind c s (cut_last s)

-- `strings.Fields`: the word that is being read, and the words behind it.
abbrev pub add_word : String → List String → List String
add_word w words = if is_empty w then words else w ∷ words

unfoldable pub words_from : String → String × List String
words_from String.[] = ("", [])
words_from (String.◌∷◌ c s) =
    let (w, words) = words_from s in
    if is_space c then ("", add_word w words) else (String.◌∷◌ c w, words)

unfoldable pub fields : String → List String
fields s = let (w, words) = words_from s in add_word w words

abbrev pub min_proposal_choices : ℕ
min_proposal_choices = 2

abbrev pub max_proposal_choices : ℕ
max_proposal_choices = 5

abbrev pub max_choice_label_runes : ℕ
max_choice_label_runes = 40

abbrev pub max_choice_say_runes : ℕ
max_choice_say_runes = 300

-- `m[key].(string)`, "" where it is none.
abbrev pub text_of : {F : Type 0} → String → Value F → String
text_of key (obj m) = text_at key m
text_of key v = ""

abbrev pub ends_sentence : Char → Bool
ends_sentence c = code c == b'.' || code c == b'!' || code c == b'?'

-- Whether a label and what it says are too little or too much for a button.
abbrev pub is_malformed : (label say : String) → Bool
is_malformed label say =
    is_empty label
    || is_empty say
    || ltb max_choice_label_runes (count label)
    || ltb max_choice_say_runes (count say)

module _ (p : Wording) where
  -- `ProposalData`.
  unfoldable pub proposal_data : String → ℤ → String
  proposal_data id i = proposal_callback_prefix <> (id <> (":" <> p.print i))

  -- The position behind the last colon.
  abbrev pub read_position : (id text : String) → Option ℤ → Option (String × ℤ)
  read_position id text none = none
  read_position id text (some (negsuc k)) = none
  read_position id text (some (pos k)) = if p.print (pos k) =ₛ text then some (id, pos k) else none

  abbrev pub read_rest : Option (String × String) → Option (String × ℤ)
  read_rest none = none
  read_rest (some (id, text)) = if is_empty id then none else read_position id text (p.scan text)

  abbrev pub read_after : Option String → Option (String × ℤ)
  read_after none = none
  read_after (some rest) = read_rest (cut_last rest)

  -- `ParseProposalData`.
  unfoldable pub parse_proposal_data : String → Option (String × ℤ)
  parse_proposal_data text = read_after (cut_prefix proposal_callback_prefix text)

  abbrev pub longer : (label when : String) → String
  longer label when = trim_right_of ends_sentence label <> (" " <> p.to_lower when)

  -- `withTiming`.
  unfoldable pub with_timing : (label say : String) → String
  with_timing label say =
      if is_empty (p.timing say) || p.has_timing label || p.says_when label
      then label
      else if ltb max_choice_label_runes (count (longer label (p.timing say)))
      then label
      else longer label (p.timing say)

abbrev pub enough : List ProposalChoice → List ProposalChoice
enough out =
    if ltb (length out) min_proposal_choices
    then []
    else if ltb max_proposal_choices (length out)
    then take max_proposal_choices out
    else out

module _ {F : Type 0} (p : Wording) where
  -- The loop over the items.
  unfoldable pub choices_from : (seen : List String) → Items F → List ProposalChoice
  choices_from seen nil = []
  choices_from seen (cons item items) =
      let label = join " " (fields (text_of "label" item)) in
      let say = trim_space (text_of "say" item) in
      let skipped = choices_from seen items in
      let rest = choices_from (p.to_lower (with_timing p label say) ∷ seen) items in
      if is_malformed label say || has (p.to_lower (with_timing p label say)) seen
      then skipped
      else record { label = with_timing p label say; say = say } ∷ rest

  -- `ParseProposalChoices`.
  unfoldable pub parse_proposal_choices : Value F → List ProposalChoice
  parse_proposal_choices raw = enough (choices_from [] (items_of raw))
