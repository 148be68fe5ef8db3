-- ===== src/Proposal/Offer.antt =====
-- domain/proposal.go: what becomes of the choices that an agent gave.
use open_kael.Prelude.{if_rule}
use text.Mathlib.TextPositions.{eq_refl}
use Prim.Native.String.{count}
use open_kael.Proposal.{
  with_timing, text_of, parse_proposal_choices, min_proposal_choices, max_proposal_choices,
  max_choice_label_runes, longer, is_malformed, fields, ends_sentence, choices_from, Wording,
  ProposalChoice,
}
use open_kael.Prelude.Text.{
  trim_space, trim_right_of, opens, join, is_empty-append, is_empty, eq_iff, ◌<>◌,
}
use open_kael.Prelude.{
  ◌≤◌, ◌≡◌, ◌∷◌, ℕ, ◌||◌, zero, true, take, suc, refl, not, map, ltb, length, has, false, arith,
  all, [], String, List, Bool, ◌&&◌,
}
use open_kael.Values.{nil, cons, Value, Items}
use open_kael.Gates.Rules.{items_of}

unfoldable pub distinct : List String → Bool
distinct [] = true
distinct (k ∷ keys) = not (has k keys) && distinct keys

-- What a button may hold: a label and a sentence, neither empty nor too long.
abbrev pub is_choice : ProposalChoice → Bool
is_choice c = not (is_malformed c.label c.say)

all-take :
    {A : Type 0} (q : A → Bool) (k : ℕ) (xs : List A) → all q xs ≡ true → all q (take k xs) ≡ true
unfolding take
all-take q zero xs h = refl
all-take q (suc k) [] h = refl
all-take q (suc k) (x ∷ xs) h = ground (arith, all-take q k xs)

length-take : {A : Type 0} (k : ℕ) (xs : List A) → k ≤ length xs → length (take k xs) ≡ k
unfolding take
length-take zero xs h = refl
length-take (suc k) [] h = omega (arith, h)
length-take (suc k) (x ∷ xs) h = omega (arith, length-take k xs (omega (arith, h)))

module _ (p : Wording) where
  abbrev pub keys_of : List ProposalChoice → List String
  keys_of choices = map (λ c. p.to_lower c.label) choices

  has-take :
      (key : String) (k : ℕ) (xs : List ProposalChoice)
      → has key (keys_of xs) ≡ false
      → has key (keys_of (take k xs)) ≡ false
  unfolding take
  has-take key zero xs h = refl
  has-take key (suc k) [] h = refl
  has-take key (suc k) (x ∷ xs) h = ground (arith, has-take key k xs)

  distinct-take :
      (k : ℕ) (xs : List ProposalChoice)
      → distinct (keys_of xs) ≡ true
      → distinct (keys_of (take k xs)) ≡ true
  unfolding take distinct
  distinct-take zero xs h = refl
  distinct-take (suc k) [] h = refl
  distinct-take (suc k) (x ∷ xs) h =
      ground (arith, distinct-take k xs, has-take (p.to_lower x.label) k xs)

  with_timing-fits :
      (label say : String)
      → is_malformed label say ≡ false
      → is_malformed (with_timing p label say) say ≡ false
  unfolding with_timing
  with_timing-fits label say h =
      let Fits = λ (l : String). is_malformed l say ≡ false in
      if_rule Fits (is_empty (p.timing say) || p.has_timing label || p.says_when label)
        (λ as_it_is. h)
        (λ lacks.
          if_rule Fits (ltb max_choice_label_runes (count (longer p label (p.timing say))))
            (λ no_room. h)
            (λ room. ground (
              arith,
              is_empty-append (trim_right_of ends_sentence label) (" " <> p.to_lower (p.timing say))
                  (opens " " (p.to_lower (p.timing say)) refl),
            )))

module _ {F : Type 0} (p : Wording) where
  choices_from-fit :
      (seen : List String) (items : Items F) → all is_choice (choices_from p seen items) ≡ true
  unfolding choices_from
  choices_from-fit seen nil = refl
  choices_from-fit seen (cons item items) =
      let label = join " " (fields (text_of "label" item)) in
      let say = trim_space (text_of "say" item) in
      let key = p.to_lower (with_timing p label say) in
      if_rule (λ cs. all is_choice cs ≡ true) (is_malformed label say || has key seen)
        (λ skipped. choices_from-fit seen items)
        (λ good. ground (arith, with_timing-fits p label say, choices_from-fit (key ∷ seen) items))

  -- What was seen is not offered again.
  choices_from-unseen :
      (seen : List String) (items : Items F) (key : String)
      → has key seen ≡ true
      → has key (keys_of p (choices_from p seen items)) ≡ false
  unfolding choices_from
  choices_from-unseen seen nil key h = refl
  choices_from-unseen seen (cons item items) key h =
      let label = join " " (fields (text_of "label" item)) in
      let say = trim_space (text_of "say" item) in
      let new = p.to_lower (with_timing p label say) in
      if_rule (λ cs. has key (keys_of p cs) ≡ false) (is_malformed label say || has new seen)
        (λ skipped. choices_from-unseen seen items key h)
        (λ good. ground (arith, eq_iff new key, choices_from-unseen (new ∷ seen) items key))

  choices_from-distinct :
      (seen : List String) (items : Items F)
      → distinct (keys_of p (choices_from p seen items)) ≡ true
  unfolding choices_from distinct
  choices_from-distinct seen nil = refl
  choices_from-distinct seen (cons item items) =
      let label = join " " (fields (text_of "label" item)) in
      let say = trim_space (text_of "say" item) in
      let new = p.to_lower (with_timing p label say) in
      if_rule (λ cs. distinct (keys_of p cs) ≡ true) (is_malformed label say || has new seen)
        (λ skipped. choices_from-distinct seen items)
        (λ good. ground (
          arith,
          eq_refl new,
          choices_from-unseen (new ∷ seen) items new,
          choices_from-distinct (new ∷ seen) items,
        ))

-- What is offered to a person: nothing, or a real choice.
pub data Offer (p : Wording) : List ProposalChoice → Type 0 where
  no_offer : Offer p []
  offer :
      {choices : List ProposalChoice}
      → min_proposal_choices ≤ length choices
      → length choices ≤ max_proposal_choices
      → all is_choice choices ≡ true
      → distinct (keys_of p choices) ≡ true
      → Offer p choices

module _ {F : Type 0} (p : Wording) where
  -- Whatever an agent gave as its choices, a person is offered none, or two to five: each with a label and
  -- a sentence that are not empty and not too long, no two with the same label but for its case.
  pub parse_proposal_choices-Offer : (raw : Value F) → Offer p (parse_proposal_choices p raw)
  unfolding parse_proposal_choices
  parse_proposal_choices-Offer raw =
      let out = choices_from p [] (items_of raw) in
      let fit = choices_from-fit p [] (items_of raw) in
      let apart = choices_from-distinct p [] (items_of raw) in
      if_rule (Offer p) (ltb (length out) min_proposal_choices) (λ few. no_offer)
        (λ some_of_them.
          if_rule (Offer p) (ltb max_proposal_choices (length out))
            (λ many.
              let five = length-take max_proposal_choices out (ground arith) in
              offer (omega (arith, five)) (omega (arith, five)) (all-take is_choice 5 out fit)
                (distinct-take p 5 out apart))
            (λ right. offer (ground arith) (ground arith) fit apart))
