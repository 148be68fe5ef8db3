-- ===== src/Proposal/RoundTrip.antt =====
-- domain/proposal.go: what a button carries is read back as it was written, and nothing else is read.
use text.Mathlib.TextPositions.{eq_refl}
use open_kael.Proposal.{read_rest, read_position, read_after, ℤ, pos, negsuc}
use open_kael.Proposal.{
  proposal_data, proposal_callback_prefix, pos, parse_proposal_data, cut_behind, Wording,
  cut_prefix, cut_last,
}
use Prim.Native.Char.{code, Char}
use open_kael.Prelude.{
  unless_some, if_some, ◌∙◌, ℕ, sym, inr, inl, ap, Option, Bool-cases, ◌≡◌, ◌||◌, true,
  some_injective, some, refl, none, false, arith, String, Bool, ◌==◌,
}
use open_kael.Prelude.Text.{eq_iff, ◌=ₛ◌, is_empty, ◌<>◌}
use text.Mathlib.TextLemmas.{nil-append, cons-append}
use text.Mathlib.TextEquality.{codes_equal}
use Prim.Native.Nat.{compare, Ordering}

-- `strings.Contains(s, ":")`.
unfoldable pub has_colon : String → Bool
has_colon String.[] = false
has_colon (String.◌∷◌ c s) = code c == b':' || has_colon s

pub cut_prefix-append : (a b : String) → cut_prefix a (a <> b) ≡ some b
unfolding cut_prefix
cut_prefix-append String.[] b = rw (nil-append b) refl
cut_prefix-append (String.◌∷◌ c a) b =
    rw (cons-append c a b) (ground (arith, cut_prefix-append a b))

ordered_equal :
    (o : Ordering) → (elim o [ Ordering.eq ↦ true | _ ↦ false ]) ≡ true → o ≡ Ordering.eq
ordered_equal Ordering.eq h = refl
ordered_equal Ordering.lt h = cc
ordered_equal Ordering.gt h = cc

same_code : (c d : Char) → (code c == code d) ≡ true → c ≡ d
same_code c d h = codes_equal c d (ordered_equal (compare (code c) (code d)) h)

pub append-cut_prefix : (a s b : String) → cut_prefix a s ≡ some b → s ≡ a <> b
unfolding cut_prefix
append-cut_prefix String.[] s b h = rw (nil-append b) (some_injective h)
append-cut_prefix (String.◌∷◌ c a) String.[] b h = cc
append-cut_prefix (String.◌∷◌ c a) (String.◌∷◌ d s) b h = elim (Bool-cases (code c == code d)) [
  | inl same ↦
      rw (same_code c d same, cons-append d a b)
        (ap (λ r. String.◌∷◌ d r) (append-cut_prefix a s b (ground arith)))
  | inr other ↦ ground arith
]

colon-cons : (b : String) → (":" <> b) ≡ String.◌∷◌ ":" b
colon-cons b = cons-append ":" String.[] b ∙ ap (λ s. String.◌∷◌ ":" s) (nil-append b)

cut_last-none : (s : String) → has_colon s ≡ false → cut_last s ≡ none
unfolding cut_last has_colon
cut_last-none String.[] h = refl
cut_last-none (String.◌∷◌ c s) h = rw (cut_last-none s (ground arith)) (ground arith)

cut_last-append : (a b : String) → has_colon b ≡ false → cut_last (a <> (":" <> b)) ≡ some (a, b)
unfolding cut_last
cut_last-append String.[] b h = rw (nil-append (":" <> b), colon-cons b, cut_last-none b h) refl
cut_last-append (String.◌∷◌ c a) b h = rw (cons-append c a (":" <> b), cut_last-append a b h) refl

append-cut_last : (s a b : String) → cut_last s ≡ some (a, b) → s ≡ a <> (":" <> b)
unfolding cut_last
append-cut_last String.[] a b h = cc
append-cut_last (String.◌∷◌ c s) a b h = after (cut_last s) refl (append-cut_last s) h
  where
    after :
        (r : Option (String × String))
        → cut_last s ≡ r
        → ((x y : String) → cut_last s ≡ some (x, y) → s ≡ x <> (":" <> y))
        → cut_behind c s r ≡ some (a, b)
        → String.◌∷◌ c s ≡ a <> (":" <> b)
    after (some (x, y)) e back h =
        let whole : s ≡ x <> (":" <> y) = back x y e in
        let pair = some_injective h in
        rw (sym (ap (λ q. q.0) pair), sym (ap (λ q. q.1) pair), cons-append c x (":" <> y))
          (ap (λ r. String.◌∷◌ c r) whole)
    after none e back h =
        let (colon, found) = if_some (code c == b':') h in
        let pair = some_injective found in
        rw
          (
            same_code c ":" colon,
            sym (ap (λ q. q.0) pair),
            sym (ap (λ q. q.1) pair),
            nil-append (":" <> s),
            colon-cons s,
          )
          refl

module _ (p : Wording) where
  -- What a button carries is read back as the message and the position that it was made for, where the
  -- id of the message is not empty, and fmt reads back the number it printed and prints no colon.
  pub parse_proposal_data-proposal_data :
      (id : String) (i : ℕ)
      → is_empty id ≡ false
      → p.scan (p.print (pos i)) ≡ some (pos i)
      → has_colon (p.print (pos i)) ≡ false
      → parse_proposal_data p (proposal_data p id (pos i)) ≡ some (id, pos i)
  unfolding parse_proposal_data proposal_data
  parse_proposal_data-proposal_data id i present scanned plain =
      rw
        (
          cut_prefix-append proposal_callback_prefix (id <> (":" <> p.print (pos i))),
          cut_last-append id (p.print (pos i)) plain,
          present,
          scanned,
          eq_refl (p.print (pos i)),
        )
        refl

  read_position-print :
      (a text id : String) (i : ℤ) (o : Option ℤ)
      → read_position p a text o ≡ some (id, i)
      → (a ≡ id) × (text ≡ p.print i)
  read_position-print a text id i none h = cc
  read_position-print a text id i (some (negsuc k)) h = cc
  read_position-print a text id i (some (pos k)) h =
      let (same, found) = if_some (p.print (pos k) =ₛ text) h in
      let pair = some_injective found in
      (
        ap (λ q. q.0) pair,
        rw (sym (ap (λ q. q.1) pair)) (sym ((eq_iff (p.print (pos k)) text).0 same)),
      )

  read_rest-print :
      (o : Option (String × String)) (id : String) (i : ℤ)
      → read_rest p o ≡ some (id, i)
      → o ≡ some (id, p.print i)
  read_rest-print none id i h = cc
  read_rest-print (some (a, text)) id i h =
      let (present, found) = unless_some (is_empty a) h in
      let (same_id, same_text) = read_position-print a text id i (p.scan text) found in
      rw (same_id, same_text) refl

  -- Nothing but what a button carries is read: what is read of a text, written again, is the text.
  pub proposal_data-parse_proposal_data :
      (text id : String) (i : ℤ)
      → parse_proposal_data p text ≡ some (id, i)
      → proposal_data p id i ≡ text
  unfolding parse_proposal_data proposal_data
  proposal_data-parse_proposal_data text id i h =
      after (cut_prefix proposal_callback_prefix text) refl h
    where
      after :
          (r : Option String)
          → cut_prefix proposal_callback_prefix text ≡ r
          → read_after p r ≡ some (id, i)
          → proposal_callback_prefix <> (id <> (":" <> p.print i)) ≡ text
      after none e h = cc
      after (some rest) e h =
          let whole = append-cut_prefix proposal_callback_prefix text rest e in
          let behind =
            append-cut_last rest id (p.print i) (read_rest-print (cut_last rest) id i h) in
          rw (sym behind) (sym whole)
