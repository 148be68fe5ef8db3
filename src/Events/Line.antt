-- ===== src/Events/Line.antt =====
-- domain/event_summary.go: how a fact is written into a message.
use open_kael.Loop.Cut.{truncate_runes-printed, truncate_runes-count_le, all_chars-append}
use Prim.Native.String.{count}
use open_kael.Values.{Value}
use open_kael.Gates.{Texts}
use open_kael.Prelude.{List, ◌≤◌, ◌∷◌, [], String}
use open_kael.ToolContract.{all_chars}
use open_kael.Proposal.{fields, words_from, add_word}
use Prim.Native.Char.{code, Char}
use open_kael.Prelude.Text.{join, is_empty, is_space}
use open_kael.Prelude.{◌≡◌, ◌||◌, true, refl, not, if_rule, arith, Bool, All, ◌==◌, ◌&&◌}
use open_kael.Events.{written, plain_value, Reading, is_control, one_line}

-- A character that may stand on a line: a space is the only white space.
abbrev pub is_printed : Char → Bool
is_printed c = not (is_control c) && (not (is_space c) || code c == 32)

space_is_printed : is_printed " " ≡ true
unfolding is_space
space_is_printed = refl

one_line-printed : (s : String) → all_chars is_printed (one_line s) ≡ true
unfolding one_line all_chars
one_line-printed String.[] = refl
one_line-printed (String.◌∷◌ c s) =
    if_rule (λ (l : String). all_chars is_printed l ≡ true) (is_space c)
      (λ space. ground (arith, one_line-printed s, space_is_printed))
      (λ other.
        if_rule (λ (l : String). all_chars is_printed l ≡ true) (is_control c)
          (λ control. one_line-printed s) (λ plain. ground (arith, one_line-printed s)))

-- The word being read and the words behind it have the characters of the text.
words_from-printed :
    (p : Char → Bool) (s : String)
    → all_chars p s ≡ true
    → (all_chars p (words_from s).0 ≡ true) × All (λ w. all_chars p w ≡ true) (words_from s).1
unfolding words_from all_chars
words_from-printed p String.[] h = (refl, tt)
words_from-printed p (String.◌∷◌ c s) h =
    let found = words_from-printed p s (ground arith) in
    if_rule
      (λ (r : String × List String). (all_chars p r.0 ≡ true) × All (λ w. all_chars p w ≡ true) r.1)
      (is_space c) (λ space. (refl, added (words_from s).0 (words_from s).1 found.0 found.1))
      (λ other. (ground (arith, found.0), found.1))
  where
    added :
        (w : String) (words : List String)
        → all_chars p w ≡ true
        → All (λ x. all_chars p x ≡ true) words
        → All (λ x. all_chars p x ≡ true) (add_word w words)
    added w words h k =
        if_rule (λ (l : List String). All (λ x. all_chars p x ≡ true) l) (is_empty w) (λ gone. k)
          (λ there. (h, k))

join-printed :
    (p : Char → Bool) (words : List String)
    → all_chars p " " ≡ true
    → All (λ w. all_chars p w ≡ true) words
    → all_chars p (join " " words) ≡ true
unfolding join all_chars
join-printed p [] b h = refl
join-printed p (w ∷ []) b h = h.0
join-printed p (w ∷ v ∷ words) b h =
    all_chars-append p w _ h.0 (all_chars-append p " " _ b (join-printed p (v ∷ words) b h.1))

fields-printed :
    (p : Char → Bool) (s : String)
    → all_chars p s ≡ true
    → All (λ w. all_chars p w ≡ true) (fields s)
unfolding fields
fields-printed p s h =
    let found = words_from-printed p s h in
    if_rule (λ (l : List String). All (λ x. all_chars p x ≡ true) l) (is_empty (words_from s).0)
      (λ gone. found.1) (λ there. (found.0, found.1))

module _ {F : Type 0} (t : Texts F) (r : Reading F) where
  -- A fact that is written into a message, whatever it is, is one line: no control character, no white
  -- space but the space, and at most 201 characters with the sign that it was cut.
  pub plain_value-printed :
      (v : Value F)
      → (all_chars is_printed (plain_value t r v) ≡ true) × (count (plain_value t r v) ≤ 201)
  unfolding plain_value all_chars is_space
  plain_value-printed v =
      let line = one_line (written t r v) in
      (
        truncate_runes-printed is_printed (join " " (fields line)) 200 refl (
            join-printed is_printed (fields line) refl
              (fields-printed is_printed line (one_line-printed (written t r v)))),
        truncate_runes-count_le (join " " (fields line)) 200,
      )
