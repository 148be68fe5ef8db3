-- ===== src/Loop/Cut.antt =====
-- domain/loop.go: what holds of a text still holds of it cut short.
use open_kael.Loop.Flow.{truncate_runes, first_runes}
use Prim.Native.String.{count}
use open_kael.ToolContract.{all_chars}
use Prim.Native.Char.{Char}
use open_kael.Prelude.Text.{◌<>◌}
use text.Mathlib.TextLemmas.{length-append, length-cons, nil-append, cons-append}
use open_kael.Prelude.{◌≤◌, ◌≡◌, ℕ, zero, true, suc, refl, ltb, if_rule, arith, Bool, ◌+◌, String}

pub first_runes-count_le : (n : ℕ) (s : String) → count (first_runes n s) ≤ n
unfolding first_runes
first_runes-count_le zero s = omega arith
first_runes-count_le (suc n) String.[] = omega arith
first_runes-count_le (suc n) (String.◌∷◌ c s) =
    rw (length-cons c (first_runes n s)) (omega (arith, first_runes-count_le n s))

pub all_chars-append :
    (p : Char → Bool) (a b : String)
    → all_chars p a ≡ true
    → all_chars p b ≡ true
    → all_chars p (a <> b) ≡ true
unfolding all_chars
all_chars-append p String.[] b h k = rw (nil-append b) k
all_chars-append p (String.◌∷◌ c a) b h k =
    rw (cons-append c a b) (ground (arith, all_chars-append p a b))

first_runes-printed :
    (p : Char → Bool) (n : ℕ) (s : String)
    → all_chars p s ≡ true
    → all_chars p (first_runes n s) ≡ true
unfolding first_runes all_chars
first_runes-printed p zero s h = refl
first_runes-printed p (suc n) String.[] h = refl
first_runes-printed p (suc n) (String.◌∷◌ c s) h = ground (arith, first_runes-printed p n s)

pub truncate_runes-printed :
    (p : Char → Bool) (s : String) (n : ℕ)
    → all_chars p "…" ≡ true
    → all_chars p s ≡ true
    → all_chars p (truncate_runes s n) ≡ true
unfolding truncate_runes
truncate_runes-printed p s n dots h =
    if_rule (λ (l : String). all_chars p l ≡ true) (ltb n (count s))
      (λ long. all_chars-append p (first_runes n s) "…" (first_runes-printed p n s h) dots)
      (λ short. h)

pub truncate_runes-count_le : (s : String) (n : ℕ) → count (truncate_runes s n) ≤ n + 1
unfolding truncate_runes
truncate_runes-count_le s n =
    if_rule (λ (l : String). count l ≤ n + 1) (ltb n (count s))
      (λ long. rw (length-append (first_runes n s) "…") (omega (arith, first_runes-count_le n s)))
      (λ short. ground arith)
