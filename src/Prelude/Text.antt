-- ===== src/Prelude/Text.antt =====
-- What the program takes of Go's `strings` package, on texts as sequences of code points.
use Prim.Native.Char.{Char, code}
use Prim.Native.String.{String}
use mathlib.Core.Path.{◌≡◌, refl}
use mathlib.Core.Bool.{Bool, true, false, ◌&&◌, ◌||◌}
use mathlib.Core.List.{List, [], ◌∷◌}
use open_kael.Prelude.Tests.{leb, ◌==◌, if◌then◌else◌}
pub use Prim.Native.String.{◌++◌ as ◌<>◌}
pub use text.Mathlib.Text.{◌==◌ as ◌=ₛ◌, starts_with}
pub use text.Mathlib.TextEquality.{eq_iff}
use text.Mathlib.TextLemmas.{nil-append, cons-append}

-- `unicode.IsSpace`.
unfoldable pub is_space : Char → Bool
is_space c =
    let n = code c in
    (leb 9 n && leb n 13)
    || n == 32
    || n == 0x85
    || n == 0xA0
    || n == 0x1680
    || (leb 0x2000 n && leb n 0x200A)
    || n == 0x2028
    || n == 0x2029
    || n == 0x202F
    || n == 0x205F
    || n == 0x3000

abbrev pub is_empty : String → Bool
is_empty String.[] = true
is_empty (String.◌∷◌ c s) = false

unfoldable pub trim_left_of : (Char → Bool) → String → String
trim_left_of p String.[] = String.[]
trim_left_of p (String.◌∷◌ c s) =
    let rest = trim_left_of p s in if p c then rest else String.◌∷◌ c s

unfoldable pub trim_right_of : (Char → Bool) → String → String
trim_right_of p String.[] = String.[]
trim_right_of p (String.◌∷◌ c s) =
    let rest = trim_right_of p s in if p c && is_empty rest then String.[] else String.◌∷◌ c rest

-- `strings.TrimSpace`.
unfoldable pub trim_space : String → String
unfolding trim_left_of trim_right_of is_space
trim_space s = trim_left_of is_space (trim_right_of is_space s)

-- `strings.TrimRight(s, ".")`.
unfoldable pub trim_right_dots : String → String
unfolding trim_right_of
trim_right_dots s = trim_right_of (λ c. code c == b'.') s

-- `strings.Join`.
unfoldable pub join : String → List String → String
join sep [] = ""
join sep (s ∷ []) = s
join sep (s ∷ t ∷ r) = Prim.Native.String.◌++◌ s (Prim.Native.String.◌++◌ sep (join sep (t ∷ r)))

pub is_empty-append : (a b : String) → is_empty b ≡ false → is_empty (a <> b) ≡ false
is_empty-append String.[] b h = rw (nil-append b) h
is_empty-append (String.◌∷◌ c a) b h = rw (cons-append c a b) refl

pub opens : (a b : String) → is_empty a ≡ false → is_empty (a <> b) ≡ false
opens String.[] b h = cc
opens (String.◌∷◌ c a) b h = rw (cons-append c a b) refl

trim_lem : trim_space " a b. " ≡ "a b."
unfolding trim_space
trim_lem = refl

join_lem : join ", " ("a" ∷ "b" ∷ "c" ∷ []) ≡ "a, b, c"
unfolding join
join_lem = refl
