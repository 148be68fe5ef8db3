-- ===== src/Prelude/Results.antt =====
-- What a function of Go returns as `(A, error)`, where of an error only its text matters.
use Prim.Native.String.{String}
use mathlib.Core.Path.{◌≡◌}
use mathlib.Core.Bool.{Bool, true}

pub data Result (A : Type 0) : Type 0 where
  ok : A → Result A
  bad : String → Result A

abbrev pub map_ok : {A B : Type 0} → (A → B) → Result A → Result B
map_ok f (ok a) = ok (f a)
map_ok f (bad e) = bad e

-- A good result, if there is one, passes a test.
pub data OkIf {A : Type 0} (p : A → Bool) : Result A → Type 0 where
  good : {a : A} → p a ≡ true → OkIf p (ok a)
  none_saved : {e : String} → OkIf p (bad e)

pub ok_passes :
    {A : Type 0} {p : A → Bool} {s : Result A} {a : A} → OkIf p s → s ≡ ok a → p a ≡ true
ok_passes {p = p} (good {a = b} e) h = cc
ok_passes none_saved h = cc
