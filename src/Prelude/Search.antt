-- ===== src/Prelude/Search.antt =====
-- Tests on lists and the elements that pass them.
use mathlib.Core.Path.{◌≡◌, refl}
use mathlib.Core.Logic.{inl, inr}
use mathlib.Core.Bool.{Bool, true}
use mathlib.Core.List.{List, [], ◌∷◌, Memᴰ}
use native.Mathlib.Omega.{arith}
use open_kael.Prelude.Tests.{Bool-cases}
use open_kael.Prelude.Lists.{any}

-- An element that passes a test.
abbrev pub Passes {ℓ} : {A : Type ℓ} → (A → Bool) → List A → Type ℓ
Passes {A} p xs = (x : A) × Memᴰ x xs × (p x ≡ true)

module _ {ℓ} {A : Type ℓ} (p : A → Bool) where
  pub any-Passes : (xs : List A) → any p xs ≡ true → Passes p xs
  any-Passes [] h = cc
  any-Passes (x ∷ xs) h = elim (Bool-cases (p x)) [
    | inl yes_x ↦ (x, Memᴰ.head refl, yes_x)
    | inr no_x ↦ let (y, m, e) = any-Passes xs (ground arith) in (y, Memᴰ.tail m, e)
  ]

  pub Passes-any : {x : A} (xs : List A) → Memᴰ x xs → p x ≡ true → any p xs ≡ true
  Passes-any [] m h = elim m [ ]
  Passes-any (y ∷ xs) (Memᴰ.head e) h = ground arith
  Passes-any (y ∷ xs) (Memᴰ.tail m) h = ground (arith, Passes-any xs m h)
