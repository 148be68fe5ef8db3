-- ===== src/Contract/Required.antt =====
-- domain/input_contract.go: the required inputs are there.
use mathlib.Core.List.{Memᴰ}
use open_kael.Prelude.{String, false, List, [], ◌∷◌, ◌≡◌, refl, sym, arith}
use open_kael.Values.{Fields, get}
use open_kael.Schema.{Schema, schema}
use open_kael.Gates.{Texts, Floats}
use open_kael.Gates.Rules.{not_given}
use open_kael.Contract.{
  accepted, check_required, require, check_input, checked_object, finish_object, accept_or_list,
  check_properties,
}

-- The inputs that a schema requires.
abbrev pub required_of : Schema → List String
required_of (schema type d props items required values) = required

module _ {F : Type 0} where
  require-given :
      (r : String) (out : Fields F) (problems : List String)
      → require r out problems ≡ []
      → (problems ≡ []) × (not_given (get r out) ≡ false)
  unfolding require
  require-given r out [] h = (refl, ground arith)
  require-given r out (p ∷ ps) h = ground arith

  -- The required inputs are given, where nothing is wrong at the end.
  check_required-nil :
      (required : List String) (out : Fields F) (problems : List String)
      → check_required required out problems ≡ []
      → problems ≡ []
  unfolding check_required
  check_required-nil [] out problems h = h
  check_required-nil (r ∷ required) out problems h =
      (require-given r out problems (check_required-nil required out (require r out problems) h)).0

  check_required-given :
      (required : List String) (out : Fields F) (problems : List String) (name : String)
      → check_required required out problems ≡ []
      → Memᴰ name required
      → not_given (get name out) ≡ false
  unfolding check_required
  check_required-given [] out problems name h m = elim m [ ]
  check_required-given (r ∷ required) out problems name h (Memᴰ.head e) =
      rw e
        (require-given r out problems
          (check_required-nil required out (require r out problems) h)).1
  check_required-given (r ∷ required) out problems name h (Memᴰ.tail m) =
      check_required-given required out (require r out problems) name h m

module _ {F : Type 0} (t : Texts F) (n : Floats F) where
  accepted-nil :
      (r : Fields F × List String) (out : Fields F)
      → accept_or_list t r ≡ accepted out
      → (r.0 ≡ out) × (r.1 ≡ [])
  accepted-nil (found, []) out h = (cc, refl)
  accepted-nil (found, p ∷ ps) out h = cc

  -- An input that passes the check has every input that the schema requires, neither null nor empty
  -- text.
  pub check_input-given :
      (s : Schema) (input out : Fields F) (name : String)
      → check_input t n s input ≡ accepted out
      → Memᴰ name (required_of s)
      → not_given (get name out) ≡ false
  unfolding check_input checked_object finish_object
  check_input-given (schema type d props items required values) input out name h m =
      let acc = check_properties t n props input (input, []) in
      let (same, nothing) = accepted-nil (acc.0, check_required required acc.0 acc.1) out h in
      rw (sym same) (check_required-given required acc.0 acc.1 name nothing m)
