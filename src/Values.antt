-- ===== src/Values.antt =====
-- What Go calls `any` and `map[string]any` where it holds decoded JSON: the arguments that a model
-- gives to an action (domain/message.go) and what an action returns. `F` is the type of numbers
-- (float64), which no definition here looks into. A map is the list of its entries.
use open_kael.Prelude.{String, Bool, Option, none, some, if◌then◌else◌}
use open_kael.Prelude.Text.{◌=ₛ◌}

mutual
  pub data Value (F : Type 0) : Type 0 where
    null : Value F
    bool : Bool → Value F
    num : F → Value F
    str : String → Value F
    arr : Items F → Value F
    obj : Fields F → Value F

  pub data Items (F : Type 0) : Type 0 where
    nil : Items F
    cons : Value F → Items F → Items F

  pub data Fields (F : Type 0) : Type 0 where
    end : Fields F
    field : String → Value F → Fields F → Fields F

abbrev pub text_or_empty : Option String → String
text_or_empty none = ""
text_or_empty (some s) = s

module _ {F : Type 0} where
  -- `m[k]` with its `ok`.
  unfoldable pub get : String → Fields F → Option (Value F)
  get k end = none
  get k (field j v rest) = if j =ₛ k then some v else get k rest

  -- `v.(string)`.
  abbrev pub as_text : Option (Value F) → Option String
  as_text (some (str s)) = some s
  as_text _ = none

  -- `v.(bool)`.
  abbrev pub as_bool : Option (Value F) → Option Bool
  as_bool (some (bool b)) = some b
  as_bool _ = none

  -- `s, _ := m[k].(string)`.
  unfoldable pub text_at : String → Fields F → String
  unfolding get
  text_at k m = text_or_empty (as_text (get k m))
