-- ===== src/Gates.antt =====
-- The gates around an ability, which the platform keeps whatever the model does: domain/prerequisite.go
-- and the gate half of domain/tool_rule.go. A gate takes the function that runs an ability and
-- returns one that may refuse the call.
pub mod Journal
pub mod Prerequisites
pub mod Rules
pub mod Saved
pub mod Shown
pub mod SavedRules
pub mod Waiting
pub mod Limits
pub mod Fixed
pub mod Examples
use open_kael.Prelude.{ℕ, String, Bool, true, false, ◌&&◌, Option, none, some, List, ◌≡◌, refl}
use open_kael.Prelude.Text.{trim_space}
use open_kael.Values.{Value, null, bool, str, obj, Fields, end, field, get}
use open_kael.Outcome.{GoError, outcome_of}

-- `func(ctx, input) (any, error)`, with the world before and behind it.
abbrev pub Invoke : Type 0 → Type 0 → Type 0
Invoke F W = W → Fields F → Value F × Option GoError × W

-- What the gates take from Go's strings, fmt, sort and encoding/json.
pub record Texts (F : Type 0) : Type 0 where
  pub equal_fold : String → String → Bool
  pub to_lower : String → String
  pub to_upper : String → String
  pub sorted : List String → List String
  pub sprint : Value F → String
  pub itoa : ℕ → String
  pub quoted : String → String
  pub marshal_value : Value F → Option String

-- What the gates take from float64, math and strconv.
pub record Floats (F : Type 0) : Type 0 where
  pub equal : F → F → Bool
  pub less : F → F → Bool
  pub times : F → F → F
  pub minus : F → F → F
  pub max : F → F → F
  pub abs : F → F
  pub zero : F
  pub one : F
  pub billionth : F
  pub round_to_cents : F → F
  pub is_finite : F → Bool
  pub is_whole : F → Bool
  pub parse : String → Option F
  pub format : F → String

module _ {F : Type 0} where
  -- `m[k]`, nil where there is none.
  unfoldable pub value_at : String → Fields F → Value F
  unfolding get
  value_at k m = elim (get k m) [ some v ↦ v | none ↦ null ]

  -- The shape that every refusal has.
  abbrev pub refusal : String → Value F
  refusal message = obj (
      field "status" (str "refused")
        (field "changed" (bool false) (field "message" (str message) end)))

-- A refusal is never judged done.
pub refusal-NotDone :
    (F : Type 0) (message : String) → (outcome_of (refusal {F = F} message) none).done ≡ false
unfolding outcome_of get
refusal-NotDone F message = refl

-- A refused call: the model is told, and nothing else happened.
pub record Refused {F W : Type 0} (w : W) (r : Value F × Option GoError × W) : Type 0 where
  pub message : String
  pub told : r ≡ (refusal message, none, w)
