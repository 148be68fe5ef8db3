-- ===== src/Contract/Examples.antt =====
-- Checks of concrete inputs.
use mathlib.Core.List.{Memᴰ}
use open_kael.Prelude.{
  ℕ, ltb, ◌*◌, ◌-◌, ◌==◌, String, true, false, none, some, [], ◌∷◌, ◌≡◌, refl, if◌then◌else◌,
}
use open_kael.Prelude.Text.{◌=ₛ◌, trim_space}
use open_kael.Values.{null, num, str, Fields, end, field, get}
use open_kael.Schema.{Schema, schema, Properties, property, no_items}
use open_kael.Gates.{Texts, Floats, value_at}
use open_kael.Gates.Rules.{not_given, set}
use open_kael.Contract.{
  accepted, fine, type_of, check_input, check, checked_object, check_properties, take_given,
  take_property, finish_object, check_required, require, convert, as_string, in_enum, as_number,
  number_of, without,
}
use open_kael.Contract.Required.{check_input-given}
use open_kael.Contract.Types.{is_of, check-is_of}

abbrev texts : Texts ℕ
texts = record {
  equal_fold = λ a b. a =ₛ b;
  to_lower = λ s. s;
  to_upper = λ s. s;
  sorted = λ l. l;
  sprint = λ v. "";
  itoa = λ k. "1";
  quoted = λ s. s;
  marshal_value = λ v. none;
}

abbrev floats : Floats ℕ
floats = record {
  equal = λ a b. a == b;
  less = λ a b. ltb a b;
  times = λ a b. a * b;
  minus = λ a b. a - b;
  max = λ a b. if ltb a b then b else a;
  abs = λ a. a;
  zero = 0;
  one = 1;
  billionth = 0;
  round_to_cents = λ a. a;
  is_finite = λ a. true;
  is_whole = λ a. true;
  parse = λ s. if s =ₛ "5" then some 5 else none;
  format = λ x. "5";
}

abbrev of_type : String → Schema
of_type t = schema t "" Properties.end no_items [] []

-- A trade: its size, and a note that may be left out.
abbrev trade_input : Schema
trade_input =
    schema "object" ""
      (property "units" (of_type "integer") (property "note" (of_type "string") Properties.end))
      no_items ("units" ∷ []) []

-- The size as text, and no note.
abbrev sent : Fields ℕ
sent = field "units" (str " 5 ") (field "note" null end)

check_sent : check_input texts floats trade_input sent ≡ accepted (field "units" (num 5) end)
unfolding check_input checked_object check_properties value_at get take_given take_property
    finish_object check_required require convert type_of as_string in_enum as_number number_of
    without set trim_space
check_sent = refl

check_input-given_example : not_given {F = ℕ} (get "units" (field "units" (num 5) end)) ≡ false
check_input-given_example =
    check_input-given texts floats trade_input sent (field "units" (num 5) end) "units" check_sent
      (Memᴰ.head refl)

check_whole : check texts floats (of_type "integer") (str " 5 ") ≡ fine (num 5)
unfolding check convert type_of as_number number_of trim_space
check_whole = refl

check-is_of_example : is_of texts floats (type_of "integer") [] (num 5) ≡ true
check-is_of_example = check-is_of texts floats (of_type "integer") (str " 5 ") (num 5) check_whole
