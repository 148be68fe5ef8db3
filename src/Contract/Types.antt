-- ===== src/Contract/Types.antt =====
-- domain/input_contract.go: a checked value is of its type.
use open_kael.Prelude.{
  String, Bool, true, false, not, ◌&&◌, ◌||◌, Option, none, some, List, [], ◌∷◌, ◌≡◌, refl, arith,
  has, if_rule, Option-rule,
}
use open_kael.Prelude.Text.{◌=ₛ◌, trim_space}
use open_kael.Values.{Value, null, bool, num, str, arr, obj, Items, Fields}
use open_kael.Schema.{Schema, schema}
use open_kael.Outcome.{is_nil}
use open_kael.Gates.{Texts, Floats}
use open_kael.Contract.{
  SchemaType, text_type, number_type, integer_type, boolean_type, array_type, object_type,
  other_type, type_of, Converted, fine, wrong, check, convert, as_string, in_enum, as_number,
  number_of, as_bool, as_list, as_object, list_or_problem, object_or_problems, convert_items,
}

abbrev pub type_name : Schema → String
type_name (schema type d props items required values) = type

abbrev pub enum_of : Schema → List String
enum_of (schema type d props items required values) = values

module _ {F : Type 0} (t : Texts F) (n : Floats F) where
  -- Whether a value is of the kind that a type of the schema asks for, with a text among the
  -- values listed.
  unfoldable pub is_of : SchemaType → List String → Value F → Bool
  is_of text_type values (str s) = is_nil values || has s values
  is_of number_type values (num x) = n.is_finite x
  is_of integer_type values (num x) = n.is_finite x && n.is_whole x
  is_of boolean_type values (bool b) = true
  is_of array_type values (arr items) = true
  is_of object_type values (obj m) = true
  is_of other_type values v = true
  is_of _ values v = false

  -- A converted value that is right, if the conversion found nothing wrong.
  data RightIf (p : Value F → Bool) : Converted F → Type 0 where
    is_right : {v : Value F} → p v ≡ true → RightIf p (fine v)
    is_wrong : {e : String} → RightIf p (wrong e)

  in_enum-RightIf :
      (values : List String) (s : String) → RightIf (is_of text_type values) (in_enum values s)
  unfolding in_enum is_of
  in_enum-RightIf values s =
      if_rule (RightIf (is_of text_type values)) (not (is_nil values) && not (has s values))
        (λ bad. is_wrong) (λ good. is_right (ground arith))

  as_string-RightIf :
      (values : List String) (v : Value F) → RightIf (is_of text_type values) (as_string n values v)
  unfolding as_string
  as_string-RightIf values (str s) = in_enum-RightIf values s
  as_string-RightIf values (bool b) = in_enum-RightIf values _
  as_string-RightIf values (num x) = in_enum-RightIf values (n.format x)
  as_string-RightIf values null = is_wrong
  as_string-RightIf values (arr items) = is_wrong
  as_string-RightIf values (obj m) = is_wrong

  number_of-RightIf :
      (values : List String) (x : F) → RightIf (is_of number_type values) (number_of n false x)
  unfolding number_of is_of
  number_of-RightIf values x =
      if_rule (RightIf (is_of number_type values)) (not (n.is_finite x)) (λ bad. is_wrong)
        (λ good. is_right (ground arith))

  whole_of-RightIf :
      (values : List String) (x : F) → RightIf (is_of integer_type values) (number_of n true x)
  unfolding number_of is_of
  whole_of-RightIf values x =
      if_rule (RightIf (is_of integer_type values)) (not (n.is_finite x)) (λ bad. is_wrong)
        (λ good.
          if_rule (RightIf (is_of integer_type values)) (not (n.is_whole x)) (λ part. is_wrong)
            (λ all. is_right (ground arith)))

  as_number-RightIf :
      (values : List String) (v : Value F)
      → RightIf (is_of number_type values) (as_number n false v)
  unfolding as_number
  as_number-RightIf values (num x) = number_of-RightIf values x
  as_number-RightIf values (str s) =
      Option-rule (RightIf (is_of number_type values)) (n.parse (trim_space s))
        (λ x e. number_of-RightIf values x) (λ e. is_wrong)
  as_number-RightIf values null = is_wrong
  as_number-RightIf values (bool b) = is_wrong
  as_number-RightIf values (arr items) = is_wrong
  as_number-RightIf values (obj m) = is_wrong

  as_whole-RightIf :
      (values : List String) (v : Value F)
      → RightIf (is_of integer_type values) (as_number n true v)
  unfolding as_number
  as_whole-RightIf values (num x) = whole_of-RightIf values x
  as_whole-RightIf values (str s) =
      Option-rule (RightIf (is_of integer_type values)) (n.parse (trim_space s))
        (λ x e. whole_of-RightIf values x) (λ e. is_wrong)
  as_whole-RightIf values null = is_wrong
  as_whole-RightIf values (bool b) = is_wrong
  as_whole-RightIf values (arr items) = is_wrong
  as_whole-RightIf values (obj m) = is_wrong

  as_bool-RightIf :
      (values : List String) (v : Value F) → RightIf (is_of boolean_type values) (as_bool t v)
  unfolding as_bool is_of
  as_bool-RightIf values (bool b) = is_right refl
  as_bool-RightIf values (str s) =
      if_rule (RightIf (is_of boolean_type values)) (t.to_lower (trim_space s) =ₛ "true")
        (λ true_word. is_right refl)
        (λ other.
          if_rule (RightIf (is_of boolean_type values)) (t.to_lower (trim_space s) =ₛ "false")
            (λ false_word. is_right refl) (λ none_of_both. is_wrong))
  as_bool-RightIf values null = is_wrong
  as_bool-RightIf values (num x) = is_wrong
  as_bool-RightIf values (arr items) = is_wrong
  as_bool-RightIf values (obj m) = is_wrong

  list_or_problem-RightIf :
      (values : List String) (r : Option String × Items F)
      → RightIf (is_of array_type values) (list_or_problem r)
  unfolding is_of
  list_or_problem-RightIf values (some problem, items) = is_wrong
  list_or_problem-RightIf values (none, items) = is_right refl

  object_or_problems-RightIf :
      (values : List String) (r : Fields F × List String)
      → RightIf (is_of object_type values) (object_or_problems r)
  unfolding is_of
  object_or_problems-RightIf values (out, []) = is_right refl
  object_or_problems-RightIf values (out, p ∷ ps) = is_wrong

  as_list-RightIf :
      (values : List String) (any_item : Bool) (f : Value F → Converted F) (v : Value F)
      → RightIf (is_of array_type values) (as_list t any_item f v)
  unfolding as_list is_of
  as_list-RightIf values any_item f (arr items) =
      if_rule (RightIf (is_of array_type values)) any_item (λ free. is_right refl)
        (λ typed. list_or_problem-RightIf values (convert_items t f 1 items))
  as_list-RightIf values any_item f null = is_wrong
  as_list-RightIf values any_item f (bool b) = is_wrong
  as_list-RightIf values any_item f (num x) = is_wrong
  as_list-RightIf values any_item f (str s) = is_wrong
  as_list-RightIf values any_item f (obj m) = is_wrong

  as_object-RightIf :
      (values : List String) (any_object : Bool) (f : Fields F → Fields F × List String)
      (v : Value F)
      → RightIf (is_of object_type values) (as_object any_object f v)
  unfolding as_object is_of
  as_object-RightIf values any_object f (obj m) =
      if_rule (RightIf (is_of object_type values)) any_object (λ free. is_right refl)
        (λ typed. object_or_problems-RightIf values (f m))
  as_object-RightIf values any_object f null = is_wrong
  as_object-RightIf values any_object f (bool b) = is_wrong
  as_object-RightIf values any_object f (num x) = is_wrong
  as_object-RightIf values any_object f (str s) = is_wrong
  as_object-RightIf values any_object f (arr items) = is_wrong

  convert-RightIf :
      (type : SchemaType) (values : List String) (any_item : Bool) (f : Value F → Converted F)
      (any_object : Bool) (g : Fields F → Fields F × List String) (v : Value F)
      → RightIf (is_of type values) (convert t n type values any_item f any_object g v)
  unfolding convert is_of
  convert-RightIf text_type values ai f ao g v = as_string-RightIf values v
  convert-RightIf number_type values ai f ao g v = as_number-RightIf values v
  convert-RightIf integer_type values ai f ao g v = as_whole-RightIf values v
  convert-RightIf boolean_type values ai f ao g v = as_bool-RightIf values v
  convert-RightIf array_type values ai f ao g v = as_list-RightIf values ai f v
  convert-RightIf object_type values ai f ao g v = as_object-RightIf values ao g v
  convert-RightIf other_type values ai f ao g v = is_right refl

  right-value :
      {p : Value F → Bool} {c : Converted F} (v : Value F) → RightIf p c → c ≡ fine v → p v ≡ true
  right-value {p} v (is_right {v = w} e) h = cc
  right-value v is_wrong h = cc

  -- A value that passes the check is of the type that its schema names: a text among those listed, a
  -- finite number, a whole one, a truth value, a list or an object.
  pub check-is_of :
      (s : Schema) (v converted : Value F)
      → check t n s v ≡ fine converted
      → is_of (type_of (type_name s)) (enum_of s) converted ≡ true
  unfolding check
  check-is_of (schema type d props items required values) v converted h =
      right-value converted (convert-RightIf (type_of type) values _ _ _ _ v) h
