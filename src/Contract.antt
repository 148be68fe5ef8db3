-- ===== src/Contract.antt =====
-- domain/input_contract.go: what a model sends is made into what the schema says, or refused. The
-- map of a schema's properties is gone through in the order in which it is listed; Go's own order
-- only moves the problems of nested objects, whose text joins them.
use open_kael.Prelude.{
  ℕ, ◌+◌, String, Bool, true, false, not, ◌&&◌, ◌||◌, Option, none, some, List, [], ◌∷◌, ◌++◌,
  if◌then◌else◌, any, has,
}
use open_kael.Prelude.Text.{◌<>◌, ◌=ₛ◌, is_empty, trim_space, join, starts_with}
use open_kael.Values.{
  Value, null, bool, num, str, arr, obj, Items, nil, cons, Fields, end, field, get,
}
use open_kael.Schema.{Schema, schema, Properties, property, no_items, items_of}
use open_kael.Outcome.{is_nil}
use open_kael.Gates.{Texts, Floats, value_at}
use open_kael.Gates.Rules.{set, not_given}
pub mod Required
pub mod Types
mod Examples

-- `SchemaType`, by its text.
pub data SchemaType : Type 0 where
  text_type number_type integer_type boolean_type array_type object_type other_type : SchemaType

unfoldable pub type_of : String → SchemaType
type_of t =
    if t =ₛ "string"
    then text_type
    else if t =ₛ "number"
    then number_type
    else if t =ₛ "integer"
    then integer_type
    else if t =ₛ "boolean"
    then boolean_type
    else if t =ₛ "array"
    then array_type
    else if t =ₛ "object"
    then object_type
    else other_type

-- `(any, error)`: the value converted, or what is wrong with it.
pub data Converted (F : Type 0) : Type 0 where
  fine : Value F → Converted F
  wrong : String → Converted F

-- What `CheckInput` returns: the input converted, or an error.
pub data CheckedInput (F : Type 0) : Type 0 where
  accepted : Fields F → CheckedInput F
  invalid : String → CheckedInput F

abbrev pub quote : String → String
quote s = "\"" <> (s <> "\"")

-- `hasProblemFor`.
abbrev pub has_problem_for : String → List String → Bool
has_problem_for quoted problems = any (λ p. starts_with p (quoted <> " ")) problems

module _ {F : Type 0} where
  unfoldable pub kind : Value F → String
  kind null = "nothing"
  kind (str s) = "text"
  kind (bool b) = "true/false"
  kind (num x) = "a number"
  kind (obj m) = "an object"
  kind (arr items) = "a list"

  -- `delete(out, name)`.
  unfoldable pub without : String → Fields F → Fields F
  without name end = end
  without name (field k v rest) =
      let rest' = without name rest in if k =ₛ name then rest' else field k v rest'

  -- The loop over the required inputs, and its body.
  unfoldable pub require : String → Fields F → List String → List String
  require r out problems =
      if not_given (get r out) && not (has_problem_for (quote r) problems)
      then problems ++ (quote r <> " is required") ∷ []
      else problems

  unfoldable pub check_required : List String → Fields F → List String → List String
  check_required [] out problems = problems
  check_required (r ∷ required) out problems = check_required required out (require r out problems)

  -- What is done with one property that was given, as it was converted.
  unfoldable pub take_property :
      String → Converted F → Fields F × List String → Fields F × List String
  take_property name (fine v) (out, problems) = (set name v out, problems)
  take_property name (wrong e) (out, problems) = (out, problems ++ (quote name <> (" " <> e)) ∷ [])

  unfoldable pub as_bool : Texts F → Value F → Converted F
  as_bool t (bool b) = fine (bool b)
  as_bool t (str s) =
      let low = t.to_lower (trim_space s) in
      if low =ₛ "true"
      then fine (bool true)
      else if low =ₛ "false"
      then fine (bool false)
      else wrong ("must be true or false, got " <> quote s)
  as_bool t v = wrong ("must be true or false, got " <> kind v)

  -- `asString`, and the values that a text may take.
  unfoldable pub in_enum : List String → String → Converted F
  in_enum values s =
      if not (is_nil values) && not (has s values)
      then wrong ("must be one of " <> (join ", " values <> (", got " <> quote s)))
      else fine (str s)

  unfoldable pub as_string : Floats F → List String → Value F → Converted F
  as_string n values (str s) = in_enum values s
  as_string n values (bool b) = in_enum values (if b then "true" else "false")
  as_string n values (num x) = in_enum values (n.format x)
  as_string n values v = wrong ("must be text, got " <> kind v)

  -- The tests that `asNumber` ends with.
  unfoldable pub number_of : Floats F → (whole : Bool) → F → Converted F
  number_of n whole x =
      if not (n.is_finite x)
      then wrong "must be a number"
      else if whole && not (n.is_whole x)
      then wrong ("must be a whole number, got " <> n.format x)
      else fine (num x)

  unfoldable pub as_number : Floats F → (whole : Bool) → Value F → Converted F
  as_number n whole (num x) = number_of n whole x
  as_number n whole (str s) = elim (n.parse (trim_space s)) [
    | some x ↦ number_of n whole x
    | none ↦ wrong ("must be a number, got " <> quote s)
  ]
  as_number n whole v = wrong ("must be a number, got " <> kind v)

  -- The loop over a list's items, from the one of that number.
  unfoldable pub convert_items :
      Texts F → (Value F → Converted F) → ℕ → Items F → Option String × Items F
  convert_items t f i nil = (none, nil)
  convert_items t f i (cons v rest) =
      let (problem, rest') = convert_items t f (i + 1) rest in
      elim (f v) [
        | fine v' ↦ (problem, cons v' rest')
        | wrong e ↦ (some ("item " <> (t.itoa i <> (" " <> e))), rest')
      ]

  abbrev pub list_or_problem : Option String × Items F → Converted F
  list_or_problem (some problem, items) = wrong problem
  list_or_problem (none, items) = fine (arr items)

  abbrev pub object_or_problems : Fields F × List String → Converted F
  object_or_problems (out, []) = fine (obj out)
  object_or_problems (out, p ∷ ps) = wrong ("has a problem: " <> join "; " (p ∷ ps))

  abbrev pub accept_or_list : Texts F → Fields F × List String → CheckedInput F
  accept_or_list t (out, []) = accepted out
  accept_or_list t (out, p ∷ ps) = invalid ("invalid input: " <> join "; " (t.sorted (p ∷ ps)))

  -- A value given for a list, and for an object; `any_item` and `any_object` say that nothing more is
  -- asked of it.
  unfoldable pub as_list :
      Texts F → (any_item : Bool) → (Value F → Converted F) → Value F → Converted F
  as_list t any_item f (arr items) =
      if any_item then fine (arr items) else list_or_problem (convert_items t f 1 items)
  as_list t any_item f v = wrong ("must be a list, got " <> kind v)

  unfoldable pub as_object :
      (any_object : Bool) → (Fields F → Fields F × List String) → Value F → Converted F
  as_object any_object f (obj m) = if any_object then fine (obj m) else object_or_problems (f m)
  as_object any_object f v = wrong ("must be an object, got " <> kind v)

  unfoldable pub take_given :
      String → Value F → Converted F → Fields F × List String → Fields F × List String
  take_given name null c (out, problems) = (without name out, problems)
  take_given name v c acc = take_property name c acc

  unfoldable pub finish_object : List String → Fields F × List String → Fields F × List String
  finish_object required (out, problems) = (out, check_required required out problems)

abbrev pub no_more : Properties → List String → Bool
no_more Properties.end required = is_nil required
no_more (property name s rest) required = false

abbrev pub any_items : open_kael.Schema.Items → Bool
any_items no_items = true
any_items (items_of s) = false

module _ {F : Type 0} (t : Texts F) (n : Floats F) where
  unfoldable pub convert :
      SchemaType
      → List String
      → (any_item : Bool) → (Value F → Converted F)
      → (any_object : Bool) → (Fields F → Fields F × List String)
      → Value F
      → Converted F
  convert text_type values ai f ao g v = as_string n values v
  convert number_type values ai f ao g v = as_number n false v
  convert integer_type values ai f ao g v = as_number n true v
  convert boolean_type values ai f ao g v = as_bool t v
  convert array_type values ai f ao g v = as_list t ai f v
  convert object_type values ai f ao g v = as_object ao g v
  convert other_type values ai f ao g v = fine v

  unfoldable mutual
    pub check : Schema → Value F → Converted F
    check (schema type d props items required values) v =
        convert (type_of type) values (any_items items) (λ it. check_item items it)
          (no_more props required) (λ m. finish_object required (check_properties props m (m, [])))
          v

    pub check_item : open_kael.Schema.Items → Value F → Converted F
    check_item no_items v = fine v
    check_item (items_of s) v = check s v

    -- The loop of `checkObject` over the properties.
    pub check_properties : Properties → Fields F → Fields F × List String → Fields F × List String
    check_properties Properties.end m acc = acc
    check_properties (property name s rest) m acc =
        check_properties rest m (take_given name (value_at name m) (check s (value_at name m)) acc)

  unfoldable pub checked_object : Schema → Fields F → Fields F × List String
  checked_object (schema type d props items required values) m =
      finish_object required (check_properties props m (m, []))

  -- `CheckInput`.
  unfoldable pub check_input : Schema → Fields F → CheckedInput F
  check_input s input = accept_or_list t (checked_object s input)
