-- ===== src/Schema.antt =====
-- domain/schema.go: the description of a value. A record that holds a map of itself is a data type
-- beside its maps; an empty `type` is Go's zero value.
use open_kael.Prelude.{String, Option, none, some, Bool, List, if◌then◌else◌, is_some}
use open_kael.Prelude.Text.{◌=ₛ◌}

mutual
  pub data Schema : Type 0 where
    schema :
        (type description : String) (properties : Properties) (items : Items)
        (required enum : List String)
        → Schema

  -- `map[string]Schema`.
  pub data Properties : Type 0 where
    end : Properties
    property : String → Schema → Properties → Properties

  -- `*Schema`.
  pub data Items : Type 0 where
    no_items : Items
    items_of : Schema → Items

unfoldable pub find_property : String → Properties → Option Schema
find_property name end = none
find_property name (property n s rest) = if n =ₛ name then some s else find_property name rest

abbrev pub properties_of : Schema → Properties
properties_of (schema t d p i r e) = p

-- loop.go's `hasProperty`.
unfoldable pub has_property : Schema → String → Bool
unfolding find_property
has_property s name = is_some (find_property name (properties_of s))
