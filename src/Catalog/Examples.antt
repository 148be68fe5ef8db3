-- ===== src/Catalog/Examples.antt =====
-- A catalog at a concrete source.
use open_kael.Prelude.Text.{trim_space}
use open_kael.ToolContract.{
  validate_tool, validate_from, untyped, undeclared, property_names, is_tool_name, all_chars,
}
use open_kael.Prelude.{lookup, ◌≡◌, ◌∷◌, some, refl, map, false, []}
use open_kael.Catalog.Sound.{removed, at_first, added, Sound, Reached-Sound}
use open_kael.Tools.{empty_tool, ToolDefinition, Integration}
use open_kael.Catalog.{
  without_those, put_tools, drop_from, check_tools, remove_source, new_catalog, add_source,
  ToolSource, Catalog,
}
use open_kael.Gates.Examples.{texts}
use open_kael.Schema.{schema, no_items, Properties}

abbrev weather : Integration
weather = record {
  id = "i1";
  name = "Weather";
  service = "weather";
  created_by = "";
  source_given = false;
}

abbrev forecast : ToolDefinition
forecast = record empty_tool {
  id = "t1";
  name = "forecast";
  description = "Tells the weather.";
  action = "weather.forecast";
  input_schema = schema "object" "" Properties.end no_items [] [];
}

-- Two tools of one name, and one without an action.
abbrev source : ToolSource
source = record {
  integration = some weather;
  identities = [];
  tools =
      forecast
      ∷ record forecast { id = "t2" }
      ∷ record forecast { id = "t3"; name = "storms"; action = "" }
      ∷ [];
}

abbrev filled : Catalog
filled = (add_source texts (λ s. []) source new_catalog).1

Reached-Sound_example : Sound texts (λ s. []) (remove_source "i2" filled)
Reached-Sound_example = Reached-Sound texts (λ s. []) (removed "i2" (added source at_first))

only_forecast : map (λ (k, d). k) filled.tools ≡ "t1" ∷ []
unfolding add_source put_tools validate_from check_tools validate_tool trim_space is_tool_name
    all_chars undeclared untyped property_names lookup drop_from without_those
only_forecast = refl
