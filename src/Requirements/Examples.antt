-- ===== src/Requirements/Examples.antt =====
-- runtime/requirements.go: a transfer needs the list of players, which needs the league.
use open_kael.Values.{null}
use open_kael.Schema.{schema, no_items, Properties}
use open_kael.Prelude.{◌≡◌, ◌∷◌, true, some, refl, none, false, [], String, List}
use open_kael.Requirements.Offered.{keep_needed-KeptNeeded, KeptNeeded}
use open_kael.Loop.{BoundAction}
use open_kael.Requirements.{
  keep_needed_from, first_named, bring, add_relied, action_at, keep_needed,
}

abbrev ability : String → List String → BoundAction (Unit {0}) (Unit {0})
ability name needs = record {
  spec = record {
    name = name;
    description = "";
    instructions = "";
    input_schema = schema "object" "" Properties.end no_items [] [];
    output_schema = schema "object" "" Properties.end no_items [] [];
    max_calls = 0;
    hidden = false;
    read_only = true;
    changes = false;
  };
  invoke = λ w input. (null, none, w);
  needs = needs;
  app = "";
  app_name = "";
  with_look_ups = [];
  declared = false;
  limited = false;
}

abbrev league : BoundAction (Unit {0}) (Unit {0})
league = ability "league" []

abbrev players : BoundAction (Unit {0}) (Unit {0})
players = ability "players" ("league" ∷ [])

abbrev transfer : BoundAction (Unit {0}) (Unit {0})
transfer = ability "transfer" ("players" ∷ [])

needed_lem :
    keep_needed (league ∷ players ∷ transfer ∷ []) none (transfer ∷ [])
    ≡ some (transfer ∷ players ∷ league ∷ [])
unfolding keep_needed_from action_at bring add_relied first_named
needed_lem = refl

keep_needed-KeptNeeded_example :
    KeptNeeded
      (league ∷ players ∷ transfer ∷ [])
      none
      (transfer ∷ [])
      (keep_needed (league ∷ players ∷ transfer ∷ []) none (transfer ∷ []))
keep_needed-KeptNeeded_example =
    keep_needed-KeptNeeded (league ∷ players ∷ transfer ∷ []) none (transfer ∷ [])
