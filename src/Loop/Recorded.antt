-- ===== src/Loop/Recorded.antt =====
-- A run watched from outside: every use of an action is written to a log that the loop cannot see,
-- and the theorems are about what the log may hold when the run has ended.
pub mod Uses
use open_kael.Loop.Beside.{beside_provider, beside_clock}
use open_kael.Prelude.{
  ℕ, zero, suc, ◌+◌, String, Bool, true, false, not, ◌&&◌, Option, none, some, List, [], ◌∷◌, ◌≡◌,
  if◌then◌else◌, map, any,
}
use open_kael.Prelude.Text.{◌=ₛ◌, ◌<>◌}
use open_kael.Values.{Value, Fields}
use open_kael.Outcome.{GoError, outcome_of}
use open_kael.Loop.{ActionSpec, BoundAction, Config, Provider, Printing, Clock}

-- One use of an action: its name, the exact change it makes (where it is one, and its arguments can be
-- written down), and whether it went through.
pub record Entry : Type 0 where
  pub name : String
  pub change : Option String
  pub went_through : Bool

module _ {F W : Type 0} where
  -- What an action is asked to change: its name and arguments.
  abbrev pub change_of : Printing F → BoundAction F W → Fields F → Option String
  change_of p a args =
      if a.spec.changes
      then elim (p.marshal args) [ none ↦ none | some text ↦ some (a.spec.name <> ("|" <> text)) ]
      else none

  abbrev pub recorded_action : Printing F → BoundAction F W → BoundAction F (W × List Entry)
  recorded_action p a = record {
    spec = a.spec;
    invoke = λ (w, log) args.
        let (output, err, w') = a.invoke w args in
        (
          output,
          err,
          (
            w',
            record {
              name = a.spec.name;
              change = change_of p a args;
              went_through = (outcome_of output err).done;
            }
                ∷ log,
          ),
        );
    needs = a.needs;
    app = a.app;
    app_name = a.app_name;
    with_look_ups = a.with_look_ups;
    declared = a.declared;
    limited = a.limited;
  }

  abbrev pub recorded : Config F W → Config F (W × List Entry)
  recorded c = record {
    llms = map beside_provider c.llms;
    max_iterations = c.max_iterations;
    actions = map (recorded_action c.printing) c.actions;
    requirements = c.requirements;
    printing = c.printing;
    clock = beside_clock c.clock;
  }

-- How often an action was used.
abbrev pub uses : String → List Entry → ℕ
uses name [] = 0
uses name (e ∷ log) = if e.name =ₛ name then uses name log + 1 else uses name log

-- Whether that change went through.
abbrev pub has_change : String → Option String → Bool
has_change key none = false
has_change key (some k) = k =ₛ key

abbrev pub made : String → List Entry → Bool
made key log = any (λ e. e.went_through && has_change key e.change) log

abbrev pub is_made : Option String → List Entry → Bool
is_made none log = false
is_made (some key) log = made key log

-- No change was asked for again once it had gone through; the newest use stands first.
abbrev pub NoRepeat : List Entry → Type 0
NoRepeat [] = Unit
NoRepeat (e ∷ log) = (is_made e.change log ≡ false) × NoRepeat log
