-- ===== src/Hydrate/OneShot.antt =====
-- domain/hydrate.go: `withOneShotGuard`, a change that went through is not made again in a reply.
use open_kael.Prelude.{◌≡◌, true, String, Option, List, [], ◌∷◌}
use open_kael.Gates.{Texts, Floats}
use open_kael.Hydrate.{Turn, Run, Executor}
use open_kael.Hydrate.Approval.{is_marked}
use open_kael.Hydrate.Bind.{execute_tool, guarded}
use open_kael.Hydrate.Related.{Related, Result}
use open_kael.Tools.{ToolDefinition, Identity}
use open_kael.Values.{Fields}

module _ {F W : Type 0} (guard key : String) where
  -- The guard of that name remembers that key.
  abbrev Remembers : Run F W → Type 0
  Remembers s = is_marked guard key s.world.done ≡ true

  -- What came of a call still has it so; the other call is the same one.
  record Keeps (r other : Result F W) : Type 0 where
    kept : Remembers r.2

-- A call of a tool, of any of those that a reply may use: its guard's name, its service, its definition,
-- the identity it is bound with, the turn and the input.
pub record AnyCall (F C W : Type 0) : Type 0 where
  pub guard : String
  pub executor : Executor F W
  pub def : ToolDefinition
  pub identity : Option Identity
  pub turn : Turn C W
  pub input : Fields F

module _ {F C W : Type 0} (t : Texts F) (n : Floats F) where
  -- The state after some calls that the rules let through, one after the other.
  unfoldable pub after_all : List (AnyCall F C W) → Run F W → Run F W
  after_all [] s = s
  after_all (c ∷ calls) s =
      after_all calls (guarded t n c.guard c.executor c.def c.identity c.turn s c.input).2

  module _ (g k : String) (s : Run F W) (input : Fields F) (h : Remembers g k s) where
    execute_tool-Keeps :
        (e : Executor F W) (def : ToolDefinition) (identity : Option Identity)
        → Related {C = C}
            (Keeps g k)
            s
            input
            (execute_tool e def identity)
            (execute_tool e def identity)
    unfolding execute_tool
    execute_tool-Keeps e def identity turn w = record { kept = h }
