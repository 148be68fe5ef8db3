-- ===== src/Gates/Prerequisites.antt =====
-- domain/prerequisite.go: an ability that waits for another.
use open_kael.Prelude.{
  Option, String, Bool, ◌||◌, none, List, [], ◌∷◌, ◌++◌, map, if◌then◌else◌, lookup,
}
use open_kael.Prelude.Text.{◌<>◌, join}
use open_kael.Values.{Value, Fields, text_or_empty}
use open_kael.Outcome.{GoError, is_nil}
use open_kael.Loop.{BoundAction}
use open_kael.Gates.{Texts, Floats, value_at, refusal}
use open_kael.Gates.Journal.{Ctx, has_run, has_any}

pub record Prerequisite : Type 0 where
  pub id : String
  pub before : String
  pub first : String
  pub same : List String
  pub text : String
  pub one_of : List String

-- `names[id]`.
abbrev pub name_of : List (String × String) → String → String
name_of names id = text_or_empty (lookup id names)

-- The abilities that the rules wait for, by the names that the model calls them.
unfoldable pub needs_of : List Prerequisite → List (String × String) → List String
needs_of [] names = []
needs_of (r ∷ rules) names =
    if is_nil r.one_of
    then name_of names r.first ∷ needs_of rules names
    else map (name_of names) r.one_of ++ needs_of rules names

module _ {F : Type 0} (t : Texts F) where
  -- What the model is told where a rule does not.
  unfoldable pub wait_message :
      (name : String) → List (String × String) → Fields F → Prerequisite → String
  wait_message name names input r =
      if is_nil r.one_of
      then "Not done: before "
        <> (name
            <> (", run "
                <> (name_of names r.first
                    <> (" first"
                        <> ((if is_nil r.same
                              then ""
                              else " for the same "
                                <> join ", "
                                    (map (λ s. s <> (" " <> t.sprint (value_at s input))) r.same))
                            <> (", as required. Do that now, then call "
                                <> (name <> " again if it still makes sense.")))))))
      else "Not done: "
        <> (name
            <> (" acts on something you haven't looked up in this reply. Look it up again now ("
                <> (join " or " (map (name_of names) r.one_of)
                    <> (") and use what that gives back, never an id you remember from earlier, then call "
                        <> (name <> " again if it still makes sense.")))))

module _ {F W : Type 0} (t : Texts F) (n : Floats F) where
  -- Whether a rule lets a call through.
  unfoldable pub rule_holds : Ctx F W → Fields F → Prerequisite → Bool
  rule_holds ctx input r =
      if is_nil r.one_of
      then has_run t n ctx.journal r.first r.same input
      else ctx.unattended || has_any t n ctx.journal r.one_of

  -- The loop over the rules, and the call behind it; `give` makes a refusal a result of that call.
  unfoldable pub invoke_after :
      {R : Type 0}
      → (Value F × Option GoError × Ctx F W → R)
      → (name : String) → List (String × String)
      → List Prerequisite
      → (Ctx F W → Fields F → R)
      → Ctx F W
      → Fields F
      → R
  invoke_after give name names [] inner ctx input = inner ctx input
  invoke_after give name names (r ∷ rules) inner ctx input =
      let later = invoke_after give name names rules inner ctx input in
      if rule_holds ctx input r
      then later
      else give (refusal (wait_message t name names input r), none, ctx)

  -- `WrapPrerequisites`.
  unfoldable pub wrap_prerequisites :
      BoundAction F (Ctx F W) → List Prerequisite → List (String × String) → BoundAction F (Ctx F W)
  wrap_prerequisites action [] names = action
  wrap_prerequisites action (r ∷ rules) names = record action {
    needs = action.needs ++ needs_of (r ∷ rules) names;
    invoke = invoke_after (λ r. r) action.spec.name names (r ∷ rules) action.invoke;
  }
