-- ===== src/Requirements.antt =====
-- runtime/requirements.go: which abilities an agent is offered, so that it can do what it is held to, and
-- what the last reply was. What `Spec.Name` names is looked up in the order of the list.
pub mod Growth
pub mod Offered
mod Examples
use open_kael.Outcome.{Requirements}
use open_kael.Loop.{BoundAction}
use open_kael.Prelude.Text.{is_empty, ◌=ₛ◌}
use open_kael.Prelude.{
  ◌∷◌, ℕ, zero, true, suc, some, not, none, length, if◌then◌else◌, has, all, [], String, Option,
  Bool, ◌++◌, ◌+◌, ◌&&◌, List,
}

-- `[]*domain.BoundAction` by what this file looks at.
module _ {F W : Type 0} where
  abbrev pub offered_names : List (BoundAction F W) → List String
  offered_names [] = []
  offered_names (a ∷ actions) = a.spec.name ∷ offered_names actions

  -- The first ability with that name.
  unfoldable pub first_named : String → List (BoundAction F W) → Option (BoundAction F W)
  first_named name [] = none
  first_named name (a ∷ all) =
      let rest = first_named name all in if a.spec.name =ₛ name then some a else rest

  abbrev pub put_back : Option (BoundAction F W) → List (BoundAction F W) → List (BoundAction F W)
  put_back none offered = offered
  put_back (some a) offered = offered ++ a ∷ []

  -- `actionNames`.
  abbrev pub action_names : List (BoundAction F W) → List String
  action_names actions = offered_names actions

  -- `guards`.
  abbrev pub guards : BoundAction F W → ℕ
  guards a = length a.needs + (if a.limited then 1 else 0)

  -- `add`: what is offered, with the ability unless its name is there.
  abbrev pub add_offered : BoundAction F W → List (BoundAction F W) → List (BoundAction F W)
  add_offered a offered =
      if has a.spec.name (offered_names offered) then offered else offered ++ a ∷ []

  -- The loop over what is required, and over what an ability relies on: it looks at the names of what is
  -- offered and of what was put back.
  unfoldable pub add_relied :
      List (BoundAction F W) → List String → List (BoundAction F W) → List (BoundAction F W)
  add_relied all [] offered = offered
  add_relied all (name ∷ names) offered = add_relied all names (
      if has name (offered_names offered) then offered else put_back (first_named name all) offered)

  -- `keepRequired`.
  abbrev pub keep_required :
      List (BoundAction F W) → Option Requirements → List (BoundAction F W) → List (BoundAction F W)
  keep_required all none offered = offered
  keep_required all (some reqs) offered = add_relied all reqs.tools offered

  -- The loop over a connection's look-ups.
  unfoldable pub add_look_ups :
      (app : String) → List (BoundAction F W) → List (BoundAction F W) → List (BoundAction F W)
  add_look_ups app [] offered = offered
  add_look_ups app (a ∷ all) offered =
      add_look_ups app all
        (if a.app =ₛ app && a.spec.read_only then add_offered a offered else offered)

  -- `brings`: whether an ability brings its look-ups along.
  abbrev pub brings : Option (List String) → BoundAction F W → Bool
  brings none a = true
  brings (some picked) a = has a.spec.name picked

  abbrev pub relies : Option (List String) → BoundAction F W → List String
  relies picked a = if brings picked a then a.needs ++ a.with_look_ups else a.needs

  -- The body of the loop of `keepNeeded`.
  unfoldable pub bring :
      List (BoundAction F W)
      → Option (List String)
      → BoundAction F W
      → List (BoundAction F W)
      → List (BoundAction F W)
  bring all picked a offered =
      let relied = add_relied all (relies picked a) offered in
      if brings picked a && not (is_empty a.app) && not a.declared
      then add_look_ups a.app all relied
      else relied

  unfoldable pub action_at : ℕ → List (BoundAction F W) → Option (BoundAction F W)
  action_at i [] = none
  action_at zero (a ∷ actions) = some a
  action_at (suc i) (a ∷ actions) = action_at i actions

  -- The loop from index `i`, over a list that grows; `none` where the fuel runs out.
  unfoldable pub keep_needed_from :
      (fuel : ℕ)
      → List (BoundAction F W)
      → Option (List String)
      → (i : ℕ) → List (BoundAction F W)
      → Option (List (BoundAction F W))
  keep_needed_from zero all picked i offered = none
  keep_needed_from (suc fuel) all picked i offered = elim (action_at i offered) [
    | none ↦ some offered
    | some a ↦ keep_needed_from fuel all picked (i + 1) (bring all picked a offered)
  ]

  -- `keepNeeded`; the fuel is enough for all that can be offered.
  abbrev pub keep_needed :
      List (BoundAction F W)
      → Option (List String)
      → List (BoundAction F W)
      → Option (List (BoundAction F W))
  keep_needed all picked offered =
      keep_needed_from (length offered + length all + 1) all picked 0 offered
