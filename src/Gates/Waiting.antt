-- ===== src/Gates/Waiting.antt =====
-- domain/prerequisite.go: an ability that waits does nothing until what it waits for has run, and
-- what ran is written down.
use open_kael.Outcome.{GoError}
use open_kael.Messages.{message}
use mathlib.Core.List.{Memᴰ}
use open_kael.Prelude.{
  any-append, none, Option, String, true, false, ◌&&◌, ◌||◌, some, List, [], ◌∷◌, ◌≡◌, refl, arith,
  all, if_rule,
}
use open_kael.Prelude.Text.{◌=ₛ◌}
use open_kael.Values.{Value, Fields}
use open_kael.Loop.{BoundAction}
use open_kael.Gates.{refusal, Invoke, Texts, Floats, Refused}
use open_kael.Gates.Journal.{Entry, Ctx, agree, has_run, note, went_through, with_journal}
use open_kael.Gates.Prerequisites.{
  Prerequisite, rule_holds, wait_message, invoke_after, wrap_prerequisites,
}

module _ {F W : Type 0} (t : Texts F) (n : Floats F) (names : List (String × String)) where
  invoke_after-runs :
      (name : String) (rules : List Prerequisite) (inner : Invoke F (Ctx F W)) (ctx : Ctx F W)
      (input : Fields F)
      → all (rule_holds t n ctx input) rules ≡ true
      → invoke_after t n (λ r. r) name names rules inner ctx input ≡ inner ctx input
  unfolding invoke_after
  invoke_after-runs name [] inner ctx input h = refl
  invoke_after-runs name (r ∷ rules) inner ctx input h =
      ground (arith, invoke_after-runs name rules inner ctx input)

  -- A rule that does not hold: what is given back is a refusal.
  pub invoke_after-refuses :
      {R : Type 0} (give : Value F × Option GoError × Ctx F W → R) (name : String)
      (rules : List Prerequisite) (inner : Ctx F W → Fields F → R) (ctx : Ctx F W)
      (input : Fields F) (r : Prerequisite)
      → Memᴰ r rules
      → rule_holds t n ctx input r ≡ false
      → (message : String) × (invoke_after t n give name names rules inner ctx input
          ≡ give (refusal message, none, ctx))
  unfolding invoke_after
  invoke_after-refuses {R} give name [] inner ctx input r m h = elim m [ ]
  invoke_after-refuses {R} give name (q ∷ rules) inner ctx input r m h =
      if_rule (λ (x : R). (message : String) × (x ≡ give (refusal message, none, ctx)))
        (rule_holds t n ctx input q)
        (λ holds. elim m [
          | Memᴰ.head e ↦ cc
          | Memᴰ.tail m ↦ invoke_after-refuses give name rules inner ctx input r m h
        ])
        (λ fails. (wait_message t name names input q, refl))

  -- An ability whose prerequisites all hold runs as it would without them.
  pub wrap_prerequisites-runs :
      (action : BoundAction F (Ctx F W)) (rules : List Prerequisite) (ctx : Ctx F W)
      (input : Fields F)
      → all (rule_holds t n ctx input) rules ≡ true
      → (wrap_prerequisites t n action rules names).invoke ctx input ≡ action.invoke ctx input
  unfolding wrap_prerequisites
  wrap_prerequisites-runs action [] ctx input h = refl
  wrap_prerequisites-runs action (r ∷ rules) ctx input h =
      invoke_after-runs action.spec.name (r ∷ rules) action.invoke ctx input h

  -- An ability of whose prerequisites any one does not hold is refused to the model: it does not
  -- run, and nothing it finds is changed.
  pub wrap_prerequisites-Refused :
      (action : BoundAction F (Ctx F W)) (rules : List Prerequisite) (ctx : Ctx F W)
      (input : Fields F) (r : Prerequisite)
      → Memᴰ r rules
      → rule_holds t n ctx input r ≡ false
      → Refused ctx ((wrap_prerequisites t n action rules names).invoke ctx input)
  unfolding wrap_prerequisites
  wrap_prerequisites-Refused action [] ctx input r m h = elim m [ ]
  wrap_prerequisites-Refused action (q ∷ rules) ctx input r m h =
      let (message, told) =
        invoke_after-refuses (λ x. x) action.spec.name (q ∷ rules) action.invoke ctx input r m h in
      record { message = message; told = told }

module _ {F W : Type 0} (t : Texts F) (n : Floats F) where
  -- What has run after a journaled call, in a run with a journal: what had run before, with the
  -- call itself if it went through, for what it was given.
  pub with_journal-has_run :
      (tool_id : String) (inner : Invoke F (Ctx F W)) (ctx : Ctx F W) (input : Fields F)
      (done : List (Entry F)) (asked : String) (same : List String) (asked_input : Fields F)
      → (inner ctx input).2.journal ≡ some done
      → has_run t n (with_journal t tool_id inner ctx input).2.journal asked same asked_input
        ≡ has_run t n (some done) asked same asked_input
          || (went_through t (inner ctx input).0 (inner ctx input).1
              && (tool_id =ₛ asked && agree t n same input asked_input))
  unfolding with_journal note has_run
  with_journal-has_run tool_id inner ctx input done asked same asked_input h = ground (
    arith,
    any-append (λ e. e.tool =ₛ asked && agree t n same e.input asked_input) done
        (record { tool = tool_id; input = input } ∷ []),
  )
