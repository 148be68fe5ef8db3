-- ===== src/Gates/Journal.antt =====
-- domain/prerequisite.go: what ran in a run.
use open_kael.Prelude.{
  String, Bool, true, false, not, ◌&&◌, ◌||◌, Option, none, some, List, [], ◌∷◌, ◌++◌,
  if◌then◌else◌, any, all,
}
use open_kael.Prelude.Text.{◌=ₛ◌, trim_space, is_empty}
use open_kael.Values.{Value, null, num, str, obj, Fields, get, as_bool, text_at, text_or_empty}
use open_kael.Outcome.{GoError, outcome_of}
use open_kael.Gates.{Invoke, Texts, Floats, value_at}

-- `journalEntry`.
pub record Entry (F : Type 0) : Type 0 where
  pub tool : String
  pub input : Fields F

-- What a call finds in its context, and the world: the run's journal, which may be nil and which
-- every holder of it shares, and whether nobody is there to be asked.
pub record Ctx (F W : Type 0) : Type 0 where
  pub journal : Option (List (Entry F))
  pub unattended : Bool
  pub world : W

module _ {F : Type 0} (t : Texts F) (n : Floats F) where
  -- Two inputs neither of which is nil.
  unfoldable pub same_value_given : Value F → Value F → Bool
  same_value_given (str a) (str b) = t.equal_fold (trim_space a) (trim_space b)
  same_value_given (num a) (num b) = n.equal a b
  same_value_given a b = text_or_empty (t.marshal_value a) =ₛ text_or_empty (t.marshal_value b)

  -- `sameInput`.
  unfoldable pub same_input : Value F → Value F → Bool
  same_input null null = true
  same_input null b = false
  same_input a null = false
  same_input a b = same_value_given a b

  -- Whether two calls were given the same for each of some inputs.
  unfoldable pub agree : List String → Fields F → Fields F → Bool
  agree same e input = all (λ s. same_input (value_at s e) (value_at s input)) same

  -- `RunJournal.Has`: the loop sets `all` to false at each input that differs, and goes on.
  unfoldable pub has_run : Option (List (Entry F)) → String → List String → Fields F → Bool
  has_run none tool_id same input = false
  has_run (some done) tool_id same input =
      any (λ e. e.tool =ₛ tool_id && agree same e.input input) done

  -- `RunJournal.HasAny`.
  unfoldable pub has_any : Option (List (Entry F)) → List String → Bool
  has_any journal ids = any (λ id. has_run journal id [] Fields.end) ids

abbrev pub failed_statuses : List String
failed_statuses = "error" ∷ "failed" ∷ "failure" ∷ "refused" ∷ "denied" ∷ []

abbrev says_no : Option Bool → Bool
says_no (some b) = not b
says_no none = false

module _ {F : Type 0} where
  -- `RunJournal.Note`.
  unfoldable pub note : Option (List (Entry F)) → String → Fields F → Option (List (Entry F))
  note none tool_id input = none
  note (some done) tool_id input = some (done ++ record { tool = tool_id; input = input } ∷ [])

  -- `WithRunJournal`, on a context.
  unfoldable pub with_run_journal : {W : Type 0} → Ctx F W → Ctx F W
  with_run_journal ctx = elim ctx.journal [
    | some done ↦ ctx
    | none ↦ record ctx { journal = some [] }
  ]

module _ {F : Type 0} (t : Texts F) where
  -- `saysItFailed`.
  unfoldable pub says_it_failed : Value F → Bool
  says_it_failed (obj m) =
      let status = t.to_lower (t.sprint (value_at "status" m)) in
      any (λ s. status =ₛ s) failed_statuses
      || says_no (as_bool (get "ok" m))
      || not (is_empty (trim_space (text_at "error" m)))
  says_it_failed _ = false

  -- Whether a call really did what it was to do.
  abbrev pub went_through : Value F → Option GoError → Bool
  went_through out err = (outcome_of out err).done && not (says_it_failed out)

  -- `withJournal`.
  unfoldable pub with_journal : {W : Type 0} → String → Invoke F (Ctx F W) → Invoke F (Ctx F W)
  with_journal tool_id inner ctx input =
      let (out, err, ctx') = inner ctx input in
      (
        out,
        err,
        if went_through out err
            then record ctx' { journal = note ctx'.journal tool_id input }
            else ctx',
      )
