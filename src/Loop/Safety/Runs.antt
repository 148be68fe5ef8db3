-- ===== src/Loop/Safety/Runs.antt =====
-- The proof rule carried through the steps of `Run` to its ending.
use mathlib.Core.Path.{subst}
use open_kael.Prelude.{
  ℕ, zero, suc, ◌+◌, String, false, none, some, List, [], ◌∷◌, ◌≡◌, arith, ltb, leb, ◌==◌, length,
  Option-rule, if_rule, Bool-cases, some_injective, inl, inr,
}
use open_kael.Messages.{Message, ToolCall, LlmResponse}
use open_kael.Loop.{
  ActionSpec, Config, State, Reply, answered, failed, find_action, max_stale_steps,
  max_tool_calls_per_iter, max_consecutive_failures,
}
use open_kael.Loop.Flow.{Flow, next, break_out, return_with, wrap_with}
use open_kael.Loop.Run.{
  Step, again, ended, Ending, returned, llm_failed, ask, give_up, wrap_up_answer, wrap_up_reply,
  wrap_up_messages, wrap_up, scold, after_calls, take_answer, step_reply, step, steps, out_of_steps,
  run,
}
use open_kael.Loop.Safety.{Rule, Holds, FlowHolds, run_calls-Holds}

abbrev pub ending_state : {F W : Type 0} → Ending F W → State F W
ending_state (returned r s) = s
ending_state (llm_failed err s) = s

abbrev step_state : {F W : Type 0} → Step F W → State F W
step_state (again s) = s
step_state (ended e) = ending_state e

module _ {F W : Type 0} (c : Config F W) (I : (String → ℕ) → List (String × String) → W → Type 0)
    (rule : Rule c I) where
  abbrev Keeps : State F W → Type 0
  Keeps = Holds c I rule

  record EndingHolds (e : Ending F W) : Type 0 where
    holds : Keeps (ending_state e)

  record StepHolds (t : Step F W) : Type 0 where
    holds : Keeps (step_state t)

  wrap_up_answer-Holds :
      (reason : String) (msgs : List (Message F)) (words : String) (calls : List (ToolCall F))
      (s : State F W)
      → Keeps s
      → EndingHolds (wrap_up_answer c reason msgs words calls s)
  unfolding wrap_up_answer give_up
  wrap_up_answer-Holds reason msgs words [] s h = record { holds = h }
  wrap_up_answer-Holds reason msgs words (call ∷ more) s h = ground arith

  wrap_up_reply-Holds :
      (reason : String) (msgs : List (Message F)) (asked : Reply F × State F W)
      → Keeps asked.1
      → EndingHolds (wrap_up_reply c reason msgs asked)
  unfolding wrap_up_reply give_up
  wrap_up_reply-Holds reason msgs (failed err, s) h = record { holds = h }
  wrap_up_reply-Holds reason msgs (answered resp, s) h =
      wrap_up_answer-Holds reason msgs resp.content resp.tool_calls s h

  ask-Holds :
      (msgs : List (Message F)) (specs : List ActionSpec) (s : State F W)
      → Keeps s
      → Keeps (ask c msgs specs s).1
  unfolding ask
  ask-Holds msgs specs s h = unfold ask in rule.ask_kept msgs specs s h

  wrap_up-Holds : (reason : String) (s : State F W) → Keeps s → EndingHolds (wrap_up c reason s)
  unfolding wrap_up give_up
  wrap_up-Holds reason s h =
      Option-rule EndingHolds (find_action "finish" c.actions)
        (λ fin _.
          wrap_up_reply-Holds reason (wrap_up_messages c s) _
            (ask-Holds (wrap_up_messages c s) (fin.spec ∷ []) s h))
        (λ _. record { holds = h })

  scold-Holds :
      (words note reason : String) (s : State F W)
      → Keeps s
      → StepHolds (scold c words note reason s)
  unfolding scold
  scold-Holds words note reason s h =
      if_rule StepHolds (leb max_consecutive_failures (s.consecutive_failures + 1))
        (λ _. record { holds = (wrap_up-Holds reason _ h).holds }) (λ _. record { holds = h })

  after_calls-Holds : (f : Flow F W) → FlowHolds c I rule f → StepHolds (after_calls c f)
  unfolding after_calls
  after_calls-Holds (next s) h = record { holds = h.holds }
  after_calls-Holds (break_out s) h = record { holds = h.holds }
  after_calls-Holds (return_with r s) h = record { holds = h.holds }
  after_calls-Holds (wrap_with why s) h = record { holds = (wrap_up-Holds why s h.holds).holds }

  take_answer-Holds :
      (resp : LlmResponse F) (s : State F W) → Keeps s → StepHolds (take_answer c resp s)
  unfolding take_answer
  take_answer-Holds resp s h =
      if_rule StepHolds (length resp.tool_calls == 0) (λ _. scold-Holds _ _ _ s h)
        (λ _.
          if_rule StepHolds (ltb max_tool_calls_per_iter (length resp.tool_calls))
            (λ _. scold-Holds _ _ _ s h)
            (λ _. after_calls-Holds _ (run_calls-Holds c I rule resp.tool_calls _ h)))

  step_reply-Holds : (asked : Reply F × State F W) → Keeps asked.1 → StepHolds (step_reply c asked)
  unfolding step_reply
  step_reply-Holds (failed err, s) h = record { holds = h }
  step_reply-Holds (answered resp, s) h = take_answer-Holds resp s h

  step-Holds : (s : State F W) → Keeps s → StepHolds (step c s)
  unfolding step
  step-Holds s h =
      if_rule StepHolds (leb max_stale_steps s.stale)
        (λ _. record { holds = (wrap_up-Holds _ s h).holds })
        (λ _. step_reply-Holds _ (ask-Holds s.messages _ (record s { progressed = false }) h))

  steps-Holds : (n : ℕ) (s : State F W) → Keeps s → StepHolds (steps c n s)
  unfolding steps
  steps-Holds zero s h = record { holds = h }
  steps-Holds (suc n) s h = after (step c s) (step-Holds s h) (steps-Holds n)
    where
      after :
          (t : Step F W)
          → StepHolds t
          → ((u : State F W) → Keeps u → StepHolds (steps c n u))
          → StepHolds (elim t [ again u ↦ steps c n u | ended e ↦ ended e ])
      after (again u) k later = later u k.holds
      after (ended e) k later = record { holds = k.holds }

  limited-Holds :
      (t : Step F W)
      → StepHolds t
      → EndingHolds (elim t [ again u ↦ out_of_steps c u | ended e ↦ e ])
  unfolding out_of_steps
  limited-Holds (again u) k =
      Option-rule EndingHolds (find_action "finish" c.actions)
        (λ fin _. wrap_up-Holds "used all its steps" u k.holds) (λ _. record { holds = k.holds })
  limited-Holds (ended e) k = record { holds = k.holds }

  unlimited-Holds :
      (t : Step F W) {e : Ending F W}
      → StepHolds t
      → elim t [ again u ↦ none | ended e' ↦ some e' ] ≡ some e
      → Keeps (ending_state e)
  unlimited-Holds (again u) k q = cc
  unlimited-Holds (ended e') {e} k q = ground arith

  -- What a run keeps holds of the state in which it ends.
  pub run-Holds :
      (fuel : ℕ) (s : State F W) {e : Ending F W}
      → Keeps s
      → run c fuel s ≡ some e
      → Keeps (ending_state e)
  unfolding run
  run-Holds fuel s {e} h q = elim (Bool-cases (c.max_iterations == 0)) [
    | inl unlimited ↦ unlimited-Holds (steps c fuel s) (steps-Holds fuel s h) (rw unlimited at q)
    | inr limited ↦
        subst (λ x. Keeps (ending_state x)) (some_injective (rw limited at q))
          (limited-Holds (steps c c.max_iterations s) (steps-Holds c.max_iterations s h)).holds
  ]
