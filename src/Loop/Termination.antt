-- ===== src/Loop/Termination.antt =====
-- The loop ends, also where it has no step limit.
use open_kael.Prelude.{
  ℕ, zero, suc, ◌+◌, ◌-◌, ◌*◌, ◌≤◌, ◌<◌, String, false, some, List, [], ◌∷◌, ◌≡◌, refl, inl, inr,
  arith, ltb, leb, Bool-cases, length, ◌==◌, map,
}
use open_kael.Messages.{Message, LlmResponse}
use open_kael.Loop.{
  BoundAction, Config, State, Reply, answered, failed, max_stale_steps, max_tool_calls_per_iter,
}
use open_kael.Loop.Flow.{Flow, next, break_out, return_with, wrap_with}
use open_kael.Loop.Budget.{uses_left, FlowSpends, run_calls-Spends}
use open_kael.Loop.Run.{
  Step, again, ended, Ending, ask, scold, after_calls, take_answer, step_reply, step, steps,
  out_of_steps, start, run,
}

module _ {F W : Type 0} (c : Config F W) where
  -- Each step without a use takes one of the four steps and failures that a use makes room for.
  abbrev pub measure : State F W → ℕ
  measure s = uses_left c.actions s.call_counts * 5 + (4 - s.stale - s.consecutive_failures)

  -- What holds of the state before each step.
  pub record IsLive (s : State F W) : Type 0 where
    pub few_failures : s.consecutive_failures ≤ 2
    pub few_stale : s.stale ≤ 2

  abbrev Shrinks : State F W → Step F W → Type 0
  Shrinks s (again s') = IsLive s' × (measure s' < measure s)
  Shrinks s (ended e) = Unit

  -- A state as `s` but for what a model call changes.
  record Same (s t : State F W) : Type 0 where
    counts_same : t.call_counts ≡ s.call_counts
    stale_same : t.stale ≡ s.stale
    fails_same : t.consecutive_failures ≡ s.consecutive_failures
    flag_down : t.progressed ≡ false

  scold-Shrinks :
      (words note reason : String) (s t : State F W)
      → IsLive s
      → s.stale ≤ 1
      → Same s t
      → Shrinks s (scold c words note reason t)
  unfolding scold
  scold-Shrinks words note reason s t live fresh same = ground arith

  after_calls-Shrinks :
      (f : Flow F W) (s t : State F W)
      → IsLive s
      → s.stale ≤ 1
      → Same s t
      → FlowSpends c.actions t f
      → Shrinks s (after_calls c f)
  unfolding after_calls
  after_calls-Shrinks (next u) s t live fresh same h = ground arith
  after_calls-Shrinks (break_out u) s t live fresh same h = ground arith
  after_calls-Shrinks (return_with r u) s t live fresh same h = tt
  after_calls-Shrinks (wrap_with why u) s t live fresh same h = tt

  take_answer-Shrinks :
      (resp : LlmResponse F) (s t : State F W)
      → IsLive s
      → s.stale ≤ 1
      → Same s t
      → Shrinks s (take_answer c resp t)
  unfolding take_answer
  take_answer-Shrinks resp s t live fresh same = elim (Bool-cases (length resp.tool_calls == 0)) [
    | inl idle ↦ rw idle (scold-Shrinks _ _ _ s t live fresh same)
    | inr busy ↦ rw busy (elim (Bool-cases (ltb max_tool_calls_per_iter (length resp.tool_calls))) [
      | inl many ↦ rw many (scold-Shrinks _ _ _ s t live fresh same)
      | inr few ↦ rw few (
          after_calls-Shrinks _ s _ live fresh (ground arith)
            (run_calls-Spends c resp.tool_calls _))
    ])
  ]

  step_reply-Shrinks :
      (asked : Reply F × State F W) (s : State F W)
      → IsLive s
      → s.stale ≤ 1
      → Same s asked.1
      → Shrinks s (step_reply c asked)
  unfolding step_reply
  step_reply-Shrinks (failed err, t) s live fresh same = tt
  step_reply-Shrinks (answered resp, t) s live fresh same =
      take_answer-Shrinks resp s t live fresh same

  pub step-Shrinks : (s : State F W) → IsLive s → Shrinks s (step c s)
  unfolding step ask
  step-Shrinks s live = elim (Bool-cases (leb max_stale_steps s.stale)) [
    | inl tired ↦ rw tired tt
    | inr fresh ↦ rw fresh (
        step_reply-Shrinks
          (ask c s.messages (map (λ a. a.spec) c.actions) (record s { progressed = false })) s live
          (ground arith) (ground arith))
  ]

  -- With more steps than the measure, the loop comes to its end.
  pub steps-ended :
      (n : ℕ) (s : State F W)
      → IsLive s
      → measure s < n
      → (e : Ending F W) × (steps c n s ≡ ended e)
  unfolding steps
  steps-ended zero s live h = absurd (omega arith)
  steps-ended (suc n) s live h = after (step c s) (step-Shrinks s live) (steps-ended n)
    where
      after :
          (st : Step F W)
          → Shrinks s st
          → ((t : State F W)
              → IsLive t
              → measure t < n
              → (e : Ending F W) × (steps c n t ≡ ended e))
          → (e : Ending F W) × ((elim st [ again t ↦ steps c n t | ended e ↦ ended e ]) ≡ ended e)
      after (again t) (live', smaller) later = later t live' (omega arith)
      after (ended e) shrinks later = (e, refl)

uses_left-start :
    {F W : Type 0} (actions : List (BoundAction F W))
    → uses_left actions (λ name. 0) ≡ 15 * length actions
unfolding uses_left
uses_left-start [] = refl
uses_left-start (a ∷ actions) = omega (arith, uses_left-start actions)

-- The ending of a run with a step limit.
abbrev limited_ending : {F W : Type 0} → Config F W → State F W → Ending F W
limited_ending c s = elim (steps c c.max_iterations s) [ again t ↦ out_of_steps c t | ended e ↦ e ]

-- A run always ends, whatever the models and the actions answer, with no step limit too
-- (`max_iterations` 0): then 75 steps for each action offered and 5 more are enough.
pub run-total :
    {F W : Type 0} (c : Config F W) (messages : List (Message F)) (down_until : ℕ → ℕ) (world : W)
    (fuel : ℕ)
    → 75 * length c.actions + 4 < fuel
    → (e : Ending F W) × (run c fuel (start c messages down_until world) ≡ some e)
unfolding run
run-total c messages down_until world fuel enough = elim (Bool-cases (c.max_iterations == 0)) [
  | inl unlimited ↦
      let (e, q) =
        steps-ended c fuel (start c messages down_until world) (omega arith)
          (omega (arith, uses_left-start c.actions)) in
      (e, rw (unlimited, q))
  | inr limited ↦ (limited_ending c (start c messages down_until world), rw limited refl)
]
