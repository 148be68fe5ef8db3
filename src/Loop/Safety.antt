-- ===== src/Loop/Safety.antt =====
-- A proof rule for `Run`: what every use of an action keeps, and every count and model call, holds
-- of the state in which a run ends. Here the rule and the calls of one answer; `Runs` has the rest.
pub mod Runs
use open_kael.Prelude.{
  ℕ, zero, suc, ◌+◌, ◌≤◌, ◌<◌, String, Bool, true, false, not, ◌&&◌, Option, none, some, List, [],
  ◌∷◌, ◌≡◌, refl, ◌⊎◌, arith, if◌then◌else◌, ltb, leb, ◌==◌, length, map, Bool-cases, Option-cases,
  Option-rule, if_rule,
}
use open_kael.Prelude.Text.{◌=ₛ◌}
use open_kael.Values.{Value}
use open_kael.Messages.{Message, ToolCall, LlmResponse}
use open_kael.Outcome.{GoError, Requirements, outcome_of}
use open_kael.Loop.{
  ActionSpec, BoundAction, Config, State, Reply, answered, failed, find_action, held,
  stringify_result, max_same_action_calls, max_stale_steps, max_tool_calls_per_iter,
  max_consecutive_failures,
}
use open_kael.Loop.Flow.{Flow, next, break_out, return_with, wrap_with, finish_call, truncate_runes}
use open_kael.Loop.Calls.{
  call_key, kept_for, keep, unknown_action, after_invoke, invoke_action, change_guard, limit_guard,
  look_up_guard, run_call, run_calls,
}
use open_kael.Loop.Budget.{bump}
use open_kael.Loop.Run.{
  Step, again, ended, Ending, returned, llm_failed, ask, give_up, wrap_up_answer, wrap_up, scold,
  after_calls, take_answer, step, steps, out_of_steps, run,
}

-- What the guards have made sure of when an action runs as the answer to a call.
pub record Admitted {F W : Type 0} (c : Config F W) (action : BoundAction F W) (call : ToolCall F)
    (counts : String → ℕ) (done_changes : List (String × String)) : Type 0 where
  pub is_found : find_action call.name c.actions ≡ some action
  pub under_cap : counts call.name < max_same_action_calls
  pub under_limit :
      (action.spec.read_only ≡ true)
      ⊎ (action.spec.max_calls ≡ 0)
      ⊎ (counts call.name < action.spec.max_calls)
  pub is_new :
      (action.spec.changes ≡ false) ⊎ (kept_for (call_key c.printing call) done_changes ≡ none)

-- What is remembered of a change, by its key, after its action returned.
abbrev pub remember_key :
    {F : Type 0}
    → Option String
    → Value F
    → Option GoError
    → String
    → List (String × String)
    → List (String × String)
remember_key key output (some err) text d = d
remember_key key output none text d = keep key (outcome_of output none).done text d

abbrev pub remember :
    {F W : Type 0}
    → Config F W
    → BoundAction F W
    → ToolCall F
    → Value F
    → Option GoError
    → List (String × String)
    → List (String × String)
remember c action call output err d =
    remember_key (if action.spec.changes then call_key c.printing call else none) output err
      (truncate_runes (stringify_result c.printing output) 300) d

-- What to show of an invariant of the counts, the changes remembered and the world.
pub record Rule {F W : Type 0} (c : Config F W)
    (I : (String → ℕ) → List (String × String) → W → Type 0) : Type 0 where
  pub count_kept :
      (name : String) (k : String → ℕ) (d : List (String × String)) (w : W)
      → I k d w
      → I (bump name k) d w
  pub ask_kept :
      (msgs : List (Message F)) (specs : List ActionSpec) (s : State F W)
      → I s.call_counts s.done_changes s.world
      → I s.call_counts s.done_changes (ask c msgs specs s).1.world
  pub action_kept :
      (action : BoundAction F W) (call : ToolCall F) (k : String → ℕ) (d : List (String × String))
      (w : W)
      → Admitted c action call k d
      → I k d w
      → let (output, err, w') = action.invoke w call.arguments in
        I (bump call.name k) (remember c action call output err d) w'

abbrev pub flow_state : {F W : Type 0} → Flow F W → State F W
flow_state (next s) = s
flow_state (break_out s) = s
flow_state (return_with r s) = s
flow_state (wrap_with why s) = s

module _ {F W : Type 0} (c : Config F W) (I : (String → ℕ) → List (String × String) → W → Type 0)
    (rule : Rule c I) where
  abbrev pub Holds : State F W → Type 0
  Holds s = I s.call_counts s.done_changes s.world

  -- A record, so that it is matched as it stands.
  pub record FlowHolds (f : Flow F W) : Type 0 where
    pub holds : Holds (flow_state f)

  by_cases :
      (b : Bool) {x y : Flow F W}
      → (b ≡ true → FlowHolds x)
      → (b ≡ false → FlowHolds y)
      → FlowHolds (if b then x else y)
  by_cases b hx hy = if_rule FlowHolds b hx hy

  finish_call-Holds :
      (r : Option Requirements) (call : ToolCall F) (rest : List (ToolCall F)) (s : State F W)
      → Holds s
      → FlowHolds (finish_call r call rest s)
  unfolding finish_call
  finish_call-Holds none call rest s h = record { holds = h }
  finish_call-Holds (some r) call rest s h = ground arith

  unknown_action-Holds :
      (call : ToolCall F) (s : State F W) → Holds s → FlowHolds (unknown_action c.printing call s)
  unfolding unknown_action
  unknown_action-Holds call s h = ground arith

  after_invoke-Holds :
      (lookup_key : Option String) (action : BoundAction F W) (call : ToolCall F)
      (rest : List (ToolCall F)) (output : Value F) (err : Option GoError) (s : State F W)
      → I s.call_counts (remember c action call output err s.done_changes) s.world
      → FlowHolds (
          after_invoke c.printing lookup_key
            (if action.spec.changes then call_key c.printing call else none)
            action
            call
            rest
            output
            err
            s)
  unfolding after_invoke
  after_invoke-Holds lookup_key action call rest output none s h = record { holds = h }
  after_invoke-Holds lookup_key action call rest output (some e) s h = ground arith

  invoke_action-Holds :
      (lookup_key : Option String) (action : BoundAction F W) (call : ToolCall F)
      (rest : List (ToolCall F)) (k : String → ℕ) (s : State F W)
      → Admitted c action call k s.done_changes
      → I k s.done_changes s.world
      → s.call_counts ≡ bump call.name k
      → FlowHolds (
          invoke_action c.printing lookup_key
            (if action.spec.changes then call_key c.printing call else none)
            action
            call
            rest
            s)
  unfolding invoke_action
  invoke_action-Holds lookup_key action call rest k s ok h e =
      let (output, err, w) = action.invoke s.world call.arguments in
      after_invoke-Holds lookup_key action call rest output err
        (record s { progressed = true; world = w })
        (rw e (rule.action_kept action call k s.done_changes s.world ok h))

  change_guard-Holds :
      (lookup_key : Option String) (action : BoundAction F W) (call : ToolCall F)
      (rest : List (ToolCall F)) (k : String → ℕ) (s : State F W)
      → find_action call.name c.actions ≡ some action
      → k call.name < max_same_action_calls
      → (action.spec.read_only ≡ true)
        ⊎ (action.spec.max_calls ≡ 0)
        ⊎ (k call.name < action.spec.max_calls)
      → I k s.done_changes s.world
      → s.call_counts ≡ bump call.name k
      → FlowHolds (change_guard c.printing lookup_key action call rest s)
  unfolding change_guard
  change_guard-Holds lookup_key action call rest k s found cap limit h e =
      Option-rule FlowHolds
        (kept_for (if action.spec.changes then call_key c.printing call else none) s.done_changes)
        (λ prev old. record { holds = rw e (rule.count_kept call.name k s.done_changes s.world h) })
        (λ new.
          invoke_action-Holds lookup_key action call rest k s
            (record {
              is_found = found;
              under_cap = cap;
              under_limit = limit;
              is_new = ground arith;
            })
            h e)

  limit_guard-Holds :
      (lookup_key : Option String) (action : BoundAction F W) (call : ToolCall F)
      (rest : List (ToolCall F)) (s : State F W)
      → find_action call.name c.actions ≡ some action
      → Holds s
      → FlowHolds (limit_guard c.printing lookup_key action call rest s)
  unfolding limit_guard
  limit_guard-Holds lookup_key action call rest s found h =
      let counted = rule.count_kept call.name s.call_counts s.done_changes s.world h in
      by_cases (ltb max_same_action_calls (s.call_counts call.name + 1)) (λ _. ground arith)
        (λ cap.
          by_cases
            (not action.spec.read_only
              && ltb 0 action.spec.max_calls
              && ltb action.spec.max_calls (s.call_counts call.name + 1))
            (λ _. ground arith)
            (λ limit.
              change_guard-Holds lookup_key action call rest s.call_counts _ found (ground arith)
                (ground arith) h refl))

  look_up_guard-Holds :
      (action : BoundAction F W) (call : ToolCall F) (rest : List (ToolCall F)) (s : State F W)
      → find_action call.name c.actions ≡ some action
      → Holds s
      → FlowHolds (look_up_guard c.printing action call rest s)
  unfolding look_up_guard
  look_up_guard-Holds action call rest s found h =
      Option-rule FlowHolds
        (kept_for (if action.spec.read_only then call_key c.printing call else none) s.looked_up)
        (λ prev old. record { holds = h }) (λ new. limit_guard-Holds _ action call rest s found h)

  run_call-Holds :
      (call : ToolCall F) (rest : List (ToolCall F)) (s : State F W)
      → Holds s
      → FlowHolds (run_call c call rest s)
  unfolding run_call
  run_call-Holds call rest s h =
      by_cases (call.name =ₛ "finish") (λ _. finish_call-Holds (held c) call rest s h)
        (λ _.
          Option-rule FlowHolds (find_action call.name c.actions)
            (λ a found. look_up_guard-Holds a call rest s found h)
            (λ _. unknown_action-Holds call s h))

  pub run_calls-Holds :
      (calls : List (ToolCall F)) (s : State F W) → Holds s → FlowHolds (run_calls c calls s)
  unfolding run_calls
  run_calls-Holds [] s h = record { holds = h }
  run_calls-Holds (call ∷ rest) s h =
      after (run_call c call rest s) (run_call-Holds call rest s h) (run_calls-Holds rest)
    where
      after :
          (f : Flow F W)
          → FlowHolds f
          → ((t : State F W) → Holds t → FlowHolds (run_calls c rest t))
          → FlowHolds (elim f [
            | next t ↦ run_calls c rest t
            | break_out t ↦ next t
            | return_with r t ↦ return_with r t
            | wrap_with why t ↦ wrap_with why t
          ])
      after (next t) k later = later t k.holds
      after (break_out t) k later = record { holds = k.holds }
      after (return_with r t) k later = record { holds = k.holds }
      after (wrap_with why t) k later = record { holds = k.holds }
