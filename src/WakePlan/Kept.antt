-- ===== src/WakePlan/Kept.antt =====
-- runtime/wake_plan.go: what holds of the state of a planning step through a run of the loop.
use open_kael.Loop.Providers.{call_llm}
use open_kael.Loop.Beside.{call_from-beside}
use open_kael.Messages.{Message}
use open_kael.Loop.Budget.{find_action-some}
use open_kael.Loop.Safety.{Rule}
use open_kael.WakePlan.Plan.{
  wake_loop, wake_actions, ask_options_action_name, look_ups_of, look_ups,
}
use open_kael.Prelude.Text.{◌=ₛ◌}
use open_kael.WakePlan.Abilities.{
  ability_answer, set_next_wake, get_current_time, finish_action, confirm_moment, cannot_plan,
  count_lookups, Planning,
}
use open_kael.Values.{Fields}
use open_kael.Loop.{State, ActionSpec, Provider, Printing, Clock, BoundAction}
use open_kael.Prelude.{
  refl, sym, some, none, if◌then◌else◌, All-at, ◌||◌, not, if_rule, has, ◌≡◌, ◌∷◌, ℕ, ok, bad, [],
  String, Result, List, All-append, All,
}
use open_kael.WakePlan.Bounds.{
  told_cannot-Leaves, next_set-Leaves, counted_look_up-IsSound, confirmed-Leaves, changed_to,
  IsSound, Leaves,
}
use open_kael.Loop.Run.{ask, Ending, run}
use open_kael.Loop.Safety.Runs.{run-Holds, ending_state}
use open_kael.WakePlan.{input_text, may_act_now, WakeState, WakeRequest, Times}
use mathlib.Core.Path.{subst}

ability_answer-IsSound :
    (F : Type 0) {V : Type 0} (t : Times V) (now : ℕ) (w : Planning V)
    (r : Result (String × WakeState))
    → IsSound now w.1
    → Leaves t now r
    → IsSound now (ability_answer {F = F} w r).2.1
ability_answer-IsSound F t now w (bad e) h l = h
ability_answer-IsSound F t now w (ok (text, st)) h (changed_to x k) = k

module _ {F V : Type 0} (t : Times V) (now : ℕ) where
  -- Using an action keeps what holds of the planning step.
  abbrev pub Keeps : BoundAction F (Planning V) → Type 0
  Keeps a =
      (w : Planning V) (input : Fields F) → IsSound now w.1 → IsSound now (a.invoke w input).2.1

  look_ups_of-Keeps :
      (tools : List (BoundAction F V)) (seen : List String) → All Keeps (look_ups_of tools seen).0
  unfolding look_ups_of count_lookups
  look_ups_of-Keeps [] seen = tt
  look_ups_of-Keeps (a ∷ tools) seen =
      if_rule (λ (found : List (BoundAction F (Planning V)) × List String). All Keeps found.0)
        (not a.spec.read_only || has a.spec.name seen || a.spec.name =ₛ ask_options_action_name)
        (λ _. look_ups_of-Keeps tools seen)
        (λ _. (
          λ w input h. counted_look_up-IsSound t now _ w.1 h,
          look_ups_of-Keeps tools (a.spec.name ∷ seen),
        ))

  pub look_ups-Keeps :
      (skills : List (Result (List (BoundAction F V)))) (seen : List String)
      → All Keeps (look_ups skills seen)
  unfolding look_ups
  look_ups-Keeps [] seen = tt
  look_ups-Keeps (bad e ∷ skills) seen = look_ups-Keeps skills seen
  look_ups-Keeps (ok tools ∷ skills) seen =
      All-append Keeps (look_ups_of tools seen).0 _ (look_ups_of-Keeps tools seen)
        (look_ups-Keeps skills (look_ups_of tools seen).1)

  pub wake_actions-Keeps :
      (req : WakeRequest) (found : List (BoundAction F (Planning V)))
      → req.now ≡ now
      → All Keeps found
      → All Keeps (wake_actions t req found)
  unfolding get_current_time set_next_wake cannot_plan finish_action confirm_moment
  wake_actions-Keeps req found same h =
      let confirming : All Keeps (if may_act_now req then confirm_moment ∷ [] else []) =
        if_rule (All Keeps) (may_act_now req)
          (λ _.
            (λ w input k. ability_answer-IsSound F t now w _ k (confirmed-Leaves t now w.1 k), tt))
          (λ _. tt) in
      let cannot : Keeps cannot_plan = λ w input k.
        ability_answer-IsSound F t now w _ k
          (told_cannot-Leaves t now (input_text "message" input) w.1 k) in
      let setting : Keeps (set_next_wake t req.now) = λ w input k.
        rw same (ability_answer-IsSound F t now w _ k (next_set-Leaves t now input w.1 k)) in
      All-append Keeps found _ h (λ w input k. k, (setting, (cannot, (λ w input k. k, confirming))))

  -- The loop keeps what its actions keep: its models and its clock know nothing of the planning step.
  module _ (p : Printing F) (clock : Clock V) (llms : List (Provider F V))
      (actions : List (BoundAction F (Planning V))) (kept : All Keeps actions) where
    abbrev Sound : (String → ℕ) → List (String × String) → Planning V → Type 0
    Sound k d w = IsSound now w.1

    ask-unchanged :
        (msgs : List (Message F)) (specs : List ActionSpec) (s : State F (Planning V))
        → (ask (wake_loop p clock llms actions) msgs specs s).1.world.1 ≡ s.world.1
    unfolding ask call_llm
    ask-unchanged msgs specs s = call_from-beside clock msgs specs 0 none llms s.down_until s.world

    wake_loop-Rule : Rule (wake_loop p clock llms actions) Sound
    wake_loop-Rule = record {
      count_kept = λ name k d w h. h;
      ask_kept = λ msgs specs s h. subst (IsSound now) (sym (ask-unchanged msgs specs s)) h;
      action_kept = λ a call k d w ok h.
          All-at Keeps actions kept (find_action-some call.name actions ok.is_found).0 w
            call.arguments h;
    }

    -- What holds of the planning step when a run of the loop starts holds when it ends.
    pub run-IsSound :
        (s : State F (Planning V)) (e : Ending F (Planning V))
        → IsSound now s.world.1
        → run (wake_loop p clock llms actions) 0 s ≡ some e
        → IsSound now (ending_state e).world.1
    run-IsSound s e h q = run-Holds (wake_loop p clock llms actions) Sound wake_loop-Rule 0 s h q

    pub run-some :
        (s : State F (Planning V))
        → (e : Ending F (Planning V)) × (run (wake_loop p clock llms actions) 0 s ≡ some e)
    unfolding run
    run-some s = (_, refl)
