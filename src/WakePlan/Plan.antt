-- ===== src/WakePlan/Plan.antt =====
-- runtime/wake_plan.go: `PlanWake`. The hydration of an agent's abilities, with the person's context, is
-- what `HostedAgent` gives; a location is part of `Times`.
use open_kael.Loop.Beside.{beside_provider, beside_clock}
use open_kael.Loop.Run.{returned}
use open_kael.WakePlan.Prompt.{wake_prompt}
use open_kael.Messages.{user, system, message}
use open_kael.WakePlan.{
  new_state, may_act_now, decided, check, WakeState, WakeRequest, WakePlan, Times,
}
use open_kael.WakePlan.Abilities.{
  set_next_wake, get_current_time, finish_action, count_lookups, confirm_moment, cannot_plan,
  Planning,
}
use open_kael.Loop.Run.{start, run, llm_failed, Ending}
use open_kael.Loop.{say, State, Provider, Printing, Config, Clock, BoundAction}
use open_kael.Prelude.Text.{trim_space, is_empty, ◌=ₛ◌, ◌<>◌}
use open_kael.Prelude.{
  ◌∷◌, ℕ, ◌||◌, some, ok, not, none, map, lookup, if◌then◌else◌, has, false, bad, [], String,
  Result, Option, List, ◌==◌, ◌++◌, ◌&&◌,
}

-- What the host has of an agent: its models, and for each of its skills what hydration gives.
pub record HostedAgent (F V : Type 0) : Type 0 where
  pub llms : List (Provider F V)
  pub skills : List (Result (List (BoundAction F V)))

abbrev pub max_wake_iterating : ℕ
max_wake_iterating = 12

abbrev pub ask_options_action_name : String
ask_options_action_name = "ask_options"

abbrev pub not_connected : String
not_connected =
    "I'm not connected to anything that could tell me when that will be, so I can't time it. Give me a time of day instead, or connect what it depends on."

abbrev pub nudge : String
nudge =
    "You have not set the next wake-up yet. Call set_next_wake with the time and the reason (or cannot_plan if you cannot find it out), then call finish."

abbrev pub no_wake_plan : String
no_wake_plan = "the agent did not set when to wake"

abbrev pub only_say : String → WakePlan
only_say say = record { at = 0; kind = check; reason = ""; do_it_now = false; say = say }

-- `req.Now = time.Now()`, where there is none.
abbrev pub timed : {V : Type 0} → Times V → V → WakeRequest → WakeRequest
timed t v req = record req { now = if req.now == 0 then t.now v else req.now }

-- What the planning step says in the end.
unfoldable pub final_plan : WakeRequest → (content : String) → WakeState → Result WakePlan
final_plan req content st = elim st.plan [
  | some plan ↦ ok (record plan { do_it_now = st.do_now && may_act_now req })
  | none ↦
      if not (is_empty st.say)
      then ok (only_say st.say)
      else if not (is_empty content)
      then bad ("PlanWake: " <> (no_wake_plan <> (" (" <> (content <> ")"))))
      else bad no_wake_plan
]

-- The end of `PlanWake`: what it returns, and the state of the planning step and the world.
abbrev pub conclude :
    {V : Type 0} → WakeRequest → (content : String) → Planning V → Result WakePlan × Planning V
conclude req content w = (final_plan req content w.1, w)

module _ {F V : Type 0} where
  -- The inner loop over the tools of a skill: what is new of the look-ups, and the names seen.
  unfoldable pub look_ups_of :
      List (BoundAction F V) → List String → List (BoundAction F (Planning V)) × List String
  look_ups_of [] seen = ([], seen)
  look_ups_of (a ∷ tools) seen =
      let skipped = look_ups_of tools seen in
      let (rest, seen') = look_ups_of tools (a.spec.name ∷ seen) in
      if not a.spec.read_only || has a.spec.name seen || a.spec.name =ₛ ask_options_action_name
      then skipped
      else (count_lookups a ∷ rest, seen')

  -- The loop over the skills, which skips one that could not be hydrated.
  unfoldable pub look_ups :
      List (Result (List (BoundAction F V))) → List String → List (BoundAction F (Planning V))
  look_ups [] seen = []
  look_ups (bad e ∷ skills) seen = look_ups skills seen
  look_ups (ok tools ∷ skills) seen =
      let (found, seen') = look_ups_of tools seen in found ++ look_ups skills seen'

  -- All that the agent may use.
  abbrev pub wake_actions :
      Times V → WakeRequest → List (BoundAction F (Planning V)) → List (BoundAction F (Planning V))
  wake_actions t req found =
      found
      ++ get_current_time t
        ∷ set_next_wake t req.now
        ∷ cannot_plan
        ∷ finish_action
        ∷ (if may_act_now req then confirm_moment ∷ [] else [])

  -- `domain.NewNativeLoop`, for the actions and with no requirements.
  abbrev pub wake_loop :
      Printing F
      → Clock V
      → List (Provider F V)
      → List (BoundAction F (Planning V))
      → Config F (Planning V)
  wake_loop p clock llms actions = record {
    llms = map beside_provider llms;
    max_iterations = max_wake_iterating;
    actions = actions;
    requirements = none;
    printing = p;
    clock = beside_clock clock;
  }

  abbrev pub content_of : String → Ending F (Planning V) → String
  content_of earlier (returned res s) = res.content
  content_of earlier (llm_failed e s) = earlier

  abbrev pub state_of : Ending F (Planning V) → State F (Planning V)
  state_of (returned res s) = s
  state_of (llm_failed e s) = s

  -- The one reminder.
  unfoldable pub remind :
      Config F (Planning V)
      → WakeRequest
      → (content : String) → State F (Planning V)
      → Option (Result WakePlan × Planning V)
  remind c req content s =
      elim (run c 0 (start c (s.messages ++ message user nudge ∷ []) s.down_until s.world)) [
        | none ↦ none
        | some e ↦ some (conclude req (content_of content e) (state_of e).world)
      ]

  unfoldable pub after_first :
      Config F (Planning V)
      → WakeRequest
      → Ending F (Planning V)
      → Option (Result WakePlan × Planning V)
  after_first c req (llm_failed e s) = some (bad ("PlanWake: " <> e.text), s.world)
  after_first c req (returned res s) =
      if decided s.world.1
      then some (conclude req res.content s.world)
      else remind c req res.content s

  -- `PlanWake` for an agent with the abilities that it may use; a run is `none` where it has no end.
  unfoldable pub plan_with :
      Printing F
      → Times V
      → Clock V
      → List (Provider F V)
      → WakeRequest
      → V
      → List (BoundAction F (Planning V))
      → Option (Result WakePlan × Planning V)
  plan_with p t clock llms req v [] = some (ok (only_say not_connected), (v, new_state))
  plan_with p t clock llms req v (a ∷ found) =
      let c = wake_loop p clock llms (wake_actions t req (a ∷ found)) in
      elim (run c 0 (
        start c
          (message system (wake_prompt t req (may_act_now req))
            ∷ message user "Work out when this should happen."
            ∷ [])
          (λ i. 0) (v, new_state))) [ none ↦ none | some e ↦ after_first c req e ]

  unfoldable pub plan_hosted :
      Printing F
      → Times V
      → Clock V
      → WakeRequest
      → V
      → Option (HostedAgent F V)
      → Option (Result WakePlan × Planning V)
  plan_hosted p t clock req v none =
      some (bad ("PlanWake: agent " <> (t.quote req.agent_id <> " not registered")), (v, new_state))
  plan_hosted p t clock req v (some hosted) =
      if is_empty (trim_space req.action) || is_empty (trim_space req.timing)
      then some (bad "PlanWake: a task and when it should happen are needed", (v, new_state))
      else plan_with p t clock hosted.llms (timed t v req) v (look_ups hosted.skills [])

  -- `PlanWake`, on the agents of the host.
  unfoldable pub plan_wake :
      Printing F
      → Times V
      → Clock V
      → List (String × HostedAgent F V)
      → WakeRequest
      → V
      → Option (Result WakePlan × Planning V)
  plan_wake p t clock agents req v = plan_hosted p t clock req v (lookup req.agent_id agents)
