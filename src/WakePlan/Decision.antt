-- ===== src/WakePlan/Decision.antt =====
-- runtime/wake_plan.go: what `PlanWake` returns.
use open_kael.WakePlan.Kept.{wake_actions-Keeps, run-some, run-IsSound, look_ups-Keeps, Keeps}
use open_kael.WakePlan.Prompt.{wake_prompt}
use open_kael.Messages.{system, user, message}
use open_kael.WakePlan.Plan.{
  timed, plan_with, plan_wake, plan_hosted, after_first, HostedAgent, state_of, remind, nudge,
  content_of, only_say, no_wake_plan, final_plan, conclude, wake_loop, wake_actions, look_ups,
}
use open_kael.Prelude.Text.{trim_space, ◌<>◌, is_empty}
use Prim.Native.String.{count}
use open_kael.WakePlan.Abilities.{Planning}
use open_kael.Loop.{Config, State, Provider, Printing, Clock, BoundAction}
use open_kael.Prelude.{
  lookup, some_injective, Bool, ◌++◌, arith, Option, ◌&&◌, refl, some, none, if◌then◌else◌, ◌||◌,
  not, if_rule, ◌≤◌, ◌≡◌, ◌∷◌, ℕ, true, ok, false, bad, [], String, Result, List, All, ◌<◌,
}
use open_kael.WakePlan.Bounds.{no_plan, a_plan, Kept, InBounds, IsSound}
use open_kael.Loop.Run.{start, Ending, returned, llm_failed}
use open_kael.Loop.Safety.Runs.{ending_state}
use open_kael.WakePlan.{decided, new_state, may_act_now, WakeRequest, Times, WakePlan}
use mathlib.Core.Path.{subst}

-- What `PlanWake` may return: where it gives a time, that is in range, comes from what was looked up in
-- this planning step, and the task is done now only at an act time that is on time; else it says
-- something short.
pub record IsPlanned {V : Type 0} (req : WakeRequest) (p : WakePlan) (w : Planning V) : Type 0 where
  pub bounds : InBounds req.now p
  pub looked_up : 0 < w.1.lookups
  pub on_time : p.do_it_now ≡ true → may_act_now req ≡ true

pub record IsSaid (p : WakePlan) : Type 0 where
  pub says : is_empty p.say ≡ false
  pub short : count p.say ≤ 300
  pub not_now : p.do_it_now ≡ false

pub data Answered {V : Type 0} (req : WakeRequest) : Result WakePlan × Planning V → Type 0 where
  planned : {p : WakePlan} {w : Planning V} → IsPlanned req p w → Answered req (ok p, w)
  said : {p : WakePlan} {w : Planning V} → IsSaid p → Answered req (ok p, w)
  failed : (e : String) (w : Planning V) → Answered req (bad e, w)

kept_at : {now : ℕ} {o : Option WakePlan} {p : WakePlan} → Kept now o → o ≡ some p → InBounds now p
kept_at no_plan e = cc
kept_at {now = now} (a_plan b) e = subst (InBounds now) (some_injective e) b

second_holds : (a b : Bool) → (a && b) ≡ true → b ≡ true
second_holds true b h = h
second_holds false b h = cc

final_plan-Answered :
    {V : Type 0} (req : WakeRequest) (content : String) (w : Planning V)
    → IsSound req.now w.1
    → Answered req (conclude req content w)
unfolding final_plan
final_plan-Answered req content w h = by_plan w.1.plan refl
  where
    by_plan :
        (o : Option WakePlan)
        → w.1.plan ≡ o
        → Answered req (
          elim o [
            | some plan ↦ ok (record plan { do_it_now = w.1.do_now && may_act_now req })
            | none ↦
                if not (is_empty w.1.say)
                then ok (only_say w.1.say)
                else if not (is_empty content)
                then bad ("PlanWake: " <> (no_wake_plan <> (" (" <> (content <> ")"))))
                else bad no_wake_plan
          ],
          w,
        )
    by_plan none e =
        if_rule (λ (r : Result WakePlan). Answered req (r, w)) (not (is_empty w.1.say))
          (λ says. said record { says = ground arith; short = h.short; not_now = refl })
          (λ _.
            if_rule (λ (r : Result WakePlan). Answered req (r, w)) (not (is_empty content))
              (λ _. failed _ w) (λ _. failed _ w))
    by_plan (some p) e =
        let b = kept_at h.kept e in
        planned {p = record p { do_it_now = w.1.do_now && may_act_now req }} record {
          bounds = record {
            not_too_soon = b.not_too_soon;
            not_too_far = b.not_too_far;
            has_reason = b.has_reason;
            short_reason = b.short_reason;
            says_nothing = b.says_nothing;
          };
          looked_up = h.looked_up (rw e refl);
          on_time = second_holds w.1.do_now (may_act_now req);
        }

new_state-IsSound : (now : ℕ) → IsSound now new_state
new_state-IsSound now = record {
  kept = no_plan;
  looked_up = λ h. cc;
  checked = λ h. cc;
  short = omega arith;
}

at_state :
    {F V : Type 0} {now : ℕ} (e : Ending F (Planning V))
    → IsSound now (ending_state e).world.1
    → IsSound now (state_of e).world.1
at_state (returned res s) h = h
at_state (llm_failed err s) h = h

-- Something is returned, and it is as it should be.
abbrev Returns : {V : Type 0} → WakeRequest → Option (Result WakePlan × Planning V) → Type 0
Returns {V} req o = (r : Result WakePlan × Planning V) × (o ≡ some r) × Answered req r

module _ {F V : Type 0} (t : Times V) (req : WakeRequest) where
  module _ (p : Printing F) (clock : Clock V) (llms : List (Provider F V))
      (actions : List (BoundAction F (Planning V)))
      (kept : All (Keeps {F = F} {V = V} t req.now) actions) where
    abbrev loop : Config F (Planning V)
    loop = wake_loop p clock llms actions

    remind-Returns :
        (content : String) (s : State F (Planning V))
        → IsSound req.now s.world.1
        → Returns req (remind loop req content s)
    unfolding remind
    remind-Returns content s h =
        let again_from = start loop (s.messages ++ message user nudge ∷ []) s.down_until s.world in
        let (e, q) = run-some t req.now p clock llms actions kept again_from in
        let kept_end = run-IsSound t req.now p clock llms actions kept again_from e h q in
        rw (remind, q)
          (
            conclude req (content_of content e) (state_of e).world,
            refl,
            final_plan-Answered req (content_of content e) (state_of e).world (at_state e kept_end),
          )

    after_first-Returns :
        (e : Ending F (Planning V))
        → IsSound req.now (state_of e).world.1
        → Returns req (after_first loop req e)
    unfolding after_first
    after_first-Returns (llm_failed e s) h = (_, refl, failed ("PlanWake: " <> e.text) s.world)
    after_first-Returns (returned res s) h =
        if_rule (Returns req) (decided s.world.1)
          (λ _. (_, refl, final_plan-Answered req res.content s.world h))
          (λ _. remind-Returns res.content s h)

  plan_with-Returns :
      (p : Printing F) (clock : Clock V) (llms : List (Provider F V)) (v : V)
      (found : List (BoundAction F (Planning V)))
      → All (Keeps {F = F} {V = V} t req.now) found
      → Returns req (plan_with p t clock llms req v found)
  unfolding plan_with
  plan_with-Returns p clock llms v [] kept =
      (_, refl, said record { says = refl; short = omega arith; not_now = refl })
  plan_with-Returns p clock llms v (a ∷ found) kept =
      let all = wake_actions-Keeps t req.now req (a ∷ found) refl kept in
      let c = wake_loop p clock llms (wake_actions t req (a ∷ found)) in
      let s =
        start c
          (message system (wake_prompt t req (may_act_now req))
            ∷ message user "Work out when this should happen."
            ∷ [])
          (λ i. 0) (v, new_state) in
      let (e, q) = run-some t req.now p clock llms (wake_actions t req (a ∷ found)) all s in
      rw (plan_with, q)
        (after_first-Returns p clock llms (wake_actions t req (a ∷ found)) all e (
          at_state e (
            run-IsSound t req.now p clock llms (wake_actions t req (a ∷ found)) all s e
              (new_state-IsSound req.now) q)))

-- `PlanWake` always returns something, whatever the models and the look-ups answer: an error, something
-- short to say, or a plan whose time is at least 15 minutes (to act) or an hour (to check) and at most
-- 7 days ahead of now, with a reason of at most 200 characters, and which was set after a look-up in
-- this planning step worked. It says to do the task now only at a wake-up of an act time that is not
-- later than it may be.
pub plan_wake-Returns :
    {F V : Type 0} (p : Printing F) (t : Times V) (clock : Clock V)
    (agents : List (String × HostedAgent F V)) (req : WakeRequest) (v : V)
    → (r : Result WakePlan × Planning V) × (plan_wake p t clock agents req v ≡ some r)
      × Answered (timed t v req) r
unfolding plan_wake plan_hosted
plan_wake-Returns {F = F} {V = V} p t clock agents req v = hosted (lookup req.agent_id agents)
  where
    hosted :
        (o : Option (HostedAgent F V)) → Returns (timed t v req) (plan_hosted p t clock req v o)
    hosted none = (_, refl, failed _ (v, new_state))
    hosted (some h) =
        if_rule (Returns (timed t v req))
          (is_empty (trim_space req.action) || is_empty (trim_space req.timing))
          (λ _. (_, refl, failed _ (v, new_state)))
          (λ _.
            plan_with-Returns t (timed t v req) p clock h.llms v (look_ups h.skills [])
              (look_ups-Keeps t (timed t v req).now h.skills []))
