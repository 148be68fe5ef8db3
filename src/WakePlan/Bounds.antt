-- ===== src/WakePlan/Bounds.antt =====
-- runtime/wake_plan.go: what a planning step may decide, whatever the models and the look-ups answer.
use open_kael.Loop.Cut.{first_runes-count_le}
use open_kael.WakePlan.Abilities.{told_cannot, next_set, counted_look_up, confirmed}
use open_kael.Prelude.Text.{is_empty}
use open_kael.Loop.Flow.{first_runes}
use Prim.Native.String.{count}
use open_kael.Values.{Fields}
use open_kael.Prelude.{
  refl, map_ok, ltb, if_rule, Bool, ◌==◌, ◌≤◌, ◌≡◌, ℕ, true, suc, some, ok, none, is_some, false,
  bad, arith, String, Result, Option, ◌<◌, ◌+◌,
}
use open_kael.WakePlan.{
  too_soon, too_far, parse_wake_time, with_kind, validate, min_ahead, max_wake_ahead, in_range,
  cut_to, WakeKind, Times, WakePlan, WakeState,
}

cut_to-count_le : (max : ℕ) (s : String) → count (cut_to max s) ≤ max
cut_to-count_le max s = ground (arith, first_runes-count_le max s)

cut_to-is_empty : (n : ℕ) (s : String) → is_empty s ≡ false → is_empty (cut_to (suc n) s) ≡ false
unfolding first_runes
cut_to-is_empty n String.[] h = cc
cut_to-is_empty n (String.◌∷◌ c s) h = ground arith

-- A plan that may be kept: its time lies in the range for its kind, and its reason is short.
pub record InBounds (now : ℕ) (p : WakePlan) : Type 0 where
  pub not_too_soon : now + min_ahead p.kind ≤ p.at
  pub not_too_far : p.at ≤ now + max_wake_ahead
  pub has_reason : is_empty p.reason ≡ false
  pub short_reason : count p.reason ≤ 200
  pub says_nothing : is_empty p.say ≡ true

pub data Kept (now : ℕ) : Option WakePlan → Type 0 where
  no_plan : Kept now none
  a_plan : {p : WakePlan} → InBounds now p → Kept now (some p)

-- What holds of the state of a planning step: it has decided nothing from memory.
pub record IsSound (now : ℕ) (st : WakeState) : Type 0 where
  pub kept : Kept now st.plan
  pub looked_up : is_some st.plan ≡ true → 0 < st.lookups
  pub checked : st.do_now ≡ true → 0 < st.lookups
  pub short : count st.say ≤ 300

-- A result of `validate`: a refusal, or a plan after a look-up.
data Judged (now lookups : ℕ) : Result WakePlan → Type 0 where
  is_refused : (e : String) → Judged now lookups (bad e)
  is_planned : {p : WakePlan} → 0 < lookups → InBounds now p → Judged now lookups (ok p)

module _ {V : Type 0} (t : Times V) (now lookups : ℕ) where
  in_range-Judged :
      (kind : WakeKind) (reason : String) (at : Result ℕ)
      → 0 < lookups
      → is_empty reason ≡ false
      → count reason ≤ 200
      → Judged now lookups (in_range t now kind reason at)
  unfolding in_range
  in_range-Judged kind reason (bad e) l n c = is_refused e
  in_range-Judged kind reason (ok at) l n c =
      if_rule (Judged now lookups) (ltb at (now + min_ahead kind))
        (λ _. is_refused (too_soon t kind now))
        (λ late.
          if_rule (Judged now lookups) (ltb (now + max_wake_ahead) at)
            (λ _. is_refused (too_far t now))
            (λ soon. is_planned l record {
              not_too_soon = ground arith;
              not_too_far = ground arith;
              has_reason = n;
              short_reason = c;
              says_nothing = refl;
            }))

  with_kind-Judged :
      (reason at : String) (kind : Option WakeKind)
      → 0 < lookups
      → Judged now lookups (with_kind t now reason at kind)
  unfolding with_kind
  with_kind-Judged reason at none l = is_refused "kind must be \"act\" or \"check\""
  with_kind-Judged reason at (some kind) l =
      if_rule (Judged now lookups) (is_empty reason)
        (λ _. is_refused "give the reason in one plain sentence")
        (λ given.
          in_range-Judged kind (cut_to 200 reason) (parse_wake_time t at) l
            (cut_to-is_empty 199 reason given) (cut_to-count_le 200 reason))

module _ {V : Type 0} (t : Times V) (now : ℕ) where
  validate-Judged :
      {F : Type 0} (st : WakeState) (input : Fields F)
      → Judged now st.lookups (validate t now st input)
  unfolding validate
  validate-Judged st input =
      if_rule (Judged now st.lookups) (st.lookups == 0) (λ _. is_refused _)
        (λ looked. with_kind-Judged t now st.lookups _ _ _ (ground arith))

  -- What an ability answers, and the state that it leaves.
  pub data Leaves : Result (String × WakeState) → Type 0 where
    unchanged : (e : String) → Leaves (bad e)
    changed_to : (text : String) {st : WakeState} → IsSound now st → Leaves (ok (text, st))

  pub confirmed-Leaves : (st : WakeState) → IsSound now st → Leaves (confirmed st)
  unfolding confirmed
  confirmed-Leaves st h =
      if_rule Leaves (st.lookups == 0) (λ _. unchanged _)
        (λ looked. changed_to _ record {
          kept = h.kept;
          looked_up = h.looked_up;
          checked = λ _. ground arith;
          short = h.short;
        })

  pub told_cannot-Leaves :
      (msg : String) (st : WakeState) → IsSound now st → Leaves (told_cannot msg st)
  unfolding told_cannot
  told_cannot-Leaves msg st h =
      if_rule Leaves (is_empty msg) (λ _. unchanged _)
        (λ said. changed_to _ record {
          kept = h.kept;
          looked_up = h.looked_up;
          checked = h.checked;
          short = cut_to-count_le 300 msg;
        })

  pub next_set-Leaves :
      {F : Type 0} (input : Fields F) (st : WakeState)
      → IsSound now st
      → Leaves (next_set t now input st)
  unfolding next_set
  next_set-Leaves input st h = after (validate t now st input) (validate-Judged st input)
    where
      after :
          (r : Result WakePlan)
          → Judged now st.lookups r
          → Leaves (map_ok (λ plan. ("Noted. Now call finish.", record st { plan = some plan })) r)
      after (bad e) j = unchanged e
      after (ok p) (is_planned looked k) =
          changed_to _ record {
            kept = a_plan k;
            looked_up = λ _. looked;
            checked = h.checked;
            short = h.short;
          }

  pub counted_look_up-IsSound :
      (done : Bool) (st : WakeState) → IsSound now st → IsSound now (counted_look_up done st)
  counted_look_up-IsSound true st h = record {
    kept = h.kept;
    looked_up = λ _. omega arith;
    checked = λ _. omega arith;
    short = h.short;
  }
  counted_look_up-IsSound false st h = h
