-- ===== src/Loop/Budget.antt =====
-- What the calls of one answer use up: the uses of the actions that a run may still make, against
-- the failures in a row.
use mathlib.Core.List.{Memᴰ}
use open_kael.Prelude.{
  ℕ, ◌+◌, ◌-◌, ◌≤◌, ◌<◌, String, true, not, ◌&&◌, Option, none, some, List, [], ◌∷◌, ◌≡◌, refl, ◌⊎◌,
  inl, inr, arith, if◌then◌else◌, ltb, last_where, Bool-cases, Option-cases, Option-rule,
}
use open_kael.Prelude.Text.{◌=ₛ◌, eq_iff}
use open_kael.Values.{Value}
use open_kael.Messages.{ToolCall}
use open_kael.Outcome.{GoError, Requirements}
use open_kael.Loop.{BoundAction, Printing, Config, State, find_action, held, max_same_action_calls}
use open_kael.Loop.Flow.{Flow, next, break_out, return_with, wrap_with, finish_call}
use open_kael.Loop.Calls.{
  call_key, kept_for, unknown_action, after_invoke, invoke_action, change_guard, limit_guard,
  look_up_guard, run_call, run_calls,
}

abbrev pub bump : String → (String → ℕ) → String → ℕ
bump name counts k = if k =ₛ name then counts name + 1 else counts k

module _ {F W : Type 0} where
  -- The uses that are left of the actions offered.
  unfoldable pub uses_left : List (BoundAction F W) → (String → ℕ) → ℕ
  uses_left [] counts = 0
  uses_left (a ∷ actions) counts =
      (max_same_action_calls - counts a.spec.name) + uses_left actions counts

  pub uses_left-bump :
      (actions : List (BoundAction F W)) (name : String) (counts : String → ℕ)
      → uses_left actions (bump name counts) ≤ uses_left actions counts
  unfolding uses_left
  uses_left-bump [] name counts = omega arith
  uses_left-bump (a ∷ actions) name counts =
      ground (arith, uses_left-bump actions name counts, eq_iff a.spec.name name)

  pub find_action-some :
      (name : String) (actions : List (BoundAction F W)) {a : BoundAction F W}
      → find_action name actions ≡ some a
      → Memᴰ a actions × (a.spec.name ≡ name)
  unfolding find_action
  find_action-some name [] h = cc
  find_action-some name (b ∷ actions) {a} h =
      elim (Option-cases (last_where (λ (x : BoundAction F W). x.spec.name =ₛ name) actions)) [
        | inr (d, e) ↦
            let (m, q) = find_action-some name actions {a = a} (ground arith) in (Memᴰ.tail m, q)
        | inl e ↦ (Memᴰ.head (ground arith), ground (arith, eq_iff b.spec.name name))
      ]

  pub uses_left-bump_mem :
      (actions : List (BoundAction F W)) (a : BoundAction F W) (name : String) (counts : String → ℕ)
      → Memᴰ a actions
      → a.spec.name ≡ name
      → counts name < max_same_action_calls
      → uses_left actions (bump name counts) + 1 ≤ uses_left actions counts
  unfolding uses_left
  uses_left-bump_mem [] a name counts m q h = elim m [ ]
  uses_left-bump_mem (b ∷ actions) a name counts (Memᴰ.head e) q h =
      let here : b.spec.name ≡ name = cc in
      rw here (ground (arith, uses_left-bump actions name counts, eq_iff name name))
  uses_left-bump_mem (b ∷ actions) a name counts (Memᴰ.tail m) q h =
      ground (arith, uses_left-bump_mem actions a name counts m q h, eq_iff b.spec.name name)

module _ {F W : Type 0} (actions : List (BoundAction F W)) where
  -- The uses left, and the one that this step is known to have made.
  abbrev pub potential : State F W → ℕ
  potential s = uses_left actions s.call_counts + (if s.progressed then 1 else 0)

  -- What one call leaves of the budget: a success is paid for by a use.
  pub record Spends (s s' : State F W) : Type 0 where
    pub paid : potential s' ≤ potential s
    pub same_stale : s'.stale ≡ s.stale
    pub capped : s.consecutive_failures ≤ 2 → s'.consecutive_failures ≤ 2
    pub goes_on : s.progressed ≡ true → s'.progressed ≡ true
    pub fails_stay : (s'.progressed ≡ true) ⊎ (s.consecutive_failures ≤ s'.consecutive_failures)

  abbrev pub FlowSpends : State F W → Flow F W → Type 0
  FlowSpends s (next s') = Spends s s'
  FlowSpends s (break_out s') = Spends s s'
  FlowSpends s (return_with r s') = Unit
  FlowSpends s (wrap_with why s') = Unit

  Spends-trans : {s t u : State F W} → Spends s t → Spends t u → Spends s u
  Spends-trans h k = ground arith

  FlowSpends-trans :
      {s t : State F W} → Spends s t → (f : Flow F W) → FlowSpends t f → FlowSpends s f
  FlowSpends-trans h (next u) k = Spends-trans h k
  FlowSpends-trans h (break_out u) k = Spends-trans h k
  FlowSpends-trans h (return_with r u) k = tt
  FlowSpends-trans h (wrap_with why u) k = tt

  finish_call-Spends :
      (r : Option Requirements) (call : ToolCall F) (rest : List (ToolCall F)) (s : State F W)
      → FlowSpends s (finish_call r call rest s)
  unfolding finish_call
  finish_call-Spends none call rest s = tt
  finish_call-Spends (some r) call rest s = ground arith

  module _ (p : Printing F) where
    unknown_action-Spends :
        (call : ToolCall F) (s : State F W) → FlowSpends s (unknown_action p call s)
    unfolding unknown_action
    unknown_action-Spends call s = ground arith

    after_invoke-Spends :
        (lookup_key change_key : Option String) (action : BoundAction F W) (call : ToolCall F)
        (rest : List (ToolCall F)) (output : Value F) (err : Option GoError) (s t : State F W)
        → Spends s t
        → t.progressed ≡ true
        → FlowSpends s (after_invoke p lookup_key change_key action call rest output err t)
    unfolding after_invoke
    after_invoke-Spends lookup_key change_key action call rest output err s t h k = ground arith

    -- The state before a call was counted, and after.
    record Charged (s t : State F W) : Type 0 where
      used : uses_left actions t.call_counts + 1 ≤ uses_left actions s.call_counts
      stale_same : t.stale ≡ s.stale
      fails_same : t.consecutive_failures ≡ s.consecutive_failures
      flag_same : t.progressed ≡ s.progressed

    invoke_action-Spends :
        (lookup_key change_key : Option String) (action : BoundAction F W) (call : ToolCall F)
        (rest : List (ToolCall F)) (s t : State F W)
        → Charged s t
        → FlowSpends s (invoke_action p lookup_key change_key action call rest t)
    unfolding invoke_action
    invoke_action-Spends lookup_key change_key action call rest s t h =
        let (output, err, w) = action.invoke t.world call.arguments in
        after_invoke-Spends lookup_key change_key action call rest output err s
          (record t { progressed = true; world = w }) (ground arith) refl

    change_guard-Spends :
        (lookup_key : Option String) (action : BoundAction F W) (call : ToolCall F)
        (rest : List (ToolCall F)) (s t : State F W)
        → Charged s t
        → FlowSpends s (change_guard p lookup_key action call rest t)
    unfolding change_guard
    change_guard-Spends lookup_key action call rest s t h =
        let change_key = if action.spec.changes then call_key p call else none in
        Option-rule (FlowSpends s) (kept_for change_key t.done_changes) (λ prev old. ground arith)
          (λ new. invoke_action-Spends lookup_key change_key action call rest s t h)

    limit_guard-Spends :
        (lookup_key : Option String) (action : BoundAction F W) (call : ToolCall F)
        (rest : List (ToolCall F)) (s : State F W)
        → Memᴰ action actions
        → action.spec.name ≡ call.name
        → FlowSpends s (limit_guard p lookup_key action call rest s)
    unfolding limit_guard
    limit_guard-Spends lookup_key action call rest s m q =
        elim (Bool-cases (ltb max_same_action_calls (s.call_counts call.name + 1))) [
          | inl over ↦ rw over (ground (arith, uses_left-bump actions call.name s.call_counts))
          | inr fits ↦
              rw fits
                (elim (Bool-cases (
                  not action.spec.read_only
                  && ltb 0 action.spec.max_calls
                  && ltb action.spec.max_calls (s.call_counts call.name + 1))) [
                    | inl limited ↦
                        rw limited (ground (arith, uses_left-bump actions call.name s.call_counts))
                    | inr free ↦ rw free (
                        change_guard-Spends lookup_key action call rest s _ (record {
                          used =
                              uses_left-bump_mem actions action call.name s.call_counts m q
                                (ground arith);
                          stale_same = refl;
                          fails_same = refl;
                          flag_same = refl;
                        }))
                  ])
        ]

    look_up_guard-Spends :
        (action : BoundAction F W) (call : ToolCall F) (rest : List (ToolCall F)) (s : State F W)
        → Memᴰ action actions
        → action.spec.name ≡ call.name
        → FlowSpends s (look_up_guard p action call rest s)
    unfolding look_up_guard
    look_up_guard-Spends action call rest s m q =
        let lookup_key = if action.spec.read_only then call_key p call else none in
        Option-rule (FlowSpends s) (kept_for lookup_key s.looked_up) (λ prev old. ground arith)
          (λ new. limit_guard-Spends lookup_key action call rest s m q)

module _ {F W : Type 0} (c : Config F W) where
  run_call-Spends :
      (call : ToolCall F) (rest : List (ToolCall F)) (s : State F W)
      → FlowSpends c.actions s (run_call c call rest s)
  unfolding run_call
  run_call-Spends call rest s = elim (Bool-cases (call.name =ₛ "finish")) [
    | inl fin ↦ rw fin (finish_call-Spends c.actions (held c) call rest s)
    | inr other ↦ rw other (elim (Option-cases (find_action call.name c.actions)) [
      | inl unknown ↦ rw unknown (unknown_action-Spends c.actions c.printing call s)
      | inr (a, found) ↦
          let (m, q) = find_action-some call.name c.actions found in
          rw found (look_up_guard-Spends c.actions c.printing a call rest s m q)
    ])
  ]

  -- A whole answer's calls.
  pub run_calls-Spends :
      (calls : List (ToolCall F)) (s : State F W) → FlowSpends c.actions s (run_calls c calls s)
  unfolding run_calls
  run_calls-Spends [] s = ground arith
  run_calls-Spends (call ∷ rest) s =
      after (run_call c call rest s) (run_call-Spends call rest s) (run_calls-Spends rest)
    where
      after :
          (f : Flow F W)
          → FlowSpends c.actions s f
          → ((t : State F W) → FlowSpends c.actions t (run_calls c rest t))
          → FlowSpends c.actions s (elim f [
            | next s' ↦ run_calls c rest s'
            | break_out s' ↦ next s'
            | return_with r s' ↦ return_with r s'
            | wrap_with why s' ↦ wrap_with why s'
          ])
      after (next s') h later = FlowSpends-trans c.actions h (run_calls c rest s') (later s')
      after (break_out s') h later = h
      after (return_with r s') h later = tt
      after (wrap_with why s') h later = tt
