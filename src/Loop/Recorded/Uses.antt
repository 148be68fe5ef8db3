-- ===== src/Loop/Recorded/Uses.antt =====
-- How often a run uses an action, and that it makes no change twice.
use open_kael.Loop.Beside.{call_from-beside}
use mathlib.Core.List.{Memᴰ}
use mathlib.Core.Path.{subst}
use open_kael.Prelude.{
  ℕ, ◌+◌, ◌≤◌, ◌<◌, String, Bool, true, false, Option, none, some, List, [], ◌∷◌, ◌≡◌, refl, sym,
  ap, some_injective, ◌∙◌, inl, inr, arith, if◌then◌else◌, lookup, is_some, map, Bool-cases,
  if_rule,
}
use open_kael.Prelude.Text.{◌=ₛ◌, ◌<>◌, eq_iff}
use open_kael.Values.{Value}
use open_kael.Messages.{Message, ToolCall}
use open_kael.Outcome.{GoError, outcome_of}
use open_kael.Loop.{ActionSpec, BoundAction, Config, Printing, State, find_action, stringify_result}
use open_kael.Loop.Providers.{call_llm}
use open_kael.Loop.Flow.{truncate_runes}
use open_kael.Loop.Calls.{call_key, kept_for, keep}
use open_kael.Loop.Budget.{bump, find_action-some}
use open_kael.Loop.Run.{ask, run, start, Ending}
use open_kael.Loop.Safety.{Rule, Admitted, remember, remember_key}
use open_kael.Loop.Safety.Runs.{ending_state, run-Holds}
use open_kael.Loop.Recorded.{
  Entry, recorded, recorded_action, uses, made, is_made, change_of, NoRepeat,
}

mem_map_recorded :
    {F W : Type 0} (p : Printing F) (actions : List (BoundAction F W))
    {a : BoundAction F (W × List Entry)}
    → Memᴰ a (map (recorded_action p) actions)
    → (b : BoundAction F W) × (a ≡ recorded_action p b)
mem_map_recorded p [] m = elim m [ ]
mem_map_recorded p (b ∷ actions) (Memᴰ.head e) = (b, e)
mem_map_recorded p (b ∷ actions) (Memᴰ.tail m) = mem_map_recorded p actions m

is_made_of_unkept :
    (o : Option String) (d : List (String × String)) (log : List Entry)
    → ((key : String) → made key log ≡ true → is_some (lookup key d) ≡ true)
    → kept_for o d ≡ none
    → is_made o log ≡ false
is_made_of_unkept none d log h e = refl
is_made_of_unkept (some key) d log h e = elim (Bool-cases (made key log)) [
  | inl m ↦ absurd (ground (arith, h key m))
  | inr n ↦ n
]

-- What went through is among the changes remembered.
keep-made :
    (name : String) (o : Option String) (done : Bool) (text : String) (d : List (String × String))
    (log : List Entry) (key : String)
    → (made key log ≡ true → is_some (lookup key d) ≡ true)
    → made key (record { name = name; change = o; went_through = done } ∷ log) ≡ true
    → is_some (lookup key (keep o done text d)) ≡ true
unfolding lookup
keep-made name none done text d log key h m = ground arith
keep-made name (some k) done text d log key h m = ground arith

remember-made :
    {F : Type 0} (name : String) (o : Option String) (v : Value F) (err : Option GoError)
    (text : String) (d : List (String × String)) (log : List Entry) (key : String)
    → (made key log ≡ true → is_some (lookup key d) ≡ true)
    → made key (record { name = name; change = o; went_through = (outcome_of v err).done } ∷ log)
      ≡ true
    → is_some (lookup key (remember_key o v err text d)) ≡ true
unfolding outcome_of
remember-made name o v none text d log key h m = keep-made name o _ text d log key h m
remember-made name o v (some err) text d log key h m = h m

module _ {F W : Type 0} (c : Config F W) where
  -- What holds of the log between two calls.
  pub record Logged (k : String → ℕ) (d : List (String × String)) (log : List Entry) : Type 0 where
    pub counted : (name : String) → uses name log ≤ k name
    pub capped : (name : String) → uses name log ≤ 15
    pub limited :
        (name : String) (a : BoundAction F (W × List Entry))
        → find_action name (recorded c).actions ≡ some a
        → a.spec.read_only ≡ false
        → 0 < a.spec.max_calls
        → uses name log ≤ a.spec.max_calls
    pub remembered : (key : String) → made key log ≡ true → is_some (lookup key d) ≡ true
    pub no_repeat : NoRepeat log

  count_kept-Logged :
      (name : String) (k : String → ℕ) (d : List (String × String)) (log : List Entry)
      → Logged k d log
      → Logged (bump name k) d log
  count_kept-Logged name k d log h = record {
    counted = λ n. ground (arith, h.counted n, eq_iff n name);
    capped = h.capped;
    limited = h.limited;
    remembered = h.remembered;
    no_repeat = h.no_repeat;
  }

  module _ (b : BoundAction F W) (call : ToolCall F) (k : String → ℕ) (d : List (String × String))
      (w : W × List Entry) where
    abbrev action : BoundAction F (W × List Entry)
    action = recorded_action c.printing b

    module _ (ok : Admitted (recorded c) action call k d) (h : Logged k d w.1) where
      named : b.spec.name ≡ call.name
      named = (find_action-some call.name (recorded c).actions ok.is_found).1

      abbrev after : W × List Entry
      after = (action.invoke w call.arguments).2

      counted_after : (name : String) → uses name after.1 ≤ bump call.name k name
      counted_after name =
          ground (arith, named, h.counted name, eq_iff b.spec.name name, eq_iff name call.name)

      capped_after : (name : String) → uses name after.1 ≤ 15
      capped_after name =
          ground
            (arith, named, ok.under_cap, h.counted name, h.capped name, eq_iff b.spec.name name)

      limited_after :
          (name : String) (a : BoundAction F (W × List Entry))
          → find_action name (recorded c).actions ≡ some a
          → a.spec.read_only ≡ false
          → 0 < a.spec.max_calls
          → uses name after.1 ≤ a.spec.max_calls
      limited_after name a found changes limit =
          if_rule (λ (n : ℕ). n ≤ a.spec.max_calls) (b.spec.name =ₛ name)
            (λ here. at_limit ((eq_iff _ _).0 here))
            (λ elsewhere. h.limited name a found changes limit)
        where
          at_limit : b.spec.name ≡ name → uses name w.1 + 1 ≤ a.spec.max_calls
          at_limit here =
              let q : call.name ≡ name = sym named ∙ here in
              let same : action ≡ a =
                some_injective
                  (sym ok.is_found ∙ ap (λ n. find_action n (recorded c).actions) q ∙ found) in
              let reads = ap (λ (x : BoundAction F (W × List Entry)). x.spec.read_only) same in
              let most = ap (λ (x : BoundAction F (W × List Entry)). x.spec.max_calls) same in
              ground (arith, ok.under_limit, h.counted name, q, reads, most)

      abbrev output : Value F × Option GoError
      output = let (v, err, w') = action.invoke w call.arguments in (v, err)

      abbrev entry : Entry
      entry = record {
        name = b.spec.name;
        change = change_of c.printing b call.arguments;
        went_through = (outcome_of output.0 output.1).done;
      }

      -- The loop's key for the call is what the log says of the change.
      same_change :
          (if b.spec.changes then call_key c.printing call else none)
          ≡ change_of c.printing b call.arguments
      unfolding call_key
      same_change =
          ap
            (λ (name : String).
              if b.spec.changes
              then elim (c.printing.marshal call.arguments) [
                | none ↦ none
                | some text ↦ some (name <> ("|" <> text))
              ]
              else none)
            (sym named)

      unkept : kept_for entry.change d ≡ none
      unkept = rw (← same_change) (elim ok.is_new [
        | inl e ↦ rw e refl
        | inr q ↦
            if_rule (λ (o : Option String). kept_for o d ≡ none) b.spec.changes (λ _. q) (λ _. refl)
      ])

      new_change : is_made entry.change w.1 ≡ false
      new_change = is_made_of_unkept entry.change d w.1 h.remembered unkept

      remembered_after :
          (key : String)
          → made key (entry ∷ w.1) ≡ true
          → is_some (lookup key (remember (recorded c) action call output.0 output.1 d)) ≡ true
      remembered_after key m =
          let text = truncate_runes (stringify_result c.printing output.0) 300 in
          subst (λ o. is_some (lookup key (remember_key o output.0 output.1 text d)) ≡ true)
            (sym same_change)
            (remember-made b.spec.name entry.change output.0 output.1 text d w.1 key
              (h.remembered key) m)

  -- Every use of an action keeps what holds of the log.
  action_kept-Logged :
      (a : BoundAction F (W × List Entry)) (call : ToolCall F) (k : String → ℕ)
      (d : List (String × String)) (w : W × List Entry)
      → Admitted (recorded c) a call k d
      → Logged k d w.1
      → let (v, err, w') = a.invoke w call.arguments in
        Logged (bump call.name k) (remember (recorded c) a call v err d) w'.1
  action_kept-Logged a call k d w ok h =
      let (m, _) = find_action-some call.name (recorded c).actions ok.is_found in
      let (b, e) = mem_map_recorded c.printing c.actions m in
      subst
        (λ x.
          Admitted (recorded c) x call k d
          → let (v, err, w') = x.invoke w call.arguments in
            Logged (bump call.name k) (remember (recorded c) x call v err d) w'.1)
        (sym e)
        (λ ok'. record {
          counted = counted_after b call k d w ok' h;
          capped = capped_after b call k d w ok' h;
          limited = limited_after b call k d w ok' h;
          remembered = remembered_after b call k d w ok' h;
          no_repeat = (new_change b call k d w ok' h, h.no_repeat);
        })
        ok

  ask-log :
      (msgs : List (Message F)) (specs : List ActionSpec) (s : State F (W × List Entry))
      → (ask (recorded c) msgs specs s).1.world.1 ≡ s.world.1
  unfolding ask call_llm
  ask-log msgs specs s = call_from-beside c.clock msgs specs 0 none c.llms s.down_until s.world

  Logged-rule : Rule (recorded c) (λ k d w. Logged k d w.1)
  Logged-rule = record {
    count_kept = λ name k d w. count_kept-Logged name k d w.1;
    ask_kept = λ msgs specs s h.
        subst (Logged s.call_counts s.done_changes) (sym (ask-log msgs specs s)) h;
    action_kept = action_kept-Logged;
  }

  -- The log of a run that starts with none, once the run has ended.
  module _ (fuel : ℕ) (messages : List (Message F)) (down_until : ℕ → ℕ) (world : W)
      (e : Ending F (W × List Entry))
      (ends : run (recorded c) fuel (start (recorded c) messages down_until (world, []))
        ≡ some e) where
    abbrev log : List Entry
    log = (ending_state e).world.1

    ending-Logged : Logged (ending_state e).call_counts (ending_state e).done_changes log
    ending-Logged =
        run-Holds (recorded c) (λ k d w. Logged k d w.1) Logged-rule fuel
          (start (recorded c) messages down_until (world, []))
          (record {
            counted = λ name. omega arith;
            capped = λ name. omega arith;
            limited = λ name a found changes limit. omega arith;
            remembered = λ key m. cc;
            no_repeat = tt;
          })
          ends

    -- A run uses no action more than 15 times.
    pub run-uses-le : (name : String) → uses name log ≤ 15
    run-uses-le name = ending-Logged.capped name

    -- A run uses no action that is not a mere look-up more often than its own limit, where it has one.
    pub run-uses-le_max_calls :
        (name : String) (a : BoundAction F (W × List Entry))
        → find_action name (recorded c).actions ≡ some a
        → a.spec.read_only ≡ false
        → 0 < a.spec.max_calls
        → uses name log ≤ a.spec.max_calls
    run-uses-le_max_calls name = ending-Logged.limited name

    -- A run never asks an action for a change that already went through in it, with the same name and
    -- arguments.
    pub run-NoRepeat : NoRepeat log
    run-NoRepeat = ending-Logged.no_repeat
