-- ===== src/Loop/History/Heard.antt =====
-- domain/loop.go: `answerOpenCalls` leaves no call without an answer.
use open_kael.Prelude.{
  Bool, true, false, ◌||◌, List, [], ◌∷◌, ◌++◌, ◌≡◌, refl, arith, any, all, if_rule,
}
use open_kael.Messages.{ToolCall, Message, answer}
use open_kael.Loop.OpenCalls.{makes_calls, answers, last_calls, missing_answers, answer_open_calls}
use mathlib.Core.List.{append_assoc}
use text.Mathlib.TextPositions.{eq_refl}

module _ {F : Type 0} where
  -- Whether each of some calls has an answer with its id among messages.
  abbrev heard : List (ToolCall F) → List (Message F) → Bool
  heard calls later = all (λ c. any (answers c.id) later) calls

  -- Whether each call of the last message that makes any has an answer with its id behind it.
  unfoldable pub all_heard : List (Message F) → Bool
  all_heard msgs = heard (last_calls msgs).0 (last_calls msgs).1

  any-append :
      (p : Message F → Bool) (xs ys : List (Message F)) → any p (xs ++ ys) ≡ (any p xs || any p ys)
  any-append p [] ys = refl
  any-append p (x ∷ xs) ys = ground (arith, any-append p xs ys)

  last_calls-none : (msgs : List (Message F)) → any makes_calls msgs ≡ false → all_heard msgs ≡ true
  unfolding last_calls all_heard
  last_calls-none [] h = refl
  last_calls-none (m ∷ msgs) h = ground (arith, last_calls-none msgs)

  -- More messages that make no calls.
  heard-append :
      (msgs more : List (Message F))
      → any makes_calls more ≡ false
      → heard (last_calls msgs).0 ((last_calls msgs).1 ++ more) ≡ true
      → all_heard (msgs ++ more) ≡ true
  unfolding last_calls all_heard
  heard-append [] more h k = last_calls-none more h
  heard-append (m ∷ msgs) more h k =
      ground (arith, heard-append msgs more h, any-append makes_calls msgs more)

  heard-more :
      (calls : List (ToolCall F)) (later : List (Message F)) (m : Message F)
      (more : List (Message F))
      → heard calls (later ++ more) ≡ true
      → heard calls (later ++ m ∷ more) ≡ true
  heard-more [] later m more h = refl
  heard-more (c ∷ calls) later m more h = ground (
    arith,
    heard-more calls later m more,
    any-append (answers c.id) later more,
    any-append (answers c.id) later (m ∷ more),
  )

  missing_answers-heard :
      (calls : List (ToolCall F)) (later more : List (Message F))
      → heard calls (later ++ (missing_answers calls later ++ more)) ≡ true
  unfolding missing_answers
  missing_answers-heard [] later more = refl
  missing_answers-heard (c ∷ calls) later more =
      let rest = missing_answers calls later in
      let told = answer c "not run: the reply is wrapping up" in
      let tail = missing_answers-heard calls later more in
      if_rule (λ (xs : List (Message F)). heard (c ∷ calls) (later ++ (xs ++ more)) ≡ true)
        (any (answers c.id) later)
        (λ given. ground (arith, tail, any-append (answers c.id) later (rest ++ more)))
        (λ open_. ground (
          arith,
          eq_refl c.id,
          heard-more calls later told (rest ++ more) tail,
          any-append (answers c.id) later (told ∷ (rest ++ more)),
        ))

  missing_answers-quiet :
      (calls : List (ToolCall F)) (later : List (Message F))
      → any makes_calls (missing_answers calls later) ≡ false
  unfolding missing_answers
  missing_answers-quiet [] later = refl
  missing_answers-quiet (c ∷ calls) later = ground (arith, missing_answers-quiet calls later)

  pub answer_open_calls-all_heard :
      (msgs more : List (Message F))
      → any makes_calls more ≡ false
      → all_heard (answer_open_calls msgs ++ more) ≡ true
  unfolding answer_open_calls
  answer_open_calls-all_heard msgs more h =
      let (calls, later) = last_calls msgs in
      let missing = missing_answers calls later in
      rw (append_assoc msgs missing more) (
        heard-append msgs (missing ++ more)
          (rw (any-append makes_calls missing more, missing_answers-quiet calls later) h)
          (missing_answers-heard calls later more))
