-- ===== src/Window/Answered.antt =====
-- domain/window.go: the calls and the answers of a window.
use open_kael.Prelude.{
  ℕ, String, Bool, true, false, not, ◌&&◌, List, [], ◌∷◌, ◌++◌, ◌≡◌, refl, arith, if◌then◌else◌,
  ltb, if_rule,
}
use open_kael.Messages.{Role, user, assistant, system, tool, Message}
use open_kael.Loop.History.{ids}
use open_kael.Loop.OpenCalls.{is_assistant, is_tool, makes_calls, answers}
use open_kael.Window.{
  is_user, is_system, is_said, is_words, count_of, split_at_last, without_notes, last_words,
  recent_window,
}
use open_kael.Window.Shape.{StartsSaid, recent_window-StartsSaid}

module _ {F : Type 0} where
  -- Whether messages go on from some open calls so that each call is answered at once, in order, and
  -- nothing else is answered.
  unfoldable pub all_answered : List String → List (Message F) → Bool
  all_answered [] [] = true
  all_answered (id ∷ waits) [] = false
  all_answered [] (m ∷ msgs) =
      let after_calls = all_answered (ids m.tool_calls) msgs in
      let after_words = all_answered [] msgs in
      not (is_tool m.role) && (if makes_calls m then after_calls else after_words)
  all_answered (id ∷ waits) (m ∷ msgs) = let rest = all_answered waits msgs in answers id m && rest

user-not_tool : (r : Role) → is_user r ≡ true → is_tool r ≡ false
user-not_tool user h = refl
user-not_tool system h = cc
user-not_tool assistant h = cc
user-not_tool tool h = cc

system-not_tool : (r : Role) → is_system r ≡ true → is_tool r ≡ false
system-not_tool system h = refl
system-not_tool user h = cc
system-not_tool assistant h = cc
system-not_tool tool h = cc

system-not_assistant : (r : Role) → is_system r ≡ true → is_assistant r ≡ false
system-not_assistant system h = refl
system-not_assistant user h = cc
system-not_assistant assistant h = cc
system-not_assistant tool h = cc

said-not_tool : (r : Role) → is_said r ≡ true → is_tool r ≡ false
said-not_tool user h = refl
said-not_tool assistant h = refl
said-not_tool system h = cc
said-not_tool tool h = cc

module _ {F : Type 0} where
  split_at_last-all_answered :
      (whole : ℕ) (waits : List String) (msgs : List (Message F))
      → all_answered waits msgs ≡ true
      → all_answered [] (split_at_last whole msgs).1 ≡ true
  unfolding all_answered split_at_last
  split_at_last-all_answered whole waits [] h = refl
  split_at_last-all_answered whole [] (m ∷ msgs) h = ground (
    arith,
    split_at_last-all_answered whole [] msgs,
    split_at_last-all_answered whole (ids m.tool_calls) msgs,
  )
  split_at_last-all_answered whole (id ∷ waits) (m ∷ msgs) h =
      ground (arith, user-not_tool m.role, split_at_last-all_answered whole waits msgs)

  without_notes-all_answered :
      (waits : List String) (msgs : List (Message F))
      → all_answered waits msgs ≡ true
      → all_answered waits (without_notes msgs) ≡ true
  unfolding all_answered without_notes
  without_notes-all_answered waits [] h = h
  without_notes-all_answered [] (m ∷ msgs) h = ground (
    arith,
    system-not_assistant m.role,
    without_notes-all_answered [] msgs,
    without_notes-all_answered (ids m.tool_calls) msgs,
  )
  without_notes-all_answered (id ∷ waits) (m ∷ msgs) h =
      ground (arith, system-not_tool m.role, without_notes-all_answered waits msgs)

  last_words-all_answered :
      (n : ℕ) (msgs more : List (Message F))
      → all_answered [] more ≡ true
      → all_answered [] (last_words n msgs ++ more) ≡ true
  unfolding all_answered last_words
  last_words-all_answered n [] more h = h
  last_words-all_answered n (m ∷ msgs) more h =
      if_rule (λ (ms : List (Message F)). all_answered [] (ms ++ more) ≡ true)
        (is_words m && ltb (count_of is_words msgs) n)
        (λ taken. ground (arith, said-not_tool m.role, last_words-all_answered n msgs more h))
        (λ left. last_words-all_answered n msgs more h)

  -- Where each call in what was read of a conversation is answered at once, in order, the same holds of
  -- its window: no answer stands in it without its call before it, and no call is left open. What was
  -- read may start on the answers to earlier calls; a window never does, nor on a note of the platform.
  pub recent_window-all_answered :
      (waits : List String) (msgs : List (Message F)) (whole said : ℕ)
      → all_answered waits msgs ≡ true
      → StartsSaid (recent_window msgs whole said)
        × (all_answered [] (recent_window msgs whole said) ≡ true)
  unfolding recent_window
  recent_window-all_answered waits msgs whole said h = (
    recent_window-StartsSaid msgs whole said,
    last_words-all_answered _ (split_at_last whole msgs).0 _
        (without_notes-all_answered [] _ (split_at_last-all_answered whole waits msgs h)),
  )
