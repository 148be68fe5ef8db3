-- ===== src/Window/Shape.antt =====
-- domain/window.go: what holds of every window.
use open_kael.Prelude.{
  ℕ, ◌+◌, ◌-◌, ◌≤◌, Bool, true, false, not, ◌&&◌, List, [], ◌∷◌, ◌++◌, ◌≡◌, refl, arith,
  if◌then◌else◌, ltb, if_rule, all,
}
use open_kael.Messages.{Role, system, user, assistant, tool, Message}
use open_kael.Window.{
  is_user, is_system, is_said, is_words, from_user, count_of, split_at_last, without_notes,
  last_words, recent_window,
}

-- A list that starts, if it does, with something that was said.
pub data StartsSaid {F : Type 0} : List (Message F) → Type 0 where
  nothing : StartsSaid []
  said_first :
      {m : Message F} {msgs : List (Message F)} → is_said m.role ≡ true → StartsSaid (m ∷ msgs)

user-said : (r : Role) → is_user r ≡ true → (is_system r ≡ false) × (is_said r ≡ true)
user-said user h = (refl, refl)
user-said system h = cc
user-said assistant h = cc
user-said tool h = cc

said-not_system : (r : Role) → is_said r ≡ true → is_system r ≡ false
said-not_system user h = refl
said-not_system system h = cc
said-not_system assistant h = refl
said-not_system tool h = cc

module _ {F : Type 0} where
  count_of-last_words_le_all :
      (n : ℕ) (msgs : List (Message F))
      → count_of is_words (last_words n msgs) ≤ count_of is_words msgs
  unfolding count_of last_words
  count_of-last_words_le_all n [] = omega arith
  count_of-last_words_le_all n (m ∷ msgs) = ground (arith, count_of-last_words_le_all n msgs)

  count_of-last_words :
      (n : ℕ) (msgs : List (Message F)) → count_of is_words (last_words n msgs) ≤ n
  unfolding count_of last_words
  count_of-last_words n [] = omega arith
  count_of-last_words n (m ∷ msgs) =
      ground (arith, count_of-last_words_le_all n msgs, count_of-last_words n msgs)

  StartsSaid-append :
      (msgs more : List (Message F)) → StartsSaid msgs → StartsSaid more → StartsSaid (msgs ++ more)
  StartsSaid-append [] more h k = k
  StartsSaid-append (m ∷ msgs) more (said_first e) k = said_first e

  last_words-StartsSaid : (n : ℕ) (msgs : List (Message F)) → StartsSaid (last_words n msgs)
  unfolding last_words
  last_words-StartsSaid n [] = nothing
  last_words-StartsSaid n (m ∷ msgs) =
      if_rule StartsSaid (is_words m && ltb (count_of is_words msgs) n)
        (λ taken. said_first (ground arith)) (λ left. last_words-StartsSaid n msgs)

  split_at_last-StartsSaid :
      (whole : ℕ) (msgs : List (Message F))
      → StartsSaid (without_notes (split_at_last whole msgs).1)
  unfolding split_at_last without_notes
  split_at_last-StartsSaid whole [] = nothing
  split_at_last-StartsSaid whole (m ∷ msgs) =
      if_rule (λ (p : List (Message F) × List (Message F)). StartsSaid (without_notes p.1))
        (from_user m && ltb (count_of from_user msgs) whole) {x = ([], m ∷ msgs)}
        {y = (m ∷ (split_at_last whole msgs).0, (split_at_last whole msgs).1)}
        (λ taken.
          let (plain, said) = user-said m.role (ground arith) in
          rw (plain, without_notes) (said_first said))
        (λ left. split_at_last-StartsSaid whole msgs)

  count_of-append :
      (p : Message F → Bool) (msgs more : List (Message F))
      → count_of p (msgs ++ more) ≡ count_of p msgs + count_of p more
  unfolding count_of
  count_of-append p [] more = omega arith
  count_of-append p (m ∷ msgs) more = ground (arith, count_of-append p msgs more)

  all-append :
      (p : Message F → Bool) (msgs more : List (Message F))
      → all p (msgs ++ more) ≡ (all p msgs && all p more)
  all-append p [] more = refl
  all-append p (m ∷ msgs) more = ground (arith, all-append p msgs more)

  last_words-no_notes :
      (n : ℕ) (msgs : List (Message F))
      → all (λ m. not (is_system m.role)) (last_words n msgs) ≡ true
  unfolding last_words
  last_words-no_notes n [] = refl
  last_words-no_notes n (m ∷ msgs) =
      ground (arith, said-not_system m.role, last_words-no_notes n msgs)

  none_of_notes :
      (msgs : List (Message F)) → all (λ m. not (is_system m.role)) (without_notes msgs) ≡ true
  unfolding without_notes
  none_of_notes [] = refl
  none_of_notes (m ∷ msgs) = ground (arith, none_of_notes msgs)

  -- The first message of a window is something that was said.
  pub recent_window-StartsSaid :
      (msgs : List (Message F)) (whole said : ℕ) → StartsSaid (recent_window msgs whole said)
  unfolding recent_window
  recent_window-StartsSaid msgs whole said =
      StartsSaid-append _ _ (last_words-StartsSaid _ (split_at_last whole msgs).0)
        (split_at_last-StartsSaid whole msgs)

  -- Where the whole exchanges hold no more words than asked for, neither does the window.
  recent_window-count_le :
      (msgs : List (Message F)) (whole said : ℕ)
      → count_of is_words (without_notes (split_at_last whole msgs).1) ≤ said
      → count_of is_words (recent_window msgs whole said) ≤ said
  unfolding recent_window
  recent_window-count_le msgs whole said h =
      let latest = without_notes (split_at_last whole msgs).1 in
      let asked = said - count_of is_words latest in
      let before = (split_at_last whole msgs).0 in
      ground (
        arith,
        count_of-append is_words (last_words asked before) latest,
        count_of-last_words asked before,
      )

  -- No note of the platform is ever given again.
  pub recent_window-no_notes :
      (msgs : List (Message F)) (whole said : ℕ)
      → all (λ m. not (is_system m.role)) (recent_window msgs whole said) ≡ true
  unfolding recent_window
  recent_window-no_notes msgs whole said =
      let latest = without_notes (split_at_last whole msgs).1 in
      let earlier = last_words (said - count_of is_words latest) (split_at_last whole msgs).0 in
      ground (
        arith,
        all-append (λ m. not (is_system m.role)) earlier latest,
        none_of_notes (split_at_last whole msgs).1,
        last_words-no_notes (said - count_of is_words latest) (split_at_last whole msgs).0,
      )

  -- The whole exchanges are the end of the conversation, and hold the person's last messages, as
  -- many as are wanted or there are.
  split_at_last-counts :
      (whole : ℕ) (msgs : List (Message F))
      → ((split_at_last whole msgs).0 ++ (split_at_last whole msgs).1 ≡ msgs)
        × (count_of from_user (split_at_last whole msgs).1
            ≡ (if ltb (count_of from_user msgs) whole then count_of from_user msgs else whole))
  unfolding split_at_last count_of
  split_at_last-counts whole [] = (refl, ground arith)
  split_at_last-counts whole (m ∷ msgs) =
      let (same, count) = split_at_last-counts whole msgs in
      (ground (arith, same), ground (arith, count))
