-- ===== src/Window.antt =====
-- domain/window.go: what an agent is given of a conversation before a new message.
use open_kael.Prelude.{
  ℕ, zero, suc, ◌+◌, ◌-◌, String, Bool, true, false, not, ◌&&◌, Option, none, some, List, [], ◌∷◌,
  ◌++◌, if◌then◌else◌, ltb,
}
use open_kael.Prelude.Text.{is_empty}
use open_kael.Messages.{Role, system, user, assistant, tool, Message, message}
pub mod Shape
pub mod Answered
mod Examples

abbrev pub is_user : Role → Bool
is_user user = true
is_user _ = false

abbrev pub is_system : Role → Bool
is_system system = true
is_system _ = false

abbrev pub is_said : Role → Bool
is_said user = true
is_said assistant = true
is_said _ = false

module _ {F : Type 0} where
  -- `isWords`.
  abbrev pub is_words : Message F → Bool
  is_words m = is_said m.role && not (is_empty m.content)

  abbrev pub from_user : Message F → Bool
  from_user m = is_user m.role

  -- How many messages pass a test.
  unfoldable pub count_of : (Message F → Bool) → List (Message F) → ℕ
  count_of p [] = 0
  count_of p (m ∷ msgs) = let rest = count_of p msgs in if p m then suc rest else rest

  -- The messages before and from the `whole`-th last one of the person's, which is the first of
  -- theirs if there are fewer, and the end where there are none or none are wanted.
  unfoldable pub split_at_last : ℕ → List (Message F) → List (Message F) × List (Message F)
  split_at_last whole [] = ([], [])
  split_at_last whole (m ∷ msgs) =
      let (before, from) = split_at_last whole msgs in
      if from_user m && ltb (count_of from_user msgs) whole
      then ([], m ∷ msgs)
      else (m ∷ before, from)

  -- The messages without the platform's notes.
  unfoldable pub without_notes : List (Message F) → List (Message F)
  without_notes [] = []
  without_notes (m ∷ msgs) =
      let rest = without_notes msgs in if is_system m.role then rest else m ∷ rest

  -- The words among the messages, the last `n` of them, with nothing but role and content.
  unfoldable pub last_words : ℕ → List (Message F) → List (Message F)
  last_words n [] = []
  last_words n (m ∷ msgs) =
      let rest = last_words n msgs in
      if is_words m && ltb (count_of is_words msgs) n then message m.role m.content ∷ rest else rest

  -- `RecentWindow`.
  unfoldable pub recent_window : List (Message F) → (whole said : ℕ) → List (Message F)
  recent_window msgs whole said =
      let (before, from) = split_at_last whole msgs in
      let latest = without_notes from in
      last_words (said - count_of is_words latest) before ++ latest
