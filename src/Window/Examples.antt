-- ===== src/Window/Examples.antt =====
-- The window of a concrete conversation.
use open_kael.Prelude.{ℕ, List, [], ◌∷◌, ◌≡◌, refl, true}
use open_kael.Messages.{system, user, assistant, tool, Message, message}
use open_kael.Window.{count_of, split_at_last, without_notes, recent_window, last_words}
use open_kael.Window.Shape.{StartsSaid}
use open_kael.Window.Answered.{all_answered, recent_window-all_answered}
use open_kael.Values.{end}

abbrev talk : List (Message ℕ)
talk =
    message user "Show me my emails"
    ∷ message tool "a list"
    ∷ message assistant "Here they are"
    ∷ message system "The person wants advice"
    ∷ message user "Bin the newsletter"
    ∷ []

-- One whole exchange, and words up to two messages.
window_of_talk :
    recent_window talk 1 2
    ≡ message assistant "Here they are" ∷ message user "Bin the newsletter" ∷ []
unfolding recent_window split_at_last without_notes last_words count_of
window_of_talk = refl

-- What was read starts on the answer to an earlier call.
abbrev read : List (Message ℕ)
read =
    record (message tool "a mail") { tool_call_id = "c1" }
    ∷ message assistant "Here it is"
    ∷ message user "Show me my emails"
    ∷ record (message assistant "") {
      tool_calls = record { id = "c2"; name = "list_emails"; arguments = end } ∷ [];
    }
    ∷ record (message tool "a list") { tool_call_id = "c2" }
    ∷ message assistant "There are two"
    ∷ []

recent_window-all_answered_example :
    StartsSaid (recent_window read 1 3) × (all_answered [] (recent_window read 1 3) ≡ true)
unfolding all_answered
recent_window-all_answered_example = recent_window-all_answered ("c1" ∷ []) read 1 3 refl
