-- ===== src/Outcome/Examples.antt =====
-- The theorems about outcomes at concrete turns.
use mathlib.Core.List.{Memᴰ}
use open_kael.Prelude.{true, false, [], ◌∷◌, ◌≡◌, refl}
use open_kael.Values.{Fields, end, field, str}
use open_kael.Outcome.{
  ActionRecord, Requirements, changed_anything, last_attempt, receipts, nothing_changed_message,
}
use open_kael.Outcome.Truth.{Backs, receipts-Backs}

abbrev placed : ActionRecord
placed = record {
  name = "place_trade";
  changes = true;
  done = true;
  message = "Placed.";
  reason = "";
}

abbrev looked : ActionRecord
looked = record { name = "list_trades"; changes = false; done = true; message = ""; reason = "" }

abbrev failed_trade : ActionRecord
failed_trade = record {
  name = "place_trade";
  changes = true;
  done = false;
  message = "";
  reason = "it wasn't approved";
}

abbrev trade : Requirements
trade = record { tools = "close_trade" ∷ "place_trade" ∷ []; any_change = false }

abbrev says_done : Fields (Unit {0})
says_done = field "content" (str "All set.") (field "outcome" (str "done") end)

receipts_shown : receipts (looked ∷ placed ∷ placed ∷ []) ≡ "✓ Placed." ∷ []
unfolding receipts
receipts_shown = refl

receipts-Backs_example : Backs "✓ Placed." (looked ∷ placed ∷ placed ∷ [])
unfolding receipts
receipts-Backs_example =
    receipts-Backs (looked ∷ placed ∷ placed ∷ []) {line = "✓ Placed."} (Memᴰ.head refl)

nothing_changed_said :
    nothing_changed_message trade (looked ∷ failed_trade ∷ [])
    ≡ "Nothing was changed: it wasn't approved."
unfolding nothing_changed_message changed_anything last_attempt
nothing_changed_said = refl
