-- ===== src/Outcome/Truth.antt =====
-- What the program itself says of a turn: the receipts, and the facts that it states when an agent
-- keeps claiming what did not happen.
use mathlib.Core.List.{Memᴰ}
use text.Mathlib.TextLemmas.{append-nil, cons-append, head-eq_of_cons-eq}
use Prim.Native.Char.{Char, code}
use open_kael.Prelude.{
  String, Bool, true, false, ◌||◌, List, [], ◌∷◌, ◌≡◌, refl, sym, ap, ◌≢◌, ◌∙◌, ◌↔◌, ◌⊎◌, inl, inr,
  arith, any, Bool-cases, if◌then◌else◌,
}
use open_kael.Prelude.Text.{◌<>◌, trim_space}
use open_kael.Outcome.{
  ActionRecord, Requirements, is_nil, is_change, is_fresh, changed_anything, receipts,
  receipts_from, nothing_changed_message, change_failed, change_failed_from,
}

abbrev receipt : ActionRecord → String
receipt rec = "✓ " <> trim_space rec.message

-- A record that a line of the receipts stands for.
abbrev pub Backs : String → List ActionRecord → Type 0
Backs line records =
    (rec : ActionRecord) × Memᴰ rec records × (is_change rec ≡ true) × (line ≡ receipt rec)

Backs-tail :
    {line : String} {rec : ActionRecord} {records : List ActionRecord}
    → Backs line records
    → Backs line (rec ∷ records)
Backs-tail (r, k, e, q) = (r, Memᴰ.tail k, e, q)

receipts_from-Backs :
    (seen : List String) (records : List ActionRecord) (line : String)
    → Memᴰ line (receipts_from seen records)
    → Backs line records
unfolding receipts_from
receipts_from-Backs seen [] line m = elim m [ ]
receipts_from-Backs seen (rec ∷ records) line m =
    go (is_fresh rec seen) refl (receipts_from-Backs (rec.message ∷ seen) records line)
      (receipts_from-Backs seen records line) m
  where
    go :
        (fresh : Bool)
        → is_fresh rec seen ≡ fresh
        → (Memᴰ line (receipts_from (rec.message ∷ seen) records) → Backs line records)
        → (Memᴰ line (receipts_from seen records) → Backs line records)
        → Memᴰ line (elim fresh [
          | true ↦ receipt rec ∷ receipts_from (rec.message ∷ seen) records
          | false ↦ receipts_from seen records
        ])
        → Backs line (rec ∷ records)
    go true e kept skipped (Memᴰ.head q) = (rec, Memᴰ.head refl, ground arith, q)
    go true e kept skipped (Memᴰ.tail k) = Backs-tail (kept k)
    go false e kept skipped k = Backs-tail (skipped k)

-- Every receipt is the message of a change that really went through this turn.
pub receipts-Backs :
    (records : List ActionRecord) {line : String}
    → Memᴰ line (receipts records)
    → Backs line records
unfolding receipts
receipts-Backs records {line} m = receipts_from-Backs [] records line m

-- Two texts that begin with different letters differ.
append-ne_of_head :
    (c d : Char) (s t u v : String)
    → (code c ≡ code d → ⊥)
    → ((String.◌∷◌ c s) <> u) ≢ ((String.◌∷◌ d t) <> v)
append-ne_of_head c d s t u v differ e =
    differ (ap code (head-eq_of_cons-eq (sym (cons-append c s u) ∙ e ∙ cons-append d t v)))

went_through_ne :
    (silent : Bool) (lines why : String)
    → (if silent
        then "Part of that went through, but I couldn't confirm all of it. Please check."
        else "This went through, but I couldn't confirm it was everything you asked for:\n"
          <> lines)
      ≢ ("Nothing was changed: " <> why)
went_through_ne true lines why e =
    append-ne_of_head "P" "N"
      "art of that went through, but I couldn't confirm all of it. Please check." _ "" why
      (λ q. omega arith) (append-nil _ ∙ e)
went_through_ne false lines why e = append-ne_of_head "T" "N" _ _ lines why (λ q. omega arith) e

-- The facts say "Nothing was changed" exactly when no change went through.
nothing_changed_message_iff :
    (r : Requirements) (records : List ActionRecord)
    → ((why : String) × (nothing_changed_message r records ≡ "Nothing was changed: " <> why))
      ↔ (changed_anything records ≡ false)
unfolding nothing_changed_message
nothing_changed_message_iff r records = elim (Bool-cases (changed_anything records)) [
  | inl went_through ↦
      rw went_through
        (λ (why, e). absurd (went_through_ne (is_nil (receipts records)) _ why e), λ h. cc)
  | inr nothing ↦ rw nothing (λ _. refl, λ _. (_, refl))
]

change_failed_from_iff :
    (tried : Bool) (records : List ActionRecord)
    → (change_failed_from tried records ≡ true) ↔ (
        ((tried ≡ true) ⊎ (any (λ rec. rec.changes) records ≡ true))
        × (any is_change records ≡ false))
unfolding change_failed_from
change_failed_from_iff tried [] = (λ h. (inl h, refl), λ (h, e). ground arith)
change_failed_from_iff tried (rec ∷ records) =
    let (there, back) = change_failed_from_iff (rec.changes || tried) records in
    (λ h. ground (arith, there), λ h. ground (arith, back))

-- A turn failed to change anything exactly when it tried a change and none went through.
change_failed_iff :
    (records : List ActionRecord)
    → (change_failed records ≡ true)
      ↔ ((any (λ rec. rec.changes) records ≡ true) × (changed_anything records ≡ false))
unfolding change_failed changed_anything
change_failed_iff records =
    let (there, back) = change_failed_from_iff false records in
    (λ h. ground (arith, there h), λ h. ground (arith, back))
