-- ===== src/Events/Kept.antt =====
-- domain/event_contract.go: the events that are kept.
use open_kael.Outcome.{is_nil}
use open_kael.Events.Contract.{valid_from, valid_events, validate_event}
use open_kael.Events.{Reading, IntegrationEvent}
use open_kael.Gates.{Texts, Floats}
use open_kael.Prelude.{
  not, if_rule, Bool, ◌&&◌, ◌≡◌, ◌∷◌, true, refl, has, false, arith, [], String, List, All,
}

module _ {F : Type 0} (t : Texts F) (n : Floats F) (r : Reading F) where
  -- The names seen are not used again.
  unfoldable pub names_distinct : List String → List (IntegrationEvent F) → Bool
  names_distinct seen [] = true
  names_distinct seen (e ∷ events) = not (has e.name seen) && names_distinct (e.name ∷ seen) events

  -- Events that are kept: each keeps the contract, and no two have one name.
  pub record AreKept (service : String) (seen : List String) (kept : List (IntegrationEvent F))
      : Type 0 where
    pub valid : All (λ e. validate_event t n r service e ≡ []) kept
    pub distinct : names_distinct seen kept ≡ true

  is_nil-nil : {A : Type 0} (xs : List A) → not (is_nil xs) ≡ false → xs ≡ []
  is_nil-nil [] h = refl
  is_nil-nil (x ∷ xs) h = cc

  valid_from-AreKept :
      (service : String) (seen : List String) (events : List (IntegrationEvent F))
      → AreKept service seen (valid_from t n r service seen events).1
  unfolding valid_from names_distinct
  valid_from-AreKept service seen [] = record { valid = tt; distinct = refl }
  valid_from-AreKept service seen (e ∷ events) =
      if_rule (λ (found : List String × List (IntegrationEvent F)). AreKept service seen found.1)
        (not (is_nil (validate_event t n r service e)))
        (λ broken. valid_from-AreKept service seen events)
        (λ whole.
          if_rule
            (λ (found : List String × List (IntegrationEvent F)). AreKept service seen found.1)
            (has e.name seen) (λ again. valid_from-AreKept service seen events)
            (λ new.
              let rest = valid_from-AreKept service (e.name ∷ seen) events in
              record {
                valid = (is_nil-nil (validate_event t n r service e) whole, rest.valid);
                distinct = ground (arith, rest.distinct);
              }))

  -- The events that are kept of those that were declared keep the contract, and no two of them have the
  -- same name.
  pub valid_events-AreKept :
      (service : String) (events : List (IntegrationEvent F))
      → AreKept service [] (valid_events t n r service events).1
  valid_events-AreKept service events = valid_from-AreKept service [] events
