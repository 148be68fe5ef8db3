-- ===== src/Requirements/Offered.antt =====
-- runtime/requirements.go: the end of the loop over the offered abilities.
use open_kael.Requirements.Growth.{
  missing-length_le, missing, bring-Offers, bring-Grown, Offers-Grown, Offers, Grown-then,
  Grown-same, Grown,
}
use open_kael.Loop.{BoundAction}
use open_kael.Prelude.{
  Bool, All-parts, ltb, Option-cases, ◌<◌, ◌∙◌, sym, some_injective, Option, ◌≤◌, ◌≡◌, ◌∷◌, ℕ, zero,
  true, suc, some, refl, none, length, inr, inl, if◌then◌else◌, false, arith, [], String, List,
  Bool-cases, ◌++◌, ◌+◌,
}
use open_kael.Requirements.{
  keep_needed, relies, keep_needed_from, brings, bring, action_at, offered_names,
}

ltb_less : (j i : ℕ) → ltb j i ≡ true → j < i
ltb_less j i h = ground arith

module _ {F W : Type 0} where
  -- What the abilities before an index rely on is offered.
  abbrev Closed :
      (all : List (BoundAction F W)) → Option (List String) → ℕ → List (BoundAction F W) → Type 0
  Closed all picked i r =
      (j : ℕ) (a : BoundAction F W)
      → j < i
      → action_at j r ≡ some a
      → Offers all (relies picked a) r

  action_at-less :
      (i : ℕ) (r : List (BoundAction F W)) {a : BoundAction F W}
      → action_at i r ≡ some a
      → i < length r
  unfolding action_at
  action_at-less i [] h = cc
  action_at-less zero (b ∷ r) h = omega arith
  action_at-less (suc i) (b ∷ r) h = omega (arith, action_at-less i r h)

  action_at-none :
      (i j : ℕ) (r : List (BoundAction F W)) {a : BoundAction F W}
      → action_at i r ≡ none
      → action_at j r ≡ some a
      → j < i
  unfolding action_at
  action_at-none i j [] h k = cc
  action_at-none zero j (b ∷ r) h k = cc
  action_at-none (suc i) zero (b ∷ r) h k = omega arith
  action_at-none (suc i) (suc j) (b ∷ r) h k = omega (arith, action_at-none i j r h k)

  action_at-some :
      (i : ℕ) (r : List (BoundAction F W))
      → i < length r
      → (a : BoundAction F W) × (action_at i r ≡ some a)
  unfolding action_at
  action_at-some i [] h = absurd (omega arith)
  action_at-some zero (b ∷ r) h = (b, refl)
  action_at-some (suc i) (b ∷ r) h = action_at-some i r (omega arith)

  -- What a run of the loop ends with.
  record EndsWith (all : List (BoundAction F W)) (picked : Option (List String))
      (offered : List (BoundAction F W)) (o : Option (List (BoundAction F W))) : Type 0 where
    pub result : List (BoundAction F W)
    pub ends : o ≡ some result
    pub grown : Grown all offered result
    pub closed :
        (j : ℕ) (a : BoundAction F W)
        → action_at j result ≡ some a
        → Offers all (relies picked a) result

  bring-Closed :
      (all : List (BoundAction F W)) (picked : Option (List String)) (i : ℕ)
      (offered : List (BoundAction F W)) (a : BoundAction F W)
      → action_at i offered ≡ some a
      → Closed all picked i offered
      → Closed all picked (i + 1) (bring all picked a offered)
  bring-Closed all picked i offered a here before j b less at =
      let g = bring-Grown all picked a offered in
      elim (Bool-cases (ltb j i)) [
        | inl earlier ↦
            let (c, found) =
              action_at-some j offered
                (omega (arith, ltb_less j i earlier, action_at-less i offered here)) in
            let same : c ≡ b = some_injective (sym (g.at_kept j c found) ∙ at) in
            rw (sym same)
              (Offers-Grown all (relies picked c) g (before j c (ltb_less j i earlier) found))
        | inr last ↦
            let index : j ≡ i = ground arith in
            let same : a ≡ b = some_injective (sym (g.at_kept i a here) ∙ rw (sym index) at) in
            rw (sym same) (bring-Offers all picked a offered)
      ]

  keep_needed_from-EndsWith :
      (fuel : ℕ) (all : List (BoundAction F W)) (picked : Option (List String)) (i : ℕ)
      (offered : List (BoundAction F W))
      → length offered + missing all (offered_names offered) + 1 ≤ i + fuel
      → Closed all picked i offered
      → i ≤ length offered
      → EndsWith all picked offered (keep_needed_from fuel all picked i offered)
  unfolding keep_needed_from
  keep_needed_from-EndsWith zero all picked i offered room before low = absurd (omega arith)
  keep_needed_from-EndsWith (suc fuel) all picked i offered room before low =
      elim (Option-cases (action_at i offered)) [
        | inl e ↦
            rw (keep_needed_from, e)
              record {
                result = offered;
                ends = refl;
                grown = Grown-same all offered;
                closed = λ j a k. before j a (action_at-none i j offered e k) k;
              }
        | inr (a, e) ↦
            let g = bring-Grown all picked a offered in
            let later =
              keep_needed_from-EndsWith fuel all picked (i + 1) (bring all picked a offered)
                (omega (arith, g.room, room)) (bring-Closed all picked i offered a e before)
                (omega (arith, action_at-less i (bring all picked a offered) (g.at_kept i a e))) in
            rw (keep_needed_from, e)
              record {
                result = later.result;
                ends = later.ends;
                grown = Grown-then g later.grown;
                closed = later.closed;
              }
      ]

  -- What `keepNeeded` returns.
  pub record KeptNeeded (all : List (BoundAction F W)) (picked : Option (List String))
      (offered : List (BoundAction F W)) (o : Option (List (BoundAction F W))) : Type 0 where
    pub result : List (BoundAction F W)
    pub ends : o ≡ some result
    pub stays :
        (j : ℕ) (a : BoundAction F W) → action_at j offered ≡ some a → action_at j result ≡ some a
    pub needs :
        (j : ℕ) (a : BoundAction F W) → action_at j result ≡ some a → Offers all a.needs result
    pub look_ups :
        (j : ℕ) (a : BoundAction F W)
        → action_at j result ≡ some a
        → brings picked a ≡ true
        → Offers all a.with_look_ups result

  relies-parts :
      (all : List (BoundAction F W)) (picked : Option (List String)) (a : BoundAction F W)
      (r : List (BoundAction F W)) (b : Bool)
      → Offers all (if b then a.needs ++ a.with_look_ups else a.needs) r
      → Offers all a.needs r × (b ≡ true → Offers all a.with_look_ups r)
  relies-parts all picked a r true h =
      let (needs, look_ups) = All-parts _ a.needs a.with_look_ups h in (needs, λ _. look_ups)
  relies-parts all picked a r false h = (h, λ e. cc)

  -- `keepNeeded` comes to an end, and what it returns starts with what was offered before, in its order.
  -- Of every ability that is offered then, all that it must run first is offered too, as far as the
  -- agent has it, and so are the look-ups that it names, where it brings them along.
  pub keep_needed-KeptNeeded :
      (all : List (BoundAction F W)) (picked : Option (List String))
      (offered : List (BoundAction F W))
      → KeptNeeded all picked offered (keep_needed all picked offered)
  keep_needed-KeptNeeded all picked offered =
      let run =
        keep_needed_from-EndsWith (length offered + length all + 1) all picked 0 offered
          (omega (arith, missing-length_le all (offered_names offered)))
          (λ j a less k. absurd (omega arith)) (omega arith) in
      record {
        result = run.result;
        ends = run.ends;
        stays = run.grown.at_kept;
        needs =
            λ j a k. (relies-parts all picked a run.result (brings picked a) (run.closed j a k)).0;
        look_ups =
            λ j a k. (relies-parts all picked a run.result (brings picked a) (run.closed j a k)).1;
      }
