-- ===== src/Requirements/Growth.antt =====
-- runtime/requirements.go: how the list of offered abilities grows.
use text.Mathlib.TextPositions.{eq_refl}
use text.Mathlib.TextPositions.{eq_refl}
use open_kael.Loop.{BoundAction}
use open_kael.Prelude.Text.{is_empty, eq_iff, ◌=ₛ◌}
use open_kael.Prelude.{
  not, ◌&&◌, ◌∙◌, sym, some_injective, if_rule, ap, Option, All, ◌≤◌, ◌≡◌, ◌∷◌, ℕ, zero, true, suc,
  some, refl, none, length-append, length, inr, inl, if◌then◌else◌, has, false, arith, any-append,
  [], String, List, Bool-cases, ◌++◌, ◌+◌,
}
use open_kael.Requirements.{
  relies, brings, bring, add_offered, put_back, add_relied, add_look_ups, first_named, action_at,
  offered_names,
}

module _ {F W : Type 0} where
  -- How many abilities have a name that is not among those.
  unfoldable pub missing : List (BoundAction F W) → List String → ℕ
  missing [] names = 0
  missing (a ∷ all) names = (if has a.spec.name names then 0 else 1) + missing all names

  missing-add_le :
      (all : List (BoundAction F W)) (names : List String) (n : String)
      → missing all (names ++ n ∷ []) ≤ missing all names
  unfolding missing
  missing-add_le [] names n = omega arith
  missing-add_le (a ∷ all) names n =
      ground (arith, missing-add_le all names n, any-append (λ j. j =ₛ a.spec.name) names (n ∷ []))

  missing-add_less :
      (all : List (BoundAction F W)) (names : List String) (n : String)
      → has n (offered_names all) ≡ true
      → has n names ≡ false
      → missing all (names ++ n ∷ []) + 1 ≤ missing all names
  unfolding missing
  missing-add_less [] names n h new = cc
  missing-add_less (a ∷ all) names n h new = ground (
    arith,
    missing-add_less all names n,
    missing-add_le all names n,
    any-append (λ j. j =ₛ a.spec.name) names (n ∷ []),
    eq_iff a.spec.name n,
    eq_iff n a.spec.name,
  )

  pub missing-length_le :
      (all : List (BoundAction F W)) (names : List String) → missing all names ≤ length all
  unfolding missing
  missing-length_le [] names = omega arith
  missing-length_le (a ∷ all) names = ground (arith, missing-length_le all names)

  offered_names-append :
      (xs ys : List (BoundAction F W))
      → offered_names (xs ++ ys) ≡ offered_names xs ++ offered_names ys
  offered_names-append [] ys = refl
  offered_names-append (x ∷ xs) ys = ground (arith, offered_names-append xs ys)

  first_named-some :
      (name : String) (all : List (BoundAction F W)) {a : BoundAction F W}
      → first_named name all ≡ some a
      → (a.spec.name ≡ name) × (has name (offered_names all) ≡ true)
  unfolding first_named
  first_named-some name [] h = cc
  first_named-some name (b ∷ all) {a = a} h = elim (Bool-cases (b.spec.name =ₛ name)) [
    | inl same ↦
        let e : b ≡ a = some_injective (rw same at h) in
        (
          sym (ap (λ (x : BoundAction F W). x.spec.name) e) ∙ (eq_iff b.spec.name name).0 same,
          rw same refl,
        )
    | inr other ↦
        let (named_so, there) = first_named-some name all (rw other at h) in
        (named_so, rw other there)
  ]

  first_named-none :
      (name : String) (all : List (BoundAction F W))
      → first_named name all ≡ none
      → has name (offered_names all) ≡ false
  unfolding first_named
  first_named-none name [] h = refl
  first_named-none name (b ∷ all) h = ground (arith, first_named-none name all)

  action_at-append :
      (j : ℕ) (xs ys : List (BoundAction F W)) {a : BoundAction F W}
      → action_at j xs ≡ some a
      → action_at j (xs ++ ys) ≡ some a
  unfolding action_at
  action_at-append j [] ys h = cc
  action_at-append zero (x ∷ xs) ys h = h
  action_at-append (suc j) (x ∷ xs) ys h = action_at-append j xs ys h

  -- A list that has grown by abilities whose names were not there.
  pub record Grown (all offered r : List (BoundAction F W)) : Type 0 where
    pub has_kept :
        (name : String)
        → has name (offered_names offered) ≡ true
        → has name (offered_names r) ≡ true
    pub at_kept :
        (j : ℕ) (a : BoundAction F W) → action_at j offered ≡ some a → action_at j r ≡ some a
    pub room :
        length r + missing all (offered_names r)
        ≤ length offered + missing all (offered_names offered)

  pub Grown-same : (all offered : List (BoundAction F W)) → Grown all offered offered
  Grown-same all offered = record {
    has_kept = λ name h. h;
    at_kept = λ j a h. h;
    room = omega arith;
  }

  pub Grown-then :
      {all xs ys zs : List (BoundAction F W)} → Grown all xs ys → Grown all ys zs → Grown all xs zs
  Grown-then g h = record {
    has_kept = λ name k. h.has_kept name (g.has_kept name k);
    at_kept = λ j a k. h.at_kept j a (g.at_kept j a k);
    room = omega (arith, g.room, h.room);
  }

  Grown-one :
      (all offered : List (BoundAction F W)) (a : BoundAction F W)
      → has a.spec.name (offered_names all) ≡ true
      → has a.spec.name (offered_names offered) ≡ false
      → Grown all offered (offered ++ a ∷ [])
  Grown-one all offered a there new = record {
    has_kept = λ name h.
        rw
          (
            offered_names-append offered (a ∷ []),
            any-append (λ j. j =ₛ name) (offered_names offered) (a.spec.name ∷ []),
            h,
          )
          refl;
    at_kept = λ j b h. action_at-append j offered (a ∷ []) h;
    room = rw (offered_names-append offered (a ∷ [])) (
        omega (
          arith,
          length-append offered (a ∷ []),
          missing-add_less all (offered_names offered) a.spec.name there new,
        ));
  }

  put_back-Grown :
      (all offered : List (BoundAction F W)) (name : String) (o : Option (BoundAction F W))
      → first_named name all ≡ o
      → has name (offered_names offered) ≡ false
      → Grown all offered (put_back o offered)
  put_back-Grown all offered name none e new = Grown-same all offered
  put_back-Grown all offered name (some a) e new =
      let (same, there) = first_named-some name all e in
      Grown-one all offered a (rw same there) (rw same new)

  -- One name that is relied on.
  relied_one-Grown :
      (all offered : List (BoundAction F W)) (name : String)
      → Grown all offered (
          if has name (offered_names offered)
          then offered
          else put_back (first_named name all) offered)
  relied_one-Grown all offered name =
      if_rule (Grown all offered) (has name (offered_names offered))
        (λ there. Grown-same all offered)
        (λ new. put_back-Grown all offered name (first_named name all) refl new)

  put_back-has :
      (all offered : List (BoundAction F W)) (name : String) (o : Option (BoundAction F W))
      → first_named name all ≡ o
      → has name (offered_names all) ≡ true
      → has name (offered_names (put_back o offered)) ≡ true
  put_back-has all offered name none e there = ground (arith, first_named-none name all e)
  put_back-has all offered name (some a) e there =
      let (same, _) = first_named-some name all e in
      rw
        (
          offered_names-append offered (a ∷ []),
          any-append (λ j. j =ₛ name) (offered_names offered) (a.spec.name ∷ []),
          same,
          eq_refl name,
        )
        (ground arith)

  relied_one-has :
      (all offered : List (BoundAction F W)) (name : String)
      → has name (offered_names all) ≡ true
      → has name (
          offered_names (
            if has name (offered_names offered)
            then offered
            else put_back (first_named name all) offered))
        ≡ true
  relied_one-has all offered name there =
      if_rule (λ (l : List (BoundAction F W)). has name (offered_names l) ≡ true)
        (has name (offered_names offered)) (λ h. h)
        (λ new. put_back-has all offered name (first_named name all) refl there)

  add_relied-Grown :
      (all : List (BoundAction F W)) (names : List String) (offered : List (BoundAction F W))
      → Grown all offered (add_relied all names offered)
  unfolding add_relied
  add_relied-Grown all [] offered = Grown-same all offered
  add_relied-Grown all (name ∷ names) offered =
      Grown-then (relied_one-Grown all offered name) (add_relied-Grown all names _)

  -- What of the names is known is offered.
  abbrev pub Offers : (all : List (BoundAction F W)) → List String → List (BoundAction F W) → Type 0
  Offers all names r =
      All (λ name. has name (offered_names all) ≡ true → has name (offered_names r) ≡ true) names

  pub add_relied-Offers :
      (all : List (BoundAction F W)) (names : List String) (offered : List (BoundAction F W))
      → Offers all names (add_relied all names offered)
  unfolding add_relied
  add_relied-Offers all [] offered = tt
  add_relied-Offers all (name ∷ names) offered = (
    λ there. (add_relied-Grown all names _).has_kept name (relied_one-has all offered name there),
    add_relied-Offers all names _,
  )

  pub Offers-Grown :
      (all : List (BoundAction F W)) (names : List String) {xs ys : List (BoundAction F W)}
      → Grown all xs ys
      → Offers all names xs
      → Offers all names ys
  Offers-Grown all [] g h = tt
  Offers-Grown all (name ∷ names) g h =
      (λ there. g.has_kept name (h.0 there), Offers-Grown all names g h.1)

  -- Each of some abilities has a name among those of all.
  abbrev Known : (all bs : List (BoundAction F W)) → Type 0
  Known all bs = All (λ b. has b.spec.name (offered_names all) ≡ true) bs

  Known-more :
      (a : BoundAction F W) (all bs : List (BoundAction F W)) → Known all bs → Known (a ∷ all) bs
  Known-more a all [] h = tt
  Known-more a all (b ∷ bs) h = (ground (arith, h.0), Known-more a all bs h.1)

  Known-all : (all : List (BoundAction F W)) → Known all all
  Known-all [] = tt
  Known-all (a ∷ all) = (rw (eq_refl a.spec.name) refl, Known-more a all all (Known-all all))

  look_up_one-Grown :
      (app : String) (all offered : List (BoundAction F W)) (a : BoundAction F W)
      → has a.spec.name (offered_names all) ≡ true
      → Grown all offered
          (if a.app =ₛ app && a.spec.read_only then add_offered a offered else offered)
  look_up_one-Grown app all offered a there =
      if_rule (Grown all offered) (a.app =ₛ app && a.spec.read_only)
        (λ its.
          if_rule (Grown all offered) (has a.spec.name (offered_names offered))
            (λ had. Grown-same all offered) (λ new. Grown-one all offered a there new))
        (λ other. Grown-same all offered)

  add_look_ups-Grown :
      (app : String) (all later offered : List (BoundAction F W))
      → Known all later
      → Grown all offered (add_look_ups app later offered)
  unfolding add_look_ups
  add_look_ups-Grown app all [] offered h = Grown-same all offered
  add_look_ups-Grown app all (a ∷ later) offered h =
      Grown-then (look_up_one-Grown app all offered a h.0) (add_look_ups-Grown app all later _ h.1)

  pub bring-Grown :
      (all : List (BoundAction F W)) (picked : Option (List String)) (a : BoundAction F W)
      (offered : List (BoundAction F W))
      → Grown all offered (bring all picked a offered)
  unfolding bring
  bring-Grown all picked a offered =
      let relied = add_relied all (relies picked a) offered in
      let first = add_relied-Grown all (relies picked a) offered in
      if_rule (Grown all offered) (brings picked a && not (is_empty a.app) && not a.declared)
        (λ wide. Grown-then first (add_look_ups-Grown a.app all all relied (Known-all all)))
        (λ plain. first)

  pub bring-Offers :
      (all : List (BoundAction F W)) (picked : Option (List String)) (a : BoundAction F W)
      (offered : List (BoundAction F W))
      → Offers all (relies picked a) (bring all picked a offered)
  unfolding bring
  bring-Offers all picked a offered =
      let relied = add_relied all (relies picked a) offered in
      let first = add_relied-Offers all (relies picked a) offered in
      if_rule (Offers all (relies picked a))
        (brings picked a && not (is_empty a.app) && not a.declared)
        (λ wide.
          Offers-Grown all (relies picked a)
            (add_look_ups-Grown a.app all all relied (Known-all all)) first)
        (λ plain. first)
