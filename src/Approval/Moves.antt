-- ===== src/Approval/Moves.antt =====
-- runtime/approval.go: what each step does to each of the requests.
use open_kael.Approval.{Step}
use open_kael.Approval.{
  times_out, sends, resolves, receives, not_posted, is_posted, begins, waiting, resolve_found,
}
use text.Mathlib.TextLemmas.{append_cancel_left}
use open_kael.Approval.Local.{
  sends_to-append, Moves-sent, Moves-resolved, Moves-received, Moves-posted, Moves-given_up,
  Moves-asked, quiet,
}
use open_kael.Catalog.{put}
use open_kael.Approval.{
  time_out, send, resolve, receive, prompt_posted, posting, post_failed, Stage, remove_waiter,
  next_number, unasked, token_of, new_requester, max_uint64, begin_request, Requester,
}
use open_kael.Approval.Local.{
  lookup-removed, lookup-put, Moves-same, sends_to, answer_of, Moves, Fits, Answer,
}
use open_kael.Prelude.Text.{◌<>◌, eq_iff, ◌=ₛ◌}
use open_kael.Prelude.{
  sym, ◌∷◌, true, Option, ◌++◌, none, inr, inl, if◌then◌else◌, arith, ap, List, Bool-cases, ◌≡◌, ℕ,
  some, refl, lookup, is_some, String, Bool, ◌==◌, ◌<◌,
}

-- The requester as its callers see it: the answer of each request.
abbrev pub answers : Requester → ℕ → Answer
answers s n = answer_of (sends_to n s.resolving) (s.requests n).channel (s.requests n).stage

-- What a `Resolve` that found a waiter says of a request.
abbrev said_of : ℕ → Bool → Option ℕ → Option Bool
said_of n approved none = none
said_of n approved (some m) = if n == m then some approved else none

-- What a step decides of a request: only a `Resolve` with a token that is waited for does.
abbrev pub said_by : (print : ℕ → String) (n : ℕ) {s t : Requester} → Step print s t → Option Bool
said_by print n {s = s} (resolves token approved) = said_of n approved (lookup token s.waiters)
said_by print n step = none

module _ (print : ℕ → String) (distinct : (m n : ℕ) → print m ≡ print n → m ≡ n) where
  abbrev pub has_waiter : Requester → ℕ → Bool
  has_waiter s n = is_some (lookup (token_of print n) s.waiters)

  -- Each request fits, a waiter stands under its own token, and numbers that were not given are fresh.
  abbrev pub IsFine : Requester → Type 0
  IsFine s =
      ((n : ℕ)
        → Fits (has_waiter s n) (sends_to n s.resolving) (s.requests n).channel
            (s.requests n).stage)
      × ((token : String) (n : ℕ) → lookup token s.waiters ≡ some n → token ≡ token_of print n)
      × ((n : ℕ) → s.seq < n → (s.requests n).stage ≡ unasked)

  pub token_of-injective : (m n : ℕ) → token_of print m ≡ token_of print n → m ≡ n
  token_of-injective m n h = distinct m n (append_cancel_left "approval-" (print m) (print n) h)

  token_of-same : (m n : ℕ) → (token_of print m =ₛ token_of print n) ≡ (m == n)
  token_of-same m n = ground (
    arith,
    eq_iff (token_of print m) (token_of print n),
    token_of-injective m n,
    ap (token_of print),
  )

  pub new-IsFine : IsFine new_requester
  unfolding lookup sends_to
  new-IsFine = (λ n. quiet unasked, λ token n h. cc, λ n h. refl)

  -- What holds of the answers of all requests before and after a step.
  abbrev pub AllMove : (said : ℕ → Option Bool) → Requester → Requester → Type 0
  AllMove said s t =
      (n : ℕ)
      → Moves (said n) (sends_to n s.resolving) (s.requests n).channel (s.requests n).stage
          (has_waiter t n) (sends_to n t.resolving) (t.requests n).channel (t.requests n).stage

  has_waiter-removed :
      (m n : ℕ) (ws : List (String × ℕ))
      → lookup (token_of print n) (remove_waiter (token_of print m) ws)
        ≡ (if n == m then none else lookup (token_of print n) ws)
  has_waiter-removed m n ws =
      rw (lookup-removed (token_of print n) (token_of print m) ws, token_of-same n m) refl

  has_waiter-put :
      (m n : ℕ) (ws : List (String × ℕ))
      → lookup (token_of print n) (put (token_of print m) m ws)
        ≡ (if n == m then some m else lookup (token_of print n) ws)
  has_waiter-put m n ws =
      rw (lookup-put (token_of print n) (token_of print m) m ws, token_of-same n m) refl

  begins-AllMove :
      (s : Requester)
      → IsFine s
      → s.seq < max_uint64
      → AllMove (λ n. none) s (begin_request print s)
  begins-AllMove s (fits, known, new) h n = elim (Bool-cases (n == next_number s.seq)) [
    | inl e ↦
        rw (has_waiter-put (next_number s.seq) n s.waiters, e)
          (Moves-asked (new n (ground arith)) (fits n))
    | inr e ↦ rw (has_waiter-put (next_number s.seq) n s.waiters, e) (Moves-same (fits n))
  ]

  same_stage :
      (s : Requester) (m n : ℕ) (g : Stage)
      → (n == m) ≡ true
      → (s.requests m).stage ≡ g
      → (s.requests n).stage ≡ g
  same_stage s m n g e h = let same : n ≡ m = ground arith in rw same h

  same_channel :
      (s : Requester) (m n : ℕ) (g : Option Bool)
      → (n == m) ≡ true
      → (s.requests m).channel ≡ g
      → (s.requests n).channel ≡ g
  same_channel s m n g e h = let same : n ≡ m = ground arith in rw same h

  pub same_request : (s : Requester) (m n : ℕ) → (n == m) ≡ true → m ≡ n
  same_request s m n e = ground arith

  posted-AllMove :
      (s : Requester) (m : ℕ) (id : String)
      → IsFine s
      → (s.requests m).stage ≡ posting
      → AllMove (λ n. none) s (prompt_posted print m id s)
  posted-AllMove s m id (fits, known, new) h n = elim (Bool-cases (n == m)) [
    | inl e ↦ rw (e, same_request s m n e) (Moves-posted id (same_stage s m n posting e h) (fits n))
    | inr e ↦ rw e (Moves-same (fits n))
  ]

  not_posted-AllMove :
      (s : Requester) (m : ℕ) (error : String)
      → IsFine s
      → (s.requests m).stage ≡ posting
      → AllMove (λ n. none) s (post_failed print m error s)
  not_posted-AllMove s m error (fits, known, new) h n = elim (Bool-cases (n == m)) [
    | inl e ↦
        rw (has_waiter-removed m n s.waiters, e, same_request s m n e)
          (Moves-given_up (some ("request approval: post prompt: " <> error))
            (inl (same_stage s m n posting e h)) (fits n))
    | inr e ↦ rw (has_waiter-removed m n s.waiters, e) (Moves-same (fits n))
  ]

  timed_out-AllMove :
      (s : Requester) (m : ℕ) (id error : String)
      → IsFine s
      → (s.requests m).stage ≡ waiting id
      → AllMove (λ n. none) s (time_out print m error s)
  timed_out-AllMove s m id error (fits, known, new) h n = elim (Bool-cases (n == m)) [
    | inl e ↦
        rw (has_waiter-removed m n s.waiters, e, same_request s m n e)
          (Moves-given_up (some error) (inr (id, same_stage s m n (waiting id) e h)) (fits n))
    | inr e ↦ rw (has_waiter-removed m n s.waiters, e) (Moves-same (fits n))
  ]

  received-AllMove :
      (s : Requester) (m : ℕ) (id : String) (approved : Bool)
      → IsFine s
      → (s.requests m).stage ≡ waiting id
      → (s.requests m).channel ≡ some approved
      → AllMove (λ n. none) s (receive print m approved s)
  received-AllMove s m id approved (fits, known, new) h c n = elim (Bool-cases (n == m)) [
    | inl e ↦ rw e (
        Moves-received id approved (same_stage s m n (waiting id) e h)
          (same_channel s m n (some approved) e c) (fits n))
    | inr e ↦ rw e (Moves-same (fits n))
  ]

  resolved-AllMove :
      (s : Requester) (token : String) (approved : Bool)
      → IsFine s
      → AllMove
          (λ n. said_of n approved (lookup token s.waiters))
          s
          (resolve print token approved s).1
  unfolding sends_to
  resolved-AllMove s token approved (fits, known, new) = after (lookup token s.waiters) refl
    where
      after :
          (o : Option ℕ)
          → lookup token s.waiters ≡ o
          → AllMove (λ n. said_of n approved o) s (resolve_found print token approved o s).1
      after none e n = Moves-same (fits n)
      after (some m) e n =
          let own : token ≡ token_of print m = known token m e in
          let gone : lookup (token_of print n) (remove_waiter token s.waiters)
              ≡ (if n == m then none else lookup (token_of print n) s.waiters) =
            rw own (has_waiter-removed m n s.waiters) in
          elim (Bool-cases (n == m)) [
            | inl same ↦
                let there : has_waiter s n ≡ true =
                  rw (same_request s n m (ground arith), sym own, e) refl in
                rw (gone, same) (Moves-resolved approved there (fits n))
            | inr other ↦ rw (gone, other) (Moves-same (fits n))
          ]

  sent-AllMove :
      (s : Requester) (before : List (ℕ × Bool)) (m : ℕ) (approved : Bool) (later : List (ℕ × Bool))
      → IsFine s
      → s.resolving ≡ before ++ ((m, approved) ∷ later)
      → AllMove (λ n. none) s (send print m approved (before ++ later) s)
  unfolding sends_to
  sent-AllMove s before m approved later (fits, known, new) h n =
      let split : sends_to n s.resolving ≡ sends_to n before ++ sends_to n ((m, approved) ∷ later) =
        rw (h, sends_to-append n before ((m, approved) ∷ later)) refl in
      elim (Bool-cases (n == m)) [
        | inl e ↦
            let now : sends_to n s.resolving ≡ sends_to n before ++ (approved ∷ sends_to n later) =
              ground (arith, split) in
            rw (e, sends_to-append n before later, same_request s m n e)
              (Moves-sent (sends_to n before) approved (sends_to n later) now (fits n))
        | inr e ↦
            let same : sends_to n (before ++ later) ≡ sends_to n s.resolving =
              ground (arith, split, sends_to-append n before later) in
            rw (e, same) (Moves-same (fits n))
      ]

  pub Step-AllMove :
      {s t : Requester}
      → IsFine s
      → (step : Step print s t) → AllMove (λ n. said_by print n step) s t
  Step-AllMove {s = s} f (begins h) = begins-AllMove s f h
  Step-AllMove {s = s} f (not_posted n e h) = not_posted-AllMove s n e f h
  Step-AllMove {s = s} f (is_posted n id h) = posted-AllMove s n id f h
  Step-AllMove {s = s} f (receives n id b h c) = received-AllMove s n id b f h c
  Step-AllMove {s = s} f (times_out n id e h) = timed_out-AllMove s n id e f h
  Step-AllMove {s = s} f (resolves token b) = resolved-AllMove s token b f
  Step-AllMove {s = s} f (sends before n b later h c) = sent-AllMove s before n b later f h
