-- ===== src/Approval/Refinement.antt =====
-- runtime/approval.go: the requester as its callers see it, through all of its steps.
use open_kael.Catalog.{put}
use open_kael.Prelude.Text.{eq_iff}
use open_kael.Prelude.{
  false, ◌≡◌, ◌∷◌, ℕ, true, some, refl, none, lookup, inr, inl, arith, [], String, Option, List,
  Bool-cases, Bool, ◌==◌, ◌<◌, ◌++◌,
}
use open_kael.Approval.{
  resolve, unasked, token_of, times_out, set_request, sends, resolves, remove_waiter, receives,
  not_posted, next_number, is_posted, begins, Stage, Requester, Request, Step, Reached, at_start,
  next, resolve_found,
}
use open_kael.Approval.Local.{
  pending, decided, answer_of, waits, sends_to-append, sends_to, lookup-removed, lookup-put, is_new,
  holds, Fits, Allowed, answered, quiet, Answer, settled, stays, tells, comes_late, asks, decides,
  gives_up,
}
use open_kael.Approval.Moves.{
  said_by, has_waiter, token_of-injective, IsFine, same_request, new-IsFine, Step-AllMove, answers,
}

module _ (print : ℕ → String) (distinct : (m n : ℕ) → print m ≡ print n → m ≡ n) where
  -- Waiters stand under their own tokens.
  abbrev IsKnown : List (String × ℕ) → Type 0
  IsKnown ws = (token : String) (n : ℕ) → lookup token ws ≡ some n → token ≡ token_of print n

  removed-IsKnown :
      (key : String) (ws : List (String × ℕ)) → IsKnown ws → IsKnown (remove_waiter key ws)
  removed-IsKnown key ws known token n h =
      known token n (ground (arith, lookup-removed token key ws))

  put-IsKnown :
      (m : ℕ) (ws : List (String × ℕ)) → IsKnown ws → IsKnown (put (token_of print m) m ws)
  put-IsKnown m ws known token n h = ground (
    arith,
    lookup-put token (token_of print m) m ws,
    known token n,
    eq_iff token (token_of print m),
  )

  Step-IsKnown : {s t : Requester} → IsKnown s.waiters → Step print s t → IsKnown t.waiters
  Step-IsKnown {s = s} k (begins h) = put-IsKnown (next_number s.seq) s.waiters k
  Step-IsKnown {s = s} k (not_posted n e h) = removed-IsKnown (token_of print n) s.waiters k
  Step-IsKnown k (is_posted n id h) = k
  Step-IsKnown k (receives n id b h c) = k
  Step-IsKnown {s = s} k (times_out n id e h) = removed-IsKnown (token_of print n) s.waiters k
  Step-IsKnown {s = s} k (resolves token b) = found (lookup token s.waiters)
    where
      found : (o : Option ℕ) → IsKnown (resolve_found print token b o s).1.waiters
      found none = k
      found (some n) = removed-IsKnown token s.waiters k
  Step-IsKnown k (sends before n b later h c) = k

  -- Numbers that were not given have no request.
  abbrev IsFresh : Requester → Type 0
  IsFresh s = (n : ℕ) → s.seq < n → (s.requests n).stage ≡ unasked

  set-IsFresh :
      (s : Requester) (m : ℕ) (q : Request)
      → ((s.requests m).stage ≡ unasked → q.stage ≡ unasked)
      → IsFresh s
      → (n : ℕ) → s.seq < n
      → (set_request m q s.requests n).stage ≡ unasked
  set-IsFresh s m q back new n h = elim (Bool-cases (n == m)) [
    | inl e ↦ rw e (back (rw (same_request print distinct s m n e) (new n h)))
    | inr e ↦ rw e (new n h)
  ]

  Step-IsFresh : {s t : Requester} → IsFresh s → Step print s t → IsFresh t
  Step-IsFresh {s = s} f (begins h) = λ n later. elim (Bool-cases (n == next_number s.seq)) [
    | inl e ↦ ground arith
    | inr e ↦ rw e (f n (ground arith))
  ]
  Step-IsFresh {s = s} {t = t} f (not_posted n e h) = set-IsFresh s n _ (λ u. cc) f
  Step-IsFresh {s = s} {t = t} f (is_posted n id h) = set-IsFresh s n _ (λ u. cc) f
  Step-IsFresh {s = s} {t = t} f (receives n id b h c) = set-IsFresh s n _ (λ u. cc) f
  Step-IsFresh {s = s} {t = t} f (times_out n id e h) = set-IsFresh s n _ (λ u. cc) f
  Step-IsFresh {s = s} f (resolves token b) = found (lookup token s.waiters)
    where
      found : (o : Option ℕ) → IsFresh (resolve_found print token b o s).1
      found none = f
      found (some n) = f
  Step-IsFresh {s = s} f (sends before n b later h c) = set-IsFresh s n _ (λ u. u) f

  Reached-IsFine : {s : Requester} → Reached print s → IsFine print distinct s
  Reached-IsFine at_start = new-IsFine print distinct
  Reached-IsFine (next r step) =
      let f = Reached-IsFine r in
      (λ n. (Step-AllMove print distinct f step n).0, Step-IsKnown f.1 step, Step-IsFresh f.2 step)

  -- Whatever steps are taken, and in whatever order, each request is only ever asked, decided once, and
  -- settled once: what a step of the requester does to a request is named by `Allowed`. Only a `Resolve`
  -- with the request's token decides it, as that call says. So a request is settled with a yes only
  -- after a `Resolve` with its token said yes.
  pub Step-Allowed :
      {s t : Requester} (n : ℕ)
      → Reached print s
      → (step : Step print s t) → Allowed (said_by print n step) (answers s n) (answers t n)
  Step-Allowed n r step = (Step-AllMove print distinct (Reached-IsFine r) step n).1

  sends_to-last :
      (before : List (ℕ × Bool)) (n : ℕ) (b : Bool) (later : List (ℕ × Bool))
      → sends_to n (before ++ ((n, b) ∷ later)) ≡ sends_to n before ++ (b ∷ sends_to n later)
  unfolding sends_to
  sends_to-last before n b later =
      let here : (n == n) ≡ true = ground arith in
      rw (sends_to-append n before ((n, b) ∷ later), here) refl

  empty_channel :
      {w : Bool} {xs : List Bool} {c : Option Bool} {s : Stage} (ys : List Bool) (b : Bool)
      (zs : List Bool)
      → xs ≡ ys ++ (b ∷ zs)
      → Fits w xs c s
      → c ≡ none
  empty_channel ys b zs u is_new = refl
  empty_channel ys b zs u (waits id) = refl
  empty_channel ys b zs u (quiet s) = refl
  empty_channel [] b zs u (holds a s h) = cc
  empty_channel (y ∷ ys) b zs u (holds a s h) = cc
  empty_channel ys b zs u (answered a s h) = refl

  -- `Resolve` never blocks: where it is about to send an answer, the channel is empty.
  pub send-ready :
      {s : Requester} (before : List (ℕ × Bool)) (n : ℕ) (approved : Bool) (later : List (ℕ × Bool))
      → Reached print s
      → s.resolving ≡ before ++ ((n, approved) ∷ later)
      → (s.requests n).channel ≡ none
  send-ready {s = s} before n approved later r h =
      empty_channel (sends_to n before) approved (sends_to n later)
        (rw h (sends_to-last before n approved later)) ((Reached-IsFine r).0 n)

  waiting_pending :
      {w : Bool} {xs : List Bool} {c : Option Bool} {s : Stage} (b : Bool)
      → w ≡ true
      → Fits w xs c s
      → (answer_of xs c s ≡ pending) × (answer_of (b ∷ xs) c s ≡ decided b)
  waiting_pending b u is_new = (refl, refl)
  waiting_pending b u (waits id) = (refl, refl)
  waiting_pending b u (quiet s) = cc
  waiting_pending b u (holds a s h) = cc
  waiting_pending b u (answered a s h) = cc

  -- A `Resolve` that says yes finds its request pending, and decides it as it says.
  resolve-now :
      {s : Requester} (n : ℕ) (b : Bool)
      → Reached print s
      → (resolve print (token_of print n) b s).0 ≡ true
      → (answers s n ≡ pending) × (answers (resolve print (token_of print n) b s).1 n ≡ decided b)
  unfolding sends_to
  resolve-now {s = s} n b r h = after (lookup (token_of print n) s.waiters) refl h
    where
      after :
          (o : Option ℕ)
          → lookup (token_of print n) s.waiters ≡ o
          → (resolve_found print (token_of print n) b o s).0 ≡ true
          → (answers s n ≡ pending)
            × (answers (resolve_found print (token_of print n) b o s).1 n ≡ decided b)
      after none e h = cc
      after (some m) e h =
          let f = Reached-IsFine r in
          let own : n ≡ m = token_of-injective print distinct n m (f.1 (token_of print n) m e) in
          let here : (n == m) ≡ true = ground (arith, own) in
          let there : has_waiter print distinct s n ≡ true = rw e refl in
          let known = waiting_pending b there (f.0 n) in (known.0, rw here known.1)

  -- The states that steps may lead to.
  pub data Later (s : Requester) : Requester → Type 0 where
    now : Later s s
    then : {t u : Requester} → Later s t → Step print t u → Later s u

  Later-Reached : {s t : Requester} → Reached print s → Later s t → Reached print t
  Later-Reached r now = r
  Later-Reached r (then l step) = next (Later-Reached r l) step

  -- A request that was decided is not pending again.
  data IsOver : Answer → Type 0 where
    was_decided : (b : Bool) → IsOver (decided b)
    was_settled : (b : Bool) → IsOver (settled b)

  Allowed-IsOver : {said : Option Bool} {a b : Answer} → IsOver a → Allowed said a b → IsOver b
  Allowed-IsOver h (stays a) = h
  Allowed-IsOver h (tells b) = was_settled b
  Allowed-IsOver h (comes_late b) = was_settled false
  Allowed-IsOver h asks = elim h [ ]
  Allowed-IsOver h (decides b) = elim h [ ]
  Allowed-IsOver h gives_up = elim h [ ]

  IsOver-not_pending : {a : Answer} → IsOver a → ¬ (a ≡ pending)
  IsOver-not_pending (was_decided b) e = cc
  IsOver-not_pending (was_settled b) e = cc

  Later-IsOver :
      {s t : Requester} (n : ℕ)
      → Reached print s
      → IsOver (answers s n)
      → Later s t
      → IsOver (answers t n)
  Later-IsOver n r h now = h
  Later-IsOver n r h (then l step) =
      Allowed-IsOver (Later-IsOver n r h l) (Step-Allowed n (Later-Reached r l) step)

  -- Where `Resolve` says yes, the request was pending and is now decided as it says; and a `Resolve` of
  -- the same token says no in every state that any number of further steps, of any of the calls, lead to.
  pub resolve-once :
      {s u : Requester} (n : ℕ) (b c : Bool)
      → Reached print s
      → (resolve print (token_of print n) b s).0 ≡ true
      → Later (resolve print (token_of print n) b s).1 u
      → (answers s n ≡ pending)
        × (answers (resolve print (token_of print n) b s).1 n ≡ decided b)
        × ((resolve print (token_of print n) c u).0 ≡ false)
  resolve-once {s = s} {u = u} n b c r h l =
      let (was, is) = resolve-now n b r h in
      let reached = next r (resolves (token_of print n) b) in
      let over = Later-IsOver n reached (rw is (was_decided b)) l in
      (
        was,
        is,
        elim (Bool-cases (resolve print (token_of print n) c u).0) [
          | inl yes_ ↦
              elim (IsOver-not_pending over (resolve-now n c (Later-Reached reached l) yes_).0) [ ]
          | inr no_ ↦ no_
        ],
      )
