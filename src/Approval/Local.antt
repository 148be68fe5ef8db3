-- ===== src/Approval/Local.antt =====
-- runtime/approval.go: what belongs to one request, and how each step leaves it.
use open_kael.Catalog.{put, without_those}
use open_kael.Approval.{Stage, unasked, posting, waiting, returned, remove_waiter}
use open_kael.Prelude.{
  ◌⊎◌, some_injective, inr, inl, ℕ, ◌≡◌, refl, arith, String, Bool, true, false, Option, none, some,
  List, [], ◌∷◌, ◌++◌, if◌then◌else◌, ◌==◌, lookup,
}
use open_kael.Prelude.Text.{◌=ₛ◌, eq_iff}

-- The answers that are about to be sent to a request.
unfoldable pub sends_to : ℕ → List (ℕ × Bool) → List Bool
sends_to n [] = []
sends_to n ((k, b) ∷ xs) = let rest = sends_to n xs in if n == k then b ∷ rest else rest

pub sends_to-append :
    (n : ℕ) (xs ys : List (ℕ × Bool)) → sends_to n (xs ++ ys) ≡ sends_to n xs ++ sends_to n ys
unfolding sends_to
sends_to-append n [] ys = refl
sends_to-append n ((k, b) ∷ xs) ys = ground (arith, sends_to-append n xs ys)

abbrev pub is_asked : Stage → Bool
is_asked unasked = false
is_asked s = true

-- A request waits, is over or not yet asked, holds its answer, or is being answered: an answer is
-- somewhere at most once, and nowhere while the request waits.
pub data Fits : (waits : Bool) → (to_send : List Bool) → Option Bool → Stage → Type 0 where
  is_new : Fits true [] none posting
  waits : (id : String) → Fits true [] none (waiting id)
  quiet : (s : Stage) → Fits false [] none s
  holds : (b : Bool) (s : Stage) → is_asked s ≡ true → Fits false [] (some b) s
  answered : (b : Bool) (s : Stage) → is_asked s ≡ true → Fits false (b ∷ []) none s

pub lookup-removed :
    (j k : String) (m : List (String × ℕ))
    → lookup j (remove_waiter k m) ≡ (if j =ₛ k then none else lookup j m)
unfolding lookup without_those
lookup-removed j k [] = ground arith
lookup-removed j k ((i, n) ∷ m) =
    ground (arith, lookup-removed j k m, eq_iff i k, eq_iff i j, eq_iff j k)

pub lookup-put :
    (j k : String) (n : ℕ) (m : List (String × ℕ))
    → lookup j (put k n m) ≡ (if j =ₛ k then some n else lookup j m)
unfolding lookup
lookup-put j k n m = ground (arith, lookup-removed j k m, eq_iff j k, eq_iff k j)

-- What is known of a request from outside: whether it was asked, decided by somebody, and settled, which
-- is what its caller was told.
pub data Answer : Type 0 where
  not_asked pending : Answer
  decided settled : Bool → Answer

-- What may become of an answer, where `said` is what somebody has just decided of it, if anything. A
-- decision that comes too late is settled as a refusal.
pub data Allowed : (said : Option Bool) → Answer → Answer → Type 0 where
  stays : {said : Option Bool} (a : Answer) → Allowed said a a
  asks : {said : Option Bool} → Allowed said not_asked pending
  decides : (approved : Bool) → Allowed (some approved) pending (decided approved)
  tells :
      {said : Option Bool} (approved : Bool) → Allowed said (decided approved) (settled approved)
  gives_up : {said : Option Bool} → Allowed said pending (settled false)
  comes_late :
      {said : Option Bool} (approved : Bool) → Allowed said (decided approved) (settled false)

abbrev decision : List Bool → Option Bool → Option Bool
decision xs (some b) = some b
decision [] none = none
decision (b ∷ xs) none = some b

abbrev pending_or : Option Bool → Answer
pending_or none = pending
pending_or (some b) = decided b

abbrev pub answer_of : List Bool → Option Bool → Stage → Answer
answer_of xs c unasked = not_asked
answer_of xs c posting = pending_or (decision xs c)
answer_of xs c (waiting id) = pending_or (decision xs c)
answer_of xs c (returned b e) = settled b

-- A request fits after a step, and its answer has moved as it may.
abbrev pub Moves :
    (said : Option Bool)
    → List Bool
    → Option Bool
    → Stage
    → Bool
    → List Bool
    → Option Bool
    → Stage
    → Type 0
Moves said xs c s w' xs' c' s' =
    Fits w' xs' c' s' × Allowed said (answer_of xs c s) (answer_of xs' c' s')

pub Moves-same :
    {w : Bool} {xs : List Bool} {c : Option Bool} {s : Stage} {said : Option Bool}
    → Fits w xs c s
    → Moves said xs c s w xs c s
Moves-same {xs = xs} {c = c} {s = s} h = (h, stays (answer_of xs c s))

pub Moves-asked :
    {w : Bool} {xs : List Bool} {c : Option Bool} {s : Stage}
    → s ≡ unasked
    → Fits w xs c s
    → Moves none xs c s true xs none posting
Moves-asked u is_new = cc
Moves-asked u (waits id) = cc
Moves-asked u (quiet s) = rw u (is_new, asks)
Moves-asked u (holds b s a) = ground arith
Moves-asked u (answered b s a) = ground arith

pub Moves-posted :
    {w : Bool} {xs : List Bool} {c : Option Bool} {s : Stage} (id : String)
    → s ≡ posting
    → Fits w xs c s
    → Moves none xs c s w xs c (waiting id)
Moves-posted id u is_new = (waits id, stays pending)
Moves-posted id u (waits i) = (waits id, stays pending)
Moves-posted id u (quiet s) = rw u (quiet (waiting id), stays pending)
Moves-posted id u (holds b s a) = rw u (holds b (waiting id) refl, stays (decided b))
Moves-posted id u (answered b s a) = rw u (answered b (waiting id) refl, stays (decided b))

-- A call that gives up, or could not post its prompt, and has no waiter any more.
pub Moves-given_up :
    {w : Bool} {xs : List Bool} {c : Option Bool} {s : Stage} (e : Option String)
    → (s ≡ posting) ⊎ ((id : String) × (s ≡ waiting id))
    → Fits w xs c s
    → Moves none xs c s false xs c (returned false e)
Moves-given_up e u is_new = (quiet (returned false e), gives_up)
Moves-given_up e u (waits i) = (quiet (returned false e), gives_up)
Moves-given_up e (inl u) (quiet s) = rw u (quiet (returned false e), gives_up)
Moves-given_up e (inr (id, u)) (quiet s) = rw u (quiet (returned false e), gives_up)
Moves-given_up e (inl u) (holds b s a) = rw u (holds b (returned false e) refl, comes_late b)
Moves-given_up e (inr (id, u)) (holds b s a) = rw u (holds b (returned false e) refl, comes_late b)
Moves-given_up e (inl u) (answered b s a) = rw u (answered b (returned false e) refl, comes_late b)
Moves-given_up e (inr (id, u)) (answered b s a) =
    rw u (answered b (returned false e) refl, comes_late b)

pub Moves-received :
    {w : Bool} {xs : List Bool} {c : Option Bool} {s : Stage} (id : String) (approved : Bool)
    → s ≡ waiting id
    → c ≡ some approved
    → Fits w xs c s
    → Moves none xs c s w xs none (returned approved none)
Moves-received id approved u v is_new = cc
Moves-received id approved u v (waits i) = cc
Moves-received id approved u v (quiet s) = cc
Moves-received id approved u v (holds b s a) =
    rw (u, some_injective v) (quiet (returned approved none), tells approved)
Moves-received id approved u v (answered b s a) = cc

pub Moves-resolved :
    {w : Bool} {xs : List Bool} {c : Option Bool} {s : Stage} (approved : Bool)
    → w ≡ true
    → Fits w xs c s
    → Moves (some approved) xs c s false (approved ∷ xs) c s
Moves-resolved approved u is_new = (answered approved posting refl, decides approved)
Moves-resolved approved u (waits i) = (answered approved (waiting i) refl, decides approved)
Moves-resolved approved u (quiet s) = cc
Moves-resolved approved u (holds b s a) = cc
Moves-resolved approved u (answered b s a) = cc

decided_alike : (b : Bool) (s : Stage) → answer_of (b ∷ []) none s ≡ answer_of [] (some b) s
decided_alike b unasked = refl
decided_alike b posting = refl
decided_alike b (waiting id) = refl
decided_alike b (returned a e) = refl

pub Moves-sent :
    {w : Bool} {xs : List Bool} {c : Option Bool} {s : Stage} (ys : List Bool) (b : Bool)
    (zs : List Bool)
    → xs ≡ ys ++ (b ∷ zs)
    → Fits w xs c s
    → Moves none xs c s w (ys ++ zs) (some b) s
Moves-sent [] b zs u is_new = cc
Moves-sent (y ∷ ys) b zs u is_new = cc
Moves-sent [] b zs u (waits i) = cc
Moves-sent (y ∷ ys) b zs u (waits i) = cc
Moves-sent [] b zs u (quiet s) = cc
Moves-sent (y ∷ ys) b zs u (quiet s) = cc
Moves-sent [] b zs u (holds a s h) = cc
Moves-sent (y ∷ ys) b zs u (holds a s h) = cc
Moves-sent [] b zs u (answered a s h) =
    let last : zs ≡ [] = ground arith in
    let same : a ≡ b = ground arith in
    rw (last, same, decided_alike b s) (holds b s h, stays (answer_of [] (some b) s))
Moves-sent (y ∷ []) b zs u (answered a s h) = cc
Moves-sent (y ∷ z ∷ ys) b zs u (answered a s h) = cc
