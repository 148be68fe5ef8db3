-- ===== src/Limiter/Counting.antt =====
-- runtime/ratelimit.go: the limiter counts each client's failures of late, however it forgets.
use open_kael.Prelude.{
  ℕ, ◌+◌, ◌<◌, String, false, Option, none, some, List, [], ◌∷◌, ◌≡◌, refl, arith, if◌then◌else◌,
  ltb, leb, length, lookup, if_rule, if_rule,
}
use open_kael.Prelude.Text.{◌=ₛ◌, eq_iff}
use open_kael.Limiter.{
  Failures, Limiter, expired, delete, forget_old, blocked, remembered, count_failure, fail, fails,
}

-- Each client stands at most once among those seen.
pub data Distinct : List (String × Failures) → Type 0 where
  none_seen : Distinct []
  one_more :
      {k : String} {f : Failures} {m : List (String × Failures)}
      → lookup k m ≡ none
      → Distinct m
      → Distinct ((k, f) ∷ m)

-- The failures that still count at a time.
abbrev pub live : (now window : ℕ) → Option Failures → ℕ
live now window none = 0
live now window (some f) = if expired now window f then 0 else f.count

-- How often a client has failed within the window.
unfoldable pub recent : ℕ → String → Limiter → ℕ
recent now key l = live now l.window (lookup key l.seen)

lookup-delete : (key : String) (m : List (String × Failures)) → lookup key (delete key m) ≡ none
unfolding lookup delete
lookup-delete key [] = refl
lookup-delete key ((k, f) ∷ m) = ground (arith, lookup-delete key m)

lookup-delete_other :
    (key k : String) (m : List (String × Failures))
    → (k =ₛ key) ≡ false
    → lookup key (delete k m) ≡ lookup key m
unfolding lookup delete
lookup-delete_other key k [] h = refl
lookup-delete_other key k ((j, f) ∷ m) h =
    ground (arith, lookup-delete_other key k m h, eq_iff j k, eq_iff j key, eq_iff k key)

live-forget_old :
    (now window : ℕ) (key : String) (m : List (String × Failures))
    → Distinct m
    → live now window (lookup key (forget_old now window m)) ≡ live now window (lookup key m)
unfolding lookup forget_old
live-forget_old now window key [] d = refl
live-forget_old now window key ((k, f) ∷ m) (one_more e d) =
    ground (arith, live-forget_old now window key m d, eq_iff k key)

forget_old-none :
    (now window : ℕ) (key : String) (m : List (String × Failures))
    → lookup key m ≡ none
    → lookup key (forget_old now window m) ≡ none
unfolding lookup forget_old
forget_old-none now window key [] h = refl
forget_old-none now window key ((k, f) ∷ m) h = ground (arith, forget_old-none now window key m)

delete-none :
    (k key : String) (m : List (String × Failures))
    → lookup key m ≡ none
    → lookup key (delete k m) ≡ none
unfolding lookup delete
delete-none k key [] h = refl
delete-none k key ((j, f) ∷ m) h = ground (arith, delete-none k key m)

Distinct-delete :
    (key : String) {m : List (String × Failures)} → Distinct m → Distinct (delete key m)
unfolding delete
Distinct-delete key none_seen = none_seen
Distinct-delete key (one_more {k} {f} {m} e d) =
    if_rule Distinct (k =ₛ key) (λ same. Distinct-delete key d)
      (λ other. one_more (delete-none key k m e) (Distinct-delete key d))

Distinct-forget_old :
    (now window : ℕ) {m : List (String × Failures)}
    → Distinct m
    → Distinct (forget_old now window m)
unfolding forget_old
Distinct-forget_old now window none_seen = none_seen
Distinct-forget_old now window (one_more {k} {f} {m} e d) =
    if_rule Distinct (expired now window f) (λ old. Distinct-forget_old now window d)
      (λ fresh. one_more (forget_old-none now window k m e) (Distinct-forget_old now window d))

Distinct-remembered : (now : ℕ) (l : Limiter) → Distinct l.seen → Distinct (remembered now l)
unfolding remembered
Distinct-remembered now l d =
    if_rule Distinct (ltb 10000 (length l.seen)) (λ many. Distinct-forget_old now l.window d)
      (λ few. d)

-- Counting a failure keeps each client at most once.
pub fail-Distinct :
    (now : ℕ) (key : String) (l : Limiter) → Distinct l.seen → Distinct (fail now key l).seen
unfolding fail
fail-Distinct now key l d =
    one_more (lookup-delete key (remembered now l))
      (Distinct-delete key (Distinct-remembered now l d))

live-remembered :
    (now : ℕ) (key : String) (l : Limiter)
    → Distinct l.seen
    → live now l.window (lookup key (remembered now l)) ≡ recent now key l
unfolding remembered recent
live-remembered now key l d = ground (arith, live-forget_old now l.window key l.seen d)

live-count_failure :
    (now window : ℕ) (o : Option Failures)
    → live now window (some (count_failure now window o)) ≡ live now window o + 1
unfolding count_failure
live-count_failure now window none = ground arith
live-count_failure now window (some f) = ground arith

-- A failure is counted once, for the client that failed and no other, even when the limiter forgets
-- old clients on the way.
pub recent-fail :
    (now : ℕ) (key other : String) (l : Limiter)
    → Distinct l.seen
    → recent now other (fail now key l)
      ≡ (if key =ₛ other then recent now other l + 1 else recent now other l)
unfolding fail recent lookup
recent-fail now key other l d = ground (
  arith,
  eq_iff key other,
  lookup-delete_other other key (remembered now l),
  live-remembered now other l d,
  live-remembered now key l d,
  live-count_failure now l.window (lookup key (remembered now l)),
)

-- A client is refused exactly when its failures within the window are as many as are allowed, where
-- any are.
blocked-recent :
    (now : ℕ) (key : String) (l : Limiter)
    → 0 < l.max
    → (blocked now key l).0 ≡ leb l.max (recent now key l)
unfolding blocked recent
blocked-recent now key l h = ground arith

-- Asking whether a client is refused changes no client's count.
pub recent-blocked :
    (now : ℕ) (key other : String) (l : Limiter)
    → recent now other (blocked now key l).1 ≡ recent now other l
unfolding blocked recent
recent-blocked now key other l =
    ground (arith, eq_iff key other, lookup-delete key l.seen, lookup-delete_other other key l.seen)

-- How often a client stands in a list.
unfoldable pub times_of : String → List String → ℕ
times_of key [] = 0
times_of key (k ∷ keys) = let rest = times_of key keys in if k =ₛ key then rest + 1 else rest

-- The failures of a burst, by any clients in any order, are all counted, each for its own client.
pub recent-fails :
    (now : ℕ) (keys : List String) (key : String) (l : Limiter)
    → Distinct l.seen
    → recent now key (fails now keys l) ≡ recent now key l + times_of key keys
unfolding fails times_of
recent-fails now [] key l d = omega arith
recent-fails now (k ∷ keys) key l d = ground (
  arith,
  recent-fails now keys key (fail now k l) (fail-Distinct now k l d),
  recent-fail now k key l d,
)
