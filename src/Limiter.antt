-- ===== src/Limiter.antt =====
-- runtime/ratelimit.go: a client that keeps failing is refused for a while. The lock makes each
-- operation one step; the time that it reads is its argument.
pub mod Counting
mod Examples
use open_kael.Prelude.{
  ℕ, suc, ◌+◌, String, Bool, true, false, not, Option, none, some, List, [], ◌∷◌, if◌then◌else◌,
  ltb, leb, length, lookup,
}
use open_kael.Prelude.Text.{◌=ₛ◌}

-- `failures`.
pub record Failures : Type 0 where
  pub count : ℕ
  pub since : ℕ

-- `failureLimiter`: a key stands in `seen` at most once.
pub record Limiter : Type 0 where
  pub max : ℕ
  pub window : ℕ
  pub seen : List (String × Failures)

-- `newFailureLimiter`.
abbrev pub new_failure_limiter : ℕ → ℕ → Limiter
new_failure_limiter max window = record { max = max; window = window; seen = [] }

-- `now.Sub(f.since) > l.window`.
abbrev pub expired : (now window : ℕ) → Failures → Bool
expired now window f = ltb (f.since + window) now

-- `delete(l.seen, key)`.
unfoldable pub delete : String → List (String × Failures) → List (String × Failures)
delete key [] = []
delete key ((k, f) ∷ m) = let rest = delete key m in if k =ₛ key then rest else (k, f) ∷ rest

-- `l.seen[key] = f`.
abbrev pub assign : String → Failures → List (String × Failures) → List (String × Failures)
assign key f m = (key, f) ∷ delete key m

-- The loop that forgets old clients.
unfoldable pub forget_old : (now window : ℕ) → List (String × Failures) → List (String × Failures)
forget_old now window [] = []
forget_old now window ((k, f) ∷ m) =
    let rest = forget_old now window m in if expired now window f then rest else (k, f) ∷ rest

-- `blocked`: its answer, and the limiter it leaves.
unfoldable pub blocked : (now : ℕ) → String → Limiter → Bool × Limiter
blocked now key l = elim (lookup key l.seen) [
  | none ↦ (false, l)
  | some f ↦
      if expired now l.window f
      then (false, record l { seen = delete key l.seen })
      else (leb l.max f.count, l)
]

-- The clients that `fail` remembers before it counts.
unfoldable pub remembered : (now : ℕ) → Limiter → List (String × Failures)
remembered now l = if ltb 10000 (length l.seen) then forget_old now l.window l.seen else l.seen

-- `fail`, on the failures of the client that are remembered.
unfoldable pub count_failure : (now window : ℕ) → Option Failures → Failures
count_failure now window none = record { count = 1; since = now }
count_failure now window (some f) =
    if expired now window f
    then record { count = 1; since = now }
    else record f { count = f.count + 1 }

unfoldable pub fail : (now : ℕ) → String → Limiter → Limiter
fail now key l = record l {
  seen = assign key (count_failure now l.window (lookup key (remembered now l))) (remembered now l);
}

-- Failures of several clients, one after another.
unfoldable pub fails : (now : ℕ) → List String → Limiter → Limiter
fails now [] l = l
fails now (key ∷ keys) l = fails now keys (fail now key l)
