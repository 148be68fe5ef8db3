-- ===== src/Approval/Examples.antt =====
-- runtime/approval.go: a request that is asked, answered and told.
use open_kael.Catalog.{without_those}
use open_kael.Approval.Moves.{answers}
use open_kael.Prelude.{
  some, lookup, ◌≡◌, ℕ, zero, true, suc, refl, none, false, arith, ap, [], String,
}
use open_kael.Approval.Refinement.{then, now, send-ready, resolve-once, Step-Allowed}
use open_kael.Approval.{
  next, Reached, token_of, time_out, send, resolves, resolve, receive, prompt_posted, new_requester,
  is_posted, sends, times_out, begins, begin_request, at_start, Requester,
}
use open_kael.Approval.Local.{sends_to, settled, pending, decided, Allowed}

-- A way to print numbers: as many strokes.
abbrev strokes : ℕ → String
strokes zero = ""
strokes (suc n) = String.◌∷◌ "|" (strokes n)

strokes-distinct : (m n : ℕ) → strokes m ≡ strokes n → m ≡ n
strokes-distinct zero zero h = refl
strokes-distinct zero (suc n) h = cc
strokes-distinct (suc m) zero h = cc
strokes-distinct (suc m) (suc n) h = ap suc (strokes-distinct m n cc)

abbrev asked : Requester
asked = begin_request strokes new_requester

abbrev asked_twice : Requester
asked_twice = begin_request strokes (prompt_posted strokes 1 "m1" asked)

abbrev approved_first : Requester
approved_first = (resolve strokes (token_of strokes 1) true asked_twice).1

abbrev sent_first : Requester
sent_first = send strokes 1 true [] approved_first

asked-Reached : Reached strokes asked
asked-Reached = next at_start (begins (omega arith))

asked_twice-Reached : Reached strokes asked_twice
asked_twice-Reached = next (next asked-Reached (is_posted 1 "m1" refl)) (begins (omega arith))

approved_first-Reached : Reached strokes approved_first
approved_first-Reached = next asked_twice-Reached (resolves (token_of strokes 1) true)

answered_lem :
    (answers sent_first 1 ≡ decided true)
    × (answers sent_first 2 ≡ pending)
    × (answers (receive strokes 1 true sent_first) 1 ≡ settled true)
    × (answers (time_out strokes 1 "late" sent_first) 1 ≡ settled false)
unfolding lookup without_those sends_to
answered_lem = (refl, refl, refl, refl)

Step-Allowed_example : Allowed (some true) (answers asked_twice 1) (answers approved_first 1)
unfolding lookup without_those
Step-Allowed_example =
    Step-Allowed strokes strokes-distinct 1 asked_twice-Reached (resolves (token_of strokes 1) true)

send-ready_example : (approved_first.requests 1).channel ≡ none
unfolding lookup without_those
send-ready_example = send-ready strokes strokes-distinct [] 1 true [] approved_first-Reached refl

-- Once its answer is there, the request times out, and the token is resolved again.
resolve-once_example :
    (answers asked_twice 1 ≡ pending)
    × (answers approved_first 1 ≡ decided true)
    × ((resolve strokes (token_of strokes 1) false (time_out strokes 1 "late" sent_first)).0
        ≡ false)
unfolding lookup without_those
resolve-once_example =
    resolve-once strokes strokes-distinct 1 true false asked_twice-Reached refl
      (then (then now (sends [] 1 true [] refl refl)) (times_out 1 "m1" "late" refl))
