-- ===== src/Limiter/Examples.antt =====
-- The limiter at concrete inputs.
use open_kael.Prelude.{◌+◌, List, [], ◌∷◌, ◌≡◌, String}
use open_kael.Limiter.{Limiter, new_failure_limiter, fails}
use open_kael.Limiter.Counting.{none_seen, recent, recent-fails, times_of}

abbrev fresh : Limiter
fresh = new_failure_limiter 2 60

abbrev burst : List String
burst = "10.0.0.1" ∷ "10.0.0.2" ∷ "10.0.0.1" ∷ []

recent-fails_example :
    recent 100 "10.0.0.1" (fails 100 burst fresh)
    ≡ recent 100 "10.0.0.1" fresh + times_of "10.0.0.1" burst
recent-fails_example = recent-fails 100 burst "10.0.0.1" fresh none_seen
