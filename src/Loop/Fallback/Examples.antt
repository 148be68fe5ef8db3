-- ===== src/Loop/Fallback/Examples.antt =====
-- Concrete models: the world counts how often one was asked.
use open_kael.Prelude.{ℕ, ◌+◌, ◌==◌, if◌then◌else◌, arith, true, false, none, [], ◌∷◌}
use open_kael.Outcome.{GoError}
use open_kael.Loop.{answered, failed, Clock, Provider}
use open_kael.Loop.Providers.{is_down, call_llm}
use open_kael.Loop.Fallback.{IsAnswered, gave, up, further, call_llm-IsAnswered}

abbrev clock : Clock ℕ
clock = record { now = λ w. w; wait = λ n w. (none, w) }

abbrev talkative : Provider ℕ ℕ
talkative w msgs specs = (answered (record { content = "hello"; tool_calls = [] }), w + 1)

abbrev no_credit : GoError
no_credit = record { superseded = false; out_of_credit = true; text = "no credit" }

abbrev broke : Provider ℕ ℕ
broke w msgs specs = (failed no_credit, w + 1)

-- The first model is out of credit, the second rests, the third is not marked down, the fourth fails.
call_llm-IsAnswered_example :
    IsAnswered
      (call_llm clock [] []
        (broke ∷ broke ∷ talkative ∷ broke ∷ [])
        (λ i. if i == 1 then 100 else 0)
        7).0
unfolding is_down
call_llm-IsAnswered_example =
    call_llm-IsAnswered clock [] [] talkative (broke ∷ broke ∷ talkative ∷ broke ∷ [])
      (λ i. if i == 1 then 100 else 0) 7 (further (further (up (λ w. ground arith)))) (λ w. gave)
