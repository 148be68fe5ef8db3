-- ===== src/Loop/History/Answered.antt =====
-- domain/loop.go: every call of a model's answer gets its own answer at once, in order.
use open_kael.Prelude.{String, true, ◌≡◌, List, []}
use open_kael.Outcome.{GoError}
use open_kael.Loop.{LoopResult, Config, State}
use open_kael.Loop.Flow.{Flow}
use open_kael.Loop.Run.{Step, again, ended, wrap_up, wrap_up_messages, returned, llm_failed}
use open_kael.Loop.History.Heard.{all_heard}
use open_kael.Loop.History.{Leaves}

-- What a step leaves: no call open where another step follows; and where the reply is wrapped up, at
-- most calls of the last answer, each of which is answered by its id before the models are asked.
pub data StepLeaves {F W : Type 0} (c : Config F W) : Step F W → Type 0 where
  goes_again : {s : State F W} → Leaves [] s.messages → StepLeaves c (again s)
  wraps_up :
      (pending : List String) (reason : String) (s : State F W)
      → Leaves pending s.messages
      → all_heard (wrap_up_messages c s) ≡ true
      → StepLeaves c (ended (wrap_up c reason s))
  hands_back : {r : LoopResult F} {s : State F W} → StepLeaves c (ended (returned r s))
  fails : {e : GoError} {s : State F W} → StepLeaves c (ended (llm_failed e s))
