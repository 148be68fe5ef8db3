-- ===== src/Lib.antt =====
-- open-kael: the core of a framework for agents that act for people. A model is called in a loop
-- and asks for actions; the platform runs them, keeps the rules that hold whatever the model says,
-- and only lets a reply claim what really happened.
--
-- The parts and the files that model them, by the paths of the repository:
--
-- Values: what Go calls `any` and `map[string]any` where it holds decoded JSON. The type of numbers
-- (float64) is a parameter `F`; what the code does with floats is a record of operations.
-- Messages, Schema: domain/message.go, domain/llm.go, domain/schema.go.
-- Outcome: domain/outcome.go. `OutcomeOf` is `outcome_of`, `Satisfied` is `satisfied`, the check of
-- a call of finish is `finish_check`, and what may be said instead is `nothing_changed_message`.
-- Steps: domain/steps.go's `StepStateOf`.
-- Loop: domain/loop.go. `Run` is `Loop.Run.run`: one model call and its action calls are `step`,
-- the `for` loop is `steps`, the body for one action call is `run_call` (Loop/Calls), the call of
-- finish is `finish_call` (Loop/Flow), `wrapUp` is `wrap_up`, `answerOpenCalls` is in
-- Loop/OpenCalls, `callLLM` with its retries and its circuit breaker in Loop/Providers. Go's
-- variables are the fields of `State`; its early returns are constructors of `Flow`, `Step` and
-- `Ending`.
-- Gates: domain/prerequisite.go and the gate of domain/tool_rule.go: functions that stand around
-- an action and may refuse a call. A run's journal is part of the context that they pass on.
-- Gates/Saved and Gates/SavedRules are the checks of a creator's prerequisites and rules as they are
-- saved (`NormalizePrerequisites`, `NormalizeRules`).
-- Gates/Shown is what the model is shown of the rules (`specWithRules`).
-- Tools: domain/tool.go, domain/tool_contract.go, domain/tool_interface.go: a stored tool.
-- Hydrate: domain/hydrate.go, domain/prepare.go, domain/executor.go, domain/timezone.go: `BindTool` is
-- `Hydrate.Bind.bind_tool`, and what it runs is `invoke_of`, all the gates in their order around the
-- executor; Hydrate/Approval and Hydrate/SignIn are the gates that ask a person, Hydrate/Prompt is
-- `RenderApprovalPrompt`. `HydrateSkillTools` is Hydrate/Skills and Hydrate/Skills/Waits. What a turn's
-- context holds is the record `Turn`, and what the guards of a reply remember is part of the state: each
-- copy of a tool that is bound has a guard with a name of its own. Hydrate/Related goes through the gates
-- once for what holds of the call behind them; Hydrate/Service and Hydrate/OneShot use it.
-- Contract: domain/input_contract.go, the check of what a model sends against a schema.
-- Window: domain/window.go, what a model is given of the conversation so far.
-- ToolContract, Catalog: domain/tool_contract.go and domain/catalog.go, the list of what agents can use,
-- which `AddSource` and `RemoveSource` change.
-- Proposal: domain/proposal.go, the choices under a message and what their buttons carry.
-- Approval: runtime/approval.go, `MessengerApprovalRequester`: many calls of `RequestApproval` and `Resolve`
-- at once, as steps of a relation.
-- WakePlan: runtime/wake_plan.go, `PlanWake` with its two runs of the loop, whose abilities share a state
-- that stands beside the world (Loop/Beside).
-- Events: domain/event_contract.go and domain/event_summary.go, the checks of declared events
-- (`ValidateEvent`), of what a handler gives (`CheckPayload`), and the line that tells it (`RenderSummary`).
-- Peers: runtime/peer.go, which workers the hub takes to be connected, as steps of a relation.
-- Requirements: runtime/requirements.go, what is put back into the list of abilities that an agent is
-- offered (`keepNeeded`, whose loop runs over a list that grows).
-- Limiter: runtime/ratelimit.go, which refuses clients that keep failing.
--
-- How they interact: `run` judges each action's result by `outcome_of`, keeps the record, and holds
-- the call of finish to `finish_check` on those records. Gates wrap the function that a `BoundAction`
-- runs, with refusals that `outcome_of` judges not done; hydration is what wraps them around a stored
-- tool's executor. A function behind the rules may panic, and is `none` where it does.
--
-- Models, services, the clock, and Go's fmt, strconv, strings and encoding/json are parameters:
-- functions on a world `W`, and the records `Printing`, `Texts` and `Floats`. Nothing is assumed of
-- them but what a theorem names.
--
-- Fuel: a loop with a step limit runs that many steps. One without takes fuel; `run` is `none` where
-- it runs out, and the bound in Loop/Termination is enough whatever the models and services do. `keep_needed`
-- takes as much fuel as there are abilities in both lists, and one.
-- Counters are natural numbers: the loop's limits keep them small. Texts are sequences of code points.
--
-- Not modelled: logging, watchers that show a reply while it is written, streaming; the stores
-- (postgres), the HTTP server (api), encryption (crypto), the client of an outside service (jev),
-- the formats of messengers (chatformat), the registry of agents, and the host that
-- runs agents (the rest of runtime), which are calls of services and stores, goroutines and timers, or
-- are left out for size.
pub mod Prelude
pub mod Values
pub mod Outcome
pub mod Messages
pub mod Steps
pub mod Schema
pub mod Tools
pub mod Gates
pub mod Hydrate
pub mod Proposal
pub mod ToolContract
pub mod Catalog
pub mod Loop
pub mod Window
pub mod Limiter
pub mod Approval
pub mod WakePlan
pub mod Events
pub mod Peers
pub mod Requirements
pub mod Contract
