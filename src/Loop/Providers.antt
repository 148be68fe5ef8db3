-- ===== src/Loop/Providers.antt =====
-- domain/loop.go: `callLLM` and `callWithRetry`, the retries, the cooldown and the fallback from
-- one model to the next.
use open_kael.Prelude.{
  ℕ, zero, suc, ◌+◌, ◌*◌, String, Bool, true, false, not, ◌&&◌, Option, none, some, List, [], ◌∷◌,
  if◌then◌else◌, ltb, ◌==◌,
}
use open_kael.Prelude.Text.{◌<>◌}
use open_kael.Messages.{Message}
use open_kael.Outcome.{GoError, is_nil}
use open_kael.Loop.{ActionSpec, Reply, answered, failed, Clock, Provider}

abbrev pub llm_max_retries : ℕ
llm_max_retries = 3

abbrev pub llm_base_backoff : ℕ
llm_base_backoff = 1

abbrev pub llm_cooldown : ℕ
llm_cooldown = 60

-- `fmt.Errorf(prefix + "%w", err)`: the error that it wraps is still found in it.
abbrev pub wrap : String → GoError → GoError
wrap prefix e = record e { text = prefix <> e.text }

abbrev no_llm_configured : GoError
no_llm_configured = record { superseded = false; out_of_credit = false; text = "no LLM configured" }

module _ {F W : Type 0} (clock : Clock W) (messages : List (Message F))
    (specs : List ActionSpec) where
  -- The attempts of `callWithRetry`; `left` is how many may follow this one.
  unfoldable pub retry : Provider F W → ℕ → ℕ → W → Reply F × W
  retry provider zero backoff w = provider w messages specs
  retry provider (suc left) backoff w =
      let (reply, w') = provider w messages specs in
      elim reply [
        | answered resp ↦ (answered resp, w')
        | failed err ↦ elim err.out_of_credit [
          | true ↦ (failed err, w')
          | false ↦
              let (cut, w'') = clock.wait backoff w' in
              elim cut [
                | some why ↦ (failed why, w'')
                | none ↦ retry provider left (backoff * 2) w''
              ]
        ]
      ]

  unfoldable pub call_with_retry : Provider F W → W → Reply F × W
  call_with_retry provider w = retry provider 2 llm_base_backoff w

  -- `isDown`, `markDown` and `markUp` on the map of the loop.
  unfoldable pub is_down : (ℕ → ℕ) → ℕ → W → Bool
  is_down down_until i w = ltb (clock.now w) (down_until i)

  unfoldable pub mark_down : (ℕ → ℕ) → ℕ → W → ℕ → ℕ
  mark_down down_until i w j = if j == i then clock.now w + llm_cooldown else down_until j

  unfoldable pub mark_up : (ℕ → ℕ) → ℕ → ℕ → ℕ
  mark_up down_until i j = if j == i then 0 else down_until j

  -- What `callLLM` does with one provider's answer; `later` is the rest of its loop, which takes the
  -- last error, the breaker and the world.
  unfoldable pub after_provider :
      ℕ
      → (last : Bool) → (ℕ → ℕ)
      → Reply F × W
      → (Option GoError → (ℕ → ℕ) → W → Reply F × (ℕ → ℕ) × W)
      → Reply F × (ℕ → ℕ) × W
  after_provider i last down (answered resp, w) later = (answered resp, mark_up down i, w)
  after_provider i last down (failed err, w) later =
      later (some err) (if last then down else mark_down down i w) w

  -- The loop of `callLLM` from the provider at index `i`, with the last error so far.
  unfoldable pub call_from :
      ℕ → Option GoError → List (Provider F W) → (ℕ → ℕ) → W → Reply F × (ℕ → ℕ) × W
  call_from i none [] down w = (failed no_llm_configured, down, w)
  call_from i (some err) [] down w = (failed (wrap "all llm providers failed: " err), down, w)
  call_from i last_err (provider ∷ rest) down w =
      let later = call_from (i + 1) last_err rest down w in
      if not (is_nil rest) && is_down down i w
      then later
      else after_provider i (is_nil rest) down (call_with_retry provider w)
          (λ err down' w'. call_from (i + 1) err rest down' w')

  unfoldable pub call_llm : List (Provider F W) → (ℕ → ℕ) → W → Reply F × (ℕ → ℕ) × W
  call_llm llms down w = call_from 0 none llms down w
