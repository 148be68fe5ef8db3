-- ===== src/Loop/Fallback.antt =====
-- domain/loop.go: what the retries and the fallback between models come to.
mod Examples
use mathlib.Core.List.{Memᴰ}
use open_kael.Prelude.{
  ℕ, zero, suc, ◌+◌, ◌*◌, ◌≤◌, ◌<◌, Bool, true, false, not, ◌&&◌, Option, none, some, List, [], ◌∷◌,
  ◌≡◌, refl, arith, if◌then◌else◌, if_rule, ltb,
}
use open_kael.Messages.{Message}
use open_kael.Outcome.{GoError, is_nil}
use open_kael.Loop.{ActionSpec, Reply, answered, failed, Clock, Provider}
use open_kael.Loop.Providers.{
  retry, call_with_retry, is_down, after_provider, call_from, call_llm, llm_base_backoff, mark_down,
}

-- A reply that a model gave.
pub data IsAnswered {F : Type 0} : Reply F → Type 0 where
  gave : {resp : open_kael.Messages.LlmResponse F} → IsAnswered (answered resp)

answered_by :
    {F : Type 0} {r : Reply F}
    → IsAnswered r
    → (resp : open_kael.Messages.LlmResponse F) × (r ≡ answered resp)
answered_by (gave {resp}) = (resp, refl)

module _ {F W : Type 0} (clock : Clock W) (messages : List (Message F))
    (specs : List ActionSpec) where
  -- A model that answers whatever the world is.
  abbrev pub Answers : Provider F W → Type 0
  Answers provider = (w : W) → IsAnswered (provider w messages specs).0

  retry-IsAnswered :
      (provider : Provider F W) (left backoff : ℕ) (w : W)
      → Answers provider
      → IsAnswered (retry clock messages specs provider left backoff w).0
  unfolding retry
  retry-IsAnswered provider zero backoff w h = h w
  retry-IsAnswered provider (suc left) backoff w h =
      let (resp, e) = answered_by (h w) in rw (e, retry) gave

  after_provider-gave :
      (i : ℕ) (last : Bool) (down : ℕ → ℕ) (r : Reply F × W)
      (go_on : Option GoError → (ℕ → ℕ) → W → Reply F × (ℕ → ℕ) × W)
      → IsAnswered r.0
      → IsAnswered (after_provider clock messages specs i last down r go_on).0
  unfolding after_provider
  after_provider-gave i last down (answered resp, w) go_on h = gave
  after_provider-gave i last down (failed err, w) go_on h = elim h [ ]

  -- A model among those from an index on that is not skipped: it is the last, or at no time marked
  -- down.
  pub data IsAsked (p : Provider F W) (down : ℕ → ℕ) : ℕ → List (Provider F W) → Type 0 where
    last_one : {i : ℕ} → IsAsked p down i (p ∷ [])
    up :
        {i : ℕ} {ps : List (Provider F W)}
        → ((w : W) → is_down clock messages specs down i w ≡ false)
        → IsAsked p down i (p ∷ ps)
    further :
        {i : ℕ} {q : Provider F W} {ps : List (Provider F W)}
        → IsAsked p down (i + 1) ps
        → IsAsked p down i (q ∷ ps)

  mark_down-other :
      (down : ℕ → ℕ) (j i : ℕ) (w v : W)
      → j < i
      → is_down clock messages specs (mark_down clock messages specs down j w) i v
        ≡ is_down clock messages specs down i v
  unfolding is_down mark_down
  mark_down-other down j i w v h = ground arith

  marked-IsAsked :
      {p : Provider F W} {down : ℕ → ℕ} {i : ℕ} {ps : List (Provider F W)} (j : ℕ) (w : W)
      → j < i
      → IsAsked p down i ps
      → IsAsked p (mark_down clock messages specs down j w) i ps
  marked-IsAsked j w h last_one = last_one
  marked-IsAsked {down = down} {i = i} j w h (up u) =
      up (λ v. rw (mark_down-other down j i w v h) (u v))
  marked-IsAsked j w h (further a) = further (marked-IsAsked j w (omega arith) a)

  -- What follows the failure of a model that is not the last.
  after_provider-later :
      (i : ℕ) (down : ℕ → ℕ) (r : Reply F × W)
      (go_on : Option GoError → (ℕ → ℕ) → W → Reply F × (ℕ → ℕ) × W)
      → ((err : Option GoError) (v w : W)
          → IsAnswered (go_on err (mark_down clock messages specs down i v) w).0)
      → IsAnswered (after_provider clock messages specs i false down r go_on).0
  unfolding after_provider
  after_provider-later i down (answered resp, w) go_on h = gave
  after_provider-later i down (failed err, w) go_on h = h (some err) w w

  call_from-IsAnswered :
      (provider : Provider F W) (llms : List (Provider F W)) (i : ℕ) (err : Option GoError)
      (down : ℕ → ℕ) (w : W)
      → IsAsked provider down i llms
      → Answers provider
      → IsAnswered (call_from clock messages specs i err llms down w).0
  unfolding call_from call_with_retry
  call_from-IsAnswered provider [] i err down w m h = elim m [ ]
  call_from-IsAnswered provider (p ∷ llms) i err down w last_one h =
      after_provider-gave i true down (call_with_retry clock messages specs p w) _
        (retry-IsAnswered p 2 llm_base_backoff w h)
  call_from-IsAnswered provider (p ∷ llms) i err down w (up u) h =
      let asked : (not (is_nil llms) && false) ≡ false = ground arith in
      rw (u w, asked)
        (after_provider-gave i (is_nil llms) down (call_with_retry clock messages specs p w) _
          (retry-IsAnswered p 2 llm_base_backoff w h))
  call_from-IsAnswered provider (p ∷ []) i err down w (further m) h = elim m [ ]
  call_from-IsAnswered provider (p ∷ q ∷ llms) i err down w (further m) h =
      let skipped = call_from clock messages specs (i + 1) err (q ∷ llms) down w in
      let asked =
        after_provider clock messages specs i false down (call_with_retry clock messages specs p w)
          (λ err' down' w'. call_from clock messages specs (i + 1) err' (q ∷ llms) down' w') in
      if_rule (λ (r : Reply F × (ℕ → ℕ) × W). IsAnswered r.0)
        (is_down clock messages specs down i w) {x = skipped} {y = asked}
        (λ rested. call_from-IsAnswered provider (q ∷ llms) (i + 1) err down w m h)
        (λ healthy.
          after_provider-later i down (call_with_retry clock messages specs p w) _ (λ err' v w'.
            call_from-IsAnswered provider (q ∷ llms) (i + 1) err' _ w'
              (marked-IsAsked i v (omega arith) m) h))

  -- Where some model that answers in every world is the last, or is not marked down, a reply is
  -- answered, whatever the models before it do and whatever the circuit breaker says of the others.
  pub call_llm-IsAnswered :
      (provider : Provider F W) (llms : List (Provider F W)) (down : ℕ → ℕ) (w : W)
      → IsAsked provider down 0 llms
      → Answers provider
      → IsAnswered (call_llm clock messages specs llms down w).0
  unfolding call_llm
  call_llm-IsAnswered provider llms down w m h =
      call_from-IsAnswered provider llms 0 none down w m h

  -- A model that says its account is out of credit is not asked again: its first reply is the reply.
  call_with_retry-out_of_credit :
      (provider : Provider F W) (w : W) (err : GoError)
      → (provider w messages specs).0 ≡ failed err
      → err.out_of_credit ≡ true
      → call_with_retry clock messages specs provider w
        ≡ (failed err, (provider w messages specs).1)
  unfolding call_with_retry retry
  call_with_retry-out_of_credit provider w err e h = rw (e, retry) (ground arith)

  retry-count_le :
      (count : W → ℕ) (provider : Provider F W) (left backoff : ℕ) (w : W)
      → ((v : W) → count (provider v messages specs).1 ≤ count v + 1)
      → ((n : ℕ) (v : W) → count (clock.wait n v).1 ≤ count v)
      → count (retry clock messages specs provider left backoff w).1 ≤ count w + (left + 1)
  unfolding retry
  retry-count_le count provider zero backoff w hp hc = ground (arith, hp w)
  retry-count_le count provider (suc left) backoff w hp hc =
      let asked = (provider w messages specs).1 in
      let waited = (clock.wait backoff asked).1 in
      ground (
        arith,
        hp w,
        hc backoff asked,
        retry-count_le count provider left (backoff * 2) waited hp hc,
      )

  -- A model is asked at most three times for one reply, by any measure that each asking raises by one
  -- at most and a wait does not raise.
  call_with_retry-count_le :
      (count : W → ℕ) (provider : Provider F W) (w : W)
      → ((v : W) → count (provider v messages specs).1 ≤ count v + 1)
      → ((n : ℕ) (v : W) → count (clock.wait n v).1 ≤ count v)
      → count (call_with_retry clock messages specs provider w).1 ≤ count w + 3
  unfolding call_with_retry
  call_with_retry-count_le count provider w hp hc =
      ground (arith, retry-count_le count provider 2 llm_base_backoff w hp hc)
