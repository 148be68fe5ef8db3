-- ===== src/Loop/Beside.antt =====
-- domain/loop.go: the loop on a world with something beside it, of which its models and its clock know
-- nothing.
use open_kael.Loop.{Reply}
use open_kael.Loop.Providers.{retry, is_down, call_with_retry, call_from, after_provider}
use open_kael.Messages.{Message}
use open_kael.Outcome.{is_nil, GoError}
use open_kael.Loop.{failed, answered, Provider, Clock, ActionSpec}
use open_kael.Prelude.{
  ◌≡◌, ◌∷◌, ◌∙◌, ℕ, zero, suc, some, refl, not, none, map, if_rule, arith, [], Option, List, Bool,
  ◌+◌, ◌*◌, ◌&&◌,
}

abbrev pub beside_clock : {W E : Type 0} → Clock W → Clock (W × E)
beside_clock clock = record {
  now = λ (w, e). clock.now w;
  wait = λ n (w, e). let (cut, w') = clock.wait n w in (cut, (w', e));
}

abbrev pub beside_provider : {F W E : Type 0} → Provider F W → Provider F (W × E)
beside_provider p (w, e) msgs specs = let (reply, w') = p w msgs specs in (reply, (w', e))

module _ {F W E : Type 0} (clock : Clock W) (messages : List (Message F))
    (specs : List ActionSpec) where
  -- Asking a model leaves what stands beside the world.
  retry-beside :
      (p : Provider F W) (left backoff : ℕ) (w : W × E)
      → (retry (beside_clock clock) messages specs (beside_provider p) left backoff w).1.1 ≡ w.1
  unfolding retry
  retry-beside p zero backoff w = refl
  retry-beside p (suc left) backoff w =
      let (reply, w') = p w.0 messages specs in
      ground (arith, retry-beside p left (backoff * 2) ((clock.wait backoff w').1, w.1))

  after_provider-beside :
      (i : ℕ) (last : Bool) (down : ℕ → ℕ) (got : Reply F × (W × E))
      (later : Option GoError → (ℕ → ℕ) → (W × E) → Reply F × (ℕ → ℕ) × (W × E))
      → ((err : Option GoError) (d : ℕ → ℕ) (w : W × E) → (later err d w).2.1 ≡ w.1)
      → (after_provider (beside_clock clock) messages specs i last down got later).2.1 ≡ got.1.1
  unfolding after_provider
  after_provider-beside i last down (answered resp, w) later h = refl
  after_provider-beside i last down (failed err, w) later h = h (some err) _ w

  -- The models from index `i` on.
  pub call_from-beside :
      (i : ℕ) (last_err : Option GoError) (llms : List (Provider F W)) (down : ℕ → ℕ) (w : W × E)
      → (call_from
          (beside_clock clock)
          messages
          specs
          i
          last_err
          (map beside_provider llms)
          down
          w).2.1
        ≡ w.1
  unfolding call_from call_with_retry
  call_from-beside i none [] down w = refl
  call_from-beside i (some err) [] down w = refl
  call_from-beside i last_err (p ∷ llms) down w =
      if_rule (λ (r : Reply F × (ℕ → ℕ) × (W × E)). r.2.1 ≡ w.1)
        (not (is_nil (map beside_provider llms))
          && is_down (beside_clock clock) messages specs down i w)
        (λ _. call_from-beside (i + 1) last_err llms down w)
        (λ _.
          after_provider-beside i _ down _ _ (λ err d v. call_from-beside (i + 1) err llms d v)
          ∙ retry-beside p 2 1 w)
