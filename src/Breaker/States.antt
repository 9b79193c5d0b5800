-- ===== src/Breaker/States.antt =====
-- The states that the calls of src/adapter/circuit_breaker.rs reach.
use alfavibe_hack.Prelude.{
  ℕ, ◌-◌, ◌*◌, ◌%◌, ◌^◌, ◌<◌, ◌≡◌, ◌≢◌, refl, Bool, false, List, [], ◌∷◌, All, arith,
}
use alfavibe_hack.Breaker.{CircuitBreaker, CircuitState, Settings, allow, record_call}

module _ (cfg : Settings) where
  -- One call, whatever the clock shows.
  pub data Step : CircuitBreaker → CircuitBreaker → Type 0 where
    asked : {b : CircuitBreaker} (now_ms : ℕ) → Step b (allow cfg now_ms b).1
    told :
        {b : CircuitBreaker} (now_ms : ℕ) (success : Bool)
        → Step b (record_call cfg now_ms success b)

  pub data Steps : CircuitBreaker → CircuitBreaker → Type 0 where
    stop : {b : CircuitBreaker} → Steps b b
    step : {a b c : CircuitBreaker} → Step a b → Steps b c → Steps a c

  allow-stays_open :
      (now_ms : ℕ) (b : CircuitBreaker)
      → b.state ≢ CircuitState.closed
      → (allow cfg now_ms b).1.state ≢ CircuitState.closed
  unfolding allow
  allow-stays_open now_ms b h = ground arith

  record_call-stays_open :
      (now_ms : ℕ) (success : Bool) (b : CircuitBreaker)
      → b.state ≢ CircuitState.closed
      → (record_call cfg now_ms success b).state ≢ CircuitState.closed
  unfolding record_call
  record_call-stays_open now_ms success b h = ground arith

  -- A breaker that has opened is never closed again: no call, however many have succeeded since,
  -- takes it back to the first state.
  pub Steps-stays_open :
      {a b : CircuitBreaker}
      → Steps a b
      → a.state ≢ CircuitState.closed
      → b.state ≢ CircuitState.closed
  Steps-stays_open stop h = h
  Steps-stays_open (step (asked {b} now_ms) more) h =
      Steps-stays_open more (allow-stays_open now_ms b h)
  Steps-stays_open (step (told {b} now_ms success) more) h =
      Steps-stays_open more (record_call-stays_open now_ms success b h)

  -- The answers to a sequence of requests at the given times.
  unfoldable pub answers : List ℕ → CircuitBreaker → List Bool
  answers [] b = []
  answers (now_ms ∷ times) b = let (ok, b') = allow cfg now_ms b in ok ∷ answers times b'

  allow-refused :
      (now_ms : ℕ) (b : CircuitBreaker)
      → b.state ≡ CircuitState.open_
      → now_ms - b.opened_at < cfg.open_seconds * 1000 % 2 ^ 64
      → allow cfg now_ms b ≡ (false, b)
  unfolding allow
  allow-refused now_ms b h early = ground arith

  -- An open breaker refuses every request of a sequence that comes before the pause is over.
  pub answers-refused :
      (times : List ℕ) (b : CircuitBreaker)
      → b.state ≡ CircuitState.open_
      → All (λ now_ms. now_ms - b.opened_at < cfg.open_seconds * 1000 % 2 ^ 64) times
      → All (λ ok. ok ≡ false) (answers times b)
  unfolding answers allow
  answers-refused [] b h early = tt
  answers-refused (now_ms ∷ times) b h (first, early) =
      rw (answers, allow-refused now_ms b h first) (refl, answers-refused times b h early)
