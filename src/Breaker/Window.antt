-- ===== src/Breaker/Window.antt =====
-- A window of calls of src/adapter/circuit_breaker.rs and its verdict.
use alfavibe_hack.Prelude.{
  ℕ, suc, ◌+◌, ◌%◌, ◌^◌, ◌<◌, ◌≤◌, ◌≡◌, refl, ap, ◌∙◌, Bool, true, false, List, [], ◌∷◌, length,
  if◌then◌else◌, leb, arith,
}
use alfavibe_hack.Breaker.{CircuitBreaker, Settings, counted, opened, record_call}

-- The failures of a sequence of calls.
unfoldable pub failed_calls : List (ℕ × Bool) → ℕ
failed_calls [] = 0
failed_calls ((_, true) ∷ cs) = failed_calls cs
failed_calls ((_, false) ∷ cs) = suc (failed_calls cs)

-- The time of the last call.
unfoldable pub last_time : ℕ → List (ℕ × Bool) → ℕ
last_time t [] = t
last_time t ((now_ms, _) ∷ cs) = last_time now_ms cs

abbrev counting : Bool → CircuitBreaker → CircuitBreaker
counting success b = record {
  state = b.state;
  failures = counted success b.failures;
  total = b.total + 1;
  opened_at = b.opened_at;
}

module _ (cfg : Settings) where
  unfoldable pub run_calls : List (ℕ × Bool) → CircuitBreaker → CircuitBreaker
  run_calls [] b = b
  run_calls ((now_ms, success) ∷ cs) b = run_calls cs (record_call cfg now_ms success b)

  -- What a full window with that many failures leads to.
  unfoldable pub verdict : ℕ → ℕ → CircuitBreaker → CircuitBreaker
  verdict failures now_ms b =
      if cfg.ratio_reached failures cfg.window
      then opened now_ms
      else record { state = b.state; failures = 0; total = 0; opened_at = b.opened_at }

  module _ (small : cfg.window < 2 ^ 32) where
    record_call-counting :
        (now_ms : ℕ) (success : Bool) (b : CircuitBreaker)
        → b.total + 1 < cfg.window
        → record_call cfg now_ms success b ≡ counting success b
    unfolding record_call
    record_call-counting now_ms success b room =
        let w : cfg.window % 2 ^ 32 ≡ cfg.window = omega arith in
        let t : (b.total + 1) % 2 ^ 32 ≡ b.total + 1 = omega arith in
        let more : leb cfg.window (b.total + 1) ≡ false = ground arith in
        rw (record_call, w, t, more) refl

    record_call-verdict :
        (now_ms : ℕ) (success : Bool) (b : CircuitBreaker)
        → b.total + 1 ≡ cfg.window
        → record_call cfg now_ms success b ≡ verdict (counted success b.failures) now_ms b
    unfolding record_call verdict
    record_call-verdict now_ms success b full =
        let w : cfg.window % 2 ^ 32 ≡ cfg.window = omega arith in
        let t : (b.total + 1) % 2 ^ 32 ≡ cfg.window = omega arith in
        let all_ : leb cfg.window cfg.window ≡ true = ground arith in
        rw (record_call, w, t, all_) refl

    fails_so_far :
        (success : Bool) (now_ms : ℕ) (failures : ℕ) (cs : List (ℕ × Bool))
        → failures + 1 < 2 ^ 32
        → counted success failures + failed_calls cs
          ≡ failures + failed_calls ((now_ms, success) ∷ cs)
    unfolding failed_calls
    fails_so_far true now_ms failures cs h = refl
    fails_so_far false now_ms failures cs h =
        let e : (failures + 1) % 2 ^ 32 ≡ failures + 1 = omega arith in rw e (omega arith)

    counted_small :
        (success : Bool) (failures total : ℕ)
        → failures ≤ total
        → total + 1 < 2 ^ 32
        → counted success failures ≤ total + 1
    counted_small success failures total h s = ground arith

    -- A window of fewer than 2 ^ 32 calls is judged once, when its last call comes: with the failures
    -- of the whole window the breaker opens at the time of that call if the ratio is reached; if not,
    -- the counts are cleared and the state stays as it was.
    pub run_calls-verdict :
        (now_ms : ℕ) (success : Bool) (cs : List (ℕ × Bool)) (b : CircuitBreaker)
        → b.failures ≤ b.total
        → b.total + suc (length cs) ≡ cfg.window
        → run_calls ((now_ms, success) ∷ cs) b
          ≡ verdict (b.failures + failed_calls ((now_ms, success) ∷ cs)) (last_time now_ms cs) b
    unfolding run_calls last_time failed_calls verdict
    run_calls-verdict now_ms success [] b few full =
        record_call-verdict now_ms success b (omega arith)
        ∙ ap (λ n. verdict n now_ms b)
            (omega (arith, fails_so_far success now_ms b.failures [] (omega arith)))
    run_calls-verdict now_ms success ((t, s) ∷ cs) b few full =
        rw
          (
            record_call-counting now_ms success b (omega arith),
            ← fails_so_far success now_ms b.failures ((t, s) ∷ cs) (omega arith),
          )
          (run_calls-verdict t s cs (counting success b)
            (counted_small success b.failures b.total few (omega arith)) (omega arith))
