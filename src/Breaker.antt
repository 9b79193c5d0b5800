-- ===== src/Breaker.antt =====
-- src/adapter/circuit_breaker.rs: a breaker with a window of calls.
pub mod States
pub mod Window
use alfavibe_hack.Prelude.{
  ℕ, suc, ◌+◌, ◌-◌, ◌*◌, ◌%◌, ◌^◌, Bool, true, false, List, [], ◌∷◌, leb, if◌then◌else◌,
}

pub data CircuitState : Type 0 where
  closed open_ half_open : CircuitState

-- The settings. `ratio_reached failures total` stands for the test on floating-point numbers
-- `failures as f64 / total as f64 >= failure_ratio`.
pub record Settings : Type 0 where
  pub ratio_reached : ℕ → ℕ → Bool
  pub window : ℕ
  pub open_seconds : ℕ

-- The atomic cells: the first three are of 32 bits, the last of 64.
pub record CircuitBreaker : Type 0 where
  pub state : CircuitState
  pub failures : ℕ
  pub total : ℕ
  pub opened_at : ℕ

abbrev pub new : CircuitBreaker
new = record { state = CircuitState.closed; failures = 0; total = 0; opened_at = 0 }

abbrev pub half_opened : CircuitBreaker → CircuitBreaker
half_opened b = record {
  state = CircuitState.half_open;
  failures = b.failures;
  total = b.total;
  opened_at = b.opened_at;
}

abbrev pub opened : ℕ → CircuitBreaker
opened now_ms = record { state = CircuitState.open_; failures = 0; total = 0; opened_at = now_ms }

abbrev pub counted : Bool → ℕ → ℕ
counted true failures = failures
counted false failures = (failures + 1) % 2 ^ 32

module _ (cfg : Settings) where
  -- `allow` at the time `now_ms`: the answer, and the cells after it.
  unfoldable pub allow : ℕ → CircuitBreaker → Bool × CircuitBreaker
  allow now_ms b = elim b.state [
    | CircuitState.closed ↦ (true, b)
    | CircuitState.half_open ↦ (true, b)
    | CircuitState.open_ ↦
        if leb (cfg.open_seconds * 1000 % 2 ^ 64) (now_ms - b.opened_at)
        then (true, half_opened b)
        else (false, b)
  ]

  -- `record` at the time `now_ms`: a full window is judged and cleared.
  unfoldable pub record_call : ℕ → Bool → CircuitBreaker → CircuitBreaker
  record_call now_ms success b =
      let total = (b.total + 1) % 2 ^ 32 in
      let failures = counted success b.failures in
      if leb (cfg.window % 2 ^ 32) total
      then (if cfg.ratio_reached failures total
          then opened now_ms
          else record { state = b.state; failures = 0; total = 0; opened_at = b.opened_at })
      else record { state = b.state; failures = failures; total = total; opened_at = b.opened_at }
