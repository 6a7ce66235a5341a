-- ===== src/Breaker.antt =====
-- src/shared/circuit-breaker.ts. Instants are milliseconds, `now` is `Date.now()`; the threshold rate
-- is the fraction `rate_of / rate_in`, and `rate >= thresholdRate` is compared without rounding.
pub mod Cooldown
use crm_collab.Base.{
  ℕ, ◌+◌, ◌*◌, Bool, true, false, ◌&&◌, List, [], ◌∷◌, ◌++◌, ltb, leb, if◌then◌else◌, select,
  length,
}

pub data BreakerState : Type 0 where
  closed opened half_open : BreakerState

pub record Settings : Type 0 where
  pub rate_of : ℕ
  pub rate_in : ℕ
  pub window_ms : ℕ
  pub cooldown_ms : ℕ
  pub min_requests : ℕ

-- `new SimpleCircuitBreaker()`
abbrev pub default_settings : Settings
default_settings = record {
  rate_of = 1;
  rate_in = 2;
  window_ms = 60_000;
  cooldown_ms = 10_000;
  min_requests = 5;
}

pub record Breaker : Type 0 where
  pub state : BreakerState
  pub failures : List ℕ
  pub successes : List ℕ
  pub last_state_change : ℕ

abbrev pub new_breaker : ℕ → Breaker
new_breaker now = record { state = closed; failures = []; successes = []; last_state_change = now }

unfoldable pub transition_to : BreakerState → ℕ → Breaker → Breaker
transition_to state now b = record b { state = state; last_state_change = now }

module _ (settings : Settings) where
  -- `t > now - windowMs`
  unfoldable pub clean_old_metrics : ℕ → Breaker → Breaker
  clean_old_metrics now b = record b {
    failures = select (λ t. ltb now (t + settings.window_ms)) b.failures;
    successes = select (λ t. ltb now (t + settings.window_ms)) b.successes;
  }

  -- Whether enough of the recent calls have failed.
  unfoldable pub exceeds_rate : Breaker → Bool
  exceeds_rate b =
      let total = length b.failures + length b.successes in
      leb settings.min_requests total
      && leb (settings.rate_of * total) (length b.failures * settings.rate_in)

  unfoldable pub check_failure_rate : ℕ → Breaker → Breaker
  unfolding clean_old_metrics exceeds_rate transition_to
  check_failure_rate now b =
      let cleaned = clean_old_metrics now b in
      elim cleaned.state [
        | half_open ↦ transition_to opened now cleaned
        | closed ↦ if exceeds_rate cleaned then transition_to opened now cleaned else cleaned
        | opened ↦ cleaned
      ]

  -- Whether the call may be made, and the breaker.
  unfoldable pub check_call : ℕ → Breaker → Bool × Breaker
  unfolding clean_old_metrics transition_to
  check_call now b =
      let cleaned = clean_old_metrics now b in
      elim cleaned.state [
        | opened ↦
            if leb (cleaned.last_state_change + settings.cooldown_ms) now
            then (true, transition_to half_open now cleaned)
            else (false, cleaned)
        | closed ↦ (true, cleaned)
        | half_open ↦ (true, cleaned)
      ]

  unfoldable pub record_success : ℕ → Breaker → Breaker
  unfolding transition_to
  record_success now b = elim b.state [
    | half_open ↦ record (transition_to closed now b) { failures = []; successes = [] }
    | closed ↦ record b { successes = b.successes ++ now ∷ [] }
    | opened ↦ b
  ]

  unfoldable pub record_failure : ℕ → Breaker → Breaker
  unfolding check_failure_rate
  record_failure now b = elim b.state [
    | half_open ↦ check_failure_rate now (record b { failures = b.failures ++ now ∷ [] })
    | closed ↦ check_failure_rate now (record b { failures = b.failures ++ now ∷ [] })
    | opened ↦ b
  ]
