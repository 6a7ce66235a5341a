-- ===== src/Breaker/Cooldown.antt =====
-- src/shared/circuit-breaker.ts: when the breaker opens, and that it stays open for the cooldown.
use mathlib.Core.Path.{subst}
use crm_collab.Base.{
  ℕ, ◌+◌, ◌*◌, ◌≤◌, ◌<◌, ◌≡◌, ◌≢◌, ◌⊎◌, ◌↔◌, sym, true, false, List, [], ◌∷◌, ◌++◌, arith, ltb,
  select, length, All,
}
use crm_collab.Breaker.{
  closed, opened, half_open, Settings, Breaker, clean_old_metrics, exceeds_rate, transition_to,
  check_failure_rate, check_call, record_success, record_failure,
}

pub data Call : Type 0 where
  check success failure : Call

module _ (settings : Settings) where
  -- The breaker after a call of one of its methods.
  unfoldable pub after_call : Call → ℕ → Breaker → Breaker
  unfolding check_call record_success record_failure
  after_call check now b = (check_call settings now b).1
  after_call success now b = record_success settings now b
  after_call failure now b = record_failure settings now b

  unfoldable pub run : List (Call × ℕ) → Breaker → Breaker
  unfolding after_call
  run [] b = b
  run ((c, now) ∷ calls) b = run calls (after_call c now b)

  stays_open :
      (c : Call) (now : ℕ) (b : Breaker)
      → b.state ≡ opened
      → now < b.last_state_change + settings.cooldown_ms
      → ((after_call c now b).state ≡ opened)
        × ((after_call c now b).last_state_change ≡ b.last_state_change)
  unfolding after_call check_call record_success record_failure clean_old_metrics
  stays_open check now b is early = ground (arith, is, early)
  stays_open success now b is early = ground (arith, is)
  stays_open failure now b is early = ground (arith, is)

  -- An open breaker refuses every call until its cooldown has passed, whatever is recorded meanwhile.
  pub open_refuses :
      (calls : List (Call × ℕ)) (now : ℕ) (b : Breaker)
      → b.state ≡ opened
      → All (λ (c : Call × ℕ). c.1 < b.last_state_change + settings.cooldown_ms) calls
      → now < b.last_state_change + settings.cooldown_ms
      → ((check_call settings now (run calls b)).0 ≡ false) × ((run calls b).state ≡ opened)
  unfolding run check_call clean_old_metrics
  open_refuses [] now b is before early = ground (arith, is, early)
  open_refuses ((c, t) ∷ calls) now b is (first, before) early =
      let (still, since) = stays_open c t b is first in
      open_refuses calls now (after_call c t b) still
        (subst (λ s. All (λ (x : Call × ℕ). x.1 < s + settings.cooldown_ms) calls) (sym since)
          before)
        (subst (λ s. now < s + settings.cooldown_ms) (sym since) early)

  -- When a failure is recorded, a half-open breaker opens, and a closed one opens exactly when the
  -- calls of the window, this one included, are enough and the rate of failures among them reaches the
  -- threshold.
  pub record_failure-opens_iff :
      (now : ℕ) (b : Breaker)
      → b.state ≢ opened
      → let failures =
          length (select (λ t. ltb now (t + settings.window_ms)) (b.failures ++ now ∷ [])) in
        let total =
          failures + length (select (λ t. ltb now (t + settings.window_ms)) b.successes) in
        ((record_failure settings now b).state ≡ opened) ↔ (
          (b.state ≡ half_open)
          ⊎ ((b.state ≡ closed)
              × (settings.min_requests ≤ total)
              × (settings.rate_of * total ≤ failures * settings.rate_in)))
  unfolding record_failure check_failure_rate clean_old_metrics exceeds_rate transition_to
  record_failure-opens_iff now b shut = (λ e. ground (arith, e, shut), λ h. ground (arith, h, shut))

  -- After the cooldown the next call is let through; a success then closes the breaker and forgets
  -- what was recorded, and a failure opens it for another cooldown.
  pub probe :
      (now later : ℕ) (b : Breaker)
      → b.state ≡ opened
      → b.last_state_change + settings.cooldown_ms ≤ now
      → let (allowed, tried) = check_call settings now b in
        (allowed ≡ true)
        × (record_success settings later tried
            ≡ record { state = closed; failures = []; successes = []; last_state_change = later })
        × ((record_failure settings later tried).state ≡ opened)
        × ((record_failure settings later tried).last_state_change ≡ later)
  unfolding check_call record_success record_failure check_failure_rate clean_old_metrics
      transition_to
  probe now later b is over = ground (arith, is, over)
