-- ===== src/Outbox/Backoff.antt =====
-- collab-outbox.repository.ts, markCollabOutboxFailed: how long an event waits for its next attempt.
use crm_collab.Base.{
  ℕ, zero, suc, ◌*◌, ◌^◌, ◌≤◌, ◌<◌, ◌≡◌, refl, ap, inl, inr, some, arith, min, ltb, lt→ltb, ltb→lt,
  Bool-cases,
}
use crm_collab.Outbox.{retry_delay}

power_large : (k : ℕ) → 5 < k → 64 ≤ 2 ^ k
power_large zero lt = absurd (omega (arith, lt))
power_large (suc k) lt = elim (Bool-cases (ltb 5 k)) [
  | inl e ↦
      let ih = power_large k (ltb→lt 5 k e) in
      let double : 2 ^ suc k ≡ 2 * 2 ^ k = omega arith in omega (arith, ih, double)
  | inr e ↦ let five : k ≡ 5 = ground (arith, lt, e) in omega (arith, ap (λ n. 2 ^ suc n) five)
]

power_small : (k : ℕ) → k ≤ 5 → 2 ^ k ≤ 32
power_small zero le = omega arith
power_small (suc zero) le = omega arith
power_small (suc (suc zero)) le = omega arith
power_small (suc (suc (suc zero))) le = omega arith
power_small (suc (suc (suc (suc zero)))) le = omega arith
power_small (suc (suc (suc (suc (suc zero))))) le = omega arith
power_small (suc (suc (suc (suc (suc (suc k)))))) le = absurd (omega (arith, le))

-- The wait is five seconds at first, doubles with every failed attempt, and is five minutes from the
-- seventh attempt on, for every number of attempts at which the statement runs.
pub retry_delay_lem :
    (attempts : ℕ)
    → attempts < 1_024
    → (d : ℕ) × (retry_delay attempts ≡ some d)
      × ((attempts ≤ 5) → d ≡ 5_000 * 2 ^ attempts)
      × ((5 < attempts) → d ≡ 300_000)
unfolding retry_delay
retry_delay_lem attempts lt = (
  min 300 (2 ^ attempts * 5) * 1_000,
  rw (lt→ltb attempts 1_024 lt) refl,
  λ le. omega (arith, power_small attempts le),
  λ lt. omega (arith, power_large attempts lt),
)
