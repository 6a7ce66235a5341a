-- ===== src/RateLimit.antt =====
-- src/shared/middlewares/rate-limit.middleware.ts: how many writes a user may make of a route.
-- A bucket's key is a number. The counter of Redis is a parameter: `none` is a store that is absent
-- or fails, `some count` the number of calls of the window, this one included.
pub mod Window
use crm_collab.Base.{
  ℕ, suc, ◌+◌, ◌-◌, Bool, true, false, not, ◌&&◌, Option, none, some, List, [], ◌∷◌, ltb, leb, ◌==◌,
  if◌then◌else◌, select,
}
use crm_collab.Base.Table.{find_by}

pub record Limit : Type 0 where
  pub max_attempts : ℕ
  pub window_ms : ℕ

pub record RateRecord : Type 0 where
  pub key : ℕ
  pub count : ℕ
  pub reset_at : ℕ

-- `memoryAttempts` and `lastCleanup`. A key that is set again takes the place of its record.
pub record Memory : Type 0 where
  pub attempts : List RateRecord
  pub last_cleanup : ℕ

abbrev pub record_key : RateRecord → ℕ
record_key r = r.key

abbrev cleanup_interval_ms : ℕ
cleanup_interval_ms = 300_000

unfoldable pub cleanup_expired : ℕ → Memory → Memory
cleanup_expired now m =
    if ltb now (m.last_cleanup + cleanup_interval_ms)
    then m
    else record m { attempts = select (λ r. ltb now r.reset_at) m.attempts; last_cleanup = now }

-- `memoryAttempts.set(key, …)`
unfoldable pub set_attempts : RateRecord → List RateRecord → List RateRecord
set_attempts r rows = r ∷ select (λ x. not (x.key == r.key)) rows

-- Whether the call goes through; a refused one gets the status 429.
unfoldable pub check_memory_limit : ℕ → ℕ → Limit → Memory → Bool × Memory
unfolding cleanup_expired set_attempts find_by
check_memory_limit key now limit m =
    let m₁ = cleanup_expired now m in
    let fresh : RateRecord = record { key = key; count = 1; reset_at = now + limit.window_ms } in
    let restarted : Bool × Memory =
      (true, record m₁ { attempts = set_attempts fresh m₁.attempts }) in
    elim (find_by record_key key m₁.attempts) [
      | none ↦ restarted
      | some r ↦
          if ltb now r.reset_at
          then (if leb limit.max_attempts r.count then (false, m₁) else (
            true,
            record m₁ { attempts = set_attempts (record r { count = r.count + 1 }) m₁.attempts },
          ))
          else restarted
    ]

-- The answer of `checkRedisLimit`: refused, allowed, or not used.
unfoldable pub collab_write_rate_limit : Option ℕ → ℕ → ℕ → Limit → Memory → Bool × Memory
unfolding check_memory_limit
collab_write_rate_limit (some count) key now limit m = (not (ltb limit.max_attempts count), m)
collab_write_rate_limit none key now limit m = check_memory_limit key now limit m
