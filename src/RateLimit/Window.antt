-- ===== src/RateLimit/Window.antt =====
-- rate-limit.middleware.ts: no window lets more calls through than its limit.
use crm_collab.Base.{ℕ, suc, ◌+◌, ◌<◌, ◌≡◌, true, ◌&&◌, some, List, [], ◌∷◌, ◌==◌, if◌then◌else◌}
use crm_collab.Base.Table.{find_by}
use crm_collab.RateLimit.{Limit, RateRecord, Memory, record_key, check_memory_limit}

-- The limit of each bucket; the middleware's routes fix it.
module _ (limit_of : ℕ → Limit) where
  after_call : ℕ → ℕ → Memory → Memory
  after_call k now m = (check_memory_limit k now (limit_of k) m).1

  -- A call of bucket `k` counts in the record of `key`, below the limit.
  abbrev Counts : ℕ → ℕ → Memory → RateRecord → ℕ → Type 0
  Counts key now m r k =
      let (allowed, after) = check_memory_limit k now (limit_of k) m in
      (find_by record_key key after.attempts
        ≡ some (if allowed then record r { count = r.count + 1 } else r))
      × ((allowed ≡ true) → r.count < (limit_of key).max_attempts)

  -- The calls of a bucket that are let through.
  unfoldable pub allowed_calls : ℕ → List (ℕ × ℕ) → Memory → ℕ
  unfolding after_call
  allowed_calls key [] m = 0
  allowed_calls key ((k, now) ∷ calls) m =
      let rest = allowed_calls key calls (after_call k now m) in
      if k == key && (check_memory_limit k now (limit_of k) m).0 then suc rest else rest
