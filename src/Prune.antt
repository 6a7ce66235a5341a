-- ===== src/Prune.antt =====
-- The jobs that delete old rows in batches: the loop that jobs/prune-collab-outbox.ts and
-- jobs/prune-notifications.ts share. A row that another transaction has locked is not modelled: the
-- query sees every row.
pub mod Rows
pub mod Complete
use crm_collab.Base.{
  ℕ, zero, suc, ◌+◌, ◌*◌, ◌-◌, Bool, true, false, not, ◌&&◌, Option, none, some, List, map, ltb,
  leb, if◌then◌else◌, select, take, has, length,
}
use crm_collab.Base.Sort.{sort_by}

module _ {ℓ} {A : Type ℓ} (key at : A → ℕ) (stale : A → Bool) where
  -- `where … order by … limit n`
  unfoldable pub candidates : ℕ → List A → List A
  unfolding sort_by
  candidates n rows = take n (sort_by at (select stale rows))

  -- `delete … using candidates where id = candidates.id`
  unfoldable pub without : List A → List A → List A
  without gone rows = select (λ r. not (has (map key gone) (key r))) rows

  -- `while (true) { …; if (batchCount < batchSize) break }`; each round but the last deletes a row.
  unfoldable pub prune_loop : ℕ → ℕ → List A → ℕ → Option (ℕ × List A)
  unfolding candidates without
  prune_loop zero n rows removed = none
  prune_loop (suc fuel) n rows removed =
      let gone = candidates n rows in
      let rest = prune_loop fuel n (without gone rows) (removed + length gone) in
      if ltb (length gone) n then some (removed + length gone, without gone rows) else rest

abbrev pub day_ms : ℕ
day_ms = 86_400_000

-- `cutoff.setUTCDate(cutoff.getUTCDate() - retentionDays)`: that many days earlier.
abbrev pub cutoff : ℕ → ℕ → ℕ
cutoff now retention_days = now - retention_days * day_ms

-- A notification of either table of prune-notifications.ts.
pub record Notification : Type 0 where
  pub id : ℕ
  pub is_seen : Bool
  pub seen_at : Option ℕ

abbrev pub instant_of : Option ℕ → ℕ
instant_of none = 0
instant_of (some t) = t

abbrev pub not_after : Option ℕ → ℕ → Bool
not_after none t = false
not_after (some s) t = leb s t

unfoldable pub prune_table_in_batches : ℕ → ℕ → List Notification → Option (ℕ × List Notification)
unfolding prune_loop
prune_table_in_batches fuel limit rows =
    prune_loop (λ r. r.id) (λ r. instant_of r.seen_at) (λ r. r.is_seen && not_after r.seen_at limit)
      fuel 1_000 rows 0

-- The sum of both counts, with both tables.
unfoldable pub prune_read_notifications :
    ℕ
    → ℕ
    → ℕ
    → List Notification
    → List Notification
    → Option (ℕ × List Notification × List Notification)
unfolding prune_table_in_batches
prune_read_notifications fuel retention_days now activities mentions =
    elim (prune_table_in_batches fuel (cutoff now retention_days) activities) [
      | none ↦ none
      | some a ↦ elim (prune_table_in_batches fuel (cutoff now retention_days) mentions) [
        | none ↦ none
        | some m ↦ some (a.0 + m.0, a.1, m.1)
      ]
    ]
