-- ===== src/Examples/Queues.antt =====
-- The theorems on the outbox, the deletion loop, the circuit breaker and the rate limit.
use crm_collab.Base.{
  ℕ, ◌≡◌, ◌⊎◌, ◌↔◌, ◌≤◌, ◌+◌, ◌*◌, refl, Bool, true, false, not, ◌&&◌, none, some, List, [], ◌∷◌,
  arith, has, All, length, select,
}
use crm_collab.Base.Table.{find_by}
use crm_collab.Base.Sort.{IsSorted}
use crm_collab.Prune.{Notification, prune_loop, not_after, instant_of}
use crm_collab.Prune.Complete.{prune_loop_complete}
use crm_collab.Outbox.{
  pending, processing, OutboxRow, Payload, claim_pending_collab_outbox_events, claim_candidates,
  is_claimable, ids_of_rows, mark_collab_outbox_published, mark_collab_outbox_failed, outbox_id,
}
use crm_collab.Outbox.Run.{Published, answered}
use crm_collab.Outbox.Lease.{stale_worker_marks_nothing}
use crm_collab.Outbox.Order.{claim_takes_oldest}
use crm_collab.Outbox.Fate.{Fate}
use crm_collab.Breaker.{
  closed, opened, half_open, Breaker, default_settings, check_call, record_failure,
}
use crm_collab.Breaker.Cooldown.{check, success, run, open_refuses, record_failure-opens_iff}
use crm_collab.RateLimit.{check_memory_limit, Limit, Memory}
use crm_collab.RateLimit.Window.{allowed_calls}

abbrev row : ℕ → ℕ → OutboxRow
row id created = record {
  id = id;
  event_type = 1;
  project_id = 7;
  payload = record { content = id ∷ []; trace_id = none; correlation_id = none };
  status = pending;
  attempts = 0;
  available_at = created;
  claim_token = none;
  claimed_at = none;
  published_at = none;
  last_error = none;
  created_at = created;
  updated_at = created;
}

abbrev rows : List OutboxRow
rows = row 2 20 ∷ row 1 10 ∷ row 3 30 ∷ []

abbrev free : ℕ → Bool
free id = false

abbrev first_claim : List OutboxRow × List OutboxRow
first_claim = claim_pending_collab_outbox_events free 2 5 100 60_000 rows

-- The first claim takes the two oldest, oldest first.
two_oldest : ids_of_rows first_claim.0 ≡ 1 ∷ 2 ∷ []
unfolding claim_pending_collab_outbox_events
two_oldest = refl

abbrev held_row : OutboxRow
held_row = record (row 1 10) { status = processing; claim_token = some 6; claimed_at = some 100 }

finds_held : find_by outbox_id 1 (held_row ∷ []) ≡ some held_row
unfolding find_by
finds_held = refl

stale_worker_marks_nothing_example :
    (find_by outbox_id 1 (mark_collab_outbox_published (1 ∷ []) 5 200 (held_row ∷ [])).1
      ≡ some held_row)
    × (find_by outbox_id 1 (mark_collab_outbox_failed 1 5 (69 ∷ []) 200 (held_row ∷ [])).1
        ≡ some held_row)
stale_worker_marks_nothing_example =
    stale_worker_marks_nothing (1 ∷ []) 1 1 5 6 200 (69 ∷ []) (held_row ∷ []) held_row finds_held
      refl (omega arith)

claim_takes_oldest_example :
    let picked = claim_candidates free 2 100 60_000 rows in
    (length picked ≤ 2)
    × IsSorted (λ (r : OutboxRow). r.created_at) picked
    × All
        (λ (c : OutboxRow).
          All
            (λ (r : OutboxRow).
              (is_claimable 100 60_000 r && not (free r.id)) ≡ true
              → (has (ids_of_rows picked) r.id ≡ true) ⊎ (c.created_at ≤ r.created_at))
            rows)
        picked
claim_takes_oldest_example = claim_takes_oldest free 2 100 60_000 rows

-- Redis takes the first event and refuses the second.
abbrev half : List Payload → Published
half payloads = answered (none ∷ some (69 ∷ []) ∷ [])

-- Event 1 is claimed and published, and pruned when it is old.
abbrev after_claim : List OutboxRow
after_claim = (claim_pending_collab_outbox_events free 1 5 100 60_000 rows).1

abbrev after_publish : List OutboxRow
after_publish = (mark_collab_outbox_published (1 ∷ []) 5 150 after_claim).1

abbrev seen : ℕ → ℕ → Notification
seen id t = record { id = id; is_seen = true; seen_at = some t }

abbrev is_old : Notification → Bool
is_old r = r.is_seen && not_after r.seen_at 15

abbrev notifications : List Notification
notifications = seen 1 10 ∷ seen 2 20 ∷ seen 3 11 ∷ []

prune_loop_complete_example :
    (total : ℕ) × (prune_loop
        (λ (r : Notification). r.id)
        (λ r. instant_of r.seen_at)
        is_old
        4
        1
        notifications
        0
      ≡ some (total, select (λ r. not (is_old r)) notifications))
    × (total + length (select (λ r. not (is_old r)) notifications) ≡ 0 + length notifications)
prune_loop_complete_example =
    prune_loop_complete (λ (r : Notification). r.id) (λ r. instant_of r.seen_at) is_old 4 1
      notifications 0 (omega arith) (omega arith) (omega arith)

abbrev open_breaker : Breaker
open_breaker = record {
  state = opened;
  failures = 900 ∷ [];
  successes = [];
  last_state_change = 1_000;
}

open_refuses_example :
    ((check_call default_settings 3_000
        (run default_settings ((success, 1_500) ∷ (check, 2_000) ∷ []) open_breaker)).0
      ≡ false)
    × ((run default_settings ((success, 1_500) ∷ (check, 2_000) ∷ []) open_breaker).state ≡ opened)
open_refuses_example =
    open_refuses default_settings ((success, 1_500) ∷ (check, 2_000) ∷ []) 3_000 open_breaker refl
      (omega arith) (omega arith)

abbrev busy_breaker : Breaker
busy_breaker = record {
  state = closed;
  failures = 900 ∷ 950 ∷ [];
  successes = 910 ∷ 920 ∷ [];
  last_state_change = 0;
}

record_failure-opens_iff_example :
    ((record_failure default_settings 1_000 busy_breaker).state ≡ opened)
    ↔ ((closed ≡ half_open) ⊎ ((closed ≡ closed) × (5 ≤ 3 + 2) × (1 * (3 + 2) ≤ 3 * 2)))
record_failure-opens_iff_example =
    record_failure-opens_iff default_settings 1_000 busy_breaker (λ e. cc)

abbrev two_a_minute : ℕ → Limit
two_a_minute key = record { max_attempts = 2; window_ms = 60_000 }

abbrev no_calls : Memory
no_calls = record { attempts = []; last_cleanup = 0 }

three_calls :
    allowed_calls two_a_minute 9 ((9, 100) ∷ (9, 200) ∷ (8, 250) ∷ (9, 300) ∷ []) no_calls ≡ 2
unfolding allowed_calls check_memory_limit
three_calls = refl
