-- ===== src/Outbox.antt =====
-- The outbox of events: collab-outbox.repository.ts, jobs/run-collab-outbox.ts and
-- jobs/prune-collab-outbox.ts. Instants are milliseconds, and a claim token is a number.
pub mod Run
pub mod Lease
pub mod Order
pub mod Marks
pub mod Fate
pub mod Backoff
use crm_collab.Base.{
  ℕ, zero, suc, ◌+◌, ◌*◌, ◌^◌, min, Bool, true, false, ◌&&◌, ◌||◌, Option, none, some, List, [],
  ◌∷◌, ◌++◌, map, ltb, leb, ◌==◌, if◌then◌else◌, select, take, has, length, is_just, or_else, find,
  not,
}
use crm_collab.Base.Text.{Text}
use crm_collab.Base.Table.{update_where}
use crm_collab.Base.Sort.{sort_by}
use crm_collab.Prune.{prune_loop, cutoff, not_after, instant_of}

pub data OutboxStatus : Type 0 where
  pending processing published failed : OutboxStatus

abbrev pub is_processing : OutboxStatus → Bool
is_processing processing = true
is_processing _ = false

abbrev pub is_published : OutboxStatus → Bool
is_published published = true
is_published _ = false

abbrev pub is_open : OutboxStatus → Bool
is_open pending = true
is_open failed = true
is_open _ = false

pub record Payload : Type 0 where
  pub content : Text
  pub trace_id : Option Text
  pub correlation_id : Option Text

-- The trace of the running request, if there is one.
pub record Trace : Type 0 where
  pub trace_id : Option Text
  pub correlation_id : Option Text

pub record OutboxRow : Type 0 where
  pub id : ℕ
  pub event_type : ℕ
  pub project_id : ℕ
  pub payload : Payload
  pub status : OutboxStatus
  pub attempts : ℕ
  pub available_at : ℕ
  pub claim_token : Option ℕ
  pub claimed_at : Option ℕ
  pub published_at : Option ℕ
  pub last_error : Option Text
  pub created_at : ℕ
  pub updated_at : ℕ

abbrev pub outbox_id : OutboxRow → ℕ
outbox_id r = r.id

abbrev traced : Option Trace → Payload → Payload
traced none p = p
traced (some t) p = record p {
  trace_id = or_else p.trace_id t.trace_id;
  correlation_id = or_else p.correlation_id t.correlation_id;
}

abbrev pub new_event : Option Trace → ℕ → ℕ → Payload → ℕ → ℕ → OutboxRow
new_event store event_type project_id payload id now = record {
  id = id;
  event_type = event_type;
  project_id = project_id;
  payload = traced store payload;
  status = pending;
  attempts = 0;
  available_at = now;
  claim_token = none;
  claimed_at = none;
  published_at = none;
  last_error = none;
  created_at = now;
  updated_at = now;
}

unfoldable pub create_collab_outbox_event :
    Option Trace → ℕ → ℕ → Payload → ℕ → ℕ → List OutboxRow → List OutboxRow
create_collab_outbox_event store event_type project_id payload id now rows =
    rows ++ new_event store event_type project_id payload id now ∷ []

-- A claim is over once its timeout has passed.
abbrev expired : ℕ → ℕ → Option ℕ → Bool
expired now timeout none = false
expired now timeout (some at) = leb (at + timeout) now

unfoldable pub is_claimable : ℕ → ℕ → OutboxRow → Bool
is_claimable now timeout r =
    (is_open r.status && leb r.available_at now)
    || (is_processing r.status && expired now timeout r.claimed_at)

abbrev pub claimed : ℕ → ℕ → OutboxRow → OutboxRow
claimed token now r = record r {
  status = processing;
  claim_token = some token;
  claimed_at = some now;
  updated_at = now;
}

-- `order by created_at limit n for update skip locked`; `locked` are the rows that others hold.
unfoldable pub claim_candidates : (ℕ → Bool) → ℕ → ℕ → ℕ → List OutboxRow → List OutboxRow
unfolding is_claimable sort_by
claim_candidates locked limit now timeout rows = take limit (
    sort_by (λ r. r.created_at)
      (select (λ r. is_claimable now timeout r && not (locked r.id)) rows))

abbrev pub ids_of_rows : List OutboxRow → List ℕ
ids_of_rows rows = map outbox_id rows

-- The rows returned, oldest first, and the table.
unfoldable pub claim_pending_collab_outbox_events :
    (ℕ → Bool) → ℕ → ℕ → ℕ → ℕ → List OutboxRow → List OutboxRow × List OutboxRow
unfolding claim_candidates update_where
claim_pending_collab_outbox_events locked limit token now timeout rows =
    let picked = claim_candidates locked limit now timeout rows in
    (
      map (claimed token now) picked,
      update_where (λ r. has (ids_of_rows picked) r.id) (claimed token now) rows,
    )

unfoldable pub count_pending_collab_outbox_events : ℕ → List OutboxRow → ℕ
count_pending_collab_outbox_events now rows =
    length
      (select (λ r. (is_open r.status && leb r.available_at now) || is_processing r.status) rows)

-- The row is being processed under this token.
unfoldable pub is_held : ℕ → OutboxRow → Bool
is_held token r = is_processing r.status && is_just r.claim_token token

abbrev pub as_published : ℕ → OutboxRow → OutboxRow
as_published now r = record r {
  status = published;
  published_at = some now;
  updated_at = now;
  last_error = none;
  claim_token = none;
  claimed_at = none;
}

-- The ids of the rows that were marked, and the table. No ids is no statement.
unfoldable pub mark_collab_outbox_published :
    List ℕ → ℕ → ℕ → List OutboxRow → List ℕ × List OutboxRow
unfolding is_held update_where
mark_collab_outbox_published [] token now rows = ([], rows)
mark_collab_outbox_published (i ∷ is) token now rows =
    let hit = λ (r : OutboxRow). has (i ∷ is) r.id && is_held token r in
    (ids_of_rows (select hit rows), update_where hit (as_published now) rows)

-- `LEAST(300, POWER(2, attempts) * 5)` seconds. PostgreSQL computes the power as a double: it fails
-- from 2^1024 on, and so does the statement.
unfoldable pub retry_delay : ℕ → Option ℕ
retry_delay attempts =
    if ltb attempts 1_024 then some (min 300 (2 ^ attempts * 5) * 1_000) else none

abbrev pub as_failed : Text → ℕ → ℕ → OutboxRow → OutboxRow
as_failed error now delay r = record r {
  status = failed;
  attempts = r.attempts + 1;
  available_at = now + delay;
  updated_at = now;
  last_error = some (take 1_000 error);
  claim_token = none;
  claimed_at = none;
}

-- Whether a row was marked; `none` if the statement fails, which then changes nothing.
unfoldable pub mark_collab_outbox_failed :
    ℕ → ℕ → Text → ℕ → List OutboxRow → Option Bool × List OutboxRow
unfolding is_held retry_delay update_where
mark_collab_outbox_failed id token error now rows =
    let hit = λ (r : OutboxRow). r.id == id && is_held token r in
    elim (find hit rows) [
      | none ↦ (some false, rows)
      | some r ↦ elim (retry_delay r.attempts) [
        | none ↦ (none, rows)
        | some delay ↦ (some true, update_where hit (as_failed error now delay) rows)
      ]
    ]

-- `retentionDays` is 7 and `batchSize` 500 unless the caller says otherwise.
unfoldable pub prune_published_collab_outbox :
    ℕ → ℕ → ℕ → ℕ → List OutboxRow → Option (ℕ × List OutboxRow)
unfolding prune_loop
prune_published_collab_outbox fuel retention_days now batch_size rows =
    prune_loop outbox_id (λ r. instant_of r.published_at)
      (λ r. is_published r.status && not_after r.published_at (cutoff now retention_days)) fuel
      batch_size rows 0
