-- ===== src/Outbox/Fate.antt =====
-- The outbox as one state machine: what becomes of an event under any sequence of statements, by any
-- number of workers.
use crm_collab.Base.{ℕ, ◌<◌, ◌≡◌, ◌≢◌, ◌⊎◌, Bool, ◌&&◌, Option, some, List, All, length}
use crm_collab.Base.Text.{Text}
use crm_collab.Base.Table.{find_by, update_where}
use crm_collab.Base.Lists.{}
use crm_collab.Prune.{cutoff, not_after}
use crm_collab.Outbox.{
  published, is_published, OutboxRow, Payload, Trace, outbox_id, create_collab_outbox_event,
  claim_pending_collab_outbox_events, mark_collab_outbox_published, mark_collab_outbox_failed,
  prune_published_collab_outbox,
}

-- One statement. A new event has an id that no row has.
pub data OutboxStep (rows : List OutboxRow) : List OutboxRow → Type 0 where
  created :
      (store : Option Trace) (event_type project_id : ℕ) (payload : Payload) (id now : ℕ)
      → All (λ r. r.id ≢ id) rows
      → OutboxStep rows (create_collab_outbox_event store event_type project_id payload id now rows)
  claims :
      (locked : ℕ → Bool) (limit token now timeout : ℕ)
      → OutboxStep rows (claim_pending_collab_outbox_events locked limit token now timeout rows).1
  publishes :
      (ids : List ℕ) (token now : ℕ)
      → OutboxStep rows (mark_collab_outbox_published ids token now rows).1
  fails :
      (id token : ℕ) (error : Text) (now : ℕ)
      → OutboxStep rows (mark_collab_outbox_failed id token error now rows).1
  prunes :
      (fuel retention_days now batch_size removed : ℕ) (rows' : List OutboxRow)
      → 0 < batch_size
      → length rows < fuel
      → prune_published_collab_outbox fuel retention_days now batch_size rows
        ≡ some (removed, rows')
      → OutboxStep rows rows'

pub data OutboxReaches (rows : List OutboxRow) : List OutboxRow → Type 0 where
  here : OutboxReaches rows rows
  later :
      (mid : List OutboxRow) {rows' : List OutboxRow}
      → OutboxReaches rows mid
      → OutboxStep mid rows'
      → OutboxReaches rows rows'

-- The statement claims, marks as published, or marks as failed.
data Update (rows rows' : List OutboxRow) : Type 0 where
  updated :
      (p : OutboxRow → Bool) (g : OutboxRow → OutboxRow)
      → rows' ≡ update_where p g rows
      → ((r : OutboxRow) → (g r).id ≡ r.id)
      → ((r : OutboxRow) → (g r).payload ≡ r.payload)
      → Update rows rows'
  nothing : rows' ≡ rows → Update rows rows'

abbrev at : ℕ → List OutboxRow → Option OutboxRow
at id rows = find_by outbox_id id rows

-- The event is still there, with the same payload.
abbrev pub Survives : ℕ → Payload → List OutboxRow → Type 0
Survives id payload rows =
    (r : OutboxRow) × (find_by outbox_id id rows ≡ some r) × (r.payload ≡ payload)

abbrev is_stale : ℕ → ℕ → OutboxRow → Bool
is_stale retention_days now r =
    is_published r.status && not_after r.published_at (cutoff now retention_days)

-- What may have become of an event.
abbrev pub Fate : ℕ → Payload → List OutboxRow → List OutboxRow → Type 0
Fate id payload rows rows' =
    Survives id payload rows'
    ⊎ ((mid : List OutboxRow) × OutboxReaches rows mid
        × ((r : OutboxRow) × (find_by outbox_id id mid ≡ some r)
            × (r.payload ≡ payload)
            × (r.status ≡ published)))
