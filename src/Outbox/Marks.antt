-- ===== src/Outbox/Marks.antt =====
-- jobs/run-collab-outbox.ts: a run leaves no event claimed.
use crm_collab.Base.{ℕ, ◌<◌, ◌≡◌, Bool, true, false, Option, List, map, All}
use crm_collab.Base.Text.{Text}
use crm_collab.Outbox.{OutboxRow, is_held}

module _ (token : ℕ) where
  -- The rows that the token holds pass a test of their ids, and have attempts left.
  abbrev HeldWithin : (ℕ → Bool) → List OutboxRow → Type 0
  HeldWithin s rows =
      All (λ r. is_held token r ≡ true → (s r.id ≡ true) × (r.attempts < 1_024)) rows

  abbrev NoneHeld : List OutboxRow → Type 0
  NoneHeld rows = All (λ r. is_held token r ≡ false) rows

  abbrev ids_of_results : List (ℕ × Option Text) → List ℕ
  ids_of_results results = map (λ (x : ℕ × Option Text). x.0) results
