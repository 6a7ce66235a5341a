-- ===== src/Board/Sla/Drain.antt =====
-- jobs/check-approval-sla.ts: no overdue task waits forever, since a run takes as many of them as
-- its limit allows and none of those is overdue again.
use crm_collab.Base.{ℕ, Bool, List, select, take, has}
use crm_collab.Base.Table.{update_where}
use crm_collab.Board.Model.{Task, Db}
use crm_collab.Board.Sla.{is_timed_out}
use crm_collab.Board.Sla.Effect.{ids_of}

module _ (p : Task → Bool) (f : Task → Task) where
  abbrev chosen : ℕ → List Task → List ℕ
  chosen n xs = ids_of (take n (select p xs))

  -- The rows that are left over from `n` of those that pass.
  abbrev left_over : List ℕ → List Task → List Task
  left_over ids xs = select p (update_where (λ t. has ids t.id) f xs)

-- The tasks that the query finds.
abbrev pub overdue : ℕ → ℕ → Db → List Task
overdue hours now db = select (is_timed_out hours now db) db.tasks
