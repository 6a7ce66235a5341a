-- ===== src/Board/Sla.antt =====
-- src/jobs/check-approval-sla.ts: tasks that wait too long for the client are blocked.
-- Instants are milliseconds. The event of a task is written outside the transaction; `emits` says
-- for which tasks that write succeeds.
pub mod Effect
pub mod Drain
use crm_collab.Base.{
  ℕ, ◌+◌, ◌*◌, Bool, true, false, ◌&&◌, none, some, List, [], ◌∷◌, map, leb, if◌then◌else◌, select,
  take, get_or, length, is_some, has,
}
use crm_collab.Base.Text.{Text, codes}
use crm_collab.Base.Table.{update_where}
use crm_collab.Access.{client_timeout}
use crm_collab.Board.Model.{
  client_approval, blocked, Task, Db, task_blocked, same_key, find_task_column_by_id,
  find_task_column_by_key, emit,
}

abbrev pub expired_reason : Text
expired_reason =
    codes "Tiempo de espera de aprobación del cliente expirado (48 horas sin respuesta)"

-- `coalesce(client_approval_requested_at, updated_at, created_at) <= now() - hours`
unfoldable pub waits_too_long : ℕ → ℕ → Task → Bool
waits_too_long hours now t =
    leb (get_or t.client_approval_requested_at t.updated_at + hours * 3_600_000) now

unfoldable pub in_approval : Db → Task → Bool
in_approval db t = elim (find_task_column_by_id db t.column_id) [
  | none ↦ false
  | some c ↦ same_key c.key client_approval
]

-- The `where` of the query: both joins have a row, and the wait is over.
unfoldable pub is_timed_out : ℕ → ℕ → Db → Task → Bool
unfolding waits_too_long in_approval
is_timed_out hours now db t =
    in_approval db t
    && is_some (find_task_column_by_key db t.project_id blocked)
    && waits_too_long hours now t

-- The columns of the row that the update sets.
unfoldable pub time_out : ℕ → Db → Task → Task
time_out now db t = elim (find_task_column_by_key db t.project_id blocked) [
  | none ↦ t
  | some c ↦ record t {
    column_id = c.id;
    block_reason = some expired_reason;
    block_type = some client_timeout;
    blocked_at = some now;
    blocked_by_sub = none;
    is_client_visible = true;
    updated_at = now;
  }
]

pub record SlaCheckResult : Type 0 where
  pub blocked_count : ℕ
  pub task_ids : List ℕ

unfoldable pub emit_timeouts : (ℕ → Bool) → List Task → Db → Db
emit_timeouts emits [] db = db
emit_timeouts emits (t ∷ ts) db =
    let db' =
      if emits t.id
      then emit t.project_id 0 (task_blocked t.id expired_reason client_timeout) db
      else db in
    emit_timeouts emits ts db'

unfoldable pub check_client_approval_sla : (ℕ → Bool) → ℕ → ℕ → Db → SlaCheckResult × Db
unfolding is_timed_out time_out emit_timeouts update_where
check_client_approval_sla emits hours now db =
    let rows = take 100 (select (is_timed_out hours now db) db.tasks) in
    let ids = map (λ t. t.id) rows in
    (
      record { blocked_count = length rows; task_ids = ids },
      emit_timeouts emits rows
          (record db { tasks = update_where (λ t. has ids t.id) (time_out now db) db.tasks }),
    )
