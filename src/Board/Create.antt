-- ===== src/Board/Create.antt =====
-- board/board-task.service.ts, `createTask`.
use crm_collab.Base.{ℕ, ◌+◌, Bool, not, Option, none, some, List, [], ◌∷◌, ◌++◌, map, ◌==◌, select}
use crm_collab.Base.Text.{Text}
use crm_collab.Base.Outcome.{Outcome, ok, ◌>>=◌, ◌>>◌, require, found}
use crm_collab.Base.Outcome.{forbidden, bad_request}
use crm_collab.Access.{
  Actor, AccessRepo, can_move_tasks, assert_project_access, assert_worker_only_assignments,
  resolve_assignee_emails, AssigneeInput,
}
use crm_collab.Board.Model.{
  Column, Priority, Task, Db, BoardEvent, task_created, task_assigned, project_task_created,
  find_task_column_by_id, create_audit_log, upsert_task_assignees,
}
use crm_collab.Board.Progress.{Progress, resolve_task_progress_and_completion}
use crm_collab.Board.Subtasks.{SubtaskInput, upsert_subtasks}
use crm_collab.Board.Summary.{sync_project_summary}
use crm_collab.Board.Update.{first_assignee, completions_of, emit_all}

-- board.types.ts: an absent list of assignees or subtasks is handled as the empty one.
pub record CreateTaskInput : Type 0 where
  pub column_id : ℕ
  pub title : Text
  pub description : Option Text
  pub priority : Priority
  pub assignees : List AssigneeInput
  pub due_date : Option ℕ
  pub checklist_progress : ℕ
  pub blocked_by_task_id : Option ℕ
  pub client_visible : Bool
  pub position : ℕ
  pub subtasks : List SubtaskInput

unfoldable pub new_task : ℕ → Actor → ℕ → CreateTaskInput → Progress → ℕ → Task
new_task id actor project_id payload progress now = record {
  id = id;
  project_id = project_id;
  column_id = payload.column_id;
  title = payload.title;
  description = payload.description;
  priority = payload.priority;
  assignee_sub = first_assignee payload.assignees;
  reporter_sub = actor.sub;
  deadline = payload.due_date;
  checklist_progress = progress.calculated_progress;
  blocked_by_task_id = payload.blocked_by_task_id;
  block_reason = none;
  block_type = none;
  blocked_at = none;
  blocked_by_sub = none;
  client_approval_requested_at = none;
  is_client_visible = payload.client_visible;
  position = payload.position;
  completed_at = progress.completed_at;
  created_at = now;
  updated_at = now;
}

-- `if (payload.subtasks?.length) …`
unfoldable pub create_subtasks : ℕ → List SubtaskInput → Db → Outcome Db
create_subtasks id [] db = ok db
create_subtasks id (s ∷ rest) db = do
  (rows, next) ← upsert_subtasks id (s ∷ rest) db.subtasks db.next_id
  ok (record db { subtasks = rows; next_id = next })

unfoldable pub create_assignees :
    AccessRepo → (ℕ → Option ℕ) → ℕ → ℕ → List AssigneeInput → Db → Outcome Db
create_assignees repo profile_email id project_id [] db = ok db
create_assignees repo profile_email id project_id (a ∷ rest) db = do
  resolved ← resolve_assignee_emails repo profile_email project_id (a ∷ rest)
  ok (upsert_task_assignees id resolved db)

unfoldable pub create_events : ℕ → Actor → Column → CreateTaskInput → List BoardEvent
create_events id actor column payload =
    task_created id column.id column.key (map (λ a. a.user_sub) payload.assignees)
    ∷ map (λ a. task_assigned id a.user_sub)
        (select (λ a. not (a.user_sub == actor.sub)) payload.assignees)

module _ (repo : AccessRepo) (profile_email : ℕ → Option ℕ) where
  unfoldable pub commit_create :
      Actor → ℕ → CreateTaskInput → ℕ → Column → Progress → Db → Outcome (Task × Db)
  unfolding create_subtasks create_assignees create_events new_task
  commit_create actor project_id payload now column progress db = do
    let id = db.next_id
    let task = new_task id actor project_id payload progress now
    let db₁ = record db { tasks = db.tasks ++ task ∷ []; next_id = db.next_id + 1 }
    db₂ ← create_subtasks id payload.subtasks db₁
    db₃ ← create_assignees repo profile_email id project_id payload.assignees db₂
    let db₄ =
        create_audit_log actor.sub project_task_created id (sync_project_summary project_id db₃)
    ok (task, emit_all project_id actor.sub (create_events id actor column payload) db₄)

module _ (tie_up : ℕ → ℕ → Bool) (repo : AccessRepo) (profile_email : ℕ → Option ℕ) where
  unfoldable pub check_create : Db → Actor → ℕ → CreateTaskInput → ℕ → Outcome (Column × Progress)
  check_create db actor project_id payload now = do
    access ← assert_project_access repo actor project_id
    require (can_move_tasks actor.role (some access.member_role)) forbidden
    column ← found (find_task_column_by_id db payload.column_id) bad_request
    require (column.project_id == project_id) bad_request
    assert_worker_only_assignments repo project_id (map (λ a. a.user_sub) payload.assignees)
        (map (λ s. s.assignee_sub) payload.subtasks)
    progress ←
        resolve_task_progress_and_completion tie_up column.key (completions_of payload.subtasks)
          (some payload.checklist_progress) none now
    ok (column, progress)

  unfoldable pub create_task : Db → Actor → ℕ → CreateTaskInput → ℕ → Outcome (Task × Db)
  unfolding check_create commit_create
  create_task db actor project_id payload now = do
    (column, progress) ← check_create db actor project_id payload now
    commit_create repo profile_email actor project_id payload now column progress db
