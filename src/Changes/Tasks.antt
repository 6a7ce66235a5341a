-- ===== src/Changes/Tasks.antt =====
-- change-request.service.ts: the task that a minor request is about.
use crm_collab.Base.{
  ℕ, ◌+◌, true, false, Option, none, some, List, [], ◌∷◌, ◌++◌, ◌==◌, find, select, if◌then◌else◌,
}
use crm_collab.Base.Text.{codes}
use crm_collab.Base.Int.{ltb_ℤ}
use crm_collab.Base.Sort.{sort_by}
use crm_collab.Base.Outcome.{Outcome, ok, ◌>>=◌, found}
use crm_collab.Base.Outcome.{bad_request}
use crm_collab.Access.{Actor}
use crm_collab.Board.Model.{Task, medium}
use crm_collab.Board.Columns.{TaskColumn}
use crm_collab.Changes.{ChangeDb}

abbrev created_at_of : Task → ℕ
created_at_of t = t.created_at

abbrev position_of : Task → ℕ
position_of t = t.position

-- `listTasksByProject` with the limit 1.
unfoldable pub first_task : ChangeDb → ℕ → Option Task
unfolding sort_by
first_task db project_id =
    find (λ t. true)
      (sort_by position_of
        (sort_by created_at_of (select (λ t. t.project_id == project_id) db.tasks)))

lowest : TaskColumn → List TaskColumn → TaskColumn
lowest c [] = c
lowest c (d ∷ cs) = lowest (if ltb_ℤ d.position c.position then d else c) cs

-- The first column of `listTaskColumnsByProject`.
first_of : List TaskColumn → Option TaskColumn
unfolding lowest
first_of [] = none
first_of (c ∷ cs) = some (lowest c cs)

unfoldable pub first_column : ChangeDb → ℕ → Option TaskColumn
unfolding first_of
first_column db project_id = first_of (select (λ c. c.project_id == project_id) db.columns)

unfoldable pub default_task : ℕ → ℕ → ℕ → ℕ → ℕ → Task
default_task id project_id column_id reporter now = record {
  id = id;
  project_id = project_id;
  column_id = column_id;
  title = codes "Tarea Automática para Ajuste";
  description = some (codes "Creada automáticamente para asociar la solicitud de cambio");
  priority = medium;
  assignee_sub = none;
  reporter_sub = reporter;
  deadline = none;
  checklist_progress = 0;
  blocked_by_task_id = none;
  block_reason = none;
  block_type = none;
  blocked_at = none;
  blocked_by_sub = none;
  client_approval_requested_at = none;
  is_client_visible = false;
  position = 0;
  completed_at = none;
  created_at = now;
  updated_at = now;
}

-- The task that a minor request is about: the one named, the first of the project, or a new one.
abbrev pub task_or_default : Option Task → Actor → ℕ → ℕ → ChangeDb → Outcome (ℕ × ChangeDb)
task_or_default (some t) actor project_id now db = ok (t.id, db)
task_or_default none actor project_id now db = do
  column ← found (first_column db project_id) bad_request
  ok (
    db.next_id,
    record db {
      tasks = db.tasks ++ default_task db.next_id project_id column.id actor.sub now ∷ [];
      next_id = db.next_id + 1;
    },
  )

unfoldable pub task_for : Option ℕ → Actor → ℕ → ℕ → ChangeDb → Outcome (ℕ × ChangeDb)
unfolding first_task first_column default_task
task_for (some id) actor project_id now db = ok (id, db)
task_for none actor project_id now db =
    task_or_default (first_task db project_id) actor project_id now db
