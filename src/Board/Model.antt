-- ===== src/Board/Model.antt =====
-- The board's rows and the statements that read and write them: board.types.ts, the task, column
-- and subtask tables of src/db/schema.ts, and board-task.repository.ts.
-- Ids, subs and instants are numbers; a new row takes its id from the counter `next_id`, which
-- stands for uuidv7. A database holds what one transaction sees.
use crm_collab.Base.{
  ℕ, Bool, true, false, ◌&&◌, not, Option, none, List, [], ◌∷◌, ◌++◌, map, ◌==◌, find, select,
  get_or,
}
use crm_collab.Base.Text.{Text}
use crm_collab.Base.Table.{find_by, update_by}
use crm_collab.Access.{BlockType}

-- The keys of domain/project-aggregate.ts, the legacy ones included.
pub data ColumnKey : Type 0 where
  pending doing internal_review client_approval blocked done : ColumnKey
  art_approved in_production quality_control shipped completed waiting_material on_hold : ColumnKey

pub data Priority : Type 0 where
  low medium high urgent : Priority

pub record Column : Type 0 where
  pub id : ℕ
  pub project_id : ℕ
  pub key : ColumnKey

pub record Subtask : Type 0 where
  pub id : ℕ
  pub task_id : ℕ
  pub title : Text
  pub is_completed : Bool
  pub assignee_sub : Option ℕ
  pub position : ℕ

pub record Task : Type 0 where
  pub id : ℕ
  pub project_id : ℕ
  pub column_id : ℕ
  pub title : Text
  pub description : Option Text
  pub priority : Priority
  pub assignee_sub : Option ℕ
  pub reporter_sub : ℕ
  pub deadline : Option ℕ
  pub checklist_progress : ℕ
  pub blocked_by_task_id : Option ℕ
  pub block_reason : Option Text
  pub block_type : Option BlockType
  pub blocked_at : Option ℕ
  pub blocked_by_sub : Option ℕ
  pub client_approval_requested_at : Option ℕ
  pub is_client_visible : Bool
  pub position : ℕ
  pub completed_at : Option ℕ
  pub created_at : ℕ
  pub updated_at : ℕ

pub record Assignee : Type 0 where
  pub task_id : ℕ
  pub user_sub : ℕ
  pub user_email : ℕ

-- `[Resolución de Bloqueo] …` is a flag beside the content that the prefix stands before.
pub record Comment : Type 0 where
  pub task_id : ℕ
  pub author_sub : ℕ
  pub author_email : ℕ
  pub is_resolution : Bool
  pub content : Text

pub data AuditAction : Type 0 where
  project_task_created project_task_updated project_task_blocked project_task_unblocked :
      AuditAction

pub record AuditLog : Type 0 where
  pub actor_sub : ℕ
  pub action : AuditAction
  pub resource_id : ℕ

-- The fields of `task.updated`'s `changes`.
pub data Change : Type 0 where
  title description priority due_date checklist_progress client_visible position : Change
  blocked_by_task_id subtasks_count assignees_count : Change

-- The events that the board emits, with the part of their data that names rows.
pub data BoardEvent : Type 0 where
  task_created : (task column : ℕ) (key : ColumnKey) (assignees : List ℕ) → BoardEvent
  task_assigned : (task assignee : ℕ) → BoardEvent
  task_moved : (task : ℕ) (from_key : Option ColumnKey) (to_key : ColumnKey) → BoardEvent
  task_blocked : (task : ℕ) (reason : Text) (type : BlockType) → BoardEvent
  task_unblocked : (task : ℕ) (target : ColumnKey) → BoardEvent
  task_updated : (task column : ℕ) (changes : List Change) → BoardEvent

-- A row of the outbox, as `collabEvents.emit` writes it.
pub record Emitted : Type 0 where
  pub project_id : ℕ
  pub actor_sub : ℕ
  pub event : BoardEvent

pub data ProjectStatus : Type 0 where
  todo in_progress in_review completed : ProjectStatus

pub record Summary : Type 0 where
  pub project_id : ℕ
  pub status : ProjectStatus
  pub progress_percent : ℕ

pub record Db : Type 0 where
  pub columns : List Column
  pub tasks : List Task
  pub subtasks : List Subtask
  pub assignees : List Assignee
  pub comments : List Comment
  pub audit : List AuditLog
  pub outbox : List Emitted
  pub summaries : List Summary
  pub next_id : ℕ

abbrev pub column_id : Column → ℕ
column_id c = c.id

abbrev pub task_id : Task → ℕ
task_id t = t.id

unfoldable pub same_key : ColumnKey → ColumnKey → Bool
same_key pending pending = true
same_key doing doing = true
same_key internal_review internal_review = true
same_key client_approval client_approval = true
same_key blocked blocked = true
same_key done done = true
same_key art_approved art_approved = true
same_key in_production in_production = true
same_key quality_control quality_control = true
same_key shipped shipped = true
same_key ColumnKey.completed ColumnKey.completed = true
same_key waiting_material waiting_material = true
same_key on_hold on_hold = true
same_key _ _ = false

unfoldable pub find_task_by_id : Db → ℕ → Option Task
find_task_by_id db id = find_by task_id id db.tasks

unfoldable pub find_task_column_by_id : Db → ℕ → Option Column
find_task_column_by_id db id = find_by column_id id db.columns

unfoldable pub find_task_column_by_key : Db → ℕ → ColumnKey → Option Column
unfolding same_key
find_task_column_by_key db project key =
    find (λ c. c.project_id == project && same_key c.key key) db.columns

unfoldable pub list_task_assignees : Db → ℕ → List ℕ
list_task_assignees db task = map (λ a. a.user_sub) (select (λ a. a.task_id == task) db.assignees)

unfoldable pub subtasks_of : Db → ℕ → List Subtask
subtasks_of db task = select (λ s. s.task_id == task) db.subtasks

-- The patch of `updateTaskById`: a field that is `none` is undefined and left out of the `set`.
pub record TaskPatch : Type 0 where
  pub column_id : Option ℕ
  pub title : Option Text
  pub description : Option (Option Text)
  pub priority : Option Priority
  pub assignee_sub : Option (Option ℕ)
  pub deadline : Option (Option ℕ)
  pub checklist_progress : Option ℕ
  pub blocked_by_task_id : Option (Option ℕ)
  pub block_reason : Option (Option Text)
  pub block_type : Option (Option BlockType)
  pub blocked_at : Option (Option ℕ)
  pub blocked_by_sub : Option (Option ℕ)
  pub client_approval_requested_at : Option (Option ℕ)
  pub is_client_visible : Option Bool
  pub position : Option ℕ
  pub completed_at : Option (Option ℕ)

abbrev pub empty_patch : TaskPatch
empty_patch = record {
  column_id = none;
  title = none;
  description = none;
  priority = none;
  assignee_sub = none;
  deadline = none;
  checklist_progress = none;
  blocked_by_task_id = none;
  block_reason = none;
  block_type = none;
  blocked_at = none;
  blocked_by_sub = none;
  client_approval_requested_at = none;
  is_client_visible = none;
  position = none;
  completed_at = none;
}

unfoldable pub patched : ℕ → TaskPatch → Task → Task
patched now p t = record t {
  column_id = get_or p.column_id t.column_id;
  title = get_or p.title t.title;
  description = get_or p.description t.description;
  priority = get_or p.priority t.priority;
  assignee_sub = get_or p.assignee_sub t.assignee_sub;
  deadline = get_or p.deadline t.deadline;
  checklist_progress = get_or p.checklist_progress t.checklist_progress;
  blocked_by_task_id = get_or p.blocked_by_task_id t.blocked_by_task_id;
  block_reason = get_or p.block_reason t.block_reason;
  block_type = get_or p.block_type t.block_type;
  blocked_at = get_or p.blocked_at t.blocked_at;
  blocked_by_sub = get_or p.blocked_by_sub t.blocked_by_sub;
  client_approval_requested_at =
      get_or p.client_approval_requested_at t.client_approval_requested_at;
  is_client_visible = get_or p.is_client_visible t.is_client_visible;
  position = get_or p.position t.position;
  completed_at = get_or p.completed_at t.completed_at;
  updated_at = now;
}

unfoldable pub update_task_by_id : ℕ → ℕ → TaskPatch → Db → Db
update_task_by_id now id p db = record db { tasks = update_by task_id id (patched now p) db.tasks }

unfoldable pub create_audit_log : ℕ → AuditAction → ℕ → Db → Db
create_audit_log actor action resource db = record db {
  audit = db.audit ++ record { actor_sub = actor; action = action; resource_id = resource } ∷ [];
}

unfoldable pub create_task_comment : Comment → Db → Db
create_task_comment c db = record db { comments = db.comments ++ c ∷ [] }

unfoldable pub emit : ℕ → ℕ → BoardEvent → Db → Db
emit project actor e db = record db {
  outbox = db.outbox ++ record { project_id = project; actor_sub = actor; event = e } ∷ [];
}

-- The rows of a task are deleted and the given ones inserted.
unfoldable pub upsert_task_assignees : ℕ → List (ℕ × ℕ) → Db → Db
upsert_task_assignees task given db = record db {
  assignees =
      select (λ a. not (a.task_id == task)) db.assignees
      ++ map (λ g. record { task_id = task; user_sub = g.0; user_email = g.1 }) given;
}
