-- ===== src/Board/Blocking.antt =====
-- board/board-task-blocking.service.ts
use crm_collab.Base.{ℕ, true, not, Option, none, some, [], ◌∷◌, ◌==◌, if◌then◌else◌}
use crm_collab.Base.Text.{Text, trim}
use crm_collab.Base.Outcome.{Outcome, ok, ◌>>=◌, ◌>>◌, require, found}
use crm_collab.Base.Outcome.{not_found, forbidden, bad_request}
use crm_collab.Access.{
  Actor, AccessRepo, internal_impediment, can_block_task, can_unblock_task, assert_project_access,
}
use crm_collab.Board.Model.{
  ColumnKey, pending, doing, client_approval, blocked, Column, Task, TaskPatch, empty_patch, Db,
  task_moved, task_blocked, task_unblocked, project_task_blocked, project_task_unblocked, same_key,
  find_task_by_id, find_task_column_by_id, find_task_column_by_key, update_task_by_id,
  create_audit_log, create_task_comment, emit,
}
use crm_collab.Board.Patches.{clear_block}
use crm_collab.Board.Summary.{sync_project_summary}
use crm_collab.Board.Update.{is_assignee}

pub record UnblockOptions : Type 0 where
  pub target_column_id : Option ℕ
  pub resolution_comment : Option Text

abbrev pub block_patch : ℕ → Text → ℕ → ℕ → TaskPatch
block_patch column reason actor now = record empty_patch {
  column_id = some column;
  block_reason = some (some reason);
  block_type = some (some internal_impediment);
  blocked_at = some (some now);
  blocked_by_sub = some (some actor);
}

-- The patch of `unblockTask`; entering the approval column stamps the request.
unfoldable pub unblock_patch : Column → ℕ → TaskPatch
unblock_patch target now =
    if same_key target.key client_approval
    then record clear_block {
      column_id = some target.id;
      client_approval_requested_at = some (some now);
      is_client_visible = some true;
    }
    else record clear_block { column_id = some target.id }

abbrev key_of : Option Column → Option ColumnKey
key_of none = none
key_of (some c) = some c.key

-- The column that the caller names, if it is another one of the project.
named_target : Db → ℕ → ℕ → Outcome Column
named_target db project_id id = do
  column ← found (find_task_column_by_id db id) bad_request
  require (column.project_id == project_id) bad_request
  require (not (same_key column.key blocked)) bad_request
  ok column

-- Without a named column: `doing`, or else `pending`.
default_target : Db → ℕ → Outcome Column
default_target db project_id = elim (find_task_column_by_key db project_id doing) [
  | some c ↦ ok c
  | none ↦ found (find_task_column_by_key db project_id pending) bad_request
]

unfoldable pub unblock_target : Db → ℕ → UnblockOptions → Outcome Column
unfolding named_target default_target
unblock_target db project_id options = elim options.target_column_id [
  | some id ↦ named_target db project_id id
  | none ↦ default_target db project_id
]

-- `[Resolución de Bloqueo] …`, if a comment is left after trimming.
unfoldable pub comment_resolution : Actor → ℕ → Option Text → Db → Db
comment_resolution actor id none db = db
comment_resolution actor id (some s) db = elim (trim s) [
  | [] ↦ db
  | c ∷ r ↦
      create_task_comment
        (record {
          task_id = id;
          author_sub = actor.sub;
          author_email = actor.email;
          is_resolution = true;
          content = c ∷ r;
        })
        db
]

module _ (repo : AccessRepo) where
  unfoldable pub block_task : Db → Actor → ℕ → Text → ℕ → Outcome (Task × Db)
  block_task db actor id reason now = do
    task ← found (find_task_by_id db id) not_found
    access ← assert_project_access repo actor task.project_id
    require (can_block_task actor.role (some access.member_role)) forbidden
    column ← found (find_task_column_by_key db task.project_id blocked) bad_request
    let current = find_task_column_by_id db task.column_id
    let db₁ = update_task_by_id now id (block_patch column.id reason actor.sub now) db
    updated ← found (find_task_by_id db₁ id) not_found
    let db₂ =
        create_audit_log actor.sub project_task_blocked id
          (sync_project_summary task.project_id db₁)
    ok (
      updated,
      emit task.project_id actor.sub (task_moved task.id (key_of current) blocked)
          (emit task.project_id actor.sub (task_blocked task.id reason internal_impediment) db₂),
    )

  unfoldable pub unblock_task : Db → Actor → ℕ → UnblockOptions → ℕ → Outcome (Task × Db)
  unfolding unblock_target unblock_patch comment_resolution
  unblock_task db actor id options now = do
    task ← found (find_task_by_id db id) not_found
    access ← assert_project_access repo actor task.project_id
    require
        (can_unblock_task actor.role (some access.member_role) task.block_type
          (is_assignee db task actor.sub))
        forbidden
    target ← unblock_target db task.project_id options
    let db₁ =
        update_task_by_id now id (unblock_patch target now)
          (comment_resolution actor id options.resolution_comment db)
    updated ← found (find_task_by_id db₁ id) not_found
    let db₂ =
        create_audit_log actor.sub project_task_unblocked id
          (sync_project_summary task.project_id db₁)
    ok (
      updated,
      emit task.project_id actor.sub (task_moved task.id (some blocked) target.key)
          (emit task.project_id actor.sub (task_unblocked task.id target.key) db₂),
    )
