-- ===== src/Board/BlockCycle.antt =====
-- board-task-blocking.service.ts: who may block and unblock, and what is left of the block.
use mathlib.Core.Path.{subst}
use crm_collab.Base.{ℕ, ◌≡◌, refl, ◌∙◌, ap, true, some, arith}
use crm_collab.Base.Text.{Text}
use crm_collab.Base.Table.{IsKeyed, find_by_of_find, find-passes}
use crm_collab.Base.Outcome.{ok, after-ok, after_require, after_found, ok-injective}
use crm_collab.Access.{
  Actor, AccessRepo, Access, can_block_task, can_unblock_task, assert_project_access,
}
use crm_collab.Board.Model.{
  Task, Column, Db, blocked, same_key, find_task_by_id, find_task_column_by_id,
  find_task_column_by_key, column_id, patched, update_task_by_id, emit, create_audit_log,
}
use crm_collab.Board.Frame.{SameBoard, comment_resolution-SameBoard}
use crm_collab.Board.Summary.{sync_project_summary}
use crm_collab.Board.Update.{is_assignee}
use crm_collab.Board.BlockData.{IsConsistent, SameBoard-IsConsistent, update-IsConsistent}
use crm_collab.Board.Blocking.{
  UnblockOptions, block_patch, unblock_patch, unblock_target, comment_resolution, block_task,
  unblock_task,
}

-- A column that is found by its key is found by its id too, and has that key.
pub column_by_key :
    (db : Db) (project : ℕ) (key : _) {c : Column}
    → IsKeyed column_id db.columns
    → find_task_column_by_key db project key ≡ some c
    → (find_task_column_by_id db c.id ≡ some c) × (same_key c.key key ≡ true)
unfolding find_task_column_by_key find_task_column_by_id
column_by_key db project key keyed e =
    (find_by_of_find column_id _ db.columns keyed e, ground (arith, find-passes _ db.columns e))

module _ (repo : AccessRepo) where
  -- What a successful `blockTask` has checked and done.
  pub record Blocks (db : Db) (actor : Actor) (id : ℕ) (reason : Text) (now : ℕ) (t : Task)
      (db' : Db) : Type 0 where
    pub task : Task
    pub access : Access
    pub column : Column
    pub task_found : find_task_by_id db id ≡ some task
    pub granted : assert_project_access repo actor task.project_id ≡ ok access
    pub allowed : can_block_task actor.role (some access.member_role) ≡ true
    pub at : find_task_column_by_key db task.project_id blocked ≡ some column
    pub returned :
        find_task_by_id
          (update_task_by_id now id (block_patch column.id reason actor.sub now) db)
          id
        ≡ some t
    pub board :
        SameBoard (update_task_by_id now id (block_patch column.id reason actor.sub now) db) db'

  pub block_task-Blocks :
      (db : Db) (actor : Actor) (id : ℕ) (reason : Text) (now : ℕ) {t : Task} {db' : Db}
      → block_task repo db actor id reason now ≡ ok (t, db')
      → Blocks db actor id reason now t db'
  unfolding block_task create_audit_log emit sync_project_summary
  block_task-Blocks db actor id reason now e =
      after_found (find_task_by_id db id) _ _ e λ task found e₁.
        after-ok (assert_project_access repo actor task.project_id) _ e₁ λ access granted e₂.
          after_require (can_block_task actor.role (some access.member_role)) _ _ e₂ λ may e₃.
            after_found (find_task_column_by_key db task.project_id blocked) _ _ e₃ λ column at e₄.
              let db₁ = update_task_by_id now id (block_patch column.id reason actor.sub now) db in
              after_found (find_task_by_id db₁ id) _ _ e₄ λ updated returned e₅.
                let same = ok-injective _ _ e₅ in
                record {
                  task = task;
                  access = access;
                  column = column;
                  task_found = found;
                  granted = granted;
                  allowed = may;
                  at = at;
                  returned = returned ∙ ap (λ (r : Task × Db). some r.0) same;
                  board =
                      subst (SameBoard db₁) (ap (λ (r : Task × Db). r.1) same)
                        (record { tasks = refl; columns = refl });
                }

  -- Blocking keeps the invariant.
  pub block_task-IsConsistent :
      (db : Db) (actor : Actor) (id : ℕ) (reason : Text) (now : ℕ) {t : Task} {db' : Db}
      → IsKeyed column_id db.columns
      → IsConsistent db
      → block_task repo db actor id reason now ≡ ok (t, db')
      → IsConsistent db'
  unfolding patched
  block_task-IsConsistent db actor id reason now keyed h e =
      let b = block_task-Blocks db actor id reason now e in
      let (by_id, is_blocked) = column_by_key db b.task.project_id blocked keyed b.at in
      SameBoard-IsConsistent b.board (
        update-IsConsistent now id (block_patch b.column.id reason actor.sub now) db h
          λ t c ft fc free. absurd (ground (arith, by_id, is_blocked, fc, free)))

  pub record Unblocks (db : Db) (actor : Actor) (id : ℕ) (options : UnblockOptions) (now : ℕ)
      (t : Task) (db' : Db) : Type 0 where
    pub task : Task
    pub access : Access
    pub target : Column
    pub task_found : find_task_by_id db id ≡ some task
    pub granted : assert_project_access repo actor task.project_id ≡ ok access
    pub allowed :
        can_unblock_task actor.role
          (some access.member_role)
          task.block_type
          (is_assignee db task actor.sub)
        ≡ true
    pub at : unblock_target db task.project_id options ≡ ok target
    pub returned :
        find_task_by_id
          (update_task_by_id now id
            (unblock_patch target now)
            (comment_resolution actor id options.resolution_comment db))
          id
        ≡ some t
    pub board :
        SameBoard
          (update_task_by_id now id
            (unblock_patch target now)
            (comment_resolution actor id options.resolution_comment db))
          db'

  pub unblock_task-Unblocks :
      (db : Db) (actor : Actor) (id : ℕ) (options : UnblockOptions) (now : ℕ) {t : Task} {db' : Db}
      → unblock_task repo db actor id options now ≡ ok (t, db')
      → Unblocks db actor id options now t db'
  unfolding unblock_task create_audit_log emit sync_project_summary
  unblock_task-Unblocks db actor id options now e =
      after_found (find_task_by_id db id) _ _ e λ task found e₁.
        after-ok (assert_project_access repo actor task.project_id) _ e₁ λ access granted e₂.
          after_require
            (can_unblock_task actor.role (some access.member_role) task.block_type
              (is_assignee db task actor.sub))
            _ _ e₂
            λ may e₃. after-ok (unblock_target db task.project_id options) _ e₃ λ target at e₄.
              let db₁ =
                update_task_by_id now id (unblock_patch target now)
                  (comment_resolution actor id options.resolution_comment db) in
              after_found (find_task_by_id db₁ id) _ _ e₄ λ updated returned e₅.
                let same = ok-injective _ _ e₅ in
                record {
                  task = task;
                  access = access;
                  target = target;
                  task_found = found;
                  granted = granted;
                  allowed = may;
                  at = at;
                  returned = returned ∙ ap (λ (r : Task × Db). some r.0) same;
                  board =
                      subst (SameBoard db₁) (ap (λ (r : Task × Db). r.1) same)
                        (record { tasks = refl; columns = refl });
                }

  -- Unblocking keeps the invariant.
  pub unblock_task-IsConsistent :
      (db : Db) (actor : Actor) (id : ℕ) (options : UnblockOptions) (now : ℕ) {t : Task} {db' : Db}
      → IsConsistent db
      → unblock_task repo db actor id options now ≡ ok (t, db')
      → IsConsistent db'
  unfolding patched unblock_patch
  unblock_task-IsConsistent db actor id options now h e =
      let b = unblock_task-Unblocks db actor id options now e in
      SameBoard-IsConsistent b.board (
        update-IsConsistent now id (unblock_patch b.target now) _
          (SameBoard-IsConsistent
            (comment_resolution-SameBoard actor id options.resolution_comment db) h)
          λ t c ft fc free. ground arith)
