-- ===== src/Board/Release.antt =====
-- board-task-blocking.service.ts, unblockTask: who releases a task, and what he leaves of its block.
use mathlib.Core.Path.{subst}
use mathlib.Core.Option.{some-injective}
use crm_collab.Base.{
  ℕ, ◌≡◌, refl, sym, ◌∙◌, ap, inl, inr, true, false, not, some, arith, ◌==◌, Option-cases,
}
use crm_collab.Base.Table.{find-passes}
use crm_collab.Base.Outcome.{ok, after_found, after_require, ok-injective}
use crm_collab.Access.{Actor, AccessRepo, Access, assert_project_access}
use crm_collab.Access.Guards.{MayRelease, can_unblock_task-MayRelease}
use crm_collab.Board.Model.{
  Task, Column, Db, ColumnKey, doing, pending, blocked, same_key, find_task_by_id,
  find_task_column_by_id, find_task_column_by_key, patched,
}
use crm_collab.Board.Frame.{SameBoard-find_task, comment_resolution-SameBoard}
use crm_collab.Board.Update.{is_assignee}
use crm_collab.Board.Blocking.{UnblockOptions, unblock_patch, unblock_target, unblock_task}
use crm_collab.Board.BlockData.{NoBlock}
use crm_collab.Board.BlockCycle.{unblock_task-Unblocks}
use crm_collab.Board.Completion.{found_patched}

doing_is_free : (k : ColumnKey) → same_key k doing ≡ true → same_key k blocked ≡ false
unfolding same_key
doing_is_free doing h = refl
doing_is_free _ h = cc

pending_is_free : (k : ColumnKey) → same_key k pending ≡ true → same_key k blocked ≡ false
unfolding same_key
pending_is_free pending h = refl
pending_is_free _ h = cc

-- A column that is found by its key has that key.
column_key :
    (db : Db) (project_id : ℕ) (key : ColumnKey) {c : Column}
    → find_task_column_by_key db project_id key ≡ some c
    → same_key c.key key ≡ true
unfolding find_task_column_by_key
column_key db project_id key e = ground (arith, find-passes _ db.columns e)

-- The target of a release is no column of blocked tasks.
unblock_target_free :
    (db : Db) (project_id : ℕ) (options : UnblockOptions) {c : Column}
    → unblock_target db project_id options ≡ ok c
    → same_key c.key blocked ≡ false
unfolding unblock_target
unblock_target_free db project_id options {c} e = elim (Option-cases options.target_column_id) [
  | inr (id, named) ↦
      let chosen = rw (named, unblock_target) at e in
      after_found (find_task_column_by_id db id) _ _ chosen λ column there e₁.
        after_require (column.project_id == project_id) _ _ e₁ λ of_project e₂.
          after_require (not (same_key column.key blocked)) _ _ e₂
            λ free e₃. ground (arith, free, ok-injective _ _ e₃)
  | inl unnamed ↦ elim (Option-cases (find_task_column_by_key db project_id doing)) [
    | inr (d, at) ↦
        let same : d ≡ c = ground (arith, rw (unnamed, unblock_target) at e, at) in
        ground (arith, same, doing_is_free d.key (column_key db project_id doing at))
    | inl absent ↦
        let chosen : find_task_column_by_key db project_id pending ≡ some c =
          ground (arith, rw (unnamed, unblock_target) at e, absent) in
        pending_is_free c.key (column_key db project_id pending chosen)
  ]
]

patched_released :
    (now : ℕ) (target : Column) (task : Task)
    → NoBlock (patched now (unblock_patch target now) task)
      × ((patched now (unblock_patch target now) task).column_id ≡ target.id)
unfolding patched unblock_patch
patched_released now target task = (
  record {
    reason = ground arith;
    type = ground arith;
    since = ground arith;
    by_sub = ground arith;
  },
  ground arith,
)

module _ (repo : AccessRepo) where
  -- A task is released only by one who may release its type of block; it then stands in the chosen
  -- column, which is not one of blocked tasks, and nothing of the block is left.
  pub unblock_task_by_authority :
      (db : Db) (actor : Actor) (id : ℕ) (options : UnblockOptions) (now : ℕ) (task t : Task)
      (db' : Db)
      → find_task_by_id db id ≡ some task
      → unblock_task repo db actor id options now ≡ ok (t, db')
      → ((access : Access) × (assert_project_access repo actor task.project_id ≡ ok access)
          × MayRelease actor.role access.member_role task.block_type
              (is_assignee db task actor.sub))
        × ((target : Column) × (unblock_target db task.project_id options ≡ ok target)
            × (same_key target.key blocked ≡ false)
            × (t.column_id ≡ target.id))
        × NoBlock t
  unblock_task_by_authority db actor id options now task t db' there e =
      let b = unblock_task-Unblocks repo db actor id options now e in
      let same : b.task ≡ task = some-injective _ _ (sym b.task_found ∙ there) in
      let there' =
        SameBoard-find_task id (comment_resolution-SameBoard actor id options.resolution_comment db)
        ∙ b.task_found in
      let image = found_patched now id (unblock_patch b.target now) _ b.task there' b.returned in
      let (blank, column) = patched_released now b.target b.task in
      (
        subst
            (λ (k : Task).
              (access : Access) × (assert_project_access repo actor k.project_id ≡ ok access)
              × MayRelease actor.role access.member_role k.block_type (is_assignee db k actor.sub))
            same
            (
              b.access,
              b.granted,
              (can_unblock_task-MayRelease actor.role b.access.member_role b.task.block_type
                    (is_assignee db b.task actor.sub)).0
                  b.allowed,
            ),
        (
          b.target,
          ap (λ (k : Task). unblock_target db k.project_id options) (sym same) ∙ b.at,
          unblock_target_free db b.task.project_id options b.at,
          ap (λ (k : Task). k.column_id) (sym image) ∙ column,
        ),
        subst NoBlock image blank,
      )
