-- ===== src/Board/Completion.antt =====
-- When a task stands in a final column: `updateTask` asks for completion, `unblockTask` does not.
use mathlib.Core.Option.{some-injective}
use crm_collab.Base.{
  ℕ, ◌≡◌, ◌≢◌, refl, sym, ◌∙◌, Bool, true, false, Option, none, some, arith, inl, inr,
}
use crm_collab.Base.Text.{Text}
use crm_collab.Base.Table.{find_by-key}
use crm_collab.Base.Outcome.{ok, after-ok}
use crm_collab.Access.{Actor, AccessRepo}
use crm_collab.Board.Model.{
  column_id, Task, Column, Db, TaskPatch, find_task_by_id, find_task_column_by_id, patched,
  update_task_by_id,
}
use crm_collab.Board.Events.{UpdateTaskInput}
use crm_collab.Board.Patches.{with_column_state_patches}
use crm_collab.Board.Progress.{is_finalization_column}
use crm_collab.Board.Progress.Completion.{resolve_final}
use crm_collab.Board.Frame.{
  SameBoard-find_task, SameBoard-find_column, comment_resolution-SameBoard,
}
use crm_collab.Board.Update.{Plan, check_update, update_patch, update_task}
use crm_collab.Board.Checks.{check_update-Checked}
use crm_collab.Board.BlockData.{commit_update-SameBoard, patched-column, found_after_patch}
use crm_collab.Board.Blocking.{unblock_target, unblock_patch, unblock_task}
use crm_collab.Board.BlockCycle.{unblock_task-Unblocks}

-- The row that `updateTaskById` finds again is the patched one.
pub found_patched :
    (now id : ℕ) (p : TaskPatch) (db : Db) (task : Task) {t : Task}
    → find_task_by_id db id ≡ some task
    → find_task_by_id (update_task_by_id now id p db) id ≡ some t
    → patched now p task ≡ t
found_patched now id p db task found e = elim (found_after_patch now id id p db e) [
  | inl (ne, _) ↦ absurd (ne refl)
  | inr (t₀, _, before, image) ↦ ground (arith, some-injective _ _ (sym found ∙ before), image)
]

-- `updateTaskById` leaves the columns alone.
find_column_after_patch :
    (now id j : ℕ) (p : TaskPatch) (db : Db)
    → find_task_column_by_id (update_task_by_id now id p db) j ≡ find_task_column_by_id db j
unfolding find_task_column_by_id update_task_by_id
find_column_after_patch now id j p db = refl

patched-progress :
    (now : ℕ) (actor : Actor) (patch : UpdateTaskInput) (plan : Plan) (task : Task)
    → let t = patched now (update_patch actor patch now plan) task in
      (t.checklist_progress ≡ plan.progress.calculated_progress)
      × (t.completed_at ≡ plan.progress.completed_at)
unfolding patched update_patch with_column_state_patches
patched-progress now actor patch plan task = ground arith

-- A named target is the column of that id.
unblock_target_named :
    (db : Db) (project column : ℕ) (comment : Option Text) (c : Column)
    → unblock_target db project
        (record { target_column_id = some column; resolution_comment = comment })
      ≡ ok c
    → c.id ≡ column
unfolding unblock_target find_task_column_by_id
unblock_target_named db project column comment c e =
    ground (arith, find_by-key column_id column db.columns {x = c})

module _ (tie_up : ℕ → ℕ → Bool) (repo : AccessRepo) (profile_email : ℕ → Option ℕ) where
  -- After a successful update, the stored task is completed exactly when its column is final: its
  -- progress is then 100 and it has a completion time, and otherwise it has none.
  pub update_task-completed :
      (db : Db) (actor : Actor) (id : ℕ) (patch : UpdateTaskInput) (now : ℕ) (t : Task) (db' : Db)
      (t' : Task) (c : Column)
      → update_task tie_up repo profile_email db actor id patch now ≡ ok (t, db')
      → find_task_by_id db' id ≡ some t'
      → find_task_column_by_id db' t'.column_id ≡ some c
      → (is_finalization_column c.key ≡ true
          → (t'.checklist_progress ≡ 100) × (t'.completed_at ≢ none))
        × (is_finalization_column c.key ≡ false → t'.completed_at ≡ none)
  unfolding update_task
  update_task-completed db actor id patch now t db' t' c e ft fc =
      after-ok (check_update tie_up repo profile_email db actor id patch now) _ e
        λ plan checked done.
          let k = check_update-Checked tie_up repo profile_email db actor id patch now checked in
          let same = commit_update-SameBoard repo profile_email actor id patch now plan db done in
          let p = update_patch actor patch now plan in
          let image =
            found_patched now id p db plan.task k.task (sym (SameBoard-find_task id same) ∙ ft) in
          let column =
            sym (find_column_after_patch now id t'.column_id p db)
            ∙ sym (SameBoard-find_column t'.column_id same)
            ∙ fc in
          let target =
            patched-column now db actor patch plan k.current k.target (rw (← image) at column) in
          ground (
            arith,
            image,
            target,
            patched-progress now actor patch plan plan.task,
            resolve_final tie_up plan.target.key _ _ _ _ plan.progress k.progress,
          )

module _ (repo : AccessRepo) where
  -- `unblockTask` moves a task to the column that the caller names, be it a final one, and leaves
  -- its progress and its completion time as they were.
  pub unblock_task_skips_completion :
      (db : Db) (actor : Actor) (id column : ℕ) (comment : Option Text) (now : ℕ) (task t : Task)
      (db' : Db)
      → find_task_by_id db id ≡ some task
      → unblock_task repo db actor id
          (record { target_column_id = some column; resolution_comment = comment })
          now
        ≡ ok (t, db')
      → (t.column_id ≡ column)
        × (t.checklist_progress ≡ task.checklist_progress)
        × (t.completed_at ≡ task.completed_at)
  unfolding patched unblock_patch
  unblock_task_skips_completion db actor id column comment now task t db' found e =
      let b = unblock_task-Unblocks repo db actor id _ now e in
      let found' =
        SameBoard-find_task id (comment_resolution-SameBoard actor id comment db) ∙ found in
      let image = found_patched now id _ _ task found' b.returned in
      ground (
        arith,
        image,
        unblock_target_named db task.project_id column comment b.target,
        b.at,
        found,
        b.task_found,
      )
