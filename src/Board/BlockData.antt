-- ===== src/Board/BlockData.antt =====
-- The invariant of the block data: a task outside the column of blocked tasks carries none.
use mathlib.Core.Path.{subst}
use mathlib.Core.Option.{some-injective}
use crm_collab.Base.{
  ℕ, ◌≡◌, ◌≢◌, ◌⊎◌, refl, sym, ◌∙◌, ap, inl, inr, Bool, false, Option, none, some, arith,
}
use crm_collab.Base.Table.{found_after_update}
use crm_collab.Base.Outcome.{ok, after-ok, after_found, ok-injective}
use crm_collab.Access.{Actor, AccessRepo}
use crm_collab.Board.Model.{
  Task, Column, Db, TaskPatch, blocked, same_key, find_task_by_id, find_task_column_by_id, task_id,
  patched, update_task_by_id,
}
use crm_collab.Board.Events.{UpdateTaskInput, task_update_events}
use crm_collab.Board.Frame.{
  SameBoard, SameBoard_trans, emit_all-SameBoard, log_task_update-SameBoard,
  write_subtasks-SameBoard, write_assignees-SameBoard, sync_if-SameBoard,
}
use crm_collab.Board.Patches.{with_column_state_patches}
use crm_collab.Board.Update.{
  Plan, check_update, commit_update, update_patch, update_task, progress_changed, events_of_plan,
  is_moving_from_blocked, is_moving_to_blocked, write_subtasks, write_assignees, target_column,
}
use crm_collab.Board.Checks.{check_update-Checked}

pub record NoBlock (t : Task) : Type 0 where
  pub reason : t.block_reason ≡ none
  pub type : t.block_type ≡ none
  pub since : t.blocked_at ≡ none
  pub by_sub : t.blocked_by_sub ≡ none

pub record IsConsistent (db : Db) : Type 0 where
  pub at :
      (id : ℕ) (t : Task) (c : Column)
      → find_task_by_id db id ≡ some t
      → find_task_column_by_id db t.column_id ≡ some c
      → same_key c.key blocked ≡ false
      → NoBlock t

pub SameBoard-IsConsistent : {db db' : Db} → SameBoard db db' → IsConsistent db → IsConsistent db'
unfolding find_task_by_id find_task_column_by_id
SameBoard-IsConsistent {db} {db'} same h = record {
  at = λ id t c ft fc free. h.at id t c (rw (← same.tasks) ft) (rw (← same.columns) fc) free;
}

-- A task found after `updateTaskById` is another task, or the patched one.
pub found_after_patch :
    (now id j : ℕ) (p : TaskPatch) (db : Db) {t : Task}
    → find_task_by_id (update_task_by_id now id p db) j ≡ some t
    → ((j ≢ id) × (find_task_by_id db j ≡ some t))
      ⊎ ((t₀ : Task) × (j ≡ id) × (find_task_by_id db id ≡ some t₀) × (patched now p t₀ ≡ t))
unfolding find_task_by_id update_task_by_id patched
found_after_patch now id j p db e =
    found_after_update task_id j id (patched now p) db.tasks (λ x. refl) e

-- An update of one task keeps the invariant if it holds of the patched task.
pub update-IsConsistent :
    (now id : ℕ) (p : TaskPatch) (db : Db)
    → IsConsistent db
    → ((t : Task) (c : Column)
        → find_task_by_id db id ≡ some t
        → find_task_column_by_id db (patched now p t).column_id ≡ some c
        → same_key c.key blocked ≡ false
        → NoBlock (patched now p t))
    → IsConsistent (update_task_by_id now id p db)
unfolding find_task_column_by_id update_task_by_id
update-IsConsistent now id p db h here = record {
  at = λ j t c ft fc free. elim (found_after_patch now id j p db ft) [
    | inl (_, before) ↦ h.at j t c before fc free
    | inr (t₀, _, before, same) ↦ subst NoBlock same (here t₀ c before (rw same fc) free)
  ];
}

module _ (repo : AccessRepo) (profile_email : ℕ → Option ℕ) where
  -- After the update of the row, a commit leaves the tasks and the columns alone.
  pub commit_update-SameBoard :
      (actor : Actor) (id : ℕ) (patch : UpdateTaskInput) (now : ℕ) (plan : Plan) (db : Db)
      {t : Task} {db' : Db}
      → commit_update repo profile_email actor id patch now plan db ≡ ok (t, db')
      → SameBoard (update_task_by_id now id (update_patch actor patch now plan) db) db'
  unfolding commit_update
  commit_update-SameBoard actor id patch now plan db e =
      let db₁ = update_task_by_id now id (update_patch actor patch now plan) db in
      after_found (find_task_by_id db₁ id) _ _ e λ updated _ e₁.
        after-ok (write_subtasks id patch db₁) _ e₁ λ db₂ wrote e₂.
          after-ok (write_assignees repo profile_email id plan.task.project_id patch db₂) _ e₂
            λ db₃ gave e₃.
              let logged =
                log_task_update-SameBoard actor id (is_moving_to_blocked plan.current plan.target)
                  (is_moving_from_blocked plan.current plan.target) patch.resolution_comment in
              subst (SameBoard db₁) (ap (λ (r : Task × Db). r.1) (ok-injective _ _ e₃)) (
                SameBoard_trans (write_subtasks-SameBoard id patch db₁ wrote) (
                  SameBoard_trans
                    (write_assignees-SameBoard repo profile_email id plan.task.project_id patch db₂
                      gave)
                    (SameBoard_trans
                      (sync_if-SameBoard (progress_changed patch) plan.task.project_id db₃)
                      (SameBoard_trans (logged _) (
                        emit_all-SameBoard plan.task.project_id actor.sub
                          (task_update_events (events_of_plan actor patch plan)) _)))))

-- The column that the patched task stands in is the target of the update.
pub patched-column :
    (now : ℕ) (db : Db) (actor : Actor) (patch : UpdateTaskInput) (plan : Plan) {c : Column}
    → find_task_column_by_id db plan.task.column_id ≡ some plan.current
    → target_column db patch plan.current ≡ ok plan.target
    → find_task_column_by_id db
        (patched now (update_patch actor patch now plan) plan.task).column_id
      ≡ some c
    → plan.target ≡ c
unfolding patched update_patch with_column_state_patches target_column
patched-column now db actor patch plan at_current at_target fc = ground arith

pub patched-NoBlock :
    (now : ℕ) (actor : Actor) (patch : UpdateTaskInput) (plan : Plan)
    → same_key plan.target.key blocked ≡ false
    → (same_key plan.current.key blocked ≡ false → NoBlock plan.task)
    → NoBlock (patched now (update_patch actor patch now plan) plan.task)
unfolding patched update_patch with_column_state_patches
patched-NoBlock now actor patch plan free before = ground arith

module _ (tie_up : ℕ → ℕ → Bool) (repo : AccessRepo) (profile_email : ℕ → Option ℕ) where
  -- An update keeps the invariant: whatever it does to the column, a task that ends outside the
  -- column of blocked tasks carries no block data.
  pub update_task-IsConsistent :
      (db : Db) (actor : Actor) (id : ℕ) (patch : UpdateTaskInput) (now : ℕ) {t : Task} {db' : Db}
      → IsConsistent db
      → update_task tie_up repo profile_email db actor id patch now ≡ ok (t, db')
      → IsConsistent db'
  unfolding update_task
  update_task-IsConsistent db actor id patch now h e =
      after-ok (check_update tie_up repo profile_email db actor id patch now) _ e
        λ plan checked done.
          let k = check_update-Checked tie_up repo profile_email db actor id patch now checked in
          SameBoard-IsConsistent
            (commit_update-SameBoard repo profile_email actor id patch now plan db done)
            (update-IsConsistent now id (update_patch actor patch now plan) db h λ t c ft fc free.
              let same : plan.task ≡ t = some-injective _ _ (sym k.task ∙ ft) in
              let fc' = rw (← same) at fc in
              let target = patched-column now db actor patch plan k.current k.target fc' in
              rw (← same) (
                patched-NoBlock now actor patch plan (rw target free)
                  λ not_blocked. h.at id plan.task plan.current k.task k.current not_blocked))
