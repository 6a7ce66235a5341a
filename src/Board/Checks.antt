-- ===== src/Board/Checks.antt =====
-- What the checks before an update have established when they let it through.
use mathlib.Core.Path.{subst}
use crm_collab.Base.{
  ℕ, ◌≡◌, ==_iff, Bool, true, ◌&&◌, not, Option, some, arith, ◌==◌, is_some, get_or,
}
use crm_collab.Base.Outcome.{ok, after-ok, after_require, after_found, ok-injective}
use crm_collab.Access.{
  Actor, AccessRepo, Access, is_client, can_move_tasks, can_block_task, can_unblock_task,
  assert_project_access,
}
use crm_collab.Board.Model.{Db, Task, Column, find_task_by_id, find_task_column_by_id}
use crm_collab.Board.Events.{UpdateTaskInput}
use crm_collab.Board.Progress.{resolve_task_progress_and_completion}
use crm_collab.Board.Update.{
  completions, Plan, check_update, check_assignments, target_column, check_blocking,
  is_moving_from_blocked, is_moving_to_blocked, is_assignee,
}

module _ (tie_up : ℕ → ℕ → Bool) (repo : AccessRepo) (profile_email : ℕ → Option ℕ) where
  pub record Checked (db : Db) (actor : Actor) (id : ℕ) (patch : UpdateTaskInput) (now : ℕ)
      (plan : Plan) : Type 0 where
    pub access : Access
    pub task : find_task_by_id db id ≡ some plan.task
    pub granted : assert_project_access repo actor plan.task.project_id ≡ ok access
    pub mover : can_move_tasks actor.role (some access.member_role) ≡ true
    pub current : find_task_column_by_id db plan.task.column_id ≡ some plan.current
    pub target : target_column db patch plan.current ≡ ok plan.target
    pub target_project : plan.target.project_id ≡ plan.task.project_id
    pub progress :
        resolve_task_progress_and_completion tie_up plan.target.key
          (completions db id patch)
          (some (get_or patch.checklist_progress plan.task.checklist_progress))
          plan.task.completed_at
          now
        ≡ ok plan.progress
    pub unblocker :
        is_moving_from_blocked plan.current plan.target ≡ true
        → can_unblock_task actor.role
            (some access.member_role)
            plan.task.block_type
            (is_assignee db plan.task actor.sub)
          ≡ true
    pub blocker :
        is_moving_to_blocked plan.current plan.target ≡ true
        → can_block_task actor.role (some access.member_role) ≡ true

  check_blocking-eq-ok :
      (db : Db) (actor : Actor) (access : Access) (task : Task) (patch : UpdateTaskInput)
      (current target : Column) {u : Unit {0}}
      → check_blocking tie_up repo profile_email db actor access task patch current target ≡ ok u
      → (is_moving_from_blocked current target ≡ true
          → can_unblock_task actor.role
              (some access.member_role)
              task.block_type
              (is_assignee db task actor.sub)
            ≡ true)
        × (is_moving_to_blocked current target ≡ true
            → can_block_task actor.role (some access.member_role) ≡ true)
  unfolding check_blocking
  check_blocking-eq-ok db actor access task patch current target e = ground arith

  pub check_update-Checked :
      (db : Db) (actor : Actor) (id : ℕ) (patch : UpdateTaskInput) (now : ℕ) {plan : Plan}
      → check_update tie_up repo profile_email db actor id patch now ≡ ok plan
      → Checked db actor id patch now plan
  unfolding check_update
  check_update-Checked db actor id patch now {plan} e =
      after_found (find_task_by_id db id) _ _ e λ task e₁ f₁.
        after-ok (assert_project_access repo actor task.project_id) _ f₁ λ access e₂ f₂.
          after_require (can_move_tasks actor.role (some access.member_role)) _ _ f₂ λ e₃ f₃.
            after-ok (check_assignments tie_up repo profile_email patch task.project_id) _ f₃
              λ _ e₄ f₄.
                after_require (not (is_client actor.role && is_some patch.column_id)) _ _ f₄
                  λ e₅ f₅.
                    after_found (find_task_column_by_id db task.column_id) _ _ f₅ λ current e₆ f₆.
                      after_require (current.project_id == task.project_id) _ _ f₆ λ e₇ f₇.
                        after-ok (target_column db patch current) _ f₇ λ target e₈ f₈.
                          after_require (target.project_id == task.project_id) _ _ f₈ λ e₉ f₉.
                            after-ok
                              (resolve_task_progress_and_completion tie_up target.key
                                (completions db id patch)
                                (some (get_or patch.checklist_progress task.checklist_progress))
                                task.completed_at now)
                              _ f₉
                              λ progress ea fa.
                                after-ok
                                  (check_blocking tie_up repo profile_email db actor access task
                                    patch current target)
                                  _ fa
                                  λ _ eb fb.
                                    let (may_unblock, may_block) =
                                      check_blocking-eq-ok db actor access task patch current target
                                        eb in
                                    subst (Checked db actor id patch now) (ok-injective _ _ fb)
                                      (record {
                                        access = access;
                                        task = e₁;
                                        granted = e₂;
                                        mover = e₃;
                                        current = e₆;
                                        target = e₈;
                                        target_project = (==_iff _ _).0 e₉;
                                        progress = ea;
                                        unblocker = may_unblock;
                                        blocker = may_block;
                                      })
