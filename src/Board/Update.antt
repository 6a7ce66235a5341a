-- ===== src/Board/Update.antt =====
-- board/board-task.service.ts, `updateTask`: the checks before the transaction, and the transaction.
use crm_collab.Base.{
  ℕ, Bool, true, ◌&&◌, ◌||◌, not, Option, none, some, List, [], ◌∷◌, map, ◌==◌, if◌then◌else◌,
  get_or, is_some, is_just, has,
}
use crm_collab.Base.Text.{Text, trim}
use crm_collab.Base.Outcome.{Outcome, ok, ◌>>=◌, ◌>>◌, require, found}
use crm_collab.Base.Outcome.{not_found, forbidden, bad_request}
use crm_collab.Access.{
  Actor, AccessRepo, Access, is_client, can_move_tasks, can_block_task, can_unblock_task,
  assert_project_access, assert_worker_only_assignments, resolve_assignee_emails, AssigneeInput,
}
use crm_collab.Board.Model.{
  client_approval, blocked, Column, Task, TaskPatch, Db, BoardEvent, project_task_updated,
  project_task_blocked, project_task_unblocked, same_key, find_task_by_id, find_task_column_by_id,
  list_task_assignees, subtasks_of, update_task_by_id, create_audit_log, create_task_comment, emit,
  upsert_task_assignees,
}
use crm_collab.Board.Progress.{Progress, resolve_task_progress_and_completion}
use crm_collab.Board.Patches.{with_column_state_patches}
use crm_collab.Board.Subtasks.{SubtaskInput, upsert_subtasks}
use crm_collab.Board.Summary.{sync_project_summary}
use crm_collab.Board.Events.{UpdateEvents, UpdateTaskInput, task_update_events}

-- `patch.assignees[0]?.userSub ?? null`
abbrev pub first_assignee : List AssigneeInput → Option ℕ
first_assignee [] = none
first_assignee (a ∷ rest) = some a.user_sub

abbrev pub completions_of : List SubtaskInput → List Bool
completions_of l = map (λ s. s.is_completed) l

-- What the checks hand to the transaction.
pub record Plan : Type 0 where
  pub task : Task
  pub current : Column
  pub target : Column
  pub progress : Progress
  pub previous_assignee_subs : List ℕ

abbrev pub is_moving_from_blocked : Column → Column → Bool
is_moving_from_blocked current target =
    same_key current.key blocked && not (same_key target.key blocked)

abbrev pub is_moving_to_blocked : Column → Column → Bool
is_moving_to_blocked current target =
    same_key target.key blocked && not (same_key current.key blocked)

abbrev pub is_moving_to_client_approval : Column → Column → Bool
is_moving_to_client_approval current target =
    same_key target.key client_approval && not (same_key current.key client_approval)

unfoldable pub is_assignee : Db → Task → ℕ → Bool
is_assignee db task sub = is_just task.assignee_sub sub || has (list_task_assignees db task.id) sub

unfoldable pub emit_all : ℕ → ℕ → List BoardEvent → Db → Db
emit_all project actor [] db = db
emit_all project actor (e ∷ es) db = emit_all project actor es (emit project actor e db)

-- `patch.subtasks !== undefined ? patch.subtasks : task.subtasks`
abbrev pub completions : Db → ℕ → UpdateTaskInput → List Bool
completions db id patch = elim patch.subtasks [
  | none ↦ map (λ s. s.is_completed) (subtasks_of db id)
  | some given ↦ completions_of given
]

unfoldable pub target_column : Db → UpdateTaskInput → Column → Outcome Column
target_column db patch current = elim patch.column_id [
  | none ↦ ok current
  | some id ↦ found (find_task_column_by_id db id) bad_request
]

-- The patch that `updateTaskById` receives.
unfoldable pub update_patch : Actor → UpdateTaskInput → ℕ → Plan → TaskPatch
update_patch actor patch now plan =
    with_column_state_patches now
      (record {
        is_moving_from_blocked = is_moving_from_blocked plan.current plan.target;
        is_moving_to_blocked = is_moving_to_blocked plan.current plan.target;
        is_moving_to_client_approval = is_moving_to_client_approval plan.current plan.target;
        target_column_key = plan.target.key;
        block_reason = patch.block_reason;
        block_type = patch.block_type;
        actor_sub = actor.sub;
      })
      (record {
        column_id = patch.column_id;
        title = patch.title;
        description = patch.description;
        priority = patch.priority;
        assignee_sub = elim patch.assignees [
          | none ↦ none
          | some given ↦ some (first_assignee given)
        ];
        deadline = patch.due_date;
        checklist_progress = some plan.progress.calculated_progress;
        blocked_by_task_id = patch.blocked_by_task_id;
        block_reason = none;
        block_type = none;
        blocked_at = none;
        blocked_by_sub = none;
        client_approval_requested_at = none;
        is_client_visible =
            if is_moving_to_client_approval plan.current plan.target
            then some true
            else patch.client_visible;
        position = patch.position;
        completed_at = some plan.progress.completed_at;
      })

unfoldable pub write_subtasks : ℕ → UpdateTaskInput → Db → Outcome Db
write_subtasks id patch db = elim patch.subtasks [
  | none ↦ ok db
  | some given ↦ do
    (rows, next) ← upsert_subtasks id given db.subtasks db.next_id
    ok (record db { subtasks = rows; next_id = next })
]

-- `logTaskUpdateAuditAndComments`
unfoldable pub resolution_comment : Actor → ℕ → Option Text → Db → Db
resolution_comment actor id none db = db
resolution_comment actor id (some s) db = elim (trim s) [
  | [] ↦ db
  | c ∷ r ↦
      create_task_comment
        (record {
          task_id = id;
          author_sub = actor.sub;
          author_email = actor.email;
          is_resolution = true;
          content = c ∷ r;
        })
        db
]

unfoldable pub log_task_update : Actor → ℕ → Bool → Bool → Option Text → Db → Db
unfolding resolution_comment
log_task_update actor id to_blocked from_blocked comment db =
    let db₁ = create_audit_log actor.sub project_task_updated id db in
    let db₂ = if to_blocked then create_audit_log actor.sub project_task_blocked id db₁ else db₁ in
    if from_blocked
    then create_audit_log actor.sub project_task_unblocked id
        (resolution_comment actor id comment db₂)
    else db₂

unfoldable pub progress_changed : UpdateTaskInput → Bool
progress_changed patch =
    is_some patch.column_id || is_some patch.checklist_progress || is_some patch.subtasks

-- What `emitTaskUpdateEvents` receives.
unfoldable pub events_of_plan : Actor → UpdateTaskInput → Plan → UpdateEvents
events_of_plan actor patch plan = record {
  task = plan.task;
  current_key = plan.current.key;
  target_key = plan.target.key;
  actor = actor;
  patch = patch;
  is_moving_from_blocked = is_moving_from_blocked plan.current plan.target;
  is_moving_to_blocked = is_moving_to_blocked plan.current plan.target;
  previous_assignee_subs = plan.previous_assignee_subs;
}

module _ (repo : AccessRepo) (profile_email : ℕ → Option ℕ) where
  unfoldable pub write_assignees : ℕ → ℕ → UpdateTaskInput → Db → Outcome Db
  write_assignees id project_id patch db = elim patch.assignees [
    | none ↦ ok db
    | some given ↦ do
      resolved ← resolve_assignee_emails repo profile_email project_id given
      ok (upsert_task_assignees id resolved db)
  ]

  unfoldable pub commit_update : Actor → ℕ → UpdateTaskInput → ℕ → Plan → Db → Outcome (Task × Db)
  unfolding write_subtasks write_assignees log_task_update emit_all progress_changed
  commit_update actor id patch now plan db = do
    let db₁ = update_task_by_id now id (update_patch actor patch now plan) db
    updated ← found (find_task_by_id db₁ id) not_found
    db₂ ← write_subtasks id patch db₁
    db₃ ← write_assignees id plan.task.project_id patch db₂
    let db₄ = if progress_changed patch then sync_project_summary plan.task.project_id db₃ else db₃
    let db₅ =
        log_task_update actor id (is_moving_to_blocked plan.current plan.target)
          (is_moving_from_blocked plan.current plan.target) patch.resolution_comment db₄
    let events = task_update_events (events_of_plan actor patch plan)
    ok (updated, emit_all plan.task.project_id actor.sub events db₅)

module _ (tie_up : ℕ → ℕ → Bool) (repo : AccessRepo) (profile_email : ℕ → Option ℕ) where
  -- `patch.assignees !== undefined || patch.subtasks !== undefined`
  unfoldable pub check_assignments : UpdateTaskInput → ℕ → Outcome (Unit {0})
  check_assignments patch project_id =
      if is_some patch.assignees || is_some patch.subtasks
      then assert_worker_only_assignments repo project_id
          (map (λ a. a.user_sub) (get_or patch.assignees []))
          (map (λ s. s.assignee_sub) (get_or patch.subtasks []))
      else ok tt

  unfoldable pub check_blocking :
      Db → Actor → Access → Task → UpdateTaskInput → Column → Column → Outcome (Unit {0})
  check_blocking db actor access task patch current target = do
    require
        (not (is_moving_from_blocked current target)
          || can_unblock_task actor.role (some access.member_role) task.block_type
              (is_assignee db task actor.sub))
        forbidden
    require
        (not (
            is_moving_to_blocked current target
            || (same_key target.key blocked
                && (is_some patch.block_reason || is_some patch.block_type)))
          || can_block_task actor.role (some access.member_role))
        forbidden
    require (not (is_just (get_or patch.blocked_by_task_id none) task.id)) bad_request

  unfoldable pub check_update : Db → Actor → ℕ → UpdateTaskInput → ℕ → Outcome Plan
  unfolding check_assignments target_column check_blocking
  check_update db actor id patch now = do
    task ← found (find_task_by_id db id) not_found
    access ← assert_project_access repo actor task.project_id
    require (can_move_tasks actor.role (some access.member_role)) forbidden
    check_assignments patch task.project_id
    require (not (is_client actor.role && is_some patch.column_id)) forbidden
    current ← found (find_task_column_by_id db task.column_id) not_found
    require (current.project_id == task.project_id) not_found
    target ← target_column db patch current
    require (target.project_id == task.project_id) bad_request
    progress ←
        resolve_task_progress_and_completion tie_up target.key (completions db id patch)
          (some (get_or patch.checklist_progress task.checklist_progress)) task.completed_at now
    check_blocking db actor access task patch current target
    ok (record {
      task = task;
      current = current;
      target = target;
      progress = progress;
      previous_assignee_subs = if is_some patch.assignees then list_task_assignees db id else [];
    })

  unfoldable pub update_task : Db → Actor → ℕ → UpdateTaskInput → ℕ → Outcome (Task × Db)
  unfolding check_update commit_update update_patch
  update_task db actor id patch now = do
    plan ← check_update db actor id patch now
    commit_update repo profile_email actor id patch now plan db
