-- ===== src/Board/Events.antt =====
-- board/board-task-events.ts: the events of an update, in the order in which they are emitted.
use crm_collab.Base.{
  ℕ, Bool, true, false, ◌&&◌, not, Option, none, some, List, [], ◌∷◌, ◌++◌, map, ◌==◌,
  if◌then◌else◌, select, is_some, has,
}
use crm_collab.Base.Text.{Text}
use crm_collab.Access.{Actor, AssigneeInput, BlockType}
use crm_collab.Board.Model.{
  Task, ColumnKey, Priority, Change, title, description, priority, due_date, checklist_progress,
  client_visible, position, blocked_by_task_id, subtasks_count, assignees_count, BoardEvent,
  task_assigned, task_moved, task_blocked, task_unblocked, task_updated,
}
use crm_collab.Board.Patches.{reason_or_default, type_or_default}
use crm_collab.Board.Subtasks.{SubtaskInput}

-- board.types.ts: a field that is `none` is undefined, `some none` is null.
pub record UpdateTaskInput : Type 0 where
  pub column_id : Option ℕ
  pub title : Option Text
  pub description : Option (Option Text)
  pub priority : Option Priority
  pub assignees : Option (List AssigneeInput)
  pub due_date : Option (Option ℕ)
  pub checklist_progress : Option ℕ
  pub blocked_by_task_id : Option (Option ℕ)
  pub client_visible : Option Bool
  pub position : Option ℕ
  pub subtasks : Option (List SubtaskInput)
  pub block_reason : Option (Option Text)
  pub block_type : Option (Option BlockType)
  pub resolution_comment : Option Text

pub record UpdateEvents : Type 0 where
  pub task : Task
  pub current_key : ColumnKey
  pub target_key : ColumnKey
  pub actor : Actor
  pub patch : UpdateTaskInput
  pub is_moving_from_blocked : Bool
  pub is_moving_to_blocked : Bool
  pub previous_assignee_subs : List ℕ

-- Whether the update names another column.
unfoldable pub moves_column : UpdateEvents → Bool
moves_column p = elim p.patch.column_id [ none ↦ false | some id ↦ not (id == p.task.column_id) ]

abbrev when {ℓ} : {A : Type ℓ} → Bool → A → List A
when true a = a ∷ []
when false a = []

unfoldable pub task_movement_events : UpdateEvents → List BoardEvent
unfolding moves_column
task_movement_events p =
    if moves_column p
    then task_moved p.task.id (some p.current_key) p.target_key
        ∷ when p.is_moving_from_blocked (task_unblocked p.task.id p.target_key)
      ++ when p.is_moving_to_blocked (
          task_blocked p.task.id (reason_or_default p.patch.block_reason)
            (type_or_default p.patch.block_type))
    else []

-- The keys of `changes`.
unfoldable pub changes_of : UpdateTaskInput → List Change
changes_of p =
    when (is_some p.title) title
    ++ when (is_some p.description) description
    ++ when (is_some p.priority) priority
    ++ when (is_some p.due_date) due_date
    ++ when (is_some p.checklist_progress) checklist_progress
    ++ when (is_some p.client_visible) client_visible
    ++ when (is_some p.position) position
    ++ when (is_some p.blocked_by_task_id) blocked_by_task_id
    ++ when (is_some p.subtasks) subtasks_count
    ++ when (is_some p.assignees) assignees_count

updated_event : UpdateEvents → List Change → List BoardEvent
updated_event p [] = []
updated_event p (c ∷ cs) = task_updated p.task.id p.task.column_id (c ∷ cs) ∷ []

unfoldable pub task_properties_updated_events : UpdateEvents → List BoardEvent
unfolding moves_column changes_of updated_event
task_properties_updated_events p =
    if moves_column p then [] else updated_event p (changes_of p.patch)

-- An assignee that is new and is not the actor.
unfoldable pub is_newly_assigned : Actor → List ℕ → AssigneeInput → Bool
is_newly_assigned actor previous a = not (has previous a.user_sub) && not (a.user_sub == actor.sub)

unfoldable pub task_assignment_events : UpdateEvents → List BoardEvent
unfolding is_newly_assigned
task_assignment_events p = elim p.patch.assignees [
  | none ↦ []
  | some given ↦
      map (λ a. task_assigned p.task.id a.user_sub)
        (select (is_newly_assigned p.actor p.previous_assignee_subs) given)
]

unfoldable pub task_update_events : UpdateEvents → List BoardEvent
unfolding task_movement_events task_properties_updated_events task_assignment_events
task_update_events p =
    task_movement_events p ++ task_properties_updated_events p ++ task_assignment_events p
