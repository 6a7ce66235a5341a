-- ===== src/Board/Subtasks.antt =====
-- board/board-subtask.repository.ts: the subtasks of a task are replaced by the given list, and
-- those that the task already has keep their rows.
use crm_collab.Base.{
  ℕ, suc, ◌+◌, Bool, true, false, ◌&&◌, ◌||◌, not, Option, none, some, List, [], ◌∷◌, ◌++◌, ◌==◌,
  select, some_of, get_or, has,
}
use crm_collab.Base.Text.{Text}
use crm_collab.Base.Table.{update_by}
use crm_collab.Base.Outcome.{Outcome, ok, bad_request, ◌>>◌, require}
use crm_collab.Board.Model.{Subtask}

pub record SubtaskInput : Type 0 where
  pub id : Option ℕ
  pub title : Text
  pub is_completed : Bool
  pub assignee_sub : Option ℕ
  pub position : Option ℕ

-- The ids that the input names.
unfoldable pub incoming_ids : List SubtaskInput → List ℕ
incoming_ids [] = []
incoming_ids (s ∷ rest) = elim s.id [ none ↦ incoming_ids rest | some k ↦ k ∷ incoming_ids rest ]

-- `new Set(ids).size !== ids.length`
unfoldable pub has_repeats : List ℕ → Bool
has_repeats [] = false
has_repeats (k ∷ ks) = has ks k || has_repeats ks

unfoldable pub is_foreign : ℕ → List ℕ → Subtask → Bool
is_foreign task ids s = not (s.task_id == task) && has ids s.id

-- Whether the row with this id belongs to the task.
unfoldable pub is_existing : ℕ → List Subtask → ℕ → Bool
is_existing task rows k = some_of (λ s. s.task_id == task && s.id == k) rows

-- A row of the task is deleted unless the input names it.
unfoldable pub keeps : ℕ → List ℕ → Subtask → Bool
keeps task ids s = not (s.task_id == task) || has ids s.id

abbrev pub subtask_id : Subtask → ℕ
subtask_id s = s.id

-- `excluded.…`: the columns of a row that the conflicting insert overwrites.
unfoldable pub overwrite : ℕ → SubtaskInput → Subtask → Subtask
overwrite i given s = record s {
  title = given.title;
  is_completed = given.is_completed;
  assignee_sub = given.assignee_sub;
  position = get_or given.position i;
}

unfoldable pub new_subtask : ℕ → ℕ → ℕ → SubtaskInput → Subtask
new_subtask id task i given = record {
  id = id;
  task_id = task;
  title = given.title;
  is_completed = given.is_completed;
  assignee_sub = given.assignee_sub;
  position = get_or given.position i;
}

-- `insert … on conflict (id) do update`; `was` is the table before the delete.
unfoldable pub insert_values :
    ℕ → List Subtask → ℕ → List SubtaskInput → List Subtask → ℕ → List Subtask × ℕ
unfolding overwrite new_subtask is_existing
insert_values task was i [] rows next = (rows, next)
insert_values task was i (s ∷ rest) rows next = elim s.id [
  | none ↦ insert_values task was (suc i) rest (rows ++ new_subtask next task i s ∷ []) (next + 1)
  | some k ↦ elim (is_existing task was k) [
    | true ↦ insert_values task was (suc i) rest (update_by subtask_id k (overwrite i s) rows) next
    | false ↦
        insert_values task was (suc i) rest (rows ++ new_subtask next task i s ∷ []) (next + 1)
  ]
]

unfoldable pub upsert_subtasks :
    ℕ → List SubtaskInput → List Subtask → ℕ → Outcome (List Subtask × ℕ)
unfolding incoming_ids has_repeats is_foreign keeps insert_values
upsert_subtasks task [] rows next = ok (select (λ s. not (s.task_id == task)) rows, next)
upsert_subtasks task (s ∷ rest) rows next = do
  require (not (has_repeats (incoming_ids (s ∷ rest)))) bad_request
  require (not (some_of (is_foreign task (incoming_ids (s ∷ rest))) rows)) bad_request
  ok (
      insert_values task rows 0 (s ∷ rest) (select (keeps task (incoming_ids (s ∷ rest))) rows)
        next)
