-- ===== src/Board/Progress.antt =====
-- domain/project-aggregate.ts and board/board-task-progress.ts: the progress of a task, and when
-- it counts as completed.
-- `Math.round((c / n) * 100)` rounds the exact quotient half up, except where 100 c / n ends in
-- exactly one half: there the double may fall below it, and the parameter `tie_up` says whether it
-- reaches it. Every theorem holds whatever `tie_up` is.
pub mod Exact
pub mod Completion
use crm_collab.Base.{
  ℕ, zero, suc, ◌+◌, ◌-◌, ◌*◌, ◌/◌, ◌%◌, Bool, true, false, ◌&&◌, not, Option, none, some, List, [],
  ◌∷◌, ltb, ◌==◌, if◌then◌else◌, length, select, get_or,
}
use crm_collab.Base.Outcome.{Outcome, ok, throw, bad_request}
use crm_collab.Board.Model.{ColumnKey, done}

unfoldable pub is_finalization_column : ColumnKey → Bool
is_finalization_column done = true
is_finalization_column ColumnKey.completed = true
is_finalization_column _ = false

unfoldable pub is_completed : ColumnKey → ℕ → Bool
unfolding is_finalization_column
is_completed key progress = is_finalization_column key && progress == 100

-- The number of subtasks that are completed.
unfoldable pub count_completed : List Bool → ℕ
count_completed [] = 0
count_completed (true ∷ l) = suc (count_completed l)
count_completed (false ∷ l) = count_completed l

pub record Progress : Type 0 where
  pub calculated_progress : ℕ
  pub completed_at : Option ℕ

module _ (tie_up : ℕ → ℕ → Bool) where
  -- The rounded percentage, for a positive `n`.
  unfoldable pub percentage : ℕ → ℕ → ℕ
  percentage c n =
      let up = (200 * c + n) / (2 * n) in
      if (200 * c + n) % (2 * n) == 0 && not (tie_up c n) then up - 1 else up

  unfoldable pub calculate_checklist_progress : Option (List Bool) → ℕ → ℕ
  unfolding percentage count_completed
  calculate_checklist_progress none fallback = fallback
  calculate_checklist_progress (some []) fallback = 0
  calculate_checklist_progress (some (b ∷ l)) fallback =
      percentage (count_completed (b ∷ l)) (length (b ∷ l))

  -- `hasSubtasks` is false: the column decides whether the progress is 100.
  unfoldable pub progress_of_column : ColumnKey → ℕ → ℕ
  unfolding is_finalization_column
  progress_of_column key progress =
      if is_finalization_column key then 100 else if progress == 100 then 0 else progress

  unfoldable pub resolve_task_progress_and_completion :
      ColumnKey → List Bool → Option ℕ → Option ℕ → ℕ → Outcome Progress
  unfolding calculate_checklist_progress progress_of_column is_completed
  resolve_task_progress_and_completion key [] checklist existing now =
      let progress = progress_of_column key (get_or checklist 0) in
      ok (record {
        calculated_progress = progress;
        completed_at = if is_completed key progress then some (get_or existing now) else none;
      })
  resolve_task_progress_and_completion key (b ∷ l) checklist existing now =
      let progress = calculate_checklist_progress (some (b ∷ l)) 0 in
      if is_finalization_column key && ltb progress 100
      then throw bad_request
      else ok (record {
        calculated_progress = progress;
        completed_at = if is_completed key progress then some (get_or existing now) else none;
      })
