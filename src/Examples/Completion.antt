-- ===== src/Examples/Completion.antt =====
-- The progress of a task on small lists of subtasks.
use crm_collab.Base.{ℕ, ◌≡◌, ◌↔◌, ◌≤◌, ◌<◌, refl, true, false, Option, none, some, [], ◌∷◌, arith}
use crm_collab.Base.Outcome.{ok, throw, bad_request}
use crm_collab.Board.Model.{done}
use crm_collab.Board.Progress.{
  Progress, is_finalization_column, resolve_task_progress_and_completion, percentage,
}
use crm_collab.Board.Progress.Exact.{percentage_partial}
use crm_collab.Board.Progress.Completion.{AllCompleted, resolve-throw_iff, resolve_completed}
use crm_collab.Examples.Data.{ties_down}

resolve-throw_iff_example :
    (resolve_task_progress_and_completion ties_down done (true ∷ false ∷ []) none none 5
      ≡ throw bad_request)
    ↔ ((is_finalization_column done ≡ true) × ¬ AllCompleted (true ∷ false ∷ []))
resolve-throw_iff_example =
    resolve-throw_iff ties_down done (true ∷ false ∷ []) none none 5 (omega arith)

abbrev finished : Progress
finished = record { calculated_progress = 100; completed_at = some 5 }

resolves :
    resolve_task_progress_and_completion ties_down done (true ∷ true ∷ []) none none 5 ≡ ok finished
unfolding resolve_task_progress_and_completion
resolves = refl

resolve_completed_example :
    (100 ≤ 100)
    × (is_finalization_column done ≡ true
        → ◌≡◌ {A = ℕ} 100 100 × ◌≡◌ {A = Option ℕ} (some 5) (some 5))
    × (is_finalization_column done ≡ false → ◌≡◌ {A = Option ℕ} (some 5) none)
resolve_completed_example =
    resolve_completed ties_down done (true ∷ true ∷ []) none none 5 finished (omega arith) resolves

percentage_partial_example : percentage ties_down 49 50 < 100
percentage_partial_example = percentage_partial ties_down 49 50 (omega arith) (omega arith)
