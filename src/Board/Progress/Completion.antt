-- ===== src/Board/Progress/Completion.antt =====
-- board/board-task-progress.ts: when a task may stand in a final column, and when it is completed.
use native.Mathlib.Decide.{dec_lt}
use crm_collab.Base.{
  ℕ, ◌≤◌, ◌<◌, ◌≡◌, ◌↔◌, refl, Bool, true, false, Option, none, some, List, [], ◌∷◌, arith, length,
  get_or, All,
}
use crm_collab.Base.Outcome.{ok, throw, bad_request}
use crm_collab.Board.Model.{ColumnKey}
use crm_collab.Board.Progress.{
  count_completed, percentage, is_finalization_column, Progress,
  resolve_task_progress_and_completion,
}
use crm_collab.Board.Progress.Exact.{
  count_completed-le, percentage-le, percentage_full, percentage_partial,
}

-- Every subtask is completed.
abbrev pub AllCompleted : List Bool → Type 0
AllCompleted l = All (λ b. b ≡ true) l

count_completed_of_AllCompleted : (l : List Bool) → AllCompleted l → count_completed l ≡ length l
unfolding count_completed
count_completed_of_AllCompleted [] h = refl
count_completed_of_AllCompleted (true ∷ l) h = omega (arith, count_completed_of_AllCompleted l h.1)
count_completed_of_AllCompleted (false ∷ l) h = cc

AllCompleted-of_count_completed : (l : List Bool) → length l ≤ count_completed l → AllCompleted l
unfolding count_completed
AllCompleted-of_count_completed [] h = tt
AllCompleted-of_count_completed (true ∷ l) h =
    (refl, AllCompleted-of_count_completed l (omega arith))
AllCompleted-of_count_completed (false ∷ l) h = absurd (omega (arith, count_completed-le l))

module _ (tie_up : ℕ → ℕ → Bool) where
  abbrev progress_of : List Bool → ℕ
  progress_of l = percentage tie_up (count_completed l) (length l)

  progress_of-lt : (l : List Bool) → length l < 200 → ¬ AllCompleted l → progress_of l < 100
  progress_of-lt l few open_ones = elim (dec_lt (count_completed l) (length l)) [
    | yes some_open ↦ percentage_partial tie_up (count_completed l) (length l) some_open few
    | no none_open ↦ absurd (open_ones (AllCompleted-of_count_completed l (omega arith)))
  ]

  progress_of-full : (b : Bool) (l : List Bool) → AllCompleted (b ∷ l) → progress_of (b ∷ l) ≡ 100
  progress_of-full b l h =
      rw (count_completed_of_AllCompleted (b ∷ l) h)
        (percentage_full tie_up (length (b ∷ l)) (omega arith))

  progress_of-le : (b : Bool) (l : List Bool) → progress_of (b ∷ l) ≤ 100
  progress_of-le b l =
      percentage-le tie_up (count_completed (b ∷ l)) (length (b ∷ l)) (count_completed-le (b ∷ l))
        (omega arith)

  -- With fewer than 200 subtasks, a task is refused the final column exactly when one of its
  -- subtasks is not completed.
  pub resolve-throw_iff :
      (key : ColumnKey) (l : List Bool) (checklist existing : Option ℕ) (now : ℕ)
      → length l < 200
      → (resolve_task_progress_and_completion tie_up key l checklist existing now
          ≡ throw bad_request)
        ↔ ((is_finalization_column key ≡ true) × ¬ AllCompleted l)
  unfolding resolve_task_progress_and_completion
  resolve-throw_iff key [] checklist existing now few = (λ e. cc, λ h. absurd (h.1 tt))
  resolve-throw_iff key (b ∷ l) checklist existing now few = (
    λ e. (ground arith, λ all. ground (arith, progress_of-full b l all)),
    λ h. ground (arith, progress_of-lt (b ∷ l) few h.1),
  )

  pub resolve_final :
      (key : ColumnKey) (l : List Bool) (checklist existing : Option ℕ) (now : ℕ) (p : Progress)
      → resolve_task_progress_and_completion tie_up key l checklist existing now ≡ ok p
      → (is_finalization_column key ≡ true
          → (p.calculated_progress ≡ 100) × (p.completed_at ≡ some (get_or existing now)))
        × (is_finalization_column key ≡ false → p.completed_at ≡ none)
  unfolding resolve_task_progress_and_completion
  resolve_final key [] checklist existing now p e = ground arith
  resolve_final key (b ∷ l) checklist existing now p e = ground (arith, progress_of-le b l)

  -- A result counts as completed exactly in a final column, where its progress is 100; it keeps
  -- the first completion time, and never exceeds 100.
  pub resolve_completed :
      (key : ColumnKey) (l : List Bool) (checklist existing : Option ℕ) (now : ℕ) (p : Progress)
      → get_or checklist 0 ≤ 100
      → resolve_task_progress_and_completion tie_up key l checklist existing now ≡ ok p
      → (p.calculated_progress ≤ 100)
        × (is_finalization_column key ≡ true
            → (p.calculated_progress ≡ 100) × (p.completed_at ≡ some (get_or existing now)))
        × (is_finalization_column key ≡ false → p.completed_at ≡ none)
  unfolding resolve_task_progress_and_completion
  resolve_completed key [] checklist existing now p h e = ground arith
  resolve_completed key (b ∷ l) checklist existing now p h e = ground (arith, progress_of-le b l)
