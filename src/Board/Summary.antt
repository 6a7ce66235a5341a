-- ===== src/Board/Summary.antt =====
-- The aggregate of project.repository.ts that `syncProjectSummary` runs: the status and the
-- progress of a project from its tasks.
use crm_collab.Base.{
  ℕ, ◌+◌, ◌*◌, ◌/◌, Bool, false, not, Option, none, some, List, [], ◌∷◌, ◌==◌, if◌then◌else◌,
  length, select, some_of,
}
use crm_collab.Base.Table.{update_by}
use crm_collab.Board.Model.{
  ColumnKey, pending, doing, internal_review, client_approval, blocked, done, Task, Db, Summary,
  ProjectStatus, todo, in_progress, in_review, same_key, find_task_column_by_id,
}

-- A task of the project with the key of its column (the left join finds one, by the foreign key)
-- and whether it has subtasks.
pub record Weighed : Type 0 where
  pub key : Option ColumnKey
  pub has_subtasks : Bool
  pub checklist_progress : ℕ

unfoldable pub key_is : ColumnKey → Weighed → Bool
unfolding same_key
key_is k w = elim w.key [ none ↦ false | some key ↦ same_key key k ]

-- `key <> 'pending'` is not true of a missing key.
unfoldable pub key_is_not : ColumnKey → Weighed → Bool
unfolding same_key
key_is_not k w = elim w.key [ none ↦ false | some key ↦ not (same_key key k) ]

column_weight : ColumnKey → ℕ
column_weight doing = 25
column_weight internal_review = 50
column_weight client_approval = 75
column_weight blocked = 10
column_weight done = 100
column_weight _ = 0

unfoldable pub weight : Weighed → ℕ
unfolding column_weight
weight w =
    if w.has_subtasks
    then w.checklist_progress
    else elim w.key [ none ↦ 0 | some key ↦ column_weight key ]

unfoldable pub total_weight : List Weighed → ℕ
unfolding weight
total_weight [] = 0
total_weight (w ∷ ws) = weight w + total_weight ws

-- `round(avg(…))`, which rounds a half up, and 0 without tasks.
unfoldable pub progress_average : List Weighed → ℕ
unfolding total_weight
progress_average [] = 0
progress_average (w ∷ ws) = (2 * total_weight (w ∷ ws) + length (w ∷ ws)) / (2 * length (w ∷ ws))

unfoldable pub status_of : List Weighed → ProjectStatus
unfolding key_is key_is_not
status_of [] = todo
status_of (w ∷ ws) =
    if length (w ∷ ws) == length (select (key_is done) (w ∷ ws))
    then ProjectStatus.completed
    else if some_of (key_is client_approval) (w ∷ ws)
    then in_review
    else if some_of (key_is_not pending) (w ∷ ws)
    then in_progress
    else todo

abbrev key_of : Db → Task → Option ColumnKey
key_of db t = elim (find_task_column_by_id db t.column_id) [ none ↦ none | some c ↦ some c.key ]

weighed_tasks : Db → ℕ → List Task → List Weighed
unfolding find_task_column_by_id
weighed_tasks db project [] = []
weighed_tasks db project (t ∷ ts) =
    let rest = weighed_tasks db project ts in
    if t.project_id == project
    then record {
      key = key_of db t;
      has_subtasks = some_of (λ s. s.task_id == t.id) db.subtasks;
      checklist_progress = t.checklist_progress;
    }
      ∷ rest
    else rest

abbrev summary_project : Summary → ℕ
summary_project s = s.project_id

unfoldable pub sync_project_summary : ℕ → Db → Db
unfolding weighed_tasks status_of progress_average
sync_project_summary project db =
    let tasks = weighed_tasks db project db.tasks in
    record db {
      summaries =
          update_by summary_project project
            (λ s. record s { status = status_of tasks; progress_percent = progress_average tasks })
            db.summaries;
    }
