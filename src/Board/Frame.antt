-- ===== src/Board/Frame.antt =====
-- Which of the board's statements leave the tasks and the columns alone.
use crm_collab.Base.{
  ℕ, ◌≡◌, refl, ◌∙◌, Bool, true, false, Option, List, [], ◌∷◌, arith, if◌then◌else◌,
}
use crm_collab.Base.Outcome.{ok}
use crm_collab.Access.{AccessRepo, Actor, AssigneeInput}
use crm_collab.Board.Model.{
  find_task_by_id, find_task_column_by_id, Db, AuditAction, BoardEvent, emit, create_audit_log,
  create_task_comment, upsert_task_assignees,
}
use crm_collab.Board.Summary.{sync_project_summary}
use crm_collab.Board.Subtasks.{SubtaskInput}
use crm_collab.Board.Events.{UpdateTaskInput}
use crm_collab.Board.Update.{
  emit_all, log_task_update, resolution_comment, write_subtasks, write_assignees,
}
use crm_collab.Board.Blocking.{comment_resolution}
use crm_collab.Board.Create.{create_subtasks, create_assignees}

-- Same tasks and same columns.
pub record SameBoard (db db' : Db) : Type 0 where
  pub tasks : db'.tasks ≡ db.tasks
  pub columns : db'.columns ≡ db.columns

pub SameBoard_refl : (db : Db) → SameBoard db db
SameBoard_refl db = record { tasks = refl; columns = refl }

pub SameBoard_trans : {a b c : Db} → SameBoard a b → SameBoard b c → SameBoard a c
SameBoard_trans p q = record { tasks = q.tasks ∙ p.tasks; columns = q.columns ∙ p.columns }

pub SameBoard-find_task :
    {db db' : Db} (j : ℕ) → SameBoard db db' → find_task_by_id db' j ≡ find_task_by_id db j
unfolding find_task_by_id
SameBoard-find_task j same = rw same.tasks

pub SameBoard-find_column :
    {db db' : Db} (j : ℕ)
    → SameBoard db db'
    → find_task_column_by_id db' j ≡ find_task_column_by_id db j
unfolding find_task_column_by_id
SameBoard-find_column j same = rw same.columns

pub emit-SameBoard :
    (project actor : ℕ) (e : BoardEvent) (db : Db) → SameBoard db (emit project actor e db)
unfolding emit
emit-SameBoard project actor e db = record { tasks = refl; columns = refl }

pub emit_all-SameBoard :
    (project actor : ℕ) (es : List BoardEvent) (db : Db)
    → SameBoard db (emit_all project actor es db)
unfolding emit_all
emit_all-SameBoard project actor [] db = SameBoard_refl db
emit_all-SameBoard project actor (e ∷ es) db =
    SameBoard_trans (emit-SameBoard project actor e db)
      (emit_all-SameBoard project actor es (emit project actor e db))

pub sync-SameBoard : (project : ℕ) (db : Db) → SameBoard db (sync_project_summary project db)
unfolding sync_project_summary
sync-SameBoard project db = record { tasks = refl; columns = refl }

pub audit-SameBoard :
    (sub : ℕ) (action : AuditAction) (id : ℕ) (db : Db)
    → SameBoard db (create_audit_log sub action id db)
unfolding create_audit_log
audit-SameBoard sub action id db = record { tasks = refl; columns = refl }

pub sync_if-SameBoard :
    (b : Bool) (project : ℕ) (db : Db)
    → SameBoard db (if b then sync_project_summary project db else db)
sync_if-SameBoard true project db = sync-SameBoard project db
sync_if-SameBoard false project db = SameBoard_refl db

pub comment_resolution-SameBoard :
    (actor : Actor) (id : ℕ) (comment : Option (List ℕ)) (db : Db)
    → SameBoard db (comment_resolution actor id comment db)
unfolding comment_resolution create_task_comment
comment_resolution-SameBoard actor id comment db = ground arith

resolution_comment-SameBoard :
    (actor : Actor) (id : ℕ) (comment : Option (List ℕ)) (db : Db)
    → SameBoard db (resolution_comment actor id comment db)
unfolding resolution_comment create_task_comment
resolution_comment-SameBoard actor id comment db = ground arith

pub log_task_update-SameBoard :
    (actor : Actor) (id : ℕ) (to_blocked from_blocked : Bool) (comment : Option (List ℕ)) (db : Db)
    → SameBoard db (log_task_update actor id to_blocked from_blocked comment db)
unfolding log_task_update create_audit_log create_task_comment
log_task_update-SameBoard actor id to_blocked from_blocked comment db = ground arith

pub write_subtasks-SameBoard :
    (id : ℕ) (patch : UpdateTaskInput) (db : Db) {db' : Db}
    → write_subtasks id patch db ≡ ok db'
    → SameBoard db db'
unfolding write_subtasks
write_subtasks-SameBoard id patch db e = ground arith

module _ (repo : AccessRepo) (profile_email : ℕ → Option ℕ) where
  pub write_assignees-SameBoard :
      (id project : ℕ) (patch : UpdateTaskInput) (db : Db) {db' : Db}
      → write_assignees repo profile_email id project patch db ≡ ok db'
      → SameBoard db db'
  unfolding write_assignees upsert_task_assignees
  write_assignees-SameBoard id project patch db e = ground arith

pub create_subtasks-SameBoard :
    (id : ℕ) (given : List SubtaskInput) (db : Db) {db' : Db}
    → create_subtasks id given db ≡ ok db'
    → SameBoard db db'
unfolding create_subtasks
create_subtasks-SameBoard id given db e = ground arith

pub create_assignees-SameBoard :
    (repo : AccessRepo) (profile_email : ℕ → Option ℕ) (id project : ℕ) (given : List AssigneeInput)
    (db : Db) {db' : Db}
    → create_assignees repo profile_email id project given db ≡ ok db'
    → SameBoard db db'
unfolding create_assignees upsert_task_assignees
create_assignees-SameBoard repo profile_email id project given db e = ground arith
