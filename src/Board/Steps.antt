-- ===== src/Board/Steps.antt =====
-- The board as one state machine: any sequence of successful calls of createTask, updateTask,
-- blockTask and unblockTask and of runs of the approval job.
use mathlib.Core.Path.{subst}
use crm_collab.Base.{
  ℕ, ◌+◌, ◌≡◌, refl, sym, ◌∙◌, ap, inl, inr, Bool, Option, some, [], ◌∷◌, ◌++◌, arith, Option-cases,
}
use crm_collab.Base.Text.{Text}
use crm_collab.Base.Table.{IsKeyed, find_by, find_by-append}
use crm_collab.Base.Outcome.{ok, after-ok, ok-injective}
use crm_collab.Access.{Actor, AccessRepo}
use crm_collab.Board.Model.{
  Task, Column, Db, find_task_by_id, find_task_column_by_id, task_id, column_id, update_task_by_id,
  project_task_created,
}
use crm_collab.Board.Summary.{sync_project_summary}
use crm_collab.Board.Progress.{Progress}
use crm_collab.Board.Events.{UpdateTaskInput}
use crm_collab.Board.Update.{check_update, update_patch, update_task}
use crm_collab.Board.Create.{
  CreateTaskInput, new_task, create_subtasks, create_assignees, create_events, commit_create,
  check_create, create_task,
}
use crm_collab.Board.Blocking.{UnblockOptions, block_task, unblock_task}
use crm_collab.Board.Sla.{check_client_approval_sla}
use crm_collab.Board.Frame.{
  SameBoard, SameBoard_trans, comment_resolution-SameBoard, sync-SameBoard, emit_all-SameBoard,
  create_subtasks-SameBoard, create_assignees-SameBoard, audit-SameBoard,
}
use crm_collab.Board.BlockData.{
  commit_update-SameBoard, NoBlock, IsConsistent, SameBoard-IsConsistent, update_task-IsConsistent,
}
use crm_collab.Board.BlockCycle.{
  block_task-Blocks, unblock_task-Unblocks, block_task-IsConsistent, unblock_task-IsConsistent,
}
use crm_collab.Board.Sla.Effect.{check-SameBoard, check-IsConsistent}

-- A new task carries no block data, in whatever column it is created.
append-IsConsistent :
    (db : Db) (new : Task) (next : ℕ)
    → NoBlock new
    → IsConsistent db
    → IsConsistent (record db { tasks = db.tasks ++ new ∷ []; next_id = next })
unfolding find_task_by_id find_task_column_by_id find_by
append-IsConsistent db new next blank h = record {
  at = λ id t c ft fc free.
      let split = find_by-append task_id id db.tasks (new ∷ []) in
      elim (Option-cases (find_by task_id id db.tasks)) [
        | inl absent ↦
            let same : new ≡ t = ground (arith, split, absent, ft) in subst NoBlock same blank
        | inr (t₀, there) ↦
            let before : find_by task_id id db.tasks ≡ some t = ground (arith, split, there, ft) in
            h.at id t c before fc free
      ];
}

patch-columns :
    (now id : ℕ) (p : _) (db : Db) → (update_task_by_id now id p db).columns ≡ db.columns
unfolding update_task_by_id
patch-columns now id p db = refl

module _ (repo : AccessRepo) (profile_email : ℕ → Option ℕ) where
  commit_create-SameBoard :
      (actor : Actor) (project_id : ℕ) (payload : CreateTaskInput) (now : ℕ) (column : Column)
      (progress : Progress) (db : Db) {t : Task} {db' : Db}
      → commit_create repo profile_email actor project_id payload now column progress db
        ≡ ok (t, db')
      → SameBoard
          (record db {
            tasks = db.tasks ++ new_task db.next_id actor project_id payload progress now ∷ [];
            next_id = db.next_id + 1;
          })
          db'
  unfolding commit_create
  commit_create-SameBoard actor project_id payload now column progress db e =
      let id = db.next_id in
      let db₁ = record db {
        tasks = db.tasks ++ new_task db.next_id actor project_id payload progress now ∷ [];
        next_id = db.next_id + 1;
      } in
      after-ok (create_subtasks id payload.subtasks db₁) _ e λ db₂ wrote e₁.
        after-ok (create_assignees repo profile_email id project_id payload.assignees db₂) _ e₁
          λ db₃ gave e₂. subst (SameBoard db₁) (ap (λ (r : Task × Db). r.1) (ok-injective _ _ e₂)) (
            SameBoard_trans (create_subtasks-SameBoard id payload.subtasks db₁ wrote) (
              SameBoard_trans
                (create_assignees-SameBoard repo profile_email id project_id payload.assignees db₂
                  gave)
                (SameBoard_trans (sync-SameBoard project_id db₃) (
                  SameBoard_trans
                    (audit-SameBoard actor.sub project_task_created id
                      (sync_project_summary project_id db₃))
                    (emit_all-SameBoard project_id actor.sub (create_events id actor column payload)
                      _)))))

  new_task-NoBlock :
      (id : ℕ) (actor : Actor) (project_id : ℕ) (payload : CreateTaskInput) (progress : Progress)
      (now : ℕ)
      → NoBlock (new_task id actor project_id payload progress now)
  unfolding new_task
  new_task-NoBlock id actor project_id payload progress now = record {
    reason = refl;
    type = refl;
    since = refl;
    by_sub = refl;
  }

module _ (tie_up : ℕ → ℕ → Bool) (repo : AccessRepo) (profile_email : ℕ → Option ℕ) where
  -- The invariant, with what it rests on: the ids of the columns are distinct.
  pub record BoardOk (db : Db) : Type 0 where
    pub keyed : IsKeyed column_id db.columns
    pub consistent : IsConsistent db

  create_task-Ok :
      (db : Db) (actor : Actor) (project_id : ℕ) (payload : CreateTaskInput) (now : ℕ) {t : Task}
      {db' : Db}
      → create_task tie_up repo profile_email db actor project_id payload now ≡ ok (t, db')
      → BoardOk db
      → BoardOk db'
  unfolding create_task
  create_task-Ok db actor project_id payload now e h =
      after-ok (check_create tie_up repo profile_email db actor project_id payload now) _ e
        λ checked how done.
          let same =
            commit_create-SameBoard repo profile_email actor project_id payload now checked.0
              checked.1 db done in
          record {
            keyed = subst (IsKeyed column_id) (sym same.columns) h.keyed;
            consistent = SameBoard-IsConsistent same (
                append-IsConsistent db (new_task db.next_id actor project_id payload checked.1 now)
                  (db.next_id + 1)
                  (new_task-NoBlock repo profile_email db.next_id actor project_id payload checked.1
                    now)
                  h.consistent);
          }

  update_task-Ok :
      (db : Db) (actor : Actor) (id : ℕ) (patch : UpdateTaskInput) (now : ℕ) {t : Task} {db' : Db}
      → update_task tie_up repo profile_email db actor id patch now ≡ ok (t, db')
      → BoardOk db
      → BoardOk db'
  unfolding update_task
  update_task-Ok db actor id patch now e h =
      after-ok (check_update tie_up repo profile_email db actor id patch now) _ e
        λ plan checked done.
          let same = commit_update-SameBoard repo profile_email actor id patch now plan db done in
          record {
            keyed =
                subst (IsKeyed column_id)
                  (sym (same.columns ∙ patch-columns now id (update_patch actor patch now plan) db))
                  h.keyed;
            consistent =
                update_task-IsConsistent tie_up repo profile_email db actor id patch now
                  h.consistent e;
          }

  -- One successful call, or one run of the job.
  pub data BoardStep (db : Db) : Db → Type 0 where
    creates :
        (actor : Actor) (project_id : ℕ) (payload : CreateTaskInput) (now : ℕ) (t : Task) {db' : Db}
        → create_task tie_up repo profile_email db actor project_id payload now ≡ ok (t, db')
        → BoardStep db db'
    updates :
        (actor : Actor) (id : ℕ) (patch : UpdateTaskInput) (now : ℕ) (t : Task) {db' : Db}
        → update_task tie_up repo profile_email db actor id patch now ≡ ok (t, db')
        → BoardStep db db'
    blocks :
        (actor : Actor) (id : ℕ) (reason : Text) (now : ℕ) (t : Task) {db' : Db}
        → block_task repo db actor id reason now ≡ ok (t, db')
        → BoardStep db db'
    unblocks :
        (actor : Actor) (id : ℕ) (options : UnblockOptions) (now : ℕ) (t : Task) {db' : Db}
        → unblock_task repo db actor id options now ≡ ok (t, db')
        → BoardStep db db'
    times_out :
        (emits : ℕ → Bool) (hours now : ℕ)
        → BoardStep db (check_client_approval_sla emits hours now db).1

  pub data BoardReaches (db : Db) : Db → Type 0 where
    here : BoardReaches db db
    later : (mid : Db) {db' : Db} → BoardReaches db mid → BoardStep mid db' → BoardReaches db db'

  BoardStep-Ok : (db db' : Db) → BoardStep db db' → BoardOk db → BoardOk db'
  unfolding update_task_by_id
  BoardStep-Ok db db' (creates actor project_id payload now t e) h =
      create_task-Ok db actor project_id payload now e h
  BoardStep-Ok db db' (updates actor id patch now t e) h = update_task-Ok db actor id patch now e h
  BoardStep-Ok db db' (blocks actor id reason now t e) h =
      let b = block_task-Blocks repo db actor id reason now e in
      record {
        keyed = subst (IsKeyed column_id) (sym b.board.columns) h.keyed;
        consistent = block_task-IsConsistent repo db actor id reason now h.keyed h.consistent e;
      }
  BoardStep-Ok db db' (unblocks actor id options now t e) h =
      let b = unblock_task-Unblocks repo db actor id options now e in
      let said = comment_resolution-SameBoard actor id options.resolution_comment db in
      record {
        keyed = subst (IsKeyed column_id) (sym (b.board.columns ∙ said.columns)) h.keyed;
        consistent = unblock_task-IsConsistent repo db actor id options now h.consistent e;
      }
  BoardStep-Ok db db' (times_out emits hours now) h = record {
    keyed = subst (IsKeyed column_id) (sym (check-SameBoard emits hours now db).columns) h.keyed;
    consistent = check-IsConsistent emits hours now db h.keyed h.consistent;
  }

  -- Whatever calls succeed and whenever the job runs, a task that stands outside the column of blocked
  -- tasks carries no reason, type, time or author of a block, if that held at first and the ids of the
  -- columns are distinct.
  pub block_data_only_in_blocked : {db db' : Db} → BoardReaches db db' → BoardOk db → BoardOk db'
  block_data_only_in_blocked here h = h
  block_data_only_in_blocked (later mid reached step) h =
      BoardStep-Ok mid _ step (block_data_only_in_blocked reached h)
