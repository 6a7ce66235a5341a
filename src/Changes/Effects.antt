-- ===== src/Changes/Effects.antt =====
-- change-request.service.ts: what each command does to the requests and to the log.
pub mod Resolution
use mathlib.Core.Path.{subst}
use mathlib.Core.Logic.{inl, inr}
use mathlib.Core.List.{append-nil}
use crm_collab.Base.{
  ℕ, ◌+◌, ◌≤◌, ◌≡◌, refl, sym, ◌∙◌, ap, false, not, ◌&&◌, Bool-cases, Option, some, none, List, [],
  ◌∷◌, ◌++◌, arith, some_of, ◌==◌, if◌then◌else◌,
}
use crm_collab.Base.Text.{Text}
use crm_collab.Base.Table.{find_by}
use crm_collab.Base.Outcome.{ok, after-ok, after_require, after_found, ok-injective}
use crm_collab.Access.{
  Actor, AccessRepo, is_admin, is_client, can_edit_brief, assert_project_access,
}
use crm_collab.Board.Model.{Task, task_id}
use crm_collab.Changes.{
  formal, RequestStatus, opened, approved, ChangeRequest, ChangeDb, ChangeEvent, MinorPayload,
  FormalPayload, ChangeLogEntry, is_minor, is_approved, find_change_request_by_id,
  list_minor_requests, update_change_request_by_id, create_change_request, new_request,
}
use crm_collab.Changes.Tasks.{task_for, task_or_default, first_task, first_column}
use crm_collab.Changes.Service.{
  open_for, record_minor, create_minor_change_request, create_formal_change_request, task_exists,
  log_approval, resolution_event, emit_some, escalator_of, announce, resolve_change_request,
  patch_brief,
}

-- A new request, with an id that was not in use.
pub record Adds (db db' : ChangeDb) (r : ChangeRequest) : Type 0 where
  pub rows : db'.requests ≡ db.requests ++ r ∷ []
  pub log : db'.change_log ≡ db.change_log
  pub fresh : db.next_id ≤ r.id
  pub grows : db'.next_id ≡ r.id + 1
  pub opened : r.status ≡ opened

-- No other open minor request of the project is about the task of the new one.
pub record IsOnly (db : ChangeDb) (r : ChangeRequest) : Type 0 where
  pub task : ℕ
  pub about : r.task_id ≡ some task
  pub alone : some_of (open_for task) (list_minor_requests db r.project_id) ≡ false

-- Finding the task leaves the requests and the log alone.
record Prepares (db db' : ChangeDb) : Type 0 where
  pub rows : db'.requests ≡ db.requests
  pub log : db'.change_log ≡ db.change_log
  pub ids : db.next_id ≤ db'.next_id

task_or_default-Prepares :
    (first : Option Task) (actor : Actor) (project_id now : ℕ) (db : ChangeDb) {task : ℕ}
    {db' : ChangeDb}
    → task_or_default first actor project_id now db ≡ ok (task, db')
    → Prepares db db'
task_or_default-Prepares (some t) actor project_id now db e = ground (arith, e)
task_or_default-Prepares none actor project_id now db e =
    after_found (first_column db project_id) _ _ e (λ column is made. ground (arith, made))

task_for-Prepares :
    (wanted : Option ℕ) (actor : Actor) (project_id now : ℕ) (db : ChangeDb) {task : ℕ}
    {db' : ChangeDb}
    → task_for wanted actor project_id now db ≡ ok (task, db')
    → Prepares db db'
unfolding task_for
task_for-Prepares (some id) actor project_id now db e = ground (arith, e)
task_for-Prepares none actor project_id now db e =
    task_or_default-Prepares (first_task db project_id) actor project_id now db e

-- What recording a minor request does to the state that it finds.
record_minor-Adds :
    (actor : Actor) (project_id : ℕ) (payload : MinorPayload) (now task : ℕ) (db : ChangeDb)
    {r : ChangeRequest} {db' : ChangeDb}
    → record_minor actor project_id payload now task db ≡ ok (r, db')
    → Adds db db' r × IsOnly db r
unfolding record_minor new_request create_change_request
record_minor-Adds actor project_id payload now task db e =
    after_found (find_by task_id task db.tasks) _ _ e (λ t is e₁.
      after_require (t.project_id == project_id) _ _ e₁ (λ here e₂.
        after_require (not (some_of (open_for task) (list_minor_requests db project_id))) _ _ e₂
          (λ free e₃.
            subst (λ (p : ChangeRequest × ChangeDb). Adds db p.1 p.0 × IsOnly db p.0)
              (ok-injective _ _ e₃)
              (
                record {
                  rows = refl;
                  log = refl;
                  fresh = omega arith;
                  grows = refl;
                  opened = refl;
                },
                record { task = task; about = refl; alone = ground (arith, free) },
              ))))

-- A request that is added to a state which differs from the first one in its tasks.
Adds-Prepares :
    {db mid after : ChangeDb} {r : ChangeRequest}
    → Prepares db mid
    → Adds mid after r × IsOnly mid r
    → Adds db after r × IsOnly db r
unfolding list_minor_requests
Adds-Prepares {db} {mid} {after} {r} p (a, o) = (
  record {
    rows = a.rows ∙ ap (λ (rs : List ChangeRequest). rs ++ r ∷ []) p.rows;
    log = a.log ∙ p.log;
    fresh = omega (arith, p.ids, a.fresh);
    grows = a.grows;
    opened = a.opened;
  },
  record { task = o.task; about = o.about; alone = rw (← p.rows) o.alone },
)

pub create_minor-Adds :
    (repo : AccessRepo) (db : ChangeDb) (actor : Actor) (project_id : ℕ) (payload : MinorPayload)
    (now : ℕ) {r : ChangeRequest} {db' : ChangeDb}
    → create_minor_change_request repo db actor project_id payload now ≡ ok (r, db')
    → Adds db db' r × IsOnly db r
unfolding create_minor_change_request
create_minor-Adds repo db actor project_id payload now e =
    after-ok (assert_project_access repo actor project_id) _ e (λ access is e₁.
      after_require (is_client actor.role) _ _ e₁ (λ client e₂.
        after-ok (task_for payload.task_id actor project_id now db) _ e₂
          (λ (found : ℕ × ChangeDb) prepared e₃.
            Adds-Prepares (task_for-Prepares payload.task_id actor project_id now db prepared)
              (record_minor-Adds actor project_id payload now found.0 found.1 e₃))))

pub create_formal-Adds :
    (repo : AccessRepo) (db : ChangeDb) (actor : Actor) (project_id : ℕ) (payload : FormalPayload)
    (now : ℕ) {r : ChangeRequest} {db' : ChangeDb}
    → create_formal_change_request repo db actor project_id payload now ≡ ok (r, db')
    → Adds db db' r × (r.type ≡ formal)
unfolding create_formal_change_request new_request create_change_request
create_formal-Adds repo db actor project_id payload now e =
    after-ok (assert_project_access repo actor project_id) _ e (λ access is e₁.
      after_require (is_client actor.role) _ _ e₁ (λ client e₂.
        after_require (task_exists payload.task_id db) _ _ e₂ (λ exists e₃.
          subst (λ (p : ChangeRequest × ChangeDb). Adds db p.1 p.0 × (p.0.type ≡ formal))
            (ok-injective _ _ e₃)
            (
              record { rows = refl; log = refl; fresh = omega arith; grows = refl; opened = refl },
              refl,
            ))))
