-- ===== src/Changes/Effects/Resolution.antt =====
-- change-request.service.ts and brief.service.ts: what a resolution and a change of the brief do.
use mathlib.Core.Path.{subst}
use mathlib.Core.Logic.{inl, inr}
use mathlib.Core.List.{append-nil}
use crm_collab.Base.{
  ℕ, ◌≡◌, refl, sym, ◌∙◌, not, ◌&&◌, Bool-cases, Option, some, none, List, [], ◌∷◌, ◌++◌, ◌==◌,
  if◌then◌else◌,
}
use crm_collab.Base.Text.{Text}
use crm_collab.Base.Outcome.{ok, after-ok, after_require, after_found, ok-injective}
use crm_collab.Access.{Actor, AccessRepo, is_admin, can_edit_brief, assert_project_access}
use crm_collab.Changes.{
  formal, RequestStatus, approved, ChangeRequest, ChangeDb, ChangeEvent, ChangeLogEntry, is_minor,
  is_approved, find_change_request_by_id, update_change_request_by_id,
}
use crm_collab.Changes.Service.{
  log_approval, resolution_event, emit_some, escalator_of, announce, resolve_change_request,
  patch_brief,
}
use crm_collab.Changes.Effects.{}

-- A resolution: the request's row is changed, and an approved formal request is logged.
pub record Resolves (db db' : ChangeDb) (id : ℕ) (status : RequestStatus) : Type 0 where
  pub request : ChangeRequest
  pub read : find_change_request_by_id db id ≡ some request
  pub resolver : ℕ
  pub comment : Option Text
  pub escalator : Option ℕ
  pub now : ℕ
  pub rows :
      db'.requests
      ≡ update_change_request_by_id id status resolver comment escalator now db.requests
  pub entries : List ChangeLogEntry
  pub log : db'.change_log ≡ db.change_log ++ entries
  pub logged :
      request.type ≡ formal
      → status ≡ approved
      → (e : ChangeLogEntry) × (entries ≡ e ∷ []) × (e.source_change_request_id ≡ some request.id)
  pub ids : db'.next_id ≡ db.next_id

-- What the log gets.
entries_of : Actor → ChangeRequest → RequestStatus → ℕ → List ChangeLogEntry
unfolding is_minor is_approved
entries_of actor req status now =
    if not (is_minor req.type) && is_approved status
    then record {
      project_id = req.project_id;
      requested_by_sub = req.requested_by_sub;
      approved_by_sub = some actor.sub;
      description = req.description;
      source_change_request_id = some req.id;
      created_at = now;
    }
      ∷ []
    else []

log_approval-change_log :
    (actor : Actor) (req : ChangeRequest) (status : RequestStatus) (now : ℕ) (db : ChangeDb)
    → let db' = log_approval actor req status now db in
      (db'.requests ≡ db.requests)
      × (db'.change_log ≡ db.change_log ++ entries_of actor req status now)
      × (db'.next_id ≡ db.next_id)
unfolding log_approval entries_of
log_approval-change_log actor req status now db =
    elim (Bool-cases (not (is_minor req.type) && is_approved status)) [
      | inl yes_log ↦ rw yes_log (refl, refl, refl)
      | inr no_log ↦ rw no_log (refl, sym (append-nil db.change_log), refl)
    ]

entries_of-logged :
    (actor : Actor) (req : ChangeRequest) (status : RequestStatus) (now : ℕ)
    → req.type ≡ formal
    → status ≡ approved
    → (e : ChangeLogEntry) × (entries_of actor req status now ≡ e ∷ [])
      × (e.source_change_request_id ≡ some req.id)
unfolding entries_of
entries_of-logged actor req status now is_formal is_done = rw (is_formal, is_done) (_, refl, refl)

emit_some-keeps :
    (project_id sub : ℕ) (event : Option ChangeEvent) (db : ChangeDb)
    → let db' = emit_some project_id sub event db in
      (db'.requests ≡ db.requests) × (db'.change_log ≡ db.change_log) × (db'.next_id ≡ db.next_id)
unfolding emit_some
emit_some-keeps project_id sub none db = (refl, refl, refl)
emit_some-keeps project_id sub (some event) db = (refl, refl, refl)

announce-keeps :
    (actor : Actor) (req : ChangeRequest) (project_id : ℕ) (status : RequestStatus)
    (comment : Option Text) (db : ChangeDb)
    → let db' = announce actor req project_id status comment db in
      (db'.requests ≡ db.requests) × (db'.change_log ≡ db.change_log) × (db'.next_id ≡ db.next_id)
unfolding announce
announce-keeps actor req project_id status comment db =
    emit_some-keeps project_id actor.sub (resolution_event req req.type status)
      (record db { audit = _; messages = _ })

-- The state in which a resolution has written its row and the log.
abbrev logged_state :
    ChangeDb → Actor → ChangeRequest → ℕ → RequestStatus → Option Text → ℕ → ChangeDb
logged_state db actor req id status comment now = log_approval actor req status now (record db {
  requests =
      update_change_request_by_id id status actor.sub comment (escalator_of status actor.sub) now
        db.requests;
})

Resolves_lem :
    (db : ChangeDb) (actor : Actor) (req : ChangeRequest) (project_id id : ℕ)
    (status : RequestStatus) (comment : Option Text) (now : ℕ)
    → find_change_request_by_id db id ≡ some req
    → Resolves db
        (announce actor req project_id status comment
          (logged_state db actor req id status comment now))
        id
        status
Resolves_lem db actor req project_id id status comment now read =
    let written : ChangeDb = record db {
      requests =
          update_change_request_by_id id status actor.sub comment (escalator_of status actor.sub)
            now db.requests;
    } in
    let (rows, log, ids) = log_approval-change_log actor req status now written in
    let (rows', log', ids') =
      announce-keeps actor req project_id status comment
        (log_approval actor req status now written) in
    record {
      request = req;
      read = read;
      resolver = actor.sub;
      comment = comment;
      escalator = escalator_of status actor.sub;
      now = now;
      rows = rows' ∙ rows;
      entries = entries_of actor req status now;
      log = log' ∙ log;
      logged = entries_of-logged actor req status now;
      ids = ids' ∙ ids;
    }

pub resolve-Resolves :
    (repo : AccessRepo) (db : ChangeDb) (actor : Actor) (project_id id : ℕ) (status : RequestStatus)
    (comment : Option Text) (now : ℕ) {r : ChangeRequest} {db' : ChangeDb}
    → resolve_change_request repo db actor project_id id status comment now ≡ ok (r, db')
    → Resolves db db' id status
unfolding resolve_change_request
resolve-Resolves repo db actor project_id id status comment now e =
    after_found (find_change_request_by_id db id) _ _ e (λ req read e₁.
      after_require (req.project_id == project_id) _ _ e₁ (λ here e₂.
        after-ok (assert_project_access repo actor project_id) _ e₂ (λ access may e₃.
          after_require (is_admin actor.role) _ _ e₃ (λ admin e₄.
            after_found
              (find_change_request_by_id (logged_state db actor req id status comment now) id) _ _
              e₄
              (λ updated there e₅.
                subst (λ (p : ChangeRequest × ChangeDb). Resolves db p.1 id status)
                  (ok-injective _ _ e₅)
                  (Resolves_lem db actor req project_id id status comment now read))))))

pub patch_brief-keeps :
    (repo : AccessRepo) (db : ChangeDb) (actor : Actor) (project_id : ℕ) (body : Text) (now : ℕ)
    {db' : ChangeDb}
    → patch_brief repo db actor project_id body now ≡ ok db'
    → (db'.requests ≡ db.requests)
      × (db'.next_id ≡ db.next_id)
      × ((e : ChangeLogEntry) × (e.source_change_request_id ≡ none)
          × (db'.change_log ≡ db.change_log ++ e ∷ []))
unfolding patch_brief
patch_brief-keeps repo db actor project_id body now e =
    after-ok (assert_project_access repo actor project_id) _ e (λ access is e₁.
      after_require (can_edit_brief actor.role (some access.member_role)) _ _ e₁ (λ may e₂.
        subst
          (λ (d : ChangeDb).
            (d.requests ≡ db.requests)
            × (d.next_id ≡ db.next_id)
            × ((e : ChangeLogEntry) × (e.source_change_request_id ≡ none)
                × (d.change_log ≡ db.change_log ++ e ∷ [])))
          (ok-injective _ _ e₂) (refl, refl, (_, refl, refl))))
