-- ===== src/Changes/Steps.antt =====
-- change-request.service.ts and brief.service.ts as one state machine.
use crm_collab.Base.{ℕ, ◌≡◌, ◌≢◌, Option}
use crm_collab.Base.Text.{Text}
use crm_collab.Base.Outcome.{ok}
use crm_collab.Access.{Actor, AccessRepo}
use crm_collab.Changes.{RequestStatus, opened, ChangeRequest, ChangeDb, MinorPayload, FormalPayload}
use crm_collab.Changes.Service.{
  create_minor_change_request, create_formal_change_request, resolve_change_request, patch_brief,
}

-- One successful command. A resolution has any status but `open`.
pub data Step (db : ChangeDb) : ChangeDb → Type 0 where
  minor_requested :
      (repo : AccessRepo) (actor : Actor) (project_id : ℕ) (payload : MinorPayload) (now : ℕ)
      (r : ChangeRequest) {db' : ChangeDb}
      → create_minor_change_request repo db actor project_id payload now ≡ ok (r, db')
      → Step db db'
  formal_requested :
      (repo : AccessRepo) (actor : Actor) (project_id : ℕ) (payload : FormalPayload) (now : ℕ)
      (r : ChangeRequest) {db' : ChangeDb}
      → create_formal_change_request repo db actor project_id payload now ≡ ok (r, db')
      → Step db db'
  resolved :
      (repo : AccessRepo) (actor : Actor) (project_id id : ℕ) (status : RequestStatus)
      (comment : Option Text) (now : ℕ) (r : ChangeRequest) {db' : ChangeDb}
      → status ≢ opened
      → resolve_change_request repo db actor project_id id status comment now ≡ ok (r, db')
      → Step db db'
  brief_patched :
      (repo : AccessRepo) (actor : Actor) (project_id : ℕ) (body : Text) (now : ℕ) {db' : ChangeDb}
      → patch_brief repo db actor project_id body now ≡ ok db'
      → Step db db'

pub data Reaches (db : ChangeDb) : ChangeDb → Type 0 where
  here : Reaches db db
  later : (mid : ChangeDb) {db' : ChangeDb} → Reaches db mid → Step mid db' → Reaches db db'
