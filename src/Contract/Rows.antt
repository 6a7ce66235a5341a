-- ===== src/Contract/Rows.antt =====
-- What one successful operation does to the rows of the amendments.
use crm_collab.Base.{ℕ, ◌≤◌, arith, ◌≡◌}
use crm_collab.Base.Text.{Text}
use crm_collab.Contract.Model.{draft, pending_signature, Amendment, ContractDb}
use crm_collab.Contract.Repository.{SignerData, amendment_sent, amendment_signed_as}
use crm_collab.Contract.Template.{Formats}
use crm_collab.Contract.AmendmentEffects.{
  Appends, Changes, save_amendment_draft-Appends, request_client_amendment-Appends,
  request_amendment_signature-Sends, sign_amendment-SignsAmendment,
}
use crm_collab.Contract.Kept.{save_draft-amendments, request_signature-amendments}
use crm_collab.Contract.Signing.{sign-Signs}
use crm_collab.Contract.Lifecycle.{
  Step, draft_saved, signature_requested, contract_signed, amendment_saved, amendment_wanted,
  amendment_requested, amendment_signed,
}

module _ (f : Formats) where
  -- The change of a row by one of the two updates.
  pub data Change (before : Amendment) : (Amendment → Amendment) → Type 0 where
    sends :
        (snapshot : Text) (now : ℕ)
        → before.status ≡ draft
        → Change before (amendment_sent snapshot (f.sha256 snapshot) now)
    signs :
        (sub : ℕ) (signer : SignerData) (now : ℕ)
        → before.status ≡ pending_signature
        → Change before (amendment_signed_as sub signer now)

  pub data Rows (db db' : ContractDb) : Type 0 where
    kept_rows : (db'.amendments ≡ db.amendments) × (db.next_id ≤ db'.next_id) → Rows db db'
    appended_row :
        (project_id sub now : ℕ) (a : Amendment) → Appends db project_id sub now a db' → Rows db db'
    changed_row :
        (project_id id : ℕ) (a : Amendment) (g : Amendment → Amendment)
        (c : Changes db project_id id g a db')
        → Change c.before g
        → Rows db db'

  pub Rows-Step : {db db' : ContractDb} → Step f db db' → Rows db db'
  Rows-Step {db} (draft_saved repo actor project_id payload now c e) =
      kept_rows (save_draft-amendments repo f db actor project_id payload now e)
  Rows-Step {db} (signature_requested repo actor project_id now c e) =
      kept_rows (request_signature-amendments repo f db actor project_id now e)
  Rows-Step {db} (contract_signed repo actor project_id signer now c e) =
      let s = sign-Signs repo f db actor project_id signer now e in
      kept_rows (s.amendments, omega (arith, s.next_id))
  Rows-Step {db} (amendment_saved repo actor project_id payload now a e) =
      appended_row project_id actor.sub now a
        (save_amendment_draft-Appends repo f db actor project_id payload now e)
  Rows-Step {db} (amendment_wanted repo actor project_id title description now a e) =
      appended_row project_id actor.sub now a
        (request_client_amendment-Appends repo f db actor project_id title description now e)
  Rows-Step {db} (amendment_requested repo actor project_id id now a e) =
      let s = request_amendment_signature-Sends repo f db actor project_id id now e in
      changed_row project_id id a _ s.changes (sends s.snapshot now s.was_draft)
  Rows-Step {db} (amendment_signed repo actor project_id id signer now a e) =
      let s = sign_amendment-SignsAmendment repo f db actor project_id id signer now e in
      changed_row project_id id a _ s.changes (signs actor.sub signer now s.was_sent)
