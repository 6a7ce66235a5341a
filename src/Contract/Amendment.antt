-- ===== src/Contract/Amendment.antt =====
-- amendment.service.ts: amendments of a signed contract.
use crm_collab.Base.{ℕ, not, ◌&&◌, none, some, ◌++◌}
use crm_collab.Base.Text.{Text, codes, trim_or_none}
use crm_collab.Base.Outcome.{Outcome, ok, ◌>>=◌, ◌>>◌, require, found}
use crm_collab.Base.Outcome.{not_found, forbidden, bad_request}
use crm_collab.Access.{Actor, AccessRepo, is_admin, is_client, assert_project_access}
use crm_collab.Contract.Model.{
  draft, pending_signature, signed, same_status, Contract, Amendment, AmendmentTerms, services,
  one_time, ContractDb, project_contract_amendment_draft_saved,
  project_contract_amendment_requested_by_client, project_contract_amendment_signature_requested,
  project_contract_amendment_signed,
}
use crm_collab.Contract.Repository.{
  SignerData, get_by_project_id, get_amendment_by_id, get_next_amendment_number,
  create_amendment_draft, request_amendment_signature_of, sign_amendment_of, create_contract_audit,
}
use crm_collab.Contract.Template.{Formats}
use crm_collab.Contract.AmendmentTemplate.{build_amendment_snapshot}
use crm_collab.Contract.Service.{is_missing}

-- `!contract || contract.status !== 'signed'` is an error.
unfoldable pub signed_contract : ContractDb → ℕ → Outcome Contract
signed_contract db project_id = do
  contract ← found (get_by_project_id db project_id) bad_request
  require (same_status contract.status signed) bad_request
  ok contract

abbrev pub amendment_terms : AmendmentTerms → AmendmentTerms
amendment_terms payload = record payload {
  additional_terms = trim_or_none payload.additional_terms;
  client_request_notes = trim_or_none payload.client_request_notes;
}

-- What a client's request asks for, before anyone prices it.
abbrev pub client_terms : Contract → Text → Text → AmendmentTerms
client_terms contract title description = record {
  title = title;
  amendment_type = services;
  service_scope = description;
  additional_fee = 0;
  fee_payment_type = one_time;
  term_months_extension = 0;
  additional_terms = none;
  client_request_notes = some (codes "Solicitud originada por el cliente: " ++ description);
  signature_city = contract.terms.signature_city;
}

module _ (repo : AccessRepo) (f : Formats) where
  unfoldable pub save_amendment_draft :
      ContractDb → Actor → ℕ → AmendmentTerms → ℕ → Outcome (Amendment × ContractDb)
  unfolding signed_contract create_amendment_draft
  save_amendment_draft db actor project_id payload now = do
    require (is_admin actor.role) forbidden
    access ← assert_project_access repo actor project_id
    contract ← signed_contract db project_id
    let number = get_next_amendment_number db contract.id
    let created =
        create_amendment_draft contract project_id number (amendment_terms payload) actor.sub now db
    ok (
      created.0,
      create_contract_audit actor.sub project_contract_amendment_draft_saved created.0.id created.1,
    )

  unfoldable pub request_client_amendment :
      ContractDb → Actor → ℕ → Text → Text → ℕ → Outcome (Amendment × ContractDb)
  unfolding signed_contract create_amendment_draft
  request_client_amendment db actor project_id title description now = do
    access ← assert_project_access repo actor project_id
    contract ← signed_contract db project_id
    let number = get_next_amendment_number db contract.id
    let created =
        create_amendment_draft contract project_id number (client_terms contract title description)
          actor.sub now db
    ok (
      created.0,
      create_contract_audit actor.sub project_contract_amendment_requested_by_client created.0.id
          created.1,
    )

  unfoldable pub request_amendment_signature :
      ContractDb → Actor → ℕ → ℕ → ℕ → Outcome (Amendment × ContractDb)
  unfolding signed_contract
  request_amendment_signature db actor project_id id now = do
    require (is_admin actor.role) forbidden
    access ← assert_project_access repo actor project_id
    contract ← signed_contract db project_id
    amendment ← found (get_amendment_by_id db project_id id) not_found
    require (same_status amendment.status draft) bad_request
    let snapshot = build_amendment_snapshot f amendment contract access.project.name
    let db₁ = request_amendment_signature_of id snapshot (f.sha256 snapshot) now db
    updated ← found (get_amendment_by_id db₁ project_id id) not_found
    ok (
      updated,
      create_contract_audit actor.sub project_contract_amendment_signature_requested id db₁,
    )

  unfoldable pub sign_amendment :
      ContractDb → Actor → ℕ → ℕ → SignerData → ℕ → Outcome (Amendment × ContractDb)
  sign_amendment db actor project_id id signer now = do
    access ← assert_project_access repo actor project_id
    require (is_client actor.role && is_client access.member_role) forbidden
    amendment ← found (get_amendment_by_id db project_id id) not_found
    require
        (same_status amendment.status pending_signature
          && not (is_missing amendment.content_snapshot)
          && not (is_missing amendment.content_hash))
        bad_request
    let db₁ = sign_amendment_of id actor.sub signer now db
    updated ← found (get_amendment_by_id db₁ project_id id) not_found
    ok (updated, create_contract_audit actor.sub project_contract_amendment_signed id db₁)
