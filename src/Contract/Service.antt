-- ===== src/Contract/Service.antt =====
-- contract.service.ts: a draft is saved, sent to be signed, and signed.
-- An operation reads the current contract, tests it, and runs one transaction; here nothing happens
-- between the reading and the transaction.
use crm_collab.Base.{
  ℕ, Bool, true, false, not, ◌&&◌, Option, none, some, [], ◌∷◌, get_or, if◌then◌else◌,
}
use crm_collab.Base.Text.{Text, trim_or_none}
use crm_collab.Base.Outcome.{Outcome, ok, ◌>>=◌, ◌>>◌, require, found}
use crm_collab.Base.Outcome.{not_found, forbidden, bad_request}
use crm_collab.Access.{Actor, AccessRepo, is_admin, is_client, assert_project_access}
use crm_collab.Contract.Model.{
  ContractStatus, draft, pending_signature, signed, same_status, ContractTerms, Contract,
  ContractDb, project_contract_draft_saved, project_contract_signature_requested,
  project_contract_signed,
}
use crm_collab.Contract.Repository.{
  DraftRow, SignerData, get_by_project_id, upsert_draft, request_signature_of, sign_of,
  create_contract_audit,
}
use crm_collab.Contract.Template.{Formats, build_contract_snapshot}

-- `current?.status === status`
abbrev pub current_is : ContractStatus → Option Contract → Bool
current_is status none = false
current_is status (some c) = same_status c.status status

unfoldable pub draft_terms : ContractTerms → ContractTerms
draft_terms payload = record payload {
  provider_tax_id = trim_or_none payload.provider_tax_id;
  provider_representative = trim_or_none payload.provider_representative;
  provider_representative_document = trim_or_none payload.provider_representative_document;
  client_document = trim_or_none payload.client_document;
  client_company_name = trim_or_none payload.client_company_name;
  client_tax_id = trim_or_none payload.client_tax_id;
  client_representative = trim_or_none payload.client_representative;
  client_representative_document = trim_or_none payload.client_representative_document;
  client_phone = trim_or_none payload.client_phone;
  additional_terms = trim_or_none payload.additional_terms;
}

-- A column that is null or empty, `!x`.
abbrev pub is_missing : Option Text → Bool
is_missing none = true
is_missing (some []) = true
is_missing (some (c ∷ s)) = false

abbrev pub when_missing : Option Text → Text → Option Text
when_missing column value = if is_missing column then some value else none

module _ (repo : AccessRepo) (f : Formats) where
  abbrev pub draft_row : ℕ → ContractTerms → Text → DraftRow
  draft_row sub terms project_name =
      let snapshot = build_contract_snapshot f terms project_name in
      record {
        terms = terms;
        content_snapshot = snapshot;
        content_hash = f.sha256 snapshot;
        prepared_by_sub = sub;
      }

  unfoldable pub get_contract : ContractDb → Actor → ℕ → Outcome (Option Contract)
  get_contract db actor project_id = do
    access ← assert_project_access repo actor project_id
    elim (get_by_project_id db project_id) [
      | none ↦ ok none
      | some c ↦
          let snapshot = build_contract_snapshot f c.terms access.project.name in
          ok (
            some (
              if is_missing c.content_snapshot
              then record c {
                content_snapshot = some snapshot;
                content_hash = some (get_or c.content_hash (f.sha256 snapshot));
              }
              else c))
    ]

  unfoldable pub save_draft :
      ContractDb → Actor → ℕ → ContractTerms → ℕ → Outcome (Contract × ContractDb)
  unfolding draft_terms
  save_draft db actor project_id payload now = do
    require (is_admin actor.role) forbidden
    access ← assert_project_access repo actor project_id
    let current = get_by_project_id db project_id
    require (not (current_is signed current)) bad_request
    require (not (current_is pending_signature current)) bad_request
    let row = draft_row actor.sub (draft_terms payload) access.project.name
    let db₁ = upsert_draft project_id row now db
    contract ← found (get_by_project_id db₁ project_id) not_found
    ok (contract, create_contract_audit actor.sub project_contract_draft_saved contract.id db₁)

  unfoldable pub request_signature : ContractDb → Actor → ℕ → ℕ → Outcome (Contract × ContractDb)
  request_signature db actor project_id now = do
    require (is_admin actor.role) forbidden
    access ← assert_project_access repo actor project_id
    current ← found (get_by_project_id db project_id) not_found
    require (same_status current.status draft) bad_request
    let snapshot = build_contract_snapshot f current.terms access.project.name
    let db₁ = request_signature_of project_id snapshot (f.sha256 snapshot) now db
    contract ← found (get_by_project_id db₁ project_id) not_found
    ok (
      contract,
      create_contract_audit actor.sub project_contract_signature_requested contract.id db₁,
    )

  unfoldable pub sign : ContractDb → Actor → ℕ → SignerData → ℕ → Outcome (Contract × ContractDb)
  sign db actor project_id signer now = do
    access ← assert_project_access repo actor project_id
    require (is_client actor.role && is_client access.member_role) forbidden
    current ← found (get_by_project_id db project_id) not_found
    require (same_status current.status pending_signature) bad_request
    let snapshot =
        get_or current.content_snapshot
          (build_contract_snapshot f current.terms access.project.name)
    let hash = get_or current.content_hash (f.sha256 snapshot)
    let db₁ =
        sign_of project_id actor.sub signer (when_missing current.content_snapshot snapshot)
          (when_missing current.content_snapshot hash) now db
    contract ← found (get_by_project_id db₁ project_id) not_found
    ok (contract, create_contract_audit actor.sub project_contract_signed contract.id db₁)
