-- ===== src/Contract/Model.antt =====
-- The contract tables of src/db/schema.ts. The columns that a draft sets stand together in `terms`.
-- Ids, subs and instants are numbers.
use crm_collab.Base.{ℕ, Bool, true, false, Option, none, List}
use crm_collab.Base.Text.{Text}

pub data ContractStatus : Type 0 where
  draft pending_signature signed : ContractStatus

abbrev pub same_status : ContractStatus → ContractStatus → Bool
same_status draft draft = true
same_status pending_signature pending_signature = true
same_status signed signed = true
same_status _ _ = false

pub data ProviderKind : Type 0 where
  cima independent : ProviderKind

pub data ClientKind : Type 0 where
  natural juridical : ClientKind

pub record ContractTerms : Type 0 where
  pub provider_kind : ProviderKind
  pub provider_name : Text
  pub provider_tax_id : Option Text
  pub provider_representative : Option Text
  pub provider_representative_document : Option Text
  pub client_kind : ClientKind
  pub client_name : Text
  pub client_document : Option Text
  pub client_company_name : Option Text
  pub client_tax_id : Option Text
  pub client_representative : Option Text
  pub client_representative_document : Option Text
  pub client_email : Text
  pub client_phone : Option Text
  pub plan_name : Text
  pub monthly_fee : ℕ
  pub currency : Text
  pub tax_included : Bool
  pub term_months : ℕ
  pub service_scope : Text
  pub additional_terms : Option Text
  pub signature_city : Text

-- The columns that a signature sets, in both tables.
pub record Signature : Type 0 where
  pub signed_by_sub : Option ℕ
  pub signer_name : Option Text
  pub signature_data_url : Option Text
  pub signed_ip_address : Option Text
  pub signed_user_agent : Option Text
  pub signed_at : Option ℕ
  pub consent_accepted_at : Option ℕ

abbrev pub no_signature : Signature
no_signature = record {
  signed_by_sub = none;
  signer_name = none;
  signature_data_url = none;
  signed_ip_address = none;
  signed_user_agent = none;
  signed_at = none;
  consent_accepted_at = none;
}

pub record Contract : Type 0 where
  pub id : ℕ
  pub project_id : ℕ
  pub status : ContractStatus
  pub terms : ContractTerms
  pub content_snapshot : Option Text
  pub content_hash : Option Text
  pub prepared_by_sub : ℕ
  pub requested_signature_at : Option ℕ
  pub signature : Signature
  pub updated_at : ℕ

pub data AmendmentType : Type 0 where
  services economic extension mixed : AmendmentType

pub data FeePaymentType : Type 0 where
  one_time monthly_recurring : FeePaymentType

pub record AmendmentTerms : Type 0 where
  pub title : Text
  pub amendment_type : AmendmentType
  pub service_scope : Text
  pub additional_fee : ℕ
  pub fee_payment_type : FeePaymentType
  pub term_months_extension : ℕ
  pub additional_terms : Option Text
  pub client_request_notes : Option Text
  pub signature_city : Text

pub record Amendment : Type 0 where
  pub id : ℕ
  pub contract_id : ℕ
  pub project_id : ℕ
  pub amendment_number : ℕ
  pub status : ContractStatus
  pub terms : AmendmentTerms
  pub content_snapshot : Option Text
  pub content_hash : Option Text
  pub prepared_by_sub : ℕ
  pub requested_signature_at : Option ℕ
  pub signature : Signature
  pub updated_at : ℕ

pub data ContractAction : Type 0 where
  project_contract_draft_saved project_contract_signature_requested project_contract_signed :
      ContractAction
  project_contract_amendment_draft_saved project_contract_amendment_requested_by_client :
      ContractAction
  project_contract_amendment_signature_requested project_contract_amendment_signed : ContractAction

pub record ContractAudit : Type 0 where
  pub actor_sub : ℕ
  pub action : ContractAction
  pub resource_id : ℕ

pub record ContractDb : Type 0 where
  pub contracts : List Contract
  pub amendments : List Amendment
  pub audit : List ContractAudit
  pub next_id : ℕ

abbrev pub contract_project : Contract → ℕ
contract_project c = c.project_id

abbrev pub amendment_id : Amendment → ℕ
amendment_id a = a.id
