-- ===== src/Contract/Repository.antt =====
-- contract.repository.ts: the statements on the tables of contracts and amendments.
use Prim.Native.Nat.{max}
use crm_collab.Base.{
  ℕ, suc, ◌+◌, ◌&&◌, Option, none, some, List, [], ◌∷◌, ◌++◌, ◌==◌, find, if◌then◌else◌,
}
use crm_collab.Base.Text.{Text}
use crm_collab.Base.Table.{find_by, update_by}
use crm_collab.Contract.Model.{
  ContractTerms, Signature, no_signature, Contract, AmendmentTerms, Amendment, ContractAction,
  ContractDb, contract_project, amendment_id, draft, pending_signature, signed,
}

unfoldable pub get_by_project_id : ContractDb → ℕ → Option Contract
get_by_project_id db project_id = find_by contract_project project_id db.contracts

-- The columns that `saveDraft` hands to `upsertDraft`.
pub record DraftRow : Type 0 where
  pub terms : ContractTerms
  pub content_snapshot : Text
  pub content_hash : Text
  pub prepared_by_sub : ℕ

abbrev pub drafted : ℕ → ℕ → ℕ → DraftRow → Contract
drafted id project_id now row = record {
  id = id;
  project_id = project_id;
  status = draft;
  terms = row.terms;
  content_snapshot = some row.content_snapshot;
  content_hash = some row.content_hash;
  prepared_by_sub = row.prepared_by_sub;
  requested_signature_at = none;
  signature = no_signature;
  updated_at = now;
}

-- `insert … on conflict (project_id) do update`: the row of the project keeps its id.
unfoldable pub upsert_draft : ℕ → DraftRow → ℕ → ContractDb → ContractDb
upsert_draft project_id row now db = elim (get_by_project_id db project_id) [
  | none ↦ record db {
    contracts = db.contracts ++ drafted db.next_id project_id now row ∷ [];
    next_id = suc db.next_id;
  }
  | some current ↦ record db {
    contracts =
        update_by contract_project project_id (λ c. drafted c.id c.project_id now row) db.contracts;
  }
]

abbrev pub sent : Text → Text → ℕ → Contract → Contract
sent snapshot hash now c = record c {
  status = pending_signature;
  content_snapshot = some snapshot;
  content_hash = some hash;
  requested_signature_at = some now;
  updated_at = now;
}

unfoldable pub request_signature_of : ℕ → Text → Text → ℕ → ContractDb → ContractDb
request_signature_of project_id snapshot hash now db = record db {
  contracts = update_by contract_project project_id (sent snapshot hash now) db.contracts;
}

-- The payload of a signature, with what the request says of the signer.
pub record SignerData : Type 0 where
  pub signer_name : Text
  pub signature_data_url : Text
  pub ip_address : Text
  pub user_agent : Text

abbrev pub signature_by : ℕ → SignerData → ℕ → Signature
signature_by sub signer now = record {
  signed_by_sub = some sub;
  signer_name = some signer.signer_name;
  signature_data_url = some signer.signature_data_url;
  signed_ip_address = some signer.ip_address;
  signed_user_agent = some signer.user_agent;
  signed_at = some now;
  consent_accepted_at = some now;
}

-- `...(x ? { column: x } : {})`: a missing or an empty text leaves the column as it is.
abbrev pub replaced_by : Option Text → Option Text → Option Text
replaced_by none old = old
replaced_by (some []) old = old
replaced_by (some (c ∷ s)) old = some (c ∷ s)

abbrev pub signed_as : ℕ → SignerData → Option Text → Option Text → ℕ → Contract → Contract
signed_as sub signer snapshot hash now c = record c {
  status = signed;
  signature = signature_by sub signer now;
  content_snapshot = replaced_by snapshot c.content_snapshot;
  content_hash = replaced_by hash c.content_hash;
  updated_at = now;
}

unfoldable pub sign_of :
    ℕ → ℕ → SignerData → Option Text → Option Text → ℕ → ContractDb → ContractDb
sign_of project_id sub signer snapshot hash now db = record db {
  contracts =
      update_by contract_project project_id (signed_as sub signer snapshot hash now) db.contracts;
}

unfoldable pub get_amendment_by_id : ContractDb → ℕ → ℕ → Option Amendment
get_amendment_by_id db project_id id =
    find (λ a. a.project_id == project_id && a.id == id) db.amendments

-- `coalesce(max(amendment_number), 0)` over the rows of the contract.
unfoldable pub max_number : ℕ → List Amendment → ℕ
max_number contract_id [] = 0
max_number contract_id (a ∷ rest) =
    let m = max_number contract_id rest in
    if a.contract_id == contract_id then max m a.amendment_number else m

unfoldable pub get_next_amendment_number : ContractDb → ℕ → ℕ
unfolding max_number
get_next_amendment_number db contract_id = max_number contract_id db.amendments + 1

abbrev pub new_amendment : ℕ → Contract → ℕ → ℕ → AmendmentTerms → ℕ → ℕ → Amendment
new_amendment id contract project_id number terms sub now = record {
  id = id;
  contract_id = contract.id;
  project_id = project_id;
  amendment_number = number;
  status = draft;
  terms = terms;
  content_snapshot = none;
  content_hash = none;
  prepared_by_sub = sub;
  requested_signature_at = none;
  signature = no_signature;
  updated_at = now;
}

unfoldable pub create_amendment_draft :
    Contract → ℕ → ℕ → AmendmentTerms → ℕ → ℕ → ContractDb → Amendment × ContractDb
create_amendment_draft contract project_id number terms sub now db =
    let row = new_amendment db.next_id contract project_id number terms sub now in
    (row, record db { amendments = db.amendments ++ row ∷ []; next_id = suc db.next_id })

abbrev pub amendment_sent : Text → Text → ℕ → Amendment → Amendment
amendment_sent snapshot hash now a = record a {
  status = pending_signature;
  content_snapshot = some snapshot;
  content_hash = some hash;
  requested_signature_at = some now;
  updated_at = now;
}

unfoldable pub request_amendment_signature_of : ℕ → Text → Text → ℕ → ContractDb → ContractDb
request_amendment_signature_of id snapshot hash now db = record db {
  amendments = update_by amendment_id id (amendment_sent snapshot hash now) db.amendments;
}

abbrev pub amendment_signed_as : ℕ → SignerData → ℕ → Amendment → Amendment
amendment_signed_as sub signer now a = record a {
  status = signed;
  signature = signature_by sub signer now;
  updated_at = now;
}

unfoldable pub sign_amendment_of : ℕ → ℕ → SignerData → ℕ → ContractDb → ContractDb
sign_amendment_of id sub signer now db = record db {
  amendments = update_by amendment_id id (amendment_signed_as sub signer now) db.amendments;
}

unfoldable pub create_contract_audit : ℕ → ContractAction → ℕ → ContractDb → ContractDb
create_contract_audit sub action id db = record db {
  audit = db.audit ++ record { actor_sub = sub; action = action; resource_id = id } ∷ [];
}
