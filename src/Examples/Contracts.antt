-- ===== src/Examples/Contracts.antt =====
-- The theorems on contracts: a contract that waits is signed, and then amended.
use crm_collab.Base.{ℕ, ◌≡◌, ◌≢◌, refl, true, none, some, [], ◌∷◌}
use crm_collab.Base.Outcome.{ok}
use crm_collab.Base.Table.{find_by, find_by-All, update_by, update_where}
use crm_collab.Access.{assert_project_access}
use crm_collab.Contract.Model.{
  pending_signature, signed, cima, natural, ContractTerms, Contract, Amendment, ContractDb,
  no_signature, contract_project,
}
use crm_collab.Contract.Repository.{
  SignerData, signature_by, get_by_project_id, sign_of, create_contract_audit, max_number,
  get_next_amendment_number, create_amendment_draft, new_amendment,
}
use crm_collab.Contract.Template.{Formats}
use crm_collab.Contract.Service.{sign}
use crm_collab.Contract.Amendment.{request_client_amendment, signed_contract, client_terms}
use crm_collab.Contract.Moves.{IsSealed}
use crm_collab.Contract.Lifecycle.{
  Reaches, here, later, contract_signed, amendment_wanted, signed_is_final, IsFrozen,
  sent_text_is_signed, AllSealed, Reaches-AllSealed,
}
use crm_collab.Contract.Numbers.{CountsUp, amendments_count_up}
use crm_collab.Contract.Orderly.{AllOrderly, Reaches-AllOrderly}
use crm_collab.Contract.Authority.{IsProjectClient, sign_by_client}
use crm_collab.Examples.Data.{buyer, repo, value_of}

-- A digest that is the text behind a zero, and numbers that stand for their own texts.
abbrev formats : Formats
formats = record {
  money = λ n currency. n ∷ currency;
  local_date = λ n. n ∷ [];
  sha256 = λ s. 0 ∷ s;
  id_prefix = λ n. n ∷ [];
}

abbrev terms : ContractTerms
terms = record {
  provider_kind = cima;
  provider_name = 80 ∷ [];
  provider_tax_id = none;
  provider_representative = none;
  provider_representative_document = none;
  client_kind = natural;
  client_name = 67 ∷ [];
  client_document = some (49 ∷ []);
  client_company_name = none;
  client_tax_id = none;
  client_representative = none;
  client_representative_document = none;
  client_email = 101 ∷ [];
  client_phone = none;
  plan_name = 112 ∷ [];
  monthly_fee = 900;
  currency = 67 ∷ 79 ∷ 80 ∷ [];
  tax_included = true;
  term_months = 6;
  service_scope = 115 ∷ [];
  additional_terms = none;
  signature_city = 66 ∷ [];
}

abbrev sent_contract : Contract
sent_contract = record {
  id = 30;
  project_id = 7;
  status = pending_signature;
  terms = terms;
  content_snapshot = some (65 ∷ []);
  content_hash = some (0 ∷ 65 ∷ []);
  prepared_by_sub = 1;
  requested_signature_at = some 2;
  signature = no_signature;
  updated_at = 2;
}

abbrev sent_db : ContractDb
sent_db = record { contracts = sent_contract ∷ []; amendments = []; audit = []; next_id = 60 }

abbrev signer : SignerData
signer = record {
  signer_name = 67 ∷ [];
  signature_data_url = 100 ∷ [];
  ip_address = 49 ∷ [];
  user_agent = 117 ∷ [];
}

abbrev signed_db : Contract × ContractDb
signed_db = value_of (sign repo formats sent_db buyer 7 signer 5) (sent_contract, sent_db)

abbrev blank_amendment : Amendment
blank_amendment = new_amendment 0 sent_contract 7 0 (client_terms sent_contract [] []) 0 0

-- The client asks for an amendment, and then for another.
abbrev amended_db : Amendment × ContractDb
amended_db =
    value_of (request_client_amendment repo formats signed_db.1 buyer 7 (84 ∷ []) (68 ∷ []) 6)
      (blank_amendment, sent_db)

abbrev twice_amended_db : Amendment × ContractDb
twice_amended_db =
    value_of (request_client_amendment repo formats amended_db.1 buyer 7 (85 ∷ []) (69 ∷ []) 7)
      (blank_amendment, sent_db)

buyer_signs : sign repo formats sent_db buyer 7 signer 5 ≡ ok signed_db
unfolding sign request_client_amendment signed_contract assert_project_access get_by_project_id
    find_by sign_of update_by update_where create_contract_audit max_number
    get_next_amendment_number create_amendment_draft
buyer_signs = refl

buyer_asks :
    request_client_amendment repo formats signed_db.1 buyer 7 (84 ∷ []) (68 ∷ []) 6 ≡ ok amended_db
unfolding sign request_client_amendment signed_contract assert_project_access get_by_project_id
    find_by sign_of update_by update_where create_contract_audit max_number
    get_next_amendment_number create_amendment_draft
buyer_asks = refl

buyer_asks_again :
    request_client_amendment repo formats amended_db.1 buyer 7 (85 ∷ []) (69 ∷ []) 7
    ≡ ok twice_amended_db
unfolding sign request_client_amendment signed_contract assert_project_access get_by_project_id
    find_by sign_of update_by update_where create_contract_audit max_number
    get_next_amendment_number create_amendment_draft
buyer_asks_again = refl

to_signed : Reaches formats sent_db signed_db.1
to_signed = later sent_db here (contract_signed repo buyer 7 signer 5 signed_db.0 buyer_signs)

to_twice_amended : Reaches formats signed_db.1 twice_amended_db.1
to_twice_amended =
    later amended_db.1
      (later signed_db.1 here
        (amendment_wanted repo buyer 7 (84 ∷ []) (68 ∷ []) 6 amended_db.0 buyer_asks))
      (amendment_wanted repo buyer 7 (85 ∷ []) (69 ∷ []) 7 twice_amended_db.0 buyer_asks_again)

finds_sent : get_by_project_id sent_db 7 ≡ some sent_contract
unfolding get_by_project_id find_by
finds_sent = refl

finds_signed : get_by_project_id signed_db.1 7 ≡ some signed_db.0
unfolding sign request_client_amendment signed_contract assert_project_access get_by_project_id
    find_by sign_of update_by update_where create_contract_audit max_number
    get_next_amendment_number create_amendment_draft
finds_signed = refl

is_signed : signed_db.0.status ≡ signed
unfolding sign request_client_amendment signed_contract assert_project_access get_by_project_id
    find_by sign_of update_by update_where create_contract_audit max_number
    get_next_amendment_number create_amendment_draft
is_signed = refl

sent_contract-IsSealed : IsSealed formats sent_contract
sent_contract-IsSealed = record {
  snapshot = 65 ∷ [];
  is_snapshot = refl;
  is_hash = refl;
  nonempty = refl;
}

signed_is_final_example : get_by_project_id twice_amended_db.1 7 ≡ some signed_db.0
signed_is_final_example =
    signed_is_final formats 7 signed_db.0 to_twice_amended finds_signed is_signed

sent_text_is_signed_example :
    (d : Contract) × (get_by_project_id signed_db.1 7 ≡ some d) × IsFrozen formats sent_contract d
sent_text_is_signed_example =
    sent_text_is_signed formats 7 sent_contract to_signed finds_sent refl sent_contract-IsSealed

sent_db-AllSealed : AllSealed formats sent_db
unfolding get_by_project_id
sent_db-AllSealed = λ project_id c at.
    find_by-All contract_project (IsSealed formats) project_id (sent_contract ∷ [])
      (sent_contract-IsSealed, tt) at

Reaches-AllSealed_example : AllSealed formats signed_db.1
Reaches-AllSealed_example = Reaches-AllSealed formats to_signed sent_db-AllSealed

amendments_count_up_example : CountsUp 30 twice_amended_db.1.amendments
unfolding sign assert_project_access get_by_project_id find_by sign_of update_by
    create_contract_audit
amendments_count_up_example = amendments_count_up formats 30 to_twice_amended refl

no_amendments : AllOrderly formats signed_db.1
unfolding sign request_client_amendment signed_contract assert_project_access get_by_project_id
    find_by sign_of update_by update_where create_contract_audit max_number
    get_next_amendment_number create_amendment_draft
no_amendments = record { rows = tt; keyed = tt; below = tt }

Reaches-AllOrderly_example : AllOrderly formats twice_amended_db.1
Reaches-AllOrderly_example = Reaches-AllOrderly formats to_twice_amended no_amendments

sign_by_client_example :
    IsProjectClient repo formats buyer 7
    × ((d : Contract) × (get_by_project_id sent_db 7 ≡ some d) × (d.status ≡ pending_signature))
    × (get_by_project_id signed_db.1 7 ≡ some signed_db.0)
    × (signed_db.0.status ≡ signed)
    × (signed_db.0.signature ≡ signature_by 3 signer 5)
    × ((j : ℕ) → j ≢ 7 → get_by_project_id signed_db.1 j ≡ get_by_project_id sent_db j)
    × (signed_db.1.amendments ≡ [])
sign_by_client_example = sign_by_client repo formats sent_db buyer 7 signer 5 buyer_signs
