-- ===== src/Contract/AmendmentEffects.antt =====
-- amendment.service.ts: what an operation does to the tables.
use mathlib.Core.Path.{subst}
use crm_collab.Base.{ℕ, suc, ◌≡◌, sym, ◌∙◌, ap, true, ◌&&◌, not, some, [], ◌∷◌, ◌++◌, arith}
use crm_collab.Base.Text.{Text}
use crm_collab.Base.Table.{update_by}
use crm_collab.Base.Outcome.{ok, after-ok, after_require, after_found, ok-injective}
use crm_collab.Access.{Actor, AccessRepo, Access, is_admin, is_client, assert_project_access}
use crm_collab.Contract.Model.{
  draft, pending_signature, signed, same_status, Contract, Amendment, AmendmentTerms, ContractDb,
  ContractAction, amendment_id,
}
use crm_collab.Contract.Repository.{
  SignerData, get_by_project_id, get_amendment_by_id, get_next_amendment_number,
  create_amendment_draft, request_amendment_signature_of, sign_amendment_of, create_contract_audit,
  amendment_sent, amendment_signed_as, new_amendment,
}
use crm_collab.Contract.Template.{Formats}
use crm_collab.Contract.AmendmentTemplate.{build_amendment_snapshot}
use crm_collab.Contract.Service.{is_missing}
use crm_collab.Contract.Lookup.{same_status_eq}
use crm_collab.Contract.Amendment.{
  signed_contract, amendment_terms, client_terms, save_amendment_draft, request_client_amendment,
  request_amendment_signature, sign_amendment,
}

-- The two tables after an operation that appends a draft.
pub record Appends (db : ContractDb) (project_id sub : ℕ) (now : ℕ) (a : Amendment)
    (db' : ContractDb) : Type 0 where
  pub contract : Contract
  pub terms : AmendmentTerms
  pub at : get_by_project_id db project_id ≡ some contract
  pub is_signed : contract.status ≡ signed
  pub row :
      a
      ≡ new_amendment db.next_id contract project_id
          (get_next_amendment_number db contract.id)
          terms
          sub
          now
  pub contracts : db'.contracts ≡ db.contracts
  pub amendments : db'.amendments ≡ db.amendments ++ a ∷ []
  pub next_id : db'.next_id ≡ suc db.next_id

-- The two tables after an operation that changes the amendment of an id.
pub record Changes (db : ContractDb) (project_id id : ℕ) (g : Amendment → Amendment) (a : Amendment)
    (db' : ContractDb) : Type 0 where
  pub before : Amendment
  pub at : get_amendment_by_id db project_id id ≡ some before
  pub returned : get_amendment_by_id db' project_id id ≡ some a
  pub contracts : db'.contracts ≡ db.contracts
  pub amendments : db'.amendments ≡ update_by amendment_id id g db.amendments
  pub next_id : db'.next_id ≡ db.next_id

signed_contract-eq-ok :
    (db : ContractDb) (project_id : ℕ) {c : Contract}
    → signed_contract db project_id ≡ ok c
    → (get_by_project_id db project_id ≡ some c) × (c.status ≡ signed)
unfolding signed_contract
signed_contract-eq-ok db project_id {c} e =
    after_found (get_by_project_id db project_id) _ _ e λ contract at e₁.
      after_require (same_status contract.status signed) _ _ e₁ λ is_signed e₂.
        let same = ok-injective _ _ e₂ in
        (
          at ∙ ap some same,
          subst (λ k. k.status ≡ signed) same (same_status_eq contract.status signed is_signed),
        )

appended :
    (db : ContractDb) (project_id sub now : ℕ) (contract : Contract) (terms : AmendmentTerms)
    (action : ContractAction) {a : Amendment} {db' : ContractDb}
    → signed_contract db project_id ≡ ok contract
    → let created =
        create_amendment_draft contract project_id
          (get_next_amendment_number db contract.id)
          terms
          sub
          now
          db in
      ◌≡◌ {A = Amendment × ContractDb}
        (created.0, create_contract_audit sub action created.0.id created.1)
        (a, db')
      → Appends db project_id sub now a db'
unfolding create_amendment_draft create_contract_audit
appended db project_id sub now contract terms action e same =
    let (at, is_signed) = signed_contract-eq-ok db project_id e in
    record {
      contract = contract;
      terms = terms;
      at = at;
      is_signed = is_signed;
      row = sym (ap (λ (r : Amendment × ContractDb). r.0) same);
      contracts = sym (ap (λ (r : Amendment × ContractDb). r.1.contracts) same);
      amendments =
          sym (ap (λ (r : Amendment × ContractDb). r.1.amendments) same)
          ∙ ap (λ k. db.amendments ++ k ∷ []) (ap (λ (r : Amendment × ContractDb). r.0) same);
      next_id = sym (ap (λ (r : Amendment × ContractDb). r.1.next_id) same);
    }

module _ (repo : AccessRepo) (f : Formats) where
  pub save_amendment_draft-Appends :
      (db : ContractDb) (actor : Actor) (project_id : ℕ) (payload : AmendmentTerms) (now : ℕ)
      {a : Amendment} {db' : ContractDb}
      → save_amendment_draft repo f db actor project_id payload now ≡ ok (a, db')
      → Appends db project_id actor.sub now a db'
  unfolding save_amendment_draft
  save_amendment_draft-Appends db actor project_id payload now e =
      after_require (is_admin actor.role) _ _ e λ is_admin e₁.
        after-ok (assert_project_access repo actor project_id) _ e₁ λ access granted e₂.
          after-ok (signed_contract db project_id) _ e₂ λ contract is e₃.
            appended db project_id actor.sub now contract (amendment_terms payload) _ is
              (ok-injective _ _ e₃)

  pub request_client_amendment-Appends :
      (db : ContractDb) (actor : Actor) (project_id : ℕ) (title description : Text) (now : ℕ)
      {a : Amendment} {db' : ContractDb}
      → request_client_amendment repo f db actor project_id title description now ≡ ok (a, db')
      → Appends db project_id actor.sub now a db'
  unfolding request_client_amendment
  request_client_amendment-Appends db actor project_id title description now e =
      after-ok (assert_project_access repo actor project_id) _ e λ access granted e₂.
        after-ok (signed_contract db project_id) _ e₂ λ contract is e₃.
          appended db project_id actor.sub now contract (client_terms contract title description) _
            is (ok-injective _ _ e₃)

  pub record Sends (db : ContractDb) (actor : Actor) (project_id id now : ℕ) (a : Amendment)
      (db' : ContractDb) : Type 0 where
    pub snapshot : Text
    pub changes : Changes db project_id id (amendment_sent snapshot (f.sha256 snapshot) now) a db'
    pub was_draft : changes.before.status ≡ draft

  pub request_amendment_signature-Sends :
      (db : ContractDb) (actor : Actor) (project_id id now : ℕ) {a : Amendment} {db' : ContractDb}
      → request_amendment_signature repo f db actor project_id id now ≡ ok (a, db')
      → Sends db actor project_id id now a db'
  unfolding request_amendment_signature create_contract_audit request_amendment_signature_of
      get_amendment_by_id
  request_amendment_signature-Sends db actor project_id id now e =
      after_require (is_admin actor.role) _ _ e λ is_admin e₁.
        after-ok (assert_project_access repo actor project_id) _ e₁ λ access granted e₂.
          after-ok (signed_contract db project_id) _ e₂ λ contract is e₃.
            after_found (get_amendment_by_id db project_id id) _ _ e₃ λ amendment at e₄.
              after_require (same_status amendment.status draft) _ _ e₄ λ was_draft e₅.
                let snapshot = build_amendment_snapshot f amendment contract access.project.name in
                let db₁ = request_amendment_signature_of id snapshot (f.sha256 snapshot) now db in
                after_found (get_amendment_by_id db₁ project_id id) _ _ e₅ λ updated there e₆.
                  let same = ok-injective _ _ e₆ in
                  record {
                    snapshot = snapshot;
                    changes = record {
                      before = amendment;
                      at = at;
                      returned =
                          sym (
                            ap
                              (λ (r : Amendment × ContractDb).
                                get_amendment_by_id r.1 project_id id)
                              same)
                          ∙ there
                          ∙ ap (λ (r : Amendment × ContractDb). some r.0) same;
                      contracts = sym (ap (λ (r : Amendment × ContractDb). r.1.contracts) same);
                      amendments = sym (ap (λ (r : Amendment × ContractDb). r.1.amendments) same);
                      next_id = sym (ap (λ (r : Amendment × ContractDb). r.1.next_id) same);
                    };
                    was_draft = same_status_eq amendment.status draft was_draft;
                  }

  pub record SignsAmendment (db : ContractDb) (actor : Actor) (project_id id : ℕ)
      (signer : SignerData) (now : ℕ) (a : Amendment) (db' : ContractDb) : Type 0 where
    pub access : Access
    pub granted : assert_project_access repo actor project_id ≡ ok access
    pub by_client : (is_client actor.role && is_client access.member_role) ≡ true
    pub changes : Changes db project_id id (amendment_signed_as actor.sub signer now) a db'
    pub was_sent : changes.before.status ≡ pending_signature

  pub sign_amendment-SignsAmendment :
      (db : ContractDb) (actor : Actor) (project_id id : ℕ) (signer : SignerData) (now : ℕ)
      {a : Amendment} {db' : ContractDb}
      → sign_amendment repo f db actor project_id id signer now ≡ ok (a, db')
      → SignsAmendment db actor project_id id signer now a db'
  unfolding sign_amendment create_contract_audit sign_amendment_of get_amendment_by_id
  sign_amendment-SignsAmendment db actor project_id id signer now e =
      after-ok (assert_project_access repo actor project_id) _ e λ access granted e₁.
        after_require (is_client actor.role && is_client access.member_role) _ _ e₁ λ by_client e₂.
          after_found (get_amendment_by_id db project_id id) _ _ e₂ λ amendment at e₃.
            after_require
              (same_status amendment.status pending_signature
                && not (is_missing amendment.content_snapshot)
                && not (is_missing amendment.content_hash))
              _ _ e₃
              λ open_for_signature e₄.
                let db₁ = sign_amendment_of id actor.sub signer now db in
                after_found (get_amendment_by_id db₁ project_id id) _ _ e₄ λ updated there e₅.
                  let same = ok-injective _ _ e₅ in
                  record {
                    access = access;
                    granted = granted;
                    by_client = by_client;
                    changes = record {
                      before = amendment;
                      at = at;
                      returned =
                          sym (
                            ap
                              (λ (r : Amendment × ContractDb).
                                get_amendment_by_id r.1 project_id id)
                              same)
                          ∙ there
                          ∙ ap (λ (r : Amendment × ContractDb). some r.0) same;
                      contracts = sym (ap (λ (r : Amendment × ContractDb). r.1.contracts) same);
                      amendments = sym (ap (λ (r : Amendment × ContractDb). r.1.amendments) same);
                      next_id = sym (ap (λ (r : Amendment × ContractDb). r.1.next_id) same);
                    };
                    was_sent = ground (
                      arith,
                      same_status_eq amendment.status pending_signature,
                      open_for_signature,
                    );
                  }
