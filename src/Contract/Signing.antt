-- ===== src/Contract/Signing.antt =====
-- contract.service.ts, sign: what a successful signature has checked and done.
use crm_collab.Base.{ℕ, ◌≡◌, sym, ◌∙◌, ap, true, ◌&&◌, some, ◌==◌, if◌then◌else◌, get_or}
use crm_collab.Base.Outcome.{ok, after-ok, after_require, after_found, ok-injective}
use crm_collab.Access.{Actor, AccessRepo, is_client, Access, assert_project_access}
use crm_collab.Contract.Model.{pending_signature, same_status, Contract, ContractDb}
use crm_collab.Contract.Repository.{SignerData, get_by_project_id, sign_of}
use crm_collab.Contract.Template.{Formats, build_contract_snapshot}
use crm_collab.Contract.Service.{sign, when_missing}
use crm_collab.Contract.Lookup.{
  same_status_eq, get_after_audit, get-sign_of, kept_amendments, kept_next_id, sign_result,
}

module _ (repo : AccessRepo) (f : Formats) where
  -- What a successful signature has checked and done.
  pub record Signs (db : ContractDb) (actor : Actor) (project_id : ℕ) (signer : SignerData)
      (now : ℕ) (c : Contract) (db' : ContractDb) : Type 0 where
    pub access : Access
    pub current : Contract
    pub granted : assert_project_access repo actor project_id ≡ ok access
    pub by_client : (is_client actor.role && is_client access.member_role) ≡ true
    pub at : get_by_project_id db project_id ≡ some current
    pub was_sent : current.status ≡ pending_signature
    pub returned : get_by_project_id db' project_id ≡ some c
    pub effect :
        (j : ℕ)
        → get_by_project_id db' j ≡ (
            if j == project_id
            then some (sign_result f access.project.name actor.sub signer now current)
            else get_by_project_id db j)
    pub amendments : db'.amendments ≡ db.amendments
    pub next_id : db'.next_id ≡ db.next_id

  pub sign-Signs :
      (db : ContractDb) (actor : Actor) (project_id : ℕ) (signer : SignerData) (now : ℕ)
      {c : Contract} {db' : ContractDb}
      → sign repo f db actor project_id signer now ≡ ok (c, db')
      → Signs db actor project_id signer now c db'
  unfolding sign
  sign-Signs db actor project_id signer now {c} e =
      after-ok (assert_project_access repo actor project_id) _ e λ access granted e₁.
        after_require (is_client actor.role && is_client access.member_role) _ _ e₁ λ by_client e₂.
          after_found (get_by_project_id db project_id) _ _ e₂ λ current present e₃.
            after_require (same_status current.status pending_signature) _ _ e₃ λ was_sent e₄.
              let snapshot =
                get_or current.content_snapshot
                  (build_contract_snapshot f current.terms access.project.name) in
              let hash = get_or current.content_hash (f.sha256 snapshot) in
              let db₁ =
                sign_of project_id actor.sub signer (when_missing current.content_snapshot snapshot)
                  (when_missing current.content_snapshot hash) now db in
              after_found (get_by_project_id db₁ project_id) _ _ e₄ λ contract there e₅.
                let same = ok-injective _ _ e₅ in
                record {
                  access = access;
                  current = current;
                  granted = granted;
                  by_client = by_client;
                  at = present;
                  was_sent = same_status_eq current.status pending_signature was_sent;
                  returned =
                      get_after_audit actor.sub _ contract.id project_id db₁ same
                      ∙ there
                      ∙ ap (λ (r : Contract × ContractDb). some r.0) same;
                  effect = λ j.
                      get_after_audit actor.sub _ contract.id j db₁ same
                      ∙ rw present at (
                          get-sign_of project_id actor.sub signer
                            (when_missing current.content_snapshot snapshot)
                            (when_missing current.content_snapshot hash) now db j);
                  amendments =
                      sym (ap (λ (r : Contract × ContractDb). r.1.amendments) same)
                      ∙ kept_amendments project_id actor.sub signer
                          (when_missing current.content_snapshot snapshot)
                          (when_missing current.content_snapshot hash) now contract.id db;
                  next_id =
                      sym (ap (λ (r : Contract × ContractDb). r.1.next_id) same)
                      ∙ kept_next_id project_id actor.sub signer
                          (when_missing current.content_snapshot snapshot)
                          (when_missing current.content_snapshot hash) now contract.id db;
                }
