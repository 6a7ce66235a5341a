-- ===== src/Contract/Kept.antt =====
-- contract.service.ts: the operations on contracts leave the amendments alone.
use mathlib.Core.Path.{subst}
use crm_collab.Base.{ℕ, ◌≤◌, ◌≡◌, sym, ◌∙◌, ap, not, arith}
use crm_collab.Base.Outcome.{ok, after-ok, after_require, after_found, ok-injective}
use crm_collab.Access.{Actor, AccessRepo, is_admin, assert_project_access}
use crm_collab.Contract.Model.{
  draft, pending_signature, signed, same_status, ContractTerms, Contract, ContractDb,
}
use crm_collab.Contract.Repository.{
  get_by_project_id, upsert_draft, request_signature_of, create_contract_audit,
}
use crm_collab.Contract.Template.{Formats, build_contract_snapshot}
use crm_collab.Contract.Service.{save_draft, request_signature, draft_row, draft_terms, current_is}
use crm_collab.Contract.Lookup.{kept_by_draft}

module _ (repo : AccessRepo) (f : Formats) where
  -- The operations on contracts leave the amendments alone, and only a new contract takes an id.
  pub save_draft-amendments :
      (db : ContractDb) (actor : Actor) (project_id : ℕ) (payload : ContractTerms) (now : ℕ)
      {c : Contract} {db' : ContractDb}
      → save_draft repo f db actor project_id payload now ≡ ok (c, db')
      → (db'.amendments ≡ db.amendments) × (db.next_id ≤ db'.next_id)
  unfolding save_draft create_contract_audit
  save_draft-amendments db actor project_id payload now e =
      after_require (is_admin actor.role) _ _ e λ is_admin e₁.
        after-ok (assert_project_access repo actor project_id) _ e₁ λ access granted e₂.
          after_require (not (current_is signed (get_by_project_id db project_id))) _ _ e₂
            λ not_signed e₃.
              after_require (not (current_is pending_signature (get_by_project_id db project_id))) _
                _ e₃
                λ not_sent e₄.
                  let row = draft_row repo f actor.sub (draft_terms payload) access.project.name in
                  let db₁ = upsert_draft project_id row now db in
                  after_found (get_by_project_id db₁ project_id) _ _ e₄ λ contract there e₅.
                    let same = ok-injective _ _ e₅ in
                    let (rows, ids) = kept_by_draft project_id row now db in
                    (
                      sym (ap (λ (r : Contract × ContractDb). r.1.amendments) same) ∙ rows,
                      subst (λ n. db.next_id ≤ n)
                          (ap (λ (r : Contract × ContractDb). r.1.next_id) same) ids,
                    )

  pub request_signature-amendments :
      (db : ContractDb) (actor : Actor) (project_id : ℕ) (now : ℕ) {c : Contract} {db' : ContractDb}
      → request_signature repo f db actor project_id now ≡ ok (c, db')
      → (db'.amendments ≡ db.amendments) × (db.next_id ≤ db'.next_id)
  unfolding request_signature create_contract_audit request_signature_of
  request_signature-amendments db actor project_id now e =
      after_require (is_admin actor.role) _ _ e λ is_admin e₁.
        after-ok (assert_project_access repo actor project_id) _ e₁ λ access granted e₂.
          after_found (get_by_project_id db project_id) _ _ e₂ λ current at e₃.
            after_require (same_status current.status draft) _ _ e₃ λ is_draft e₄.
              let snapshot = build_contract_snapshot f current.terms access.project.name in
              let db₁ = request_signature_of project_id snapshot (f.sha256 snapshot) now db in
              after_found (get_by_project_id db₁ project_id) _ _ e₄ λ contract there e₅.
                let same = ok-injective _ _ e₅ in
                (
                  sym (ap (λ (r : Contract × ContractDb). r.1.amendments) same),
                  subst (λ n. db.next_id ≤ n) (ap (λ (r : Contract × ContractDb). r.1.next_id) same)
                      (omega arith),
                )
