-- ===== src/Contract/Moves.antt =====
-- contract.service.ts: what an operation does to the contract of a project.
use mathlib.Core.Path.{subst}
use crm_collab.Base.{
  ℕ, ◌≡◌, ◌⊎◌, refl, sym, ◌∙◌, ap, inl, inr, true, not, Option, none, some, arith, ◌==◌, Bool-cases,
  ==_iff,
}
use crm_collab.Base.Text.{Text}
use crm_collab.Base.Outcome.{ok, after-ok, after_require, after_found, ok-injective}
use crm_collab.Access.{Actor, AccessRepo, is_admin, assert_project_access}
use crm_collab.Contract.Model.{
  draft, pending_signature, signed, same_status, ContractTerms, no_signature, Contract, ContractDb,
}
use crm_collab.Contract.Repository.{
  sent, SignerData, get_by_project_id, upsert_draft, request_signature_of,
}
use crm_collab.Contract.Template.{
  Formats, is_text, build_contract_snapshot, build_contract_snapshot-nonempty,
}
use crm_collab.Contract.Service.{
  save_draft, request_signature, sign, draft_row, draft_terms, current_is,
}
use crm_collab.Contract.Lookup.{
  redraft, get-upsert_draft, same_status_eq, get_after_audit, get-request_signature_of, sign_result,
}
use crm_collab.Contract.Signing.{sign-Signs}

-- The stored text is there, and the stored hash is its hash.
pub record IsSealed (f : Formats) (c : Contract) : Type 0 where
  pub snapshot : Text
  pub is_snapshot : c.content_snapshot ≡ some snapshot
  pub is_hash : c.content_hash ≡ some (f.sha256 snapshot)
  pub nonempty : is_text snapshot ≡ true

-- What may become of a project's contract in one operation.
pub data Move (f : Formats) (before after : Option Contract) : Type 0 where
  stays : after ≡ before → Move f before after
  redrafted :
      (c : Contract)
      → after ≡ some c
      → (before ≡ none) ⊎ ((d : Contract) × (before ≡ some d) × (d.status ≡ draft))
      → c.status ≡ draft
      → c.signature ≡ no_signature
      → IsSealed f c
      → Move f before after
  requested :
      (d c : Contract)
      → before ≡ some d
      → after ≡ some c
      → d.status ≡ draft
      → c.status ≡ pending_signature
      → c.terms ≡ d.terms
      → IsSealed f c
      → Move f before after
  completed :
      (d c : Contract)
      → before ≡ some d
      → after ≡ some c
      → d.status ≡ pending_signature
      → c.status ≡ signed
      → c.terms ≡ d.terms
      → (IsSealed f d
          → (c.content_snapshot ≡ d.content_snapshot) × (c.content_hash ≡ d.content_hash))
      → Move f before after

-- A contract that is neither signed nor waiting is a draft, or there is none.
is_draft_or_none :
    (o : Option Contract)
    → not (current_is signed o) ≡ true
    → not (current_is pending_signature o) ≡ true
    → (o ≡ none) ⊎ ((d : Contract) × (o ≡ some d) × (d.status ≡ draft))
is_draft_or_none none s p = inl refl
is_draft_or_none (some d) s p = inr (d, refl, ground arith)

module _ (repo : AccessRepo) (f : Formats) where
  pub save_draft-Move :
      (db : ContractDb) (actor : Actor) (project_id : ℕ) (payload : ContractTerms) (now : ℕ)
      {c : Contract} {db' : ContractDb} (j : ℕ)
      → save_draft repo f db actor project_id payload now ≡ ok (c, db')
      → Move f (get_by_project_id db j) (get_by_project_id db' j)
  unfolding save_draft
  save_draft-Move db actor project_id payload now j e =
      after_require (is_admin actor.role) _ _ e λ is_admin e₁.
        after-ok (assert_project_access repo actor project_id) _ e₁ λ access granted e₂.
          after_require (not (current_is signed (get_by_project_id db project_id))) _ _ e₂
            λ not_signed e₃.
              after_require (not (current_is pending_signature (get_by_project_id db project_id))) _
                _ e₃
                λ not_sent e₄.
                  let row = draft_row repo f actor.sub (draft_terms payload) access.project.name in
                  let db₁ = upsert_draft project_id row now db in
                  after_found (get_by_project_id db₁ project_id) _ _ e₄ λ contract there e₅.
                    let after =
                      get_after_audit actor.sub _ contract.id j db₁ (ok-injective _ _ e₅) in
                    elim (Bool-cases (j == project_id)) [
                      | inl same ↦
                          redrafted (redraft project_id row now db)
                            (rw same at (after ∙ get-upsert_draft project_id row now db j))
                            (subst
                              (λ k.
                                (get_by_project_id db k ≡ none)
                                ⊎ ((d : Contract) × (get_by_project_id db k ≡ some d)
                                    × (d.status ≡ draft)))
                              (sym ((==_iff j project_id).0 same))
                              (is_draft_or_none (get_by_project_id db project_id) not_signed
                                not_sent))
                            refl refl
                            (record {
                              snapshot = row.content_snapshot;
                              is_snapshot = refl;
                              is_hash = refl;
                              nonempty =
                                  build_contract_snapshot-nonempty f (draft_terms payload)
                                    access.project.name;
                            })
                      | inr other ↦
                          stays (rw other at (after ∙ get-upsert_draft project_id row now db j))
                    ]

  pub request_signature-Move :
      (db : ContractDb) (actor : Actor) (project_id : ℕ) (now : ℕ) {c : Contract} {db' : ContractDb}
      (j : ℕ)
      → request_signature repo f db actor project_id now ≡ ok (c, db')
      → Move f (get_by_project_id db j) (get_by_project_id db' j)
  unfolding request_signature
  request_signature-Move db actor project_id now j e =
      after_require (is_admin actor.role) _ _ e λ is_admin e₁.
        after-ok (assert_project_access repo actor project_id) _ e₁ λ access granted e₂.
          after_found (get_by_project_id db project_id) _ _ e₂ λ current at e₃.
            after_require (same_status current.status draft) _ _ e₃ λ is_draft e₄.
              let snapshot = build_contract_snapshot f current.terms access.project.name in
              let db₁ = request_signature_of project_id snapshot (f.sha256 snapshot) now db in
              after_found (get_by_project_id db₁ project_id) _ _ e₄ λ contract there e₅.
                let after = get_after_audit actor.sub _ contract.id j db₁ (ok-injective _ _ e₅) in
                elim (Bool-cases (j == project_id)) [
                  | inl same ↦
                      requested current (sent snapshot (f.sha256 snapshot) now current)
                        (ap (get_by_project_id db) ((==_iff j project_id).0 same) ∙ at)
                        (rw (same, at) at
                          (after
                            ∙ get-request_signature_of project_id snapshot (f.sha256 snapshot) now
                                db j))
                        (same_status_eq current.status draft is_draft) refl refl
                        (record {
                          snapshot = snapshot;
                          is_snapshot = refl;
                          is_hash = refl;
                          nonempty =
                              build_contract_snapshot-nonempty f current.terms access.project.name;
                        })
                  | inr other ↦ stays (
                      rw other at (
                        after
                        ∙ get-request_signature_of project_id snapshot (f.sha256 snapshot) now db
                            j))
                ]

  sign_keeps :
      (project_name : Text) (sub : ℕ) (signer : SignerData) (now : ℕ) (d : Contract)
      → IsSealed f d
      → let c = sign_result f project_name sub signer now d in
        (c.content_snapshot ≡ d.content_snapshot) × (c.content_hash ≡ d.content_hash)
  sign_keeps project_name sub signer now d h =
      (ground (arith, h.is_snapshot, h.nonempty), ground (arith, h.is_snapshot, h.nonempty))

  pub sign-Move :
      (db : ContractDb) (actor : Actor) (project_id : ℕ) (signer : SignerData) (now : ℕ)
      {c : Contract} {db' : ContractDb} (j : ℕ)
      → sign repo f db actor project_id signer now ≡ ok (c, db')
      → Move f (get_by_project_id db j) (get_by_project_id db' j)
  sign-Move db actor project_id signer now j e =
      let s = sign-Signs repo f db actor project_id signer now e in
      let d = s.current in
      elim (Bool-cases (j == project_id)) [
        | inl same ↦
            completed d (sign_result f s.access.project.name actor.sub signer now d)
              (ap (get_by_project_id db) ((==_iff j project_id).0 same) ∙ s.at)
              (rw same at (s.effect j)) s.was_sent refl refl
              (sign_keeps s.access.project.name actor.sub signer now d)
        | inr other ↦ stays (rw other at (s.effect j))
      ]
