-- ===== src/Contract/Lookup.antt =====
-- contract.repository.ts: the contract that a project has after a statement.
use mathlib.Core.Option
use mathlib.Core.Option.{some-injective}
use crm_collab.Base.{
  ℕ, ◌≤◌, ◌≡◌, refl, sym, ap, inl, inr, true, false, Option, some, [], ◌∷◌, arith, ◌==◌,
  if◌then◌else◌, Bool-cases, Option-cases, ==_iff, get_or,
}
use crm_collab.Base.Text.{Text}
use crm_collab.Base.Table.{find_by, find_by-append, find_by-update_by, find_by-key, update_by}
use crm_collab.Contract.Model.{
  ContractStatus, draft, pending_signature, signed, same_status, Contract, ContractDb,
  ContractAction, project_contract_signed, contract_project,
}
use crm_collab.Contract.Repository.{
  sent, signed_as, DraftRow, SignerData, get_by_project_id, drafted, upsert_draft,
  request_signature_of, sign_of, create_contract_audit,
}
use crm_collab.Contract.Template.{Formats, build_contract_snapshot}
use crm_collab.Contract.Service.{when_missing}

-- The contract that a project has after its row is changed.
pub get-update_by :
    (project_id : ℕ) (g : Contract → Contract) (db : ContractDb) (j : ℕ)
    → ((c : Contract) → (g c).project_id ≡ c.project_id)
    → get_by_project_id
        (record db { contracts = update_by contract_project project_id g db.contracts })
        j
      ≡ (if j == project_id
          then Option.map g (get_by_project_id db project_id)
          else get_by_project_id db j)
unfolding get_by_project_id
get-update_by project_id g db j keep = elim (Bool-cases (j == project_id)) [
  | inl e ↦
      let same : j ≡ project_id = (==_iff j project_id).0 e in
      ground (
        arith,
        e,
        find_by-update_by contract_project j project_id g db.contracts keep,
        ap (λ k. find_by contract_project k db.contracts) same,
      )
  | inr e ↦ ground (arith, e, find_by-update_by contract_project j project_id g db.contracts keep)
]

-- The row that a draft leaves for its project.
abbrev pub redraft : ℕ → DraftRow → ℕ → ContractDb → Contract
redraft project_id row now db =
    drafted (get_or (Option.map (λ c. c.id) (get_by_project_id db project_id)) db.next_id)
      project_id now row

pub get-upsert_draft :
    (project_id : ℕ) (row : DraftRow) (now : ℕ) (db : ContractDb) (j : ℕ)
    → get_by_project_id (upsert_draft project_id row now db) j
      ≡ (if j == project_id then some (redraft project_id row now db) else get_by_project_id db j)
unfolding upsert_draft get_by_project_id find_by
get-upsert_draft project_id row now db j =
    elim (Option-cases (find_by contract_project project_id db.contracts)) [
      | inl none_there ↦ elim (Bool-cases (j == project_id)) [
        | inl e ↦
            let same : j ≡ project_id = (==_iff j project_id).0 e in
            ground (
              arith,
              e,
              none_there,
              ap (λ k. find_by contract_project k db.contracts) same,
              find_by-append contract_project j db.contracts
                  (drafted db.next_id project_id now row ∷ []),
            )
        | inr e ↦
            let flipped : (project_id == j) ≡ false = ground (arith, e) in
            ground (
              arith,
              e,
              flipped,
              none_there,
              find_by-append contract_project j db.contracts
                  (drafted db.next_id project_id now row ∷ []),
              Option-cases (find_by contract_project j db.contracts),
            )
      ]
      | inr (c, there) ↦
          let key : c.project_id ≡ project_id =
            find_by-key contract_project project_id db.contracts there in
          ground (
            arith,
            there,
            get-update_by project_id (λ k. drafted k.id k.project_id now row) db j (λ k. refl),
            ap (λ k. some (drafted c.id k now row)) key,
          )
    ]

pub same_status_eq : (a b : ContractStatus) → same_status a b ≡ true → a ≡ b
same_status_eq draft draft e = refl
same_status_eq pending_signature pending_signature e = refl
same_status_eq signed signed e = refl
same_status_eq _ _ e = cc

pub get_after_audit :
    (sub : ℕ) (action : ContractAction) (id j : ℕ) (db₁ : ContractDb) {c d : Contract}
    {db' : ContractDb}
    → ◌≡◌ {A = Contract × ContractDb} (c, create_contract_audit sub action id db₁) (d, db')
    → get_by_project_id db' j ≡ get_by_project_id db₁ j
unfolding create_contract_audit get_by_project_id
get_after_audit sub action id j db₁ e =
    sym (ap (λ (r : Contract × ContractDb). get_by_project_id r.1 j) e)

pub get-request_signature_of :
    (project_id : ℕ) (snapshot hash : Text) (now : ℕ) (db : ContractDb) (j : ℕ)
    → get_by_project_id (request_signature_of project_id snapshot hash now db) j ≡ (
        if j == project_id
        then Option.map (sent snapshot hash now) (get_by_project_id db project_id)
        else get_by_project_id db j)
unfolding request_signature_of
get-request_signature_of project_id snapshot hash now db j =
    get-update_by project_id (sent snapshot hash now) db j (λ c. refl)

pub get-sign_of :
    (project_id sub : ℕ) (signer : SignerData) (snapshot hash : Option Text) (now : ℕ)
    (db : ContractDb) (j : ℕ)
    → get_by_project_id (sign_of project_id sub signer snapshot hash now db) j ≡ (
        if j == project_id
        then Option.map (signed_as sub signer snapshot hash now) (get_by_project_id db project_id)
        else get_by_project_id db j)
unfolding sign_of
get-sign_of project_id sub signer snapshot hash now db j =
    get-update_by project_id (signed_as sub signer snapshot hash now) db j (λ c. refl)

pub kept_by_draft :
    (project_id : ℕ) (row : DraftRow) (now : ℕ) (db : ContractDb)
    → ((upsert_draft project_id row now db).amendments ≡ db.amendments)
      × (db.next_id ≤ (upsert_draft project_id row now db).next_id)
unfolding upsert_draft
kept_by_draft project_id row now db = (ground arith, ground arith)

pub kept_amendments :
    (project_id sub : ℕ) (signer : SignerData) (snapshot hash : Option Text) (now id : ℕ)
    (db : ContractDb)
    → (create_contract_audit sub project_contract_signed id
        (sign_of project_id sub signer snapshot hash now db)).amendments
      ≡ db.amendments
unfolding create_contract_audit sign_of
kept_amendments project_id sub signer snapshot hash now id db = refl

pub kept_next_id :
    (project_id sub : ℕ) (signer : SignerData) (snapshot hash : Option Text) (now id : ℕ)
    (db : ContractDb)
    → (create_contract_audit sub project_contract_signed id
        (sign_of project_id sub signer snapshot hash now db)).next_id
      ≡ db.next_id
unfolding create_contract_audit sign_of
kept_next_id project_id sub signer snapshot hash now id db = refl

-- The row that a signature leaves of a contract.
abbrev pub sign_result : Formats → Text → ℕ → SignerData → ℕ → Contract → Contract
sign_result f project_name sub signer now d =
    let snapshot = get_or d.content_snapshot (build_contract_snapshot f d.terms project_name) in
    signed_as sub signer (when_missing d.content_snapshot snapshot)
      (when_missing d.content_snapshot (get_or d.content_hash (f.sha256 snapshot))) now d
