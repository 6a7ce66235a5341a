-- ===== src/Contract/Authority.antt =====
-- contract.service.ts, sign: who signs, and when the signature is accepted.
use mathlib.Core.Option
use crm_collab.Base.{ℕ, ◌≡◌, ◌≢◌, sym, ◌∙◌, some, arith, ==_self}
use crm_collab.Base.Outcome.{ok}
use crm_collab.Access.{Actor, AccessRepo, Access, client}
use crm_collab.Access.Guards.{assert_project_access-eq-ok_iff}
use crm_collab.Contract.Model.{pending_signature, signed, Contract, ContractDb}
use crm_collab.Contract.Repository.{SignerData, signature_by, get_by_project_id}
use crm_collab.Contract.Template.{Formats}
use crm_collab.Contract.Service.{sign}
use crm_collab.Contract.Lookup.{sign_result}
use crm_collab.Contract.Signing.{sign-Signs}

module _ (repo : AccessRepo) (f : Formats) where
  -- The actor is a client, and the project has him as a client.
  abbrev pub IsProjectClient : Actor → ℕ → Type 0
  IsProjectClient actor project_id =
      (actor.role ≡ client)
      × (Option.map (λ m. m.role) (repo.find_project_member project_id actor.sub) ≡ some client)

  -- A signature that is accepted comes from a client of the project, for a contract that waits for
  -- it; that contract is then signed by him, and neither another project's contract nor any
  -- amendment changes.
  pub sign_by_client :
      (db : ContractDb) (actor : Actor) (project_id : ℕ) (signer : SignerData) (now : ℕ)
      {c : Contract} {db' : ContractDb}
      → sign repo f db actor project_id signer now ≡ ok (c, db')
      → IsProjectClient actor project_id
        × ((d : Contract) × (get_by_project_id db project_id ≡ some d)
            × (d.status ≡ pending_signature))
        × (get_by_project_id db' project_id ≡ some c)
        × (c.status ≡ signed)
        × (c.signature ≡ signature_by actor.sub signer now)
        × ((j : ℕ) → j ≢ project_id → get_by_project_id db' j ≡ get_by_project_id db j)
        × (db'.amendments ≡ db.amendments)
  sign_by_client db actor project_id signer now {c} e =
      let s = sign-Signs repo f db actor project_id signer now e in
      let is_result : some c
          ≡ some (sign_result f s.access.project.name actor.sub signer now s.current) =
        sym s.returned ∙ rw (==_self project_id) at (s.effect project_id) in
      let granted = (assert_project_access-eq-ok_iff repo actor project_id s.access).0 s.granted in
      (
        (ground (arith, s.by_client), ground (arith, s.by_client, granted)),
        (s.current, s.at, s.was_sent),
        s.returned,
        ground (arith, is_result),
        ground (arith, is_result),
        λ j ne. ground (arith, s.effect j, ne),
        s.amendments,
      )
