-- ===== src/Contract/Lifecycle.antt =====
-- contract.service.ts and amendment.service.ts as one state machine: any sequence of successful
-- operations, of any projects and by any actors. The members may change between two operations.
use mathlib.Core.Path.{subst}
use mathlib.Core.Option.{some-injective}
use crm_collab.Base.{ℕ, ◌≡◌, ◌⊎◌, refl, sym, ◌∙◌, ap, inl, inr, Option, some, List, arith}
use crm_collab.Base.Text.{Text}
use crm_collab.Base.Table.{find_by}
use crm_collab.Base.Outcome.{ok}
use crm_collab.Access.{Actor, AccessRepo}
use crm_collab.Contract.Model.{
  pending_signature, signed, ContractTerms, Contract, Amendment, AmendmentTerms, ContractDb,
  contract_project,
}
use crm_collab.Contract.Repository.{SignerData, get_by_project_id}
use crm_collab.Contract.Template.{Formats}
use crm_collab.Contract.Service.{save_draft, request_signature, sign}
use crm_collab.Contract.Amendment.{
  save_amendment_draft, request_client_amendment, request_amendment_signature, sign_amendment,
}
use crm_collab.Contract.Moves.{
  IsSealed, Move, stays, redrafted, requested, completed, save_draft-Move, request_signature-Move,
  sign-Move,
}
use crm_collab.Contract.AmendmentEffects.{
  save_amendment_draft-Appends, request_client_amendment-Appends, request_amendment_signature-Sends,
  sign_amendment-SignsAmendment,
}

module _ (f : Formats) where
  -- One successful operation.
  pub data Step (db : ContractDb) : ContractDb → Type 0 where
    draft_saved :
        (repo : AccessRepo) (actor : Actor) (project_id : ℕ) (payload : ContractTerms) (now : ℕ)
        (c : Contract) {db' : ContractDb}
        → save_draft repo f db actor project_id payload now ≡ ok (c, db')
        → Step db db'
    signature_requested :
        (repo : AccessRepo) (actor : Actor) (project_id now : ℕ) (c : Contract) {db' : ContractDb}
        → request_signature repo f db actor project_id now ≡ ok (c, db')
        → Step db db'
    contract_signed :
        (repo : AccessRepo) (actor : Actor) (project_id : ℕ) (signer : SignerData) (now : ℕ)
        (c : Contract) {db' : ContractDb}
        → sign repo f db actor project_id signer now ≡ ok (c, db')
        → Step db db'
    amendment_saved :
        (repo : AccessRepo) (actor : Actor) (project_id : ℕ) (payload : AmendmentTerms) (now : ℕ)
        (a : Amendment) {db' : ContractDb}
        → save_amendment_draft repo f db actor project_id payload now ≡ ok (a, db')
        → Step db db'
    amendment_wanted :
        (repo : AccessRepo) (actor : Actor) (project_id : ℕ) (title description : Text) (now : ℕ)
        (a : Amendment) {db' : ContractDb}
        → request_client_amendment repo f db actor project_id title description now ≡ ok (a, db')
        → Step db db'
    amendment_requested :
        (repo : AccessRepo) (actor : Actor) (project_id id now : ℕ) (a : Amendment)
        {db' : ContractDb}
        → request_amendment_signature repo f db actor project_id id now ≡ ok (a, db')
        → Step db db'
    amendment_signed :
        (repo : AccessRepo) (actor : Actor) (project_id id : ℕ) (signer : SignerData) (now : ℕ)
        (a : Amendment) {db' : ContractDb}
        → sign_amendment repo f db actor project_id id signer now ≡ ok (a, db')
        → Step db db'

  pub data Reaches (db : ContractDb) : ContractDb → Type 0 where
    here : Reaches db db
    later : (mid : ContractDb) {db' : ContractDb} → Reaches db mid → Step mid db' → Reaches db db'

  same_contracts-Move :
      (j : ℕ) (db db' : ContractDb)
      → db'.contracts ≡ db.contracts
      → Move f (get_by_project_id db j) (get_by_project_id db' j)
  unfolding get_by_project_id
  same_contracts-Move j db db' same =
      stays (ap (λ (cs : List Contract). find_by contract_project j cs) same)

  pub Step-Move :
      (j : ℕ) {db db' : ContractDb}
      → Step db db'
      → Move f (get_by_project_id db j) (get_by_project_id db' j)
  Step-Move j {db} (draft_saved repo actor project_id payload now c e) =
      save_draft-Move repo f db actor project_id payload now j e
  Step-Move j {db} (signature_requested repo actor project_id now c e) =
      request_signature-Move repo f db actor project_id now j e
  Step-Move j {db} (contract_signed repo actor project_id signer now c e) =
      sign-Move repo f db actor project_id signer now j e
  Step-Move j {db} (amendment_saved repo actor project_id payload now a e) =
      same_contracts-Move j db _
        (save_amendment_draft-Appends repo f db actor project_id payload now e).contracts
  Step-Move j {db} (amendment_wanted repo actor project_id title description now a e) =
      same_contracts-Move j db _
        (request_client_amendment-Appends repo f db actor project_id title description now
          e).contracts
  Step-Move j {db} (amendment_requested repo actor project_id id now a e) =
      same_contracts-Move j db _
        (request_amendment_signature-Sends repo f db actor project_id id now e).changes.contracts
  Step-Move j {db} (amendment_signed repo actor project_id id signer now a e) =
      same_contracts-Move j db _
        (sign_amendment-SignsAmendment repo f db actor project_id id signer now e).changes.contracts

  pub signed_stays :
      {before after : Option Contract} (c : Contract)
      → Move f before after
      → before ≡ some c
      → c.status ≡ signed
      → after ≡ some c
  signed_stays c (stays same) at is = same ∙ at
  signed_stays c (redrafted d to from is_draft blank sealed) at is =
      absurd (ground (arith, from, at, is))
  signed_stays c (requested d d' from to was_draft sent terms sealed) at is =
      absurd (ground (arith, from, at, is, was_draft))
  signed_stays c (completed d d' from to was_sent done terms kept) at is =
      absurd (ground (arith, from, at, is, was_sent))

  -- No sequence of operations touches a signed contract.
  pub signed_is_final :
      (project_id : ℕ) (c : Contract) {db db' : ContractDb}
      → Reaches db db'
      → get_by_project_id db project_id ≡ some c
      → c.status ≡ signed
      → get_by_project_id db' project_id ≡ some c
  signed_is_final project_id c here at is = at
  signed_is_final project_id c (later mid reached step) at is =
      signed_stays c (Step-Move project_id step) (signed_is_final project_id c reached at is) is

  -- What becomes of a text that was sent to be signed: nothing, or its signature.
  abbrev pub IsFrozen : Contract → Contract → Type 0
  IsFrozen c d =
      (d.terms ≡ c.terms)
      × (d.content_snapshot ≡ c.content_snapshot)
      × (d.content_hash ≡ c.content_hash)
      × ((d ≡ c) ⊎ (d.status ≡ signed))

  Move-IsFrozen :
      {before after : Option Contract} (c d : Contract)
      → Move f before after
      → before ≡ some d
      → c.status ≡ pending_signature
      → IsSealed f c
      → IsFrozen c d
      → (e : Contract) × (after ≡ some e) × IsFrozen c e
  Move-IsFrozen c d (stays same) at sent sealed frozen = (d, same ∙ at, frozen)
  Move-IsFrozen c d (redrafted e to from is_draft blank again) at sent sealed frozen =
      absurd (ground (arith, from, at, frozen, sent))
  Move-IsFrozen c d (requested e e' from to was_draft now_sent terms again) at sent sealed frozen =
      absurd (ground (arith, from, at, frozen, was_draft, sent))
  Move-IsFrozen c d (completed e e' from to was_sent done terms kept) at sent sealed
        (t, s, h, frozen) =
      let same : e ≡ d = some-injective _ _ (sym from ∙ at) in
      let sealed_e : IsSealed f e = record {
        snapshot = sealed.snapshot;
        is_snapshot = ap (λ (k : Contract). k.content_snapshot) same ∙ s ∙ sealed.is_snapshot;
        is_hash = ap (λ (k : Contract). k.content_hash) same ∙ h ∙ sealed.is_hash;
        nonempty = sealed.nonempty;
      } in
      (
        e',
        to,
        (
          terms ∙ ap (λ (k : Contract). k.terms) same ∙ t,
          (kept sealed_e).0 ∙ ap (λ (k : Contract). k.content_snapshot) same ∙ s,
          (kept sealed_e).1 ∙ ap (λ (k : Contract). k.content_hash) same ∙ h,
          inr done,
        ),
      )

  -- Once a sealed contract waits for its signature, its terms, its text and its hash never change
  -- again: whatever operations follow, it still waits as it was, or it has been signed.
  pub sent_text_is_signed :
      (project_id : ℕ) (c : Contract) {db db' : ContractDb}
      → Reaches db db'
      → get_by_project_id db project_id ≡ some c
      → c.status ≡ pending_signature
      → IsSealed f c
      → (d : Contract) × (get_by_project_id db' project_id ≡ some d) × IsFrozen c d
  sent_text_is_signed project_id c here at sent sealed = (c, at, (refl, refl, refl, inl refl))
  sent_text_is_signed project_id c (later mid reached step) at sent sealed =
      let (d, at_mid, frozen) = sent_text_is_signed project_id c reached at sent sealed in
      Move-IsFrozen c d (Step-Move project_id step) at_mid sent sealed frozen

  -- Every contract of a state is sealed.
  abbrev pub AllSealed : ContractDb → Type 0
  AllSealed db =
      (project_id : ℕ) (c : Contract) → get_by_project_id db project_id ≡ some c → IsSealed f c

  Move-IsSealed :
      {before after : Option Contract} (c : Contract)
      → Move f before after
      → ((d : Contract) → before ≡ some d → IsSealed f d)
      → after ≡ some c
      → IsSealed f c
  Move-IsSealed c (stays same) sealed at = sealed c (sym same ∙ at)
  Move-IsSealed c (redrafted e to from is_draft blank again) sealed at =
      subst (IsSealed f) (some-injective _ _ (sym to ∙ at)) again
  Move-IsSealed c (requested d e from to was_draft now_sent terms again) sealed at =
      subst (IsSealed f) (some-injective _ _ (sym to ∙ at)) again
  Move-IsSealed c (completed d e from to was_sent done terms kept) sealed at =
      let before = sealed d from in
      subst (IsSealed f) (some-injective _ _ (sym to ∙ at)) (record {
        snapshot = before.snapshot;
        is_snapshot = (kept before).0 ∙ before.is_snapshot;
        is_hash = (kept before).1 ∙ before.is_hash;
        nonempty = before.nonempty;
      })

  -- Operations keep every contract sealed: its text is stored, with the hash of that text.
  pub Reaches-AllSealed : {db db' : ContractDb} → Reaches db db' → AllSealed db → AllSealed db'
  Reaches-AllSealed here sealed = sealed
  Reaches-AllSealed (later mid reached step) sealed = λ project_id c at.
      Move-IsSealed c (Step-Move project_id step) (Reaches-AllSealed reached sealed project_id) at
