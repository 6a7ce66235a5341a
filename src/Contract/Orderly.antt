-- ===== src/Contract/Orderly.antt =====
-- amendment.service.ts: every amendment belongs to a signed contract, and what is signed is the text
-- that was stored with its hash.
use mathlib.Core.Path.{subst}
use crm_collab.Base.{
  ℕ, ◌<◌, ◌≡◌, ◌⊎◌, refl, sym, ap, inl, inr, true, ◌&&◌, some, [], ◌∷◌, arith, ◌==◌, All,
}
use crm_collab.Base.Text.{Text}
use crm_collab.Base.Table.{
  find_by, IsKeyed, All-append, All-map_holds, All-update_where, find_by_of_find, find-passes,
  update_by,
}
use crm_collab.Base.Keyed.{All-update_by, IsKeyed-update_where, IsKeyed-append}
use crm_collab.Contract.Model.{
  draft, pending_signature, signed, Contract, Amendment, no_signature, ContractDb, amendment_id,
}
use crm_collab.Contract.Repository.{
  signature_by, SignerData, get_by_project_id, get_amendment_by_id,
}
use crm_collab.Contract.Template.{Formats}
use crm_collab.Contract.Lifecycle.{Step, Reaches, here, later, Step-Move, signed_stays}
use crm_collab.Contract.Rows.{
  Rows, Change, sends, signs, Rows-Step, kept_rows, appended_row, changed_row,
}

module _ (f : Formats) where
  -- The three stages of an amendment: a draft has no text and no signature; a text that is stored
  -- waits with its hash; and a signature is added to that text.
  abbrev pub Stage : Amendment → Type 0
  Stage a =
      ((a.status ≡ draft) × (a.signature ≡ no_signature))
      ⊎ ((s : Text) × (a.content_snapshot ≡ some s)
          × (a.content_hash ≡ some (f.sha256 s))
          × (((a.status ≡ pending_signature) × (a.signature ≡ no_signature))
              ⊎ ((a.status ≡ signed)
                  × ((sub : ℕ) × (signer : SignerData) × (now : ℕ) × (a.signature
                        ≡ signature_by sub signer now)))))

  pub record IsOrderly (db : ContractDb) (a : Amendment) : Type 0 where
    pub contract : Contract
    pub at : get_by_project_id db a.project_id ≡ some contract
    pub is_signed : contract.status ≡ signed
    pub of_contract : a.contract_id ≡ contract.id
    pub stage : Stage a

  -- The invariant: every row is orderly, and ids are distinct.
  pub record AllOrderly (db : ContractDb) : Type 0 where
    pub rows : All (IsOrderly db) db.amendments
    pub keyed : IsKeyed amendment_id db.amendments
    pub below : All (λ a. a.id < db.next_id) db.amendments

  changed-Stage : (b : Amendment) {g : Amendment → Amendment} → Change f b g → Stage b → Stage (g b)
  changed-Stage b (sends snapshot now was) (inl (is, blank)) =
      inr (snapshot, refl, refl, inl (refl, blank))
  changed-Stage b (sends snapshot now was) (inr (s, is_s, is_h, inl (is, blank))) =
      absurd (ground (arith, was, is))
  changed-Stage b (sends snapshot now was) (inr (s, is_s, is_h, inr (is, by))) =
      absurd (ground (arith, was, is))
  changed-Stage b (signs sub signer now was) (inl (is, blank)) = absurd (ground (arith, was, is))
  changed-Stage b (signs sub signer now was) (inr (s, is_s, is_h, rest)) =
      inr (s, is_s, is_h, inr (refl, (sub, signer, now, refl)))

  change-id :
      (b : Amendment) {g : Amendment → Amendment} → Change f b g → (a : Amendment) → (g a).id ≡ a.id
  change-id b (sends snapshot now was) a = refl
  change-id b (signs sub signer now was) a = refl

  changed_row-IsOrderly :
      (db : ContractDb) (b : Amendment) {g : Amendment → Amendment}
      → Change f b g
      → IsOrderly db b
      → IsOrderly db (g b)
  changed_row-IsOrderly db b (sends snapshot now was) h = record {
    contract = h.contract;
    at = h.at;
    is_signed = h.is_signed;
    of_contract = h.of_contract;
    stage = changed-Stage b (sends snapshot now was) h.stage;
  }
  changed_row-IsOrderly db b (signs sub signer now was) h = record {
    contract = h.contract;
    at = h.at;
    is_signed = h.is_signed;
    of_contract = h.of_contract;
    stage = changed-Stage b (signs sub signer now was) h.stage;
  }

  lifted :
      (db db' : ContractDb) (step : Step f db db') (a : Amendment)
      → IsOrderly db a
      → IsOrderly db' a
  lifted db db' step a h = record {
    contract = h.contract;
    at = signed_stays f h.contract (Step-Move f a.project_id step) h.at h.is_signed;
    is_signed = h.is_signed;
    of_contract = h.of_contract;
    stage = h.stage;
  }

  AllOrderly-Rows :
      (db db' : ContractDb) → Step f db db' → Rows f db db' → AllOrderly db → AllOrderly db'
  unfolding get_amendment_by_id update_by
  AllOrderly-Rows db db' step (kept_rows (same, ids)) h = record {
    rows =
        subst (All (IsOrderly db')) (sym same)
          (All-map_holds (IsOrderly db) (IsOrderly db') db.amendments (lifted db db' step) h.rows);
    keyed = subst (IsKeyed amendment_id) (sym same) h.keyed;
    below = subst (All (λ a. a.id < db'.next_id)) (sym same) (
        All-map_holds (λ a. a.id < db.next_id) (λ a. a.id < db'.next_id) db.amendments
          (λ a lt. omega (arith, lt, ids)) h.below);
  }
  AllOrderly-Rows db db' step (appended_row project_id sub now a new) h = record {
    rows = subst (All (IsOrderly db')) (sym new.amendments) (
        All-append (IsOrderly db') db.amendments (a ∷ [])
          (All-map_holds (IsOrderly db) (IsOrderly db') db.amendments (lifted db db' step) h.rows)
          (
            subst (IsOrderly db') (sym new.row) (record {
              contract = new.contract;
              at = signed_stays f new.contract (Step-Move f project_id step) new.at new.is_signed;
              is_signed = new.is_signed;
              of_contract = refl;
              stage = inl (refl, refl);
            }),
            tt,
          ));
    keyed = subst (IsKeyed amendment_id) (sym new.amendments) (
        IsKeyed-append amendment_id db.amendments db.next_id a h.below
          (omega (arith, ap amendment_id new.row)) h.keyed);
    below = subst (All (λ x. x.id < db'.next_id)) (sym new.amendments) (
        All-append (λ x. x.id < db'.next_id) db.amendments (a ∷ [])
          (All-map_holds (λ x. x.id < db.next_id) (λ x. x.id < db'.next_id) db.amendments
            (λ x lt. omega (arith, lt, new.next_id)) h.below)
          (omega (arith, ap amendment_id new.row, new.next_id), tt));
  }
  AllOrderly-Rows db db' step (changed_row project_id id a g c change) h =
      let hit : (c.before.project_id == project_id && c.before.id == id) ≡ true =
        find-passes (λ x. x.project_id == project_id && x.id == id) db.amendments c.at in
      let same_id : c.before.id ≡ id = ground (arith, hit) in
      let found_by : find_by amendment_id id db.amendments ≡ some c.before =
        subst (λ k. find_by amendment_id k db.amendments ≡ some c.before) same_id
          (find_by_of_find amendment_id (λ x. x.project_id == project_id && x.id == id)
            db.amendments h.keyed c.at) in
      record {
        rows = subst (All (IsOrderly db')) (sym c.amendments) (
            All-update_by amendment_id (IsOrderly db) (IsOrderly db') id g db.amendments h.keyed
              found_by (lifted db db' step)
              (λ b. changed_row-IsOrderly db' c.before change (lifted db db' step c.before b))
              h.rows);
        keyed = subst (IsKeyed amendment_id) (sym c.amendments) (
            IsKeyed-update_where amendment_id (λ x. x.id == id) g db.amendments
              (change-id c.before change) h.keyed);
        below = subst (All (λ x. x.id < db'.next_id)) (sym c.amendments) (
            All-update_where (λ x. x.id < db'.next_id) (λ x. x.id == id) g db.amendments
              (λ x e lt. omega (arith, lt, change-id c.before change x))
              (All-map_holds (λ x. x.id < db.next_id) (λ x. x.id < db'.next_id) db.amendments
                (λ x lt. omega (arith, lt, c.next_id)) h.below));
      }

  -- Operations keep the invariant: every amendment belongs to the signed contract of its project, a
  -- draft is unsigned, and an amendment that waits or is signed stores its text with its hash.
  pub Reaches-AllOrderly : {db db' : ContractDb} → Reaches f db db' → AllOrderly db → AllOrderly db'
  Reaches-AllOrderly here h = h
  Reaches-AllOrderly (later mid reached step) h =
      AllOrderly-Rows mid _ step (Rows-Step f step) (Reaches-AllOrderly reached h)
