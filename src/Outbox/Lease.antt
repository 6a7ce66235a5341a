-- ===== src/Outbox/Lease.antt =====
-- collab-outbox.repository.ts: a claim is a lease that its token guards.
use crm_collab.Base.{
  ℕ, ◌≡◌, ◌≢◌, ◌⊎◌, refl, ◌∙◌, ap, inl, inr, Bool, false, ◌&&◌, some, List, [], ◌∷◌, arith, ◌==◌,
  Option-cases, has, find,
}
use crm_collab.Base.Text.{Text}
use crm_collab.Base.Table.{find_by, find_by-update_where, update_where}
use crm_collab.Outbox.{
  OutboxRow, outbox_id, is_held, mark_collab_outbox_published, mark_collab_outbox_failed,
  as_published, as_failed, retry_delay,
}

-- Marking a failure leaves the table alone, or changes the rows of that id and token.
pub mark_failed_cases :
    (id token : ℕ) (error : Text) (now : ℕ) (rows : List OutboxRow)
    → let rows' = (mark_collab_outbox_failed id token error now rows).1 in
      (rows' ≡ rows)
      ⊎ ((delay : ℕ) × (rows'
            ≡ update_where (λ y. y.id == id && is_held token y) (as_failed error now delay) rows))
unfolding mark_collab_outbox_failed is_held
mark_failed_cases id token error now rows =
    elim (Option-cases (find (λ (x : OutboxRow). x.id == id && is_held token x) rows)) [
      | inl absent ↦ inl (ground (arith, absent))
      | inr (x, there) ↦ elim (Option-cases (retry_delay x.attempts)) [
        | inl over ↦ inl (ground (arith, there, over))
        | inr (delay, fits) ↦ inr (delay, ground (arith, there, fits))
      ]
    ]

-- A worker whose row was claimed by another one since can mark it neither published nor failed.
pub stale_worker_marks_nothing :
    (ids : List ℕ) (i id token token' now : ℕ) (error : Text) (rows : List OutboxRow)
    (r : OutboxRow)
    → find_by outbox_id id rows ≡ some r
    → r.claim_token ≡ some token'
    → token' ≢ token
    → (find_by outbox_id id (mark_collab_outbox_published ids token now rows).1 ≡ some r)
      × (find_by outbox_id id (mark_collab_outbox_failed i token error now rows).1 ≡ some r)
unfolding mark_collab_outbox_published mark_collab_outbox_failed is_held
stale_worker_marks_nothing ids i id token token' now error rows r at owner other =
    (published ids, failed)
  where
    missed :
        (p : OutboxRow → Bool) (g : OutboxRow → OutboxRow)
        → p r ≡ false
        → ((x : OutboxRow) → outbox_id (g x) ≡ outbox_id x)
        → find_by outbox_id id (update_where p g rows) ≡ some r
    missed p g e keep = ground (arith, find_by-update_where outbox_id id p g rows keep, at, e)

    published :
        (is : List ℕ)
        → find_by outbox_id id (mark_collab_outbox_published is token now rows).1 ≡ some r
    published [] = at
    published (j ∷ js) =
        missed (λ x. has (j ∷ js) x.id && is_held token x) (as_published now)
          (ground (arith, owner, other)) (λ x. refl)

    failed : find_by outbox_id id (mark_collab_outbox_failed i token error now rows).1 ≡ some r
    failed = elim (mark_failed_cases i token error now rows) [
      | inl same ↦ ap (find_by outbox_id id) same ∙ at
      | inr (delay, same) ↦
          ap (find_by outbox_id id) same
          ∙ missed (λ (y : OutboxRow). y.id == i && is_held token y) (as_failed error now delay)
              (ground (arith, owner, other)) (λ y. refl)
    ]
