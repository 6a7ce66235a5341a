-- ===== src/Identity/Redelivery.antt =====
-- events/auth-event-handler.ts: an event that the stream delivers again.
use crm_collab.Base.{
  ℕ, ◌≡◌, refl, sym, ◌∙◌, ap, inl, inr, ◌⊎◌, Bool, true, not, none, some, List, [], ◌∷◌, ◌++◌,
  arith, ◌==◌, select, is_just, Bool-cases, Option-cases,
}
use crm_collab.Base.Text.{Text}
use crm_collab.Base.Table.{update_where, update_by, find_by, find_by-append, find_by-update_by}
use crm_collab.Base.Maps.{map_set, map_delete}
use crm_collab.Identity.{
  UserProfile, Snapshot, CachedProfile, snapshot_sub, OwnedRow, IdentityDb,
  delete_user_identity_snapshot, delete_snapshot, upsert_snapshot, upsert_user_identity_snapshot,
}
use crm_collab.Identity.Events.{
  anon_email, anonymize_rows, anonymize_user_pii, snapshot_of, AuthEvent, user_deleted,
  user_changed, handle_auth_event,
}

select_twice {ℓ} : {A : Type ℓ} (p : A → Bool) (xs : List A) → select p (select p xs) ≡ select p xs
select_twice p [] = refl
select_twice p (x ∷ xs) = elim (Bool-cases (p x)) [
  | inl e ↦ rw (e, e, select_twice p xs) refl
  | inr e ↦ rw (e, select_twice p xs) refl
]

map_set_again {ℓ} :
    {V : Type ℓ} (k : ℕ) (v w : V) (m : List (ℕ × V)) → map_set k w (map_set k v m) ≡ map_set k w m
unfolding map_set
map_set_again k v w [] = ground arith
map_set_again k v w ((j, u) ∷ m) = ground (arith, map_set_again k v w m)

-- A second update of the same rows decides.
update_again {ℓ} :
    {A : Type ℓ} (p : A → Bool) (f g : A → A) (xs : List A)
    → ((x : A) → p x ≡ true → p (f x) ≡ true)
    → ((x : A) → g (f x) ≡ g x)
    → update_where p g (update_where p f xs) ≡ update_where p g xs
unfolding update_where
update_again p f g [] keep over = refl
update_again p f g (x ∷ xs) keep over = elim (Bool-cases (p x)) [
  | inl e ↦ rw (e, keep x e, over x, update_again p f g xs keep over) refl
  | inr e ↦ rw (e, e, update_again p f g xs keep over) refl
]

update_missed :
    (k : ℕ) (f : Snapshot → Snapshot) (row : Snapshot) (rows : List Snapshot)
    → find_by snapshot_sub k rows ≡ none
    → row.user_sub ≡ k
    → update_by snapshot_sub k f (rows ++ row ∷ []) ≡ rows ++ f row ∷ []
unfolding update_by update_where find_by
update_missed k f row [] missed is = ground (arith, is)
update_missed k f row (r ∷ rows) missed is = elim (Bool-cases (r.user_sub == k)) [
  | inl hit ↦ absurd (ground (arith, hit, missed))
  | inr miss ↦ rw (miss, update_missed k f row rows (rw (miss, find_by) at missed) is) refl
]

abbrev over : Snapshot → Snapshot → Snapshot
over row s = record row { user_sub = s.user_sub }

module _ (row : Snapshot) (rows : List Snapshot) where
  upsert_new :
      find_by snapshot_sub row.user_sub rows ≡ none → upsert_snapshot row rows ≡ rows ++ row ∷ []
  unfolding upsert_snapshot
  upsert_new new = rw new refl

  upsert_old :
      {s : Snapshot}
      → find_by snapshot_sub row.user_sub rows ≡ some s
      → upsert_snapshot row rows ≡ update_by snapshot_sub row.user_sub (over row) rows
  unfolding upsert_snapshot
  upsert_old old = rw old refl

module _ (first second : Snapshot) (same : second.user_sub ≡ first.user_sub)
    (rows : List Snapshot) where
  second_after_new :
      find_by snapshot_sub second.user_sub rows ≡ none
      → find_by snapshot_sub second.user_sub (rows ++ first ∷ []) ≡ some first
  unfolding find_by
  second_after_new new =
      ground (arith, find_by-append snapshot_sub second.user_sub rows (first ∷ []), new, same)

  second_after_old :
      {s : Snapshot}
      → find_by snapshot_sub second.user_sub rows ≡ some s
      → find_by snapshot_sub second.user_sub
          (update_by snapshot_sub second.user_sub (over first) rows)
        ≡ some (over first s)
  second_after_old old = ground (
    arith,
    find_by-update_by snapshot_sub second.user_sub second.user_sub (over first) rows (λ s. refl),
    old,
  )

  -- The second of two upserts decides.
  upsert_again : upsert_snapshot second (upsert_snapshot first rows) ≡ upsert_snapshot second rows
  unfolding update_by
  upsert_again = elim (Option-cases (find_by snapshot_sub second.user_sub rows)) [
    | inl new ↦
        ap (upsert_snapshot second) (upsert_new first rows (rw same at new))
        ∙ upsert_old second (rows ++ first ∷ []) (second_after_new new)
        ∙ update_missed second.user_sub (over second) first rows new (sym same)
        ∙ ap (λ u. rows ++ record second { user_sub = u } ∷ []) (sym same)
        ∙ sym (upsert_new second rows new)
    | inr (s, old) ↦
        ap (upsert_snapshot second) (
          upsert_old first rows (rw same at old)
          ∙ ap (λ k. update_by snapshot_sub k (over first) rows) (sym same))
        ∙ upsert_old second _ (second_after_old old)
        ∙ update_again (λ x. x.user_sub == second.user_sub) (over first) (over second) rows
            (λ x e. e) (λ x. refl)
        ∙ sym (upsert_old second rows old)
  ]

module _ (shown : ℕ → Text) where
  anonymize_rows_again :
      (sub : ℕ) (rows : List OwnedRow)
      → anonymize_rows shown sub (anonymize_rows shown sub rows) ≡ anonymize_rows shown sub rows
  unfolding anonymize_rows
  anonymize_rows_again sub rows =
      let anon = λ (r : OwnedRow). record r { email = some (anon_email shown sub) } in
      update_again (λ r. is_just r.owner_sub sub) anon anon rows (λ r e. e) (λ r. refl)

  anonymize_again :
      (sub : ℕ) (db : IdentityDb)
      → anonymize_user_pii shown sub (anonymize_user_pii shown sub db)
        ≡ anonymize_user_pii shown sub db
  unfolding anonymize_user_pii delete_user_identity_snapshot delete_snapshot map_delete
  anonymize_again sub db =
      rw
        (
          select_twice (λ (s : Snapshot). not (s.user_sub == sub)) db.snapshots,
          select_twice (λ (e : ℕ × CachedProfile). not (e.0 == sub)) db.cache,
          anonymize_rows_again sub db.members,
          anonymize_rows_again sub db.chat_messages,
          anonymize_rows_again sub db.files,
          anonymize_rows_again sub db.task_assignees,
          anonymize_rows_again sub db.task_comments,
          anonymize_rows_again sub db.mention_notifications,
        )
        refl

  upsert_identity_again :
      (t t' : ℕ) (first second : Snapshot) (db : IdentityDb)
      → second.user_sub ≡ first.user_sub
      → upsert_user_identity_snapshot t' second (upsert_user_identity_snapshot t first db)
        ≡ upsert_user_identity_snapshot t' second db
  unfolding upsert_user_identity_snapshot
  upsert_identity_again t t' first second db same =
      rw
        (
          upsert_again first second same db.snapshots,
          same,
          map_set_again first.user_sub _ _ db.cache,
        )
        refl

  module _ (version : ℕ) (known : (version ≡ 1) ⊎ (version ≡ 2)) where
    handled_deletion :
        (now t sub : ℕ) (db : IdentityDb)
        → handle_auth_event shown version now t (user_deleted sub) db
          ≡ (true, anonymize_user_pii shown sub db)
    unfolding handle_auth_event
    handled_deletion now t sub db = ground (arith, known)

    handled_change :
        (now t sub : ℕ) (p : UserProfile) (db : IdentityDb)
        → handle_auth_event shown version now t (user_changed sub p) db
          ≡ (true, upsert_user_identity_snapshot t (snapshot_of sub p now) db)
    unfolding handle_auth_event
    handled_change now t sub p db = ground (arith, known)

  -- An event of version 1 or 2 that is handled again, at whatever time, leaves what its last handling
  -- alone would have left: the first delivery of an event that is delivered twice makes no difference.
  pub redelivery :
      (version now now' t t' : ℕ) (event : AuthEvent) (db : IdentityDb)
      → (version ≡ 1) ⊎ (version ≡ 2)
      → handle_auth_event shown version now' t' event
          (handle_auth_event shown version now t event db).1
        ≡ handle_auth_event shown version now' t' event db
  redelivery version now now' t t' (user_deleted sub) db known =
      ap (λ (r : Bool × IdentityDb). handle_auth_event shown version now' t' (user_deleted sub) r.1)
        (handled_deletion version known now t sub db)
      ∙ handled_deletion version known now' t' sub (anonymize_user_pii shown sub db)
      ∙ ap (λ d. (true, d)) (anonymize_again sub db)
      ∙ sym (handled_deletion version known now' t' sub db)
  redelivery version now now' t t' (user_changed sub p) db known =
      ap
        (λ (r : Bool × IdentityDb).
          handle_auth_event shown version now' t' (user_changed sub p) r.1)
        (handled_change version known now t sub p db)
      ∙ handled_change version known now' t' sub p _
      ∙ ap (λ d. (true, d))
          (upsert_identity_again t t' (snapshot_of sub p now) (snapshot_of sub p now') db refl)
      ∙ sym (handled_change version known now' t' sub p db)
