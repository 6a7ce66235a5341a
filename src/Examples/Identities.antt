-- ===== src/Examples/Identities.antt =====
-- shared/identity-snapshot-store.ts and events/auth-event-handler.ts on a small store.
use crm_collab.Base.{
  ℕ, ◌≡◌, refl, inl, true, false, not, none, some, [], ◌∷◌, if◌then◌else◌, has, is_some, ◌&&◌, ◌+◌,
}
use crm_collab.Base.Text.{Text, codes}
use crm_collab.Base.Maps.{map_get, map_delete}
use crm_collab.Identity.{
  UserProfile, OwnedRow, IdentityDb, profile_ttl_ms, to_user_profile,
  get_user_profiles_from_snapshots, upsert_user_identity_snapshot, delete_snapshot,
}
use crm_collab.Identity.Events.{
  anonymize_user_pii, user_deleted, user_changed, snapshot_of, handle_auth_event,
}
use crm_collab.Identity.Cache.{profile_of}
use crm_collab.Identity.Replica.Steps.{handled, looked_up, here, later, lookup_reads_through}
use crm_collab.Identity.Redelivery.{redelivery}

abbrev shown : ℕ → Text
shown sub = sub ∷ []

abbrev worker : Text → UserProfile
worker email = record {
  email = email;
  role = codes "trabajador";
  first_name = some (codes "Ana");
  last_name = none;
  client_kind = none;
  company_name = none;
  profession = none;
}

abbrev message : OwnedRow
message = record { id = 1; owner_sub = some 7; email = some (codes "a@x.co") }

abbrev other_message : OwnedRow
other_message = record { id = 2; owner_sub = some 8; email = some (codes "b@x.co") }

-- A user in the table, one message of hers and one of another user.
abbrev fresh : IdentityDb
fresh = record {
  snapshots = snapshot_of 7 (worker (codes "a@x.co")) 1000 ∷ [];
  cache = [];
  members = [];
  chat_messages = message ∷ other_message ∷ [];
  files = [];
  task_assignees = [];
  task_comments = [];
  mention_notifications = [];
}

abbrev warm : IdentityDb
warm = (get_user_profiles_from_snapshots 2000 2000 true (7 ∷ []) fresh).1

abbrev renamed : IdentityDb
renamed = (handle_auth_event shown 2 3000 3000 (user_changed 7 (worker (codes "c@x.co"))) warm).1

lookup_reads_through_example :
    let (result, db') = get_user_profiles_from_snapshots 4000 4000 true (7 ∷ 9 ∷ 7 ∷ []) renamed in
    ((sub : ℕ)
      → map_get sub result.profiles
        ≡ (if has (7 ∷ 9 ∷ 7 ∷ []) sub then profile_of renamed.snapshots sub else none))
    × ((sub : ℕ)
        → has result.missing_subs sub
          ≡ (has (7 ∷ 9 ∷ 7 ∷ []) sub && not (is_some (profile_of renamed.snapshots sub))))
    × (result.replica_unavailable ≡ false)
    × (db'.snapshots ≡ renamed.snapshots)
lookup_reads_through_example =
    lookup_reads_through shown 4000 4000 (7 ∷ 9 ∷ 7 ∷ []) fresh renamed refl (tt, tt)
      (later warm (later fresh here (looked_up 2000 2000 true (7 ∷ []) refl))
        (handled 2 3000 3000 (user_changed 7 (worker (codes "c@x.co"))) refl))

-- The profile that the lookup returns is the renamed one, and the unknown user is missing.
renamed_profile :
    let (result, db') = get_user_profiles_from_snapshots 4000 4000 true (7 ∷ 9 ∷ 7 ∷ []) renamed in
    (map_get 7 result.profiles ≡ some (worker (codes "c@x.co"))) × (result.missing_subs ≡ 9 ∷ [])
unfolding get_user_profiles_from_snapshots handle_auth_event upsert_user_identity_snapshot
    to_user_profile map_get
renamed_profile = (refl, refl)

redelivery_example :
    handle_auth_event shown 1 6000 6000
      (user_deleted 7)
      (handle_auth_event shown 1 5000 5000 (user_deleted 7) renamed).1
    ≡ handle_auth_event shown 1 6000 6000 (user_deleted 7) renamed
redelivery_example = redelivery shown 1 5000 6000 5000 6000 (user_deleted 7) renamed (inl refl)

-- An event of the user that is handled after the deletion, as when its first delivery failed and was
-- retried, brings the profile back.
profile_after_deletion :
    let gone = (handle_auth_event shown 2 5000 5000 (user_deleted 7) renamed).1 in
    let back =
      (handle_auth_event shown 2 6000 6000 (user_changed 7 (worker (codes "c@x.co"))) gone).1 in
    profile_of back.snapshots 7 ≡ some (worker (codes "c@x.co"))
unfolding profile_of handle_auth_event anonymize_user_pii upsert_user_identity_snapshot
    get_user_profiles_from_snapshots
profile_after_deletion = refl

-- A lookup between the two writes of `deleteUserIdentitySnapshot` puts the profile back into the
-- cache, where later lookups find it although the table has no row.
lookup_during_deletion :
    let half = record warm { cache = map_delete 7 warm.cache } in
    let looked = (get_user_profiles_from_snapshots 3000 3000 true (7 ∷ []) half).1 in
    let gone = record looked { snapshots = delete_snapshot 7 looked.snapshots } in
    let (result, after) = get_user_profiles_from_snapshots 4000 4000 true (7 ∷ []) gone in
    (profile_of gone.snapshots 7 ≡ none)
    × (map_get 7 result.profiles ≡ some (worker (codes "a@x.co")))
unfolding profile_of get_user_profiles_from_snapshots map_get map_delete delete_snapshot
lookup_during_deletion = (refl, refl)

-- An expired entry is read again.
expired_entry :
    let (result, after) =
      get_user_profiles_from_snapshots (2000 + profile_ttl_ms) 302000 true (7 ∷ []) warm in
    map_get 7 result.profiles ≡ some (worker (codes "a@x.co"))
unfolding get_user_profiles_from_snapshots map_get
expired_entry = refl

-- Without the table the lookup answers from the cache alone.
unread_table :
    let (result, after) = get_user_profiles_from_snapshots 3000 3000 false (7 ∷ 9 ∷ []) warm in
    (result.replica_unavailable ≡ true)
    × (map_get 7 result.profiles ≡ some (worker (codes "a@x.co")))
    × (result.missing_subs ≡ 9 ∷ [])
unfolding get_user_profiles_from_snapshots map_get
unread_table = (refl, refl, refl)
