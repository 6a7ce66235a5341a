-- ===== src/Identity/Replica/Steps.antt =====
-- shared/identity-snapshot-store.ts and events/auth-event-handler.ts as one state machine: what a
-- process does with the table of identities and its cache.
use mathlib.Core.Path.{subst}
use crm_collab.Base.{
  ℕ, ◌≡◌, sym, Bool, true, false, not, none, List, [], if◌then◌else◌, has, is_some, ◌&&◌,
}
use crm_collab.Base.Text.{Text}
use crm_collab.Base.Table.{IsKeyed}
use crm_collab.Base.Keyed.{IsKeyed-select}
use crm_collab.Base.Maps.{
  map_get, map_get-select, has-unique, entry_key, IsKeyed-map_set, IsKeyed-map_delete,
}
use crm_collab.Identity.{
  Snapshot, snapshot_sub, CachedProfile, IdentityDb, purge_expired_profile_cache,
  get_user_profiles_from_snapshots, upsert_user_identity_snapshot, delete_snapshot,
  delete_user_identity_snapshot,
}
use crm_collab.Identity.Events.{
  anonymize_user_pii, AuthEvent, user_deleted, user_changed, snapshot_of, handle_auth_event,
}
use crm_collab.Identity.Cache.{profile_of, IsCoherent}
use crm_collab.Identity.Lookup.{lookup-Answers, unread_lookup}
use crm_collab.Identity.Replica.{
  upsert-IsKeyed, IsSynced, upsert-IsCoherent, delete-IsCoherent, either_version, nothing_cached,
}

module _ (shown : ℕ → Text) where
  -- One call: a purge of the cache, a lookup whose query answers or fails, an upsert, a deletion, an
  -- anonymisation, or an event.
  pub data Step (db : IdentityDb) : IdentityDb → Type 0 where
    purged : (now : ℕ) {db' : IdentityDb} → purge_expired_profile_cache now db ≡ db' → Step db db'
    looked_up :
        (now later : ℕ) (readable : Bool) (subs : List ℕ) {db' : IdentityDb}
        → (get_user_profiles_from_snapshots now later readable subs db).1 ≡ db'
        → Step db db'
    upserted :
        (later : ℕ) (row : Snapshot) {db' : IdentityDb}
        → upsert_user_identity_snapshot later row db ≡ db'
        → Step db db'
    deleted :
        (sub : ℕ) {db' : IdentityDb} → delete_user_identity_snapshot sub db ≡ db' → Step db db'
    handled :
        (version now later : ℕ) (event : AuthEvent) {db' : IdentityDb}
        → (handle_auth_event shown version now later event db).1 ≡ db'
        → Step db db'

  pub data Reaches (db : IdentityDb) : IdentityDb → Type 0 where
    here : Reaches db db
    later : (mid : IdentityDb) {db' : IdentityDb} → Reaches db mid → Step mid db' → Reaches db db'

  purge-IsSynced :
      (now : ℕ) (db : IdentityDb) → IsSynced db → IsSynced (purge_expired_profile_cache now db)
  unfolding purge_expired_profile_cache
  purge-IsSynced now db (keyed, distinct, coherent) = (
    keyed,
    IsKeyed-select (entry_key {V = CachedProfile}) _ db.cache distinct,
    λ sub c e. coherent sub c (map_get-select _ sub db.cache distinct e),
  )

  lookup-IsSynced :
      (now t : ℕ) (readable : Bool) (subs : List ℕ) (db : IdentityDb)
      → IsSynced db
      → IsSynced (get_user_profiles_from_snapshots now t readable subs db).1
  lookup-IsSynced now t true subs db (keyed, distinct, coherent) =
      let a = lookup-Answers now t subs db keyed coherent distinct in
      (
        subst (IsKeyed snapshot_sub) (sym a.table) keyed,
        a.distinct,
        subst
            (λ rows. IsCoherent rows (get_user_profiles_from_snapshots now t true subs db).1.cache)
            (sym a.table) a.coherent,
      )
  lookup-IsSynced now t false subs db (keyed, distinct, coherent) =
      let (agree, apart, table) = unread_lookup now t subs db coherent distinct in
      (
        subst (IsKeyed snapshot_sub) (sym table) keyed,
        apart,
        subst
            (λ rows. IsCoherent rows (get_user_profiles_from_snapshots now t false subs db).1.cache)
            (sym table) agree,
      )

  upsert-IsSynced :
      (t : ℕ) (row : Snapshot) (db : IdentityDb)
      → IsSynced db
      → IsSynced (upsert_user_identity_snapshot t row db)
  unfolding upsert_user_identity_snapshot
  upsert-IsSynced t row db (keyed, distinct, coherent) = (
    upsert-IsKeyed row db.snapshots keyed,
    IsKeyed-map_set row.user_sub _ db.cache distinct,
    upsert-IsCoherent t row db.snapshots db.cache coherent,
  )

  delete-IsSynced :
      (sub : ℕ) (db : IdentityDb) → IsSynced db → IsSynced (delete_user_identity_snapshot sub db)
  unfolding delete_user_identity_snapshot delete_snapshot
  delete-IsSynced sub db (keyed, distinct, coherent) = (
    IsKeyed-select snapshot_sub _ db.snapshots keyed,
    IsKeyed-map_delete sub db.cache distinct,
    delete-IsCoherent sub db.snapshots db.cache coherent,
  )

  anonymize-IsSynced :
      (sub : ℕ) (db : IdentityDb) → IsSynced db → IsSynced (anonymize_user_pii shown sub db)
  unfolding anonymize_user_pii
  anonymize-IsSynced sub db h = delete-IsSynced sub db h

  handle-IsSynced :
      (version now t : ℕ) (event : AuthEvent) (db : IdentityDb)
      → IsSynced db
      → IsSynced (handle_auth_event shown version now t event db).1
  unfolding handle_auth_event
  handle-IsSynced version now t (user_deleted sub) db h =
      either_version version _ db (anonymize-IsSynced sub db h) h
  handle-IsSynced version now t (user_changed sub p) db h =
      either_version version _ db (upsert-IsSynced t (snapshot_of sub p now) db h) h

  Step-IsSynced : {db db' : IdentityDb} → Step db db' → IsSynced db → IsSynced db'
  Step-IsSynced (purged now is) h = subst IsSynced is (purge-IsSynced now _ h)
  Step-IsSynced (looked_up now t readable subs is) h =
      subst IsSynced is (lookup-IsSynced now t readable subs _ h)
  Step-IsSynced (upserted t row is) h = subst IsSynced is (upsert-IsSynced t row _ h)
  Step-IsSynced (deleted sub is) h = subst IsSynced is (delete-IsSynced sub _ h)
  Step-IsSynced (handled version now t event is) h =
      subst IsSynced is (handle-IsSynced version now t event _ h)

  Reaches-IsSynced : {db db' : IdentityDb} → Reaches db db' → IsSynced db → IsSynced db'
  Reaches-IsSynced here h = h
  Reaches-IsSynced (later mid before step) h = Step-IsSynced step (Reaches-IsSynced before h)

  -- After any calls of one process, each of them finished before the next, that starts with an empty
  -- cache and a table with distinct subs, a lookup that can read the table
  -- returns for every user that it was asked for exactly the profile that the table has now, reports
  -- exactly the others as missing, and does not change the table.
  pub lookup_reads_through :
      (now t : ℕ) (subs : List ℕ) (start db : IdentityDb)
      → start.cache ≡ []
      → IsKeyed snapshot_sub start.snapshots
      → Reaches start db
      → let (result, db') = get_user_profiles_from_snapshots now t true subs db in
        ((sub : ℕ)
          → map_get sub result.profiles
            ≡ (if has subs sub then profile_of db.snapshots sub else none))
        × ((sub : ℕ)
            → has result.missing_subs sub
              ≡ (has subs sub && not (is_some (profile_of db.snapshots sub))))
        × (result.replica_unavailable ≡ false)
        × (db'.snapshots ≡ db.snapshots)
  lookup_reads_through now t subs start db empty keyed run =
      let (apart, distinct, coherent) =
        Reaches-IsSynced run
          (keyed, rw empty tt, nothing_cached start.cache start.snapshots empty) in
      let a = lookup-Answers now t subs db apart coherent distinct in
      (
        (λ sub. rw (← has-unique sub subs) (a.profiles sub)),
        (λ sub. rw (← has-unique sub subs) (a.missing sub)),
        a.available,
        a.table,
      )
