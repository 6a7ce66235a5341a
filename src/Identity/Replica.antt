-- ===== src/Identity/Replica.antt =====
-- shared/identity-snapshot-store.ts: what the writes do to the profiles that the table and the cache
-- hold.
pub mod Steps
use mathlib.Core.Path.{subst}
use mathlib.Core.Option.{some-injective}
use crm_collab.Base.{
  ℕ, ◌≡◌, refl, sym, ◌∙◌, ap, inl, inr, Bool, true, false, not, none, some, List, [], ◌∷◌, arith,
  ◌==◌, if◌then◌else◌, has, is_some, ◌&&◌, ◌+◌, Bool-cases, Option-cases,
}
use crm_collab.Base.Text.{Text}
use crm_collab.Base.Table.{find_by, update_by, IsKeyed, find_by-append, find_by-update_by}
use crm_collab.Base.Keyed.{IsKeyed-update_where, IsKeyed-select, All-ne-of-none, IsKeyed-append_new}
use crm_collab.Base.Maps.{
  map_get, map_set, map_delete, map_get-map_set, map_get-map_delete, map_get-select, has-unique,
  entry_key, IsKeyed-map_set, IsKeyed-map_delete,
}
use crm_collab.Identity.{
  Snapshot, snapshot_sub, to_user_profile, CachedProfile, IdentityDb, purge_expired_profile_cache,
  get_user_profiles_from_snapshots, upsert_snapshot, upsert_user_identity_snapshot, delete_snapshot,
  delete_user_identity_snapshot, profile_ttl_ms,
}
use crm_collab.Identity.Events.{
  anonymize_user_pii, AuthEvent, user_deleted, user_changed, snapshot_of, handle_auth_event,
}
use crm_collab.Identity.Cache.{profile_of, IsCoherent}
use crm_collab.Identity.Lookup.{lookup-Answers, unread_lookup}

module _ (row : Snapshot) (rows : List Snapshot) where
  profile_of-upsert :
      (sub : ℕ)
      → profile_of (upsert_snapshot row rows) sub
        ≡ (if row.user_sub == sub then some (to_user_profile row) else profile_of rows sub)
  unfolding profile_of upsert_snapshot find_by to_user_profile
  profile_of-upsert sub =
      let key : row.user_sub == sub ≡ sub == row.user_sub = ground arith in
      elim (Option-cases (find_by snapshot_sub row.user_sub rows)) [
        | inl new ↦ ground (arith, new, find_by-append snapshot_sub sub rows (row ∷ []))
        | inr (s, old) ↦ ground (
          arith,
          old,
          key,
          find_by-update_by snapshot_sub sub row.user_sub
              (λ s. record row { user_sub = s.user_sub }) rows (λ s. refl),
        )
      ]

  upsert-IsKeyed : IsKeyed snapshot_sub rows → IsKeyed snapshot_sub (upsert_snapshot row rows)
  unfolding upsert_snapshot update_by
  upsert-IsKeyed keyed = elim (Option-cases (find_by snapshot_sub row.user_sub rows)) [
    | inl new ↦ rw new (
        IsKeyed-append_new snapshot_sub rows row (All-ne-of-none snapshot_sub row.user_sub rows new)
          keyed)
    | inr (s, old) ↦ rw old (
        IsKeyed-update_where snapshot_sub _ (λ s. record row { user_sub = s.user_sub }) rows
          (λ s. refl) keyed)
  ]

pub profile_of-delete :
    (k sub : ℕ) (rows : List Snapshot)
    → profile_of (delete_snapshot k rows) sub ≡ (if k == sub then none else profile_of rows sub)
unfolding profile_of delete_snapshot find_by
profile_of-delete k sub [] = ground arith
profile_of-delete k sub (r ∷ rows) = ground (arith, profile_of-delete k sub rows)

-- Rows and cache entries with distinct subs, and no cached profile that differs from its row.
abbrev pub IsSynced : IdentityDb → Type 0
IsSynced db =
    IsKeyed snapshot_sub db.snapshots
    × IsKeyed (entry_key {V = CachedProfile}) db.cache
    × IsCoherent db.snapshots db.cache

-- A cache entry after the two writes of an upsert.
upsert-IsCoherent :
    (later : ℕ) (row : Snapshot) (rows : List Snapshot) (cache : List (ℕ × CachedProfile))
    → IsCoherent rows cache
    → IsCoherent (upsert_snapshot row rows) (
        map_set row.user_sub
          (record { expires_at = later + profile_ttl_ms; profile = to_user_profile row })
          cache)
upsert-IsCoherent later row rows cache h sub c e =
    let in_table = profile_of-upsert row rows sub in
    let in_cache =
      map_get-map_set sub row.user_sub
        (record { expires_at = later + profile_ttl_ms; profile = to_user_profile row }) cache in
    elim (Bool-cases (row.user_sub == sub)) [
      | inl same ↦
          let is = some-injective _ _ ((rw same at (sym in_cache)) ∙ e) in
          (rw same at in_table) ∙ ap (λ (d : CachedProfile). some d.profile) is
      | inr other ↦ (rw other at in_table) ∙ h sub c ((rw other at (sym in_cache)) ∙ e)
    ]

delete-IsCoherent :
    (k : ℕ) (rows : List Snapshot) (cache : List (ℕ × CachedProfile))
    → IsCoherent rows cache
    → IsCoherent (delete_snapshot k rows) (map_delete k cache)
delete-IsCoherent k rows cache h sub c e =
    let in_table = profile_of-delete k sub rows in
    let in_cache = map_get-map_delete sub k cache in
    elim (Bool-cases (k == sub)) [
      | inl same ↦ absurd (ground (arith, in_cache, e, same))
      | inr other ↦ (rw other at in_table) ∙ h sub c ((rw other at (sym in_cache)) ∙ e)
    ]

-- What a handler of versions 1 and 2 leaves.
either_version :
    (version : ℕ) (done db : IdentityDb)
    → IsSynced done
    → IsSynced db
    → let result : Bool × IdentityDb =
        if version == 1 then (true, done) else if version == 2 then (true, done) else (false, db) in
      IsSynced result.1
either_version version done db h unhandled = elim (Bool-cases (version == 1)) [
  | inl one ↦ rw one h
  | inr not_one ↦ elim (Bool-cases (version == 2)) [
    | inl two ↦ rw (not_one, two) h
    | inr not_two ↦ rw (not_one, not_two) unhandled
  ]
]

nothing_cached :
    (cache : List (ℕ × CachedProfile)) (rows : List Snapshot) → cache ≡ [] → IsCoherent rows cache
unfolding map_get
nothing_cached [] rows empty sub c e = cc
nothing_cached (x ∷ cache) rows empty sub c e = cc
