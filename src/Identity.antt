-- ===== src/Identity.antt =====
-- shared/identity-snapshot-store.ts and events/auth-event-handler.ts: the local copy of the users'
-- identities, its cache, and the events that keep it. A sub is a number and never empty; the text of
-- a sub is the parameter `shown`. Instants are milliseconds, and `later` is the time of the second
-- `Date.now()`. A transaction that fails is a call that throws, and is left out.
pub mod Cache
pub mod Lookup
pub mod Replica
pub mod Deletion
pub mod Redelivery
pub mod Events
use crm_collab.Base.{
  ℕ, ◌+◌, Bool, true, false, not, Option, none, some, List, [], ◌∷◌, ◌++◌, ltb, ◌==◌, if◌then◌else◌,
  select, has, is_some, is_just, get_or,
}
use crm_collab.Base.Text.{Text, codes}
use crm_collab.Base.Table.{find_by, update_by, update_where}
use crm_collab.Base.Maps.{map_get, map_set, map_delete, unique}

pub data ClientKind : Type 0 where
  natural juridical : ClientKind

pub record UserProfile : Type 0 where
  pub email : Text
  pub role : Text
  pub first_name : Option Text
  pub last_name : Option Text
  pub client_kind : Option ClientKind
  pub company_name : Option Text
  pub profession : Option Text

-- A row of `user_identity_snapshots`.
pub record Snapshot : Type 0 where
  pub user_sub : ℕ
  pub email : Text
  pub role : Text
  pub first_name : Option Text
  pub last_name : Option Text
  pub client_kind : Option ClientKind
  pub company_name : Option Text
  pub profession : Option Text
  pub updated_at : ℕ

abbrev pub snapshot_sub : Snapshot → ℕ
snapshot_sub s = s.user_sub

unfoldable pub to_user_profile : Snapshot → UserProfile
to_user_profile row = record {
  email = row.email;
  role = row.role;
  first_name = row.first_name;
  last_name = row.last_name;
  client_kind = row.client_kind;
  company_name = row.company_name;
  profession = row.profession;
}

pub record CachedProfile : Type 0 where
  pub expires_at : ℕ
  pub profile : UserProfile

-- A row of a table that keeps the email of the user it names.
pub record OwnedRow : Type 0 where
  pub id : ℕ
  pub owner_sub : Option ℕ
  pub email : Option Text

-- The table, the cache of the process, and the tables with emails.
pub record IdentityDb : Type 0 where
  pub snapshots : List Snapshot
  pub cache : List (ℕ × CachedProfile)
  pub members : List OwnedRow
  pub chat_messages : List OwnedRow
  pub files : List OwnedRow
  pub task_assignees : List OwnedRow
  pub task_comments : List OwnedRow
  pub mention_notifications : List OwnedRow

abbrev pub profile_ttl_ms : ℕ
profile_ttl_ms = 300_000

unfoldable pub purge_expired_profile_cache : ℕ → IdentityDb → IdentityDb
purge_expired_profile_cache now db = record db {
  cache = select (λ (e : ℕ × CachedProfile). ltb now e.1.expires_at) db.cache;
}

pub record LookupResult : Type 0 where
  pub profiles : List (ℕ × UserProfile)
  pub missing_subs : List ℕ
  pub replica_unavailable : Bool

-- The first loop: the profiles of the cache, the subs to look up, and the cache without what has
-- expired.
pub record Gathered : Type 0 where
  pub profiles : List (ℕ × UserProfile)
  pub missing : List ℕ
  pub cache : List (ℕ × CachedProfile)

gather_one : ℕ → ℕ → Option CachedProfile → Gathered → Gathered
unfolding map_set map_delete
gather_one now sub none g = record g { missing = g.missing ++ sub ∷ [] }
gather_one now sub (some c) g =
    if ltb now c.expires_at
    then record g { profiles = map_set sub c.profile g.profiles }
    else record g { missing = g.missing ++ sub ∷ []; cache = map_delete sub g.cache }

unfoldable pub gather : ℕ → List ℕ → Gathered → Gathered
unfolding gather_one map_get
gather now [] g = g
gather now (sub ∷ subs) g = gather now subs (gather_one now sub (map_get sub g.cache) g)

-- The second loop, over the rows that were read.
unfoldable pub absorb : ℕ → List Snapshot → Gathered → Gathered
unfolding map_set to_user_profile
absorb expires_at [] g = g
absorb expires_at (row ∷ rows) g = absorb expires_at rows (record g {
  profiles = map_set row.user_sub (to_user_profile row) g.profiles;
  cache =
      map_set row.user_sub (record { expires_at = expires_at; profile = to_user_profile row })
        g.cache;
})

-- The query for the subs that the cache does not have; it answers or fails.
look_up : ℕ → Bool → List ℕ → IdentityDb → Gathered → LookupResult × IdentityDb
unfolding absorb map_get
look_up later readable subs db g =
    if readable
    then (let filled =
          absorb (later + profile_ttl_ms) (select (λ s. has g.missing s.user_sub) db.snapshots) g in
        (
          record {
            profiles = filled.profiles;
            missing_subs = select (λ sub. not (is_some (map_get sub filled.profiles))) subs;
            replica_unavailable = false;
          },
          record db { cache = filled.cache },
        ))
    else (
      record { profiles = g.profiles; missing_subs = g.missing; replica_unavailable = true },
      record db { cache = g.cache },
    )

after_cache : ℕ → Bool → List ℕ → List ℕ → IdentityDb → Gathered → LookupResult × IdentityDb
unfolding look_up
after_cache later readable subs [] db g = (
  record { profiles = g.profiles; missing_subs = []; replica_unavailable = false },
  record db { cache = g.cache },
)
after_cache later readable subs (m ∷ ms) db g = look_up later readable subs db g

unfoldable pub get_user_profiles_from_snapshots :
    ℕ → ℕ → Bool → List ℕ → IdentityDb → LookupResult × IdentityDb
unfolding unique gather after_cache
get_user_profiles_from_snapshots now later readable user_subs db =
    let subs = unique user_subs in
    let g = gather now subs (record { profiles = []; missing = []; cache = db.cache }) in
    after_cache later readable subs g.missing db g

-- `on conflict do update`: every column but the key.
unfoldable pub upsert_snapshot : Snapshot → List Snapshot → List Snapshot
unfolding find_by update_by
upsert_snapshot row rows =
    if is_some (find_by snapshot_sub row.user_sub rows)
    then update_by snapshot_sub row.user_sub (λ s. record row { user_sub = s.user_sub }) rows
    else rows ++ row ∷ []

unfoldable pub upsert_user_identity_snapshot : ℕ → Snapshot → IdentityDb → IdentityDb
unfolding upsert_snapshot map_set to_user_profile
upsert_user_identity_snapshot later row db = record db {
  snapshots = upsert_snapshot row db.snapshots;
  cache =
      map_set row.user_sub
        (record { expires_at = later + profile_ttl_ms; profile = to_user_profile row }) db.cache;
}

unfoldable pub delete_snapshot : ℕ → List Snapshot → List Snapshot
delete_snapshot sub rows = select (λ s. not (s.user_sub == sub)) rows

unfoldable pub delete_user_identity_snapshot : ℕ → IdentityDb → IdentityDb
unfolding delete_snapshot map_delete
delete_user_identity_snapshot sub db = record db {
  cache = map_delete sub db.cache;
  snapshots = delete_snapshot sub db.snapshots;
}
