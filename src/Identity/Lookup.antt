-- ===== src/Identity/Lookup.antt =====
-- shared/identity-snapshot-store.ts, `getUserProfilesFromSnapshots`: with a coherent cache the answer
-- is the table's.
use mathlib.Core.Path.{subst}
use crm_collab.Base.{
  ℕ, ◌+◌, ◌≡◌, refl, sym, ◌∙◌, inl, inr, Bool, true, false, not, ◌&&◌, ◌||◌, Option, none, some,
  List, [], ◌∷◌, arith, ◌==◌, if◌then◌else◌, select, has, is_some, All, Bool-cases, ==_iff, ==_self,
  Option-cases,
}
use crm_collab.Base.Table.{
  All-anything, find_by, IsKeyed, find_by-key, find_by-select, All-select, All-select_passes,
}
use crm_collab.Base.Keyed.{find_by_self}
use crm_collab.Base.Maps.{map_get, unique, entry_key}
use crm_collab.Identity.{
  UserProfile, Snapshot, snapshot_sub, to_user_profile, CachedProfile, IdentityDb, LookupResult,
  Gathered, gather, absorb, look_up, after_cache, get_user_profiles_from_snapshots, profile_ttl_ms,
}
use crm_collab.Identity.Cache.{
  profile_of, AreCurrent, IsCoherent, Agrees, gather-Agrees, absorb-Agrees,
}

All-found :
    (rows tail : List Snapshot)
    → All (λ (r : Snapshot). find_by snapshot_sub r.user_sub rows ≡ some r) tail
    → All (λ (r : Snapshot). profile_of rows r.user_sub ≡ some (to_user_profile r)) tail
unfolding profile_of
All-found rows [] h = tt
All-found rows (r ∷ tail) (hr, h) = (rw hr refl, All-found rows tail h)

rows_are_current :
    (rows : List Snapshot)
    → IsKeyed snapshot_sub rows
    → All (λ (r : Snapshot). profile_of rows r.user_sub ≡ some (to_user_profile r)) rows
rows_are_current rows keyed = All-found rows rows (find_by_self snapshot_sub rows keyed)

has-select : (p : ℕ → Bool) (xs : List ℕ) (a : ℕ) → has (select p xs) a ≡ (has xs a && p a)
has-select p [] a = refl
has-select p (x ∷ xs) a = elim (Bool-cases (x == a)) [
  | inl same ↦ rw ((==_iff x a).0 same) (ground (arith, has-select p xs a, ==_self a))
  | inr other ↦ ground (arith, has-select p xs a, other)
]

All-has :
    (xs ys : List ℕ) → ((a : ℕ) → has ys a ≡ true → has xs a ≡ true) → All (λ a. has xs a ≡ true) ys
All-has xs [] h = tt
All-has xs (y ∷ ys) h =
    (h y (ground (arith, ==_self y)), All-has xs ys (λ a in_ys. h a (ground (arith, in_ys))))

module _ (rows : List Snapshot) (asked : List ℕ) where
  -- From the three facts about the profiles that were found.
  answer_lem :
      (m : List (ℕ × UserProfile))
      → AreCurrent rows m
      → ((sub : ℕ) → is_some (map_get sub m) ≡ true → has asked sub ≡ true)
      → ((sub : ℕ)
          → has asked sub ≡ true
          → is_some (profile_of rows sub) ≡ true
          → is_some (map_get sub m) ≡ true)
      → (sub : ℕ) → map_get sub m ≡ (if has asked sub then profile_of rows sub else none)
  answer_lem m current wanted complete sub = elim (Option-cases (map_get sub m)) [
    | inl nothing ↦ elim (Bool-cases (has asked sub)) [
      | inl is ↦ elim (Option-cases (profile_of rows sub)) [
        | inl unknown ↦ nothing ∙ sym (rw (is, unknown) refl)
        | inr (p, known) ↦ absurd (ground (arith, complete sub is, known, nothing))
      ]
      | inr is_not ↦ nothing ∙ sym (rw is_not refl)
    ]
    | inr (p, found) ↦
        let is : has asked sub ≡ true = wanted sub (ground (arith, found)) in
        found ∙ sym (rw is (current sub p found))
  ]

  -- The answer of a lookup: the profile of each user that was asked for and is known, the subs of
  -- the others, and a cache that is still coherent.
  pub record Answers (result : LookupResult) (db db' : IdentityDb) : Type 0 where
    pub profiles :
        (sub : ℕ)
        → map_get sub result.profiles ≡ (if has asked sub then profile_of rows sub else none)
    pub missing :
        (sub : ℕ)
        → has result.missing_subs sub ≡ (has asked sub && not (is_some (profile_of rows sub)))
    pub available : result.replica_unavailable ≡ false
    pub coherent : IsCoherent rows db'.cache
    pub distinct : IsKeyed (entry_key {V = CachedProfile}) db'.cache
    pub table : db'.snapshots ≡ db.snapshots

module _ (db : IdentityDb) (keyed : IsKeyed snapshot_sub db.snapshots) (asked : List ℕ) where
  -- Every sub that was asked for is done.
  abbrev AllDone : List ℕ → Type 0
  AllDone done = (sub : ℕ) → has asked sub ≡ true → has done sub ≡ true

  from_cache :
      (later : ℕ) (done : List ℕ) (g : Gathered)
      → AllDone done
      → g.missing ≡ []
      → Agrees db.snapshots asked done g
      → Answers db.snapshots asked
          (record { profiles = g.profiles; missing_subs = []; replica_unavailable = false })
          db
          (record db { cache = g.cache })
  from_cache later done g all none_missing a =
      let complete : (sub : ℕ) → has asked sub ≡ true → is_some (map_get sub g.profiles) ≡ true =
        λ sub is. ground (arith, a.settled sub (all sub is), none_missing) in
      let answer =
        answer_lem db.snapshots asked g.profiles a.current a.wanted
          (λ sub is known. complete sub is) in
      record {
        profiles = answer;
        missing = λ sub. elim (Bool-cases (has asked sub)) [
          | inl is ↦ ground (arith, is, complete sub is, answer sub)
          | inr is_not ↦ rw is_not refl
        ];
        available = refl;
        coherent = a.coherent;
        distinct = a.distinct;
        table = refl;
      }

  -- A user in the table is among the profiles once the rows are read.
  found_in_table :
      {done : List ℕ} (m : List (ℕ × UserProfile)) (g : Gathered)
      → AllDone done
      → Agrees db.snapshots asked done g
      → ((sub : ℕ)
          → (is_some (map_get sub g.profiles)
              || is_some
                  (find_by snapshot_sub sub (select (λ s. has g.missing s.user_sub) db.snapshots)))
            ≡ true
          → is_some (map_get sub m) ≡ true)
      → (sub : ℕ) → has asked sub ≡ true
      → is_some (profile_of db.snapshots sub) ≡ true
      → is_some (map_get sub m) ≡ true
  unfolding profile_of
  found_in_table m g all a filled sub is known =
      elim (Option-cases (find_by snapshot_sub sub db.snapshots)) [
        | inl unknown ↦ absurd (ground (arith, known, unknown))
        | inr (s, at) ↦ elim (Bool-cases (has g.missing sub)) [
          | inl missed ↦
              let same : s.user_sub ≡ sub = find_by-key snapshot_sub sub db.snapshots at in
              let read =
                find_by-select snapshot_sub sub (λ r. has g.missing r.user_sub) db.snapshots at
                  (rw same missed) in
              filled sub (ground (arith, read))
          | inr had ↦ filled sub (ground (arith, a.settled sub (all sub is), had))
        ]
      ]

  missing_lem :
      (sub : ℕ) (found : Option UserProfile)
      → found ≡ (if has asked sub then profile_of db.snapshots sub else none)
      → (has asked sub && not (is_some found))
        ≡ (has asked sub && not (is_some (profile_of db.snapshots sub)))
  missing_lem sub found e = elim (Bool-cases (has asked sub)) [
    | inl is ↦ rw (e, is) refl
    | inr is_not ↦ rw is_not refl
  ]

  from_table :
      (later : ℕ) (done : List ℕ) (g : Gathered)
      → AllDone done
      → Agrees db.snapshots asked done g
      → let (result, db') = look_up later true asked db g in
        Answers db.snapshots asked result db db'
  unfolding look_up
  from_table later done g all a =
      let read = select (λ s. has g.missing s.user_sub) db.snapshots in
      let (after, filled, kept) =
        absorb-Agrees db.snapshots (later + profile_ttl_ms) asked done read g
          (All-select _ _ db.snapshots (rows_are_current db.snapshots keyed))
          (All-select_passes (λ (r : Snapshot). has asked r.user_sub ≡ true)
            (λ s. has g.missing s.user_sub) db.snapshots
            (All-anything _ db.snapshots (λ r. a.missed r.user_sub)))
          a in
      let complete = found_in_table _ g all a filled in
      let answer = answer_lem db.snapshots asked _ after.current after.wanted complete in
      record {
        profiles = answer;
        missing = λ sub.
            has-select
              (λ s. not (is_some (map_get s (absorb (later + profile_ttl_ms) read g).profiles)))
              asked sub
            ∙ missing_lem sub _ (answer sub);
        available = refl;
        coherent = after.coherent;
        distinct = after.distinct;
        table = refl;
      }

  after_cache-Answers :
      (later : ℕ) (done missing : List ℕ) (g : Gathered)
      → AllDone done
      → g.missing ≡ missing
      → Agrees db.snapshots asked done g
      → let (result, db') = after_cache later true asked missing db g in
        Answers db.snapshots asked result db db'
  unfolding after_cache
  after_cache-Answers later done [] g all is a = from_cache later done g all is a
  after_cache-Answers later done (m ∷ ms) g all is a = from_table later done g all a

-- The first loop over the subs of a request.
gathered :
    (now : ℕ) (asked : List ℕ) (db : IdentityDb)
    → IsCoherent db.snapshots db.cache
    → IsKeyed (entry_key {V = CachedProfile}) db.cache
    → (done : List ℕ) × Agrees db.snapshots asked done
        (gather now asked (record { profiles = []; missing = []; cache = db.cache }))
      × ((sub : ℕ) → has asked sub ≡ true → has done sub ≡ true)
unfolding map_get
gathered now asked db coherent distinct =
    let start : Agrees db.snapshots asked []
        (record { profiles = []; missing = []; cache = db.cache }) =
      record {
        current = λ sub p e. cc;
        coherent = coherent;
        distinct = distinct;
        wanted = λ sub e. cc;
        missed = λ sub e. cc;
        settled = λ sub e. cc;
      } in
    let (done, a, all) =
      gather-Agrees db.snapshots now asked [] asked _ (All-has _ _ (λ sub h. h)) start in
    (done, a, λ sub is. ground (arith, all sub, is))

-- A lookup that reads the table answers with what the table says, whatever the cache holds, as long
-- as the cache is coherent.
pub lookup-Answers :
    (now later : ℕ) (subs : List ℕ) (db : IdentityDb)
    → IsKeyed snapshot_sub db.snapshots
    → IsCoherent db.snapshots db.cache
    → IsKeyed (entry_key {V = CachedProfile}) db.cache
    → let (result, db') = get_user_profiles_from_snapshots now later true subs db in
      Answers db.snapshots (unique subs) result db db'
unfolding get_user_profiles_from_snapshots
lookup-Answers now later subs db keyed coherent distinct =
    let (done, a, all) = gathered now (unique subs) db coherent distinct in
    after_cache-Answers db keyed (unique subs) later done _ _ all refl a

after_cache_unread :
    (later : ℕ) (asked missing : List ℕ) (db : IdentityDb) (g : Gathered)
    → let (result, db') = after_cache later false asked missing db g in
      (db'.cache ≡ g.cache) × (db'.snapshots ≡ db.snapshots)
unfolding after_cache look_up
after_cache_unread later asked [] db g = (refl, refl)
after_cache_unread later asked (m ∷ ms) db g = (refl, refl)

-- A lookup whose query fails leaves a coherent cache, too.
pub unread_lookup :
    (now later : ℕ) (subs : List ℕ) (db : IdentityDb)
    → IsCoherent db.snapshots db.cache
    → IsKeyed (entry_key {V = CachedProfile}) db.cache
    → let (result, db') = get_user_profiles_from_snapshots now later false subs db in
      IsCoherent db.snapshots db'.cache
      × IsKeyed (entry_key {V = CachedProfile}) db'.cache
      × (db'.snapshots ≡ db.snapshots)
unfolding get_user_profiles_from_snapshots
unread_lookup now later subs db coherent distinct =
    let (done, a, all) = gathered now (unique subs) db coherent distinct in
    let (cache, table) = after_cache_unread later (unique subs) _ db _ in
    (
      subst (IsCoherent db.snapshots) (sym cache) a.coherent,
      subst (IsKeyed (entry_key {V = CachedProfile})) (sym cache) a.distinct,
      table,
    )
