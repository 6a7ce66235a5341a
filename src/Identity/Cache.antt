-- ===== src/Identity/Cache.antt =====
-- shared/identity-snapshot-store.ts: what the cache holds is what the table says.
use mathlib.Core.Option.{some-injective}
use crm_collab.Base.{
  ℕ, ◌≡◌, refl, sym, ◌∙◌, ap, inl, inr, true, ◌||◌, Option, none, some, List, [], ◌∷◌, ◌++◌, ◌⊎◌,
  arith, ltb, ◌==◌, has, is_some, All, Bool-cases, ==_iff,
}
use crm_collab.Base.Table.{find_by, IsKeyed}
use crm_collab.Base.Maps.{
  map_get, map_set, map_delete, map_get-map_set, map_get-map_delete, entry_key, IsKeyed-map_set,
  IsKeyed-map_delete,
}
use crm_collab.Identity.{
  UserProfile, Snapshot, snapshot_sub, to_user_profile, CachedProfile, Gathered, gather_one, gather,
  absorb,
}

-- What the table says of a user.
abbrev profile_or_none : Option Snapshot → Option UserProfile
profile_or_none none = none
profile_or_none (some s) = some (to_user_profile s)

unfoldable pub profile_of : List Snapshot → ℕ → Option UserProfile
unfolding find_by
profile_of rows sub = profile_or_none (find_by snapshot_sub sub rows)

abbrev pub AreCurrent : List Snapshot → List (ℕ × UserProfile) → Type 0
AreCurrent rows m =
    (sub : ℕ) (p : UserProfile) → map_get sub m ≡ some p → profile_of rows sub ≡ some p

-- No cached profile differs from the table.
abbrev pub IsCoherent : List Snapshot → List (ℕ × CachedProfile) → Type 0
IsCoherent rows cache =
    (sub : ℕ) (c : CachedProfile)
    → map_get sub cache ≡ some c
    → profile_of rows sub ≡ some c.profile

-- A lookup after a write, by the key that was written.
map_set_cases {ℓ} :
    {V : Type ℓ} (sub k : ℕ) (v : V) (m : List (ℕ × V)) {p : V}
    → map_get sub (map_set k v m) ≡ some p
    → ((k ≡ sub) × (v ≡ p)) ⊎ (map_get sub m ≡ some p)
map_set_cases sub k v m e =
    let set = map_get-map_set sub k v m in
    elim (Bool-cases (k == sub)) [
      | inl same ↦ inl ((==_iff k sub).0 same, some-injective _ _ ((rw same at (sym set)) ∙ e))
      | inr other ↦ inr ((rw other at (sym set)) ∙ e)
    ]

map_delete_kept {ℓ} :
    {V : Type ℓ} (sub k : ℕ) (m : List (ℕ × V)) {p : V}
    → map_get sub (map_delete k m) ≡ some p
    → map_get sub m ≡ some p
map_delete_kept sub k m e =
    let del = map_get-map_delete sub k m in
    elim (Bool-cases (k == sub)) [
      | inl same ↦ absurd (ground (arith, del, e, same))
      | inr other ↦ (rw other at (sym del)) ∙ e
    ]

has-push : (xs : List ℕ) (x a : ℕ) → has (xs ++ x ∷ []) a ≡ (has xs a || x == a)
has-push [] x a = ground arith
has-push (y ∷ xs) x a = ground (arith, has-push xs x a)

has-eq : (xs : List ℕ) (x a : ℕ) → (x == a) ≡ true → has xs x ≡ true → has xs a ≡ true
has-eq xs x a same h = rw (← (==_iff x a).0 same) h

module _ (rows : List Snapshot) where
  AreCurrent-map_set :
      (k : ℕ) (v : UserProfile) (m : List (ℕ × UserProfile))
      → profile_of rows k ≡ some v
      → AreCurrent rows m
      → AreCurrent rows (map_set k v m)
  AreCurrent-map_set k v m at h sub p e = elim (map_set_cases sub k v m e) [
    | inl (same, is) ↦ ap (profile_of rows) (sym same) ∙ at ∙ ap some is
    | inr before ↦ h sub p before
  ]

  pub IsCoherent-map_set :
      (k : ℕ) (v : CachedProfile) (m : List (ℕ × CachedProfile))
      → profile_of rows k ≡ some v.profile
      → IsCoherent rows m
      → IsCoherent rows (map_set k v m)
  IsCoherent-map_set k v m at h sub c e = elim (map_set_cases sub k v m e) [
    | inl (same, is) ↦
        ap (profile_of rows) (sym same) ∙ at ∙ ap (λ (d : CachedProfile). some d.profile) is
    | inr before ↦ h sub c before
  ]

  pub IsCoherent-map_delete :
      (k : ℕ) (m : List (ℕ × CachedProfile)) → IsCoherent rows m → IsCoherent rows (map_delete k m)
  IsCoherent-map_delete k m h sub c e = h sub c (map_delete_kept sub k m e)

  -- What the loops keep: the profiles and the cache agree with the table, every profile and every
  -- missing sub was asked for, and the subs that are done are one or the other.
  pub record Agrees (asked done : List ℕ) (g : Gathered) : Type 0 where
    pub current : AreCurrent rows g.profiles
    pub coherent : IsCoherent rows g.cache
    pub distinct : IsKeyed (entry_key {V = CachedProfile}) g.cache
    pub wanted : (sub : ℕ) → is_some (map_get sub g.profiles) ≡ true → has asked sub ≡ true
    pub missed : (sub : ℕ) → has g.missing sub ≡ true → has asked sub ≡ true
    pub settled :
        (sub : ℕ)
        → has done sub ≡ true
        → (is_some (map_get sub g.profiles) || has g.missing sub) ≡ true

  gather_one-Agrees :
      (now sub : ℕ) (asked done : List ℕ) (c : Option CachedProfile) (g : Gathered)
      → has asked sub ≡ true
      → map_get sub g.cache ≡ c
      → Agrees asked done g
      → Agrees asked (sub ∷ done) (gather_one now sub c g)
  unfolding gather_one
  gather_one-Agrees now sub asked done none g is_asked at a = record {
    current = a.current;
    coherent = a.coherent;
    distinct = a.distinct;
    wanted = a.wanted;
    missed = λ s h.
        ground (arith, has-push g.missing sub s, h, a.missed s, has-eq asked sub s, is_asked);
    settled = λ s h. ground (arith, has-push g.missing sub s, h, a.settled s);
  }
  gather_one-Agrees now sub asked done (some c) g is_asked at a =
      elim (Bool-cases (ltb now c.expires_at)) [
        | inl fresh ↦ rw fresh (record {
          current = AreCurrent-map_set sub c.profile g.profiles (a.coherent sub c at) a.current;
          coherent = a.coherent;
          distinct = a.distinct;
          wanted = λ s h. ground (
            arith,
            map_get-map_set s sub c.profile g.profiles,
            h,
            a.wanted s,
            has-eq asked sub s,
            is_asked,
          );
          missed = a.missed;
          settled =
              λ s h. ground (arith, map_get-map_set s sub c.profile g.profiles, h, a.settled s);
        })
        | inr stale ↦ rw stale (record {
          current = a.current;
          coherent = IsCoherent-map_delete sub g.cache a.coherent;
          distinct = IsKeyed-map_delete sub g.cache a.distinct;
          wanted = a.wanted;
          missed = λ s h.
              ground (arith, has-push g.missing sub s, h, a.missed s, has-eq asked sub s, is_asked);
          settled = λ s h. ground (arith, has-push g.missing sub s, h, a.settled s);
        })
      ]

  pub gather-Agrees :
      (now : ℕ) (asked done subs : List ℕ) (g : Gathered)
      → All (λ sub. has asked sub ≡ true) subs
      → Agrees asked done g
      → (d : List ℕ) × Agrees asked d (gather now subs g)
        × ((sub : ℕ) → has d sub ≡ (has done sub || has subs sub))
  unfolding gather
  gather-Agrees now asked done [] g are a = (done, a, λ sub. ground arith)
  gather-Agrees now asked done (sub ∷ subs) g (is, are) a =
      let (d, after, of) =
        gather-Agrees now asked (sub ∷ done) subs (gather_one now sub (map_get sub g.cache) g) are
          (gather_one-Agrees now sub asked done (map_get sub g.cache) g is refl a) in
      (d, after, λ s. ground (arith, of s))

  -- The rows that were read are the table's.
  pub absorb-Agrees :
      (expires_at : ℕ) (asked done : List ℕ) (read : List Snapshot) (g : Gathered)
      → All (λ (r : Snapshot). profile_of rows r.user_sub ≡ some (to_user_profile r)) read
      → All (λ (r : Snapshot). has asked r.user_sub ≡ true) read
      → Agrees asked done g
      → Agrees asked done (absorb expires_at read g)
        × ((sub : ℕ)
            → (is_some (map_get sub g.profiles) || is_some (find_by snapshot_sub sub read)) ≡ true
            → is_some (map_get sub (absorb expires_at read g).profiles) ≡ true)
        × ((absorb expires_at read g).missing ≡ g.missing)
  unfolding absorb find_by
  absorb-Agrees expires_at asked done [] g are are_asked a = (a, (λ sub h. ground (arith, h)), refl)
  absorb-Agrees expires_at asked done (r ∷ read) g (is, are) (is_asked, are_asked) a =
      let c : CachedProfile = record { expires_at = expires_at; profile = to_user_profile r } in
      let next : Gathered = record g {
        profiles = map_set r.user_sub (to_user_profile r) g.profiles;
        cache = map_set r.user_sub c g.cache;
      } in
      let set = λ (s : ℕ). map_get-map_set s r.user_sub (to_user_profile r) g.profiles in
      let step : Agrees asked done next = record {
        current = AreCurrent-map_set r.user_sub (to_user_profile r) g.profiles is a.current;
        coherent = IsCoherent-map_set r.user_sub c g.cache is a.coherent;
        distinct = IsKeyed-map_set r.user_sub c g.cache a.distinct;
        wanted = λ s h. ground (arith, set s, h, a.wanted s, has-eq asked r.user_sub s, is_asked);
        missed = a.missed;
        settled = λ s h. ground (arith, set s, h, a.settled s);
      } in
      let (after, filled, kept) =
        absorb-Agrees expires_at asked done read next are are_asked step in
      (after, (λ sub h. filled sub (ground (arith, set sub, h))), kept)
