-- ===== src/Base/Maps.antt =====
-- `Map` with numbers for keys, as the list of its entries in the order of their insertion.
use Prim.Native.Nat.{ℕ}
use mathlib.Core.Path.{◌≡◌, refl}
use mathlib.Core.Logic.{◌≢◌, inl, inr}
use mathlib.Core.Bool.{Bool, true, false, not, ◌||◌}
use mathlib.Core.Option.{Option, none, some}
use mathlib.Core.List.{List, [], ◌∷◌}
use native.Mathlib.Omega.{arith}
use crm_collab.Base.Tests.{◌==◌, if◌then◌else◌, Bool-cases, ==_iff}
use crm_collab.Base.Lists.{has, select, All}
use crm_collab.Base.Table.{IsKeyed}
use crm_collab.Base.Keyed.{IsKeyed-select}

module _ {ℓ} {V : Type ℓ} where
  unfoldable pub map_get : ℕ → List (ℕ × V) → Option V
  map_get k [] = none
  map_get k ((j, v) ∷ m) = let rest = map_get k m in if j == k then some v else rest

  unfoldable pub map_set : ℕ → V → List (ℕ × V) → List (ℕ × V)
  map_set k v [] = (k, v) ∷ []
  map_set k v ((j, w) ∷ m) =
      let rest = map_set k v m in if j == k then (j, v) ∷ m else (j, w) ∷ rest

  unfoldable pub map_delete : ℕ → List (ℕ × V) → List (ℕ × V)
  map_delete k m = select (λ (e : ℕ × V). not (e.0 == k)) m

  pub map_get-map_set :
      (i k : ℕ) (v : V) (m : List (ℕ × V))
      → map_get i (map_set k v m) ≡ (if k == i then some v else map_get i m)
  unfolding map_get map_set
  map_get-map_set i k v [] = refl
  map_get-map_set i k v ((j, w) ∷ m) = ground (arith, map_get-map_set i k v m)

  pub map_get-map_delete :
      (i k : ℕ) (m : List (ℕ × V))
      → map_get i (map_delete k m) ≡ (if k == i then none else map_get i m)
  unfolding map_get map_delete
  map_get-map_delete i k [] = ground arith
  map_get-map_delete i k ((j, w) ∷ m) = ground (arith, map_get-map_delete i k m)

-- No key twice.
abbrev pub entry_key {ℓ} : {V : Type ℓ} → ℕ × V → ℕ
entry_key e = e.0

module _ {ℓ} {V : Type ℓ} where
  All-ne-map_set :
      (j k : ℕ) (v : V) (m : List (ℕ × V))
      → k ≢ j
      → All (λ (e : ℕ × V). entry_key e ≢ j) m
      → All (λ (e : ℕ × V). entry_key e ≢ j) (map_set k v m)
  unfolding map_set
  All-ne-map_set j k v [] ne h = (ne, tt)
  All-ne-map_set j k v ((i, w) ∷ m) ne (hi, h) = elim (Bool-cases (i == k)) [
    | inl same ↦ rw same (hi, h)
    | inr other ↦ rw other (hi, All-ne-map_set j k v m ne h)
  ]

  pub IsKeyed-map_set :
      (k : ℕ) (v : V) (m : List (ℕ × V))
      → IsKeyed (entry_key {V = V}) m
      → IsKeyed (entry_key {V = V}) (map_set k v m)
  unfolding map_set
  IsKeyed-map_set k v [] h = (tt, tt)
  IsKeyed-map_set k v ((i, w) ∷ m) (apart, h) = elim (Bool-cases (i == k)) [
    | inl same ↦ rw same (apart, h)
    | inr other ↦
        rw other
          (All-ne-map_set i k v m (λ e. ground (arith, other, e)) apart, IsKeyed-map_set k v m h)
  ]

  pub IsKeyed-map_delete :
      (k : ℕ) (m : List (ℕ × V))
      → IsKeyed (entry_key {V = V}) m
      → IsKeyed (entry_key {V = V}) (map_delete k m)
  unfolding map_delete
  IsKeyed-map_delete k m h = IsKeyed-select (entry_key {V = V}) _ m h

  map_get-ne :
      (j k : ℕ) (m : List (ℕ × V)) {v : V}
      → (j == k) ≡ true
      → All (λ (e : ℕ × V). entry_key e ≢ j) m
      → map_get k m ≢ some v
  unfolding map_get
  map_get-ne j k [] same h e = cc
  map_get-ne j k ((i, w) ∷ m) {v} same (hi, h) e =
      ground (arith, same, hi, e, map_get-ne j k m {v = v} same h)

  -- Entries that are taken out uncover no others.
  pub map_get-select :
      (p : ℕ × V → Bool) (k : ℕ) (m : List (ℕ × V)) {v : V}
      → IsKeyed (entry_key {V = V}) m
      → map_get k (select p m) ≡ some v
      → map_get k m ≡ some v
  unfolding map_get
  map_get-select p k [] keyed e = e
  map_get-select p k ((j, w) ∷ m) {v} (apart, keyed) e = elim (Bool-cases (p (j, w))) [
    | inl kept ↦
        let e' = rw kept at e in
        elim (Bool-cases (j == k)) [
          | inl same ↦ rw same (rw (same, map_get) at e')
          | inr other ↦ rw other (map_get-select p k m keyed (rw (other, map_get) at e'))
        ]
    | inr gone ↦
        let found : map_get k m ≡ some v = map_get-select p k m keyed (rw gone at e) in
        elim (Bool-cases (j == k)) [
          | inl same ↦ absurd (map_get-ne j k m same apart found)
          | inr other ↦ rw other found
        ]
  ]

-- `[...new Set(xs)]`: the first occurrence of each number, in order.
has_of_eq : (xs : List ℕ) (x a : ℕ) → (x == a) ≡ true → has xs x ≡ has xs a
has_of_eq xs x a h = rw ((==_iff x a).0 h) refl

new_ones : List ℕ → List ℕ → List ℕ
new_ones seen [] = []
new_ones seen (x ∷ xs) =
    let rest = new_ones (x ∷ seen) xs in
    let others = new_ones seen xs in if has seen x then others else x ∷ rest

unfoldable pub unique : List ℕ → List ℕ
unfolding new_ones
unique xs = new_ones [] xs

has-new_ones :
    (a : ℕ) (seen xs : List ℕ) → (has (new_ones seen xs) a || has seen a) ≡ (has xs a || has seen a)
unfolding new_ones
has-new_ones a seen [] = refl
has-new_ones a seen (x ∷ xs) =
    ground (arith, has-new_ones a seen xs, has-new_ones a (x ∷ seen) xs, has_of_eq seen x a)

pub has-unique : (a : ℕ) (xs : List ℕ) → has (unique xs) a ≡ has xs a
unfolding unique
has-unique a xs = ground (arith, has-new_ones a [] xs)

-- No number twice.
abbrev pub AreDistinct : List ℕ → Type 0
AreDistinct [] = Unit
AreDistinct (x ∷ xs) = (has xs x ≡ false) × AreDistinct xs

has-new_ones_seen :
    (a : ℕ) (seen xs : List ℕ) → has seen a ≡ true → has (new_ones seen xs) a ≡ false
unfolding new_ones
has-new_ones_seen a seen [] h = refl
has-new_ones_seen a seen (x ∷ xs) h =
    ground (
      arith,
      h,
      has-new_ones_seen a seen xs h,
      has-new_ones_seen a (x ∷ seen) xs,
      has_of_eq seen x a,
    )

new_ones-AreDistinct : (seen xs : List ℕ) → AreDistinct (new_ones seen xs)
unfolding new_ones
new_ones-AreDistinct seen [] = tt
new_ones-AreDistinct seen (x ∷ xs) = elim (Bool-cases (has seen x)) [
  | inl old ↦ rw old (new_ones-AreDistinct seen xs)
  | inr fresh ↦
      rw fresh
        (has-new_ones_seen x (x ∷ seen) xs (ground arith), new_ones-AreDistinct (x ∷ seen) xs)
]

pub unique-AreDistinct : (xs : List ℕ) → AreDistinct (unique xs)
unfolding unique
unique-AreDistinct xs = new_ones-AreDistinct [] xs
