-- ===== src/Base/Table.antt =====
-- A table as the list of its rows, and the SQL statements on it by key: `select … where id = k
-- limit 1`, and `update … where id = k`.
use Prim.Native.Nat.{ℕ}
use mathlib.Core.Path.{◌≡◌, refl, ap, subst, ◌∙◌}
use mathlib.Core.Logic.{◌≢◌, ◌⊎◌, inl, inr}
use mathlib.Core.Bool.{Bool, true, false}
use mathlib.Core.Option
use mathlib.Core.Option.{Option, none, some, some-injective}
use mathlib.Core.List.{List, [], ◌∷◌, ◌++◌}
use native.Mathlib.Omega.{arith}
use crm_collab.Base.Tests.{◌==◌, if◌then◌else◌, Bool-cases, ==_iff}
use crm_collab.Base.Lists.{All, or_else, find, length, select}

module _ {ℓ} {A : Type ℓ} where
  -- Every row that passes the test is changed.
  unfoldable pub update_where : (A → Bool) → (A → A) → List A → List A
  update_where p f [] = []
  update_where p f (x ∷ xs) = (if p x then f x else x) ∷ update_where p f xs

  unfoldable pub find_by : (A → ℕ) → ℕ → List A → Option A
  find_by key k [] = none
  find_by key k (x ∷ xs) = let rest = find_by key k xs in if key x == k then some x else rest

  unfoldable pub update_by : (A → ℕ) → ℕ → (A → A) → List A → List A
  unfolding update_where
  update_by key k f xs = update_where (λ x. key x == k) f xs

  pub length-update_where :
      (p : A → Bool) (f : A → A) (xs : List A) → length (update_where p f xs) ≡ length xs
  unfolding update_where
  length-update_where p f [] = refl
  length-update_where p f (x ∷ xs) = omega (arith, length-update_where p f xs)

  -- A predicate of the rows survives an update that keeps it.
  pub All-update_where {κ} :
      (P : A → Type κ) (p : A → Bool) (f : A → A) (xs : List A)
      → ((x : A) → p x ≡ true → P x → P (f x))
      → All P xs
      → All P (update_where p f xs)
  unfolding update_where
  All-update_where P p f [] keep h = tt
  All-update_where P p f (x ∷ xs) keep (hx, h) = elim (Bool-cases (p x)) [
    | inl e ↦ rw e (keep x e hx, All-update_where P p f xs keep h)
    | inr e ↦ rw e (hx, All-update_where P p f xs keep h)
  ]

  -- A row after an update was hit and changed, or missed and left.
  pub All-updated_cases {κ μ} :
      (P : A → Type κ) (Q : A → Type μ) (p : A → Bool) (f : A → A) (xs : List A)
      → ((x : A) → p x ≡ true → P x → Q (f x))
      → ((x : A) → p x ≡ false → P x → Q x)
      → All P xs
      → All Q (update_where p f xs)
  unfolding update_where
  All-updated_cases P Q p f [] hit miss h = tt
  All-updated_cases P Q p f (x ∷ xs) hit miss (hx, h) = elim (Bool-cases (p x)) [
    | inl e ↦ rw e (hit x e hx, All-updated_cases P Q p f xs hit miss h)
    | inr e ↦ rw e (miss x e hx, All-updated_cases P Q p f xs hit miss h)
  ]

  pub All-append {κ} : (P : A → Type κ) (xs ys : List A) → All P xs → All P ys → All P (xs ++ ys)
  All-append P [] ys h k = k
  All-append P (x ∷ xs) ys (hx, h) k = (hx, All-append P xs ys h k)

  pub All-select {κ} :
      (P : A → Type κ) (p : A → Bool) (xs : List A) → All P xs → All P (select p xs)
  All-select P p [] h = tt
  All-select P p (x ∷ xs) (hx, h) = elim (Bool-cases (p x)) [
    | inl e ↦ rw e (hx, All-select P p xs h)
    | inr e ↦ rw e (All-select P p xs h)
  ]

  pub All-select_passes {κ} :
      (P : A → Type κ) (p : A → Bool) (xs : List A)
      → All (λ x. p x ≡ true → P x) xs
      → All P (select p xs)
  All-select_passes P p [] h = tt
  All-select_passes P p (x ∷ xs) (hx, h) = elim (Bool-cases (p x)) [
    | inl e ↦ rw e (hx e, All-select_passes P p xs h)
    | inr e ↦ rw e (All-select_passes P p xs h)
  ]

  pub All-of-select {κ} :
      (P : A → Type κ) (p : A → Bool) (xs : List A)
      → All P (select p xs)
      → All (λ x. p x ≡ true → P x) xs
  All-of-select P p [] h = tt
  All-of-select P p (x ∷ xs) h = elim (Bool-cases (p x)) [
    | inl e ↦ let (hx, rest) = rw e at h in (λ q. hx, All-of-select P p xs rest)
    | inr e ↦ (λ q. absurd (ground (arith, e, q)), All-of-select P p xs (rw e at h))
  ]

  pub All-map_holds {κ μ} :
      (P : A → Type κ) (Q : A → Type μ) (xs : List A) → ((x : A) → P x → Q x) → All P xs → All Q xs
  All-map_holds P Q [] f h = tt
  All-map_holds P Q (x ∷ xs) f (hx, h) = (f x hx, All-map_holds P Q xs f h)

  pub All-anything {κ} : (P : A → Type κ) (xs : List A) → ((x : A) → P x) → All P xs
  All-anything P [] h = tt
  All-anything P (x ∷ xs) h = (h x, All-anything P xs h)

module _ {ℓ} {A : Type ℓ} (key : A → ℕ) where
  pub find_by-key : (k : ℕ) (xs : List A) {x : A} → find_by key k xs ≡ some x → key x ≡ k
  unfolding find_by
  find_by-key k [] h = cc
  find_by-key k (y ∷ xs) {x} h = ground (arith, find_by-key k xs {x = x})

  -- A row that is found and passes a test is found among those that pass it.
  pub find_by-select :
      (k : ℕ) (p : A → Bool) (xs : List A) {x : A}
      → find_by key k xs ≡ some x
      → p x ≡ true
      → find_by key k (select p xs) ≡ some x
  unfolding find_by
  find_by-select k p [] e pass = cc
  find_by-select k p (y ∷ xs) {x} e pass = elim (Bool-cases (key y == k)) [
    | inl hit ↦
        let same : y ≡ x = some-injective _ _ (rw (hit, find_by) at e) in
        let passes : p y ≡ true = ap p same ∙ pass in ground (arith, hit, passes, same)
    | inr miss ↦ ground (arith, miss, find_by-select k p xs {x = x} (rw (miss, find_by) at e) pass)
  ]

  pub find_by-append :
      (k : ℕ) (xs ys : List A)
      → find_by key k (xs ++ ys) ≡ or_else (find_by key k xs) (find_by key k ys)
  unfolding find_by
  find_by-append k [] ys = refl
  find_by-append k (x ∷ xs) ys = ground (arith, find_by-append k xs ys)

  pub find_by-All {κ} :
      (P : A → Type κ) (k : ℕ) (xs : List A) {x : A} → All P xs → find_by key k xs ≡ some x → P x
  unfolding find_by
  find_by-All P k [] h e = cc
  find_by-All P k (y ∷ xs) (hy, h) e = elim (Bool-cases (key y == k)) [
    | inl hit ↦ subst P (some-injective _ _ (rw (hit, find_by) at e)) hy
    | inr miss ↦ find_by-All P k xs h (rw (miss, find_by) at e)
  ]

  -- What a key finds after an update that leaves the keys alone.
  pub find_by-update_where :
      (k : ℕ) (p : A → Bool) (f : A → A) (xs : List A)
      → ((x : A) → key (f x) ≡ key x)
      → find_by key k (update_where p f xs)
        ≡ Option.map (λ x. if p x then f x else x) (find_by key k xs)
  unfolding find_by update_where
  find_by-update_where k p f [] keep = refl
  find_by-update_where k p f (x ∷ xs) keep =
      ground (arith, keep x, find_by-update_where k p f xs keep)

  pub find_by-update_by :
      (j k : ℕ) (f : A → A) (xs : List A)
      → ((x : A) → key (f x) ≡ key x)
      → find_by key j (update_by key k f xs)
        ≡ (if j == k then Option.map f (find_by key j xs) else find_by key j xs)
  unfolding find_by update_by
  find_by-update_by j k f [] keep = ground arith
  find_by-update_by j k f (x ∷ xs) keep = ground (arith, keep x, find_by-update_by j k f xs keep)

  -- A row found after an update was there before it, or is an updated row.
  pub found_after_update :
      (j k : ℕ) (f : A → A) (xs : List A) {y : A}
      → ((x : A) → key (f x) ≡ key x)
      → find_by key j (update_by key k f xs) ≡ some y
      → ((j ≢ k) × (find_by key j xs ≡ some y))
        ⊎ ((x : A) × (j ≡ k) × (find_by key k xs ≡ some x) × (f x ≡ y))
  found_after_update j k f xs {y} keep e = elim (Bool-cases (j == k)) [
    | inl same ↦
        let j-eq-k : j ≡ k = (==_iff j k).0 same in
        let mapped : Option.map f (find_by key j xs) ≡ some y =
          ground (arith, find_by-update_by j k f xs keep, e, same) in
        let (x, hit, image) = (Option.map-eq-some_iff _ _).0 mapped in
        inr (x, j-eq-k, subst (λ k'. find_by key k' xs ≡ some x) j-eq-k hit, image)
    | inr other ↦ inl (ground arith, ground (arith, find_by-update_by j k f xs keep, e, other))
  ]

  -- No two rows share a key.
  abbrev pub IsKeyed : List A → Type 0
  IsKeyed [] = Unit
  IsKeyed (x ∷ xs) = All (λ y. key y ≢ key x) xs × IsKeyed xs

  find-All {κ} :
      (P : A → Type κ) (p : A → Bool) (xs : List A) {x : A} → All P xs → find p xs ≡ some x → P x
  find-All P p [] h e = cc
  find-All P p (y ∷ xs) (hy, h) e = elim (Bool-cases (p y)) [
    | inl hit ↦ subst P (some-injective _ _ (rw hit at e)) hy
    | inr miss ↦ find-All P p xs h (rw miss at e)
  ]

  -- A row found by any test is the row of its key.
  pub find_by_of_find :
      (p : A → Bool) (xs : List A) {x : A}
      → IsKeyed xs
      → find p xs ≡ some x
      → find_by key (key x) xs ≡ some x
  unfolding find_by
  find_by_of_find p [] h e = cc
  find_by_of_find p (y ∷ xs) {x} (apart, h) e = elim (Bool-cases (p y)) [
    | inl hit ↦ ground (arith, some-injective _ _ (rw hit at e))
    | inr miss ↦
        let rest : find p xs ≡ some x = rw miss at e in
        ground (
          arith,
          find_by_of_find p xs {x = x} h rest,
          find-All (λ z. key z ≢ key y) p xs {x = x} apart rest,
        )
  ]

-- What a search finds passes its test.
pub find-passes {ℓ} :
    {A : Type ℓ} (p : A → Bool) (xs : List A) {x : A} → find p xs ≡ some x → p x ≡ true
find-passes p [] e = cc
find-passes p (y ∷ xs) {x} e = ground (arith, find-passes p xs {x = x})
