-- ===== src/Base/Sort.antt =====
-- `order by key`, with rows of equal keys in the order of the table.
use Prim.Native.Nat.{ℕ, suc, ◌≤◌}
use mathlib.Core.Path.{◌≡◌, refl}
use mathlib.Core.Logic.{inl, inr}
use mathlib.Core.Bool.{◌||◌}
use mathlib.Core.List.{List, [], ◌∷◌, map}
use native.Mathlib.Omega.{arith}
use crm_collab.Base.Tests.{◌==◌, leb, leb→le, Bool-cases, if◌then◌else◌}
use crm_collab.Base.Lists.{length, All, has}

module _ {ℓ} {A : Type ℓ} (key : A → ℕ) where
  unfoldable pub insert_by : A → List A → List A
  insert_by x [] = x ∷ []
  insert_by x (y ∷ ys) =
      let rest = insert_by x ys in if leb (key x) (key y) then x ∷ y ∷ ys else y ∷ rest

  unfoldable pub sort_by : List A → List A
  unfolding insert_by
  sort_by [] = []
  sort_by (x ∷ xs) = insert_by x (sort_by xs)

  length-insert_by : (x : A) (xs : List A) → length (insert_by x xs) ≡ suc (length xs)
  unfolding insert_by
  length-insert_by x [] = refl
  length-insert_by x (y ∷ ys) = ground (arith, length-insert_by x ys)

  pub length-sort_by : (xs : List A) → length (sort_by xs) ≡ length xs
  unfolding sort_by
  length-sort_by [] = refl
  length-sort_by (x ∷ xs) = omega (arith, length-insert_by x (sort_by xs), length-sort_by xs)

  pub All-insert_by {κ} :
      (P : A → Type κ) (x : A) (xs : List A) → P x → All P xs → All P (insert_by x xs)
  unfolding insert_by
  All-insert_by P x [] hx h = (hx, tt)
  All-insert_by P x (y ∷ ys) hx (hy, h) = elim (Bool-cases (leb (key x) (key y))) [
    | inl e ↦ rw e (hx, (hy, h))
    | inr e ↦ rw e (hy, All-insert_by P x ys hx h)
  ]

  pub All-sort_by {κ} : (P : A → Type κ) (xs : List A) → All P xs → All P (sort_by xs)
  unfolding sort_by
  All-sort_by P [] h = tt
  All-sort_by P (x ∷ xs) (hx, h) = All-insert_by P x (sort_by xs) hx (All-sort_by P xs h)

  All-of-insert_by {κ} :
      (P : A → Type κ) (x : A) (xs : List A) → All P (insert_by x xs) → P x × All P xs
  unfolding insert_by
  All-of-insert_by P x [] h = h
  All-of-insert_by P x (y ∷ ys) h = elim (Bool-cases (leb (key x) (key y))) [
    | inl e ↦ rw e at h
    | inr e ↦
        let (hy, rest) = rw e at h in let (hx, hs) = All-of-insert_by P x ys rest in (hx, (hy, hs))
  ]

  pub All-of-sort_by {κ} : (P : A → Type κ) (xs : List A) → All P (sort_by xs) → All P xs
  unfolding sort_by
  All-of-sort_by P [] h = tt
  All-of-sort_by P (x ∷ xs) h =
      let (hx, rest) = All-of-insert_by P x (sort_by xs) h in (hx, All-of-sort_by P xs rest)

  -- A number that the rows carry is still carried after sorting.
  module _ (name : A → ℕ) where
    has-insert_by :
        (a : ℕ) (x : A) (xs : List A)
        → has (map name (insert_by x xs)) a ≡ (name x == a || has (map name xs) a)
    unfolding insert_by
    has-insert_by a x [] = refl
    has-insert_by a x (y ∷ ys) = ground (arith, has-insert_by a x ys)

    pub has-sort_by : (a : ℕ) (xs : List A) → has (map name (sort_by xs)) a ≡ has (map name xs) a
    unfolding sort_by
    has-sort_by a [] = refl
    has-sort_by a (x ∷ xs) = ground (arith, has-insert_by a x (sort_by xs), has-sort_by a xs)

  -- Ascending keys.
  abbrev pub IsSorted : List A → Type 0
  IsSorted [] = Unit
  IsSorted (x ∷ xs) = All (λ y. key x ≤ key y) xs × IsSorted xs

  weaken : (a b : ℕ) → a ≤ b → (xs : List A) → All (λ y. b ≤ key y) xs → All (λ y. a ≤ key y) xs
  weaken a b le [] h = tt
  weaken a b le (x ∷ xs) (hx, h) = (omega (arith, le, hx), weaken a b le xs h)

  insert_by-IsSorted : (x : A) (xs : List A) → IsSorted xs → IsSorted (insert_by x xs)
  unfolding insert_by
  insert_by-IsSorted x [] h = (tt, tt)
  insert_by-IsSorted x (y ∷ ys) (least, h) = elim (Bool-cases (leb (key x) (key y))) [
    | inl e ↦
        let le : key x ≤ key y = leb→le (key x) (key y) e in
        rw e ((le, weaken (key x) (key y) le ys least), (least, h))
    | inr e ↦ rw e (
      All-insert_by (λ z. key y ≤ key z) x ys (ground (arith, e)) least,
      insert_by-IsSorted x ys h,
    )
  ]

  pub sort_by-IsSorted : (xs : List A) → IsSorted (sort_by xs)
  unfolding sort_by
  sort_by-IsSorted [] = tt
  sort_by-IsSorted (x ∷ xs) = insert_by-IsSorted x (sort_by xs) (sort_by-IsSorted xs)
