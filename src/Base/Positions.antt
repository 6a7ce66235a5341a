-- ===== src/Base/Positions.antt =====
-- Lists by index: reading, inserting and removing an element at a position.
use Prim.Native.Nat.{ℕ, zero, suc, ◌≤◌, ◌<◌}
use mathlib.Core.Path.{◌≡◌, refl}
use mathlib.Core.Option.{Option, none, some}
use mathlib.Core.List.{List, [], ◌∷◌}
use native.Mathlib.Omega.{arith}
use crm_collab.Base.Lists.{length}

module _ {ℓ} {A : Type ℓ} where
  abbrev pub get_elem? : List A → ℕ → Option A
  get_elem? [] i = none
  get_elem? (x ∷ xs) zero = some x
  get_elem? (x ∷ xs) (suc i) = get_elem? xs i

  -- Beyond the end the element goes last.
  unfoldable pub insert_at : ℕ → A → List A → List A
  insert_at zero a xs = a ∷ xs
  insert_at (suc n) a [] = a ∷ []
  insert_at (suc n) a (x ∷ xs) = x ∷ insert_at n a xs

  unfoldable pub remove_at : ℕ → List A → List A
  remove_at n [] = []
  remove_at zero (x ∷ xs) = xs
  remove_at (suc n) (x ∷ xs) = x ∷ remove_at n xs

  pub get_elem?-insert_at_self :
      (n : ℕ) (a : A) (xs : List A) → n ≤ length xs → get_elem? (insert_at n a xs) n ≡ some a
  unfolding insert_at
  get_elem?-insert_at_self zero a xs h = refl
  get_elem?-insert_at_self (suc n) a [] h = absurd (omega arith)
  get_elem?-insert_at_self (suc n) a (x ∷ xs) h = get_elem?-insert_at_self n a xs (omega arith)

  pub get_elem?-insert_at_below :
      (n i : ℕ) (a : A) (xs : List A)
      → i < n
      → n ≤ length xs
      → get_elem? (insert_at n a xs) i ≡ get_elem? xs i
  unfolding insert_at
  get_elem?-insert_at_below zero i a xs lt le = absurd (omega arith)
  get_elem?-insert_at_below (suc n) i a [] lt le = absurd (omega arith)
  get_elem?-insert_at_below (suc n) zero a (x ∷ xs) lt le = refl
  get_elem?-insert_at_below (suc n) (suc i) a (x ∷ xs) lt le =
      get_elem?-insert_at_below n i a xs (omega arith) (omega arith)

  pub get_elem?-insert_at_above :
      (n i : ℕ) (a : A) (xs : List A)
      → n ≤ i
      → n ≤ length xs
      → get_elem? (insert_at n a xs) (suc i) ≡ get_elem? xs i
  unfolding insert_at
  get_elem?-insert_at_above zero i a xs le len = refl
  get_elem?-insert_at_above (suc n) i a [] le len = absurd (omega arith)
  get_elem?-insert_at_above (suc n) zero a (x ∷ xs) le len = absurd (omega arith)
  get_elem?-insert_at_above (suc n) (suc i) a (x ∷ xs) le len =
      get_elem?-insert_at_above n i a xs (omega arith) (omega arith)

  pub get_elem?-remove_at_below :
      (n i : ℕ) (xs : List A) → i < n → get_elem? (remove_at n xs) i ≡ get_elem? xs i
  unfolding remove_at
  get_elem?-remove_at_below n i [] lt = refl
  get_elem?-remove_at_below zero i (x ∷ xs) lt = absurd (omega arith)
  get_elem?-remove_at_below (suc n) zero (x ∷ xs) lt = refl
  get_elem?-remove_at_below (suc n) (suc i) (x ∷ xs) lt =
      get_elem?-remove_at_below n i xs (omega arith)

  pub get_elem?-remove_at_above :
      (n i : ℕ) (xs : List A) → n ≤ i → get_elem? (remove_at n xs) i ≡ get_elem? xs (suc i)
  unfolding remove_at
  get_elem?-remove_at_above n i [] le = refl
  get_elem?-remove_at_above zero i (x ∷ xs) le = refl
  get_elem?-remove_at_above (suc n) zero (x ∷ xs) le = absurd (omega arith)
  get_elem?-remove_at_above (suc n) (suc i) (x ∷ xs) le =
      get_elem?-remove_at_above n i xs (omega arith)

  pub length-remove_at :
      (n : ℕ) (xs : List A) → n < length xs → suc (length (remove_at n xs)) ≡ length xs
  unfolding remove_at
  length-remove_at n [] h = absurd (omega arith)
  length-remove_at zero (x ∷ xs) h = refl
  length-remove_at (suc n) (x ∷ xs) h = omega (arith, length-remove_at n xs)
