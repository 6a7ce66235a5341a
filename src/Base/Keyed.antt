-- ===== src/Base/Keyed.antt =====
-- Tables whose rows have distinct keys, under updates and insertions.
use Prim.Native.Nat.{ℕ, zero, suc, ◌<◌, ◌≤◌}
use mathlib.Core.Path.{◌≡◌, refl, sym, subst}
use mathlib.Core.Logic.{◌≢◌, inl, inr}
use mathlib.Core.Bool.{Bool, false}
use mathlib.Core.Option.{none, some, some-injective}
use mathlib.Core.List.{List, [], ◌∷◌, ◌++◌}
use native.Mathlib.Omega.{arith}
use crm_collab.Base.Tests.{◌==◌, if◌then◌else◌, Bool-cases, ==_iff, ==_self}
use crm_collab.Base.Lists.{All, select, take}
use crm_collab.Base.Table.{
  update_where, find_by, update_by, IsKeyed, All-update_where, All-append, All-select,
}

module _ {ℓ} {A : Type ℓ} (key : A → ℕ) where
  All-update_by_other {κ μ} :
      (P : A → Type κ) (Q : A → Type μ) (k : ℕ) (f : A → A) (xs : List A)
      → All (λ y. key y ≢ k) xs
      → ((x : A) → P x → Q x)
      → All P xs
      → All Q (update_by key k f xs)
  unfolding update_by update_where
  All-update_by_other P Q k f [] ne keep h = tt
  All-update_by_other P Q k f (x ∷ xs) (n, ne) keep (hx, h) =
      let other : (key x == k) ≡ false = ground (arith, n) in
      rw other (keep x hx, All-update_by_other P Q k f xs ne keep h)

  -- An update by key changes the one row that the key finds.
  pub All-update_by {κ μ} :
      (P : A → Type κ) (Q : A → Type μ) (k : ℕ) (f : A → A) (xs : List A) {b : A}
      → IsKeyed key xs
      → find_by key k xs ≡ some b
      → ((x : A) → P x → Q x)
      → (P b → Q (f b))
      → All P xs
      → All Q (update_by key k f xs)
  unfolding find_by update_by update_where
  All-update_by P Q k f [] keyed e keep hit h = tt
  All-update_by P Q k f (x ∷ xs) {b} (apart, keyed) e keep hit (hx, h) =
      elim (Bool-cases (key x == k)) [
        | inl same ↦
            let is_b : x ≡ b = some-injective _ _ (rw (same, find_by) at e) in
            rw same (
              subst (λ y. Q (f y)) (sym is_b) (hit (subst P is_b hx)),
              All-update_by_other P Q k f xs
                  (subst (λ j. All (λ y. key y ≢ j) xs) ((==_iff (key x) k).0 same) apart) keep h,
            )
        | inr other ↦
            rw other
              (keep x hx, All-update_by P Q k f xs keyed (rw (other, find_by) at e) keep hit h)
      ]

  -- Keys that an update leaves alone stay distinct.
  All-key-update_where :
      (j : ℕ) (p : A → Bool) (f : A → A) (xs : List A)
      → ((x : A) → key (f x) ≡ key x)
      → All (λ y. key y ≢ j) xs
      → All (λ y. key y ≢ j) (update_where p f xs)
  All-key-update_where j p f xs keep h =
      All-update_where (λ y. key y ≢ j) p f xs (λ x e n. ground (arith, keep x, n)) h

  pub IsKeyed-update_where :
      (p : A → Bool) (f : A → A) (xs : List A)
      → ((x : A) → key (f x) ≡ key x)
      → IsKeyed key xs
      → IsKeyed key (update_where p f xs)
  unfolding update_where
  IsKeyed-update_where p f [] keep h = tt
  IsKeyed-update_where p f (x ∷ xs) keep (apart, h) =
      let same : key (if p x then f x else x) ≡ key x = ground (arith, keep x) in
      (
        subst (λ j. All (λ y. key y ≢ j) (update_where p f xs)) (sym same)
            (All-key-update_where (key x) p f xs keep apart),
        IsKeyed-update_where p f xs keep h,
      )

  -- A new row with a key beyond those in use.
  pub IsKeyed-append :
      (xs : List A) (n : ℕ) (a : A)
      → All (λ x. key x < n) xs
      → n ≤ key a
      → IsKeyed key xs
      → IsKeyed key (xs ++ a ∷ [])
  IsKeyed-append [] n a below le h = (tt, tt)
  IsKeyed-append (x ∷ xs) n a (lt, below) le (apart, h) = (
    All-append (λ y. key y ≢ key x) xs (a ∷ []) apart (omega (arith, lt, le), tt),
    IsKeyed-append xs n a below le h,
  )

  -- Rows that are taken out leave the others apart.
  pub IsKeyed-select : (p : A → Bool) (xs : List A) → IsKeyed key xs → IsKeyed key (select p xs)
  IsKeyed-select p [] h = tt
  IsKeyed-select p (x ∷ xs) (apart, h) = elim (Bool-cases (p x)) [
    | inl e ↦ rw e (All-select (λ y. key y ≢ key x) p xs apart, IsKeyed-select p xs h)
    | inr e ↦ rw e (IsKeyed-select p xs h)
  ]

  -- A new row whose key finds nothing.
  pub All-ne-of-none : (k : ℕ) (xs : List A) → find_by key k xs ≡ none → All (λ x. key x ≢ k) xs
  unfolding find_by
  All-ne-of-none k [] e = tt
  All-ne-of-none k (x ∷ xs) e = elim (Bool-cases (key x == k)) [
    | inl hit ↦ absurd (ground (arith, hit, e))
    | inr miss ↦ ((λ eq. ground (arith, miss, eq)), All-ne-of-none k xs (rw (miss, find_by) at e))
  ]

  pub IsKeyed-append_new :
      (xs : List A) (a : A)
      → All (λ x. key x ≢ key a) xs
      → IsKeyed key xs
      → IsKeyed key (xs ++ a ∷ [])
  IsKeyed-append_new [] a ne h = (tt, tt)
  IsKeyed-append_new (x ∷ xs) a (ne, nes) (apart, h) = (
    All-append (λ y. key y ≢ key x) xs (a ∷ []) apart ((λ e. ne (sym e)), tt),
    IsKeyed-append_new xs a nes h,
  )

  -- Those of the tail, seen from the whole table.
  later_rows :
      (x : A) (rows tail : List A)
      → All (λ r. key r ≢ key x) tail
      → All (λ r. find_by key (key r) rows ≡ some r) tail
      → All (λ r. find_by key (key r) (x ∷ rows) ≡ some r) tail
  unfolding find_by
  later_rows x rows [] apart h = tt
  later_rows x rows (r ∷ tail) (ne, apart) (hr, h) =
      let other : (key x == key r) ≡ false = ground (arith, ne) in
      (rw other hr, later_rows x rows tail apart h)

  -- In a table with distinct keys every row is the one that its key finds.
  pub find_by_self :
      (rows : List A) → IsKeyed key rows → All (λ r. find_by key (key r) rows ≡ some r) rows
  unfolding find_by
  find_by_self [] keyed = tt
  find_by_self (x ∷ rows) (apart, keyed) =
      (rw (==_self (key x)) refl, later_rows x rows rows apart (find_by_self rows keyed))

  All-take {κ} : (P : A → Type κ) (n : ℕ) (xs : List A) → All P xs → All P (take n xs)
  All-take P zero xs h = tt
  All-take P (suc n) [] h = tt
  All-take P (suc n) (x ∷ xs) (hx, h) = (hx, All-take P n xs h)

  -- The first rows of such a table, each of them found in the whole.
  pub IsKeyed-take : (n : ℕ) (xs : List A) → IsKeyed key xs → IsKeyed key (take n xs)
  IsKeyed-take zero xs h = tt
  IsKeyed-take (suc n) [] h = tt
  IsKeyed-take (suc n) (x ∷ xs) (apart, h) =
      (All-take (λ y. key y ≢ key x) n xs apart, IsKeyed-take n xs h)

  pub find_by_self-take :
      (n : ℕ) (rows : List A)
      → IsKeyed key rows
      → All (λ r. find_by key (key r) rows ≡ some r) (take n rows)
  find_by_self-take n rows keyed =
      All-take (λ r. find_by key (key r) rows ≡ some r) n rows (find_by_self rows keyed)
