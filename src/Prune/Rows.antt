-- ===== src/Prune/Rows.antt =====
-- Rows with distinct keys: what is left of them, and how many are gone.
use crm_collab.Base.{
  ℕ, zero, suc, ◌+◌, ◌≤◌, ◌<◌, ◌≡◌, ◌≢◌, refl, sym, ◌∙◌, ap, inl, inr, Bool, true, false, not, List,
  [], ◌∷◌, map, arith, ◌==◌, leb, ==_iff, ==_self, Bool-cases, select, take, has, length, All,
}
use crm_collab.Base.Table.{IsKeyed, All-select, All-map_holds}
use crm_collab.Base.Sort.{sort_by, insert_by, All-sort_by, All-insert_by}

module _ {ℓ} {A : Type ℓ} where
  pub select-eq :
      (p q : A → Bool) (xs : List A) → All (λ x. p x ≡ q x) xs → select p xs ≡ select q xs
  select-eq p q [] h = refl
  select-eq p q (x ∷ xs) (e, h) = ground (arith, e, select-eq p q xs h)

  pub select-select :
      (p q : A → Bool) (xs : List A)
      → All (λ x. q x ≡ true → p x ≡ true) xs
      → select q (select p xs) ≡ select q xs
  select-select p q [] h = refl
  select-select p q (x ∷ xs) (e, h) = ground (arith, e, select-select p q xs h)

  pub All-take {κ} : (P : A → Type κ) (n : ℕ) (xs : List A) → All P xs → All P (take n xs)
  All-take P zero xs h = tt
  All-take P (suc n) [] h = tt
  All-take P (suc n) (x ∷ xs) (hx, h) = (hx, All-take P n xs h)

  pub take_all : (n : ℕ) (xs : List A) → length (take n xs) < n → take n xs ≡ xs
  take_all zero xs lt = absurd (omega (arith, lt))
  take_all (suc n) [] lt = refl
  take_all (suc n) (x ∷ xs) lt = ap (λ ys. x ∷ ys) (take_all n xs (omega (arith, lt)))

  pub length-take-le : (n : ℕ) (xs : List A) → length (take n xs) ≤ n
  length-take-le zero xs = omega arith
  length-take-le (suc n) [] = omega arith
  length-take-le (suc n) (x ∷ xs) = omega (arith, length-take-le n xs)

  pub All-both {κ μ ν} :
      {P : A → Type κ} {Q : A → Type μ} {R : A → Type ν} (xs : List A)
      → ((x : A) → P x → Q x → R x)
      → All P xs
      → All Q xs
      → All R xs
  All-both [] f p q = tt
  All-both (x ∷ xs) f (px, p) (qx, q) = (f x px qx, All-both xs f p q)

  select_all : (p : A → Bool) (xs : List A) → All (λ x. p x ≡ true) xs → select p xs ≡ xs
  select_all p [] h = refl
  select_all p (x ∷ xs) (e, h) = rw e (ap (λ ys. x ∷ ys) (select_all p xs h))

  all_true : (xs : List A) → All (λ x. ◌≡◌ {A = Bool} true true) xs
  all_true [] = tt
  all_true (x ∷ xs) = (refl, all_true xs)

module _ {ℓ} {A : Type ℓ} (key : A → ℕ) where
  pub IsKeyed-select : (p : A → Bool) (xs : List A) → IsKeyed key xs → IsKeyed key (select p xs)
  IsKeyed-select p [] h = tt
  IsKeyed-select p (x ∷ xs) (apart, h) = elim (Bool-cases (p x)) [
    | inl e ↦ rw e (All-select (λ y. key y ≢ key x) p xs apart, IsKeyed-select p xs h)
    | inr e ↦ rw e (IsKeyed-select p xs h)
  ]

  pub IsKeyed-take : (n : ℕ) (xs : List A) → IsKeyed key xs → IsKeyed key (take n xs)
  IsKeyed-take zero xs h = tt
  IsKeyed-take (suc n) [] h = tt
  IsKeyed-take (suc n) (x ∷ xs) (apart, h) =
      (All-take (λ y. key y ≢ key x) n xs apart, IsKeyed-take n xs h)

  module _ (at : A → ℕ) where
    IsKeyed-insert_by :
        (x : A) (xs : List A)
        → All (λ y. key y ≢ key x) xs
        → IsKeyed key xs
        → IsKeyed key (insert_by at x xs)
    unfolding insert_by
    IsKeyed-insert_by x [] apart h = (tt, tt)
    IsKeyed-insert_by x (y ∷ ys) (ne, apart) (apart_y, h) = elim (Bool-cases (leb (at x) (at y))) [
      | inl e ↦ rw e ((ne, apart), (apart_y, h))
      | inr e ↦ rw e (
        All-insert_by at (λ z. key z ≢ key y) x ys (λ same. ne (sym same)) apart_y,
        IsKeyed-insert_by x ys apart h,
      )
    ]

    pub IsKeyed-sort_by : (xs : List A) → IsKeyed key xs → IsKeyed key (sort_by at xs)
    unfolding sort_by
    IsKeyed-sort_by [] h = tt
    IsKeyed-sort_by (x ∷ xs) (apart, h) =
        IsKeyed-insert_by x (sort_by at xs) (All-sort_by at (λ y. key y ≢ key x) xs apart)
          (IsKeyed-sort_by xs h)

  -- Whether a key is among those of some rows.
  abbrev pub holds : List A → ℕ → Bool
  holds xs a = has (map key xs) a

  holds_other : (k : ℕ) (xs : List A) → All (λ y. key y ≢ k) xs → holds xs k ≡ false
  holds_other k [] h = refl
  holds_other k (x ∷ xs) (n, h) = ground (arith, n, holds_other k xs h)

  pub holds_self : (xs : List A) → All (λ x. holds xs (key x) ≡ true) xs
  holds_self [] = tt
  holds_self (x ∷ xs) = (
    ground (arith, ==_self (key x)),
    All-map_holds (λ y. holds xs (key y) ≡ true) (λ y. holds (x ∷ xs) (key y) ≡ true) xs
        (λ y e. ground (arith, e)) (holds_self xs),
  )

  -- The rows that a test selects are recognised by their keys.
  pub holds-select :
      (p : A → Bool) (xs : List A)
      → IsKeyed key xs
      → All (λ x. holds (select p xs) (key x) ≡ p x) xs
  holds-select p [] h = tt
  holds-select p (x ∷ xs) (apart, h) =
      let unseen = holds_other (key x) (select p xs) (All-select (λ y. key y ≢ key x) p xs apart) in
      (
        ground (arith, ==_self (key x), unseen),
        All-both xs (λ y e n. ground (arith, e, n)) (holds-select p xs h) apart,
      )

  -- Without one of its keys, a table is one row shorter.
  drop_one :
      (k : ℕ) (xs : List A)
      → IsKeyed key xs
      → holds xs k ≡ true
      → length (select (λ r. not (k == key r)) xs) + 1 ≡ length xs
  drop_one k [] h e = cc
  drop_one k (x ∷ xs) (apart, h) e = elim (Bool-cases (key x == k)) [
    | inl same ↦
        let is_k : key x ≡ k = (==_iff (key x) k).0 same in
        let rest : select (λ r. not (k == key r)) xs ≡ xs =
          select_all (λ r. not (k == key r)) xs
            (All-map_holds (λ y. key y ≢ key x) (λ y. not (k == key y) ≡ true) xs
              (λ y n. ground (arith, n, is_k)) apart) in
        ground (arith, is_k, ==_self k, ap length rest)
    | inr other ↦ ground (arith, other, drop_one k xs h, e)
  ]

  -- The keys of some rows, looked up among those that are left.
  holds-select-not :
      (k : ℕ) (ids : List ℕ) (xs : List A)
      → has ids k ≡ false
      → holds xs k ≡ true
      → holds (select (λ r. not (has ids (key r))) xs) k ≡ true
  holds-select-not k ids [] fresh e = cc
  holds-select-not k ids (x ∷ xs) fresh e = elim (Bool-cases (key x == k)) [
    | inl same ↦
        let kept : has ids (key x) ≡ false = ap (has ids) ((==_iff (key x) k).0 same) ∙ fresh in
        ground (arith, same, kept)
    | inr other ↦ let rest = holds-select-not k ids xs fresh in ground (arith, other, e, rest)
  ]

  select-not-cons :
      (k : ℕ) (ids : List ℕ) (xs : List A)
      → select (λ r. not (has (k ∷ ids) (key r))) xs
        ≡ select (λ r. not (k == key r)) (select (λ r. not (has ids (key r))) xs)
  select-not-cons k ids [] = refl
  select-not-cons k ids (x ∷ xs) = ground (arith, select-not-cons k ids xs)

  -- Rows that are taken out of a table by their keys, and the rows that are left.
  pub length-without :
      (gone xs : List A)
      → IsKeyed key gone
      → IsKeyed key xs
      → All (λ x. holds xs (key x) ≡ true) gone
      → length (select (λ r. not (holds gone (key r))) xs) + length gone ≡ length xs
  length-without [] xs g h there =
      omega (arith, ap length (select_all (λ r. true) xs (all_true xs)))
  length-without (c ∷ cs) xs (apart, g) h (e, there) =
      let ids = map key cs in
      let rest = select (λ r. not (has ids (key r))) xs in
      let one =
        drop_one (key c) rest (IsKeyed-select (λ r. not (has ids (key r))) xs h)
          (holds-select-not (key c) ids xs (holds_other (key c) cs apart) e) in
      omega (arith, one, length-without cs xs g h there, ap length (select-not-cons (key c) ids xs))
