-- ===== src/Contract/Numbers.antt =====
-- contract.repository.ts, getNextAmendmentNumber: the numbers of a contract's amendments.
use Prim.Native.Nat.{max}
use mathlib.Core.Path.{subst}
use crm_collab.Base.{
  ℕ, zero, suc, ◌+◌, ◌≡◌, refl, sym, ◌∙◌, ap, inl, inr, Bool, List, [], ◌∷◌, ◌++◌, map, arith, ◌==◌,
  if◌then◌else◌, Bool-cases, ==_iff, select, length, length-append,
}
use crm_collab.Base.Table.{update_where, update_by}
use crm_collab.Contract.Model.{Amendment, ContractDb}
use crm_collab.Contract.Repository.{max_number, get_next_amendment_number}
use crm_collab.Contract.Template.{Formats}
use crm_collab.Contract.Lifecycle.{Reaches, here, later}
use crm_collab.Contract.Rows.{
  Rows, Change, sends, signs, Rows-Step, kept_rows, appended_row, changed_row,
}

-- The numbers of a contract's amendments, in the order in which they were made.
abbrev pub numbers_of : ℕ → List Amendment → List ℕ
numbers_of k xs = map (λ (a : Amendment). a.amendment_number) (select (λ a. a.contract_id == k) xs)

-- 1, 2, … up to a number.
abbrev pub count_to : ℕ → List ℕ
count_to zero = []
count_to (suc n) = count_to n ++ suc n ∷ []

maximum : List ℕ → ℕ
maximum [] = 0
maximum (n ∷ ns) = max (maximum ns) n

max_number_lem : (k : ℕ) (xs : List Amendment) → max_number k xs ≡ maximum (numbers_of k xs)
unfolding max_number maximum
max_number_lem k [] = refl
max_number_lem k (x ∷ xs) = ground (arith, max_number_lem k xs)

maximum-append : (xs : List ℕ) (n : ℕ) → maximum (xs ++ n ∷ []) ≡ max (maximum xs) n
unfolding maximum
maximum-append [] n = omega arith
maximum-append (x ∷ xs) n = omega (arith, maximum-append xs n)

maximum-count_to : (n : ℕ) → maximum (count_to n) ≡ n
unfolding maximum
maximum-count_to zero = refl
maximum-count_to (suc n) = omega (arith, maximum-append (count_to n) (suc n), maximum-count_to n)

length-count_to : (n : ℕ) → length (count_to n) ≡ n
length-count_to zero = refl
length-count_to (suc n) = omega (arith, length-append (count_to n) (suc n ∷ []), length-count_to n)

numbers_of-append :
    (k : ℕ) (xs : List Amendment) (a : Amendment)
    → numbers_of k (xs ++ a ∷ [])
      ≡ (if a.contract_id == k then numbers_of k xs ++ a.amendment_number ∷ [] else numbers_of k xs)
numbers_of-append k [] a = ground arith
numbers_of-append k (x ∷ xs) a = ground (arith, numbers_of-append k xs a)

numbers_of-update_where :
    (k : ℕ) (p : Amendment → Bool) (g : Amendment → Amendment) (xs : List Amendment)
    → ((a : Amendment)
        → ((g a).contract_id ≡ a.contract_id) × ((g a).amendment_number ≡ a.amendment_number))
    → numbers_of k (update_where p g xs) ≡ numbers_of k xs
unfolding update_where
numbers_of-update_where k p g [] keep = refl
numbers_of-update_where k p g (x ∷ xs) keep =
    ground (arith, keep x, numbers_of-update_where k p g xs keep)

-- A contract's amendments are numbered 1, 2, … without a gap.
abbrev pub CountsUp : ℕ → List Amendment → Type 0
CountsUp k xs = numbers_of k xs ≡ count_to (length (numbers_of k xs))

CountsUp-append :
    (k : ℕ) (xs : List Amendment) (a : Amendment)
    → (a.contract_id ≡ k → a.amendment_number ≡ max_number k xs + 1)
    → CountsUp k xs
    → CountsUp k (xs ++ a ∷ [])
CountsUp-append k xs a next h = elim (Bool-cases (a.contract_id == k)) [
  | inl same ↦
      let numbers = numbers_of k xs in
      let after : numbers_of k (xs ++ a ∷ []) ≡ numbers ++ a.amendment_number ∷ [] =
        rw same at (numbers_of-append k xs a) in
      let top : maximum numbers ≡ length numbers =
        ap maximum h ∙ maximum-count_to (length numbers) in
      let number : a.amendment_number ≡ suc (length numbers) =
        omega (arith, next ((==_iff a.contract_id k).0 same), max_number_lem k xs, top) in
      let size : length (numbers_of k (xs ++ a ∷ [])) ≡ suc (length numbers) =
        omega (arith, ap length after, length-append numbers (a.amendment_number ∷ [])) in
      after
      ∙ ap (λ n. numbers ++ n ∷ []) number
      ∙ ap (λ (l : List ℕ). l ++ suc (length numbers) ∷ []) h
      ∙ ap count_to (sym size)
  | inr other ↦
      let after : numbers_of k (xs ++ a ∷ []) ≡ numbers_of k xs =
        rw other at (numbers_of-append k xs a) in
      after ∙ h ∙ ap (λ (l : List ℕ). count_to (length l)) (sym after)
]

-- Neither update of an amendment touches its contract or its number.
Change-keeps :
    (f : Formats) (before : Amendment) {g : Amendment → Amendment}
    → Change f before g
    → (a : Amendment)
    → ((g a).contract_id ≡ a.contract_id) × ((g a).amendment_number ≡ a.amendment_number)
Change-keeps f before (sends snapshot now was) a = (refl, refl)
Change-keeps f before (signs sub signer now was) a = (refl, refl)

CountsUp-Rows :
    (f : Formats) (k : ℕ) (db db' : ContractDb)
    → Rows f db db'
    → CountsUp k db.amendments
    → CountsUp k db'.amendments
unfolding update_by get_next_amendment_number
CountsUp-Rows f k db db' (kept_rows (same, ids)) h = subst (CountsUp k) (sym same) h
CountsUp-Rows f k db db' (appended_row project_id sub now a new) h =
    subst (CountsUp k) (sym new.amendments) (
      CountsUp-append k db.amendments a
        (λ same.
          ap (λ (r : Amendment). r.amendment_number) new.row
          ∙ ap (λ n. max_number n db.amendments + 1)
              (sym (ap (λ (r : Amendment). r.contract_id) new.row) ∙ same))
        h)
CountsUp-Rows f k db db' (changed_row project_id id a g c change) h =
    let kept =
      numbers_of-update_where k (λ x. x.id == id) g db.amendments
        (Change-keeps f c.before change) in
    subst (CountsUp k) (sym c.amendments)
      (kept ∙ h ∙ ap (λ (l : List ℕ). count_to (length l)) (sym kept))

-- Whatever operations follow, if a contract's amendments are numbered 1, 2, … in the order in which
-- they were made, with no gap and no repetition, then they still are.
pub amendments_count_up :
    (f : Formats) (k : ℕ) {db db' : ContractDb}
    → Reaches f db db'
    → CountsUp k db.amendments
    → CountsUp k db'.amendments
amendments_count_up f k here h = h
amendments_count_up f k (later mid reached step) h =
    CountsUp-Rows f k mid _ (Rows-Step f step) (amendments_count_up f k reached h)
