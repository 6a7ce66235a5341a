-- ===== src/Board/Columns/Moves.antt =====
-- board-column.repository.ts: what moving a column does to the order in which the columns of a board
-- stand.
use mathlib.Core.Option.{some-injective}
use crm_collab.Base.{
  ℕ, zero, suc, ◌<◌, ◌≡◌, ◌≢◌, ◌⊎◌, inl, inr, refl, sym, ◌∙◌, ap, Bool, true, false, some, List, [],
  ◌∷◌, arith, ◌==◌, if◌then◌else◌, All, length, Bool-cases, ==_iff,
}
use crm_collab.Base.Int.{ℤ, pos, neg, ltb_ℤ}
use crm_collab.Base.Positions.{
  get_elem?, insert_at, remove_at, length-remove_at, get_elem?-insert_at_self,
}
use crm_collab.Base.Table.{update_by, find_by-All, find_by}
use crm_collab.Board.Columns.{
  TaskColumn, id_of, shift, shift_between, place, same_position, move_task_column_to_position,
}
use crm_collab.Board.Columns.Order.{
  get_at, Placed, Represents, All-update_where_each, All-imp, All-shift, repositioned, stepped,
  repositioned_twice, making_room, without, forward_position, backward_position, get_at-cases,
  get_at-move_elem, move_elem,
}

-- The four statements of a move, on one row.
module _ (column : TaskColumn) (next now : ℕ) (test back : ℤ → Bool) (f g : ℤ → ℤ) where
  parked : TaskColumn → TaskColumn
  parked c = if c.id == column.id then record c { position = neg (pos 1) } else c

  parked_row :
      (c : TaskColumn)
      → ((parked c).id ≡ c.id)
        × ((parked c).project_id ≡ c.project_id)
        × (c.id ≢ column.id → (parked c).position ≡ c.position)
  unfolding parked
  parked_row c = (ground arith, ground arith, λ ne. ground (arith, ne))

  unparked : TaskColumn → TaskColumn
  unparked c = if c.id == column.id then record c { position = pos next; updated_at = now } else c

  unparked_row :
      (c : TaskColumn)
      → ((unparked c).id ≡ c.id)
        × ((unparked c).project_id ≡ c.project_id)
        × (c.id ≡ column.id → (unparked c).position ≡ pos next)
        × (c.id ≢ column.id → (unparked c).position ≡ c.position)
  unfolding unparked
  unparked_row c = (ground arith, ground arith, (λ e. ground (arith, e)), λ ne. ground (arith, ne))

  abbrev shifted : TaskColumn → TaskColumn
  shifted c =
      repositioned column.project_id back g (repositioned column.project_id test f (parked c))

  moved_row :
      (c : TaskColumn)
      → ((unparked (shifted c)).id ≡ c.id)
        × ((unparked (shifted c)).project_id ≡ c.project_id)
        × (c.id ≡ column.id → (unparked (shifted c)).position ≡ pos next)
        × (c.id ≢ column.id
            → c.project_id ≡ column.project_id
            → (unparked (shifted c)).position ≡ stepped back g (stepped test f c.position))
  moved_row c =
      let (id₁, of₁, kept₁) = parked_row c in
      let (id₂, of₂, steps) = repositioned_twice column.project_id test back f g (parked c) in
      let (id₃, of₃, there, kept₃) = unparked_row (shifted c) in
      let id : (shifted c).id ≡ c.id = id₂ ∙ id₁ in
      (
        id₃ ∙ id,
        of₃ ∙ of₂ ∙ of₁,
        (λ e. there (id ∙ e)),
        λ ne e.
            kept₃ (λ same. ne (sym id ∙ same))
            ∙ steps (of₁ ∙ e)
            ∙ ap (λ z. stepped back g (stepped test f z)) (kept₁ ne),
      )

  All-moved {κ} :
      (P : TaskColumn → Type κ) (rows : List TaskColumn)
      → All (λ c. P (unparked (shifted c))) rows
      → All P (
          update_by id_of column.id
            (λ c. record c { position = pos next; updated_at = now })
            (shift column.project_id back g
              (shift column.project_id test f (place column.id (neg (pos 1)) rows))))
  unfolding parked unparked update_by place
  All-moved P rows h =
      All-update_where_each P (λ c. id_of c == column.id)
        (λ c. record c { position = pos next; updated_at = now }) _
        (All-shift _ column.project_id back g _ (
          All-shift _ column.project_id test f _ (
            All-update_where_each _ (λ c. id_of c == column.id)
              (λ c. record c { position = neg (pos 1) }) rows h)))

insert_at-remove_at :
    (n : ℕ) (order : List ℕ) {id : ℕ}
    → get_elem? order n ≡ some id
    → insert_at n id (remove_at n order) ≡ order
unfolding insert_at remove_at
insert_at-remove_at n [] h = cc
insert_at-remove_at zero (x ∷ order) h = ground (arith, h)
insert_at-remove_at (suc n) (x ∷ order) h = ap (◌∷◌ x) (insert_at-remove_at n order h)

get_elem?-lt : (order : List ℕ) (n : ℕ) {id : ℕ} → get_elem? order n ≡ some id → n < length order
get_elem?-lt [] n h = cc
get_elem?-lt (x ∷ order) zero h = omega arith
get_elem?-lt (x ∷ order) (suc n) h = omega (arith, get_elem?-lt order n h)

module _ (column : TaskColumn) (from next now : ℕ) (order : List ℕ)
    (held : get_elem? order from ≡ some column.id) (inside : next < length order) where
  abbrev new_order : List ℕ
  new_order = move_elem from next column.id order

  Placed-moved :
      (test back : ℤ → Bool) (f g : ℤ → ℤ) (c : TaskColumn)
      → ((n : ℕ)
          → n ≢ from
          → stepped back g (stepped test f (pos n)) ≡ making_room next (without from n))
      → Placed column.project_id order c
      → Placed column.project_id new_order
          (unparked column next now test back f g (shifted column next now test back f g c))
  Placed-moved test back f g c step placed e =
      let (same, of, there, others) = moved_row column next now test back f g c in
      elim (Bool-cases (c.id == column.id)) [
        | inl hit ↦
            let is : c.id ≡ column.id = (==_iff c.id column.id).0 hit in
            ap (get_at new_order) (there is)
            ∙ get_elem?-insert_at_self next column.id (remove_at from order)
                (omega (arith, length-remove_at from order (get_elem?-lt order from held), inside))
            ∙ ap some (sym (same ∙ is))
        | inr miss ↦
            let is_not : c.id ≢ column.id = λ eq. ground (arith, miss, eq) in
            let within : c.project_id ≡ column.project_id = sym of ∙ e in
            let (n, at, stood) = get_at-cases order c.position (placed within) in
            let elsewhere : n ≢ from =
              λ eq. is_not (some-injective _ _ (sym stood ∙ ap (get_elem? order) eq ∙ held)) in
            ap (get_at new_order) (
              others is_not within
              ∙ ap (λ (z : ℤ). stepped back g (stepped test f z)) at
              ∙ step n elsewhere)
            ∙ get_at-move_elem order from next n column.id (get_elem?-lt order from held) inside
                elsewhere
            ∙ stood
            ∙ ap some (sym same)
      ]

compare-cases : (a b : ℕ) → (a < b) ⊎ (a ≡ b) ⊎ (b < a)
compare-cases a b = ground arith

-- Moving a column to a place of the board, other than the first one, takes it out of the order and
-- puts it in at that place; the first place is reached only by the column that stands there.
pub move-Represents :
    (column : TaskColumn) (from next now : ℕ) (order : List ℕ) (rows : List TaskColumn)
    → find_by id_of column.id rows ≡ some column
    → column.position ≡ pos from
    → next < length order
    → (0 < next) ⊎ (from ≡ 0)
    → Represents column.project_id order rows
    → Represents column.project_id
        (move_elem from next column.id order)
        (move_task_column_to_position column next now rows)
unfolding move_task_column_to_position shift_between
move-Represents column from next now order rows found at inside start h =
    let held : get_elem? order from ≡ some column.id =
      ap (get_at order) (sym at)
      ∙ find_by-All id_of (Placed column.project_id order) column.id rows h found refl in
    elim (compare-cases from next) [
      | inl forward ↦
          let moves : same_position column.position (pos next) ≡ false =
            rw at (ground (arith, forward)) in
          let ahead : ltb_ℤ column.position (pos next) ≡ true = rw at (ground (arith, forward)) in
          rw (moves, ahead)
            (All-moved column next now _ _ _ _
              (Placed column.project_id (move_elem from next column.id order)) rows
              (All-imp (Placed column.project_id order) _ rows
                (λ c placed.
                  Placed-moved column from next now order held inside _ _ _ _ c
                    (λ n ne. rw at (forward_position from next n forward ne)) placed)
                h))
      | inr (inl stay) ↦
          let stays : same_position column.position (pos next) ≡ true =
            rw at (ground (arith, stay)) in
          let same : move_elem from next column.id order ≡ order =
            ap (λ (k : ℕ). move_elem from k column.id order) (sym stay)
            ∙ insert_at-remove_at from order held in
          rw (stays, same) h
      | inr (inr backward) ↦
          let moves : same_position column.position (pos next) ≡ false =
            rw at (ground (arith, backward)) in
          let behind : ltb_ℤ column.position (pos next) ≡ false =
            rw at (ground (arith, backward)) in
          let not_first : 0 < next = ground (arith, start, backward) in
          rw (moves, behind)
            (All-moved column next now _ _ _ _
              (Placed column.project_id (move_elem from next column.id order)) rows
              (All-imp (Placed column.project_id order) _ rows
                (λ c placed.
                  Placed-moved column from next now order held inside _ _ _ _ c
                    (λ n ne. rw at (backward_position from next n backward not_first ne)) placed)
                h))
    ]
