-- ===== src/Board/Columns/Reorder.antt =====
-- board-column.repository.ts: what creating and moving a column do to the order in which the columns
-- of a board stand.
use mathlib.Core.Path.{subst}
use crm_collab.Base.{
  ℕ, ◌≤◌, ◌≡◌, sym, ◌∙◌, ap, ◌&&◌, not, some, List, [], ◌∷◌, All, length, find, is_some,
}
use crm_collab.Base.Outcome.{ok, after_require, ok-injective}
use crm_collab.Base.Int.{ℤ, pos, ◌-ℤ◌, neg, ltb_ℤ, leb_ℤ}
use crm_collab.Base.Positions.{insert_at, get_elem?-insert_at_self}
use crm_collab.Base.Table.{All-append}
use crm_collab.Board.Model.{same_key}
use crm_collab.Board.Columns.{
  TaskColumn, in_project, make_room, create_task_column_at_position, insert_column,
}
use crm_collab.Board.Columns.Order.{
  get_at, Placed, Represents, All-imp, All-shift, repositioned, stepped, repositioned_twice,
  making_room, room_position, get_at-cases, get_at-insert_at,
}

module _ (project position id : ℕ) (order : List ℕ) where
  abbrev roomed : TaskColumn → TaskColumn
  roomed c =
      repositioned project (λ p. ltb_ℤ p (pos 0)) (λ p. neg p)
        (repositioned project (λ p. leb_ℤ (pos position) p && leb_ℤ (pos 0) p) (λ p. neg p -ℤ pos 1)
          c)

  Placed-roomed :
      (c : TaskColumn)
      → position ≤ length order
      → Placed project order c
      → Placed project (insert_at position id order) (roomed c)
  Placed-roomed c le placed e =
      let (same, of, moved) =
        repositioned_twice project (λ p. leb_ℤ (pos position) p && leb_ℤ (pos 0) p)
          (λ p. ltb_ℤ p (pos 0)) (λ p. neg p -ℤ pos 1) (λ p. neg p) c in
      let within : c.project_id ≡ project = sym of ∙ e in
      let (n, at, held) = get_at-cases order c.position (placed within) in
      let there : (roomed c).position ≡ making_room position n =
        moved within
        ∙ ap
            (λ (z : ℤ).
              stepped (λ p. ltb_ℤ p (pos 0)) (λ p. neg p)
                (stepped (λ p. leb_ℤ (pos position) p && leb_ℤ (pos 0) p) (λ p. neg p -ℤ pos 1) z))
            at
        ∙ room_position position n in
      ap (get_at (insert_at position id order)) there
      ∙ get_at-insert_at order position n id le
      ∙ held
      ∙ ap some (sym same)

All-make_room :
    (project position id : ℕ) (order : List ℕ) (rows : List TaskColumn)
    → position ≤ length order
    → Represents project order rows
    → Represents project (insert_at position id order) (make_room project position rows)
unfolding make_room
All-make_room project position id order rows le h =
    All-shift (Placed project (insert_at position id order)) project _ _ _ (
      All-shift _ project _ _ rows (
        All-imp (Placed project order) _ rows
          (λ c placed. Placed-roomed project position id order c le placed) h))

-- A column that is created at a position not beyond the last one stands there in the order, and
-- the others keep their order.
pub create-Represents :
    (position : ℕ) (row : TaskColumn) (order : List ℕ) (rows : List TaskColumn)
    {after : List TaskColumn}
    → row.position ≡ pos position
    → position ≤ length order
    → Represents row.project_id order rows
    → create_task_column_at_position position row rows ≡ ok after
    → Represents row.project_id (insert_at position row.id order) after
unfolding create_task_column_at_position insert_column make_room
create-Represents position row order rows at le h done =
    let roomy : List TaskColumn = make_room row.project_id position rows in
    after_require
      (not (is_some (find (λ c. in_project row.project_id c && same_key c.key row.key) roomy))) _ _
      done
      (λ free made.
        subst (All (Placed row.project_id (insert_at position row.id order)))
          (ok-injective _ _ made)
          (All-append (Placed row.project_id (insert_at position row.id order)) roomy (row ∷ [])
            (All-make_room row.project_id position row.id order rows le h)
            (
              (λ e.
                  ap (get_at (insert_at position row.id order)) at
                  ∙ get_elem?-insert_at_self position row.id order le),
              tt,
            )))
