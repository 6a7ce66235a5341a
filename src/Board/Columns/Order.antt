-- ===== src/Board/Columns/Order.antt =====
-- board-column.repository.ts: the positions of a board's columns, read as the order in which the
-- columns stand, and what the two statements that renumber them do to that order.
use crm_collab.Base.{
  ℕ, zero, suc, ◌-◌, ◌≤◌, ◌<◌, ◌≡◌, ◌≢◌, inl, inr, refl, ◌∙◌, Bool, false, ◌&&◌, Option, none, some,
  List, [], ◌∷◌, arith, ◌==◌, ltb, leb, if◌then◌else◌, All, length, Bool-cases,
}
use crm_collab.Base.Int.{ℤ, pos, negsuc, ◌-ℤ◌, neg, ltb_ℤ, leb_ℤ}
use crm_collab.Base.Positions.{
  get_elem?, insert_at, remove_at, get_elem?-insert_at_below, get_elem?-insert_at_above,
  get_elem?-remove_at_below, get_elem?-remove_at_above, length-remove_at,
}
use crm_collab.Base.Table.{update_where}
use crm_collab.Board.Columns.{TaskColumn, in_project, shift}

-- The columns of a project in their order, by id: the one at position `n` is the n-th, and no
-- column has another position.
abbrev pub get_at : List ℕ → ℤ → Option ℕ
get_at order (pos n) = get_elem? order n
get_at order (negsuc n) = none

abbrev pub Placed : ℕ → List ℕ → TaskColumn → Type 0
Placed project order c = c.project_id ≡ project → get_at order c.position ≡ some c.id

abbrev pub Represents : ℕ → List ℕ → List TaskColumn → Type 0
Represents project order rows = All (Placed project order) rows

-- An update, row by row.
pub All-update_where_each {κ} :
    (P : TaskColumn → Type κ) (p : TaskColumn → Bool) (f : TaskColumn → TaskColumn)
    (rows : List TaskColumn)
    → All (λ c. P (if p c then f c else c)) rows
    → All P (update_where p f rows)
unfolding update_where
All-update_where_each P p f [] h = tt
All-update_where_each P p f (c ∷ rows) (hc, h) = (hc, All-update_where_each P p f rows h)

pub All-imp {κ μ} :
    (P : TaskColumn → Type κ) (Q : TaskColumn → Type μ) (rows : List TaskColumn)
    → ((c : TaskColumn) → P c → Q c)
    → All P rows
    → All Q rows
All-imp P Q [] f h = tt
All-imp P Q (c ∷ rows) f (hc, h) = (f c hc, All-imp P Q rows f h)

unfoldable pub repositioned : ℕ → (ℤ → Bool) → (ℤ → ℤ) → TaskColumn → TaskColumn
repositioned project test f c =
    if in_project project c && test c.position then record c { position = f c.position } else c

pub All-shift {κ} :
    (P : TaskColumn → Type κ) (project : ℕ) (test : ℤ → Bool) (f : ℤ → ℤ) (rows : List TaskColumn)
    → All (λ c. P (repositioned project test f c)) rows
    → All P (shift project test f rows)
unfolding shift repositioned
All-shift P project test f rows h =
    All-update_where_each P (λ c. in_project project c && test c.position)
      (λ c. record c { position = f c.position }) rows h

-- What making room does to a position.
pub room_position :
    (position n : ℕ)
    → let step =
        λ (p : ℤ). if leb_ℤ (pos position) p && leb_ℤ (pos 0) p then neg p -ℤ pos 1 else p in
      let back = λ (p : ℤ). if ltb_ℤ p (pos 0) then neg p else p in
      back (step (pos n)) ≡ (if leb position n then pos (suc n) else pos n)
room_position position n = ground arith

-- The index that a column has when another one is taken out of the order.
abbrev pub without : ℕ → ℕ → ℕ
without from n = if ltb from n then n - 1 else n

-- The place of an index when a column is put in.
abbrev pub making_room : ℕ → ℕ → ℤ
making_room next n = if leb next n then pos (suc n) else pos n

pub forward_position :
    (from next n : ℕ)
    → from < next
    → n ≢ from
    → let step =
        λ (p : ℤ). if ltb_ℤ (pos from) p && leb_ℤ p (pos next) then neg p -ℤ pos 1 else p in
      let back = λ (p : ℤ). if ltb_ℤ p (neg (pos 1)) then neg p -ℤ pos 2 else p in
      back (step (pos n)) ≡ making_room next (without from n)
forward_position from next n lt ne = ground arith

pub backward_position :
    (from next n : ℕ)
    → next < from
    → 0 < next
    → n ≢ from
    → let step =
        λ (p : ℤ). if leb_ℤ (pos next) p && ltb_ℤ p (pos from) then neg p -ℤ pos 1 else p in
      let back = λ (p : ℤ). if ltb_ℤ p (neg (pos 1)) then neg p else p in
      back (step (pos n)) ≡ making_room next (without from n)
backward_position from next n lt start ne = ground arith

-- The same on the order.
pub get_at-insert_at :
    (order : List ℕ) (k n id : ℕ)
    → k ≤ length order
    → get_at (insert_at k id order) (making_room k n) ≡ get_elem? order n
get_at-insert_at order k n id le = elim (Bool-cases (leb k n)) [
  | inl above ↦ rw above (get_elem?-insert_at_above k n id order (ground (arith, above)) le)
  | inr below ↦ rw below (get_elem?-insert_at_below k n id order (ground (arith, below)) le)
]

suc-sub-one : (n : ℕ) → suc n - 1 ≡ n
suc-sub-one n = omega arith

get_elem?-without :
    (order : List ℕ) (from n : ℕ)
    → n ≢ from
    → get_elem? (remove_at from order) (without from n) ≡ get_elem? order n
get_elem?-without order from zero ne =
    let first : ltb from 0 ≡ false = ground arith in
    rw first (get_elem?-remove_at_below from 0 order (ground arith))
get_elem?-without order from (suc n) ne = elim (Bool-cases (ltb from (suc n))) [
  | inl above ↦
      rw (above, suc-sub-one n) (get_elem?-remove_at_above from n order (ground (arith, above)))
  | inr below ↦ rw below (get_elem?-remove_at_below from (suc n) order (ground (arith, below)))
]

-- A column is taken out of the order and put in again.
abbrev pub move_elem : ℕ → ℕ → ℕ → List ℕ → List ℕ
move_elem from next id order = insert_at next id (remove_at from order)

pub get_at-move_elem :
    (order : List ℕ) (from next n id : ℕ)
    → from < length order
    → next < length order
    → n ≢ from
    → get_at (move_elem from next id order) (making_room next (without from n)) ≡ get_elem? order n
get_at-move_elem order from next n id here there ne =
    get_at-insert_at (remove_at from order) next (without from n) id
      (omega (arith, length-remove_at from order here))
    ∙ get_elem?-without order from n ne

pub get_at-cases :
    (order : List ℕ) (z : ℤ) {id : ℕ}
    → get_at order z ≡ some id
    → (n : ℕ) × (z ≡ pos n) × (get_elem? order n ≡ some id)
get_at-cases order (pos n) h = (n, refl, h)
get_at-cases order (negsuc n) h = cc

abbrev pub stepped : (ℤ → Bool) → (ℤ → ℤ) → ℤ → ℤ
stepped test f p = if test p then f p else p

-- Two such statements, on a column of the project and on any other.
pub repositioned_twice :
    (project : ℕ) (test back : ℤ → Bool) (f g : ℤ → ℤ) (c : TaskColumn)
    → let d = repositioned project back g (repositioned project test f c) in
      (d.id ≡ c.id)
      × (d.project_id ≡ c.project_id)
      × (c.project_id ≡ project → d.position ≡ stepped back g (stepped test f c.position))
unfolding repositioned
repositioned_twice project test back f g c = elim (Bool-cases (c.project_id == project)) [
  | inl within ↦ (ground (arith, within), ground (arith, within), λ e. ground (arith, within))
  | inr outside ↦
      (ground (arith, outside), ground (arith, outside), λ e. ground (arith, outside, e))
]
