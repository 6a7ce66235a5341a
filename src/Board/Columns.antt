-- ===== src/Board/Columns.antt =====
-- board-column.repository.ts and board-column.service.ts: the columns of a board and their order.
-- A column here has its position, which the rest of the board does not read; positions that are
-- asked for are natural numbers, as the schema of the request says.
pub mod Order
pub mod Reorder
pub mod Moves
use crm_collab.Base.{
  ℕ, ◌+◌, Bool, true, false, ◌&&◌, not, Option, none, some, List, [], ◌∷◌, ◌++◌, ◌==◌, find, select,
  get_or, is_some, if◌then◌else◌,
}
use crm_collab.Base.Text.{Text, codes}
use crm_collab.Base.Int.{ℤ, pos, ◌-ℤ◌, neg, ltb_ℤ, leb_ℤ}
use crm_collab.Base.Table.{find_by, update_by, update_where}
use crm_collab.Base.Outcome.{Outcome, ok, ◌>>=◌, ◌>>◌, require, found}
use crm_collab.Base.Outcome.{not_found, forbidden, refused}
use crm_collab.Access.{Actor, AccessRepo, is_admin, can_manage_project, assert_project_access}
use crm_collab.Board.Model.{
  ColumnKey, pending, doing, internal_review, client_approval, blocked, done, same_key,
}

pub record TaskColumn : Type 0 where
  pub id : ℕ
  pub project_id : ℕ
  pub key : ColumnKey
  pub title : Text
  pub position : ℤ
  pub is_client_visible : Bool
  pub is_default : Bool
  pub updated_at : ℕ

abbrev pub id_of : TaskColumn → ℕ
id_of c = c.id

pub data ColumnAction : Type 0 where
  project_column_created project_column_updated : ColumnAction

pub record ColumnAudit : Type 0 where
  pub actor_sub : ℕ
  pub action : ColumnAction
  pub resource_id : ℕ

pub record ColumnsDb : Type 0 where
  pub columns : List TaskColumn
  pub audit : List ColumnAudit
  pub next_id : ℕ

abbrev pub in_project : ℕ → TaskColumn → Bool
in_project project c = c.project_id == project

-- `set position = f(position)` where the column is of the project and its position passes the test.
unfoldable pub shift : ℕ → (ℤ → Bool) → (ℤ → ℤ) → List TaskColumn → List TaskColumn
unfolding update_where
shift project test f rows =
    update_where (λ c. in_project project c && test c.position)
      (λ c. record c { position = f c.position }) rows

-- The two statements that make room, before the insertion.
unfoldable pub make_room : ℕ → ℕ → List TaskColumn → List TaskColumn
unfolding shift
make_room project position rows =
    shift project (λ p. ltb_ℤ p (pos 0)) (λ p. neg p)
      (shift project (λ p. leb_ℤ (pos position) p && leb_ℤ (pos 0) p) (λ p. neg p -ℤ pos 1) rows)

-- The unique index on the project and the key.
unfoldable pub insert_column : TaskColumn → List TaskColumn → Outcome (List TaskColumn)
unfolding same_key
insert_column row rows = do
  require (not (is_some (find (λ c. in_project row.project_id c && same_key c.key row.key) rows)))
      refused
  ok (rows ++ row ∷ [])

unfoldable pub create_task_column_at_position :
    ℕ → TaskColumn → List TaskColumn → Outcome (List TaskColumn)
unfolding make_room insert_column
create_task_column_at_position position row rows =
    insert_column row (make_room row.project_id position rows)

-- `update … where id = …` on the position alone.
unfoldable pub place : ℕ → ℤ → List TaskColumn → List TaskColumn
unfolding update_by
place id position rows = update_by id_of id (λ c. record c { position = position }) rows

-- The first statement parks the column at -1, the next two move those between the two positions.
unfoldable pub shift_between : TaskColumn → ℕ → List TaskColumn → List TaskColumn
unfolding shift
shift_between column next rows =
    if ltb_ℤ column.position (pos next)
    then shift column.project_id (λ p. ltb_ℤ p (neg (pos 1))) (λ p. neg p -ℤ pos 2)
        (shift column.project_id (λ p. ltb_ℤ column.position p && leb_ℤ p (pos next))
          (λ p. neg p -ℤ pos 1) rows)
    else shift column.project_id (λ p. ltb_ℤ p (neg (pos 1))) (λ p. neg p)
        (shift column.project_id (λ p. leb_ℤ (pos next) p && ltb_ℤ p column.position)
          (λ p. neg p -ℤ pos 1) rows)

abbrev pub same_position : ℤ → ℤ → Bool
same_position a b = leb_ℤ a b && leb_ℤ b a

unfoldable pub move_task_column_to_position : TaskColumn → ℕ → ℕ → List TaskColumn → List TaskColumn
unfolding place shift_between
move_task_column_to_position column next now rows =
    if same_position column.position (pos next)
    then rows
    else update_by id_of column.id (λ c. record c { position = pos next; updated_at = now })
        (shift_between column next (place column.id (neg (pos 1)) rows))

pub record ColumnPatch : Type 0 where
  pub title : Option Text
  pub position : Option ℕ
  pub is_client_visible : Option Bool

-- The patch without its position.
unfoldable pub update_task_column_by_id : ℕ → ColumnPatch → ℕ → List TaskColumn → List TaskColumn
unfolding update_by
update_task_column_by_id id patch now rows =
    update_by id_of id
      (λ c. record c {
        title = get_or patch.title c.title;
        is_client_visible = get_or patch.is_client_visible c.is_client_visible;
        updated_at = now;
      })
      rows

pub record NewColumn : Type 0 where
  pub key : ColumnKey
  pub title : Text
  pub position : ℕ
  pub is_client_visible : Bool

unfoldable pub create_task_column :
    AccessRepo → ColumnsDb → Actor → ℕ → NewColumn → ℕ → Outcome (TaskColumn × ColumnsDb)
unfolding create_task_column_at_position
create_task_column repo db actor project_id payload now = do
  access ← assert_project_access repo actor project_id
  require (is_admin actor.role) forbidden
  require (can_manage_project actor.role (some access.member_role)) forbidden
  let row : TaskColumn = record {
    id = db.next_id;
    project_id = project_id;
    key = payload.key;
    title = payload.title;
    position = pos payload.position;
    is_client_visible = payload.is_client_visible;
    is_default = false;
    updated_at = now;
  }
  rows ← create_task_column_at_position payload.position row db.columns
  ok (
    row,
    record {
      columns = rows;
      audit =
          db.audit
          ++ record { actor_sub = actor.sub; action = project_column_created; resource_id = row.id }
            ∷ [];
      next_id = db.next_id + 1;
    },
  )

unfoldable pub moved_if : TaskColumn → Option ℕ → ℕ → List TaskColumn → List TaskColumn
unfolding move_task_column_to_position
moved_if column none now rows = rows
moved_if column (some next) now rows = move_task_column_to_position column next now rows

unfoldable pub update_task_column :
    AccessRepo → ColumnsDb → Actor → ℕ → ColumnPatch → ℕ → Outcome (TaskColumn × ColumnsDb)
unfolding moved_if update_task_column_by_id find_by
update_task_column repo db actor column_id patch now = do
  column ← found (find_by id_of column_id db.columns) not_found
  access ← assert_project_access repo actor column.project_id
  require (is_admin actor.role) forbidden
  require (can_manage_project actor.role (some access.member_role)) forbidden
  let rows =
      update_task_column_by_id column_id patch now (moved_if column patch.position now db.columns)
  row ← found (find_by id_of column_id rows) not_found
  ok (
    row,
    record db {
      columns = rows;
      audit =
          db.audit
          ++ record {
            actor_sub = actor.sub;
            action = project_column_updated;
            resource_id = column_id;
          }
            ∷ [];
    },
  )

-- shared/constants.ts, `DEFAULT_PROJECT_COLUMNS`.
unfoldable pub default_columns : List NewColumn
default_columns =
    record { key = pending; title = codes "Pendiente"; position = 0; is_client_visible = false }
    ∷ record { key = doing; title = codes "En Curso"; position = 1; is_client_visible = true }
    ∷ record {
      key = internal_review;
      title = codes "En Revisión Interna";
      position = 2;
      is_client_visible = false;
    }
    ∷ record {
      key = client_approval;
      title = codes "En Aprobación";
      position = 3;
      is_client_visible = true;
    }
    ∷ record { key = blocked; title = codes "Bloqueado"; position = 4; is_client_visible = true }
    ∷ record { key = done; title = codes "Terminado"; position = 5; is_client_visible = true }
    ∷ []

-- One insertion of all rows, so the new project's columns get the next ids in order.
columns_from : ℕ → ℕ → ℕ → List NewColumn → List TaskColumn
columns_from project_id id now [] = []
columns_from project_id id now (c ∷ cs) =
    record {
      id = id;
      project_id = project_id;
      key = c.key;
      title = c.title;
      position = pos c.position;
      is_client_visible = c.is_client_visible;
      is_default = true;
      updated_at = now;
    }
    ∷ columns_from project_id (id + 1) now cs

unfoldable pub create_default_task_columns : ℕ → ℕ → ℕ → List TaskColumn
unfolding columns_from default_columns
create_default_task_columns project_id id now = columns_from project_id id now default_columns
