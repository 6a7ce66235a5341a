-- ===== src/Examples/Requests.antt =====
-- The theorems on the order of columns and on change requests: a board with four columns, of which
-- one is moved, and a project whose client asks for changes.
use crm_collab.Base.{ℕ, ◌≡◌, inl, refl, true, none, some, List, [], ◌∷◌, arith, All}
use crm_collab.Base.Int.{pos}
use crm_collab.Base.Table.{find_by}
use crm_collab.Base.Positions.{insert_at, remove_at}
use crm_collab.Base.Outcome.{ok}
use crm_collab.Access.{assert_project_access}
use crm_collab.Board.Model.{ColumnKey, pending, doing, blocked, done, shipped}
use crm_collab.Board.Columns.{
  TaskColumn, id_of, move_task_column_to_position, create_task_column_at_position,
}
use crm_collab.Board.Columns.Order.{Represents, move_elem}
use crm_collab.Board.Columns.Reorder.{create-Represents}
use crm_collab.Board.Columns.Moves.{move-Represents}
use crm_collab.Changes.{
  minor, rejected, approved, ChangeRequest, ChangeDb, new_request, MinorPayload, FormalPayload,
}
use crm_collab.Changes.Service.{
  create_minor_change_request, create_formal_change_request, resolve_change_request,
}
use crm_collab.Changes.Steps.{Reaches, here, later, minor_requested, formal_requested, resolved}
use crm_collab.Changes.OneOpen.{AreApart, one_open_minor}
use crm_collab.Changes.Logged.{LoggedIn, is_logged, approved_are_logged}
use crm_collab.Examples.Data.{repo, boss, buyer, draft_task, value_of}

abbrev column : ℕ → ColumnKey → ℕ → TaskColumn
column id key position = record {
  id = id;
  project_id = 7;
  key = key;
  title = [];
  position = pos position;
  is_client_visible = true;
  is_default = true;
  updated_at = 0;
}

abbrev lanes : List TaskColumn
lanes = column 51 pending 0 ∷ column 52 doing 1 ∷ column 53 blocked 2 ∷ column 54 done 3 ∷ []

abbrev lanes_order : List ℕ
lanes_order = 51 ∷ 52 ∷ 53 ∷ 54 ∷ []

lanes-Represents : Represents 7 lanes_order lanes
lanes-Represents = ((λ e. refl), ((λ e. refl), ((λ e. refl), ((λ e. refl), tt))))

finds_last : find_by id_of 54 lanes ≡ some (column 54 done 3)
unfolding find_by
finds_last = refl

-- The last column goes to the second place.
move-Represents_example :
    Represents 7
      (move_elem 3 1 54 lanes_order)
      (move_task_column_to_position (column 54 done 3) 1 9 lanes)
move-Represents_example =
    move-Represents (column 54 done 3) 3 1 9 lanes_order lanes finds_last refl (omega arith)
      (inl (omega arith)) lanes-Represents

new_order : move_elem 3 1 54 lanes_order ≡ 51 ∷ 54 ∷ 52 ∷ 53 ∷ []
unfolding insert_at remove_at
new_order = refl

abbrev lanes_after : List TaskColumn
lanes_after = value_of (create_task_column_at_position 2 (column 55 shipped 2) lanes) []

creates : create_task_column_at_position 2 (column 55 shipped 2) lanes ≡ ok lanes_after
unfolding create_task_column_at_position
creates = refl

create-Represents_example : Represents 7 (insert_at 2 55 lanes_order) lanes_after
create-Represents_example =
    create-Represents 2 (column 55 shipped 2) lanes_order lanes refl (omega arith) lanes-Represents
      creates

abbrev no_requests : ChangeDb
no_requests = record {
  requests = [];
  tasks = draft_task ∷ [];
  columns = [];
  briefs = [];
  change_log = [];
  messages = [];
  audit = [];
  outbox = [];
  next_id = 70;
}

abbrev blank : ChangeRequest
blank = new_request 0 0 none minor 0 [] [] none draft_task.priority 0

abbrev small_change : MinorPayload
small_change = record { task_id = some 40; title = none; description = 68 ∷ []; priority = none }

abbrev big_change : FormalPayload
big_change = record {
  task_id = none;
  title = some (84 ∷ []);
  description = 69 ∷ [];
  justification = none;
  priority = none;
}

abbrev asked : ChangeRequest × ChangeDb
asked =
    value_of (create_minor_change_request repo no_requests buyer 7 small_change 5)
      (blank, no_requests)

abbrev asked_twice : ChangeRequest × ChangeDb
asked_twice =
    value_of (create_formal_change_request repo asked.1 buyer 7 big_change 6) (blank, no_requests)

abbrev granted : ChangeRequest × ChangeDb
granted =
    value_of (resolve_change_request repo asked_twice.1 boss 7 71 approved none 7)
      (blank, no_requests)

asks : create_minor_change_request repo no_requests buyer 7 small_change 5 ≡ ok asked
unfolding create_minor_change_request assert_project_access
asks = refl

asks_more : create_formal_change_request repo asked.1 buyer 7 big_change 6 ≡ ok asked_twice
unfolding create_minor_change_request create_formal_change_request assert_project_access
asks_more = refl

grants : resolve_change_request repo asked_twice.1 boss 7 71 approved none 7 ≡ ok granted
unfolding create_minor_change_request create_formal_change_request resolve_change_request
    assert_project_access
grants = refl

to_granted : Reaches no_requests granted.1
to_granted =
    later asked_twice.1
      (later asked.1
        (later no_requests here (minor_requested repo buyer 7 small_change 5 asked.0 asks))
        (formal_requested repo buyer 7 big_change 6 asked_twice.0 asks_more))
      (resolved repo boss 7 71 approved none 7 granted.0 (λ e. cc) grants)

one_open_minor_example : AreApart granted.1.requests
one_open_minor_example = one_open_minor refl to_granted

approved_are_logged_example : All (LoggedIn granted.1.change_log) granted.1.requests
approved_are_logged_example = approved_are_logged refl to_granted

-- A request that is approved can be rejected afterwards, and the log keeps its entry.
abbrev taken_back : ChangeRequest × ChangeDb
taken_back =
    value_of (resolve_change_request repo granted.1 boss 7 71 rejected none 8) (blank, no_requests)

rejected_after_approval :
    (taken_back.0.status ≡ rejected) × (is_logged taken_back.1.change_log 71 ≡ true)
unfolding create_minor_change_request create_formal_change_request resolve_change_request
    assert_project_access
rejected_after_approval = (refl, refl)
