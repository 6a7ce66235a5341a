-- ===== src/Examples/Data.antt =====
-- A project with an administrator, a worker and a client, and its board.
use crm_collab.Base.Outcome.{Outcome, ok, throw}
use crm_collab.Base.{
  ℕ, ◌≡◌, refl, Bool, true, false, Option, none, some, [], ◌∷◌, ◌==◌, if◌then◌else◌,
}
use crm_collab.Access.{admin, worker, client, Actor, Project, Member, AccessRepo}
use crm_collab.Board.Model.{pending, doing, client_approval, blocked, done, medium, Task, Db, todo}

abbrev pub boss : Actor
boss = record { sub = 1; role = admin; email = 101 }

abbrev pub maker : Actor
maker = record { sub = 2; role = worker; email = 102 }

abbrev pub buyer : Actor
buyer = record { sub = 3; role = client; email = 103 }

abbrev pub member_of : ℕ → Option Member
member_of sub =
    if sub == 2
    then some (record { user_sub = 2; role = worker; user_email = some 102 })
    else if sub == 3
    then some (record { user_sub = 3; role = client; user_email = some 103 })
    else none

abbrev pub site : Project
site = record { id = 7; name = 87 ∷ [] }

abbrev pub repo : AccessRepo
repo = record {
  find_project_by_id = λ id. if id == 7 then some site else none;
  find_project_member = λ project sub. member_of sub;
  list_project_members =
      λ project. record { user_sub = 2; role = worker; user_email = some 102 } ∷ [];
}

abbrev pub no_email : ℕ → Option ℕ
no_email sub = none

-- No tie of a percentage is rounded up.
abbrev pub ties_down : ℕ → ℕ → Bool
ties_down c n = false

abbrev pub draft_task : Task
draft_task = record {
  id = 40;
  project_id = 7;
  column_id = 12;
  title = 84 ∷ [];
  description = none;
  priority = medium;
  assignee_sub = some 2;
  reporter_sub = 1;
  deadline = none;
  checklist_progress = 50;
  blocked_by_task_id = none;
  block_reason = none;
  block_type = none;
  blocked_at = none;
  blocked_by_sub = none;
  client_approval_requested_at = none;
  is_client_visible = true;
  position = 0;
  completed_at = none;
  created_at = 1;
  updated_at = 1;
}

-- A task that waits for the client, since the instant 1.
abbrev pub waiting_task : Task
waiting_task = record draft_task { id = 41; column_id = 13; client_approval_requested_at = some 1 }

abbrev pub board : Db
board = record {
  columns =
      record { id = 11; project_id = 7; key = pending }
      ∷ record { id = 12; project_id = 7; key = doing }
      ∷ record { id = 13; project_id = 7; key = client_approval }
      ∷ record { id = 14; project_id = 7; key = blocked }
      ∷ record { id = 15; project_id = 7; key = done }
      ∷ [];
  tasks = draft_task ∷ waiting_task ∷ [];
  subtasks = [];
  assignees = record { task_id = 40; user_sub = 2; user_email = 102 } ∷ [];
  comments = [];
  audit = [];
  outbox = [];
  summaries = record { project_id = 7; status = todo; progress_percent = 0 } ∷ [];
  next_id = 60;
}

-- What a call returns, or the given default if it throws.
abbrev pub value_of {ℓ} : {A : Type ℓ} → Outcome A → A → A
value_of (ok a) d = a
value_of (throw e) d = d

abbrev pub is_ok {ℓ} : {A : Type ℓ} → Outcome A → Bool
is_ok (ok a) = true
is_ok (throw e) = false

pub ok-value_of {ℓ} : {A : Type ℓ} (o : Outcome A) (d : A) → is_ok o ≡ true → o ≡ ok (value_of o d)
ok-value_of (ok a) d h = refl
ok-value_of (throw e) d h = cc
