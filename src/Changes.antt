-- ===== src/Changes.antt =====
-- change-request.repository.ts, change-request.service.ts, brief.repository.ts and brief.service.ts:
-- the requests of a client to change the work, the brief of a project and the log of its changes.
-- An audit row keeps its action and the row it names, a message the request it is about. Tasks are
-- the rows of the board.
pub mod Service
pub mod Effects
pub mod Steps
pub mod OneOpen
pub mod Logged
pub mod Tasks
use crm_collab.Base.{
  ℕ, ◌+◌, Bool, true, false, ◌&&◌, not, Option, none, some, List, [], ◌∷◌, ◌++◌, ◌==◌, find, select,
  some_of, take, is_just, is_some, if◌then◌else◌,
}
use crm_collab.Base.Text.{Text, codes, text_or}
use crm_collab.Base.Int.{ltb_ℤ}
use crm_collab.Base.Table.{find_by, update_by}
use crm_collab.Base.Sort.{sort_by}
use crm_collab.Base.Outcome.{Outcome, ok, ◌>>=◌, ◌>>◌, require, found}
use crm_collab.Base.Outcome.{not_found, forbidden, bad_request}
use crm_collab.Access.{
  Actor, AccessRepo, is_admin, is_client, can_edit_brief, assert_project_access,
}
use crm_collab.Board.Model.{Task, Priority, medium, task_id}
use crm_collab.Board.Columns.{TaskColumn}

pub data RequestType : Type 0 where
  minor formal : RequestType

pub data RequestStatus : Type 0 where
  opened accepted rejected escalated approved : RequestStatus

pub record ChangeRequest : Type 0 where
  pub id : ℕ
  pub project_id : ℕ
  pub task_id : Option ℕ
  pub type : RequestType
  pub status : RequestStatus
  pub requested_by_sub : ℕ
  pub resolved_by_sub : Option ℕ
  pub escalated_by_worker_sub : Option ℕ
  pub title : Text
  pub description : Text
  pub justification : Option Text
  pub priority : Priority
  pub resolution_comment : Option Text
  pub created_at : ℕ
  pub resolved_at : Option ℕ

abbrev pub request_id : ChangeRequest → ℕ
request_id r = r.id

pub record Brief : Type 0 where
  pub project_id : ℕ
  pub content : Text
  pub updated_by_sub : ℕ
  pub updated_at : ℕ

abbrev pub brief_project : Brief → ℕ
brief_project b = b.project_id

pub record ChangeLogEntry : Type 0 where
  pub project_id : ℕ
  pub requested_by_sub : ℕ
  pub approved_by_sub : Option ℕ
  pub description : Text
  pub source_change_request_id : Option ℕ
  pub created_at : ℕ

pub data MessageType : Type 0 where
  minor_request formal_request : MessageType

-- A message of the external channel.
pub record RequestMessage : Type 0 where
  pub project_id : ℕ
  pub message_type : MessageType
  pub author_sub : ℕ
  pub body : Text
  pub change_request_id : ℕ

pub data ChangeAction : Type 0 where
  minor_change_requested formal_change_requested change_request_resolved project_brief_updated :
      ChangeAction

pub record ChangeAudit : Type 0 where
  pub actor_sub : ℕ
  pub action : ChangeAction
  pub resource_id : ℕ

pub data ChangeEvent : Type 0 where
  minor_created : (request task : ℕ) (title description : Text) → ChangeEvent
  formal_created : (request : ℕ) (task : Option ℕ) (description : Text) → ChangeEvent
  minor_accepted minor_rejected formal_approved formal_rejected :
      (request requester : ℕ) (title : Text) → ChangeEvent
  brief_updated : ChangeEvent

pub record EmittedChange : Type 0 where
  pub project_id : ℕ
  pub actor_sub : ℕ
  pub event : ChangeEvent

pub record ChangeDb : Type 0 where
  pub requests : List ChangeRequest
  pub tasks : List Task
  pub columns : List TaskColumn
  pub briefs : List Brief
  pub change_log : List ChangeLogEntry
  pub messages : List RequestMessage
  pub audit : List ChangeAudit
  pub outbox : List EmittedChange
  pub next_id : ℕ

unfoldable pub is_minor : RequestType → Bool
is_minor minor = true
is_minor formal = false

unfoldable pub is_open : RequestStatus → Bool
is_open opened = true
is_open _ = false

unfoldable pub is_approved : RequestStatus → Bool
is_approved approved = true
is_approved _ = false

unfoldable pub create_change_request : ChangeRequest → ChangeDb → ChangeDb
create_change_request row db = record db {
  requests = db.requests ++ row ∷ [];
  next_id = db.next_id + 1;
}

unfoldable pub find_change_request_by_id : ChangeDb → ℕ → Option ChangeRequest
find_change_request_by_id db id = find_by request_id id db.requests

-- Of one project and one type; the order does not matter to the callers.
unfoldable pub list_minor_requests : ChangeDb → ℕ → List ChangeRequest
unfolding is_minor
list_minor_requests db project_id =
    select (λ r. r.project_id == project_id && is_minor r.type) db.requests

-- The patch of a resolution; a status that is not open sets the time.
unfoldable pub update_change_request_by_id :
    ℕ → RequestStatus → ℕ → Option Text → Option ℕ → ℕ → List ChangeRequest → List ChangeRequest
unfolding update_by is_open
update_change_request_by_id id status resolver comment escalator now rows =
    update_by request_id id
      (λ r. record r {
        status = status;
        resolved_by_sub = some resolver;
        resolution_comment = comment;
        escalated_by_worker_sub = elim escalator [
          | none ↦ r.escalated_by_worker_sub
          | some s ↦ some s
        ];
        resolved_at = if is_open status then r.resolved_at else some now;
      })
      rows

-- A new row, before any resolution.
unfoldable pub new_request :
    ℕ → ℕ → Option ℕ → RequestType → ℕ → Text → Text → Option Text → Priority → ℕ → ChangeRequest
new_request id project_id task_id type requester title description justification priority now =
    record {
      id = id;
      project_id = project_id;
      task_id = task_id;
      type = type;
      status = opened;
      requested_by_sub = requester;
      resolved_by_sub = none;
      escalated_by_worker_sub = none;
      title = title;
      description = description;
      justification = justification;
      priority = priority;
      resolution_comment = none;
      created_at = now;
      resolved_at = none;
    }

abbrev pub say : RequestMessage → ChangeAudit → EmittedChange → ChangeDb → ChangeDb
say message row event db = record db {
  messages = db.messages ++ message ∷ [];
  audit = db.audit ++ row ∷ [];
  outbox = db.outbox ++ event ∷ [];
}

pub record MinorPayload : Type 0 where
  pub task_id : Option ℕ
  pub title : Option Text
  pub description : Text
  pub priority : Option Priority

pub record FormalPayload : Type 0 where
  pub task_id : Option ℕ
  pub title : Option Text
  pub description : Text
  pub justification : Option Text
  pub priority : Option Priority

-- `o || d`
abbrev pub or_default : Option Text → Text → Text
or_default none d = d
or_default (some s) d = text_or s d

abbrev pub priority_or_medium : Option Priority → Priority
priority_or_medium none = medium
priority_or_medium (some p) = p
