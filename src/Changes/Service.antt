-- ===== src/Changes/Service.antt =====
-- change-request.service.ts and brief.service.ts: the commands.
use crm_collab.Base.{
  ℕ, Bool, true, false, ◌&&◌, not, Option, none, some, List, [], ◌∷◌, ◌++◌, ◌==◌, some_of, take,
  is_just, is_some, if◌then◌else◌,
}
use crm_collab.Base.Text.{Text, codes}
use crm_collab.Base.Table.{find_by, update_by}
use crm_collab.Base.Outcome.{Outcome, ok, ◌>>=◌, ◌>>◌, require, found}
use crm_collab.Base.Outcome.{not_found, forbidden, bad_request, refused}
use crm_collab.Access.{
  Actor, AccessRepo, is_admin, is_client, can_edit_brief, assert_project_access,
}
use crm_collab.Board.Model.{task_id}
use crm_collab.Changes.{
  RequestType, minor, formal, RequestStatus, accepted, rejected, escalated, approved, ChangeRequest,
  Brief, brief_project, minor_request, formal_request, minor_change_requested,
  formal_change_requested, change_request_resolved, project_brief_updated, ChangeEvent,
  minor_created, formal_created, minor_accepted, minor_rejected, formal_approved, formal_rejected,
  brief_updated, ChangeDb, is_minor, is_open, is_approved, create_change_request,
  find_change_request_by_id, list_minor_requests, update_change_request_by_id, new_request, say,
  MinorPayload, FormalPayload, or_default, priority_or_medium,
}
use crm_collab.Changes.Tasks.{task_for}

-- A request of the task that is still open.
unfoldable pub open_for : ℕ → ChangeRequest → Bool
unfolding is_open
open_for task r = is_just r.task_id task && is_open r.status

abbrev minor_title : MinorPayload → Text
minor_title payload =
    or_default payload.title (codes "Ajuste menor: " ++ take 50 payload.description)

-- What a minor request writes once its task is known.
unfoldable pub record_minor :
    Actor → ℕ → MinorPayload → ℕ → ℕ → ChangeDb → Outcome (ChangeRequest × ChangeDb)
unfolding list_minor_requests open_for new_request create_change_request find_by
record_minor actor project_id payload now task db = do
  t ← found (find_by task_id task db.tasks) not_found
  require (t.project_id == project_id) not_found
  require (not (some_of (open_for task) (list_minor_requests db project_id))) bad_request
  let title = minor_title payload
  let row =
      new_request db.next_id project_id (some task) minor actor.sub title payload.description none
        (priority_or_medium payload.priority) now
  ok (
    row,
    say
        (record {
          project_id = project_id;
          message_type = minor_request;
          author_sub = actor.sub;
          body = codes "Solicitud de ajuste menor: " ++ title;
          change_request_id = row.id;
        })
        (record { actor_sub = actor.sub; action = minor_change_requested; resource_id = row.id })
        (record {
          project_id = project_id;
          actor_sub = actor.sub;
          event = minor_created row.id task title payload.description;
        })
        (create_change_request row db),
  )

-- The foreign key of a named task.
unfoldable pub task_exists : Option ℕ → ChangeDb → Bool
unfolding find_by
task_exists none db = true
task_exists (some id) db = is_some (find_by task_id id db.tasks)

-- `createBriefChangeLog` for a formal request that is approved.
unfoldable pub log_approval : Actor → ChangeRequest → RequestStatus → ℕ → ChangeDb → ChangeDb
unfolding is_minor is_approved
log_approval actor req status now db =
    if not (is_minor req.type) && is_approved status
    then record db {
      change_log =
          db.change_log
          ++ record {
            project_id = req.project_id;
            requested_by_sub = req.requested_by_sub;
            approved_by_sub = some actor.sub;
            description = req.description;
            source_change_request_id = some req.id;
            created_at = now;
          }
            ∷ [];
    }
    else db

unfoldable pub resolution_event : ChangeRequest → RequestType → RequestStatus → Option ChangeEvent
resolution_event req minor accepted = some (minor_accepted req.id req.requested_by_sub req.title)
resolution_event req minor rejected = some (minor_rejected req.id req.requested_by_sub req.title)
resolution_event req minor _ = none
resolution_event req formal approved = some (formal_approved req.id req.requested_by_sub req.title)
resolution_event req formal rejected = some (formal_rejected req.id req.requested_by_sub req.title)
resolution_event req formal _ = none

unfoldable pub emit_some : ℕ → ℕ → Option ChangeEvent → ChangeDb → ChangeDb
emit_some project_id actor_sub none db = db
emit_some project_id actor_sub (some event) db = record db {
  outbox =
      db.outbox ++ record { project_id = project_id; actor_sub = actor_sub; event = event } ∷ [];
}

unfoldable pub is_accepted : RequestStatus → Bool
is_accepted accepted = true
is_accepted approved = true
is_accepted _ = false

unfoldable pub resolution_body : ChangeRequest → RequestStatus → Option Text → Text
unfolding is_accepted
resolution_body req status comment =
    codes "Solicitud de cambio "
    ++ ((if is_accepted status then codes "aceptada" else codes "rechazada")
        ++ (codes ": \""
            ++ (req.title
                ++ (codes "\"." ++ elim comment [
                  | none ↦ []
                  | some [] ↦ []
                  | some (c ∷ s) ↦ codes " Motivo: " ++ c ∷ s
                ]))))

abbrev pub escalator_of : RequestStatus → ℕ → Option ℕ
escalator_of escalated sub = some sub
escalator_of _ sub = none

-- `onConflictDoUpdate` on the project.
unfoldable pub upsert_brief : ℕ → Text → ℕ → ℕ → List Brief → List Brief
unfolding find_by update_by
upsert_brief project_id content editor now briefs =
    if is_some (find_by brief_project project_id briefs)
    then update_by brief_project project_id
        (λ b. record b { content = content; updated_by_sub = editor; updated_at = now }) briefs
    else briefs
      ++ record {
        project_id = project_id;
        content = content;
        updated_by_sub = editor;
        updated_at = now;
      }
        ∷ []

-- The audit row, the message and the event of a resolution.
unfoldable pub announce :
    Actor → ChangeRequest → ℕ → RequestStatus → Option Text → ChangeDb → ChangeDb
unfolding emit_some resolution_event resolution_body is_accepted
announce actor req project_id status comment db =
    emit_some project_id actor.sub (resolution_event req req.type status) (record db {
      audit =
          db.audit
          ++ record {
            actor_sub = actor.sub;
            action = change_request_resolved;
            resource_id = req.id;
          }
            ∷ [];
      messages =
          db.messages
          ++ record {
            project_id = project_id;
            message_type = if is_accepted status then minor_request else formal_request;
            author_sub = actor.sub;
            body = resolution_body req status comment;
            change_request_id = req.id;
          }
            ∷ [];
    })

module _ (repo : AccessRepo) where
  unfoldable pub create_minor_change_request :
      ChangeDb → Actor → ℕ → MinorPayload → ℕ → Outcome (ChangeRequest × ChangeDb)
  unfolding task_for record_minor
  create_minor_change_request db actor project_id payload now = do
    access ← assert_project_access repo actor project_id
    require (is_client actor.role) forbidden
    (task, db₁) ← task_for payload.task_id actor project_id now db
    record_minor actor project_id payload now task db₁

  unfoldable pub create_formal_change_request :
      ChangeDb → Actor → ℕ → FormalPayload → ℕ → Outcome (ChangeRequest × ChangeDb)
  unfolding new_request create_change_request task_exists
  create_formal_change_request db actor project_id payload now = do
    access ← assert_project_access repo actor project_id
    require (is_client actor.role) forbidden
    require (task_exists payload.task_id db) refused
    let title = or_default payload.title (codes "Solicitud de Cambio Formal")
    let justification = or_default payload.justification (codes "Justificación predeterminada")
    let row =
        new_request db.next_id project_id payload.task_id formal actor.sub title payload.description
          (some justification) (priority_or_medium payload.priority) now
    ok (
      row,
      say
          (record {
            project_id = project_id;
            message_type = formal_request;
            author_sub = actor.sub;
            body = codes "Solicitud de cambio formal: " ++ title;
            change_request_id = row.id;
          })
          (record { actor_sub = actor.sub; action = formal_change_requested; resource_id = row.id })
          (record {
            project_id = project_id;
            actor_sub = actor.sub;
            event = formal_created row.id payload.task_id payload.description;
          })
          (create_change_request row db),
    )

  -- The status is any but `open`: the schema of the request allows no other.
  unfoldable pub resolve_change_request :
      ChangeDb
      → Actor
      → ℕ
      → ℕ
      → RequestStatus
      → Option Text
      → ℕ
      → Outcome (ChangeRequest × ChangeDb)
  unfolding find_change_request_by_id update_change_request_by_id log_approval announce find_by
  resolve_change_request db actor project_id id status comment now = do
    req ← found (find_change_request_by_id db id) not_found
    require (req.project_id == project_id) not_found
    access ← assert_project_access repo actor project_id
    require (is_admin actor.role) forbidden
    let rows =
        update_change_request_by_id id status actor.sub comment (escalator_of status actor.sub) now
          db.requests
    let logged = log_approval actor req status now (record db { requests = rows })
    updated ← found (find_change_request_by_id logged id) not_found
    ok (updated, announce actor req project_id status comment logged)

  unfoldable pub patch_brief : ChangeDb → Actor → ℕ → Text → ℕ → Outcome ChangeDb
  unfolding upsert_brief
  patch_brief db actor project_id body now = do
    access ← assert_project_access repo actor project_id
    require (can_edit_brief actor.role (some access.member_role)) forbidden
    ok (record db {
      briefs = upsert_brief project_id body actor.sub now db.briefs;
      change_log =
          db.change_log
          ++ record {
            project_id = project_id;
            requested_by_sub = actor.sub;
            approved_by_sub = some actor.sub;
            description = codes "Actualización manual del brief";
            source_change_request_id = none;
            created_at = now;
          }
            ∷ [];
      audit =
          db.audit
          ++ record {
            actor_sub = actor.sub;
            action = project_brief_updated;
            resource_id = project_id;
          }
            ∷ [];
      outbox =
          db.outbox
          ++ record { project_id = project_id; actor_sub = actor.sub; event = brief_updated } ∷ [];
    })
