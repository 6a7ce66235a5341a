-- ===== src/Notifications.antt =====
-- notification/activity-notification.handler.ts and activity-notification.repository.ts: who is told
-- about an event, and with what words. Subs and ids are texts, as they come from the event. The
-- counters of Redis are left out.
pub mod Reach
pub mod Refusal
pub mod Insertion
use crm_collab.Base.{
  ℕ, suc, Bool, true, false, not, ◌&&◌, ◌||◌, Option, none, some, List, [], ◌∷◌, ◌++◌, ltb, leb,
  if◌then◌else◌, select, some_of, take, get_or,
}
use crm_collab.Base.Text.{Text, codes, trim}
use crm_collab.Access.{Role, client, Channel, internal, external, is_client}
use crm_collab.Consumer.{
  Json, string, boolean, array, Items, nil, cons, Members, member_of, text_eq,
}

pub data CollabEventType : Type 0 where
  project_created project_updated project_completed project_member_added : CollabEventType
  task_created task_updated task_moved task_assigned task_blocked task_unblocked : CollabEventType
  task_comment_created : CollabEventType
  chat_message_internal chat_message_external chat_mention : CollabEventType
  minor_created minor_accepted minor_rejected : CollabEventType
  formal_created formal_approved formal_rejected : CollabEventType
  file_uploaded file_approved brief_updated : CollabEventType

pub record CollabEvent : Type 0 where
  pub id : Text
  pub type : CollabEventType
  pub actor_sub : Text
  pub event_data : Members

pub record ProjectMember : Type 0 where
  pub user_sub : Text
  pub role : Role

pub record Activity : Type 0 where
  pub channel : Channel
  pub title : Text
  pub body : Text
  pub resource_type : Text
  pub resource_id : Text
  pub recipients : Option (List Text)
  pub excluded_recipients : Option (List Text)

-- `typeof value === "string" && value.trim() ? value.slice(0, 300) : fallback`
unfoldable pub text : Option Json → Text → Text
unfolding trim
text (some (string t)) fallback = elim (trim t) [ [] ↦ fallback | c ∷ s ↦ take 300 t ]
text _ fallback = fallback

strings : Items → List Text
strings nil = []
strings (cons (string []) items) = strings items
strings (cons (string (c ∷ s)) items) = (c ∷ s) ∷ strings items
strings (cons _ items) = strings items

unfoldable pub array_of_strings : Option Json → Option (List Text)
unfolding strings
array_of_strings (some (array items)) = some (strings items)
array_of_strings _ = none

-- `value === true`
unfoldable pub is_true : Option Json → Bool
is_true (some (boolean b)) = b
is_true _ = false

unfoldable pub channel_of : Option Json → Channel
unfolding is_true
channel_of visible = if is_true visible then external else internal

unfoldable pub block_reason_of : Option Json → Text
unfolding trim
block_reason_of (some (string t)) = trim t
block_reason_of _ = []

unfoldable pub blocked_body : Text → Text → Text
blocked_body title [] = codes "bloqueó la tarea \"" ++ (title ++ codes "\"")
blocked_body title (c ∷ reason) =
    codes "bloqueó la tarea \"" ++ (title ++ (codes "\": " ++ (c ∷ reason)))

unfoldable pub describe : CollabEventType → Members → Option Activity
unfolding text array_of_strings channel_of block_reason_of blocked_body member_of
describe type fields =
    let get = λ (key : Text). member_of key fields in
    let task_title = text (get (codes "taskTitle")) (codes "una tarea") in
    let visible = channel_of (get (codes "clientVisible")) in
    let about =
      λ (channel : Channel) (title body resource key : Text)
          (recipients excluded : Option (List Text)).
        let activity : Activity = record {
          channel = channel;
          title = title;
          body = body;
          resource_type = resource;
          resource_id = text (get key) [];
          recipients = recipients;
          excluded_recipients = excluded;
        } in
        some activity in
    let task = codes "project_task" in
    let assignees = some (get_or (array_of_strings (get (codes "assigneeSubs"))) []) in
    let mentioned = array_of_strings (get (codes "mentionedSubs")) in
    let resolved =
      about external (codes "Solicitud de cambio resuelta")
        (text (get (codes "title")) (codes "Tu solicitud fue actualizada"))
        (codes "project_change_request") (codes "changeRequestId")
        (some (text (get (codes "requestedBySub")) [] ∷ [])) none in
    let requested =
      about internal (codes "Nueva solicitud de cambio")
        (text (get (codes "title")) (codes "Solicitud de cambio")) (codes "project_change_request")
        (codes "changeRequestId") none none in
    elim type [
      | task_blocked ↦
          about visible (codes "Tarea bloqueada")
            (blocked_body task_title (block_reason_of (get (codes "blockReason")))) task
            (codes "taskId") none none
      | task_unblocked ↦
          about visible (codes "Tarea desbloqueada")
            (codes "desbloqueó la tarea \"" ++ (task_title ++ codes "\"")) task (codes "taskId")
            none none
      | chat_message_internal ↦
          about internal (codes "Mensaje en chat interno")
            (text (get (codes "body")) (codes "Nuevo mensaje")) (codes "chat_message")
            (codes "messageId") none mentioned
      | chat_message_external ↦
          about external (codes "Mensaje en el proyecto")
            (text (get (codes "body")) (codes "Nuevo mensaje")) (codes "chat_message")
            (codes "messageId") none mentioned
      | task_assigned ↦
          about internal (codes "Nueva tarea asignada") task_title task (codes "taskId")
            (some (text (get (codes "assigneeSub")) [] ∷ [])) none
      | task_moved ↦
          about visible (codes "Tarea actualizada") (task_title ++ codes " cambió de etapa") task
            (codes "taskId") assignees none
      | task_comment_created ↦
          about visible (codes "Nuevo comentario en tarea") task_title task (codes "taskId")
            assignees none
      | minor_created ↦ requested
      | formal_created ↦ requested
      | minor_accepted ↦ resolved
      | minor_rejected ↦ resolved
      | formal_approved ↦ resolved
      | formal_rejected ↦ resolved
      | file_uploaded ↦
          about (channel_of (get (codes "isClientVisible"))) (codes "Archivo cargado")
            (text (get (codes "fileName")) (codes "Nuevo archivo")) (codes "project_file")
            (codes "fileId") none none
      | file_approved ↦
          about internal (codes "Archivo aprobado")
            (text (get (codes "fileName")) (codes "Un archivo fue aprobado")) (codes "project_file")
            (codes "fileId") none none
      | project_created ↦
          about external (codes "Nuevo proyecto")
            (text (get (codes "projectName")) (codes "Tienes acceso a un proyecto"))
            (codes "project") (codes "projectId") none none
      | project_updated ↦
          about external (codes "Proyecto actualizado")
            (text (get (codes "projectName")) (codes "El proyecto fue actualizado"))
            (codes "project") (codes "projectId") none none
      | _ ↦ none
    ]

abbrev pub has_text : List Text → Text → Bool
has_text ts t = some_of (λ u. text_eq u t) ts

abbrev pub is_external : Channel → Bool
is_external external = true
is_external internal = false

-- An empty list of recipients is as good as none.
unfoldable pub resolve_activity_recipients :
    List ProjectMember
    → Text
    → Channel
    → Option (List Text)
    → Option (List Text)
    → List ProjectMember
resolve_activity_recipients members actor channel (some (r ∷ rs)) excluded =
    select
      (λ m.
        not (text_eq m.user_sub actor)
        && not (has_text (get_or excluded []) m.user_sub)
        && has_text (r ∷ rs) m.user_sub)
      members
resolve_activity_recipients members actor channel _ excluded =
    select
      (λ m.
        not (text_eq m.user_sub actor)
        && not (has_text (get_or excluded []) m.user_sub)
        && (is_external channel || not (is_client m.role)))
      members
