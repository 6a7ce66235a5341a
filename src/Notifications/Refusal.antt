-- ===== src/Notifications/Refusal.antt =====
-- notification/activity-notification.handler.ts: a body that the table has no room for.
use crm_collab.Base.{
  ◌+◌, ◌≤◌, ◌<◌, ◌≡◌, refl, ◌∙◌, ap, Bool, true, false, none, some, List, [], ◌∷◌, ◌++◌, select,
  some_of, arith, inl, inr, Bool-cases,
}
use crm_collab.Base.Text.{Text, codes, trim}
use crm_collab.Consumer.{string, Members, member_of}
use crm_collab.Notifications.{
  CollabEvent, ProjectMember, Activity, task_blocked, text, channel_of, block_reason_of,
  blocked_body, describe,
}
use crm_collab.Notifications.Insertion.{
  Notification, characters, fits, create, notification_of, notifications, persist_activity,
  persist_activity_notification,
}
use crm_collab.Notifications.Reach.{receives, resolve_lem}

characters-append : (s t : Text) → characters (s ++ t) ≡ characters s + characters t
unfolding characters
characters-append [] t = omega arith
characters-append (c ∷ s) t = ground (arith, characters-append s t)

no_characters : characters [] ≡ 0
unfolding characters
no_characters = refl

-- The body is at least as long as the reason.
blocked_body-long :
    (title reason : Text)
    → 0 < characters reason
    → characters reason ≤ characters (blocked_body title reason)
unfolding blocked_body
blocked_body-long title [] lt = absurd (omega (arith, no_characters, lt))
blocked_body-long title (c ∷ r) lt =
    let start = codes "bloqueó la tarea \"" in
    omega (
      arith,
      characters-append start (title ++ (codes "\": " ++ (c ∷ r))),
      characters-append title (codes "\": " ++ (c ∷ r)),
      characters-append (codes "\": ") (c ∷ r),
    )

module _ (event : CollabEvent) (a : Activity) (long : 300 < characters a.body) where
  none_fits : (m : ProjectMember) → fits (notification_of event a m) ≡ false
  unfolding fits
  none_fits m = ground (arith, long)

  refused_unless_empty :
      (m : ProjectMember) (ms : List ProjectMember) (rows : List Notification)
      → create (notifications event a (m ∷ ms)) rows ≡ none
  unfolding create
  refused_unless_empty m ms rows = rw (none_fits m) refl

  refused :
      (p : ProjectMember → Bool) (members : List ProjectMember) (rows : List Notification)
      → some_of p members ≡ true
      → create (notifications event a (select p members)) rows ≡ none
  refused p [] rows h = cc
  refused p (m ∷ members) rows h = elim (Bool-cases (p m)) [
    | inl e ↦ rw e (refused_unless_empty m (select p members) rows)
    | inr e ↦ rw e (refused p members rows (ground (arith, h, e)))
  ]

-- The activity of a blocked task.
abbrev blocked_activity : Members → Activity
blocked_activity fields = record {
  channel = channel_of (member_of (codes "clientVisible") fields);
  title = codes "Tarea bloqueada";
  body =
      blocked_body (text (member_of (codes "taskTitle") fields) (codes "una tarea"))
        (block_reason_of (member_of (codes "blockReason") fields));
  resource_type = codes "project_task";
  resource_id = text (member_of (codes "taskId") fields) [];
  recipients = none;
  excluded_recipients = none;
}

describe-task_blocked :
    (fields : Members) → describe task_blocked fields ≡ some (blocked_activity fields)
unfolding describe
describe-task_blocked fields = refl

persist_activity-refused :
    (event : CollabEvent) (a : Activity) (members : List ProjectMember) (rows : List Notification)
    → 300 < characters a.body
    → some_of (receives event.actor_sub (some a)) members ≡ true
    → persist_activity event members (some a) rows ≡ none
unfolding persist_activity
persist_activity-refused event a members rows long some_one =
    ap (λ ms. create (notifications event a ms) rows)
      (resolve_lem event.actor_sub a.channel a.recipients a.excluded_recipients members)
    ∙ refused event a long _ members rows some_one

-- If the trimmed reason of a blocked task has more than 300 characters, and the event has a member to
-- reach, then the notifications are refused: the call throws, for every state of the table.
pub long_reason_refused :
    (event : CollabEvent) (reason : Text) (members : List ProjectMember) (rows : List Notification)
    → event.type ≡ task_blocked
    → member_of (codes "blockReason") event.event_data ≡ some (string reason)
    → 300 < characters (trim reason)
    → some_of (receives event.actor_sub (describe event.type event.event_data)) members ≡ true
    → persist_activity_notification event members rows ≡ none
unfolding persist_activity_notification block_reason_of
long_reason_refused event reason members rows blocked at long some_one =
    let described : describe event.type event.event_data
        ≡ some (blocked_activity event.event_data) =
      ap (λ t. describe t event.event_data) blocked ∙ describe-task_blocked event.event_data in
    let reason_is : block_reason_of (member_of (codes "blockReason") event.event_data)
        ≡ trim reason =
      ap block_reason_of at in
    let length_is : characters (block_reason_of (member_of (codes "blockReason") event.event_data))
        ≡ characters (trim reason) =
      ap characters reason_is in
    let body =
      blocked_body-long (text (member_of (codes "taskTitle") event.event_data) (codes "una tarea"))
        (block_reason_of (member_of (codes "blockReason") event.event_data)) in
    rw described (
      persist_activity-refused event (blocked_activity event.event_data) members rows
        (omega (arith, long, body (omega (arith, long, length_is)), length_is))
        (rw described at some_one))
