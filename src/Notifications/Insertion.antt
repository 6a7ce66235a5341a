-- ===== src/Notifications/Insertion.antt =====
-- notification/activity-notification.repository.ts, `create`, and `persistActivityNotification` of
-- activity-notification.handler.ts.
use crm_collab.Base.{
  ℕ, suc, Bool, false, not, ◌&&◌, Option, none, some, List, [], ◌∷◌, ◌++◌, leb, if◌then◌else◌,
  some_of,
}
use crm_collab.Base.Text.{Text}
use crm_collab.Access.{Channel}
use crm_collab.Consumer.{text_eq}
use crm_collab.Notifications.{
  CollabEventType, CollabEvent, ProjectMember, Activity, describe, resolve_activity_recipients,
}

-- A row of `project_activity_notifications`.
pub record Notification : Type 0 where
  pub event_id : Text
  pub recipient_sub : Text
  pub actor_sub : Text
  pub channel : Channel
  pub kind : CollabEventType
  pub title : Text
  pub body : Text
  pub resource_type : Text
  pub resource_id : Text
  pub is_seen : Bool

-- The characters of a text: a surrogate pair is one.
unfoldable pub characters : Text → ℕ
characters [] = 0
characters (c ∷ s) =
    let rest = characters s in if leb 0xdc00 c && leb c 0xdfff then rest else suc rest

-- What fits into the columns of the table.
unfoldable pub fits : Notification → Bool
unfolding characters
fits n =
    leb (characters n.title) 180
    && leb (characters n.body) 300
    && leb (characters n.resource_type) 80
    && leb (characters n.resource_id) 255

unfoldable pub is_for : Text → Text → Notification → Bool
is_for event sub n = text_eq n.event_id event && text_eq n.recipient_sub sub

-- `on conflict do nothing`, on the index over the event and the recipient.
unfoldable pub insert_new : Notification → List Notification → List Notification
unfolding is_for
insert_new n rows =
    if some_of (is_for n.event_id n.recipient_sub) rows then rows else rows ++ n ∷ []

unfoldable pub insert_all : List Notification → List Notification → List Notification
unfolding insert_new
insert_all [] rows = rows
insert_all (n ∷ ns) rows = insert_all ns (insert_new n rows)

-- One value that does not fit refuses the statement; `none` is a call that throws.
unfoldable pub create : List Notification → List Notification → Option (List Notification)
unfolding fits insert_all
create ns rows = if some_of (λ n. not (fits n)) ns then none else some (insert_all ns rows)

abbrev pub notification_of : CollabEvent → Activity → ProjectMember → Notification
notification_of event a m = record {
  event_id = event.id;
  recipient_sub = m.user_sub;
  actor_sub = event.actor_sub;
  channel = a.channel;
  kind = event.type;
  title = a.title;
  body = a.body;
  resource_type = a.resource_type;
  resource_id = a.resource_id;
  is_seen = false;
}

abbrev pub notifications : CollabEvent → Activity → List ProjectMember → List Notification
notifications event a [] = []
notifications event a (m ∷ ms) = notification_of event a m ∷ notifications event a ms

unfoldable pub persist_activity :
    CollabEvent
    → List ProjectMember
    → Option Activity
    → List Notification
    → Option (List Notification)
unfolding resolve_activity_recipients create
persist_activity event members none rows = some rows
persist_activity event members (some a) rows =
    create
      (notifications event a (
        resolve_activity_recipients members event.actor_sub a.channel a.recipients
          a.excluded_recipients))
      rows

unfoldable pub persist_activity_notification :
    CollabEvent → List ProjectMember → List Notification → Option (List Notification)
unfolding describe persist_activity
persist_activity_notification event members rows =
    persist_activity event members (describe event.type event.event_data) rows
