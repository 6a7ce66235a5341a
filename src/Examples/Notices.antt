-- ===== src/Examples/Notices.antt =====
-- The dead letters of the authentication events and the notifications, on small inputs.
use crm_collab.Base.{
  ℕ, zero, suc, ◌≡◌, refl, true, not, ◌&&◌, ◌||◌, none, some, List, [], ◌∷◌, ◌++◌, select, take,
  map, some_of, arith,
}
use crm_collab.Base.Text.{Text, codes, trim}
use crm_collab.Access.{worker, client, admin}
use crm_collab.Consumer.{Fields, string, array, nil, boolean, member, end, text_eq, member_of}
use crm_collab.DeadLetters.{
  Formats, AuthEventDlqRecord, dlq_fields, parse_dlq_entry, Letter, Streams, Redis, refused,
  replay_cycle,
}
use crm_collab.DeadLetters.RoundTrip.{round_trip}
use crm_collab.DeadLetters.Replay.{answering, has_payload, message_of, among, replay_cycle_lem}
use crm_collab.Notifications.{CollabEvent, ProjectMember, task_blocked, task_moved, describe}
use crm_collab.Notifications.Insertion.{Notification, characters, persist_activity_notification}
use crm_collab.Notifications.Reach.{is_told, receives, persist_reaches, persist_again}
use crm_collab.Notifications.Refusal.{long_reason_refused}

abbrev raw : Fields
raw = (codes "payload", codes "{}") ∷ []

-- JSON and numbers of these inputs.
abbrev formats : Formats
formats = record {
  stream_key = codes "auth-events";
  consumer_group = codes "collab";
  number_text = λ n. codes "3";
  text_number = λ t. some 3;
  stringify = λ m. codes "{\"payload\":\"{}\"}";
  parse = λ t. some raw;
}

abbrev bad_event : AuthEventDlqRecord
bad_event = record {
  source_stream = codes "auth-events";
  source_group = codes "collab";
  source_message_id = codes "5-0";
  consumer_id = codes "host-1";
  failed_at = codes "2026-01-01";
  delivery_count = some 3;
  reason = codes "max_retries_exceeded";
  error_name = codes "Error";
  error_message = codes "down";
  error_stack = some [];
  payload = some (codes "{}");
  raw_fields = raw;
}

round_trip_example :
    parse_dlq_entry formats (dlq_fields formats bad_event)
    ≡ record bad_event { error_stack = none; payload = some (codes "{}") }
round_trip_example = round_trip formats bad_event refl refl (λ e. cc)

-- The newest entry has no payload, the older one has.
abbrev letters : List Letter
letters =
    record { id = 2; fields = dlq_fields formats (record bad_event { payload = none }) }
    ∷ record { id = 1; fields = dlq_fields formats bad_event }
    ∷ []

abbrev streams : Streams
streams = record { letters = letters; posted = []; next_id = 3 }

replay_cycle_example :
    let replayed = select (has_payload formats) (take 10 letters) in
    let s' = replay_cycle answering formats streams in
    (s'.letters ≡ select (λ x. not (among replayed x)) letters)
    × (s'.posted ≡ [] ++ map (message_of formats) replayed)
replay_cycle_example = replay_cycle_lem formats streams ((λ e. ground (arith, e), tt), (tt, tt))

-- One letter is replayed to its stream.
one_left :
    let s' = replay_cycle answering formats streams in
    (map (λ l. l.id) s'.letters ≡ 2 ∷ [])
    × (map (λ p. p.stream) s'.posted ≡ codes "auth-events" ∷ [])
unfolding replay_cycle dlq_fields
one_left = (refl, refl)

-- When `xdel` throws, the letter was posted and stays.
posted_twice :
    let redis : Redis = record { xadd = λ s. true; xdel = λ s. refused } in
    let s' = replay_cycle redis formats (replay_cycle redis formats streams) in
    (map (λ l. l.id) s'.letters ≡ 2 ∷ 1 ∷ [])
    × (map (λ p. p.stream) s'.posted ≡ codes "auth-events" ∷ codes "auth-events" ∷ [])
unfolding replay_cycle dlq_fields
posted_twice = (refl, refl)

abbrev team : List ProjectMember
team =
    record { user_sub = codes "ana"; role = admin }
    ∷ record { user_sub = codes "leo"; role = worker }
    ∷ record { user_sub = codes "eva"; role = client }
    ∷ []

abbrev blocked : Text → CollabEvent
blocked reason = record {
  id = codes "e1";
  type = task_blocked;
  actor_sub = codes "leo";
  event_data =
      member (codes "taskId") (string (codes "t1"))
        (member (codes "blockReason") (string reason) end);
}

abbrev told : List Notification
told = elim (persist_activity_notification (blocked (codes "copy")) team []) [
  | none ↦ []
  | some rows ↦ rows
]

told_rows : persist_activity_notification (blocked (codes "copy")) team [] ≡ some told
unfolding persist_activity_notification
told_rows = refl

persist_reaches_example : is_told told (codes "e1") (codes "ana") ≡ (
    is_told [] (codes "e1") (codes "ana")
    || some_of
        (λ m.
          text_eq m.user_sub (codes "ana")
          && receives (codes "leo") (describe task_blocked (blocked (codes "copy")).event_data) m)
        team)
persist_reaches_example = persist_reaches (blocked (codes "copy")) (codes "ana") team [] told_rows

-- Only the administrator is told: not the author, and not the client.
only_ana : map (λ n. n.recipient_sub) told ≡ codes "ana" ∷ []
unfolding persist_activity_notification
only_ana = refl

persist_again_example : persist_activity_notification (blocked (codes "copy")) team told ≡ some told
persist_again_example = persist_again (blocked (codes "copy")) team [] told_rows

abbrev times : ℕ → Text → Text
times zero t = []
times (suc n) t = t ++ times n t

-- A reason of 310 characters.
abbrev long_reason : Text
long_reason = times 31 (codes "abcdefghij")

reason_found :
    member_of (codes "blockReason") (blocked long_reason).event_data ≡ some (string long_reason)
unfolding member_of
reason_found = refl

reason_length : characters (trim long_reason) ≡ 310
unfolding characters trim
reason_length = refl

ana_receives :
    some_of (receives (codes "leo") (describe task_blocked (blocked long_reason).event_data)) team
    ≡ true
unfolding describe
ana_receives = refl

long_reason_refused_example : persist_activity_notification (blocked long_reason) team [] ≡ none
long_reason_refused_example =
    long_reason_refused (blocked long_reason) long_reason team [] refl reason_found
      (omega (arith, reason_length)) ana_receives

-- A moved task without assignees is announced to the whole team.
abbrev moved : CollabEvent
moved = record {
  id = codes "e2";
  type = task_moved;
  actor_sub = codes "leo";
  event_data =
      member (codes "assigneeSubs") (array nil) (member (codes "clientVisible") (boolean true) end);
}

moved_to_all :
    elim (persist_activity_notification moved team []) [
      | none ↦ []
      | some rows ↦ map (λ n. n.recipient_sub) rows
    ]
    ≡ codes "ana" ∷ codes "eva" ∷ []
unfolding persist_activity_notification
moved_to_all = refl
