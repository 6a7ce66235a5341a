-- ===== src/DeadLetters.antt =====
-- events/auth-events-dlq.ts: the stream of the dead letters of the authentication events, and their
-- replay. The stream is listed from its newest entry. Its trimming (MAXLEN) is left out, and the
-- stream that a letter came from is not the stream of the letters.
pub mod RoundTrip
pub mod Replay
use crm_collab.Base.{
  ℕ, suc, Bool, true, false, not, Option, none, some, List, [], ◌∷◌, ◌++◌, ◌==◌, if◌then◌else◌,
  select, take, get_or,
}
use crm_collab.Base.Text.{Text, codes, text_or}
use crm_collab.Base.Table.{find_by}
use crm_collab.Consumer.{Fields, get_field, parse_stream_fields}

-- The environment, and the text of numbers and of JSON: `none` is NaN, and a text that `JSON.parse`
-- refuses.
pub record Formats : Type 0 where
  pub stream_key : Text
  pub consumer_group : Text
  pub number_text : Option ℕ → Text
  pub text_number : Text → Option ℕ
  pub stringify : Fields → Text
  pub parse : Text → Option Fields

pub record AuthEventDlqRecord : Type 0 where
  pub source_stream : Text
  pub source_group : Text
  pub source_message_id : Text
  pub consumer_id : Text
  pub failed_at : Text
  pub delivery_count : Option ℕ
  pub reason : Text
  pub error_name : Text
  pub error_message : Text
  pub error_stack : Option Text
  pub payload : Option Text
  pub raw_fields : Fields

-- `if (value) fields.push(name, value)`
unfoldable pub push_field : Text → Option Text → List Text
push_field name none = []
push_field name (some []) = []
push_field name (some (c ∷ s)) = name ∷ (c ∷ s) ∷ []

-- What `appendAuthEventToDlq` writes.
unfoldable pub dlq_fields : Formats → AuthEventDlqRecord → List Text
unfolding push_field
dlq_fields f r =
    codes "sourceStream"
    ∷ r.source_stream
    ∷ codes "sourceGroup"
    ∷ r.source_group
    ∷ codes "sourceMessageId"
    ∷ r.source_message_id
    ∷ codes "consumerId"
    ∷ r.consumer_id
    ∷ codes "failedAt"
    ∷ r.failed_at
    ∷ codes "deliveryCount"
    ∷ f.number_text r.delivery_count
    ∷ codes "reason"
    ∷ r.reason
    ∷ codes "errorName"
    ∷ r.error_name
    ∷ codes "errorMessage"
    ∷ r.error_message
    ∷ codes "rawFields"
    ∷ f.stringify r.raw_fields
    ∷ (push_field (codes "errorStack") r.error_stack ++ push_field (codes "payload") r.payload)

unfoldable pub stream_fields_to_object : List Text → Fields
unfolding parse_stream_fields
stream_fields_to_object fields = parse_stream_fields fields

-- `map.rawFields ? JSON.parse(map.rawFields) : {}`, and `{}` when that throws.
unfoldable pub raw_fields_of : Formats → Option Text → Fields
raw_fields_of f none = []
raw_fields_of f (some []) = []
raw_fields_of f (some (c ∷ s)) = get_or (f.parse (c ∷ s)) []

unfoldable pub parse_dlq_entry : Formats → List Text → AuthEventDlqRecord
unfolding stream_fields_to_object get_field raw_fields_of
parse_dlq_entry f fields =
    let m = stream_fields_to_object fields in
    record {
      source_stream = get_or (get_field (codes "sourceStream") m) f.stream_key;
      source_group = get_or (get_field (codes "sourceGroup") m) f.consumer_group;
      source_message_id = get_or (get_field (codes "sourceMessageId") m) [];
      consumer_id = get_or (get_field (codes "consumerId") m) [];
      failed_at = get_or (get_field (codes "failedAt") m) [];
      delivery_count = f.text_number (get_or (get_field (codes "deliveryCount") m) (codes "0"));
      reason = get_or (get_field (codes "reason") m) (codes "unknown");
      error_name = get_or (get_field (codes "errorName") m) (codes "Error");
      error_message = get_or (get_field (codes "errorMessage") m) [];
      error_stack = get_field (codes "errorStack") m;
      payload = get_field (codes "payload") m;
      raw_fields = raw_fields_of f (get_field (codes "rawFields") m);
    }

pub record Letter : Type 0 where
  pub id : ℕ
  pub fields : List Text

abbrev pub letter_id : Letter → ℕ
letter_id l = l.id

-- A message of one of the other streams.
pub record Posted : Type 0 where
  pub stream : Text
  pub fields : List Text

pub record Streams : Type 0 where
  pub letters : List Letter
  pub posted : List Posted
  pub next_id : ℕ

-- Whether Redis answers `xadd` with an id, and how it answers `xdel` of an entry that was just read: it
-- removes it, or the call throws.
pub data Deletion : Type 0 where
  deleted refused : Deletion

pub record Redis : Type 0 where
  pub xadd : Streams → Bool
  pub xdel : Streams → Deletion

-- `none` is a call that throws.
unfoldable pub append_auth_event_to_dlq :
    Redis → Formats → AuthEventDlqRecord → Streams → Streams × Option ℕ
unfolding dlq_fields
append_auth_event_to_dlq redis f r s =
    if redis.xadd s
    then (
      record s {
        letters = record { id = s.next_id; fields = dlq_fields f r } ∷ s.letters;
        next_id = suc s.next_id;
      },
      some s.next_id,
    )
    else (s, none)

unfoldable pub list_auth_event_dlq_entries : ℕ → Streams → List Letter
list_auth_event_dlq_entries limit s = take limit s.letters

pub record Replayed : Type 0 where
  pub replayed_message_id : ℕ
  pub removed : Bool

unfoldable pub remove_letter : Deletion → ℕ → ℕ → Streams → Streams × Option Replayed
remove_letter deleted id new s = (
  record s { letters = select (λ l. not (l.id == id)) s.letters },
  some (record { replayed_message_id = new; removed = true }),
)
remove_letter refused id new s = (s, none)

unfoldable pub post : Redis → Formats → Bool → ℕ → Text → Text → Streams → Streams × Option Replayed
unfolding remove_letter
post redis f remove_after id stream payload s =
    let sent = record s {
      posted = s.posted ++ record { stream = stream; fields = codes "payload" ∷ payload ∷ [] } ∷ [];
      next_id = suc s.next_id;
    } in
    if redis.xadd s
    then if remove_after
      then remove_letter (redis.xdel sent) id s.next_id sent
      else (sent, some (record { replayed_message_id = s.next_id; removed = false }))
    else (s, none)

-- An entry without a payload, or with an empty one, cannot be replayed.
unfoldable pub replay_entry :
    Redis → Formats → Bool → ℕ → Text → Option Text → Streams → Streams × Option Replayed
unfolding post
replay_entry redis f remove_after id stream none s = (s, none)
replay_entry redis f remove_after id stream (some []) s = (s, none)
replay_entry redis f remove_after id stream (some (c ∷ t)) s =
    post redis f remove_after id (text_or stream f.stream_key) (c ∷ t) s

abbrev pub replay_found :
    Redis → Formats → Bool → Option Letter → Streams → Streams × Option Replayed
unfolding replay_entry parse_dlq_entry
replay_found redis f remove_after none s = (s, none)
replay_found redis f remove_after (some l) s =
    let entry = parse_dlq_entry f l.fields in
    replay_entry redis f remove_after l.id entry.source_stream entry.payload s

unfoldable pub replay_auth_event_dlq_entry :
    Redis → Formats → ℕ → Bool → Streams → Streams × Option Replayed
unfolding find_by replay_found
replay_auth_event_dlq_entry redis f id remove_after s =
    replay_found redis f remove_after (find_by letter_id id s.letters) s

-- The loop of the timer: an entry that cannot be replayed is logged and passed over.
unfoldable pub replay_each : Redis → Formats → List Letter → Streams → Streams
unfolding replay_auth_event_dlq_entry
replay_each redis f [] s = s
replay_each redis f (l ∷ ls) s =
    replay_each redis f ls (replay_auth_event_dlq_entry redis f l.id true s).0

unfoldable pub replay_cycle : Redis → Formats → Streams → Streams
unfolding replay_each list_auth_event_dlq_entries
replay_cycle redis f s = replay_each redis f (list_auth_event_dlq_entries 10 s) s
