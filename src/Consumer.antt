-- ===== src/Consumer.antt =====
-- cima-contracts/src/event-consumer.ts: how the consumer of a Redis stream treats a batch of
-- messages. A message is its id with the flat list of its keys and values. The numbers of JSON are
-- natural; of a dead letter the names of the stream and the consumer, the clock and the error's own
-- text are left out.
pub mod Settled
pub mod LastDelivery
pub mod Retry
use crm_collab.Base.{
  ℕ, Bool, true, false, not, ◌&&◌, Option, none, some, List, [], ◌∷◌, ◌++◌, ltb, ◌==◌,
  if◌then◌else◌, select, find, map,
}
use crm_collab.Base.Text.{Text, codes}

-- What `JSON.parse` makes.
mutual
  pub data Json : Type 0 where
    null : Json
    boolean : Bool → Json
    number : ℕ → Json
    string : Text → Json
    array : Items → Json
    object : Members → Json

  pub data Items : Type 0 where
    nil : Items
    cons : Json → Items → Items

  pub data Members : Type 0 where
    end : Members
    member : Text → Json → Members → Members

abbrev pub text_eq : Text → Text → Bool
text_eq [] [] = true
text_eq [] (d ∷ t) = false
text_eq (c ∷ s) [] = false
text_eq (c ∷ s) (d ∷ t) = c == d && text_eq s t

abbrev pub Fields : Type 0
Fields = List (Text × Text)

-- `map.set(k, v)` and `map.get(k)`
unfoldable pub set_field : Text → Text → Fields → Fields
set_field k v [] = (k, v) ∷ []
set_field k v ((j, u) ∷ rest) =
    let others = set_field k v rest in if text_eq j k then (j, v) ∷ rest else (j, u) ∷ others

unfoldable pub get_field : Text → Fields → Option Text
get_field k [] = none
get_field k ((j, u) ∷ rest) = let found = get_field k rest in if text_eq j k then some u else found

parse_fields_onto : Fields → List Text → Fields
unfolding set_field
parse_fields_onto m [] = m
parse_fields_onto m (k ∷ []) = m
parse_fields_onto m (k ∷ v ∷ rest) = parse_fields_onto (set_field k v m) rest

-- A key without a value at the end is dropped.
unfoldable pub parse_stream_fields : List Text → Fields
unfolding parse_fields_onto
parse_stream_fields fields = parse_fields_onto [] fields

unfoldable pub member_of : Text → Members → Option Json
member_of k end = none
member_of k (member j v rest) =
    let found = member_of k rest in if text_eq j k then some v else found

unfoldable pub extract_version : Json → ℕ
unfolding member_of
extract_version (object members) = elim (member_of (codes "version") members) [
  | some (number n) ↦ n
  | _ ↦ 1
]
extract_version _ = 1

pub data Reason : Type 0 where
  malformed_message invalid_json unsupported_version invalid_schema max_retries_exceeded : Reason
  other : Text → Reason

pub record DlqContext : Type 0 where
  pub source_message_id : ℕ
  pub delivery_count : ℕ
  pub reason : Reason
  pub payload : Option Text
  pub raw_fields : Fields

-- An entry of the group's list of pending messages.
pub record PendingEntry : Type 0 where
  pub id : ℕ
  pub deliveries : ℕ

-- What the handler does with an event: it returns, or throws.
pub data Reply : Type 0 where
  returned : Reply
  non_retryable : Reason → Reply
  failed : Reply

pub record World (T : Type 0) : Type 0 where
  pub pending : List PendingEntry
  pub handled : List (ℕ × T)
  pub dead : List DlqContext

-- The functions that the consumer is given, and Redis. `on_dlq`, `xack` and `xpending` say whether
-- the call succeeds.
pub record Surroundings (T : Type 0) : Type 0 where
  pub max_retries : ℕ
  pub parse_json : Text → Option Json
  pub schemas : ℕ → Option (Json → Option T)
  pub handler : World T → T → Reply
  pub on_dlq : World T → DlqContext → Bool
  pub xack : World T → ℕ → Bool
  pub xpending : World T → ℕ → Bool

pub record Message : Type 0 where
  pub id : ℕ
  pub raw_fields : List Text

unfoldable pub is_shutdown : Message → Bool
unfolding get_field parse_stream_fields
is_shutdown m = elim (get_field (codes "__shutdown__") (parse_stream_fields m.raw_fields)) [
  | none ↦ false
  | some v ↦ text_eq v (codes "1")
]

module _ {T : Type 0} (env : Surroundings T) where
  -- With `false` the call throws, and the world is what was reached before.
  unfoldable pub ack : ℕ → World T → World T × Bool
  ack id w =
      if env.xack w id
      then (record w { pending = select (λ e. not (e.id == id)) w.pending }, true)
      else (w, false)

  unfoldable pub get_delivery_count : ℕ → World T → ℕ
  get_delivery_count id w =
      if env.xpending w id
      then elim (find (λ e. e.id == id) w.pending) [
        | none ↦ 1
        | some e ↦ if ltb 0 e.deliveries then e.deliveries else 1
      ]
      else 1

  unfoldable pub send_to_dlq : Message → Reason → Option Text → World T → World T × Bool
  unfolding get_delivery_count parse_stream_fields
  send_to_dlq m reason payload w =
      let context : DlqContext = record {
        source_message_id = m.id;
        delivery_count = get_delivery_count m.id w;
        reason = reason;
        payload = payload;
        raw_fields = parse_stream_fields m.raw_fields;
      } in
      if env.on_dlq w context
      then (record w { dead = w.dead ++ context ∷ [] }, true)
      else (w, false)

  -- The acknowledgement that follows a call that may have thrown.
  unfoldable pub then_ack : Message → World T × Bool → World T × Bool
  unfolding ack
  then_ack m (w, true) = ack m.id w
  then_ack m (w, false) = (w, false)

  -- `await this.sendToDlq(…); await this.ack(…)`
  unfoldable pub bury : Message → Reason → Option Text → World T → World T × Bool
  unfolding then_ack send_to_dlq
  bury m reason payload w = then_ack m (send_to_dlq m reason payload w)

  -- The `catch`, for an error that is not retryable and for any other.
  unfoldable pub on_error : Message → Text → ℕ → Option Reason → World T → World T × Bool
  unfolding bury
  on_error m json count (some reason) w = bury m reason (some json) w
  on_error m json count none w =
      if ltb count env.max_retries then (w, true) else bury m max_retries_exceeded (some json) w

  -- An acknowledgement that throws is inside the `try`.
  unfoldable pub caught : Message → Text → ℕ → World T × Bool → World T × Bool
  unfolding on_error
  caught m json count (w, true) = (w, true)
  caught m json count (w, false) = on_error m json count none w

  unfoldable pub on_reply : Message → Text → T → ℕ → Reply → World T → World T × Bool
  unfolding ack on_error caught
  on_reply m json event count returned w =
      caught m json count (ack m.id (record w { handled = w.handled ++ (m.id, event) ∷ [] }))
  on_reply m json event count (non_retryable reason) w = on_error m json count (some reason) w
  on_reply m json event count failed w = on_error m json count none w

  unfoldable pub on_parsed : Message → Text → Option T → World T → World T × Bool
  unfolding bury get_delivery_count on_reply
  on_parsed m json none w = bury m invalid_schema (some json) w
  on_parsed m json (some event) w =
      on_reply m json event (get_delivery_count m.id w) (env.handler w event) w

  unfoldable pub on_schema :
      Message → Text → Json → Option (Json → Option T) → World T → World T × Bool
  unfolding bury on_parsed
  on_schema m json raw none w = bury m unsupported_version (some json) w
  on_schema m json raw (some schema) w = on_parsed m json (schema raw) w

  unfoldable pub on_json : Message → Text → Option Json → World T → World T × Bool
  unfolding bury extract_version on_schema
  on_json m json none w = bury m invalid_json (some json) w
  on_json m json (some raw) w = on_schema m json raw (env.schemas (extract_version raw)) w

  -- No payload, or an empty one, is malformed.
  unfoldable pub on_payload : Message → Option Text → World T → World T × Bool
  unfolding bury on_json
  on_payload m none w = bury m malformed_message none w
  on_payload m (some []) w = bury m malformed_message none w
  on_payload m (some (c ∷ s)) w = on_json m (c ∷ s) (env.parse_json (c ∷ s)) w

  unfoldable pub process_message : Message → World T → World T × Bool
  unfolding ack on_payload is_shutdown get_field parse_stream_fields
  process_message m w =
      if is_shutdown m
      then ack m.id w
      else on_payload m (get_field (codes "payload") (parse_stream_fields m.raw_fields)) w

  -- The first message that throws ends the batch.
  unfoldable pub process_messages : List Message → World T → World T × Bool
  unfolding process_message
  process_messages [] w = (w, true)
  process_messages (m ∷ ms) w =
      let step = process_message m w in
      let rest = process_messages ms step.0 in if step.1 then rest else (step.0, false)
