-- ===== src/Consumer/Settled.antt =====
-- cima-contracts/src/event-consumer.ts: that a message leaves the list of pending messages only when
-- it has been dealt with, and that it does leave the list at its last delivery.
use crm_collab.Base.{
  ℕ, ◌≡◌, inl, inr, refl, Bool, true, false, not, ◌||◌, Option, none, some, List, [], ◌∷◌, ◌++◌,
  arith, ◌==◌, select, map, has, All, Bool-cases,
}
use crm_collab.Base.Text.{Text}
use crm_collab.Consumer.{
  Json, Reason, DlqContext, PendingEntry, Reply, returned, non_retryable, failed, World,
  Surroundings, Message, ack, get_delivery_count, send_to_dlq, then_ack, bury, on_error, caught,
  on_reply, on_parsed, on_schema, on_json, on_payload, is_shutdown, extract_version,
  malformed_message, invalid_json, unsupported_version, invalid_schema, max_retries_exceeded,
  process_message, process_messages, parse_stream_fields,
}

has-map-select :
    (k id : ℕ) (es : List PendingEntry)
    → (k == id) ≡ false
    → has (map (λ e. e.id) es) id ≡ true
    → has (map (λ e. e.id) (select (λ e. not (e.id == k)) es)) id ≡ true
has-map-select k id [] ne h = h
has-map-select k id (e ∷ es) ne h = ground (arith, ne, h, has-map-select k id es ne)

has-map-append {ℓ} :
    {A : Type ℓ} (f : A → ℕ) (xs : List A) (a : A) (id : ℕ)
    → has (map f (xs ++ a ∷ [])) id ≡ (has (map f xs) id || f a == id)
has-map-append f [] a id = ground arith
has-map-append f (x ∷ xs) a id = ground (arith, has-map-append f xs a id)

module _ {T : Type 0} (env : Surroundings T) where
  -- The message was handled, or is among the dead letters.
  unfoldable pub is_settled : ℕ → World T → Bool
  is_settled id w =
      has (map (λ (h : ℕ × T). h.0) w.handled) id || has (map (λ d. d.source_message_id) w.dead) id

  unfoldable pub is_accounted : ℕ → World T → Bool
  unfolding is_settled
  is_accounted id w = has (map (λ e. e.id) w.pending) id || is_settled id w

  ack-accounted :
      (k id : ℕ) (w : World T)
      → ((k == id) ≡ true → is_settled id w ≡ true)
      → is_accounted id w ≡ true
      → is_accounted id (ack env k w).0 ≡ true
  unfolding ack is_accounted is_settled
  ack-accounted k id w settled h = elim (Bool-cases (k == id)) [
    | inl same ↦ ground (arith, settled same)
    | inr other ↦ ground (arith, h, has-map-select k id w.pending other)
  ]

  send_to_dlq-accounted :
      (m : Message) (reason : Reason) (payload : Option Text) (id : ℕ) (w : World T)
      → is_accounted id w ≡ true
      → let sent = send_to_dlq env m reason payload w in
        (is_accounted id sent.0 ≡ true)
        × (sent.1 ≡ true → (m.id == id) ≡ true → is_settled id sent.0 ≡ true)
  unfolding send_to_dlq is_accounted is_settled
  send_to_dlq-accounted m reason payload id w h =
      let context : DlqContext = record {
        source_message_id = m.id;
        delivery_count = get_delivery_count env m.id w;
        reason = reason;
        payload = payload;
        raw_fields = parse_stream_fields m.raw_fields;
      } in
      let added = has-map-append (λ (d : DlqContext). d.source_message_id) w.dead context id in
      elim (Bool-cases (env.on_dlq w context)) [
        | inl taken ↦ rw taken (ground (arith, h, added), λ e same. ground (arith, added, same))
        | inr refused ↦ rw refused (h, λ e same. cc)
      ]

  then_ack-accounted :
      (m : Message) (id : ℕ) (sent : World T × Bool)
      → is_accounted id sent.0 ≡ true
      → (sent.1 ≡ true → (m.id == id) ≡ true → is_settled id sent.0 ≡ true)
      → is_accounted id (then_ack env m sent).0 ≡ true
  unfolding then_ack
  then_ack-accounted m id (w, true) h settled = ack-accounted m.id id w (settled refl) h
  then_ack-accounted m id (w, false) h settled = h

  bury-accounted :
      (m : Message) (reason : Reason) (payload : Option Text) (id : ℕ) (w : World T)
      → is_accounted id w ≡ true
      → is_accounted id (bury env m reason payload w).0 ≡ true
  unfolding bury
  bury-accounted m reason payload id w h =
      let (kept, settled) = send_to_dlq-accounted m reason payload id w h in
      then_ack-accounted m id (send_to_dlq env m reason payload w) kept settled

  on_error-accounted :
      (m : Message) (json : Text) (count : ℕ) (reason : Option Reason) (id : ℕ) (w : World T)
      → is_accounted id w ≡ true
      → is_accounted id (on_error env m json count reason w).0 ≡ true
  unfolding on_error
  on_error-accounted m json count none id w h =
      ground (arith, h, bury-accounted m max_retries_exceeded (some json) id w h)
  on_error-accounted m json count (some reason) id w h = bury-accounted m reason (some json) id w h

  caught-accounted :
      (m : Message) (json : Text) (count id : ℕ) (acked : World T × Bool)
      → is_accounted id acked.0 ≡ true
      → is_accounted id (caught env m json count acked).0 ≡ true
  unfolding caught
  caught-accounted m json count id (w, true) h = h
  caught-accounted m json count id (w, false) h = on_error-accounted m json count none id w h

  handled-accounted :
      (k id : ℕ) (event : T) (w : World T)
      → is_accounted id w ≡ true
      → let done : World T = record w { handled = w.handled ++ (k, event) ∷ [] } in
        (is_accounted id done ≡ true) × ((k == id) ≡ true → is_settled id done ≡ true)
  unfolding is_accounted is_settled
  handled-accounted k id event w h =
      let added = has-map-append (λ (x : ℕ × T). x.0) w.handled (k, event) id in
      (ground (arith, h, added), λ same. ground (arith, added, same))

  on_reply-accounted :
      (m : Message) (json : Text) (event : T) (count : ℕ) (reply : Reply) (id : ℕ) (w : World T)
      → is_accounted id w ≡ true
      → is_accounted id (on_reply env m json event count reply w).0 ≡ true
  unfolding on_reply
  on_reply-accounted m json event count returned id w h =
      let (kept, settled) = handled-accounted m.id id event w h in
      let done : World T = record w { handled = w.handled ++ (m.id, event) ∷ [] } in
      caught-accounted m json count id (ack env m.id done) (ack-accounted m.id id done settled kept)
  on_reply-accounted m json event count (non_retryable reason) id w h =
      on_error-accounted m json count (some reason) id w h
  on_reply-accounted m json event count failed id w h = on_error-accounted m json count none id w h

  on_parsed-accounted :
      (m : Message) (json : Text) (event : Option T) (id : ℕ) (w : World T)
      → is_accounted id w ≡ true
      → is_accounted id (on_parsed env m json event w).0 ≡ true
  unfolding on_parsed
  on_parsed-accounted m json none id w h = bury-accounted m invalid_schema (some json) id w h
  on_parsed-accounted m json (some event) id w h =
      on_reply-accounted m json event (get_delivery_count env m.id w) (env.handler w event) id w h

  on_schema-accounted :
      (m : Message) (json : Text) (raw : Json) (schema : Option (Json → Option T)) (id : ℕ)
      (w : World T)
      → is_accounted id w ≡ true
      → is_accounted id (on_schema env m json raw schema w).0 ≡ true
  unfolding on_schema
  on_schema-accounted m json raw none id w h =
      bury-accounted m unsupported_version (some json) id w h
  on_schema-accounted m json raw (some schema) id w h =
      on_parsed-accounted m json (schema raw) id w h

  on_json-accounted :
      (m : Message) (json : Text) (raw : Option Json) (id : ℕ) (w : World T)
      → is_accounted id w ≡ true
      → is_accounted id (on_json env m json raw w).0 ≡ true
  unfolding on_json
  on_json-accounted m json none id w h = bury-accounted m invalid_json (some json) id w h
  on_json-accounted m json (some raw) id w h =
      on_schema-accounted m json raw (env.schemas (extract_version raw)) id w h

  on_payload-accounted :
      (m : Message) (payload : Option Text) (id : ℕ) (w : World T)
      → is_accounted id w ≡ true
      → is_accounted id (on_payload env m payload w).0 ≡ true
  unfolding on_payload
  on_payload-accounted m none id w h = bury-accounted m malformed_message none id w h
  on_payload-accounted m (some []) id w h = bury-accounted m malformed_message none id w h
  on_payload-accounted m (some (c ∷ s)) id w h =
      on_json-accounted m (c ∷ s) (env.parse_json (c ∷ s)) id w h

  process_message-accounted :
      (m : Message) (id : ℕ) (w : World T)
      → ((m.id == id) ≡ true → is_shutdown m ≡ false)
      → is_accounted id w ≡ true
      → is_accounted id (process_message env m w).0 ≡ true
  unfolding process_message
  process_message-accounted m id w real h = elim (Bool-cases (is_shutdown m)) [
    | inl stop ↦ rw stop (ack-accounted m.id id w (λ same. ground (arith, stop, real same)) h)
    | inr go ↦ rw go (on_payload-accounted m _ id w h)
  ]

  -- Whatever the handler, the dead-letter callback and Redis do: a message that is pending when a
  -- batch starts, and is no shutdown signal of the batch, is afterwards still pending, or it was
  -- handled, or it is among the dead letters.
  pub no_message_is_lost :
      (ms : List Message) (id : ℕ) (w : World T)
      → All (λ (m : Message). (m.id == id) ≡ true → is_shutdown m ≡ false) ms
      → is_accounted id w ≡ true
      → is_accounted id (process_messages env ms w).0 ≡ true
  unfolding process_messages
  no_message_is_lost [] id w real h = h
  no_message_is_lost (m ∷ ms) id w (first, real) h =
      let step = process_message-accounted m id w first h in
      ground (arith, step, no_message_is_lost ms id (process_message env m w).0 real step)
