-- ===== src/Consumer/LastDelivery.antt =====
-- cima-contracts/src/event-consumer.ts: no message stays pending beyond its last delivery, when
-- Redis and the dead-letter callback answer.
use mathlib.Core.Path.{subst}
use crm_collab.Base.{
  ℕ, ◌≤◌, ◌≡◌, ◌≢◌, ◌⊎◌, inl, inr, refl, sym, Bool, true, false, not, Option, none, some, List, [],
  ◌∷◌, ◌++◌, arith, ltb, ◌==◌, select, find, All, Bool-cases,
}
use crm_collab.Base.Text.{Text}
use crm_collab.Base.Table.{All-select}
use crm_collab.Consumer.{
  Json, Reason, DlqContext, PendingEntry, Reply, returned, non_retryable, failed, World,
  Surroundings, Message, ack, get_delivery_count, send_to_dlq, then_ack, bury, on_error, caught,
  on_reply, on_parsed, on_schema, on_json, on_payload, is_shutdown, extract_version,
  malformed_message, invalid_json, unsupported_version, invalid_schema, max_retries_exceeded,
  process_message, process_messages,
}

select-removes :
    (k : ℕ) (es : List PendingEntry)
    → All (λ (e : PendingEntry). e.id ≢ k) (select (λ e. not (e.id == k)) es)
select-removes k [] = tt
select-removes k (e ∷ es) = elim (Bool-cases (e.id == k)) [
  | inl same ↦ rw same (select-removes k es)
  | inr other ↦ rw other ((λ eq. ground (arith, other, eq)), select-removes k es)
]

find-cases :
    (k n : ℕ) (es : List PendingEntry)
    → All (λ (e : PendingEntry). n ≤ e.deliveries) es
    → (All (λ (e : PendingEntry). e.id ≢ k) es × (find (λ e. e.id == k) es ≡ none))
      ⊎ ((e : PendingEntry) × (find (λ e. e.id == k) es ≡ some e) × (n ≤ e.deliveries))
find-cases k n [] h = inl (tt, refl)
find-cases k n (e ∷ es) (le, h) = elim (Bool-cases (e.id == k)) [
  | inl same ↦ inr (e, rw same refl, le)
  | inr other ↦ elim (find-cases k n es h) [
    | inl (apart, is) ↦ inl (((λ eq. ground (arith, other, eq)), apart), rw other is)
    | inr (f, is, bound) ↦ inr (f, rw other is, bound)
  ]
]

module _ {T : Type 0} where
  -- A step that ends without an error, after which the message is not pending, and no other message
  -- has become so.
  unfoldable pub Clears : ℕ → World T → World T × Bool → Type 1
  Clears k w r =
      (r.1 ≡ true)
      × All (λ (e : PendingEntry). e.id ≢ k) r.0.pending
      × ((P : PendingEntry → Type 0) → All P w.pending → All P r.0.pending)

module _ {T : Type 0} (env : Surroundings T)
    (dlq_answers : (w : World T) (d : DlqContext) → env.on_dlq w d ≡ true)
    (xack_answers : (w : World T) (id : ℕ) → env.xack w id ≡ true) where
  pub ack-Clears : (k : ℕ) (w : World T) → Clears k w (ack env k w)
  unfolding Clears ack
  ack-Clears k w =
      rw (xack_answers w k)
        (refl, select-removes k w.pending, λ P h. All-select P (λ e. not (e.id == k)) w.pending h)

  pub bury-Clears :
      (m : Message) (reason : Reason) (payload : Option Text) (w : World T)
      → Clears m.id w (bury env m reason payload w)
  unfolding Clears bury send_to_dlq then_ack
  bury-Clears m reason payload w = rw (dlq_answers w _) (ack-Clears m.id (record w { dead = _ }))

module _ {T : Type 0} (env : Surroundings T)
    (dlq_answers : (w : World T) (d : DlqContext) → env.on_dlq w d ≡ true)
    (xack_answers : (w : World T) (id : ℕ) → env.xack w id ≡ true)
    (xpending_answers : (w : World T) (id : ℕ) → env.xpending w id ≡ true) where
  on_error-Clears :
      (m : Message) (json : Text) (count : ℕ) (reason : Option Reason) (w : World T)
      → (env.max_retries ≤ count) ⊎ All (λ (e : PendingEntry). e.id ≢ m.id) w.pending
      → Clears m.id w (on_error env m json count reason w)
  unfolding on_error Clears
  on_error-Clears m json count (some reason) w last =
      bury-Clears env dlq_answers xack_answers m reason (some json) w
  on_error-Clears m json count none w (inl spent) =
      let over : ltb count env.max_retries ≡ false = ground (arith, spent) in
      rw over (bury-Clears env dlq_answers xack_answers m max_retries_exceeded (some json) w)
  on_error-Clears m json count none w (inr gone) = elim (Bool-cases (ltb count env.max_retries)) [
    | inl under ↦ rw under (refl, gone, λ P h. h)
    | inr over ↦
        rw over (bury-Clears env dlq_answers xack_answers m max_retries_exceeded (some json) w)
  ]

  get_delivery_count-cases :
      (k : ℕ) (w : World T)
      → All (λ (e : PendingEntry). env.max_retries ≤ e.deliveries) w.pending
      → (env.max_retries ≤ get_delivery_count env k w)
        ⊎ All (λ (e : PendingEntry). e.id ≢ k) w.pending
  unfolding get_delivery_count
  get_delivery_count-cases k w spent = elim (find-cases k env.max_retries w.pending spent) [
    | inl (gone, is) ↦ inr gone
    | inr (e, is, bound) ↦ inl (rw (xpending_answers w k, is) (ground (arith, bound)))
  ]

  on_reply-Clears :
      (m : Message) (json : Text) (event : T) (count : ℕ) (reply : Reply) (w : World T)
      → (env.max_retries ≤ count) ⊎ All (λ (e : PendingEntry). e.id ≢ m.id) w.pending
      → Clears m.id w (on_reply env m json event count reply w)
  unfolding on_reply caught ack Clears
  on_reply-Clears m json event count returned w last =
      rw (xack_answers (record w { handled = w.handled ++ (m.id, event) ∷ [] }) m.id) (
        refl,
        select-removes m.id w.pending,
        λ P h. All-select P (λ e. not (e.id == m.id)) w.pending h,
      )
  on_reply-Clears m json event count (non_retryable reason) w last =
      on_error-Clears m json count (some reason) w last
  on_reply-Clears m json event count failed w last = on_error-Clears m json count none w last

  Spent : World T → Type 0
  Spent w = All (λ (e : PendingEntry). env.max_retries ≤ e.deliveries) w.pending

  on_parsed-Clears :
      (m : Message) (json : Text) (event : Option T) (w : World T)
      → Spent w
      → Clears m.id w (on_parsed env m json event w)
  unfolding on_parsed Spent
  on_parsed-Clears m json none w spent =
      bury-Clears env dlq_answers xack_answers m invalid_schema (some json) w
  on_parsed-Clears m json (some event) w spent =
      on_reply-Clears m json event (get_delivery_count env m.id w) (env.handler w event) w
        (get_delivery_count-cases m.id w spent)

  on_schema-Clears :
      (m : Message) (json : Text) (raw : Json) (schema : Option (Json → Option T)) (w : World T)
      → Spent w
      → Clears m.id w (on_schema env m json raw schema w)
  unfolding on_schema
  on_schema-Clears m json raw none w spent =
      bury-Clears env dlq_answers xack_answers m unsupported_version (some json) w
  on_schema-Clears m json raw (some schema) w spent = on_parsed-Clears m json (schema raw) w spent

  on_json-Clears :
      (m : Message) (json : Text) (raw : Option Json) (w : World T)
      → Spent w
      → Clears m.id w (on_json env m json raw w)
  unfolding on_json
  on_json-Clears m json none w spent =
      bury-Clears env dlq_answers xack_answers m invalid_json (some json) w
  on_json-Clears m json (some raw) w spent =
      on_schema-Clears m json raw (env.schemas (extract_version raw)) w spent

  on_payload-Clears :
      (m : Message) (payload : Option Text) (w : World T)
      → Spent w
      → Clears m.id w (on_payload env m payload w)
  unfolding on_payload
  on_payload-Clears m none w spent =
      bury-Clears env dlq_answers xack_answers m malformed_message none w
  on_payload-Clears m (some []) w spent =
      bury-Clears env dlq_answers xack_answers m malformed_message none w
  on_payload-Clears m (some (c ∷ s)) w spent =
      on_json-Clears m (c ∷ s) (env.parse_json (c ∷ s)) w spent

  process_message-Clears :
      (m : Message) (w : World T) → Spent w → Clears m.id w (process_message env m w)
  unfolding process_message
  process_message-Clears m w spent = elim (Bool-cases (is_shutdown m)) [
    | inl stop ↦ rw stop (ack-Clears env dlq_answers xack_answers m.id w)
    | inr go ↦ rw go (on_payload-Clears m _ w spent)
  ]

  -- A batch only takes entries off the list, so what held of all of them still does.
  process_messages-keeps :
      (P : PendingEntry → Type 0) (ms : List Message) (w : World T)
      → Spent w
      → All P w.pending
      → All P (process_messages env ms w).0.pending
  unfolding process_messages Clears Spent
  process_messages-keeps P [] w spent h = h
  process_messages-keeps P (m ∷ ms) w spent h =
      let (done, gone, keep) = process_message-Clears m w spent in
      rw done (process_messages-keeps P ms (process_message env m w).0 (keep _ spent) (keep P h))

  -- When Redis and the dead-letter callback answer and every pending message has had its last
  -- delivery, a batch runs to its end and leaves none of its messages pending, whatever the handler
  -- does.
  pub last_delivery_clears :
      (ms : List Message) (w : World T)
      → All (λ (e : PendingEntry). env.max_retries ≤ e.deliveries) w.pending
      → let after = process_messages env ms w in
        (after.1 ≡ true)
        × All (λ (m : Message). All (λ (e : PendingEntry). e.id ≢ m.id) after.0.pending) ms
  unfolding process_messages Clears Spent
  last_delivery_clears [] w spent = (refl, tt)
  last_delivery_clears (m ∷ ms) w spent =
      let (done, gone, keep) = process_message-Clears m w spent in
      let next = (process_message env m w).0 in
      let (rest_done, rest) = last_delivery_clears ms next (keep _ spent) in
      let goes_on : process_messages env (m ∷ ms) w ≡ process_messages env ms next = rw done refl in
      subst
        (λ (r : World T × Bool).
          (r.1 ≡ true)
          × All (λ (m : Message). All (λ (e : PendingEntry). e.id ≢ m.id) r.0.pending) (m ∷ ms))
        (sym goes_on)
        (rest_done, (process_messages-keeps (λ e. e.id ≢ m.id) ms next (keep _ spent) gone, rest))
