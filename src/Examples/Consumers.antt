-- ===== src/Examples/Consumers.antt =====
-- The theorems on the stream consumer: three messages, of which the first one's handler fails, the
-- second one has no payload and the third one is the signal to stop.
use crm_collab.Base.{
  map, ℕ, ◌≡◌, ◌≢◌, refl, true, false, ◌==◌, none, some, List, [], ◌∷◌, arith, All, if◌then◌else◌,
}
use crm_collab.Base.Text.{codes}
use crm_collab.Consumer.{
  get_delivery_count, Reason, object, end, failed, max_retries_exceeded, malformed_message, World,
  Surroundings, Message, is_shutdown, process_messages, parse_stream_fields, extract_version,
  member, number,
}
use crm_collab.Consumer.Settled.{is_accounted, no_message_is_lost}
use crm_collab.Consumer.LastDelivery.{last_delivery_clears}
use crm_collab.Consumer.Retry.{is_pending, event_of, waits}

-- Every payload parses to an empty object, version 1 takes it, and the handler throws.
abbrev failing : Surroundings ℕ
failing = record {
  max_retries = 3;
  parse_json = λ s. some (object end);
  schemas = λ v. if v == 1 then some (λ j. some 77) else none;
  handler = λ w e. failed;
  on_dlq = λ w d. true;
  xack = λ w id. true;
  xpending = λ w id. true;
}

abbrev batch : List Message
batch =
    record { id = 1; raw_fields = codes "payload" ∷ codes "{}" ∷ [] }
    ∷ record { id = 2; raw_fields = codes "other" ∷ [] }
    ∷ record { id = 3; raw_fields = codes "__shutdown__" ∷ codes "1" ∷ [] }
    ∷ []

abbrev three_pending : World ℕ
three_pending = record {
  pending =
      record { id = 1; deliveries = 3 }
      ∷ record { id = 2; deliveries = 3 }
      ∷ record { id = 3; deliveries = 4 }
      ∷ [];
  handled = [];
  dead = [];
}

first_is_real : All (λ (m : Message). (m.id == 1) ≡ true → is_shutdown m ≡ false) batch
unfolding is_shutdown parse_stream_fields
first_is_real = ((λ e. refl), ((λ e. refl), ((λ e. cc), tt)))

first_is_pending : is_accounted failing 1 three_pending ≡ true
unfolding is_accounted
first_is_pending = refl

no_message_is_lost_example :
    is_accounted failing 1 (process_messages failing batch three_pending).0 ≡ true
no_message_is_lost_example =
    no_message_is_lost failing batch 1 three_pending first_is_real first_is_pending

last_delivery_clears_example :
    let after = process_messages failing batch three_pending in
    (after.1 ≡ true) × All (λ (m : Message). All (λ e. e.id ≢ m.id) after.0.pending) batch
last_delivery_clears_example =
    last_delivery_clears failing (λ w d. refl) (λ w id. refl) (λ w id. refl) batch three_pending
      (omega arith, (omega arith, (omega arith, tt)))

dead_letters :
    map {B = ℕ × Reason}
      (λ d. (d.source_message_id, d.reason))
      (process_messages failing batch three_pending).0.dead
    ≡ (1, max_retries_exceeded) ∷ (2, malformed_message) ∷ []
unfolding process_messages
dead_letters = refl

-- A key without a value is dropped, and a repeated key keeps its last value.
odd_fields :
    parse_stream_fields
      (codes "a" ∷ codes "1" ∷ codes "b" ∷ codes "2" ∷ codes "a" ∷ codes "3" ∷ codes "c" ∷ [])
    ≡ (codes "a", codes "3") ∷ (codes "b", codes "2") ∷ []
unfolding parse_stream_fields
odd_fields = refl

version_2 : extract_version (object (member (codes "version") (number 2) end)) ≡ 2
unfolding extract_version
version_2 = refl

-- A handler that fails at the second delivery of three.
abbrev second_delivery : World ℕ
second_delivery = record {
  pending = record { id = 1; deliveries = 2 } ∷ [];
  handled = [];
  dead = [];
}

abbrev real_message : Message
real_message = record { id = 1; raw_fields = codes "payload" ∷ codes "{}" ∷ [] }

left_for_retry : waits failing real_message second_delivery (event_of failing real_message) ≡ true
unfolding waits event_of is_shutdown extract_version get_delivery_count is_pending
left_for_retry = refl
