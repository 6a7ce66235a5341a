-- ===== src/Consumer/Retry.antt =====
-- cima-contracts/src/event-consumer.ts: which messages are left for another delivery.
use crm_collab.Base.{
  ℕ, Bool, true, false, ◌&&◌, Option, none, some, [], ◌∷◌, ltb, if◌then◌else◌, map, has,
}
use crm_collab.Base.Text.{Text, codes}
use crm_collab.Consumer.{
  Json, Reply, failed, World, Surroundings, Message, get_delivery_count, is_shutdown,
  extract_version, get_field, parse_stream_fields,
}

unfoldable pub is_pending : {T : Type 0} → ℕ → World T → Bool
is_pending id w = has (map (λ e. e.id) w.pending) id

abbrev and_then {ℓ κ} : {A : Type ℓ} {B : Type κ} → Option A → (A → Option B) → Option B
and_then none f = none
and_then (some a) f = f a

abbrev some_text : Text → Option Text
some_text [] = none
some_text (c ∷ s) = some (c ∷ s)

abbrev is_failed : Reply → Bool
is_failed failed = true
is_failed _ = false

module _ {T : Type 0} (env : Surroundings T) where
  -- The event that a message carries, if it carries one that the consumer takes.
  abbrev event_of_json : Json → Option T
  event_of_json raw = and_then (env.schemas (extract_version raw)) (λ schema. schema raw)

  abbrev event_of_text : Text → Option T
  event_of_text s = and_then (env.parse_json s) event_of_json

  unfoldable pub event_of : Message → Option T
  event_of m =
      if is_shutdown m
      then none
      else and_then (get_field (codes "payload") (parse_stream_fields m.raw_fields))
          (λ s. and_then (some_text s) event_of_text)

  unfoldable pub waits : Message → World T → Option T → Bool
  waits m w none = false
  waits m w (some event) =
      (is_failed (env.handler w event) && ltb (get_delivery_count env m.id w) env.max_retries)
      && is_pending m.id w
