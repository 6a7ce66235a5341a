-- ===== src/DeadLetters/RoundTrip.antt =====
-- events/auth-events-dlq.ts: what is written is what is read.
use crm_collab.Base.{◌≡◌, ◌≢◌, refl, ◌∙◌, Option, none, some, [], ◌∷◌}
use crm_collab.Base.Text.{Text}
use crm_collab.Consumer.{Fields}
use crm_collab.DeadLetters.{
  Formats, AuthEventDlqRecord, dlq_fields, stream_fields_to_object, raw_fields_of, parse_dlq_entry,
}

-- The optional texts that are written: an empty one is not.
abbrev pub non_empty : Option Text → Option Text
non_empty none = none
non_empty (some []) = none
non_empty (some (c ∷ s)) = some (c ∷ s)

module _ (f : Formats) where
  -- The record that is read, before the laws of the numbers and of JSON.
  abbrev read_record : AuthEventDlqRecord → Option Text → Option Text → AuthEventDlqRecord
  read_record r stack payload = record r {
    delivery_count = f.text_number (f.number_text r.delivery_count);
    error_stack = non_empty stack;
    payload = non_empty payload;
    raw_fields = raw_fields_of f (some (f.stringify r.raw_fields));
  }

  read_written :
      (r : AuthEventDlqRecord) (stack payload : Option Text)
      → parse_dlq_entry f (dlq_fields f (record r { error_stack = stack; payload = payload }))
        ≡ read_record r stack payload
  unfolding parse_dlq_entry dlq_fields stream_fields_to_object
  read_written r none none = refl
  read_written r none (some []) = refl
  read_written r none (some (c ∷ t)) = refl
  read_written r (some []) none = refl
  read_written r (some []) (some []) = refl
  read_written r (some []) (some (c ∷ t)) = refl
  read_written r (some (c ∷ t)) none = refl
  read_written r (some (c ∷ t)) (some []) = refl
  read_written r (some (c ∷ t)) (some (d ∷ u)) = refl

  raw_fields_back :
      (t : Text) (m : Fields) → f.parse t ≡ some m → t ≢ [] → raw_fields_of f (some t) ≡ m
  unfolding raw_fields_of
  raw_fields_back [] m read some_text = absurd (some_text refl)
  raw_fields_back (c ∷ t) m read some_text = rw read refl

-- A dead letter that is written to its stream and read again is the one that was written, with an
-- empty stack or payload read as none, provided that the number of deliveries is the number of its
-- text, and that the JSON of the raw fields is not empty and parses to them.
pub round_trip :
    (f : Formats) (r : AuthEventDlqRecord)
    → f.text_number (f.number_text r.delivery_count) ≡ r.delivery_count
    → f.parse (f.stringify r.raw_fields) ≡ some r.raw_fields
    → f.stringify r.raw_fields ≢ []
    → parse_dlq_entry f (dlq_fields f r)
      ≡ record r { error_stack = non_empty r.error_stack; payload = non_empty r.payload }
round_trip f r number json written =
    read_written f r r.error_stack r.payload
    ∙ rw (number, raw_fields_back f (f.stringify r.raw_fields) r.raw_fields json written) refl
