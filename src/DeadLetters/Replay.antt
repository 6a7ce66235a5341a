-- ===== src/DeadLetters/Replay.antt =====
-- events/auth-events-dlq.ts: what a cycle of the timer does while Redis answers.
use mathlib.Core.Path.{subst}
use crm_collab.Base.{
  suc, ◌≡◌, ◌≢◌, refl, sym, ap, ◌∙◌, inl, inr, Bool, true, false, not, ◌&&◌, Option, none, some,
  List, [], ◌∷◌, ◌++◌, ◌==◌, if◌then◌else◌, select, take, some_of, map, All, arith, Bool-cases,
  is_some,
}
use crm_collab.Base.Text.{Text, codes, text_or}
use crm_collab.Base.Table.{find_by, IsKeyed, find_by-select}
use crm_collab.Base.Keyed.{IsKeyed-take, find_by_self-take}
use crm_collab.DeadLetters.{
  Formats, parse_dlq_entry, Letter, letter_id, Posted, Streams, Redis, deleted, replay_entry,
  replay_auth_event_dlq_entry, list_auth_event_dlq_entries, replay_each, replay_cycle,
}
use crm_collab.DeadLetters.RoundTrip.{non_empty}

abbrev pub answering : Redis
answering = record { xadd = λ s. true; xdel = λ s. deleted }

abbrev payload_text : Option Text → Text
payload_text none = []
payload_text (some t) = t

-- Whether one of the entries has the id of another.
abbrev pub among : List Letter → Letter → Bool
among ls x = some_of (λ l. l.id == x.id) ls

select_both :
    (p q : Letter → Bool) (xs : List Letter) → select p (select q xs) ≡ select (λ x. q x && p x) xs
select_both p q [] = refl
select_both p q (x ∷ xs) = elim (Bool-cases (q x)) [
  | inl e ↦ rw (e, select_both p q xs) refl
  | inr e ↦ rw (e, select_both p q xs) refl
]

select_ext :
    (p q : Letter → Bool) (xs : List Letter)
    → ((x : Letter) → p x ≡ q x)
    → select p xs ≡ select q xs
select_ext p q [] h = refl
select_ext p q (x ∷ xs) h = rw (h x, select_ext p q xs h) refl

select_all : (p : Letter → Bool) (xs : List Letter) → ((x : Letter) → p x ≡ true) → select p xs ≡ xs
select_all p [] h = refl
select_all p (x ∷ xs) h = rw (h x, select_all p xs h) refl

append_assoc : (xs ys zs : List Posted) → (xs ++ ys) ++ zs ≡ xs ++ (ys ++ zs)
append_assoc [] ys zs = refl
append_assoc (x ∷ xs) ys zs = ap (λ r. x ∷ r) (append_assoc xs ys zs)

append_nil : (xs : List Posted) → xs ++ [] ≡ xs
append_nil [] = refl
append_nil (x ∷ xs) = ap (λ r. x ∷ r) (append_nil xs)

module _ (f : Formats) where
  -- Whether an entry has something to be replayed, and the message that it becomes.
  abbrev pub has_payload : Letter → Bool
  has_payload l = is_some (non_empty (parse_dlq_entry f l.fields).payload)

  abbrev pub message_of : Letter → Posted
  message_of l =
      let entry = parse_dlq_entry f l.fields in
      record {
        stream = text_or entry.source_stream f.stream_key;
        fields = codes "payload" ∷ payload_text entry.payload ∷ [];
      }

  -- The streams after the replay of an entry.
  abbrev after_replay : Letter → Streams → Streams
  after_replay l s =
      if has_payload l
      then record s {
        letters = select (λ x. not (x.id == l.id)) s.letters;
        posted = s.posted ++ message_of l ∷ [];
        next_id = suc s.next_id;
      }
      else s

  replay_entry_lem :
      (l : Letter) (payload : Option Text) (s : Streams)
      → (parse_dlq_entry f l.fields).payload ≡ payload
      → (replay_entry answering f true l.id (parse_dlq_entry f l.fields).source_stream payload s).0
        ≡ after_replay l s
  unfolding replay_entry
  replay_entry_lem l none s is = rw is refl
  replay_entry_lem l (some []) s is = rw is refl
  replay_entry_lem l (some (c ∷ t)) s is = rw is refl

  replay_lem :
      (l : Letter) (s : Streams)
      → find_by letter_id l.id s.letters ≡ some l
      → (replay_auth_event_dlq_entry answering f l.id true s).0 ≡ after_replay l s
  unfolding replay_auth_event_dlq_entry
  replay_lem l s at = rw at (replay_entry_lem l (parse_dlq_entry f l.fields).payload s refl)

  -- The letters and the messages after a list of replays.
  abbrev Cleared : List Letter → Streams → Streams → Type 0
  Cleared ls s s' =
      (s'.letters ≡ select (λ x. not (among (select has_payload ls) x)) s.letters)
      × (s'.posted ≡ s.posted ++ map message_of (select has_payload ls))

  still_there :
      (l : Letter) (ls : List Letter) (xs : List Letter)
      → All (λ k. letter_id k ≢ l.id) ls
      → All (λ k. find_by letter_id k.id xs ≡ some k) ls
      → All (λ k. find_by letter_id k.id (select (λ x. not (x.id == l.id)) xs) ≡ some k) ls
  still_there l [] xs ne at = tt
  still_there l (k ∷ ls) xs (n, ne) (a, at) = (
    find_by-select letter_id k.id (λ x. not (x.id == l.id)) xs a (ground (arith, n)),
    still_there l ls xs ne at,
  )

  replayed_with :
      (l : Letter) (ls : List Letter)
      → has_payload l ≡ true
      → select has_payload (l ∷ ls) ≡ l ∷ select has_payload ls
  replayed_with l ls has = rw has refl

  replayed_without :
      (l : Letter) (ls : List Letter)
      → has_payload l ≡ false
      → select has_payload (l ∷ ls) ≡ select has_payload ls
  replayed_without l ls none_here = rw none_here refl

  -- One more entry before the others.
  Cleared-more :
      (l : Letter) (ls : List Letter) (s s' : Streams)
      → has_payload l ≡ true
      → Cleared ls (after_replay l s) s'
      → Cleared (l ∷ ls) s s'
  Cleared-more l ls s s' has cleared =
      let (gone, sent) = rw has at cleared in
      rw (replayed_with l ls has) (
        gone
            ∙ select_both _ _ s.letters
            ∙ select_ext (λ x. not (x.id == l.id) && not (among (select has_payload ls) x))
                (λ x. not (among (l ∷ select has_payload ls) x)) s.letters (λ x. ground arith),
        sent ∙ append_assoc s.posted _ _,
      )

  Cleared-same :
      (l : Letter) (ls : List Letter) (s s' : Streams)
      → has_payload l ≡ false
      → Cleared ls (after_replay l s) s'
      → Cleared (l ∷ ls) s s'
  Cleared-same l ls s s' none_here cleared =
      rw (replayed_without l ls none_here) (rw none_here at cleared)

  replay_each-Cleared :
      (ls : List Letter) (s : Streams)
      → IsKeyed letter_id ls
      → All (λ l. find_by letter_id l.id s.letters ≡ some l) ls
      → Cleared ls s (replay_each answering f ls s)
  unfolding replay_each
  replay_each-Cleared [] s keyed at =
      (sym (select_all _ s.letters (λ x. refl)), sym (append_nil s.posted))
  replay_each-Cleared (l ∷ ls) s (apart, keyed) (a, at) =
      let step = sym (replay_lem l s a) in
      elim (Bool-cases (has_payload l)) [
        | inl has ↦
            subst (λ t. Cleared (l ∷ ls) s (replay_each answering f ls t)) step
              (Cleared-more l ls s (replay_each answering f ls (after_replay l s)) has (
                replay_each-Cleared ls (after_replay l s) keyed
                  (rw has (still_there l ls s.letters apart at))))
        | inr none_here ↦
            subst (λ t. Cleared (l ∷ ls) s (replay_each answering f ls t)) step
              (Cleared-same l ls s (replay_each answering f ls (after_replay l s)) none_here
                (replay_each-Cleared ls (after_replay l s) keyed (rw none_here at)))
      ]

  -- With distinct ids, and while Redis answers, a cycle of the timer appends the payload of each of the
  -- ten newest entries that has one to the stream that the entry came from, and removes exactly these
  -- entries: an entry without a payload, or with ten or more newer entries, stays.
  pub replay_cycle_lem :
      (s : Streams)
      → IsKeyed letter_id s.letters
      → let replayed = select has_payload (take 10 s.letters) in
        let s' = replay_cycle answering f s in
        (s'.letters ≡ select (λ x. not (among replayed x)) s.letters)
        × (s'.posted ≡ s.posted ++ map message_of replayed)
  unfolding replay_cycle list_auth_event_dlq_entries
  replay_cycle_lem s keyed =
      replay_each-Cleared (take 10 s.letters) s (IsKeyed-take letter_id 10 s.letters keyed)
        (find_by_self-take letter_id 10 s.letters keyed)
