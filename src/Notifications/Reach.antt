-- ===== src/Notifications/Reach.antt =====
-- notification/activity-notification.handler.ts: whom an event reaches.
use mathlib.Core.Path.{subst}
use mathlib.Core.Option.{some-injective}
use crm_collab.Base.{
  ◌≡◌, refl, sym, ◌∙◌, ap, inl, inr, Bool, true, false, not, ◌&&◌, ◌||◌, Option, none, some, List,
  [], ◌∷◌, ◌++◌, select, some_of, get_or, arith, All, Bool-cases, ==_self,
}
use crm_collab.Base.Text.{Text}
use crm_collab.Access.{Channel, is_client}
use crm_collab.Consumer.{text_eq}
use crm_collab.Notifications.{
  CollabEvent, ProjectMember, Activity, has_text, is_external, describe,
  resolve_activity_recipients,
}
use crm_collab.Notifications.Insertion.{
  Notification, fits, is_for, insert_new, insert_all, create, notification_of, notifications,
  persist_activity, persist_activity_notification,
}

text_eq→eq : (s t : Text) → text_eq s t ≡ true → s ≡ t
text_eq→eq [] [] h = refl
text_eq→eq [] (d ∷ t) h = cc
text_eq→eq (c ∷ s) [] h = cc
text_eq→eq (c ∷ s) (d ∷ t) h =
    let tails : s ≡ t = text_eq→eq s t (ground (arith, h)) in
    let heads : c ≡ d = ground (arith, h) in ap (λ x. x ∷ s) heads ∙ ap (λ u. d ∷ u) tails

text_eq_self : (s : Text) → text_eq s s ≡ true
text_eq_self [] = refl
text_eq_self (c ∷ s) = ground (arith, ==_self c, text_eq_self s)

-- Whether a user has a notification of an event.
abbrev pub is_told : List Notification → Text → Text → Bool
is_told rows event sub = some_of (is_for event sub) rows

some_of-append :
    (p : Notification → Bool) (xs : List Notification) (n : Notification)
    → some_of p (xs ++ n ∷ []) ≡ (some_of p xs || p n)
some_of-append p [] n = ground arith
some_of-append p (x ∷ xs) n = ground (arith, some_of-append p xs n)

-- A notification for the same user about the same event is already there.
told_twice :
    (e s : Text) (n : Notification) (rows : List Notification)
    → is_told rows n.event_id n.recipient_sub ≡ true
    → is_told rows e s ≡ (is_told rows e s || is_for e s n)
unfolding is_for
told_twice e s n rows old = elim (Bool-cases (text_eq n.event_id e && text_eq n.recipient_sub s)) [
  | inl same ↦
      let event : n.event_id ≡ e = text_eq→eq _ _ (ground (arith, same)) in
      let user : n.recipient_sub ≡ s = text_eq→eq _ _ (ground (arith, same)) in
      rw (← event, ← user, old) refl
  | inr other ↦ rw other (ground arith)
]

is_told-insert_new :
    (e s : Text) (n : Notification) (rows : List Notification)
    → is_told (insert_new n rows) e s ≡ (is_told rows e s || is_for e s n)
unfolding insert_new
is_told-insert_new e s n rows = elim (Bool-cases (is_told rows n.event_id n.recipient_sub)) [
  | inl old ↦ rw old (told_twice e s n rows old)
  | inr new ↦ rw new (some_of-append (is_for e s) rows n)
]

insert_told :
    (n : Notification) (rows : List Notification)
    → is_told rows n.event_id n.recipient_sub ≡ true
    → insert_new n rows ≡ rows
unfolding insert_new
insert_told n rows old = rw old refl

-- A member to whom an activity goes: not its author, not excluded, and named, or, where nobody is
-- named, one who may see the channel.
abbrev pub is_addressed : Option (List Text) → Channel → ProjectMember → Bool
is_addressed (some (r ∷ rs)) channel m = has_text (r ∷ rs) m.user_sub
is_addressed _ channel m = is_external channel || not (is_client m.role)

abbrev pub is_recipient :
    Text → Channel → Option (List Text) → Option (List Text) → ProjectMember → Bool
is_recipient actor channel recipients excluded m =
    not (text_eq m.user_sub actor)
    && not (has_text (get_or excluded []) m.user_sub)
    && is_addressed recipients channel m

abbrev pub receives : Text → Option Activity → ProjectMember → Bool
receives actor none m = false
receives actor (some a) m = is_recipient actor a.channel a.recipients a.excluded_recipients m

pub resolve_lem :
    (actor : Text) (channel : Channel) (recipients excluded : Option (List Text))
    (members : List ProjectMember)
    → resolve_activity_recipients members actor channel recipients excluded
      ≡ select (is_recipient actor channel recipients excluded) members
unfolding resolve_activity_recipients
resolve_lem actor channel none excluded members = refl
resolve_lem actor channel (some []) excluded members = refl
resolve_lem actor channel (some (r ∷ rs)) excluded members = refl

some_of-select :
    (p q : ProjectMember → Bool) (ms : List ProjectMember)
    → some_of p (select q ms) ≡ some_of (λ m. p m && q m) ms
some_of-select p q [] = refl
some_of-select p q (m ∷ ms) = ground (arith, some_of-select p q ms)

none_of :
    (p : ProjectMember → Bool) (ms : List ProjectMember) → some_of (λ m. p m && false) ms ≡ false
none_of p [] = refl
none_of p (m ∷ ms) = ground (arith, none_of p ms)

create-rows :
    (ns rows : List Notification) {rows' : List Notification}
    → create ns rows ≡ some rows'
    → insert_all ns rows ≡ rows'
unfolding create
create-rows ns rows e = elim (Bool-cases (some_of (λ n. not (fits n)) ns)) [
  | inl bad ↦ absurd (ground (arith, bad, e))
  | inr good ↦ some-injective _ _ (rw good at e)
]

module _ (event : CollabEvent) where
  is_told-insert_all :
      (a : Activity) (s : Text) (ms : List ProjectMember) (rows : List Notification)
      → is_told (insert_all (notifications event a ms) rows) event.id s
        ≡ (is_told rows event.id s || some_of (λ m. text_eq m.user_sub s) ms)
  unfolding insert_all is_for
  is_told-insert_all a s [] rows = ground arith
  is_told-insert_all a s (m ∷ ms) rows =
      is_told-insert_all a s ms (insert_new (notification_of event a m) rows)
      ∙ ground (
        arith,
        is_told-insert_new event.id s (notification_of event a m) rows,
        text_eq_self event.id,
      )

  persist_activity-reaches :
      (activity : Option Activity) (s : Text) (members : List ProjectMember)
      (rows : List Notification) {rows' : List Notification}
      → persist_activity event members activity rows ≡ some rows'
      → is_told rows' event.id s ≡ (
          is_told rows event.id s
          || some_of (λ m. text_eq m.user_sub s && receives event.actor_sub activity m) members)
  unfolding persist_activity
  persist_activity-reaches none s members rows e =
      rw (none_of (λ m. text_eq m.user_sub s) members, some-injective _ _ e) (ground arith)
  persist_activity-reaches (some a) s members rows e =
      let ms =
        resolve_activity_recipients members event.actor_sub a.channel a.recipients
          a.excluded_recipients in
      let written = create-rows (notifications event a ms) rows e in
      ap (λ r. is_told r event.id s) (sym written)
      ∙ is_told-insert_all a s ms rows
      ∙ ap (λ ms. is_told rows event.id s || some_of (λ m. text_eq m.user_sub s) ms)
          (resolve_lem event.actor_sub a.channel a.recipients a.excluded_recipients members)
      ∙ ap (λ b. is_told rows event.id s || b)
          (some_of-select (λ m. text_eq m.user_sub s)
            (is_recipient event.actor_sub a.channel a.recipients a.excluded_recipients) members)

  -- Once its statement has succeeded, an event has a notification for exactly the users who had one
  -- already, and for the members to whom its activity goes: never its author, nor who is excluded; if
  -- recipients are named, those; otherwise everybody, but no client where the activity is internal. An
  -- event that describes no activity adds none.
  pub persist_reaches :
      (s : Text) (members : List ProjectMember) (rows : List Notification)
      {rows' : List Notification}
      → persist_activity_notification event members rows ≡ some rows'
      → is_told rows' event.id s ≡ (
          is_told rows event.id s
          || some_of
              (λ m.
                text_eq m.user_sub s
                && receives event.actor_sub (describe event.type event.event_data) m)
              members)
  unfolding persist_activity_notification
  persist_reaches s members rows e =
      persist_activity-reaches (describe event.type event.event_data) s members rows e

  -- Those who have a notification already get no second one.
  all_told :
      (a : Activity) (ms : List ProjectMember) (rows : List Notification)
      → All (λ m. is_told rows event.id m.user_sub ≡ true) ms
      → insert_all (notifications event a ms) rows ≡ rows
  unfolding insert_all
  all_told a [] rows h = refl
  all_told a (m ∷ ms) rows (told, h) =
      ap (insert_all (notifications event a ms)) (insert_told (notification_of event a m) rows told)
      ∙ all_told a ms rows h

  -- What is there stays, and every row that was to be inserted is there.
  told_stays :
      (a : Activity) (s : Text) (ms : List ProjectMember) (rows : List Notification)
      → is_told rows event.id s ≡ true
      → is_told (insert_all (notifications event a ms) rows) event.id s ≡ true
  told_stays a s ms rows h = ground (arith, is_told-insert_all a s ms rows, h)

  All-told :
      (a : Activity) (ms : List ProjectMember) (rows : List Notification)
      → All
          (λ m. is_told (insert_all (notifications event a ms) rows) event.id m.user_sub ≡ true)
          ms
  unfolding insert_all is_for
  All-told a [] rows = tt
  All-told a (m ∷ ms) rows =
      let first = insert_new (notification_of event a m) rows in
      (
        told_stays a m.user_sub ms first (
            is_told-insert_new event.id m.user_sub (notification_of event a m) rows
            ∙ ground (arith, text_eq_self event.id, text_eq_self m.user_sub)),
        All-told a ms first,
      )

  persist_activity_again :
      (activity : Option Activity) (members : List ProjectMember) (rows : List Notification)
      {rows' : List Notification}
      → persist_activity event members activity rows ≡ some rows'
      → persist_activity event members activity rows' ≡ some rows'
  unfolding persist_activity create
  persist_activity_again none members rows e = refl
  persist_activity_again (some a) members rows {rows'} e =
      let ms =
        resolve_activity_recipients members event.actor_sub a.channel a.recipients
          a.excluded_recipients in
      let written = create-rows (notifications event a ms) rows e in
      elim (Bool-cases (some_of (λ n. not (fits n)) (notifications event a ms))) [
        | inl bad ↦ absurd (ground (arith, bad, e))
        | inr good ↦ rw good (
            ap some (
              subst (λ r. insert_all (notifications event a ms) r ≡ r) written
                (all_told a ms _ (All-told a ms rows))))
      ]

  -- An event that was persisted and is delivered again, with the same members, changes nothing and
  -- succeeds.
  pub persist_again :
      (members : List ProjectMember) (rows : List Notification) {rows' : List Notification}
      → persist_activity_notification event members rows ≡ some rows'
      → persist_activity_notification event members rows' ≡ some rows'
  unfolding persist_activity_notification
  persist_again members rows e =
      persist_activity_again (describe event.type event.event_data) members rows e
