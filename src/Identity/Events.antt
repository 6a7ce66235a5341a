-- ===== src/Identity/Events.antt =====
-- shared/identity-snapshot-store.ts, `anonymizeUserPII`, and the handler of
-- events/auth-event-handler.ts. The counters of Redis and the trace are left out.
use crm_collab.Base.{ℕ, Bool, true, false, some, List, ◌++◌, ◌==◌, if◌then◌else◌, is_just}
use crm_collab.Base.Text.{Text, codes}
use crm_collab.Base.Table.{update_where}
use crm_collab.Identity.{
  UserProfile, Snapshot, OwnedRow, IdentityDb, upsert_user_identity_snapshot,
  delete_user_identity_snapshot,
}

-- The events of auth-identity-events.ts: a user was deleted, or created or changed.
pub data AuthEvent : Type 0 where
  user_deleted : (sub : ℕ) → AuthEvent
  user_changed : (sub : ℕ) (profile : UserProfile) → AuthEvent

abbrev pub snapshot_of : ℕ → UserProfile → ℕ → Snapshot
snapshot_of sub p now = record {
  user_sub = sub;
  email = p.email;
  role = p.role;
  first_name = p.first_name;
  last_name = p.last_name;
  client_kind = p.client_kind;
  company_name = p.company_name;
  profession = p.profession;
  updated_at = now;
}

module _ (shown : ℕ → Text) where
  unfoldable pub anon_email : ℕ → Text
  anon_email sub = codes "anon-" ++ (shown sub ++ codes "@cima.internal")

  -- `update … set email = anonEmail where owner = userSub`
  unfoldable pub anonymize_rows : ℕ → List OwnedRow → List OwnedRow
  unfolding update_where anon_email
  anonymize_rows sub rows =
      update_where (λ r. is_just r.owner_sub sub) (λ r. record r { email = some (anon_email sub) })
        rows

  unfoldable pub anonymize_user_pii : ℕ → IdentityDb → IdentityDb
  unfolding delete_user_identity_snapshot anonymize_rows
  anonymize_user_pii sub db =
      let gone = delete_user_identity_snapshot sub db in
      record gone {
        members = anonymize_rows sub gone.members;
        chat_messages = anonymize_rows sub gone.chat_messages;
        files = anonymize_rows sub gone.files;
        task_assignees = anonymize_rows sub gone.task_assignees;
        task_comments = anonymize_rows sub gone.task_comments;
        mention_notifications = anonymize_rows sub gone.mention_notifications;
      }

  -- `handleAuthEventV1` and `handleAuthEventV2` do the same with a validated event. No other version
  -- reaches them; the answer says whether the event was handled.
  unfoldable pub handle_auth_event : ℕ → ℕ → ℕ → AuthEvent → IdentityDb → Bool × IdentityDb
  unfolding anonymize_user_pii upsert_user_identity_snapshot
  handle_auth_event version now later (user_deleted sub) db =
      if version == 1
      then (true, anonymize_user_pii sub db)
      else if version == 2
      then (true, anonymize_user_pii sub db)
      else (false, db)
  handle_auth_event version now later (user_changed sub p) db =
      if version == 1
      then (true, upsert_user_identity_snapshot later (snapshot_of sub p now) db)
      else if version == 2
      then (true, upsert_user_identity_snapshot later (snapshot_of sub p now) db)
      else (false, db)
