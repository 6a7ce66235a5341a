-- ===== src/Identity/Deletion.antt =====
-- events/auth-event-handler.ts and shared/identity-snapshot-store.ts: what the deletion of a user
-- leaves behind.
use crm_collab.Base.{
  ℕ, ◌≡◌, true, not, none, some, List, ◌==◌, if◌then◌else◌, select, is_just, All, map,
}
use crm_collab.Base.Text.{Text}
use crm_collab.Base.Maps.{map_get}
use crm_collab.Identity.{OwnedRow, IdentityDb}
use crm_collab.Identity.Events.{anon_email}
use crm_collab.Identity.Cache.{profile_of}

abbrev pub row_id : OwnedRow → ℕ
row_id r = r.id

abbrev pub others : ℕ → List OwnedRow → List OwnedRow
others sub rows = select (λ r. not (is_just r.owner_sub sub)) rows

module _ (shown : ℕ → Text) (sub : ℕ) where
  -- The rows of the user carry the substitute address, those of others are as they were, and no row
  -- came, went or moved.
  abbrev pub IsErased : List OwnedRow → List OwnedRow → Type 0
  IsErased rows rows' =
      All (λ r. is_just r.owner_sub sub ≡ true → r.email ≡ some (anon_email shown sub)) rows'
      × (others sub rows' ≡ others sub rows)
      × (map row_id rows' ≡ map row_id rows)

  -- The rest of the store after a deletion.
  pub record IsForgotten (db db' : IdentityDb) : Type 0 where
    pub snapshots :
        (s : ℕ)
        → profile_of db'.snapshots s ≡ (if sub == s then none else profile_of db.snapshots s)
    pub cache : (s : ℕ) → map_get s db'.cache ≡ (if sub == s then none else map_get s db.cache)
    pub members : IsErased db.members db'.members
    pub chat_messages : IsErased db.chat_messages db'.chat_messages
    pub files : IsErased db.files db'.files
    pub task_assignees : IsErased db.task_assignees db'.task_assignees
    pub task_comments : IsErased db.task_comments db'.task_comments
    pub mention_notifications : IsErased db.mention_notifications db'.mention_notifications
