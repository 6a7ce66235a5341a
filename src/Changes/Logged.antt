-- ===== src/Changes/Logged.antt =====
-- change-request.service.ts: the log of the changes has every formal request that is approved.
use crm_collab.Base.{
  ℕ, ◌<◌, ◌≡◌, refl, Bool, true, ◌||◌, List, [], ◌∷◌, ◌++◌, arith, some_of, is_just, All, ◌==◌,
}
use crm_collab.Base.Table.{IsKeyed, All-append, All-update_where}
use crm_collab.Base.Keyed.{All-update_by, IsKeyed-append, IsKeyed-update_where}
use crm_collab.Changes.{
  RequestStatus, formal, approved, ChangeRequest, ChangeLogEntry, ChangeDb,
  find_change_request_by_id, update_change_request_by_id, request_id,
}
use crm_collab.Changes.Effects.{Adds, create_minor-Adds, create_formal-Adds}
use crm_collab.Changes.Effects.Resolution.{Resolves, resolve-Resolves, patch_brief-keeps}
use crm_collab.Changes.Steps.{
  Step, Reaches, minor_requested, formal_requested, resolved, brief_patched, here, later,
}

-- The log has an entry that names the request.
abbrev pub is_logged : List ChangeLogEntry → ℕ → Bool
is_logged log id = some_of (λ (e : ChangeLogEntry). is_just e.source_change_request_id id) log

abbrev pub LoggedIn : List ChangeLogEntry → ChangeRequest → Type 0
LoggedIn log r = r.type ≡ formal → r.status ≡ approved → is_logged log r.id ≡ true

is_logged-append :
    (log more : List ChangeLogEntry) (id : ℕ)
    → is_logged (log ++ more) id ≡ (is_logged log id || is_logged more id)
is_logged-append [] more id = refl
is_logged-append (e ∷ log) more id = ground (arith, is_logged-append log more id)

All-imp :
    (P Q : ChangeRequest → Type 0) (rows : List ChangeRequest)
    → ((r : ChangeRequest) → P r → Q r)
    → All P rows
    → All Q rows
All-imp P Q [] f h = tt
All-imp P Q (r ∷ rows) f (hr, h) = (f r hr, All-imp P Q rows f h)

-- A log only grows.
LoggedIn-append :
    (log more : List ChangeLogEntry) (r : ChangeRequest) → LoggedIn log r → LoggedIn (log ++ more) r
LoggedIn-append log more r h is_formal is_done =
    ground (arith, is_logged-append log more r.id, h is_formal is_done)

record IsSound (db : ChangeDb) : Type 0 where
  pub keyed : IsKeyed request_id db.requests
  pub below : All (λ (r : ChangeRequest). r.id < db.next_id) db.requests
  pub logged : All (LoggedIn db.change_log) db.requests

Adds-IsSound : {db db' : ChangeDb} {r : ChangeRequest} → Adds db db' r → IsSound db → IsSound db'
Adds-IsSound {db} {db'} {r} a s = record {
  keyed = rw a.rows (IsKeyed-append request_id db.requests db.next_id r s.below a.fresh s.keyed);
  below = rw a.rows (
      All-append (λ (q : ChangeRequest). q.id < db'.next_id) db.requests (r ∷ [])
        (All-imp (λ (q : ChangeRequest). q.id < db.next_id) _ db.requests
          (λ q lt. omega (arith, lt, a.fresh, a.grows)) s.below)
        (omega (arith, a.grows), tt));
  logged =
      rw (a.rows, a.log)
        (All-append (LoggedIn db.change_log) db.requests (r ∷ []) s.logged
          ((λ is_formal is_done. absurd (ground (arith, a.opened, is_done))), tt));
}

Resolves-IsSound :
    {db db' : ChangeDb} {id : ℕ} {status : RequestStatus}
    → Resolves db db' id status
    → IsSound db
    → IsSound db'
unfolding find_change_request_by_id update_change_request_by_id
Resolves-IsSound {db} {db'} {id} {status} d s = record {
  keyed =
      rw d.rows (
        IsKeyed-update_where request_id (λ q. request_id q == id) _ db.requests (λ q. refl)
          s.keyed);
  below =
      rw (d.rows, d.ids)
        (All-update_where (λ (q : ChangeRequest). q.id < db.next_id) (λ q. request_id q == id) _
          db.requests (λ q hit lt. lt) s.below);
  logged =
      rw (d.rows, d.log)
        (All-update_by request_id (LoggedIn db.change_log) (LoggedIn (db.change_log ++ d.entries))
          id _ db.requests s.keyed d.read (λ q. LoggedIn-append db.change_log d.entries q)
          (λ was is_formal is_done.
            let (e, is, names) = d.logged is_formal is_done in
            ground (arith, is_logged-append db.change_log d.entries d.request.id, is, names))
          s.logged);
}

Step-IsSound : {db db' : ChangeDb} → Step db db' → IsSound db → IsSound db'
Step-IsSound {db} (minor_requested repo actor project_id payload now r e) s =
    Adds-IsSound (create_minor-Adds repo db actor project_id payload now e).0 s
Step-IsSound {db} (formal_requested repo actor project_id payload now r e) s =
    Adds-IsSound (create_formal-Adds repo db actor project_id payload now e).0 s
Step-IsSound {db} (resolved repo actor project_id id status comment now r closes e) s =
    Resolves-IsSound (resolve-Resolves repo db actor project_id id status comment now e) s
Step-IsSound {db} {db'} (brief_patched repo actor project_id body now e) s =
    let (rows, ids, (entry, unnamed, log)) =
      patch_brief-keeps repo db actor project_id body now e in
    record {
      keyed = rw rows s.keyed;
      below = rw (rows, ids) s.below;
      logged =
          rw (rows, log)
            (All-imp (LoggedIn db.change_log) _ db.requests
              (λ q. LoggedIn-append db.change_log (entry ∷ []) q) s.logged);
    }

Reaches-IsSound : {db db' : ChangeDb} → db.requests ≡ [] → Reaches db db' → IsSound db'
Reaches-IsSound none_yet here = record {
  keyed = rw none_yet tt;
  below = rw none_yet tt;
  logged = rw none_yet tt;
}
Reaches-IsSound none_yet (later mid before step) =
    Step-IsSound step (Reaches-IsSound none_yet before)

-- In whatever order requests are made and resolved and briefs are edited, starting with no request,
-- every formal request that is approved has an entry in the log of changes that names it.
pub approved_are_logged :
    {db db' : ChangeDb}
    → db.requests ≡ []
    → Reaches db db'
    → All (LoggedIn db'.change_log) db'.requests
approved_are_logged none_yet path = (Reaches-IsSound none_yet path).logged
