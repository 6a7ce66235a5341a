-- ===== src/Changes/OneOpen.antt =====
-- change-request.service.ts: no two open minor requests are about one task.
use crm_collab.Base.{
  ℕ, ◌≡◌, ◌≢◌, inl, inr, Bool, false, ◌&&◌, some, List, [], ◌∷◌, ◌++◌, arith, some_of, select, All,
  Bool-cases, ◌==◌,
}
use crm_collab.Base.Table.{All-anything, update_where, update_by, All-append, All-update_where}
use crm_collab.Changes.{
  minor, opened, ChangeRequest, ChangeDb, is_minor, list_minor_requests,
  update_change_request_by_id, request_id,
}
use crm_collab.Changes.Service.{open_for}
use crm_collab.Changes.Effects.{create_minor-Adds, create_formal-Adds}
use crm_collab.Changes.Effects.Resolution.{resolve-Resolves, patch_brief-keeps}
use crm_collab.Changes.Steps.{
  Step, Reaches, minor_requested, formal_requested, resolved, brief_patched, here, later,
}

abbrev pub IsOpenMinor : ChangeRequest → Type 0
IsOpenMinor r = (r.type ≡ minor) × (r.status ≡ opened)

abbrev pub NotBoth : ChangeRequest → ChangeRequest → Type 0
NotBoth r s = IsOpenMinor r → IsOpenMinor s → r.project_id ≡ s.project_id → r.task_id ≢ s.task_id

-- Every row against the later ones.
abbrev pub AreApart : List ChangeRequest → Type 0
AreApart [] = Unit
AreApart (r ∷ rows) = All (NotBoth r) rows × AreApart rows

AreApart-append :
    (rows : List ChangeRequest) (r : ChangeRequest)
    → All (λ s. NotBoth s r) rows
    → AreApart rows
    → AreApart (rows ++ r ∷ [])
AreApart-append [] r h apart = (tt, tt)
AreApart-append (s ∷ rows) r (hs, h) (from_s, apart) =
    (All-append (NotBoth s) rows (r ∷ []) from_s (hs, tt), AreApart-append rows r h apart)

-- The search of the service finds every open minor request of the task.
NotBoth-of-none :
    (r : ChangeRequest) (task : ℕ) (rows : List ChangeRequest)
    → r.task_id ≡ some task
    → some_of (open_for task) (select (λ s. s.project_id == r.project_id && is_minor s.type) rows)
      ≡ false
    → All (λ s. NotBoth s r) rows
unfolding open_for is_minor
NotBoth-of-none r task [] about none_open = tt
NotBoth-of-none r task (s ∷ rows) about none_open =
    let later : some_of (open_for task)
          (select (λ s. s.project_id == r.project_id && is_minor s.type) rows)
        ≡ false =
      ground (arith, none_open) in
    (
      (λ open_s open_r same_project same_task.
          ground (arith, none_open, open_s.0, open_s.1, same_project, same_task, about)),
      NotBoth-of-none r task rows about later,
    )

-- A row that an update closes is in nobody's way.
AreApart-update_where :
    (p : ChangeRequest → Bool) (f : ChangeRequest → ChangeRequest) (rows : List ChangeRequest)
    → ((r : ChangeRequest) → (f r).status ≢ opened)
    → AreApart rows
    → AreApart (update_where p f rows)
unfolding update_where
AreApart-update_where p f [] closes apart = tt
AreApart-update_where p f (r ∷ rows) closes (from_r, apart) = elim (Bool-cases (p r)) [
  | inl hit ↦ rw hit (
    All-anything (NotBoth (f r)) (update_where p f rows) (λ s open_r. absurd (closes r open_r.1)),
    AreApart-update_where p f rows closes apart,
  )
  | inr miss ↦ rw miss (
    All-update_where (NotBoth r) p f rows (λ s hit _ open_r open_s. absurd (closes s open_s.1))
        from_r,
    AreApart-update_where p f rows closes apart,
  )
]

Step-AreApart : {db db' : ChangeDb} → Step db db' → AreApart db.requests → AreApart db'.requests
unfolding list_minor_requests update_change_request_by_id update_by
Step-AreApart {db} {db'} (minor_requested repo actor project_id payload now r e) h =
    let (adds, only) = create_minor-Adds repo db actor project_id payload now e in
    rw adds.rows (
      AreApart-append db.requests r (NotBoth-of-none r only.task db.requests only.about only.alone)
        h)
Step-AreApart {db} {db'} (formal_requested repo actor project_id payload now r e) h =
    let (adds, is_formal) = create_formal-Adds repo db actor project_id payload now e in
    rw adds.rows (
      AreApart-append db.requests r
        (All-anything (λ s. NotBoth s r) db.requests
          (λ s open_s open_r. absurd (ground (arith, is_formal, open_r.0))))
        h)
Step-AreApart {db} {db'} (resolved repo actor project_id id status comment now r closes e) h =
    let done = resolve-Resolves repo db actor project_id id status comment now e in
    rw done.rows (AreApart-update_where (λ q. request_id q == id) _ db.requests (λ q. closes) h)
Step-AreApart {db} {db'} (brief_patched repo actor project_id body now e) h =
    rw (patch_brief-keeps repo db actor project_id body now e).0 h

-- In whatever order minor and formal requests are made, resolved and made again, and briefs are
-- edited, there are never two open minor requests of one project about the same task.
pub one_open_minor : {db db' : ChangeDb} → db.requests ≡ [] → Reaches db db' → AreApart db'.requests
one_open_minor none_yet here = rw none_yet tt
one_open_minor none_yet (later mid before step) =
    Step-AreApart step (one_open_minor none_yet before)
