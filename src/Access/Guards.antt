-- ===== src/Access/Guards.antt =====
-- shared/guards.ts and shared/project-access.ts against descriptions that do not name their tests.
use mathlib.Core.Option
use crm_collab.Base.{ℕ, ◌≡◌, ◌≢◌, ◌⊎◌, ◌↔◌, Bool, true, Option, some, arith}
use crm_collab.Base.Outcome.{ok}
use crm_collab.Access.{
  Role, admin, worker, client, BlockType, client_timeout, internal_impediment, Actor, AccessRepo,
  Access, can_unblock_task, assert_project_access, assert_project_member_role_compatibility,
}

-- Who may release a block of a type: an administrator; for a client's delay the client; for an
-- internal impediment a worker to whom the task is assigned.
abbrev pub MayRelease : Role → Role → Option BlockType → Bool → Type 0
MayRelease global member type assigned =
    (global ≡ admin)
    ⊎ (member ≡ admin)
    ⊎ ((type ≡ some client_timeout) × ((global ≡ client) ⊎ (member ≡ client)))
    ⊎ ((type ≡ some internal_impediment)
        × ((global ≡ worker) ⊎ (member ≡ worker))
        × (assigned ≡ true))

-- `canUnblockTask` allows exactly those who may release the block.
pub can_unblock_task-MayRelease :
    (global member : Role) (type : Option BlockType) (assigned : Bool)
    → (can_unblock_task global (some member) type assigned ≡ true)
      ↔ MayRelease global member type assigned
unfolding can_unblock_task
can_unblock_task-MayRelease global member type assigned =
    (to global member type assigned, from global member type assigned)
  where
    to :
        (global member : Role) (type : Option BlockType) (assigned : Bool)
        → can_unblock_task global (some member) type assigned ≡ true
        → MayRelease global member type assigned
    to global member type assigned h = ground arith

    from :
        (global member : Role) (type : Option BlockType) (assigned : Bool)
        → MayRelease global member type assigned
        → can_unblock_task global (some member) type assigned ≡ true
    from global member type assigned h = ground arith

-- Access is granted exactly when the project exists and the actor is a global administrator or a
-- member, and then with the administrator's or the member's role.
pub assert_project_access-eq-ok_iff :
    (repo : AccessRepo) (actor : Actor) (project_id : ℕ) (a : Access)
    → (assert_project_access repo actor project_id ≡ ok a) ↔ (
        (repo.find_project_by_id project_id ≡ some a.project)
        × (((actor.role ≡ admin) × (a.member_role ≡ admin))
            ⊎ ((actor.role ≢ admin)
                × (Option.map (λ m. m.role) (repo.find_project_member project_id actor.sub)
                    ≡ some a.member_role))))
unfolding assert_project_access
assert_project_access-eq-ok_iff repo actor project_id a =
    (λ e. (ground arith, ground arith), λ h. ground arith)

-- A role in a project never goes beyond the role of the identity: an administrator may stand in
-- for a worker, and nobody else for another role.
pub role_compatibility_iff :
    (identity project : Role)
    → (assert_project_member_role_compatibility identity project ≡ ok tt)
      ↔ ((identity ≡ project) ⊎ ((identity ≡ admin) × (project ≡ worker)))
unfolding assert_project_member_role_compatibility
role_compatibility_iff admin admin = ground arith
role_compatibility_iff admin worker = ground arith
role_compatibility_iff admin client = ground arith
role_compatibility_iff _ _ = ground arith
