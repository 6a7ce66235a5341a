-- ===== src/Access.antt =====
-- src/modules/collab/shared/guards.ts and project-access.ts: who may do what in a project.
-- A user's sub and a project's id are numbers. The repository's reads are the fields of
-- `AccessRepo`.
pub mod Guards
use crm_collab.Base.{
  ℕ, Bool, true, false, ◌==◌, ◌&&◌, ◌||◌, Option, none, some, List, [], ◌∷◌, if◌then◌else◌, has,
  select, map, or_else,
}
use crm_collab.Base.Outcome.{Outcome, ok, throw, ◌>>=◌, ◌>>◌, require, found}
use crm_collab.Base.Outcome.{not_found, forbidden, bad_request}

pub data Role : Type 0 where
  admin worker client : Role

abbrev pub is_admin : Role → Bool
is_admin admin = true
is_admin _ = false

abbrev pub is_worker : Role → Bool
is_worker worker = true
is_worker _ = false

abbrev pub is_client : Role → Bool
is_client client = true
is_client _ = false

pub record Actor : Type 0 where
  pub sub : ℕ
  pub role : Role
  pub email : ℕ

pub record Project : Type 0 where
  pub id : ℕ
  pub name : List ℕ

pub record Member : Type 0 where
  pub user_sub : ℕ
  pub role : Role
  pub user_email : Option ℕ

-- What the services read of projects and members.
pub record AccessRepo : Type 0 where
  pub find_project_by_id : ℕ → Option Project
  pub find_project_member : ℕ → ℕ → Option Member
  pub list_project_members : ℕ → List Member

pub data BlockType : Type 0 where
  client_timeout internal_impediment : BlockType

-- An optional member role passes a test.
abbrev member_is : (Role → Bool) → Option Role → Bool
member_is p none = false
member_is p (some r) = p r

unfoldable pub can_manage_project : Role → Option Role → Bool
can_manage_project global member = is_admin global || member_is is_admin member

unfoldable pub can_move_tasks : Role → Option Role → Bool
can_move_tasks global member =
    is_admin global || member_is is_admin member || member_is is_worker member

unfoldable pub can_internal_chat : Role → Option Role → Bool
can_internal_chat global member =
    is_admin global || member_is is_admin member || member_is is_worker member

unfoldable pub can_edit_brief : Role → Option Role → Bool
can_edit_brief global member =
    is_admin global || member_is is_admin member || member_is is_worker member

pub data Channel : Type 0 where
  internal external : Channel

unfoldable pub can_receive_mention_in_channel : Channel → Role → Bool
can_receive_mention_in_channel internal member = is_admin member || is_worker member
can_receive_mention_in_channel external member = true

unfoldable pub can_block_task : Role → Option Role → Bool
can_block_task global member =
    is_admin global || member_is is_admin member || member_is is_worker member

unblock_as : Role → Option Role → Bool → Option BlockType → Bool
unblock_as global member is_assignee none = false
unblock_as global member is_assignee (some client_timeout) =
    is_client global || member_is is_client member
unblock_as global member is_assignee (some internal_impediment) =
    (is_worker global || member_is is_worker member) && is_assignee

unfoldable pub can_unblock_task : Role → Option Role → Option BlockType → Bool → Bool
unfolding unblock_as
can_unblock_task global member block_type is_assignee =
    if is_admin global || member_is is_admin member
    then true
    else unblock_as global member is_assignee block_type

-- `member` for a global administrator is the virtual object `{ role: "admin" }`.
pub record Access : Type 0 where
  pub project : Project
  pub member_role : Role

unfoldable pub assert_project_access : AccessRepo → Actor → ℕ → Outcome Access
assert_project_access repo actor project_id = do
  project ← found (repo.find_project_by_id project_id) not_found
  if is_admin actor.role then ok (record { project = project; member_role = admin }) else do
    member ← found (repo.find_project_member project_id actor.sub) forbidden
    ok (record { project = project; member_role = member.role })

-- The subs of the members that may be assigned.
unfoldable pub assignable_subs : AccessRepo → ℕ → List ℕ
assignable_subs repo project_id =
    map (λ m. m.user_sub)
      (select (λ m. is_worker m.role || is_admin m.role) (repo.list_project_members project_id))

-- The two loops of `assertWorkerOnlyAssignments`.
assert_assignees : List ℕ → List ℕ → Outcome (Unit {0})
assert_assignees subs [] = ok tt
assert_assignees subs (a ∷ rest) =
    let next = assert_assignees subs rest in if has subs a then next else throw bad_request

assert_subtask_assignees : List ℕ → List (Option ℕ) → Outcome (Unit {0})
assert_subtask_assignees subs [] = ok tt
assert_subtask_assignees subs (none ∷ rest) = assert_subtask_assignees subs rest
assert_subtask_assignees subs (some a ∷ rest) =
    let next = assert_subtask_assignees subs rest in if has subs a then next else throw bad_request

unfoldable pub assert_worker_only_assignments :
    AccessRepo → ℕ → List ℕ → List (Option ℕ) → Outcome (Unit {0})
unfolding assignable_subs assert_assignees assert_subtask_assignees
assert_worker_only_assignments repo project_id assignees subtasks = do
  assert_assignees (assignable_subs repo project_id) assignees
  assert_subtask_assignees (assignable_subs repo project_id) subtasks

unfoldable pub assert_project_member_role_compatibility : Role → Role → Outcome (Unit {0})
assert_project_member_role_compatibility identity_role project_role =
    require
      ((is_admin project_role && is_admin identity_role)
        || (is_worker project_role && (is_worker identity_role || is_admin identity_role))
        || (is_client project_role && is_client identity_role))
      bad_request

-- `resolveAssigneeEmails` of shared/mappers.ts: the given email, or the member's, or the one of the
-- identity replica, which is the parameter `profile_email`. An assignee is a sub and an email.
pub record AssigneeInput : Type 0 where
  pub user_sub : ℕ
  pub user_email : Option ℕ

email_of_member : List Member → ℕ → Option ℕ
email_of_member [] sub = none
email_of_member (m ∷ ms) sub =
    let rest = email_of_member ms sub in if m.user_sub == sub then m.user_email else rest

resolve_each : (ℕ → Option ℕ) → List Member → List AssigneeInput → Outcome (List (ℕ × ℕ))
unfolding email_of_member
resolve_each profile_email members [] = ok []
resolve_each profile_email members (a ∷ rest) = do
  email ←
      found
        (or_else a.user_email
          (or_else (email_of_member members a.user_sub) (profile_email a.user_sub)))
        bad_request
  others ← resolve_each profile_email members rest
  ok ((a.user_sub, email) ∷ others)

unfoldable pub resolve_assignee_emails :
    AccessRepo → (ℕ → Option ℕ) → ℕ → List AssigneeInput → Outcome (List (ℕ × ℕ))
unfolding resolve_each
resolve_assignee_emails repo profile_email project_id assignees =
    resolve_each profile_email (repo.list_project_members project_id) assignees
