-- ===== src/Board/Patches.antt =====
-- board/board-task-patches.ts: what a change of column does to the block data of a task.
use crm_collab.Base.{ℕ, Bool, true, Option, none, some, if◌then◌else◌, get_or, is_some}
use crm_collab.Base.Text.{Text, trim, text_or, codes}
use crm_collab.Access.{BlockType, internal_impediment}
use crm_collab.Board.Model.{ColumnKey, blocked, TaskPatch, empty_patch, same_key}

abbrev pub default_reason : Text
default_reason = codes "Impedimento interno"

-- `reason?.trim() || "Impedimento interno"`
unfoldable pub reason_or_default : Option (Option Text) → Text
unfolding trim
reason_or_default none = default_reason
reason_or_default (some none) = default_reason
reason_or_default (some (some s)) = text_or (trim s) default_reason

-- `type ?? "internal_impediment"`
unfoldable pub type_or_default : Option (Option BlockType) → BlockType
type_or_default none = internal_impediment
type_or_default (some t) = get_or t internal_impediment

pub record ColumnState : Type 0 where
  pub is_moving_from_blocked : Bool
  pub is_moving_to_blocked : Bool
  pub is_moving_to_client_approval : Bool
  pub target_column_key : ColumnKey
  pub block_reason : Option (Option Text)
  pub block_type : Option (Option BlockType)
  pub actor_sub : ℕ

-- `{ ...first, ...second }`: a field that the second object has wins.
abbrev second_of {ℓ} : {A : Type ℓ} → Option A → Option A → Option A
second_of first none = first
second_of first (some a) = some a

unfoldable pub override : TaskPatch → TaskPatch → TaskPatch
override p q = record {
  column_id = second_of p.column_id q.column_id;
  title = second_of p.title q.title;
  description = second_of p.description q.description;
  priority = second_of p.priority q.priority;
  assignee_sub = second_of p.assignee_sub q.assignee_sub;
  deadline = second_of p.deadline q.deadline;
  checklist_progress = second_of p.checklist_progress q.checklist_progress;
  blocked_by_task_id = second_of p.blocked_by_task_id q.blocked_by_task_id;
  block_reason = second_of p.block_reason q.block_reason;
  block_type = second_of p.block_type q.block_type;
  blocked_at = second_of p.blocked_at q.blocked_at;
  blocked_by_sub = second_of p.blocked_by_sub q.blocked_by_sub;
  client_approval_requested_at =
      second_of p.client_approval_requested_at q.client_approval_requested_at;
  is_client_visible = second_of p.is_client_visible q.is_client_visible;
  position = second_of p.position q.position;
  completed_at = second_of p.completed_at q.completed_at;
}

abbrev pub clear_block : TaskPatch
clear_block = record empty_patch {
  block_reason = some none;
  block_type = some none;
  blocked_at = some none;
  blocked_by_sub = some none;
}

unfoldable pub unblocking_patch : ColumnState → TaskPatch
unblocking_patch s = if s.is_moving_from_blocked then clear_block else empty_patch

-- `block_type` is set anew only by a type that is neither undefined nor null.
abbrev given_type : Option (Option BlockType) → Option (Option BlockType)
given_type none = none
given_type (some none) = none
given_type (some (some t)) = some (some t)

unfoldable pub blocking_patch : ℕ → ColumnState → TaskPatch
unfolding same_key reason_or_default type_or_default
blocking_patch now s =
    if s.is_moving_to_blocked
    then record empty_patch {
      block_reason = some (some (reason_or_default s.block_reason));
      block_type = some (some (type_or_default s.block_type));
      blocked_at = some (some now);
      blocked_by_sub = some (some s.actor_sub);
    }
    else if same_key s.target_column_key blocked
    then record empty_patch {
      block_reason =
          if is_some s.block_reason then some (some (reason_or_default s.block_reason)) else none;
      block_type = given_type s.block_type;
    }
    else empty_patch

unfoldable pub client_approval_patch : ℕ → ColumnState → TaskPatch
client_approval_patch now s =
    if s.is_moving_to_client_approval
    then record empty_patch {
      client_approval_requested_at = some (some now);
      is_client_visible = some true;
    }
    else empty_patch

-- The three patches spread over the given one, in the order of `updateTask`.
unfoldable pub with_column_state_patches : ℕ → ColumnState → TaskPatch → TaskPatch
unfolding override unblocking_patch blocking_patch client_approval_patch
with_column_state_patches now s p =
    override (override (override p (unblocking_patch s)) (blocking_patch now s))
      (client_approval_patch now s)
