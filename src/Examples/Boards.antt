-- ===== src/Examples/Boards.antt =====
-- The theorems on the board and on access.
use crm_collab.Base.{◌≡◌, ◌≢◌, refl, true, false, none, some, [], ◌∷◌, arith, length}
use crm_collab.Base.Outcome.{ok}
use crm_collab.Base.Table.{find_by, find_by-All, update_by, update_where}
use crm_collab.Base.Text.{trim}
use crm_collab.Access.{
  worker, Access, internal_impediment, assert_project_access, can_move_tasks, can_block_task,
  can_unblock_task,
}
use crm_collab.Access.Guards.{MayRelease}
use crm_collab.Board.Model.{
  done, blocked, Db, Task, Column, task_id, same_key, find_task_by_id, find_task_column_by_id,
  find_task_column_by_key, list_task_assignees, subtasks_of, update_task_by_id, patched,
  create_audit_log, create_task_comment, emit,
}
use crm_collab.Board.Progress.{
  is_completed, progress_of_column, is_finalization_column, resolve_task_progress_and_completion,
}
use crm_collab.Board.Summary.{
  sync_project_summary, key_is, key_is_not, progress_average, status_of, total_weight, weight,
}
use crm_collab.Board.Events.{
  UpdateTaskInput, task_update_events, changes_of, is_newly_assigned, moves_column,
  task_assignment_events, task_movement_events, task_properties_updated_events,
}
use crm_collab.Board.Patches.{
  with_column_state_patches, blocking_patch, client_approval_patch, override, reason_or_default,
  type_or_default, unblocking_patch,
}
use crm_collab.Board.Update.{
  check_update, commit_update, check_assignments, check_blocking, emit_all, log_task_update,
  progress_changed, resolution_comment, target_column, update_patch, write_assignees,
  write_subtasks, events_of_plan, is_assignee, update_task,
}
use crm_collab.Board.Blocking.{
  UnblockOptions, block_task, unblock_task, unblock_target, unblock_patch, comment_resolution,
}
use crm_collab.Board.BlockData.{NoBlock}
use crm_collab.Board.Steps.{BoardOk, here, later, blocks, unblocks, block_data_only_in_blocked}
use crm_collab.Board.Release.{unblock_task_by_authority}
use crm_collab.Board.Completion.{update_task-completed, unblock_task_skips_completion}
use crm_collab.Board.Sla.{is_timed_out}
use crm_collab.Board.Sla.Drain.{overdue}
use crm_collab.Examples.Data.{boss, maker, repo, no_email, ties_down, board, draft_task, value_of}

board-BoardOk : BoardOk ties_down repo no_email board
unfolding find_task_by_id
board-BoardOk = record {
  keyed = omega arith;
  consistent = record {
    at = λ id t c ft fc free.
        find_by-All task_id NoBlock id board.tasks
          (
            record { reason = refl; type = refl; since = refl; by_sub = refl },
            (record { reason = refl; type = refl; since = refl; by_sub = refl }, tt),
          )
          ft;
  };
}

-- Task 40 is blocked by its worker.
abbrev blocked_board : Task × Db
blocked_board = value_of (block_task repo board maker 40 (88 ∷ []) 5) (draft_task, board)

abbrev to_default : UnblockOptions
to_default = record { target_column_id = none; resolution_comment = some (89 ∷ []) }

-- It is released again.
abbrev released_board : Task × Db
released_board =
    value_of (unblock_task repo blocked_board.1 maker 40 to_default 6) (draft_task, board)

blocks_40 : block_task repo board maker 40 (88 ∷ []) 5 ≡ ok blocked_board
unfolding block_task unblock_task update_task check_update commit_update check_assignments
    check_blocking emit_all is_assignee log_task_update progress_changed resolution_comment
    target_column update_patch write_assignees write_subtasks events_of_plan task_update_events
    changes_of is_newly_assigned moves_column task_assignment_events task_movement_events
    task_properties_updated_events find_task_by_id find_by find_task_column_by_id
    find_task_column_by_key list_task_assignees subtasks_of assert_project_access can_move_tasks
    can_block_task can_unblock_task same_key update_task_by_id update_by update_where patched
    create_audit_log create_task_comment emit sync_project_summary key_is key_is_not
    progress_average status_of total_weight weight unblock_target unblock_patch comment_resolution
    trim resolve_task_progress_and_completion is_completed is_finalization_column progress_of_column
    with_column_state_patches blocking_patch client_approval_patch override reason_or_default
    type_or_default unblocking_patch
blocks_40 = refl

releases_40 : unblock_task repo blocked_board.1 maker 40 to_default 6 ≡ ok released_board
unfolding block_task unblock_task update_task check_update commit_update check_assignments
    check_blocking emit_all is_assignee log_task_update progress_changed resolution_comment
    target_column update_patch write_assignees write_subtasks events_of_plan task_update_events
    changes_of is_newly_assigned moves_column task_assignment_events task_movement_events
    task_properties_updated_events find_task_by_id find_by find_task_column_by_id
    find_task_column_by_key list_task_assignees subtasks_of assert_project_access can_move_tasks
    can_block_task can_unblock_task same_key update_task_by_id update_by update_where patched
    create_audit_log create_task_comment emit sync_project_summary key_is key_is_not
    progress_average status_of total_weight weight unblock_target unblock_patch comment_resolution
    trim resolve_task_progress_and_completion is_completed is_finalization_column progress_of_column
    with_column_state_patches blocking_patch client_approval_patch override reason_or_default
    type_or_default unblocking_patch
releases_40 = refl

block_data_only_in_blocked_example : BoardOk ties_down repo no_email released_board.1
unfolding block_task unblock_task update_task check_update commit_update check_assignments
    check_blocking emit_all is_assignee log_task_update progress_changed resolution_comment
    target_column update_patch write_assignees write_subtasks events_of_plan task_update_events
    changes_of is_newly_assigned moves_column task_assignment_events task_movement_events
    task_properties_updated_events find_task_by_id find_by find_task_column_by_id
    find_task_column_by_key list_task_assignees subtasks_of assert_project_access can_move_tasks
    can_block_task can_unblock_task same_key update_task_by_id update_by update_where patched
    create_audit_log create_task_comment emit sync_project_summary key_is key_is_not
    progress_average status_of total_weight weight unblock_target unblock_patch comment_resolution
    trim resolve_task_progress_and_completion is_completed is_finalization_column progress_of_column
    with_column_state_patches blocking_patch client_approval_patch override reason_or_default
    type_or_default unblocking_patch
block_data_only_in_blocked_example =
    block_data_only_in_blocked ties_down repo no_email
      (later blocked_board.1
        (later board here (blocks maker 40 (88 ∷ []) 5 blocked_board.0 blocks_40))
        (unblocks maker 40 to_default 6 released_board.0 releases_40))
      board-BoardOk

finds_40 : find_task_by_id blocked_board.1 40 ≡ some blocked_board.0
unfolding block_task unblock_task update_task check_update commit_update check_assignments
    check_blocking emit_all is_assignee log_task_update progress_changed resolution_comment
    target_column update_patch write_assignees write_subtasks events_of_plan task_update_events
    changes_of is_newly_assigned moves_column task_assignment_events task_movement_events
    task_properties_updated_events find_task_by_id find_by find_task_column_by_id
    find_task_column_by_key list_task_assignees subtasks_of assert_project_access can_move_tasks
    can_block_task can_unblock_task same_key update_task_by_id update_by update_where patched
    create_audit_log create_task_comment emit sync_project_summary key_is key_is_not
    progress_average status_of total_weight weight unblock_target unblock_patch comment_resolution
    trim resolve_task_progress_and_completion is_completed is_finalization_column progress_of_column
    with_column_state_patches blocking_patch client_approval_patch override reason_or_default
    type_or_default unblocking_patch
finds_40 = refl

unblock_task_by_authority_example :
    ((access : Access) × (assert_project_access repo maker 7 ≡ ok access)
      × MayRelease worker access.member_role
          (some internal_impediment)
          (is_assignee blocked_board.1 blocked_board.0 2))
    × ((target : Column) × (unblock_target blocked_board.1 7 to_default ≡ ok target)
        × (same_key target.key blocked ≡ false)
        × (released_board.0.column_id ≡ target.id))
    × NoBlock released_board.0
unfolding block_task unblock_task update_task check_update commit_update check_assignments
    check_blocking emit_all is_assignee log_task_update progress_changed resolution_comment
    target_column update_patch write_assignees write_subtasks events_of_plan task_update_events
    changes_of is_newly_assigned moves_column task_assignment_events task_movement_events
    task_properties_updated_events find_task_by_id find_by find_task_column_by_id
    find_task_column_by_key list_task_assignees subtasks_of assert_project_access can_move_tasks
    can_block_task can_unblock_task same_key update_task_by_id update_by update_where patched
    create_audit_log create_task_comment emit sync_project_summary key_is key_is_not
    progress_average status_of total_weight weight unblock_target unblock_patch comment_resolution
    trim resolve_task_progress_and_completion is_completed is_finalization_column progress_of_column
    with_column_state_patches blocking_patch client_approval_patch override reason_or_default
    type_or_default unblocking_patch
unblock_task_by_authority_example =
    unblock_task_by_authority repo blocked_board.1 maker 40 to_default 6 blocked_board.0
      released_board.0 released_board.1 finds_40 releases_40

-- The worker moves his task to the final column.
abbrev to_done : UpdateTaskInput
to_done = record {
  column_id = some 15;
  title = none;
  description = none;
  priority = none;
  assignees = none;
  due_date = none;
  checklist_progress = none;
  blocked_by_task_id = none;
  block_reason = none;
  block_type = none;
  client_visible = none;
  position = none;
  subtasks = none;
  resolution_comment = none;
}

abbrev done_board : Task × Db
done_board =
    value_of (update_task ties_down repo no_email board maker 40 to_done 9) (draft_task, board)

moves_40 : update_task ties_down repo no_email board maker 40 to_done 9 ≡ ok done_board
unfolding block_task unblock_task update_task check_update commit_update check_assignments
    check_blocking emit_all is_assignee log_task_update progress_changed resolution_comment
    target_column update_patch write_assignees write_subtasks events_of_plan task_update_events
    changes_of is_newly_assigned moves_column task_assignment_events task_movement_events
    task_properties_updated_events find_task_by_id find_by find_task_column_by_id
    find_task_column_by_key list_task_assignees subtasks_of assert_project_access can_move_tasks
    can_block_task can_unblock_task same_key update_task_by_id update_by update_where patched
    create_audit_log create_task_comment emit sync_project_summary key_is key_is_not
    progress_average status_of total_weight weight unblock_target unblock_patch comment_resolution
    trim resolve_task_progress_and_completion is_completed is_finalization_column progress_of_column
    with_column_state_patches blocking_patch client_approval_patch override reason_or_default
    type_or_default unblocking_patch
moves_40 = refl

finds_done : find_task_by_id done_board.1 40 ≡ some done_board.0
unfolding block_task unblock_task update_task check_update commit_update check_assignments
    check_blocking emit_all is_assignee log_task_update progress_changed resolution_comment
    target_column update_patch write_assignees write_subtasks events_of_plan task_update_events
    changes_of is_newly_assigned moves_column task_assignment_events task_movement_events
    task_properties_updated_events find_task_by_id find_by find_task_column_by_id
    find_task_column_by_key list_task_assignees subtasks_of assert_project_access can_move_tasks
    can_block_task can_unblock_task same_key update_task_by_id update_by update_where patched
    create_audit_log create_task_comment emit sync_project_summary key_is key_is_not
    progress_average status_of total_weight weight unblock_target unblock_patch comment_resolution
    trim resolve_task_progress_and_completion is_completed is_finalization_column progress_of_column
    with_column_state_patches blocking_patch client_approval_patch override reason_or_default
    type_or_default unblocking_patch
finds_done = refl

abbrev done_column : Column
done_column = record { id = 15; project_id = 7; key = done }

finds_column : find_task_column_by_id done_board.1 done_board.0.column_id ≡ some done_column
unfolding block_task unblock_task update_task check_update commit_update check_assignments
    check_blocking emit_all is_assignee log_task_update progress_changed resolution_comment
    target_column update_patch write_assignees write_subtasks events_of_plan task_update_events
    changes_of is_newly_assigned moves_column task_assignment_events task_movement_events
    task_properties_updated_events find_task_by_id find_by find_task_column_by_id
    find_task_column_by_key list_task_assignees subtasks_of assert_project_access can_move_tasks
    can_block_task can_unblock_task same_key update_task_by_id update_by update_where patched
    create_audit_log create_task_comment emit sync_project_summary key_is key_is_not
    progress_average status_of total_weight weight unblock_target unblock_patch comment_resolution
    trim resolve_task_progress_and_completion is_completed is_finalization_column progress_of_column
    with_column_state_patches blocking_patch client_approval_patch override reason_or_default
    type_or_default unblocking_patch
finds_column = refl

update_task-completed_example :
    (is_finalization_column done ≡ true
      → (done_board.0.checklist_progress ≡ 100) × (done_board.0.completed_at ≢ none))
    × (is_finalization_column done ≡ false → done_board.0.completed_at ≡ none)
unfolding block_task unblock_task update_task check_update commit_update check_assignments
    check_blocking emit_all is_assignee log_task_update progress_changed resolution_comment
    target_column update_patch write_assignees write_subtasks events_of_plan task_update_events
    changes_of is_newly_assigned moves_column task_assignment_events task_movement_events
    task_properties_updated_events find_task_by_id find_by find_task_column_by_id
    find_task_column_by_key list_task_assignees subtasks_of assert_project_access can_move_tasks
    can_block_task can_unblock_task same_key update_task_by_id update_by update_where patched
    create_audit_log create_task_comment emit sync_project_summary key_is key_is_not
    progress_average status_of total_weight weight unblock_target unblock_patch comment_resolution
    trim resolve_task_progress_and_completion is_completed is_finalization_column progress_of_column
    with_column_state_patches blocking_patch client_approval_patch override reason_or_default
    type_or_default unblocking_patch
update_task-completed_example =
    update_task-completed ties_down repo no_email board maker 40 to_done 9 done_board.0 done_board.1
      done_board.0 done_column moves_40 finds_done finds_column

-- An administrator releases the blocked task straight into the final column.
abbrev straight_to_done : UnblockOptions
straight_to_done = record { target_column_id = some 15; resolution_comment = none }

abbrev skipped_board : Task × Db
skipped_board =
    value_of (unblock_task repo blocked_board.1 boss 40 straight_to_done 6) (draft_task, board)

skips_40 : unblock_task repo blocked_board.1 boss 40 straight_to_done 6 ≡ ok skipped_board
unfolding block_task unblock_task update_task check_update commit_update check_assignments
    check_blocking emit_all is_assignee log_task_update progress_changed resolution_comment
    target_column update_patch write_assignees write_subtasks events_of_plan task_update_events
    changes_of is_newly_assigned moves_column task_assignment_events task_movement_events
    task_properties_updated_events find_task_by_id find_by find_task_column_by_id
    find_task_column_by_key list_task_assignees subtasks_of assert_project_access can_move_tasks
    can_block_task can_unblock_task same_key update_task_by_id update_by update_where patched
    create_audit_log create_task_comment emit sync_project_summary key_is key_is_not
    progress_average status_of total_weight weight unblock_target unblock_patch comment_resolution
    trim resolve_task_progress_and_completion is_completed is_finalization_column progress_of_column
    with_column_state_patches blocking_patch client_approval_patch override reason_or_default
    type_or_default unblocking_patch
skips_40 = refl

unblock_task_skips_completion_example :
    (skipped_board.0.column_id ≡ 15)
    × (skipped_board.0.checklist_progress ≡ 50)
    × (skipped_board.0.completed_at ≡ none)
unfolding block_task unblock_task update_task check_update commit_update check_assignments
    check_blocking emit_all is_assignee log_task_update progress_changed resolution_comment
    target_column update_patch write_assignees write_subtasks events_of_plan task_update_events
    changes_of is_newly_assigned moves_column task_assignment_events task_movement_events
    task_properties_updated_events find_task_by_id find_by find_task_column_by_id
    find_task_column_by_key list_task_assignees subtasks_of assert_project_access can_move_tasks
    can_block_task can_unblock_task same_key update_task_by_id update_by update_where patched
    create_audit_log create_task_comment emit sync_project_summary key_is key_is_not
    progress_average status_of total_weight weight unblock_target unblock_patch comment_resolution
    trim resolve_task_progress_and_completion is_completed is_finalization_column progress_of_column
    with_column_state_patches blocking_patch client_approval_patch override reason_or_default
    type_or_default unblocking_patch
unblock_task_skips_completion_example =
    unblock_task_skips_completion repo blocked_board.1 boss 40 15 none 6 blocked_board.0
      skipped_board.0 skipped_board.1 finds_40 skips_40

one_overdue : length (overdue 1 4_000_000 board) ≡ 1
unfolding is_timed_out find_task_column_by_id find_by same_key find_task_column_by_key
one_overdue = refl
