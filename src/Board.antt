-- ===== src/Board.antt =====
-- The Kanban board: src/modules/collab/board, domain and jobs/check-approval-sla.ts.
pub mod Model
pub mod Progress
pub mod Patches
pub mod Subtasks
pub mod Summary
pub mod Events
pub mod Update
pub mod Create
pub mod Blocking
pub mod Sla
pub mod Frame
pub mod Checks
pub mod BlockData
pub mod BlockCycle
pub mod Completion
pub mod Steps
pub mod Columns
pub mod Release
