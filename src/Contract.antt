-- ===== src/Contract.antt =====
-- src/modules/collab/contract: a project's contract and its amendments, from the draft to the
-- client's signature.
pub mod Model
pub mod Repository
pub mod Template
pub mod AmendmentTemplate
pub mod Service
pub mod Amendment
pub mod Lookup
pub mod Signing
pub mod Kept
pub mod Moves
pub mod AmendmentEffects
pub mod Lifecycle
pub mod Rows
pub mod Numbers
pub mod Orderly
pub mod Authority
