-- ===== src/Examples.antt =====
-- Small concrete states: the theorems applied to inputs where their hypotheses hold.
pub mod Data
pub mod Boards
pub mod Contracts
pub mod Queues
pub mod Consumers
pub mod Requests
pub mod Identities
pub mod Notices
pub mod Completion
