-- ===== src/Lib.antt =====
-- Verification of the collaboration service: the rules of its task board, its contracts, its event
-- outbox and its guards against overload.
--
-- The service keeps its state in PostgreSQL. A command reads some rows, tests them and writes
-- others in one transaction; here a command is a function of the state that answers with a result
-- and the new state, or with an error and no state (Base/Outcome). A table is the list of its rows
-- (Base/Table), ids, subs and instants are numbers, and `now` is an argument. A command runs alone:
-- nothing happens between its reads and its transaction, except in the outbox, where the statements
-- are the steps. What the services read of projects and members is the record Access.AccessRepo.
--
-- Access models src/modules/collab/shared/guards.ts, project-access.ts and mappers.ts: who may do
-- what in a project.
-- Board models src/modules/collab/board: Model has the rows and the repository, Progress the
-- completion of a task (domain/project-aggregate.ts and board-task-progress.ts), Patches and Events
-- board-task-patches.ts and board-task-events.ts, Update and Create board-task.service.ts, Blocking
-- board-task-blocking.service.ts, Subtasks board-subtask.repository.ts, Summary the statement of
-- project/project.repository.ts that recomputes a project's status, and Sla
-- src/jobs/check-approval-sla.ts. Steps joins them in one state machine. Percentages are exact
-- quotients; where the double of Math.round may fall on either side of a tie, the parameter
-- `tie_up` decides. The SQL of the job may take any 100 of the overdue tasks; here it takes the
-- first ones.
-- Board.Columns is board-column.repository.ts and board-column.service.ts, one function for each
-- statement; a position is a signed integer, since a move parks columns below 0.
-- Contract models src/modules/collab/contract: Model has the rows, Repository
-- contract.repository.ts, Template and AmendmentTemplate the two texts, Service contract.service.ts
-- and Amendment amendment.service.ts. SHA-256, the formats of Intl and the local date are the
-- fields of Template.Formats. Lifecycle joins the operations.
-- Outbox models src/modules/collab/events/collab-outbox.repository.ts and
-- src/jobs/run-collab-outbox.ts: Redis is the parameter `publish`, rows that others have locked the
-- parameter `locked`. Prune is the loop of src/jobs/prune-collab-outbox.ts and
-- prune-notifications.ts, on fuel: one round more than there are rows is enough, as is proved.
-- Consumer models the treatment of a batch in cima-contracts/src/event-consumer.ts; what the caller
-- configures and what Redis answers are the fields of Surroundings, and depend on all that was
-- done.
-- Changes models src/modules/collab/change-request and src/modules/collab/brief; Steps joins their
-- commands. Identity models src/shared/identity-snapshot-store.ts, the cache of one process
-- included, and the handler of src/modules/collab/events/auth-event-handler.ts; Replica.Steps joins
-- the calls.
-- DeadLetters models src/modules/collab/events/auth-events-dlq.ts over the field lists of Consumer:
-- numbers, JSON and the environment are the fields of Formats, the answers of Redis those of Redis.
-- Notifications models src/modules/collab/notification/activity-notification.handler.ts and the
-- insertion of activity-notification.repository.ts; the data of an event is the Json of Consumer.
-- Breaker models src/shared/circuit-breaker.ts, and RateLimit the memory of
-- src/shared/middlewares/rate-limit.middleware.ts.
-- Examples applies the theorems to small concrete states.
--
-- Not modelled: the HTTP layer, the queries that only list or search, chat, files, members, the
-- Redis event bus, the read loop of the event consumers, and what happens when two commands of the
-- board or of a contract interleave between their reads and their writes.
pub mod Base
pub mod Access
pub mod Board
pub mod Contract
pub mod Prune
pub mod Outbox
pub mod Changes
pub mod Consumer
pub mod Identity
pub mod Breaker
pub mod RateLimit
pub mod Examples
pub mod DeadLetters
pub mod Notifications
