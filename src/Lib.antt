-- ===== src/Lib.antt =====
-- The operations core of Real-Ming: Work Items, from the CEO's command to the CEO's review, and the
-- scheduled and Telegram deliveries beside them.
--
-- The program's parts. The operations gateway (src/operations/operations-gateway.ts) has a method for
-- each thing that the CEO, an executive or a schedule may ask: to capture a command as a Work Item, to
-- execute or rework it, to decide on an action, to grant an Approval or a Standing Authority, to review an
-- outcome, to record a commitment or a priority, to import a migrated Work Item. It reads and writes
-- the operations state (src/operations/operations-state.ts), a database with one transaction for
-- each method; it asks the policy engine (policy-engine.ts) what is permitted, the lifecycle
-- (work-item-lifecycle.ts) for the path to a state, and the routing (executive-role-router.ts) for the
-- accountable executive. Workers, the verifier, the responder, the classifier and the projector of
-- Master Tasks are given to it.
--
-- Beside the Work Items the operations state has the outbox of Telegram deliveries, the claims of scheduled
-- occurrences and the notices of exceptions. The front door (src/telegram/telegram-front-door.ts) claims
-- a delivery in the outbox before it hands the message to the transport, and records the outcome; the
-- rhythm of exception notices (src/operations/exception-notice-rhythm.ts) groups and holds notices and
-- sends them through the front door, by the hours of src/operations/daily-schedule.ts. The ticket graph
-- (src/phase3/ticket-graph.ts) stands apart: it says which ticket of a plan is to be worked on next.
--
-- Which file models which part.
--   Contracts: src/operations/contracts.ts. Kinds has the string unions as data types, Names their texts,
--     Records the interfaces as records, Json the values that are written to JSON columns. A name in
--     camelCase is in snake_case here, and `type` is `kind`.
--   Routing: src/operations/executive-role-router.ts.
--   Lifecycle: src/operations/work-item-lifecycle.ts, `lifecyclePathTo` as `lifecycle_path_to`. The queue
--     of the search is bounded by fuel, one unit for each state: each enters it once.
--   Policy: src/operations/policy-engine.ts, `evaluateAction` as `evaluate_action`.
--   Store: src/operations/operations-state.ts. Database has the tables as lists of rows, Sql the statements
--     with their constraints and triggers, Items, Notes, Approvals, Outcomes and Import the methods. A
--     transaction is a function from the database to a failure, or a value and a database: what
--     fails is rolled back. Steps has the relation of what a committed transaction may do, its
--     children relate the methods to it, and Replay, Backing, Keys and Trail follow the relation.
--   Gateway: src/operations/operations-gateway.ts. World has the surroundings and the way that methods run:
--     what a method committed stays when it throws later. Publish, Execution, Commands, Decisions
--     and Reviews have the methods; Service runs any sequence of calls.
--   Telegram: the outbox and the other tables of the channel in src/operations/operations-state.ts (Kinds,
--     Tables, Outbox, Notices, Ingress; Calls has the methods in any order), and `sendDurably`,
--     `retryPendingDeliveries` and `notify` of the front door (Channel, FrontDoor). What a method of the
--     state committed stays when a later one throws.
--   Scheduler: `claimSchedulerRun`, `completeSchedulerRun` and `schedulerRunOutput` of
--     src/operations/operations-state.ts; Calls has them in any order.
--   Notices: src/operations/daily-schedule.ts (Schedule) and src/operations/exception-notice-rhythm.ts (Rhythm
--     has `admit`, Sweep has `releaseHeld` and `recordRecovery`).
--   Tickets: src/phase3/ticket-graph.ts, `assertAcyclic` (Acyclic) and the statuses of `classifyTicketGraph`,
--     without the human gates of a ticket. A `Map` is a list of which the last entry for a key counts. The
--     recursion of the cycle search is bounded by fuel, one unit for each ticket and one more: the
--     tickets on the path to a call are all different.
--   Examples: a Work Item, deliveries, claims, notices and a ticket graph, and the theorems at them.
--
-- Parameters. The clock and the identifiers are functions of how often they were asked, so they may be
-- anything; the replies of workers, verifier, responder and projector are functions of the call's number. The
-- patterns of src/operations/sensitive-secret.ts are the parameters `carries_secret` and `sensitive_fields`.
-- An import draws its two identifiers before it looks for the Work Item, and a capture its one before it
-- inspects the payload: identifiers that are drawn and not used change nothing.
--
-- The numbers of audit rows are SQLite's: the field `row_id` of the database may be any function of the rows
-- that are there, and no method changes it.
--
-- `Date.parse` is the parameter `parse_date`, from texts to milliseconds, counted from the earliest moment
-- that a JavaScript date can hold, since only the order and the distance of moments matter; `none` is NaN. What
-- `Date` and `Intl` say of the operating zone is the record `Calendar`. SHA-256 is the parameter `digest`,
-- and the replies of the transport are a function of how many messages it was handed. The front door and the
-- rhythm read one clock.
--
-- Bounds. Numbers are natural numbers: revision numbers grow by one for each row, and the
-- source's doubles are exact below 2 ^ 53. Texts are compared by their code points, which
-- for the timestamps compared here is the order of the source's UTF-16 units.
--
-- Not modelled: the interleaving of two asynchronous calls (each call runs to its end), schema upgrades of
-- old databases, the tables of review controls, of the providers, of health and of retention in
-- src/operations/operations-state.ts, the parsing and the rendering of the ticket graph, the handling of
-- Telegram messages and callbacks in the front door, and
-- the subsystems around the core (src/providers, src/knowledge, src/runtime, src/dashboard, src/portfolio,
-- src/migration, src/calendar, src/workers).
pub mod Base
pub mod Contracts
pub mod Routing
pub mod Lifecycle
pub mod Policy
pub mod Store
pub mod Gateway
pub mod Telegram
pub mod Scheduler
pub mod Notices
pub mod Tickets
pub mod Examples
