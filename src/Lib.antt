-- ===== src/Lib.antt =====
-- Verification of the core of Discord Agent, a bot that runs coding agents from a Discord server.
--
-- Base holds the shared names, Dict the JavaScript `Map` with string keys, Text the string functions
-- and the default sort that the program uses.
--
-- * src/missions/missionLifecycle.ts is modelled in Mission: Mission.Record has the records and
--   `validateRecord`, Mission.Transition the transition table and the checks of `transition`,
--   Mission.Repository the class `MissionRepository` (a method returns the new state beside its
--   result, also where it throws), Mission.Snapshot `snapshot`, `fromSnapshot` and
--   `projectMission`. The order that `localeCompare` gives is a parameter.
-- * src/agentTeam/composition.ts is modelled in AgentTeam: AgentTeam.Contracts has the interfaces,
--   AgentTeam.Checks the helper functions, AgentTeam.Composition and AgentTeam.Members the stages of
--   `composeEffectiveAgents`. A `Set` is the list of its members in insertion order.
-- * src/repositories/taskRepository.ts is modelled in Tasks: Tasks.Rows has the rows of the tables
--   that src/db/schema.ts creates, each table a map by task id, Tasks.Status the statuses and their
--   transitions, Tasks.Select the reads and Tasks.Repository the writes. A statement that violates a
--   PRIMARY KEY or UNIQUE column throws and changes nothing, and a transaction is one write. The
--   clock and the random ids are arguments. Parameters are the comparison of project names, the
--   redaction of secrets, the settings column's JSON, and `JSON.stringify` and `JSON.parse` of the
--   columns of a result. Tasks.Recovery is src/coordinator/taskRecovery.ts, with the inspection of
--   a worktree as a parameter. Its statuses are the code's, without `created`, which
--   docs/explanation/architecture/durable-state-and-recovery.md lists too.
-- * src/repositories/loopRepository.ts is modelled in Loops: Loops.Rows has the table of
--   src/db/loopSchemaMigration.ts, Loops.Repository the reads and writes, Loops.Steps the writes as steps
--   of the table and what a sequence of calls reaches. Intervals are natural numbers. Over that
--   table, Loops.Service has src/services/scheduledLoopService.ts: the runtimes of the process and
--   `runNow`, where what the callbacks do, and what other calls do while one is awaited, is an
--   argument; Loops.Reconcile has `reconcile` and `createAndStart`.
-- * src/repositories/factoryFloorLaunchRepository.ts is modelled in Launches: Launches.Rows has the
--   table of src/db/factoryFloorLaunchMigration.ts and the bindings, Launches.Validation the checks
--   of an input, Launches.Repository the operations. Times are natural numbers, and `toLowerCase` is
--   a parameter.
-- * src/repositories/factoryFloorBindingRepository.ts is modelled in Bindings: Bindings.Rows has the
--   tables of src/db/factoryFloorBindingsMigration.ts, Bindings.Repository and Bindings.Runs the
--   writes with the migration's trigger on archived projects, Bindings.Finds the reads,
--   Bindings.Steps the writes as operations in any order.
-- * src/factoryFloor/serviceAuth.ts is modelled in ServiceAuth: ServiceAuth.Header has the header
--   with its regular expressions, ServiceAuth.Verify the signing and the verification,
--   ServiceAuth.Nonces the nonce store at the end of the binding repository, ServiceAuth.Decimal the
--   timestamps as texts. Digests, hexadecimal, UTF-8 and `toUpperCase` are parameters.
-- * src/services/usageAdmission.ts and src/repositories/usageRepository.ts are modelled in Usage:
--   Usage.Repository has the tables' reads and writes, Usage.Classify the classes of prompts and
--   their estimates, Usage.Admission the service. Costs are whole multiples of a hundred-thousandth
--   of a percent. `toLowerCase` and the primary agent's reserve are parameters.
-- * src/utils/chunker.ts is modelled in Chunker, over lists of UTF-16 code units.
--
-- The models read rows in the order of the maps and sort where the source orders them. Loops over
-- rows are structural recursion. Two functions run on a bound of rounds: the loop of Chunker, whose
-- bound is the length of the text and which gives `none` where it runs out, and the digits of a
-- number in ServiceAuth.Decimal, whose bound is the number itself.
--
-- The task coordinator, the remaining services, the Discord commands, the providers and the HTTP
-- control service are not modelled: the coordinator is a later part, the others are mostly calls of
-- outside libraries. A statement of the database that fails for another reason than its constraints
-- is not modelled, and neither are fractions and negative times.
pub mod Base
pub mod Dict
pub mod Text
pub mod Mission
pub mod AgentTeam
pub mod Tasks
pub mod Loops
pub mod Launches
pub mod Chunker
pub mod Bindings
pub mod ServiceAuth
pub mod Usage
