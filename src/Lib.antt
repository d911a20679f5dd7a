-- ===== src/Lib.antt =====
-- index-01-hook receives recordings from a watch's webhook, extracts tasks and notes from what was
-- said, and delivers them to TickTick. A recording is stored once for each payload, an extraction
-- job is claimed by a worker, its items are frozen into delivery tasks, and each task is claimed,
-- created remotely under a marker, and completed. The store is SQLite; every operation is one
-- transaction, so the model is a function from a store to a store or an error, and an error leaves
-- the store as it was.
--
-- Base: lists, Boolean tests, texts as code points, tables with keys, and tables that only move
-- forward. `Text` has the UTF-8 length and TrimSpace of Go; Go's table of lower-case letters beyond
-- ASCII is a parameter `fold`.
--
-- Application (internal/application): Item (items.go), Policy (item_policy.go), Identity
-- (identity.go, and tickTickMarker of ticktick.go), Failure (failures.go).
--
-- Queue (queue.go, store.go, part of evaluation_evidence.go and database_security.go, migrations):
-- Types are the tables as lists of records; Schema the CHECK constraints, the triggers on
-- workflow_state and the statements they guard; Intake is SaveRecording; Extraction and Delivery the
-- claims, ends and manual retries of the two queues; Freeze is FreezeExtraction and Frozen its
-- validation; Evaluation the captures of evidence inside these transactions, and Shadow
-- SaveShadowVerifications. Ledger and Invariant
-- hold what is true between operations. Step has one constructor for each operation that commits,
-- and the theorems on whole runs: Runs, Health, Fences, Stale, Delivered. Retention is retention.go,
-- whose purges are no steps: they delete rows, with those that the foreign keys take along.
--
-- Health (health.go): the row that a worker keeps of itself, Stamp for the order of the timestamps,
-- which SQLite compares as texts, and Report for OperationalStatus.
--
-- Worker (worker.go): Setup is NewWorker; Provider and Verifier are the answers of the services, as
-- parameters; Retry is retryAt; Delivery is processDelivery with the calls it makes; Extraction is
-- processExtraction, and Cycle is RunOnce and Run. A cycle leaves the store that its last committed
-- transaction made, also where it fails, and the health row is changed by its own statements, whose
-- errors are logged only. The transaction that follows a saved verification has readings of the
-- clock of its own. The worker is one that has no shadow verifier, whose goroutine writes
-- beside the worker; that write itself is a step of the queue.
--
-- TypeSafe (typesafe.go, typesafe_verification.go): what Evaluate lets through, Verify for Screen and
-- Verify, over any type of probabilities with an order and the hundredths that the code names.
--
-- TickTick (ticktick.go): routing, the classes of a status, Marker (validTickTickMarker) and Scan
-- (ReconcileItem); what the service answers is a parameter.
--
-- Instants are nanoseconds and columns in milliseconds hold their quotient, as UnixMilli does. All
-- loops of the code run over lists or count down attempts, so recursion is structural and no fuel is
-- needed. Integers of the code are counts and instants far below 2 ^ 63; the retry delay, which is
-- doubled, never exceeds its maximum. A clock reading is an argument, and an operation that reads
-- the clock twice takes two.
--
-- Not modelled: HTTP and JSON, the DeepSeek client, the shadow verifier's goroutine, the date policy, the
-- dashboard, operator commands, configuration, and the evaluation tools.
pub mod Base
pub mod Application
pub mod Queue
pub mod Health
pub mod Worker
pub mod TypeSafe
pub mod TickTick
