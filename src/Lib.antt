-- ===== src/Lib.antt =====
-- The migration runtime of the Sanka command line (packages/sanka-cli/src/sanka/runtime), which moves
-- records from a source to a destination in batches that can be stopped, retried and resumed.
--
-- Parts and files. Paths are below packages/sanka-cli/src/.
--   Batch         sanka/runtime/execution/routes.py. `run_batch` is Batch.Run.run_batch: the loop over the
--                 routes, with the round of a route in Batch.Run.route_round. Its phases are Batch.Write (the
--                 write phase), Batch.Links and Batch.Relationships, Batch.Settle (parking, outcomes, repair and
--                 counters), Batch.Parked (the snapshot and the retry of parked relationships), Batch.Page
--                 (reads), Batch.Payload (`_destination_payload`) and Batch.Config (arguments, locals and
--                 tests of the loop). A batch acts on the host's world and on the snapshot, and what it did
--                 to both stays past an exception, as in the code, which mutates the snapshot.
--   Ledger        sanka/runtime/execution/local.py: the table `execution_results`, its upsert and its reads.
--                 Ledger.Log specifies them by the log of a record's outcomes.
--   Journal       sanka/runtime/execution/local.py: the table `execution_journal` with `load`, `save` and
--                 `claim`. Journal.Steps and Journal.Fence interleave calls of any handles on one file.
--   Engine        sanka/runtime/engine.py: the loops of `_with_retries` and `_candidate_ids`, `_drive_apply`'s
--                 loop over the batches in Engine.Drive, and its start and whole in Engine.Resume.
--   Model, Fault  sanka/runtime/execution/model.py and the exception classes.
--   Records       sanka_connector/records.py.
--   Mapping       sanka/runtime/mapping: Field and Properties are record_mapping.py and model.py, Owner is
--                 owner_mapping.py, Links and Pending are pending_relationships.py.
--   Scope         sanka/runtime/execution/scope.py: the candidate ids of an exact-ID scope and their hash.
--   Continuous    sanka/runtime/execution/continuous.py: the executor that claims a run and loops over its
--                 batches. Continuous is the routes that are short and how they are opened again, Manifest
--                 the saved route manifest (report_codec.py), Reconcile the reconciliation of a stalled batch
--                 with the ledger, Report the entry that is saved, Host the journal's calls and the mark of
--                 a failure, Loop the loop with its exception handler and safety limit, and Run
--                 `ContinuousExecutor.run`. The batch step is the caller's, as in the code.
--   Flow          sanka/runtime/flow: plans that construct, verify and activate workflows in a target. Json and
--                 Model are the documents of model.py. Store is the installation ledger `SqliteInstallationStore`
--                 (sqlite.py): its tables, its methods, Store.Changes (what each method may write) and
--                 Store.Calls (histories of calls through any handles). Advance and Lifecycle are lifecycle.py:
--                 the comparisons of observations, and `construct`, `discard` and `activate` with the claim
--                 that they hold. Merge is merge.py.
--   Value, Effect, Prelude  scalars as `str()` and `bool()` see them, calls that may raise, shared lemmas.
--   Tests         each theorem of the list below at a concrete input.
--
-- Interfaces. Mapping.Links.LinkHost, Batch.BatchHost, Engine.Drive.DriveHost, Continuous.Host.ExecutionHost
-- and Flow.Lifecycle.FlowHost are the calls that the code makes of a connector, of the host's ledgers
-- and journal, and of an installation store and its target, over any world `W`; a capability that the
-- code tests by `isinstance` is an `Option`. Tests.Batch fills them with the ledger's own operations on its
-- table.
--
-- Reading the definitions. A dict is a list of entries in insertion order, and a set a list read by
-- membership. The JSON text of a relationship key is the record of its fields, and that of a journal entry
-- the entry: what the report codec drops or normalises when it writes and reads an entry is not modelled.
-- Likewise the text of a flow's plan, receipt, evidence or construction is the record of the fields that
-- the code reads, and the JSON of a configuration is a tree whose objects have their keys in order. Times
-- are texts, but the clock and the leases of the installation ledger are natural numbers, where the code
-- has floats, one for each reading of the clock. Loops are structural recursion, with four exceptions on
-- fuel: a write is retried on fuel 5, the code's own limit; the enumeration of candidates returns `none`
-- without fuel, and one page more than the source has cursors is enough; `_drive_apply` returns `none`
-- without fuel, since the code sets no bound on its batches; the merge of configurations has more fuel
-- than the current value is deep. The continuous loop recurs on the batches that its own limit leaves.
--
-- Parameters: `str.lower`, the named transforms of `apply_transform`, Python's `==` on scalars,
-- `content_hash` and the digests of documents, the checks of a blueprint's declarative format (Flow.Lifecycle.Blueprints),
-- and the calls of the interfaces. Not modelled: the `details` of an exception and the
-- values put into its message, awaiting and threads (the calls of one batch run in order), and, of the
-- runtime, the limits of `Document`, `FlowLifecycle.verify` and the flow planner, the rest of the engine, the
-- run store, the rest of the report codec, the progress rows and rates of a heartbeat report,
-- the migration planner, extensions, connector transport and the command line.
pub mod Prelude
pub mod Fault
pub mod Model
pub mod Ledger
pub mod Journal
pub mod Value
pub mod Effect
pub mod Records
pub mod Mapping
pub mod Scope
pub mod Batch
pub mod Engine
pub mod Continuous
pub mod Flow
pub mod Tests
