-- ===== src/Lib.antt =====
-- InfraOps: the provisioning of virtual machines as queued jobs.
--
-- A request submitted to the API becomes a row of the job table. A worker claims due rows, and runs
-- the job's 26 stages in order through the pipeline; stages that are done are passed over, so a retry
-- resumes. A worker that dies is found by its missing heartbeat and its job parked as INTERRUPTED.
-- Jobs are cancelled and retried through the API. During the installation of Windows an answer medium
-- with the administrator's password is attached to the VM; it is released when the job stops early.
--
-- The files and the code under backend/app that they model:
--   Prelude, Prelude/*: tests, lists, strings, integers, JSON values, and the double arithmetic of
--     the progress (Prelude/Double, exact for the quotients that occur).
--   Jobs/Status, Jobs/Rows, Jobs/Steps: models/jobs.py, the statuses and the rows; a job holds its
--     step rows in a list, looked up by key (steps_by_key of workers/context.py).
--   Stages: workers/state_machine.py.
--   Repository/*: repositories/jobs.py over the list of rows. Progress is compute_progress, Queue the
--     claims and heartbeats, Retry the reset and the cancellation of one job, Steps ensure_steps,
--     Create create_job, Table the lookups and the unique indexes of models/jobs.py. Unique is about
--     what the indexes keep true, Claims about which jobs a claim selects.
--   Pipeline/Context: JobRunContext, with the audit events, notifications and live events in the
--     order in which they are written, and the Environment, what a run gets from outside.
--   Pipeline/Timeout, Pipeline/Media: effective_timeout_seconds, _require_vm_id and
--     release_unattended_media of workers/stages.py.
--   Pipeline/Stage, Pipeline/Stage/*, Pipeline/Run: workers/pipeline.py; run_stage is _run_stage,
--     handle_failure _handle_failure, apply_cancellation _apply_cancellation, finalize_success
--     _finalize_success. The other files of Pipeline hold proofs.
--   Service/*: services/provisioning/service.py with its errors; Service/Reservations, Replay,
--     Cancel and Retry hold proofs.
--   Engine/*: workers/engine.py: its configuration, the claim, the heartbeat decision, the failure
--     before the pipeline, the interruption, the processing of a job (Engine/Reaper: process_job is
--     _process_job, execute_job _execute_job, reap_stale_jobs the reaper's loop); Engine/Resume,
--     Engine/Ended, Engine/Processed and Engine/Consistent hold proofs.
--   System: the calls and transactions of the API and of any number of workers as a step relation on
--     the job table, and what all of them keep true of it.
--   Limiter: the in-process limiter of core/rate_limit.py; Limiter/Refined compares it with one that
--     keeps every call. Permissions: auth/permissions.py. Placement: services/provisioning/placement.py.
--   ClientIp: core/client_ip.py, over parameters for the ipaddress module; ClientIp/Forged holds proofs.
--   Guest: services/guest/scripts.py (literals and paths); Guest/Literals reads a literal back.
--   Network/Address: what the code uses of Python's ipaddress; Network/Masks, Network/Static and
--     Network/Conflict: services/network/validation.py and conflict.py. Network/Usable holds proofs.
--   Applications/Catalog, Search, Order, Resolve: resolve_install_order of
--     services/applications/resolver.py; Search is its depth-first search (visit), Order its
--     topological sort (kahn is the while loop). Fuel, Quiet, Found, Closed, Needed are about the
--     search, Counts, Edges, Depends, Kahn, Rounds, Complete about the sort, Installed about both.
--   Applications/Paths: services/applications/paths.py; Applications/Roots holds its proofs.
--   Requests/Schema, Validate, Identity, Fields: schemas/provisioning.py, with the patterns of it and
--     of schemas/secret_references.py in Requests/Patterns and Python's upper and lower in
--     Requests/Letters. Requests/Names, Windows and Limits hold proofs.
--   Preflight/Report, Inventory, Catalogue, Run: services/provisioning/preflight.py (validate and its
--     section helpers), which calls the checks of Network, Applications and Placement;
--     Preflight/Media: services/windows_media.py. Preflight/Ready and Verdict hold proofs.
--   Witnesses/*: sample jobs and runs.
--
-- A stage handler, the clock, the adapters and the database's cancel flag are arguments of the model
-- (Environment): a handler is any function of the context that says what it writes and how it ends.
-- No handler assigns a status, an attempt or a time of a step. An exception that leaves execute (the
-- CancelledError of its task, or an error that _run_stage does not catch) is an end of a handler
-- (escapes): the context keeps it as escaped, and the effect of the handler is then what it has
-- committed. A CancelledError that arrives at another await of the pipeline is not modelled.
--
-- Each call of the service is one step on
-- the table; a submission reads the table that it checks apart from the table that it inserts into, so
-- that another session may come between. Times, intervals and windows are whole numbers. The run of
-- the pipeline is structural over the list of stages, the reaper over the number of jobs that it may
-- interrupt. The column updated_at, which the database sets at every write, is an argument of the
-- stale query, its only reader. Decimal numerals take at most 20 digits, which is enough below 10^20, and the
-- normalisation of a double 64 steps, which is enough for quotients of numbers below 2^53.
--
-- A visit of the dependency search takes as fuel one more than the number of applications, which is
-- enough because each level of the recursion visits one that was not visited before; Python's own
-- recursion limit is not modelled. The loop of the sort takes a round for each application.
-- An IPv4 address is a number, a UUID its number, so that the order of their texts is that of the
-- numbers; letters beyond ASCII are folded to themselves; a dict by identifier is a list of pairs. In
-- the preflight the details of the checks are left out, and an exception of the database ends the run
-- and is not an answer; the exception handler around the conflict check is never entered, since
-- run_conflict_check catches what its providers raise. The service takes the preflight's report as an
-- argument of a submission.
--
-- Not modelled: the handlers of the stages, the adapters to vCenter and the guest, the runner scripts
-- that start programs there, the parsing of JSON into the request (the schema library), detection
-- rules and the installer, the HTTP layer, sessions, secrets, logs and metrics, and the frontend.
pub mod Prelude
pub mod Jobs
pub mod Stages
pub mod Repository
pub mod Pipeline
pub mod Service
pub mod Engine
pub mod System
pub mod Placement
pub mod Limiter
pub mod ClientIp
pub mod Guest
pub mod Permissions
pub mod Network
pub mod Requests
pub mod Applications
pub mod Preflight
pub mod Witnesses
