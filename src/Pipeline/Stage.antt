-- ===== src/Pipeline/Stage.antt =====
-- One stage of backend/app/workers/pipeline.py: how `_run_stage` runs a handler and goes on after it.
pub mod Finish
pub mod Failure
pub mod Cancel
pub use Finish.*
pub use Failure.*
pub use Cancel.*
unfoldable pub use Finish.{first_line, begin_stage, outcome_status, finish_stage}
unfoldable pub use Failure.{
  save_screenshot, attach_console_screenshot, mark_components, fail_step, fail_job, report_failure,
  show_failure, mark_failed, handle_failure,
}
unfoldable pub use Cancel.{cancel_row, apply_cancellation, cancel_stage}
use Prim.Native.Char.{code}
use infra_ops.Prelude.{
  ℕ, ◌+◌, Bool, true, false, ◌&&◌, String, List, [], ◌∷◌, Option, none, some, map, concat, clip,
  or_else, str_eq, str_mem, truthy_text, ◌==◌, any, strip, if◌then◌else◌,
}
use infra_ops.Prelude.Int.{pos}
use infra_ops.Prelude.Json.{num, str, insert, update}
use infra_ops.Jobs.{
  Job, JobStatus, Step, StepStatus, InfrastructureStatus, GuestOsStatus, VmwareToolsStatus,
  GuestProvisioningStatus, is_open, is_succeeded_or_skipped, find_step, step_status_in, update_step,
}
use infra_ops.Stages.{StageDefinition, console_stages}
use infra_ops.Repository.Progress.{compute_progress}
use infra_ops.Pipeline.Context.{
  Context, Environment, Effect, HandlerEnd, returned, raised, timed_out, crashed, stage_cancelled,
  escapes, InfraError, StageOutcome, summary, apply_handler, on_job, on_step, stamp_duration,
  record_event, publish_stage, notify_requester, failed_message, job_failed,
}
use infra_ops.Pipeline.Timeout.{effective_timeout_seconds}
use infra_ops.Prelude.Decimal.{show}
use infra_ops.Pipeline.Media.{require_vm_id, release_unattended_media}

abbrev pub no_handler_error : StageDefinition → InfraError
no_handler_error stage = record {
  human_message = concat ("Stage '" ∷ stage.key ∷ "' has no registered handler." ∷ []);
  reason = "Internal pipeline misconfiguration.";
  recommended_action = "Report this incident to the platform administrators.";
  technical_detail = "";
  retryable = false;
}

abbrev pub timeout_error : Environment → StageDefinition → InfraError
timeout_error env stage =
    let seconds = show (effective_timeout_seconds env.overrides stage.key) in
    record {
      human_message =
          concat ("'" ∷ stage.name ∷ "' exceeded its " ∷ seconds ∷ " second timeout." ∷ []);
      reason = "The operation did not complete within the configured time limit.";
      recommended_action = concat (
          "Retry the '" ∷ stage.name ∷ "' stage; increase the timeout in Settings if needed." ∷ []);
      technical_detail = concat ("timeout_seconds=" ∷ seconds ∷ ".0" ∷ []);
      retryable = true;
    }

abbrev pub crash_error : StageDefinition → String → InfraError
crash_error stage traceback = record {
  human_message = concat ("'" ∷ stage.name ∷ "' failed unexpectedly." ∷ []);
  reason = "An unexpected internal error interrupted the stage.";
  recommended_action = "Review the technical details and retry the stage.";
  technical_detail = traceback;
  retryable = true;
}

-- What follows the handler, by how it ended.
unfoldable pub conclude_stage : Environment → StageDefinition → HandlerEnd → Context → Context
unfolding finish_stage handle_failure cancel_stage
conclude_stage env stage (returned outcome) ctx = finish_stage env stage outcome ctx
conclude_stage env stage (raised e) ctx = handle_failure env stage e ctx
conclude_stage env stage timed_out ctx = handle_failure env stage (timeout_error env stage) ctx
conclude_stage env stage (crashed traceback) ctx =
    handle_failure env stage (crash_error stage traceback) ctx
conclude_stage env stage stage_cancelled ctx = cancel_stage env stage ctx
conclude_stage env stage (escapes e) ctx = record ctx { escaped = some e }

-- The `try` statement of `_run_stage` and what follows it, by the handler that is registered.
unfoldable pub run_handler :
    Environment → StageDefinition → Option (Context → Effect × HandlerEnd) → Context → Context
unfolding handle_failure conclude_stage apply_handler
run_handler env stage none ctx = handle_failure env stage (no_handler_error stage) ctx
run_handler env stage (some handler) ctx =
    let (effect, end) = handler ctx in
    conclude_stage env stage end (apply_handler stage.key effect ctx)

-- `_run_stage`
unfoldable pub run_stage : Environment → StageDefinition → Context → Context
unfolding begin_stage run_handler
run_stage env stage ctx = run_handler env stage (env.handler stage.key) (begin_stage env stage ctx)
