-- ===== src/Witnesses/Runs.antt =====
-- Runs of the pipeline on sample jobs.
use infra_ops.Prelude.{
  if◌then◌else◌, ◌≤◌, ◌≡◌, ◌≢◌, refl, arith, true, false, str_eq, str_mem, not, ◌&&◌, String, [],
  ◌∷◌, none, some, eq_iff, length, All, ◌<◌, ◌↔◌,
}
use infra_ops.Jobs.{StepStatus, JobStatus, is_terminal}
use infra_ops.Prelude.Json.{str, bool, holds, truthy, lookup}
use infra_ops.Jobs.{find_step, update_step, artifacts_of}
use infra_ops.Stages.{StageDefinition, stage, ordered_stages}
use infra_ops.Repository.Progress.{compute_progress, actionable, done_count}
use infra_ops.Repository.Progress.Bounds.{compute_progress_full}
use infra_ops.Repository.Retry.{may_hold_unattended_media}
use infra_ops.Pipeline.Context.{
  Context, StageOutcome, InfraError, apply_effect, apply_handler, stage_cancelled, escapes,
  task_cancelled,
}
use infra_ops.Pipeline.Media.{release_unattended_media, require_vm_id, datastore_path}
use infra_ops.Pipeline.Stage.{
  handle_failure, begin_stage, outcome_status, finish_stage, conclude_stage, run_handler, run_stage,
}
use infra_ops.Pipeline.Run.{
  is_escape, execute, run_stages, visit_stage, visit_open, finalize_success,
}
use infra_ops.Pipeline.Outcome.{has_vm, execute-is_terminal, status-handle_failure}
use infra_ops.Pipeline.StepProgress.{progress_at}
use infra_ops.Pipeline.Kept.{execute_keeps_done}
use infra_ops.Pipeline.Release.{removal_returns, release_clears, stale_mark}
use infra_ops.Pipeline.Completion.{NoLiveCancellation, settled_at, completed-All_settled}
use infra_ops.Pipeline.Cancellation.{early_stages, cancelled_at, cancelled_last_stage-completed}
use infra_ops.Pipeline.Stopped.{cancelled_job-stops}
use infra_ops.Witnesses.Data.{
  installing, environment_of, ran_well, context_of, job_with, step_with, step_at, handler_ending,
}

no_escape : is_escape (execute (environment_of ran_well false) installing).escaped ≡ false
unfolding execute run_stages visit_stage visit_open run_stage run_handler conclude_stage begin_stage
    finish_stage outcome_status apply_effect apply_handler finalize_success ordered_stages find_step
    update_step str_mem
no_escape = refl

-- A run whose task is cancelled leaves the job RUNNING.
left_running :
    (execute (environment_of (escapes task_cancelled) false) installing).job.status
    ≡ JobStatus.running
unfolding execute run_stages visit_stage visit_open run_stage run_handler conclude_stage begin_stage
    apply_effect apply_handler ordered_stages find_step update_step str_mem
left_running = refl

execute-is_terminal_example :
    is_terminal (execute (environment_of ran_well false) installing).job.status ≡ true
execute-is_terminal_example =
    execute-is_terminal (environment_of ran_well false) installing no_escape

abbrev create_key : String
create_key = "create_vm"

not_prepare_create : "prepare_unattended_install" ≢ create_key
not_prepare_create e = ground (arith, eq_iff "prepare_unattended_install" create_key)

execute_keeps_done_example :
    progress_at "create_vm" (execute (environment_of ran_well false) installing)
    ≡ some (StepStatus.succeeded, 0, none, none, none)
unfolding find_step
execute_keeps_done_example =
    execute_keeps_done (environment_of ran_well false) installing "create_vm"
      (StepStatus.succeeded, 0, none, none, none) not_prepare_create refl refl

runs_to_completed :
    (execute (environment_of ran_well false) installing).job.status ≡ JobStatus.completed
unfolding execute run_stages visit_stage visit_open run_stage run_handler conclude_stage begin_stage
    finish_stage outcome_status apply_effect apply_handler finalize_success ordered_stages find_step
    update_step str_mem
runs_to_completed = refl

ends_well : NoLiveCancellation (environment_of ran_well false)
ends_well key handler ctx registered e = ground arith

completed-All_settled_example :
    All
      (λ (s : StageDefinition).
        settled_at s.key (execute (environment_of ran_well false) installing) ≡ true)
      ordered_stages
completed-All_settled_example =
    completed-All_settled (environment_of ran_well false) installing ends_well no_escape
      runs_to_completed

release_clears_example :
    ((release_unattended_media (environment_of ran_well false) "job cancelled" installing).0 ≡ (
      may_hold_unattended_media installing.job.steps
      && removal_returns
          (environment_of ran_well false)
          (datastore_path installing.job.steps)
          (require_vm_id installing).0))
    × (may_hold_unattended_media
          (release_unattended_media
            (environment_of ran_well false)
            "job cancelled"
            installing).1.job.steps
        ≡ (may_hold_unattended_media installing.job.steps
            && not
                (release_unattended_media
                  (environment_of ran_well false)
                  "job cancelled"
                  installing).0))
release_clears_example = release_clears (environment_of ran_well false) "job cancelled" installing

compute_progress_full_example :
    (compute_progress installing.job ≤ 100)
    × ((compute_progress installing.job ≡ 100) ↔ (
        (0 < length (actionable installing.job))
        × (done_count installing.job ≡ length (actionable installing.job))))
compute_progress_full_example = compute_progress_full installing.job (ground arith)

abbrev prepare_again : StageDefinition
prepare_again = stage "prepare_unattended_install" "Prepare unattended Windows installation"

abbrev new_media : StageOutcome
new_media = record {
  status = "SUCCEEDED";
  output = "Attached.";
  artifacts = ("datastore_path", str "[ds1] second.iso") ∷ [];
}

abbrev released_once : Context
released_once = context_of (
    job_with 1 "WEB-01" JobStatus.running (
      step_with "prepare_unattended_install" StepStatus.running
        (("datastore_path", str "[ds1] answer.iso") ∷ ("media_removed", bool true) ∷ [])
      ∷ []))

recorded_removed :
    holds "media_removed" (artifacts_of "prepare_unattended_install" released_once.job.steps) ≡ true
unfolding find_step lookup truthy
recorded_removed = refl

stale_mark_example :
    let prepared =
      finish_stage (environment_of ran_well false) prepare_again new_media released_once in
    (holds "datastore_path" (artifacts_of "prepare_unattended_install" prepared.job.steps)
      ≡ truthy (str "[ds1] second.iso"))
    × (may_hold_unattended_media prepared.job.steps ≡ false)
    × (release_unattended_media (environment_of ran_well false) "job cancelled" prepared
        ≡ (false, prepared))
stale_mark_example =
    stale_mark (environment_of ran_well false) prepare_again new_media (str "[ds1] second.iso")
      "job cancelled" released_once refl refl recorded_removed

abbrev last_stage_open : Context
last_stage_open = context_of (
    job_with 1 "WEB-01" JobStatus.running (
      step_at "create_vm" StepStatus.succeeded
      ∷ step_at "final_validation" StepStatus.pending
      ∷ []))

early_done : All (λ (s : StageDefinition). settled_at s.key last_stage_open ≡ true) early_stages
unfolding ordered_stages find_step
early_done = ground arith

cancelled_last_stage-completed_example :
    ((execute (environment_of stage_cancelled false) last_stage_open).job.status
      ≡ JobStatus.completed)
    × (cancelled_at "final_validation"
          (execute (environment_of stage_cancelled false) last_stage_open)
        ≡ true)
unfolding find_step
cancelled_last_stage-completed_example =
    cancelled_last_stage-completed (environment_of stage_cancelled false)
      (handler_ending stage_cancelled) last_stage_open early_done refl refl refl refl (λ c. refl)

cancelled_job-stops_example :
    let env = environment_of ran_well true in
    let ended = execute env installing in
    (ended.job.status ≡ JobStatus.cancelled)
    × (may_hold_unattended_media ended.job.steps ≡ (
        may_hold_unattended_media installing.job.steps
        && not (
            removal_returns env
              (datastore_path installing.job.steps)
              (require_vm_id installing).0)))
unfolding find_step ordered_stages
cancelled_job-stops_example =
    cancelled_job-stops (environment_of ran_well true) installing (λ key. refl) refl

abbrev sample_error : InfraError
sample_error = record {
  human_message = "The VM did not start.";
  reason = "No host has capacity.";
  recommended_action = "Retry later.";
  technical_detail = "";
  retryable = true;
}

abbrev power_on_stage : StageDefinition
power_on_stage = stage "power_on" "Power on and start Windows Setup"

status-handle_failure_example :
    (handle_failure
      (environment_of ran_well false)
      power_on_stage
      sample_error
      installing).job.status
    ≡ (if not (str_eq "power_on" "create_vm") && has_vm installing
        then JobStatus.partially_completed
        else JobStatus.failed)
status-handle_failure_example =
    status-handle_failure (environment_of ran_well false) power_on_stage sample_error installing
