-- ===== src/Pipeline/Stage/Cancel.antt =====
-- The cancellation of a job: `_apply_cancellation` of backend/app/workers/pipeline.py, and the end of
-- a stage that it interrupts.
use infra_ops.Prelude.{ℕ, [], none, some, map, if◌then◌else◌}
use infra_ops.Jobs.{Job, JobStatus, Step, StepStatus, is_open, update_step}
use infra_ops.Stages.{StageDefinition}
use infra_ops.Pipeline.Context.{
  Context, Environment, on_job, on_step, stamp_duration, record_event, publish_stage,
}
use infra_ops.Pipeline.Media.{release_unattended_media}
use infra_ops.Pipeline.Stage.Finish.{refresh_progress}

-- The steps that `_apply_cancellation` cancels.
abbrev pub cancel_open_at : ℕ → Step → Step
cancel_open_at now s =
    if is_open s.status
    then record s { status = StepStatus.cancelled; finished_at = some now }
    else s

-- The assignments of `_apply_cancellation`.
unfoldable pub cancel_row : ℕ → Job → Job
cancel_row now j = refresh_progress (
    stamp_duration now (record j {
      steps = map (cancel_open_at now) j.steps;
      status = JobStatus.cancelled;
      finished_at = some now;
    }))

-- `_apply_cancellation`
unfoldable pub apply_cancellation : Environment → Context → Context
unfolding release_unattended_media cancel_row
apply_cancellation env ctx =
    let (removed, released) = release_unattended_media env "job cancelled" ctx in
    let cancelled = on_job (cancel_row env.run_finished) released in
    publish_stage ctx.job.current_stage "CANCELLED" "Provisioning cancelled by user request." (
      record_event
        (record {
          action = "JOB_CANCELLED";
          resource_name = ctx.vm_name;
          job_id = some ctx.job.id;
          username = ctx.actor_username;
          datacenter_id = some ctx.request_datacenter_id;
          datacenter_name = ctx.job.datacenter_name;
          result = "cancelled";
          details = [];
          detail_text = none;
        })
        cancelled)

-- The step of a stage that the user cancelled while it was running.
abbrev pub cancelled_step : Environment → StageDefinition → Step → Step
cancelled_step env stage s = record s {
  status = StepStatus.cancelled;
  finished_at = some (env.stage_finished stage.key);
  output = some "Cancelled by user request while running.";
}

abbrev pub mark_stage_cancelled : Environment → StageDefinition → Context → Context
mark_stage_cancelled env stage ctx = on_step stage.key (cancelled_step env stage) ctx

-- The `except _StageCancelled` clause.
unfoldable pub cancel_stage : Environment → StageDefinition → Context → Context
unfolding apply_cancellation update_step
cancel_stage env stage ctx = apply_cancellation env (mark_stage_cancelled env stage ctx)
