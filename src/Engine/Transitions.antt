-- ===== src/Engine/Transitions.antt =====
-- The transitions of a job that the engine makes outside the pipeline: `_fail_before_pipeline` and
-- `_interrupt`.
use infra_ops.Prelude.{
  ℕ, Bool, true, false, String, List, [], ◌∷◌, ◌++◌, Option, none, some, map, concat, clip,
  if◌then◌else◌,
}
use infra_ops.Prelude.Json.{Json, str, get_field}
use infra_ops.Jobs.{Job, JobStatus, Step, StepStatus, is_step_running}
use infra_ops.Repository.Retry.{cancel_open}
use infra_ops.Pipeline.Context.{
  Context, Environment, on_job, stamp_duration, record_event, publish_stage, notify_requester,
  failed_message, interrupted_message, job_failed,
}
use infra_ops.Pipeline.Media.{release_unattended_media}
use infra_ops.Pipeline.Stage.{refresh_progress}

-- An exception: `str(exc)` and the name of its type.
pub record Failure : Type 0 where
  pub text : String
  pub type_name : String

-- `str(exc) or type(exc).__name__`
abbrev pub human_text : Failure → String
human_text e = if infra_ops.Prelude.str_eq e.text "" then e.type_name else e.text

-- The assignments of `_fail_before_pipeline`.
unfoldable pub fail_row : ℕ → Failure → Job → Job
fail_row now e j =
    let human = human_text e in
    let failed = stamp_duration now (record j {
      status = JobStatus.failed;
      error_summary = some (clip 500 human);
      error_detail = some (clip 4000 (concat (human ∷ "\n\n" ∷ e.type_name ∷ ": " ∷ e.text ∷ [])));
      finished_at = some now;
      worker_id = none;
    }) in
    record failed { steps = map cancel_open failed.steps }

-- The text of a field of `compute` in the stored payload; `none` where it has none.
abbrev payload_datacenter : Option Json → Option String
payload_datacenter none = none
payload_datacenter (some payload) = elim (get_field "compute" payload) [
  | some compute ↦ elim (get_field "datacenter_id" compute) [ some (str s) ↦ some s | _ ↦ none ]
  | none ↦ none
]

-- `_fail_before_pipeline`, in the context of the job
unfoldable pub fail_before_pipeline : ℕ → Failure → Context → Context
unfolding fail_row notify_requester failed_message
fail_before_pipeline now e ctx =
    let human = human_text e in
    let failed = on_job (fail_row now e) ctx in
    let notified =
      notify_requester job_failed (failed_message failed.job "Start provisioning" human) failed in
    publish_stage none "FAILED" human (
      record_event
        (record {
          action = "JOB_FAILED";
          resource_name = ctx.job.vm_name;
          job_id = some ctx.job.id;
          username = ctx.actor_username;
          datacenter_id = payload_datacenter ctx.job.payload;
          datacenter_name = ctx.job.datacenter_name;
          result = "failure";
          details = [];
          detail_text = some human;
        })
        notified)

-- The assignments of `_interrupt` to a step that is running.
abbrev pub interrupt_step : ℕ → String → Step → Step
interrupt_step now reason s =
    if is_step_running s.status
    then record s {
      status = StepStatus.failed;
      finished_at = some now;
      retryable = true;
      error_human = some (
          concat (
            reason
            ∷ "\n\nReason:\nThe worker executing this stage stopped.\n\nRecommended action:\nRetry the job; completed stages are not repeated."
            ∷ []));
    }
    else s

-- The assignments of `_interrupt` to the job.
unfoldable pub interrupt_row : ℕ → String → Job → Job
interrupt_row now reason j = refresh_progress (
    stamp_duration now (record j {
      steps = map (interrupt_step now reason) j.steps;
      status = JobStatus.interrupted;
      error_summary = some reason;
      worker_id = none;
      heartbeat_at = none;
      finished_at = some now;
    }))

-- The part of `_interrupt` up to its commit; `interrupt` goes on after it.
unfoldable pub park : ℕ → String → Context → Context
unfolding interrupt_row notify_requester interrupted_message
park now reason ctx =
    let parked = on_job (interrupt_row now reason) ctx in
    let notified = notify_requester job_failed (interrupted_message parked.job reason) parked in
    publish_stage parked.job.current_stage "INTERRUPTED" reason (
      record_event
        (record {
          action = "JOB_INTERRUPTED";
          resource_name = ctx.job.vm_name;
          job_id = some ctx.job.id;
          username = none;
          datacenter_id = none;
          datacenter_name = ctx.job.datacenter_name;
          result = "interrupted";
          details = [];
          detail_text = some reason;
        })
        notified)

-- `_interrupt`: after the commit the media are released. A release that fails, or a context that
-- cannot be built (`none`), leaves the row as it was committed.
unfoldable pub interrupt : ℕ → String → Option Environment → Context → Context
unfolding park release_unattended_media
interrupt now reason none ctx = park now reason ctx
interrupt now reason (some env) ctx =
    let parked = park now reason ctx in
    let (removed, released) = release_unattended_media env "job interrupted" parked in
    if removed then released else parked
