-- ===== src/Service/Manage.antt =====
-- retry_stages and cancel_job.
use infra_ops.Prelude.{
  ℕ, Bool, true, false, ◌&&◌, not, String, List, [], ◌∷◌, Option, none, some, concat, if◌then◌else◌,
}
use infra_ops.Prelude.Json.{Json, Items, nil, cons, str, arr}
use infra_ops.Jobs.{Job, JobStatus, Step, StepStatus, is_interrupted, is_terminal, find_step}
use infra_ops.Stages.{StageDefinition, find_stage, ordered_stages}
use infra_ops.Repository.Table.{
  Flush, integrity_error, flushed, has_active_job_for_vm, flush_update,
}
use infra_ops.Repository.Retry.{reset_for_retry, may_hold_unattended_media, request_cancel}
use infra_ops.Pipeline.Stage.{step_status_value}
use infra_ops.Service.Types.{
  conflict, validation, not_found, Result, ok, raised, Api, reservation_conflict, record_audit,
  publish, job_status_value,
}

-- The statuses of a job that can be retried.
abbrev pub is_retryable : JobStatus → Bool
is_retryable JobStatus.failed = true
is_retryable JobStatus.partially_completed = true
is_retryable JobStatus.cancelled = true
is_retryable JobStatus.interrupted = true
is_retryable _ = false

-- `step.status in (FAILED, CANCELLED)`
abbrev pub is_retryable_step : StepStatus → Bool
is_retryable_step StepStatus.failed = true
is_retryable_step StepStatus.cancelled = true
is_retryable_step _ = false

-- The checks on a named stage: the keys to reset, or the error.
unfoldable pub check_stage : String → Option StageDefinition → Option Step → Result (List String)
check_stage key (some definition) (some step) =
    if not (definition.retryable && step.retryable)
    then raised (validation (concat ("Stage '" ∷ key ∷ "' is not retryable." ∷ [])))
    else if not (is_retryable_step step.status)
    then raised (
        validation (
          concat (
            "Stage '"
            ∷ key
            ∷ "' is '"
            ∷ step_status_value step.status
            ∷ "' — only failed stages can be retried."
            ∷ [])))
    else ok (key ∷ [])
check_stage key _ _ = raised (not_found (concat ("Unknown stage '" ∷ key ∷ "' for this job." ∷ [])))

-- The keys of a retry that names no stage (`stage_keys` stays None), or of one that names a stage.
unfoldable pub named_keys : Result (List String) → Result (Option (List String))
named_keys (ok keys) = ok (some keys)
named_keys (raised e) = raised e

unfoldable pub check_named : Option String → Job → Result (Option (List String))
check_named none job = ok none
check_named (some key) job =
    named_keys (check_stage key (find_stage key ordered_stages) (find_step key job.steps))

unfoldable pub check_retry :
    (Option Json → Bool) → Option String → Job → Result (Option (List String))
check_retry readable stage_key job =
    if not (is_retryable job.status)
    then raised (
        validation
          (concat ("Jobs in status '" ∷ job_status_value job.status ∷ "' cannot be retried." ∷ [])))
    else if not (readable job.payload)
    then raised (
        validation
          "This job was created by a provisioning workflow that no longer exists, so it can only be viewed. Submit a new request to create the VM.")
    else check_named stage_key job

abbrev json_keys : List String → Items
json_keys [] = nil
json_keys (k ∷ ks) = cons (str k) (json_keys ks)

-- `', '.join(keys)`
abbrev pub join_keys : List String → List String
join_keys [] = []
join_keys (k ∷ []) = k ∷ []
join_keys (k ∷ ks) = k ∷ ", " ∷ join_keys ks

-- What follows the flush of the reset job.
unfoldable pub retry_reply :
    Option ℕ → Option String → List String → Job → Flush → Api → Result (List String) × Api
unfolding reservation_conflict
retry_reply user username reset job (integrity_error c) api =
    (raised (reservation_conflict c job.vm_name), api)
retry_reply user username reset job (flushed jobs) api = (
  ok reset,
  publish
      (record {
        job_id = job.id;
        stage = none;
        status = "QUEUED";
        progress = job.progress;
        message = concat ("Retrying stage(s): " ∷ join_keys reset);
      })
      (record_audit
        (record {
          action = "JOB_STAGE_RETRIED";
          resource_name = job.vm_name;
          job_id = some job.id;
          username = username;
          datacenter_id = none;
          datacenter_name = none;
          result = "requeued";
          details = ("stages", arr (json_keys reset)) ∷ [];
          detail_text = none;
        })
        (record api { jobs = jobs })),
)

-- What follows the reset of a retry. A reset of no step writes nothing and is an error.
unfoldable pub reset_reply :
    Option ℕ → Option String → List String × Job → Api → Result (List String) × Api
reset_reply user username ([], job) api =
    (raised (validation "No failed stages were found to retry."), api)
reset_reply user username (k ∷ ks, job) api =
    retry_reply user username (k ∷ ks) job (flush_update job api.jobs) api

-- What follows the checks of the job and of its stage.
unfoldable pub retry_checked :
    Result (Option (List String))
    → ℕ
    → Option ℕ
    → Option String
    → Job
    → Api
    → Result (List String) × Api
retry_checked (raised e) now user username job api = (raised e, api)
retry_checked (ok keys) now user username job api =
    if has_active_job_for_vm job.vm_name (some job.id) api.jobs
    then (
      raised (
          conflict (
            concat (
              "Another active provisioning job for '" ∷ job.vm_name
              ∷ "' exists; it must finish first." ∷ []))),
      api,
    )
    else reset_reply user username (reset_for_retry now keys job) api

-- retry_stages. `readable` says whether parse_stored_request reads the stored payload.
unfoldable pub retry_stages :
    (Option Json → Bool)
    → ℕ
    → Option ℕ
    → Option String
    → Option String
    → Job
    → Api
    → Result (List String) × Api
retry_stages readable now user username stage_key job api =
    retry_checked (check_retry readable stage_key job) now user username job api

-- The audit event and the live event of a cancellation.
abbrev pub report_cancel : Option String → Job → Api → Api
report_cancel username job api =
    publish
      (record {
        job_id = job.id;
        stage = job.current_stage;
        status = "CANCELLING";
        progress = job.progress;
        message = "Cancellation requested.";
      })
      (record_audit
        (record {
          action = "JOB_CANCELLED";
          resource_name = job.vm_name;
          job_id = some job.id;
          username = username;
          datacenter_id = none;
          datacenter_name = none;
          result = "cancel_requested";
          details = [];
          detail_text = none;
        })
        api)

-- An interrupted job that may hold media is handed to a worker.
abbrev pub hand_to_worker : ℕ → Job → Job
hand_to_worker now job = record job {
  cancel_requested = true;
  status = JobStatus.queued;
  queued_at = now;
}

-- The reply of the flush of a cancellation.
unfoldable pub cancel_reply : Option String → Job → Flush → Api → Result (Unit {0}) × Api
unfolding reservation_conflict
cancel_reply username job (flushed jobs) api =
    (ok tt, report_cancel username job (record api { jobs = jobs }))
cancel_reply username job (integrity_error c) api =
    (raised (reservation_conflict c job.vm_name), api)

-- cancel_job
unfoldable pub cancel_job : ℕ → Option String → Job → Api → Result (Unit {0}) × Api
cancel_job now username job api =
    if is_interrupted job.status && may_hold_unattended_media job.steps
    then (let job' = hand_to_worker now job in
        cancel_reply username job' (flush_update job' api.jobs) api)
    else if is_terminal job.status
    then (
      raised (
          conflict (
            concat (
              "Job is already '"
              ∷ job_status_value job.status
              ∷ "' and cannot be cancelled."
              ∷ []))),
      api,
    )
    else (let job' = request_cancel now job in
        cancel_reply username job' (flush_update job' api.jobs) api)
