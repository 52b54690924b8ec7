-- ===== src/Witnesses/Calls.antt =====
-- The calls of the API on sample tables.
use infra_ops.Prelude.{
  ◌≡◌, refl, arith, Bool, true, false, String, List, [], ◌∷◌, none, some, map, filter_if, lower,
}
use infra_ops.Prelude.Json.{null}
use infra_ops.Jobs.{Job, Step, JobStatus, StepStatus}
use infra_ops.Repository.Unique.{IsConsistent}
use infra_ops.Service.Types.{Api, Request, Result, ok, v2, static}
use infra_ops.Service.Submit.{Submission, row_of, submit_provisioning}
use infra_ops.Service.Manage.{
  retry_stages, check_retry, check_named, retry_checked, reset_reply, retry_reply, cancel_job,
}
use infra_ops.Service.Reservations.{submit_provisioning-IsConsistent, retry_stages-IsConsistent}
use infra_ops.Service.Cancel.{cancel_job_accepted, cancellation_of, status_when_cancelled}
use infra_ops.Service.Retry.{retry_stages_requeues, again, re_runs}
use infra_ops.Repository.Table.{get, put, violated, flush_update, has_active_job_for_vm}
use infra_ops.Repository.Retry.{
  may_hold_unattended_media, reset_for_retry, reset_steps, after_reset, requeue,
}
use infra_ops.Jobs.Steps.Lookup.{map_option}
use infra_ops.System.{Reachable, reachable-IsConsistent}
use infra_ops.Repository.Queue.{claim_due_jobs}
use infra_ops.Witnesses.Data.{job_with, step_at, installing_steps}

-- A finished deployment, and one that was interrupted while it installed Windows.
abbrev finished : Job
finished = job_with 1 "WEB-01" JobStatus.completed []

abbrev interrupted_job : Job
interrupted_job =
    job_with 2 "web-01" JobStatus.interrupted (
      step_at "create_vm" StepStatus.succeeded ∷ step_at "wait_for_guest_os" StepStatus.failed ∷ [])

abbrev sample_api : Api
sample_api = record { jobs = finished ∷ interrupted_job ∷ []; audit = []; events = [] }

sample-IsConsistent : IsConsistent sample_api.jobs
sample-IsConsistent =
    (λ id. ground arith, λ key. ground arith, λ name. ground arith, λ address. ground arith)

abbrev sample_request : Request
sample_request = record {
  identity_policy_version = v2;
  vm_name = "DB-01";
  vcenter_id = "vc-1";
  datacenter_id = "dc-1";
  cluster_id = "cl-1";
  iso_id = "iso-1";
  disks = 2;
  network_mode = static;
  ipv4_address = some "10.0.0.6";
  effective_computer_name = "DB-01";
  effective_fqdn = none;
  payload = null;
}

abbrev sample_submission : Submission
sample_submission = record {
  user = some 7;
  username = some "engineer";
  request = sample_request;
  fingerprint = "f00d";
  key = some "key-1";
  report = none;
  now = 500;
  new_id = 3;
}

submit_provisioning-IsConsistent_example :
    IsConsistent (submit_provisioning sample_submission sample_api.jobs sample_api).1.jobs
submit_provisioning-IsConsistent_example =
    submit_provisioning-IsConsistent sample_submission sample_api.jobs sample_api
      sample-IsConsistent refl

retry_stages-IsConsistent_example :
    IsConsistent
      (retry_stages
        (λ payload. true)
        500
        (some 7)
        (some "engineer")
        none
        interrupted_job
        sample_api).1.jobs
retry_stages-IsConsistent_example =
    retry_stages-IsConsistent (λ payload. true) 500 (some 7) (some "engineer") none interrupted_job
      sample_api sample-IsConsistent

-- The interrupted job, which holds the answer media.
abbrev interrupted_with_media : Job
interrupted_with_media = job_with 2 "web-01" JobStatus.interrupted installing_steps

abbrev media_api : Api
media_api = record { jobs = finished ∷ interrupted_with_media ∷ []; audit = []; events = [] }

media-IsConsistent : IsConsistent media_api.jobs
media-IsConsistent =
    (λ id. ground arith, λ key. ground arith, λ name. ground arith, λ address. ground arith)

cancel_job_accepted_example :
    let (reply, after) = cancel_job 500 (some "engineer") interrupted_with_media media_api in
    (reply ≡ ok tt)
    × (map_option cancellation_of (get 2 after.jobs)
        ≡ some (
          status_when_cancelled JobStatus.interrupted
              (may_hold_unattended_media interrupted_with_media.steps),
          true,
        ))
unfolding get
cancel_job_accepted_example =
    cancel_job_accepted 500 (some "engineer") interrupted_with_media media_api media-IsConsistent
      refl refl

abbrev retried : Result (List String) × Api
retried =
    retry_stages (λ payload. true) 500 (some 7) (some "engineer") none interrupted_job sample_api

retried_all : retried ≡ (ok ("wait_for_guest_os" ∷ []), retried.1)
unfolding retry_stages check_retry check_named retry_checked reset_for_retry reset_steps after_reset
    reset_reply retry_reply flush_update violated has_active_job_for_vm requeue lower put
retried_all = refl

retry_stages_requeues_example :
    (map_option (λ (j : Job). j.status) (get 2 retried.1.jobs) ≡ some JobStatus.queued)
    × (map_option (λ (j : Job). j.cancel_requested) (get 2 retried.1.jobs) ≡ some false)
    × (map_option (λ (j : Job). j.steps) (get 2 retried.1.jobs)
        ≡ some (map (again JobStatus.interrupted none) interrupted_job.steps))
    × (("wait_for_guest_os" ∷ [])
        ≡ map
            (λ (s : Step). s.stage_key)
            (filter_if (re_runs JobStatus.interrupted none) interrupted_job.steps))
unfolding get
retry_stages_requeues_example =
    retry_stages_requeues (λ payload. true) 500 (some 7) (some "engineer") none interrupted_job
      sample_api retried.1 ("wait_for_guest_os" ∷ []) retried_all refl

abbrev submitted : Result (Job × Bool) × Api
submitted = submit_provisioning sample_submission sample_api.jobs sample_api

-- The row of the job when it has been completed.
abbrev completed_row : Job
completed_row = record (row_of sample_submission) { status = JobStatus.completed; progress = 100 }

abbrev after_completion : Api
after_completion = record submitted.1 { jobs = put completed_row submitted.1.jobs }

abbrev no_jobs : Api
no_jobs = record { jobs = []; audit = []; events = [] }

abbrev first_submitted : Api
first_submitted = (submit_provisioning sample_submission [] no_jobs).1

abbrev then_claimed : List Job
then_claimed = (claim_due_jobs 510 2 "worker-1" (λ id. false) first_submitted.jobs).1

claimed_is_reachable : Reachable then_claimed
claimed_is_reachable =
    Reachable.claim 510 2 "worker-1" (λ id. false) first_submitted.jobs
      (Reachable.submit sample_submission [] no_jobs refl Reachable.start)

reachable-IsConsistent_example : IsConsistent then_claimed
reachable-IsConsistent_example = reachable-IsConsistent then_claimed claimed_is_reachable
