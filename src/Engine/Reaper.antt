-- ===== src/Engine/Reaper.antt =====
-- The processing of one claimed job, and the reaper, of backend/app/workers/engine.py. `context_of`
-- gives the rest of a job's context: its stored request, its target and its requester.
use infra_ops.Prelude.{
  ℕ, zero, suc, ◌-◌, Bool, true, false, String, List, [], ◌∷◌, Option, none, some, if◌then◌else◌,
}
use infra_ops.Jobs.{Job}
use infra_ops.Stages.{stage_definitions}
use infra_ops.Repository.Table.{get, put}
use infra_ops.Repository.Steps.{ensure_steps}
use infra_ops.Repository.Queue.{claim_stale_running_jobs}
use infra_ops.Pipeline.Context.{
  Context, Environment, Escape, task_cancelled, unexpected, AuditEvent, record_event, on_job,
}
use infra_ops.Pipeline.Run.{execute}
use infra_ops.Engine.Transitions.{Failure, fail_before_pipeline, interrupt}
use infra_ops.Engine.Worker.{may_process}

-- What building the context of a job gives: the exception, or what the run gets from outside.
pub data Built : Type 0 where
  unbuilt : Failure → Built
  built : Environment → Built

abbrev pub started_event : Context → AuditEvent
started_event ctx = record {
  action = "JOB_STARTED";
  resource_name = ctx.vm_name;
  job_id = some ctx.job.id;
  username = ctx.actor_username;
  datacenter_id = some ctx.request_datacenter_id;
  datacenter_name = ctx.job.datacenter_name;
  result = "running";
  details = [];
  detail_text = none;
}

abbrev crash : Failure
crash = record { text = "Pipeline crashed unexpectedly"; type_name = "RuntimeError" }

-- The `except` clauses around the run, by the exception that left it. A crash fails the job on what
-- the run has committed; a CancelledError leaves what it has committed.
unfoldable pub after_escape : ℕ → Option Escape → Context → Context
after_escape now none ran = ran
after_escape now (some unexpected) ran = fail_before_pipeline now crash ran
after_escape now (some task_cancelled) ran = ran

unfoldable pub run_pipeline : ℕ → Environment → Context → Context
unfolding execute after_escape
run_pipeline now env ctx = let ran = execute env ctx in after_escape now ran.escaped ran

-- `_execute_job` on a job that this worker owns: the missing steps are added, then the pipeline runs,
-- or the job fails before it.
unfoldable pub process : ℕ → Built → Context → Context
unfolding run_pipeline
process now (unbuilt failure) ctx = fail_before_pipeline now failure ctx
process now (built env) ctx = run_pipeline now env (record_event (started_event ctx) ctx)

-- The context of a new run.
abbrev pub with_steps : Context → Context
with_steps ctx =
    record (on_job (λ j. record j { steps = ensure_steps stage_definitions j.steps }) ctx) {
      escaped = none;
    }

-- Whether the CancelledError is raised again: it is not where the worker is not stopping, and has
-- lost the job.
abbrev pub reraises : Bool → Option Escape → Bool
reraises stopping (some task_cancelled) = stopping
reraises stopping _ = false

-- `_execute_job`: whether a CancelledError leaves it, and the table. Nothing happens to a job that is
-- gone, not RUNNING, or another worker's.
unfoldable pub execute_job :
    ℕ → String → (Job → Context) → Built → Bool → Option Job → List Job → Bool × List Job
execute_job now worker_id context_of outside stopping none jobs = (false, jobs)
execute_job now worker_id context_of outside stopping (some job) jobs =
    let ran = process now outside (with_steps (context_of job)) in
    if may_process worker_id (some job)
    then (reraises stopping ran.escaped, put ran.job jobs)
    else (false, jobs)

-- `_mark_interrupted`
unfoldable pub mark_interrupted :
    ℕ → String → String → (Job → Context) → Option Environment → Option Job → List Job → List Job
mark_interrupted now reason worker_id context_of outside none jobs = jobs
mark_interrupted now reason worker_id context_of outside (some job) jobs =
    if may_process worker_id (some job)
    then put (interrupt now reason outside (context_of job)).job jobs
    else jobs

-- What `_process_job` does when `_execute_job` has ended.
unfoldable pub conclude_job :
    ℕ → String → (Job → Context) → Option Environment → ℕ → Bool × List Job → List Job
unfolding mark_interrupted
conclude_job now worker_id context_of outside job_id (false, jobs) = jobs
conclude_job now worker_id context_of outside job_id (true, jobs) =
    mark_interrupted now "The worker shut down before the job finished." worker_id context_of
      outside (get job_id jobs) jobs

-- `_process_job`; `release` is what the release of the media gets from outside.
unfoldable pub process_job :
    ℕ → String → (Job → Context) → Built → Bool → Option Environment → ℕ → List Job → List Job
unfolding execute_job conclude_job
process_job now worker_id context_of outside stopping release job_id jobs =
    conclude_job now worker_id context_of release job_id
      (execute_job now worker_id context_of outside stopping (get job_id jobs) jobs)

abbrev pub reaper_reason : String
reaper_reason = "The worker executing this job stopped responding."

-- The loop of `reap_stale_jobs` with so many rounds left: how many jobs it interrupts, and the table.
-- `clock` is the time of a round and `updated_at` that column in a round; `tasks` are the jobs that this
-- worker runs itself.
unfoldable pub reap_stale_jobs :
    ℕ
    → (ℕ → ℕ)
    → ℕ
    → List ℕ
    → (ℕ → Bool)
    → (ℕ → ℕ → ℕ)
    → (Job → Context)
    → Option Environment
    → List Job
    → ℕ × List Job
reap_stale_jobs zero clock timeout tasks locked updated_at context_of outside jobs = (0, jobs)
reap_stale_jobs (suc left) clock timeout tasks locked updated_at context_of outside jobs =
    elim (claim_stale_running_jobs (clock left - timeout) 1 tasks locked (updated_at left) jobs) [
      | [] ↦ (0, jobs)
      | job ∷ rest ↦
          let parked = (interrupt (clock left) reaper_reason outside (context_of job)).job in
          let (reaped, after) =
            reap_stale_jobs left clock timeout tasks locked updated_at context_of outside
              (put parked jobs) in
          (suc reaped, after)
    ]
