-- ===== src/Witnesses/Workers.antt =====
-- The queue and a worker on sample tables.
use infra_ops.Prelude.{
  strip, lower, str_mem, some, String, ◌≢◌, ltb, eq_iff, if◌then◌else◌, ℕ, ◌+◌, ◌≤◌, ◌≡◌, refl,
  arith, Bool, true, false, ◌&&◌, ◌⊎◌, List, [], ◌∷◌, none, length, count_if, any, filter_if, ◌==◌,
}
use infra_ops.Jobs.{Job, Step, JobStatus, StepStatus}
use infra_ops.Repository.Queue.{
  insert_by_queued_at, order_by_queued_at, is_due, due_jobs, claim, has_id, claim_due_jobs,
}
use infra_ops.Repository.Claims.Once.{claim_due_jobs_once}
use infra_ops.Repository.Claims.{Precedes, left_waiting, due_jobs_lem}
use infra_ops.Repository.Retry.{reset_for_retry}
use infra_ops.Engine.Config.{Config}
use infra_ops.Engine.Worker.{claim_for_worker, may_process}
use infra_ops.Engine.Transitions.{interrupt}
use infra_ops.Engine.Resume.{is_kept, is_unfinished, claim_for_worker-le, interrupted_job-resumes}
use infra_ops.Limiter.{Hits, IsChronological, in_window, allow, allow_lem}
use infra_ops.Engine.Reaper.{Built, built, process, with_steps, process_job}
use infra_ops.Engine.Processed.{IsOver, status_at, process_job-IsOver}
use infra_ops.Pipeline.Context.{escapes, task_cancelled}
use infra_ops.Permissions.{
  value, jobs_retry, permissions_for_roles, roles_grant, permissions_for_roles_lem,
}
use infra_ops.Repository.Table.{get}
use infra_ops.Repository.Unique.{IsConsistent}
use infra_ops.Engine.Consistent.{process_job-IsConsistent}
use infra_ops.Repository.Claims.Consistent.{claim_due_jobs-IsConsistent}
use infra_ops.Placement.{
  Datastore, fits, normalize, normalize_preferred, problem, by_name, settle, choose_preferred,
  choose_by, choose_automatic_datastore, choose_automatic_datastore-fits,
}
use infra_ops.Witnesses.Data.{environment_of, ran_well, job_with, step_at, context_of}

abbrev queue : List Job
queue = job_with 1 "WEB-01" JobStatus.queued [] ∷ job_with 2 "WEB-02" JobStatus.queued [] ∷ []

abbrev unlocked : ℕ → Bool
unlocked id = false

due_jobs_lem_example :
    let due = due_jobs 200 1 unlocked queue in
    let left = left_waiting 200 1 unlocked queue in
    (length due ≤ 1)
    × (count_if (λ j. j.id == 2) due + count_if (λ j. j.id == 2) left
        ≡ count_if (λ j. is_due 200 unlocked j && j.id == 2) queue)
    × Precedes due left
    × ((length left ≡ 0) ⊎ (length due ≡ 1))
due_jobs_lem_example = due_jobs_lem 200 1 unlocked queue (λ j. j.id == 2)

first_claimed : has_id 1 (claim_due_jobs 200 1 "worker-1" unlocked queue).0 ≡ true
unfolding claim_due_jobs due_jobs order_by_queued_at insert_by_queued_at claim
first_claimed = refl

claim_due_jobs_once_example :
    count_if
      (λ j. j.id == 1)
      (claim_due_jobs 201 5 "worker-2" unlocked
        (claim_due_jobs 200 1 "worker-1" unlocked queue).1).0
    ≡ 0
claim_due_jobs_once_example =
    claim_due_jobs_once 200 201 1 5 "worker-1" "worker-2" unlocked unlocked queue 1 first_claimed

abbrev two_jobs : Config
two_jobs = record {
  concurrency = 2;
  poll_interval = 2;
  heartbeat_interval = 15;
  heartbeat_timeout = 120;
  reaper_interval = 30;
  shutdown_grace = 60;
}

abbrev held_tasks : List ℕ
held_tasks = 9 ∷ []

claim_for_worker-le_example :
    length held_tasks
      + length (claim_for_worker two_jobs held_tasks 200 "worker-1" unlocked queue).0
    ≤ 2
claim_for_worker-le_example =
    claim_for_worker-le two_jobs held_tasks 200 "worker-1" unlocked queue (omega arith)

abbrev running_steps : List Step
running_steps =
    step_at "create_vm" StepStatus.succeeded
    ∷ step_at "power_on" StepStatus.running
    ∷ step_at "wait_for_guest_os" StepStatus.pending
    ∷ []

abbrev running_job : Job
running_job = job_with 1 "WEB-01" JobStatus.running running_steps

interrupted_job-resumes_example :
    let resumed =
      (reset_for_retry 300 none
        (interrupt 200 "The worker shut down."
          (some (environment_of ran_well false))
          (context_of running_job)).job).1 in
    (resumed.status ≡ JobStatus.queued)
    × (any is_unfinished resumed.steps ≡ false)
    × (filter_if is_kept resumed.steps ≡ filter_if is_kept running_steps)
interrupted_job-resumes_example =
    interrupted_job-resumes 200 300 "The worker shut down." (some (environment_of ran_well false))
      (context_of running_job) refl

abbrev stale_queue : List Job
stale_queue = running_job ∷ []

abbrev stopped : Built
stopped = built (environment_of (escapes task_cancelled) false)

-- The worker shuts down while it runs the job.
process_job-IsOver_example :
    (s : JobStatus) × (status_at 1 (
        process_job 200 "worker-1" context_of stopped true
          (some (environment_of ran_well false))
          1
          stale_queue)
      ≡ some s)
    × (IsOver s
        ⊎ ((true ≡ false)
            × ((process 200 stopped (with_steps (context_of running_job))).escaped
                ≡ some task_cancelled)))
unfolding get may_process
process_job-IsOver_example =
    process_job-IsOver 200 "worker-1" context_of (λ j. refl) (some (environment_of ran_well false))
      1 stopped true running_job stale_queue refl refl

abbrev login_hits : Hits
login_hits key = 100 ∷ 150 ∷ []

abbrev alice : String
alice = "login:alice"

abbrev bob : String
bob = "login:bob"

bob_not_alice : bob ≢ alice
bob_not_alice e = ground (arith, eq_iff bob alice)

IsChronological-login_hits : IsChronological 170 (login_hits alice)
IsChronological-login_hits = (omega arith, (omega arith, tt), (omega arith, tt, tt))

allow_lem_example :
    let (allowed, after) = allow 170 alice 10 60 login_hits in
    let used = count_if (in_window 170 60) (login_hits alice) in
    (allowed ≡ ltb used 10)
    × (count_if (in_window 170 60) (after alice) ≡ used + (if allowed then 1 else 0))
    × (after bob ≡ login_hits bob)
allow_lem_example =
    allow_lem 170 alice 10 60 login_hits bob IsChronological-login_hits bob_not_alice

permissions_for_roles_lem_example :
    str_mem (value jobs_retry) (permissions_for_roles ("viewer" ∷ "operator" ∷ "guest" ∷ []))
    ≡ roles_grant ("viewer" ∷ "operator" ∷ "guest" ∷ []) jobs_retry
permissions_for_roles_lem_example =
    permissions_for_roles_lem ("viewer" ∷ "operator" ∷ "guest" ∷ []) jobs_retry

running-IsConsistent : IsConsistent stale_queue
running-IsConsistent =
    (λ id. ground arith, λ key. ground arith, λ name. ground arith, λ address. ground arith)

process_job-IsConsistent_example : IsConsistent (
    process_job 200 "worker-1" context_of stopped true
      (some (environment_of ran_well false))
      1
      stale_queue)
process_job-IsConsistent_example =
    process_job-IsConsistent 200 "worker-1" context_of (λ j. refl) stopped true
      (some (environment_of ran_well false)) 1 stale_queue running-IsConsistent

claim_due_jobs-IsConsistent_example :
    IsConsistent (claim_due_jobs 200 2 "worker-2" unlocked stale_queue).1
claim_due_jobs-IsConsistent_example =
    claim_due_jobs-IsConsistent 200 2 "worker-2" unlocked stale_queue running-IsConsistent

abbrev fast_tier : Datastore
fast_tier = record { name = "FAST01"; accessible = true; free_gb = 900 }

abbrev estate : List Datastore
estate = record { name = "SLOW01"; accessible = true; free_gb = 100 } ∷ fast_tier ∷ []

fast_chosen :
    (choose_automatic_datastore estate (some ("Slow01" ∷ " fast01 " ∷ [])) 200).datastore
    ≡ some fast_tier
unfolding choose_automatic_datastore normalize_preferred normalize choose_by choose_preferred settle
    problem by_name strip lower
fast_chosen = refl

choose_automatic_datastore-fits_example : fits 200 fast_tier ≡ true
choose_automatic_datastore-fits_example =
    choose_automatic_datastore-fits estate (some ("Slow01" ∷ " fast01 " ∷ [])) 200 fast_tier
      fast_chosen
