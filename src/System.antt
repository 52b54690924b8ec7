-- ===== src/System.antt =====
-- The job table as the API and any number of workers change it, one call or transaction at a time:
-- backend/app/services/provisioning/service.py, backend/app/repositories/jobs.py and
-- backend/app/workers/engine.py.
use infra_ops.Prelude.{
  ℕ, ◌≡◌, refl, sym, ap, ◌∙◌, subst, Bool, true, ◌&&◌, String, List, [], Option, none, some, arith,
  count_if, ◌==◌, Bool-cases, inl, inr,
}
use infra_ops.Prelude.Json.{Json}
use infra_ops.Jobs.{Job, is_running, is_active, is_terminal}
use infra_ops.Repository.Table.{get, put, same_text}
use infra_ops.Repository.Queue.{claim_due_jobs, is_owned, beat_row, heartbeat}
use infra_ops.Repository.Unique.{IsConsistent}
use infra_ops.Repository.Claims.Consistent.{claim_due_jobs-IsConsistent}
use infra_ops.Service.Types.{Api}
use infra_ops.Service.Submit.{Submission, submit_provisioning}
use infra_ops.Service.Manage.{retry_stages, cancel_job}
use infra_ops.Service.Reservations.{
  submit_provisioning-IsConsistent, retry_stages-IsConsistent, cancel_job-IsConsistent,
}
use infra_ops.Pipeline.Context.{Context, Environment}
use infra_ops.Pipeline.Identity.{identity}
use infra_ops.Engine.Transitions.{interrupt}
use infra_ops.Engine.Reaper.{Built, execute_job}
use infra_ops.Engine.Consistent.{
  execute_job-IsConsistent, written-IsConsistent, identity-interrupt, id-get,
}

-- The tables that can come about, from the empty one. A new row gets an identifier that no row has; a
-- worker and the API work on rows of the table.
pub data Reachable : List Job → Type 0 where
  start : Reachable []
  submit :
      (s : Submission) (checked : List Job) (api : Api)
      → count_if (λ j. j.id == s.new_id) api.jobs ≡ 0
      → Reachable api.jobs
      → Reachable (submit_provisioning s checked api).1.jobs
  retry :
      (readable : Option Json → Bool) (now : ℕ) (user : Option ℕ)
      (username stage_key : Option String) (job : Job) (api : Api)
      → Reachable api.jobs
      → Reachable (retry_stages readable now user username stage_key job api).1.jobs
  cancel :
      (now : ℕ) (username : Option String) (job : Job) (api : Api)
      → Reachable api.jobs
      → Reachable (cancel_job now username job api).1.jobs
  claim :
      (now limit : ℕ) (worker_id : String) (locked : ℕ → Bool) (jobs : List Job)
      → Reachable jobs
      → Reachable (claim_due_jobs now limit worker_id locked jobs).1
  beat :
      (now id : ℕ) (worker_id : String) (jobs : List Job)
      → Reachable jobs
      → Reachable (heartbeat now id worker_id jobs).1
  work :
      (now : ℕ) (worker_id : String) (context_of : Job → Context) (outside : Built)
      (stopping : Bool) (job : Job) (jobs : List Job)
      → get job.id jobs ≡ some job
      → (context_of job).job ≡ job
      → Reachable jobs
      → Reachable (execute_job now worker_id context_of outside stopping (some job) jobs).1
  -- by the worker that shuts down, or by a round of a reaper
  park :
      (now : ℕ) (reason : String) (context_of : Job → Context) (outside : Option Environment)
      (job : Job) (jobs : List Job)
      → get job.id jobs ≡ some job
      → is_running job.status ≡ true
      → (context_of job).job ≡ job
      → Reachable jobs
      → Reachable (put (interrupt now reason outside (context_of job)).job jobs)

running_active : (j : Job) → is_running j.status ≡ true → is_active j.status ≡ true
running_active j running = ground arith

beat_row-IsConsistent :
    (now id : ℕ) (worker_id : String) (found : Option Job) (jobs : List Job)
    → IsConsistent jobs
    → get id jobs ≡ found
    → IsConsistent (beat_row now worker_id found jobs).1
unfolding beat_row
beat_row-IsConsistent now id worker_id none jobs h e = h
beat_row-IsConsistent now id worker_id (some j) jobs h e =
    let here : get j.id jobs ≡ some j =
      subst (λ (i : ℕ). get i jobs ≡ some j) (sym (id-get id j jobs e)) e in
    elim (Bool-cases (is_owned worker_id j)) [
      | inl owned ↦ rw owned (
          written-IsConsistent j (record j { heartbeat_at = some now }) jobs h here
            (running_active j (ground (arith, owned))) refl)
      | inr other ↦
          elim (Bool-cases (same_text j.worker_id (some worker_id) && is_terminal j.status)) [
            | inl ended ↦ rw (other, ended) h
            | inr lost ↦ rw (other, lost) h
          ]
    ]

heartbeat-IsConsistent :
    (now id : ℕ) (worker_id : String) (jobs : List Job)
    → IsConsistent jobs
    → IsConsistent (heartbeat now id worker_id jobs).1
unfolding heartbeat
heartbeat-IsConsistent now id worker_id jobs h =
    beat_row-IsConsistent now id worker_id (get id jobs) jobs h refl

-- In every table that submissions, retries, cancellations, claims, heartbeats, the processing of
-- jobs and interruptions can bring about from the empty table, in any order, where a new row always
-- gets a new identifier, no two rows have the same identifier or the same idempotency key, and no
-- two active jobs have the same VM name (letter case aside) or the same reserved IPv4 address.
pub reachable-IsConsistent : (jobs : List Job) → Reachable jobs → IsConsistent jobs
reachable-IsConsistent _ start =
    (λ id. omega arith, λ k. omega arith, λ n. omega arith, λ a. omega arith)
reachable-IsConsistent _ (submit s checked api fresh before) =
    submit_provisioning-IsConsistent s checked api (reachable-IsConsistent api.jobs before) fresh
reachable-IsConsistent _ (retry readable now user username stage_key job api before) =
    retry_stages-IsConsistent readable now user username stage_key job api
      (reachable-IsConsistent api.jobs before)
reachable-IsConsistent _ (cancel now username job api before) =
    cancel_job-IsConsistent now username job api (reachable-IsConsistent api.jobs before)
reachable-IsConsistent _ (claim now limit worker_id locked jobs before) =
    claim_due_jobs-IsConsistent now limit worker_id locked jobs (reachable-IsConsistent jobs before)
reachable-IsConsistent _ (beat now id worker_id jobs before) =
    heartbeat-IsConsistent now id worker_id jobs (reachable-IsConsistent jobs before)
reachable-IsConsistent _
      (work now worker_id context_of outside stopping job jobs found own before) =
    execute_job-IsConsistent now worker_id context_of outside stopping job jobs
      (reachable-IsConsistent jobs before) found own
reachable-IsConsistent _ (park now reason context_of outside job jobs found running own before) =
    written-IsConsistent job (interrupt now reason outside (context_of job)).job jobs
      (reachable-IsConsistent jobs before) found (running_active job running)
      (identity-interrupt now reason outside (context_of job) ∙ ap identity own)
