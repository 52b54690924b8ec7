-- ===== src/Repository/Queue.antt =====
-- The queue of the job table: claiming due jobs, heartbeats, and stale running jobs.
-- Rows that another transaction has locked are skipped (SKIP LOCKED): `locked` says which.
use infra_ops.Prelude.{
  ℕ, Bool, false, ◌&&◌, not, String, List, [], ◌∷◌, Option, none, some, map, leb, ltb, ◌==◌, any,
  filter_if, take, or_else, if◌then◌else◌,
}
use infra_ops.Jobs.{Job, JobStatus, is_queued, is_running, is_terminal}
use infra_ops.Repository.Table.{get, put, same_text}

-- `ORDER BY queued_at`; rows of the same time keep their order.
unfoldable pub insert_by_queued_at : Job → List Job → List Job
insert_by_queued_at j [] = j ∷ []
insert_by_queued_at j (o ∷ js) =
    if leb j.queued_at o.queued_at then j ∷ o ∷ js else o ∷ insert_by_queued_at j js

unfoldable pub order_by_queued_at : List Job → List Job
unfolding insert_by_queued_at
order_by_queued_at [] = []
order_by_queued_at (j ∷ js) = insert_by_queued_at j (order_by_queued_at js)

abbrev pub is_due : ℕ → (ℕ → Bool) → Job → Bool
is_due now locked j = is_queued j.status && leb j.queued_at now && not (locked j.id)

-- The SELECT of claim_due_jobs.
unfoldable pub due_jobs : ℕ → ℕ → (ℕ → Bool) → List Job → List Job
unfolding order_by_queued_at
due_jobs now limit locked jobs =
    take limit (order_by_queued_at (filter_if (is_due now locked) jobs))

-- The assignments of the loop over the claimed rows.
unfoldable pub claim : ℕ → String → Job → Job
claim now worker_id j = record j {
  status = JobStatus.running;
  worker_id = some worker_id;
  heartbeat_at = some now;
  started_at = some (or_else j.started_at now);
}

abbrev pub has_id : ℕ → List Job → Bool
has_id id jobs = any (λ j. j.id == id) jobs

-- claim_due_jobs: the claimed jobs and the table. No row is written for a limit of 0.
unfoldable pub claim_due_jobs : ℕ → ℕ → String → (ℕ → Bool) → List Job → List Job × List Job
unfolding due_jobs claim
claim_due_jobs now limit worker_id locked jobs =
    let due = due_jobs now limit locked jobs in
    if limit == 0 then ([], jobs) else (
      map (claim now worker_id) due,
      map (λ j. if has_id j.id due then claim now worker_id j else j) jobs,
    )

-- The WHERE of the heartbeat's UPDATE, for the row of the job.
abbrev pub is_owned : String → Job → Bool
is_owned worker_id j = same_text j.worker_id (some worker_id) && is_running j.status

-- The UPDATE and the reply, by the row of the job.
unfoldable pub beat_row : ℕ → String → Option Job → List Job → Option Bool × List Job
beat_row now worker_id none jobs = (none, jobs)
beat_row now worker_id (some j) jobs =
    if is_owned worker_id j
    then (some j.cancel_requested, put (record j { heartbeat_at = some now }) jobs)
    else if same_text j.worker_id (some worker_id) && is_terminal j.status
    then (some false, jobs)
    else (none, jobs)

-- heartbeat: the reply (`none` for None) and the table.
unfoldable pub heartbeat : ℕ → ℕ → String → List Job → Option Bool × List Job
heartbeat now job_id worker_id jobs = beat_row now worker_id (get job_id jobs) jobs

-- The WHERE of claim_stale_running_jobs; `updated_at` is that column of a row, which the database sets
-- at every write.
abbrev pub is_stale : ℕ → List ℕ → (ℕ → Bool) → (ℕ → ℕ) → Job → Bool
is_stale stale_before exclude_ids locked updated_at j =
    is_running j.status
    && ltb (or_else j.heartbeat_at (updated_at j.id)) stale_before
    && not (any (λ id. id == j.id) exclude_ids)
    && not (locked j.id)

-- claim_stale_running_jobs
unfoldable pub claim_stale_running_jobs :
    ℕ → ℕ → List ℕ → (ℕ → Bool) → (ℕ → ℕ) → List Job → List Job
unfolding order_by_queued_at
claim_stale_running_jobs stale_before limit exclude_ids locked updated_at jobs =
    take limit
      (order_by_queued_at (filter_if (is_stale stale_before exclude_ids locked updated_at) jobs))
