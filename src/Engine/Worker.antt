-- ===== src/Engine/Worker.antt =====
-- The ownership tests of the engine, the heartbeat loop and the reaper's choice of jobs.
use infra_ops.Prelude.{
  ℕ, Bool, true, false, String, List, [], Option, none, some, ◌==◌, if◌then◌else◌,
}
use infra_ops.Jobs.{Job}
use infra_ops.Repository.Queue.{claim_due_jobs, is_owned}
use infra_ops.Engine.Config.{Config, free_slots}

-- `_claim_due_jobs`: no query without a free slot.
unfoldable pub claim_for_worker :
    Config → List ℕ → ℕ → String → (ℕ → Bool) → List Job → List Job × List Job
unfolding free_slots claim_due_jobs
claim_for_worker c tasks now worker_id locked jobs =
    if free_slots c tasks == 0
    then ([], jobs)
    else claim_due_jobs now (free_slots c tasks) worker_id locked jobs

-- The test that `_execute_job` and `_mark_interrupted` begin with.
unfoldable pub may_process : String → Option Job → Bool
may_process worker_id none = false
may_process worker_id (some job) = is_owned worker_id job

-- What a round of `_heartbeat_loop` does with the reply of the heartbeat.
pub data Beat : Type 0 where
  go_on : Beat
  cancel_pipeline : Beat
  set_cancel_event : Beat

unfoldable pub beat : Option Bool → Beat
beat none = cancel_pipeline
beat (some true) = set_cancel_event
beat (some false) = go_on
