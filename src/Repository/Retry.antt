-- ===== src/Repository/Retry.antt =====
-- Retry and cancellation bookkeeping on one job.
use infra_ops.Prelude.{
  ℕ, Bool, true, false, ◌&&◌, ◌||◌, not, String, List, [], ◌∷◌, Option, none, some, map, str_mem,
  if◌then◌else◌,
}
use infra_ops.Prelude.Json.{holds}
use infra_ops.Jobs.{
  Job, JobStatus, Step, StepStatus, is_interrupted, is_open, is_succeeded, is_queued, find_step,
  step_status_in, artifacts_of,
}
use infra_ops.Repository.Progress.{compute_progress}

-- `eligible_status`: FAILED, CANCELLED, or RUNNING in a job whose worker died.
abbrev pub is_eligible : JobStatus → StepStatus → Bool
is_eligible job StepStatus.failed = true
is_eligible job StepStatus.cancelled = true
is_eligible job StepStatus.running = is_interrupted job
is_eligible job _ = false

-- `selected`: no stage keys are given, or this one is among them.
abbrev pub is_selected : Option (List String) → String → Bool
is_selected none key = true
is_selected (some keys) key = str_mem key keys

abbrev pub should_reset : JobStatus → Option (List String) → Step → Bool
should_reset job keys s = is_eligible job s.status && is_selected keys s.stage_key

-- The loop over the steps: the keys that were reset, and the steps.
unfoldable pub reset_steps : JobStatus → Option (List String) → List Step → List String × List Step
reset_steps job keys [] = ([], [])
reset_steps job keys (s ∷ ss) =
    let (reset, rest) = reset_steps job keys ss in
    if should_reset job keys s
    then (s.stage_key ∷ reset, record s { status = StepStatus.pending } ∷ rest)
    else (reset, s ∷ rest)

-- The assignments under `if reset:`.
unfoldable pub requeue : ℕ → Job → Job
requeue now j =
    let j' = record j {
      status = JobStatus.queued;
      cancel_requested = false;
      worker_id = none;
      heartbeat_at = none;
      error_summary = none;
      error_detail = none;
      finished_at = none;
      duration_seconds = none;
      queued_at = now;
    } in
    record j' { progress = compute_progress j' }

-- What follows the loop: a reset of no step changes nothing.
unfoldable pub after_reset : ℕ → Job → List String × List Step → List String × Job
after_reset now j ([], steps) = ([], j)
after_reset now j (k ∷ ks, steps) = (k ∷ ks, requeue now (record j { steps = steps }))

-- reset_for_retry: the keys that were reset, and the job.
unfoldable pub reset_for_retry : ℕ → Option (List String) → Job → List String × Job
reset_for_retry now keys j = after_reset now j (reset_steps j.status keys j.steps)

-- may_hold_unattended_media
unfoldable pub may_hold_unattended_media : List Step → Bool
unfolding find_step
may_hold_unattended_media steps =
    let artifacts = artifacts_of "prepare_unattended_install" steps in
    holds "datastore_path" artifacts
    && not (holds "media_removed" artifacts)
    && not (step_status_in is_succeeded "cleanup_unattended_media" steps)

abbrev pub cancel_open : Step → Step
cancel_open s = if is_open s.status then record s { status = StepStatus.cancelled } else s

-- request_cancel
unfoldable pub request_cancel : ℕ → Job → Job
request_cancel now j =
    let j' = record j { cancel_requested = true } in
    if is_queued j.status || is_interrupted j.status
    then record j' {
      status = JobStatus.cancelled;
      finished_at = some now;
      steps = map cancel_open j.steps;
    }
    else j'
