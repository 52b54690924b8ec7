-- ===== src/Service/Retry.antt =====
-- What retry_stages of backend/app/services/provisioning/service.py promises.
use infra_ops.Prelude.{
  ℕ, ◌≡◌, ◌≢◌, refl, sym, ap, ◌∙◌, Bool, false, String, List, [], ◌∷◌, Option, none, some, arith,
  inl, inr, true, ◌&&◌, str_eq, str_mem, Bool-cases, Option-cases, if◌then◌else◌, map, filter_if,
  if_of_true, if_of_false,
}
use infra_ops.Prelude.Json.{Json}
use infra_ops.Jobs.{Job, JobStatus, Step, StepStatus, find_step}
use infra_ops.Stages.{StageDefinition, find_stage, ordered_stages}
use infra_ops.Jobs.Steps.Lookup.{map_option}
use infra_ops.Repository.Table.{
  Constraint, get, put, Flush, flushed, integrity_error, flush_update, violated,
  has_active_job_for_vm,
}
use infra_ops.Repository.Retry.{
  is_eligible, is_selected, should_reset, reset_steps, requeue, after_reset, reset_for_retry,
}
use infra_ops.Service.Types.{Api, Result, ok, raised}
use infra_ops.Service.Manage.{
  check_stage, named_keys, check_named, check_retry, retry_reply, reset_reply, retry_checked,
  retry_stages,
}
use infra_ops.Service.Cancel.{get-put_at, flush_update_clean}

-- A step after the reset of a retry, and the keys that a retry of all stages or of one selects.
abbrev pub reset_step : JobStatus → Option (List String) → Step → Step
reset_step job keys s =
    if should_reset job keys s then record s { status = StepStatus.pending } else s

abbrev pub selected_keys : Option String → Option (List String)
selected_keys none = none
selected_keys (some key) = some (key ∷ [])

pub reset_steps_lem :
    (job : JobStatus) (keys : Option (List String)) (steps : List Step)
    → ((reset_steps job keys steps).0
        ≡ map (λ (s : Step). s.stage_key) (filter_if (should_reset job keys) steps))
      × ((reset_steps job keys steps).1 ≡ map (reset_step job keys) steps)
unfolding reset_steps
reset_steps_lem job keys [] = (refl, refl)
reset_steps_lem job keys (s ∷ ss) =
    let (reset, rest) = reset_steps_lem job keys ss in
    elim (Bool-cases (should_reset job keys s)) [
      | inl eligible ↦ rw eligible (
        ap (λ ks. s.stage_key ∷ ks) reset,
        ap (λ r. record s { status = StepStatus.pending } ∷ r) rest,
      )
      | inr other ↦ rw other (reset, ap (λ r. s ∷ r) rest)
    ]

-- The keys of a retry whose checks pass.
keys-check_stage :
    (key : String) (definition : Option StageDefinition) (step : Option Step)
    (keys : Option (List String))
    → named_keys (check_stage key definition step) ≡ ok keys
    → keys ≡ some (key ∷ [])
unfolding named_keys check_stage
keys-check_stage key none step keys e = ground arith
keys-check_stage key (some definition) none keys e = ground arith
keys-check_stage key (some definition) (some step) keys e = ground arith

keys-check_named :
    (stage_key : Option String) (job : Job) (keys : Option (List String))
    → check_named stage_key job ≡ ok keys
    → keys ≡ selected_keys stage_key
unfolding check_named
keys-check_named none job keys e = ground arith
keys-check_named (some key) job keys e =
    keys-check_stage key (find_stage key ordered_stages) (find_step key job.steps) keys e

keys-check_retry :
    (readable : Option Json → Bool) (stage_key : Option String) (job : Job)
    (keys : Option (List String))
    → check_retry readable stage_key job ≡ ok keys
    → keys ≡ selected_keys stage_key
unfolding check_retry
keys-check_retry readable stage_key job keys e = ground (arith, keys-check_named stage_key job keys)

pub requeue_lem :
    (now : ℕ) (j : Job)
    → ((requeue now j).id ≡ j.id)
      × ((requeue now j).status ≡ JobStatus.queued)
      × ((requeue now j).cancel_requested ≡ false)
      × ((requeue now j).steps ≡ j.steps)
unfolding requeue
requeue_lem now j = (refl, refl, refl, refl)

-- An accepted flush of the reset row.
retry_reply_lem :
    (user : Option ℕ) (username : Option String) (keys : List String) (row : Job) (jobs : List Job)
    (api after : Api) (reset : List String)
    → retry_reply user username keys row (flushed jobs) api ≡ (ok reset, after)
    → (reset ≡ keys) × (after.jobs ≡ jobs)
unfolding retry_reply
retry_reply_lem user username keys row jobs api after reset e =
    let replies : ok keys ≡ ok reset = ap (λ (r : Result (List String) × Api). r.0) e in
    (ground arith, sym (ap (λ (r : Result (List String) × Api). r.1.jobs) e))

retry_reply_refused :
    (user : Option ℕ) (username : Option String) (keys : List String) (row : Job) (c : Constraint)
    (api after : Api) (reset : List String)
    → retry_reply user username keys row (integrity_error c) api ≢ (ok reset, after)
unfolding retry_reply
retry_reply_refused user username keys row c api after reset e =
    let replies = ap (λ (r : Result (List String) × Api). r.0) e in ground arith

flush_update_refused :
    (j : Job) (jobs : List Job) (c : Constraint)
    → violated j jobs ≡ some c
    → flush_update j jobs ≡ integrity_error c
unfolding flush_update
flush_update_refused j jobs c e = rw (e, flush_update) refl

reset_reply_lem :
    (now : ℕ) (user : Option ℕ) (username : Option String) (job : Job) (api after : Api)
    (reset keys : List String) (steps : List Step)
    → reset_reply user username (after_reset now job (keys, steps)) api ≡ (ok reset, after)
    → get job.id api.jobs ≡ some job
    → (map_option (λ (j : Job). j.status) (get job.id after.jobs) ≡ some JobStatus.queued)
      × (map_option (λ (j : Job). j.cancel_requested) (get job.id after.jobs) ≡ some false)
      × (map_option (λ (j : Job). j.steps) (get job.id after.jobs) ≡ some steps)
      × (reset ≡ keys)
unfolding after_reset reset_reply
reset_reply_lem now user username job api after reset [] steps e found =
    let replies = ap (λ (r : Result (List String) × Api). r.0) e in absurd (ground arith)
reset_reply_lem now user username job api after reset (k ∷ ks) steps e found =
    let reset_row = record job { steps = steps } in
    let row = requeue now reset_row in
    let (id, status, flag, kept) = requeue_lem now reset_row in
    elim (Option-cases (violated row api.jobs)) [
      | inr (c, refused) ↦ absurd (
          retry_reply_refused user username (k ∷ ks) row c api after reset (
            sym (
              ap (λ (f : Flush). retry_reply user username (k ∷ ks) row f api)
                (flush_update_refused row api.jobs c refused))
            ∙ e))
      | inl clean ↦
          let (same, table) =
            retry_reply_lem user username (k ∷ ks) row (put row api.jobs) api after reset (
              sym (
                ap (λ (f : Flush). retry_reply user username (k ∷ ks) row f api)
                  (flush_update_clean row api.jobs clean))
              ∙ e) in
          let written : get job.id after.jobs ≡ some row =
            rw table (get-put_at job.id job row api.jobs id found) in
          (
            ap (map_option (λ (j : Job). j.status)) written ∙ ap some status,
            ap (map_option (λ (j : Job). j.cancel_requested)) written ∙ ap some flag,
            ap (map_option (λ (j : Job). j.steps)) written ∙ ap some kept,
            same,
          )
    ]

checked_lem :
    (now : ℕ) (user : Option ℕ) (username : Option String) (checks : Result (Option (List String)))
    (job : Job) (api after : Api) (reset : List String)
    → retry_checked checks now user username job api ≡ (ok reset, after)
    → (keys : Option (List String)) × (checks ≡ ok keys)
      × (reset_reply user username (reset_for_retry now keys job) api ≡ (ok reset, after))
unfolding retry_checked
checked_lem now user username (raised error) job api after reset e =
    let replies = ap (λ (r : Result (List String) × Api). r.0) e in absurd (ground arith)
checked_lem now user username (ok keys) job api after reset e =
    elim (Bool-cases (has_active_job_for_vm job.vm_name (some job.id) api.jobs)) [
      | inl held ↦
          let replies =
            ap (λ (r : Result (List String) × Api). r.0) (sym (if_of_true _ _ _ held) ∙ e) in
          absurd (ground arith)
      | inr free ↦ (keys, refl, sym (if_of_false _ _ _ free) ∙ e)
    ]

-- The steps that a retry of a job re-runs, by what the lifecycle says of each status.
abbrev stopped_in : JobStatus → StepStatus → Bool
stopped_in job StepStatus.failed = true
stopped_in job StepStatus.cancelled = true
stopped_in JobStatus.interrupted StepStatus.running = true
stopped_in job step = false

-- All stages, or the one that is named.
abbrev concerns : Option String → String → Bool
concerns none key = true
concerns (some named) key = str_eq named key

abbrev pub re_runs : JobStatus → Option String → Step → Bool
re_runs job stage_key s = stopped_in job s.status && concerns stage_key s.stage_key

-- The step afterwards: only its status changes, to PENDING.
abbrev pub again : JobStatus → Option String → Step → Step
again job stage_key s =
    if re_runs job stage_key s then record s { status = StepStatus.pending } else s

stopped_lem : (job : JobStatus) (step : StepStatus) → is_eligible job step ≡ stopped_in job step
stopped_lem job step = ground arith

concerns_lem :
    (stage_key : Option String) (key : String)
    → is_selected (selected_keys stage_key) key ≡ concerns stage_key key
unfolding str_mem
concerns_lem none key = refl
concerns_lem (some named) key = ground arith

re_runs_lem :
    (job : JobStatus) (stage_key : Option String) (s : Step)
    → should_reset job (selected_keys stage_key) s ≡ re_runs job stage_key s
re_runs_lem job stage_key s = rw (stopped_lem job s.status, concerns_lem stage_key s.stage_key) refl

module _ (job : JobStatus) (stage_key : Option String) where
  again_lem :
      (steps : List Step)
      → map (reset_step job (selected_keys stage_key)) steps ≡ map (again job stage_key) steps
  again_lem [] = refl
  again_lem (s ∷ ss) =
      ap
        (λ (b : Bool).
          (if b then record s { status = StepStatus.pending } else s)
          ∷ map (reset_step job (selected_keys stage_key)) ss)
        (re_runs_lem job stage_key s)
      ∙ ap (λ r. again job stage_key s ∷ r) (again_lem ss)

  reported_lem :
      (steps : List Step)
      → filter_if (should_reset job (selected_keys stage_key)) steps
        ≡ filter_if (re_runs job stage_key) steps
  reported_lem [] = refl
  reported_lem (s ∷ ss) = elim (Bool-cases (re_runs job stage_key s)) [
    | inl r ↦ rw (r, re_runs_lem job stage_key s ∙ r) (ap (λ l. s ∷ l) (reported_lem ss))
    | inr o ↦ rw (o, re_runs_lem job stage_key s ∙ o) (reported_lem ss)
  ]

-- A retry that is accepted leaves its job's row QUEUED with no cancel flag, and changes of its steps
-- the status of those that it reports, to PENDING: the steps of the named stage, or of all stages, that
-- are FAILED or CANCELLED, or RUNNING in a job that was INTERRUPTED. It keeps every other step as it is.
pub retry_stages_requeues :
    (readable : Option Json → Bool) (now : ℕ) (user : Option ℕ) (username : Option String)
    (stage_key : Option String) (job : Job) (api after : Api) (reset : List String)
    → retry_stages readable now user username stage_key job api ≡ (ok reset, after)
    → get job.id api.jobs ≡ some job
    → (map_option (λ (j : Job). j.status) (get job.id after.jobs) ≡ some JobStatus.queued)
      × (map_option (λ (j : Job). j.cancel_requested) (get job.id after.jobs) ≡ some false)
      × (map_option (λ (j : Job). j.steps) (get job.id after.jobs)
          ≡ some (map (again job.status stage_key) job.steps))
      × (reset
          ≡ map (λ (s : Step). s.stage_key) (filter_if (re_runs job.status stage_key) job.steps))
retry_stages_requeues readable now user username stage_key job api after reset e found =
    let (keys, passed, replied) =
      checked_lem now user username (check_retry readable stage_key job) job api after reset
        (unfold retry_stages in e) in
    let selected = keys-check_retry readable stage_key job keys passed in
    let (which, steps) = reset_steps_lem job.status keys job.steps in
    let (status, flag, kept, same) =
      reset_reply_lem now user username job api after reset
        (reset_steps job.status keys job.steps).0 (reset_steps job.status keys job.steps).1
        (unfold reset_for_retry in replied) found in
    let all_steps =
      steps
      ∙ ap (λ (k : Option (List String)). map (reset_step job.status k) job.steps) selected
      ∙ again_lem job.status stage_key job.steps in
    let all_keys =
      which
      ∙ ap
          (λ (k : Option (List String)).
            map (λ (s : Step). s.stage_key) (filter_if (should_reset job.status k) job.steps))
          selected
      ∙ ap (map (λ (s : Step). s.stage_key)) (reported_lem job.status stage_key job.steps) in
    (status, flag, kept ∙ ap some all_steps, same ∙ all_keys)
