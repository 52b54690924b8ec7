-- ===== src/Engine/Processed.antt =====
-- What `_process_job` of backend/app/workers/engine.py leaves of its job's row.
use infra_ops.Prelude.{
  ℕ, ◌≡◌, refl, sym, ap, ◌∙◌, Bool, true, false, String, List, Option, some, arith, inl, inr, ◌⊎◌,
  Bool-cases, if_of_true,
}
use infra_ops.Jobs.{Job, JobStatus, is_terminal}
use infra_ops.Jobs.Steps.Lookup.{map_option}
use infra_ops.Repository.Table.{get, put}
use infra_ops.Pipeline.Context.{Context, Environment, task_cancelled}
use infra_ops.Pipeline.Identity.{Identity, identity}
use infra_ops.Service.Cancel.{get-put_at}
use infra_ops.Engine.Transitions.{interrupt}
use infra_ops.Engine.Worker.{may_process}
use infra_ops.Engine.Reaper.{
  Built, process, with_steps, reraises, execute_job, conclude_job, process_job, mark_interrupted,
}
use infra_ops.Engine.Consistent.{id-get, identity-interrupt, identity-process}
use infra_ops.Engine.Resume.{status-interrupt}
use infra_ops.Engine.Ended.{is_held, Ended, process-Ended}

-- Ended, or INTERRUPTED.
abbrev pub IsOver : JobStatus → Type 0
IsOver s = (is_terminal s ≡ true) ⊎ (s ≡ JobStatus.interrupted)

abbrev pub status_at : ℕ → List Job → Option JobStatus
status_at id jobs = map_option (λ (j : Job). j.status) (get id jobs)

not_owned_ended :
    (w : String) (j : Job)
    → is_held w j ≡ true
    → may_process w (some j) ≡ false
    → is_terminal j.status ≡ true
unfolding may_process
not_owned_ended w j h other = ground (arith, h, other)

owned_held : (w : String) (j : Job) → may_process w (some j) ≡ true → is_held w j ≡ true
unfolding may_process
owned_held w j owned = ground (arith, owned)

Ended-or_held : (w : String) (ran : Context) → Ended w ran → is_held w ran.job ≡ true
Ended-or_held w ran (inl ended) = ground (arith, ended)
Ended-or_held w ran (inr (cancelled, h)) = h

module _ (now : ℕ) (w : String) (context_of : Job → Context)
    (own : (j : Job) → (context_of j).job ≡ j) (release : Option Environment) (id : ℕ) where
  marked-IsOver :
      (reason : String) (row : Job) (jobs : List Job)
      → get id jobs ≡ some row
      → is_held w row ≡ true
      → (s : JobStatus) × (status_at id
            (mark_interrupted now reason w context_of release (some row) jobs)
          ≡ some s)
        × IsOver s
  unfolding mark_interrupted
  marked-IsOver reason row jobs found h = elim (Bool-cases (may_process w (some row))) [
    | inr other ↦ rw other (
      row.status,
      ap (map_option (λ (j : Job). j.status)) found,
      inl (not_owned_ended w row h other),
    )
    | inl owned ↦
        let parked = (interrupt now reason release (context_of row)).job in
        let same = identity-interrupt now reason release (context_of row) ∙ ap identity (own row) in
        let here : parked.id ≡ id = ap (λ (i : Identity). i.0) same ∙ id-get id row jobs found in
        rw owned (
          JobStatus.interrupted,
          ap (map_option (λ (j : Job). j.status)) (get-put_at id row parked jobs here found)
              ∙ ap some (status-interrupt now reason release (context_of row)),
          inr refl,
        )
  ]

  -- The table and the exception of `_execute_job` on an owned job.
  concluded-IsOver :
      (stopping : Bool) (ran : Context) (jobs : List Job)
      → get id jobs ≡ some ran.job
      → Ended w ran
      → (raised : Bool) → reraises stopping ran.escaped ≡ raised
      → (s : JobStatus) × (status_at id (conclude_job now w context_of release id (raised, jobs))
          ≡ some s)
        × (IsOver s ⊎ ((stopping ≡ false) × (ran.escaped ≡ some task_cancelled)))
  unfolding conclude_job
  concluded-IsOver stopping ran jobs found (inl ended) false e =
      (ran.job.status, ap (map_option (λ (j : Job). j.status)) found, inl (inl ended))
  concluded-IsOver stopping ran jobs found (inr (cancelled, h)) false e = (
    ran.job.status,
    ap (map_option (λ (j : Job). j.status)) found,
    inr (sym (ap (reraises stopping) cancelled) ∙ e, cancelled),
  )
  concluded-IsOver stopping ran jobs found ended true e =
      let (s, at, over) =
        marked-IsOver "The worker shut down before the job finished." ran.job jobs found
          (Ended-or_held w ran ended) in
      (
        s,
        ap
              (λ (r : Option Job). status_at id (
                mark_interrupted now "The worker shut down before the job finished." w context_of
                  release r jobs))
              found
            ∙ at,
        inl over,
      )

  -- A job that its worker processes has ended afterwards (COMPLETED, PARTIALLY_COMPLETED, FAILED or
  -- CANCELLED) or is INTERRUPTED, whether its context can be built or not, and whether the pipeline
  -- returns, crashes or is cancelled; unless the pipeline is cancelled by a worker that is not stopping,
  -- which has lost the job.
  pub process_job-IsOver :
      (outside : Built) (stopping : Bool) (job : Job) (jobs : List Job)
      → get id jobs ≡ some job
      → may_process w (some job) ≡ true
      → (s : JobStatus) × (status_at id
            (process_job now w context_of outside stopping release id jobs)
          ≡ some s)
        × (IsOver s
            ⊎ ((stopping ≡ false)
                × ((process now outside (with_steps (context_of job))).escaped
                    ≡ some task_cancelled)))
  process_job-IsOver outside stopping job jobs found owned =
      let ran = process now outside (with_steps (context_of job)) in
      let held : is_held w (with_steps (context_of job)).job ≡ true =
        rw (own job) (owned_held w job owned) in
      let same : identity ran.job ≡ identity job =
        identity-process now outside (with_steps (context_of job)) ∙ ap identity (own job) in
      let here : ran.job.id ≡ id = ap (λ (i : Identity). i.0) same ∙ id-get id job jobs found in
      let executed : execute_job now w context_of outside stopping (get id jobs) jobs
          ≡ (reraises stopping ran.escaped, put ran.job jobs) =
        ap (λ (r : Option Job). execute_job now w context_of outside stopping r jobs) found
        ∙ (unfold execute_job in if_of_true (may_process w (some job)) _ _ owned) in
      let (s, at, over) =
        concluded-IsOver stopping ran (put ran.job jobs) (get-put_at id job ran.job jobs here found)
          (process-Ended w now outside (with_steps (context_of job)) held)
          (reraises stopping ran.escaped) refl in
      (
        s,
        unfold process_job in
            ap (λ (r : Bool × List Job). status_at id (conclude_job now w context_of release id r))
              executed
            ∙ at,
        over,
      )
