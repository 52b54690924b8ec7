-- ===== src/Engine/Consistent.antt =====
-- What a worker of backend/app/workers/engine.py writes keeps the job table consistent.
use infra_ops.Prelude.{
  ℕ, ◌≡◌, refl, ap, sym, ◌∙◌, subst, Bool, true, false, String, List, [], ◌∷◌, Option, none, some,
  arith, inl, inr, Bool-cases, if_of_true, if_of_false,
}
use infra_ops.Jobs.{Job, is_active}
use infra_ops.Repository.Table.{get, put}
use infra_ops.Repository.Unique.{IsConsistent, put-IsConsistent}
use infra_ops.Repository.Unique.SameKeys.{kept_keys_unviolated}
use infra_ops.Pipeline.Context.{
  Context, Environment, Escape, task_cancelled, unexpected, record_event, notify_requester,
}
use infra_ops.Pipeline.Media.{release_unattended_media}
use infra_ops.Pipeline.Identity.{
  Identity, identity, execute_keeps_identity, identity-release_unattended_media,
}
use infra_ops.Pipeline.Run.{execute}
use infra_ops.Engine.Transitions.{
  Failure, fail_row, fail_before_pipeline, interrupt_row, park, interrupt,
}
use infra_ops.Engine.Worker.{may_process}
use infra_ops.Engine.Reaper.{
  Built, built, unbuilt, started_event, after_escape, run_pipeline, process, with_steps,
  execute_job, conclude_job, process_job, mark_interrupted,
}

identity-fail_before_pipeline :
    (now : ℕ) (failure : Failure) (ctx : Context)
    → identity (fail_before_pipeline now failure ctx).job ≡ identity ctx.job
unfolding fail_before_pipeline fail_row notify_requester
identity-fail_before_pipeline now failure ctx = ground arith

identity-after_escape :
    (now : ℕ) (e : Option Escape) (ran : Context)
    → identity (after_escape now e ran).job ≡ identity ran.job
unfolding after_escape
identity-after_escape now none ran = refl
identity-after_escape now (some unexpected) ran = identity-fail_before_pipeline now _ ran
identity-after_escape now (some task_cancelled) ran = refl

identity-run_pipeline :
    (now : ℕ) (env : Environment) (ctx : Context)
    → identity (run_pipeline now env ctx).job ≡ identity ctx.job
identity-run_pipeline now env ctx =
    let ran = execute env ctx in
    unfold run_pipeline in
    identity-after_escape now ran.escaped ran ∙ execute_keeps_identity env ctx

pub identity-process :
    (now : ℕ) (outside : Built) (ctx : Context)
    → identity (process now outside ctx).job ≡ identity ctx.job
unfolding process
identity-process now (unbuilt failure) ctx = identity-fail_before_pipeline now failure ctx
identity-process now (built env) ctx =
    identity-run_pipeline now env (record_event (started_event ctx) ctx)

identity-park :
    (now : ℕ) (reason : String) (ctx : Context)
    → identity (park now reason ctx).job ≡ identity ctx.job
unfolding park interrupt_row notify_requester
identity-park now reason ctx = ground arith

pub identity-interrupt :
    (now : ℕ) (reason : String) (outside : Option Environment) (ctx : Context)
    → identity (interrupt now reason outside ctx).job ≡ identity ctx.job
unfolding interrupt
identity-interrupt now reason none ctx = identity-park now reason ctx
identity-interrupt now reason (some env) ctx =
    let parked = park now reason ctx in
    elim (Bool-cases (release_unattended_media env "job interrupted" parked).0) [
      | inl removed ↦
          ap (λ (c : Context). identity c.job) (if_of_true _ _ _ removed)
          ∙ identity-release_unattended_media env "job interrupted" parked
          ∙ identity-park now reason ctx
      | inr kept ↦
          ap (λ (c : Context). identity c.job) (if_of_false _ _ _ kept)
          ∙ identity-park now reason ctx
    ]

owned_active :
    (worker_id : String) (job : Job)
    → may_process worker_id (some job) ≡ true
    → is_active job.status ≡ true
unfolding may_process
owned_active worker_id job owned = ground arith

-- A write of the row of an active job, with its identity.
pub written-IsConsistent :
    (job row : Job) (jobs : List Job)
    → IsConsistent jobs
    → get job.id jobs ≡ some job
    → is_active job.status ≡ true
    → identity row ≡ identity job
    → IsConsistent (put row jobs)
written-IsConsistent job row jobs h found active same = put-IsConsistent row jobs h (
    kept_keys_unviolated job row jobs h found active (ap (λ (i : Identity). i.0) same)
      (ap (λ (i : Identity). i.2) same) (ap (λ (i : Identity). i.1) same)
      (ap (λ (i : Identity). i.3) same))

pub execute_job-IsConsistent :
    (now : ℕ) (worker_id : String) (context_of : Job → Context) (outside : Built) (stopping : Bool)
    (job : Job) (jobs : List Job)
    → IsConsistent jobs
    → get job.id jobs ≡ some job
    → (context_of job).job ≡ job
    → IsConsistent (execute_job now worker_id context_of outside stopping (some job) jobs).1
unfolding execute_job
execute_job-IsConsistent now worker_id context_of outside stopping job jobs h found own =
    elim (Bool-cases (may_process worker_id (some job))) [
      | inr other ↦ rw other h
      | inl owned ↦ rw owned (
          written-IsConsistent job (process now outside (with_steps (context_of job))).job jobs h
            found (owned_active worker_id job owned)
            (identity-process now outside (with_steps (context_of job)) ∙ ap identity own))
    ]

-- The same of a worker that shuts down and marks a job of the table as interrupted.
mark_interrupted-IsConsistent :
    (now : ℕ) (reason worker_id : String) (context_of : Job → Context)
    (outside : Option Environment) (job : Job) (jobs : List Job)
    → IsConsistent jobs
    → get job.id jobs ≡ some job
    → (context_of job).job ≡ job
    → IsConsistent (mark_interrupted now reason worker_id context_of outside (some job) jobs)
unfolding mark_interrupted
mark_interrupted-IsConsistent now reason worker_id context_of outside job jobs h found own =
    elim (Bool-cases (may_process worker_id (some job))) [
      | inr other ↦ rw other h
      | inl owned ↦ rw owned (
          written-IsConsistent job (interrupt now reason outside (context_of job)).job jobs h found
            (owned_active worker_id job owned)
            (identity-interrupt now reason outside (context_of job) ∙ ap identity own))
    ]

pub id-get : (id : ℕ) (j : Job) (jobs : List Job) → get id jobs ≡ some j → j.id ≡ id
unfolding get
id-get id j [] found = ground arith
id-get id j (o ∷ js) found = ground (arith, id-get id j js)

found_self : (id : ℕ) (j : Job) (jobs : List Job) → get id jobs ≡ some j → get j.id jobs ≡ some j
found_self id j jobs e = subst (λ (i : ℕ). get i jobs ≡ some j) (sym (id-get id j jobs e)) e

module _ (now : ℕ) (worker_id : String) (context_of : Job → Context)
    (own : (j : Job) → (context_of j).job ≡ j) where
  marked-IsConsistent :
      (reason : String) (release : Option Environment) (id : ℕ) (found : Option Job)
      (jobs : List Job)
      → IsConsistent jobs
      → get id jobs ≡ found
      → IsConsistent (mark_interrupted now reason worker_id context_of release found jobs)
  marked-IsConsistent reason release id none jobs h e = unfold mark_interrupted in h
  marked-IsConsistent reason release id (some row) jobs h e =
      mark_interrupted-IsConsistent now reason worker_id context_of release row jobs h
        (found_self id row jobs e) (own row)

  conclude_job-IsConsistent :
      (release : Option Environment) (id : ℕ) (raised : Bool) (jobs : List Job)
      → IsConsistent jobs
      → IsConsistent (conclude_job now worker_id context_of release id (raised, jobs))
  unfolding conclude_job
  conclude_job-IsConsistent release id false jobs h = h
  conclude_job-IsConsistent release id true jobs h =
      marked-IsConsistent _ release id (get id jobs) jobs h refl

  executed-IsConsistent :
      (outside : Built) (stopping : Bool) (id : ℕ) (found : Option Job) (jobs : List Job)
      → IsConsistent jobs
      → get id jobs ≡ found
      → IsConsistent (execute_job now worker_id context_of outside stopping found jobs).1
  executed-IsConsistent outside stopping id none jobs h e = unfold execute_job in h
  executed-IsConsistent outside stopping id (some job) jobs h e =
      execute_job-IsConsistent now worker_id context_of outside stopping job jobs h
        (found_self id job jobs e) (own job)

  -- If the job table has at most one row per identifier and per idempotency key, and at most one active
  -- job per VM name (letter case aside) and per reserved IPv4 address, so it does after a worker has
  -- processed the job of an identifier, where its context is that job's: whether the pipeline returns,
  -- crashes, or is cancelled by a worker that stops or that has lost the job.
  pub process_job-IsConsistent :
      (outside : Built) (stopping : Bool) (release : Option Environment) (id : ℕ) (jobs : List Job)
      → IsConsistent jobs
      → IsConsistent (process_job now worker_id context_of outside stopping release id jobs)
  process_job-IsConsistent outside stopping release id jobs h =
      let (raised, after) =
        execute_job now worker_id context_of outside stopping (get id jobs) jobs in
      unfold process_job in
      conclude_job-IsConsistent release id raised after
        (executed-IsConsistent outside stopping id (get id jobs) jobs h refl)
