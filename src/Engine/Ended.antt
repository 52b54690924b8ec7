-- ===== src/Engine/Ended.antt =====
-- How the processing of a job by a worker of backend/app/workers/engine.py ends.
use infra_ops.Prelude.{
  ℕ, ◌≡◌, refl, ap, Bool, true, false, ◌||◌, String, List, [], ◌∷◌, Option, none, some, arith, inl,
  inr, ◌⊎◌, Bool-cases,
}
use infra_ops.Jobs.{Job, JobStatus, Step, is_terminal, find_step, is_done}
use infra_ops.Stages.{StageDefinition, ordered_stages}
use infra_ops.Repository.Queue.{is_owned}
use infra_ops.Pipeline.Context.{
  Context, Environment, Effect, HandlerEnd, returned, raised, timed_out, crashed, stage_cancelled,
  escapes, Escape, task_cancelled, unexpected, InfraError, apply_handler, apply_effect,
  notify_requester, record_event,
}
use infra_ops.Pipeline.Stage.{
  begin_stage, finish_stage, handle_failure, cancel_stage, conclude_stage, run_handler, run_stage,
  mark_stage_cancelled, apply_cancellation, no_handler_error, timeout_error, crash_error,
}
use infra_ops.Pipeline.Run.{
  refresh, is_escape, visit_open, visit_stage, run_stages, execute, finalize_success,
}
use infra_ops.Pipeline.Frame.{run_stages_on, run_stages_off}
use infra_ops.Pipeline.Outcome.{
  unsuccessful-handle_failure, unsuccessful_terminal, status-apply_cancellation,
  status-finalize_success, execute-is_terminal,
}
use infra_ops.Engine.Transitions.{Failure, fail_row, fail_before_pipeline}
use infra_ops.Engine.Reaper.{
  Built, built, unbuilt, after_escape, run_pipeline, process, started_event,
}

pub status-fail_before_pipeline :
    (now : ℕ) (failure : Failure) (ctx : Context)
    → (fail_before_pipeline now failure ctx).job.status ≡ JobStatus.failed
unfolding fail_before_pipeline fail_row notify_requester
status-fail_before_pipeline now failure ctx = ground arith

-- The job is still this worker's, or has ended.
abbrev pub is_held : String → Job → Bool
is_held worker_id j = is_owned worker_id j || is_terminal j.status

ended_held :
    (worker_id : String) (j : Job) → is_terminal j.status ≡ true → is_held worker_id j ≡ true
ended_held worker_id j e = ground (arith, e)

-- What the pipeline writes keeps the job with its worker until it has ended.
module _ (w : String) (env : Environment) where
  abbrev Held : Context → Type 0
  Held ctx = is_held w ctx.job ≡ true

  handle_failure-Held :
      (stage : StageDefinition) (e : InfraError) (ctx : Context)
      → Held (handle_failure env stage e ctx)
  handle_failure-Held stage e ctx = ended_held w (handle_failure env stage e ctx).job (
      unsuccessful_terminal (handle_failure env stage e ctx).job.status
        (unsuccessful-handle_failure env stage e ctx))

  apply_cancellation-Held : (ctx : Context) → Held (apply_cancellation env ctx)
  apply_cancellation-Held ctx =
      ended_held w (apply_cancellation env ctx).job
        (ap is_terminal (status-apply_cancellation env ctx))

  conclude_stage-Held :
      (stage : StageDefinition) (end : HandlerEnd) (ctx : Context)
      → Held ctx
      → Held (conclude_stage env stage end ctx)
  unfolding conclude_stage
  conclude_stage-Held stage (returned o) ctx h = unfold finish_stage in h
  conclude_stage-Held stage (raised e) ctx h = handle_failure-Held stage e ctx
  conclude_stage-Held stage timed_out ctx h =
      handle_failure-Held stage (timeout_error env stage) ctx
  conclude_stage-Held stage (crashed t) ctx h = handle_failure-Held stage (crash_error stage t) ctx
  conclude_stage-Held stage stage_cancelled ctx h =
      unfold cancel_stage in apply_cancellation-Held (mark_stage_cancelled env stage ctx)
  conclude_stage-Held stage (escapes e) ctx h = h

  run_handler-Held :
      (stage : StageDefinition) (handler : Option (Context → Effect × HandlerEnd)) (ctx : Context)
      → Held ctx
      → Held (run_handler env stage handler ctx)
  unfolding run_handler
  run_handler-Held stage none ctx h = handle_failure-Held stage (no_handler_error stage) ctx
  run_handler-Held stage (some handler) ctx h =
      conclude_stage-Held stage (handler ctx).1 (apply_handler stage.key (handler ctx).0 ctx)
        (unfold apply_handler apply_effect in h)

  run_stage-Held :
      (stage : StageDefinition) (ctx : Context) → Held ctx → Held (run_stage env stage ctx)
  run_stage-Held stage ctx h =
      unfold run_stage in
      run_handler-Held stage (env.handler stage.key) (begin_stage env stage ctx)
        (unfold begin_stage in h)

  visit_open-Held :
      (stage : StageDefinition) (ctx : Context) → Held ctx → Held (visit_open env stage ctx).1
  visit_open-Held stage ctx h =
      let current = refresh env stage.key ctx in
      unfold visit_open in
      ground (arith, apply_cancellation-Held current, run_stage-Held stage current h)

  visit_stage-Held :
      (stage : StageDefinition) (found : Option Step) (ctx : Context)
      → Held ctx
      → Held (visit_stage env stage found ctx).1
  unfolding visit_stage
  visit_stage-Held stage none ctx h = h
  visit_stage-Held stage (some step) ctx h = elim (Bool-cases (is_done step.status)) [
    | inl done ↦ rw done h
    | inr more ↦ rw more (visit_open-Held stage ctx h)
  ]

  run_stages-Held :
      (stages : List StageDefinition) (ctx : Context) → Held ctx → Held (run_stages env stages ctx)
  run_stages-Held [] ctx h =
      unfold run_stages in
      ended_held w (finalize_success env ctx).job (ap is_terminal (status-finalize_success env ctx))
  run_stages-Held (stage ∷ rest) ctx h =
      let found = find_step stage.key ctx.job.steps in
      let visited = visit_stage-Held stage found ctx h in
      elim (Bool-cases (visit_stage env stage found ctx).0) [
        | inl on ↦
            rw (run_stages_on env stage rest ctx on)
              (run_stages-Held rest (visit_stage env stage found ctx).1 visited)
        | inr off ↦ rw (run_stages_off env stage rest ctx off) visited
      ]

execute-Held :
    (w : String) (env : Environment) (ctx : Context)
    → is_held w ctx.job ≡ true
    → is_held w (execute env ctx).job ≡ true
execute-Held w env ctx h = unfold execute in run_stages-Held w env ordered_stages ctx h

-- The job has ended, or a CancelledError has left the pipeline.
abbrev pub Ended : String → Context → Type 0
Ended w ran =
    (is_terminal ran.job.status ≡ true)
    ⊎ ((ran.escaped ≡ some task_cancelled) × (is_held w ran.job ≡ true))

after_escape-Ended :
    (w : String) (now : ℕ) (e : Option Escape) (ran : Context)
    → ran.escaped ≡ e
    → (is_escape ran.escaped ≡ false → is_terminal ran.job.status ≡ true)
    → is_held w ran.job ≡ true
    → Ended w (after_escape now e ran)
unfolding after_escape
after_escape-Ended w now none ran e ends h = inl (ends (ap is_escape e))
after_escape-Ended w now (some unexpected) ran e ends h =
    inl (ap is_terminal (status-fail_before_pipeline now _ ran))
after_escape-Ended w now (some task_cancelled) ran e ends h = inr (e, h)

run_pipeline-Ended :
    (w : String) (now : ℕ) (env : Environment) (ctx : Context)
    → is_held w ctx.job ≡ true
    → Ended w (run_pipeline now env ctx)
run_pipeline-Ended w now env ctx h =
    let ran = execute env ctx in
    unfold run_pipeline in
    after_escape-Ended w now ran.escaped ran refl (execute-is_terminal env ctx)
      (execute-Held w env ctx h)

pub process-Ended :
    (w : String) (now : ℕ) (outside : Built) (ctx : Context)
    → is_held w ctx.job ≡ true
    → Ended w (process now outside ctx)
process-Ended w now (unbuilt failure) ctx h =
    unfold process in inl (ap is_terminal (status-fail_before_pipeline now failure ctx))
process-Ended w now (built env) ctx h =
    unfold process in run_pipeline-Ended w now env (record_event (started_event ctx) ctx) h
