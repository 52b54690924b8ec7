-- ===== src/Pipeline/Kept.antt =====
-- A step that is done when a run starts is left as it is.
use infra_ops.Prelude.{
  true, false, String, List, [], ◌∷◌, Option, none, some, ◌≡◌, ◌≢◌, refl, sym, ap, ◌∙◌, arith,
  Bool-cases, inl, inr,
}
use infra_ops.Jobs.{Step, is_done, find_step}
use infra_ops.Jobs.Steps.Lookup.{map_option}
use infra_ops.Stages.{StageDefinition, ordered_stages}
use infra_ops.Pipeline.Context.{
  Context, Environment, Effect, HandlerEnd, returned, raised, timed_out, crashed, stage_cancelled,
  escapes, apply_handler,
}
use infra_ops.Pipeline.Stage.{
  begin_stage, cancel_stage, conclude_stage, run_handler, run_stage, no_handler_error,
  timeout_error, crash_error,
}
use infra_ops.Pipeline.Run.{refresh, visit_open, visit_stage, run_stages, execute}
use infra_ops.Pipeline.StepProgress.{
  Progress, progress_of, progress_at, done_not_open, steps_progress_ne, progress-apply_handler,
  progress-begin_stage, progress-finish_stage, progress-handle_failure, progress-apply_cancellation,
  progress-finalize_success,
}

module _ (k : String) where
  progress-cancel_stage :
      (env : Environment) (stage : StageDefinition) (ctx : Context) (p : Progress)
      → stage.key ≢ k
      → "prepare_unattended_install" ≢ k
      → is_done p.0 ≡ true
      → progress_at k ctx ≡ some p
      → progress_at k (cancel_stage env stage ctx) ≡ some p
  progress-cancel_stage env stage ctx p ne np d h =
      unfold cancel_stage in
      progress-apply_cancellation k env _ p np (done_not_open p.0 d)
        (steps_progress_ne k stage.key _ ctx.job.steps (λ s. refl) ne ∙ h)

  -- The steps of the other keys that are done when a stage starts.
  progress-conclude_stage :
      (env : Environment) (stage : StageDefinition) (end : HandlerEnd) (ctx : Context)
      (p : Progress)
      → stage.key ≢ k
      → "prepare_unattended_install" ≢ k
      → is_done p.0 ≡ true
      → progress_at k ctx ≡ some p
      → progress_at k (conclude_stage env stage end ctx) ≡ some p
  unfolding conclude_stage
  progress-conclude_stage env stage (returned o) ctx p ne np d h =
      progress-finish_stage k env stage o ctx ne ∙ h
  progress-conclude_stage env stage (raised e) ctx p ne np d h =
      progress-handle_failure k env stage e ctx ne np ∙ h
  progress-conclude_stage env stage timed_out ctx p ne np d h =
      progress-handle_failure k env stage (timeout_error env stage) ctx ne np ∙ h
  progress-conclude_stage env stage (crashed t) ctx p ne np d h =
      progress-handle_failure k env stage (crash_error stage t) ctx ne np ∙ h
  progress-conclude_stage env stage stage_cancelled ctx p ne np d h =
      progress-cancel_stage env stage ctx p ne np d h
  progress-conclude_stage env stage (escapes e) ctx p ne np d h = h

  progress-run_handler :
      (env : Environment) (stage : StageDefinition)
      (handler : Option (Context → Effect × HandlerEnd)) (ctx : Context) (p : Progress)
      → stage.key ≢ k
      → "prepare_unattended_install" ≢ k
      → is_done p.0 ≡ true
      → progress_at k ctx ≡ some p
      → progress_at k (run_handler env stage handler ctx) ≡ some p
  progress-run_handler env stage none ctx p ne np d h =
      unfold run_handler in
      progress-handle_failure k env stage (no_handler_error stage) ctx ne np ∙ h
  progress-run_handler env stage (some handler) ctx p ne np d h =
      unfold run_handler in
      progress-conclude_stage env stage (handler ctx).1
        (apply_handler stage.key (handler ctx).0 ctx) p ne np d
        (progress-apply_handler k stage.key (handler ctx).0 ctx ne ∙ h)

  progress-run_stage :
      (env : Environment) (stage : StageDefinition) (ctx : Context) (p : Progress)
      → stage.key ≢ k
      → "prepare_unattended_install" ≢ k
      → is_done p.0 ≡ true
      → progress_at k ctx ≡ some p
      → progress_at k (run_stage env stage ctx) ≡ some p
  progress-run_stage env stage ctx p ne np d h =
      unfold run_stage in
      progress-run_handler env stage (env.handler stage.key) (begin_stage env stage ctx) p ne np d
        (progress-begin_stage k env stage ctx ne ∙ h)

  -- A round of the loop leaves a done step alone, its own stage's too.
  progress-visit_open :
      (env : Environment) (stage : StageDefinition) (ctx : Context) (p : Progress)
      → stage.key ≢ k
      → "prepare_unattended_install" ≢ k
      → is_done p.0 ≡ true
      → progress_at k ctx ≡ some p
      → progress_at k (visit_open env stage ctx).1 ≡ some p
  progress-visit_open env stage ctx p ne np d h =
      unfold visit_open in
      ground (
        arith,
        progress-apply_cancellation k env (refresh env stage.key ctx) p np (done_not_open p.0 d) h,
        progress-run_stage env stage (refresh env stage.key ctx) p ne np d h,
      )

  -- A step that is found under the key and is not done is of another key.
  open_step_ne :
      (stage : StageDefinition) (step : Step) (ctx : Context) (p : Progress)
      → find_step stage.key ctx.job.steps ≡ some step
      → is_done step.status ≡ false
      → is_done p.0 ≡ true
      → progress_at k ctx ≡ some p
      → stage.key ≢ k
  open_step_ne stage step ctx p found open_step d h same =
      let at_k : find_step k ctx.job.steps ≡ some step =
        ap (λ (j : String). find_step j ctx.job.steps) (sym same) ∙ found in
      let shown : some (progress_of step) ≡ some p = ap (map_option progress_of) (sym at_k) ∙ h in
      ground (arith, shown)

  progress-visit_stage :
      (env : Environment) (stage : StageDefinition) (found : Option Step) (ctx : Context)
      (p : Progress)
      → "prepare_unattended_install" ≢ k
      → find_step stage.key ctx.job.steps ≡ found
      → is_done p.0 ≡ true
      → progress_at k ctx ≡ some p
      → progress_at k (visit_stage env stage found ctx).1 ≡ some p
  unfolding visit_stage
  progress-visit_stage env stage none ctx p np e d h = h
  progress-visit_stage env stage (some step) ctx p np e d h =
      elim (Bool-cases (is_done step.status)) [
        | inl done ↦ rw done h
        | inr more ↦
            rw more (
              progress-visit_open env stage ctx p (open_step_ne stage step ctx p e more d h) np d h)
      ]

  progress-run_stages :
      (env : Environment) (stages : List StageDefinition) (ctx : Context) (p : Progress)
      → "prepare_unattended_install" ≢ k
      → is_done p.0 ≡ true
      → progress_at k ctx ≡ some p
      → progress_at k (run_stages env stages ctx) ≡ some p
  unfolding run_stages
  progress-run_stages env [] ctx p np d h = progress-finalize_success k env ctx ∙ h
  progress-run_stages env (stage ∷ rest) ctx p np d h =
      let visited =
        progress-visit_stage env stage (find_step stage.key ctx.job.steps) ctx p np refl d h in
      elim (Bool-cases (visit_stage env stage (find_step stage.key ctx.job.steps) ctx).0) [
        | inl on ↦
            rw (on, run_stages)
              (progress-run_stages env rest
                (visit_stage env stage (find_step stage.key ctx.job.steps) ctx).1 p np d visited)
        | inr off ↦ rw (off, run_stages) visited
      ]

-- A step that is done when the run starts (SUCCEEDED, SKIPPED, WARNING or NOT_APPLICABLE) has the same
-- status, attempt count, times and output when it ends, whatever the handlers, the cancellations and
-- the adapter calls do, for every key but that of the preparation of the answer media, which a release
-- of the media may reset.
pub execute_keeps_done :
    (env : Environment) (ctx : Context) (k : String) (p : Progress)
    → "prepare_unattended_install" ≢ k
    → is_done p.0 ≡ true
    → progress_at k ctx ≡ some p
    → progress_at k (execute env ctx) ≡ some p
execute_keeps_done env ctx k p np d h =
    unfold execute in progress-run_stages k env ordered_stages ctx p np d h
