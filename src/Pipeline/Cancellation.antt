-- ===== src/Pipeline/Cancellation.antt =====
-- A cancellation that arrives while the last stage is running.
use mathlib.Core.Bool.{false≢true}
use infra_ops.Prelude.{
  Bool, true, false, not, ◌&&◌, String, List, [], ◌∷◌, ◌++◌, Option, none, some, ◌≡◌, ◌≢◌, refl,
  sym, ap, subst, ◌∙◌, arith, eq_iff, if_of_false, All, take, is_some,
}
use infra_ops.Jobs.{
  JobStatus, Step, StepStatus, is_done, is_open, is_step_failed, find_step, status_in,
}
use infra_ops.Jobs.Steps.Lookup.{map_option, find_step-update_step_self}
use infra_ops.Stages.{StageDefinition, ordered_stages, stage}
use infra_ops.Pipeline.Context.{
  Context, Environment, Effect, HandlerEnd, stage_cancelled, apply_effect, apply_handler,
}
use infra_ops.Pipeline.Media.{require_vm_id, after_removal, release_unattended_media}
use infra_ops.Pipeline.Stage.{
  begin_stage, cancelled_step, mark_stage_cancelled, cancel_stage, run_stage, run_handler,
  conclude_stage, apply_cancellation,
}
use infra_ops.Pipeline.Run.{
  is_escape, refresh, visit_open, visit_stage, run_stages, execute, finalize_success,
}
use infra_ops.Pipeline.Frame.{run_stages_on}
use infra_ops.Pipeline.StepProgress.{
  Progress, progress_of, progress_at, progress-apply_cancellation, progress-finalize_success,
}
use infra_ops.Pipeline.Failed.{has_step, has_step-begin_stage, has_step-apply_handler}
use infra_ops.Pipeline.Completion.{settled_at}
use infra_ops.Pipeline.Outcome.{status-finalize_success}

abbrev pub final_key : String
final_key = "final_validation"

-- The stages before the last.
abbrev pub early_stages : List StageDefinition
early_stages = take 25 ordered_stages

abbrev final_stage : StageDefinition
final_stage = stage final_key "Final validation"

not_prepare_final : "prepare_unattended_install" ≢ final_key
not_prepare_final e = ground (arith, eq_iff "prepare_unattended_install" final_key)

-- A stage that is settled is passed over.
pub visit_stage-settled :
    (env : Environment) (s : StageDefinition) (found : Option Step) (ctx : Context)
    → find_step s.key ctx.job.steps ≡ found
    → settled_at s.key ctx ≡ true
    → visit_stage env s found ctx ≡ (true, ctx)
unfolding visit_stage
visit_stage-settled env s none ctx e h = refl
visit_stage-settled env s (some step) ctx e h = rw (settled_found s step ctx e h)
  where
    settled_found :
        (s : StageDefinition) (step : Step) (ctx : Context)
        → find_step s.key ctx.job.steps ≡ some step
        → settled_at s.key ctx ≡ true
        → is_done step.status ≡ true
    settled_found s step ctx e h = rw e at h

run_stages-settled :
    (env : Environment) (early rest : List StageDefinition) (ctx : Context)
    → All (λ (s : StageDefinition). settled_at s.key ctx ≡ true) early
    → run_stages env (early ++ rest) ctx ≡ run_stages env rest ctx
run_stages-settled env [] rest ctx h = refl
run_stages-settled env (s ∷ early) rest ctx h =
    let skipped = visit_stage-settled env s _ ctx refl h.0 in
    run_stages_on env s (early ++ rest) ctx (ap (λ (v : Bool × Context). v.0) skipped)
    ∙ ap (λ (v : Bool × Context). run_stages env (early ++ rest) v.1) skipped
    ∙ run_stages-settled env early rest ctx h.1

abbrev is_cancelled_progress : Option Progress → Bool
is_cancelled_progress (some (StepStatus.cancelled, _, _, _, _)) = true
is_cancelled_progress _ = false

-- The job has a step of the key, and it is CANCELLED.
abbrev pub cancelled_at : String → Context → Bool
cancelled_at k ctx = is_cancelled_progress (progress_at k ctx)

cancelled_not_failed :
    (o : Option Step)
    → is_cancelled_progress (map_option progress_of o) ≡ true
    → status_in is_step_failed o ≡ false
cancelled_not_failed none h = refl
cancelled_not_failed (some s) h = ground arith

escape-require_vm_id : (ctx : Context) → (require_vm_id ctx).1.escaped ≡ ctx.escaped
unfolding require_vm_id
escape-require_vm_id ctx = ground arith

escape-release_unattended_media :
    (env : Environment) (reason : String) (ctx : Context)
    → (release_unattended_media env reason ctx).1.escaped ≡ ctx.escaped
unfolding release_unattended_media after_removal
escape-release_unattended_media env reason ctx = ground (arith, escape-require_vm_id ctx)

escape-cancel_stage :
    (env : Environment) (stage : StageDefinition) (ctx : Context)
    → (cancel_stage env stage ctx).escaped ≡ ctx.escaped
escape-cancel_stage env stage ctx =
    unfold cancel_stage apply_cancellation in
    escape-release_unattended_media env "job cancelled" (mark_stage_cancelled env stage ctx)

-- The start of a stage and its handler.
escape-begin_stage :
    (env : Environment) (stage : StageDefinition) (ctx : Context) (e : Effect)
    → (apply_handler stage.key e (begin_stage env stage ctx)).escaped ≡ ctx.escaped
unfolding apply_handler apply_effect begin_stage
escape-begin_stage env stage ctx e = refl

module _ (env : Environment) (s : StageDefinition)
    (not_prepare : "prepare_unattended_install" ≢ s.key) where
  cancelled-mark_stage_cancelled :
      (found : Option Step) (ctx : Context)
      → find_step s.key ctx.job.steps ≡ found
      → has_step s.key ctx ≡ true
      → (p : Progress) × (progress_at s.key (mark_stage_cancelled env s ctx) ≡ some p)
        × (p.0 ≡ StepStatus.cancelled)
  cancelled-mark_stage_cancelled none ctx e h = absurd (false≢true (ap is_some (sym e) ∙ h))
  cancelled-mark_stage_cancelled (some step) ctx e h = (
    progress_of (cancelled_step env s step),
    ap (map_option progress_of) (
        find_step-update_step_self s.key (cancelled_step env s) ctx.job.steps (λ s. refl)
        ∙ ap (map_option (cancelled_step env s)) e),
    refl,
  )

  -- The step of a stage that is cancelled while it runs is CANCELLED in the end.
  cancelled-cancel_stage :
      (ctx : Context)
      → has_step s.key ctx ≡ true
      → cancelled_at s.key (cancel_stage env s ctx) ≡ true
  cancelled-cancel_stage ctx h =
      let (p, marked, is_cancelled) = cancelled-mark_stage_cancelled _ ctx refl h in
      let kept =
        progress-apply_cancellation s.key env (mark_stage_cancelled env s ctx) p not_prepare
          (ap is_open is_cancelled) marked in
      unfold cancel_stage in ap is_cancelled_progress kept ∙ ground arith

  -- Such a stage's run is its cancellation, on what the start and the handler have written.
  run_stage_cancelled :
      (handler : Context → Effect × HandlerEnd) (ctx : Context)
      → env.handler s.key ≡ some handler
      → ((c : Context) → (handler c).1 ≡ stage_cancelled)
      → let begun = begin_stage env s ctx in
        run_stage env s ctx ≡ cancel_stage env s (apply_handler s.key (handler begun).0 begun)
  run_stage_cancelled handler ctx registered ends =
      let begun = begin_stage env s ctx in
      let written = apply_handler s.key (handler begun).0 begun in
      unfold run_stage run_handler conclude_stage in
      ap (λ (h : Option (Context → Effect × HandlerEnd)). run_handler env s h begun) registered
      ∙ ap (λ (end : HandlerEnd). conclude_stage env s end written) (ends begun)

  cancelled-run_stage :
      (handler : Context → Effect × HandlerEnd) (ctx : Context)
      → has_step s.key ctx ≡ true
      → env.handler s.key ≡ some handler
      → ((c : Context) → (handler c).1 ≡ stage_cancelled)
      → cancelled_at s.key (run_stage env s ctx) ≡ true
  cancelled-run_stage handler ctx has registered ends =
      let begun = begin_stage env s ctx in
      ap (cancelled_at s.key) (run_stage_cancelled handler ctx registered ends)
      ∙ cancelled-cancel_stage (apply_handler s.key (handler begun).0 begun) (
          has_step-apply_handler s.key (handler begun).0 begun (has_step-begin_stage env s ctx has))

  -- No exception is on its way after it.
  escape-run_stage_cancelled :
      (handler : Context → Effect × HandlerEnd) (ctx : Context)
      → env.handler s.key ≡ some handler
      → ((c : Context) → (handler c).1 ≡ stage_cancelled)
      → is_escape (run_stage env s (refresh env s.key ctx)).escaped ≡ false
  escape-run_stage_cancelled handler ctx registered ends =
      let begun = begin_stage env s (refresh env s.key ctx) in
      let written = apply_handler s.key (handler begun).0 begun in
      ap (λ (c : Context). is_escape c.escaped)
        (run_stage_cancelled handler (refresh env s.key ctx) registered ends)
      ∙ ap is_escape (
          escape-cancel_stage env s written
          ∙ escape-begin_stage env s (refresh env s.key ctx) (handler begun).0)

  -- The loop goes on after it.
  visit_stage_cancelled :
      (handler : Context → Effect × HandlerEnd) (found : Option Step) (ctx : Context)
      → find_step s.key ctx.job.steps ≡ found
      → has_step s.key ctx ≡ true
      → settled_at s.key ctx ≡ false
      → env.cancel_seen s.key ≡ false
      → env.handler s.key ≡ some handler
      → ((c : Context) → (handler c).1 ≡ stage_cancelled)
      → visit_stage env s found ctx ≡ (true, run_stage env s (refresh env s.key ctx))
  visit_stage_cancelled handler none ctx e has more unseen registered ends =
      absurd (false≢true (ap is_some (sym e) ∙ has))
  visit_stage_cancelled handler (some step) ctx e has more unseen registered ends =
      let current = refresh env s.key ctx in
      let not_failed =
        cancelled_not_failed _ (cancelled-run_stage handler current has registered ends) in
      let open_step : is_done step.status ≡ false = rw e at more in
      let ran = run_stage env s current in
      unfold visit_stage visit_open in
      if_of_false (is_done step.status) (true, ctx) _ open_step
      ∙ if_of_false (env.cancel_seen s.key) (false, apply_cancellation env current) _ unseen
      ∙ ap (λ (failed : Bool). (not failed && not (is_escape ran.escaped), ran)) not_failed
      ∙ ap (λ (escape : Bool). (not escape, ran))
          (escape-run_stage_cancelled handler ctx registered ends)

-- A job whose stages are done but for the last, where the user cancels the last stage while it is
-- running, ends COMPLETED with its last step CANCELLED. (The flag is not set when the stage starts.)
pub cancelled_last_stage-completed :
    (env : Environment) (handler : Context → Effect × HandlerEnd) (ctx : Context)
    → All (λ (s : StageDefinition). settled_at s.key ctx ≡ true) early_stages
    → has_step final_key ctx ≡ true
    → settled_at final_key ctx ≡ false
    → env.cancel_seen final_key ≡ false
    → env.handler final_key ≡ some handler
    → ((c : Context) → (handler c).1 ≡ stage_cancelled)
    → ((execute env ctx).job.status ≡ JobStatus.completed)
      × (cancelled_at final_key (execute env ctx) ≡ true)
cancelled_last_stage-completed env handler ctx early has more unseen registered ends =
    let ran = run_stage env final_stage (refresh env final_key ctx) in
    let visited =
      visit_stage_cancelled env final_stage not_prepare_final handler
        (find_step final_key ctx.job.steps) ctx refl has more unseen registered ends in
    let ends_so : execute env ctx ≡ finalize_success env ran =
      unfold execute in
      run_stages-settled env early_stages (final_stage ∷ []) ctx early
      ∙ run_stages_on env final_stage [] ctx (ap (λ (v : Bool × Context). v.0) visited)
      ∙ ap (λ (v : Bool × Context). run_stages env [] v.1) visited
      ∙ (unfold run_stages in refl) in
    subst
      (λ (c : Context). (c.job.status ≡ JobStatus.completed) × (cancelled_at final_key c ≡ true))
      (sym ends_so)
      (
        status-finalize_success env ran,
        ap is_cancelled_progress (progress-finalize_success final_key env ran)
            ∙ cancelled-run_stage env final_stage not_prepare_final handler
                (refresh env final_key ctx) has registered ends,
      )
