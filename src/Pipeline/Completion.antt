-- ===== src/Pipeline/Completion.antt =====
-- What COMPLETED means: every stage is done, unless the user cancels a stage while it is running.
use mathlib.Core.Bool.{false≢true}
use infra_ops.Prelude.{
  Bool, true, false, String, List, [], ◌∷◌, Option, none, some, ◌≡◌, ◌≢◌, refl, sym, ap, subst, ◌∙◌,
  arith, eq_iff, str_eq, is_some, Bool-cases, inl, inr, All,
}
use infra_ops.Jobs.{JobStatus, Step, is_done, find_step}
use infra_ops.Jobs.Steps.Lookup.{map_option, find_step-update_step_self}
use infra_ops.Stages.{StageDefinition, ordered_stages}
use infra_ops.Pipeline.Context.{
  Context, Environment, Effect, HandlerEnd, returned, raised, timed_out, crashed, stage_cancelled,
  escapes, StageOutcome, apply_handler,
}
use infra_ops.Pipeline.Stage.{
  begin_stage, finish_stage, conclude_stage, run_handler, run_stage, no_handler_error,
  timeout_error, crash_error,
}
use infra_ops.Pipeline.Run.{is_escape, refresh, visit_open, visit_stage, run_stages, execute}
use infra_ops.Pipeline.Frame.{run_stages_on, run_stages_off}
use infra_ops.Pipeline.StepProgress.{
  Progress, progress_of, progress_at, progress-finish_stage, progress-begin_stage,
  progress-apply_handler, progress-finalize_success,
}
use infra_ops.Pipeline.Failed.{
  has_step, has_step-begin_stage, has_step-apply_handler, failed_at, failed-handle_failure,
}
use infra_ops.Pipeline.Outcome.{
  is_unsuccessful, outcome_status-is_done, stop-unsuccessful-visit_stage,
}

not_completed : (s : JobStatus) → is_unsuccessful s ≡ true → s ≢ JobStatus.completed
not_completed s u e = ground arith

-- No handler ends by the user's cancellation while it is running.
abbrev pub NoLiveCancellation : Environment → Type 0
NoLiveCancellation env =
    (key : String) (handler : Context → Effect × HandlerEnd) (ctx : Context)
    → env.handler key ≡ some handler
    → (handler ctx).1 ≢ stage_cancelled

abbrev settled : Option Progress → Bool
settled none = true
settled (some p) = is_done p.0

-- The job has no step of the key, or the step is done.
abbrev pub settled_at : String → Context → Bool
settled_at k ctx = settled (progress_at k ctx)

settled-map_option :
    (f : Step → Step) (o : Option Step)
    → ((s : Step) → is_done (f s).status ≡ true)
    → settled (map_option progress_of (map_option f o)) ≡ true
settled-map_option f none done = refl
settled-map_option f (some s) done = done s

settled-finish_stage :
    (env : Environment) (stage : StageDefinition) (o : StageOutcome) (ctx : Context)
    → settled_at stage.key (finish_stage env stage o ctx) ≡ true
settled-finish_stage env stage o ctx =
    unfold finish_stage in
    ap (λ (s : Option Step). settled (map_option progress_of s))
      (find_step-update_step_self stage.key _ ctx.job.steps (λ s. refl))
    ∙ settled-map_option _ (find_step stage.key ctx.job.steps)
        (λ s. outcome_status-is_done o.status)

-- With the stage's own key or another.
settled-finish_stage_any :
    (env : Environment) (stage : StageDefinition) (o : StageOutcome) (ctx : Context) (k : String)
    → (stage.key ≢ k → settled_at k ctx ≡ true)
    → settled_at k (finish_stage env stage o ctx) ≡ true
settled-finish_stage_any env stage o ctx k h = elim (Bool-cases (str_eq stage.key k)) [
  | inl same ↦
      subst (λ (j : String). settled_at j (finish_stage env stage o ctx) ≡ true)
        ((eq_iff stage.key k).0 same) (settled-finish_stage env stage o ctx)
  | inr other ↦
      let ne : stage.key ≢ k = λ e. false≢true (sym other ∙ (eq_iff stage.key k).1 e) in
      ap settled (progress-finish_stage k env stage o ctx ne) ∙ h ne
]

-- A stage that ends without a failure and without a cancellation ends by its handler's outcome.
data Finishes (env : Environment) (stage : StageDefinition) (before : Context)
    : Context → Type 0 where
  finishes :
      (o : StageOutcome) (ctx : Context)
      → ((k : String) → stage.key ≢ k → progress_at k ctx ≡ progress_at k before)
      → Finishes env stage before (finish_stage env stage o ctx)

conclude_stage-Finishes :
    (env : Environment) (stage : StageDefinition) (end : HandlerEnd) (before ctx : Context)
    → ((k : String) → stage.key ≢ k → progress_at k ctx ≡ progress_at k before)
    → has_step stage.key ctx ≡ true
    → end ≢ stage_cancelled
    → failed_at stage.key (conclude_stage env stage end ctx) ≡ false
    → is_escape (conclude_stage env stage end ctx).escaped ≡ false
    → Finishes env stage before (conclude_stage env stage end ctx)
unfolding conclude_stage
conclude_stage-Finishes env stage (returned o) before ctx same has live ok kept =
    finishes o ctx same
conclude_stage-Finishes env stage (raised e) before ctx same has live ok kept =
    absurd (false≢true (sym ok ∙ failed-handle_failure env stage e ctx has))
conclude_stage-Finishes env stage timed_out before ctx same has live ok kept =
    absurd (false≢true (sym ok ∙ failed-handle_failure env stage (timeout_error env stage) ctx has))
conclude_stage-Finishes env stage (crashed t) before ctx same has live ok kept =
    absurd (false≢true (sym ok ∙ failed-handle_failure env stage (crash_error stage t) ctx has))
conclude_stage-Finishes env stage stage_cancelled before ctx same has live ok kept =
    absurd (live refl)
conclude_stage-Finishes env stage (escapes e) before ctx same has live ok kept =
    absurd (false≢true (sym kept))

module _ (env : Environment) (live : NoLiveCancellation env) where
  run_handler-Finishes :
      (stage : StageDefinition) (handler : Option (Context → Effect × HandlerEnd))
      (before ctx : Context)
      → env.handler stage.key ≡ handler
      → ((k : String) → stage.key ≢ k → progress_at k ctx ≡ progress_at k before)
      → has_step stage.key ctx ≡ true
      → failed_at stage.key (run_handler env stage handler ctx) ≡ false
      → is_escape (run_handler env stage handler ctx).escaped ≡ false
      → Finishes env stage before (run_handler env stage handler ctx)
  unfolding run_handler
  run_handler-Finishes stage none before ctx e same has ok kept =
      absurd
        (false≢true (sym ok ∙ failed-handle_failure env stage (no_handler_error stage) ctx has))
  run_handler-Finishes stage (some handler) before ctx e same has ok kept =
      conclude_stage-Finishes env stage (handler ctx).1 before
        (apply_handler stage.key (handler ctx).0 ctx)
        (λ k ne. progress-apply_handler k stage.key (handler ctx).0 ctx ne ∙ same k ne)
        (has_step-apply_handler stage.key (handler ctx).0 ctx has) (live stage.key handler ctx e) ok
        kept

  run_stage-Finishes :
      (stage : StageDefinition) (ctx : Context)
      → has_step stage.key ctx ≡ true
      → failed_at stage.key (run_stage env stage ctx) ≡ false
      → is_escape (run_stage env stage ctx).escaped ≡ false
      → Finishes env stage ctx (run_stage env stage ctx)
  run_stage-Finishes stage ctx has ok kept =
      unfold run_stage in
      run_handler-Finishes stage (env.handler stage.key) ctx (begin_stage env stage ctx) refl
        (λ k ne. progress-begin_stage k env stage ctx ne) (has_step-begin_stage env stage ctx has)
        ok kept

  Finishes-settles :
      (stage : StageDefinition) (before : Context) {after : Context} (k : String)
      → Finishes env stage before after
      → (settled_at stage.key after ≡ true)
        × (settled_at k before ≡ true → settled_at k after ≡ true)
  Finishes-settles stage before k (finishes o ctx same) = (
    settled-finish_stage env stage o ctx,
    λ h. settled-finish_stage_any env stage o ctx k (λ ne. ap settled (same k ne) ∙ h),
  )

  visit_open_on :
      (stage : StageDefinition) (ctx : Context)
      → (visit_open env stage ctx).0 ≡ true
      → (failed_at stage.key (run_stage env stage (refresh env stage.key ctx)) ≡ false)
        × (is_escape (run_stage env stage (refresh env stage.key ctx)).escaped ≡ false)
        × ((visit_open env stage ctx).1 ≡ run_stage env stage (refresh env stage.key ctx))
  unfolding visit_open
  visit_open_on stage ctx on = ground arith

  -- A round that lets the loop go on leaves its stage done, and keeps every stage done that was.
  visit_open-settles :
      (stage : StageDefinition) (ctx : Context) (k : String)
      → has_step stage.key ctx ≡ true
      → (visit_open env stage ctx).0 ≡ true
      → (settled_at stage.key (visit_open env stage ctx).1 ≡ true)
        × (settled_at k ctx ≡ true → settled_at k (visit_open env stage ctx).1 ≡ true)
  visit_open-settles stage ctx k has on =
      let (ok, kept, ran) = visit_open_on stage ctx on in
      subst
        (λ (c : Context).
          (settled_at stage.key c ≡ true) × (settled_at k ctx ≡ true → settled_at k c ≡ true))
        (sym ran)
        (Finishes-settles stage (refresh env stage.key ctx) k
          (run_stage-Finishes stage (refresh env stage.key ctx) has ok kept))

  visit_stage-settles :
      (stage : StageDefinition) (found : Option Step) (ctx : Context) (k : String)
      → find_step stage.key ctx.job.steps ≡ found
      → (visit_stage env stage found ctx).0 ≡ true
      → (settled_at stage.key (visit_stage env stage found ctx).1 ≡ true)
        × (settled_at k ctx ≡ true → settled_at k (visit_stage env stage found ctx).1 ≡ true)
  unfolding visit_stage
  visit_stage-settles stage none ctx k e on =
      (ap (λ (s : Option Step). settled (map_option progress_of s)) e, λ h. h)
  visit_stage-settles stage (some step) ctx k e on = elim (Bool-cases (is_done step.status)) [
    | inl done ↦
        rw done (ap (λ (s : Option Step). settled (map_option progress_of s)) e ∙ done, λ h. h)
    | inr more ↦ rw more (visit_open-settles stage ctx k (ap is_some e) (rw more at on))
  ]

  -- A completed run has let the loop go on at its first stage.
  completed_on :
      (stage : StageDefinition) (rest : List StageDefinition) (ctx : Context)
      → (run_stages env (stage ∷ rest) ctx).job.status ≡ JobStatus.completed
      → is_escape (run_stages env (stage ∷ rest) ctx).escaped ≡ false
      → (visit_stage env stage (find_step stage.key ctx.job.steps) ctx).0 ≡ true
  completed_on stage rest ctx h left =
      let found = find_step stage.key ctx.job.steps in
      elim (Bool-cases (visit_stage env stage found ctx).0) [
        | inl on ↦ on
        | inr off ↦ absurd (
            not_completed _
              (stop-unsuccessful-visit_stage env stage found ctx off
                (rw (run_stages_off env stage rest ctx off) at left))
              (rw (run_stages_off env stage rest ctx off) at h))
      ]

  run_stages-settles :
      (stages : List StageDefinition) (ctx : Context) (k : String)
      → (run_stages env stages ctx).job.status ≡ JobStatus.completed
      → is_escape (run_stages env stages ctx).escaped ≡ false
      → settled_at k ctx ≡ true
      → settled_at k (run_stages env stages ctx) ≡ true
  run_stages-settles [] ctx k h left s =
      unfold run_stages in ap settled (progress-finalize_success k env ctx) ∙ s
  run_stages-settles (stage ∷ rest) ctx k h left s =
      let on = completed_on stage rest ctx h left in
      let next = run_stages_on env stage rest ctx on in
      let kept =
        (visit_stage-settles stage (find_step stage.key ctx.job.steps) ctx k refl on).1 s in
      rw next (run_stages-settles rest _ k (rw next at h) (rw next at left) kept)

  run_stages-All_settled :
      (stages : List StageDefinition) (ctx : Context)
      → (run_stages env stages ctx).job.status ≡ JobStatus.completed
      → is_escape (run_stages env stages ctx).escaped ≡ false
      → All (λ (s : StageDefinition). settled_at s.key (run_stages env stages ctx) ≡ true) stages
  run_stages-All_settled [] ctx h left = tt
  run_stages-All_settled (stage ∷ rest) ctx h left =
      let on = completed_on stage rest ctx h left in
      let next = run_stages_on env stage rest ctx on in
      let found = find_step stage.key ctx.job.steps in
      let done = (visit_stage-settles stage found ctx stage.key refl on).0 in
      subst
        (λ (c : Context). All (λ (s : StageDefinition). settled_at s.key c ≡ true) (stage ∷ rest))
        (sym next)
        (
          run_stages-settles rest (visit_stage env stage found ctx).1 stage.key (rw next at h)
              (rw next at left) done,
          run_stages-All_settled rest (visit_stage env stage found ctx).1 (rw next at h)
              (rw next at left),
        )

-- If no stage is cancelled while it is running, a run from which no exception escapes and that leaves
-- the job COMPLETED leaves every stage that the job has a step for done: SUCCEEDED, SKIPPED, WARNING or NOT_APPLICABLE.
pub completed-All_settled :
    (env : Environment) (ctx : Context)
    → NoLiveCancellation env
    → is_escape (execute env ctx).escaped ≡ false
    → (execute env ctx).job.status ≡ JobStatus.completed
    → All (λ (s : StageDefinition). settled_at s.key (execute env ctx) ≡ true) ordered_stages
unfolding execute
completed-All_settled env ctx live left h =
    run_stages-All_settled env live ordered_stages ctx h left
