-- ===== src/Pipeline/StepProgress.antt =====
-- The progress of a step, and the operations of a run that leave it alone.
use infra_ops.Prelude.{
  ℕ, true, false, String, List, Option, none, some, ◌≡◌, ◌≢◌, refl, ap, ◌∙◌, arith,
}
use infra_ops.Jobs.{Job, Step, StepStatus, is_done, is_open, find_step, update_step, Artifacts}
use infra_ops.Jobs.Steps.Lookup.{KeepsKey, map_option, find_step-update_step_ne, find_step-map}
use infra_ops.Stages.{StageDefinition}
use infra_ops.Pipeline.Context.{
  Context, Environment, Effect, InfraError, StageOutcome, apply_effect, apply_handler,
  write_artifacts, notify_requester,
}
use infra_ops.Pipeline.Media.{require_vm_id, after_removal, release_unattended_media}
use infra_ops.Pipeline.Stage.{
  begin_stage, finish_stage, fail_step, attach_console_screenshot, add_screenshot, save_screenshot,
  report_failure, handle_failure, show_failure, mark_failed, apply_cancellation, cancel_open_at,
  vm_created, error_technical_of,
}
use infra_ops.Pipeline.Frame.{job-require_vm_id, steps-fail_job, steps-cancel_row}
use infra_ops.Pipeline.Run.{finalize_success}

-- The status, the attempts, the times and the output of a step.
abbrev pub Progress : Type 0
Progress = StepStatus × ℕ × Option ℕ × Option ℕ × Option String

abbrev pub progress_of : Step → Progress
progress_of s = (s.status, s.attempt, s.started_at, s.finished_at, s.output)

abbrev pub steps_progress : String → List Step → Option Progress
steps_progress k ss = map_option progress_of (find_step k ss)

abbrev pub progress_at : String → Context → Option Progress
progress_at k ctx = steps_progress k ctx.job.steps

map_option-write_artifacts :
    (f : String → Artifacts → Artifacts) (o : Option Step)
    → map_option progress_of (map_option (write_artifacts f) o) ≡ map_option progress_of o
map_option-write_artifacts f none = refl
map_option-write_artifacts f (some s) = refl

pub done_not_open : (s : StepStatus) → is_done s ≡ true → is_open s ≡ false
done_not_open s d = ground arith

-- A cancellation leaves a step that is neither pending nor running.
map_option-cancel_open_at :
    (now : ℕ) (o : Option Step) (p : Progress)
    → map_option progress_of o ≡ some p
    → is_open p.0 ≡ false
    → map_option progress_of (map_option (cancel_open_at now) o) ≡ some p
map_option-cancel_open_at now none p h d = cc
map_option-cancel_open_at now (some s) p h d = ground arith

cancel_open_at-KeepsKey : (now : ℕ) → KeepsKey (cancel_open_at now)
cancel_open_at-KeepsKey now s = ground arith

module _ (k : String) where
  pub steps_progress_ne :
      (j : String) (f : Step → Step) (ss : List Step)
      → KeepsKey f
      → j ≢ k
      → steps_progress k (update_step j f ss) ≡ steps_progress k ss
  steps_progress_ne j f ss keeps ne =
      ap (map_option progress_of) (find_step-update_step_ne k j f ss keeps ne)

  progress-apply_effect :
      (e : Effect) (ctx : Context) → progress_at k (apply_effect e ctx) ≡ progress_at k ctx
  unfolding apply_effect
  progress-apply_effect e ctx =
      rw (find_step-map k (write_artifacts e.artifacts) ctx.job.steps (λ s. refl))
        (map_option-write_artifacts e.artifacts (find_step k ctx.job.steps))

  pub progress-apply_handler :
      (key : String) (e : Effect) (ctx : Context)
      → key ≢ k
      → progress_at k (apply_handler key e ctx) ≡ progress_at k ctx
  progress-apply_handler key e ctx ne =
      unfold apply_handler in
      steps_progress_ne key _ (apply_effect e ctx).job.steps (λ s. refl) ne
      ∙ progress-apply_effect e ctx

  pub progress-begin_stage :
      (env : Environment) (stage : StageDefinition) (ctx : Context)
      → stage.key ≢ k
      → progress_at k (begin_stage env stage ctx) ≡ progress_at k ctx
  unfolding begin_stage
  progress-begin_stage env stage ctx ne = steps_progress_ne stage.key _ ctx.job.steps (λ s. refl) ne

  pub progress-finish_stage :
      (env : Environment) (stage : StageDefinition) (o : StageOutcome) (ctx : Context)
      → stage.key ≢ k
      → progress_at k (finish_stage env stage o ctx) ≡ progress_at k ctx
  unfolding finish_stage
  progress-finish_stage env stage o ctx ne =
      steps_progress_ne stage.key _ ctx.job.steps (λ s. refl) ne

  progress-require_vm_id : (ctx : Context) → progress_at k (require_vm_id ctx).1 ≡ progress_at k ctx
  progress-require_vm_id ctx = ap (λ (j : Job). steps_progress k j.steps) (job-require_vm_id ctx)

  progress-save_screenshot :
      (j : String) (path : Option String) (ctx : Context)
      → j ≢ k
      → progress_at k (save_screenshot j path ctx) ≡ progress_at k ctx
  unfolding save_screenshot
  progress-save_screenshot j none ctx ne = refl
  progress-save_screenshot j (some path) ctx ne =
      steps_progress_ne j (add_screenshot path) ctx.job.steps (λ s. refl) ne

  progress-attach_console_screenshot :
      (env : Environment) (j : String) (ctx : Context)
      → j ≢ k
      → progress_at k (attach_console_screenshot env j ctx) ≡ progress_at k ctx
  progress-attach_console_screenshot env j ctx ne =
      unfold attach_console_screenshot in
      progress-save_screenshot j _ (require_vm_id ctx).1 ne ∙ progress-require_vm_id ctx

  progress-after_removal :
      (reason : String) (ctx : Context)
      → "prepare_unattended_install" ≢ k
      → progress_at k (after_removal reason ctx) ≡ progress_at k ctx
  unfolding after_removal
  progress-after_removal reason ctx ne =
      steps_progress_ne "prepare_unattended_install" _ ctx.job.steps (λ s. ground arith) ne

  progress-release_unattended_media :
      (env : Environment) (reason : String) (ctx : Context)
      → "prepare_unattended_install" ≢ k
      → progress_at k (release_unattended_media env reason ctx).1 ≡ progress_at k ctx
  unfolding release_unattended_media
  progress-release_unattended_media env reason ctx ne =
      ground (arith, job-require_vm_id ctx, progress-after_removal reason (require_vm_id ctx).1 ne)

  progress-report_failure :
      (stage : StageDefinition) (e : InfraError) (ctx : Context)
      → progress_at k (report_failure stage e ctx) ≡ progress_at k ctx
  unfolding report_failure notify_requester
  progress-report_failure stage e ctx = ground arith

  progress-fail_step :
      (env : Environment) (stage : StageDefinition) (e : InfraError) (ctx : Context)
      → stage.key ≢ k
      → progress_at k (fail_step env stage e ctx) ≡ progress_at k ctx
  unfolding fail_step
  progress-fail_step env stage e ctx ne = steps_progress_ne stage.key _ ctx.job.steps (λ s. refl) ne

  progress-show_failure :
      (env : Environment) (stage : StageDefinition) (e : InfraError) (ctx : Context)
      → stage.key ≢ k
      → progress_at k (show_failure env stage e ctx) ≡ progress_at k ctx
  progress-show_failure env stage e ctx ne =
      unfold show_failure in
      ground (
        arith,
        progress-fail_step env stage e ctx ne,
        progress-attach_console_screenshot env stage.key (fail_step env stage e ctx) ne,
      )

  progress-mark_failed :
      (env : Environment) (stage : StageDefinition) (e : InfraError) (ctx : Context)
      → stage.key ≢ k
      → progress_at k (mark_failed env stage e ctx) ≡ progress_at k ctx
  progress-mark_failed env stage e ctx ne =
      unfold mark_failed in
      ap (steps_progress k) (
        steps-fail_job env stage e (vm_created (fail_step env stage e ctx))
          (error_technical_of stage.key (show_failure env stage e ctx).job.steps)
          (show_failure env stage e ctx).job)
      ∙ progress-show_failure env stage e ctx ne

  pub progress-handle_failure :
      (env : Environment) (stage : StageDefinition) (e : InfraError) (ctx : Context)
      → stage.key ≢ k
      → "prepare_unattended_install" ≢ k
      → progress_at k (handle_failure env stage e ctx) ≡ progress_at k ctx
  progress-handle_failure env stage e ctx ne np =
      unfold handle_failure in
      progress-report_failure stage e _
      ∙ progress-release_unattended_media env _ (mark_failed env stage e ctx) np
      ∙ progress-mark_failed env stage e ctx ne

  pub progress-apply_cancellation :
      (env : Environment) (ctx : Context) (p : Progress)
      → "prepare_unattended_install" ≢ k
      → is_open p.0 ≡ false
      → progress_at k ctx ≡ some p
      → progress_at k (apply_cancellation env ctx) ≡ some p
  progress-apply_cancellation env ctx p np d h =
      unfold apply_cancellation in
      ap (steps_progress k)
        (steps-cancel_row env.run_finished (release_unattended_media env "job cancelled" ctx).1.job)
      ∙ rw
          (find_step-map k (cancel_open_at env.run_finished) _
            (cancel_open_at-KeepsKey env.run_finished))
          (map_option-cancel_open_at env.run_finished _ p
            (progress-release_unattended_media env "job cancelled" ctx np ∙ h) d)

  pub progress-finalize_success :
      (env : Environment) (ctx : Context)
      → progress_at k (finalize_success env ctx) ≡ progress_at k ctx
  unfolding finalize_success notify_requester
  progress-finalize_success env ctx = ground arith
