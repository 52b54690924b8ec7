-- ===== src/Pipeline/Failed.antt =====
-- A stage that fails leaves its step FAILED, through everything that `_handle_failure` does after.
use infra_ops.Prelude.{
  Bool, true, String, List, [], ◌∷◌, Option, none, some, ◌≡◌, refl, ap, ◌∙◌, arith, is_some,
}
use infra_ops.Prelude.Json.{Json}
use infra_ops.Jobs.{
  Job, Step, StepStatus, is_step_failed, find_step, update_step, step_status_in, status_in,
}
use infra_ops.Jobs.Steps.Lookup.{KeepsKey, map_option, find_step-update_step_self, find_step-map}
use infra_ops.Stages.{StageDefinition}
use infra_ops.Pipeline.Context.{
  Context, Environment, InfraError, Effect, apply_effect, apply_handler, write_artifacts,
  notify_requester,
}
use infra_ops.Pipeline.Media.{
  require_vm_id, after_removal, remove_from, release_unattended_media, datastore_path,
}
use infra_ops.Pipeline.Frame.{job-require_vm_id, steps-fail_job}
use infra_ops.Pipeline.Stage.{
  begin_stage, fail_step, show_failure, mark_failed, attach_console_screenshot, save_screenshot,
  add_screenshot, report_failure, handle_failure, vm_created, error_technical_of,
}

abbrev pub has_step : String → Context → Bool
has_step k ctx = is_some (find_step k ctx.job.steps)

abbrev pub failed_in : String → List Step → Bool
failed_in k ss = step_status_in is_step_failed k ss

abbrev pub failed_at : String → Context → Bool
failed_at k ctx = failed_in k ctx.job.steps

has_step-map_option :
    (f : Step → Step) (o : Option Step) → is_some o ≡ true → is_some (map_option f o) ≡ true
has_step-map_option f none h = h
has_step-map_option f (some s) h = refl

pub has_step-begin_stage :
    (env : Environment) (stage : StageDefinition) (ctx : Context)
    → has_step stage.key ctx ≡ true
    → has_step stage.key (begin_stage env stage ctx) ≡ true
has_step-begin_stage env stage ctx h =
    unfold begin_stage in
    ap is_some (find_step-update_step_self stage.key _ ctx.job.steps (λ s. refl))
    ∙ has_step-map_option _ (find_step stage.key ctx.job.steps) h

has_step-apply_effect :
    (k : String) (e : Effect) (ctx : Context)
    → has_step k ctx ≡ true
    → has_step k (apply_effect e ctx) ≡ true
has_step-apply_effect k e ctx h =
    unfold apply_effect in
    ap is_some (find_step-map k (write_artifacts e.artifacts) ctx.job.steps (λ s. refl))
    ∙ has_step-map_option _ (find_step k ctx.job.steps) h

pub has_step-apply_handler :
    (k : String) (e : Effect) (ctx : Context)
    → has_step k ctx ≡ true
    → has_step k (apply_handler k e ctx) ≡ true
has_step-apply_handler k e ctx h =
    unfold apply_handler in
    ap is_some (find_step-update_step_self k _ (apply_effect e ctx).job.steps (λ s. refl))
    ∙ has_step-map_option _ (find_step k (apply_effect e ctx).job.steps)
        (has_step-apply_effect k e ctx h)

failed-update_step :
    (k j : String) (f : Step → Step) (ss : List Step)
    → KeepsKey f
    → ((s : Step) → is_step_failed s.status ≡ true → is_step_failed (f s).status ≡ true)
    → failed_in k ss ≡ true
    → failed_in k (update_step j f ss) ≡ true
unfolding find_step update_step
failed-update_step k j f [] keeps same h = h
failed-update_step k j f (s ∷ ss) keeps same h =
    ground (arith, keeps s, same s, failed-update_step k j f ss keeps same)

module _ (k : String) where
  failed-save_screenshot :
      (j : String) (path : Option String) (ctx : Context)
      → failed_at k ctx ≡ true
      → failed_at k (save_screenshot j path ctx) ≡ true
  unfolding save_screenshot
  failed-save_screenshot j none ctx h = h
  failed-save_screenshot j (some path) ctx h =
      failed-update_step k j (add_screenshot path) ctx.job.steps (λ s. refl) (λ s p. p) h

  failed-require_vm_id :
      (ctx : Context) → failed_at k ctx ≡ true → failed_at k (require_vm_id ctx).1 ≡ true
  failed-require_vm_id ctx h = ap (λ (j : Job). failed_in k j.steps) (job-require_vm_id ctx) ∙ h

  failed-attach_console_screenshot :
      (env : Environment) (j : String) (ctx : Context)
      → failed_at k ctx ≡ true
      → failed_at k (attach_console_screenshot env j ctx) ≡ true
  failed-attach_console_screenshot env j ctx h =
      unfold attach_console_screenshot in
      failed-save_screenshot j _ (require_vm_id ctx).1 (failed-require_vm_id ctx h)

  failed-after_removal :
      (reason : String) (ctx : Context)
      → failed_at k ctx ≡ true
      → failed_at k (after_removal reason ctx) ≡ true
  failed-after_removal reason ctx h =
      unfold after_removal in
      failed-update_step k "prepare_unattended_install" _ ctx.job.steps (λ s. ground arith)
        (λ s p. ground arith) h

  failed-remove_from :
      (env : Environment) (reason : String) (path : Json) (found : Option Json) (ctx : Context)
      → failed_at k ctx ≡ true
      → failed_at k (remove_from env reason path found ctx).1 ≡ true
  unfolding remove_from
  failed-remove_from env reason path none ctx h = h
  failed-remove_from env reason path (some vm) ctx h =
      ground (arith, failed-after_removal reason ctx h)

  failed-release_unattended_media :
      (env : Environment) (reason : String) (ctx : Context)
      → failed_at k ctx ≡ true
      → failed_at k (release_unattended_media env reason ctx).1 ≡ true
  failed-release_unattended_media env reason ctx h =
      unfold release_unattended_media in
      ground (
        arith,
        failed-remove_from env reason (datastore_path ctx.job.steps) (require_vm_id ctx).0
            (require_vm_id ctx).1 (failed-require_vm_id ctx h),
      )

  failed-report_failure :
      (stage : StageDefinition) (e : InfraError) (ctx : Context)
      → failed_at k (report_failure stage e ctx) ≡ failed_at k ctx
  unfolding report_failure notify_requester
  failed-report_failure stage e ctx = ground arith

status_in-map_option :
    (p : StepStatus → Bool) (f : Step → Step) (o : Option Step)
    → ((s : Step) → p (f s).status ≡ true)
    → is_some o ≡ true
    → status_in p (map_option f o) ≡ true
status_in-map_option p f none always h = cc
status_in-map_option p f (some s) always h = always s

failed-fail_step :
    (env : Environment) (stage : StageDefinition) (e : InfraError) (ctx : Context)
    → has_step stage.key ctx ≡ true
    → failed_at stage.key (fail_step env stage e ctx) ≡ true
failed-fail_step env stage e ctx h =
    unfold fail_step in
    ap (status_in is_step_failed) (find_step-update_step_self stage.key _ ctx.job.steps (λ s. refl))
    ∙ status_in-map_option is_step_failed _ (find_step stage.key ctx.job.steps) (λ s. refl) h

failed-show_failure :
    (env : Environment) (stage : StageDefinition) (e : InfraError) (ctx : Context)
    → has_step stage.key ctx ≡ true
    → failed_at stage.key (show_failure env stage e ctx) ≡ true
failed-show_failure env stage e ctx h =
    let failed = failed-fail_step env stage e ctx h in
    unfold show_failure in
    ground (
      arith,
      failed,
      failed-attach_console_screenshot stage.key env stage.key (fail_step env stage e ctx) failed,
    )

failed-mark_failed :
    (env : Environment) (stage : StageDefinition) (e : InfraError) (ctx : Context)
    → has_step stage.key ctx ≡ true
    → failed_at stage.key (mark_failed env stage e ctx) ≡ true
failed-mark_failed env stage e ctx h =
    unfold mark_failed in
    ap (failed_in stage.key) (
      steps-fail_job env stage e (vm_created (fail_step env stage e ctx))
        (error_technical_of stage.key (show_failure env stage e ctx).job.steps)
        (show_failure env stage e ctx).job)
    ∙ failed-show_failure env stage e ctx h

-- A failure that is handled leaves the step of its stage FAILED.
pub failed-handle_failure :
    (env : Environment) (stage : StageDefinition) (e : InfraError) (ctx : Context)
    → has_step stage.key ctx ≡ true
    → failed_at stage.key (handle_failure env stage e ctx) ≡ true
failed-handle_failure env stage e ctx h =
    let marked = failed-mark_failed env stage e ctx h in
    unfold handle_failure in
    failed-report_failure stage.key stage e _
    ∙ failed-release_unattended_media stage.key env _ (mark_failed env stage e ctx) marked
