-- ===== src/Pipeline/Identity.antt =====
-- A run of the pipeline leaves the identity of its job alone.
use infra_ops.Prelude.{
  ℕ, ◌≡◌, refl, ap, ◌∙◌, Bool, String, List, [], ◌∷◌, Option, none, some, arith, inl, inr,
  Bool-cases, ◌&&◌, str_mem, if_of_true, if_of_false,
}
use infra_ops.Prelude.Json.{Json}
use infra_ops.Jobs.{Job, Step, find_step, is_done}
use infra_ops.Stages.{StageDefinition, ordered_stages, console_stages}
use infra_ops.Pipeline.Context.{
  Context, Environment, InfraError, StageOutcome, Effect, HandlerEnd, returned, raised, timed_out,
  crashed, stage_cancelled, escapes, apply_effect, apply_handler, notify_requester,
}
use infra_ops.Pipeline.Media.{
  require_vm_id, release_unattended_media, remove_from, after_removal, datastore_path,
  media_recorded,
}
use infra_ops.Pipeline.Stage.{
  begin_stage, finish_stage, attach_console_screenshot, save_screenshot, mark_components, fail_step,
  fail_job, report_failure, show_failure, mark_failed, handle_failure, cancel_row,
  apply_cancellation, mark_stage_cancelled, cancel_stage, conclude_stage, run_handler, run_stage,
  no_handler_error, timeout_error, crash_error, vm_created, error_technical_of,
}
use infra_ops.Pipeline.Run.{refresh, finalize_success, visit_open, visit_stage, run_stages, execute}
use infra_ops.Pipeline.Frame.{run_stages_on, run_stages_off, job-require_vm_id}

-- What names a job: its identifier, its VM, its idempotency key and its reserved address.
abbrev pub Identity : Type 0
Identity = ℕ × String × Option String × Option String

abbrev pub identity : Job → Identity
identity j = (j.id, j.vm_name, j.idempotency_key, j.reserved_ipv4)

identity-remove_from :
    (env : Environment) (reason : String) (path : Json) (vm : Option Json) (ctx : Context)
    → identity (remove_from env reason path vm ctx).1.job ≡ identity ctx.job
unfolding remove_from after_removal
identity-remove_from env reason path none ctx = refl
identity-remove_from env reason path (some vm) ctx = ground arith

pub identity-release_unattended_media :
    (env : Environment) (reason : String) (ctx : Context)
    → identity (release_unattended_media env reason ctx).1.job ≡ identity ctx.job
identity-release_unattended_media env reason ctx =
    let (vm, known) = require_vm_id ctx in
    let path = datastore_path ctx.job.steps in
    elim (Bool-cases (media_recorded ctx.job.steps)) [
      | inl held ↦
          unfold release_unattended_media in
          rw held
            (identity-remove_from env reason path vm known ∙ ap identity (job-require_vm_id ctx))
      | inr none_held ↦ unfold release_unattended_media in rw none_held refl
    ]

identity-begin_stage :
    (env : Environment) (stage : StageDefinition) (ctx : Context)
    → identity (begin_stage env stage ctx).job ≡ identity ctx.job
unfolding begin_stage
identity-begin_stage env stage ctx = refl

identity-finish_stage :
    (env : Environment) (stage : StageDefinition) (o : StageOutcome) (ctx : Context)
    → identity (finish_stage env stage o ctx).job ≡ identity ctx.job
unfolding finish_stage
identity-finish_stage env stage o ctx = refl

identity-mark_components : (key : String) (j : Job) → identity (mark_components key j) ≡ identity j
unfolding mark_components
identity-mark_components key j = ground arith

identity-fail_job :
    (env : Environment) (stage : StageDefinition) (e : InfraError) (b : Bool) (t : Option String)
    (j : Job)
    → identity (fail_job env stage e b t j) ≡ identity j
unfolding fail_job mark_components
identity-fail_job env stage e b t j = ground arith

identity-save_screenshot :
    (key : String) (path : Option String) (ctx : Context)
    → identity (save_screenshot key path ctx).job ≡ identity ctx.job
unfolding save_screenshot
identity-save_screenshot key none ctx = refl
identity-save_screenshot key (some path) ctx = refl

identity-apply_handler :
    (key : String) (e : Effect) (ctx : Context)
    → identity (apply_handler key e ctx).job ≡ identity ctx.job
unfolding apply_handler apply_effect
identity-apply_handler key e ctx = refl

identity-report_failure :
    (stage : StageDefinition) (e : InfraError) (ctx : Context)
    → identity (report_failure stage e ctx).job ≡ identity ctx.job
unfolding report_failure notify_requester
identity-report_failure stage e ctx = ground arith

identity-finalize_success :
    (env : Environment) (ctx : Context) → identity (finalize_success env ctx).job ≡ identity ctx.job
unfolding finalize_success notify_requester
identity-finalize_success env ctx = ground arith

identity-apply_cancellation :
    (env : Environment) (ctx : Context)
    → identity (apply_cancellation env ctx).job ≡ identity ctx.job
identity-apply_cancellation env ctx =
    unfold apply_cancellation cancel_row in
    ground (arith, identity-release_unattended_media env "job cancelled" ctx)

identity-cancel_stage :
    (env : Environment) (stage : StageDefinition) (ctx : Context)
    → identity (cancel_stage env stage ctx).job ≡ identity ctx.job
identity-cancel_stage env stage ctx =
    unfold cancel_stage in identity-apply_cancellation env (mark_stage_cancelled env stage ctx)

identity-attach_console_screenshot :
    (env : Environment) (key : String) (ctx : Context)
    → identity (attach_console_screenshot env key ctx).job ≡ identity ctx.job
unfolding attach_console_screenshot
identity-attach_console_screenshot env key ctx =
    identity-save_screenshot key _ (require_vm_id ctx).1 ∙ ap identity (job-require_vm_id ctx)

identity-show_failure :
    (env : Environment) (stage : StageDefinition) (e : InfraError) (ctx : Context)
    → identity (show_failure env stage e ctx).job ≡ identity ctx.job
unfolding show_failure fail_step
identity-show_failure env stage e ctx =
    let failed = fail_step env stage e ctx in
    elim (Bool-cases (vm_created failed && str_mem stage.key console_stages)) [
      | inl shown ↦
          ap (λ (c : Context). identity c.job) (if_of_true _ _ _ shown)
          ∙ identity-attach_console_screenshot env stage.key failed
      | inr other ↦ ap (λ (c : Context). identity c.job) (if_of_false _ _ _ other)
    ]

identity-handle_failure :
    (env : Environment) (stage : StageDefinition) (e : InfraError) (ctx : Context)
    → identity (handle_failure env stage e ctx).job ≡ identity ctx.job
identity-handle_failure env stage e ctx =
    unfold handle_failure mark_failed in
    identity-report_failure stage e _
    ∙ identity-release_unattended_media env _ (mark_failed env stage e ctx)
    ∙ identity-fail_job env stage e (vm_created (fail_step env stage e ctx))
        (error_technical_of stage.key (show_failure env stage e ctx).job.steps)
        (show_failure env stage e ctx).job
    ∙ identity-show_failure env stage e ctx

identity-conclude_stage :
    (env : Environment) (stage : StageDefinition) (end : HandlerEnd) (ctx : Context)
    → identity (conclude_stage env stage end ctx).job ≡ identity ctx.job
unfolding conclude_stage
identity-conclude_stage env stage (returned o) ctx = identity-finish_stage env stage o ctx
identity-conclude_stage env stage (raised e) ctx = identity-handle_failure env stage e ctx
identity-conclude_stage env stage timed_out ctx =
    identity-handle_failure env stage (timeout_error env stage) ctx
identity-conclude_stage env stage (crashed trace) ctx =
    identity-handle_failure env stage (crash_error stage trace) ctx
identity-conclude_stage env stage stage_cancelled ctx = identity-cancel_stage env stage ctx
identity-conclude_stage env stage (escapes e) ctx = refl

identity-run_handler :
    (env : Environment) (stage : StageDefinition) (handler : Option (Context → Effect × HandlerEnd))
    (ctx : Context)
    → identity (run_handler env stage handler ctx).job ≡ identity ctx.job
unfolding run_handler
identity-run_handler env stage none ctx =
    identity-handle_failure env stage (no_handler_error stage) ctx
identity-run_handler env stage (some handler) ctx =
    identity-conclude_stage env stage (handler ctx).1 (apply_handler stage.key (handler ctx).0 ctx)
    ∙ identity-apply_handler stage.key (handler ctx).0 ctx

identity-run_stage :
    (env : Environment) (stage : StageDefinition) (ctx : Context)
    → identity (run_stage env stage ctx).job ≡ identity ctx.job
identity-run_stage env stage ctx =
    unfold run_stage in
    identity-run_handler env stage (env.handler stage.key) (begin_stage env stage ctx)
    ∙ identity-begin_stage env stage ctx

identity-visit_open :
    (env : Environment) (stage : StageDefinition) (ctx : Context)
    → identity (visit_open env stage ctx).1.job ≡ identity ctx.job
unfolding visit_open
identity-visit_open env stage ctx =
    let current = refresh env stage.key ctx in
    elim (Bool-cases (env.cancel_seen stage.key)) [
      | inl seen ↦
          ap (λ (v : Bool × Context). identity v.1.job)
            (if_of_true (env.cancel_seen stage.key) _ _ seen)
          ∙ identity-apply_cancellation env current
      | inr unseen ↦
          ap (λ (v : Bool × Context). identity v.1.job)
            (if_of_false (env.cancel_seen stage.key) _ _ unseen)
          ∙ identity-run_stage env stage current
    ]

identity-visit_stage :
    (env : Environment) (stage : StageDefinition) (found : Option Step) (ctx : Context)
    → identity (visit_stage env stage found ctx).1.job ≡ identity ctx.job
unfolding visit_stage
identity-visit_stage env stage none ctx = refl
identity-visit_stage env stage (some step) ctx = elim (Bool-cases (is_done step.status)) [
  | inl done ↦ rw done refl
  | inr open_ ↦ rw open_ (identity-visit_open env stage ctx)
]

identity-run_stages :
    (env : Environment) (stages : List StageDefinition) (ctx : Context)
    → identity (run_stages env stages ctx).job ≡ identity ctx.job
identity-run_stages env [] ctx = unfold run_stages in identity-finalize_success env ctx
identity-run_stages env (stage ∷ rest) ctx =
    let found = find_step stage.key ctx.job.steps in
    let visited = identity-visit_stage env stage found ctx in
    elim (Bool-cases (visit_stage env stage found ctx).0) [
      | inl on ↦
          ap (λ (c : Context). identity c.job) (run_stages_on env stage rest ctx on)
          ∙ identity-run_stages env rest (visit_stage env stage found ctx).1
          ∙ visited
      | inr off ↦
          ap (λ (c : Context). identity c.job) (run_stages_off env stage rest ctx off) ∙ visited
    ]

-- Whatever the handlers, the cancellations and the adapter calls do, a run leaves the identifier, the
-- VM name, the idempotency key and the reserved address of its job as they are.
pub execute_keeps_identity :
    (env : Environment) (ctx : Context) → identity (execute env ctx).job ≡ identity ctx.job
unfolding execute
execute_keeps_identity env ctx = identity-run_stages env ordered_stages ctx
