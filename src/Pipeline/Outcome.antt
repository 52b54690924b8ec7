-- ===== src/Pipeline/Outcome.antt =====
-- How a run ends: the status of the job, and of the step of the stage that was run last.
use infra_ops.Prelude.{
  Bool, true, false, String, List, [], ◌∷◌, Option, none, some, ◌≡◌, ◌≢◌, refl, ap, sym, subst, ◌∙◌,
  not, ◌&&◌, str_eq, eq_iff, arith, if◌then◌else◌, Bool-cases, inl, inr,
}
use mathlib.Core.Bool.{false≢true}
use infra_ops.Jobs.{
  Job, JobStatus, Step, StepStatus, is_done, is_terminal, is_step_failed, find_step, update_step,
  step_status_in, status_in, is_succeeded_or_skipped,
}
use infra_ops.Jobs.Steps.Lookup.{
  KeepsKey, map_option, find_step-update_step_self, find_step-update_step_ne,
}
use infra_ops.Stages.{StageDefinition, ordered_stages}
use infra_ops.Pipeline.Context.{
  Context, Environment, Effect, HandlerEnd, returned, raised, timed_out, crashed, stage_cancelled,
  escapes, InfraError, StageOutcome, apply_handler, notify_requester,
}
use infra_ops.Pipeline.Media.{after_removal, release_unattended_media}
use infra_ops.Pipeline.Stage.{
  begin_stage, outcome_status, finish_stage, failed_fields, fail_step, show_failure, mark_failed,
  fail_job, report_failure, handle_failure, apply_cancellation, cancel_row, mark_stage_cancelled,
  cancel_stage, conclude_stage, run_handler, run_stage, mark_components, vm_created,
  error_technical_of, no_handler_error, timeout_error, crash_error,
}
use infra_ops.Pipeline.Frame.{job-require_vm_id}
use infra_ops.Pipeline.Run.{
  refresh, is_escape, visit_open, visit_stage, run_stages, execute, finalize_success,
}

-- The statuses of a job that a run gave up: PARTIALLY_COMPLETED, FAILED and CANCELLED.
abbrev pub is_unsuccessful : JobStatus → Bool
is_unsuccessful JobStatus.partially_completed = true
is_unsuccessful JobStatus.failed = true
is_unsuccessful JobStatus.cancelled = true
is_unsuccessful _ = false

pub status-release_unattended_media :
    (env : Environment) (reason : String) (ctx : Context)
    → (release_unattended_media env reason ctx).1.job.status ≡ ctx.job.status
unfolding release_unattended_media after_removal
status-release_unattended_media env reason ctx = ground (arith, job-require_vm_id ctx)

pub status-apply_cancellation :
    (env : Environment) (ctx : Context)
    → (apply_cancellation env ctx).job.status ≡ JobStatus.cancelled
unfolding apply_cancellation cancel_row
status-apply_cancellation env ctx = ground arith

status-report_failure :
    (stage : StageDefinition) (e : InfraError) (ctx : Context)
    → (report_failure stage e ctx).job.status ≡ ctx.job.status
unfolding report_failure notify_requester
status-report_failure stage e ctx = ground arith

status-mark_components : (key : String) (j : Job) → (mark_components key j).status ≡ j.status
unfolding mark_components
status-mark_components key j = ground arith

status-fail_job :
    (env : Environment) (stage : StageDefinition) (e : InfraError) (b : Bool) (t : Option String)
    (j : Job)
    → (fail_job env stage e b t j).status
      ≡ (if b then JobStatus.partially_completed else JobStatus.failed)
unfolding fail_job
status-fail_job env stage e b t j = ground (
  arith,
  status-mark_components stage.key
      (record j { status = if b then JobStatus.partially_completed else JobStatus.failed }),
)

status-mark_failed :
    (env : Environment) (stage : StageDefinition) (e : InfraError) (ctx : Context)
    → (mark_failed env stage e ctx).job.status ≡ (
        if vm_created (fail_step env stage e ctx)
        then JobStatus.partially_completed
        else JobStatus.failed)
status-mark_failed env stage e ctx =
    unfold mark_failed in
    status-fail_job env stage e (vm_created (fail_step env stage e ctx))
      (error_technical_of stage.key (show_failure env stage e ctx).job.steps)
      (show_failure env stage e ctx).job

failed_status :
    (env : Environment) (stage : StageDefinition) (e : InfraError) (ctx : Context)
    → (handle_failure env stage e ctx).job.status ≡ (
        if vm_created (fail_step env stage e ctx)
        then JobStatus.partially_completed
        else JobStatus.failed)
failed_status env stage e ctx =
    unfold handle_failure in
    status-report_failure stage e _
    ∙ status-release_unattended_media env _ (mark_failed env stage e ctx)
    ∙ status-mark_failed env stage e ctx

pub unsuccessful-handle_failure :
    (env : Environment) (stage : StageDefinition) (e : InfraError) (ctx : Context)
    → is_unsuccessful (handle_failure env stage e ctx).job.status ≡ true
unsuccessful-handle_failure env stage e ctx = ground (arith, failed_status env stage e ctx)

pub outcome_status-is_done : (s : String) → is_done (outcome_status s) ≡ true
unfolding outcome_status
outcome_status-is_done s = ground arith

done_not_failed : (s : StepStatus) → is_done s ≡ true → is_step_failed s ≡ false
done_not_failed s d = ground arith

status_in-map_option :
    (p : StepStatus → Bool) (f : Step → Step) (o : Option Step)
    → ((s : Step) → p (f s).status ≡ false)
    → status_in p (map_option f o) ≡ false
status_in-map_option p f none never = refl
status_in-map_option p f (some s) never = never s

step_status-update_step :
    (p : StepStatus → Bool) (k : String) (f : Step → Step) (ss : List Step)
    → KeepsKey f
    → ((s : Step) → p (f s).status ≡ false)
    → step_status_in p k (update_step k f ss) ≡ false
step_status-update_step p k f ss keeps never =
    ap (status_in p) (find_step-update_step_self k f ss keeps)
    ∙ status_in-map_option p f (find_step k ss) never

-- A stage whose handler returned has not failed.
finish_stage_not_failed :
    (env : Environment) (stage : StageDefinition) (o : StageOutcome) (ctx : Context)
    → step_status_in is_step_failed stage.key (finish_stage env stage o ctx).job.steps ≡ false
finish_stage_not_failed env stage o ctx =
    unfold finish_stage in
    step_status-update_step is_step_failed stage.key _ ctx.job.steps (λ s. refl)
      λ s. done_not_failed (outcome_status o.status) (outcome_status-is_done o.status)

-- Where the step of the stage is FAILED when the stage ends, and no exception is on its way, so has
-- the job.
failed-unsuccessful-conclude_stage :
    (env : Environment) (stage : StageDefinition) (end : HandlerEnd) (ctx : Context)
    → step_status_in is_step_failed stage.key (conclude_stage env stage end ctx).job.steps ≡ true
    → is_escape (conclude_stage env stage end ctx).escaped ≡ false
    → is_unsuccessful (conclude_stage env stage end ctx).job.status ≡ true
unfolding conclude_stage
failed-unsuccessful-conclude_stage env stage (returned o) ctx h kept =
    cc (finish_stage_not_failed env stage o ctx)
failed-unsuccessful-conclude_stage env stage (raised e) ctx h kept =
    unsuccessful-handle_failure env stage e ctx
failed-unsuccessful-conclude_stage env stage timed_out ctx h kept =
    unsuccessful-handle_failure env stage (timeout_error env stage) ctx
failed-unsuccessful-conclude_stage env stage (crashed t) ctx h kept =
    unsuccessful-handle_failure env stage (crash_error stage t) ctx
failed-unsuccessful-conclude_stage env stage stage_cancelled ctx h kept =
    unfold cancel_stage in
    ap is_unsuccessful (status-apply_cancellation env (mark_stage_cancelled env stage ctx))
failed-unsuccessful-conclude_stage env stage (escapes e) ctx h kept = absurd (false≢true (sym kept))

failed-unsuccessful-run_handler :
    (env : Environment) (stage : StageDefinition) (handler : Option (Context → Effect × HandlerEnd))
    (ctx : Context)
    → step_status_in is_step_failed stage.key (run_handler env stage handler ctx).job.steps ≡ true
    → is_escape (run_handler env stage handler ctx).escaped ≡ false
    → is_unsuccessful (run_handler env stage handler ctx).job.status ≡ true
unfolding run_handler
failed-unsuccessful-run_handler env stage none ctx h kept =
    unsuccessful-handle_failure env stage (no_handler_error stage) ctx
failed-unsuccessful-run_handler env stage (some handler) ctx h kept =
    failed-unsuccessful-conclude_stage env stage (handler ctx).1
      (apply_handler stage.key (handler ctx).0 ctx) h kept

failed-unsuccessful-run_stage :
    (env : Environment) (stage : StageDefinition) (ctx : Context)
    → step_status_in is_step_failed stage.key (run_stage env stage ctx).job.steps ≡ true
    → is_escape (run_stage env stage ctx).escaped ≡ false
    → is_unsuccessful (run_stage env stage ctx).job.status ≡ true
unfolding run_stage
failed-unsuccessful-run_stage env stage ctx h kept =
    failed-unsuccessful-run_handler env stage (env.handler stage.key) (begin_stage env stage ctx) h
      kept

-- A round that stops the loop, and in which no exception escapes, has given the job a status of a run that was given up.
stop-unsuccessful-visit_open :
    (env : Environment) (stage : StageDefinition) (ctx : Context)
    → (visit_open env stage ctx).0 ≡ false
    → is_escape (visit_open env stage ctx).1.escaped ≡ false
    → is_unsuccessful (visit_open env stage ctx).1.job.status ≡ true
stop-unsuccessful-visit_open env stage ctx h kept =
    let current = refresh env stage.key ctx in
    unfold visit_open in
    ground (
      arith,
      status-apply_cancellation env current,
      failed-unsuccessful-run_stage env stage current,
    )

pub stop-unsuccessful-visit_stage :
    (env : Environment) (stage : StageDefinition) (found : Option Step) (ctx : Context)
    → (visit_stage env stage found ctx).0 ≡ false
    → is_escape (visit_stage env stage found ctx).1.escaped ≡ false
    → is_unsuccessful (visit_stage env stage found ctx).1.job.status ≡ true
unfolding visit_stage
stop-unsuccessful-visit_stage env stage none ctx h kept = cc
stop-unsuccessful-visit_stage env stage (some step) ctx h kept =
    ground (arith, stop-unsuccessful-visit_open env stage ctx)

pub status-finalize_success :
    (env : Environment) (ctx : Context)
    → (finalize_success env ctx).job.status ≡ JobStatus.completed
unfolding finalize_success notify_requester
status-finalize_success env ctx = ground arith

pub unsuccessful_terminal : (s : JobStatus) → is_unsuccessful s ≡ true → is_terminal s ≡ true
unsuccessful_terminal s h = ground arith

is_terminal-run_stages :
    (env : Environment) (stages : List StageDefinition) (ctx : Context)
    → is_escape (run_stages env stages ctx).escaped ≡ false
    → is_terminal (run_stages env stages ctx).job.status ≡ true
unfolding run_stages
is_terminal-run_stages env [] ctx kept = ap is_terminal (status-finalize_success env ctx)
is_terminal-run_stages env (stage ∷ rest) ctx kept =
    let found = find_step stage.key ctx.job.steps in
    elim (Bool-cases (visit_stage env stage found ctx).0) [
      | inl on ↦
          let left : is_escape (run_stages env rest (visit_stage env stage found ctx).1).escaped
              ≡ false =
            ground (arith, kept, on) in
          rw (on, run_stages)
            (is_terminal-run_stages env rest (visit_stage env stage found ctx).1 left)
      | inr off ↦
          let left : is_escape (visit_stage env stage found ctx).1.escaped ≡ false =
            ground (arith, kept, off) in
          rw (off, run_stages)
            (unsuccessful_terminal _ (stop-unsuccessful-visit_stage env stage found ctx off left))
    ]

-- Every run of the pipeline ends, and unless an exception escapes from it (the CancelledError of its
-- task, or an error around the handlers), it leaves the job COMPLETED, PARTIALLY_COMPLETED, FAILED or
-- CANCELLED, whatever the handlers, the user's cancellations and the adapter calls do.
pub execute-is_terminal :
    (env : Environment) (ctx : Context)
    → is_escape (execute env ctx).escaped ≡ false
    → is_terminal (execute env ctx).job.status ≡ true
execute-is_terminal env ctx kept =
    unfold execute in is_terminal-run_stages env ordered_stages ctx kept

-- Whether the step of the VM creation is SUCCEEDED or SKIPPED.
abbrev is_created_by : Option Step → Bool
is_created_by none = false
is_created_by (some s) = elim s.status [
  | StepStatus.succeeded ↦ true
  | StepStatus.skipped ↦ true
  | _ ↦ false
]

abbrev pub has_vm : Context → Bool
has_vm ctx = is_created_by (find_step "create_vm" ctx.job.steps)

created_by_lem : (o : Option Step) → status_in is_succeeded_or_skipped o ≡ is_created_by o
created_by_lem none = refl
created_by_lem (some s) = ground arith

has_vm-eq-vm_created : (ctx : Context) → vm_created ctx ≡ has_vm ctx
has_vm-eq-vm_created ctx = created_by_lem (find_step "create_vm" ctx.job.steps)

-- The failing stage marks its own step FAILED, and no other.
vm_created-fail_step :
    (env : Environment) (stage : StageDefinition) (e : InfraError) (ctx : Context)
    → vm_created (fail_step env stage e ctx) ≡ (not (str_eq stage.key "create_vm") && has_vm ctx)
vm_created-fail_step env stage e ctx = elim (Bool-cases (str_eq stage.key "create_vm")) [
  | inl same ↦
      let at : stage.key ≡ "create_vm" = (eq_iff stage.key "create_vm").0 same in
      let never =
        step_status-update_step is_succeeded_or_skipped stage.key (failed_fields env stage e)
          ctx.job.steps (λ s. refl) (λ s. refl) in
      let here : vm_created (fail_step env stage e ctx) ≡ false =
        unfold fail_step in
        subst
          (λ (k : String).
            step_status_in is_succeeded_or_skipped k
              (update_step stage.key (failed_fields env stage e) ctx.job.steps)
            ≡ false)
          at never in
      rw same here
  | inr other ↦
      let ne : stage.key ≢ "create_vm" =
        λ h. false≢true (sym other ∙ (eq_iff stage.key "create_vm").1 h) in
      let kept =
        find_step-update_step_ne "create_vm" stage.key (failed_fields env stage e) ctx.job.steps
          (λ s. refl) ne in
      rw other
        (unfold fail_step in ap (status_in is_succeeded_or_skipped) kept ∙ has_vm-eq-vm_created ctx)
]

-- A failure of a stage leaves the job PARTIALLY_COMPLETED if the stage is not the VM creation itself and
-- the step of the VM creation was SUCCEEDED or SKIPPED before, and FAILED otherwise.
pub status-handle_failure :
    (env : Environment) (stage : StageDefinition) (e : InfraError) (ctx : Context)
    → (handle_failure env stage e ctx).job.status ≡ (
        if not (str_eq stage.key "create_vm") && has_vm ctx
        then JobStatus.partially_completed
        else JobStatus.failed)
status-handle_failure env stage e ctx =
    failed_status env stage e ctx
    ∙ ap (λ (b : Bool). if b then JobStatus.partially_completed else JobStatus.failed)
        (vm_created-fail_step env stage e ctx)
