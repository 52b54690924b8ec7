-- ===== src/Pipeline/Stage/Failure.antt =====
-- The failure of a stage: `_handle_failure` and `_attach_console_screenshot` of
-- backend/app/workers/pipeline.py.
use infra_ops.Prelude.{
  ℕ, Bool, ◌&&◌, String, List, [], ◌∷◌, Option, none, some, concat, clip, or_else, str_eq, str_mem,
  strip, if◌then◌else◌,
}
use infra_ops.Prelude.Int.{pos}
use infra_ops.Prelude.Json.{num, str, insert}
use infra_ops.Jobs.{
  Job, JobStatus, Step, StepStatus, InfrastructureStatus, GuestOsStatus, VmwareToolsStatus,
  GuestProvisioningStatus, is_succeeded_or_skipped, find_step, step_status_in, update_step,
}
use infra_ops.Stages.{StageDefinition, console_stages}
use infra_ops.Pipeline.Context.{
  Context, Environment, InfraError, summary, on_job, on_step, stamp_duration, record_event,
  publish_stage, notify_requester, failed_message, job_failed,
}
use infra_ops.Pipeline.Media.{require_vm_id, release_unattended_media}
use infra_ops.Pipeline.Stage.Finish.{refresh_progress}

-- The assignments to the step when the capture returns a path.
abbrev pub add_screenshot : String → Step → Step
add_screenshot path s = record s {
  artifacts = insert "console_screenshot" (str path) s.artifacts;
  error_technical = some (
      strip (
        concat (or_else s.error_technical "" ∷ "\n\nConsole screenshot at failure: " ∷ path ∷ [])));
}

-- What follows the capture, by the path that it returned.
unfoldable pub save_screenshot : String → Option String → Context → Context
unfolding update_step
save_screenshot key none ctx = ctx
save_screenshot key (some path) ctx = on_step key (add_screenshot path) ctx

-- `_attach_console_screenshot`: a call that fails changes nothing but the cached reference.
unfoldable pub attach_console_screenshot : Environment → String → Context → Context
unfolding require_vm_id save_screenshot
attach_console_screenshot env key ctx =
    let (found, ctx') = require_vm_id ctx in
    save_screenshot key (elim found [ none ↦ none | some vm ↦ env.screenshot vm ]) ctx'

-- The component statuses that a failed stage marks.
unfoldable pub mark_components : String → Job → Job
mark_components key j =
    if str_mem key ("create_vm" ∷ "configure_hardware" ∷ "attach_network_adapter" ∷ [])
    then record j { infrastructure_status = InfrastructureStatus.failed }
    else if str_eq key "wait_for_guest_os"
    then record j {
      guest_os_status = GuestOsStatus.error;
      guest_provisioning_status = GuestProvisioningStatus.failed;
    }
    else if str_eq key "wait_for_tools"
    then record j {
      vmware_tools_status = VmwareToolsStatus.error;
      guest_provisioning_status = GuestProvisioningStatus.failed;
    }
    else if str_mem key (
        "add_data_disks" ∷ "initialize_data_disks" ∷ "configure_guest_network" ∷ "validate_network"
        ∷ "configure_hostname" ∷ "join_domain" ∷ "reboot_guest" ∷ "wait_guest_ready" ∷ [])
    then record j { guest_provisioning_status = GuestProvisioningStatus.failed }
    else j

abbrev pub error_human_text : InfraError → String
error_human_text e = concat (
    e.human_message ∷ "\n\nReason:\n" ∷ e.reason ∷ "\n\nRecommended action:\n"
    ∷ e.recommended_action ∷ [])

abbrev pub error_detail_text : InfraError → Option String → String
error_detail_text e technical = clip 6000 (
    concat (
      e.human_message
      ∷ "\nReason: "
      ∷ e.reason
      ∷ "\nRecommended action: "
      ∷ e.recommended_action
      ∷ "\n\nTechnical detail:\n"
      ∷ or_else technical ""
      ∷ []))

-- `step.error_technical` of a key; `none` where it has no step.
abbrev pub error_technical_of : String → List Step → Option String
error_technical_of key steps = elim (find_step key steps) [
  | none ↦ none
  | some s ↦ s.error_technical
]

-- The assignments of `_handle_failure` to the step.
abbrev pub failed_fields : Environment → StageDefinition → InfraError → Step → Step
failed_fields env stage failure s = record s {
  status = StepStatus.failed;
  finished_at = some (env.stage_finished stage.key);
  retryable = failure.retryable && stage.retryable;
  error_human = some (error_human_text failure);
  error_technical = some failure.technical_detail;
}

unfoldable pub fail_step : Environment → StageDefinition → InfraError → Context → Context
unfolding update_step
fail_step env stage failure ctx = on_step stage.key (failed_fields env stage failure) ctx

-- The assignments of `_handle_failure` to the job.
unfoldable pub fail_job :
    Environment → StageDefinition → InfraError → Bool → Option String → Job → Job
unfolding mark_components
fail_job env stage failure vm_created technical j =
    let marked = mark_components stage.key (record j {
      status = if vm_created then JobStatus.partially_completed else JobStatus.failed;
    }) in
    refresh_progress (
      stamp_duration (env.stage_finished stage.key) (record marked {
        error_summary = some failure.human_message;
        error_detail = some (error_detail_text failure technical);
        current_stage = some stage.key;
        finished_at = some (env.stage_finished stage.key);
      }))

-- The notification, the audit event and the live event of a failure.
unfoldable pub report_failure : StageDefinition → InfraError → Context → Context
unfolding notify_requester failed_message summary
report_failure stage failure ctx =
    let notified =
      notify_requester job_failed
        (failed_message ctx.job stage.name
          (concat (failure.human_message ∷ " " ∷ failure.reason ∷ [])))
        ctx in
    let attempt : ℕ = elim (find_step stage.key ctx.job.steps) [ none ↦ 0 | some s ↦ s.attempt ] in
    publish_stage (some stage.key) "FAILED" failure.human_message (
      record_event
        (record {
          action = "JOB_STAGE_FAILED";
          resource_name = stage.name;
          job_id = some ctx.job.id;
          username = ctx.actor_username;
          datacenter_id = some ctx.request_datacenter_id;
          datacenter_name = ctx.job.datacenter_name;
          result = "failure";
          details = ("stage", str stage.key) ∷ ("attempt", num (pos attempt)) ∷ [];
          detail_text = some (summary failure);
        })
        notified)

abbrev pub vm_created : Context → Bool
vm_created ctx = step_status_in is_succeeded_or_skipped "create_vm" ctx.job.steps

-- The step marked FAILED, with the console screenshot of a stage that Windows Setup owns.
unfoldable pub show_failure : Environment → StageDefinition → InfraError → Context → Context
unfolding fail_step attach_console_screenshot console_stages
show_failure env stage failure ctx =
    let failed = fail_step env stage failure ctx in
    if vm_created failed && str_mem stage.key console_stages
    then attach_console_screenshot env stage.key failed
    else failed

-- `_handle_failure` up to the job's fields. `vm_created` is read after the step is marked FAILED.
unfoldable pub mark_failed : Environment → StageDefinition → InfraError → Context → Context
unfolding show_failure fail_job
mark_failed env stage failure ctx =
    let shown = show_failure env stage failure ctx in
    on_job
      (fail_job env stage failure (vm_created (fail_step env stage failure ctx))
        (error_technical_of stage.key shown.job.steps))
      shown

-- `_handle_failure`
unfoldable pub handle_failure : Environment → StageDefinition → InfraError → Context → Context
unfolding mark_failed report_failure release_unattended_media
handle_failure env stage failure ctx =
    report_failure stage failure
      (release_unattended_media env (concat ("stage '" ∷ stage.key ∷ "' failed" ∷ []))
        (mark_failed env stage failure ctx)).1
