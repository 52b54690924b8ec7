-- ===== src/Pipeline/Context.antt =====
-- The context of one run (backend/app/workers/context.py), what the run writes besides the job row
-- (audit events, notifications, live events), and what the run gets from outside: the stage handlers,
-- the clock, the cancel flag in the database and the calls of the VMware adapter.
use infra_ops.Prelude.{ℕ, Bool, String, List, [], ◌∷◌, ◌++◌, Option, none, some, map, concat, clip}
use infra_ops.Prelude.Int.{sub_ℕ}
use infra_ops.Prelude.Json.{Json}
use infra_ops.Jobs.{
  Job, Step, Artifacts, InfrastructureStatus, GuestOsStatus, VmwareToolsStatus,
  GuestProvisioningStatus, update_step,
}

-- InfraOperationError of backend/app/core/errors.py
pub record InfraError : Type 0 where
  pub human_message : String
  pub reason : String
  pub recommended_action : String
  pub technical_detail : String
  pub retryable : Bool

-- InfraOperationError.summary
unfoldable pub summary : InfraError → String
summary e = concat (e.human_message ∷ " Reason: " ∷ e.reason ∷ [])

-- StageOutcome of backend/app/workers/stages.py
pub record StageOutcome : Type 0 where
  pub status : String
  pub output : String
  pub artifacts : Artifacts

-- AuditEvent; `action` is the identifier of AuditAction.
pub record AuditEvent : Type 0 where
  pub action : String
  pub resource_name : String
  pub job_id : Option ℕ
  pub username : Option String
  pub datacenter_id : Option String
  pub datacenter_name : Option String
  pub result : String
  pub details : Artifacts
  pub detail_text : Option String

pub data NotificationKind : Type 0 where
  job_completed job_failed : NotificationKind

pub record Notification : Type 0 where
  pub user_id : ℕ
  pub job_id : ℕ
  pub kind : NotificationKind
  pub title : String
  pub message : String

-- The payload of publish_stage of backend/app/workers/events.py
pub record LiveEvent : Type 0 where
  pub job_id : ℕ
  pub stage : Option String
  pub status : String
  pub progress : ℕ
  pub message : String

-- An exception that leaves `execute` itself: the CancelledError of the run's task, or an error of the
-- database or of the code around the handlers.
pub data Escape : Type 0 where
  task_cancelled unexpected : Escape

-- JobRunContext: the job, the parts of the request that the pipeline reads, the cached VM reference
-- (its identifier), the exception that ended the run, if one did, and the outputs of the run in the
-- order in which they are written.
pub record Context : Type 0 where
  pub job : Job
  pub vm_name : String
  pub request_datacenter_id : String
  pub actor_username : Option String
  pub vm_ref : Option Json
  pub reboot_required : Bool
  pub hostname_changed : Bool
  pub escaped : Option Escape
  pub audit : List AuditEvent
  pub notifications : List Notification
  pub events : List LiveEvent

-- What a stage handler writes. No handler assigns a status, an attempt or a time of a step.
pub record Effect : Type 0 where
  pub artifacts : String → Artifacts → Artifacts
  -- the last text that report_live_status shows as the output of the stage's own step
  pub live_output : Option String
  pub vm_ref : Option Json
  pub datacenter_id : Option String
  pub datacenter_name : Option String
  pub infrastructure_status : InfrastructureStatus
  pub guest_os_status : GuestOsStatus
  pub vmware_tools_status : VmwareToolsStatus
  pub guest_provisioning_status : GuestProvisioningStatus
  pub reboot_required : Bool
  pub hostname_changed : Bool
  pub audit : List AuditEvent
  pub events : List LiveEvent

-- How `_run_handler` ends: the handler's outcome, its InfraOperationError, the timeout, any other
-- exception with its traceback (its last 4000 characters), the user's cancellation, which wins when
-- the cancel event is set first, or an exception that `_run_stage` does not catch. The effect of a
-- handler that an exception escapes is what it has committed.
pub data HandlerEnd : Type 0 where
  returned : StageOutcome → HandlerEnd
  raised : InfraError → HandlerEnd
  timed_out : HandlerEnd
  crashed : String → HandlerEnd
  stage_cancelled : HandlerEnd
  escapes : Escape → HandlerEnd

-- What one run of the pipeline gets from outside.
pub record Environment : Type 0 where
  -- STAGE_HANDLERS.get(key), run under its timeout and the cancel event
  pub handler : String → Option (Context → Effect × HandlerEnd)
  -- the timeout overrides of the platform settings, `none` when they could not be loaded
  pub overrides : Option (List (String × ℕ))
  -- cancel_requested in the database, as the refresh before a stage reads it
  pub cancel_seen : String → Bool
  -- the clock at the start and at the end of a stage, and at the end of the run
  pub stage_started : String → ℕ
  pub stage_finished : String → ℕ
  pub run_finished : ℕ
  -- whether remove_answer_media (VM, path) returns; it may also raise or time out
  pub remove_media : Json → Json → Bool
  -- the path of capture_screenshot (VM), `none` when it raises or times out
  pub screenshot : Json → Option String

abbrev pub write_artifacts : (String → Artifacts → Artifacts) → Step → Step
write_artifacts f s = record s { artifacts = f s.stage_key s.artifacts }

unfoldable pub apply_effect : Effect → Context → Context
apply_effect e ctx =
    let job = ctx.job in
    record ctx {
      job = record job {
        datacenter_id = e.datacenter_id;
        datacenter_name = e.datacenter_name;
        infrastructure_status = e.infrastructure_status;
        guest_os_status = e.guest_os_status;
        vmware_tools_status = e.vmware_tools_status;
        guest_provisioning_status = e.guest_provisioning_status;
        steps = map (write_artifacts e.artifacts) job.steps;
      };
      vm_ref = e.vm_ref;
      reboot_required = e.reboot_required;
      hostname_changed = e.hostname_changed;
      audit = ctx.audit ++ e.audit;
      events = ctx.events ++ e.events;
    }

abbrev pub shown_output : Option String → Option String → Option String
shown_output none output = output
shown_output (some text) output = some text

-- Assignments to fields of the job, and of the step of a key.
abbrev pub on_job : (Job → Job) → Context → Context
on_job f ctx = record ctx { job = f ctx.job }

abbrev pub on_step : String → (Step → Step) → Context → Context
on_step key f ctx = on_job (λ j. record j { steps = update_step key f j.steps }) ctx

-- What a handler writes, the output of its own step included.
unfoldable pub apply_handler : String → Effect → Context → Context
unfolding apply_effect update_step
apply_handler key e ctx =
    on_step key (λ s. record s { output = shown_output e.live_output s.output })
      (apply_effect e ctx)

-- `if job.started_at: job.duration_seconds = (finished_at - job.started_at).total_seconds()`
abbrev pub stamp_duration : ℕ → Job → Job
stamp_duration finished j = elim j.started_at [
  | none ↦ j
  | some started ↦ record j { duration_seconds = some (sub_ℕ finished started) }
]

abbrev pub record_event : AuditEvent → Context → Context
record_event e ctx = record ctx { audit = ctx.audit ++ e ∷ [] }

-- publish_stage for the job of the run.
abbrev pub publish_stage : Option String → String → String → Context → Context
publish_stage stage status message ctx = record ctx {
  events =
      ctx.events
      ++ record {
        job_id = ctx.job.id;
        stage = stage;
        status = status;
        progress = ctx.job.progress;
        message = message;
      }
        ∷ [];
}

-- notify_requester of backend/app/services/notifications.py
unfoldable pub notify_requester : NotificationKind → String × String → Context → Context
notify_requester kind (title, message) ctx = elim ctx.job.requested_by_user_id [
  | none ↦ ctx
  | some user ↦ record ctx {
    notifications =
        ctx.notifications
        ++ record {
          user_id = user;
          job_id = ctx.job.id;
          kind = kind;
          title = clip 200 title;
          message = clip 2000 message;
        }
          ∷ [];
  }
]

-- failed_message
unfoldable pub failed_message : Job → String → String → String × String
failed_message job stage_name reason = (
  concat (job.vm_name ∷ " deployment failed" ∷ []),
  concat ("'" ∷ stage_name ∷ "' failed: " ∷ reason ∷ []),
)

-- interrupted_message
unfoldable pub interrupted_message : Job → String → String × String
interrupted_message job reason = (
  concat (job.vm_name ∷ " deployment was interrupted" ∷ []),
  concat (reason ∷ " Retry the job; stages that already finished are not repeated." ∷ []),
)
