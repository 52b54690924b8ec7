-- ===== src/Pipeline/Media.antt =====
-- `_require_vm_id` and release_unattended_media of backend/app/workers/stages.py: detaching and
-- deleting the answer media, which hold the administrator's password, when a job stops early.
use infra_ops.Prelude.{
  Bool, true, false, ◌&&◌, not, String, List, [], ◌∷◌, Option, none, some, if◌then◌else◌,
}
use infra_ops.Prelude.Json.{Json, null, bool, str, truthy, lookup, insert, holds}
use infra_ops.Jobs.{
  Step, StepStatus, is_succeeded, is_succeeded_or_skipped, find_step, step_status_in, artifacts_of,
  update_step,
}
use infra_ops.Pipeline.Context.{Context, Environment, on_step, record_event}

-- `_require_vm_id`: the identifier and the cached reference; `none` is InfraOperationError.
unfoldable pub require_vm_id : Context → Option Json × Context
unfolding find_step lookup truthy
require_vm_id ctx = elim ctx.vm_ref [
  | some id ↦ (some id, ctx)
  | none ↦ elim (lookup "vm_id" (artifacts_of "create_vm" ctx.job.steps)) [
    | none ↦ (none, ctx)
    | some stored ↦
        if truthy stored then (some stored, record ctx { vm_ref = some stored }) else (none, ctx)
  ]
]

-- The tests above the removal: there is a path, it is not marked removed, the cleanup has not run.
abbrev pub media_recorded : List Step → Bool
media_recorded steps =
    holds "datastore_path" (artifacts_of "prepare_unattended_install" steps)
    && not (holds "media_removed" (artifacts_of "prepare_unattended_install" steps))
    && not (step_status_in is_succeeded "cleanup_unattended_media" steps)

-- `artifacts.update(media_removed=True, media_removed_reason=reason)`
abbrev pub mark_removed : String → Step → Step
mark_removed reason s = record s {
  artifacts =
      insert "media_removed_reason" (str reason) (insert "media_removed" (bool true) s.artifacts);
}

-- The preparation stage is reset when the VM has not booted from the media yet.
abbrev pub reset_prepare : Bool → Step → Step
reset_prepare booted s =
    if is_succeeded s.status && not booted
    then record s {
      status = StepStatus.pending;
      output = some "Answer media removed after the job stopped; it is regenerated on retry.";
    }
    else s

-- What follows a removal that returned.
unfoldable pub after_removal : String → Context → Context
unfolding update_step
after_removal reason ctx =
    let booted = step_status_in is_succeeded_or_skipped "power_on" ctx.job.steps in
    let ctx' =
      on_step "prepare_unattended_install" (λ s. reset_prepare booted (mark_removed reason s))
        ctx in
    record_event
      (record {
        action = "UNATTENDED_MEDIA_REMOVED";
        resource_name = ctx.vm_name;
        job_id = some ctx.job.id;
        username = ctx.actor_username;
        datacenter_id = some ctx.request_datacenter_id;
        datacenter_name = ctx.job.datacenter_name;
        result = "success";
        details = ("reason", str reason) ∷ [];
        detail_text = none;
      })
      ctx'

-- The recorded path; media_recorded says that there is one.
abbrev pub datastore_path : List Step → Json
datastore_path steps =
    elim (lookup "datastore_path" (artifacts_of "prepare_unattended_install" steps)) [
      | none ↦ null
      | some path ↦ path
    ]

-- The removal, by the VM that is known.
unfoldable pub remove_from : Environment → String → Json → Option Json → Context → Bool × Context
remove_from env reason path none ctx = (false, ctx)
remove_from env reason path (some vm) ctx =
    if env.remove_media vm path then (true, after_removal reason ctx) else (false, ctx)

-- release_unattended_media: whether media was removed, and the context.
unfoldable pub release_unattended_media : Environment → String → Context → Bool × Context
unfolding remove_from
release_unattended_media env reason ctx =
    let (found, ctx') = require_vm_id ctx in
    if media_recorded ctx.job.steps
    then remove_from env reason (datastore_path ctx.job.steps) found ctx'
    else (false, ctx)
