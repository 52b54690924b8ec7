-- ===== src/Pipeline/Release.antt =====
-- What a release of the answer media promises, and where the mark of an earlier release misleads it.
use infra_ops.Prelude.{
  Bool, true, false, String, List, [], ◌∷◌, Option, none, some, ◌≡◌, refl, sym, ap, ◌∙◌, subst,
  arith, not, ◌&&◌, Bool-cases, inl, inr,
}
use infra_ops.Prelude.Json.{Json, bool, truthy, lookup, insert, update, holds, holds-insert}
use infra_ops.Jobs.{Job, Step, Artifacts, find_step, artifacts_of, found_artifacts}
use infra_ops.Jobs.Steps.Lookup.{map_option, find_step-update_step_self}
use infra_ops.Repository.Retry.{may_hold_unattended_media}
use infra_ops.Pipeline.Context.{Context, Environment, StageOutcome}
use infra_ops.Pipeline.Media.{
  media_recorded, require_vm_id, after_removal, remove_from, release_unattended_media,
  reset_prepare, mark_removed, datastore_path,
}
use infra_ops.Stages.{StageDefinition}
use infra_ops.Pipeline.Frame.{job-require_vm_id}
use infra_ops.Pipeline.Stage.{finish_stage}

-- The repository's test for media that may still be there is the pipeline's test for a release.
pub may_hold-eq-media_recorded :
    (steps : List Step) → may_hold_unattended_media steps ≡ media_recorded steps
unfolding may_hold_unattended_media
may_hold-eq-media_recorded steps = refl

-- The mark is there after a removal, whatever the artifacts were.
holds-mark_removed :
    (reason : String) (s : Step) → holds "media_removed" (mark_removed reason s).artifacts ≡ true
unfolding truthy
holds-mark_removed reason s =
    holds-insert "media_removed_reason" "media_removed" _
      (insert "media_removed" (bool true) s.artifacts)
    ∙ holds-insert "media_removed" "media_removed" (bool true) s.artifacts

artifacts-reset_prepare :
    (booted : Bool) (s : Step) → (reset_prepare booted s).artifacts ≡ s.artifacts
artifacts-reset_prepare booted s = ground arith

release_marks :
    (booted : Bool) (reason : String) (o : Option Step)
    → holds "datastore_path" (found_artifacts o) ≡ true
    → holds "media_removed"
        (found_artifacts (map_option (λ s. reset_prepare booted (mark_removed reason s)) o))
      ≡ true
unfolding lookup
release_marks booted reason none h = cc
release_marks booted reason (some s) h =
    ap (holds "media_removed") (artifacts-reset_prepare booted (mark_removed reason s))
    ∙ holds-mark_removed reason s

-- Marked media are not recorded as present.
marked_not_recorded :
    (steps : List Step)
    → holds "media_removed" (artifacts_of "prepare_unattended_install" steps) ≡ true
    → media_recorded steps ≡ false
marked_not_recorded steps h = ground arith

after_removal_clears :
    (reason : String) (ctx : Context)
    → media_recorded ctx.job.steps ≡ true
    → media_recorded (after_removal reason ctx).job.steps ≡ false
after_removal_clears reason ctx h =
    unfold after_removal in
    marked_not_recorded _ (
      ap (λ (o : Option Step). holds "media_removed" (found_artifacts o))
        (find_step-update_step_self "prepare_unattended_install" _ ctx.job.steps λ s. ground arith)
      ∙ release_marks _ reason (find_step "prepare_unattended_install" ctx.job.steps)
          (ground arith))

-- Whether the adapter's removal is called and returns.
abbrev pub removal_returns : Environment → Json → Option Json → Bool
removal_returns env path none = false
removal_returns env path (some vm) = env.remove_media vm path

remove_from_lem :
    (env : Environment) (reason : String) (path : Json) (found : Option Json) (ctx : Context)
    → media_recorded ctx.job.steps ≡ true
    → let released = remove_from env reason path found ctx in
      (released.0 ≡ removal_returns env path found)
      × (media_recorded released.1.job.steps ≡ not (removal_returns env path found))
unfolding remove_from
remove_from_lem env reason path none ctx m = (refl, m)
remove_from_lem env reason path (some vm) ctx m = ground (arith, after_removal_clears reason ctx m)

-- A release reports true exactly when the job may hold media, its VM is known and the adapter's
-- removal returns; and afterwards the job may hold media exactly when it did and the release did not
-- report true.
pub release_clears :
    (env : Environment) (reason : String) (ctx : Context)
    → let released = release_unattended_media env reason ctx in
      let held = may_hold_unattended_media ctx.job.steps in
      (released.0
        ≡ (held && removal_returns env (datastore_path ctx.job.steps) (require_vm_id ctx).0))
      × (may_hold_unattended_media released.1.job.steps ≡ (held && not released.0))
unfolding may_hold_unattended_media
release_clears env reason ctx = elim (Bool-cases (media_recorded ctx.job.steps)) [
  | inl m ↦
      let same = ap (λ (j : Job). media_recorded j.steps) (job-require_vm_id ctx) ∙ m in
      let (flag, left) =
        remove_from_lem env reason (datastore_path ctx.job.steps) (require_vm_id ctx).0
          (require_vm_id ctx).1 same in
      unfold release_unattended_media in rw m (flag, left ∙ ap not (sym flag))
  | inr m ↦ unfold release_unattended_media in rw m (refl, m)
]

-- The artifacts of a preparation that attached new media over those of an earlier run.
holds_new_media :
    (a : Artifacts) (path : Json)
    → (holds "media_removed" (update a (("datastore_path", path) ∷ [])) ≡ holds "media_removed" a)
      × (holds "datastore_path" (update a (("datastore_path", path) ∷ [])) ≡ truthy path)
unfolding update
holds_new_media a path = (
  holds-insert "datastore_path" "media_removed" path a,
  holds-insert "datastore_path" "datastore_path" path a,
)

found_artifacts-map_option :
    (f : Step → Step) (new : Artifacts) (found : Option Step)
    → ((s : Step) → (f s).artifacts ≡ update s.artifacts new)
    → holds "media_removed" (found_artifacts found) ≡ true
    → found_artifacts (map_option f found) ≡ update (found_artifacts found) new
unfolding lookup
found_artifacts-map_option f new none adds h = cc
found_artifacts-map_option f new (some s) adds h = adds s

-- A stage that ends merges the artifacts of its outcome into those of its step.
artifacts-finish_stage :
    (env : Environment) (stage : StageDefinition) (o : StageOutcome) (ctx : Context)
    → holds "media_removed" (artifacts_of stage.key ctx.job.steps) ≡ true
    → artifacts_of stage.key (finish_stage env stage o ctx).job.steps
      ≡ update (artifacts_of stage.key ctx.job.steps) o.artifacts
artifacts-finish_stage env stage o ctx h =
    unfold finish_stage in
    ap found_artifacts (find_step-update_step_self stage.key _ ctx.job.steps (λ s. refl))
    ∙ found_artifacts-map_option _ o.artifacts (find_step stage.key ctx.job.steps) (λ s. refl) h

-- A preparation stage that attaches new media after an earlier release keeps the release's mark: the
-- new path is recorded, but the job does not count as holding media, and a later release of the
-- media, on a failure or a cancellation, does nothing.
pub stale_mark :
    (env : Environment) (stage : StageDefinition) (o : StageOutcome) (path : Json) (reason : String)
    (ctx : Context)
    → stage.key ≡ "prepare_unattended_install"
    → o.artifacts ≡ ("datastore_path", path) ∷ []
    → holds "media_removed" (artifacts_of "prepare_unattended_install" ctx.job.steps) ≡ true
    → let prepared = finish_stage env stage o ctx in
      (holds "datastore_path" (artifacts_of "prepare_unattended_install" prepared.job.steps)
        ≡ truthy path)
      × (may_hold_unattended_media prepared.job.steps ≡ false)
      × (release_unattended_media env reason prepared ≡ (false, prepared))
unfolding may_hold_unattended_media
stale_mark env stage o path reason ctx k a h =
    let old = artifacts_of "prepare_unattended_install" ctx.job.steps in
    let prepared = finish_stage env stage o ctx in
    let merged : artifacts_of "prepare_unattended_install" prepared.job.steps
        ≡ update old (("datastore_path", path) ∷ []) =
      subst
        (λ (key : String).
          artifacts_of key prepared.job.steps
          ≡ update (artifacts_of key ctx.job.steps) (("datastore_path", path) ∷ []))
        k
        (artifacts-finish_stage env stage o ctx (
            subst (λ (key : String). holds "media_removed" (artifacts_of key ctx.job.steps) ≡ true)
              (sym k) h)
          ∙ ap (update (artifacts_of stage.key ctx.job.steps)) a) in
    let marked = ap (holds "media_removed") merged ∙ (holds_new_media old path).0 ∙ h in
    let gone = marked_not_recorded prepared.job.steps marked in
    (
      ap (holds "datastore_path") merged ∙ (holds_new_media old path).1,
      gone,
      unfold release_unattended_media in rw gone,
    )
