-- ===== src/Pipeline/Stopped.antt =====
-- A run of a job whose cancellation the database already holds, as the service hands it to a worker.
use infra_ops.Prelude.{
  Bool, true, false, String, List, [], ◌∷◌, Option, none, some, ◌≡◌, refl, sym, ap, ◌∙◌, arith, not,
  ◌&&◌, any, map, Bool-cases, inl, inr, if_of_true, if_of_false, ℕ,
}
use mathlib.Core.Bool.{false≢true}
use infra_ops.Prelude.Json.{Json}
use infra_ops.Jobs.{
  JobStatus, Step, find_step, artifacts_of, found_artifacts, is_done, step_status_in, status_in,
  is_succeeded,
}
use infra_ops.Jobs.Steps.Lookup.{map_option, find_step-map}
use infra_ops.Stages.{StageDefinition, ordered_stages}
use infra_ops.Repository.Retry.{may_hold_unattended_media}
use infra_ops.Pipeline.Context.{Context, Environment}
use infra_ops.Pipeline.Media.{
  release_unattended_media, require_vm_id, datastore_path, media_recorded,
}
use infra_ops.Pipeline.Stage.{apply_cancellation, cancel_open_at}
use infra_ops.Pipeline.Run.{refresh, visit_open, visit_stage, run_stages, execute}
use infra_ops.Pipeline.Frame.{run_stages_on, run_stages_off, steps-cancel_row}
use infra_ops.Pipeline.Release.{removal_returns, release_clears, may_hold-eq-media_recorded}
use infra_ops.Pipeline.Completion.{settled_at}
use infra_ops.Pipeline.Outcome.{status-apply_cancellation}
use infra_ops.Pipeline.Cancellation.{visit_stage-settled}

-- The job has a step of the key, and it is not done.
abbrev pub open_at : String → Context → Bool
open_at k ctx = not (settled_at k ctx)

-- Cancelling the open steps changes no artifacts, and no step to or from SUCCEEDED.
found-cancel_open :
    (now : ℕ) (o : Option Step)
    → found_artifacts (map_option (cancel_open_at now) o) ≡ found_artifacts o
found-cancel_open now none = refl
found-cancel_open now (some s) = ground arith

succeeded-cancel_open :
    (now : ℕ) (o : Option Step)
    → status_in is_succeeded (map_option (cancel_open_at now) o) ≡ status_in is_succeeded o
succeeded-cancel_open now none = refl
succeeded-cancel_open now (some s) = ground arith

key-cancel_open : (now : ℕ) (s : Step) → (cancel_open_at now s).stage_key ≡ s.stage_key
key-cancel_open now s = ground arith

artifacts_cancelled :
    (now : ℕ) (k : String) (steps : List Step)
    → artifacts_of k (map (cancel_open_at now) steps) ≡ artifacts_of k steps
artifacts_cancelled now k steps =
    ap found_artifacts (find_step-map k (cancel_open_at now) steps (key-cancel_open now))
    ∙ found-cancel_open now (find_step k steps)

succeeded_cancelled :
    (now : ℕ) (k : String) (steps : List Step)
    → step_status_in is_succeeded k (map (cancel_open_at now) steps)
      ≡ step_status_in is_succeeded k steps
succeeded_cancelled now k steps =
    ap (status_in is_succeeded) (find_step-map k (cancel_open_at now) steps (key-cancel_open now))
    ∙ succeeded-cancel_open now (find_step k steps)

media_cancelled :
    (now : ℕ) (steps : List Step)
    → media_recorded (map (cancel_open_at now) steps) ≡ media_recorded steps
media_cancelled now steps = ground (
  arith,
  artifacts_cancelled now "prepare_unattended_install" steps,
  succeeded_cancelled now "cleanup_unattended_media" steps,
)

-- What is left of the media by a cancellation.
media-apply_cancellation :
    (env : Environment) (ctx : Context)
    → media_recorded (apply_cancellation env ctx).job.steps
      ≡ media_recorded (release_unattended_media env "job cancelled" ctx).1.job.steps
media-apply_cancellation env ctx =
    let released = (release_unattended_media env "job cancelled" ctx).1 in
    unfold apply_cancellation in
    ap media_recorded (steps-cancel_row env.run_finished released.job)
    ∙ media_cancelled env.run_finished released.job.steps

and_not_and : (a b : Bool) → (a && not (a && b)) ≡ (a && not b)
and_not_and true b = refl
and_not_and false b = refl

left-apply_cancellation :
    (env : Environment) (ctx : Context)
    → may_hold_unattended_media (apply_cancellation env ctx).job.steps ≡ (
        may_hold_unattended_media ctx.job.steps
        && not (removal_returns env (datastore_path ctx.job.steps) (require_vm_id ctx).0))
left-apply_cancellation env ctx =
    let (reported, left) = release_clears env "job cancelled" ctx in
    let kept = media-apply_cancellation env ctx in
    let held = may_hold_unattended_media ctx.job.steps in
    let returned = removal_returns env (datastore_path ctx.job.steps) (require_vm_id ctx).0 in
    may_hold-eq-media_recorded _
    ∙ kept
    ∙ sym (may_hold-eq-media_recorded _)
    ∙ left
    ∙ ap (λ (b : Bool). held && not b) reported
    ∙ and_not_and held returned

module _ (env : Environment) (seen : (key : String) → env.cancel_seen key ≡ true) where
  -- An open stage is not run: the cancellation is applied.
  visit_stage-open :
      (s : StageDefinition) (found : Option Step) (ctx : Context)
      → find_step s.key ctx.job.steps ≡ found
      → settled_at s.key ctx ≡ false
      → visit_stage env s found ctx ≡ (false, apply_cancellation env (refresh env s.key ctx))
  visit_stage-open s none ctx e open_ =
      let settled : settled_at s.key ctx ≡ true = rw e refl in
      absurd (false≢true (sym open_ ∙ settled))
  visit_stage-open s (some step) ctx e open_ =
      let more : is_done step.status ≡ false = rw e at open_ in
      unfold visit_stage visit_open in
      if_of_false (is_done step.status) _ _ more
      ∙ if_of_true (env.cancel_seen s.key) _ _ (seen s.key)

  run_stages-stops :
      (stages : List StageDefinition) (ctx : Context)
      → any (λ (s : StageDefinition). open_at s.key ctx) stages ≡ true
      → (key : String) × (run_stages env stages ctx ≡ apply_cancellation env (refresh env key ctx))
  run_stages-stops [] ctx h = absurd (false≢true h)
  run_stages-stops (s ∷ rest) ctx h =
      let found = find_step s.key ctx.job.steps in
      elim (Bool-cases (settled_at s.key ctx)) [
        | inl settled ↦
            let skipped = visit_stage-settled env s found ctx refl settled in
            let (key, stops) = run_stages-stops rest ctx (rw settled at h) in
            (
              key,
              run_stages_on env s rest ctx (ap (λ (v : Bool × Context). v.0) skipped)
                  ∙ ap (λ (v : Bool × Context). run_stages env rest v.1) skipped
                  ∙ stops,
            )
        | inr open_ ↦
            let stops = visit_stage-open s found ctx refl open_ in
            (
              s.key,
              run_stages_off env s rest ctx (ap (λ (v : Bool × Context). v.0) stops)
                  ∙ ap (λ (v : Bool × Context). v.1) stops,
            )
      ]

vm_id-refresh :
    (env : Environment) (key : String) (ctx : Context)
    → (require_vm_id (refresh env key ctx)).0 ≡ (require_vm_id ctx).0
unfolding require_vm_id
vm_id-refresh env key ctx = ground arith

-- If the cancel flag is set whenever the pipeline reads it, and some stage of the job is not done, the
-- run ends CANCELLED; and afterwards the job may hold answer media exactly when it did before and the
-- adapter's removal is not called or does not return.
pub cancelled_job-stops :
    (env : Environment) (ctx : Context)
    → ((key : String) → env.cancel_seen key ≡ true)
    → any (λ (s : StageDefinition). open_at s.key ctx) ordered_stages ≡ true
    → let ended = execute env ctx in
      (ended.job.status ≡ JobStatus.cancelled)
      × (may_hold_unattended_media ended.job.steps ≡ (
          may_hold_unattended_media ctx.job.steps
          && not (removal_returns env (datastore_path ctx.job.steps) (require_vm_id ctx).0)))
unfolding execute
cancelled_job-stops env ctx seen h =
    let (key, stops) = run_stages-stops env seen ordered_stages ctx h in
    let current = refresh env key ctx in
    (
      ap (λ (c : Context). c.job.status) stops ∙ status-apply_cancellation env current,
      ap (λ (c : Context). may_hold_unattended_media c.job.steps) stops
          ∙ left-apply_cancellation env current
          ∙ ap
              (λ (vm : Option Json).
                may_hold_unattended_media ctx.job.steps
                && not (removal_returns env (datastore_path ctx.job.steps) vm))
              (vm_id-refresh env key ctx),
    )
