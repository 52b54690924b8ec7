-- ===== src/Pipeline/Stage/Finish.antt =====
-- The start and the successful end of a stage: `_run_stage` of backend/app/workers/pipeline.py.
use Prim.Native.Char.{code}
use infra_ops.Prelude.{
  ℕ, ◌+◌, Bool, String, [], ◌∷◌, none, some, concat, clip, str_eq, truthy_text, ◌==◌, any,
  if◌then◌else◌,
}
use infra_ops.Prelude.Json.{update}
use infra_ops.Jobs.{Job, StepStatus, update_step}
use infra_ops.Stages.{StageDefinition}
use infra_ops.Repository.Progress.{compute_progress}
use infra_ops.Pipeline.Context.{Context, Environment, StageOutcome, on_job, on_step, publish_stage}

-- `ctx.job.progress = JobRepository.compute_progress(ctx.job)`
abbrev pub refresh_progress : Job → Job
refresh_progress j = record j { progress = compute_progress j }

-- The value of a StepStatus.
abbrev pub step_status_value : StepStatus → String
step_status_value StepStatus.pending = "PENDING"
step_status_value StepStatus.running = "RUNNING"
step_status_value StepStatus.succeeded = "SUCCEEDED"
step_status_value StepStatus.failed = "FAILED"
step_status_value StepStatus.skipped = "SKIPPED"
step_status_value StepStatus.warning = "WARNING"
step_status_value StepStatus.not_applicable = "NOT_APPLICABLE"
step_status_value StepStatus.cancelled = "CANCELLED"

abbrev is_line_break : ℕ → Bool
is_line_break c =
    any (λ b. c == b) (0x0a ∷ 0x0b ∷ 0x0c ∷ 0x0d ∷ 0x1c ∷ 0x1d ∷ 0x1e ∷ 0x85 ∷ 0x2028 ∷ 0x2029 ∷ [])

-- `s.splitlines()[0]` of a text that is not empty.
unfoldable pub first_line : String → String
first_line String.[] = ""
first_line (String.◌∷◌ c s) = if is_line_break (code c) then "" else String.◌∷◌ c (first_line s)

-- The assignments that start a stage, and the event that announces it.
unfoldable pub begin_stage : Environment → StageDefinition → Context → Context
unfolding update_step
begin_stage env stage ctx =
    let started =
      on_step stage.key
        (λ s. record s {
          status = StepStatus.running;
          attempt = s.attempt + 1;
          started_at = some (env.stage_started stage.key);
          error_human = none;
          error_technical = none;
        })
        ctx in
    let current =
      on_job (λ j. refresh_progress (record j { current_stage = some stage.key })) started in
    publish_stage (some stage.key) "RUNNING" (concat ("Started: " ∷ stage.name ∷ [])) current

-- The dictionary from an outcome's status, with its default.
unfoldable pub outcome_status : String → StepStatus
outcome_status s =
    if str_eq s "SUCCEEDED"
    then StepStatus.succeeded
    else if str_eq s "SKIPPED"
    then StepStatus.skipped
    else if str_eq s "WARNING"
    then StepStatus.warning
    else if str_eq s "NOT_APPLICABLE"
    then StepStatus.not_applicable
    else StepStatus.succeeded

-- The end of a stage whose handler returned.
unfoldable pub finish_stage : Environment → StageDefinition → StageOutcome → Context → Context
unfolding outcome_status update_step update
finish_stage env stage outcome ctx =
    let finished =
      on_step stage.key
        (λ s. record s {
          status = outcome_status outcome.status;
          finished_at = some (env.stage_finished stage.key);
          output = some (clip 8000 outcome.output);
          artifacts = update s.artifacts outcome.artifacts;
        })
        ctx in
    let current = on_job refresh_progress finished in
    publish_stage current.job.current_stage (step_status_value (outcome_status outcome.status))
      (if truthy_text outcome.output then clip 200 (first_line outcome.output) else stage.name)
      current
