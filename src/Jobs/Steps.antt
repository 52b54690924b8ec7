-- ===== src/Jobs/Steps.antt =====
-- The steps of a job by stage key. `uq_job_step_stage` makes the keys of one job distinct, so the
-- dictionary `{step.stage_key: step for step in job.steps}` holds the one step of a key.
pub mod Lookup
use infra_ops.Prelude.{
  Bool, true, false, String, List, [], ◌∷◌, Option, none, some, str_eq, if◌then◌else◌,
}
use infra_ops.Jobs.Status.{StepStatus}
use infra_ops.Jobs.Rows.{Step, Artifacts}

-- `steps_by_key.get(key)`
unfoldable pub find_step : String → List Step → Option Step
find_step k [] = none
find_step k (s ∷ ss) = if str_eq s.stage_key k then some s else find_step k ss

-- `step is not None and step.status in (…)`
abbrev pub status_in : (StepStatus → Bool) → Option Step → Bool
status_in p none = false
status_in p (some s) = p s.status

abbrev pub step_status_in : (StepStatus → Bool) → String → List Step → Bool
step_status_in p k steps = status_in p (find_step k steps)

-- `(step.artifacts or {}) if step is not None else {}`
abbrev pub found_artifacts : Option Step → Artifacts
found_artifacts none = []
found_artifacts (some s) = s.artifacts

abbrev pub artifacts_of : String → List Step → Artifacts
artifacts_of k steps = found_artifacts (find_step k steps)

-- An assignment to fields of the step of a key, in place.
unfoldable pub update_step : String → (Step → Step) → List Step → List Step
update_step k f [] = []
update_step k f (s ∷ ss) = (if str_eq s.stage_key k then f s else s) ∷ update_step k f ss
