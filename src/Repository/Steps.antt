-- ===== src/Repository/Steps.antt =====
-- ensure_steps: the step rows of the stages that a job has no row for.
use infra_ops.Prelude.{
  ℕ, suc, Bool, String, List, [], ◌∷◌, ◌++◌, none, leb, map, str_mem, if◌then◌else◌,
}
use infra_ops.Jobs.{Step, StepStatus}

-- A new row, with the defaults of the columns that the code leaves out.
unfoldable pub new_step : ℕ → String × String × Bool → Step
new_step sequence (key, name, retryable) = record {
  stage_key = key;
  name = name;
  sequence = sequence;
  status = StepStatus.pending;
  attempt = 0;
  max_attempts = 3;
  retryable = retryable;
  started_at = none;
  finished_at = none;
  output = none;
  error_human = none;
  error_technical = none;
  artifacts = [];
}

-- The rows that the loop appends, from the index `i`.
unfoldable pub missing_steps : List String → ℕ → List (String × String × Bool) → List Step
unfolding new_step
missing_steps existing i [] = []
missing_steps existing i ((key, name, retryable) ∷ ds) =
    let rest = missing_steps existing (suc i) ds in
    if str_mem key existing then rest else new_step i (key, name, retryable) ∷ rest

-- `job.steps.sort(key=lambda step: step.sequence)`, which is stable.
unfoldable pub insert_by_sequence : Step → List Step → List Step
insert_by_sequence s [] = s ∷ []
insert_by_sequence s (t ∷ ts) =
    if leb s.sequence t.sequence then s ∷ t ∷ ts else t ∷ insert_by_sequence s ts

unfoldable pub sort_by_sequence : List Step → List Step
unfolding insert_by_sequence
sort_by_sequence [] = []
sort_by_sequence (s ∷ ss) = insert_by_sequence s (sort_by_sequence ss)

unfoldable pub ensure_steps : List (String × String × Bool) → List Step → List Step
unfolding missing_steps sort_by_sequence
ensure_steps definitions steps =
    let existing = map (λ (s : Step). s.stage_key) steps in
    sort_by_sequence (steps ++ missing_steps existing 0 definitions)
