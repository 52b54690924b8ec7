-- ===== src/Repository/Progress.antt =====
-- JobRepository.compute_progress of backend/app/repositories/jobs.py.
pub mod Bounds
use infra_ops.Prelude.{
  ℕ, ◌+◌, ◌*◌, Bool, true, false, List, length, count_if, filter_if, ◌==◌, if◌then◌else◌, min,
}
use infra_ops.Prelude.Double.{percent_of_ratio}
use infra_ops.Jobs.{Step, Job, StepStatus, is_step_running}

-- `s.status not in (SKIPPED, NOT_APPLICABLE)`
abbrev pub is_actionable : StepStatus → Bool
is_actionable StepStatus.skipped = false
is_actionable StepStatus.not_applicable = false
is_actionable _ = true

-- `s.status in (SUCCEEDED, WARNING, CANCELLED)`
abbrev pub counts_as_done : StepStatus → Bool
counts_as_done StepStatus.succeeded = true
counts_as_done StepStatus.warning = true
counts_as_done StepStatus.cancelled = true
counts_as_done _ = false

-- int(((done + 0.5 * running) / total) * 100) clamped to 0..100. The sum done + running / 2 is exact
-- in double arithmetic, so the quotient is that of 2 * done + running by 2 * total.
unfoldable pub percent : ℕ → ℕ → ℕ → ℕ
unfolding percent_of_ratio
percent done running total = min 100 (percent_of_ratio (2 * done + running) (2 * total))

abbrev pub actionable : Job → List Step
actionable j = filter_if (λ s. is_actionable s.status) j.steps

abbrev pub done_count : Job → ℕ
done_count j = count_if (λ s. counts_as_done s.status) (actionable j)

abbrev pub running_count : Job → ℕ
running_count j = count_if (λ s. is_step_running s.status) (actionable j)

unfoldable pub compute_progress : Job → ℕ
unfolding percent
compute_progress j =
    let total = length (actionable j) in
    if total == 0 then 0 else percent (done_count j) (running_count j) total
