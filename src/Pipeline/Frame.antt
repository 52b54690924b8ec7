-- ===== src/Pipeline/Frame.antt =====
-- Which parts of the context the helpers of a run leave alone.
use infra_ops.Prelude.{Bool, true, false, ◌∷◌, String, Option, List, map, ◌≡◌, arith, ℕ}
use infra_ops.Jobs.{Job, find_step}
use infra_ops.Stages.{StageDefinition}
use infra_ops.Pipeline.Context.{Context, Environment, InfraError}
use infra_ops.Pipeline.Media.{require_vm_id}
use infra_ops.Pipeline.Stage.{fail_job, mark_components, cancel_row, cancel_open_at}
use infra_ops.Pipeline.Run.{visit_stage, run_stages}

pub job-require_vm_id : (ctx : Context) → (require_vm_id ctx).1.job ≡ ctx.job
unfolding require_vm_id
job-require_vm_id ctx = ground arith

pub steps-fail_job :
    (env : Environment) (stage : StageDefinition) (e : InfraError) (b : Bool) (t : Option String)
    (j : Job)
    → (fail_job env stage e b t j).steps ≡ j.steps
unfolding fail_job mark_components
steps-fail_job env stage e b t j = ground arith

pub steps-cancel_row :
    (now : ℕ) (j : Job) → (cancel_row now j).steps ≡ map (cancel_open_at now) j.steps
unfolding cancel_row
steps-cancel_row now j = ground arith

-- The loop of `execute` by the first of its stages.
module _ (env : Environment) (stage : StageDefinition) (rest : List StageDefinition)
    (ctx : Context) where
  pub run_stages_on :
      (visit_stage env stage (find_step stage.key ctx.job.steps) ctx).0 ≡ true
      → run_stages env (stage ∷ rest) ctx
        ≡ run_stages env rest (visit_stage env stage (find_step stage.key ctx.job.steps) ctx).1
  unfolding run_stages
  run_stages_on on = rw (on, run_stages)

  pub run_stages_off :
      (visit_stage env stage (find_step stage.key ctx.job.steps) ctx).0 ≡ false
      → run_stages env (stage ∷ rest) ctx
        ≡ (visit_stage env stage (find_step stage.key ctx.job.steps) ctx).1
  unfolding run_stages
  run_stages_off off = rw (off, run_stages)
