-- ===== src/Pipeline/Run.antt =====
-- `execute` and `_finalize_success` of backend/app/workers/pipeline.py.
use infra_ops.Prelude.{
  ℕ, suc, Bool, true, false, not, ◌&&◌, String, List, [], ◌∷◌, Option, none, some, concat, str_eq,
  ◌==◌, if◌then◌else◌, or_else,
}
use infra_ops.Prelude.Json.{
  Json, null, num, str, arr, obj, end, Items, nil, cons, lookup, get_field, text_field,
}
use infra_ops.Prelude.Int.{ℤ}
use infra_ops.Jobs.{
  Job, JobStatus, Step, is_done, is_step_failed, find_step, step_status_in, artifacts_of,
}
use infra_ops.Stages.{StageDefinition, ordered_stages}
use infra_ops.Pipeline.Context.{
  Context, Environment, Escape, on_job, stamp_duration, record_event, publish_stage,
  notify_requester, job_completed,
}
use infra_ops.Prelude.Decimal.{show}
use infra_ops.Pipeline.Stage.{run_stage, apply_cancellation}

abbrev pub final_artifacts : Job → List (String × Json)
final_artifacts j = artifacts_of "final_validation" j.steps

-- `.get("summary", {})`
abbrev pub summary_artifact : Job → Json
summary_artifact j = or_else (lookup "summary" (final_artifacts j)) (obj end)

-- `isinstance(item, dict) and item.get("status") == "PASS"`
abbrev pub is_pass : Json → Bool
is_pass item = elim (get_field "status" item) [ some (str s) ↦ str_eq s "PASS" | _ ↦ false ]

passed_in : Items → ℕ
passed_in nil = 0
passed_in (cons item rest) = let n = passed_in rest in if is_pass item then suc n else n

-- `checks_passed`
unfoldable pub checks_passed : Job → ℕ
unfolding passed_in
checks_passed j = elim (lookup "checklist" (final_artifacts j)) [
  | some (arr items) ↦ passed_in items
  | _ ↦ 0
]

-- completed_message of backend/app/services/notifications.py
unfoldable pub completed_message : Job → Json → ℕ → String × String
completed_message j summary passed =
    let identity =
      or_else (text_field "fqdn" summary)
        (or_else (text_field "computer_name" summary) j.vm_name) in
    let address : String = elim (text_field "ip_address" summary) [
      | none ↦ ""
      | some a ↦ concat (" · " ∷ a ∷ [])
    ] in
    let checks =
      if passed == 0 then "" else concat (" All " ∷ show passed ∷ " final checks passed." ∷ []) in
    (
      concat (j.vm_name ∷ " is ready" ∷ []),
      concat ("Deployment finished and was verified: " ∷ identity ∷ address ∷ "." ∷ checks ∷ []),
    )

abbrev pub json_of_duration : Option ℤ → Json
json_of_duration none = null
json_of_duration (some d) = num d

-- `_finalize_success`
unfoldable pub finalize_success : Environment → Context → Context
unfolding notify_requester completed_message checks_passed
finalize_success env ctx =
    let finished =
      on_job
        (λ j. stamp_duration env.run_finished (record j {
          status = JobStatus.completed;
          error_summary = none;
          error_detail = none;
          finished_at = some env.run_finished;
          progress = 100;
          current_stage = some "final_validation";
        }))
        ctx in
    let summary = summary_artifact finished.job in
    let notified =
      notify_requester job_completed
        (completed_message finished.job summary (checks_passed finished.job)) finished in
    publish_stage (some "final_validation") "COMPLETED"
      (concat (
        "Successfully provisioned "
        ∷ ctx.vm_name
        ∷ elim (text_field "ip_address" summary) [
          | none ↦ ""
          | some a ↦ concat (" (" ∷ a ∷ ")" ∷ [])
        ]
        ∷ []))
      (record_event
        (record {
          action = "JOB_COMPLETED";
          resource_name = ctx.vm_name;
          job_id = some ctx.job.id;
          username = ctx.actor_username;
          datacenter_id = some ctx.request_datacenter_id;
          datacenter_name = ctx.job.datacenter_name;
          result = "success";
          details =
              ("computer_name", or_else (get_field "computer_name" summary) null)
              ∷ ("duration_seconds", json_of_duration finished.job.duration_seconds)
              ∷ ("fqdn", or_else (get_field "fqdn" summary) null)
              ∷ [];
          detail_text = some (
              concat (
                "Provisioned '"
                ∷ or_else (text_field "fqdn" summary) ctx.vm_name
                ∷ "' successfully."
                ∷ []));
        })
        notified)

-- `await ctx.db.refresh(ctx.job)` before the stage of a key. Of the fields that the pipeline reads,
-- other sessions write only the cancel flag of a job that this worker owns. No exception is on its way.
abbrev pub refresh : Environment → String → Context → Context
refresh env key ctx =
    record (on_job (λ j. record j { cancel_requested = env.cancel_seen key }) ctx) {
      escaped = none;
    }

-- Whether an exception ended the run.
abbrev pub is_escape : Option Escape → Bool
is_escape none = false
is_escape (some e) = true

-- A stage that has a step which is not done: the cancel flag is read, then the stage is run.
unfoldable pub visit_open : Environment → StageDefinition → Context → Bool × Context
visit_open env stage ctx =
    let current = refresh env stage.key ctx in
    let ran = run_stage env stage current in
    if env.cancel_seen stage.key then (false, apply_cancellation env current) else (
      not (step_status_in is_step_failed stage.key ran.job.steps) && not (is_escape ran.escaped),
      ran,
    )

-- One round of the loop of `execute`: whether the loop goes on, and the context.
unfoldable pub visit_stage : Environment → StageDefinition → Option Step → Context → Bool × Context
unfolding visit_open
visit_stage env stage none ctx = (true, ctx)
visit_stage env stage (some step) ctx =
    if is_done step.status then (true, ctx) else visit_open env stage ctx

-- The loop of `execute`, and its end.
unfoldable pub run_stages : Environment → List StageDefinition → Context → Context
unfolding visit_stage find_step
run_stages env [] ctx = finalize_success env ctx
run_stages env (stage ∷ rest) ctx =
    let (on, ctx') = visit_stage env stage (find_step stage.key ctx.job.steps) ctx in
    let finished = run_stages env rest ctx' in if on then finished else ctx'

-- `execute`
unfoldable pub execute : Environment → Context → Context
unfolding run_stages ordered_stages
execute env ctx = run_stages env ordered_stages ctx
