-- ===== src/Engine/Resume.antt =====
-- How many jobs a worker of backend/app/workers/engine.py holds, and how a job that it interrupts
-- is resumed.
use infra_ops.Prelude.{
  ℕ, ◌+◌, ◌-◌, ◌≤◌, ◌≡◌, refl, sym, ap, ◌∙◌, Bool, true, false, not, ◌||◌, String, List, [], ◌∷◌,
  Option, none, some, arith, ◌&&◌, str_eq, if◌then◌else◌, if_of_true, if_of_false, length,
  length-map, map, any, filter_if, Bool-cases, inl, inr,
}
use mathlib.Core.Bool.{false≢true}
use infra_ops.Jobs.{
  Job, JobStatus, Step, StepStatus, is_done, is_step_running, update_step, step_status_in,
  is_succeeded_or_skipped,
}
use infra_ops.Repository.Queue.{due_jobs, claim, claim_due_jobs}
use infra_ops.Repository.Claims.{due_jobs_lem}
use infra_ops.Repository.Retry.{should_reset, reset_steps, after_reset, reset_for_retry}
use infra_ops.Service.Retry.{reset_step, reset_steps_lem, requeue_lem}
use infra_ops.Pipeline.Context.{Context, Environment, notify_requester}
use infra_ops.Pipeline.Media.{
  require_vm_id, media_recorded, mark_removed, reset_prepare, after_removal, datastore_path,
  remove_from, release_unattended_media,
}
use infra_ops.Pipeline.Frame.{job-require_vm_id}
use infra_ops.Pipeline.Outcome.{status-release_unattended_media}
use infra_ops.Prelude.Json.{Json}
use infra_ops.Engine.Config.{Config, free_slots}
use infra_ops.Engine.Worker.{claim_for_worker}
use infra_ops.Engine.Transitions.{interrupt_step, interrupt_row, park, interrupt}

length-claim_due_jobs :
    (now limit : ℕ) (worker_id : String) (locked : ℕ → Bool) (jobs : List Job)
    → length (claim_due_jobs now limit worker_id locked jobs).0 ≤ limit
unfolding claim_due_jobs
length-claim_due_jobs now limit worker_id locked jobs =
    let (le, split, rest, full) = due_jobs_lem now limit locked jobs (λ j. true) in
    ground (arith, le, length-map (due_jobs now limit locked jobs) (claim now worker_id))

-- A worker that runs no more jobs than its concurrency allows claims no more than its free slots: the
-- jobs that it runs and those that it claims are together within its concurrency.
pub claim_for_worker-le :
    (c : Config) (tasks : List ℕ) (now : ℕ) (worker_id : String) (locked : ℕ → Bool)
    (jobs : List Job)
    → length tasks ≤ c.concurrency
    → length tasks + length (claim_for_worker c tasks now worker_id locked jobs).0 ≤ c.concurrency
unfolding claim_for_worker free_slots
claim_for_worker-le c tasks now worker_id locked jobs fits =
    ground
      (arith, fits, length-claim_due_jobs now (c.concurrency - length tasks) worker_id locked jobs)

abbrev is_pending : StepStatus → Bool
is_pending StepStatus.pending = true
is_pending _ = false

-- A step that a worker is needed for: it is neither done nor waiting.
abbrev pub is_unfinished : Step → Bool
is_unfinished s = not (is_done s.status || is_pending s.status)

pub row-park :
    (now : ℕ) (reason : String) (ctx : Context)
    → ((park now reason ctx).job.status ≡ JobStatus.interrupted)
      × ((park now reason ctx).job.steps ≡ map (interrupt_step now reason) ctx.job.steps)
unfolding park interrupt_row notify_requester
row-park now reason ctx = ground arith

pub status-interrupt :
    (now : ℕ) (reason : String) (outside : Option Environment) (ctx : Context)
    → (interrupt now reason outside ctx).job.status ≡ JobStatus.interrupted
unfolding interrupt
status-interrupt now reason none ctx = (row-park now reason ctx).0
status-interrupt now reason (some env) ctx =
    let parked = park now reason ctx in
    ground (
      arith,
      status-release_unattended_media env "job interrupted" parked,
      (row-park now reason ctx).0,
    )

-- What an interruption writes to a step besides `interrupt_step`: the mark of a removal of the answer
-- media (whether the VM has booted, and the reason), in the step that prepared them.
abbrev prepare_key : String
prepare_key = "prepare_unattended_install"

abbrev touch : Option (Bool × String) → Step → Step
touch none s = s
touch (some (booted, why)) s =
    if str_eq s.stage_key prepare_key then reset_prepare booted (mark_removed why s) else s

abbrev touched : Option (Bool × String) → List Step → List Step
touched o steps = map (touch o) steps

touch-none : (steps : List Step) → touched none steps ≡ steps
touch-none [] = refl
touch-none (s ∷ ss) = ap (λ r. s ∷ r) (touch-none ss)

update_step-touched :
    (booted : Bool) (why : String) (steps : List Step)
    → update_step prepare_key (λ s. reset_prepare booted (mark_removed why s)) steps
      ≡ touched (some (booted, why)) steps
unfolding update_step
update_step-touched booted why [] = refl
update_step-touched booted why (s ∷ ss) =
    ap (λ r. touch (some (booted, why)) s ∷ r) (update_step-touched booted why ss)

remove_from-touched :
    (env : Environment) (why : String) (path : Json) (vm : Option Json) (ctx : Context)
    → (o : Option (Bool × String)) × ((remove_from env why path vm ctx).1.job.steps
        ≡ touched o ctx.job.steps)
unfolding remove_from after_removal
remove_from-touched env why path none ctx = (none, sym (touch-none ctx.job.steps))
remove_from-touched env why path (some vm) ctx = elim (Bool-cases (env.remove_media vm path)) [
  | inl returned ↦
      let booted = step_status_in is_succeeded_or_skipped "power_on" ctx.job.steps in
      rw returned (some (booted, why), update_step-touched booted why ctx.job.steps)
  | inr fails ↦ rw fails (none, sym (touch-none ctx.job.steps))
]

release-touched :
    (env : Environment) (why : String) (ctx : Context)
    → (o : Option (Bool × String)) × ((release_unattended_media env why ctx).1.job.steps
        ≡ touched o ctx.job.steps)
release-touched env why ctx =
    let (vm, known) = require_vm_id ctx in
    let path = datastore_path ctx.job.steps in
    elim (Bool-cases (media_recorded ctx.job.steps)) [
      | inl held ↦
          let (o, e) = remove_from-touched env why path vm known in
          let same = ap (λ (j : Job). touched o j.steps) (job-require_vm_id ctx) in
          (o, unfold release_unattended_media in rw held (e ∙ same))
      | inr none_held ↦
          (none, unfold release_unattended_media in rw none_held (sym (touch-none ctx.job.steps)))
    ]

abbrev interrupted_steps : ℕ → String → List Step → List Step
interrupted_steps now reason steps = map (interrupt_step now reason) steps

-- The steps that an interruption leaves.
interrupt-touched :
    (now : ℕ) (reason : String) (outside : Option Environment) (ctx : Context)
    → (o : Option (Bool × String)) × ((interrupt now reason outside ctx).job.steps
        ≡ touched o (interrupted_steps now reason ctx.job.steps))
unfolding interrupt
interrupt-touched now reason none ctx = (
  none,
  (row-park now reason ctx).1 ∙ sym (touch-none (interrupted_steps now reason ctx.job.steps)),
)
interrupt-touched now reason (some env) ctx =
    let parked = park now reason ctx in
    let steps = (row-park now reason ctx).1 in
    elim (Bool-cases (release_unattended_media env "job interrupted" parked).0) [
      | inl removed ↦
          let (o, e) = release-touched env "job interrupted" parked in
          (
            o,
            ap (λ (c : Context). c.job.steps) (if_of_true _ _ _ removed) ∙ e ∙ ap (touched o) steps,
          )
      | inr kept ↦ (
        none,
        ap (λ (c : Context). c.job.steps) (if_of_false _ _ _ kept)
            ∙ steps
            ∙ sym (touch-none (interrupted_steps now reason ctx.job.steps)),
      )
    ]

-- The done steps but for that of the preparation.
abbrev pub is_kept : Step → Bool
is_kept s = is_done s.status && not (str_eq s.stage_key prepare_key)

after_reset_lem :
    (now : ℕ) (j : Job) (keys : List String) (steps : List Step)
    → 1 ≤ length keys
    → ((after_reset now j (keys, steps)).1.status ≡ JobStatus.queued)
      × ((after_reset now j (keys, steps)).1.steps ≡ steps)
unfolding after_reset
after_reset_lem now j [] steps some_key = absurd (omega (arith, some_key))
after_reset_lem now j (k ∷ ks) steps some_key =
    let (id, status, flag, kept) = requeue_lem now (record j { steps = steps }) in (status, kept)

kept_touched : (o : Option (Bool × String)) (s : Step) → is_kept s ≡ true → touch o s ≡ s
kept_touched none s k = refl
kept_touched (some (booted, why)) s k =
    let other : str_eq s.stage_key prepare_key ≡ false = ground (arith, k) in
    if_of_false (str_eq s.stage_key prepare_key) _ _ other

kept_interrupted :
    (now : ℕ) (reason : String) (s : Step) → is_kept s ≡ true → interrupt_step now reason s ≡ s
kept_interrupted now reason s k = ground (arith, k)

kept_reset : (s : Step) → is_kept s ≡ true → reset_step JobStatus.interrupted none s ≡ s
kept_reset s k = ground (arith, k)

-- No step becomes one of the kept.
dropped_interrupted :
    (now : ℕ) (reason : String) (s : Step)
    → is_kept s ≡ false
    → is_kept (interrupt_step now reason s) ≡ false
dropped_interrupted now reason s k = ground (arith, k)

dropped_touched :
    (o : Option (Bool × String)) (s : Step) → is_kept s ≡ false → is_kept (touch o s) ≡ false
dropped_touched none s k = k
dropped_touched (some (booted, why)) s k = ground (arith, k)

dropped_reset :
    (s : Step) → is_kept s ≡ false → is_kept (reset_step JobStatus.interrupted none s) ≡ false
dropped_reset s k = ground (arith, k)

-- A step that was running is reset.
running_reset :
    (now : ℕ) (reason : String) (o : Option (Bool × String)) (s : Step)
    → is_step_running s.status ≡ true
    → should_reset JobStatus.interrupted none (touch o (interrupt_step now reason s)) ≡ true
running_reset now reason none s r = ground (arith, r)
running_reset now reason (some (booted, why)) s r = ground (arith, r)

touched_unfinished :
    (o : Option (Bool × String)) (s : Step)
    → is_unfinished (reset_step JobStatus.interrupted none (touch o s)) ≡ false
touched_unfinished none s = ground arith
touched_unfinished (some (booted, why)) s = ground arith

module _ (now : ℕ) (reason : String) (o : Option (Bool × String)) where
  abbrev left_step : Step → Step
  left_step s = touch o (interrupt_step now reason s)

  abbrev resumed_step : Step → Step
  resumed_step s = reset_step JobStatus.interrupted none (left_step s)

  abbrev resumed_steps : List Step → List Step
  resumed_steps steps =
      map (reset_step JobStatus.interrupted none) (touched o (interrupted_steps now reason steps))

  none_unfinished : (steps : List Step) → any is_unfinished (resumed_steps steps) ≡ false
  none_unfinished [] = refl
  none_unfinished (s ∷ ss) =
      ground (arith, touched_unfinished o (interrupt_step now reason s), none_unfinished ss)

  done_kept :
      (steps : List Step) → filter_if is_kept (resumed_steps steps) ≡ filter_if is_kept steps
  done_kept [] = refl
  done_kept (s ∷ ss) = elim (Bool-cases (is_kept s)) [
    | inl k ↦
        let same : resumed_step s ≡ s =
          ap (λ t. reset_step JobStatus.interrupted none (touch o t))
            (kept_interrupted now reason s k)
          ∙ ap (reset_step JobStatus.interrupted none) (kept_touched o s k)
          ∙ kept_reset s k in
        rw (same, k) (ap (λ r. s ∷ r) (done_kept ss))
    | inr d ↦
        let dropped : is_kept (resumed_step s) ≡ false =
          dropped_reset (left_step s) (
            dropped_touched o (interrupt_step now reason s) (dropped_interrupted now reason s d)) in
        rw (dropped, d) (done_kept ss)
  ]

  some_reset :
      (steps : List Step)
      → any (λ (s : Step). is_step_running s.status) steps ≡ true
      → 1
        ≤ length (
            filter_if
              (should_reset JobStatus.interrupted none)
              (touched o (interrupted_steps now reason steps)))
  some_reset [] h = absurd (false≢true h)
  some_reset (s ∷ ss) h = elim (Bool-cases (is_step_running s.status)) [
    | inl r ↦ rw (running_reset now reason o s r) (omega arith)
    | inr other ↦ ground (arith, some_reset ss (ground (arith, h, other)))
  ]

  left-resumes :
      (later : ℕ) (j : Job) (steps : List Step)
      → j.status ≡ JobStatus.interrupted
      → j.steps ≡ touched o (interrupted_steps now reason steps)
      → any (λ (s : Step). is_step_running s.status) steps ≡ true
      → let resumed = (reset_for_retry later none j).1 in
        (resumed.status ≡ JobStatus.queued)
        × (any is_unfinished resumed.steps ≡ false)
        × (filter_if is_kept resumed.steps ≡ filter_if is_kept steps)
  unfolding reset_for_retry
  left-resumes later j steps status shape running =
      let left_steps = touched o (interrupted_steps now reason steps) in
      let reset = reset_steps j.status none j.steps in
      let (which, after) = reset_steps_lem j.status none j.steps in
      let keys : reset.0
          ≡ map (λ (s : Step). s.stage_key)
              (filter_if (should_reset JobStatus.interrupted none) left_steps) =
        rw (sym status, sym shape) which in
      let left : reset.1 ≡ resumed_steps steps = rw (sym status, sym shape) after in
      let many : 1 ≤ length reset.0 = ground (
        arith,
        keys,
        length-map (filter_if (should_reset JobStatus.interrupted none) left_steps)
            (λ (s : Step). s.stage_key),
        some_reset steps running,
      ) in
      let (queued, kept) = after_reset_lem later j reset.0 reset.1 many in
      let all_left = kept ∙ left in
      (
        queued,
        ap (any is_unfinished) all_left ∙ none_unfinished steps,
        ap (filter_if is_kept) all_left ∙ done_kept steps,
      )

-- A job that is interrupted while a stage is running, and that is then reset for a retry of all its
-- stages, is QUEUED; each of its steps is done (SUCCEEDED, SKIPPED, WARNING or NOT_APPLICABLE) or
-- PENDING; and its done steps, but for the preparation of the answer media, which the interruption may
-- reset when it removes them, are those that it had before, unchanged.
pub interrupted_job-resumes :
    (now later : ℕ) (reason : String) (outside : Option Environment) (ctx : Context)
    → any (λ (s : Step). is_step_running s.status) ctx.job.steps ≡ true
    → let resumed = (reset_for_retry later none (interrupt now reason outside ctx).job).1 in
      (resumed.status ≡ JobStatus.queued)
      × (any is_unfinished resumed.steps ≡ false)
      × (filter_if is_kept resumed.steps ≡ filter_if is_kept ctx.job.steps)
interrupted_job-resumes now later reason outside ctx running =
    let (o, steps) = interrupt-touched now reason outside ctx in
    left-resumes now reason o later (interrupt now reason outside ctx).job ctx.job.steps
      (status-interrupt now reason outside ctx) steps running
