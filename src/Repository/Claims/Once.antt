-- ===== src/Repository/Claims/Once.antt =====
-- No job is claimed twice.
use infra_ops.Prelude.{
  ℕ, ◌≡◌, refl, sym, ◌∙◌, Bool, true, String, List, [], ◌∷◌, arith, count_if, Bool-cases, inl, inr,
  ◌&&◌, if◌then◌else◌, ◌==◌, map,
}
use mathlib.Core.Bool.{false≢true}
use infra_ops.Jobs.{Job}
use infra_ops.Repository.Queue.{is_due, due_jobs, claim, has_id, claim_due_jobs}
use infra_ops.Repository.Claims.{due_jobs_lem}

has_id-map-claim :
    (now : ℕ) (worker_id : String) (id : ℕ) (jobs : List Job)
    → has_id id (map (claim now worker_id) jobs) ≡ has_id id jobs
unfolding claim
has_id-map-claim now worker_id id [] = refl
has_id-map-claim now worker_id id (j ∷ js) = ground (arith, has_id-map-claim now worker_id id js)

count-map-claim :
    (now : ℕ) (worker_id : String) (id : ℕ) (jobs : List Job)
    → count_if (λ j. j.id == id) (map (claim now worker_id) jobs) ≡ count_if (λ j. j.id == id) jobs
unfolding claim
count-map-claim now worker_id id [] = refl
count-map-claim now worker_id id (j ∷ js) = ground (arith, count-map-claim now worker_id id js)

-- The rows of claimed identifiers are RUNNING, so none of them is due.
claimed_not_due :
    (now later : ℕ) (worker_id : String) (locked : ℕ → Bool) (id : ℕ) (due jobs : List Job)
    → has_id id due ≡ true
    → count_if
        (λ j. is_due later locked j && j.id == id)
        (map (λ j. if has_id j.id due then claim now worker_id j else j) jobs)
      ≡ 0
unfolding claim
claimed_not_due now later worker_id locked id due [] held = refl
claimed_not_due now later worker_id locked id due (j ∷ js) held = elim (Bool-cases (j.id == id)) [
  | inl same ↦
      let e : j.id ≡ id = ground (arith, same) in
      let mine : has_id j.id due ≡ true = rw e held in
      rw mine (claimed_not_due now later worker_id locked id due js held)
  | inr other ↦ ground (arith, other, claimed_not_due now later worker_id locked id due js held)
]

-- A claim selects no row of an identifier whose rows are not due.
selected_is_due :
    (now limit : ℕ) (locked : ℕ → Bool) (jobs : List Job) (id : ℕ)
    → count_if (λ j. is_due now locked j && j.id == id) jobs ≡ 0
    → count_if (λ j. j.id == id) (due_jobs now limit locked jobs) ≡ 0
selected_is_due now limit locked jobs id idle =
    let (le, split, rest, full) = due_jobs_lem now limit locked jobs (λ j. j.id == id) in
    omega (arith, split, idle)

-- The job that one claim hands to a worker is not handed out by the next claim, at any time, whatever
-- its limit, its worker and its locks.
pub claim_due_jobs_once :
    (now later limit more : ℕ) (worker other : String) (locked locked' : ℕ → Bool) (jobs : List Job)
    (id : ℕ)
    → has_id id (claim_due_jobs now limit worker locked jobs).0 ≡ true
    → count_if
        (λ j. j.id == id)
        (claim_due_jobs later more other locked' (claim_due_jobs now limit worker locked jobs).1).0
      ≡ 0
unfolding claim_due_jobs
claim_due_jobs_once now later limit more worker other locked locked' jobs id held =
    let due = due_jobs now limit locked jobs in
    let after = map (λ j. if has_id j.id due then claim now worker j else j) jobs in
    elim (Bool-cases (limit == 0)) [
      | inl idle ↦ absurd (false≢true (rw idle at held))
      | inr works ↦
          let mine : has_id id due ≡ true =
            sym (has_id-map-claim now worker id due) ∙ (rw works at held) in
          let none_due = claimed_not_due now later worker locked' id due jobs mine in
          elim (Bool-cases (more == 0)) [
            | inl full ↦ rw (works, full) refl
            | inr free ↦
                rw (works, free)
                  (count-map-claim later other id (due_jobs later more locked' after)
                    ∙ selected_is_due later more locked' after id none_due)
          ]
    ]
