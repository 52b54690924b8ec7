-- ===== src/Repository/Claims/Consistent.antt =====
-- A claim keeps the job table consistent.
use infra_ops.Prelude.{
  ℕ, ◌+◌, ◌≤◌, ◌≡◌, refl, Bool, true, ◌&&◌, not, String, List, [], ◌∷◌, some, arith, count_if,
  Bool-cases, inl, inr, if◌then◌else◌, ◌==◌, map,
}
use infra_ops.Jobs.{Job}
use infra_ops.Repository.Table.{holds_vm_name, holds_ipv4}
use infra_ops.Repository.Unique.{IsConsistent, holds_key}
use infra_ops.Repository.Queue.{is_due, due_jobs, claim, has_id, claim_due_jobs}
use infra_ops.Repository.Claims.{due_jobs_lem}

counted : (id : ℕ) (jobs : List Job) → has_id id jobs ≡ true → 1 ≤ count_if (λ j. j.id == id) jobs
counted id [] h = ground arith
counted id (j ∷ js) h = ground (arith, counted id js)

count-split :
    (now : ℕ) (locked : ℕ → Bool) (id : ℕ) (jobs : List Job)
    → count_if (λ j. is_due now locked j && j.id == id) jobs
        + count_if (λ j. not (is_due now locked j) && j.id == id) jobs
      ≡ count_if (λ j. j.id == id) jobs
count-split now locked id [] = omega arith
count-split now locked id (j ∷ js) = ground (arith, count-split now locked id js)

module _ (now limit : ℕ) (worker_id : String) (locked : ℕ → Bool) (jobs : List Job) where
  abbrev due : List Job
  due = due_jobs now limit locked jobs

  -- The rows of a claimed identifier are due.
  none_idle :
      (id : ℕ)
      → count_if (λ j. j.id == id) jobs ≤ 1
      → has_id id due ≡ true
      → count_if (λ j. not (is_due now locked j) && j.id == id) jobs ≡ 0
  none_idle id one held =
      let (le, split, rest, full) = due_jobs_lem now limit locked jobs (λ j. j.id == id) in
      omega (arith, counted id due held, split, one, count-split now locked id jobs)

  abbrev claimed_row : Job → Job
  claimed_row j = if has_id j.id due then claim now worker_id j else j

  -- A test that a claim does not change counts as many rows after it.
  count-claimed :
      (p : Job → Bool)
      → ((j : Job) → is_due now locked j ≡ true → p (claim now worker_id j) ≡ p j)
      → (rest : List Job)
      → ((id : ℕ)
          → has_id id due ≡ true
          → count_if (λ j. not (is_due now locked j) && j.id == id) rest ≡ 0)
      → count_if p (map claimed_row rest) ≡ count_if p rest
  count-claimed p same [] idle = refl
  count-claimed p same (j ∷ js) idle =
      let later = count-claimed p same js (λ id held. ground (arith, idle id held)) in
      elim (Bool-cases (has_id j.id due)) [
        | inr other ↦ rw other (ground (arith, later))
        | inl held ↦
            let ready : is_due now locked j ≡ true = ground (arith, idle j.id held) in
            rw held (ground (arith, later, same j ready))
      ]

  counts :
      (p : Job → Bool)
      → ((id : ℕ) → count_if (λ j. j.id == id) jobs ≤ 1)
      → ((j : Job) → is_due now locked j ≡ true → p (claim now worker_id j) ≡ p j)
      → count_if p (map claimed_row jobs) ≡ count_if p jobs
  counts p one same = count-claimed p same jobs (λ id held. none_idle id (one id) held)

  claimed-IsConsistent : IsConsistent jobs → IsConsistent (map claimed_row jobs)
  unfolding claim
  claimed-IsConsistent (ids, keys, names, addresses) = (
    λ id. rw (counts (λ j. j.id == id) ids (λ j ready. refl)) (ids id),
    λ key. rw (counts (holds_key (some key)) ids (λ j ready. refl)) (keys key),
    λ name. rw (counts (holds_vm_name name) ids (λ j ready. ground (arith, ready))) (names name),
    λ a. rw (counts (holds_ipv4 (some a)) ids (λ j ready. ground (arith, ready))) (addresses a),
  )

-- If the job table has at most one row per identifier and per idempotency key, and at most one active
-- job per VM name (letter case aside) and per reserved IPv4 address, so it does after a claim.
pub claim_due_jobs-IsConsistent :
    (now limit : ℕ) (worker_id : String) (locked : ℕ → Bool) (jobs : List Job)
    → IsConsistent jobs
    → IsConsistent (claim_due_jobs now limit worker_id locked jobs).1
unfolding claim_due_jobs
claim_due_jobs-IsConsistent now limit worker_id locked jobs h = elim (Bool-cases (limit == 0)) [
  | inl full ↦ rw full h
  | inr free ↦ rw free (claimed-IsConsistent now limit worker_id locked jobs h)
]
