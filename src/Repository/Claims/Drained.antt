-- ===== src/Repository/Claims/Drained.antt =====
-- Repeated claims leave no due job waiting.
use infra_ops.Prelude.{
  ℕ, suc, ◌+◌, ◌≤◌, ◌<◌, ◌≡◌, refl, ap, All, sym, ◌∙◌, Bool, true, false, String, List, [], ◌∷◌,
  some, ◌⊎◌, subst, arith, count_if, length, Bool-cases, inl, inr, ◌&&◌, if◌then◌else◌, ◌==◌, map,
}
use mathlib.Core.Bool.{false≢true}
use infra_ops.Jobs.{Job, JobStatus}
use infra_ops.Repository.Queue.{is_due, due_jobs, claim, has_id, claim_due_jobs}
use infra_ops.Repository.Claims.{due_jobs_lem, left_waiting}

abbrev pub due_count : ℕ → (ℕ → Bool) → List Job → ℕ
due_count now locked jobs = count_if (is_due now locked) jobs

-- The rows of a claimed identifier are due no more, and no row becomes due.
claimed_less :
    (now : ℕ) (worker_id : String) (locked : ℕ → Bool) (id : ℕ) (due jobs : List Job)
    → has_id id due ≡ true
    → due_count now locked (map (λ j. if has_id j.id due then claim now worker_id j else j) jobs)
        + count_if (λ j. is_due now locked j && j.id == id) jobs
      ≤ due_count now locked jobs
unfolding claim
claimed_less now worker_id locked id due [] held = omega arith
claimed_less now worker_id locked id due (j ∷ js) held =
    let ih = claimed_less now worker_id locked id due js held in
    elim (Bool-cases (has_id j.id due)) [
      | inl mine ↦ rw mine (ground (arith, ih))
      | inr other ↦ elim (Bool-cases (j.id == id)) [
        | inl same ↦
            let e : j.id ≡ id = ground (arith, same) in absurd (false≢true (sym other ∙ rw e held))
        | inr apart ↦ rw other (ground (arith, ih, apart))
      ]
    ]

first_has_id : (d : Job) (ds : List Job) → has_id d.id (d ∷ ds) ≡ true
first_has_id d ds = ground arith

count-all : (jobs : List Job) → count_if (λ (j : Job). true) jobs ≡ length jobs
count-all [] = refl
count-all (j ∷ js) = ap suc (count-all js)

count-both :
    (now : ℕ) (locked : ℕ → Bool) (jobs : List Job)
    → count_if (λ j. is_due now locked j && true) jobs ≡ due_count now locked jobs
count-both now locked [] = refl
count-both now locked (j ∷ js) = ground (arith, count-both now locked js)

-- A claim that may take a job takes one, if one is due.
claimed_one :
    (now limit : ℕ) (worker_id : String) (locked : ℕ → Bool) (jobs due : List Job)
    → due_jobs now limit locked jobs ≡ due
    → 1 ≤ limit
    → 1 ≤ due_count now locked jobs
    → due_count now locked (map (λ j. if has_id j.id due then claim now worker_id j else j) jobs)
      < due_count now locked jobs
claimed_one now limit worker_id locked jobs [] e l d =
    let (le, split, order, full) = due_jobs_lem now limit locked jobs (λ j. true) in
    let none_due = ap length e in
    let all_left = count-all (left_waiting now limit locked jobs) in
    let all_due = count-all (due_jobs now limit locked jobs) in
    let both = count-both now locked jobs in
    elim full [
      | inl nothing ↦ absurd (omega (arith, split, none_due, all_left, all_due, both, nothing, d))
      | inr used ↦ absurd (omega (arith, none_due, used, l))
    ]
claimed_one now limit worker_id locked jobs (first ∷ rest) e l d =
    let (le, split, order, full) = due_jobs_lem now limit locked jobs (λ j. j.id == first.id) in
    let among = ap (count_if (λ j. j.id == first.id)) e in
    let less =
      claimed_less now worker_id locked first.id (first ∷ rest) jobs (first_has_id first rest) in
    let here : 1 ≤ count_if (λ j. j.id == first.id) (first ∷ rest) = ground arith in
    omega (arith, split, among, less, here)

claim_takes :
    (now limit : ℕ) (worker_id : String) (locked : ℕ → Bool) (jobs : List Job)
    → 1 ≤ limit
    → 1 ≤ due_count now locked jobs
    → due_count now locked (claim_due_jobs now limit worker_id locked jobs).1
      < due_count now locked jobs
unfolding claim_due_jobs
claim_takes now limit worker_id locked jobs l d =
    let works : (limit == 0) ≡ false = ground arith in
    rw works (claimed_one now limit worker_id locked jobs (due_jobs now limit locked jobs) refl l d)

-- A claim of a table with no due job leaves it with none.
claim_keeps_none :
    (now limit : ℕ) (worker_id : String) (locked : ℕ → Bool) (jobs due : List Job)
    → due_count now locked jobs ≡ 0
    → due_count now locked (map (λ j. if has_id j.id due then claim now worker_id j else j) jobs)
      ≡ 0
unfolding claim
claim_keeps_none now limit worker_id locked [] due d = refl
claim_keeps_none now limit worker_id locked (j ∷ js) due d = elim (Bool-cases (has_id j.id due)) [
  | inl mine ↦ rw mine (claim_keeps_none now limit worker_id locked js due (ground arith))
  | inr other ↦ rw other (ground (arith, claim_keeps_none now limit worker_id locked js due))
]

claim_none :
    (now limit : ℕ) (worker_id : String) (locked : ℕ → Bool) (jobs : List Job)
    → due_count now locked jobs ≡ 0
    → due_count now locked (claim_due_jobs now limit worker_id locked jobs).1 ≡ 0
unfolding claim_due_jobs
claim_none now limit worker_id locked jobs d = elim (Bool-cases (limit == 0)) [
  | inl idle ↦ rw idle d
  | inr works ↦
      rw works (claim_keeps_none now limit worker_id locked jobs (due_jobs now limit locked jobs) d)
]

-- The table after claims one after another, each by its worker and with its limit.
abbrev pub after_claims : ℕ → (ℕ → Bool) → List (String × ℕ) → List Job → List Job
after_claims now locked [] jobs = jobs
after_claims now locked ((worker, limit) ∷ claims) jobs =
    after_claims now locked claims (claim_due_jobs now limit worker locked jobs).1

abbrev pub MayTake : List (String × ℕ) → Type 0
MayTake claims = All (λ c. 1 ≤ c.1) claims

-- A row of the table before and after: as it was, or RUNNING for some worker that has just claimed it.
abbrev Given : ℕ → Job → Job → Type 0
Given now j k =
    (k ≡ j)
    ⊎ ((k.id ≡ j.id)
        × (k.status ≡ JobStatus.running)
        × (k.heartbeat_at ≡ some now)
        × ((w : String) × (k.worker_id ≡ some w)))

abbrev pub AllGiven : ℕ → List Job → List Job → Type 0
AllGiven now [] [] = Unit
AllGiven now [] (k ∷ ks) = ⊥
AllGiven now (j ∷ js) [] = ⊥
AllGiven now (j ∷ js) (k ∷ ks) = Given now j k × AllGiven now js ks

Given-trans : (now : ℕ) (i j k : Job) → Given now i j → Given now j k → Given now i k
Given-trans now i j k a (inl same) = subst (Given now i) (sym same) a
Given-trans now i j k (inl same) (inr (id, running, beat, worker)) =
    inr (id ∙ ap (λ (r : Job). r.id) same, running, beat, worker)
Given-trans now i j k (inr (first, _, _, _)) (inr (id, running, beat, worker)) =
    inr (id ∙ first, running, beat, worker)

AllGiven-refl : (now : ℕ) (js : List Job) → AllGiven now js js
AllGiven-refl now [] = tt
AllGiven-refl now (j ∷ js) = (inl refl, AllGiven-refl now js)

AllGiven-trans :
    (now : ℕ) (is js ks : List Job) → AllGiven now is js → AllGiven now js ks → AllGiven now is ks
AllGiven-trans now [] [] [] a b = tt
AllGiven-trans now [] [] (k ∷ ks) a b = absurd b
AllGiven-trans now [] (j ∷ js) ks a b = absurd a
AllGiven-trans now (i ∷ is) [] ks a b = absurd a
AllGiven-trans now (i ∷ is) (j ∷ js) [] a b = absurd b
AllGiven-trans now (i ∷ is) (j ∷ js) (k ∷ ks) (a, as_) (b, bs) =
    (Given-trans now i j k a b, AllGiven-trans now is js ks as_ bs)

claim-Given :
    (now : ℕ) (worker_id : String) (b : Bool) (j : Job)
    → Given now j (if b then claim now worker_id j else j)
unfolding claim
claim-Given now worker_id false j = inl refl
claim-Given now worker_id true j = inr (refl, refl, refl, (worker_id, refl))

claims-AllGiven :
    (now : ℕ) (worker_id : String) (due jobs : List Job)
    → AllGiven now jobs (map (λ j. if has_id j.id due then claim now worker_id j else j) jobs)
claims-AllGiven now worker_id due [] = tt
claims-AllGiven now worker_id due (j ∷ js) =
    (claim-Given now worker_id (has_id j.id due) j, claims-AllGiven now worker_id due js)

claim_due_jobs-AllGiven :
    (now limit : ℕ) (worker_id : String) (locked : ℕ → Bool) (jobs : List Job)
    → AllGiven now jobs (claim_due_jobs now limit worker_id locked jobs).1
unfolding claim_due_jobs
claim_due_jobs-AllGiven now limit worker_id locked jobs = elim (Bool-cases (limit == 0)) [
  | inl idle ↦ rw idle (AllGiven-refl now jobs)
  | inr works ↦ rw works (claims-AllGiven now worker_id (due_jobs now limit locked jobs) jobs)
]

after_claims-AllGiven :
    (now : ℕ) (locked : ℕ → Bool) (claims : List (String × ℕ)) (jobs : List Job)
    → AllGiven now jobs (after_claims now locked claims jobs)
after_claims-AllGiven now locked [] jobs = AllGiven-refl now jobs
after_claims-AllGiven now locked ((worker, limit) ∷ claims) jobs =
    let next = (claim_due_jobs now limit worker locked jobs).1 in
    AllGiven-trans now jobs next (after_claims now locked claims next)
      (claim_due_jobs-AllGiven now limit worker locked jobs)
      (after_claims-AllGiven now locked claims next)

none_due :
    (now : ℕ) (locked : ℕ → Bool) (claims : List (String × ℕ)) (jobs : List Job)
    → MayTake claims
    → count_if (is_due now locked) jobs ≤ length claims
    → count_if (is_due now locked) (after_claims now locked claims jobs) ≡ 0
none_due now locked [] jobs m l = omega arith
none_due now locked ((worker, limit) ∷ claims) jobs (some_limit, m) l =
    let next = (claim_due_jobs now limit worker locked jobs).1 in
    elim (Bool-cases (due_count now locked jobs == 0)) [
      | inl idle ↦
          let z = claim_none now limit worker locked jobs (ground (arith, idle)) in
          none_due now locked claims next m (omega (arith, z))
      | inr waits ↦
          let t = claim_takes now limit worker locked jobs some_limit (ground (arith, waits)) in
          none_due now locked claims next m (omega (arith, t, l))
    ]

-- Every due job that no other transaction has locked is handed to a worker in the end: after as many
-- claims as there are such jobs, each by any worker that may take at least one job, no unlocked job is
-- due any more, and every row of the table is as it was, or it is the same job, RUNNING for a worker,
-- with the time of the claims as its heartbeat.
pub claim_due_jobs_drain :
    (now : ℕ) (locked : ℕ → Bool) (claims : List (String × ℕ)) (jobs : List Job)
    → MayTake claims
    → count_if (is_due now locked) jobs ≤ length claims
    → (count_if (is_due now locked) (after_claims now locked claims jobs) ≡ 0)
      × AllGiven now jobs (after_claims now locked claims jobs)
claim_due_jobs_drain now locked claims jobs m l =
    (none_due now locked claims jobs m l, after_claims-AllGiven now locked claims jobs)
