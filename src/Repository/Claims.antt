-- ===== src/Repository/Claims.antt =====
-- Which jobs claim_due_jobs of backend/app/repositories/jobs.py claims.
pub mod Once
pub mod Consistent
pub mod Drained
use infra_ops.Prelude.{
  ℕ, zero, suc, ◌+◌, ◌≤◌, ◌≡◌, refl, sym, ap, ◌∙◌, Bool, true, String, List, [], ◌∷◌, arith, length,
  take, count_if, filter_if, All, leb, Bool-cases, inl, inr, ◌⊎◌, ◌&&◌, if◌then◌else◌, ◌==◌, map,
}
use mathlib.Core.Bool.{false≢true}
use infra_ops.Jobs.{Job}
use infra_ops.Repository.Queue.{
  insert_by_queued_at, order_by_queued_at, is_due, due_jobs, claim, has_id, claim_due_jobs,
}

-- Every job was queued no later than those after it.
abbrev pub IsOrdered : List Job → Type 0
IsOrdered [] = Unit
IsOrdered (j ∷ js) = All (λ (o : Job). j.queued_at ≤ o.queued_at) js × IsOrdered js

-- No job of the first list was queued later than one of the second.
abbrev pub Precedes : List Job → List Job → Type 0
Precedes [] later = Unit
Precedes (j ∷ js) later = All (λ (o : Job). j.queued_at ≤ o.queued_at) later × Precedes js later

All-insert :
    (t : ℕ) (j : Job) (jobs : List Job)
    → t ≤ j.queued_at
    → All (λ (o : Job). t ≤ o.queued_at) jobs
    → All (λ (o : Job). t ≤ o.queued_at) (insert_by_queued_at j jobs)
unfolding insert_by_queued_at
All-insert t j [] p ps = (p, tt)
All-insert t j (o ∷ js) p ps = elim (Bool-cases (leb j.queued_at o.queued_at)) [
  | inl first ↦ rw first (p, ps)
  | inr later ↦ rw later (ps.0, All-insert t j js p ps.1)
]

All-earlier :
    (a b : ℕ) (jobs : List Job)
    → a ≤ b
    → All (λ (o : Job). b ≤ o.queued_at) jobs
    → All (λ (o : Job). a ≤ o.queued_at) jobs
All-earlier a b [] le h = tt
All-earlier a b (o ∷ js) le h = (omega (arith, le, h.0), All-earlier a b js le h.1)

insert-IsOrdered :
    (j : Job) (jobs : List Job) → IsOrdered jobs → IsOrdered (insert_by_queued_at j jobs)
unfolding insert_by_queued_at
insert-IsOrdered j [] h = (tt, tt)
insert-IsOrdered j (o ∷ js) h = elim (Bool-cases (leb j.queued_at o.queued_at)) [
  | inl first ↦
      let le : j.queued_at ≤ o.queued_at = ground (arith, first) in
      rw first ((le, All-earlier j.queued_at o.queued_at js le h.0), h)
  | inr later ↦
      let le : o.queued_at ≤ j.queued_at = ground (arith, later) in
      rw later (All-insert o.queued_at j js le h.0, insert-IsOrdered j js h.1)
]

order-IsOrdered : (jobs : List Job) → IsOrdered (order_by_queued_at jobs)
unfolding order_by_queued_at
order-IsOrdered [] = tt
order-IsOrdered (j ∷ js) = insert-IsOrdered j (order_by_queued_at js) (order-IsOrdered js)

count-insert :
    (p : Job → Bool) (j : Job) (jobs : List Job)
    → count_if p (insert_by_queued_at j jobs) ≡ count_if p (j ∷ jobs)
unfolding insert_by_queued_at
count-insert p j [] = refl
count-insert p j (o ∷ js) = ground (arith, count-insert p j js)

count-order :
    (p : Job → Bool) (jobs : List Job) → count_if p (order_by_queued_at jobs) ≡ count_if p jobs
unfolding order_by_queued_at
count-order p [] = refl
count-order p (j ∷ js) = ground (arith, count-order p js, count-insert p j (order_by_queued_at js))

-- What `take` leaves.
abbrev pub drop {ℓ} : {A : Type ℓ} → ℕ → List A → List A
drop zero xs = xs
drop (suc n) [] = []
drop (suc n) (x ∷ xs) = drop n xs

All-drop :
    (t n : ℕ) (jobs : List Job)
    → All (λ (o : Job). t ≤ o.queued_at) jobs
    → All (λ (o : Job). t ≤ o.queued_at) (drop n jobs)
All-drop t zero jobs ps = ps
All-drop t (suc n) [] ps = tt
All-drop t (suc n) (j ∷ js) ps = All-drop t n js ps.1

take-Precedes : (n : ℕ) (jobs : List Job) → IsOrdered jobs → Precedes (take n jobs) (drop n jobs)
take-Precedes zero jobs h = tt
take-Precedes (suc n) [] h = tt
take-Precedes (suc n) (j ∷ js) h = (All-drop j.queued_at n js h.0, take-Precedes n js h.1)

count-take-drop :
    (p : Job → Bool) (n : ℕ) (jobs : List Job)
    → count_if p (take n jobs) + count_if p (drop n jobs) ≡ count_if p jobs
count-take-drop p zero jobs = omega arith
count-take-drop p (suc n) [] = omega arith
count-take-drop p (suc n) (j ∷ js) = ground (arith, count-take-drop p n js)

length-take-drop :
    {A : Type 0} (n : ℕ) (xs : List A)
    → (length (take n xs) ≤ n) × (length (drop n xs) ≡ 0 ⊎ (length (take n xs) ≡ n))
length-take-drop zero xs = (omega arith, inr refl)
length-take-drop (suc n) [] = (omega arith, inl refl)
length-take-drop (suc n) (x ∷ xs) =
    let (le, full) = length-take-drop n xs in
    (
      omega arith,
      elim full [ inl none_left ↦ inl none_left | inr all_used ↦ inr (ap suc all_used) ],
    )

count-filter :
    (p q : Job → Bool) (jobs : List Job)
    → count_if p (filter_if q jobs) ≡ count_if (λ j. q j && p j) jobs
count-filter p q [] = refl
count-filter p q (j ∷ js) = ground (arith, count-filter p q js)

-- The jobs that wait when the claim of at most `limit` jobs is made, less those that are claimed.
unfoldable pub left_waiting : ℕ → ℕ → (ℕ → Bool) → List Job → List Job
left_waiting now limit locked jobs =
    drop limit (order_by_queued_at (filter_if (is_due now locked) jobs))

-- A claim selects at most `limit` jobs. They and the jobs left waiting are together the QUEUED jobs
-- that are due and that no other transaction has locked, each as often as in the table; none of them
-- was queued later than one left waiting; and none is left waiting unless `limit` jobs are selected.
pub due_jobs_lem :
    (now limit : ℕ) (locked : ℕ → Bool) (jobs : List Job) (p : Job → Bool)
    → let due = due_jobs now limit locked jobs in
      let left = left_waiting now limit locked jobs in
      (length due ≤ limit)
      × (count_if p due + count_if p left ≡ count_if (λ j. is_due now locked j && p j) jobs)
      × Precedes due left
      × ((length left ≡ 0) ⊎ (length due ≡ limit))
unfolding due_jobs left_waiting
due_jobs_lem now limit locked jobs p =
    let waiting = filter_if (is_due now locked) jobs in
    let ordered = order_by_queued_at waiting in
    let (le, full) = length-take-drop limit ordered in
    (
      le,
      count-take-drop p limit ordered
          ∙ count-order p waiting
          ∙ count-filter p (is_due now locked) jobs,
      take-Precedes limit ordered (order-IsOrdered waiting),
      full,
    )
