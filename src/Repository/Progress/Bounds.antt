-- ===== src/Repository/Progress/Bounds.antt =====
-- What the progress of a job says: a percentage, which is 100 exactly for a job with nothing left.
use infra_ops.Prelude.{
  ℕ, zero, suc, ◌+◌, ◌-◌, ◌≤◌, ◌<◌, Bool, true, false, length, ◌==◌, ltb, if◌then◌else◌, ◌≡◌, refl,
  arith, ◌&&◌, ◌↔◌, count_if_exclusive,
}
use infra_ops.Jobs.{Job}
use infra_ops.Repository.Progress.{percent, actionable, done_count, running_count, compute_progress}

-- The percentage at one triple of counts is 100 exactly when the done steps are all of them.
full_when_done : ℕ → ℕ → ℕ → Bool
full_when_done done running total =
    if done == total
    then percent done running total == 100
    else ltb (percent done running total) 100

-- The triples with at most `r` running steps.
check_running : ℕ → ℕ → ℕ → Bool
unfolding full_when_done
check_running d zero n = full_when_done d 0 n
check_running d (suc r) n = full_when_done d (suc r) n && check_running d r n

-- The triples with at most `d` done steps.
check_done : ℕ → ℕ → Bool
unfolding check_running
check_done zero n = check_running 0 n n
check_done (suc d) n = check_running (suc d) (n - suc d) n && check_done d n

-- The triples of at most `n` actionable steps.
check_total : ℕ → Bool
unfolding check_done
check_total zero = true
check_total (suc n) = check_done (suc n) (suc n) && check_total n

check_total_26 : check_total 26 ≡ true
unfolding check_total percent
check_total_26 = refl

check_running_sound :
    (d k n r : ℕ) → check_running d k n ≡ true → r ≤ k → full_when_done d r n ≡ true
unfolding check_running
check_running_sound d zero n zero h le = h
check_running_sound d zero n (suc r) h le = absurd (omega arith)
check_running_sound d (suc k) n r h le = ground (arith, check_running_sound d k n r)

check_done_sound :
    (k n d r : ℕ) → check_done k n ≡ true → d ≤ k → d + r ≤ n → full_when_done d r n ≡ true
unfolding check_done
check_done_sound zero n zero r h le fits = check_running_sound 0 n n r h (omega arith)
check_done_sound zero n (suc d) r h le fits = absurd (omega arith)
check_done_sound (suc k) n d r h le fits =
    ground (arith, check_running_sound (suc k) (n - suc k) n r, check_done_sound k n d r)

check_total_sound :
    (k n d r : ℕ) → check_total k ≡ true → 0 < n → n ≤ k → d + r ≤ n → full_when_done d r n ≡ true
unfolding check_total
check_total_sound zero n d r h pos le fits = absurd (omega arith)
check_total_sound (suc k) n d r h pos le fits =
    ground (arith, check_done_sound (suc k) (suc k) d r, check_total_sound k n d r)

pub compute_progress-le : (j : Job) → compute_progress j ≤ 100
unfolding compute_progress
compute_progress-le j = ground arith

done_or_running : (j : Job) → done_count j + running_count j ≤ length (actionable j)
done_or_running j = count_if_exclusive _ _ (λ s h. ground arith) (actionable j)

full_when_done_iff : (d r n : ℕ) → full_when_done d r n ≡ true → (percent d r n ≡ 100) ↔ (d ≡ n)
unfolding full_when_done
full_when_done_iff d r n h = ground arith

guarded_full :
    (d n p : ℕ)
    → (0 < n → (p ≡ 100) ↔ (d ≡ n))
    → ((if n == 0 then 0 else p) ≡ 100) ↔ ((0 < n) × (d ≡ n))
guarded_full d zero p h = (λ e. absurd (omega arith), λ e. absurd (omega arith))
guarded_full d (suc n) p h =
    let (to, from) = h (omega arith) in
    let pos : (suc n == 0) ≡ false = ground arith in
    rw pos (λ e. (omega arith, to e), λ e. from e.1)

-- The progress of a job is at most 100. With at most 26 actionable steps, as many as there are
-- stages, it is 100 exactly when the job has an actionable step and all of them have succeeded, given
-- a warning or been cancelled.
pub compute_progress_full :
    (j : Job)
    → length (actionable j) ≤ 26
    → (compute_progress j ≤ 100)
      × ((compute_progress j ≡ 100)
          ↔ ((0 < length (actionable j)) × (done_count j ≡ length (actionable j))))
unfolding compute_progress
compute_progress_full j short = (
  compute_progress-le j,
  guarded_full (done_count j) (length (actionable j)) _ λ pos.
      full_when_done_iff _ _ _
        (check_total_sound 26 _ _ _ check_total_26 pos short (done_or_running j)),
)
