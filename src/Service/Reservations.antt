-- ===== src/Service/Reservations.antt =====
-- The calls of backend/app/services/provisioning/service.py keep the job table consistent.
use infra_ops.Prelude.{
  ℕ, ◌≡◌, refl, sym, subst, Bool, ◌&&◌, String, List, [], ◌∷◌, Option, none, some, ◌==◌, count_if,
  inl, inr, Bool-cases, Option-cases,
}
use infra_ops.Prelude.Json.{Json}
use infra_ops.Jobs.{Job, is_interrupted, is_terminal}
use infra_ops.Repository.Table.{
  Flush, flushed, integrity_error, violated, flush_update, flush_insert, idempotency_key,
  vm_name_index, ipv4_index, has_active_job_for_vm,
}
use infra_ops.Repository.Retry.{reset_for_retry, request_cancel, may_hold_unattended_media}
use infra_ops.Repository.Unique.{IsConsistent, put-IsConsistent, insert-IsConsistent}
use infra_ops.Service.Types.{Api, Report, Result, ok, raised}
use infra_ops.Repository.Create.{new_job}
use infra_ops.Service.Submit.{
  Submission, early_reply, row_of, insert_reply, submit_checked, submit_provisioning,
}
use infra_ops.Service.Manage.{
  check_retry, retry_reply, reset_reply, retry_checked, retry_stages, hand_to_worker, cancel_reply,
  cancel_job,
}

-- A flush leaves a consistent table, or an error and no table.
abbrev FlushIsConsistent : Flush → Type 0
FlushIsConsistent (flushed jobs) = IsConsistent jobs
FlushIsConsistent (integrity_error c) = Unit {0}

flush_update-IsConsistent :
    (j : Job) (jobs : List Job) → IsConsistent jobs → FlushIsConsistent (flush_update j jobs)
flush_update-IsConsistent j jobs h = elim (Option-cases (violated j jobs)) [
  | inl clean ↦
      unfold flush_update in rw (clean, FlushIsConsistent) (put-IsConsistent j jobs h clean)
  | inr (c, e) ↦ unfold flush_update in rw (e, FlushIsConsistent) tt
]

flush_insert-IsConsistent :
    (j : Job) (jobs : List Job)
    → IsConsistent jobs
    → count_if (λ o. o.id == j.id) jobs ≡ 0
    → FlushIsConsistent (flush_insert j jobs)
flush_insert-IsConsistent j jobs h fresh = elim (Option-cases (violated j jobs)) [
  | inl clean ↦
      unfold flush_insert in
      rw (clean, FlushIsConsistent) (insert-IsConsistent j jobs h fresh clean)
  | inr (c, e) ↦ unfold flush_insert in rw (e, FlushIsConsistent) tt
]

insert_reply-IsConsistent :
    (s : Submission) (flush : Flush) (api : Api)
    → IsConsistent api.jobs
    → FlushIsConsistent flush
    → IsConsistent (insert_reply s flush api).1.jobs
unfolding insert_reply
insert_reply-IsConsistent s (flushed jobs) api h next = next
insert_reply-IsConsistent s (integrity_error idempotency_key) api h next = h
insert_reply-IsConsistent s (integrity_error vm_name_index) api h next = h
insert_reply-IsConsistent s (integrity_error ipv4_index) api h next = h

row-id : (s : Submission) → (row_of s).id ≡ s.new_id
unfolding new_job
row-id s = refl

inserted-IsConsistent :
    (s : Submission) (api : Api)
    → IsConsistent api.jobs
    → count_if (λ j. j.id == s.new_id) api.jobs ≡ 0
    → IsConsistent (insert_reply s (flush_insert (row_of s) api.jobs) api).1.jobs
inserted-IsConsistent s api h fresh =
    insert_reply-IsConsistent s (flush_insert (row_of s) api.jobs) api h (
      flush_insert-IsConsistent (row_of s) api.jobs h
        (subst (λ (id : ℕ). count_if (λ j. j.id == id) api.jobs ≡ 0) (sym (row-id s)) fresh))

submit_checked-IsConsistent :
    (s : Submission) (early : Option (Result (Job × Bool))) (report : Option Report) (api : Api)
    → IsConsistent api.jobs
    → count_if (λ j. j.id == s.new_id) api.jobs ≡ 0
    → IsConsistent (submit_checked s early report api).1.jobs
unfolding submit_checked
submit_checked-IsConsistent s (some reply) report api h fresh = h
submit_checked-IsConsistent s none none api h fresh = inserted-IsConsistent s api h fresh
submit_checked-IsConsistent s none (some report) api h fresh = elim (Bool-cases report.ready) [
  | inl ready ↦ rw ready (inserted-IsConsistent s api h fresh)
  | inr blocked ↦ rw blocked h
]

-- If the job table has at most one row per identifier and per idempotency key, and at most one
-- active job per VM name (letter case aside) and per reserved IPv4 address, so it does after a
-- submission whose row gets a new identifier, whatever its checks read and however it ends.
pub submit_provisioning-IsConsistent :
    (s : Submission) (checked : List Job) (api : Api)
    → IsConsistent api.jobs
    → count_if (λ j. j.id == s.new_id) api.jobs ≡ 0
    → IsConsistent (submit_provisioning s checked api).1.jobs
unfolding submit_provisioning
submit_provisioning-IsConsistent s checked api h fresh =
    submit_checked-IsConsistent s (early_reply s checked) s.report api h fresh

retry_reply-IsConsistent :
    (user : Option ℕ) (username : Option String) (reset : List String) (job : Job) (flush : Flush)
    (api : Api)
    → IsConsistent api.jobs
    → FlushIsConsistent flush
    → IsConsistent (retry_reply user username reset job flush api).1.jobs
unfolding retry_reply
retry_reply-IsConsistent user username reset job (flushed jobs) api h next = next
retry_reply-IsConsistent user username reset job (integrity_error c) api h next = h

reset_reply-IsConsistent :
    (user : Option ℕ) (username : Option String) (reset : List String) (job : Job) (api : Api)
    → IsConsistent api.jobs
    → IsConsistent (reset_reply user username (reset, job) api).1.jobs
unfolding reset_reply
reset_reply-IsConsistent user username [] job api h = h
reset_reply-IsConsistent user username (k ∷ ks) job api h =
    retry_reply-IsConsistent user username (k ∷ ks) job (flush_update job api.jobs) api h
      (flush_update-IsConsistent job api.jobs h)

retry_checked-IsConsistent :
    (checks : Result (Option (List String))) (now : ℕ) (user : Option ℕ) (username : Option String)
    (job : Job) (api : Api)
    → IsConsistent api.jobs
    → IsConsistent (retry_checked checks now user username job api).1.jobs
unfolding retry_checked
retry_checked-IsConsistent (raised e) now user username job api h = h
retry_checked-IsConsistent (ok keys) now user username job api h =
    let reset = reset_for_retry now keys job in
    elim (Bool-cases (has_active_job_for_vm job.vm_name (some job.id) api.jobs)) [
      | inl held ↦ rw held h
      | inr free ↦ rw free (reset_reply-IsConsistent user username reset.0 reset.1 api h)
    ]

-- If the job table has at most one row per identifier and per idempotency key, and at most one
-- active job per VM name (letter case aside) and per reserved IPv4 address, so it does after a
-- retry, however the retry ends.
pub retry_stages-IsConsistent :
    (readable : Option Json → Bool) (now : ℕ) (user : Option ℕ) (username : Option String)
    (stage_key : Option String) (job : Job) (api : Api)
    → IsConsistent api.jobs
    → IsConsistent (retry_stages readable now user username stage_key job api).1.jobs
unfolding retry_stages
retry_stages-IsConsistent readable now user username stage_key job api h =
    retry_checked-IsConsistent (check_retry readable stage_key job) now user username job api h

cancel_reply-IsConsistent :
    (username : Option String) (job : Job) (flush : Flush) (api : Api)
    → IsConsistent api.jobs
    → FlushIsConsistent flush
    → IsConsistent (cancel_reply username job flush api).1.jobs
unfolding cancel_reply
cancel_reply-IsConsistent username job (flushed jobs) api h next = next
cancel_reply-IsConsistent username job (integrity_error c) api h next = h

cancelled-IsConsistent :
    (username : Option String) (job : Job) (api : Api)
    → IsConsistent api.jobs
    → IsConsistent (cancel_reply username job (flush_update job api.jobs) api).1.jobs
cancelled-IsConsistent username job api h =
    cancel_reply-IsConsistent username job (flush_update job api.jobs) api h
      (flush_update-IsConsistent job api.jobs h)

-- If the job table has at most one row per identifier and per idempotency key, and at most one
-- active job per VM name (letter case aside) and per reserved IPv4 address, so it does after a
-- cancellation, however it ends.
pub cancel_job-IsConsistent :
    (now : ℕ) (username : Option String) (job : Job) (api : Api)
    → IsConsistent api.jobs
    → IsConsistent (cancel_job now username job api).1.jobs
unfolding cancel_job
cancel_job-IsConsistent now username job api h =
    elim (Bool-cases (is_interrupted job.status && may_hold_unattended_media job.steps)) [
      | inl held ↦ rw held (cancelled-IsConsistent username (hand_to_worker now job) api h)
      | inr free ↦ elim (Bool-cases (is_terminal job.status)) [
        | inl over ↦ rw (free, over) h
        | inr open_ ↦
            rw (free, open_) (cancelled-IsConsistent username (request_cancel now job) api h)
      ]
    ]
