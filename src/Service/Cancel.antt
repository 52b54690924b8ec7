-- ===== src/Service/Cancel.antt =====
-- What cancel_job of backend/app/services/provisioning/service.py promises.
use infra_ops.Prelude.{
  ℕ, ◌≡◌, refl, sym, ap, subst, ◌∙◌, Bool, true, false, ◌&&◌, ◌||◌, String, List, [], ◌∷◌, Option,
  none, some, arith, inl, inr, Bool-cases,
}
use infra_ops.Jobs.{Job, JobStatus, is_interrupted, is_queued, is_terminal, is_active}
use infra_ops.Jobs.Steps.Lookup.{map_option}
use infra_ops.Repository.Table.{get, put, violated, Flush, flush_update, flushed}
use infra_ops.Repository.Retry.{request_cancel, may_hold_unattended_media}
use infra_ops.Repository.Unique.SameKeys.{kept_keys_unviolated}
use infra_ops.Repository.Unique.{IsConsistent}
use infra_ops.Service.Types.{Api, Result, ok}
use infra_ops.Service.Manage.{cancel_reply, cancel_job, hand_to_worker}

get-put_self :
    (j j' : Job) (jobs : List Job) → get j'.id jobs ≡ some j → get j'.id (put j' jobs) ≡ some j'
unfolding get put
get-put_self j j' [] found = ground arith
get-put_self j j' (o ∷ js) found = ground (arith, get-put_self j j' js)

pub get-put_at :
    (id : ℕ) (j j' : Job) (jobs : List Job)
    → j'.id ≡ id
    → get id jobs ≡ some j
    → get id (put j' jobs) ≡ some j'
get-put_at id j j' jobs e found =
    subst (λ (i : ℕ). get i (put j' jobs) ≡ some j') e
      (get-put_self j j' jobs (subst (λ (i : ℕ). get i jobs ≡ some j) (sym e) found))

pub flush_update_clean :
    (j : Job) (jobs : List Job)
    → violated j jobs ≡ none
    → flush_update j jobs ≡ flushed (put j jobs)
unfolding flush_update
flush_update_clean j jobs clean = rw (clean, flush_update) refl

-- The status of a job after its cancellation is accepted: a job that no worker runs is cancelled at
-- once, unless it was interrupted and may hold media, which a worker then removes; the worker of a
-- running job reads the flag.
abbrev pub status_when_cancelled : JobStatus → Bool → JobStatus
status_when_cancelled JobStatus.queued held = JobStatus.cancelled
status_when_cancelled JobStatus.interrupted true = JobStatus.queued
status_when_cancelled JobStatus.interrupted false = JobStatus.cancelled
status_when_cancelled status held = status

-- A cancellation that writes a row with the keys of the job's row is accepted.
module _ (username : Option String) (job : Job) (api : Api) (consistent : IsConsistent api.jobs)
    (found : get job.id api.jobs ≡ some job) (active : is_active job.status ≡ true) where
  abbrev reply_of : Job → Result (Unit {0}) × Api
  reply_of row = cancel_reply username row (flush_update row api.jobs) api

  accepted :
      (row : Job)
      → row.id ≡ job.id
      → row.idempotency_key ≡ job.idempotency_key
      → row.vm_name ≡ job.vm_name
      → row.reserved_ipv4 ≡ job.reserved_ipv4
      → ((reply_of row).0 ≡ ok tt) × (get job.id (reply_of row).1.jobs ≡ some row)
  accepted row id key name address =
      let clean =
        kept_keys_unviolated job row api.jobs consistent found active id key name address in
      let written : get job.id (put row api.jobs) ≡ some row =
        rw (sym id) (get-put_self job row api.jobs (rw id found)) in
      let flush = flush_update_clean row api.jobs clean in
      unfold cancel_reply in
      (
        ap (λ (f : Flush). (cancel_reply username row f api).0) flush,
        ap (λ (f : Flush). get job.id (cancel_reply username row f api).1.jobs) flush ∙ written,
      )

-- The status and the cancel flag of a row.
abbrev pub cancellation_of : Job → JobStatus × Bool
cancellation_of j = (j.status, j.cancel_requested)

keys-request_cancel :
    (now : ℕ) (j : Job)
    → ((request_cancel now j).id ≡ j.id)
      × ((request_cancel now j).idempotency_key ≡ j.idempotency_key)
      × ((request_cancel now j).vm_name ≡ j.vm_name)
      × ((request_cancel now j).reserved_ipv4 ≡ j.reserved_ipv4)
unfolding request_cancel
keys-request_cancel now j = elim (Bool-cases (is_queued j.status || is_interrupted j.status)) [
  | inl idle ↦ rw idle (refl, refl, refl, refl)
  | inr busy ↦ rw busy (refl, refl, refl, refl)
]

cancellation-request_cancel :
    (now : ℕ) (j : Job) (held : Bool)
    → is_active j.status ≡ true
    → (is_interrupted j.status && held) ≡ false
    → cancellation_of (request_cancel now j) ≡ (status_when_cancelled j.status held, true)
unfolding request_cancel
cancellation-request_cancel now j held active free = ground arith

cancellation-hand_to_worker :
    (now : ℕ) (j : Job) (held : Bool)
    → (is_interrupted j.status && held) ≡ true
    → cancellation_of (hand_to_worker now j) ≡ (status_when_cancelled j.status held, true)
cancellation-hand_to_worker now j held handed = ground arith

active_not_terminal : (s : JobStatus) → is_active s ≡ true → is_terminal s ≡ false
active_not_terminal s active = ground arith

-- In a table with at most one row per identifier and per idempotency key, and at most one active job
-- per VM name and per reserved address, the cancellation of a QUEUED, RUNNING or INTERRUPTED job is
-- accepted, and its row then has the cancel flag and is CANCELLED (when it was QUEUED, whatever media
-- may be left, or INTERRUPTED without media that may be left), QUEUED (INTERRUPTED with such media), or RUNNING as before.
pub cancel_job_accepted :
    (now : ℕ) (username : Option String) (job : Job) (api : Api)
    → IsConsistent api.jobs
    → get job.id api.jobs ≡ some job
    → is_active job.status ≡ true
    → let (reply, after) = cancel_job now username job api in
      (reply ≡ ok tt)
      × (map_option cancellation_of (get job.id after.jobs)
          ≡ some (status_when_cancelled job.status (may_hold_unattended_media job.steps), true))
unfolding cancel_job
cancel_job_accepted now username job api consistent found active =
    let held = may_hold_unattended_media job.steps in
    let (id, key, name, address) = keys-request_cancel now job in
    let handed =
      accepted username job api consistent found active (hand_to_worker now job) refl refl refl
        refl in
    let asked =
      accepted username job api consistent found active (request_cancel now job) id key name
        address in
    elim (Bool-cases (is_interrupted job.status && held)) [
      | inl waits ↦ rw waits (
        handed.0,
        ap (map_option cancellation_of) handed.1
            ∙ ap some (cancellation-hand_to_worker now job held waits),
      )
      | inr free ↦
          rw (free, active_not_terminal job.status active)
            (
              asked.0,
              ap (map_option cancellation_of) asked.1
                  ∙ ap some (cancellation-request_cancel now job held active free),
            )
    ]
