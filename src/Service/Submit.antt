-- ===== src/Service/Submit.antt =====
-- submit_provisioning and its helpers.
use infra_ops.Prelude.{
  ℕ, ◌-◌, Bool, true, false, ◌&&◌, ◌||◌, not, String, List, [], ◌∷◌, Option, none, some, concat,
  str_eq, truthy_text, or_else, if◌then◌else◌,
}
use infra_ops.Prelude.Int.{pos}
use infra_ops.Prelude.Json.{Json, null, str, num, arr, Items, nil, cons}
use infra_ops.Jobs.{Job}
use infra_ops.Repository.Table.{
  Flush, integrity_error, flushed, idempotency_key, find_by_idempotency_key, has_active_job_for_vm,
  has_ipv4_reservation, flush_insert,
}
use infra_ops.Repository.Create.{new_job}
use infra_ops.Pipeline.Context.{AuditEvent, LiveEvent}
use infra_ops.Service.Types.{
  Request, Report, IdentityPolicyVersion, v1, v2, IpMode, dhcp, static, conflict, validation,
  Result, ok, raised, Api, active_job_exists, address_reserved, reservation_conflict, record_audit,
  publish, same_user,
}

-- reserved_ipv4_for
unfoldable pub reserved_ipv4_for : Request → Option String
reserved_ipv4_for r = elim r.network_mode [ static ↦ r.ipv4_address | dhcp ↦ none ]

-- `_check_idempotent_replay`: the original job, for the same user and an identical body.
unfoldable pub check_idempotent_replay : Job → String → Option ℕ → Result Job
check_idempotent_replay existing fingerprint user =
    let differs : Bool = elim existing.request_fingerprint [
      | none ↦ false
      | some f ↦ not (str_eq f fingerprint)
    ] in
    if not (same_user existing.requested_by_user_id user) || differs
    then raised (validation "This Idempotency-Key was already used for a different request.")
    else ok existing

abbrev pub is_v2 : IdentityPolicyVersion → Bool
is_v2 v2 = true
is_v2 v1 = false

abbrev json_texts : List String → Items
json_texts [] = nil
json_texts (s ∷ ss) = cons (str s) (json_texts ss)

abbrev json_optional : Option String → Json
json_optional none = null
json_optional (some s) = str s

abbrev ip_mode_value : IpMode → String
ip_mode_value dhcp = "DHCP"
ip_mode_value static = "STATIC"

-- What a call of submit_provisioning is given: who asks, the hash of the request's canonical body, the
-- idempotency key (`none` for None or ""), the preflight's report where it runs, the clock and the
-- identifier of a new row.
pub record Submission : Type 0 where
  pub user : Option ℕ
  pub username : Option String
  pub request : Request
  pub fingerprint : String
  pub key : Option String
  pub report : Option Report
  pub now : ℕ
  pub new_id : ℕ

-- A replay of the key's original job; `none` where the key has no job.
unfoldable pub replay_reply : Result Job → Result (Job × Bool)
replay_reply (ok job) = ok (job, false)
replay_reply (raised e) = raised e

unfoldable pub replay_found : Submission → Option Job → Option (Result (Job × Bool))
replay_found s none = none
replay_found s (some existing) =
    some (replay_reply (check_idempotent_replay existing s.fingerprint s.user))

unfoldable pub replay_key : Submission → Option String → List Job → Option (Result (Job × Bool))
replay_key s none jobs = none
replay_key s (some key) jobs = replay_found s (find_by_idempotency_key key jobs)

abbrev pub replay : Submission → List Job → Option (Result (Job × Bool))
replay s jobs = replay_key s s.key jobs

-- `if reserved_ipv4 and await repo.has_ipv4_reservation(reserved_ipv4)`
abbrev pub address_taken : Option String → List Job → Bool
address_taken none jobs = false
address_taken (some a) jobs = truthy_text a && has_ipv4_reservation a none jobs

-- The checks against the active jobs, where there is nothing to replay.
unfoldable pub active_conflict :
    Submission → Option (Result (Job × Bool)) → List Job → Option (Result (Job × Bool))
active_conflict s (some reply) jobs = some reply
active_conflict s none jobs =
    if has_active_job_for_vm s.request.vm_name none jobs
    then some (raised (conflict (active_job_exists s.request.vm_name)))
    else if address_taken (reserved_ipv4_for s.request) jobs
    then some (raised (conflict address_reserved))
    else none

-- The checks on the request and the table, up to the preflight: the reply of a call that ends there.
unfoldable pub early_reply : Submission → List Job → Option (Result (Job × Bool))
early_reply s jobs =
    if not (is_v2 s.request.identity_policy_version)
    then some (
        raised (
          validation
            "Identity policy v1 is reserved for stored legacy jobs; new provisioning submissions must use v2."))
    else active_conflict s (replay s jobs) jobs

abbrev pub row_of : Submission → Job
row_of s = new_job s.now (record {
  id = s.new_id;
  vm_name = s.request.vm_name;
  datacenter_id = s.request.datacenter_id;
  requested_by_user_id = s.user;
  idempotency_key = s.key;
  request_payload = s.request.payload;
  request_fingerprint = some s.fingerprint;
  reserved_ipv4 = reserved_ipv4_for s.request;
})

abbrev rejected_event : Submission → Report → AuditEvent
rejected_event s report = record {
  action = "PROVISIONING_REQUEST_REJECTED";
  resource_name = s.request.vm_name;
  job_id = none;
  username = s.username;
  datacenter_id = some s.request.datacenter_id;
  datacenter_name = none;
  result = "blocked";
  details = ("blocking_checks", arr (json_texts report.blocking_checks)) ∷ [];
  detail_text = none;
}

abbrev created_event : Submission → AuditEvent
created_event s = record {
  action = "PROVISIONING_REQUEST_CREATED";
  resource_name = s.request.vm_name;
  job_id = some s.new_id;
  username = s.username;
  datacenter_id = some s.request.datacenter_id;
  datacenter_name = none;
  result = "queued";
  details =
      ("vcenter_id", str s.request.vcenter_id)
      ∷ ("cluster_id", str s.request.cluster_id)
      ∷ ("iso_id", str s.request.iso_id)
      ∷ ("data_disks", num (pos (s.request.disks - 1)))
      ∷ ("network_mode", str (ip_mode_value s.request.network_mode))
      ∷ (
        "computer_name",
        if truthy_text s.request.effective_computer_name
            then str s.request.effective_computer_name
            else null,
      )
      ∷ ("requested_fqdn", json_optional s.request.effective_fqdn)
      ∷ [];
  detail_text = some (
      concat (
        "Provisioning request queued for '"
        ∷ or_else s.request.effective_fqdn s.request.vm_name
        ∷ "'."
        ∷ []));
}

abbrev queued_event : Submission → LiveEvent
queued_event s = record {
  job_id = s.new_id;
  stage = none;
  status = "QUEUED";
  progress = 0;
  message = concat ("Provisioning request for " ∷ s.request.vm_name ∷ " queued." ∷ []);
}

-- What follows an insert that the key's unique constraint refuses.
unfoldable pub raced_reply : Submission → Option (Result (Job × Bool)) → Result (Job × Bool)
raced_reply s (some reply) = reply
raced_reply s none = raised (reservation_conflict idempotency_key s.request.vm_name)

-- What follows the insert, on the table as the transaction meets it.
unfoldable pub insert_reply : Submission → Flush → Api → Result (Job × Bool) × Api
insert_reply s (flushed jobs) api = (
  ok (row_of s, true),
  publish (queued_event s) (record_audit (created_event s) (record api { jobs = jobs })),
)
insert_reply s (integrity_error idempotency_key) api = (raced_reply s (replay s api.jobs), api)
insert_reply s (integrity_error c) api = (raised (reservation_conflict c s.request.vm_name), api)

-- What follows the checks of the request against the table.
unfoldable pub submit_checked :
    Submission → Option (Result (Job × Bool)) → Option Report → Api → Result (Job × Bool) × Api
submit_checked s (some reply) report api = (reply, api)
submit_checked s none none api = insert_reply s (flush_insert (row_of s) api.jobs) api
submit_checked s none (some report) api =
    if report.ready then insert_reply s (flush_insert (row_of s) api.jobs) api else (
      raised (validation "The request did not pass server-side preflight validation."),
      record_audit (rejected_event s report) api,
    )

-- submit_provisioning: the job and whether it was created. `checked` is the table as the checks read
-- it; `api` is the state at the insert, which other sessions may have changed since.
unfoldable pub submit_provisioning : Submission → List Job → Api → Result (Job × Bool) × Api
submit_provisioning s checked api = submit_checked s (early_reply s checked) s.report api
