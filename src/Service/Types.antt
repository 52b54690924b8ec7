-- ===== src/Service/Types.antt =====
-- What the service reads and returns: the request, the preflight report, the errors of
-- backend/app/core/errors.py, and the state that a call works on.
use infra_ops.Prelude.{
  ℕ, Bool, true, false, String, List, [], ◌∷◌, ◌++◌, Option, none, some, concat, ◌==◌,
}
use infra_ops.Prelude.Json.{Json}
use infra_ops.Jobs.{Job, JobStatus}
use infra_ops.Repository.Table.{Constraint, vm_name_index, ipv4_index, idempotency_key}
use infra_ops.Pipeline.Context.{AuditEvent, LiveEvent}

pub data IdentityPolicyVersion : Type 0 where
  v1 v2 : IdentityPolicyVersion

pub data IpMode : Type 0 where
  dhcp static : IpMode

-- The parts of ProvisioningRequest that the service reads; `payload` is its JSON, the `effective_`
-- fields are its properties.
pub record Request : Type 0 where
  pub identity_policy_version : IdentityPolicyVersion
  pub vm_name : String
  pub vcenter_id : String
  pub datacenter_id : String
  pub cluster_id : String
  pub iso_id : String
  pub disks : ℕ
  pub network_mode : IpMode
  pub ipv4_address : Option String
  pub effective_computer_name : String
  pub effective_fqdn : Option String
  pub payload : Json

-- A PreflightReport: whether it is ready, its summary, and the codes of its blocking failed checks.
pub record Report : Type 0 where
  pub ready : Bool
  pub summary : String
  pub blocking_checks : List String

pub data AppError : Type 0 where
  conflict : String → AppError
  validation : String → AppError
  not_found : String → AppError
  -- an IntegrityError that no handler translates
  integrity : Constraint → AppError

pub data Result {ℓ} (A : Type ℓ) : Type ℓ where
  ok : A → Result A
  raised : AppError → Result A

-- The job table, the audit trail and the published events.
pub record Api : Type 0 where
  pub jobs : List Job
  pub audit : List AuditEvent
  pub events : List LiveEvent

abbrev pub active_job_exists : String → String
active_job_exists vm_name =
    concat ("An active provisioning job for '" ∷ vm_name ∷ "' already exists." ∷ [])

abbrev pub address_reserved : String
address_reserved = "Another active provisioning job has already reserved this IPv4 address."

-- reservation_conflict, or the error itself where it translates none.
unfoldable pub reservation_conflict : Constraint → String → AppError
reservation_conflict vm_name_index vm_name = conflict (active_job_exists vm_name)
reservation_conflict ipv4_index vm_name = conflict address_reserved
reservation_conflict idempotency_key vm_name = integrity idempotency_key

abbrev pub record_audit : AuditEvent → Api → Api
record_audit e api = record api { audit = api.audit ++ e ∷ [] }

abbrev pub publish : LiveEvent → Api → Api
publish e api = record api { events = api.events ++ e ∷ [] }

-- The value of a JobStatus.
abbrev pub job_status_value : JobStatus → String
job_status_value JobStatus.queued = "QUEUED"
job_status_value JobStatus.running = "RUNNING"
job_status_value JobStatus.completed = "COMPLETED"
job_status_value JobStatus.partially_completed = "PARTIALLY_COMPLETED"
job_status_value JobStatus.failed = "FAILED"
job_status_value JobStatus.cancelled = "CANCELLED"
job_status_value JobStatus.interrupted = "INTERRUPTED"

-- `a == b` of two optional identifiers, where None equals None.
abbrev pub same_user : Option ℕ → Option ℕ → Bool
same_user none none = true
same_user (some a) (some b) = a == b
same_user _ _ = false
