-- ===== src/Repository/Table.antt =====
-- The job table: lookups, and the unique indexes of backend/app/models/jobs.py which every insert
-- and update of a row is checked against.
use infra_ops.Prelude.{
  ℕ, Bool, true, false, ◌&&◌, String, List, [], ◌∷◌, Option, none, some, ◌==◌, any, lower, not,
  str_eq, if◌then◌else◌,
}
use infra_ops.Jobs.{Job, is_active}

-- Two optional texts that are both there and equal; NULL equals nothing.
abbrev pub same_text : Option String → Option String → Bool
same_text (some a) (some b) = str_eq a b
same_text _ _ = false

abbrev pub codes_eq : List ℕ → List ℕ → Bool
codes_eq [] [] = true
codes_eq (a ∷ as') (b ∷ bs) = a == b && codes_eq as' bs
codes_eq _ _ = false

-- `lower(vm_name)` is the same, and the status is one of ACTIVE_JOB_STATUSES.
abbrev pub holds_vm_name : String → Job → Bool
holds_vm_name vm_name j = codes_eq (lower j.vm_name) (lower vm_name) && is_active j.status

-- `reserved_ipv4` is the address, and the status is one of IP_RESERVING_JOB_STATUSES.
abbrev pub holds_ipv4 : Option String → Job → Bool
holds_ipv4 address j = same_text j.reserved_ipv4 address && is_active j.status

abbrev pub other_than : Option ℕ → Job → Bool
other_than none j = true
other_than (some id) j = not (j.id == id)

-- get
unfoldable pub get : ℕ → List Job → Option Job
get id [] = none
get id (j ∷ js) = if j.id == id then some j else get id js

-- find_by_idempotency_key
unfoldable pub find_by_idempotency_key : String → List Job → Option Job
find_by_idempotency_key key [] = none
find_by_idempotency_key key (j ∷ js) =
    if same_text j.idempotency_key (some key) then some j else find_by_idempotency_key key js

-- has_active_job_for_vm
unfoldable pub has_active_job_for_vm : String → Option ℕ → List Job → Bool
has_active_job_for_vm vm_name exclude_job_id jobs =
    any (λ j. holds_vm_name vm_name j && other_than exclude_job_id j) jobs

-- has_ipv4_reservation
unfoldable pub has_ipv4_reservation : String → Option ℕ → List Job → Bool
has_ipv4_reservation address exclude_job_id jobs =
    any (λ j. holds_ipv4 (some address) j && other_than exclude_job_id j) jobs

-- The unique constraints whose violation raises IntegrityError.
pub data Constraint : Type 0 where
  idempotency_key vm_name_index ipv4_index : Constraint

-- The unique indexes as a row `j` meets them, against the rows of the other jobs.
unfoldable pub violated : Job → List Job → Option Constraint
violated j jobs =
    if any (λ o. same_text o.idempotency_key j.idempotency_key && other_than (some j.id) o) jobs
    then some idempotency_key
    else if is_active j.status
        && any (λ o. holds_vm_name j.vm_name o && other_than (some j.id) o) jobs
    then some vm_name_index
    else if is_active j.status
        && any (λ o. holds_ipv4 j.reserved_ipv4 o && other_than (some j.id) o) jobs
    then some ipv4_index
    else none

-- The rows with the row of `j.id` written.
unfoldable pub put : Job → List Job → List Job
put j [] = []
put j (o ∷ js) = (if o.id == j.id then j else o) ∷ put j js

-- A flush of one changed row: the constraint that it violates, or the new table.
pub data Flush : Type 0 where
  integrity_error : Constraint → Flush
  flushed : List Job → Flush

unfoldable pub flush_update : Job → List Job → Flush
unfolding violated put
flush_update j jobs = elim (violated j jobs) [
  | some c ↦ integrity_error c
  | none ↦ flushed (put j jobs)
]

unfoldable pub flush_insert : Job → List Job → Flush
unfolding violated
flush_insert j jobs = elim (violated j jobs) [
  | some c ↦ integrity_error c
  | none ↦ flushed (j ∷ jobs)
]
