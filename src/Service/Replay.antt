-- ===== src/Service/Replay.antt =====
-- The idempotency of submit_provisioning of backend/app/services/provisioning/service.py.
use infra_ops.Prelude.{Bool, false}
use infra_ops.Jobs.{Job}
use infra_ops.Service.Types.{Result, ok, raised}

-- A reply that reports a new job.
abbrev is_created : Result (Job × Bool) → Bool
is_created (ok (job, created)) = created
is_created (raised e) = false
