-- ===== src/Engine/Config.antt =====
-- The configuration of a worker, its free slots and its health. Intervals are in seconds.
use infra_ops.Prelude.{ℕ, ◌-◌, ◌*◌, Bool, List, length, ltb}
use Prim.Native.Nat.{max}

-- The settings that JobEngine reads.
pub record Settings : Type 0 where
  pub worker_concurrency : ℕ
  pub worker_poll_interval_seconds : ℕ
  pub worker_heartbeat_interval_seconds : ℕ
  pub worker_heartbeat_timeout_seconds : ℕ
  pub worker_reaper_interval_seconds : ℕ
  pub worker_shutdown_grace_seconds : ℕ

pub record Config : Type 0 where
  pub concurrency : ℕ
  pub poll_interval : ℕ
  pub heartbeat_interval : ℕ
  pub heartbeat_timeout : ℕ
  pub reaper_interval : ℕ
  pub shutdown_grace : ℕ

-- JobEngine.__init__
unfoldable pub configure : Settings → Config
configure s =
    let interval = max 1 s.worker_heartbeat_interval_seconds in
    record {
      concurrency = max 1 s.worker_concurrency;
      poll_interval = s.worker_poll_interval_seconds;
      heartbeat_interval = interval;
      heartbeat_timeout = max (interval * 3) s.worker_heartbeat_timeout_seconds;
      reaper_interval = max 5 s.worker_reaper_interval_seconds;
      shutdown_grace = max 0 s.worker_shutdown_grace_seconds;
    }

-- free_slots: `-` stops at 0, as `max(0, …)` does.
unfoldable pub free_slots : Config → List ℕ → ℕ
free_slots c tasks = c.concurrency - length tasks

-- healthy, at the clock readings of now and of the last tick
unfoldable pub healthy : Config → ℕ → ℕ → Bool
healthy c now last_tick = ltb (now - last_tick) (max 60 (c.poll_interval * 10))
