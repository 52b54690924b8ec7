-- ===== src/Pipeline/Timeout.antt =====
-- effective_timeout_seconds of backend/app/workers/stages.py.
use infra_ops.Prelude.{ℕ, ◌*◌, String, List, [], ◌∷◌, Option, none, some, or_else}
use infra_ops.Prelude.Json.{lookup}
use infra_ops.Stages.{stage_timeout, default_stage_timeouts}

-- _TIMEOUT_KEY_MAP.get(key, ()): the setting that overrides a stage's timeout, in minutes.
unfoldable pub timeout_key_map : List (String × String)
timeout_key_map =
    ("create_vm", "create_vm_minutes")
    ∷ ("wait_for_guest_os", "os_installation_minutes")
    ∷ ("wait_for_tools", "vmware_tools_minutes")
    ∷ ("configure_guest_network", "network_configuration_minutes")
    ∷ ("validate_network", "network_configuration_minutes")
    ∷ ("initialize_data_disks", "guest_operations_minutes")
    ∷ ("join_domain", "guest_operations_minutes")
    ∷ ("reboot_guest", "guest_operations_minutes")
    ∷ ("wait_guest_ready", "guest_operations_minutes")
    ∷ []

-- The overrides are empty when the settings could not be loaded.
unfoldable pub effective_timeout_seconds : Option (List (String × ℕ)) → String → ℕ
unfolding timeout_key_map lookup stage_timeout
effective_timeout_seconds overrides key =
    let default_timeout = stage_timeout key default_stage_timeouts in
    elim (lookup key timeout_key_map) [
      | none ↦ default_timeout
      | some setting ↦ elim (lookup setting (or_else overrides [])) [
        | some minutes ↦ minutes * 60
        | none ↦ default_timeout
      ]
    ]
