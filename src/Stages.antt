-- ===== src/Stages.antt =====
-- backend/app/workers/state_machine.py: the ordered stages, the console stages and the timeouts.
use infra_ops.Prelude.{
  ℕ, suc, Bool, true, false, String, List, [], ◌∷◌, Option, none, some, map, str_eq, if◌then◌else◌,
}
use infra_ops.Prelude.Int.{ℤ, pos, negsuc}
use infra_ops.Prelude.Json.{lookup}

pub record StageDefinition : Type 0 where
  pub key : String
  pub name : String
  pub retryable : Bool
  pub destructive : Bool

-- StageDefinition(key, name), with the defaults
abbrev pub stage : String → String → StageDefinition
stage k n = record { key = k; name = n; retryable = true; destructive = false }

-- StageDefinition(key, name, destructive=True)
abbrev pub destructive_stage : String → String → StageDefinition
destructive_stage k n = record { key = k; name = n; retryable = true; destructive = true }

-- ORDERED_STAGES
unfoldable pub ordered_stages : List StageDefinition
ordered_stages =
    stage "validate_request" "Validate request"
    ∷ stage "connect_vcenter" "Connect to vCenter"
    ∷ stage "validate_infrastructure" "Validate infrastructure configuration"
    ∷ destructive_stage "create_vm" "Create virtual machine"
    ∷ stage "configure_hardware" "Configure hardware"
    ∷ stage "attach_network_adapter" "Attach network adapter"
    ∷ stage "prepare_unattended_install" "Prepare unattended Windows installation"
    ∷ stage "power_on" "Power on and start Windows Setup"
    ∷ stage "wait_for_guest_os" "Install Windows"
    ∷ stage "wait_for_tools" "Verify VMware Tools"
    ∷ stage "cleanup_unattended_media" "Remove installation media"
    ∷ destructive_stage "add_data_disks" "Add data disks"
    ∷ stage "initialize_data_disks" "Initialize data disks"
    ∷ stage "configure_guest_network" "Configure guest network"
    ∷ stage "validate_network" "Validate network connectivity"
    ∷ stage "configure_hostname" "Configure hostname"
    ∷ stage "join_domain" "Join domain"
    ∷ stage "reboot_guest" "Reboot guest"
    ∷ stage "wait_guest_ready" "Wait for guest availability"
    ∷ stage "install_root_certificates" "Install trusted root certificates"
    ∷ stage "install_intermediate_certificates" "Install intermediate certificates"
    ∷ stage "validate_certificates" "Verify certificates"
    ∷ stage "resolve_dependencies" "Resolve application dependencies"
    ∷ stage "install_applications" "Install applications"
    ∷ stage "validate_applications" "Validate application installations"
    ∷ stage "final_validation" "Final validation"
    ∷ []

-- STAGES_BY_KEY.get(key)
unfoldable pub find_stage : String → List StageDefinition → Option StageDefinition
find_stage k [] = none
find_stage k (s ∷ ss) = if str_eq s.key k then some s else find_stage k ss

abbrev pub stages_by_key : String → Option StageDefinition
stages_by_key k = find_stage k ordered_stages

-- CONSOLE_STAGES
unfoldable pub console_stages : List String
console_stages = "power_on" ∷ "wait_for_guest_os" ∷ "wait_for_tools" ∷ []

-- DEFAULT_STAGE_TIMEOUTS
unfoldable pub default_stage_timeouts : List (String × ℕ)
default_stage_timeouts =
    ("validate_request", 60)
    ∷ ("connect_vcenter", 120)
    ∷ ("validate_infrastructure", 300)
    ∷ ("create_vm", 1800)
    ∷ ("configure_hardware", 600)
    ∷ ("attach_network_adapter", 600)
    ∷ ("prepare_unattended_install", 600)
    ∷ ("power_on", 600)
    ∷ ("wait_for_guest_os", 21600)
    ∷ ("wait_for_tools", 900)
    ∷ ("cleanup_unattended_media", 1800)
    ∷ ("add_data_disks", 600)
    ∷ ("initialize_data_disks", 600)
    ∷ ("configure_guest_network", 300)
    ∷ ("validate_network", 300)
    ∷ ("configure_hostname", 300)
    ∷ ("join_domain", 600)
    ∷ ("reboot_guest", 600)
    ∷ ("wait_guest_ready", 600)
    ∷ ("install_root_certificates", 600)
    ∷ ("install_intermediate_certificates", 600)
    ∷ ("validate_certificates", 300)
    ∷ ("resolve_dependencies", 120)
    ∷ ("install_applications", 3600)
    ∷ ("validate_applications", 600)
    ∷ ("final_validation", 600)
    ∷ []

-- stage_definitions(): (key, display name, retryable)
unfoldable pub stage_definitions : List (String × String × Bool)
unfolding ordered_stages
stage_definitions = map (λ (s : StageDefinition). (s.key, s.name, s.retryable)) ordered_stages

-- The loop of stage_index(key), from the index `i`; -1 for a key that no stage has.
stage_index_from : ℕ → String → List StageDefinition → ℤ
stage_index_from i k [] = negsuc 0
stage_index_from i k (s ∷ ss) = if str_eq s.key k then pos i else stage_index_from (suc i) k ss

unfoldable pub stage_index : String → ℤ
unfolding stage_index_from ordered_stages
stage_index k = stage_index_from 0 k ordered_stages

unfoldable pub is_destructive : String → Bool
unfolding find_stage ordered_stages
is_destructive k = elim (stages_by_key k) [ none ↦ false | some s ↦ s.destructive ]

-- stage_timeout(key, timeouts_override); an override of None is the empty dictionary.
unfoldable pub stage_timeout : String → List (String × ℕ) → ℕ
unfolding lookup default_stage_timeouts
stage_timeout k timeouts_override = elim (lookup k timeouts_override) [
  | some t ↦ t
  | none ↦ elim (lookup k default_stage_timeouts) [ some t ↦ t | none ↦ 600 ]
]
