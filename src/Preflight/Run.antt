-- ===== src/Preflight/Run.antt =====
-- PreflightValidator.validate of backend/app/services/provisioning/preflight.py.
use infra_ops.Prelude.{
  ℕ, String, Bool, true, false, ◌&&◌, List, [], ◌∷◌, ◌++◌, Option, none, some, truthy_text,
  if◌then◌else◌,
}
use infra_ops.Service.Types.{IpMode, dhcp, static}
use infra_ops.Network.Static.{Issue, validate_static_ipv4}
use infra_ops.Network.Conflict.{ConflictCheckProvider, IpConflictReport, run_conflict_check}
use infra_ops.Requests.Schema.{ProvisioningRequest, Ipv4Config}
use infra_ops.Preflight.Report.{
  PreflightCheck, PreflightReport, report_of, Answer, answered, raised, passed, failed, warned,
}
use infra_ops.Preflight.Inventory.{Inventory, check_infrastructure}
use infra_ops.Preflight.Catalogue.{
  Package, Application, Secret, check_certificates, check_applications, selected_applications,
  installer_policy, check_credentials,
}

-- What re.fullmatch gives for the configured policy; `invalid` where it raises re.error.
pub data PolicyMatch : Type 0 where
  matches differs invalid : PolicyMatch

-- What the database, the vCenter, the network and the secret store answer to a run.
pub record World : Type 0 where
  -- the connection's row and whether it is enabled
  pub connection : Answer (Option Bool)
  -- the result of test_connection
  pub test_connection : Answer Bool
  pub inventory : Inventory
  pub vm_exists : Answer Bool
  pub conflict_providers : List ConflictCheckProvider
  -- the settings: the name policy with its match, the preferred datastores and the installer roots
  pub vm_name_policy : Option (String × PolicyMatch)
  pub preferred_datastores : Option (List String)
  pub allowed_installer_roots : List String
  pub packages : List Package
  pub applications : List Application
  pub secrets : String → Secret
  pub id_text : ℕ → String

abbrev vcenter_failed : List PreflightCheck
vcenter_failed = failed "vcenter" "vCenter connection"

abbrev pub tested : Answer Bool → List PreflightCheck
tested raised = vcenter_failed
tested (answered true) = passed "vcenter" "vCenter connection successful"
tested (answered false) = vcenter_failed

-- Whether there is a target: the connection exists and is enabled.
abbrev pub has_target : Answer (Option Bool) → Bool
has_target (answered (some true)) = true
has_target _ = false

abbrev pub vcenter_checks : Answer (Option Bool) → Answer Bool → List PreflightCheck
vcenter_checks raised result = vcenter_failed
vcenter_checks (answered none) result = vcenter_failed
vcenter_checks (answered (some false)) result = vcenter_failed
vcenter_checks (answered (some true)) result = tested result

abbrev matched : PolicyMatch → List PreflightCheck
matched matches = passed "name_policy" "VM name matches naming policy"
matched differs = failed "name_policy" "VM name policy"
matched invalid =
    warned "name_policy" "VM name policy" ++ passed "name_policy" "VM name matches naming policy"

abbrev pub policy_checks : Option (String × PolicyMatch) → List PreflightCheck
policy_checks none = []
policy_checks (some (policy, match)) = if truthy_text policy then matched match else []

abbrev pub name_checks : Answer Bool → List PreflightCheck
name_checks raised = failed "vm_name_unique" "VM name uniqueness"
name_checks (answered true) = failed "vm_name_unique" "VM name is available"
name_checks (answered false) = passed "vm_name_unique" "VM name is available"

abbrev pub conflict_checks : IpConflictReport → List PreflightCheck
conflict_checks report =
    if report.conflict_detected
    then failed "ip_conflict" "IP conflict check"
    else passed "ip_conflict" "No conflict detected"

-- The checks of the addresses, where the issues are known; `asked` is whether conflicts are looked for.
abbrev pub syntax_checks : World → Bool → Ipv4Config → List Issue → List PreflightCheck
syntax_checks w asked c (issue ∷ issues) = failed "ip_syntax" "IP address syntax"
syntax_checks w asked c [] =
    passed "ip_syntax" "IP address syntax valid"
    ++ (if asked && has_target w.connection
        then conflict_checks (run_conflict_check c.address c.prefix w.conflict_providers)
        else [])

abbrev pub address_checks : World → Bool → IpMode → Option Ipv4Config → List PreflightCheck
address_checks w asked static (some c) =
    syntax_checks w asked c (validate_static_ipv4 c.address c.prefix c.gateway c.dns_servers)
address_checks w asked static none = []
address_checks w asked dhcp ipv4 = []

abbrev pub when_target : World → List PreflightCheck → List PreflightCheck
when_target w checks = if has_target w.connection then checks else []

-- All checks, in their order.
abbrev pub all_checks : World → ProvisioningRequest → Bool → List PreflightCheck
all_checks w r asked =
    vcenter_checks w.connection w.test_connection
    ++ (when_target w (check_infrastructure w.inventory r w.preferred_datastores)
        ++ (policy_checks w.vm_name_policy
            ++ (when_target w (name_checks w.vm_exists)
                ++ (address_checks w asked r.network.mode r.network.ipv4
                    ++ (check_certificates r.certificate_package_ids w.packages
                        ++ (check_applications w.id_text r.application_ids w.applications
                            ++ (installer_policy w.allowed_installer_roots
                                  (selected_applications r.application_ids w.applications)
                                ++ check_credentials w.secrets r)))))))

unfoldable pub validate : World → ProvisioningRequest → Bool → PreflightReport
unfolding report_of
validate w r run_ip_conflict_checks = report_of (all_checks w r run_ip_conflict_checks)
