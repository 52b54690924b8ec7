-- ===== src/Witnesses/Preflights.antt =====
-- A preflight run and the installer roots at concrete inputs.
use infra_ops.Prelude.{
  ℕ, zero, suc, ◌≡◌, refl, true, false, List, [], ◌∷◌, ◌++◌, none, some, codes, concat, strip,
  str_mem, any,
}
use infra_ops.Prelude.Decimal.{show}
use infra_ops.Prelude.Json.{lookup}
use infra_ops.Network.Address.{
  parse_ipv4, parse_octet, split_on, show_ipv4, network_address, broadcast_address, in_network,
}
use infra_ops.Network.Static.{validate_static_ipv4, prefix_issues, subnet_issues, dns_issues}
use infra_ops.Network.Conflict.{run_conflict_check, run_providers, dns_provider}
use infra_ops.Placement.{
  choose_automatic_datastore, choose_by, most_free, normalize_preferred, choose_most_free,
}
use infra_ops.Requests.Identity.{total_disk_gb}
use infra_ops.Applications.Paths.{
  is_dots, segments, is_unc_path, is_drive_path, validate_windows_path, validate_installer_root,
  normalise, within_any, path_within_roots,
}
use infra_ops.Applications.Roots.{LiesIn, path_within_roots_lem}
use infra_ops.Requests.Validate.{accepted}
use infra_ops.Preflight.Report.{answered, report_of}
use infra_ops.Preflight.Media.{iso_volume_label, classify_windows_media}
use infra_ops.Preflight.Inventory.{Inventory, check_storage, check_infrastructure}
use infra_ops.Preflight.Ready.{IsAvailable}
use infra_ops.Preflight.Catalogue.{
  value, check_certificates, check_applications, selected_applications, installer_policy,
  check_product_key, check_credentials,
}
use infra_ops.Preflight.Run.{World, validate}
use infra_ops.Preflight.Verdict.{AddressesFree, AppsResolve, CredentialsReadable, validate_lem}
use infra_ops.Witnesses.Forms.{kept}

abbrev path : List ℕ
path = codes "\\\\SRV\\apps\\tool\\setup.msi"

abbrev roots : List (List ℕ)
roots = codes "\\\\srv\\other" ∷ codes "\\\\srv\\apps\\" ∷ []

within : path_within_roots path roots ≡ true
unfolding path_within_roots validate_windows_path within_any validate_installer_root normalise
    segments is_unc_path is_drive_path
within = refl

path_within_roots_lem_example :
    (candidate : List ℕ) × (validate_windows_path path "Path" ≡ accepted candidate)
    × (any is_dots (segments candidate) ≡ false)
    × LiesIn (normalise candidate) roots
path_within_roots_lem_example = path_within_roots_lem path roots within

abbrev zeros : ℕ → List ℕ → List ℕ
zeros zero rest = rest
zeros (suc n) rest = 0 ∷ zeros n rest

-- The header of an ISO with a label of Windows Server.
header : List ℕ
header =
    zeros 32768
      (1 ∷ codes "CD001" ++ zeros 34 (codes "SSS_X64FREE_EN-US_DV9           " ++ zeros 16 []))

abbrev inventory : Inventory
inventory = record {
  get_datacenters = answered (("dc-1", "Main") ∷ []);
  get_clusters = λ dc. answered (("c-1", "Cluster") ∷ []);
  get_hosts =
      λ c. answered (("h-1", record { name = "esx-1"; available_for_provisioning = true }) ∷ []);
  check_host_https = λ names. answered (("esx-1", "") ∷ []);
  get_resource_pools = λ c. answered [];
  get_datastores =
      λ c. answered (("ds-1", record { name = "SSD"; accessible = true; free_gb = 500 }) ∷ []);
  get_networks = λ dc. answered (("net-1", "VLAN 10") ∷ []);
  get_isos =
      λ dc. answered (("iso-1", record { datastore_id = "ds-1"; path = "iso/server.iso" }) ∷ []);
  read_datastore_file = λ dc path. answered header;
}

abbrev world : World
world = record {
  connection = answered (some true);
  test_connection = answered true;
  inventory = inventory;
  vm_exists = answered false;
  conflict_providers = dns_provider "DNS" (λ a. none) ∷ [];
  vm_name_policy = none;
  preferred_datastores = none;
  allowed_installer_roots = [];
  packages = [];
  applications = [];
  secrets = λ name. value "secret";
  id_text = λ id. "?";
}

ready : (validate world kept true).ready ≡ true
unfolding validate report_of check_infrastructure lookup check_storage total_disk_gb
    choose_automatic_datastore choose_by normalize_preferred most_free choose_most_free
    iso_volume_label classify_windows_media header validate_static_ipv4 prefix_issues subnet_issues
    dns_issues parse_ipv4 parse_octet split_on show_ipv4 show network_address broadcast_address
    in_network strip str_mem concat run_conflict_check run_providers dns_provider check_certificates
    check_applications installer_policy selected_applications check_credentials check_product_key
ready = refl

validate_lem_example :
    (world.connection ≡ answered (some true))
    × (world.test_connection ≡ answered true)
    × IsAvailable world.inventory kept world.preferred_datastores
    × (world.vm_exists ≡ answered false)
    × AddressesFree world true kept.network.mode kept.network.ipv4
    × AppsResolve world kept.application_ids
    × CredentialsReadable world kept
validate_lem_example = validate_lem world kept true ready
