-- ===== src/Preflight/Inventory.antt =====
-- _check_infrastructure and its helpers of backend/app/services/provisioning/preflight.py. What the
-- vCenter answers is a parameter; a dict by identifier is a list of pairs.
use infra_ops.Prelude.{
  ℕ, String, Bool, true, false, not, List, [], ◌∷◌, ◌++◌, map, Option, none, some, str_mem,
  truthy_text, any, ltb, if◌then◌else◌,
}
use infra_ops.Prelude.Json.{lookup}
use infra_ops.Placement.{Datastore, choose_automatic_datastore}
use infra_ops.Requests.Schema.{ProvisioningRequest, DiskSpec}
use infra_ops.Requests.Identity.{total_disk_gb}
use infra_ops.Preflight.Report.{PreflightCheck, Answer, answered, raised, passed, failed, warned}
use infra_ops.Preflight.Media.{
  WindowsMediaKind, server, client, unknown, iso_volume_label, classify_windows_media,
}

pub record Host : Type 0 where
  pub name : String
  pub available_for_provisioning : Bool

pub record IsoImage : Type 0 where
  pub datastore_id : String
  pub path : String

-- What the vCenter answers; `problems` of check_host_https is the text by host, empty where none.
pub record Inventory : Type 0 where
  pub get_datacenters : Answer (List (String × String))
  pub get_clusters : String → Answer (List (String × String))
  pub get_hosts : String → Answer (List (String × Host))
  pub check_host_https : List String → Answer (List (String × String))
  pub get_resource_pools : String → Answer (List String)
  pub get_datastores : String → Answer (List (String × Datastore))
  pub get_networks : String → Answer (List (String × String))
  pub get_isos : String → Answer (List (String × IsoImage))
  pub read_datastore_file : String → String → Answer (List ℕ)

-- The checks added so far, and whether an exception then ended the section.
pub record Trail : Type 0 where
  pub checks : List PreflightCheck
  pub broken : Bool

abbrev pub ended : List PreflightCheck → Trail
ended checks = record { checks = checks; broken = false }

abbrev pub after {ℓ} : {A : Type ℓ} → Answer A → (A → Trail) → Trail
after (answered a) next = next a
after raised next = record { checks = []; broken = true }

abbrev pub also : List PreflightCheck → Trail → Trail
also checks t = record t { checks = checks ++ t.checks }

abbrev selected : Option String → Bool
selected none = false
selected (some id) = truthy_text id

abbrev pub chosen_host : Option Host → List PreflightCheck
chosen_host none = failed "host" "Host availability"
chosen_host (some host) =
    if host.available_for_provisioning
    then passed "host" "Host available"
    else failed "host" "Host availability"

-- The check of a host that the request names.
abbrev pub host_checks : Option String → List (String × Host) → List PreflightCheck
host_checks none hosts = []
host_checks (some id) hosts = if truthy_text id then chosen_host (lookup id hosts) else []

abbrev host_name : Option Host → List String
host_name none = []
host_name (some host) = host.name ∷ []

abbrev available_names : List (String × Host) → List String
available_names [] = []
available_names ((id, host) ∷ hosts) =
    let rest = available_names hosts in
    if host.available_for_provisioning then host.name ∷ rest else rest

abbrev pub transfer_hosts : Option String → List (String × Host) → List String
transfer_hosts none hosts = available_names hosts
transfer_hosts (some id) hosts =
    if truthy_text id then host_name (lookup id hosts) else available_names hosts

abbrev https_label : String
https_label = "ESXi hosts reachable for VMware Tools file transfers"

abbrev pub https_checks : Answer (List (String × String)) → List PreflightCheck
https_checks raised = failed "esxi_https" https_label
https_checks (answered results) =
    if any (λ r. truthy_text r.1) results
    then failed "esxi_https" https_label
    else passed "esxi_https" https_label

-- _check_host_file_transfers, where there are hosts.
abbrev pub check_host_file_transfers : Inventory → List String → List PreflightCheck
check_host_file_transfers v [] = []
check_host_file_transfers v (name ∷ names) = https_checks (v.check_host_https (name ∷ names))

abbrev pub pool_checks : String → List String → List PreflightCheck
pool_checks id pools =
    if str_mem id pools
    then passed "resource_pool" "Resource pool exists"
    else failed "resource_pool" "Resource pool exists"

abbrev pub stores : List (String × Datastore) → List Datastore
stores datastores = map (λ d. d.1) datastores

abbrev pub selected_datastore : List DiskSpec → Option String
selected_datastore [] = none
selected_datastore (d ∷ disks) =
    if selected d.datastore_id then d.datastore_id else selected_datastore disks

abbrev pub selected_store : ℕ → Option Datastore → List PreflightCheck
selected_store total_gb none = failed "datastore" "Selected datastore available"
selected_store total_gb (some d) =
    if not d.accessible
    then failed "datastore" "Selected datastore available"
    else if ltb d.free_gb total_gb
    then failed "datastore_capacity" "Selected datastore capacity"
    else passed "datastore_capacity" "Selected datastore has room"

abbrev preferred_warning : Bool → List PreflightCheck
preferred_warning true = []
preferred_warning false = warned "preferred_datastores" "Preferred datastores configured"

abbrev pub automatic_store : Option Datastore → Bool → List PreflightCheck
automatic_store none configured = failed "datastore_capacity" "Automatic storage placement"
automatic_store (some d) configured =
    passed "datastore_capacity" "Automatic storage placement" ++ preferred_warning configured

abbrev pub store_checks :
    ℕ → List (String × Datastore) → Option (List String) → Option String → List PreflightCheck
store_checks total_gb datastores preferred (some id) =
    selected_store total_gb (lookup id datastores)
store_checks total_gb datastores preferred none =
    let choice = choose_automatic_datastore (stores datastores) preferred total_gb in
    automatic_store choice.datastore choice.preferred_configured

-- _check_storage
unfoldable pub check_storage :
    ProvisioningRequest → List (String × Datastore) → Option (List String) → List PreflightCheck
check_storage r datastores preferred =
    store_checks (total_disk_gb r) datastores preferred (selected_datastore r.hardware.disks)

abbrev pub network_checks : Option String → List PreflightCheck
network_checks none = failed "network" "Network exists"
network_checks (some name) = passed "network" "Network exists"

abbrev pub media_checks : WindowsMediaKind → List PreflightCheck
media_checks server = passed "windows_media" "Windows Server installation media"
media_checks client = failed "windows_media" "Windows Server installation media"
media_checks unknown = failed "windows_media" "Windows Server installation media"

-- _check_windows_server_media
abbrev pub check_windows_server_media : Answer (List ℕ) → List PreflightCheck
check_windows_server_media raised = failed "windows_media" "Windows Server installation media"
check_windows_server_media (answered header) =
    media_checks (classify_windows_media (iso_volume_label header))

abbrev pub is_accessible : Option Datastore → Bool
is_accessible none = false
is_accessible (some d) = d.accessible

abbrev pub iso_checks :
    Inventory → String → List (String × Datastore) → Option IsoImage → List PreflightCheck
iso_checks v dc datastores none = failed "iso" "ISO available"
iso_checks v dc datastores (some image) =
    if not (is_accessible (lookup image.datastore_id datastores))
    then failed "iso" "ISO accessible to cluster"
    else passed "iso" "ISO available"
      ++ check_windows_server_media (v.read_datastore_file dc image.path)

module _ (v : Inventory) (r : ProvisioningRequest) (preferred : Option (List String)) where
  -- From the datastores to the end of the section.
  abbrev pub from_datastores : String → String → Trail
  from_datastores dc cluster = after (v.get_datastores cluster) λ datastores.
      also (check_storage r datastores preferred) (
        after (v.get_networks dc) λ networks.
          also (network_checks (lookup r.network.network_id networks)) (
            after (v.get_isos dc)
              λ isos. ended (iso_checks v dc datastores (lookup r.guest.iso_id isos))))

  abbrev pub from_pool : String → String → Option String → Trail
  from_pool dc cluster none = from_datastores dc cluster
  from_pool dc cluster (some id) =
      if truthy_text id
      then (after (v.get_resource_pools cluster)
          λ pools. also (pool_checks id pools) (from_datastores dc cluster))
      else from_datastores dc cluster

  abbrev pub from_hosts : String → List (String × Host) → Trail
  from_hosts dc hosts = also (host_checks r.compute.host_id hosts) (
      also (check_host_file_transfers v (transfer_hosts r.compute.host_id hosts))
        (from_pool dc r.compute.cluster_id r.compute.resource_pool_id))

  abbrev pub from_cluster : String → Option String → Trail
  from_cluster dc none = ended (failed "cluster" "Compute target exists")
  from_cluster dc (some name) =
      also (passed "cluster" "Compute target available")
        (after (v.get_hosts r.compute.cluster_id) λ hosts. from_hosts dc hosts)

  abbrev pub from_clusters : String → List (String × String) → Trail
  from_clusters dc clusters = from_cluster dc (lookup r.compute.cluster_id clusters)

  abbrev pub from_datacenter : String → Option String → Trail
  from_datacenter dc none = ended (failed "datacenter" "Datacenter exists")
  from_datacenter dc (some name) =
      also (passed "datacenter" "Datacenter exists")
        (after (v.get_clusters dc) λ clusters. from_clusters dc clusters)

  abbrev pub closed : Trail → List PreflightCheck
  closed t =
      t.checks ++ (if t.broken then failed "infrastructure" "Infrastructure discovery" else [])

  abbrev pub from_datacenters : List (String × String) → Trail
  from_datacenters datacenters =
      from_datacenter r.compute.datacenter_id (lookup r.compute.datacenter_id datacenters)

  unfoldable pub check_infrastructure : List PreflightCheck
  check_infrastructure =
      closed (after v.get_datacenters λ datacenters. from_datacenters datacenters)
