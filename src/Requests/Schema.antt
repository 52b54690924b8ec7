-- ===== src/Requests/Schema.antt =====
-- The fields of the request of backend/app/schemas/provisioning.py.
use infra_ops.Prelude.{ℕ, String, Bool, List, Option}
use infra_ops.Service.Types.{IdentityPolicyVersion, IpMode}

pub data DiskProvisioning : Type 0 where
  thin thick : DiskProvisioning

pub data FirmwareType : Type 0 where
  bios efi : FirmwareType

pub data AdapterType : Type 0 where
  vmxnet3 e1000e : AdapterType

pub record VmSpec : Type 0 where
  pub name : String
  pub description : String

pub record ComputeSpec : Type 0 where
  pub vcenter_id : String
  pub datacenter_id : String
  pub cluster_id : String
  pub host_id : Option String
  pub resource_pool_id : Option String

pub record DiskSpec : Type 0 where
  pub size_gb : ℕ
  pub provisioning : DiskProvisioning
  pub datastore_id : Option String

pub record HardwareSpec : Type 0 where
  pub cpu : ℕ
  pub memory_mb : ℕ
  pub firmware : FirmwareType
  pub secure_boot : Bool
  pub disks : List DiskSpec

pub record DomainJoinSpec : Type 0 where
  pub domain : String
  pub ou : Option String
  pub credential_secret_ref : String

pub record GuestSpec : Type 0 where
  pub iso_id : String
  pub hostname : Option String
  pub timezone : Option String
  pub installation_locale : String
  pub input_locale : String
  pub windows_image_index : ℕ
  pub credential_secret_ref : String
  pub product_key_secret_ref : Option String
  pub domain_join : Option DomainJoinSpec

pub record Ipv4Config : Type 0 where
  pub address : String
  pub prefix : ℕ
  pub gateway : String
  pub dns_servers : List String

pub record NetworkSpec : Type 0 where
  pub network_id : String
  pub adapter_type : AdapterType
  pub mode : IpMode
  pub ipv4 : Option Ipv4Config

pub record ProvisioningRequest : Type 0 where
  pub identity_policy_version : IdentityPolicyVersion
  pub vm : VmSpec
  pub compute : ComputeSpec
  pub hardware : HardwareSpec
  pub guest : GuestSpec
  pub network : NetworkSpec
  pub certificate_package_ids : List ℕ
  pub application_ids : List ℕ
