-- ===== src/Requests/Fields.antt =====
-- The declared limits of the fields of backend/app/schemas/provisioning.py, and the validation of a
-- whole request.
use infra_ops.Prelude.{
  ℕ, String, Bool, true, false, ◌&&◌, ◌||◌, not, Option, none, some, codes, strip, str_eq, all,
  length, leb, ◌==◌, if◌then◌else◌, is_some,
}
use infra_ops.Service.Types.{IdentityPolicyVersion, v1, v2, IpMode, dhcp, static}
use infra_ops.Requests.Letters.{lower_text, strip_dots}
use infra_ops.Requests.Patterns.{is_vm_name, is_dns_domain, is_secret_reference}
use infra_ops.Requests.Schema.{
  FirmwareType, bios, efi, VmSpec, ComputeSpec, DiskSpec, HardwareSpec, DomainJoinSpec, GuestSpec,
  Ipv4Config, NetworkSpec, ProvisioningRequest,
}
use infra_ops.Requests.Validate.{
  Checked, accepted, refused, ◌>>=◌, ◌>>◌, refuse_if, validate_addresses,
}
use infra_ops.Requests.Identity.{validate_identity}

-- Field(min_length=low, max_length=high)
abbrev sized : ℕ → ℕ → String → Bool
sized low high text = leb low (length (codes text)) && leb (length (codes text)) high

abbrev sized_if : ℕ → ℕ → Option String → Bool
sized_if low high none = true
sized_if low high (some text) = sized low high text

-- Field(ge=low, le=high)
abbrev between : ℕ → ℕ → ℕ → Bool
between low high n = leb low n && leb n high

abbrev pub vm_fields : VmSpec → Bool
vm_fields vm = sized 2 64 vm.name && is_vm_name (codes vm.name) && sized 0 500 vm.description

abbrev pub compute_fields : ComputeSpec → Bool
compute_fields c =
    sized 1 120 c.datacenter_id
    && sized 1 120 c.cluster_id
    && sized_if 0 120 c.host_id
    && sized_if 0 120 c.resource_pool_id

abbrev pub disk_fields : DiskSpec → Bool
disk_fields d = between 1 8000 d.size_gb && sized_if 0 120 d.datastore_id

abbrev pub hardware_fields : HardwareSpec → Bool
hardware_fields h =
    between 1 256 h.cpu
    && between 512 8388608 h.memory_mb
    && between 1 8 (length h.disks)
    && all disk_fields h.disks

abbrev pub is_efi : FirmwareType → Bool
is_efi efi = true
is_efi bios = false

-- HardwareSpec._secure_boot_requires_efi
unfoldable pub secure_boot_requires_efi : HardwareSpec → Checked (Unit {0})
secure_boot_requires_efi h =
    refuse_if (h.secure_boot && not (is_efi h.firmware)) "secure_boot requires UEFI (EFI) firmware."

-- DomainJoinSpec._normalize_domain
unfoldable pub normalize_domain : String → String
normalize_domain domain = lower_text (strip_dots (strip domain))

abbrev pub domain_fields : Option DomainJoinSpec → Bool
domain_fields none = true
domain_fields (some join) =
    let domain = normalize_domain join.domain in
    sized 3 255 domain
    && is_dns_domain domain
    && sized_if 0 400 join.ou
    && sized 2 150 join.credential_secret_ref

abbrev hostname_field : Option String → Bool
hostname_field none = true
hostname_field (some hostname) = sized 0 64 hostname && is_vm_name (codes hostname)

abbrev product_key_field : Option String → Bool
product_key_field none = true
product_key_field (some reference) = sized 2 150 reference && is_secret_reference reference

abbrev pub guest_fields : GuestSpec → Bool
guest_fields g =
    sized 1 2048 g.iso_id
    && hostname_field g.hostname
    && sized_if 0 100 g.timezone
    && sized 2 35 g.installation_locale
    && sized 2 100 g.input_locale
    && between 1 99 g.windows_image_index
    && sized 2 150 g.credential_secret_ref
    && product_key_field g.product_key_secret_ref
    && domain_fields g.domain_join

abbrev normalized_join : Option DomainJoinSpec → Option DomainJoinSpec
normalized_join none = none
normalized_join (some join) = some (record join { domain = normalize_domain join.domain })

-- The guest with its domain in normal form.
abbrev pub normalized_guest : GuestSpec → GuestSpec
normalized_guest g = record g { domain_join = normalized_join g.domain_join }

abbrev is_static : IpMode → Bool
is_static static = true
is_static dhcp = false

-- NetworkSpec._static_requires_ipv4
unfoldable pub static_requires_ipv4 : NetworkSpec → Checked (Unit {0})
static_requires_ipv4 n =
    refuse_if (is_static n.mode && not (is_some n.ipv4))
      "ipv4 configuration is required when mode is STATIC."

abbrev validated_ipv4 : Option Ipv4Config → Checked (Option Ipv4Config)
validated_ipv4 none = accepted none
validated_ipv4 (some c) =
    refuse_if (not (between 8 32 c.prefix && leb (length c.dns_servers) 8)) "ipv4 is out of range."
    >> (validate_addresses c >>= λ normal. accepted (some normal))

abbrev pub validated_network : NetworkSpec → Checked NetworkSpec
validated_network n =
    refuse_if (not (sized 1 120 n.network_id)) "network_id is out of range."
    >> (validated_ipv4 n.ipv4 >>= λ ipv4.
        static_requires_ipv4 n >> accepted (record n { ipv4 = ipv4 }))

-- ProvisioningRequest._only_blank_vms
unfoldable pub only_blank_vms : Option String → Checked String
only_blank_vms none = accepted "blank"
only_blank_vms (some source) =
    if str_eq source "blank"
    then accepted source
    else refused "source_type must be 'blank': every VM is installed from a Windows ISO."

abbrev pub within_limits : ProvisioningRequest → Bool
within_limits r =
    vm_fields r.vm
    && compute_fields r.compute
    && hardware_fields r.hardware
    && guest_fields r.guest
    && leb (length r.certificate_package_ids) 20
    && leb (length r.application_ids) 50

-- The validation of a request: the fields and their validators, then the request's own.
unfoldable pub validate_request : ProvisioningRequest → Checked ProvisioningRequest
unfolding secure_boot_requires_efi static_requires_ipv4
validate_request r =
    refuse_if (not (within_limits r)) "A field is out of its limits."
    >> (secure_boot_requires_efi r.hardware
        >> (validated_network r.network >>= λ network.
            validate_identity (record r { network = network; guest = normalized_guest r.guest })))

abbrev pub has_desktop : ℕ → Bool
has_desktop index = (index == 2) || (index == 4)

abbrev pub is_current : IdentityPolicyVersion → Bool
is_current v1 = false
is_current v2 = true

abbrev pub desktop_message : String
desktop_message =
    "guest.windows_image_index must be 2 (Standard) or 4 (Datacenter): every server is installed with the Desktop Experience."

-- ProvisioningSubmissionRequest: the current policy, and an edition with the Desktop Experience.
unfoldable pub validate_submission : ProvisioningRequest → Checked ProvisioningRequest
validate_submission r =
    refuse_if (not (is_current r.identity_policy_version)) "identity_policy_version must be v2."
    >> (validate_request r >>= λ checked.
        refuse_if (not (has_desktop checked.guest.windows_image_index)) desktop_message
        >> accepted checked)
