-- ===== src/Witnesses/Forms.antt =====
-- Provisioning requests at concrete inputs.
use infra_ops.Prelude.{
  ◌≤◌, String, ◌≡◌, refl, true, false, ◌⊎◌, [], ◌∷◌, none, some, strip, str_mem, concat, codes,
  length,
}
use infra_ops.Prelude.Decimal.{show}
use infra_ops.Network.Address.{
  parse_ipv4, parse_octet, split_on, show_ipv4, network_address, broadcast_address, in_network,
}
use infra_ops.Service.Types.{v2, static}
use infra_ops.Requests.Letters.{upper, lower_text, strip_dots, upper_char, lower_char}
use infra_ops.Requests.Patterns.{
  is_vm_name, is_computer_name, all_digits, is_dns_domain, is_secret_reference,
}
use infra_ops.Requests.Schema.{thin, efi, vmxnet3, DomainJoinSpec, GuestSpec, ProvisioningRequest}
use infra_ops.Requests.Validate.{accepted, validate_ipv4, normalize_dns, validate_addresses}
use infra_ops.Requests.Identity.{
  validate_identity, effective_computer_name, effective_fqdn, total_disk_gb,
}
use infra_ops.Requests.Fields.{
  normalize_domain, secure_boot_requires_efi, static_requires_ipv4, validate_request,
  validate_submission,
}
use infra_ops.Requests.Names.{validate_identity_idempotent}
use infra_ops.Requests.Windows.{effective_computer_name_lem}
use infra_ops.Requests.Limits.{validate_submission_lem}

abbrev pub join : DomainJoinSpec
join = record { domain = "corp.example.com"; ou = none; credential_secret_ref = "ad/join" }

abbrev pub guest : GuestSpec
guest = record {
  iso_id = "iso-1";
  hostname = none;
  timezone = none;
  installation_locale = "en-US";
  input_locale = "0409:00000409";
  windows_image_index = 2;
  credential_secret_ref = "guest/admin";
  product_key_secret_ref = none;
  domain_join = some join;
}

abbrev pub form : ProvisioningRequest
form = record {
  identity_policy_version = v2;
  vm = record { name = "web-01"; description = "" };
  compute = record {
    vcenter_id = "1";
    datacenter_id = "dc-1";
    cluster_id = "c-1";
    host_id = none;
    resource_pool_id = none;
  };
  hardware = record {
    cpu = 4;
    memory_mb = 8192;
    firmware = efi;
    secure_boot = true;
    disks = record { size_gb = 80; provisioning = thin; datastore_id = none } ∷ [];
  };
  guest = guest;
  network = record {
    network_id = "net-1";
    adapter_type = vmxnet3;
    mode = static;
    ipv4 = some (record {
      address = "10.20.0.5";
      prefix = 24;
      gateway = "10.20.0.1";
      dns_servers = "10.20.0.10" ∷ [];
    });
  };
  certificate_package_ids = [];
  application_ids = [];
}

abbrev pub kept : ProvisioningRequest
kept = record form { guest = record guest { hostname = some "WEB-01" } }

identity_checked : validate_identity form ≡ accepted kept
unfolding validate_identity is_secret_reference is_computer_name split_on concat upper upper_char
identity_checked = refl

validate_identity_idempotent_example :
    (validate_identity kept ≡ accepted kept)
    × (effective_computer_name kept ≡ effective_computer_name form)
    × (effective_fqdn kept ≡ effective_fqdn form)
validate_identity_idempotent_example = validate_identity_idempotent form kept identity_checked

effective_computer_name_lem_example :
    (is_computer_name (codes (effective_computer_name kept)) ≡ true)
    × (all_digits (codes (effective_computer_name kept)) ≡ false)
    × (kept.guest.hostname ≡ some (effective_computer_name kept))
    × ((f : String) → effective_fqdn kept ≡ some f → length (codes f) ≤ 253)
effective_computer_name_lem_example = effective_computer_name_lem form kept refl identity_checked

submitted : validate_submission form ≡ accepted kept
unfolding validate_submission validate_request validate_identity is_secret_reference
    is_computer_name split_on concat upper upper_char lower_text lower_char strip_dots strip
    normalize_domain is_dns_domain is_vm_name secure_boot_requires_efi static_requires_ipv4
    validate_addresses normalize_dns validate_ipv4 parse_ipv4 parse_octet show_ipv4 show
    network_address broadcast_address in_network str_mem
submitted = refl

validate_submission_lem_example :
    (kept.identity_policy_version ≡ v2)
    × ((kept.guest.windows_image_index ≡ 2) ⊎ (kept.guest.windows_image_index ≡ 4))
    × (kept.hardware.secure_boot ≡ true → kept.hardware.firmware ≡ efi)
    × (1 ≤ length kept.hardware.disks)
    × (length kept.hardware.disks ≤ 8)
    × (1 ≤ total_disk_gb kept)
    × (total_disk_gb kept ≤ 64000)
validate_submission_lem_example = validate_submission_lem form kept submitted
