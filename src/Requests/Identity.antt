-- ===== src/Requests/Identity.antt =====
-- ProvisioningRequest._validate_identity and the names of backend/app/schemas/provisioning.py.
use infra_ops.Prelude.{
  ℕ, ◌+◌, String, ◌||◌, not, List, [], ◌∷◌, Option, none, some, codes, concat, truthy_text, is_some,
  any, length, ltb, if◌then◌else◌,
}
use infra_ops.Network.Address.{split_on}
use infra_ops.Service.Types.{IdentityPolicyVersion, v1, v2}
use infra_ops.Requests.Letters.{upper, lower_text}
use infra_ops.Requests.Patterns.{is_computer_name, all_digits, is_secret_reference}
use infra_ops.Requests.Schema.{DiskSpec, DomainJoinSpec, GuestSpec, ProvisioningRequest}
use infra_ops.Requests.Validate.{Checked, accepted, ◌>>◌, refuse_if}

-- `text or fallback`
abbrev pub or_text : Option String → String → String
or_text none fallback = fallback
or_text (some text) fallback = if truthy_text text then text else fallback

-- The name that the request gives Windows, by whether it joins a domain and by its policy.
abbrev pub named : Option DomainJoinSpec → IdentityPolicyVersion → Option String → String → String
named none version hostname vm_name = or_text hostname vm_name
named (some join) v1 hostname vm_name = or_text hostname vm_name
named (some join) v2 hostname vm_name = vm_name

abbrev pub short_name : ProvisioningRequest → String
short_name r = named r.guest.domain_join r.identity_policy_version r.guest.hostname r.vm.name

abbrev name_error : Option DomainJoinSpec → String
name_error domain_join = concat (
    (if is_some domain_join then "vm.name" else "guest.hostname")
    ∷ " must be a valid Windows computer name (letters, numbers and hyphens only; not all-numeric; maximum 63 characters)."
    ∷ [])

abbrev pub joined_name : String → String → String
joined_name name domain = concat (name ∷ "." ∷ domain ∷ [])

-- The checks of a domain join under the current policy.
abbrev pub check_domain : String → Option DomainJoinSpec → Checked (Unit {0})
check_domain name none = accepted tt
check_domain name (some join) =
    refuse_if (not (is_secret_reference join.credential_secret_ref))
      "guest.domain_join.credential_secret_ref must be a safe lowercase, slash-separated secret reference."
    >> (refuse_if (any (λ label. ltb 63 (length (codes label))) (split_on b'.' join.domain))
          "Each DNS domain label must not exceed 63 characters."
        >> refuse_if (ltb 253 (length (codes (joined_name name join.domain))))
            "The resulting domain-joined FQDN must not exceed 253 characters.")

abbrev pub check_current : String → Option DomainJoinSpec → String → Checked (Unit {0})
check_current credential_secret_ref domain_join name =
    refuse_if (not (is_secret_reference credential_secret_ref))
      "guest.credential_secret_ref must be a safe lowercase, slash-separated secret reference."
    >> (refuse_if (not (is_computer_name (codes name)) || all_digits (codes name))
          (name_error domain_join)
        >> check_domain name domain_join)

-- The checks apply to the current policy only.
abbrev pub check_identity : IdentityPolicyVersion → GuestSpec → String → Checked (Unit {0})
check_identity v1 guest name = accepted tt
check_identity v2 guest name = check_current guest.credential_secret_ref guest.domain_join name

-- The hostname that the request is left with.
abbrev pub kept_hostname :
    Option DomainJoinSpec → IdentityPolicyVersion → Option String → String → Option String
kept_hostname (some join) v1 hostname name = hostname
kept_hostname none version hostname name = some (upper name)
kept_hostname (some join) v2 hostname name = some (upper name)

abbrev pub with_hostname : ProvisioningRequest → ProvisioningRequest
with_hostname r = record r {
  guest = record r.guest {
    hostname =
        kept_hostname r.guest.domain_join r.identity_policy_version r.guest.hostname (short_name r);
  };
}

unfoldable pub validate_identity : ProvisioningRequest → Checked ProvisioningRequest
validate_identity r =
    check_identity r.identity_policy_version r.guest (short_name r) >> accepted (with_hostname r)

abbrev pub computer_name :
    Option DomainJoinSpec → IdentityPolicyVersion → Option String → String → String
computer_name (some join) v1 hostname vm_name = upper (or_text hostname vm_name)
computer_name (some join) v2 hostname vm_name = upper vm_name
computer_name none version hostname vm_name = upper (or_text hostname vm_name)

-- The short Windows name passed to Rename-Computer.
unfoldable pub effective_computer_name : ProvisioningRequest → String
effective_computer_name r =
    computer_name r.guest.domain_join r.identity_policy_version r.guest.hostname r.vm.name

abbrev pub fqdn_of : String → Option DomainJoinSpec → Option String
fqdn_of name none = none
fqdn_of name (some join) = some (lower_text (joined_name name join.domain))

unfoldable pub effective_fqdn : ProvisioningRequest → Option String
unfolding effective_computer_name
effective_fqdn r = fqdn_of (effective_computer_name r) r.guest.domain_join

abbrev pub disk_sum : List DiskSpec → ℕ
disk_sum [] = 0
disk_sum (d ∷ disks) = d.size_gb + disk_sum disks

unfoldable pub total_disk_gb : ProvisioningRequest → ℕ
total_disk_gb r = disk_sum r.hardware.disks
