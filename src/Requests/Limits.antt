-- ===== src/Requests/Limits.antt =====
-- The limits of an accepted submission of backend/app/schemas/provisioning.py.
use infra_ops.Prelude.{
  ℕ, ◌*◌, ◌≤◌, String, ◌≡◌, ◌≢◌, refl, ap, sym, ◌∙◌, subst, Bool, true, false, ◌&&◌, ◌⊎◌, not, List,
  [], ◌∷◌, all, length, arith,
}
use infra_ops.Service.Types.{IdentityPolicyVersion, v1, v2}
use infra_ops.Requests.Schema.{FirmwareType, bios, efi, DiskSpec, HardwareSpec, ProvisioningRequest}
use infra_ops.Requests.Validate.{Checked, accepted, refused, ◌>>=◌, ◌>>◌, refuse_if}
use infra_ops.Requests.Identity.{
  disk_sum, total_disk_gb, validate_identity, with_hostname, check_identity, short_name,
}
use infra_ops.Requests.Fields.{
  vm_fields, compute_fields, disk_fields, hardware_fields, desktop_message, within_limits,
  has_desktop, is_current, is_efi, secure_boot_requires_efi, validated_network, normalized_guest,
  validate_request, validate_submission,
}

module _ {ℓ} {A : Type ℓ} where
  or_value : A → Checked A → A
  or_value d (refused e) = d
  or_value d (accepted a) = a

  pub value_same : (a b : A) → ◌≡◌ {A = Checked A} (accepted a) (accepted b) → a ≡ b
  unfolding or_value
  value_same a b e = ap (or_value a) e

  not_refused : (e : String) (a : A) → refused e ≢ accepted a
  not_refused e a h = ground arith

  pub then_accepted :
      (c : Checked (Unit {0})) (k : Checked A) (a : A)
      → (c >> k) ≡ accepted a
      → (c ≡ accepted tt) × (k ≡ accepted a)
  then_accepted (refused e) k a h = absurd (not_refused e a h)
  then_accepted (accepted u) k a h = (refl, h)

module _ {ℓ κ} {A : Type ℓ} {B : Type κ} where
  pub bind_accepted :
      (m : Checked A) (f : A → Checked B) (b : B)
      → (m >>= f) ≡ accepted b
      → (a : A) × (m ≡ accepted a) × (f a ≡ accepted b)
  bind_accepted (refused e) f b h = absurd (not_refused e b h)
  bind_accepted (accepted a) f b h = (a, refl, h)

pub accepted_test : (test : Bool) (e : String) → refuse_if test e ≡ accepted tt → test ≡ false
accepted_test true e h = ground arith
accepted_test false e h = refl

disk_sum-le :
    (disks : List DiskSpec) → all disk_fields disks ≡ true → disk_sum disks ≤ length disks * 8000
disk_sum-le [] h = omega arith
disk_sum-le (d ∷ disks) h = ground (arith, disk_sum-le disks)

disk_sum-positive :
    (disks : List DiskSpec) → all disk_fields disks ≡ true → 1 ≤ length disks → 1 ≤ disk_sum disks
disk_sum-positive [] h l = absurd (omega arith)
disk_sum-positive (d ∷ disks) h l = ground arith

within : (a b c d e f : Bool) → not (a && b && c && d && e && f) ≡ false → c ≡ true
within a b c d e f h = ground arith

current_policy : (v : IdentityPolicyVersion) → not (is_current v) ≡ false → v ≡ v2
current_policy v1 h = ground arith
current_policy v2 h = refl

desktop_image : (n : ℕ) → not (has_desktop n) ≡ false → (n ≡ 2) ⊎ (n ≡ 4)
desktop_image n h = ground arith

secure_efi : (b : Bool) (f : FirmwareType) → (b && not (is_efi f)) ≡ false → b ≡ true → f ≡ efi
secure_efi b efi h q = refl
secure_efi true bios h q = ground arith
secure_efi false bios h q = ground arith

hardware_limits :
    (h : HardwareSpec)
    → hardware_fields h ≡ true
    → (1 ≤ length h.disks) × (length h.disks ≤ 8) × (all disk_fields h.disks ≡ true)
hardware_limits h e = (ground arith, ground arith, ground arith)

-- The hardware and the image of a request that validate_request accepts are those given.
request_parts :
    (r s : ProvisioningRequest)
    → validate_request r ≡ accepted s
    → (hardware_fields r.hardware ≡ true)
      × ((r.hardware.secure_boot && not (is_efi r.hardware.firmware)) ≡ false)
      × (s.hardware ≡ r.hardware)
      × (s.identity_policy_version ≡ r.identity_policy_version)
unfolding validate_request secure_boot_requires_efi validate_identity
request_parts r s h =
    let limits = then_accepted _ _ s h in
    let boot = then_accepted _ _ s limits.1 in
    let (network, n, identity) =
      bind_accepted (validated_network r.network)
        (λ n. validate_identity (record r { network = n; guest = normalized_guest r.guest })) s
        boot.1 in
    let made = record r { network = network; guest = normalized_guest r.guest } in
    let last =
      then_accepted (check_identity made.identity_policy_version made.guest (short_name made))
        (accepted (with_hostname made)) s identity in
    let same = value_same (with_hostname made) s last.1 in
    let fields : not (within_limits r) ≡ false = accepted_test _ _ limits.0 in
    (
      within (vm_fields r.vm) (compute_fields r.compute) (hardware_fields r.hardware) _ _ _ fields,
      accepted_test _ _ boot.0,
      sym (ap (λ (w : ProvisioningRequest). w.hardware) same),
      sym (ap (λ (w : ProvisioningRequest). w.identity_policy_version) same),
    )

-- An accepted submission follows the current policy, installs image 2 or 4, boots securely only
-- with EFI, and asks for 1 to 64,000 gigabytes of disks in all, on 1 to 8 disks.
pub validate_submission_lem :
    (r s : ProvisioningRequest)
    → validate_submission r ≡ accepted s
    → (s.identity_policy_version ≡ v2)
      × ((s.guest.windows_image_index ≡ 2) ⊎ (s.guest.windows_image_index ≡ 4))
      × (s.hardware.secure_boot ≡ true → s.hardware.firmware ≡ efi)
      × (1 ≤ length s.hardware.disks)
      × (length s.hardware.disks ≤ 8)
      × (1 ≤ total_disk_gb s)
      × (total_disk_gb s ≤ 64000)
unfolding validate_submission total_disk_gb
validate_submission_lem r s h =
    let current = then_accepted _ _ s h in
    let (checked, ok, rest) =
      bind_accepted (validate_request r)
        (λ c.
          refuse_if (not (has_desktop c.guest.windows_image_index)) desktop_message >> accepted c)
        s current.1 in
    let image = then_accepted _ _ s rest in
    let same = value_same checked s image.1 in
    let (fields, boot, hardware, policy) = request_parts r checked ok in
    let (least, most, disks) = hardware_limits r.hardware fields in
    subst
      (λ (w : ProvisioningRequest).
        (w.identity_policy_version ≡ v2)
        × ((w.guest.windows_image_index ≡ 2) ⊎ (w.guest.windows_image_index ≡ 4))
        × (w.hardware.secure_boot ≡ true → w.hardware.firmware ≡ efi)
        × (1 ≤ length w.hardware.disks)
        × (length w.hardware.disks ≤ 8)
        × (1 ≤ disk_sum w.hardware.disks)
        × (disk_sum w.hardware.disks ≤ 64000))
      same
      (
        policy ∙ current_policy r.identity_policy_version (accepted_test _ _ current.0),
        desktop_image checked.guest.windows_image_index (accepted_test _ _ image.0),
        subst (λ (w : HardwareSpec). w.secure_boot ≡ true → w.firmware ≡ efi) (sym hardware)
            (secure_efi r.hardware.secure_boot r.hardware.firmware boot),
        rw hardware least,
        rw hardware most,
        rw hardware (disk_sum-positive r.hardware.disks disks least),
        rw hardware (let l = disk_sum-le r.hardware.disks disks in omega (arith, l, most)),
      )
