-- ===== src/Preflight/Verdict.antt =====
-- What a ready report of backend/app/services/provisioning/preflight.py says.
use infra_ops.Prelude.{
  ℕ, String, ◌≡◌, refl, subst, Bool, true, false, ◌&&◌, not, List, [], ◌∷◌, ◌++◌, all, Option, none,
  some, truthy_text, concat, codes, map, arith, if◌then◌else◌, Bool-cases, inl, inr, if_of_true,
}
use infra_ops.Service.Types.{IpMode, dhcp, static}
use infra_ops.Network.Static.{Issue, validate_static_ipv4}
use infra_ops.Network.Conflict.{IpConflictReport, run_conflict_check}
use infra_ops.Applications.Resolve.{Resolution, resolve_install_order}
use infra_ops.Requests.Schema.{ProvisioningRequest, Ipv4Config}
use infra_ops.Preflight.Report.{
  PreflightCheck, report_of, Answer, answered, raised, passed, failed, failures, failures-append,
}
use infra_ops.Applications.Paths.{strip_codes}
use infra_ops.Requests.Letters.{upper_code}
use infra_ops.Preflight.Media.{is_product_key}
use infra_ops.Preflight.Inventory.{check_infrastructure}
use infra_ops.Preflight.Ready.{IsAvailable, check_infrastructure-IsAvailable}
use infra_ops.Preflight.Catalogue.{
  some_list, enabled_rows, all_known, all_enabled, is_resolved, no_errors, join_bases,
  pair_readable, check_certificates, check_applications, selected_applications, installer_policy,
  check_product_key, check_credentials, Secret, value, not_found, unreadable, key_checks,
}
use infra_ops.Preflight.Run.{
  World, has_target, vcenter_checks, policy_checks, name_checks, conflict_checks, syntax_checks,
  address_checks, when_target, all_checks, validate,
}

vcenter_ready :
    (c : Answer (Option Bool)) (t : Answer Bool)
    → failures (vcenter_checks c t) ≡ 0
    → (c ≡ answered (some true)) × (t ≡ answered true)
vcenter_ready raised t f = ground arith
vcenter_ready (answered none) t f = ground arith
vcenter_ready (answered (some false)) t f = ground arith
vcenter_ready (answered (some true)) raised f = ground arith
vcenter_ready (answered (some true)) (answered false) f = ground arith
vcenter_ready (answered (some true)) (answered true) f = (refl, refl)

name_free : (a : Answer Bool) → failures (name_checks a) ≡ 0 → a ≡ answered false
name_free raised f = ground arith
name_free (answered true) f = ground arith
name_free (answered false) f = refl

-- The addresses of a static request: no issue, and no conflict where conflicts are looked for.
abbrev pub AddressesFree : World → Bool → IpMode → Option Ipv4Config → Type 0
AddressesFree w asked static (some c) =
    (validate_static_ipv4 c.address c.prefix c.gateway c.dns_servers ≡ [])
    × (asked ≡ true
        → (run_conflict_check c.address c.prefix w.conflict_providers).conflict_detected ≡ false)
AddressesFree w asked static none = Unit
AddressesFree w asked dhcp ipv4 = Unit

no_conflict :
    (r : IpConflictReport) → failures (conflict_checks r) ≡ 0 → r.conflict_detected ≡ false
no_conflict r f = elim (Bool-cases r.conflict_detected) [
  | inl q ↦ absurd (ground (arith, q, f))
  | inr q ↦ q
]

syntax_free :
    (w : World) (asked : Bool) (c : Ipv4Config) (issues : List Issue)
    → has_target w.connection ≡ true
    → failures (syntax_checks w asked c issues) ≡ 0
    → (issues ≡ [])
      × (asked ≡ true
          → (run_conflict_check c.address c.prefix w.conflict_providers).conflict_detected ≡ false)
syntax_free w asked c (i ∷ issues) t f = ground arith
syntax_free w true c [] t f = (
  refl,
  (λ a.
      no_conflict (run_conflict_check c.address c.prefix w.conflict_providers)
        (subst (λ l. failures l ≡ 0) (if_of_true (has_target w.connection) _ _ t) f)),
)
syntax_free w false c [] t f = (refl, (λ a. ground (arith, a)))

addresses_free :
    (w : World) (asked : Bool) (mode : IpMode) (ipv4 : Option Ipv4Config)
    → has_target w.connection ≡ true
    → failures (address_checks w asked mode ipv4) ≡ 0
    → AddressesFree w asked mode ipv4
addresses_free w asked static (some c) t f =
    syntax_free w asked c (validate_static_ipv4 c.address c.prefix c.gateway c.dns_servers) t f
addresses_free w asked static none t f = tt
addresses_free w asked dhcp ipv4 t f = tt

no_errors_nil : (es : List String) → no_errors es ≡ true → es ≡ []
no_errors_nil [] h = refl
no_errors_nil (e ∷ es) h = ground arith

resolved_of :
    (o : Option Resolution)
    → is_resolved o ≡ true
    → (res : Resolution) × (o ≡ some res) × (res.errors ≡ [])
resolved_of none h = ground arith
resolved_of (some res) h = (res, refl, no_errors_nil res.errors h)

verdict :
    (none_picked known : Bool) (a b c d e f : String)
    → none_picked ≡ false
    → failures (if none_picked then passed a b else if known then passed c d else failed e f) ≡ 0
    → known ≡ true
verdict true known a b c d e f n h = ground arith
verdict false true a b c d e f n h = refl
verdict false false a b c d e f n h = ground arith

last_of_three : (a b c : Bool) → (a && b && c) ≡ true → c ≡ true
last_of_three a b c h = ground arith

-- The selected applications have an install order.
abbrev pub AppsResolve : World → List ℕ → Type 0
AppsResolve w ids =
    some_list ids ≡ true
    → (res : Resolution) × (resolve_install_order w.id_text ids (enabled_rows w.applications)
        ≡ some res)
      × (res.errors ≡ [])

apps_resolve :
    (w : World) (ids : List ℕ)
    → failures (check_applications w.id_text ids w.applications) ≡ 0
    → AppsResolve w ids
unfolding check_applications
apps_resolve w ids f s =
    let h = verdict (not (some_list ids)) _ _ _ _ _ _ _ (ground (arith, s)) f in
    resolved_of (resolve_install_order w.id_text ids (enabled_rows w.applications)) (
      last_of_three (all_known ids (selected_applications ids w.applications))
        (all_enabled (selected_applications ids w.applications)) _ h)

two_ways :
    (b : Bool) (c d e f : String) → failures (if b then passed c d else failed e f) ≡ 0 → b ≡ true
two_ways true c d e f h = refl
two_ways false c d e f h = ground arith

-- The product key that a request refers to can be read, and has the form of a key.
abbrev pub KeyReadable : (String → Secret) → Option String → Type 0
KeyReadable secrets none = Unit
KeyReadable secrets (some reference) =
    truthy_text reference ≡ true
    → (key : String) × (secrets (concat (reference ∷ "/password" ∷ [])) ≡ value key)
      × (is_product_key (map upper_code (strip_codes (codes key))) ≡ true)

key_readable :
    (s : Secret)
    → failures (key_checks s) ≡ 0
    → (key : String) × (s ≡ value key)
      × (is_product_key (map upper_code (strip_codes (codes key))) ≡ true)
key_readable (value key) f = (key, refl, two_ways _ _ _ _ _ f)
key_readable not_found f = ground arith
key_readable unreadable f = ground arith

product-KeyReadable :
    (secrets : String → Secret) (o : Option String)
    → failures (check_product_key secrets o) ≡ 0
    → KeyReadable secrets o
unfolding check_product_key
product-KeyReadable secrets none f = tt
product-KeyReadable secrets (some reference) f = λ t.
    key_readable (secrets (concat (reference ∷ "/password" ∷ [])))
      (subst (λ l. failures l ≡ 0) (if_of_true (truthy_text reference) _ _ t) f)

-- The user name and the password of every credential can be read, and the product key.
abbrev pub CredentialsReadable : World → ProvisioningRequest → Type 0
CredentialsReadable w r =
    (all (pair_readable w.secrets) (r.guest.credential_secret_ref ∷ join_bases r.guest.domain_join)
      ≡ true)
    × KeyReadable w.secrets r.guest.product_key_secret_ref

parts :
    (xs ys : List PreflightCheck) → failures (xs ++ ys) ≡ 0 → (failures xs ≡ 0) × (failures ys ≡ 0)
parts xs ys f = let s = failures-append xs ys in (omega (arith, s, f), omega (arith, s, f))

credentials_readable :
    (w : World) (r : ProvisioningRequest)
    → failures (check_credentials w.secrets r) ≡ 0
    → CredentialsReadable w r
unfolding check_credentials
credentials_readable w r f =
    let (key, pairs) = parts (check_product_key w.secrets r.guest.product_key_secret_ref) _ f in
    (two_ways _ _ _ _ _ pairs, product-KeyReadable w.secrets r.guest.product_key_secret_ref key)

-- A report that is ready says that the vCenter connection exists, is enabled and answered its
-- test; that the inventory answered with the datacenter, the cluster, the network and the ISO that
-- the request names, its hosts (with an available one, where the request names a host, and no
-- HTTPS problem on those that files go to), the resource pool, where one is named, a datastore that
-- is accessible and has room for all its disks, and Windows Server media; that no VM has the name;
-- that a static address has no issue and, where conflicts are looked for, no conflict; that the
-- selected applications have an install order; that the user name and the password of the local
-- administrator and of the domain join can be read; and that a product key that is referred to can
-- be read and has the form of a key.
pub validate_lem :
    (w : World) (r : ProvisioningRequest) (asked : Bool)
    → (validate w r asked).ready ≡ true
    → (w.connection ≡ answered (some true))
      × (w.test_connection ≡ answered true)
      × IsAvailable w.inventory r w.preferred_datastores
      × (w.vm_exists ≡ answered false)
      × AddressesFree w asked r.network.mode r.network.ipv4
      × AppsResolve w r.application_ids
      × CredentialsReadable w r
unfolding validate report_of
validate_lem w r asked h =
    let f : failures (all_checks w r asked) ≡ 0 = ground (arith, h) in
    let p0 = parts (vcenter_checks w.connection w.test_connection) _ f in
    let (row, test) = vcenter_ready w.connection w.test_connection p0.0 in
    let t : has_target w.connection ≡ true = rw row refl in
    let p1 =
      parts (when_target w (check_infrastructure w.inventory r w.preferred_datastores)) _ p0.1 in
    let p2 = parts (policy_checks w.vm_name_policy) _ p1.1 in
    let p3 = parts (when_target w (name_checks w.vm_exists)) _ p2.1 in
    let p4 = parts (address_checks w asked r.network.mode r.network.ipv4) _ p3.1 in
    let p5 = parts (check_certificates r.certificate_package_ids w.packages) _ p4.1 in
    let p6 = parts (check_applications w.id_text r.application_ids w.applications) _ p5.1 in
    let p7 =
      parts
        (installer_policy w.allowed_installer_roots
          (selected_applications r.application_ids w.applications))
        _ p6.1 in
    let made = λ (l : List PreflightCheck) (e : failures (when_target w l) ≡ 0).
      subst (λ x. failures x ≡ 0) (if_of_true (has_target w.connection) l [] t) e in
    (
      row,
      test,
      check_infrastructure-IsAvailable w.inventory r w.preferred_datastores
          (made (check_infrastructure w.inventory r w.preferred_datastores) p1.0),
      name_free w.vm_exists (made (name_checks w.vm_exists) p3.0),
      addresses_free w asked r.network.mode r.network.ipv4 t p4.0,
      apps_resolve w r.application_ids p6.0,
      credentials_readable w r p7.1,
    )
