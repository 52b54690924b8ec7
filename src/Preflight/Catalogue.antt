-- ===== src/Preflight/Catalogue.antt =====
-- The checks of certificates, applications and credentials of
-- backend/app/services/provisioning/preflight.py, over the rows that the database holds.
use infra_ops.Prelude.{
  ℕ, String, Bool, true, false, ◌&&◌, not, List, [], ◌∷◌, ◌++◌, map, Option, none, some, codes,
  concat, truthy_text, filter_if, any, all, ◌==◌, if◌then◌else◌,
}
use infra_ops.Applications.Catalog.{AppNode, Catalog}
use infra_ops.Applications.Resolve.{Resolution, resolve_install_order}
use infra_ops.Applications.Paths.{path_within_roots, strip_codes}
use infra_ops.Requests.Letters.{upper_code}
use infra_ops.Requests.Schema.{ProvisioningRequest, DomainJoinSpec}
use infra_ops.Preflight.Report.{PreflightCheck, passed, failed}
use infra_ops.Preflight.Media.{is_product_key}

-- A certificate package: whether it is enabled, and its certificates' enabled flags.
pub record Package : Type 0 where
  pub id : ℕ
  pub enabled : Bool
  pub certificates : List Bool

pub record Application : Type 0 where
  pub node : AppNode
  pub installer_path : String

pub data Secret : Type 0 where
  value : String → Secret
  not_found unreadable : Secret

abbrev pub some_list : List ℕ → Bool
some_list [] = false
some_list (x ∷ xs) = true

abbrev find_package : ℕ → List Package → Option Package
find_package id [] = none
find_package id (p ∷ ps) = let rest = find_package id ps in if p.id == id then some p else rest

abbrev pub package_ok : Option Package → Bool
package_ok none = false
package_ok (some p) = p.enabled && any (λ c. c) p.certificates

abbrev certificates_label : String
certificates_label = "Certificate packages available"

-- _check_certificates
unfoldable pub check_certificates : List ℕ → List Package → List PreflightCheck
check_certificates ids packages =
    if not (some_list ids)
    then passed "certificates" "Certificate packages"
    else if all (λ id. package_ok (find_package id packages)) ids
    then passed "certificates" certificates_label
    else failed "certificates" certificates_label

-- _selected_applications
unfoldable pub selected_applications : List ℕ → List Application → List Application
selected_applications ids rows = filter_if (λ a. any (λ id. id == a.node.id) ids) rows

abbrev pub enabled_rows : List Application → Catalog
enabled_rows [] = []
enabled_rows (a ∷ rows) =
    let rest = enabled_rows rows in if a.node.enabled then (a.node.id, a.node) ∷ rest else rest

abbrev is_known : ℕ → List Application → Bool
is_known id rows = any (λ a. a.node.id == id) rows

abbrev pub no_errors : List String → Bool
no_errors [] = true
no_errors (e ∷ es) = false

abbrev pub is_resolved : Option Resolution → Bool
is_resolved none = false
is_resolved (some r) = no_errors r.errors

abbrev pub all_known : List ℕ → List Application → Bool
all_known ids picked = all (λ id. is_known id picked) ids

abbrev pub all_enabled : List Application → Bool
all_enabled picked = all (λ a. a.node.enabled) picked

abbrev applications_label : String
applications_label = "Application definitions valid"

-- _check_applications; `id_text` prints an identifier.
unfoldable pub check_applications : (ℕ → String) → List ℕ → List Application → List PreflightCheck
unfolding selected_applications
check_applications id_text ids rows =
    let picked = selected_applications ids rows in
    if not (some_list ids)
    then passed "applications" "Application definitions"
    else if all_known ids picked
        && all_enabled picked
        && is_resolved (resolve_install_order id_text ids (enabled_rows rows))
    then passed "applications" applications_label
    else failed "applications" applications_label

abbrev some_rows : List Application → Bool
some_rows [] = false
some_rows (a ∷ rows) = true

abbrev some_roots : List String → Bool
some_roots [] = false
some_roots (r ∷ roots) = true

abbrev outside_roots : List String → Application → Bool
outside_roots roots a = not (path_within_roots (codes a.installer_path) (map codes roots))

-- The installer repository policy of `validate`.
unfoldable pub installer_policy : List String → List Application → List PreflightCheck
installer_policy roots picked =
    if some_rows picked && not (some_roots roots)
    then failed "installer_policy" "Installer repository policy"
    else if some_roots roots && any (outside_roots roots) picked
    then failed "installer_policy" "Installer locations approved"
    else passed "installer_policy" "Installer locations approved"

abbrev is_readable : Secret → Bool
is_readable (value text) = true
is_readable _ = false

abbrev pub join_bases : Option DomainJoinSpec → List String
join_bases none = []
join_bases (some join) = join.credential_secret_ref ∷ []

abbrev pub pair_readable : (String → Secret) → String → Bool
pair_readable secrets base =
    is_readable (secrets (concat (base ∷ "/username" ∷ [])))
    && is_readable (secrets (concat (base ∷ "/password" ∷ [])))

abbrev key_label : String
key_label = "Windows product key"

abbrev pub key_checks : Secret → List PreflightCheck
key_checks (value key) =
    if is_product_key (map upper_code (strip_codes (codes key)))
    then passed "product_key" key_label
    else failed "product_key" key_label
key_checks not_found = failed "product_key" key_label
key_checks unreadable = failed "product_key" key_label

-- _check_product_key
unfoldable pub check_product_key : (String → Secret) → Option String → List PreflightCheck
check_product_key secrets none = passed "product_key" key_label
check_product_key secrets (some reference) =
    if truthy_text reference
    then key_checks (secrets (concat (reference ∷ "/password" ∷ [])))
    else passed "product_key" key_label

abbrev credentials_label : String
credentials_label = "Credential references resolvable"

-- _check_credentials
unfoldable pub check_credentials : (String → Secret) → ProvisioningRequest → List PreflightCheck
unfolding check_product_key
check_credentials secrets r =
    check_product_key secrets r.guest.product_key_secret_ref
    ++ (if all (pair_readable secrets)
          (r.guest.credential_secret_ref ∷ join_bases r.guest.domain_join)
        then passed "credentials" credentials_label
        else failed "credentials" credentials_label)
