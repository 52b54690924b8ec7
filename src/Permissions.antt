-- ===== src/Permissions.antt =====
-- backend/app/auth/permissions.py. A Permission is a str, so two are equal when their values are.
use Prim.Native.String
use Prim.Native.Nat.{Ordering}
use infra_ops.Prelude.{
  ◌≡◌, refl, ap, ◌∙◌, Bool, true, false, ◌||◌, String, List, [], ◌∷◌, map, any, arith, str_eq,
  str_mem, if◌then◌else◌, eq_iff, Bool-cases, inl, inr,
}

pub data Permission : Type 0 where
  infrastructure_read provisioning_validate provisioning_submit jobs_read jobs_retry jobs_cancel
        audit_read admin_vcenters admin_certificates admin_applications admin_credentials
        admin_settings :
      Permission

unfoldable pub value : Permission → String
value infrastructure_read = "infrastructure.read"
value provisioning_validate = "provisioning.validate"
value provisioning_submit = "provisioning.submit"
value jobs_read = "jobs.read"
value jobs_retry = "jobs.retry"
value jobs_cancel = "jobs.cancel"
value audit_read = "audit.read"
value admin_vcenters = "admin.vcenters"
value admin_certificates = "admin.certificates"
value admin_applications = "admin.applications"
value admin_credentials = "admin.credentials"
value admin_settings = "admin.settings"

-- `permission in granted`
abbrev pub includes : Permission → List Permission → Bool
includes p set = any (λ q. str_eq (value q) (value p)) set

-- `granted |= more`
abbrev add : Permission → List Permission → List Permission
add p set = if includes p set then set else p ∷ set

unfoldable pub union : List Permission → List Permission → List Permission
union set [] = set
union set (p ∷ ps) = union (add p set) ps

abbrev pub role_viewer : List Permission
role_viewer = infrastructure_read ∷ jobs_read ∷ audit_read ∷ []

unfoldable pub role_operator : List Permission
unfolding union
role_operator =
    union role_viewer (provisioning_validate ∷ provisioning_submit ∷ jobs_retry ∷ jobs_cancel ∷ [])

abbrev pub role_administrator : List Permission
role_administrator =
    infrastructure_read ∷ provisioning_validate ∷ provisioning_submit ∷ jobs_read ∷ jobs_retry
    ∷ jobs_cancel ∷ audit_read ∷ admin_vcenters ∷ admin_certificates ∷ admin_applications
    ∷ admin_credentials ∷ admin_settings ∷ []

-- `ROLE_PERMISSIONS.get(role, frozenset())`
unfoldable pub role_permissions : String → List Permission
unfolding role_operator
role_permissions role =
    if str_eq role "viewer"
    then role_viewer
    else if str_eq role "operator"
    then role_operator
    else if str_eq role "administrator"
    then role_administrator
    else []

-- The loop of permissions_for_roles.
unfoldable pub granted_from : List Permission → List String → List Permission
granted_from granted [] = granted
granted_from granted (role ∷ roles) = granted_from (union granted (role_permissions role)) roles

abbrev before : String → String → Bool
before s t = elim (String.compare s t) [ Ordering.gt ↦ false | _ ↦ true ]

unfoldable pub insert_text : String → List String → List String
insert_text s [] = s ∷ []
insert_text s (t ∷ ts) = let rest = insert_text s ts in if before s t then s ∷ t ∷ ts else t ∷ rest

-- `sorted(values)`
unfoldable pub sort_texts : List String → List String
sort_texts [] = []
sort_texts (s ∷ ss) = insert_text s (sort_texts ss)

unfoldable pub permissions_for_roles : List String → List String
permissions_for_roles roles = sort_texts (map value (granted_from [] roles))

unfoldable pub roles_grant : List String → Permission → Bool
roles_grant [] permission = false
roles_grant (role ∷ roles) permission =
    let rest = roles_grant roles permission in
    if includes permission (role_permissions role) then true else rest

-- Membership of what the operations build.
str_mem-insert_text :
    (v s : String) (ts : List String) → str_mem v (insert_text s ts) ≡ (str_eq s v || str_mem v ts)
unfolding insert_text str_mem
str_mem-insert_text v s [] = ground arith
str_mem-insert_text v s (t ∷ ts) = ground (arith, str_mem-insert_text v s ts)

str_mem-sort_texts :
    (p : Permission) (ps : List Permission)
    → str_mem (value p) (sort_texts (map value ps)) ≡ includes p ps
unfolding sort_texts str_mem
str_mem-sort_texts p [] = refl
str_mem-sort_texts p (q ∷ qs) = ground (
  arith,
  str_mem-insert_text (value p) (value q) (sort_texts (map value qs)),
  str_mem-sort_texts p qs,
)

includes-add :
    (p q : Permission) (set : List Permission)
    → includes p (add q set) ≡ (str_eq (value q) (value p) || includes p set)
includes-add p q set = elim (Bool-cases (str_eq (value q) (value p))) [
  | inl same ↦
      let e = (eq_iff (value q) (value p)).0 same in
      let both : includes q set ≡ includes p set =
        ap (λ (v : String). any (λ r. str_eq (value r) v) set) e in
      ground (arith, same, both)
  | inr other ↦ ground (arith, other)
]

includes-union :
    (p : Permission) (set ps : List Permission)
    → includes p (union set ps) ≡ (includes p set || includes p ps)
unfolding union
includes-union p set [] = ground arith
includes-union p set (q ∷ qs) =
    ground (arith, includes-union p (add q set) qs, includes-add p q set)

includes-granted_from :
    (p : Permission) (set : List Permission) (roles : List String)
    → includes p (granted_from set roles) ≡ (includes p set || roles_grant roles p)
unfolding granted_from roles_grant
includes-granted_from p set [] = ground arith
includes-granted_from p set (role ∷ roles) = ground (
  arith,
  includes-granted_from p (union set (role_permissions role)) roles,
  includes-union p set (role_permissions role),
)

-- The list of permissions that a session is given has the value of a permission exactly when the roles
-- grant it, for any list of role names, unknown and repeated ones included.
pub permissions_for_roles_lem :
    (roles : List String) (p : Permission)
    → str_mem (value p) (permissions_for_roles roles) ≡ roles_grant roles p
unfolding permissions_for_roles
permissions_for_roles_lem roles p =
    str_mem-sort_texts p (granted_from [] roles) ∙ includes-granted_from p [] roles
