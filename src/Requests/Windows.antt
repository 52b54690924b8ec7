-- ===== src/Requests/Windows.antt =====
-- The Windows names under the current policy of an accepted request of backend/app/schemas/provisioning.py.
use Prim.Native.String
use infra_ops.Prelude.{
  suc, ◌+◌, ◌≤◌, String, ◌≡◌, refl, ap, sym, ◌∙◌, subst, Bool, true, false, ◌||◌, not, [], ◌∷◌,
  Option, none, some, codes, concat, length, ltb, arith,
}
use text.Mathlib.TextLemmas.{nil-append, cons-append}
use infra_ops.Service.Types.{IdentityPolicyVersion, v1, v2}
use infra_ops.Requests.Letters.{upper, lower_text, codes-upper}
use infra_ops.Requests.Patterns.{
  is_computer_name, all_digits, is_computer_name-upper, all_digits-upper, length-upper,
}
use infra_ops.Requests.Schema.{DomainJoinSpec, GuestSpec, ProvisioningRequest}
use infra_ops.Requests.Validate.{Checked, accepted, refused, ◌>>◌, refuse_if}
use infra_ops.Requests.Identity.{
  named, joined_name, check_domain, check_current, check_identity, kept_hostname, validate_identity,
  computer_name, effective_computer_name, fqdn_of, effective_fqdn,
}
use infra_ops.Requests.Names.{validated, computer_name_again}

abbrev or_text_of : String → Option String → String
or_text_of d none = d
or_text_of d (some t) = t

refuse_if_ok : (b : Bool) (m : String) → refuse_if b m ≡ accepted tt → b ≡ false
refuse_if_ok true m h = ground arith
refuse_if_ok false m h = refl

both_ok :
    (c d : Checked (Unit {0})) → (c >> d) ≡ accepted tt → (c ≡ accepted tt) × (d ≡ accepted tt)
both_ok (refused e) d h = ground arith
both_ok (accepted u) d h = (refl, h)

name_tests : (a b : Bool) → (not a || b) ≡ false → (a ≡ true) × (b ≡ false)
name_tests true false h = (refl, refl)
name_tests true true h = ground arith
name_tests false b h = ground arith

-- What the checks of the current policy say of the name.
current_name :
    (ref : String) (j : Option DomainJoinSpec) (name : String)
    → check_current ref j name ≡ accepted tt
    → (is_computer_name (codes (upper name)) ≡ true)
      × (all_digits (codes (upper name)) ≡ false)
      × (check_domain name j ≡ accepted tt)
current_name ref j name h =
    let rest = both_ok _ _ h in
    let pair = both_ok _ _ rest.1 in
    let q = refuse_if_ok _ _ pair.0 in
    let (a, b) = name_tests _ _ q in
    (
      rw (codes-upper name, is_computer_name-upper (codes name)) a,
      rw (codes-upper name, all_digits-upper (codes name)) b,
      pair.1,
    )

length-lower : (s : String) → length (codes (lower_text s)) ≡ length (codes s)
unfolding lower_text
length-lower String.[] = refl
length-lower (String.◌∷◌ c s) = ap suc (length-lower s)

length-joined :
    (s t : String) → length (codes (String.◌++◌ s t)) ≡ length (codes s) + length (codes t)
length-joined String.[] t = rw (nil-append t) (omega arith)
length-joined (String.◌∷◌ c s) t =
    let ih = length-joined s t in rw (cons-append c s t) (omega (arith, ih))

length-joined_name :
    (name domain : String)
    → length (codes (joined_name name domain)) ≡ length (codes name) + suc (length (codes domain))
unfolding concat
length-joined_name name domain =
    let a = length-joined name (concat ("." ∷ domain ∷ [])) in
    let b = length-joined "." (concat (domain ∷ [])) in
    let c = length-joined domain "" in omega (arith, a, b, c)

domain_length :
    (name domain : String)
    → length (codes (lower_text (joined_name (upper name) domain)))
      ≡ length (codes (joined_name name domain))
domain_length name domain =
    let up = ap length (codes-upper name) ∙ length-upper (codes name) in
    length-lower (joined_name (upper name) domain)
    ∙ omega (arith, length-joined_name (upper name) domain, length-joined_name name domain, up)

current_fqdn :
    (j : Option DomainJoinSpec) (h : Option String) (n f : String)
    → check_domain (named j v2 h n) j ≡ accepted tt
    → fqdn_of (computer_name j v2 h n) j ≡ some f
    → length (codes f) ≤ 253
current_fqdn none h n f e q = ground arith
current_fqdn (some join) h n f e q =
    let rest = both_ok _ _ e in
    let last = both_ok _ _ rest.1 in
    let size : ltb 253 (length (codes (joined_name n join.domain))) ≡ false =
      refuse_if_ok _ _ last.1 in
    let small : length (codes (joined_name n join.domain)) ≤ 253 = ground (arith, size) in
    let same : lower_text (joined_name (upper n) join.domain) ≡ f = ap (or_text_of f) q in
    subst (λ t. length (codes t) ≤ 253) same (omega (arith, domain_length n join.domain, small))

computer_name-named :
    (j : Option DomainJoinSpec) (h : Option String) (n : String)
    → computer_name j v2 h n ≡ upper (named j v2 h n)
computer_name-named none h n = refl
computer_name-named (some join) h n = refl

kept_current :
    (j : Option DomainJoinSpec) (h : Option String) (name : String)
    → kept_hostname j v2 h name ≡ some (upper name)
kept_current none h name = refl
kept_current (some join) h name = refl

-- What the current policy says of a guest's hostname and names.
current_names :
    (j : Option DomainJoinSpec) (v : IdentityPolicyVersion) (g : GuestSpec) (h : Option String)
    (n : String)
    → v ≡ v2
    → g.domain_join ≡ j
    → check_identity v g (named j v h n) ≡ accepted tt
    → (is_computer_name (codes (computer_name j v h n)) ≡ true)
      × (all_digits (codes (computer_name j v h n)) ≡ false)
      × (kept_hostname j v h (named j v h n) ≡ some (computer_name j v h n))
      × ((f : String) → fqdn_of (computer_name j v h n) j ≡ some f → length (codes f) ≤ 253)
current_names j v1 g h n e d ok = ground arith
current_names j v2 g h n e d ok =
    let same = computer_name-named j h n in
    let checked : check_current g.credential_secret_ref j (named j v2 h n) ≡ accepted tt =
      subst (λ k. check_current g.credential_secret_ref k (named j v2 h n) ≡ accepted tt) d ok in
    let (good, digits, domain) = current_name g.credential_secret_ref j (named j v2 h n) checked in
    (
      rw same good,
      rw same digits,
      rw same (kept_current j h (named j v2 h n)),
      (λ f q. current_fqdn j h n f domain q),
    )

-- Under the current policy an accepted request gives Windows a name of 1 to 63 letters, digits and
-- hyphens that begins and ends with a letter or digit and is not all digits, keeps that name as
-- its hostname, and its domain name has at most 253 characters.
pub effective_computer_name_lem :
    (r s : ProvisioningRequest)
    → r.identity_policy_version ≡ v2
    → validate_identity r ≡ accepted s
    → (is_computer_name (codes (effective_computer_name s)) ≡ true)
      × (all_digits (codes (effective_computer_name s)) ≡ false)
      × (s.guest.hostname ≡ some (effective_computer_name s))
      × ((f : String) → effective_fqdn s ≡ some f → length (codes f) ≤ 253)
unfolding validate_identity effective_computer_name effective_fqdn
effective_computer_name_lem r s v h =
    let (ok, same) = validated _ _ s h in
    let (good, digits, kept, domain) =
      current_names r.guest.domain_join r.identity_policy_version r.guest r.guest.hostname r.vm.name
        v refl ok in
    let name =
      computer_name_again r.guest.domain_join r.identity_policy_version r.guest.hostname
        r.vm.name in
    subst
      (λ w.
        (is_computer_name (codes (effective_computer_name w)) ≡ true)
        × (all_digits (codes (effective_computer_name w)) ≡ false)
        × (w.guest.hostname ≡ some (effective_computer_name w))
        × ((f : String) → effective_fqdn w ≡ some f → length (codes f) ≤ 253))
      same
      (
        rw name good,
        rw name digits,
        rw name kept,
        (λ f q. domain f (sym (ap (λ m. fqdn_of m r.guest.domain_join) name) ∙ q)),
      )
