-- ===== src/Requests/Names.antt =====
-- The Windows names of an accepted request of backend/app/schemas/provisioning.py.
use Prim.Native.Char.{Char}
use infra_ops.Prelude.{
  String, ◌≡◌, refl, ap, sym, ◌∙◌, subst, Bool, true, false, Option, none, some, codes, truthy_text,
  str_eq, arith, Bool-cases, inl, inr, if_of_true, if_of_false, eq_iff,
}
use mathlib.Core.Bool.{false≢true}
use infra_ops.Service.Types.{IdentityPolicyVersion, v1, v2}
use infra_ops.Requests.Letters.{upper, upper-upper, codes-upper}
use infra_ops.Requests.Patterns.{is_computer_name-upper, all_digits-upper}
use infra_ops.Requests.Schema.{DomainJoinSpec, GuestSpec, ProvisioningRequest}
use infra_ops.Requests.Validate.{Checked, accepted, refused, ◌>>◌}
use infra_ops.Requests.Identity.{
  or_text, named, check_current, check_identity, kept_hostname, with_hostname, validate_identity,
  computer_name, effective_computer_name, fqdn_of, effective_fqdn,
}

abbrev is_empty : String → Bool
is_empty String.[] = true
is_empty (String.◌∷◌ c s) = false

pub cons_truthy : (c : Char) (s : String) → truthy_text (String.◌∷◌ c s) ≡ true
cons_truthy c s = elim (Bool-cases (str_eq (String.◌∷◌ c s) "")) [
  | inl q ↦ absurd (false≢true (ap is_empty ((eq_iff (String.◌∷◌ c s) "").0 q)))
  | inr q ↦ rw q refl
]

or_request : ProvisioningRequest → Checked ProvisioningRequest → ProvisioningRequest
or_request r (refused e) = r
or_request r (accepted s) = s

-- An empty text stays empty in capitals.
truthy_text-upper : (s : String) → truthy_text (upper s) ≡ truthy_text s
unfolding upper
truthy_text-upper String.[] = refl
truthy_text-upper (String.◌∷◌ c s) = cons_truthy _ _ ∙ sym (cons_truthy c s)

falsy_upper : (s : String) → truthy_text s ≡ false → s ≡ upper s
unfolding upper
falsy_upper String.[] h = refl
falsy_upper (String.◌∷◌ c s) h = absurd (false≢true (sym h ∙ cons_truthy c s))

or_text_again :
    (s n : String) → (truthy_text s ≡ false → n ≡ s) → or_text (some (upper s)) n ≡ upper s
or_text_again s n h = elim (Bool-cases (truthy_text s)) [
  | inl q ↦ if_of_true _ _ _ (truthy_text-upper s ∙ q)
  | inr q ↦ if_of_false _ _ _ (truthy_text-upper s ∙ q) ∙ (h q ∙ falsy_upper s q)
]

or_text_falsy :
    (h : Option String) (n : String) → truthy_text (or_text h n) ≡ false → n ≡ or_text h n
or_text_falsy none n e = refl
or_text_falsy (some t) n e = elim (Bool-cases (truthy_text t)) [
  | inl q ↦ let x = if_of_true (truthy_text t) t n q in absurd (ground (arith, x, e, q))
  | inr q ↦ sym (if_of_false (truthy_text t) t n q)
]

or_text-upper :
    (h : Option String) (n : String) → or_text (some (upper (or_text h n))) n ≡ upper (or_text h n)
or_text-upper h n = or_text_again (or_text h n) n (or_text_falsy h n)

-- The name that a request with its kept hostname gives.
named_again :
    (j : Option DomainJoinSpec) (v : IdentityPolicyVersion) (h : Option String) (n : String)
    → kept_hostname j v
        (kept_hostname j v h (named j v h n))
        (named j v (kept_hostname j v h (named j v h n)) n)
      ≡ kept_hostname j v h (named j v h n)
named_again none v h n = rw (or_text-upper h n, upper-upper (or_text h n)) refl
named_again (some j) v1 h n = refl
named_again (some j) v2 h n = refl

-- Both names of the request are those of the request it was made from.
pub computer_name_again :
    (j : Option DomainJoinSpec) (v : IdentityPolicyVersion) (h : Option String) (n : String)
    → computer_name j v (kept_hostname j v h (named j v h n)) n ≡ computer_name j v h n
computer_name_again none v h n = rw (or_text-upper h n, upper-upper (or_text h n)) refl
computer_name_again (some j) v1 h n = refl
computer_name_again (some j) v2 h n = refl

-- A name and the same name in capitals pass the same checks.
current_again :
    (ref : String) (j : Option DomainJoinSpec) (h : Option String) (n : String)
    → check_current ref j (named j v2 (kept_hostname j v2 h (named j v2 h n)) n)
      ≡ check_current ref j (named j v2 h n)
current_again ref none h n =
    rw
      (
        or_text-upper h n,
        codes-upper (or_text h n),
        is_computer_name-upper (codes (or_text h n)),
        all_digits-upper (codes (or_text h n)),
      )
      refl
current_again ref (some j) h n = refl

identity_again :
    (v : IdentityPolicyVersion) (g : GuestSpec) (h : Option String) (n : String)
    → check_identity v
        (record g { hostname = kept_hostname g.domain_join v h (named g.domain_join v h n) })
        (named g.domain_join v (kept_hostname g.domain_join v h (named g.domain_join v h n)) n)
      ≡ check_identity v g (named g.domain_join v h n)
identity_again v1 g h n = refl
identity_again v2 g h n = current_again g.credential_secret_ref g.domain_join h n

with_hostname_again : (r : ProvisioningRequest) → with_hostname (with_hostname r) ≡ with_hostname r
with_hostname_again r =
    ap (λ h. record r { guest = record r.guest { hostname = h } })
      (named_again r.guest.domain_join r.identity_policy_version r.guest.hostname r.vm.name)

pub validated :
    (c : Checked (Unit {0})) (r s : ProvisioningRequest)
    → (c >> accepted r) ≡ accepted s
    → (c ≡ accepted tt) × (r ≡ s)
unfolding or_request
validated (refused e) r s h = ground arith
validated (accepted u) r s h = (refl, ap (or_request r) h)

-- Where validate_identity accepts a request, it accepts the request that it returns again and changes
-- nothing in it; and it changes neither the effective computer name nor the effective FQDN of the
-- request it is given.
pub validate_identity_idempotent :
    (r s : ProvisioningRequest)
    → validate_identity r ≡ accepted s
    → (validate_identity s ≡ accepted s)
      × (effective_computer_name s ≡ effective_computer_name r)
      × (effective_fqdn s ≡ effective_fqdn r)
unfolding validate_identity effective_computer_name effective_fqdn
validate_identity_idempotent r s h =
    let (ok, same) = validated _ _ s h in
    let again = identity_again r.identity_policy_version r.guest r.guest.hostname r.vm.name in
    let name =
      computer_name_again r.guest.domain_join r.identity_policy_version r.guest.hostname
        r.vm.name in
    subst
      (λ w.
        (validate_identity w ≡ accepted w)
        × (effective_computer_name w ≡ effective_computer_name r)
        × (effective_fqdn w ≡ effective_fqdn r))
      same
      (
        ap (λ c. c >> accepted (with_hostname (with_hostname r))) (again ∙ ok)
            ∙ ap (λ w. accepted w) (with_hostname_again r),
        name,
        ap (λ m. fqdn_of m r.guest.domain_join) name,
      )
