-- ===== src/Repository/Unique/SameKeys.antt =====
-- A row of the table that is written again with the same keys.
use infra_ops.Prelude.{
  Option, ℕ, ◌≤◌, ◌≡◌, refl, Bool, true, false, ◌&&◌, String, List, [], ◌∷◌, none, some, any,
  count_if, lower, arith, inl, inr, Option-cases, eq_refl,
}
use infra_ops.Jobs.{Job, is_active}
use infra_ops.Repository.Table.{
  get, same_text, codes_eq, holds_vm_name, holds_ipv4, other_than, violated,
}
use infra_ops.Repository.Unique.{holds_key, IsConsistent}

no_holder :
    (p : Job → Bool) (id : ℕ) (jobs : List Job)
    → count_if p jobs ≡ 0
    → any (λ o. p o && other_than (some id) o) jobs ≡ false
no_holder p id [] h = refl
no_holder p id (o ∷ js) h = ground (arith, no_holder p id js)

-- In a table with at most one holder of a key, the row that holds it is alone.
held_by :
    (p : Job → Bool) (id : ℕ) (j : Job) (jobs : List Job)
    → get id jobs ≡ some j
    → p j ≡ true
    → 1 ≤ count_if p jobs
unfolding get
held_by p id j [] found held = ground arith
held_by p id j (o ∷ js) found held = ground (arith, held_by p id j js)

none_else :
    (p : Job → Bool) (id : ℕ) (j : Job) (jobs : List Job)
    → get id jobs ≡ some j
    → p j ≡ true
    → count_if p jobs ≤ 1
    → any (λ o. p o && other_than (some id) o) jobs ≡ false
unfolding get
none_else p id j [] found held one = refl
none_else p id j (o ∷ js) found held one =
    ground (arith, held_by p id j js, none_else p id j js, no_holder p id js)

codes_eq_refl : (a : List ℕ) → codes_eq a a ≡ true
codes_eq_refl [] = refl
codes_eq_refl (a ∷ as') = ground (arith, codes_eq_refl as')

-- NULL is no one's key.
none_null :
    (p : Job → Bool) (q : Job → Bool) (jobs : List Job)
    → ((o : Job) → p o ≡ false)
    → any (λ o. p o && q o) jobs ≡ false
none_null p q [] off = refl
none_null p q (o ∷ js) off = ground (arith, off o, none_null p q js off)

same_text-none : (t : Option String) → same_text t none ≡ false
same_text-none none = refl
same_text-none (some t) = refl

-- A row that keeps the keys of an active row of a consistent table violates no index.
pub kept_keys_unviolated :
    (j j' : Job) (jobs : List Job)
    → IsConsistent jobs
    → get j.id jobs ≡ some j
    → is_active j.status ≡ true
    → j'.id ≡ j.id
    → j'.idempotency_key ≡ j.idempotency_key
    → j'.vm_name ≡ j.vm_name
    → j'.reserved_ipv4 ≡ j.reserved_ipv4
    → violated j' jobs ≡ none
unfolding violated
kept_keys_unviolated j j' jobs (ids, keys, names, addresses) found active id key name address =
    let no_name : any (λ o. holds_vm_name j.vm_name o && other_than (some j.id) o) jobs ≡ false =
      none_else (holds_vm_name j.vm_name) j.id j jobs found
        (ground (arith, active, codes_eq_refl (lower j.vm_name))) (names j.vm_name) in
    let no_key : any
          (λ o. same_text o.idempotency_key j.idempotency_key && other_than (some j.id) o) jobs
        ≡ false =
      elim (Option-cases j.idempotency_key) [
        | inl unset ↦ rw unset (
            none_null (holds_key none) (other_than (some j.id)) jobs
              λ o. same_text-none o.idempotency_key)
        | inr (k, set) ↦
            rw set (none_else (holds_key (some k)) j.id j jobs found (rw set (eq_refl k)) (keys k))
      ] in
    let no_address : any (λ o. holds_ipv4 j.reserved_ipv4 o && other_than (some j.id) o) jobs
        ≡ false =
      elim (Option-cases j.reserved_ipv4) [
        | inl unset ↦ rw unset (
            none_null (holds_ipv4 none) (other_than (some j.id)) jobs
              λ o. ground (arith, same_text-none o.reserved_ipv4))
        | inr (a, set) ↦ rw set (
            none_else (holds_ipv4 (some a)) j.id j jobs found (rw (set, eq_refl a, active) refl)
              (addresses a))
      ] in
    rw (id, key, name, address, no_key, no_name, no_address) (ground arith)
