-- ===== src/Repository/Unique.antt =====
-- What the unique indexes of backend/app/models/jobs.py keep true of the job table.
pub mod SameKeys
use infra_ops.Prelude.{
  Option, ℕ, ◌+◌, ◌≤◌, ◌≡◌, refl, sym, ap, subst, Bool, true, false, ◌&&◌, String, List, [], ◌∷◌,
  none, some, ◌==◌, any, count_if, lower, arith, if◌then◌else◌, inl, inr, Bool-cases, Option-cases,
  eq_iff, eq_refl, str_eq,
}
use infra_ops.Jobs.{Job, is_active}
use infra_ops.Repository.Table.{
  get, same_text, codes_eq, holds_vm_name, holds_ipv4, other_than, violated, put,
}

-- One row for an identifier, and at most one active job for a VM name, in any case of its letters.
abbrev pub OneRowPerId : List Job → Type 0
OneRowPerId jobs = (id : ℕ) → count_if (λ j. j.id == id) jobs ≤ 1

abbrev pub OneJobPerVmName : List Job → Type 0
OneJobPerVmName jobs = (vm_name : String) → count_if (holds_vm_name vm_name) jobs ≤ 1

-- A row has the idempotency key.
abbrev pub holds_key : Option String → Job → Bool
holds_key key j = same_text j.idempotency_key key

abbrev pub OneJobPerKey : List Job → Type 0
OneJobPerKey jobs = (key : String) → count_if (holds_key (some key)) jobs ≤ 1

-- At most one active job for a reserved IPv4 address.
abbrev pub OneJobPerAddress : List Job → Type 0
OneJobPerAddress jobs = (address : String) → count_if (holds_ipv4 (some address)) jobs ≤ 1

codes_eq_sound : (a b : List ℕ) → codes_eq a b ≡ true → a ≡ b
codes_eq_sound [] [] h = refl
codes_eq_sound [] (b ∷ bs) h = ground arith
codes_eq_sound (a ∷ as') [] h = ground arith
codes_eq_sound (a ∷ as') (b ∷ bs) h =
    let same : a ≡ b = ground arith in
    let rest : codes_eq as' bs ≡ true = ground arith in
    rw same (ap (λ t. b ∷ t) (codes_eq_sound as' bs rest))

-- The number of entries that pass a test and have another identifier.
others_none :
    (p : Job → Bool) (id : ℕ) (jobs : List Job)
    → any (λ o. p o && other_than (some id) o) jobs ≡ false
    → count_if (λ o. p o && other_than (some id) o) jobs ≡ 0
others_none p id [] h = refl
others_none p id (o ∷ js) h = ground (arith, others_none p id js)

count-le_others :
    (p : Job → Bool) (id : ℕ) (jobs : List Job)
    → count_if p jobs
      ≤ count_if (λ o. p o && other_than (some id) o) jobs + count_if (λ o. o.id == id) jobs
count-le_others p id [] = omega arith
count-le_others p id (o ∷ js) = ground (arith, count-le_others p id js)

others-le_count :
    (p : Job → Bool) (id : ℕ) (jobs : List Job)
    → count_if (λ o. p o && other_than (some id) o) jobs ≤ count_if p jobs
others-le_count p id [] = omega arith
others-le_count p id (o ∷ js) = ground (arith, others-le_count p id js)

count-put :
    (p : Job → Bool) (j : Job) (jobs : List Job)
    → count_if p (put j jobs)
      ≡ count_if (λ o. p o && other_than (some j.id) o) jobs
        + (if p j then count_if (λ o. o.id == j.id) jobs else 0)
unfolding put
count-put p j [] = ground arith
count-put p j (o ∷ js) = ground (arith, count-put p j js)

-- A test of a key, `holds`, that a new row passes and no other row does.
count-insert_le :
    (p : Job → Bool) (j : Job) (jobs : List Job)
    → count_if p jobs ≤ 1
    → count_if (λ o. o.id == j.id) jobs ≡ 0
    → (p j ≡ true → any (λ o. p o && other_than (some j.id) o) jobs ≡ false)
    → count_if p (j ∷ jobs) ≤ 1
count-insert_le p j jobs one fresh apart = elim (Bool-cases (p j)) [
  | inl held ↦
      ground (arith, held, others_none p j.id jobs (apart held), count-le_others p j.id jobs, fresh)
  | inr free ↦ ground (arith, free, one)
]

count-put_le :
    (p : Job → Bool) (j : Job) (jobs : List Job)
    → count_if p jobs ≤ 1
    → count_if (λ o. o.id == j.id) jobs ≤ 1
    → (p j ≡ true → any (λ o. p o && other_than (some j.id) o) jobs ≡ false)
    → count_if p (put j jobs) ≤ 1
count-put_le p j jobs one id apart = elim (Bool-cases (p j)) [
  | inl held ↦ ground (arith, held, count-put p j jobs, others_none p j.id jobs (apart held), id)
  | inr free ↦ ground (arith, free, count-put p j jobs, others-le_count p j.id jobs, one)
]

-- The indexes: a row that violates none of them meets no other row that holds one of its keys.
unviolated_name :
    (j : Job) (jobs : List Job) (vm_name : String)
    → violated j jobs ≡ none
    → holds_vm_name vm_name j ≡ true
    → any (λ o. holds_vm_name vm_name o && other_than (some j.id) o) jobs ≡ false
unfolding violated
unviolated_name j jobs vm_name clean held =
    let same : codes_eq (lower j.vm_name) (lower vm_name) ≡ true = ground arith in
    let active : is_active j.status ≡ true = ground arith in
    let apart : any (λ o. holds_vm_name j.vm_name o && other_than (some j.id) o) jobs ≡ false =
      ground arith in
    subst
      (λ (name : List ℕ).
        any
          (λ o. (codes_eq (lower o.vm_name) name && is_active o.status) && other_than (some j.id) o)
          jobs
        ≡ false)
      (codes_eq_sound _ _ same) apart

unviolated_address :
    (j : Job) (jobs : List Job) (address : String)
    → violated j jobs ≡ none
    → holds_ipv4 (some address) j ≡ true
    → any (λ o. holds_ipv4 (some address) o && other_than (some j.id) o) jobs ≡ false
unfolding violated
unviolated_address j jobs address clean held = elim (Option-cases j.reserved_ipv4) [
  | inl unset ↦ ground (arith, unset)
  | inr (own, set) ↦
      let held' : (str_eq own address && is_active j.status) ≡ true = rw set at held in
      let same : own ≡ address = (eq_iff own address).0 (ground arith) in
      let active : is_active j.status ≡ true = ground arith in
      let apart : any (λ o. holds_ipv4 j.reserved_ipv4 o && other_than (some j.id) o) jobs ≡ false =
        ground arith in
      rw (sym same, sym set) apart
]

unviolated_key :
    (j : Job) (jobs : List Job) (key : String)
    → violated j jobs ≡ none
    → holds_key (some key) j ≡ true
    → any (λ o. holds_key (some key) o && other_than (some j.id) o) jobs ≡ false
unfolding violated
unviolated_key j jobs key clean held = elim (Option-cases j.idempotency_key) [
  | inl unset ↦ ground (arith, unset)
  | inr (own, set) ↦
      let held' : str_eq own key ≡ true = rw set at held in
      let apart : any (λ o. holds_key j.idempotency_key o && other_than (some j.id) o) jobs
          ≡ false =
        ground arith in
      rw (sym ((eq_iff own key).0 held'), sym set) apart
]

-- One row for an identifier and for an idempotency key, one active job for a VM name and an address.
abbrev pub IsConsistent : List Job → Type 0
IsConsistent jobs =
    OneRowPerId jobs × OneJobPerKey jobs × OneJobPerVmName jobs × OneJobPerAddress jobs

-- No two rows of a table have the identifier of one row.
ids_apart :
    (j : Job) (jobs : List Job) (id : ℕ)
    → (j.id == id) ≡ true
    → any (λ o. o.id == id && other_than (some j.id) o) jobs ≡ false
ids_apart j [] id h = refl
ids_apart j (o ∷ js) id h = ground (arith, ids_apart j js id h)

pub put-IsConsistent :
    (j : Job) (jobs : List Job)
    → IsConsistent jobs
    → violated j jobs ≡ none
    → IsConsistent (put j jobs)
put-IsConsistent j jobs (ids, keys, names, addresses) clean = (
  λ id. count-put_le (λ o. o.id == id) j jobs (ids id) (ids j.id) (ids_apart j jobs id),
  λ k. count-put_le _ j jobs (keys k) (ids j.id) (unviolated_key j jobs k clean),
  λ name. count-put_le _ j jobs (names name) (ids j.id) (unviolated_name j jobs name clean),
  λ a. count-put_le _ j jobs (addresses a) (ids j.id) (unviolated_address j jobs a clean),
)

pub insert-IsConsistent :
    (j : Job) (jobs : List Job)
    → IsConsistent jobs
    → count_if (λ o. o.id == j.id) jobs ≡ 0
    → violated j jobs ≡ none
    → IsConsistent (j ∷ jobs)
insert-IsConsistent j jobs (ids, keys, names, addresses) fresh clean = (
  λ id. count-insert_le (λ o. o.id == id) j jobs (ids id) fresh (ids_apart j jobs id),
  λ k. count-insert_le _ j jobs (keys k) fresh (unviolated_key j jobs k clean),
  λ name. count-insert_le _ j jobs (names name) fresh (unviolated_name j jobs name clean),
  λ a. count-insert_le _ j jobs (addresses a) fresh (unviolated_address j jobs a clean),
)
