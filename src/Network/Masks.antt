-- ===== src/Network/Masks.antt =====
-- The masks of backend/app/services/network/validation.py: mask_to_prefix, _is_contiguous_mask
-- and prefix_to_mask.
use infra_ops.Prelude.{
  ℕ, zero, suc, ◌-◌, ◌/◌, ◌%◌, ◌^◌, ◌≤◌, ◌<◌, String, ◌≡◌, refl, Bool, true, false, ◌&&◌, List, [],
  ◌∷◌, ◌++◌, Option, none, some, count_if, ltb, ◌==◌, if◌then◌else◌, arith, concat, Bool-cases, inl,
  inr,
}
use mathlib.Core.Bool.{false≢true}
use infra_ops.Network.Address.{parse_ipv4, show_ipv4, parse_octet, split_on, subnet_size}
use infra_ops.Prelude.Decimal.{show}

-- format(n, f"0{width}b") in front of `out`, the digits as numbers.
abbrev binary_onto : ℕ → ℕ → List ℕ → List ℕ
binary_onto zero n out = out
binary_onto (suc width) n out = binary_onto width (n / 2) (n % 2 ∷ out)

-- `digit * n`
abbrev repeat : ℕ → ℕ → List ℕ
repeat digit zero = []
repeat digit (suc n) = digit ∷ repeat digit n

abbrev same_digits : List ℕ → List ℕ → Bool
same_digits [] [] = true
same_digits (a ∷ xs) (b ∷ ys) = (a == b) && same_digits xs ys
same_digits _ _ = false

-- binary.count("1")
abbrev ones : List ℕ → ℕ
ones digits = count_if (λ d. d == 1) digits

abbrev is_contiguous : ℕ → Bool
is_contiguous packed =
    let binary = binary_onto 32 packed [] in
    same_digits binary (repeat 1 (ones binary) ++ repeat 0 (32 - ones binary))

abbrev contiguous : Option ℕ → Bool
contiguous none = false
contiguous (some packed) = is_contiguous packed

unfoldable pub is_contiguous_mask : String → Bool
is_contiguous_mask subnet_mask = contiguous (parse_ipv4 subnet_mask)

abbrev prefix_of : Bool → Option ℕ → Option ℕ
prefix_of _ none = none
prefix_of true (some packed) = some (ones (binary_onto 32 packed []))
prefix_of false (some packed) = none

unfoldable pub mask_to_prefix : String → Option ℕ
unfolding is_contiguous_mask
mask_to_prefix subnet_mask = prefix_of (is_contiguous_mask subnet_mask) (parse_ipv4 subnet_mask)

-- str(ipaddress.ip_network(f"0.0.0.0/{prefix}").netmask), with none for the ValueError.
unfoldable pub prefix_to_mask : ℕ → Option String
prefix_to_mask prefix =
    if ltb 32 prefix then none else some (show_ipv4 (2 ^ 32 - subnet_size prefix))

abbrev reads_back : Option String → ℕ → Bool
reads_back none p = false
reads_back (some s) p = elim (mask_to_prefix s) [ none ↦ false | some q ↦ q == p ]

abbrev all_below : ℕ → (ℕ → Bool) → Bool
all_below zero test = true
all_below (suc n) test = test n && all_below n test

all_below_lem :
    (n : ℕ) (test : ℕ → Bool) → all_below n test ≡ true → (k : ℕ) → k < n → test k ≡ true
all_below_lem zero test h k l = absurd (omega arith)
all_below_lem (suc n) test h k l =
    let here : test n ≡ true = ground arith in
    let below : all_below n test ≡ true = ground arith in
    elim (Bool-cases (k == n)) [
      | inl e ↦ let q : k ≡ n = ground arith in rw q here
      | inr e ↦ all_below_lem n test below k (ground arith)
    ]

masks_read_back : all_below 33 (λ p. reads_back (prefix_to_mask p) p) ≡ true
unfolding prefix_to_mask mask_to_prefix is_contiguous_mask parse_ipv4 parse_octet split_on show_ipv4
    show concat
masks_read_back = refl

read_back :
    (o : Option String) (p : ℕ)
    → reads_back o p ≡ true
    → (s : String) × (o ≡ some s) × (mask_to_prefix s ≡ some p)
read_back none p h = absurd (false≢true h)
read_back (some s) p h = (s, refl, ground arith)

-- For every prefix length up to 32, prefix_to_mask gives a mask, and mask_to_prefix reads that
-- mask back as the same prefix length.
pub mask_to_prefix-prefix_to_mask :
    (p : ℕ) → p ≤ 32 → (s : String) × (prefix_to_mask p ≡ some s) × (mask_to_prefix s ≡ some p)
mask_to_prefix-prefix_to_mask p h =
    read_back (prefix_to_mask p) p
      (all_below_lem 33 (λ q. reads_back (prefix_to_mask q) q) masks_read_back p (omega arith))
