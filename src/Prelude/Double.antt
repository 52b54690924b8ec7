-- ===== src/Prelude/Double.antt =====
-- The one floating-point expression of the modelled code, `int((a / b) * 100)`, in IEEE 754 double
-- arithmetic: each operation rounds to 53 bits, to nearest, ties to even. A double is a mantissa and
-- the power of two that it is divided by.
use Prim.Native.Nat.{ℕ, zero, suc, ◌+◌, ◌*◌, ◌/◌, ◌%◌, ◌^◌}
use infra_ops.Prelude.Tests.{ltb, leb, if◌then◌else◌}

-- The integer nearest to a / b, ties to even.
round_half_even : ℕ → ℕ → ℕ
round_half_even a b =
    let q = a / b in
    let twice = 2 * (a % b) in if ltb twice b then q else if ltb b twice then q + 1 else q + q % 2

-- Doubles the numerator until the quotient has 53 bits: the numerator and the doublings. The loop
-- ends within 52 + k rounds for a / b at least 2 ^ -k.
normalise : ℕ → ℕ → ℕ → ℕ → ℕ × ℕ
normalise zero a b e = (a, e)
normalise (suc fuel) a b e =
    let rest = normalise fuel (a * 2) b (e + 1) in if leb (b * 2 ^ 52) a then (a, e) else rest

-- How many low bits of p exceed 53.
excess_bits : ℕ → ℕ → ℕ → ℕ
excess_bits zero p s = s
excess_bits (suc fuel) p s =
    let rest = excess_bits fuel p (s + 1) in if ltb p (2 ^ 53 * 2 ^ s) then s else rest

-- int((a / b) * 100) for numbers a ≤ b with 0 < b < 2 ^ 12. The product has 60 bits at most.
unfoldable pub percent_of_ratio : ℕ → ℕ → ℕ
unfolding normalise excess_bits round_half_even
percent_of_ratio zero b = 0
percent_of_ratio a b =
    let (a', e) = normalise 64 a b 0 in
    let product = round_half_even a' b * 100 in
    let s = excess_bits 8 product 0 in round_half_even product (2 ^ s) * 2 ^ s / 2 ^ e
