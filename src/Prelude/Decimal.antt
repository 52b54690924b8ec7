-- ===== src/Prelude/Decimal.antt =====
-- How Python prints a natural number.
use Prim.Native.Nat.{ℕ, zero, suc, ◌/◌, ◌%◌}
use Prim.Native.String.{String}
use mathlib.Core.List.{List, [], ◌∷◌}
use infra_ops.Prelude.Tests.{ltb, if◌then◌else◌}
use infra_ops.Prelude.Text.{concat}

abbrev digit : ℕ → String
digit zero = "0"
digit (suc zero) = "1"
digit (suc (suc zero)) = "2"
digit (suc (suc (suc zero))) = "3"
digit (suc (suc (suc (suc zero)))) = "4"
digit (suc (suc (suc (suc (suc zero))))) = "5"
digit (suc (suc (suc (suc (suc (suc zero)))))) = "6"
digit (suc (suc (suc (suc (suc (suc (suc zero))))))) = "7"
digit (suc (suc (suc (suc (suc (suc (suc (suc zero)))))))) = "8"
digit _ = "9"

-- `str(n)`; a number below 10 ^ fuel needs no more rounds.
decimal : ℕ → ℕ → List String → List String
decimal zero n out = out
decimal (suc fuel) n out =
    let rest = decimal fuel (n / 10) (digit (n % 10) ∷ out) in
    if ltb n 10 then digit n ∷ out else rest

unfoldable pub show : ℕ → String
unfolding decimal
show n = concat (decimal 20 n [])
