-- ===== src/Preflight/Report.antt =====
-- The report of backend/app/services/provisioning/preflight.py, and the answers its checks get.
use infra_ops.Prelude.{
  ℕ, ◌+◌, ◌≡◌, String, Bool, true, false, ◌&&◌, List, [], ◌∷◌, ◌++◌, count_if, concat, length, ◌==◌,
  arith,
}
use infra_ops.Prelude.Decimal.{show}

pub data CheckStatus : Type 0 where
  pass warn fail : CheckStatus

pub record PreflightCheck : Type 0 where
  pub code : String
  pub label : String
  pub status : CheckStatus
  pub blocking : Bool

-- add(code, label, status)
abbrev pub add : String → String → CheckStatus → PreflightCheck
add code label status = record { code = code; label = label; status = status; blocking = true }

abbrev pub passed : String → String → List PreflightCheck
passed code label = add code label pass ∷ []

abbrev pub failed : String → String → List PreflightCheck
failed code label = add code label fail ∷ []

-- A check that only warns: blocking=False.
abbrev pub warned : String → String → List PreflightCheck
warned code label = record { code = code; label = label; status = warn; blocking = false } ∷ []

abbrev pub is_fail : CheckStatus → Bool
is_fail fail = true
is_fail _ = false

abbrev is_warn : CheckStatus → Bool
is_warn warn = true
is_warn _ = false

abbrev pub is_blocking_failure : PreflightCheck → Bool
is_blocking_failure c = is_fail c.status && c.blocking

pub record PreflightReport : Type 0 where
  pub ready : Bool
  pub checks : List PreflightCheck
  pub summary : String

abbrev summary_of : Bool → ℕ → ℕ → ℕ → String
summary_of true checks warnings failures =
    concat
      ("Ready to provision (" ∷ show checks ∷ " checks, " ∷ show warnings ∷ " warning(s))." ∷ [])
summary_of false checks warnings failures =
    concat ("Not ready — " ∷ show failures ∷ " blocking problem(s) must be resolved." ∷ [])

-- The report that `validate` makes of its checks.
unfoldable pub report_of : List PreflightCheck → PreflightReport
report_of checks =
    let failures = count_if is_blocking_failure checks in
    record {
      ready = failures == 0;
      checks = checks;
      summary =
          summary_of (failures == 0) (length checks) (count_if (λ c. is_warn c.status) checks)
            failures;
    }

-- What a call of an adapter gives: a value, or an exception.
pub data Answer {ℓ} (A : Type ℓ) : Type ℓ where
  answered : A → Answer A
  raised : Answer A

-- The blocking failures of a list.
abbrev pub failures : List PreflightCheck → ℕ
failures checks = count_if is_blocking_failure checks

pub failures-append :
    (xs ys : List PreflightCheck) → failures (xs ++ ys) ≡ failures xs + failures ys
failures-append [] ys = omega arith
failures-append (x ∷ xs) ys = ground (arith, failures-append xs ys)
