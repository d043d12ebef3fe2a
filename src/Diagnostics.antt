-- ===== src/Diagnostics.antt =====
-- src/diagnostics.rs, without the message texts, which only people read.
use periodic.Prelude.{
  ℕ, ◌≡◌, Bool, true, false, Option, none, some, List, [], ◌∷◌, ◌++◌, Text, any, any-append, All,
  arith,
}

pub data Severity : Type 0 where
  error warning : Severity

pub record Diagnostic : Type 0 where
  pub severity : Severity
  pub code : Text
  pub job : Option Text
  pub path : Text
  pub line : Option ℕ
  pub column : Option ℕ

-- `Diagnostic::error` and `Diagnostic::warning`.
abbrev pub error_at : Text → Text → Diagnostic
error_at code path = record {
  severity = error;
  code = code;
  job = none;
  path = path;
  line = none;
  column = none;
}

abbrev pub warning_at : Text → Text → Diagnostic
warning_at code path = record {
  severity = warning;
  code = code;
  job = none;
  path = path;
  line = none;
  column = none;
}

abbrev pub with_job : Text → Diagnostic → Diagnostic
with_job job d = record d { job = some job }

abbrev pub with_location : ℕ → ℕ → Diagnostic → Diagnostic
with_location line column d = record d { line = some line; column = some column }

abbrev pub is_error_severity : Severity → Bool
is_error_severity error = true
is_error_severity warning = false

abbrev pub is_error : Diagnostic → Bool
is_error d = is_error_severity d.severity

-- The diagnostics that a run of checks pushes, check by check.
unfoldable pub concat : List (List Diagnostic) → List Diagnostic
concat [] = []
concat (ds ∷ checks) = ds ++ concat checks

unfoldable pub has_error : List Diagnostic → Bool
has_error ds = any is_error ds

pub has_error-append :
    (xs ys : List Diagnostic)
    → has_error (xs ++ ys) ≡ false
    → (has_error xs ≡ false) × (has_error ys ≡ false)
unfolding has_error
has_error-append xs ys h =
    let e = any-append is_error xs ys in (ground (arith, e), ground (arith, e))

-- A run of checks has no error if none of them has.
pub has_error-concat :
    (checks : List (List Diagnostic))
    → has_error (concat checks) ≡ false
    → All (λ ds. has_error ds ≡ false) checks
unfolding concat
has_error-concat [] h = tt
has_error-concat (ds ∷ checks) h =
    let (first, others) = has_error-append ds (concat checks) h in
    (first, has_error-concat checks others)
