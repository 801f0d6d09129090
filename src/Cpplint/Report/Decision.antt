-- ===== src/Cpplint/Report/Decision.antt =====
-- _ShouldPrintError decides by the suppressions, the verbosity and the last filter that fits.
use cppecho.Prelude.{
  ℕ, ◌≡◌, refl, Bool, true, false, not, ◌&&◌, List, [], ◌∷◌, Option, none, some, ltb_ℤ, pos, arith,
  if◌then◌else◌, drop, or_else,
}
use cppecho.Python.Str.{Text, codes, startswith}
use cppecho.Cpplint.State.{is_signed}
use cppecho.Cpplint.State.Filters.{IsSigned}
use cppecho.Cpplint.Suppress.{is_error_suppressed_by_nolint}
use cppecho.Cpplint.Report.{Linter, filter_effect, filtered, should_print_error}

-- What one filter says of a category: nothing, or whether it filters it out.
abbrev pub verdict : Text → Text → Option Bool
verdict f category =
    if startswith category (drop 1 f) then some (startswith f (codes "-")) else none

-- What the last filter that speaks of the category says.
abbrev pub last_verdict : List Text → Text → Option Bool
last_verdict [] category = none
last_verdict (f ∷ fs) category = or_else (last_verdict fs category) (verdict f category)

abbrev pub verdict_or : Bool → Option Bool → Bool
verdict_or b none = b
verdict_or b (some v) = v

filter_effect-verdict :
    (f category : Text) (b : Bool)
    → is_signed f ≡ true
    → filter_effect f category b ≡ some (verdict_or b (verdict f category))
unfolding filter_effect is_signed
filter_effect-verdict f category b h = ground arith

filtered-last_verdict :
    (fs : List Text) (category : Text) (b : Bool)
    → IsSigned fs
    → filtered fs category b ≡ some (verdict_or b (last_verdict fs category))
unfolding filtered
filtered-last_verdict [] category b h = refl
filtered-last_verdict (f ∷ fs) category b h =
    rw (filter_effect-verdict f category b h.0)
      (ground (arith, filtered-last_verdict fs category (verdict_or b (verdict f category)) h.1))

-- Whether a report is to be printed.
abbrev pub prints : Text → ℕ → ℕ → Linter → Bool
prints category confidence linenum l =
    not (is_error_suppressed_by_nolint category linenum l.suppressions)
    && not (ltb_ℤ (pos confidence) l.state.verbose_level)
    && not (verdict_or false (last_verdict l.state.filters category))

-- When every filter has a sign, no assertion fails, and an error is printed exactly when no NOLINT
-- suppresses it, its confidence reaches the verbosity, and the last filter that fits its category, if
-- there is one, does not begin with a minus.
pub should_print_error_lem :
    (category : Text) (confidence linenum : ℕ) (l : Linter)
    → IsSigned l.state.filters
    → should_print_error category confidence linenum l ≡ some (prints category confidence linenum l)
unfolding should_print_error
should_print_error_lem category confidence linenum l h =
    ground (arith, filtered-last_verdict l.state.filters category false h)
