-- ===== src/Cpplint/Report.antt =====
-- Error reports of tools/cpplint/cpplint.py: _ShouldPrintError and Error, over the global state.
mod Tests
pub mod Decision
pub mod Effect
use cppecho.Prelude.{
  ℕ, Bool, true, false, not, ◌&&◌, ◌||◌, List, [], ◌∷◌, ◌++◌, Option, none, some, ltb_ℤ, ℤ, pos,
  if◌then◌else◌, drop,
}
use cppecho.Python.Str.{Text, codes, text_eq, startswith, decimal}
use cppecho.Cpplint.State
use cppecho.Cpplint.State.{CppLintState, increment_error_count}
use cppecho.Cpplint.Suppress.{
  Suppressions, reset_nolint_suppressions, is_error_suppressed_by_nolint,
}

-- The module's global variables that a report reads or writes, and what was written to stderr.
pub record Linter : Type 0 where
  pub state : CppLintState
  pub suppressions : Suppressions
  pub stderr : List Text

abbrev pub start : Linter
start = record { state = State.init; suppressions = reset_nolint_suppressions; stderr = [] }

-- What `is_filtered` becomes at one filter; none is the failed assertion.
filter_effect : Text → Text → Bool → Option Bool
unfolding startswith
filter_effect one_filter category is_filtered =
    if startswith one_filter (codes "-")
    then some (if startswith category (drop 1 one_filter) then true else is_filtered)
    else if startswith one_filter (codes "+")
    then some (if startswith category (drop 1 one_filter) then false else is_filtered)
    else none

-- The loop over the filters.
filtered : List Text → Text → Bool → Option Bool
unfolding filter_effect
filtered [] category is_filtered = some is_filtered
filtered (f ∷ fs) category is_filtered = elim (filter_effect f category is_filtered) [
  | none ↦ none
  | some now ↦ filtered fs category now
]

-- _ShouldPrintError; none is an AssertionError.
unfoldable pub should_print_error : Text → ℕ → ℕ → Linter → Option Bool
unfolding filtered is_error_suppressed_by_nolint
should_print_error category confidence linenum l =
    if is_error_suppressed_by_nolint category linenum l.suppressions
    then some false
    else if ltb_ℤ (pos confidence) l.state.verbose_level
    then some false
    else elim (filtered l.state.filters category false) [
      | none ↦ none
      | some is_filtered ↦ some (not is_filtered)
    ]

-- The line that goes to stderr, in each output format.
pub formatted : Text → Text → ℕ → Text → ℕ → Text → Text
unfolding text_eq decimal
formatted output_format filename linenum category confidence message =
    if text_eq output_format (codes "vs7")
    then (filename
        ++ codes "("
        ++ decimal linenum
        ++ codes "): error cpplint: ["
        ++ category
        ++ codes "] "
        ++ message
        ++ codes " ["
        ++ decimal confidence
        ++ codes "]\n")
    else if text_eq output_format (codes "eclipse")
    then (filename
        ++ codes ":"
        ++ decimal linenum
        ++ codes ": warning: "
        ++ message
        ++ codes "  ["
        ++ category
        ++ codes "] ["
        ++ decimal confidence
        ++ codes "]\n")
    else (filename
        ++ codes ":"
        ++ decimal linenum
        ++ codes ":  "
        ++ message
        ++ codes "  ["
        ++ category
        ++ codes "] ["
        ++ decimal confidence
        ++ codes "]\n")

-- What a check is given to report with: file name, line, category, confidence and message.
abbrev pub ErrorHandler {ℓ} : Type ℓ → Type ℓ
ErrorHandler S = Text → ℕ → Text → ℕ → Text → S → S

print_error : Text → ℕ → Text → ℕ → Text → Linter → Linter
unfolding formatted increment_error_count
print_error filename linenum category confidence message l = record l {
  state = increment_error_count category l.state;
  stderr =
      l.stderr ++ formatted l.state.output_format filename linenum category confidence message ∷ [];
}

-- The function `Error`. A failed assertion has ended the program: no state is left.
unfoldable pub error : ErrorHandler (Option Linter)
unfolding should_print_error print_error
error filename linenum category confidence message none = none
error filename linenum category confidence message (some l) =
    elim (should_print_error category confidence linenum l) [
      | none ↦ none
      | some true ↦ some (print_error filename linenum category confidence message l)
      | some false ↦ some l
    ]
