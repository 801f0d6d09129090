-- ===== src/Cpplint/Report/Tests.antt =====
-- Runs and instances of the theorems about reports.
use cppecho.Prelude.{◌+◌, ◌≡◌, refl, true, false, List, [], ◌∷◌, ◌++◌, some, length, if◌then◌else◌}
use cppecho.Python.Str.{codes, text_eq, startswith, member, decimal}
use cppecho.Cpplint.State.{init, is_signed}
use cppecho.Cpplint.State.Filters.{IsSigned}
use cppecho.Cpplint.Report.{Linter, start, should_print_error, formatted, error}
use cppecho.Cpplint.Report.Decision.{prints, should_print_error_lem}
use cppecho.Cpplint.Report.Effect.{Item, report_all, error_lem, report_all_lem}

-- All `build` categories are off, but header guards are on again.
abbrev picky : Linter
picky = record start {
  state = record init {
    filters = codes "-build/include_alpha" ∷ codes "-build" ∷ codes "+build/header_guard" ∷ [];
  };
}

picky-IsSigned : IsSigned picky.state.filters
unfolding is_signed
picky-IsSigned = (refl, (refl, (refl, tt)))

choices :
    (should_print_error (codes "build/include") 5 1 picky ≡ some false)
    × (should_print_error (codes "build/header_guard") 5 1 picky ≡ some true)
    × (should_print_error (codes "build/header_guard") 0 1 picky ≡ some false)
unfolding should_print_error startswith member
choices = (refl, refl, refl)

written :
    error (codes "a.cc") 7 (codes "runtime/int") 4 (codes "Use int16") (some start)
    ≡ some (record start {
      state = record init { error_count = 1 };
      stderr = codes "a.cc:7:  Use int16  [runtime/int] [4]\n" ∷ [];
    })
unfolding error should_print_error startswith member text_eq decimal
written = refl

should_print_error_lem_example :
    should_print_error (codes "build/header_guard") 5 1 picky
    ≡ some (prints (codes "build/header_guard") 5 1 picky)
should_print_error_lem_example =
    should_print_error_lem (codes "build/header_guard") 5 1 picky picky-IsSigned

error_lem_example :
    (l' : Linter) × (error (codes "a.cc") 7 (codes "runtime/int") 4 (codes "m") (some picky)
      ≡ some l')
    × (l'.stderr ≡ (
        if prints (codes "runtime/int") 4 7 picky
        then []
          ++ formatted (codes "emacs") (codes "a.cc") 7 (codes "runtime/int") 4 (codes "m") ∷ []
        else []))
    × (l'.state.error_count ≡ (if prints (codes "runtime/int") 4 7 picky then 1 else 0))
    × (l'.suppressions ≡ picky.suppressions)
    × (l'.state.filters ≡ picky.state.filters)
error_lem_example =
    error_lem (codes "a.cc") 7 (codes "runtime/int") 4 (codes "m") picky picky-IsSigned

abbrev items : List Item
items =
    record { linenum = 3; category = codes "build/c++11"; confidence = 5; message = codes "m" }
    ∷ record { linenum = 4; category = codes "runtime/int"; confidence = 4; message = codes "n" }
    ∷ []

report_all_lem_example :
    (l' : Linter) × (report_all (codes "a.cc") items (some picky) ≡ some l')
    × (length l'.stderr + 0 ≡ 0 + l'.state.error_count)
    × (l'.suppressions ≡ picky.suppressions)
    × (l'.state.filters ≡ picky.state.filters)
report_all_lem_example = report_all_lem (codes "a.cc") items picky picky-IsSigned
