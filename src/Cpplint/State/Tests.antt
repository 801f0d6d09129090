-- ===== src/Cpplint/State/Tests.antt =====
-- Runs and instances of the theorems about the lint state.
use cppecho.Prelude.{◌+◌, ◌≡◌, refl, ◌↔◌, List, [], ◌∷◌, ◌++◌, none, some}
use cppecho.Python.Str.{Text, codes, text_eq, startswith, strip, split}
use cppecho.Cpplint.State.{
  CppLintState, init, default_filters, set_filters, apply_overrides, restore_filters,
  backup_filters, increment_error_count,
}
use cppecho.Cpplint.State.Filters.{
  IsSigned, Raised, listed, set_filters-IsSigned, restore-overrides,
}
use cppecho.Cpplint.State.Counts.{count_of, increments, tally, key_of, total, count_of-increments}

abbrev flags : Text
flags = codes "+whitespace, -build/include,,"

set_flags :
    (set_filters flags init).0.filters
    ≡ codes "-build/include_alpha" ∷ codes "+whitespace" ∷ codes "-build/include" ∷ []
unfolding set_filters strip split startswith
set_flags = refl

set_unsigned :
    (set_filters (codes "whitespace") init).1
    ≡ some (codes "Every filter in --filters must start with + or - (whitespace does not)")
unfolding set_filters strip split startswith
set_unsigned = refl

abbrev unsigned : Text
unsigned = codes " +whitespace,, runtime/int"

set_filters-IsSigned_example :
    ((set_filters unsigned init).0 ≡ record init { filters = default_filters ++ listed unsigned })
    × Raised (default_filters ++ listed unsigned) (set_filters unsigned init).1
    × (((set_filters unsigned init).1 ≡ none) ↔ IsSigned (set_filters unsigned init).0.filters)
set_filters-IsSigned_example = set_filters-IsSigned unsigned init

abbrev detailed : CppLintState
detailed = record init { counting = codes "detailed" }

abbrev reported : List Text
reported = codes "whitespace/tab" ∷ codes "runtime/int" ∷ codes "whitespace/tab" ∷ []

abbrev toplevel : CppLintState
toplevel = record init { counting = codes "toplevel" }

toplevel_counts :
    (increments reported toplevel).errors_by_category
    ≡ (codes "whitespace", 2) ∷ (codes "runtime", 1) ∷ []
unfolding increment_error_count text_eq
toplevel_counts = refl

count_of-increments_example :
    (count_of (codes "whitespace/tab") (increments reported detailed).errors_by_category
      ≡ tally (key_of (codes "detailed")) (codes "whitespace/tab") reported + 0)
    × (total (increments reported detailed).errors_by_category ≡ 0 + 3)
    × ((increments reported detailed).error_count ≡ 0 + 3)
unfolding text_eq
count_of-increments_example = count_of-increments reported detailed (codes "whitespace/tab") refl

restore-overrides_example :
    restore_filters
      (increments reported (apply_overrides (flags ∷ codes "bad" ∷ []) (backup_filters detailed)).0)
    ≡ increments reported (record detailed { filters_backup = default_filters })
restore-overrides_example = restore-overrides (flags ∷ codes "bad" ∷ []) reported detailed
