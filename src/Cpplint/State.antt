-- ===== src/Cpplint/State.antt =====
-- class _CppLintState of tools/cpplint/cpplint.py, and the module functions that call its methods.
mod Tests
pub mod Filters
pub mod Counts
use cppecho.Prelude.{
  ℕ, zero, suc, ◌+◌, Bool, true, false, not, ◌&&◌, ◌||◌, List, [], ◌∷◌, ◌++◌, Option, none, some, ℤ,
  pos, if◌then◌else◌,
}
use cppecho.Python.Str.{Text, codes, text_eq, startswith, strip, split, decimal}

-- `counting` and `output_format` are strings in the source too. The dictionary of counts is a list
-- of its items, whose order stands for the dictionary's.
pub record CppLintState : Type 0 where
  pub verbose_level : ℤ
  pub error_count : ℕ
  pub filters : List Text
  pub filters_backup : List Text
  pub counting : Text
  pub errors_by_category : List (Text × ℕ)
  pub quiet : Bool
  pub output_format : Text

-- _DEFAULT_FILTERS
abbrev pub default_filters : List Text
default_filters = codes "-build/include_alpha" ∷ []

-- __init__
abbrev pub init : CppLintState
init = record {
  verbose_level = pos 1;
  error_count = 0;
  filters = default_filters;
  filters_backup = default_filters;
  counting = codes "total";
  errors_by_category = [];
  quiet = false;
  output_format = codes "emacs";
}

unfoldable pub set_output_format : Text → CppLintState → CppLintState
set_output_format output_format s = record s { output_format = output_format }

-- The setters of quiet and of the verbosity return the previous setting.
unfoldable pub set_quiet : Bool → CppLintState → CppLintState × Bool
set_quiet quiet s = (record s { quiet = quiet }, s.quiet)

unfoldable pub set_verbose_level : ℤ → CppLintState → CppLintState × ℤ
set_verbose_level level s = (record s { verbose_level = level }, s.verbose_level)

unfoldable pub set_counting_style : Text → CppLintState → CppLintState
set_counting_style style s = record s { counting = style }

-- The non-blank items, stripped.
clean_filters : List Text → List Text
unfolding strip
clean_filters [] = []
clean_filters (f ∷ fs) = elim (strip f) [
  | [] ↦ clean_filters fs
  | c ∷ t ↦ (c ∷ t) ∷ clean_filters fs
]

unfoldable pub is_signed : Text → Bool
unfolding startswith
is_signed f = startswith f (codes "+") || startswith f (codes "-")

-- The first filter with no sign.
first_unsigned : List Text → Option Text
unfolding is_signed
first_unsigned [] = none
first_unsigned (f ∷ fs) = if is_signed f then first_unsigned fs else some f

-- The message of a ValueError that the check raises. What was appended before stays.
unfoldable pub add_filters : Text → CppLintState → CppLintState × Option Text
unfolding clean_filters first_unsigned split
add_filters filters s =
    let appended = s.filters ++ clean_filters (split filters b',') in
    (
      record s { filters = appended },
      elim (first_unsigned appended) [
        | none ↦ none
        | some f ↦ some (
            codes "Every filter in --filters must start with + or - (" ++ (f ++ codes " does not)"))
      ],
    )

unfoldable pub set_filters : Text → CppLintState → CppLintState × Option Text
unfolding add_filters
set_filters filters s = add_filters filters (record s { filters = default_filters })

-- The last loop of ProcessConfigOverrides. An error ends the program there.
unfoldable pub apply_overrides : List Text → CppLintState → CppLintState × Option Text
apply_overrides [] s = (s, none)
apply_overrides (f ∷ fs) s =
    let (t, raised) = add_filters f s in
    elim raised [ none ↦ apply_overrides fs t | some message ↦ (t, some message) ]

unfoldable pub backup_filters : CppLintState → CppLintState
backup_filters s = record s { filters_backup = s.filters }

unfoldable pub restore_filters : CppLintState → CppLintState
restore_filters s = record s { filters = s.filters_backup }

unfoldable pub reset_error_counts : CppLintState → CppLintState
reset_error_counts s = record s { error_count = 0; errors_by_category = [] }

-- `errors_by_category[category] += 1`, with the key put in at zero first if it is missing
bump : Text → List (Text × ℕ) → List (Text × ℕ)
unfolding text_eq
bump k [] = (k, 1) ∷ []
bump k ((j, n) ∷ m) = if text_eq j k then (j, n + 1) ∷ m else (j, n) ∷ bump k m

-- `category.split('/')[0]`
pub top_level : Text → Text
unfolding split
top_level category = elim (split category b'/') [ [] ↦ [] | p ∷ ps ↦ p ]

unfoldable pub increment_error_count : Text → CppLintState → CppLintState
unfolding bump top_level
increment_error_count category s =
    let counted = record s { error_count = s.error_count + 1 } in
    if text_eq s.counting (codes "toplevel") || text_eq s.counting (codes "detailed")
    then record counted {
      errors_by_category =
          bump
            (if not (text_eq s.counting (codes "detailed")) then top_level category else category)
            s.errors_by_category;
    }
    else counted

category_lines : List (Text × ℕ) → List Text
unfolding decimal
category_lines [] = []
category_lines ((category, count) ∷ m) =
    (codes "Category '" ++ category ++ codes "' errors found: " ++ decimal count ++ codes "\n")
    ∷ category_lines m

-- What goes to stderr, and what to stdout.
unfoldable pub print_error_counts : CppLintState → List Text × Text
unfolding category_lines
print_error_counts s = (
  category_lines s.errors_by_category,
  codes "Total errors found: " ++ decimal s.error_count ++ codes "\n",
)
