-- ===== src/Cpplint/Suppress/Tests.antt =====
-- Runs and instances of the theorems about NOLINT.
use cppecho.Prelude.{◌≡◌, refl, [], ◌∷◌, none, some, ◌||◌, is_some}
use cppecho.Python.Str.{Text, codes, text_eq, startswith, endswith, member}
use cppecho.Python.Regex.{re_search, group_of}
use cppecho.Cpplint.Suppress.{
  reset_nolint_suppressions, parse_nolint_suppressions, request, suppressed_line,
  process_global_suppresions, nolint, is_error_suppressed_by_nolint,
}
use cppecho.Cpplint.Suppress.Laws.{
  line_asks, line_is_unknown, is_suppressed-parse_nolint, parse_nolint-error,
}

abbrev next_line : Text
next_line = codes "// NOLINTNEXTLINE(runtime/int)"

parse_next_line :
    parse_nolint_suppressions next_line 4 reset_nolint_suppressions
    ≡ (record { lines = (some (codes "runtime/int"), 5) ∷ []; everywhere = [] }, none)
unfolding parse_nolint_suppressions re_search group_of request suppressed_line text_eq startswith
    endswith member
parse_next_line = refl

abbrev unknown : Text
unknown = codes "int x;  // NOLINT(runtime/integer)"

parse_unknown :
    parse_nolint_suppressions unknown 4 reset_nolint_suppressions
    ≡ (reset_nolint_suppressions, some (codes "Unknown NOLINT error category: runtime/integer"))
unfolding parse_nolint_suppressions re_search group_of request suppressed_line text_eq startswith
    endswith member
parse_unknown = refl

parse_all :
    (parse_nolint_suppressions (codes "x  // NOLINT") 4 reset_nolint_suppressions).0.lines
    ≡ (none, 4) ∷ []
unfolding parse_nolint_suppressions re_search group_of request suppressed_line text_eq startswith
    endswith member
parse_all = refl

-- The part behind `filetype=c` may be empty, so a C++ modeline is taken for a C one.
cpp_modeline :
    (process_global_suppresions
      (codes "// vim: filetype=cpp" ∷ [])
      reset_nolint_suppressions).everywhere
    ≡ codes "readability/casting" ∷ []
unfolding process_global_suppresions re_search
cpp_modeline = refl

c_file_marked :
    (process_global_suppresions
      (codes "// vim: filetype=c" ∷ codes "LINT_KERNEL_FILE" ∷ [])
      reset_nolint_suppressions).everywhere
    ≡ codes "whitespace/tab" ∷ codes "readability/casting" ∷ []
unfolding process_global_suppresions re_search
c_file_marked = refl

is_suppressed-parse_nolint_example :
    is_error_suppressed_by_nolint
      (codes "runtime/int")
      5
      (parse_nolint_suppressions next_line 4 reset_nolint_suppressions).0
    ≡ (line_asks (re_search nolint next_line) 4 (codes "runtime/int") 5
        || is_error_suppressed_by_nolint (codes "runtime/int") 5 reset_nolint_suppressions)
is_suppressed-parse_nolint_example =
    is_suppressed-parse_nolint next_line 4 reset_nolint_suppressions (codes "runtime/int") 5

parse_nolint-error_example :
    (is_some (parse_nolint_suppressions unknown 4 reset_nolint_suppressions).1
      ≡ line_is_unknown (re_search nolint unknown))
    × ((message : Text)
        → (parse_nolint_suppressions unknown 4 reset_nolint_suppressions).1 ≡ some message
        → (parse_nolint_suppressions unknown 4 reset_nolint_suppressions).0
          ≡ reset_nolint_suppressions)
parse_nolint-error_example = parse_nolint-error unknown 4 reset_nolint_suppressions
