-- ===== src/Cpplint/Guard/Tests.antt =====
-- Runs and instances of the theorems about header guards.
use cppecho.Prelude.{true, ◌≡◌, refl, false, List, [], ◌∷◌, Option, none, some}
use cppecho.Python.Str.{
  Text, codes, text_eq, startswith, endswith, replace, split, words, upper, rstrip_by,
}
use cppecho.Python.Path.{
  abspath, path_join, normpath, slash_join, path_split, rfind_suc, path_join_all,
}
use cppecho.Python.Regex.{re_match, re_search, sub, group_text, group_of}
use cppecho.Cpplint.Report.{Linter, start, error, should_print_error}
use cppecho.Cpplint.Files.{FileSystem, full_name, repository_name, path_split_to_list}
use cppecho.Cpplint.Guard.{
  no_guard, original_name, strip_list_prefix, fixup_path_from_root, guard_of,
  get_header_guard_cpp_variable, scan_guard, check_guard, parse_nolint, no_single_line_comments,
}
use cppecho.Cpplint.Guard.Names.{IsGuard, get_header_guard_cpp_variable-IsGuard}
use cppecho.Cpplint.Guard.Scan.{text_or, number_or, first_argument, last_endif, scan_guard_lem}

-- No file exists, so a file's name is its full name.
abbrev nowhere : FileSystem
nowhere = record { cwd = codes "/w"; exists = λ p. false }

guard_variable :
    (get_header_guard_cpp_variable nowhere none (codes "core/async-io.h")
      ≡ some (codes "_W_CORE_ASYNC_IO_H_"))
    × (get_header_guard_cpp_variable nowhere (some (codes "/w/core")) (codes "core/c++_flymake.h")
        ≡ some (codes "CPP_H_"))
unfolding get_header_guard_cpp_variable original_name repository_name fixup_path_from_root
    path_split_to_list full_name abspath path_join normpath slash_join split startswith endswith
    text_eq sub replace guard_of upper path_split rfind_suc rstrip_by strip_list_prefix
    path_join_all re_match group_text
guard_variable = (refl, refl)

abbrev header : List Text
header =
    codes "#ifndef A_H_"
    ∷ codes "#define A_H_"
    ∷ codes "#ifdef B"
    ∷ codes "#endif"
    ∷ codes "#endif  // A_H_"
    ∷ codes ""
    ∷ []

-- The lines of the reports on a header.
abbrev reports : Option Linter → Option (List Text)
reports none = none
reports (some l) = some l.stderr

guarded :
    (reports (
        check_guard (codes "a.h") header (codes "A_H_") (scan_guard 0 header no_guard) (some start))
      ≡ some [])
    × (reports (
          check_guard
            (codes "a.h")
            header
            (codes "B_A_H_")
            (scan_guard 0 header no_guard)
            (some start))
        ≡ some (
            codes
              "a.h:0:  #ifndef header guard has wrong style, please use: B_A_H_  [build/header_guard] [5]\n"
            ∷ codes
                "a.h:4:  #endif line should be \"#endif  // B_A_H_\"  [build/header_guard] [5]\n"
            ∷ []))
unfolding check_guard scan_guard parse_nolint no_single_line_comments words startswith text_eq
    re_match re_search error should_print_error group_text group_of
guarded = (refl, refl)

get_header_guard_cpp_variable-IsGuard_example : IsGuard (codes "_W_CORE_ASYNC_IO_H_")
unfolding get_header_guard_cpp_variable original_name repository_name fixup_path_from_root full_name
    abspath path_join normpath slash_join split startswith endswith text_eq sub replace guard_of
    upper path_split rfind_suc rstrip_by re_match
get_header_guard_cpp_variable-IsGuard_example =
    get_header_guard_cpp_variable-IsGuard nowhere none (codes "core/async-io.h")
      (codes "_W_CORE_ASYNC_IO_H_") refl

scan_guard_lem_example :
    ((scan_guard 0 header no_guard).ifndef ≡ text_or [] (first_argument (codes "#ifndef") 0 header))
    × ((scan_guard 0 header no_guard).ifndef_linenum
        ≡ number_or 0 (first_argument (codes "#ifndef") 0 header))
    × ((scan_guard 0 header no_guard).define
        ≡ text_or [] (first_argument (codes "#define") 0 header))
    × ((scan_guard 0 header no_guard).endif ≡ text_or [] (last_endif 0 header))
    × ((scan_guard 0 header no_guard).endif_linenum ≡ number_or 0 (last_endif 0 header))
scan_guard_lem_example = scan_guard_lem header

-- The quote that is escaped ends the literal for the pattern, and the comment is not seen.
escaped_quote :
    (no_single_line_comments ([] ∷ codes "char c = '\\''; // x" ∷ [] ∷ []) ≡ true)
    × (no_single_line_comments ([] ∷ codes "char c = 'a'; // x" ∷ [] ∷ []) ≡ false)
unfolding no_single_line_comments re_match
escaped_quote = (refl, refl)
