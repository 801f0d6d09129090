-- ===== src/Cpplint/WholeFile/Tests.antt =====
-- Runs and instances of the theorems about whole files.
use cppecho.Prelude.{ℕ, ◌≡◌, refl, List, [], ◌∷◌, length, if◌then◌else◌}
use cppecho.Python.Str.{Text, codes, split}
use cppecho.Python.Regex.{re_match, re_search, group_text, group_of}
use cppecho.Cpplint.Report.{ErrorHandler}
use cppecho.Cpplint.WholeFile.{
  with_markers, get_indent_level, check_for_copyright, check_for_bad_characters,
  check_for_newline_at_eof,
}
use cppecho.Cpplint.WholeFile.LastLine.{ends_line, check_for_newline_at_eof-split}

-- A handler that keeps the lines of the reports.
abbrev keep : ErrorHandler (List ℕ)
keep filename linenum category confidence message s = linenum ∷ s

abbrev lines : List Text
lines = with_markers (codes "// COPYRIGHT me" ∷ (0xfffd ∷ 0 ∷ []) ∷ [] ∷ [])

checked :
    (check_for_copyright keep [] lines [] ≡ [])
    × (check_for_bad_characters keep [] lines [] ≡ 2 ∷ 2 ∷ [])
    × (get_indent_level (codes "  int a;") ≡ 2)
unfolding with_markers check_for_copyright check_for_bad_characters get_indent_level re_match
    re_search group_text group_of
checked = (refl, refl, refl)

abbrev content : Text
content = codes "int a;\nint b;"

check_for_newline_at_eof-split_example :
    check_for_newline_at_eof keep [] (with_markers (split content 10)) [] ≡ (
      if ends_line content
      then []
      else keep []
          (length (split content 10))
          (codes "whitespace/ending_newline")
          5
          (codes "Could not find a newline character at the end of the file.")
          [])
check_for_newline_at_eof-split_example = check_for_newline_at_eof-split keep [] content []
