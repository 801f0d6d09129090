-- ===== src/Cpplint/WholeFile.antt =====
-- The checks of tools/cpplint/cpplint.py that look at a whole file: CheckForCopyright,
-- CheckForBadCharacters and CheckForNewlineAtEOF, with the marker lines that ProcessFileData puts
-- around the file's lines, and GetIndentLevel.
mod Tests
pub mod LastLine
use cppecho.Prelude.{
  ℕ, zero, suc, ◌+◌, ◌-◌, Bool, true, false, not, ◌&&◌, ◌||◌, List, [], ◌∷◌, ◌++◌, Option, none,
  some, ltb, ◌==◌, if◌then◌else◌, length, take, drop, get_or, any,
}
use cppecho.Python.Str.{Text, codes, text_eq}
use cppecho.Python.Regex.{
  Regex, Found, set, seq, eps, star, group, bol, lit, non_space, ◌▹◌, re_match, re_search,
  group_text, occurs,
}
use cppecho.Cpplint.Report.{ErrorHandler}

-- The lines that the checks see: the file's, between two markers.
abbrev pub start_marker : Text
start_marker = codes "// marker so line numbers and indices both start at 1"

abbrev pub end_marker : Text
end_marker = codes "// marker so line numbers end in a known way"

unfoldable pub with_markers : List Text → List Text
with_markers lines = (start_marker ∷ lines) ++ end_marker ∷ []

-- A letter in lower case, in both cases
abbrev either_case : ℕ → Regex
either_case c = set (λ d. d == c || d + 32 == c)

abbrev any_case : Text → Regex
any_case [] = eps
any_case (c ∷ s) = seq (either_case c) (any_case s)

-- `Copyright` under re.I
abbrev pub copyright : Regex
copyright = any_case (codes "copyright")

-- ^( *)\S
abbrev pub indent : Regex
indent = bol ▹ group 1 (star (lit " ")) ▹ non_space

indent_of : Option Found → ℕ
unfolding group_text
indent_of none = 0
indent_of (some m) = length (group_text m 1)

-- GetIndentLevel
unfoldable pub get_indent_level : Text → ℕ
unfolding indent_of
get_indent_level line = indent_of (re_match indent line)

module _ {ℓ} {S : Type ℓ} (error : ErrorHandler S) (filename : Text) where
  -- CheckForCopyright
  unfoldable pub check_for_copyright : List Text → S → S
  check_for_copyright lines s =
      if any (λ line. occurs copyright line) (take 10 (drop 1 lines))
      then s
      else error filename 0 (codes "legal/copyright") 5
          (codes
            "No copyright message found.  You should have a line: \"Copyright [year] <Copyright Owner>\"")
          s

  -- One line of CheckForBadCharacters
  check_bad_line : ℕ → Text → S → S
  check_bad_line linenum line s =
      let s' =
        if any (λ c. c == 0xfffd) line
        then error filename linenum (codes "readability/utf8") 5
            (codes "Line contains invalid UTF-8 (or Unicode replacement character).") s
        else s in
      if any (λ c. c == 0) line
      then error filename linenum (codes "readability/nul") 5 (codes "Line contains NUL byte.") s'
      else s'

  bad_lines_from : ℕ → List Text → S → S
  unfolding check_bad_line
  bad_lines_from linenum [] s = s
  bad_lines_from linenum (line ∷ lines) s =
      bad_lines_from (linenum + 1) lines (check_bad_line linenum line s)

  -- CheckForBadCharacters
  unfoldable pub check_for_bad_characters : List Text → S → S
  unfolding bad_lines_from
  check_for_bad_characters lines s = bad_lines_from 0 lines s

  -- CheckForNewlineAtEOF. The line number is a natural number, as the lines are at least two.
  unfoldable pub check_for_newline_at_eof : List Text → S → S
  unfolding text_eq
  check_for_newline_at_eof lines s =
      if ltb (length lines) 3 || not (text_eq (get_or lines (length lines - 2) []) [])
      then error filename (length lines - 2) (codes "whitespace/ending_newline") 5
          (codes "Could not find a newline character at the end of the file.") s
      else s
