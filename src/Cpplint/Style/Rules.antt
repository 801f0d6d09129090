-- ===== src/Cpplint/Style/Rules.antt =====
-- CheckStyle of tools/cpplint/cpplint.py: the checks of a line as it is, and the checks that it calls.
use cppecho.Prelude.{
  ℕ, suc, ◌+◌, ◌-◌, Bool, false, not, ◌&&◌, ◌||◌, List, [], ◌∷◌, ◌++◌, Option, none, some, ltb, ℤ,
  pos, negsuc, ltb_ℤ, ◌==◌, if◌then◌else◌, length, get_or, all, drop, ◌>>=◌,
}
use cppecho.Python.Str.{
  Text, codes, text_eq, contains, count, startswith, is_unicode_space, decimal,
}
use cppecho.Python.Regex.{
  Regex, star, plus, space, non_space, word, digit, opt, lit, bol, eol, dot, group, one_of, ◌▹◌,
  matches, occurs,
}
use cppecho.Cpplint.Report.{ErrorHandler}
use cppecho.Cpplint.Cleanse.Lines.{CleansedLines}
use cppecho.Cpplint.Files.{FileSystem}
use cppecho.Cpplint.Guard.{get_header_guard_cpp_variable}
use cppecho.Cpplint.Nesting.{Block, Kind, class_info, NestingState, innermost_class}
use cppecho.Cpplint.Style.Width.{UnicodeData, get_line_width, get_previous_non_blank_line}
use cppecho.Cpplint.Style.Blanks.{check_spacing}
use cppecho.Cpplint.Style.Braces.{check_braces}
use cppecho.Cpplint.Style.Calls.{check_spacing_for_function_call}
use cppecho.Cpplint.Style.EmptyBlocks.{check_empty_block_body}
use cppecho.Cpplint.Style.Macros.{check_alt_tokens, check_check}
use cppecho.Cpplint.Style.Operators.{check_operator_spacing}
use cppecho.Cpplint.Style.Semicolons.{check_trailing_semicolon}
use cppecho.Cpplint.Style.Spacing.{
  check_comma_spacing, check_parenthesis_spacing, check_section_spacing,
}
use cppecho.Cpplint.Style.Types.{check_braces_spacing}

-- \s*\w+\s*:\s*\\?$
abbrev pub scope_or_label : Regex
scope_or_label = star space ▹ plus word ▹ star space ▹ lit ":" ▹ star space ▹ opt (lit "\\") ▹ eol

-- [",=><] *$ and ^\s*""
abbrev pub continues : Regex
continues = one_of "\",=><" ▹ star (lit " ") ▹ eol

abbrev pub empty_string : Regex
empty_string = bol ▹ star space ▹ lit "\"\""

-- ^\s*//.*http(s?)://\S*$, ^\s*//\s*[^\s]*$ and ^// \$Id:.*#[0-9]+ \$$
abbrev pub url_comment : Regex
url_comment =
    bol
    ▹ star space
    ▹ lit "//"
    ▹ star dot
    ▹ lit "http"
    ▹ group 1 (opt (lit "s"))
    ▹ lit "://"
    ▹ star non_space
    ▹ eol

abbrev pub one_word_comment : Regex
one_word_comment = bol ▹ star space ▹ lit "//" ▹ star space ▹ star non_space ▹ eol

abbrev pub id_comment : Regex
id_comment = bol ▹ lit "// $Id:" ▹ star dot ▹ lit "#" ▹ plus digit ▹ lit " $" ▹ eol

-- `initial_spaces`
unfoldable pub initial_spaces : Text → ℕ
initial_spaces [] = 0
initial_spaces (c ∷ line) = let rest = initial_spaces line in if c == b' ' then rest + 1 else 0

-- Whether a line has one or three spaces in front for no reason
unfoldable pub is_weird_indent : Text → Text → Text → Text → Bool
unfolding initial_spaces text_eq
is_weird_indent prev raw_line line cleansed_line =
    not (occurs continues prev)
    && (initial_spaces line == 1 || initial_spaces line == 3)
    && not (matches scope_or_label cleansed_line)
    && not (not (text_eq raw_line line) && matches empty_string line)

-- `line and line[-1].isspace()`
unfoldable pub ends_in_space : Text → Bool
ends_in_space [] = false
ends_in_space (c ∷ line) = all is_unicode_space (drop (length line) (c ∷ line))

-- `is_header_guard`, for the guard of a header, which other files have none of
unfoldable pub is_header_guard : Option Text → Text → Bool
unfolding startswith
is_header_guard none line = false
is_header_guard (some cppvar) line =
    startswith line (codes "#ifndef " ++ cppvar)
    || startswith line (codes "#define " ++ cppvar)
    || startswith line (codes "#endif  // " ++ cppvar)

-- Whether a line may be of any length
unfoldable pub may_be_long : Option Text → Text → Bool
unfolding startswith is_header_guard
may_be_long cppvar line =
    startswith line (codes "#include")
    || is_header_guard cppvar line
    || matches url_comment line
    || matches one_word_comment line
    || matches id_comment line

-- Whether there is more than one command on the line
unfoldable pub has_commands : Text → Text → Bool
unfolding count contains
has_commands cleansed_line prevline =
    ltb 1 (count cleansed_line (codes ";"))
    && not (contains cleansed_line (codes "for"))
    && (not (contains prevline (codes "for")) || contains prevline (codes ";"))
    && not (
        (contains cleansed_line (codes "case ") || contains cleansed_line (codes "default:"))
        && contains cleansed_line (codes "break;"))

-- `'%i' % n`
unfoldable pub written : ℤ → Text
unfolding decimal
written (pos n) = decimal n
written (negsuc n) = b'-' ∷ decimal (suc n)

-- What CheckStyle reads besides the lines: whether the file is a header, the files and `_root` for its
-- header guard; `_line_length`; and the tables of unicodedata.
pub record Settings : Type 0 where
  pub is_header : Bool
  pub fs : FileSystem
  pub root : Option Text
  pub line_length : ℤ
  pub unicode : UnicodeData

-- GetHeaderGuardCPPVariable of a header, and none for another file; none as the result is a search for
-- the repository that never ends.
unfoldable pub guard_variable : Settings → Text → Option (Option Text)
unfolding get_header_guard_cpp_variable
guard_variable settings filename =
    if settings.is_header
    then (get_header_guard_cpp_variable settings.fs settings.root filename >>= λ cppvar.
        some (some cppvar))
    else some none

module _ {ℓ} {S : Type ℓ} (error : ErrorHandler S) (filename : Text)
    (parse_nolint : Text → ℕ → S → S) (settings : Settings) where
  abbrev report_if : Bool → ℕ → Text → ℕ → Text → S → S
  report_if test linenum category confidence message s =
      if test then error filename linenum category confidence message s else s

  -- The checks of the line as it is
  check_raw_line : CleansedLines → ℕ → S → S
  unfolding contains is_weird_indent ends_in_space
  check_raw_line clean_lines linenum s =
      let line = get_or clean_lines.lines_without_raw_strings linenum [] in
      let prev =
        if linenum == 0
        then []
        else get_or clean_lines.lines_without_raw_strings (linenum - 1) [] in
      let raw_line = get_or clean_lines.raw_lines linenum [] in
      let cleansed_line = get_or clean_lines.elided linenum [] in
      report_if (ends_in_space line) linenum (codes "whitespace/end_of_line") 4
        (codes "Line ends in whitespace.  Consider deleting these extra spaces.")
        (report_if (is_weird_indent prev raw_line line cleansed_line) linenum
          (codes "whitespace/indent") 3
          (codes "Weird number of spaces at line-start.  Are you using a 2-space indent?")
          (report_if (contains line (9 ∷ [])) linenum (codes "whitespace/tab") 1
            (codes "Tab found; better to use spaces") s))

  check_length : Option Text → CleansedLines → ℕ → S → S
  unfolding may_be_long get_line_width written
  check_length cppvar clean_lines linenum s =
      let line = get_or clean_lines.lines_without_raw_strings linenum [] in
      report_if
        (not (may_be_long cppvar line)
          && ltb_ℤ settings.line_length (pos (get_line_width settings.unicode line)))
        linenum (codes "whitespace/line_length") 2
        (codes "Lines should be <= " ++ written settings.line_length ++ codes " characters long") s

  check_commands : List Text → ℕ → S → S
  unfolding has_commands get_previous_non_blank_line
  check_commands elided linenum s =
      let (prevline, prevlinenum) = get_previous_non_blank_line elided linenum in
      report_if (has_commands (get_or elided linenum []) prevline) linenum
        (codes "whitespace/newline") 0 (codes "More than one command on the same line") s

  in_section : CleansedLines → ℕ → Block → Kind → S → S
  unfolding check_section_spacing
  in_section clean_lines linenum b (class_info c) s =
      check_section_spacing error filename clean_lines b c linenum s
  in_section clean_lines linenum b _ s = s

  check_class : CleansedLines → ℕ → Option Block → S → S
  unfolding in_section
  check_class clean_lines linenum none s = s
  check_class clean_lines linenum (some b) s = in_section clean_lines linenum b b.kind s

  -- CheckStyle; none is an exception in one of the checks, or the search of guard_variable.
  unfoldable pub check_style : CleansedLines → ℕ → NestingState → S → Option S
  unfolding guard_variable check_raw_line check_length check_commands check_class innermost_class
      check_spacing check_braces check_spacing_for_function_call check_empty_block_body
      check_alt_tokens check_check check_operator_spacing check_trailing_semicolon
      check_comma_spacing check_parenthesis_spacing check_braces_spacing
  check_style clean_lines linenum n s = do
    let elided = clean_lines.elided
    let line = get_or elided linenum []
    cppvar ← guard_variable settings filename
    a ← check_braces error filename settings.unicode settings.line_length elided linenum (
        check_commands elided linenum
          (check_length cppvar clean_lines linenum (check_raw_line clean_lines linenum s)))
    b ← check_trailing_semicolon error filename parse_nolint clean_lines linenum a
    c ← check_empty_block_body error filename clean_lines linenum b
    spaced ← check_spacing error filename clean_lines linenum n c
    d ← check_operator_spacing error filename elided linenum spaced
    e ← check_braces_spacing error filename elided linenum n.stack (
        check_comma_spacing error filename clean_lines linenum
          (check_parenthesis_spacing error filename linenum line d))
    f ←
        check_check error filename elided linenum
          (check_spacing_for_function_call error filename linenum line e)
    some (
        check_class clean_lines linenum (innermost_class n)
          (check_alt_tokens error filename linenum line f))
