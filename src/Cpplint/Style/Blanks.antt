-- ===== src/Cpplint/Style/Blanks.antt =====
-- CheckSpacing of tools/cpplint/cpplint.py, which looks at blank lines and comments, and IsBlankLine.
use cppecho.Prelude.{
  ℕ, zero, suc, ◌+◌, ◌-◌, Bool, false, not, ◌&&◌, ◌||◌, List, [], ◌++◌, Option, none, some, ltb,
  ◌==◌, if◌then◌else◌, length, take, drop, get_or, get_elem?, ◌>>=◌, all,
}
use cppecho.Python.Str.{Text, codes, text_eq, contains, lstrip_by, is_unicode_space}
use cppecho.Python.Path.{rfind_suc}
use cppecho.Python.Regex.{
  Regex, Found, star, plus, space, word, opt, lit, eol, dot, group, none_of, ◌▹◌, ◌∣∣◌, re_match,
  group_text, matches, occurs,
}
use cppecho.Cpplint.Report.{ErrorHandler}
use cppecho.Cpplint.Cleanse.Lines.{CleansedLines}
use cppecho.Cpplint.Nesting.{NestingState, in_namespace_body, in_extern_c}
use cppecho.Cpplint.Style.Comments.{check_comment}

-- IsBlankLine
unfoldable pub is_blank_line : Text → Bool
is_blank_line line = all is_unicode_space line

-- `lines[linenum - 1]`, which is the last line for the line 0
unfoldable pub line_before : List Text → ℕ → Text
line_before lines linenum = get_or lines (if linenum == 0 then length lines - 1 else linenum - 1) []

-- ` {6}\w`
abbrev pub six_spaces : Regex
six_spaces = lit "      " ▹ word

-- ` {4}\w[^\(]*\)\s*(const\s*)?(\{\s*$|:)`
abbrev pub header_end : Regex
header_end =
    lit "    "
    ▹ word
    ▹ star (none_of "(")
    ▹ lit ")"
    ▹ star space
    ▹ opt (group 1 (lit "const" ▹ star space))
    ▹ group 2 (lit "{" ▹ star space ▹ eol ∣∣ lit ":")

-- ` {4}:`
abbrev pub initializer_start : Regex
initializer_start = lit "    :"

-- The loop upwards from `search_position`, one less than the first argument: whether the line at which
-- it stops begins an initializer list
search_initializer : ℕ → List Text → Bool
unfolding text_eq
search_initializer zero elided = false
search_initializer (suc position) elided =
    let rest = search_initializer position elided in
    let line = get_or elided position [] in
    if matches six_spaces line then rest else text_eq (take 5 line) (codes "    :")

-- `exception`
unfoldable pub is_exception : List Text → ℕ → Text → Bool
unfolding search_initializer
is_exception elided linenum prev_line =
    if matches six_spaces prev_line
    then search_initializer (linenum - 1) elided
    else matches header_end prev_line || matches initializer_start prev_line

-- Whether the line opens a brace and closes none behind it
unfoldable pub opens_block : Text → Bool
unfolding rfind_suc contains
opens_block line =
    not (rfind_suc line b'{' == 0)
    && not (contains (drop (rfind_suc line b'{' - 1) line) (codes "}"))

-- \s*(public|protected|private):
abbrev pub access_label : Regex
access_label = star space ▹ group 1 (lit "public" ∣∣ lit "protected" ∣∣ lit "private") ▹ lit ":"

-- \s*}
abbrev pub closing_brace : Regex
closing_brace = star space ▹ lit "}"

-- \w\s+\[ and (?:delete|return)\s+\[
abbrev pub space_before_bracket : Regex
space_before_bracket = word ▹ plus space ▹ lit "["

abbrev pub delete_or_return : Regex
delete_or_return = (lit "delete" ∣∣ lit "return") ▹ plus space ▹ lit "["

-- for *\(.*[^:]:[^: ] and for *\(.*[^: ]:[^:]
abbrev pub no_space_behind_colon : Regex
no_space_behind_colon =
    lit "for" ▹ star (lit " ") ▹ lit "(" ▹ star dot ▹ none_of ":" ▹ lit ":" ▹ none_of ": "

abbrev pub no_space_before_colon : Regex
no_space_before_colon =
    lit "for" ▹ star (lit " ") ▹ lit "(" ▹ star dot ▹ none_of ": " ▹ lit ":" ▹ none_of ":"

-- The first column of the next line that is not white space; none is an IndexError, here and below.
unfoldable pub next_line_start : CleansedLines → ℕ → Option ℕ
unfolding lstrip_by
next_line_start clean_lines linenum =
    if ltb (linenum + 1) clean_lines.num_lines
    then (get_elem? clean_lines.lines_without_raw_strings (linenum + 1) >>= λ next_line.
        some (length next_line - length (lstrip_by is_unicode_space next_line)))
    else some 0

module _ {ℓ} {S : Type ℓ} (error : ErrorHandler S) (filename : Text) where
  check_block_start : List Text → ℕ → Text → S → S
  unfolding opens_block is_exception
  check_block_start elided linenum prev_line s =
      if opens_block prev_line && not (is_exception elided linenum prev_line)
      then error filename linenum (codes "whitespace/blank_line") 2
          (codes "Redundant blank line at the start of a code block should be deleted.") s
      else s

  unfoldable pub at_block_end : ℕ → Text → S → S
  unfolding contains
  at_block_end linenum next_line s =
      if matches closing_brace next_line && not (contains next_line (codes "} else "))
      then error filename linenum (codes "whitespace/blank_line") 3
          (codes "Redundant blank line at the end of a code block should be deleted.") s
      else s

  unfoldable pub check_block_end : CleansedLines → ℕ → S → Option S
  unfolding at_block_end
  check_block_end clean_lines linenum s =
      if ltb (linenum + 1) clean_lines.num_lines
      then (get_elem? clean_lines.lines_without_raw_strings (linenum + 1) >>= λ next_line.
          some (at_block_end linenum next_line s))
      else some s

  check_label : ℕ → Option Found → S → S
  unfolding group_text
  check_label linenum none s = s
  check_label linenum (some m) s =
      error filename linenum (codes "whitespace/blank_line") 3
        (codes "Do not leave a blank line after \"" ++ group_text m 1 ++ codes ":\"") s

  -- The checks of a blank line
  unfoldable pub check_blank_line : CleansedLines → ℕ → S → Option S
  unfolding check_block_start check_block_end check_label line_before
  check_blank_line clean_lines linenum s =
      let prev_line = line_before clean_lines.elided linenum in
      check_block_end clean_lines linenum (check_block_start clean_lines.elided linenum prev_line s)
      >>= λ t. some (check_label linenum (re_match access_label prev_line) t)

  check_brackets : ℕ → Text → S → S
  check_brackets linenum line s =
      let t =
        if occurs space_before_bracket line && not (occurs delete_or_return line)
        then error filename linenum (codes "whitespace/braces") 5 (codes "Extra space before [") s
        else s in
      if occurs no_space_behind_colon line || occurs no_space_before_colon line
      then error filename linenum (codes "whitespace/forcolon") 2
          (codes "Missing space around colon in range-based for loop") t
      else t

  -- CheckSpacing
  unfoldable pub check_spacing : CleansedLines → ℕ → NestingState → S → Option S
  unfolding check_blank_line check_brackets is_blank_line in_namespace_body in_extern_c
      next_line_start check_comment
  check_spacing clean_lines linenum n s = do
    line ← get_elem? clean_lines.lines_without_raw_strings linenum
    t ←
        if is_blank_line line && not (in_namespace_body n) && not (in_extern_c n)
        then check_blank_line clean_lines linenum s
        else some s
    start ← next_line_start clean_lines linenum
    elided_line ← get_elem? clean_lines.elided linenum
    some (check_brackets linenum elided_line (check_comment error filename line linenum start t))
