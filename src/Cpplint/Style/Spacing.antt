-- ===== src/Cpplint/Style/Spacing.antt =====
-- CheckParenthesisSpacing, CheckCommaSpacing and CheckSectionSpacing of tools/cpplint/cpplint.py.
use cppecho.Prelude.{
  ℕ, zero, suc, ◌+◌, ◌-◌, Bool, not, ◌&&◌, ◌||◌, List, [], ◌++◌, Option, none, some, ltb, leb, ◌==◌,
  if◌then◌else◌, length, get_or,
}
use cppecho.Python.Str.{Text, codes, text_eq, is_space}
use cppecho.Python.Regex.{
  Regex, Found, star, plus, space, lit, eol, dot, boundary, group, none_of, set, ◌▹◌, ◌∣∣◌,
  re_match, re_search, sub, group_text, occurs,
}
use cppecho.Cpplint.Report.{ErrorHandler}
use cppecho.Cpplint.Cleanse.Lines.{CleansedLines}
use cppecho.Cpplint.Nesting.{Block, ClassInfo}
use cppecho.Cpplint.Style.Blanks.{is_blank_line, access_label, line_before}

-- ` (if\(|for\(|while\(|switch\()`
abbrev pub no_space_before_parenthesis : Regex
no_space_before_parenthesis =
    lit " " ▹ group 1 (lit "if(" ∣∣ lit "for(" ∣∣ lit "while(" ∣∣ lit "switch(")

-- \b(if|for|while|switch)\s*\(([ ]*)(.).*[^ ]+([ ]*)\)\s*{\s*$
abbrev pub spaces_inside : Regex
spaces_inside =
    boundary
    ▹ group 1 (lit "if" ∣∣ lit "for" ∣∣ lit "while" ∣∣ lit "switch")
    ▹ star space
    ▹ lit "("
    ▹ group 2 (star (lit " "))
    ▹ group 3 dot
    ▹ star dot
    ▹ plus (none_of " ")
    ▹ group 4 (star (lit " "))
    ▹ lit ")"
    ▹ star space
    ▹ lit "{"
    ▹ star space
    ▹ eol

-- \bfor\s*\(.*; \)
abbrev pub for_without_step : Regex
for_without_step = boundary ▹ lit "for" ▹ star space ▹ lit "(" ▹ star dot ▹ lit "; )"

-- Whether spaces inside the parentheses that do not match are allowed
unfoldable pub is_allowed_mismatch : Text → Found → Bool
unfolding group_text text_eq
is_allowed_mismatch line m =
    text_eq (group_text m 3) (codes ";") && length (group_text m 2) == 1 + length (group_text m 4)
    || length (group_text m 2) == 0 && occurs for_without_step line

-- \boperator\s*,\s*\(
abbrev pub comma_operator : Regex
comma_operator = boundary ▹ lit "operator" ▹ star space ▹ lit "," ▹ star space ▹ lit "("

-- ,[^,\s]
abbrev pub no_space_behind_comma : Regex
no_space_behind_comma = lit "," ▹ set (λ c. not (c == b',' || is_space c))

-- ;[^\s};\\)/]
abbrev pub no_space_behind_semicolon : Regex
no_space_behind_semicolon =
    lit ";"
    ▹ set (λ c. not (is_space c || c == b'}' || c == b';' || c == b'\\' || c == b')' || c == b'/'))

-- \b(class|struct)\b, \\$ and \{\s*$
abbrev pub class_word : Regex
class_word = boundary ▹ group 1 (lit "class" ∣∣ lit "struct") ▹ boundary

abbrev pub continued : Regex
continued = lit "\\" ▹ eol

abbrev pub brace_at_end : Regex
brace_at_end = lit "{" ▹ star space ▹ eol

-- The loop over `steps` lines from `i` on: the first with a brace at its end, or `otherwise`
find_class_head : List Text → ℕ → ℕ → ℕ → ℕ
find_class_head lines zero i otherwise = otherwise
find_class_head lines (suc steps) i otherwise =
    let rest = find_class_head lines steps (i + 1) otherwise in
    if occurs brace_at_end (get_or lines i []) then i else rest

-- `end_class_head`
unfoldable pub end_class_head : List Text → Block → ℕ → ℕ
unfolding find_class_head
end_class_head lines b linenum =
    find_class_head lines (linenum - b.starting_linenum) b.starting_linenum b.starting_linenum

-- Whether the line before the section asks for a blank line
unfoldable pub needs_blank_line : List Text → Block → ℕ → Bool
unfolding is_blank_line line_before end_class_head
needs_blank_line lines b linenum =
    let prev_line = line_before lines linenum in
    not (is_blank_line prev_line)
    && not (occurs class_word prev_line)
    && not (occurs continued prev_line)
    && ltb (end_class_head lines b linenum + 1) linenum

module _ {ℓ} {S : Type ℓ} (error : ErrorHandler S) (filename : Text) where
  check_keyword : ℕ → Option Found → S → S
  unfolding group_text
  check_keyword linenum none s = s
  check_keyword linenum (some m) s =
      error filename linenum (codes "whitespace/parens") 5
        (codes "Missing space before ( in " ++ group_text m 1) s

  check_inside : ℕ → Text → Option Found → S → S
  unfolding group_text is_allowed_mismatch
  check_inside linenum line none s = s
  check_inside linenum line (some m) s =
      let t =
        if not (length (group_text m 2) == length (group_text m 4))
          && not (is_allowed_mismatch line m)
        then error filename linenum (codes "whitespace/parens") 5
            (codes "Mismatching spaces inside () in " ++ group_text m 1) s
        else s in
      if leb (length (group_text m 2)) 1
      then t
      else error filename linenum (codes "whitespace/parens") 5
          (codes "Should have zero or one spaces inside ( and ) in " ++ group_text m 1) t

  -- CheckParenthesisSpacing, on the elided line
  unfoldable pub check_parenthesis_spacing : ℕ → Text → S → S
  unfolding check_keyword check_inside
  check_parenthesis_spacing linenum line s =
      check_inside linenum line (re_search spaces_inside line)
        (check_keyword linenum (re_search no_space_before_parenthesis line) s)

  -- CheckCommaSpacing
  unfoldable pub check_comma_spacing : CleansedLines → ℕ → S → S
  unfolding sub
  check_comma_spacing clean_lines linenum s =
      let line = get_or clean_lines.elided linenum [] in
      let t =
        if occurs no_space_behind_comma (sub comma_operator (λ m. codes "F(") line)
          && occurs no_space_behind_comma (get_or clean_lines.lines_without_raw_strings linenum [])
        then error filename linenum (codes "whitespace/comma") 3 (codes "Missing space after ,") s
        else s in
      if occurs no_space_behind_semicolon line
      then error filename linenum (codes "whitespace/semicolon") 3 (codes "Missing space after ;") t
      else t

  check_section : List Text → Block → ℕ → Option Found → S → S
  unfolding group_text needs_blank_line
  check_section lines b linenum none s = s
  check_section lines b linenum (some m) s =
      if needs_blank_line lines b linenum
      then error filename linenum (codes "whitespace/blank_line") 3
          (codes "\"" ++ group_text m 1 ++ codes ":\" should be preceded by a blank line") s
      else s

  -- CheckSectionSpacing, for the block of the class and what it is as a class
  unfoldable pub check_section_spacing : CleansedLines → Block → ClassInfo → ℕ → S → S
  unfolding check_section
  check_section_spacing clean_lines b class linenum s =
      if leb class.last_line (b.starting_linenum + 24) || leb linenum b.starting_linenum
      then s
      else check_section clean_lines.lines b linenum
          (re_match access_label (get_or clean_lines.lines linenum [])) s
