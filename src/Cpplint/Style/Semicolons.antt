-- ===== src/Cpplint/Style/Semicolons.antt =====
-- CheckTrailingSemicolon of tools/cpplint/cpplint.py.
use cppecho.Prelude.{
  ℕ, ◌-◌, Bool, false, not, ◌&&◌, ◌||◌, List, [], ◌∷◌, Option, none, some, ltb, leb, ◌==◌,
  if◌then◌else◌, length, take, drop, get_or, or_else, ◌>>=◌,
}
use cppecho.Python.Str.{Text, codes, member}
use cppecho.Python.Path.{rfind_suc}
use cppecho.Python.Regex.{
  Regex, Found, star, plus, space, is_digit, lit, bol, eol, dot, boundary, group, one_of, set, ◌▹◌,
  ◌∣∣◌, re_match, re_search, group_text, matches, occurs,
}
use cppecho.Cpplint.Report.{ErrorHandler}
use cppecho.Cpplint.Cleanse.Lines.{CleansedLines}
use cppecho.Cpplint.Expression.{Place, close_expression, reverse_close_expression}
use cppecho.Cpplint.Style.Blanks.{line_before}
use cppecho.Cpplint.Style.Width.{get_previous_non_blank_line}

-- ^(.*\)\s*)\{
abbrev pub brace_behind_parenthesis : Regex
brace_behind_parenthesis = bol ▹ group 1 (star dot ▹ lit ")" ▹ star space) ▹ lit "{"

-- \b([A-Z_][A-Z0-9_]*)\s*$
abbrev is_upper : ℕ → Bool
is_upper c = leb b'A' c && leb c b'Z' || c == b'_'

abbrev pub macro_at_end : Regex
macro_at_end =
    boundary
    ▹ group 1 (set is_upper ▹ star (set (λ c. is_upper c || is_digit c)))
    ▹ star space
    ▹ eol

-- ^(.*\])\s*$
abbrev pub bracket_at_end : Regex
bracket_at_end = bol ▹ group 1 (star dot ▹ lit "]") ▹ star space ▹ eol

-- \boperator\s*\[\s*\]
abbrev pub subscript_operator : Regex
subscript_operator = boundary ▹ lit "operator" ▹ star space ▹ lit "[" ▹ star space ▹ lit "]"

-- \b(?:struct|union)\s+alignas\s*$, \bdecltype$ and \s+=\s*$
abbrev pub alignas_at_end : Regex
alignas_at_end =
    boundary ▹ (lit "struct" ∣∣ lit "union") ▹ plus space ▹ lit "alignas" ▹ star space ▹ eol

abbrev pub ends_with_decltype : Regex
ends_with_decltype = boundary ▹ lit "decltype" ▹ eol

abbrev pub assignment_at_end : Regex
assignment_at_end = plus space ▹ lit "=" ▹ star space ▹ eol

-- \]\s*$
abbrev pub capture_at_end : Regex
capture_at_end = lit "]" ▹ star space ▹ eol

-- ^(.*(?:else|\)\s*const)\s*)\{
abbrev pub brace_behind_else : Regex
brace_behind_else =
    bol
    ▹ group 1 (star dot ▹ (lit "else" ∣∣ lit ")" ▹ star space ▹ lit "const") ▹ star space)
    ▹ lit "{"

-- [;{}]\s*$
abbrev pub block_boundary : Regex
block_boundary = one_of ";{}" ▹ star space ▹ eol

-- ^(\s*)\{
abbrev pub brace_first : Regex
brace_first = bol ▹ group 1 (star space) ▹ lit "{"

-- ^\s*;
abbrev pub semicolon_first : Regex
semicolon_first = bol ▹ star space ▹ lit ";"

-- The macros whose bodies need no semicolon
abbrev pub block_macros : List Text
block_macros =
    codes "TEST"
    ∷ codes "TEST_F"
    ∷ codes "MATCHER"
    ∷ codes "MATCHER_P"
    ∷ codes "TYPED_TEST"
    ∷ codes "EXCLUSIVE_LOCKS_REQUIRED"
    ∷ codes "SHARED_LOCKS_REQUIRED"
    ∷ codes "LOCKS_EXCLUDED"
    ∷ codes "INTERFACE_DEF"
    ∷ []

is_other_macro : Option Found → Bool
unfolding group_text member
is_other_macro none = false
is_other_macro (some macro) = not (member (group_text macro 1) block_macros)

is_lambda : Option Found → Bool
unfolding group_text
is_lambda none = false
is_lambda (some func) = not (occurs subscript_operator (group_text func 1))

-- What may stand before a parenthesis whose block needs a semicolon
unfoldable pub needs_semicolon : Text → Bool
unfolding is_other_macro is_lambda
needs_semicolon line_prefix =
    is_other_macro (re_search macro_at_end line_prefix)
    || is_lambda (re_match bracket_at_end line_prefix)
    || occurs alignas_at_end line_prefix
    || occurs ends_with_decltype line_prefix
    || occurs assignment_at_end line_prefix

-- Whether the match is dropped, for the opening parenthesis
unfoldable pub is_excluded : List Text → Place → Bool
unfolding needs_semicolon line_before
is_excluded elided opening_parenthesis =
    elim opening_parenthesis.at [
      | none ↦ false
      | some start ↦ needs_semicolon (take start opening_parenthesis.line)
    ]
    || ltb 1 opening_parenthesis.linenum
      && occurs capture_at_end (line_before elided opening_parenthesis.linenum)

-- Where a brace stands at whose end a semicolon is redundant: a position on the line, or nothing. None
-- in front is an IndexError of ReverseCloseExpression.
behind_parenthesis : List Text → ℕ → Found → Option (Option ℕ)
unfolding group_text rfind_suc reverse_close_expression is_excluded
behind_parenthesis elided linenum m =
    elim (reverse_close_expression elided linenum (rfind_suc (group_text m 1) b')' - 1)) [
      | none ↦ none
      | some opening_parenthesis ↦
          some (
            if is_excluded elided opening_parenthesis then none else some (length (group_text m 1)))
    ]

position_of : Option Found → Option ℕ
unfolding group_text
position_of none = none
position_of (some m) = some (length (group_text m 1))

first_brace : Text → Text → Option ℕ
unfolding position_of
first_brace line prevline =
    if occurs block_boundary prevline then position_of (re_match brace_first line) else none

unfoldable pub brace_position : List Text → ℕ → Option (Option ℕ)
unfolding behind_parenthesis position_of first_brace get_previous_non_blank_line
brace_position elided linenum =
    let line = get_or elided linenum [] in
    let (prevline, prevlinenum) = get_previous_non_blank_line elided linenum in
    elim (re_match brace_behind_parenthesis line) [
      | some m ↦ behind_parenthesis elided linenum m
      | none ↦
          some (or_else (position_of (re_match brace_behind_else line)) (first_brace line prevline))
    ]

-- `parse_nolint` is ParseNolintSuppressions for the file and the handler of errors.
module _ {ℓ} {S : Type ℓ} (error : ErrorHandler S) (filename : Text)
    (parse_nolint : Text → ℕ → S → S) where
  -- The report at the end of the block. The line before it is the line 0 at the least, since that one
  -- is a comment, in which no brace is closed.
  report_semicolon : CleansedLines → Place → S → S
  unfolding line_before
  report_semicolon clean_lines place s =
      let raw_lines = clean_lines.raw_lines in
      error filename place.linenum (codes "readability/braces") 4
        (codes "You don't need a ; after a }")
        (parse_nolint (get_or raw_lines place.linenum []) place.linenum
          (parse_nolint (line_before raw_lines place.linenum) (place.linenum - 1) s))

  check_block_semicolon : CleansedLines → Place → S → S
  unfolding report_semicolon
  check_block_semicolon clean_lines place s = elim place.at [
    | none ↦ s
    | some endpos ↦
        if matches semicolon_first (drop endpos place.line)
        then report_semicolon clean_lines place s
        else s
  ]

  at_position : CleansedLines → ℕ → Option ℕ → S → Option S
  unfolding check_block_semicolon close_expression
  at_position clean_lines linenum none s = some s
  at_position clean_lines linenum (some start) s =
      close_expression clean_lines.elided linenum start >>= λ place.
      some (check_block_semicolon clean_lines place s)

  -- CheckTrailingSemicolon
  unfoldable pub check_trailing_semicolon : CleansedLines → ℕ → S → Option S
  unfolding brace_position at_position
  check_trailing_semicolon clean_lines linenum s =
      brace_position clean_lines.elided linenum >>= λ start. at_position clean_lines linenum start s
