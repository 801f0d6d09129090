-- ===== src/Cpplint/Style/Macros.antt =====
-- FindCheckMacro, CheckCheck and CheckAltTokens of tools/cpplint/cpplint.py.
pub mod Operands
pub mod Ends
pub mod Total
use cppecho.Prelude.{
  ℕ, zero, suc, ◌+◌, ◌-◌, Bool, true, false, not, ◌&&◌, ◌||◌, List, [], ◌∷◌, ◌++◌, Option, none,
  some, ltb, ◌==◌, if◌then◌else◌, length, take, drop, get_or, get_elem?, ◌>>=◌,
}
use cppecho.Python.Str.{Text, codes, text_eq, contains, unicode_strip}
use cppecho.Python.Regex.{
  Regex, Found, ahead, star, plus, space, digit, opt, lit, text, bol, eol, dot, boundary, group,
  one_of, none_of, ◌▹◌, ◌∣∣◌, re_match, re_search, group_text, matches, occurs,
}
use cppecho.Cpplint.Report.{ErrorHandler}
use cppecho.Cpplint.Expression.{Place, close_expression}
use cppecho.Cpplint.Style.Macros.Operands.{Comparison, comparison_of}

-- _CHECK_MACROS
abbrev pub check_macros : List Text
check_macros =
    codes "DCHECK"
    ∷ codes "CHECK"
    ∷ codes "EXPECT_TRUE"
    ∷ codes "ASSERT_TRUE"
    ∷ codes "EXPECT_FALSE"
    ∷ codes "ASSERT_FALSE"
    ∷ []

-- The suffix for an operator, and for its inverse
unfoldable pub suffix : Text → Text
unfolding text_eq
suffix op =
    if text_eq op (codes "==")
    then codes "EQ"
    else if text_eq op (codes "!=")
    then codes "NE"
    else if text_eq op (codes ">=")
    then codes "GE"
    else if text_eq op (codes ">")
    then codes "GT"
    else if text_eq op (codes "<=")
    then codes "LE"
    else codes "LT"

unfoldable pub inverse_suffix : Text → Text
unfolding text_eq
inverse_suffix op =
    if text_eq op (codes "==")
    then codes "NE"
    else if text_eq op (codes "!=")
    then codes "EQ"
    else if text_eq op (codes ">=")
    then codes "LT"
    else if text_eq op (codes ">")
    then codes "LE"
    else if text_eq op (codes "<=")
    then codes "GT"
    else codes "GE"

-- _CHECK_REPLACEMENT, of a macro of the list and an operator that compares
unfoldable pub check_replacement : Text → Text → Text
unfolding suffix inverse_suffix text_eq
check_replacement macro op =
    if text_eq macro (codes "DCHECK")
    then codes "DCHECK_" ++ suffix op
    else if text_eq macro (codes "CHECK")
    then codes "CHECK_" ++ suffix op
    else if text_eq macro (codes "EXPECT_TRUE")
    then codes "EXPECT_" ++ suffix op
    else if text_eq macro (codes "ASSERT_TRUE")
    then codes "ASSERT_" ++ suffix op
    else if text_eq macro (codes "EXPECT_FALSE")
    then codes "EXPECT_" ++ inverse_suffix op
    else codes "ASSERT_" ++ inverse_suffix op

-- ^(.*\b<macro>\s*)\(
abbrev pub macro_call : Text → Regex
macro_call macro = bol ▹ group 1 (star dot ▹ boundary ▹ text macro ▹ star space) ▹ lit "("

-- The macro that is called, and where its parenthesis opens
pub record Call : Type 0 where
  pub macro : Text
  pub start_pos : ℕ

find_in : List Text → Text → Option Call
unfolding group_text contains
find_in [] line = none
find_in (macro ∷ macros) line =
    let rest = find_in macros line in
    if contains line macro
    then elim (re_match (macro_call macro) line) [
      | none ↦ rest
      | some matched ↦ some (record { macro = macro; start_pos = length (group_text matched 1) })
    ]
    else rest

-- FindCheckMacro
unfoldable pub find_check_macro : Text → Option Call
unfolding find_in
find_check_macro line = find_in check_macros line

concat_lines : List Text → Text
concat_lines [] = []
concat_lines (line ∷ lines) = line ++ concat_lines lines

-- `expression`: the text inside the parentheses, which may go on over lines
unfoldable pub inside_call : List Text → ℕ → ℕ → ℕ → ℕ → Text → Text
unfolding concat_lines
inside_call lines linenum start_pos end_line end_pos last_line =
    let behind = drop (start_pos + 1) (get_or lines linenum []) in
    if linenum == end_line
    then take (end_pos - 1 - (start_pos + 1)) behind
    else behind
      ++ concat_lines (take (end_line - (linenum + 1)) (drop (linenum + 1) lines))
      ++ take (end_pos - 1) last_line

abbrev upto_three : Regex → Regex
upto_three r = opt (r ▹ opt (r ▹ opt r))

-- ^([-+]?(\d+|0[xX][0-9a-fA-F]+)[lLuU]{0,3}|".*"|\'.*\')$
abbrev pub match_constant : Regex
match_constant =
    bol
    ▹ group 1 (
        opt (one_of "-+")
          ▹ group 2 (plus digit ∣∣ lit "0" ▹ one_of "xX" ▹ plus (one_of "0123456789abcdefABCDEF"))
          ▹ upto_three (one_of "lLuU")
        ∣∣ lit "\"" ▹ star dot ▹ lit "\""
        ∣∣ lit "'" ▹ star dot ▹ lit "'")
    ▹ eol

-- Whether the comparison is one of two operands, of which one is a constant
unfoldable pub is_replaceable : Comparison → Bool
unfolding contains unicode_strip
is_replaceable c =
    not (length c.lhs == 0)
    && not (length c.rhs == 0)
    && not (contains c.rhs (codes "&&"))
    && not (contains c.rhs (codes "||"))
    && (matches match_constant (unicode_strip c.lhs)
        || matches match_constant (unicode_strip c.rhs))

-- _ALT_TOKEN_REPLACEMENT
unfoldable pub alt_token_replacement : Text → Text
unfolding text_eq
alt_token_replacement token =
    if text_eq token (codes "and")
    then codes "&&"
    else if text_eq token (codes "bitor")
    then codes "|"
    else if text_eq token (codes "or")
    then codes "||"
    else if text_eq token (codes "xor")
    then codes "^"
    else if text_eq token (codes "compl")
    then codes "~"
    else if text_eq token (codes "bitand")
    then codes "&"
    else if text_eq token (codes "and_eq")
    then codes "&="
    else if text_eq token (codes "or_eq")
    then codes "|="
    else if text_eq token (codes "xor_eq")
    then codes "^="
    else if text_eq token (codes "not")
    then codes "!"
    else codes "!="

-- _ALT_TOKEN_REPLACEMENT_PATTERN. What has to follow a keyword leaves at most one that matches, so
-- the order of the keywords does not matter.
abbrev pub alt_token : Regex
alt_token =
    one_of " =()"
    ▹ group 1 (
        lit "and"
        ∣∣ lit "bitor"
        ∣∣ lit "or"
        ∣∣ lit "xor"
        ∣∣ lit "compl"
        ∣∣ lit "bitand"
        ∣∣ lit "and_eq"
        ∣∣ lit "or_eq"
        ∣∣ lit "xor_eq"
        ∣∣ lit "not"
        ∣∣ lit "not_eq")
    ▹ ahead (one_of " (" ∣∣ eol)

abbrev pub directive_line : Regex
directive_line = bol ▹ star space ▹ lit "#"

module _ {ℓ} {S : Type ℓ} (error : ErrorHandler S) (filename : Text) where
  report_comparison : ℕ → Text → Option Comparison → S → S
  unfolding check_replacement is_replaceable
  report_comparison linenum macro none s = s
  report_comparison linenum macro (some c) s =
      if is_replaceable c
      then error filename linenum (codes "readability/check") 2
          (codes "Consider using "
            ++ check_replacement macro c.operator
            ++ codes " instead of "
            ++ macro
            ++ codes "(a "
            ++ c.operator
            ++ codes " b)")
          s
      else s

  check_call : List Text → ℕ → Call → Place → S → Option S
  unfolding inside_call comparison_of report_comparison
  check_call lines linenum call place s = elim place.at [
    | none ↦ some s
    | some end_pos ↦
        if matches (star space ▹ lit ";") (drop end_pos place.line)
        then (comparison_of
              (inside_call lines linenum call.start_pos place.linenum end_pos place.line)
            >>= λ comparison. some (report_comparison linenum call.macro comparison s))
        else some s
  ]

  at_macro : List Text → ℕ → Option Call → S → Option S
  unfolding check_call close_expression
  at_macro lines linenum none s = some s
  at_macro lines linenum (some call) s = close_expression lines linenum call.start_pos >>= λ place.
      check_call lines linenum call place s

  -- CheckCheck; none is an IndexError of CloseExpression.
  unfoldable pub check_check : List Text → ℕ → S → Option S
  unfolding at_macro find_check_macro
  check_check lines linenum s =
      get_elem? lines linenum >>= λ line. at_macro lines linenum (find_check_macro line) s

  -- The loop of `finditer` over the line: `skip` characters belong to the last match.
  report_tokens : ℕ → Text → ℕ → S → S
  unfolding group_text alt_token_replacement
  report_tokens linenum [] skip s = s
  report_tokens linenum (c ∷ line) (suc skip) s = report_tokens linenum line skip s
  report_tokens linenum (c ∷ line) zero s = elim (re_match alt_token (c ∷ line)) [
    | none ↦ report_tokens linenum line zero s
    | some m ↦ report_tokens linenum line (length m.whole - 1) (
        error filename linenum (codes "readability/alt_tokens") 2
          (codes "Use operator "
            ++ alt_token_replacement (group_text m 1)
            ++ codes " instead of "
            ++ group_text m 1)
          s)
  ]

  -- CheckAltTokens, on the elided line
  unfoldable pub check_alt_tokens : ℕ → Text → S → S
  unfolding report_tokens contains
  check_alt_tokens linenum line s =
      if matches directive_line line
      then s
      else if contains line (codes "/*") || contains line (codes "*/")
      then s
      else report_tokens linenum line zero s
