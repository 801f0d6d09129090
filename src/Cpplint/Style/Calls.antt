-- ===== src/Cpplint/Style/Calls.antt =====
-- CheckSpacingForFunctionCall of tools/cpplint/cpplint.py, on the elided line.
use cppecho.Prelude.{ℕ, not, ◌&&◌, ◌||◌, List, [], ◌∷◌, none, some, if◌then◌else◌, ◌==◌}
use cppecho.Python.Str.{Text, codes, is_space}
use cppecho.Python.Regex.{
  Regex, star, plus, space, word, opt, lit, bol, eol, dot, boundary, group, one_of, none_of, set,
  unless, ◌▹◌, ◌∣∣◌, re_search, group_text, occurs,
}
use cppecho.Cpplint.Report.{ErrorHandler}

-- \b<keyword>\s*\((.*)\)\s*[<ends>]
abbrev inside : Regex → Regex → Regex
inside keyword ends =
    boundary ▹ keyword ▹ star space ▹ lit "(" ▹ group 1 (star dot) ▹ lit ")" ▹ star space ▹ ends

abbrev pub control_patterns : List Regex
control_patterns =
    inside (lit "if") (lit "{")
    ∷ inside (lit "for") (lit "{")
    ∷ inside (lit "while") (one_of "{;")
    ∷ inside (lit "switch") (lit "{")
    ∷ []

-- The loop over the patterns: the first match, or the line
first_inside : Text → List Regex → Text
unfolding re_search group_text
first_inside line [] = line
first_inside line (p ∷ ps) = elim (re_search p line) [
  | some m ↦ group_text m 1
  | none ↦ first_inside line ps
]

-- `fncall`
unfoldable pub fncall_of : Text → Text
unfolding first_inside
fncall_of line = first_inside line control_patterns

-- \b(if|for|while|switch|return|new|delete|catch|sizeof)\b
abbrev pub control_structure : Regex
control_structure =
    boundary
    ▹ group 1 (
        lit "if"
        ∣∣ lit "for"
        ∣∣ lit "while"
        ∣∣ lit "switch"
        ∣∣ lit "return"
        ∣∣ lit "new"
        ∣∣ lit "delete"
        ∣∣ lit "catch"
        ∣∣ lit "sizeof")
    ▹ boundary

-- ` \([^)]+\)\([^)]*(\)|,$)`
abbrev pub function_pointer : Regex
function_pointer =
    lit " ("
    ▹ plus (none_of ")")
    ▹ lit ")("
    ▹ star (none_of ")")
    ▹ group 1 (lit ")" ∣∣ lit "," ▹ eol)

-- ` \([^)]+\)\[[^\]]+\]`
abbrev pub array_pointer : Regex
array_pointer = lit " (" ▹ plus (none_of ")") ▹ lit ")[" ▹ plus (none_of "]") ▹ lit "]"

-- \w\s*\(\s(?!\s*\\$)
abbrev pub space_in_call : Regex
space_in_call = word ▹ star space ▹ lit "(" ▹ space ▹ unless (star space ▹ lit "\\" ▹ eol)

-- \(\s+(?!(\s*\\)|\()
abbrev pub space_in_parenthesis : Regex
space_in_parenthesis = lit "(" ▹ plus space ▹ unless (group 1 (star space ▹ lit "\\") ∣∣ lit "(")

-- \w\s+\(
abbrev pub space_before_call : Regex
space_before_call = word ▹ plus space ▹ lit "("

abbrev two_underscores : Regex
two_underscores = opt (lit "_" ▹ opt (lit "_"))

-- _{0,2}asm_{0,2}\s+_{0,2}volatile_{0,2}\s+\(
abbrev pub volatile_assembly : Regex
volatile_assembly =
    two_underscores
    ▹ lit "asm"
    ▹ two_underscores
    ▹ plus space
    ▹ two_underscores
    ▹ lit "volatile"
    ▹ two_underscores
    ▹ plus space
    ▹ lit "("

-- #\s*define|typedef|using\s+\w+\s*=
abbrev pub definition : Regex
definition =
    lit "#" ▹ star space ▹ lit "define"
    ∣∣ lit "typedef"
    ∣∣ lit "using" ▹ plus space ▹ plus word ▹ star space ▹ lit "="

-- \w\s+\((\w+::)*\*\w+\)\(
abbrev pub member_pointer : Regex
member_pointer =
    word
    ▹ plus space
    ▹ lit "("
    ▹ star (group 1 (plus word ▹ lit "::"))
    ▹ lit "*"
    ▹ plus word
    ▹ lit ")("

-- \bcase\s+\(
abbrev pub case_label : Regex
case_label = boundary ▹ lit "case" ▹ plus space ▹ lit "("

-- \boperator_*\b
abbrev pub operator_name : Regex
operator_name = boundary ▹ lit "operator" ▹ star (lit "_") ▹ boundary

-- [^)]\s+\)\s*[^{\s]
abbrev pub space_before_closing : Regex
space_before_closing =
    none_of ")" ▹ plus space ▹ lit ")" ▹ star space ▹ set (λ c. not (c == b'{' || is_space c))

-- ^\s+\)
abbrev pub closing_first : Regex
closing_first = bol ▹ plus space ▹ lit ")"

module _ {ℓ} {S : Type ℓ} (error : ErrorHandler S) (filename : Text) where
  abbrev parens : ℕ → ℕ → Text → S → S
  parens linenum confidence message s =
      error filename linenum (codes "whitespace/parens") confidence message s

  check_opening : ℕ → Text → S → S
  check_opening linenum fncall s =
      if occurs space_in_call fncall
      then parens linenum 4 (codes "Extra space after ( in function call") s
      else if occurs space_in_parenthesis fncall
      then parens linenum 2 (codes "Extra space after (") s
      else s

  check_before : ℕ → Text → Text → S → S
  check_before linenum line fncall s =
      if occurs space_before_call fncall
        && not (occurs volatile_assembly fncall)
        && not (occurs definition fncall)
        && not (occurs member_pointer fncall)
        && not (occurs case_label fncall)
      then (if occurs operator_name line
          then parens linenum 0 (codes "Extra space before ( in function call") s
          else parens linenum 4 (codes "Extra space before ( in function call") s)
      else s

  check_closing : ℕ → Text → S → S
  check_closing linenum fncall s =
      if occurs space_before_closing fncall
      then (if occurs closing_first fncall
          then parens linenum 2 (codes "Closing ) should be moved to the previous line") s
          else parens linenum 2 (codes "Extra space before )") s)
      else s

  -- CheckSpacingForFunctionCall
  unfoldable pub check_spacing_for_function_call : ℕ → Text → S → S
  unfolding fncall_of check_opening check_before check_closing
  check_spacing_for_function_call linenum line s =
      let fncall = fncall_of line in
      if not (occurs control_structure fncall)
        && not (occurs function_pointer fncall)
        && not (occurs array_pointer fncall)
      then check_closing linenum fncall
          (check_before linenum line fncall (check_opening linenum fncall s))
      else s
