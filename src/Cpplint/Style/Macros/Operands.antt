-- ===== src/Cpplint/Style/Macros/Operands.antt =====
-- The loop of CheckCheck in tools/cpplint/cpplint.py that looks for an operator in an expression.
use cppecho.Prelude.{
  ℕ, zero, suc, ◌+◌, [], ◌∷◌, ◌++◌, Option, none, some, if◌then◌else◌, length, take, drop, or_else,
}
use cppecho.Python.Str.{Text, codes, text_eq, member}
use cppecho.Python.Regex.{
  Regex, Found, star, plus, space, non_space, lit, bol, eol, dot, group, none_of, ◌▹◌, ◌∣∣◌,
  re_match, group_text,
}
use cppecho.Cpplint.Expression.{Scan, closed, failed, unclosed, find_end_of_expression_in_line}

-- An operator, and what is to its left and right
pub record Comparison : Type 0 where
  pub lhs : Text
  pub operator : Text
  pub rhs : Text

-- ^\s*(<<|<<=|>>|>>=|->\*|->|&&|\|\||==|!=|>=|>|<=|<|\()(.*)$
abbrev pub operator_token : Regex
operator_token =
    bol
    ▹ star space
    ▹ group 1 (
        lit "<<"
        ∣∣ lit "<<="
        ∣∣ lit ">>"
        ∣∣ lit ">>="
        ∣∣ lit "->*"
        ∣∣ lit "->"
        ∣∣ lit "&&"
        ∣∣ lit "||"
        ∣∣ lit "=="
        ∣∣ lit "!="
        ∣∣ lit ">="
        ∣∣ lit ">"
        ∣∣ lit "<="
        ∣∣ lit "<"
        ∣∣ lit "(")
    ▹ group 2 (star dot)
    ▹ eol

-- ^([^-=!<>()&|]+)(.*)$ and ^(\s*\S)(.*)$
abbrev pub operand : Regex
operand = bol ▹ group 1 (plus (none_of "-=!<>()&|")) ▹ group 2 (star dot) ▹ eol

abbrev pub character : Regex
character = bol ▹ group 1 (star space ▹ non_space) ▹ group 2 (star dot) ▹ eol

-- What a round of the loop does: it goes on with a left side and the rest of the expression, or ends
-- the loop with a comparison, or without one.
pub data Round : Type 0 where
  go_on : Text → Text → Round
  ends : Option Comparison → Round

unfoldable pub pass_parenthesis : Text → Text → Scan → Round
pass_parenthesis lhs expression (closed end) =
    go_on (lhs ++ codes "(" ++ take end expression) (drop end expression)
pass_parenthesis lhs expression failed = ends none
pass_parenthesis lhs expression (unclosed stack) = ends none

-- A round at a token
unfoldable pub at_token : Text → Text → Text → Round
unfolding text_eq member pass_parenthesis find_end_of_expression_in_line
at_token lhs token rest =
    if text_eq token (codes "(")
    then pass_parenthesis lhs rest (find_end_of_expression_in_line rest 0 (b'(' ∷ []))
    else if member token (codes "&&" ∷ codes "||" ∷ [])
    then ends none
    else if member token
        (codes "<<" ∷ codes "<<=" ∷ codes ">>" ∷ codes ">>=" ∷ codes "->*" ∷ codes "->" ∷ [])
    then go_on (lhs ++ token) rest
    else ends (some (record { lhs = lhs; operator = token; rhs = rest }))

unfoldable pub at_operand : Text → Option Found → Round
unfolding group_text
at_operand lhs none = ends none
at_operand lhs (some m) = go_on (lhs ++ group_text m 1) (group_text m 2)

-- A round of the loop
unfoldable pub operand_round : Text → Text → Round
unfolding at_token at_operand group_text
operand_round lhs expression = elim (re_match operator_token expression) [
  | some m ↦ at_token lhs (group_text m 1) (group_text m 2)
  | none ↦ at_operand lhs (or_else (re_match operand expression) (re_match character expression))
]

-- The loop, on fuel, which has run out if there is no result. The result is a comparison, or nothing
-- to report.
unfoldable pub operand_loop : ℕ → Text → Text → Option (Option Comparison)
unfolding operand_round
operand_loop zero lhs expression = none
operand_loop (suc fuel) lhs [] = some none
operand_loop (suc fuel) lhs (c ∷ expression) = elim (operand_round lhs (c ∷ expression)) [
  | ends comparison ↦ some comparison
  | go_on lhs' rest ↦ operand_loop fuel lhs' rest
]

-- The comparison in an expression. Each round that goes on leaves a shorter expression.
unfoldable pub comparison_of : Text → Option (Option Comparison)
unfolding operand_loop
comparison_of expression = operand_loop (length expression + 1) [] expression
