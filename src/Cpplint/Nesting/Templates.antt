-- ===== src/Cpplint/Nesting/Templates.antt =====
-- NestingState.InTemplateArgumentList of tools/cpplint/cpplint.py, over `clean_lines.elided`.
pub mod Total
use cppecho.Prelude.{
  ℕ, zero, suc, ◌+◌, ◌-◌, Bool, true, false, not, List, [], ◌∷◌, ◌++◌, Option, none, some, leb,
  ◌==◌, length, get_elem?, drop, if◌then◌else◌,
}
use cppecho.Python.Str.{Text, codes}
use cppecho.Python.Regex.{Regex, Found, star, bol, dot, group, none_of, ◌▹◌, re_match, group_text}
use cppecho.Cpplint.Expression.{Place, is_in, close_expression}

-- ^[^{};=\[\]\.<>]*(.)
abbrev pub next_token : Regex
next_token = bol ▹ star (none_of "{};=[].<>") ▹ group 1 dot

-- What a round does: it returns, or it goes on at a position.
pub data Round : Type 0 where
  answer : Bool → Round
  go_on : ℕ → ℕ → Round

-- Where CloseExpression went; none is its IndexError.
after_close : Option Place → Option Round
after_close none = none
after_close (some place) =
    some (elim place.at [ none ↦ answer false | some end_pos ↦ go_on place.linenum end_pos ])

-- The round at a token in front of `pos`: whether it ends the search, tells a template, or is a `<`.
token_turn : List Text → ℕ → Text → ℕ → Bool → Bool → Bool → Option Round
unfolding after_close
token_turn elided linenum line pos true tells opens = some (answer false)
token_turn elided linenum line pos false true opens = some (answer true)
token_turn elided linenum line pos false false true =
    after_close (close_expression elided linenum (pos - 1))
token_turn elided linenum line pos false false false =
    some (if leb (length line) (pos + 1) then go_on (linenum + 1) 0 else go_on linenum (pos + 1))

token_round : List Text → ℕ → Text → ℕ → Text → Option Round
unfolding token_turn
token_round elided linenum line pos [] = none
token_round elided linenum line pos (token ∷ _) =
    token_turn elided linenum line pos (is_in token (codes "{};")) (is_in token (codes ">=[]."))
      (token == b'<')

match_round : List Text → ℕ → Text → ℕ → Option Found → Option Round
unfolding token_round group_text
match_round elided linenum line pos none = some (go_on (linenum + 1) 0)
match_round elided linenum line pos (some m) =
    token_round elided linenum line (pos + length m.whole) (group_text m 1)

-- A round of the loop; outside the file it has ended.
pub round : List Text → ℕ → ℕ → Option Round
unfolding match_round
round elided linenum pos = elim (get_elem? elided linenum) [
  | none ↦ some (answer false)
  | some line ↦ match_round elided linenum line pos (re_match next_token (drop pos line))
]

-- The loop. None means that the fuel ran out, or an IndexError.
pub in_template : ℕ → List Text → ℕ → ℕ → Option Bool
unfolding round
in_template zero elided linenum pos = none
in_template (suc fuel) elided linenum pos = elim (round elided linenum pos) [
  | none ↦ none
  | some r ↦ elim r [ answer b ↦ some b | go_on l p ↦ in_template fuel elided l p ]
]

-- The characters of the lines, and two more for each line: more than the rounds of the loop.
pub size : List Text → ℕ
size [] = 0
size (line ∷ lines) = length line + 2 + size lines

-- InTemplateArgumentList
unfoldable pub in_template_argument_list : List Text → ℕ → ℕ → Option Bool
unfolding in_template size
in_template_argument_list elided linenum pos = in_template (size elided + 1) elided linenum pos
