-- ===== src/Cpplint/Style/EmptyBlocks.antt =====
-- CheckEmptyBlockBody of tools/cpplint/cpplint.py.
use cppecho.Prelude.{
  ℕ, ◌+◌, ◌-◌, Bool, true, false, not, ◌&&◌, List, [], ◌∷◌, ◌++◌, Option, none, some, ltb, ◌==◌,
  if◌then◌else◌, take, drop, get_or, map, ◌>>=◌,
}
use cppecho.Python.Str.{Text, codes, text_eq, find}
use cppecho.Python.Regex.{
  Regex, Found, ahead, unless, star, space, lit, bol, eol, group, ◌▹◌, ◌∣∣◌, re_match, group_text,
  matches, occurs,
}
use cppecho.Cpplint.Report.{ErrorHandler}
use cppecho.Cpplint.Cleanse.Comments.{cleanse_comments}
use cppecho.Cpplint.Cleanse.Lines.{CleansedLines}
use cppecho.Cpplint.Expression.{Place, close_expression}

-- \s*(for|while|if)\s*\(
abbrev pub statement_start : Regex
statement_start = star space ▹ group 1 (lit "for" ∣∣ lit "while" ∣∣ lit "if") ▹ star space ▹ lit "("

-- ^\s*\{ and ^(?!\s*$)
abbrev pub brace_at_start : Regex
brace_at_start = bol ▹ star space ▹ lit "{"

abbrev pub not_blank : Regex
not_blank = bol ▹ unless (star space ▹ eol)

-- ^\s*$
abbrev pub blank : Regex
blank = bol ▹ star space ▹ eol

-- ^(?=\s*else)
abbrev pub else_follows : Regex
else_follows = bol ▹ ahead (star space ▹ lit "else")

-- A part of a line, and the number of the line
pub record Fragment : Type 0 where
  pub part : Text
  pub number : ℕ

-- The loop to the opening brace, with the lines below
find_opening : Text → ℕ → List Text → Option Fragment
find_opening part number [] =
    if occurs brace_at_start part then some (record { part = part; number = number }) else none
find_opening part number (next ∷ below) =
    let rest = find_opening next (number + 1) below in
    if occurs brace_at_start part
    then some (record { part = part; number = number })
    else if occurs not_blank part
    then none
    else rest

-- `'\n'.join(parts)`
join_newline : List Text → Text
join_newline [] = []
join_newline (part ∷ []) = part
join_newline (part ∷ next ∷ parts) = part ++ 10 ∷ join_newline (next ∷ parts)

-- `body`. The text of the first line goes into the list as its characters.
unfoldable pub body_between : CleansedLines → ℕ → ℕ → ℕ → ℕ → Text
unfolding join_newline
body_between clean_lines opening_linenum opening_pos closing_linenum closing_pos =
    let opening_line = get_or clean_lines.elided opening_linenum [] in
    let behind = drop (opening_pos + 1) opening_line in
    if ltb opening_linenum closing_linenum
    then join_newline (
        map (λ c. c ∷ []) behind
        ++ take (closing_linenum - (opening_linenum + 1))
            (drop (opening_linenum + 1) clean_lines.raw_lines)
        ++ (take (closing_pos - 1) (get_or clean_lines.elided closing_linenum []) ∷ []))
    else take (closing_pos - 1 - (opening_pos + 1)) behind

-- The loop behind the closing brace: whether an `else` follows
has_else : Text → List Text → Bool
has_else part [] = occurs else_follows part
has_else part (next ∷ below) =
    let rest = has_else next below in
    if occurs else_follows part then true else if occurs blank part then rest else false

-- Whether the line has a comment
unfoldable pub has_comment : Text → Bool
unfolding text_eq cleanse_comments
has_comment raw_line = not (text_eq raw_line (cleanse_comments raw_line))

-- Whether the block from the brace to its end is empty, with no `else` behind it
unfoldable pub is_empty_if : CleansedLines → ℕ → ℕ → Place → Bool
unfolding body_between has_else has_comment
is_empty_if clean_lines opening_linenum opening_pos closing = elim closing.at [
  | none ↦ false
  | some closing_pos ↦
      not (has_comment (get_or clean_lines.raw_lines opening_linenum []))
      && occurs blank
          (body_between clean_lines opening_linenum opening_pos closing.linenum closing_pos)
      && not
          (has_else (drop closing_pos closing.line) (drop (closing.linenum + 1) clean_lines.elided))
]

abbrev or_zero : Option ℕ → ℕ
or_zero none = 0
or_zero (some i) = i

-- `opening_pos`: the column of the brace, on the line of the condition or a later one
opening_position : ℕ → ℕ → Fragment → ℕ
unfolding find
opening_position end_linenum end_pos opening =
    let column = or_zero (find opening.part (codes "{")) in
    if opening.number == end_linenum then column + end_pos else column

module _ {ℓ} {S : Type ℓ} (error : ErrorHandler S) (filename : Text) where
  check_opening_brace : CleansedLines → ℕ → ℕ → Option Fragment → S → Option S
  unfolding opening_position is_empty_if close_expression
  check_opening_brace clean_lines end_linenum end_pos none s = some s
  check_opening_brace clean_lines end_linenum end_pos (some opening) s =
      let opening_pos = opening_position end_linenum end_pos opening in
      close_expression clean_lines.elided opening.number opening_pos >>= λ closing. some (
        if is_empty_if clean_lines opening.number opening_pos closing
        then error filename end_linenum (codes "whitespace/empty_if_body") 4
            (codes "If statement had no body and no else clause") s
        else s)

  report_semicolon_body : Bool → ℕ → Text → S → S
  report_semicolon_body is_if end_linenum behind s =
      if matches (lit ";") behind
      then (if is_if
          then error filename end_linenum (codes "whitespace/empty_conditional_body") 5
              (codes "Empty conditional bodies should use {}") s
          else error filename end_linenum (codes "whitespace/empty_loop_body") 5
              (codes "Empty loop bodies should use {} or continue") s)
      else s

  behind_condition : CleansedLines → Bool → Place → S → Option S
  unfolding check_opening_brace find_opening report_semicolon_body
  behind_condition clean_lines is_if place s = elim place.at [
    | none ↦ some s
    | some end_pos ↦
        let behind = drop end_pos place.line in
        let t = report_semicolon_body is_if place.linenum behind s in
        if is_if
        then check_opening_brace clean_lines place.linenum end_pos
            (find_opening behind place.linenum (drop (place.linenum + 1) clean_lines.elided)) t
        else some t
  ]

  at_statement : CleansedLines → ℕ → Text → Option Found → S → Option S
  unfolding behind_condition close_expression group_text find text_eq
  at_statement clean_lines linenum line none s = some s
  at_statement clean_lines linenum line (some matched) s =
      close_expression clean_lines.elided linenum (or_zero (find line (codes "("))) >>= λ place.
      behind_condition clean_lines (text_eq (group_text matched 1) (codes "if")) place s

  -- CheckEmptyBlockBody; none is an IndexError of CloseExpression.
  unfoldable pub check_empty_block_body : CleansedLines → ℕ → S → Option S
  unfolding at_statement
  check_empty_block_body clean_lines linenum s =
      let line = get_or clean_lines.elided linenum [] in
      at_statement clean_lines linenum line (re_match statement_start line) s
