-- ===== src/Cpplint/Style/Braces/Bodies.antt =====
-- The check of if and else bodies without braces in CheckBraces of tools/cpplint/cpplint.py.
use cppecho.Prelude.{
  ℕ, ◌+◌, ◌-◌, Bool, not, ◌&&◌, ◌||◌, List, [], ◌∷◌, Option, none, some, ltb, ◌==◌, if◌then◌else◌,
  length, drop, get_elem?, ◌>>=◌, true, false, is_some,
}
use cppecho.Python.Str.{Text, codes, contains, find, is_space}
use cppecho.Python.Regex.{
  Regex, Found, star, space, opt, lit, bol, eol, boundary, group, none_of, one_of, set, ◌▹◌, ◌∣∣◌,
  re_search, matches,
}
use cppecho.Cpplint.Report.{ErrorHandler}
use cppecho.Cpplint.Expression.{Place, close_expression}
use cppecho.Cpplint.WholeFile.{get_indent_level}
use cppecho.Cpplint.Style.Width.{slice_from}

-- \b(if\s*\(|else\b)
abbrev pub if_or_else : Regex
if_or_else = boundary ▹ group 1 (lit "if" ▹ star space ▹ lit "(" ∣∣ lit "else" ▹ boundary)

-- \s*#
abbrev pub preprocessor_line : Regex
preprocessor_line = star space ▹ lit "#"

-- \bif\s*\(
abbrev pub if_start : Regex
if_start = boundary ▹ lit "if" ▹ star space ▹ lit "("

-- \s*{ and \s*$
abbrev pub opening_brace : Regex
opening_brace = star space ▹ lit "{"

abbrev pub only_space : Regex
only_space = star space ▹ eol

-- ;[\s}]*(\\?)$
abbrev pub ends_statement : Regex
ends_statement =
    lit ";" ▹ star (set (λ c. is_space c || c == b'}')) ▹ group 1 (opt (lit "\\")) ▹ eol

-- ^[^{};]*\[[^\[\]]*\][^{}]*\{[^{}]*\}\s*\)*[;,]\s*$
abbrev pub lambda_line : Regex
lambda_line =
    bol
    ▹ star (none_of "{};")
    ▹ lit "["
    ▹ star (none_of "[]")
    ▹ lit "]"
    ▹ star (none_of "{}")
    ▹ lit "{"
    ▹ star (none_of "{}")
    ▹ lit "}"
    ▹ star space
    ▹ star (lit ")")
    ▹ one_of ";,"
    ▹ star space
    ▹ eol

-- \s*else\b
abbrev pub else_start : Regex
else_start = star space ▹ lit "else" ▹ boundary

abbrev end_of : Found → ℕ
end_of m = m.start + length m.whole

-- Where the body begins: behind the condition of the `if`, or behind the `else`
unfoldable pub body_start : List Text → ℕ → Text → Found → Option Found → Option Place
unfolding close_expression
body_start elided linenum line if_else_match none =
    some (record { line = line; linenum = linenum; at = some (end_of if_else_match) })
body_start elided linenum line if_else_match (some if_match) =
    close_expression elided linenum (end_of if_match - 1)

-- Whether a brace opens the body, there or on the next line; none is an IndexError, as it is in the
-- functions below.
unfoldable pub has_opening_brace : List Text → Place → Option Bool
unfolding slice_from
has_opening_brace elided place =
    if matches opening_brace (slice_from place.line place.at)
    then some true
    else if matches only_space (slice_from place.line place.at)
        && ltb (place.linenum + 1) (length elided)
    then (get_elem? elided (place.linenum + 1) >>= λ next. some (matches opening_brace next))
    else some false

-- The loop to the first semicolon, over the lines from `endlinenum` on
unfoldable pub find_semicolon : List Text → ℕ → Option ℕ → Option ℕ
unfolding contains slice_from
find_semicolon [] endlinenum endpos = none
find_semicolon (line ∷ lines) endlinenum endpos =
    let rest = find_semicolon lines (endlinenum + 1) (some 0) in
    if contains (slice_from line endpos) (codes ";") then some endlinenum else rest

-- The number of the line where the first statement of the body ends
unfoldable pub statement_end : List Text → Place → Option ℕ
unfolding find_semicolon
statement_end elided place = find_semicolon (drop place.linenum elided) place.linenum place.at

module _ {ℓ} {S : Type ℓ} (error : ErrorHandler S) (filename : Text) where
  abbrev pub require_braces : ℕ → S → S
  require_braces linenum s =
      error filename linenum (codes "readability/braces") 4
        (codes "If/else bodies with multiple statements require braces") s

  -- The checks of the line behind the statement
  unfoldable pub check_indent : ℕ → Bool → ℕ → Text → S → S
  unfolding get_indent_level
  check_indent linenum is_if if_indent next_line s =
      let next_indent = get_indent_level next_line in
      if is_if && matches else_start next_line && not (next_indent == if_indent)
      then error filename linenum (codes "readability/braces") 4
          (codes
            "Else clause should be indented at the same level as if. Ambiguous nested if/else chains require braces.")
          s
      else if ltb if_indent next_indent
      then require_braces linenum s
      else s

  unfoldable pub check_next_line : List Text → ℕ → Bool → ℕ → ℕ → S → Option S
  unfolding check_indent
  check_next_line elided linenum is_if if_indent endlinenum s =
      if ltb (endlinenum + 1) (length elided)
      then (get_elem? elided (endlinenum + 1) >>= λ next_line.
          some (check_indent linenum is_if if_indent next_line s))
      else some s

  -- The check of the line with the semicolon
  unfoldable pub check_statement : List Text → ℕ → Bool → ℕ → Option ℕ → S → Option S
  unfolding find slice_from check_next_line
  check_statement elided linenum is_if if_indent none s = some s
  check_statement elided linenum is_if if_indent (some endlinenum) s =
      get_elem? elided endlinenum >>= λ endline.
      if not (matches ends_statement (slice_from endline (find endline (codes ";"))))
      then (if matches lambda_line endline then some s else some (require_braces linenum s))
      else check_next_line elided linenum is_if if_indent endlinenum s

  unfoldable pub check_body : List Text → ℕ → Bool → ℕ → Option Place → S → Option S
  unfolding has_opening_brace statement_end check_statement
  check_body elided linenum is_if if_indent none s = none
  check_body elided linenum is_if if_indent (some place) s =
      has_opening_brace elided place >>= λ opened.
      if opened
      then some s
      else check_statement elided linenum is_if if_indent (statement_end elided place) s

  unfoldable pub check_if_or_else : List Text → ℕ → Text → Option Found → S → Option S
  unfolding body_start check_body get_indent_level
  check_if_or_else elided linenum line none s = some s
  check_if_or_else elided linenum line (some if_else_match) s =
      if matches preprocessor_line line
      then some s
      else (let if_match = re_search if_start line in
          check_body elided linenum (is_some if_match) (get_indent_level line)
            (body_start elided linenum line if_else_match if_match) s)

  -- The check of a line
  unfoldable pub check_bodies : List Text → ℕ → S → Option S
  unfolding check_if_or_else
  check_bodies elided linenum s = get_elem? elided linenum >>= λ line.
      check_if_or_else elided linenum line (re_search if_or_else line) s
