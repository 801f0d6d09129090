-- ===== src/Cpplint/Style/Braces.antt =====
-- CheckBraces of tools/cpplint/cpplint.py. Bodies has its check of bodies without braces.
pub mod Bodies
pub mod BodiesTotal
pub mod Total
use cppecho.Prelude.{
  ℕ, ◌+◌, Bool, true, false, not, ◌&&◌, ◌||◌, List, [], ◌∷◌, Option, none, some, ltb, ℤ, pos, ltb_ℤ,
  ◌==◌, if◌then◌else◌, get_elem?, ◌>>=◌,
}
use cppecho.Python.Str.{Text, codes, contains, find, find_from, is_space}
use cppecho.Python.Regex.{
  Regex, star, space, lit, bol, eol, boundary, none_of, one_of, set, ◌▹◌, ◌∣∣◌, matches, occurs,
}
use cppecho.Cpplint.Report.{ErrorHandler}
use cppecho.Cpplint.Expression.{Place, close_expression}
use cppecho.Cpplint.Style.Width.{
  UnicodeData, get_line_width, get_previous_non_blank_line, slice_from,
}
use cppecho.Cpplint.Style.Braces.Bodies.{check_bodies}

-- \s*{\s*$
abbrev pub lone_brace : Regex
lone_brace = star space ▹ lit "{" ▹ star space ▹ eol

-- [,;:}{(]\s*$
abbrev pub ends_open : Regex
ends_open = one_of ",;:}{(" ▹ star space ▹ eol

-- \s*#
abbrev pub preprocessor : Regex
preprocessor = star space ▹ lit "#"

-- \s*else\b\s*(?:if\b|\{|$)
abbrev pub else_line : Regex
else_line =
    star space ▹ lit "else" ▹ boundary ▹ star space ▹ (lit "if" ▹ boundary ∣∣ lit "{" ∣∣ eol)

-- \s*}\s*$
abbrev pub lone_closing_brace : Regex
lone_closing_brace = star space ▹ lit "}" ▹ star space ▹ eol

-- else if\s*\( and }\s*else if\s*\(
abbrev pub else_if : Regex
else_if = lit "else if" ▹ star space ▹ lit "("

abbrev pub brace_else_if : Regex
brace_else_if = lit "}" ▹ star space ▹ else_if

-- }\s*else[^{]*$ and [^}]*else\s*{
abbrev pub brace_on_left_only : Regex
brace_on_left_only = lit "}" ▹ star space ▹ lit "else" ▹ star (none_of "{") ▹ eol

abbrev pub brace_on_right_only : Regex
brace_on_right_only = star (none_of "}") ▹ lit "else" ▹ star space ▹ lit "{"

-- [^\s{]
abbrev pub no_space_or_brace : Regex
no_space_or_brace = set (λ c. not (is_space c || c == b'{'))

-- \belse [^\s{] and \belse if\b
abbrev pub else_clause : Regex
else_clause = boundary ▹ lit "else " ▹ no_space_or_brace

abbrev pub else_if_word : Regex
else_if_word = boundary ▹ lit "else if" ▹ boundary

-- \s*do [^\s{]
abbrev pub do_clause : Regex
do_clause = star space ▹ lit "do " ▹ no_space_or_brace

-- `pos`: the parenthesis behind the first `else if`
unfoldable pub else_if_parenthesis : Text → Option ℕ
unfolding find find_from
else_if_parenthesis line = find line (codes "else if") >>= λ start. find_from line (codes "(") start

-- `brace_on_left != brace_on_right`
differ : Bool → Bool → Bool
differ true b = not b
differ false b = b

module _ {ℓ} {S : Type ℓ} (error : ErrorHandler S) (filename : Text) where
  abbrev one_side : ℕ → S → S
  one_side linenum s =
      error filename linenum (codes "readability/braces") 5
        (codes "If an else has a brace on one side, it should have it on both") s

  abbrev newline : ℕ → Text → S → S
  newline linenum message s = error filename linenum (codes "whitespace/newline") 4 message s

  module _ (unicode : UnicodeData) (line_length : ℤ) where
    -- Whether a line may be followed by a brace alone
    unfoldable pub may_precede_brace : Text → Bool
    unfolding get_line_width contains
    may_precede_brace prevline =
        occurs ends_open prevline
        || matches preprocessor prevline
        || ltb_ℤ line_length (pos (get_line_width unicode prevline + 2))
          && contains prevline (codes "[]")

    check_lone_brace : ℕ → Text → Text → S → S
    unfolding may_precede_brace
    check_lone_brace linenum line prevline s =
        if matches lone_brace line && not (may_precede_brace prevline)
        then error filename linenum (codes "whitespace/braces") 4
            (codes "{ should almost always be at the end of the previous line") s
        else s

  check_else_line : ℕ → Text → Text → S → S
  check_else_line linenum line prevline s =
      if matches else_line line && matches lone_closing_brace prevline
      then newline linenum (codes "An else should appear on the same line as the preceding }") s
      else s

  -- The braces around `else if`; none is an IndexError of CloseExpression.
  check_sides : ℕ → Bool → Option Place → S → Option S
  unfolding contains slice_from differ
  check_sides linenum brace_on_left none s = none
  check_sides linenum brace_on_left (some place) s =
      if differ brace_on_left (contains (slice_from place.line place.at) (codes "{"))
      then some (one_side linenum s)
      else some s

  check_else_if : List Text → ℕ → Bool → Option ℕ → S → Option S
  unfolding check_sides close_expression
  check_else_if elided linenum brace_on_left none s = some s
  check_else_if elided linenum brace_on_left (some paren) s =
      if ltb 0 paren
      then check_sides linenum brace_on_left (close_expression elided linenum paren) s
      else some s

  check_else_braces : List Text → ℕ → Text → S → Option S
  unfolding check_else_if else_if_parenthesis
  check_else_braces elided linenum line s =
      if occurs else_if line
      then check_else_if elided linenum (occurs brace_else_if line) (else_if_parenthesis line) s
      else if occurs brace_on_left_only line || matches brace_on_right_only line
      then some (one_side linenum s)
      else some s

  check_clauses : ℕ → Text → S → S
  check_clauses linenum line s =
      let t =
        if occurs else_clause line && not (occurs else_if_word line)
        then newline linenum
            (codes "Else clause should never be on same line as else (use 2 lines)") s
        else s in
      if matches do_clause line
      then newline linenum (codes "do/while clauses should not be on a single line") t
      else t

  -- CheckBraces; none is an IndexError.
  unfoldable pub check_braces : UnicodeData → ℤ → List Text → ℕ → S → Option S
  unfolding get_previous_non_blank_line check_lone_brace check_else_line check_else_braces
      check_clauses check_bodies
  check_braces unicode line_length elided linenum s =
      let (prevline, prevlinenum) = get_previous_non_blank_line elided linenum in
      get_elem? elided linenum >>= λ line.
      check_else_braces elided linenum line (
        check_else_line linenum line prevline
          (check_lone_brace unicode line_length linenum line prevline s))
      >>= λ t. check_bodies error filename elided linenum (check_clauses linenum line t)
