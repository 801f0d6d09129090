-- ===== src/Cpplint/Style/Braces/Total.antt =====
-- About the lines and columns that CheckBraces of tools/cpplint/cpplint.py reads.
use cppecho.Prelude.{
  ℕ, ◌+◌, ◌≤◌, ◌<◌, ◌≡◌, refl, Bool, ◌||◌, ℤ, List, Option, none, some, arith, length, length-drop,
  drop, ltb, get_elem?, if-holds, IsSome, bind-IsSome, ◌>>=◌, if◌then◌else◌,
}
use cppecho.Python.Str.{Text, codes, contains, find, find_from}
use cppecho.Python.Str.Laws.{find-le}
use cppecho.Python.Regex.{matches, occurs}
use cppecho.Cpplint.Report.{ErrorHandler}
use cppecho.Cpplint.Expression.{Place, close_expression}
use cppecho.Cpplint.Expression.Positions.{close_expression-some}
use cppecho.Cpplint.Style.Width.{UnicodeData, slice_from, get_previous_non_blank_line}
use cppecho.Cpplint.Style.Braces.{
  else_if, brace_else_if, brace_on_left_only, brace_on_right_only, else_if_parenthesis, differ,
  one_side, check_sides, check_else_if, check_else_braces, check_braces, check_else_line,
  check_lone_brace, check_clauses,
}
use cppecho.Cpplint.Style.Braces.Bodies.{check_bodies}
use cppecho.Cpplint.Style.Braces.BodiesTotal.{check_bodies-IsSome}

-- A position, if there is one, is on the line.
abbrev Inside : Text → Option ℕ → Type 0
Inside line none = Unit
Inside line (some start) = start < length line

find_from-Inside : (line p : Text) (start : ℕ) → 1 ≤ length p → Inside line (find_from line p start)
unfolding find_from
find_from-Inside line p start h = found (find (drop start line) p) refl
  where
    found :
        (o : Option ℕ)
        → find (drop start line) p ≡ o
        → Inside line (elim o [ none ↦ none | some i ↦ some (start + i) ])
    found none e = tt
    found (some i) e = omega (arith, find-le (drop start line) p i e, length-drop start line)

else_if_parenthesis-Inside : (line : Text) → Inside line (else_if_parenthesis line)
unfolding else_if_parenthesis
else_if_parenthesis-Inside line = found (find line (codes "else if"))
  where
    found : (o : Option ℕ) → Inside line (o >>= λ start. find_from line (codes "(") start)
    found none = tt
    found (some start) = find_from-Inside line (codes "(") start (omega arith)

module _ {ℓ} {S : Type ℓ} (error : ErrorHandler S) (filename : Text) where
  check_sides-IsSome :
      (linenum : ℕ) (brace_on_left : Bool) (place : Place) (s : S)
      → IsSome (check_sides error filename linenum brace_on_left (some place) s)
  unfolding check_sides
  check_sides-IsSome linenum brace_on_left place s =
      let t = one_side error filename linenum s in
      if-holds IsSome (differ brace_on_left (contains (slice_from place.line place.at) (codes "{")))
        (some t) (some s) (t, refl) (s, refl)

  check_else_if-IsSome :
      (elided : List Text) (linenum : ℕ) (line : Text) (brace_on_left : Bool) (o : Option ℕ) (s : S)
      → get_elem? elided linenum ≡ some line
      → Inside line o
      → IsSome (check_else_if error filename elided linenum brace_on_left o s)
  unfolding check_else_if
  check_else_if-IsSome elided linenum line brace_on_left none s e h = (s, refl)
  check_else_if-IsSome elided linenum line brace_on_left (some paren) s e h =
      let (place, q, on) = close_expression-some elided linenum paren line e h in
      if-holds IsSome (ltb 0 paren)
        (check_sides error filename linenum brace_on_left (close_expression elided linenum paren) s)
        (some s) (rw q (check_sides-IsSome linenum brace_on_left place s)) (s, refl)

  check_else_braces-IsSome :
      (elided : List Text) (linenum : ℕ) (line : Text) (s : S)
      → get_elem? elided linenum ≡ some line
      → IsSome (check_else_braces error filename elided linenum line s)
  unfolding check_else_braces
  check_else_braces-IsSome elided linenum line s e =
      let t = one_side error filename linenum s in
      let one_sided = occurs brace_on_left_only line || matches brace_on_right_only line in
      if-holds IsSome (occurs else_if line)
        (check_else_if error filename elided linenum (occurs brace_else_if line)
          (else_if_parenthesis line) s)
        (if one_sided then some t else some s)
        (check_else_if-IsSome elided linenum line (occurs brace_else_if line)
          (else_if_parenthesis line) s e (else_if_parenthesis-Inside line))
        (if-holds IsSome one_sided (some t) (some s) (t, refl) (s, refl))

  -- On every line of a file CheckBraces returns: it reads no line behind the last one, neither at the end
  -- of a condition nor behind the first semicolon, and CloseExpression is called with columns of the line.
  pub check_braces-IsSome :
      (unicode : UnicodeData) (line_length : ℤ) (elided : List Text) (linenum : ℕ) (line : Text)
      (s : S)
      → get_elem? elided linenum ≡ some line
      → IsSome (check_braces error filename unicode line_length elided linenum s)
  unfolding check_braces
  check_braces-IsSome unicode line_length elided linenum line s e =
      let prevline = (get_previous_non_blank_line elided linenum).0 in
      let before = λ (t : Text).
        check_else_line error filename linenum t prevline
          (check_lone_brace error filename unicode line_length linenum t prevline s) in
      let after = λ (t : Text) (u : S).
        check_bodies error filename elided linenum (check_clauses error filename linenum t u) in
      bind-IsSome (get_elem? elided linenum)
        (λ t. check_else_braces error filename elided linenum t (before t) >>= after t) (line, e)
        (λ t q.
          bind-IsSome (check_else_braces error filename elided linenum t (before t)) (after t)
            (check_else_braces-IsSome elided linenum t (before t) q)
            (λ u k.
              check_bodies-IsSome error filename elided linenum t
                (check_clauses error filename linenum t u) q))
