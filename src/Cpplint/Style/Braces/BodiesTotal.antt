-- ===== src/Cpplint/Style/Braces/BodiesTotal.antt =====
-- About the lines that the check of bodies without braces in CheckBraces of tools/cpplint/cpplint.py
-- reads.
use cppecho.Prelude.{
  ℕ, ◌+◌, ◌-◌, ◌≡◌, refl, Bool, List, [], Option, none, some, arith, length, get_elem?,
  get_elem?-IsSome, ◌<◌, true, false, ◌∷◌, inl, inr, Bool-cases, bind-IsSome, ltb, ◌&&◌, not,
  if◌then◌else◌, drop, length-drop, if-holds, IsSome, is_some, ◌>>=◌,
}
use cppecho.Python.Str.{Text, codes, contains, find}
use cppecho.Python.Regex.{Found, matches, re_search}
use cppecho.Python.Regex.Within.{re_search-Within}
use cppecho.Cpplint.Report.{ErrorHandler}
use cppecho.Cpplint.WholeFile.{get_indent_level}
use cppecho.Cpplint.Expression.{Place}
use cppecho.Cpplint.Expression.Positions.{close_expression-some}
use cppecho.Cpplint.Style.Width.{slice_from}
use cppecho.Cpplint.Style.Braces.Bodies.{
  if_or_else, if_start, preprocessor_line, body_start, has_opening_brace, statement_end,
  check_statement, check_body, check_indent, check_next_line, require_braces, find_semicolon,
  opening_brace, only_space, ends_statement, lambda_line, check_if_or_else, check_bodies,
}

body_start-IsSome :
    (elided : List Text) (linenum : ℕ) (line : Text) (m : Found) (o : Option Found)
    → get_elem? elided linenum ≡ some line
    → re_search if_start line ≡ o
    → IsSome (body_start elided linenum line m o)
unfolding body_start
body_start-IsSome elided linenum line m none e h = (_, refl)
body_start-IsSome elided linenum line m (some if_match) e h =
    let (low, high, size) = re_search-Within if_start line if_match h in
    let (place, q, on) =
      close_expression-some elided linenum (if_match.start + length if_match.whole - 1) line e
        (omega arith) in
    (place, q)

has_opening_brace-IsSome :
    (elided : List Text) (place : Place) → IsSome (has_opening_brace elided place)
unfolding has_opening_brace
has_opening_brace-IsSome elided place =
    let rest = slice_from place.line place.at in
    let next = get_elem? elided (place.linenum + 1) in
    if-holds IsSome (matches opening_brace rest) (some true)
      (if matches only_space rest && ltb (place.linenum + 1) (length elided)
        then (next >>= λ line. some (matches opening_brace line))
        else some false)
      (true, refl)
      (elim (Bool-cases (matches only_space rest && ltb (place.linenum + 1) (length elided))) [
        | inr e ↦ rw e (false, refl)
        | inl e ↦ rw e (
            bind-IsSome next (λ (line : Text). some (matches opening_brace line))
              (get_elem?-IsSome elided (place.linenum + 1) (ground arith)) (λ line q. (_, refl)))
      ])

-- The line number is that of a line of the file, if there is one.
abbrev OfFile : List Text → Option ℕ → Type 0
OfFile elided none = Unit
OfFile elided (some i) = i < length elided

find_semicolon-OfFile :
    (elided lines : List Text) (linenum : ℕ) (at : Option ℕ)
    → length lines ≡ length elided - linenum
    → OfFile elided (find_semicolon lines linenum at)
unfolding find_semicolon
find_semicolon-OfFile elided [] linenum at h = tt
find_semicolon-OfFile elided (line ∷ lines) linenum at h =
    if-holds (OfFile elided) (contains (slice_from line at) (codes ";")) (some linenum)
      (find_semicolon lines (linenum + 1) (some 0)) (omega arith)
      (find_semicolon-OfFile elided lines (linenum + 1) (some 0) (omega arith))

statement_end-OfFile :
    (elided : List Text) (place : Place) → OfFile elided (statement_end elided place)
unfolding statement_end
statement_end-OfFile elided place =
    find_semicolon-OfFile elided (drop place.linenum elided) place.linenum place.at
      (length-drop place.linenum elided)

module _ {ℓ} {S : Type ℓ} (error : ErrorHandler S) (filename : Text) where
  check_next_line-IsSome :
      (elided : List Text) (linenum : ℕ) (is_if : Bool) (if_indent endlinenum : ℕ) (s : S)
      → IsSome (check_next_line error filename elided linenum is_if if_indent endlinenum s)
  unfolding check_next_line
  check_next_line-IsSome elided linenum is_if if_indent endlinenum s =
      elim (Bool-cases (ltb (endlinenum + 1) (length elided))) [
        | inr e ↦ rw e (s, refl)
        | inl e ↦ rw e (
            bind-IsSome (get_elem? elided (endlinenum + 1))
              (λ (line : Text). some (check_indent error filename linenum is_if if_indent line s))
              (get_elem?-IsSome elided (endlinenum + 1) (ground arith)) (λ line q. (_, refl)))
      ]

  check_statement-IsSome :
      (elided : List Text) (linenum : ℕ) (is_if : Bool) (if_indent : ℕ) (o : Option ℕ) (s : S)
      → OfFile elided o
      → IsSome (check_statement error filename elided linenum is_if if_indent o s)
  unfolding check_statement
  check_statement-IsSome elided linenum is_if if_indent none s h = (s, refl)
  check_statement-IsSome elided linenum is_if if_indent (some endlinenum) s h =
      let (endline, e) = get_elem?-IsSome elided endlinenum h in
      rw e (
        if-holds IsSome
          (not (matches ends_statement (slice_from endline (find endline (codes ";")))))
          (if matches lambda_line endline
            then some s
            else some (require_braces error filename linenum s))
          (check_next_line error filename elided linenum is_if if_indent endlinenum s)
          (if-holds IsSome (matches lambda_line endline) (some s) (some _) (s, refl) (_, refl))
          (check_next_line-IsSome elided linenum is_if if_indent endlinenum s))

  check_body-IsSome :
      (elided : List Text) (linenum : ℕ) (is_if : Bool) (if_indent : ℕ) (o : Option Place) (s : S)
      → IsSome o
      → IsSome (check_body error filename elided linenum is_if if_indent o s)
  unfolding check_body
  check_body-IsSome elided linenum is_if if_indent none s (p, e) = absurd (cc)
  check_body-IsSome elided linenum is_if if_indent (some place) s h =
      let (opened, e) = has_opening_brace-IsSome elided place in
      let t =
        check_statement error filename elided linenum is_if if_indent (statement_end elided place)
          s in
      rw e (
        if-holds IsSome opened (some s) t (s, refl)
          (check_statement-IsSome elided linenum is_if if_indent (statement_end elided place) s
            (statement_end-OfFile elided place)))

  check_if_or_else-IsSome :
      (elided : List Text) (linenum : ℕ) (line : Text) (o : Option Found) (s : S)
      → get_elem? elided linenum ≡ some line
      → IsSome (check_if_or_else error filename elided linenum line o s)
  unfolding check_if_or_else
  check_if_or_else-IsSome elided linenum line none s e = (s, refl)
  check_if_or_else-IsSome elided linenum line (some m) s e =
      let o = re_search if_start line in
      let start = body_start elided linenum line m o in
      if-holds IsSome (matches preprocessor_line line) (some s)
        (check_body error filename elided linenum (is_some o) (get_indent_level line) start s)
        (s, refl)
        (check_body-IsSome elided linenum (is_some o) (get_indent_level line) start s
          (body_start-IsSome elided linenum line m o e refl))

  pub check_bodies-IsSome :
      (elided : List Text) (linenum : ℕ) (line : Text) (s : S)
      → get_elem? elided linenum ≡ some line
      → IsSome (check_bodies error filename elided linenum s)
  unfolding check_bodies
  check_bodies-IsSome elided linenum line s e =
      rw e (check_if_or_else-IsSome elided linenum line (re_search if_or_else line) s e)
