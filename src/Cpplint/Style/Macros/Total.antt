-- ===== src/Cpplint/Style/Macros/Total.antt =====
-- About the loop and the columns of CheckCheck of tools/cpplint/cpplint.py.
use cppecho.Prelude.{
  ℕ, ◌<◌, ◌≡◌, refl, List, [], ◌∷◌, Option, none, some, arith, length, get_elem?, drop, if-holds,
  IsSome, bind-IsSome, if◌then◌else◌, ◌>>=◌,
}
use cppecho.Python.Str.{Text, contains}
use cppecho.Python.Regex.{
  Found, re_match, group_text, boundary, dot, lit, matches, space, star, text, ◌▹◌,
}
use cppecho.Python.Regex.Within.{first_group, text-IsGroupFree}
use cppecho.Cpplint.Report.{ErrorHandler}
use cppecho.Cpplint.Expression.{Place, close_expression}
use cppecho.Cpplint.Expression.Positions.{close_expression-some}
use cppecho.Cpplint.Style.Macros.{
  Call, macro_call, find_in, find_check_macro, check_call, at_macro, check_check, inside_call,
  report_comparison, check_macros,
}
use cppecho.Cpplint.Style.Macros.Operands.{comparison_of}
use cppecho.Cpplint.Style.Macros.Ends.{comparison_of-IsSome}

-- The parenthesis of a call is on the line.
abbrev OnText : Text → Option Call → Type 0
OnText line none = Unit
OnText line (some call) = call.start_pos < length line

macro_call-OnText :
    (macro line : Text) (m : Found)
    → re_match (macro_call macro) line ≡ some m
    → length (group_text m 1) < length line
macro_call-OnText macro line m h = omega (
  arith,
  first_group (star dot ▹ boundary ▹ text macro ▹ star space) (lit "(")
      (tt, (tt, (text-IsGroupFree macro, tt))) tt line m h,
)

find_in-OnText : (macros : List Text) (line : Text) → OnText line (find_in macros line)
unfolding find_in
find_in-OnText [] line = tt
find_in-OnText (macro ∷ macros) line =
    let below = find_in-OnText macros line in
    if-holds (OnText line) (contains line macro)
      (elim (re_match (macro_call macro) line) [
        | none ↦ find_in macros line
        | some matched ↦ some (record { macro = macro; start_pos = length (group_text matched 1) })
      ])
      (find_in macros line) (round (re_match (macro_call macro) line) refl below) below
  where
    round :
        (o : Option Found)
        → re_match (macro_call macro) line ≡ o
        → OnText line (find_in macros line)
        → OnText line (elim o [
          | none ↦ find_in macros line
          | some matched ↦
              some (record { macro = macro; start_pos = length (group_text matched 1) })
        ])
    round none e below = below
    round (some m) e below = macro_call-OnText macro line m e

find_check_macro-OnText : (line : Text) → OnText line (find_check_macro line)
unfolding find_check_macro
find_check_macro-OnText line = find_in-OnText check_macros line

module _ {ℓ} {S : Type ℓ} (error : ErrorHandler S) (filename : Text) where
  check_call-IsSome :
      (lines : List Text) (linenum : ℕ) (call : Call) (place : Place) (s : S)
      → IsSome (check_call error filename lines linenum call place s)
  unfolding check_call
  check_call-IsSome lines linenum call place s = at_end place.at
    where
      at_end :
          (o : Option ℕ)
          → IsSome (elim o [
            | none ↦ some s
            | some end_pos ↦
                if matches (star space ▹ lit ";") (drop end_pos place.line)
                then (comparison_of
                      (inside_call lines linenum call.start_pos place.linenum end_pos place.line)
                    >>= λ comparison.
                        some (report_comparison error filename linenum call.macro comparison s))
                else some s
          ])
      at_end none = (s, refl)
      at_end (some end_pos) =
          let expression =
            inside_call lines linenum call.start_pos place.linenum end_pos place.line in
          let report = report_comparison error filename linenum call.macro in
          if-holds IsSome (matches (star space ▹ lit ";") (drop end_pos place.line))
            (comparison_of expression >>= λ c. some (report c s)) (some s)
            (bind-IsSome (comparison_of expression) (λ c. some (report c s))
              (comparison_of-IsSome expression) (λ c e. (report c s, refl)))
            (s, refl)

  at_macro-IsSome :
      (lines : List Text) (linenum : ℕ) (line : Text) (o : Option Call) (s : S)
      → get_elem? lines linenum ≡ some line
      → OnText line o
      → IsSome (at_macro error filename lines linenum o s)
  unfolding at_macro
  at_macro-IsSome lines linenum line none s e h = (s, refl)
  at_macro-IsSome lines linenum line (some call) s e h =
      let (place, q, on) = close_expression-some lines linenum call.start_pos line e h in
      bind-IsSome (close_expression lines linenum call.start_pos)
        (λ place. check_call error filename lines linenum call place s) (place, q)
        (λ place q. check_call-IsSome lines linenum call place s)

  -- On every line of a file CheckCheck returns: the loop that takes the operands off the expression in the
  -- parentheses of a macro ends, and CloseExpression is called with a column of the line.
  pub check_check-IsSome :
      (lines : List Text) (linenum : ℕ) (line : Text) (s : S)
      → get_elem? lines linenum ≡ some line
      → IsSome (check_check error filename lines linenum s)
  unfolding check_check
  check_check-IsSome lines linenum line s e =
      bind-IsSome (get_elem? lines linenum)
        (λ t. at_macro error filename lines linenum (find_check_macro t) s) (line, e)
        (λ t q.
          at_macro-IsSome lines linenum t (find_check_macro t) s q (find_check_macro-OnText t))
