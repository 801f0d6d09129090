-- ===== src/Cpplint/Style/Operators/Total.antt =====
-- About the loop and the columns of CheckOperatorSpacing of tools/cpplint/cpplint.py.
use cppecho.Prelude.{
  ℕ, ◌≤◌, ◌<◌, ◌≡◌, refl, List, Option, none, some, arith, length, get_elem?, if-holds, IsSome,
  bind-IsSome, ◌>>=◌, ◌==◌, not, ◌||◌,
}
use cppecho.Python.Str.{Text, codes, is_space}
use cppecho.Python.Regex.{Found, re_match, re_search, group_text, dot, lit, matches, set, star, ◌▹◌}
use cppecho.Python.Regex.Within.{first_group}
use cppecho.Cpplint.Report.{ErrorHandler}
use cppecho.Cpplint.Expression.{Place}
use cppecho.Cpplint.Expression.Positions.{close_expression-some, reverse_close_expression-some}
use cppecho.Cpplint.Style.Operators.{
  comparison, include_line, less_than, greater_than, unless_closed, check_less, check_greater,
  check_comparison, check_masked, check_operator_spacing, check_assignment, check_shift_left,
  check_shift_right, check_unary, shift_left, spaced_unary,
}
use cppecho.Cpplint.Style.Operators.Masking.{mask_operators-IsMasked}

less_than-inside :
    (line : Text) (m : Found)
    → re_match less_than line ≡ some m
    → length (group_text m 1) < length line
less_than-inside line m h = omega (
  arith,
  first_group (star dot ▹ set (λ c. not (is_space c || c == b'<')))
      (lit "<" ▹ set (λ c. not (is_space c || c == b'=' || c == b'<' || c == b','))) (tt, tt)
      (tt, tt) line m h,
)

greater_than-inside :
    (line : Text) (m : Found)
    → re_match greater_than line ≡ some m
    → length (group_text m 1) < length line
greater_than-inside line m h = omega (
  arith,
  first_group (star dot ▹ set (λ c. not (c == b'-' || is_space c || c == b'>')))
      (lit ">" ▹ set (λ c. not (is_space c || c == b'=' || c == b'>' || c == b','))) (tt, tt)
      (tt, tt) line m h,
)

-- The masked line is not longer than the line of the file.
module _ {ℓ} {S : Type ℓ} (error : ErrorHandler S) (filename : Text) (elided : List Text)
    (linenum : ℕ) (line masked : Text) (on_line : get_elem? elided linenum ≡ some line)
    (short : length masked ≤ length line) where
  unless_closed-IsSome :
      (message : Text) (place : Place) (s : S)
      → IsSome (unless_closed error filename linenum message (some place) s)
  unfolding unless_closed
  unless_closed-IsSome message place s = (_, refl)

  check_less-IsSome :
      (o : Option Found) (s : S)
      → re_match less_than masked ≡ o
      → IsSome (check_less error filename elided linenum o s)
  unfolding check_less
  check_less-IsSome none s h = (s, refl)
  check_less-IsSome (some m) s h =
      let (place, q, on) =
        close_expression-some elided linenum (length (group_text m 1)) line on_line
          (omega (arith, less_than-inside masked m h)) in
      rw q (unless_closed-IsSome (codes "Missing spaces around <") place s)

  check_greater-IsSome :
      (o : Option Found) (s : S)
      → re_match greater_than masked ≡ o
      → IsSome (check_greater error filename elided linenum o s)
  unfolding check_greater
  check_greater-IsSome none s h = (s, refl)
  check_greater-IsSome (some m) s h =
      let (place, q) =
        reverse_close_expression-some elided linenum (length (group_text m 1)) line on_line
          (omega (arith, greater_than-inside masked m h)) in
      rw q (unless_closed-IsSome (codes "Missing spaces around >") place s)

  check_comparison-IsSome :
      (o : Option Found) (s : S)
      → IsSome (check_comparison error filename elided linenum masked o s)
  unfolding check_comparison
  check_comparison-IsSome (some m) s = (_, refl)
  check_comparison-IsSome none s =
      let less = check_less error filename elided linenum (re_match less_than masked) s in
      let greater = check_greater error filename elided linenum (re_match greater_than masked) in
      if-holds IsSome (matches include_line masked) (some s) (less >>= greater) (s, refl)
        (bind-IsSome less greater (check_less-IsSome (re_match less_than masked) s refl)
          (λ t e. check_greater-IsSome (re_match greater_than masked) t refl))

  check_masked-IsSome : (s : S) → IsSome (check_masked error filename elided linenum masked s)
  unfolding check_masked
  check_masked-IsSome s =
      let first = check_assignment error filename linenum masked s in
      let o = re_search comparison masked in
      bind-IsSome (check_comparison error filename elided linenum masked o first)
        (λ t. some (
          check_unary error filename linenum (re_search spaced_unary masked) (
            check_shift_right error filename linenum masked
              (check_shift_left error filename linenum (re_search shift_left masked) t))))
        (check_comparison-IsSome o first) (λ t e. (_, refl))

module _ {ℓ} {S : Type ℓ} (error : ErrorHandler S) (filename : Text) where
  -- On every line of a file CheckOperatorSpacing returns: the loop that masks the symbols of operator
  -- methods ends, and CloseExpression and ReverseCloseExpression, which are called with columns of the
  -- masked line, read no character behind the end of the line.
  pub check_operator_spacing-IsSome :
      (elided : List Text) (linenum : ℕ) (line : Text) (s : S)
      → get_elem? elided linenum ≡ some line
      → IsSome (check_operator_spacing error filename elided linenum s)
  unfolding check_operator_spacing
  check_operator_spacing-IsSome elided linenum line s e =
      let (masked, q, short, _) = mask_operators-IsMasked line in
      rw (e, q) (check_masked-IsSome error filename elided linenum line masked e short s)
