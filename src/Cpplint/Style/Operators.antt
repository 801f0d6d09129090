-- ===== src/Cpplint/Style/Operators.antt =====
-- CheckOperatorSpacing of tools/cpplint/cpplint.py.
pub mod Masking
pub mod Total
use cppecho.Prelude.{
  ℕ, zero, suc, ◌+◌, Bool, false, not, ◌&&◌, ◌||◌, List, [], ◌∷◌, ◌++◌, Option, none, some, ◌==◌,
  if◌then◌else◌, length, get_elem?, map, all, leb, ◌>>=◌,
}
use cppecho.Python.Str.{Text, codes, text_eq, is_space}
use cppecho.Python.Regex.{
  Regex, Found, star, plus, space, non_space, is_digit, opt, lit, bol, eol, dot, boundary, group,
  set, is_word, ◌▹◌, ◌∣∣◌, re_match, re_search, group_text, matches, occurs,
}
use cppecho.Cpplint.Report.{ErrorHandler}
use cppecho.Cpplint.Expression.{Place, close_expression, reverse_close_expression}

-- ^(.*\boperator\b)(\S+)(\s*\(.*)$
abbrev pub operator_method : Regex
operator_method =
    bol
    ▹ group 1 (star dot ▹ boundary ▹ lit "operator" ▹ boundary)
    ▹ group 2 (plus non_space)
    ▹ group 3 (star space ▹ lit "(" ▹ star dot)
    ▹ eol

-- The line with the operator of the match replaced
unfoldable pub mask_operator : Found → Text
unfolding group_text
mask_operator m = group_text m 1 ++ map (λ c. b'_') (group_text m 2) ++ group_text m 3

-- The loop that replaces operators, on fuel
unfoldable pub mask_loop : ℕ → Text → Option Text
unfolding mask_operator
mask_loop zero line = none
mask_loop (suc fuel) line = elim (re_match operator_method line) [
  | none ↦ some line
  | some m ↦ mask_loop fuel (mask_operator m)
]

-- The line without the operators of operator methods
unfoldable pub mask_operators : Text → Option Text
unfolding mask_loop
mask_operators line = mask_loop (length line + 1) line

-- [\w.]= and =[\w.]
abbrev pub word_or_dot : Regex
word_or_dot = set (λ c. is_word c || c == b'.')

abbrev pub no_space_at_assignment : Regex
no_space_at_assignment = word_or_dot ▹ lit "=" ∣∣ lit "=" ▹ word_or_dot

-- \b(if|while|for) (and a space)
abbrev pub condition : Regex
condition = boundary ▹ group 1 (lit "if" ∣∣ lit "while" ∣∣ lit "for") ▹ lit " "

-- (>=|<=|==|!=|&=|\^=|\|=|\+=|\*=|\/=|\%=)
abbrev pub operator_with_equals : Regex
operator_with_equals = group 1 (
    lit ">="
    ∣∣ lit "<="
    ∣∣ lit "=="
    ∣∣ lit "!="
    ∣∣ lit "&="
    ∣∣ lit "^="
    ∣∣ lit "|="
    ∣∣ lit "+="
    ∣∣ lit "*="
    ∣∣ lit "/="
    ∣∣ lit "%=")

-- [^<>=!\s](==|!=|<=|>=|\|\|)[^<>=!\s,;\)]
abbrev pub comparison : Regex
comparison =
    set (λ c. not (c == b'<' || c == b'>' || c == b'=' || c == b'!' || is_space c))
    ▹ group 1 (lit "==" ∣∣ lit "!=" ∣∣ lit "<=" ∣∣ lit ">=" ∣∣ lit "||")
    ▹ set (λ c. not (
        c == b'<'
        || c == b'>'
        || c == b'='
        || c == b'!'
        || is_space c
        || c == b','
        || c == b';'
        || c == b')'))

-- #.*include
abbrev pub include_line : Regex
include_line = lit "#" ▹ star dot ▹ lit "include"

-- ^(.*[^\s<])<[^\s=<,]
abbrev pub less_than : Regex
less_than =
    bol
    ▹ group 1 (star dot ▹ set (λ c. not (is_space c || c == b'<')))
    ▹ lit "<"
    ▹ set (λ c. not (is_space c || c == b'=' || c == b'<' || c == b','))

-- ^(.*[^-\s>])>[^\s=>,]
abbrev pub greater_than : Regex
greater_than =
    bol
    ▹ group 1 (star dot ▹ set (λ c. not (c == b'-' || is_space c || c == b'>')))
    ▹ lit ">"
    ▹ set (λ c. not (is_space c || c == b'=' || c == b'>' || c == b','))

-- (operator|[^\s(<])(?:L|UL|LL|ULL|l|ul|ll|ull)?<<([^\s,=<])
abbrev pub shift_left : Regex
shift_left =
    group 1 (lit "operator" ∣∣ set (λ c. not (is_space c || c == b'(' || c == b'<')))
    ▹ opt (
        lit "L"
        ∣∣ lit "UL"
        ∣∣ lit "LL"
        ∣∣ lit "ULL"
        ∣∣ lit "l"
        ∣∣ lit "ul"
        ∣∣ lit "ll"
        ∣∣ lit "ull")
    ▹ lit "<<"
    ▹ group 2 (set (λ c. not (is_space c || c == b',' || c == b'=' || c == b'<')))

-- >>[a-zA-Z_]
abbrev pub shift_right : Regex
shift_right =
    lit ">>" ▹ set (λ c. leb b'a' c && leb c b'z' || leb b'A' c && leb c b'Z' || c == b'_')

-- (!\s|~\s|[\s]--[\s;]|[\s]\+\+[\s;])
abbrev pub space_or_semicolon : Regex
space_or_semicolon = set (λ c. is_space c || c == b';')

abbrev pub spaced_unary : Regex
spaced_unary = group 1 (
    lit "!" ▹ space
    ∣∣ lit "~" ▹ space
    ∣∣ space ▹ lit "--" ▹ space_or_semicolon
    ∣∣ space ▹ lit "++" ▹ space_or_semicolon)

-- `isdigit`, for ASCII digits
is_digits : Text → Bool
is_digits [] = false
is_digits (c ∷ s) = all is_digit (c ∷ s)

-- Whether a match of `<<` is allowed
unfoldable pub is_allowed_shift : Text → Text → Bool
unfolding is_digits text_eq
is_allowed_shift left right =
    is_digits left && is_digits right
    || text_eq left (codes "operator") && text_eq right (codes ";")

module _ {ℓ} {S : Type ℓ} (error : ErrorHandler S) (filename : Text) where
  abbrev operators : ℕ → ℕ → Text → S → S
  operators linenum confidence message s =
      error filename linenum (codes "whitespace/operators") confidence message s

  check_assignment : ℕ → Text → S → S
  check_assignment linenum line s =
      if occurs no_space_at_assignment line
        && not (occurs condition line)
        && not (occurs operator_with_equals line)
        && not (occurs (lit "operator=") line)
      then operators linenum 4 (codes "Missing spaces around =") s
      else s

  -- The report if no other bracket belongs to the one at the match
  unless_closed : ℕ → Text → Option Place → S → Option S
  unless_closed linenum message none s = none
  unless_closed linenum message (some place) s =
      some (elim place.at [ none ↦ operators linenum 3 message s | some end_pos ↦ s ])

  check_less : List Text → ℕ → Option Found → S → Option S
  unfolding unless_closed close_expression group_text
  check_less elided linenum none s = some s
  check_less elided linenum (some m) s =
      unless_closed linenum (codes "Missing spaces around <")
        (close_expression elided linenum (length (group_text m 1))) s

  check_greater : List Text → ℕ → Option Found → S → Option S
  unfolding unless_closed reverse_close_expression group_text
  check_greater elided linenum none s = some s
  check_greater elided linenum (some m) s =
      unless_closed linenum (codes "Missing spaces around >")
        (reverse_close_expression elided linenum (length (group_text m 1))) s

  check_comparison : List Text → ℕ → Text → Option Found → S → Option S
  unfolding check_less check_greater group_text
  check_comparison elided linenum line (some m) s =
      some (operators linenum 3 (codes "Missing spaces around " ++ group_text m 1) s)
  check_comparison elided linenum line none s =
      if matches include_line line
      then some s
      else check_less elided linenum (re_match less_than line) s
        >>= check_greater elided linenum (re_match greater_than line)

  check_shift_left : ℕ → Option Found → S → S
  unfolding is_allowed_shift group_text
  check_shift_left linenum none s = s
  check_shift_left linenum (some m) s =
      if is_allowed_shift (group_text m 1) (group_text m 2)
      then s
      else operators linenum 3 (codes "Missing spaces around <<") s

  check_shift_right : ℕ → Text → S → S
  check_shift_right linenum line s =
      if occurs shift_right line
      then operators linenum 3 (codes "Missing spaces around >>") s
      else s

  check_unary : ℕ → Option Found → S → S
  unfolding group_text
  check_unary linenum none s = s
  check_unary linenum (some m) s =
      operators linenum 4 (codes "Extra space for operator " ++ group_text m 1) s

  -- The checks of the line without the operators of operator methods
  unfoldable pub check_masked : List Text → ℕ → Text → S → Option S
  unfolding check_assignment check_comparison check_shift_left check_shift_right check_unary
  check_masked elided linenum line s =
      check_comparison elided linenum line (re_search comparison line)
        (check_assignment linenum line s)
      >>= λ t. some (
          check_unary linenum (re_search spaced_unary line) (
            check_shift_right linenum line
              (check_shift_left linenum (re_search shift_left line) t)))

  -- CheckOperatorSpacing; none is an IndexError.
  unfoldable pub check_operator_spacing : List Text → ℕ → S → Option S
  unfolding mask_operators check_masked
  check_operator_spacing elided linenum s =
      (get_elem? elided linenum >>= mask_operators) >>= λ line. check_masked elided linenum line s
