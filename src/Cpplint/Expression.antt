-- ===== src/Cpplint/Expression.antt =====
-- The bracket matching of tools/cpplint/cpplint.py over cleansed lines: CloseExpression,
-- ReverseCloseExpression and the scans of one line. A stack has its top in front; the source's has it
-- at the end.
mod Tests
pub mod Forward
pub mod Backward
pub mod Further
pub mod Positions
use cppecho.Prelude.{
  ℕ, zero, suc, ◌+◌, ◌-◌, Bool, true, false, not, ◌&&◌, ◌||◌, List, [], ◌∷◌, ◌++◌, Option, none,
  some, ltb, ◌==◌, if◌then◌else◌, length, get_elem?, get_or, take, drop, any,
}
use cppecho.Python.Str.{Text, codes}
use cppecho.Python.Regex.{Regex, boundary, lit, star, space, eol, one_of, ◌▹◌, matches, occurs}

-- `char in '…'` for one character
abbrev pub is_in : ℕ → Text → Bool
is_in c s = any (λ d. c == d) s

-- The result of a scan: a position and None, -1 and None, or -1 and the stack.
pub data Scan : Type 0 where
  closed : ℕ → Scan
  failed : Scan
  unclosed : Text → Scan

-- What one character does: go on with a stack, go on one character further, or return.
pub data Turn : Type 0 where
  go : Text → Turn
  skip : Text → Turn
  stop : Scan → Turn

-- \boperator\s*$
abbrev pub operator_at_end : Regex
operator_at_end = boundary ▹ lit "operator" ▹ star space ▹ eol

-- `while stack and stack[-1] == c: stack.pop()`
pub pop_all : ℕ → Text → Text
pop_all c [] = []
pop_all c (d ∷ s) = if d == c then pop_all c s else d ∷ s

-- After a pop that may return.
abbrev popped : Scan → Text → Turn
popped result [] = stop result
popped result (d ∷ s) = go (d ∷ s)

-- `if not stack: return (-1, None)`
abbrev or_failed : Text → Turn
or_failed [] = stop failed
or_failed (d ∷ s) = go (d ∷ s)

-- `if stack and stack[-1] == c: stack.pop(); if not stack: return result`
abbrev pop_if : ℕ → Scan → Text → Turn
pop_if c result [] = go []
pop_if c result (d ∷ s) = if d == c then popped result s else go (d ∷ s)

-- The three pairs of brackets that always count.
abbrev pub pairs : ℕ → ℕ → Bool
pairs opening closing =
    opening == b'(' && closing == b')'
    || opening == b'[' && closing == b']'
    || opening == b'{' && closing == b'}'

-- A closing bracket on a stack of opening ones, or the other way round.
abbrev pop_pair : (ℕ → Bool) → Scan → Text → Turn
pop_pair fits result [] = stop failed
pop_pair fits result (d ∷ s) = if fits d then popped result s else stop failed

pub before : Text → ℕ → ℕ
before line i = get_or line (i - 1) 0

-- One round of FindEndOfExpressionInLine, at `char = line[i]`.
pub end_turn : Text → ℕ → ℕ → Text → Turn
unfolding pop_all before
end_turn line i char stack =
    if is_in char (codes "([{")
    then go (char ∷ stack)
    else if char == b'<'
    then (if ltb 0 i && before line i == b'<'
        then pop_if b'<' failed stack
        else if ltb 0 i && occurs operator_at_end (take i line)
        then go stack
        else go (b'<' ∷ stack))
    else if is_in char (codes ")]}")
    then pop_pair (λ d. pairs d char) (closed (i + 1)) (pop_all b'<' stack)
    else if char == b'>'
    then (if ltb 0 i && (before line i == b'-' || occurs operator_at_end (take (i - 1) line))
        then go stack
        else pop_if b'<' (closed (i + 1)) stack)
    else if char == b';'
    then or_failed (pop_all b'<' stack)
    else go stack

-- The loop, over what is left of the line from `i`.
end_scan : Text → Text → ℕ → Text → Scan
unfolding end_turn
end_scan line [] i stack = unclosed stack
end_scan line (char ∷ rest) i stack = elim (end_turn line i char stack) [
  | go s ↦ end_scan line rest (i + 1) s
  | skip s ↦ end_scan line rest (i + 1) s
  | stop result ↦ result
]

-- FindEndOfExpressionInLine
unfoldable pub find_end_of_expression_in_line : Text → ℕ → Text → Scan
unfolding end_scan
find_end_of_expression_in_line line startpos stack =
    end_scan line (drop startpos line) startpos stack

-- A line, its number, and a position on it, none for -1.
pub record Place : Type 0 where
  pub line : Text
  pub linenum : ℕ
  pub at : Option ℕ

-- The loop over the lines below `linenum`; `total` is NumLines().
close_forward : ℕ → Text → ℕ → List Text → Scan → Place
unfolding find_end_of_expression_in_line
close_forward total line linenum below (closed p) = record {
  line = line;
  linenum = linenum;
  at = some p;
}
close_forward total line linenum below failed = record { line = line; linenum = total; at = none }
close_forward total line linenum below (unclosed []) = record {
  line = line;
  linenum = total;
  at = none;
}
close_forward total line linenum [] (unclosed (c ∷ s)) = record {
  line = line;
  linenum = total;
  at = none;
}
close_forward total line linenum (next ∷ below) (unclosed (c ∷ s)) =
    close_forward total next (linenum + 1) below (find_end_of_expression_in_line next 0 (c ∷ s))

-- <[<=]
abbrev pub shift_or_le : Regex
shift_or_le = lit "<" ▹ one_of "<="

pub close_at : List Text → ℕ → ℕ → Text → Option ℕ → Option Place
unfolding close_forward
close_at elided linenum pos line none = none
close_at elided linenum pos line (some char) =
    if not (is_in char (codes "({[<")) || matches shift_or_le (drop pos line)
    then some (record { line = line; linenum = length elided; at = none })
    else some (
        close_forward (length elided) line linenum (drop (linenum + 1) elided)
          (find_end_of_expression_in_line line pos []))

-- CloseExpression over `clean_lines.elided`; none is an IndexError.
unfoldable pub close_expression : List Text → ℕ → ℕ → Option Place
unfolding close_at
close_expression elided linenum pos = elim (get_elem? elided linenum) [
  | none ↦ none
  | some line ↦ close_at elided linenum pos line (get_elem? line pos)
]

-- \s>=\s
abbrev pub spaced_ge : Regex
spaced_ge = space ▹ lit ">=" ▹ space

-- One round of FindStartOfExpressionInLine, at `char = line[i]`.
pub start_turn : Text → ℕ → ℕ → Text → Turn
unfolding pop_all before
start_turn line i char stack =
    if is_in char (codes ")]}")
    then go (char ∷ stack)
    else if char == b'>'
    then (if ltb 0 i
          && (before line i == b'-'
              || matches spaced_ge (drop (i - 1) line)
              || occurs operator_at_end (take i line))
        then skip stack
        else go (b'>' ∷ stack))
    else if char == b'<'
    then (if ltb 0 i && before line i == b'<' then skip stack else pop_if b'>' (closed i) stack)
    else if is_in char (codes "([{")
    then pop_pair (λ d. pairs char d) (closed i) (pop_all b'>' stack)
    else if char == b';'
    then or_failed (pop_all b'>' stack)
    else go stack

-- The loop; the first argument is one more than the index `i` of the source.
start_scan : ℕ → Text → Text → Scan
unfolding start_turn
start_scan zero line stack = unclosed stack
start_scan (suc zero) line stack = elim (start_turn line 0 (get_or line 0 0) stack) [
  | go s ↦ unclosed s
  | skip s ↦ unclosed s
  | stop result ↦ result
]
start_scan (suc (suc i)) line stack = elim (start_turn line (suc i) (get_or line (suc i) 0) stack) [
  | go s ↦ start_scan (suc i) line s
  | skip s ↦ start_scan i line s
  | stop result ↦ result
]

-- FindStartOfExpressionInLine, for an `endpos` of the line; `count` is `endpos + 1`.
unfoldable pub find_start_of_expression_in_line : Text → ℕ → Text → Scan
unfolding start_scan
find_start_of_expression_in_line line count stack = start_scan count line stack

-- The loop over the lines above `linenum`.
close_backward : List Text → ℕ → Text → Scan → Place
unfolding find_start_of_expression_in_line
close_backward elided linenum line (closed p) = record {
  line = line;
  linenum = linenum;
  at = some p;
}
close_backward elided linenum line failed = record { line = line; linenum = 0; at = none }
close_backward elided linenum line (unclosed []) = record { line = line; linenum = 0; at = none }
close_backward elided zero line (unclosed (c ∷ s)) = record { line = line; linenum = 0; at = none }
close_backward elided (suc n) line (unclosed (c ∷ s)) =
    let above = get_or elided n [] in
    close_backward elided n above (find_start_of_expression_in_line above (length above) (c ∷ s))

pub reverse_at : List Text → ℕ → ℕ → Text → Option ℕ → Option Place
unfolding close_backward
reverse_at elided linenum pos line none = none
reverse_at elided linenum pos line (some char) =
    if not (is_in char (codes ")}]>"))
    then some (record { line = line; linenum = 0; at = none })
    else some
        (close_backward elided linenum line (find_start_of_expression_in_line line (pos + 1) []))

-- ReverseCloseExpression over `clean_lines.elided`; none is an IndexError.
unfoldable pub reverse_close_expression : List Text → ℕ → ℕ → Option Place
unfolding reverse_at
reverse_close_expression elided linenum pos = elim (get_elem? elided linenum) [
  | none ↦ none
  | some line ↦ reverse_at elided linenum pos line (get_elem? line pos)
]
