-- ===== src/Cpplint/Functions.antt =====
-- class _FunctionState and CheckForFunctionLengths of tools/cpplint/cpplint.py. The level is the one
-- that _VerboseLevel() answers, and the lines are clean_lines.lines.
mod Tests
pub mod Levels
pub mod Bodies
use cppecho.Prelude.{
  ℕ, zero, suc, ◌+◌, ◌-◌, ◌*◌, ◌/◌, ◌^◌, min, Bool, true, false, not, ◌&&◌, ◌||◌, List, [], ◌∷◌,
  ◌++◌, Option, none, some, ℤ, pos, negsuc, ltb, ◌==◌, if◌then◌else◌, drop, get_elem?, ◌>>=◌,
}
use cppecho.Python.Str.{Text, codes, text_eq, decimal, words, lstrip_by, is_unicode_space}
use cppecho.Python.Regex.{
  Regex, Found, set, star, plus, space, word, lit, bol, eol, dot, group, one_of, is_word, ◌▹◌, ◌∣∣◌,
  re_match, re_search, group_text, matches, occurs,
}
use cppecho.Cpplint.Report.{ErrorHandler}

pub record FunctionState : Type 0 where
  pub in_a_function : Bool
  pub lines_in_function : ℕ
  pub current_function : Text

-- __init__
abbrev pub init : FunctionState
init = record { in_a_function = false; lines_in_function = 0; current_function = [] }

-- Begin
unfoldable pub begin : Text → FunctionState → FunctionState
begin function_name f = record {
  in_a_function = true;
  lines_in_function = 0;
  current_function = function_name;
}

-- Count
unfoldable pub count_line : FunctionState → FunctionState
count_line f =
    if f.in_a_function then record f { lines_in_function = f.lines_in_function + 1 } else f

-- End
unfoldable pub end : FunctionState → FunctionState
end f = record f { in_a_function = false }

-- T(EST|est)
abbrev pub test_name : Regex
test_name = lit "T" ▹ group 1 (lit "EST" ∣∣ lit "est")

-- _TEST_TRIGGER and _NORMAL_TRIGGER
unfoldable pub base_trigger : Text → ℕ
base_trigger current_function = if matches test_name current_function then 400 else 250

-- Whether there are more lines than `base * 2**level`, and `'%d'` of that number. The power is a
-- fraction for a negative level.
unfoldable pub exceeds : ℕ → ℕ → ℤ → Bool
exceeds lines base (pos v) = ltb (base * 2 ^ v) lines
exceeds lines base (negsuc v) = ltb base (lines * 2 ^ (v + 1))

unfoldable pub shown_trigger : ℕ → ℤ → ℕ
shown_trigger base (pos v) = base * 2 ^ v
shown_trigger base (negsuc v) = base / 2 ^ (v + 1)

-- `int(math.log(n, 2))`; each round halves the number.
log_2 : ℕ → ℕ → ℕ
log_2 zero n = 0
log_2 (suc fuel) n = let more = log_2 fuel (n / 2) in if ltb n 2 then 0 else more + 1

-- The level of the error, with none for the ValueError that math.log raises on zero.
unfoldable pub error_level : ℕ → ℕ → Option ℕ
unfolding log_2
error_level lines base = let n = lines / base in if n == 0 then none else some (min (log_2 n n) 5)

unfoldable pub size_message : FunctionState → ℕ → Text
unfolding decimal
size_message f trigger =
    codes "Small and focused functions are preferred: "
    ++ f.current_function
    ++ codes " has "
    ++ decimal f.lines_in_function
    ++ codes " non-comment lines (error triggered by exceeding "
    ++ decimal trigger
    ++ codes " lines)."

-- (\w(\w|::|\*|\&|\s)*)\(
abbrev pub starting_pattern : Regex
starting_pattern =
    group 1 (word ▹ star (group 2 (word ∣∣ lit "::" ∣∣ lit "*" ∣∣ lit "&" ∣∣ space))) ▹ lit "("

-- [A-Z_]+$
abbrev pub macro_name : Regex
macro_name = plus (one_of "ABCDEFGHIJKLMNOPQRSTUVWXYZ_") ▹ eol

-- ^\}\s*$
abbrev pub function_end : Regex
function_end = bol ▹ lit "}" ▹ star space ▹ eol

-- ^\s*$
abbrev pub blank : Regex
blank = bol ▹ star space ▹ eol

-- ((\w|:)*)\(
abbrev pub name_pattern : Regex
name_pattern = group 1 (star (group 2 (word ∣∣ lit ":"))) ▹ lit "("

-- (\(.*\))
abbrev pub parameter_pattern : Regex
parameter_pattern = group 1 (lit "(" ▹ star dot ▹ lit ")")

last_word : List Text → Text
last_word [] = []
last_word (w ∷ []) = w
last_word (w ∷ v ∷ ws) = last_word (v ∷ ws)

starts_at : Option Found → Bool
unfolding last_word words group_text text_eq
starts_at none = false
starts_at (some m) =
    let function_name = last_word (words (group_text m 1)) in
    text_eq function_name (codes "TEST")
    || text_eq function_name (codes "TEST_F")
    || not (matches macro_name function_name)

-- `starting_func`
unfoldable pub is_start : Text → Bool
unfolding starts_at
is_start line = starts_at (re_match starting_pattern line)

or_nothing : Option Found → Text
unfolding group_text
or_nothing none = []
or_nothing (some m) = group_text m 1

-- The name that Begin is given: the search succeeds, since the line has a parenthesis, and the one for
-- parameters adds nothing when it fails.
unfoldable pub function_of : Text → Text → Text
unfolding or_nothing
function_of line joined_line =
    let function = or_nothing (re_search name_pattern line) in
    if matches (lit "TEST") function
    then function ++ or_nothing (re_search parameter_pattern joined_line)
    else function ++ codes "()"

-- What the search for a body finds: nothing, a declaration or a trivial function, or a body.
pub data Body : Type 0 where
  missing trivial : Body
  body_of : Text → Body

-- The loop over the lines from `linenum` on.
find_body : Text → Text → List Text → Body
unfolding function_of lstrip_by
find_body line joined_line [] = missing
find_body line joined_line (start_line ∷ below) =
    let joined = joined_line ++ codes " " ++ lstrip_by is_unicode_space start_line in
    if occurs (one_of ";}") start_line
    then trivial
    else if occurs (lit "{") start_line
    then body_of (function_of line joined)
    else find_body line joined below

module _ {ℓ} {S : Type ℓ} (error : ErrorHandler S) (filename : Text) where
  report_size : ℕ → ℕ → FunctionState → S → Option ℕ → Option S
  unfolding size_message
  report_size linenum trigger f s none = none
  report_size linenum trigger f s (some level) =
      some (error filename linenum (codes "readability/fn_size") level (size_message f trigger) s)

  -- Check; none is a ValueError.
  unfoldable pub check : ℕ → ℤ → FunctionState → S → Option S
  unfolding report_size exceeds shown_trigger error_level base_trigger
  check linenum level f s =
      let base = base_trigger f.current_function in
      if not f.in_a_function || not (exceeds f.lines_in_function base level)
      then some s
      else report_size linenum (shown_trigger base level) f s (error_level f.lines_in_function base)

  enter : ℕ → FunctionState → S → Body → FunctionState × S
  unfolding begin
  enter linenum f s missing = (
    f,
    error filename linenum (codes "readability/fn_size") 5
        (codes "Lint failed to find start of function body.") s,
  )
  enter linenum f s trivial = (f, s)
  enter linenum f s (body_of name) = (begin name f, s)

  -- The branches on one line.
  length_step : List Text → ℕ → ℤ → FunctionState → S → Text → Option (FunctionState × S)
  unfolding is_start check enter find_body end count_line
  length_step lines linenum level f s line =
      if is_start line
      then some (enter linenum f s (find_body line [] (drop linenum lines)))
      else if matches function_end line
      then (elim (check linenum level f s) [ none ↦ none | some t ↦ some (end f, t) ])
      else if matches blank line
      then some (f, s)
      else some (count_line f, s)

  -- CheckForFunctionLengths; none is an IndexError, or the ValueError of Check.
  unfoldable pub check_for_function_lengths :
      List Text → ℕ → ℤ → FunctionState → S → Option (FunctionState × S)
  unfolding length_step
  check_for_function_lengths lines linenum level f s = do
    line ← get_elem? lines linenum
    length_step lines linenum level f s line
