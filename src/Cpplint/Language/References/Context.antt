-- ===== src/Cpplint/Language/References/Context.antt =====
-- IsDerivedFunction, IsOutOfLineMethodDefinition and IsInitializerList of tools/cpplint/cpplint.py, over
-- `clean_lines.elided`.
use cppecho.Prelude.{
  ℕ, zero, suc, ◌+◌, ◌-◌, min, Bool, true, false, ◌&&◌, ◌||◌, List, [], Option, none, some, leb,
  ◌==◌, if◌then◌else◌, length, drop, get_or, ◌>>=◌,
}
use cppecho.Python.Str.{Text}
use cppecho.Python.Regex.{
  Regex, Found, star, plus, space, word, lit, bol, eol, dot, boundary, group, none_of, one_of, set,
  ◌▹◌, re_match, group_text, matches, occurs,
}
use cppecho.Cpplint.Expression.{Place, close_expression}

-- [_a-zA-Z] and _RE_PATTERN_IDENT
abbrev pub ident_start : Regex
ident_start = set (λ c. leb b'a' c && leb c b'z' || leb b'A' c && leb c b'Z' || c == b'_')

abbrev pub ident : Regex
ident = ident_start ▹ star word

-- ^([^()]*\w+)\(
abbrev pub call_start : Regex
call_start = bol ▹ group 1 (star (none_of "()") ▹ plus word) ▹ lit "("

-- ^[^()]*\w+::\w+\(
abbrev pub qualified_call : Regex
qualified_call = bol ▹ star (none_of "()") ▹ plus word ▹ lit "::" ▹ plus word ▹ lit "("

-- \boverride\b
abbrev pub override_word : Regex
override_word = boundary ▹ lit "override" ▹ boundary

-- The loop upwards over `steps` lines from `i` on: the first in which a parenthesis follows a name
find_call : List Text → ℕ → ℕ → Option ℕ
find_call elided zero i = none
find_call elided (suc steps) i =
    let rest = find_call elided steps (i - 1) in
    if matches call_start (get_or elided i []) then some i else rest

-- The line of the ten up to this one where the parameters begin
unfoldable pub parameters_line : List Text → ℕ → Option ℕ
unfolding find_call
parameters_line elided linenum = find_call elided (min 10 (linenum + 1)) linenum

has_override : Place → Bool
has_override place = elim place.at [
  | none ↦ false
  | some closing_paren ↦ occurs override_word (drop closing_paren place.line)
]

at_call : List Text → ℕ → Option Found → Option Bool
unfolding has_override group_text close_expression
at_call elided i none = some false
at_call elided i (some m) =
    close_expression elided i (length (group_text m 1)) >>= λ place. some (has_override place)

-- IsDerivedFunction; none is an IndexError of CloseExpression.
unfoldable pub is_derived_function : List Text → ℕ → Option Bool
unfolding parameters_line at_call
is_derived_function elided linenum = elim (parameters_line elided linenum) [
  | none ↦ some false
  | some i ↦ at_call elided i (re_match call_start (get_or elided i []))
]

-- IsOutOfLineMethodDefinition
unfoldable pub is_out_of_line_method_definition : List Text → ℕ → Bool
unfolding parameters_line
is_out_of_line_method_definition elided linenum = elim (parameters_line elided linenum) [
  | none ↦ false
  | some i ↦ matches qualified_call (get_or elided i [])
]

-- ^(.*)\{\s*$
abbrev pub function_body : Regex
function_body = bol ▹ group 1 (star dot) ▹ lit "{" ▹ star space ▹ eol

without_body : Text → Option Found → Text
unfolding group_text
without_body line none = line
without_body line (some m) = group_text m 1

-- \s:\s*\w+[({], \}\s*,\s*$ and [{};]\s*$
abbrev pub initializer_colon : Regex
initializer_colon = space ▹ lit ":" ▹ star space ▹ plus word ▹ one_of "({"

abbrev pub brace_comma : Regex
brace_comma = lit "}" ▹ star space ▹ lit "," ▹ star space ▹ eol

abbrev pub block_end : Regex
block_end = one_of "{};" ▹ star space ▹ eol

-- What a line of the loop says, or what the lines above say
initializer_round : Text → Bool → Bool
initializer_round line above =
    if occurs initializer_colon line || occurs brace_comma line
    then true
    else if occurs block_end line
    then false
    else above

-- The loop upwards from `i`, to the line 2
initializer_from : List Text → ℕ → Bool
unfolding initializer_round
initializer_from elided zero = false
initializer_from elided (suc i) =
    let above = initializer_from elided i in
    if leb (suc i) 1 then false else initializer_round (get_or elided (suc i) []) above

-- IsInitializerList
unfoldable pub is_initializer_list : List Text → ℕ → Bool
unfolding without_body initializer_round initializer_from
is_initializer_list elided linenum =
    let line = get_or elided linenum [] in
    if leb linenum 1
    then false
    else initializer_round (without_body line (re_match function_body line))
        (initializer_from elided (linenum - 1))
