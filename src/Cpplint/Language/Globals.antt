-- ===== src/Cpplint/Language/Globals.antt =====
-- CheckGlobalStatic of tools/cpplint/cpplint.py.
use cppecho.Prelude.{
  ℕ, ◌+◌, not, ◌&&◌, ◌||◌, List, [], Option, none, some, ◌++◌, ltb, ◌==◌, if◌then◌else◌, length,
  get_or,
}
use cppecho.Python.Str.{Text, codes, unicode_strip}
use cppecho.Python.Regex.{
  Regex, Found, eps, star, plus, opt, space, word, non_word, lit, eol, dot, boundary, group, back,
  none_of, one_of, set, is_word, ◌▹◌, ◌∣∣◌, re_match, group_text, matches, occurs,
}
use cppecho.Cpplint.Report.{ErrorHandler}

-- ((?:|static +)(?:|const +))(?::*std::)?string( +const)? +([a-zA-Z0-9_:]+)\b(.*)
abbrev pub global_string : Regex
global_string =
    group 1 ((eps ∣∣ lit "static" ▹ plus (lit " ")) ▹ (eps ∣∣ lit "const" ▹ plus (lit " ")))
    ▹ opt (star (lit ":") ▹ lit "std::")
    ▹ lit "string"
    ▹ opt (group 2 (plus (lit " ") ▹ lit "const"))
    ▹ plus (lit " ")
    ▹ group 3 (plus (set (λ c. is_word c || c == b':')))
    ▹ boundary
    ▹ group 4 (star dot)

-- \bstring\b(\s+const)?\s*[\*\&]\s*(const\s+)?\w
abbrev pub string_pointer : Regex
string_pointer =
    boundary
    ▹ lit "string"
    ▹ boundary
    ▹ opt (group 1 (plus space ▹ lit "const"))
    ▹ star space
    ▹ one_of "*&"
    ▹ star space
    ▹ opt (group 2 (lit "const" ▹ plus space))
    ▹ word

-- \boperator\W
abbrev pub operator_symbol : Regex
operator_symbol = boundary ▹ lit "operator" ▹ non_word

-- \s*(<.*>)?(::[a-zA-Z0-9_]+)*\s*\(([^"]|$)
abbrev pub function_rest : Regex
function_rest =
    star space
    ▹ opt (group 1 (lit "<" ▹ star dot ▹ lit ">"))
    ▹ star (group 2 (lit "::" ▹ plus word))
    ▹ star space
    ▹ lit "("
    ▹ group 3 (none_of "\"" ∣∣ eol)

-- \bconst\b
abbrev pub const_word : Regex
const_word = boundary ▹ lit "const" ▹ boundary

-- \b([A-Za-z0-9_]*_)\(\1\) and \b([A-Za-z0-9_]*_)\(CHECK_NOTNULL\(\1\)\)
abbrev pub self_initialised : Regex
self_initialised = boundary ▹ group 1 (star word ▹ lit "_") ▹ lit "(" ▹ back 1 ▹ lit ")"

abbrev pub self_initialised_not_null : Regex
self_initialised_not_null =
    boundary ▹ group 1 (star word ▹ lit "_") ▹ lit "(CHECK_NOTNULL(" ▹ back 1 ▹ lit "))"

-- [;({]
abbrev pub statement_character : Regex
statement_character = one_of ";({"

-- The line, with the next one if it has no end of a statement
unfoldable pub joined_line : List Text → ℕ → Text
unfolding unicode_strip
joined_line elided linenum =
    let line = get_or elided linenum [] in
    if ltb (linenum + 1) (length elided) && not (occurs statement_character line)
    then line ++ unicode_strip (get_or elided (linenum + 1) [])
    else line

module _ {ℓ} {S : Type ℓ} (error : ErrorHandler S) (filename : Text) where
  check_global_string : ℕ → Text → Option Found → S → S
  unfolding group_text
  check_global_string linenum line none s = s
  check_global_string linenum line (some m) s =
      if occurs string_pointer line
        || occurs operator_symbol line
        || matches function_rest (group_text m 4)
      then s
      else if occurs const_word line
      then error filename linenum (codes "runtime/string") 4
          (codes "For a static/global string constant, use a C style string instead: \""
            ++ group_text m 1
            ++ codes "char"
            ++ group_text m 2
            ++ codes " "
            ++ group_text m 3
            ++ codes "[]\".")
          s
      else error filename linenum (codes "runtime/string") 4
          (codes "Static/global string variables are not permitted.") s

  -- CheckGlobalStatic
  unfoldable pub check_global_static : List Text → ℕ → S → S
  unfolding joined_line check_global_string
  check_global_static elided linenum s =
      let line = joined_line elided linenum in
      let t = check_global_string linenum line (re_match global_string line) s in
      if occurs self_initialised line || occurs self_initialised_not_null line
      then error filename linenum (codes "runtime/init") 4
          (codes "You seem to be initializing a member variable with itself.") t
      else t
