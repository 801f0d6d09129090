-- ===== src/Cpplint/Language/Casts/CStyle.antt =====
-- CheckCStyleCast and ExpectingFunctionArgs of tools/cpplint/cpplint.py, over `clean_lines.elided`.
use cppecho.Prelude.{
  ℕ, zero, suc, ◌+◌, ◌-◌, min, Bool, true, false, ◌&&◌, ◌||◌, List, [], ◌++◌, Option, none, some,
  leb, ◌==◌, if◌then◌else◌, length, take, drop, get_or,
}
use cppecho.Python.Str.{Text, codes, endswith}
use cppecho.Python.Regex.{
  Regex, Found, star, plus, space, non_space, word, digit, opt, lit, bol, eol, dot, boundary, group,
  none_of, one_of, set, is_digit, ◌▹◌, ◌∣∣◌, re_search, group_text, matches, occurs,
}
use cppecho.Cpplint.Report.{ErrorHandler}

-- ^\s*MOCK_(CONST_)?METHOD\d+(_T)?\( without its groups, and what may follow
abbrev mock_method : Regex
mock_method =
    bol
    ▹ star space
    ▹ lit "MOCK_"
    ▹ opt (lit "CONST_")
    ▹ lit "METHOD"
    ▹ plus digit
    ▹ opt (lit "_T")
    ▹ lit "("

abbrev pub mock_with_name : Regex
mock_with_name = mock_method ▹ opt (plus non_space ▹ lit ",") ▹ star space ▹ eol

abbrev pub mock_alone : Regex
mock_alone = mock_method ▹ star space ▹ eol

-- \bstd::m?function\s*\<\s*$
abbrev pub std_function : Regex
std_function =
    boundary
    ▹ lit "std::"
    ▹ opt (lit "m")
    ▹ lit "function"
    ▹ star space
    ▹ lit "<"
    ▹ star space
    ▹ eol

-- ExpectingFunctionArgs
unfoldable pub expecting_function_args : List Text → ℕ → Bool
expecting_function_args elided linenum =
    matches mock_method (get_or elided linenum [])
    || leb 2 linenum
      && (matches mock_with_name (get_or elided (linenum - 1) [])
          || matches mock_alone (get_or elided (linenum - 2) [])
          || occurs std_function (get_or elided (linenum - 1) []))

abbrev macro_name : Regex
macro_name =
    set (λ c. leb b'A' c && leb c b'Z' || c == b'_')
    ▹ star (set (λ c. leb b'A' c && leb c b'Z' || is_digit c || c == b'_'))

-- .*\b(?:sizeof|alignof|alignas|[_A-Z][_A-Z0-9]*)\s*$
abbrev pub sizeof_or_macro : Regex
sizeof_or_macro =
    star dot
    ▹ boundary
    ▹ (lit "sizeof" ∣∣ lit "alignof" ∣∣ lit "alignas" ∣∣ macro_name)
    ▹ star space
    ▹ eol

-- .*\b[_A-Z][_A-Z0-9]*\s*\((?:\([^()]*\)|[^()])*$
abbrev pub inside_macro : Regex
inside_macro =
    star dot
    ▹ boundary
    ▹ macro_name
    ▹ star space
    ▹ lit "("
    ▹ star (lit "(" ▹ star (none_of "()") ▹ lit ")" ∣∣ none_of "()")
    ▹ eol

-- ^\s*(?:;|const\b|throw\b|final\b|override\b|[=>{),]|->)
abbrev pub declaration_end : Regex
declaration_end =
    bol
    ▹ star space
    ▹ (lit ";"
        ∣∣ lit "const" ▹ boundary
        ∣∣ lit "throw" ▹ boundary
        ∣∣ lit "final" ▹ boundary
        ∣∣ lit "override" ▹ boundary
        ∣∣ one_of "=>{),"
        ∣∣ lit "->")

-- The lines above joined in front of the context: `steps` of them, from the line before `i` upwards
join_above : List Text → ℕ → ℕ → Text → Text
join_above elided zero i context = context
join_above elided (suc steps) i context =
    join_above elided steps (i - 1) (get_or elided (i - 1) [] ++ context)

-- Whether a match is no cast. The parenthesis in front of the first group begins the match.
unfoldable is_no_cast : List Text → ℕ → Text → Found → Bool
unfolding join_above endswith
is_no_cast elided linenum line m =
    let context = take m.start line in
    let joined = join_above elided (min 4 (linenum - 1)) linenum context in
    matches sizeof_or_macro context
    || matches inside_macro joined
    || endswith joined (codes " operator++")
    || endswith joined (codes " operator--")
    || matches declaration_end (drop (m.start + length m.whole) line)

-- \((int|float|double|bool|char|u?int(16|32|64))\)
abbrev pub number_cast : Regex
number_cast =
    lit "("
    ▹ group 1 (
        lit "int"
        ∣∣ lit "float"
        ∣∣ lit "double"
        ∣∣ lit "bool"
        ∣∣ lit "char"
        ∣∣ opt (lit "u") ▹ lit "int" ▹ group 2 (lit "16" ∣∣ lit "32" ∣∣ lit "64"))
    ▹ lit ")"

-- \((char\s?\*+\s?)\)\s*" and \((\w+\s?\*+\s?)\)
abbrev pub string_cast : Regex
string_cast =
    lit "("
    ▹ group 1 (lit "char" ▹ opt space ▹ plus (lit "*") ▹ opt space)
    ▹ lit ")"
    ▹ star space
    ▹ lit "\""

abbrev pub pointer_cast : Regex
pointer_cast = lit "(" ▹ group 1 (plus word ▹ opt space ▹ plus (lit "*") ▹ opt space) ▹ lit ")"

module _ {ℓ} {S : Type ℓ} (error : ErrorHandler S) (filename : Text) where
  c_style_cast : List Text → ℕ → Text → Text → Option Found → S → Bool × S
  unfolding is_no_cast group_text
  c_style_cast elided linenum line cast_type none s = (false, s)
  c_style_cast elided linenum line cast_type (some m) s =
      if is_no_cast elided linenum line m then (false, s) else (
        true,
        error filename linenum (codes "readability/casting") 4
            (codes "Using C-style cast.  Use "
              ++ cast_type
              ++ codes "<"
              ++ group_text m 1
              ++ codes ">(...) instead")
            s,
      )

  -- CheckCStyleCast, for a pattern whose first group follows a parenthesis that begins it
  unfoldable pub check_c_style_cast : List Text → ℕ → Text → Regex → S → Bool × S
  unfolding c_style_cast
  check_c_style_cast elided linenum cast_type pattern s =
      let line = get_or elided linenum [] in
      c_style_cast elided linenum line cast_type (re_search pattern line) s
