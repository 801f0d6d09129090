-- ===== src/Cpplint/Language/Casts.antt =====
-- CheckCasts of tools/cpplint/cpplint.py, over `clean_lines.elided`. CStyle has what it calls.
pub mod CStyle
use cppecho.Prelude.{
  ℕ, zero, suc, ◌+◌, ◌-◌, min, Bool, true, false, not, ◌&&◌, ◌||◌, List, [], ◌++◌, Option, none,
  some, leb, ◌==◌, if◌then◌else◌, length, take, drop, get_or, get_elem?, is_some, ◌>>=◌,
}
use cppecho.Python.Str.{Text, codes, startswith, endswith}
use cppecho.Python.Regex.{
  Regex, Found, star, plus, space, non_space, word, non_word, digit, opt, lit, text, bol, eol, dot,
  boundary, group, none_of, one_of, set, is_digit, ◌▹◌, ◌∣∣◌, re_match, re_search, group_of,
  group_text, matches, occurs,
}
use cppecho.Cpplint.Report.{ErrorHandler}
use cppecho.Cpplint.Expression.{Place, close_expression}
use cppecho.Cpplint.Language.Casts.CStyle.{
  expecting_function_args, number_cast, string_cast, pointer_cast, check_c_style_cast,
}

-- (\bnew\s+(?:const\s+)?|\S<\s*(?:const\s+)?)?\b
-- (int|float|double|bool|char|int32|uint32|int64|uint64)(\([^)].*)
abbrev pub function_cast : Regex
function_cast =
    opt (
      group 1 (
        boundary ▹ lit "new" ▹ plus space ▹ opt (lit "const" ▹ plus space)
        ∣∣ non_space ▹ lit "<" ▹ star space ▹ opt (lit "const" ▹ plus space)))
    ▹ boundary
    ▹ group 2 (
        lit "int"
        ∣∣ lit "float"
        ∣∣ lit "double"
        ∣∣ lit "bool"
        ∣∣ lit "char"
        ∣∣ lit "int32"
        ∣∣ lit "uint32"
        ∣∣ lit "int64"
        ∣∣ lit "uint64")
    ▹ group 3 (lit "(" ▹ none_of ")" ▹ star dot)

-- \([^()]+\)\s*\[
abbrev pub array_declaration : Regex
array_declaration = lit "(" ▹ plus (none_of "()") ▹ lit ")" ▹ star space ▹ lit "["

-- \((?:[^() ]+::\s*\*\s*)?[^() ]+\)\s*\(
abbrev pub function_declaration : Regex
function_declaration =
    lit "("
    ▹ opt (plus (none_of "() ") ▹ lit "::" ▹ star space ▹ lit "*" ▹ star space)
    ▹ plus (none_of "() ")
    ▹ lit ")"
    ▹ star space
    ▹ lit "("

-- \s*using\s+\S+\s*=\s*<type> and new\(\S+\)\s*<type>
abbrev pub using_type : Text → Regex
using_type matched_type =
    star space
    ▹ lit "using"
    ▹ plus space
    ▹ plus non_space
    ▹ star space
    ▹ lit "="
    ▹ star space
    ▹ text matched_type

abbrev pub placement_new : Text → Regex
placement_new matched_type = lit "new(" ▹ plus non_space ▹ lit ")" ▹ star space ▹ text matched_type

-- Whether the match of a type with a parenthesis is a deprecated cast
unfoldable pub is_deprecated_cast : Text → Found → Bool
unfolding group_of group_text startswith
is_deprecated_cast line m =
    not (is_some (group_of m 1))
    && not
        (matches function_declaration (group_text m 3) || startswith (group_text m 3) (codes "(*)"))
    && not (matches (using_type (group_text m 2)) line)
    && not (occurs (placement_new (group_text m 2)) line)

-- (?:[^\w]&\(([^)*][^)]*)\)[\w(])|(?:[^\w]&(static|dynamic|down|reinterpret)_cast\b)
abbrev cast_kind : Regex
cast_kind = lit "static" ∣∣ lit "dynamic" ∣∣ lit "down" ∣∣ lit "reinterpret"

abbrev pub address_of_cast : Regex
address_of_cast =
    non_word ▹ lit "&(" ▹ group 1 (none_of ")*" ▹ star (none_of ")")) ▹ lit ")" ▹ (word ∣∣ lit "(")
    ∣∣ non_word ▹ lit "&" ▹ group 2 cast_kind ▹ lit "_cast" ▹ boundary

-- ^(.*&(?:static|dynamic|down|reinterpret)_cast\b)<
abbrev pub cast_template : Regex
cast_template = bol ▹ group 1 (star dot ▹ lit "&" ▹ cast_kind ▹ lit "_cast" ▹ boundary) ▹ lit "<"

-- \s*(?:->|\[)
abbrev pub dereference : Regex
dereference = star space ▹ (lit "->" ∣∣ lit "[")

-- Whether what follows the parentheses of the cast is dereferenced
behind_cast : List Text → Place → Bool
behind_cast elided place = elim place.at [
  | none ↦ false
  | some x ↦
      matches dereference
        (drop x (get_or elided place.linenum []) ++ get_or elided (place.linenum + 1) [])
]

-- The parentheses of the cast, behind its template; none is an IndexError.
cast_parentheses : List Text → Place → Option Bool
unfolding close_expression behind_cast
cast_parentheses elided place = elim place.at [
  | none ↦ some false
  | some x ↦ get_elem? (get_or elided place.linenum []) x >>= λ c.
      if c == b'('
      then (close_expression elided place.linenum x >>= λ end. some (behind_cast elided end))
      else some false
]

-- `parenthesis_error`
unfoldable pub parenthesis_error : List Text → ℕ → Option Found → Option Bool
unfolding close_expression cast_parentheses group_text
parenthesis_error elided linenum none = some false
parenthesis_error elided linenum (some m) =
    close_expression elided linenum (length (group_text m 1)) >>= cast_parentheses elided

module _ {ℓ} {S : Type ℓ} (error : ErrorHandler S) (filename : Text) where
  report_deprecated : ℕ → Text → Found → S → S
  unfolding is_deprecated_cast group_text
  report_deprecated linenum line m s =
      if is_deprecated_cast line m
      then error filename linenum (codes "readability/casting") 4
          (codes "Using deprecated casting style.  Use static_cast<"
            ++ group_text m 2
            ++ codes ">(...) instead")
          s
      else s

  check_c_style_casts : List Text → ℕ → Bool → S → S
  unfolding check_c_style_cast
  check_c_style_casts elided linenum expecting_function s =
      let t =
        if expecting_function
        then s
        else (check_c_style_cast error filename elided linenum (codes "static_cast") number_cast
            s).1 in
      let (found, u) =
        check_c_style_cast error filename elided linenum (codes "const_cast") string_cast t in
      if found
      then u
      else (check_c_style_cast error filename elided linenum (codes "reinterpret_cast") pointer_cast
          u).1

  report_address : ℕ → Bool → S → S
  report_address linenum parenthesised s =
      if parenthesised
      then error filename linenum (codes "readability/casting") 4
          (codes
            "Are you taking an address of something dereferenced from a cast?  Wrapping the dereferenced expression in parentheses will make the binding more obvious")
          s
      else error filename linenum (codes "runtime/casting") 4
          (codes
            "Are you taking an address of a cast?  This is dangerous: could be a temp var.  Take the address before doing the cast, rather than after")
          s

  check_address : List Text → ℕ → Text → S → Option S
  unfolding parenthesis_error report_address
  check_address elided linenum line s =
      if occurs address_of_cast line
      then (parenthesis_error elided linenum (re_match cast_template line) >>= λ parenthesised.
          some (report_address linenum parenthesised s))
      else some s

  check_other_casts : List Text → ℕ → Bool → Text → S → Option S
  unfolding check_c_style_casts check_address
  check_other_casts elided linenum expecting_function line s =
      check_address elided linenum line (check_c_style_casts elided linenum expecting_function s)

  at_function_cast : List Text → ℕ → Bool → Text → Option Found → S → Option S
  unfolding report_deprecated check_other_casts group_text
  at_function_cast elided linenum expecting_function line none s =
      check_other_casts elided linenum expecting_function line s
  at_function_cast elided linenum expecting_function line (some m) s =
      if expecting_function
      then check_other_casts elided linenum expecting_function line s
      else if matches array_declaration (group_text m 3)
      then some s
      else check_other_casts elided linenum expecting_function line
          (report_deprecated linenum line m s)

  -- CheckCasts; none is an IndexError.
  unfoldable pub check_casts : List Text → ℕ → S → Option S
  unfolding at_function_cast expecting_function_args
  check_casts elided linenum s =
      let line = get_or elided linenum [] in
      at_function_cast elided linenum (expecting_function_args elided linenum) line
        (re_search function_cast line) s
