-- ===== src/Cpplint/Language/References.antt =====
-- CheckForNonConstReference of tools/cpplint/cpplint.py, over `clean_lines.elided`. Context has the
-- functions that say where a line stands.
pub mod Context
use cppecho.Prelude.{
  ℕ, zero, suc, ◌+◌, ◌-◌, min, Bool, true, false, not, ◌&&◌, ◌||◌, List, [], ◌∷◌, ◌++◌, Option,
  none, some, ltb, ◌==◌, if◌then◌else◌, get_or, map, ◌>>=◌,
}
use cppecho.Python.Str.{Text, codes, contains, lstrip_by, unicode_strip, is_unicode_space}
use cppecho.Python.Path.{rfind_suc}
use cppecho.Python.Regex.{
  Regex, Found, star, plus, space, non_space, word, opt, lit, bol, eol, dot, boundary, group,
  none_of, one_of, set, ◌▹◌, ◌∣∣◌, re_search, sub, group_text, matches, occurs,
}
use cppecho.Python.Regex.Iter.{find_all}
use cppecho.Cpplint.Report.{ErrorHandler}
use cppecho.Cpplint.Expression.{Place, reverse_close_expression}
use cppecho.Cpplint.Nesting.{Block, Kind, class_info, namespace_info, NestingState}
use cppecho.Cpplint.Language.References.Context.{
  ident, ident_start, is_derived_function, is_out_of_line_method_definition, is_initializer_list,
}

-- _RE_PATTERN_TYPE
abbrev type_pattern : Regex
type_pattern =
    opt (lit "const" ▹ plus space)
    ▹ opt
        ((lit "typename" ∣∣ lit "class" ∣∣ lit "struct" ∣∣ lit "union" ∣∣ lit "enum") ▹ plus space)
    ▹ plus (
        word
        ∣∣ star space
          ▹ lit "<"
          ▹ star (
              lit "<" ▹ star (lit "<" ▹ star (none_of "<>") ▹ lit ">" ∣∣ none_of "<>") ▹ lit ">"
              ∣∣ none_of "<>")
          ▹ lit ">"
        ∣∣ lit "::")

abbrev reference : Regex
reference = star space ▹ lit "&" ▹ star space ▹ ident

-- _RE_PATTERN_REF_PARAM
abbrev pub ref_param : Regex
ref_param =
    group 1 (
      type_pattern ▹ star (star space ▹ (boundary ▹ lit "const" ▹ boundary ∣∣ lit "*")) ▹ reference)
    ▹ star space
    ▹ opt (lit "=" ▹ plus (none_of ",()"))
    ▹ one_of ",)"

-- _RE_PATTERN_CONST_REF_PARAM and _RE_PATTERN_REF_STREAM_PARAM
abbrev pub const_ref_param : Regex
const_ref_param =
    star dot ▹ star space ▹ boundary ▹ lit "const" ▹ reference
    ∣∣ lit "const" ▹ plus space ▹ type_pattern ▹ reference

abbrev pub ref_stream_param : Regex
ref_stream_param = star dot ▹ lit "stream" ▹ reference

-- [\w<>]
abbrev name_character : Regex
name_character = word ∣∣ one_of "<>"

-- \s*::(?:[\w<>]|::)+\s*&\s*\S and \s*[a-zA-Z_]([\w<>]|::)+\s*&\s*\S
abbrev pub continues_qualified : Regex
continues_qualified =
    star space
    ▹ lit "::"
    ▹ plus (name_character ∣∣ lit "::")
    ▹ star space
    ▹ lit "&"
    ▹ star space
    ▹ non_space

abbrev pub continues_name : Regex
continues_name =
    star space
    ▹ ident_start
    ▹ plus (group 1 (name_character ∣∣ lit "::"))
    ▹ star space
    ▹ lit "&"
    ▹ star space
    ▹ non_space

-- \b((?:const\s*)?(?:[\w<>]|::)+[\w<>])\s*$ and \b((?:const\s*)?(?:[\w<>]|::)+::)\s*$
abbrev pub type_at_end : Regex
type_at_end =
    boundary
    ▹ group 1 (opt (lit "const" ▹ star space) ▹ plus (name_character ∣∣ lit "::") ▹ name_character)
    ▹ star space
    ▹ eol

abbrev pub qualifier_at_end : Regex
qualifier_at_end =
    boundary
    ▹ group 1 (opt (lit "const" ▹ star space) ▹ plus (name_character ∣∣ lit "::") ▹ lit "::")
    ▹ star space
    ▹ eol

-- `previous`: what the line before has of the type
unfoldable pub previous_type : Text → Text → Option Found
unfolding re_search
previous_type line previous_line =
    if matches continues_qualified line
    then re_search type_at_end previous_line
    else if matches continues_name line
    then re_search qualifier_at_end previous_line
    else none

-- The lines from `i` on, `steps` of them, without white space around them
join_stripped : List Text → ℕ → ℕ → Text
unfolding unicode_strip
join_stripped elided zero i = []
join_stripped elided (suc steps) i =
    unicode_strip (get_or elided i []) ++ join_stripped elided steps (i + 1)

-- The line, or those from the one where the template parameters begin
from_template : List Text → ℕ → Text → Option Place → Option Text
unfolding join_stripped
from_template elided linenum line none = none
from_template elided linenum line (some place) = some (elim place.at [
  | none ↦ line
  | some startpos ↦
      if ltb place.linenum linenum
      then join_stripped elided (linenum + 1 - place.linenum) place.linenum
      else line
])

with_previous : List Text → ℕ → Text → Option Found → Option Text
unfolding group_text lstrip_by rfind_suc from_template reverse_close_expression
with_previous elided linenum line (some previous) =
    some (group_text previous 1 ++ lstrip_by is_unicode_space line)
with_previous elided linenum line none =
    if rfind_suc line b'>' == 0
    then some line
    else from_template elided linenum line
        (reverse_close_expression elided linenum (rfind_suc line b'>' - 1))

-- `line`, with what belongs to it of the lines before; none is an IndexError.
unfoldable pub whole_line : List Text → ℕ → Option Text
unfolding with_previous previous_type
whole_line elided linenum =
    let line = get_or elided linenum [] in
    if ltb 1 linenum
    then with_previous elided linenum line (previous_type line (get_or elided (linenum - 1) []))
    else some line

is_class_or_namespace : Kind → Bool
is_class_or_namespace (class_info c) = true
is_class_or_namespace (namespace_info n) = true
is_class_or_namespace _ = false

-- Whether the block before the line is neither a class nor a namespace
unfoldable pub is_in_body : Option Block → Bool
unfolding is_class_or_namespace
is_in_body none = false
is_in_body (some b) = not (is_class_or_namespace b.kind)

-- [),]\s*$ and ^\s*:\s+\S
abbrev pub parameter_end : Regex
parameter_end = one_of ")," ▹ star space ▹ eol

abbrev pub initializer_line : Regex
initializer_line = bol ▹ star space ▹ lit ":" ▹ plus space ▹ non_space

-- The loop upwards over `steps` lines from the one before `i`: whether one begins an initializer list
initializer_above : List Text → ℕ → ℕ → Bool
initializer_above elided zero i = false
initializer_above elided (suc steps) i =
    let rest = initializer_above elided steps (i - 1) in
    let previous_line = get_or elided (i - 1) [] in
    if not (occurs parameter_end previous_line)
    then false
    else matches initializer_line previous_line || rest

-- (?:[sS]wap(?:<\w:+>)?|operator\s*[<>][<>]|static_assert|COMPILE_ASSERT)\s*\(
abbrev pub whitelisted_functions : Regex
whitelisted_functions =
    (one_of "sS" ▹ lit "wap" ▹ opt (lit "<" ▹ word ▹ plus (lit ":") ▹ lit ">")
      ∣∣ lit "operator" ▹ star space ▹ one_of "<>" ▹ one_of "<>"
      ∣∣ lit "static_assert"
      ∣∣ lit "COMPILE_ASSERT")
    ▹ star space
    ▹ lit "("

-- \S+\([^)]*$
abbrev pub open_call : Regex
open_call = plus non_space ▹ lit "(" ▹ star (none_of ")") ▹ eol

-- Whether the line is in a call of a function that may take references
unfoldable pub is_whitelisted : List Text → ℕ → Text → Bool
is_whitelisted elided linenum line =
    if occurs whitelisted_functions line
    then true
    else not (occurs open_call line)
      && (ltb 0 linenum && occurs whitelisted_functions (get_or elided (linenum - 1) [])
          || ltb 1 linenum && occurs whitelisted_functions (get_or elided (linenum - 2) []))

-- The parameters that are references
unfoldable pub ref_params : Text → List Text
unfolding sub find_all group_text
ref_params line =
    let decls = sub (lit "{" ▹ star (none_of "}") ▹ lit "}") (λ m. codes " ") line in
    map (λ m. group_text m 1) (find_all ref_param decls)

-- \\\s*$
abbrev pub backslash_end : Regex
backslash_end = lit "\\" ▹ star space ▹ eol

-- Whether the line is none that declares parameters
unfoldable pub is_skipped : List Text → ℕ → Option Block → Text → Bool
unfolding is_in_body initializer_above is_initializer_list is_whitelisted
is_skipped elided linenum previous_stack_top line =
    is_in_body previous_stack_top
    || initializer_above elided (min 9 (linenum - 1)) linenum
    || occurs backslash_end line
    || is_initializer_list elided linenum
    || is_whitelisted elided linenum line

module _ {ℓ} {S : Type ℓ} (error : ErrorHandler S) (filename : Text) where
  report_params : ℕ → List Text → S → S
  unfolding sub
  report_params linenum [] s = s
  report_params linenum (parameter ∷ parameters) s = report_params linenum parameters (
      if matches const_ref_param parameter || matches ref_stream_param parameter
      then s
      else error filename linenum (codes "runtime/references") 2
          (codes "Is this a non-const reference? If so, make const or use a pointer: "
            ++ sub (star (lit " ") ▹ lit "<") (λ m. codes "<") parameter)
          s)

  check_line : List Text → ℕ → NestingState → Text → S → S
  unfolding is_skipped report_params ref_params
  check_line elided linenum n line s =
      if is_skipped elided linenum n.previous_stack_top line
      then s
      else report_params linenum (ref_params line) s

  check_declaration : List Text → ℕ → NestingState → Bool → S → Option S
  unfolding is_out_of_line_method_definition whole_line check_line
  check_declaration elided linenum n is_derived s =
      if is_derived || is_out_of_line_method_definition elided linenum
      then some s
      else (whole_line elided linenum >>= λ line. some (check_line elided linenum n line s))

  -- CheckForNonConstReference; none is an IndexError.
  unfoldable pub check_for_non_const_reference : List Text → ℕ → NestingState → S → Option S
  unfolding contains is_derived_function check_declaration
  check_for_non_const_reference elided linenum n s =
      if contains (get_or elided linenum []) (codes "&")
      then (is_derived_function elided linenum >>= λ is_derived.
          check_declaration elided linenum n is_derived s)
      else some s
