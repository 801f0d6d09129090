-- ===== src/Cpplint/Style/Inheritance.antt =====
-- CheckRedundantVirtual and CheckRedundantOverrideOrFinal of tools/cpplint/cpplint.py, over
-- `clean_lines.elided`, and the namespace indentation of a line.
use cppecho.Prelude.{
  ℕ, zero, suc, ◌+◌, ◌-◌, min, Bool, false, not, ◌&&◌, ◌||◌, List, [], ◌∷◌, ◌++◌, Option, none,
  some, ltb, ◌==◌, if◌then◌else◌, length, get_or, drop,
}
use cppecho.Python.Str.{Text, codes}
use cppecho.Python.Path.{rfind_suc}
use cppecho.Python.Regex.{
  Regex, Found, star, plus, space, word, non_word, lit, bol, eol, dot, boundary, group, none_of,
  ◌▹◌, ◌∣∣◌, re_match, re_search, group_text, matches, occurs,
}
use cppecho.Cpplint.Report.{ErrorHandler}
use cppecho.Cpplint.Expression.{Place, close_expression}
use cppecho.Cpplint.Nesting.{Block, NestingState, is_namespace}

-- ^(.*)(\bvirtual\b)(.*)$
abbrev pub virtual : Regex
virtual =
    bol
    ▹ group 1 (star dot)
    ▹ group 2 (boundary ▹ lit "virtual" ▹ boundary)
    ▹ group 3 (star dot)
    ▹ eol

-- public|protected|private
abbrev access : Regex
access = lit "public" ∣∣ lit "protected" ∣∣ lit "private"

-- \b(public|protected|private)\s+$
abbrev pub access_at_end : Regex
access_at_end = boundary ▹ group 1 access ▹ plus space ▹ eol

-- ^\s+(public|protected|private)\b
abbrev pub access_at_start : Regex
access_at_start = bol ▹ plus space ▹ group 1 access ▹ boundary

-- ^.*[^:]:[^:].*$
abbrev pub single_colon : Regex
single_colon = bol ▹ star dot ▹ none_of ":" ▹ lit ":" ▹ none_of ":" ▹ star dot ▹ eol

-- ^([^(]*)\(
abbrev pub parameter_list : Regex
parameter_list = bol ▹ group 1 (star (none_of "(")) ▹ lit "("

-- \b(override|final)\b
abbrev pub override_or_final : Regex
override_or_final = boundary ▹ group 1 (lit "override" ∣∣ lit "final") ▹ boundary

-- [^\w]\s*$
abbrev pub ends_declaration : Regex
ends_declaration = non_word ▹ star space ▹ eol

-- What the loop over the next lines finds: no parenthesis, or what CloseExpression answers.
pub data Parameters : Type 0 where
  no_parameters : Parameters
  closed_at : Option Place → Parameters

at_parameters : List Text → ℕ → ℕ → Found → Parameters
unfolding close_expression group_text
at_parameters elided start_line start_col m =
    closed_at (close_expression elided start_line (start_col + length (group_text m 1)))

-- The loop: `steps` lines from `start_line` on, the first one from `start_col` on
find_parameters : List Text → ℕ → ℕ → ℕ → Parameters
unfolding at_parameters
find_parameters elided zero start_line start_col = no_parameters
find_parameters elided (suc steps) start_line start_col =
    let rest = find_parameters elided steps (start_line + 1) 0 in
    elim (re_match parameter_list (drop start_col (get_or elided start_line []))) [
      | some m ↦ at_parameters elided start_line start_col m
      | none ↦ rest
    ]

-- `line[line.rfind(')'):]`, or none for -1
from_parenthesis : Text → Option Text
unfolding rfind_suc
from_parenthesis line =
    if rfind_suc line b')' == 0 then none else some (drop (rfind_suc line b')' - 1) line)

-- The part of the line in which `override` or `final` may stand; none if there is no declarator.
unfoldable pub specifier_fragment : List Text → ℕ → Option Text
unfolding from_parenthesis rfind_suc
specifier_fragment elided linenum =
    let line = get_or elided linenum [] in
    elim (from_parenthesis line) [
      | some fragment ↦ some fragment
      | none ↦
          if ltb 1 linenum && not (rfind_suc (get_or elided (linenum - 1) []) b')' == 0)
          then some line
          else none
    ]

-- ^#define and \\$
abbrev pub define_at_start : Regex
define_at_start = bol ▹ lit "#define"

abbrev pub backslash_at_end : Regex
backslash_at_end = lit "\\" ▹ eol

-- IsMacroDefinition
unfoldable pub is_macro_definition : List Text → ℕ → Bool
is_macro_definition lines linenum =
    occurs define_at_start (get_or lines linenum [])
    || ltb 0 linenum && occurs backslash_at_end (get_or lines (linenum - 1) [])

-- ^\s*(\btemplate\b)*.*class\s+\w+;\s*$
abbrev pub forward_class : Regex
forward_class =
    bol
    ▹ star space
    ▹ star (group 1 (boundary ▹ lit "template" ▹ boundary))
    ▹ star dot
    ▹ lit "class"
    ▹ plus space
    ▹ plus word
    ▹ lit ";"
    ▹ star space
    ▹ eol

-- IsForwardClassDeclaration
unfoldable pub is_forward_class_declaration : List Text → ℕ → Bool
is_forward_class_declaration lines linenum = matches forward_class (get_or lines linenum [])

second_is_namespace : List Block → Bool
unfolding is_namespace
second_is_namespace (b ∷ c ∷ stack) = b.check_namespace_indentation && is_namespace c.kind
second_is_namespace _ = false

first_is_namespace : List Block → Bool
unfolding is_namespace
first_is_namespace [] = false
first_is_namespace (b ∷ stack) = is_namespace b.kind

-- IsBlockInNameSpace
unfoldable pub is_block_in_name_space : NestingState → Bool → Bool
unfolding first_is_namespace second_is_namespace
is_block_in_name_space n is_forward_declaration =
    if is_forward_declaration then first_is_namespace n.stack else second_is_namespace n.stack

-- ShouldCheckNamespaceIndentation
unfoldable pub should_check_namespace_indentation : NestingState → Bool → List Text → ℕ → Bool
unfolding is_forward_class_declaration is_macro_definition is_block_in_name_space
should_check_namespace_indentation n is_namespace_indent_item lines linenum =
    let is_forward_declaration = is_forward_class_declaration lines linenum in
    if not (is_namespace_indent_item || is_forward_declaration)
    then false
    else if is_macro_definition lines linenum
    then false
    else is_block_in_name_space n is_forward_declaration

-- ^\s+
abbrev pub indented : Regex
indented = bol ▹ plus space

module _ {ℓ} {S : Type ℓ} (error : ErrorHandler S) (filename : Text) where
  report_specifier : ℕ → Option Found → S → S
  unfolding group_text
  report_specifier linenum none s = s
  report_specifier linenum (some m) s =
      error filename linenum (codes "readability/inheritance") 4
        (codes "\"virtual\" is redundant since function is already declared as \""
          ++ group_text m 1
          ++ codes "\"")
        s

  -- The loop over `steps` lines from `i` on, the first one from `end_col` on
  find_specifiers : List Text → ℕ → ℕ → ℕ → ℕ → S → S
  unfolding report_specifier
  find_specifiers elided linenum zero i end_col s = s
  find_specifiers elided linenum (suc steps) i end_col s =
      let line = drop end_col (get_or elided i []) in
      let t = report_specifier linenum (re_search override_or_final line) s in
      let rest = find_specifiers elided linenum steps (i + 1) 0 t in
      if occurs ends_declaration line then t else rest

  -- Behind the loop for the parameters; none is an IndexError of CloseExpression.
  after_parameters : List Text → ℕ → Parameters → S → Option S
  unfolding find_specifiers
  after_parameters elided linenum no_parameters s = some s
  after_parameters elided linenum (closed_at none) s = none
  after_parameters elided linenum (closed_at (some place)) s = some (elim place.at [
    | none ↦ s
    | some end_col ↦
        find_specifiers elided linenum (min 3 (length elided - place.linenum)) place.linenum end_col
          s
  ])

  at_virtual : List Text → ℕ → Text → Option Found → S → Option S
  unfolding find_parameters after_parameters group_text
  at_virtual elided linenum line none s = some s
  at_virtual elided linenum line (some m) s =
      if occurs access_at_end (group_text m 1) || matches access_at_start (group_text m 3)
      then some s
      else if matches single_colon line
      then some s
      else after_parameters elided linenum
          (find_parameters elided (min 3 (length elided - linenum)) linenum
            (length (group_text m 2)))
          s

  -- CheckRedundantVirtual
  unfoldable pub check_redundant_virtual : List Text → ℕ → S → Option S
  unfolding at_virtual
  check_redundant_virtual elided linenum s =
      let line = get_or elided linenum [] in
      at_virtual elided linenum line (re_match virtual line) s

  in_fragment : ℕ → Option Text → S → S
  in_fragment linenum none s = s
  in_fragment linenum (some fragment) s =
      if occurs (boundary ▹ lit "override" ▹ boundary) fragment
        && occurs (boundary ▹ lit "final" ▹ boundary) fragment
      then error filename linenum (codes "readability/inheritance") 4
          (codes "\"override\" is redundant since function is already declared as \"final\"") s
      else s

  -- CheckRedundantOverrideOrFinal
  unfoldable pub check_redundant_override_or_final : List Text → ℕ → S → S
  unfolding in_fragment specifier_fragment
  check_redundant_override_or_final elided linenum s =
      in_fragment linenum (specifier_fragment elided linenum) s

  -- CheckItemIndentationInNamespace
  unfoldable pub check_item_indentation_in_namespace : List Text → ℕ → S → S
  check_item_indentation_in_namespace lines linenum s =
      if matches indented (get_or lines linenum [])
      then error filename linenum (codes "runtime/indentation_namespace") 4
          (codes "Do not indent within a namespace") s
      else s
