-- ===== src/Cpplint/Style/Constructs.antt =====
-- CheckForNonStandardConstructs of tools/cpplint/cpplint.py.
pub mod Explicit
pub mod Arguments
use cppecho.Prelude.{
  ℕ, Bool, true, false, not, ◌&&◌, ◌||◌, List, [], ◌∷◌, ◌++◌, Option, none, some, if◌then◌else◌,
  get_or, ◌==◌,
}
use cppecho.Python.Str.{Text, codes, replace, is_space}
use cppecho.Python.Regex.{
  Regex, star, plus, space, word, digit, opt, lit, bol, dot, boundary, group, one_of, set, ◌▹◌,
  ◌∣∣◌, matches, occurs,
}
use cppecho.Cpplint.Report.{ErrorHandler}
use cppecho.Cpplint.Cleanse.Lines.{CleansedLines}
use cppecho.Cpplint.Nesting.{Block, Kind, class_info, NestingState, innermost_class}
use cppecho.Cpplint.Style.Constructs.Explicit.{check_explicit}

-- printf\s*\(.*".*
abbrev format_string : Regex
format_string = lit "printf" ▹ star space ▹ lit "(" ▹ star dot ▹ lit "\"" ▹ star dot

-- printf\s*\(.*".*%[-+ ]?\d*q
abbrev pub percent_q : Regex
percent_q = format_string ▹ lit "%" ▹ opt (one_of "-+ ") ▹ star digit ▹ lit "q"

-- printf\s*\(.*".*%\d+\$
abbrev pub percent_dollar : Regex
percent_dollar = format_string ▹ lit "%" ▹ plus digit ▹ lit "$"

-- ("|\').*\\(%|\[|\(|{)
abbrev pub undefined_escape : Regex
undefined_escape =
    group 1 (lit "\"" ∣∣ lit "'")
    ▹ star dot
    ▹ lit "\\"
    ▹ group 2 (lit "%" ∣∣ lit "[" ∣∣ lit "(" ∣∣ lit "{")

-- \b(const|volatile|void|…|u?int64)\s+(register|static|extern|typedef)\b
abbrev pub late_storage_class : Regex
late_storage_class =
    boundary
    ▹ group 1 (
        lit "const"
        ∣∣ lit "volatile"
        ∣∣ lit "void"
        ∣∣ lit "char"
        ∣∣ lit "short"
        ∣∣ lit "int"
        ∣∣ lit "long"
        ∣∣ lit "float"
        ∣∣ lit "double"
        ∣∣ lit "signed"
        ∣∣ lit "unsigned"
        ∣∣ lit "schar"
        ∣∣ opt (lit "u") ▹ lit "int8"
        ∣∣ opt (lit "u") ▹ lit "int16"
        ∣∣ opt (lit "u") ▹ lit "int32"
        ∣∣ opt (lit "u") ▹ lit "int64")
    ▹ plus space
    ▹ group 2 (lit "register" ∣∣ lit "static" ∣∣ lit "extern" ∣∣ lit "typedef")
    ▹ boundary

-- \s*#\s*endif\s*[^/\s]+
abbrev pub endif_text : Regex
endif_text =
    star space
    ▹ lit "#"
    ▹ star space
    ▹ lit "endif"
    ▹ star space
    ▹ plus (set (λ c. not (c == b'/' || is_space c)))

-- \s*class\s+(\w+\s*::\s*)+\w+\s*;
abbrev pub inner_forward_declaration : Regex
inner_forward_declaration =
    star space
    ▹ lit "class"
    ▹ plus space
    ▹ plus (group 1 (plus word ▹ star space ▹ lit "::" ▹ star space))
    ▹ plus word
    ▹ star space
    ▹ lit ";"

-- (\w+|[+-]?\d+(\.\d*)?)\s*(<|>)\?=?\s*(\w+|[+-]?\d+)(\.\d*)?
abbrev pub min_max_operator : Regex
min_max_operator =
    group 1 (plus word ∣∣ opt (one_of "+-") ▹ plus digit ▹ opt (group 2 (lit "." ▹ star digit)))
    ▹ star space
    ▹ group 3 (lit "<" ∣∣ lit ">")
    ▹ lit "?"
    ▹ opt (lit "=")
    ▹ star space
    ▹ group 4 (plus word ∣∣ opt (one_of "+-") ▹ plus digit)
    ▹ opt (group 5 (lit "." ▹ star digit))

-- ^\s*const\s*string\s*&\s*\w+\s*;
abbrev pub string_reference : Regex
string_reference =
    bol
    ▹ star space
    ▹ lit "const"
    ▹ star space
    ▹ lit "string"
    ▹ star space
    ▹ lit "&"
    ▹ star space
    ▹ plus word
    ▹ star space
    ▹ lit ";"

module _ {ℓ} {S : Type ℓ} (error : ErrorHandler S) (filename : Text) where
  abbrev report_if : Bool → ℕ → Text → ℕ → Text → S → S
  report_if test linenum category confidence message s =
      if test then error filename linenum category confidence message s else s

  -- The checks of strings, on the line without comments
  check_formats : ℕ → Text → S → S
  unfolding replace
  check_formats linenum line s =
      report_if (occurs undefined_escape (replace line (codes "\\\\") [])) linenum
        (codes "build/printf_format") 3
        (codes "%, [, (, and { are undefined character escapes.  Unescape them.")
        (report_if (occurs percent_dollar line) linenum (codes "runtime/printf_format") 2
          (codes "%N$ formats are unconventional.  Try rewriting to avoid them.")
          (report_if (occurs percent_q line) linenum (codes "runtime/printf_format") 3
            (codes "%q in format strings is deprecated.  Use %ll instead.") s))

  -- The checks of declarations, on the elided line
  check_declarations : ℕ → Text → S → S
  check_declarations linenum line s =
      report_if (occurs string_reference line) linenum (codes "runtime/member_string_references") 2
        (codes
          "const string& members are dangerous. It is much better to use alternatives, such as pointers or simple constants.")
        (report_if (occurs min_max_operator line) linenum (codes "build/deprecated") 3
          (codes ">? and <? (max and min) operators are non-standard and deprecated.")
          (report_if (matches inner_forward_declaration line) linenum (codes "build/forward_decl") 5
            (codes "Inner-style forward declarations are invalid.  Remove this line.")
            (report_if (matches endif_text line) linenum (codes "build/endif_comment") 5
              (codes "Uncommented text after #endif is non-standard.  Use a comment.")
              (report_if (occurs late_storage_class line) linenum (codes "build/storage_class") 5
                (codes
                  "Storage-class specifier (static, extern, typedef, etc) should be at the beginning of the declaration.")
                s))))

  check_constructor : ℕ → Text → Kind → S → Option S
  unfolding check_explicit
  check_constructor linenum line (class_info c) s =
      check_explicit error filename linenum line c.name s
  check_constructor linenum line _ s = some s

  in_class : ℕ → Text → Option Block → S → Option S
  unfolding check_constructor
  in_class linenum line none s = some s
  in_class linenum line (some b) s =
      if b.seen_open_brace then check_constructor linenum line b.kind s else some s

  -- CheckForNonStandardConstructs; none is the IndexError of the loop over a constructor's arguments.
  unfoldable pub check_for_non_standard_constructs : CleansedLines → ℕ → NestingState → S → Option S
  unfolding check_formats check_declarations in_class innermost_class
  check_for_non_standard_constructs clean_lines linenum n s =
      let line = get_or clean_lines.elided linenum [] in
      in_class linenum line (innermost_class n) (
        check_declarations linenum line
          (check_formats linenum (get_or clean_lines.lines linenum []) s))
