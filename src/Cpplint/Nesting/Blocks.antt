-- ===== src/Cpplint/Nesting/Blocks.antt =====
-- How the objects on the stack of NestingState begin and end: __init__, CheckBegin and CheckEnd of
-- _BlockInfo, _ExternCInfo, _ClassInfo and _NamespaceInfo in tools/cpplint/cpplint.py.
use cppecho.Prelude.{
  ℕ, zero, suc, ◌+◌, ◌-◌, Bool, true, false, not, ◌&&◌, ◌||◌, List, [], ◌∷◌, ◌++◌, Option, none,
  some, ℤ, pos, sub_ℕ, ◌+ℤ◌, eqb_ℤ, ltb, ◌==◌, if◌then◌else◌, length, get_or, drop,
}
use cppecho.Python.Str.{Text, codes, text_eq, count}
use cppecho.Python.Regex.{
  Regex, Found, star, plus, space, lit, bol, eol, dot, boundary, group, one_of, none_of, text, ◌▹◌,
  ◌∣∣◌, re_match, re_search, group_text, matches, occurs,
}
use cppecho.Cpplint.Report.{ErrorHandler}
use cppecho.Cpplint.Cleanse.Lines.{CleansedLines}
use cppecho.Cpplint.WholeFile.{get_indent_level}
use cppecho.Cpplint.Nesting.{
  Block, Kind, ClassInfo, block_info, extern_c_info, class_info, namespace_info, no_asm, block_asm,
}

-- _BlockInfo(linenum, seen_open_brace)
abbrev block : Kind → ℕ → Bool → Bool → Block
block kind linenum seen check = record {
  kind = kind;
  starting_linenum = linenum;
  seen_open_brace = seen;
  open_parentheses = pos 0;
  inline_asm = no_asm;
  check_namespace_indentation = check;
}

unfoldable pub new_block : ℕ → Bool → Block
new_block linenum assembly = record (block block_info linenum true false) {
  inline_asm = if assembly then block_asm else no_asm;
}

-- _ExternCInfo(linenum)
unfoldable pub new_extern_c : ℕ → Block
new_extern_c linenum = block extern_c_info linenum true false

-- _NamespaceInfo(name, linenum), and whether its brace follows on the line
unfoldable pub new_namespace : Text → ℕ → Bool → Block
new_namespace name linenum seen = block (namespace_info name) linenum seen true

-- The first line, from line `i` on, at which as many braces are closed as opened; 0 if there is none.
unfoldable pub find_last_line : ℕ → ℤ → List Text → ℕ
unfolding count
find_last_line i depth [] = 0
find_last_line i depth (line ∷ below) =
    let now = depth +ℤ sub_ℕ (count line (codes "{")) (count line (codes "}")) in
    let rest = find_last_line (i + 1) now below in if eqb_ℤ now (pos 0) then i else rest

-- _ClassInfo(name, class_or_struct, clean_lines, linenum), for a line of the file; `raw_lines` has as many
-- lines as `elided`, so that its read raises nothing.
unfoldable pub new_class : Text → Text → CleansedLines → ℕ → Block
unfolding text_eq get_indent_level find_last_line
new_class name class_or_struct clean_lines linenum =
    let is_struct = text_eq class_or_struct (codes "struct") in
    let info : ClassInfo = record {
      name = name;
      is_derived = false;
      is_struct = is_struct;
      access = if is_struct then codes "public" else codes "private";
      class_indent = get_indent_level (get_or clean_lines.raw_lines linenum []);
      last_line = find_last_line linenum (pos 0) (drop linenum clean_lines.elided);
    } in
    block (class_info info) linenum false true

-- (^|[^:]):($|[^:])
abbrev pub bare_colon : Regex
bare_colon = group 1 (bol ∣∣ none_of ":") ▹ lit ":" ▹ group 2 (eol ∣∣ none_of ":")

begin_kind : Bool → Kind → Kind
begin_kind colon (class_info c) =
    class_info (record c { is_derived = if colon then true else c.is_derived })
begin_kind colon k = k

-- CheckBegin
unfoldable pub check_begin : Text → Block → Block
unfolding begin_kind
check_begin line b = record b { kind = begin_kind (occurs bare_colon line) b.kind }

-- ^\s*$
abbrev pub blank : Regex
blank = bol ▹ star space ▹ eol

-- \b(DISALLOW_COPY_AND_ASSIGN|DISALLOW_IMPLICIT_CONSTRUCTORS)\(<name>\), where the name has no
-- character that a pattern reads in another way
abbrev pub disallow : Text → Regex
disallow name =
    boundary
    ▹ group 1 (lit "DISALLOW_COPY_AND_ASSIGN" ∣∣ lit "DISALLOW_IMPLICIT_CONSTRUCTORS")
    ▹ lit "("
    ▹ text name
    ▹ lit ")"

-- ^( *)\}
abbrev pub closing_indent : Regex
closing_indent = bol ▹ group 1 (star (lit " ")) ▹ lit "}"

-- `'struct ' + name` or `'class ' + name`
unfoldable pub parent_of : ClassInfo → Text
parent_of c = (if c.is_struct then codes "struct " else codes "class ") ++ c.name

-- ^\s*};*\s*(//|/\*).*\bnamespace\b
abbrev pub namespace_comment : Regex
namespace_comment =
    bol
    ▹ star space
    ▹ lit "}"
    ▹ star (lit ";")
    ▹ star space
    ▹ group 1 (lit "//" ∣∣ lit "/*")
    ▹ star dot
    ▹ boundary
    ▹ lit "namespace"

-- [\*/\.\\\s]*$
abbrev pub comment_end : Regex
comment_end = star (one_of "*/.\\" ∣∣ space) ▹ eol

-- ^\s*}.*\b(namespace anonymous|anonymous namespace)\b
abbrev pub anonymous_comment : Regex
anonymous_comment =
    bol
    ▹ star space
    ▹ lit "}"
    ▹ star dot
    ▹ boundary
    ▹ group 1 (lit "namespace anonymous" ∣∣ lit "anonymous namespace")
    ▹ boundary

module _ {ℓ} {S : Type ℓ} (error : ErrorHandler S) (filename : Text) where
  report_macro : ℕ → Bool → Found → S → S
  unfolding group_text
  report_macro i seen_last_thing_in_class m s =
      if seen_last_thing_in_class
      then error filename i (codes "readability/constructors") 3
          (group_text m 1 ++ codes " should be the last thing in the class") s
      else s

  -- The loop of _ClassInfo.CheckEnd: `steps` lines, from line `start + steps` upwards.
  find_macro : Text → List Text → ℕ → ℕ → Bool → S → S
  unfolding report_macro
  find_macro name elided start zero seen s = s
  find_macro name elided start (suc steps) seen s =
      let line = get_or elided (start + suc steps) [] in
      let rest = find_macro name elided start steps (seen || not (matches blank line)) s in
      elim (re_search (disallow name) line) [
        | some m ↦ report_macro (start + suc steps) seen m s
        | none ↦ rest
      ]

  check_closing : ℕ → ClassInfo → Option Found → S → S
  unfolding group_text parent_of
  check_closing linenum c none s = s
  check_closing linenum c (some indent) s =
      if length (group_text indent 1) == c.class_indent
      then s
      else error filename linenum (codes "whitespace/indent") 3
          (codes "Closing brace should be aligned with beginning of " ++ parent_of c) s

  -- _ClassInfo.CheckEnd, for a name that class_decl matches: it has word characters and colons only, which
  -- stand for themselves in the pattern.
  unfoldable pub check_end_class : ClassInfo → ℕ → CleansedLines → ℕ → S → S
  unfolding find_macro check_closing
  check_end_class c starting_linenum clean_lines linenum s =
      check_closing linenum c (re_match closing_indent (get_or clean_lines.elided linenum [])) (
        find_macro c.name clean_lines.elided starting_linenum (linenum - 1 - starting_linenum) false
          s)

  -- The message for a namespace that does not end with the comment for it, if it is large enough
  check_comment : Text → ℕ → Text → S → S
  unfolding text_eq
  check_comment name linenum line s =
      if not (text_eq name [])
      then (if matches (namespace_comment ▹ plus space ▹ text name ▹ comment_end) line
          then s
          else error filename linenum (codes "readability/namespace") 5
              (codes "Namespace should be terminated with \"// namespace " ++ name ++ codes "\"") s)
      else if matches (namespace_comment ▹ comment_end) line
      then s
      else if matches anonymous_comment line
      then error filename linenum (codes "readability/namespace") 5
          (codes
            "Anonymous namespace should be terminated with \"// namespace\" or \"// anonymous namespace\"")
          s
      else error filename linenum (codes "readability/namespace") 5
          (codes "Anonymous namespace should be terminated with \"// namespace\"") s

  -- _NamespaceInfo.CheckEnd, for a line of the file
  unfoldable pub check_end_namespace : Text → ℕ → CleansedLines → ℕ → S → S
  unfolding check_comment
  check_end_namespace name starting_linenum clean_lines linenum s =
      let line = get_or clean_lines.raw_lines linenum [] in
      if ltb linenum (starting_linenum + 10) && not (matches (namespace_comment ▹ boundary) line)
      then s
      else check_comment name linenum line s

  end_kind : Kind → ℕ → CleansedLines → ℕ → S → S
  unfolding check_end_class check_end_namespace
  end_kind (class_info c) start clean_lines linenum s =
      check_end_class c start clean_lines linenum s
  end_kind (namespace_info name) start clean_lines linenum s =
      check_end_namespace name start clean_lines linenum s
  end_kind _ start clean_lines linenum s = s

  -- CheckEnd
  unfoldable pub check_end : Block → CleansedLines → ℕ → S → S
  unfolding end_kind
  check_end b clean_lines linenum s = end_kind b.kind b.starting_linenum clean_lines linenum s
