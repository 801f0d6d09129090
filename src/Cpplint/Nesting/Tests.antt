-- ===== src/Cpplint/Nesting/Tests.antt =====
-- Runs and instances of the theorems about NestingState.
use cppecho.Prelude.{◌≡◌, refl, ℕ, ◌+◌, false, List, [], ◌∷◌, ◌++◌, Option, none, some, length, map}
use cppecho.Python.Str.{Text, codes, text_eq, count, find}
use cppecho.Python.Regex.{re_match, re_search, group_text, group_of}
use cppecho.Python.Regex.Scan.{no_newline}
use cppecho.Cpplint.WholeFile.{get_indent_level}
use cppecho.Cpplint.Cleanse.Lines.{CleansedLines}
use cppecho.Cpplint.Nesting.{
  Block, Kind, block_info, extern_c_info, class_info, namespace_info, NestingState, init,
  seen_open_brace,
}
use cppecho.Cpplint.Nesting.Blocks.{new_block}
use cppecho.Cpplint.Nesting.Update.{consume_braces}
use cppecho.Cpplint.Nesting.Update.Braces.{scan_braces, consume_braces-scan_braces}
use cppecho.Cpplint.Nesting.Update.Balanced.{depth_behind, consume_braces-balanced}
use cppecho.Cpplint.Nesting.Update.Regions.{
  Region, end, plain, conditional, no_more, branch, lines_of, kept, Fits, directive_of,
  stack_behind_all, update_all,
}
use cppecho.Cpplint.Nesting.Update.Conditionals.{update_all-kept}

abbrev of_lines : List Text → CleansedLines
of_lines lines = record {
  elided = lines;
  lines = lines;
  raw_lines = lines;
  lines_without_raw_strings = lines;
  num_lines = length lines;
}

abbrev note : Text → ℕ → Text → ℕ → Text → List (ℕ × Text) → List (ℕ × Text)
note filename linenum category confidence message s = (linenum, category) ∷ s

-- A file with namespaces, a class and a conditional.
abbrev file : CleansedLines
file = of_lines (
    codes "namespace a { namespace b {"
    ∷ codes "template <class T, class U>"
    ∷ codes "class Foo : public Bar {"
    ∷ codes "public:"
    ∷ codes "#ifdef X"
    ∷ codes "  void f() {"
    ∷ codes "#else"
    ∷ codes "  void g() {"
    ∷ codes "#endif"
    ∷ codes "  }"
    ∷ codes "  };"
    ∷ codes "} }"
    ∷ [])

abbrev shape : Kind → Text
shape block_info = codes "{"
shape extern_c_info = codes "extern"
shape (class_info c) = codes "class " ++ c.name
shape (namespace_info n) = codes "namespace " ++ n

abbrev shapes : Option (NestingState × List (ℕ × Text)) → List Text × List (ℕ × Text)
shapes none = ([], [])
shapes (some (n, s)) = (map (λ b. shape b.kind) n.stack, s)

update_up_to_f : shapes (update_all note [] file (0 ∷ 1 ∷ 2 ∷ 3 ∷ 4 ∷ 5 ∷ 6 ∷ 7 ∷ []) init []) ≡ (
  codes "{" ∷ codes "class Foo" ∷ codes "namespace b" ∷ codes "namespace a" ∷ [],
  (3, codes "whitespace/indent") ∷ [],
)
unfolding update_all re_match re_search group_of group_text count find text_eq get_indent_level
update_up_to_f = refl

update_to_the_end :
    shapes (update_all note [] file (0 ∷ 1 ∷ 2 ∷ 3 ∷ 4 ∷ 5 ∷ 6 ∷ 7 ∷ 8 ∷ 9 ∷ 10 ∷ 11 ∷ []) init [])
    ≡ (
      [],
      (11, codes "readability/namespace")
          ∷ (11, codes "readability/namespace")
          ∷ (10, codes "whitespace/indent")
          ∷ (3, codes "whitespace/indent")
          ∷ [],
    )
unfolding update_all re_match re_search group_of group_text count find text_eq get_indent_level
update_to_the_end = refl

abbrev code : Text
code = codes "if (a) { b; } else { c(); }"

abbrev function : List Block
function = new_block 3 false ∷ []

consume_braces-scan_braces_example :
    consume_braces note [] (length code + 1) file 5 code function []
    ≡ some (scan_braces note [] file 5 code code function [])
unfolding no_newline
consume_braces-scan_braces_example = consume_braces-scan_braces note [] file 5 code function [] refl

consume_braces-balanced_example :
    (t : List (ℕ × Text)) × (consume_braces note [] (length code + 1) file 5 code function []
      ≡ some (function, t))
unfolding no_newline depth_behind new_block seen_open_brace
consume_braces-balanced_example =
    consume_braces-balanced note [] file 5 code function [] refl refl refl

abbrev region : Region
region = plain 3 (conditional 4 (plain 5 end) (branch 6 (plain 7 end) no_more) 8 (plain 9 end))

update_all-kept_example :
    (t : List (ℕ × Text)) × (p : Option Block) × (update_all note [] file
        (3 ∷ 4 ∷ 5 ∷ 6 ∷ 7 ∷ 8 ∷ 9 ∷ [])
        init
        []
      ≡ some (
        record {
          stack = stack_behind_all [] file (3 ∷ 4 ∷ 5 ∷ 8 ∷ 9 ∷ []) [];
          previous_stack_top = p;
          pp_stack = [];
        },
        t,
      ))
unfolding lines_of kept directive_of Fits re_match
update_all-kept_example = update_all-kept note [] file region init [] (
  (codes "public:", refl, refl),
  (
    (codes "#ifdef X", refl, refl),
    ((codes "  void f() {", refl, refl), tt),
    ((codes "#else", refl, refl), ((codes "  void g() {", refl, refl), tt), tt),
    (codes "#endif", refl, refl),
    ((codes "  }", refl, refl), tt),
  ),
)
