-- ===== src/Cpplint/Style/Tests.antt =====
-- Runs of the checks of lines, and instances of their theorems.
use cppecho.Prelude.{
  ℕ, ◌≡◌, refl, List, [], ◌∷◌, none, some, length, pos, IsSome, false, true, arith,
}
use cppecho.Python.Str.{Text, codes, count}
use cppecho.Cpplint.Report.{ErrorHandler}
use cppecho.Cpplint.Cleanse.Lines.{CleansedLines}
use cppecho.Cpplint.Nesting.{Block, block_info, no_asm}
use cppecho.Cpplint.Style.Constructs.Arguments.{Outcome, collapse_args-Outcome}
use cppecho.Cpplint.Style.Constructs.Explicit.{collapse_args}
use cppecho.Cpplint.Style.Rules.{Settings}
use cppecho.Cpplint.Style.Braces.{check_braces}
use cppecho.Cpplint.Style.Braces.Total.{check_braces-IsSome}
use cppecho.Cpplint.Style.Macros.{check_check}
use cppecho.Cpplint.Style.Macros.Total.{check_check-IsSome}
use cppecho.Cpplint.Style.Types.{check_braces_spacing}
use cppecho.Cpplint.Style.Types.Total.{check_braces_spacing-IsSome}
use cppecho.Cpplint.Style.Operators.{check_operator_spacing}
use cppecho.Cpplint.Style.Operators.Total.{check_operator_spacing-IsSome}

abbrev note : ErrorHandler (List (ℕ × Text))
note filename linenum category confidence message s = (linenum, category) ∷ s

abbrev no_comments : Text → ℕ → List (ℕ × Text) → List (ℕ × Text)
no_comments raw_line linenum s = s

abbrev settings : Settings
settings = record {
  is_header = true;
  fs = record { cwd = codes "/"; exists = λ path. false };
  root = none;
  line_length = pos 80;
  unicode = record { normalize = λ t. t; is_wide = λ c. false; combining = λ c. false };
}

abbrev of_lines : List Text → CleansedLines
of_lines lines = record {
  elided = lines;
  lines = lines;
  raw_lines = lines;
  lines_without_raw_strings = lines;
  num_lines = length lines;
}

-- An operator method, a shift, a comparison in a macro, and a branch with its brace on one side
abbrev file : CleansedLines
file = of_lines (
    codes ""
    ∷ codes "bool operator<(T a) { CHECK(x << 2 == 4); if (a<b)"
    ∷ codes "} else if (f(a,"
    ∷ codes "           b))"
    ∷ codes "  x=1;};"
    ∷ [])

check_operator_spacing-IsSome_example :
    IsSome (check_operator_spacing note (codes "a.cc") file.elided 1 [])
check_operator_spacing-IsSome_example =
    check_operator_spacing-IsSome note (codes "a.cc") file.elided 1
      (codes "bool operator<(T a) { CHECK(x << 2 == 4); if (a<b)") [] refl

-- A condition that goes on on the next line, whose body has no braces
check_braces-IsSome_example :
    IsSome (check_braces note (codes "a.cc") settings.unicode settings.line_length file.elided 2 [])
check_braces-IsSome_example =
    check_braces-IsSome note (codes "a.cc") settings.unicode settings.line_length file.elided 2
      (codes "} else if (f(a,") [] refl

abbrev block : Block
block = record {
  kind = block_info;
  starting_linenum = 0;
  seen_open_brace = true;
  open_parentheses = pos 0;
  inline_asm = no_asm;
  check_namespace_indentation = false;
}

check_braces_spacing-IsSome_example : IsSome (
    check_braces_spacing note
      (codes "a.cc")
      (codes "T f(T a){" ∷ codes "return T{};}" ∷ [])
      0
      (block ∷ [])
      [])
check_braces_spacing-IsSome_example =
    check_braces_spacing-IsSome note (codes "a.cc") (codes "T f(T a){" ∷ codes "return T{};}" ∷ [])
      0 (block ∷ []) (codes "T f(T a){") [] refl (omega arith, tt)

check_check-IsSome_example : IsSome (check_check note (codes "a.cc") file.elided 1 [])
check_check-IsSome_example =
    check_check-IsSome note (codes "a.cc") file.elided 1
      (codes "bool operator<(T a) { CHECK(x << 2 == 4); if (a<b)") [] refl

-- An argument with a comma inside brackets, and one that a comma follows
abbrev arguments : List Text
arguments = codes "map<int" ∷ codes " int> m" ∷ codes " f(1)" ∷ []

collapse_args-Outcome_example : Outcome arguments (collapse_args arguments)
collapse_args-Outcome_example = collapse_args-Outcome arguments

-- The brackets of the shift count, so that the loop reads behind the last argument.
joined : collapse_args arguments ≡ some (codes "map<int, int> m" ∷ codes " f(1)" ∷ [])
unfolding collapse_args count
joined = refl

not_joined : collapse_args (codes "int x = 1 << 3" ∷ []) ≡ none
unfolding collapse_args count
not_joined = refl
