-- ===== src/Cpplint/Language/Rules.antt =====
-- CheckLanguage of tools/cpplint/cpplint.py.
use cppecho.Prelude.{
  ℕ, ◌+◌, ◌-◌, Bool, not, ◌&&◌, ◌||◌, List, [], ◌∷◌, ◌++◌, Option, none, some, ◌==◌, if◌then◌else◌,
  length, get_or, ◌>>=◌,
}
use cppecho.Python.Str.{Text, codes, text_eq}
use cppecho.Python.Regex.{
  Regex, Found, unless, eps, star, plus, space, word, digit, opt, lit, bol, eol, boundary, group,
  none_of, one_of, set, ◌▹◌, ◌∣∣◌, re_match, re_search, group_text, matches, occurs,
}
use cppecho.Cpplint.Report.{ErrorHandler}
use cppecho.Cpplint.Cleanse.Lines.{CleansedLines}
use cppecho.Cpplint.Files.{FileSystem}
use cppecho.Cpplint.Includes.{IncludeState, reset_section}
use cppecho.Cpplint.Language.Arrays.{check_arrays}
use cppecho.Cpplint.Language.Casts.{check_casts}
use cppecho.Cpplint.Language.Globals.{check_global_static}
use cppecho.Cpplint.Language.Includes.{include_pattern, check_include_line}
use cppecho.Cpplint.Language.Printf.{check_printf, get_text_inside}

-- ^\s*#\s*(if|ifdef|ifndef|elif|else|endif)\b
abbrev pub conditional_directive : Regex
conditional_directive =
    bol
    ▹ star space
    ▹ lit "#"
    ▹ star space
    ▹ group 1 (lit "if" ∣∣ lit "ifdef" ∣∣ lit "ifndef" ∣∣ lit "elif" ∣∣ lit "else" ∣∣ lit "endif")
    ▹ boundary

-- \bshort port\b and \bunsigned short port\b
abbrev pub short_port : Regex
short_port = boundary ▹ lit "short port" ▹ boundary

abbrev pub unsigned_short_port : Regex
unsigned_short_port = boundary ▹ lit "unsigned short port" ▹ boundary

-- \b(short|long(?! +double)|long long)\b
abbrev pub c_integer : Regex
c_integer =
    boundary
    ▹ group 1
        (lit "short" ∣∣ lit "long" ▹ unless (plus (lit " ") ▹ lit "double") ∣∣ lit "long long")
    ▹ boundary

-- \boperator\s*&\s*\(\s*\)
abbrev pub address_operator : Regex
address_operator =
    boundary ▹ lit "operator" ▹ star space ▹ lit "&" ▹ star space ▹ lit "(" ▹ star space ▹ lit ")"

-- \}\s*if\s*\(
abbrev pub brace_if : Regex
brace_if = lit "}" ▹ star space ▹ lit "if" ▹ star space ▹ lit "("

-- A literal of lower case letters, in any case
abbrev any_case : Text → Regex
any_case [] = eps
any_case (c ∷ s) = set (λ d. d == c || d + 32 == c) ▹ any_case s

-- (?i)\b(string)?printf\s*\(
abbrev pub printf_start : Regex
printf_start =
    boundary
    ▹ opt (group 1 (any_case (codes "string")))
    ▹ any_case (codes "printf")
    ▹ star space
    ▹ lit "("

-- \b((?:string)?printf)\s*\(
abbrev pub printf_name : Regex
printf_name =
    boundary
    ▹ group 1 (opt (any_case (codes "string")) ▹ any_case (codes "printf"))
    ▹ star space
    ▹ lit "("

-- ([\w.\->()]+)$
abbrev pub single_argument : Regex
single_argument = group 1 (plus (word ∣∣ one_of ".->()")) ▹ eol

-- memset\s*\(([^,]*),\s*([^,]*),\s*0\s*\)
abbrev pub memset_zero : Regex
memset_zero =
    lit "memset"
    ▹ star space
    ▹ lit "("
    ▹ group 1 (star (none_of ","))
    ▹ lit ","
    ▹ star space
    ▹ group 2 (star (none_of ","))
    ▹ lit ","
    ▹ star space
    ▹ lit "0"
    ▹ star space
    ▹ lit ")"

-- ^''|-?[0-9]+|0x[0-9A-Fa-f]$
abbrev pub memset_value : Regex
memset_value =
    bol ▹ lit "''" ∣∣ opt (lit "-") ▹ plus digit ∣∣ lit "0x" ▹ one_of "0123456789ABCDEFabcdef" ▹ eol

-- \busing namespace\b and \bnamespace\s*{
abbrev pub using_namespace : Regex
using_namespace = boundary ▹ lit "using namespace" ▹ boundary

abbrev pub unnamed_namespace : Regex
unnamed_namespace = boundary ▹ lit "namespace" ▹ star space ▹ lit "{"

module _ {ℓ} {S : Type ℓ} (error : ErrorHandler S) (fs : FileSystem) (filename : Text) where
  abbrev report_if : Bool → ℕ → Text → ℕ → Text → S → S
  report_if test linenum category confidence message s =
      if test then error filename linenum category confidence message s else s

  check_c_integer : ℕ → Option Found → S → S
  unfolding group_text
  check_c_integer linenum none s = s
  check_c_integer linenum (some m) s =
      error filename linenum (codes "runtime/int") 4
        (codes "Use int16/int64/etc, rather than the C type " ++ group_text m 1) s

  check_integers : ℕ → Text → S → S
  unfolding check_c_integer
  check_integers linenum line s =
      if occurs short_port line
      then report_if (not (occurs unsigned_short_port line)) linenum (codes "runtime/int") 4
          (codes "Use \"unsigned short\" for ports, not \"short\"") s
      else check_c_integer linenum (re_search c_integer line) s

  name_of : Option Found → Text
  unfolding group_text
  name_of none = []
  name_of (some m) = group_text m 1

  check_argument : ℕ → Text → Option Found → S → S
  unfolding group_text text_eq name_of
  check_argument linenum line none s = s
  check_argument linenum line (some m) s =
      report_if (not (text_eq (group_text m 1) (codes "__VA_ARGS__"))) linenum
        (codes "runtime/printf") 4
        (codes "Potential format string bug. Do "
          ++ name_of (re_search printf_name line)
          ++ codes "(\"%s\", "
          ++ group_text m 1
          ++ codes ") instead.")
        s

  -- The check of what the parentheses of a printf hold
  check_format : ℕ → Text → Option Text → S → S
  unfolding check_argument
  check_format linenum line none s = s
  check_format linenum line (some printf_args) s =
      check_argument linenum line (re_match single_argument printf_args) s

  check_memset : ℕ → Option Found → S → S
  unfolding group_text
  check_memset linenum none s = s
  check_memset linenum (some m) s =
      report_if (not (matches memset_value (group_text m 2))) linenum (codes "runtime/memset") 4
        (codes "Did you mean \"memset("
          ++ group_text m 1
          ++ codes ", 0, "
          ++ group_text m 2
          ++ codes ")\"?")
        s

  -- The checks of CheckLanguage on the elided line itself; none is an AssertionError of _GetTextInside.
  unfoldable pub check_language_line : Bool → ℕ → Text → S → Option S
  unfolding check_integers check_format check_memset check_arrays get_text_inside
  check_language_line is_header linenum line s =
      let a = check_integers linenum line s in
      let b =
        report_if (occurs brace_if line) linenum (codes "readability/braces") 4
          (codes "Did you mean \"else if\"? If not, start a new line for \"if\".")
          (report_if (occurs address_operator line) linenum (codes "runtime/operator") 4
            (codes "Unary operator& is dangerous.  Do not use it.") a) in
      get_text_inside line printf_start >>= λ printf_args.
      let c =
        check_memset linenum (re_search memset_zero line)
          (check_format linenum line printf_args b) in
      let d =
        report_if (occurs using_namespace line) linenum (codes "build/namespaces") 5
          (codes "Do not use namespace using-directives.  Use using-declarations instead.") c in
      some (
        report_if
          (is_header
            && occurs unnamed_namespace line
            && not (get_or line (length line - 1) 0 == b'\\'))
          linenum (codes "build/namespaces") 4
          (codes
            "Do not use unnamed namespaces in header files.  See https://google-styleguide.googlecode.com/svn/trunk/cppguide.xml#Namespaces for more information.")
          (check_arrays error filename linenum line d))

  at_directive : Option Found → IncludeState → IncludeState
  unfolding group_text reset_section
  at_directive none i = i
  at_directive (some m) i = reset_section (group_text m 1) i

  check_other_line : List Text → Bool → ℕ → Text → IncludeState → S → Option (IncludeState × S)
  unfolding at_directive check_casts check_global_static check_printf check_language_line
  check_other_line elided is_header linenum line i s = do
    t ← check_casts error filename elided linenum s
    u ← check_language_line is_header linenum line (
        check_printf error filename linenum line
          (check_global_static error filename elided linenum t))
    some (at_directive (re_match conditional_directive line) i, u)

  -- CheckLanguage; none is an exception in CheckIncludeLine, CheckCasts or _GetTextInside.
  unfoldable pub check_language :
      CleansedLines → Bool → ℕ → IncludeState → S → Option (IncludeState × S)
  unfolding check_include_line check_other_line
  check_language clean_lines is_header linenum i s =
      let line = get_or clean_lines.elided linenum [] in
      if length line == 0
      then some (i, s)
      else if occurs include_pattern line
      then check_include_line error fs filename clean_lines linenum i s
      else check_other_line clean_lines.elided is_header linenum line i s
