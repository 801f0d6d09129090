-- ===== src/Cpplint/Style/Lines.antt =====
-- Small checks of tools/cpplint/cpplint.py, each of one line: CheckForMultilineCommentsAndStrings,
-- CheckPosixThreading, CheckVlogArguments, CheckInvalidIncrement, CheckMakePairUsesDeduction,
-- FlagCxx11Features and FlagCxx14Features.
use cppecho.Prelude.{
  ℕ, ◌-◌, ◌%◌, Bool, true, false, not, ◌&&◌, List, [], ◌∷◌, ◌++◌, Option, none, some, ltb, ◌==◌,
  if◌then◌else◌,
}
use cppecho.Python.Str.{Text, codes, count, replace, startswith, member}
use cppecho.Python.Regex.{
  Regex, Found, star, plus, space, word, lit, bol, boundary, group, one_of, none_of, text, ◌▹◌,
  ◌∣∣◌, re_match, group_text, matches, occurs,
}
use cppecho.Cpplint.Report.{ErrorHandler}

-- A function that is not thread-safe: its name, and what its parentheses hold: some text, or nothing.
pub record Threading : Type 0 where
  pub function : Text
  pub has_arguments : Bool

abbrev with_arguments : Text → Threading
with_arguments function = record { function = function; has_arguments = true }

abbrev without_arguments : Text → Threading
without_arguments function = record { function = function; has_arguments = false }

-- _THREADING_LIST
unfoldable pub threading_list : List Threading
threading_list =
    with_arguments (codes "asctime")
    ∷ with_arguments (codes "ctime")
    ∷ with_arguments (codes "getgrgid")
    ∷ with_arguments (codes "getgrnam")
    ∷ without_arguments (codes "getlogin")
    ∷ with_arguments (codes "getpwnam")
    ∷ with_arguments (codes "getpwuid")
    ∷ with_arguments (codes "gmtime")
    ∷ with_arguments (codes "localtime")
    ∷ without_arguments (codes "rand")
    ∷ with_arguments (codes "strtok")
    ∷ with_arguments (codes "ttyname")
    ∷ []

-- (?:[-+*/=%^&|(<]\s*|>\s+)
abbrev pub unsafe_func_prefix : Regex
unsafe_func_prefix = one_of "-+*/=%^&|(<" ▹ star space ∣∣ lit ">" ▹ plus space

-- The validation pattern: the prefix, the name, and \([^)]+\) or \(\)
unfoldable pub threading_pattern : Threading → Regex
threading_pattern f =
    unsafe_func_prefix
    ▹ text f.function
    ▹ (if f.has_arguments then lit "(" ▹ plus (none_of ")") ▹ lit ")" else lit "()")

-- \bVLOG\((INFO|ERROR|WARNING|DFATAL|FATAL)\)
abbrev pub vlog : Regex
vlog =
    boundary
    ▹ lit "VLOG("
    ▹ group 1 (lit "INFO" ∣∣ lit "ERROR" ∣∣ lit "WARNING" ∣∣ lit "DFATAL" ∣∣ lit "FATAL")
    ▹ lit ")"

-- ^\s*\*\w+(\+\+|--);
abbrev pub invalid_increment : Regex
invalid_increment =
    bol ▹ star space ▹ lit "*" ▹ plus word ▹ group 1 (lit "++" ∣∣ lit "--") ▹ lit ";"

-- \bmake_pair\s*<
abbrev pub explicit_makepair : Regex
explicit_makepair = boundary ▹ lit "make_pair" ▹ star space ▹ lit "<"

-- \s*#\s*include\s+[<"]([^<"]+)[">]
abbrev pub include : Regex
include =
    star space
    ▹ lit "#"
    ▹ star space
    ▹ lit "include"
    ▹ plus space
    ▹ one_of "<\""
    ▹ group 1 (plus (none_of "<\""))
    ▹ one_of "\">"

-- \s*# and \s*#\s*define\b
abbrev pub directive : Regex
directive = star space ▹ lit "#"

abbrev pub define : Regex
define = star space ▹ lit "#" ▹ star space ▹ lit "define" ▹ boundary

abbrev pub unapproved_cxx11_headers : List Text
unapproved_cxx11_headers =
    codes "cfenv"
    ∷ codes "condition_variable"
    ∷ codes "fenv.h"
    ∷ codes "future"
    ∷ codes "mutex"
    ∷ codes "thread"
    ∷ codes "chrono"
    ∷ codes "ratio"
    ∷ codes "regex"
    ∷ codes "system_error"
    ∷ []

module _ {ℓ} {S : Type ℓ} (error : ErrorHandler S) (filename : Text) where
  check_comment_marks : ℕ → Text → S → S
  unfolding count
  check_comment_marks linenum line s =
      if ltb (count line (codes "*/")) (count line (codes "/*"))
      then error filename linenum (codes "readability/multiline_comment") 5
          (codes
            "Complex multi-line /*...*/-style comment found. Lint may give bogus warnings.  Consider replacing these with //-style comments, with #if 0...#endif, or with more clearly structured multi-line comments.")
          s
      else s

  -- Each escaped quote is a quote too, so the difference is not negative.
  check_quotes : ℕ → Text → S → S
  unfolding count
  check_quotes linenum line s =
      if (count line (codes "\"") - count line (codes "\\\"")) % 2 == 0
      then s
      else error filename linenum (codes "readability/multiline_string") 5
          (codes
            "Multi-line string (\"...\") found.  This lint script doesn't do well with such strings, and may give bogus warnings.  Use C++11 raw strings or concatenation instead.")
          s

  -- CheckForMultilineCommentsAndStrings, on the elided line
  unfoldable pub check_for_multiline_comments_and_strings : ℕ → Text → S → S
  unfolding check_comment_marks check_quotes replace
  check_for_multiline_comments_and_strings linenum elided s =
      let line = replace elided (codes "\\\\") [] in
      check_quotes linenum line (check_comment_marks linenum line s)

  check_threading : ℕ → Text → List Threading → S → S
  unfolding threading_pattern
  check_threading linenum line [] s = s
  check_threading linenum line (f ∷ fs) s = check_threading linenum line fs (
      if occurs (threading_pattern f) line
      then error filename linenum (codes "runtime/threadsafe_fn") 2
          (codes "Consider using "
            ++ f.function
            ++ codes "_r(...) instead of "
            ++ f.function
            ++ codes "(...) for improved thread safety.")
          s
      else s)

  -- CheckPosixThreading
  unfoldable pub check_posix_threading : ℕ → Text → S → S
  unfolding check_threading threading_list
  check_posix_threading linenum line s = check_threading linenum line threading_list s

  -- CheckVlogArguments
  unfoldable pub check_vlog_arguments : ℕ → Text → S → S
  check_vlog_arguments linenum line s =
      if occurs vlog line
      then error filename linenum (codes "runtime/vlog") 5
          (codes
            "VLOG() should be used with numeric verbosity level.  Use LOG() if you want symbolic severity levels.")
          s
      else s

  -- CheckInvalidIncrement
  unfoldable pub check_invalid_increment : ℕ → Text → S → S
  check_invalid_increment linenum line s =
      if matches invalid_increment line
      then error filename linenum (codes "runtime/invalid_increment") 5
          (codes "Changing pointer instead of value (or unused value of operator*).") s
      else s

  -- CheckMakePairUsesDeduction
  unfoldable pub check_make_pair_uses_deduction : ℕ → Text → S → S
  check_make_pair_uses_deduction linenum line s =
      if occurs explicit_makepair line
      then error filename linenum (codes "build/explicit_make_pair") 4
          (codes
            "For C++11-compatibility, omit template arguments from make_pair OR use pair directly OR if appropriate, construct a pair directly")
          s
      else s

  flag_tr1 : ℕ → Text → S → S
  unfolding startswith
  flag_tr1 linenum header s =
      if startswith header (codes "tr1/")
      then error filename linenum (codes "build/c++tr1") 5
          (codes "C++ TR1 headers such as <" ++ header ++ codes "> are unapproved.") s
      else s

  flag_cxx11 : ℕ → Text → S → S
  unfolding member
  flag_cxx11 linenum header s =
      if member header unapproved_cxx11_headers
      then error filename linenum (codes "build/c++11") 5
          (codes "<" ++ header ++ codes "> is an unapproved C++11 header.") s
      else s

  flag_headers : ℕ → Option Found → S → S
  unfolding flag_tr1 flag_cxx11 group_text
  flag_headers linenum none s = s
  flag_headers linenum (some m) s =
      flag_cxx11 linenum (group_text m 1) (flag_tr1 linenum (group_text m 1) s)

  flag_name : ℕ → Text → Text → S → S
  flag_name linenum line top_name s =
      if occurs (boundary ▹ lit "std::" ▹ text top_name ▹ boundary) line
      then error filename linenum (codes "build/c++11") 5
          (codes "std::"
            ++ top_name
            ++ codes
                " is an unapproved C++11 class or function.  Send c-style an example of where it would make your code more readable, and they may let you use it.")
          s
      else s

  -- FlagCxx11Features
  unfoldable pub flag_cxx11_features : ℕ → Text → S → S
  unfolding flag_headers flag_name
  flag_cxx11_features linenum line s =
      let t = flag_headers linenum (re_match include line) s in
      if matches directive line && not (matches define line)
      then t
      else flag_name linenum line (codes "aligned_union")
          (flag_name linenum line (codes "alignment_of") t)

  flag_cxx14 : ℕ → Option Found → S → S
  unfolding group_text member
  flag_cxx14 linenum none s = s
  flag_cxx14 linenum (some m) s =
      if member (group_text m 1) (codes "scoped_allocator" ∷ codes "shared_mutex" ∷ [])
      then error filename linenum (codes "build/c++14") 5
          (codes "<" ++ group_text m 1 ++ codes "> is an unapproved C++14 header.") s
      else s

  -- FlagCxx14Features
  unfoldable pub flag_cxx14_features : ℕ → Text → S → S
  unfolding flag_cxx14
  flag_cxx14_features linenum line s = flag_cxx14 linenum (re_match include line) s
