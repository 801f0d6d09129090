-- ===== src/Cpplint/Guard.antt =====
-- GetHeaderGuardCPPVariable and CheckForHeaderGuard of tools/cpplint/cpplint.py. The check works on the
-- state of the program, since it parses NOLINT comments and reports errors.
mod Tests
pub mod Names
pub mod Scan
use cppecho.Prelude.{
  ℕ, zero, suc, ◌+◌, ◌-◌, Bool, true, false, not, ◌&&◌, ◌||◌, List, [], ◌∷◌, ◌++◌, Option, none,
  some, leb, ◌==◌, if◌then◌else◌, length, take, drop, get_or, any, ◌>>=◌,
}
use cppecho.Python.Str.{Text, codes, text_eq, startswith, replace, upper, words}
use cppecho.Python.Path.{path_join_all, abspath}
use cppecho.Python.Regex.{
  Regex, Found, star, opt, text, lit, bol, eol, boundary, space, none_of, group, is_digit, ◌▹◌,
  ◌∣∣◌, re_match, sub, group_text, matches, occurs,
}
use cppecho.Cpplint.Suppress.{Suppressions, parse_nolint_suppressions}
use cppecho.Cpplint.Report.{Linter, error}
use cppecho.Cpplint.Files.{FileSystem, full_name, repository_name, path_split_to_list}

-- _flymake\.h$ and /\.flymake/([^/]*)$
abbrev pub flymake_suffix : Regex
flymake_suffix = lit "_flymake.h" ▹ eol

abbrev pub flymake_dir : Regex
flymake_dir = lit "/.flymake/" ▹ group 1 (star (none_of "/")) ▹ eol

-- The name without what Emacs puts in it, and with `cpp` for `c++`.
unfoldable pub original_name : Text → Text
unfolding sub group_text replace
original_name filename =
    let name = sub flymake_suffix (λ m. codes ".h") filename in
    let name' = sub flymake_dir (λ m. codes "/" ++ group_text m 1) name in
    replace (replace name' (codes "C++") (codes "cpp")) (codes "c++") (codes "cpp")

-- StripListPrefix
unfoldable pub strip_list_prefix : List Text → List Text → Option (List Text)
unfolding text_eq
strip_list_prefix lst [] = some lst
strip_list_prefix [] (p ∷ prefix) = none
strip_list_prefix (l ∷ lst) (p ∷ prefix) =
    let rest = strip_list_prefix lst prefix in if text_eq l p then rest else none

-- `if maybe_path: return os.path.join(*maybe_path)`
or_path : Option (List Text) → Text → Text
unfolding path_join_all
or_path none path = path
or_path (some []) path = path
or_path (some (p ∷ ps)) path = path_join_all (p ∷ ps)

-- FixupPathFromRoot for the setting _root, which is None or a path
unfoldable pub fixup_path_from_root : FileSystem → Option Text → Text → Text → Text
unfolding or_path strip_list_prefix path_split_to_list full_name abspath
fixup_path_from_root fs none filename file_path_from_root = file_path_from_root
fixup_path_from_root fs (some []) filename file_path_from_root = file_path_from_root
fixup_path_from_root fs (some (c ∷ root)) filename file_path_from_root =
    or_path
      (strip_list_prefix (path_split_to_list file_path_from_root) (path_split_to_list (c ∷ root)))
      (or_path
        (strip_list_prefix (path_split_to_list (full_name fs filename))
          (path_split_to_list (abspath fs.cwd (c ∷ root))))
        file_path_from_root)

-- [a-zA-Z0-9]
abbrev pub is_alphanumeric : ℕ → Bool
is_alphanumeric c = leb b'a' c && leb c b'z' || leb b'A' c && leb c b'Z' || is_digit c

underscored : Text → Text
underscored [] = []
underscored (c ∷ s) = (if is_alphanumeric c then c else b'_') ∷ underscored s

-- `re.sub(r'[^a-zA-Z0-9]', '_', path).upper() + '_'`
unfoldable pub guard_of : Text → Text
unfolding underscored upper
guard_of path = upper (underscored path) ++ codes "_"

-- GetHeaderGuardCPPVariable; none means that RepositoryName does not end.
unfoldable pub get_header_guard_cpp_variable : FileSystem → Option Text → Text → Option Text
unfolding original_name fixup_path_from_root guard_of repository_name
get_header_guard_cpp_variable fs root filename = do
  file_path_from_root ← repository_name fs (original_name filename)
  some (guard_of (fixup_path_from_root fs root (original_name filename) file_path_from_root))

-- //\s*NOLINT\(build/header_guard\)
abbrev pub nolint_guard : Regex
nolint_guard = lit "//" ▹ star space ▹ lit "NOLINT(build/header_guard)"

-- What the loop over the lines finds.
pub record Guard : Type 0 where
  pub ifndef : Text
  pub ifndef_linenum : ℕ
  pub define : Text
  pub endif : Text
  pub endif_linenum : ℕ

abbrev pub no_guard : Guard
no_guard = record { ifndef = []; ifndef_linenum = 0; define = []; endif = []; endif_linenum = 0 }

-- The branches on the words of a line.
scan_words : ℕ → List Text → Guard → Guard
unfolding text_eq
scan_words linenum (first ∷ second ∷ more) g =
    let is_ifndef = text_eq g.ifndef [] && text_eq first (codes "#ifndef") in
    record g {
      ifndef = if is_ifndef then second else g.ifndef;
      ifndef_linenum = if is_ifndef then linenum else g.ifndef_linenum;
      define = if text_eq g.define [] && text_eq first (codes "#define") then second else g.define;
    }
scan_words linenum _ g = g

scan_endif : ℕ → Text → Guard → Guard
unfolding startswith
scan_endif linenum line g =
    if startswith line (codes "#endif")
    then record g { endif = line; endif_linenum = linenum }
    else g

-- The loop, from the line of a number on.
unfoldable pub scan_guard : ℕ → List Text → Guard → Guard
unfolding scan_words scan_endif words
scan_guard linenum [] g = g
scan_guard linenum (line ∷ lines) g =
    scan_guard (linenum + 1) lines (scan_endif linenum line (scan_words linenum (words line) g))

-- #endif\s*//\s*VAR(_)?\b and #endif\s*/\*\s*VAR(_)?\s*\*/
abbrev pub endif_slashes : Text → Regex
endif_slashes cppvar =
    lit "#endif"
    ▹ star space
    ▹ lit "//"
    ▹ star space
    ▹ text cppvar
    ▹ opt (group 1 (lit "_"))
    ▹ boundary

abbrev pub endif_stars : Text → Regex
endif_stars cppvar =
    lit "#endif"
    ▹ star space
    ▹ lit "/*"
    ▹ star space
    ▹ text cppvar
    ▹ opt (group 1 (lit "_"))
    ▹ star space
    ▹ lit "*/"

-- ^(?:(?:\'(?:\.|[^\'])*\')|(?:"(?:\.|[^"])*")|[^\'"])*//
abbrev pub slash_comment : Regex
slash_comment =
    bol
    ▹ star (
        lit "'" ▹ star (lit "." ∣∣ none_of "'") ▹ lit "'"
        ∣∣ lit "\"" ▹ star (lit "." ∣∣ none_of "\"") ▹ lit "\""
        ∣∣ none_of "'\"")
    ▹ lit "//"

-- `no_single_line_comments`
unfoldable pub no_single_line_comments : List Text → Bool
no_single_line_comments raw_lines =
    not (any (λ line. matches slash_comment line) (take (length raw_lines - 2) (drop 1 raw_lines)))

module _ (filename : Text) where
  guard_error : ℕ → ℕ → Text → Option Linter → Option Linter
  unfolding error
  guard_error linenum level message l =
      error filename linenum (codes "build/header_guard") level message l

  nolint_error : ℕ → Suppressions × Option Text → Linter → Option Linter
  unfolding error
  nolint_error linenum (sup, none) l = some (record l { suppressions = sup })
  nolint_error linenum (sup, some message) l =
      error filename linenum (codes "readability/nolint") 5 message
        (some (record l { suppressions = sup }))

  -- ParseNolintSuppressions with Error as its handler
  unfoldable pub parse_nolint : Text → ℕ → Option Linter → Option Linter
  unfolding nolint_error parse_nolint_suppressions
  parse_nolint raw_line linenum none = none
  parse_nolint raw_line linenum (some l) =
      nolint_error linenum (parse_nolint_suppressions raw_line linenum l.suppressions) l

  -- The check of the name on the #ifndef line
  check_ifndef : List Text → Text → Guard → Option Linter → Option Linter
  unfolding guard_error parse_nolint text_eq
  check_ifndef raw_lines cppvar g l =
      if text_eq g.ifndef cppvar
      then l
      else guard_error g.ifndef_linenum (if text_eq g.ifndef (cppvar ++ codes "_") then 0 else 5)
          (codes "#ifndef header guard has wrong style, please use: " ++ cppvar)
          (parse_nolint (get_or raw_lines g.ifndef_linenum []) g.ifndef_linenum l)

  -- A comment behind #endif: an error of level 0 if the name has a second underscore.
  accept_endif : Text → Found → Guard → Option Linter → Option Linter
  unfolding guard_error group_text text_eq
  accept_endif message m g l =
      if text_eq (group_text m 1) (codes "_") then guard_error g.endif_linenum 0 message l else l

  slashes_message : Text → Text
  slashes_message cppvar = codes "#endif line should be \"#endif  // " ++ cppvar ++ codes "\""

  stars_message : Text → Text
  stars_message cppvar = codes "#endif line should be \"#endif  /* " ++ cppvar ++ codes " */\""

  check_stars : Text → Guard → Option Found → Option Linter → Option Linter
  unfolding guard_error accept_endif slashes_message stars_message
  check_stars cppvar g none l = guard_error g.endif_linenum 5 (slashes_message cppvar) l
  check_stars cppvar g (some m) l = accept_endif (stars_message cppvar) m g l

  check_slashes : List Text → Text → Guard → Option Found → Option Linter → Option Linter
  unfolding check_stars no_single_line_comments
  check_slashes raw_lines cppvar g (some m) l = accept_endif (slashes_message cppvar) m g l
  check_slashes raw_lines cppvar g none l =
      if no_single_line_comments raw_lines
      then check_stars cppvar g (re_match (endif_stars cppvar) g.endif) l
      else check_stars cppvar g none l

  -- The check of the lines, given the variable
  unfoldable pub check_guard : List Text → Text → Guard → Option Linter → Option Linter
  unfolding check_ifndef check_slashes
  check_guard raw_lines cppvar g l =
      if text_eq g.ifndef [] || text_eq g.define [] || not (text_eq g.ifndef g.define)
      then guard_error 0 5
          (codes "No #ifndef header guard found, suggested CPP variable is: " ++ cppvar) l
      else check_slashes raw_lines cppvar g (re_match (endif_slashes cppvar) g.endif) (
          parse_nolint (get_or raw_lines g.endif_linenum []) g.endif_linenum
            (check_ifndef raw_lines cppvar g l))

  -- CheckForHeaderGuard; none is what it is for `error`, or that RepositoryName does not end.
  unfoldable pub check_for_header_guard :
      FileSystem → Option Text → List Text → Option Linter → Option Linter
  unfolding check_guard scan_guard get_header_guard_cpp_variable
  check_for_header_guard fs root raw_lines l =
      if any (λ line. occurs nolint_guard line) raw_lines then l else (do
        cppvar ← get_header_guard_cpp_variable fs root filename
        check_guard raw_lines cppvar (scan_guard 0 raw_lines no_guard) l)
