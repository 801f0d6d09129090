-- ===== src/Cpplint/Language/Includes.antt =====
-- CheckIncludeLine of tools/cpplint/cpplint.py, over the include state and the names of files.
use cppecho.Prelude.{
  ℕ, Bool, not, ◌&&◌, List, [], ◌∷◌, ◌++◌, Option, none, some, leb, ◌==◌, if◌then◌else◌, length,
  get_or, ◌>>=◌,
}
use cppecho.Python.Str.{Text, codes, text_eq, endswith, decimal}
use cppecho.Python.Path.{dirname}
use cppecho.Python.Regex.{
  Regex, Found, star, plus, space, lit, bol, eol, dot, group, none_of, one_of, set, ◌▹◌, ◌∣∣◌,
  re_match, re_search, group_text, matches,
}
use cppecho.Cpplint.Report.{ErrorHandler}
use cppecho.Cpplint.Cleanse.Lines.{CleansedLines}
use cppecho.Cpplint.Files.{FileSystem, repository_name, base_name}
use cppecho.Cpplint.Files.Headers.{classify_include}
use cppecho.Cpplint.Includes.{
  HeaderType, IncludeState, find_header, set_last_header, canonicalize_alphabetical_order,
  is_in_alphabetical_order, check_next_include_order,
}
use cppecho.Cpplint.Style.Blanks.{line_before}

-- _RE_PATTERN_INCLUDE: ^\s*#\s*include\s*([<"])([^>"]*)[>"].*$
abbrev pub include_pattern : Regex
include_pattern =
    bol
    ▹ star space
    ▹ lit "#"
    ▹ star space
    ▹ lit "include"
    ▹ star space
    ▹ group 1 (one_of "<\"")
    ▹ group 2 (star (none_of ">\""))
    ▹ one_of ">\""
    ▹ star dot
    ▹ eol

-- #include\s*"([^/]+\.h)"
abbrev pub include_in_directory : Regex
include_in_directory =
    lit "#include" ▹ star space ▹ lit "\"" ▹ group 1 (plus (none_of "/") ▹ lit ".h") ▹ lit "\""

-- _THIRD_PARTY_HEADERS_PATTERN: ^(?:[^/]*[A-Z][^/]*\.h|lua\.h|lauxlib\.h|lualib\.h)$
abbrev pub third_party_headers : Regex
third_party_headers =
    bol
    ▹ (star (none_of "/") ▹ set (λ c. leb b'A' c && leb c b'Z') ▹ star (none_of "/") ▹ lit ".h"
        ∣∣ lit "lua.h"
        ∣∣ lit "lauxlib.h"
        ∣∣ lit "lualib.h")
    ▹ eol

-- `self.include_list[-1].append((include, linenum))`, for a list that is not empty
unfoldable pub append_to_last : Text × ℕ → List (List (Text × ℕ)) → List (List (Text × ℕ))
append_to_last entry [] = []
append_to_last entry (section ∷ []) = (section ++ (entry ∷ [])) ∷ []
append_to_last entry (section ∷ next ∷ sections) = section ∷ append_to_last entry (next ∷ sections)

unfoldable pub add_include : Text → ℕ → IncludeState → IncludeState
unfolding append_to_last
add_include include linenum i = record i {
  include_list = append_to_last (include, linenum) i.include_list;
}

module _ {ℓ} {S : Type ℓ} (error : ErrorHandler S) (fs : FileSystem) (filename : Text) where
  check_directory : ℕ → Option Found → S → S
  unfolding group_text
  check_directory linenum none s = s
  check_directory linenum (some m) s =
      if matches third_party_headers (group_text m 1)
      then s
      else error filename linenum (codes "build/include") 4
          (codes "Include the directory when naming .h files") s

  -- The order of a header that is neither a duplicate nor of a third party
  check_order : CleansedLines → ℕ → Text → Text → HeaderType → IncludeState → S → IncludeState × S
  unfolding add_include check_next_include_order canonicalize_alphabetical_order
      is_in_alphabetical_order set_last_header base_name line_before
  check_order clean_lines linenum repository include header i s =
      let (j, error_message) = check_next_include_order header (add_include include linenum i) in
      let t =
        if length error_message == 0
        then s
        else error filename linenum (codes "build/include_order") 4
            (error_message
              ++ codes ". Should be: "
              ++ base_name repository
              ++ codes ".h, c system, c++ system, other.")
            s in
      let canonical_include = canonicalize_alphabetical_order include in
      let u =
        if is_in_alphabetical_order (line_before clean_lines.elided linenum) canonical_include j
        then t
        else error filename linenum (codes "build/include_alpha") 4
            (codes "Include \"" ++ include ++ codes "\" not in alphabetical order") t in
      (set_last_header canonical_include j, u)

  -- The checks of a header that is included for the first time, with the name of the file in the
  -- repository
  check_new_include :
      CleansedLines → ℕ → Text → Text → Bool → IncludeState → S → Option (IncludeState × S)
  unfolding endswith text_eq dirname classify_include check_order
  check_new_include clean_lines linenum repository include is_system i s =
      if endswith include (codes ".cc") && not (text_eq (dirname repository) (dirname include))
      then some (
        i,
        error filename linenum (codes "build/include") 4
            (codes "Do not include .cc files from other packages") s,
      )
      else if matches third_party_headers include
      then some (i, s)
      else (classify_include fs filename include is_system >>= λ header.
          some (check_order clean_lines linenum repository include header i s))

  check_include : CleansedLines → ℕ → Option Found → IncludeState → S → Option (IncludeState × S)
  unfolding group_text text_eq find_header decimal check_new_include repository_name
  check_include clean_lines linenum none i s = some (i, s)
  check_include clean_lines linenum (some m) i s =
      let include = group_text m 2 in
      elim (find_header include i) [
        | some duplicate_line ↦ some (
          i,
          error filename linenum (codes "build/include") 4
              (codes "\""
                ++ include
                ++ codes "\" already included at "
                ++ filename
                ++ codes ":"
                ++ decimal duplicate_line)
              s,
        )
        | none ↦ repository_name fs filename >>= λ repository.
            check_new_include clean_lines linenum repository include
              (text_eq (group_text m 1) (codes "<")) i s
      ]

  -- CheckIncludeLine; none is a file name that FileInfo cannot resolve.
  unfoldable pub check_include_line :
      CleansedLines → ℕ → IncludeState → S → Option (IncludeState × S)
  unfolding check_directory check_include
  check_include_line clean_lines linenum i s =
      let line = get_or clean_lines.lines linenum [] in
      check_include clean_lines linenum (re_search include_pattern line) i
        (check_directory linenum (re_match include_in_directory line) s)
