-- ===== src/Cpplint/Includes/Tests.antt =====
-- Runs and instances of the theorems about includes.
use cppecho.Prelude.{◌≡◌, refl, true, false, List, [], ◌∷◌, ◌++◌, some, if◌then◌else◌}
use cppecho.Python.Str.{codes, text_eq}
use cppecho.Python.Regex.{re_match}
use cppecho.Cpplint.Includes.{
  HeaderType, c_sys_header, cpp_sys_header, likely_my_header, possible_my_header, other_header,
  IncludeState, reset_section, find_header, canonicalize_alphabetical_order,
  is_in_alphabetical_order, check_next_include_order,
}
use cppecho.Cpplint.Includes.Headers.{FirstAt, Include, includes, find_header_lem}
use cppecho.Cpplint.Includes.Branches.{but_last, is_else, outer, add_includes, reset_section_lem}

abbrev included : IncludeState
included = record {
  include_list = ((codes "a.h", 3) ∷ (codes "b.h", 4) ∷ []) ∷ ((codes "a.h", 7) ∷ []) ∷ [];
  section = 3;
  last_header = codes "b.h";
}

late_c_header :
    check_next_include_order c_sys_header included
    ≡ (record included { last_header = [] }, codes "Found C system header after C++ system header")
unfolding check_next_include_order
late_c_header = refl

found_first : find_header (codes "a.h") included ≡ some 3
unfolding find_header
found_first = refl

canonical : canonicalize_alphabetical_order (codes "Foo/my-file-inl.h") ≡ codes "foo/my_file.h"
unfolding canonicalize_alphabetical_order
canonical = refl

alphabetical :
    (is_in_alphabetical_order (codes "#include <b.h>") (codes "a.h") included ≡ false)
    × (is_in_alphabetical_order [] (codes "a.h") included ≡ true)
unfolding is_in_alphabetical_order re_match
alphabetical = (refl, refl)

abbrev good_order : List HeaderType
good_order =
    likely_my_header ∷ c_sys_header ∷ cpp_sys_header ∷ other_header ∷ possible_my_header ∷ []

find_header_lem_example :
    FirstAt (codes "a.h") (includes included.include_list) (find_header (codes "a.h") included)
find_header_lem_example = find_header_lem (codes "a.h") included

abbrev branch : List Include
branch = (codes "a.h", 9) ∷ (codes "c.h", 10) ∷ []

reset_section_lem_example :
    let reset = reset_section (codes "ifdef") included in
    let later = reset_section (codes "else") (add_includes branch reset) in
    (includes reset.include_list
      ≡ includes (
          if is_else (codes "ifdef")
          then but_last included.include_list
          else included.include_list))
    × (reset.section ≡ 0)
    × (reset.last_header ≡ [])
    × (later.include_list ≡ outer (codes "ifdef") included.include_list ++ [] ∷ [])
    × (find_header (codes "c.h") later
        ≡ find_header
            (codes "c.h")
            (record included { include_list = outer (codes "ifdef") included.include_list }))
unfolding text_eq
reset_section_lem_example =
    reset_section_lem (codes "ifdef") (codes "else") (codes "c.h") branch included (λ e. cc) refl
