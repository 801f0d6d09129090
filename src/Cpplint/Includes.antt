-- ===== src/Cpplint/Includes.antt =====
-- class _IncludeState of tools/cpplint/cpplint.py: the includes seen so far, and the section that
-- the file's includes have reached.
mod Tests
pub mod Order
pub mod Headers
pub mod Branches
use cppecho.Prelude.{
  ℕ, Bool, true, false, not, ◌&&◌, ◌||◌, List, [], ◌∷◌, ◌++◌, Option, none, some, leb, ◌==◌,
  if◌then◌else◌,
}
use cppecho.Python.Str.{Text, codes, text_eq, text_lt, replace, lower}
use cppecho.Python.Regex.{Regex, bol, star, space, lit, boundary, ◌▹◌, matches}

-- _C_SYS_HEADER and the four constants below it
pub data HeaderType : Type 0 where
  c_sys_header cpp_sys_header likely_my_header possible_my_header other_header : HeaderType

-- _INITIAL_SECTION and the constants below it
abbrev pub initial_section : ℕ
initial_section = 0

abbrev pub my_h_section : ℕ
my_h_section = 1

abbrev pub c_section : ℕ
c_section = 2

abbrev pub cpp_section : ℕ
cpp_section = 3

abbrev pub other_h_section : ℕ
other_h_section = 4

-- _TYPE_NAMES
type_name : HeaderType → Text
type_name c_sys_header = codes "C system header"
type_name cpp_sys_header = codes "C++ system header"
type_name likely_my_header = codes "header this file implements"
type_name possible_my_header = codes "header this file may implement"
type_name other_header = codes "other header"

-- _SECTION_NAMES
section_name : ℕ → Text
section_name s =
    if s == initial_section
    then codes "... nothing. (This can't be an error.)"
    else if s == my_h_section
    then codes "a header this file implements"
    else if s == c_section
    then codes "C system header"
    else if s == cpp_section
    then codes "C++ system header"
    else codes "other header"

pub record IncludeState : Type 0 where
  pub include_list : List (List (Text × ℕ))
  pub section : ℕ
  pub last_header : Text

-- `self.include_list[-1] = []`, for a list that is not empty
empty_last : List (List (Text × ℕ)) → List (List (Text × ℕ))
empty_last [] = []
empty_last (l ∷ []) = [] ∷ []
empty_last (l ∷ m ∷ ls) = l ∷ empty_last (m ∷ ls)

-- The branches of ResetSection on the directive.
list_after : Text → List (List (Text × ℕ)) → List (List (Text × ℕ))
unfolding empty_last
list_after directive ls =
    if text_eq directive (codes "if")
      || text_eq directive (codes "ifdef")
      || text_eq directive (codes "ifndef")
    then ls ++ [] ∷ []
    else if text_eq directive (codes "else") || text_eq directive (codes "elif")
    then empty_last ls
    else ls

unfoldable pub reset_section : Text → IncludeState → IncludeState
unfolding list_after
reset_section directive s = record {
  include_list = list_after directive s.include_list;
  section = initial_section;
  last_header = [];
}

-- __init__
unfoldable pub init : IncludeState
unfolding reset_section
init =
    reset_section []
      (record { include_list = [] ∷ []; section = initial_section; last_header = [] })

find_in_section : Text → List (Text × ℕ) → Option ℕ
unfolding text_eq
find_in_section header [] = none
find_in_section header ((f, n) ∷ fs) =
    if text_eq f header then some n else find_in_section header fs

find_in_sections : Text → List (List (Text × ℕ)) → Option ℕ
unfolding find_in_section
find_in_sections header [] = none
find_in_sections header (l ∷ ls) = elim (find_in_section header l) [
  | some n ↦ some n
  | none ↦ find_in_sections header ls
]

-- FindHeader, with none for -1
unfoldable pub find_header : Text → IncludeState → Option ℕ
unfolding find_in_sections
find_header header s = find_in_sections header s.include_list

unfoldable pub set_last_header : Text → IncludeState → IncludeState
set_last_header header_path s = record s { last_header = header_path }

unfoldable pub canonicalize_alphabetical_order : Text → Text
unfolding replace lower
canonicalize_alphabetical_order header_path =
    lower (replace (replace header_path (codes "-inl.h") (codes ".h")) (codes "-") (codes "_"))

-- ^\s*#\s*include\b
abbrev pub include_directive : Regex
include_directive = bol ▹ star space ▹ lit "#" ▹ star space ▹ lit "include" ▹ boundary

-- IsInAlphabeticalOrder; `previous_line` is `clean_lines.elided[linenum - 1]`.
unfoldable pub is_in_alphabetical_order : Text → Text → IncludeState → Bool
unfolding text_lt
is_in_alphabetical_order previous_line header_path s =
    not (text_lt header_path s.last_header && matches include_directive previous_line)

order_message : HeaderType → ℕ → Text
unfolding type_name section_name
order_message h section = codes "Found " ++ type_name h ++ codes " after " ++ section_name section

-- The section that a header takes the file to; none is the early return with the message.
pub next_section : HeaderType → ℕ → Option ℕ
next_section c_sys_header section = if leb section c_section then some c_section else none
next_section cpp_sys_header section = if leb section cpp_section then some cpp_section else none
next_section likely_my_header section =
    some (if leb section my_h_section then my_h_section else other_h_section)
next_section possible_my_header section =
    some (if leb section my_h_section then my_h_section else other_h_section)
next_section other_header section = some other_h_section

-- CheckNextIncludeOrder. The result is the message, empty when the order is right.
unfoldable pub check_next_include_order : HeaderType → IncludeState → IncludeState × Text
unfolding next_section order_message
check_next_include_order h s = elim (next_section h s.section) [
  | none ↦ (record s { last_header = [] }, order_message h s.section)
  | some now ↦
      (record s { section = now; last_header = if s.section == now then s.last_header else [] }, [])
]
