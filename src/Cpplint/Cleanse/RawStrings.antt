-- ===== src/Cpplint/Cleanse/RawStrings.antt =====
-- CleanseRawStrings of tools/cpplint/cpplint.py.
pub mod Total
use cppecho.Prelude.{
  ℕ, zero, suc, ◌+◌, Bool, true, false, not, ◌&&◌, ◌||◌, ◌==◌, List, [], ◌∷◌, ◌++◌, Option, none,
  some, if◌then◌else◌, length, drop,
}
use cppecho.Python.Str.{Text, codes, find, is_space}
use cppecho.Python.Regex.{
  Regex, Found, lit, star, lazy, set, non_space, space, bol, eol, boundary, dot, none_of, group,
  ◌▹◌, ◌∣∣◌, re_match, group_text, matches,
}

-- ^(\s*)\S
abbrev pub leading_space_pattern : Regex
leading_space_pattern = bol ▹ group 1 (star space) ▹ non_space

-- ^(.*?)\b(?:R|u8R|uR|UR|LR)"([^\s\\()]*)\((.*)$
abbrev pub raw_string_start : Regex
raw_string_start =
    bol
    ▹ group 1 (lazy dot)
    ▹ boundary
    ▹ (lit "R" ∣∣ lit "u8R" ∣∣ lit "uR" ∣∣ lit "UR" ∣∣ lit "LR")
    ▹ lit "\""
    ▹ group 2 (star (set (λ c. not (is_space c || c == b'\\' || c == b'(' || c == b')'))))
    ▹ lit "("
    ▹ group 3 (star dot)
    ▹ eol

-- ^([^\'"]|\'(\\.|[^\'])*\'|"(\\.|[^"])*")*//
abbrev pub comment_before : Regex
comment_before =
    bol
    ▹ star (
        group 1 (
          none_of "'\""
          ∣∣ lit "'" ▹ star (group 2 (lit "\\" ▹ dot ∣∣ none_of "'")) ▹ lit "'"
          ∣∣ lit "\"" ▹ star (group 3 (lit "\\" ▹ dot ∣∣ none_of "\"")) ▹ lit "\""))
    ▹ lit "//"

-- The first part of the loop over the lines: inside a raw string, look for its end. A line that holds
-- the delimiter has a character that is no space, so its leading space always matches.
leave_raw_string : Text → Option Text → Text × Option Text
leave_raw_string line none = (line, none)
leave_raw_string line (some delimiter) = elim (find line delimiter) [
  | none ↦ (codes "\"\"", some delimiter)
  | some end ↦ elim (re_match leading_space_pattern line) [
    | none ↦ (codes "\"\"" ++ drop (end + length delimiter) line, none)
    | some leading_space ↦
        (group_text leading_space 1 ++ (codes "\"\"" ++ drop (end + length delimiter) line), none)
  ]
]

-- `')' + matched.group(2) + '"'`
abbrev pub delimiter_of : Found → Text
delimiter_of matched = codes ")" ++ (group_text matched 2 ++ codes "\"")

-- The branches on whether the raw string ends on its line.
pub enter_at : Found → Option ℕ → Text × Option Text
enter_at matched (some end) = (
  group_text matched 1
      ++ (codes "\"\"" ++ drop (end + length (delimiter_of matched)) (group_text matched 3)),
  none,
)
enter_at matched none = (group_text matched 1 ++ codes "\"\"", some (delimiter_of matched))

-- What one round of the inner loop makes of a match: the line, and the delimiter that it waits for.
unfoldable pub enter_raw_string : Found → Text × Option Text
unfolding enter_at
enter_raw_string matched = enter_at matched (find (group_text matched 3) (delimiter_of matched))

-- A raw string that does not begin inside a `//` comment.
outside_comment : Option Found → Option Found
outside_comment none = none
outside_comment (some matched) =
    if not (matches comment_before (group_text matched 1)) then some matched else none

-- The raw string that the inner loop finds on a line.
unfoldable pub raw_string : Text → Option Found
unfolding outside_comment
raw_string line = outside_comment (re_match raw_string_start line)

-- The inner loop; none means that the fuel ran out.
raw_loop : ℕ → Text → Option Text → Option (Text × Option Text)
unfolding raw_string
raw_loop fuel line (some delimiter) = some (line, some delimiter)
raw_loop zero line none = none
raw_loop (suc fuel) line none = elim (raw_string line) [
  | none ↦ some (line, none)
  | some matched ↦ raw_loop fuel (enter_raw_string matched).0 (enter_raw_string matched).1
]

-- One line. Each round of the inner loop but the last leaves a shorter line.
cleanse_line : Text → Option Text → Option (Text × Option Text)
unfolding leave_raw_string raw_loop
cleanse_line line delimiter =
    let (line', delimiter') = leave_raw_string line delimiter in
    raw_loop (length line' + 1) line' delimiter'

cleanse_lines : List Text → Option Text → Option (List Text)
unfolding cleanse_line
cleanse_lines [] delimiter = some []
cleanse_lines (line ∷ lines) delimiter = elim (cleanse_line line delimiter) [
  | none ↦ none
  | some (line', delimiter') ↦ elim (cleanse_lines lines delimiter') [
    | none ↦ none
    | some rest ↦ some (line' ∷ rest)
  ]
]

-- CleanseRawStrings
unfoldable pub cleanse_raw_strings : List Text → Option (List Text)
unfolding cleanse_lines
cleanse_raw_strings raw_lines = cleanse_lines raw_lines none
