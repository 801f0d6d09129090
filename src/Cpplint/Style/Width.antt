-- ===== src/Cpplint/Style/Width.antt =====
-- GetPreviousNonBlankLine and GetLineWidth of tools/cpplint/cpplint.py, and slices from a position.
use cppecho.Prelude.{
  ℕ, zero, suc, ◌+◌, ◌-◌, Bool, List, [], ◌∷◌, Option, none, some, if◌then◌else◌, length, drop,
  get_or,
}
use cppecho.Python.Str.{Text}
use cppecho.Cpplint.Style.Blanks.{is_blank_line}

-- What GetLineWidth asks of the module unicodedata: the normal form NFC, whether the East Asian width is
-- W or F, and whether the combining class is not 0.
pub record UnicodeData : Type 0 where
  pub normalize : Text → Text
  pub is_wide : ℕ → Bool
  pub combining : ℕ → Bool

-- The loop over the code points
width_of : UnicodeData → Text → ℕ
width_of u [] = 0
width_of u (uc ∷ line) =
    let rest = width_of u line in
    if u.is_wide uc then rest + 2 else if u.combining uc then rest else rest + 1

-- GetLineWidth, of a Unicode string
unfoldable pub get_line_width : UnicodeData → Text → ℕ
unfolding width_of
get_line_width u line = width_of u (u.normalize line)

-- The loop upwards from the line before `linenum`: the line and its number, with none for -1
unfoldable pub get_previous_non_blank_line : List Text → ℕ → Text × Option ℕ
unfolding is_blank_line
get_previous_non_blank_line elided zero = ([], none)
get_previous_non_blank_line elided (suc prevlinenum) =
    let rest = get_previous_non_blank_line elided prevlinenum in
    let prevline = get_or elided prevlinenum [] in
    if is_blank_line prevline then rest else (prevline, some prevlinenum)

-- `line[pos:]`, where none is -1, for the last character
unfoldable pub slice_from : Text → Option ℕ → Text
slice_from line none = drop (length line - 1) line
slice_from line (some pos) = drop pos line
