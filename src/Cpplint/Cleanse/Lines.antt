-- ===== src/Cpplint/Cleanse/Lines.antt =====
-- class CleansedLines of tools/cpplint/cpplint.py.
pub mod Total
use cppecho.Prelude.{ℕ, List, [], ◌∷◌, Option, none, some, length, ◌>>=◌}
use cppecho.Python.Str.{Text}
use cppecho.Cpplint.Cleanse.Comments.{cleanse_comments}
use cppecho.Cpplint.Cleanse.Collapse.{collapse_strings}
use cppecho.Cpplint.Cleanse.RawStrings.{cleanse_raw_strings}

pub record CleansedLines : Type 0 where
  pub elided : List Text
  pub lines : List Text
  pub raw_lines : List Text
  pub lines_without_raw_strings : List Text
  pub num_lines : ℕ

-- The loop of __init__ over the lines without raw strings: `lines` and `elided`.
pub cleanse_each : List Text → Option (List Text × List Text)
cleanse_each [] = some ([], [])
cleanse_each (line ∷ rest) = do
  collapsed ← collapse_strings line
  (lines, elided) ← cleanse_each rest
  some (cleanse_comments line ∷ lines, cleanse_comments collapsed ∷ elided)

-- __init__; none means that the fuel of a loop ran out.
unfoldable pub cleansed_lines : List Text → Option CleansedLines
unfolding cleanse_each
cleansed_lines lines = do
  without_raw_strings ← cleanse_raw_strings lines
  (kept, elided) ← cleanse_each without_raw_strings
  some (record {
    elided = elided;
    lines = kept;
    raw_lines = lines;
    lines_without_raw_strings = without_raw_strings;
    num_lines = length lines;
  })

-- NumLines
unfoldable pub num_lines : CleansedLines → ℕ
num_lines c = c.num_lines
