-- ===== src/Cpplint/Cleanse/Lines/Total.antt =====
-- CleansedLines holds as many lines in each of its versions as the file has.
use cppecho.Prelude.{suc, ◌≡◌, refl, ap, ◌∙◌, List, [], ◌∷◌, some, length}
use cppecho.Python.Str.{Text}
use cppecho.Cpplint.Cleanse.Comments.{cleanse_comments}
use cppecho.Cpplint.Cleanse.Collapse.Total.{collapse_strings-some}
use cppecho.Cpplint.Cleanse.RawStrings.Total.{cleanse_raw_strings-some}
use cppecho.Cpplint.Cleanse.Lines.{CleansedLines, cleanse_each, cleansed_lines}

cleanse_each-some :
    (lines : List Text)
    → (kept : List Text) × (elided : List Text) × (cleanse_each lines ≡ some (kept, elided))
      × (length kept ≡ length lines)
      × (length elided ≡ length lines)
unfolding cleanse_each
cleanse_each-some [] = ([], [], refl, refl, refl)
cleanse_each-some (line ∷ rest) =
    let (collapsed, e) = collapse_strings-some line in
    let (kept, elided, q, n, k) = cleanse_each-some rest in
    (
      cleanse_comments line ∷ kept,
      cleanse_comments collapsed ∷ elided,
      rw (e, cleanse_each) (rw (q, cleanse_each) refl),
      ap suc n,
      ap suc k,
    )

-- Cleansing ends on every file, and the four versions of its lines have as many lines as the file.
pub cleansed_lines-some :
    (lines : List Text)
    → (c : CleansedLines) × (cleansed_lines lines ≡ some c)
      × (c.raw_lines ≡ lines)
      × (c.num_lines ≡ length lines)
      × (length c.elided ≡ length lines)
      × (length c.lines ≡ length lines)
      × (length c.lines_without_raw_strings ≡ length lines)
unfolding cleansed_lines
cleansed_lines-some lines =
    let (raw, e, n) = cleanse_raw_strings-some lines in
    let (kept, elided, q, k, l) = cleanse_each-some raw in
    (
      record {
        elided = elided;
        lines = kept;
        raw_lines = lines;
        lines_without_raw_strings = raw;
        num_lines = length lines;
      },
      rw (e, cleansed_lines) (rw (q, cleansed_lines) refl),
      refl,
      refl,
      l ∙ n,
      k ∙ n,
      n,
    )
