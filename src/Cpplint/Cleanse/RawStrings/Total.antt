-- ===== src/Cpplint/Cleanse/RawStrings/Total.antt =====
-- Every round of the inner loop of CleanseRawStrings leaves a shorter line, so the loop ends, and every
-- line gives one line.
use cppecho.Prelude.{
  ℕ, zero, suc, ◌+◌, ◌≤◌, ◌<◌, ◌≡◌, refl, ap, ◌∙◌, List, [], ◌∷◌, ◌++◌, Option, none, some, arith,
  length, drop, length-append, length-drop,
}
use cppecho.Python.Str.{Text, codes, find}
use cppecho.Python.Regex.{
  Regex, Found, star, lazy, dot, lit, set, re_match, group_text, Cursor, ◌∣∣◌,
}
use cppecho.Python.Regex.Groups.{re_match-Step, Step-group, Step-groups, Step-min_length}
use cppecho.Cpplint.Cleanse.RawStrings.{
  raw_string_start, delimiter_of, enter_at, outside_comment, leave_raw_string, enter_raw_string,
  raw_string, raw_loop, cleanse_line, cleanse_lines, cleanse_raw_strings,
}

abbrev prefix_pattern : Regex
prefix_pattern = lit "R" ∣∣ lit "u8R" ∣∣ lit "uR" ∣∣ lit "UR" ∣∣ lit "LR"

-- A line that opens a raw string: its groups, and at least a prefix of one character and two brackets.
raw_string_groups :
    (s : Text) (m : Found)
    → re_match raw_string_start s ≡ some m
    → (head : Text) × (delimiter : Text) × (tail : Text) × (length head
          + length delimiter
          + length tail
          + 3
        ≤ length s)
      × (m.groups ≡ (3, tail) ∷ (2, delimiter) ∷ (1, head) ∷ [])
raw_string_groups s m h =
    let (
      d,
      (
        b,
        (_, eb),
        (
          d₁,
          g₁,
          (d₂, (_, e₂), (d₃, prefix, (d₄, quote, (d₅, g₂, (d₆, bracket, (d₇, g₃, (_, ed))))))),
        ),
      ),
      e,
    ) =
      re_match-Step raw_string_start s m h in
    let (head, r₁, n₁) = Step-group 1 (lazy dot) b d₁ tt g₁ in
    let (delimiter, r₅, n₅) = Step-group 2 (star (set _)) d₄ d₅ tt g₂ in
    let (tail, r₇, n₇) = Step-group 3 (star dot) d₆ d₇ tt g₃ in
    let size_b : length b.rest ≡ length s = ap (λ (y : Cursor). length y.rest) eb in
    let size_2 : length d₂.rest ≡ length d₁.rest = ap (λ (y : Cursor). length y.rest) e₂ in
    let size_3 = Step-min_length prefix_pattern d₂ d₃ prefix in
    let size_4 = Step-min_length (lit "\"") d₃ d₄ quote in
    let size_6 = Step-min_length (lit "(") d₅ d₆ bracket in
    let groups_b : b.groups ≡ [] = ap (λ (y : Cursor). y.groups) eb in
    let groups_2 : d₂.groups ≡ d₁.groups = ap (λ (y : Cursor). y.groups) e₂ in
    let groups_3 : d₃.groups ≡ d₂.groups = Step-groups prefix_pattern d₂ d₃ (omega arith) prefix in
    let groups_4 : d₄.groups ≡ d₃.groups = Step-groups (lit "\"") d₃ d₄ tt quote in
    let groups_6 : d₆.groups ≡ d₅.groups = Step-groups (lit "(") d₅ d₆ tt bracket in
    let groups_d : d.groups ≡ d₇.groups = ap (λ (y : Cursor). y.groups) ed in
    let groups_m : m.groups ≡ d.groups = ap (λ (y : Found). y.groups) e in
    (
      head,
      delimiter,
      tail,
      omega (
        arith,
        size_b,
        size_2,
        size_3,
        size_4,
        size_6,
        ap length r₁,
        ap length r₅,
        ap length r₇,
        length-append head d₁.rest,
        length-append delimiter d₅.rest,
        length-append tail d₇.rest,
      ),
      groups_m ∙ groups_d ∙ cc (n₇, groups_6, n₅, groups_4, groups_3, groups_2, n₁, groups_b),
    )

group_texts :
    (m : Found) (t q h : Text)
    → m.groups ≡ (3, t) ∷ (2, q) ∷ (1, h) ∷ []
    → (group_text m 3 ≡ t) × (group_text m 2 ≡ q) × (group_text m 1 ≡ h)
unfolding group_text
group_texts m t q h e = (rw e refl, rw e refl, rw e refl)

enter_at-shorter :
    (m : Found) (o : Option ℕ)
    → length (enter_at m o).0
      < length (group_text m 1) + length (group_text m 2) + length (group_text m 3) + 3
unfolding enter_at
enter_at-shorter m none = omega (arith, length-append (group_text m 1) (codes "\"\""))
enter_at-shorter m (some end) = omega (
  arith,
  length-append (group_text m 2) (codes "\""),
  length-append (group_text m 1)
      (codes "\"\"" ++ drop (end + length (delimiter_of m)) (group_text m 3)),
  length-drop (end + length (delimiter_of m)) (group_text m 3),
)

enter-shorter :
    (line : Text) (m : Found)
    → re_match raw_string_start line ≡ some m
    → length (enter_raw_string m).0 < length line
unfolding enter_raw_string
enter-shorter line m h =
    let (head, delimiter, tail, size, gs) = raw_string_groups line m h in
    let (t, q, hd) = group_texts m tail delimiter head gs in
    omega (
      arith,
      size,
      ap length t,
      ap length q,
      ap length hd,
      enter_at-shorter m (find (group_text m 3) (delimiter_of m)),
    )

outside_comment-some : (o : Option Found) (m : Found) → outside_comment o ≡ some m → o ≡ some m
unfolding outside_comment
outside_comment-some none m h = absurd (cc)
outside_comment-some (some n) m h = ground arith

abbrev Result : Type 0
Result = Text × Option Text

-- With more fuel than the line has characters the inner loop ends.
raw_loop-some :
    (fuel : ℕ) (line : Text) (delimiter : Option Text)
    → length line < fuel
    → (result : Result) × (raw_loop fuel line delimiter ≡ some result)
unfolding raw_loop
raw_loop-some zero line delimiter h = elim h [ ]
raw_loop-some (suc fuel) line (some delimiter) h = ((line, some delimiter), refl)
raw_loop-some (suc fuel) line none h = go (raw_string line) refl (raw_loop-some fuel)
  where
    go :
        (o : Option Found)
        → raw_string line ≡ o
        → ((l : Text) (d : Option Text)
            → length l < fuel
            → (result : Result) × (raw_loop fuel l d ≡ some result))
        → (result : Result) × (elim o [
          | none ↦ some (line, none)
          | some matched ↦ raw_loop fuel (enter_raw_string matched).0 (enter_raw_string matched).1
        ]
            ≡ some result)
    go none e ih = ((line, none), refl)
    go (some m) e ih = ih (enter_raw_string m).0 (enter_raw_string m).1 (
        omega
          (arith, enter-shorter line m (outside_comment-some (re_match raw_string_start line) m e)))

cleanse_line-some :
    (line : Text) (delimiter : Option Text)
    → (result : Result) × (cleanse_line line delimiter ≡ some result)
unfolding cleanse_line
cleanse_line-some line delimiter =
    let (line', delimiter') = leave_raw_string line delimiter in
    raw_loop-some (length line' + 1) line' delimiter' (omega arith)

cleanse_lines-some :
    (lines : List Text) (delimiter : Option Text)
    → (result : List Text) × (cleanse_lines lines delimiter ≡ some result)
      × (length result ≡ length lines)
unfolding cleanse_lines
cleanse_lines-some [] delimiter = ([], refl, refl)
cleanse_lines-some (line ∷ lines) delimiter =
    let ((line', delimiter'), e) = cleanse_line-some line delimiter in
    let (rest, q, n) = cleanse_lines-some lines delimiter' in
    (line' ∷ rest, rw (e, cleanse_lines) (rw (q, cleanse_lines) refl), ap suc n)

-- CleanseRawStrings ends on every file, with one line for each line.
pub cleanse_raw_strings-some :
    (raw_lines : List Text)
    → (result : List Text) × (cleanse_raw_strings raw_lines ≡ some result)
      × (length result ≡ length raw_lines)
unfolding cleanse_raw_strings
cleanse_raw_strings-some raw_lines = cleanse_lines-some raw_lines none
