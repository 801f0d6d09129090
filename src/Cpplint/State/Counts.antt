-- ===== src/Cpplint/State/Counts.antt =====
-- The error counts of the lint state: what a run of errors adds up to.
use cppecho.Prelude.{
  ℕ, suc, ◌+◌, ◌≡◌, refl, ap, true, ◌||◌, List, [], ◌∷◌, arith, if◌then◌else◌, length,
}
use cppecho.Python.Str.{Text, codes, text_eq}
use cppecho.Python.Str.Laws.{text_eq_iff}
use cppecho.Cpplint.State.{CppLintState, bump, top_level, increment_error_count}

-- The count that the dictionary holds for a key, or 0.
abbrev pub count_of : Text → List (Text × ℕ) → ℕ
count_of k [] = 0
count_of k ((j, n) ∷ m) = if text_eq j k then n else count_of k m

-- The sum of the counts.
abbrev pub total : List (Text × ℕ) → ℕ
total [] = 0
total ((j, n) ∷ m) = n + total m

-- How many items of a list a key function takes to `k`.
abbrev pub tally : (Text → Text) → Text → List Text → ℕ
tally key k [] = 0
tally key k (c ∷ cs) = (if text_eq (key c) k then 1 else 0) + tally key k cs

-- One report after another.
abbrev pub increments : List Text → CppLintState → CppLintState
increments [] s = s
increments (c ∷ cs) s = increments cs (increment_error_count c s)

-- The key under which a style counts a category.
abbrev pub key_of : Text → Text → Text
key_of counting category =
    if text_eq counting (codes "detailed") then category else top_level category

abbrev pub Tallies : Text → Type 0
Tallies counting =
    (text_eq counting (codes "toplevel") || text_eq counting (codes "detailed")) ≡ true

total-bump : (k : Text) (m : List (Text × ℕ)) → total (bump k m) ≡ suc (total m)
unfolding bump
total-bump k [] = refl
total-bump k ((j, n) ∷ m) = ground (arith, total-bump k m)

count_of-bump :
    (j k : Text) (m : List (Text × ℕ))
    → count_of k (bump j m) ≡ (if text_eq j k then 1 else 0) + count_of k m
unfolding bump
count_of-bump j k [] = ground arith
count_of-bump j k ((i, n) ∷ m) =
    ground (arith, count_of-bump j k m, text_eq_iff i j, text_eq_iff j k, text_eq_iff i k)

error_count-increments :
    (cs : List Text) (s : CppLintState) → (increments cs s).error_count ≡ s.error_count + length cs
unfolding increment_error_count
error_count-increments [] s = omega arith
error_count-increments (c ∷ cs) s =
    ground (arith, error_count-increments cs (increment_error_count c s))

-- What one increment does in a style that counts by category.
module _ (counting : Text) (tallies : Tallies counting) where
  counting-increment :
      (c : Text) (s : CppLintState)
      → s.counting ≡ counting
      → (increment_error_count c s).counting ≡ counting
  unfolding increment_error_count
  counting-increment c s e = ground arith

  errors_by_category-increment :
      (c : Text) (s : CppLintState)
      → s.counting ≡ counting
      → (increment_error_count c s).errors_by_category
        ≡ bump (key_of counting c) s.errors_by_category
  unfolding increment_error_count
  errors_by_category-increment c s e = ground arith

  count_of-all :
      (cs : List Text) (s : CppLintState) (k : Text)
      → s.counting ≡ counting
      → count_of k (increments cs s).errors_by_category
        ≡ tally (key_of counting) k cs + count_of k s.errors_by_category
  count_of-all [] s k e = omega arith
  count_of-all (c ∷ cs) s k e =
      let ih = count_of-all cs (increment_error_count c s) k (counting-increment c s e) in
      let here = errors_by_category-increment c s e in
      omega
        (arith, ih, ap (count_of k) here, count_of-bump (key_of counting c) k s.errors_by_category)

  total-all :
      (cs : List Text) (s : CppLintState)
      → s.counting ≡ counting
      → total (increments cs s).errors_by_category ≡ total s.errors_by_category + length cs
  total-all [] s e = omega arith
  total-all (c ∷ cs) s e =
      let ih = total-all cs (increment_error_count c s) (counting-increment c s e) in
      let here = errors_by_category-increment c s e in
      omega (arith, ih, ap total here, total-bump (key_of counting c) s.errors_by_category)

-- In the styles `toplevel` and `detailed`, after any reports each key's count has grown by the
-- number of reports whose category has that key, and the sum of the counts has grown by the number
-- of reports, as has the count of errors.
pub count_of-increments :
    (cs : List Text) (s : CppLintState) (k : Text)
    → Tallies s.counting
    → (count_of k (increments cs s).errors_by_category
        ≡ tally (key_of s.counting) k cs + count_of k s.errors_by_category)
      × (total (increments cs s).errors_by_category ≡ total s.errors_by_category + length cs)
      × ((increments cs s).error_count ≡ s.error_count + length cs)
count_of-increments cs s k h = (
  count_of-all s.counting h cs s k refl,
  total-all s.counting h cs s refl,
  error_count-increments cs s,
)
