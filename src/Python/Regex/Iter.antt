-- ===== src/Python/Regex/Iter.antt =====
-- `findall` and `finditer` of Python's `re`.
use cppecho.Prelude.{ℕ, zero, suc, ◌-◌, List, [], ◌∷◌, Option, none, some, length}
use cppecho.Python.Str.{Text}
use cppecho.Python.Regex.{Regex, Found, match_at}

-- The scan: `skip` characters belong to the last match.
all_from : Regex → Option ℕ → Text → ℕ → List Found
unfolding match_at
all_from r before [] skip = []
all_from r before (c ∷ s) (suc skip) = all_from r (some c) s skip
all_from r before (c ∷ s) zero =
    elim (match_at r (record { at = 0; before = before; rest = c ∷ s; groups = [] })) [
      | none ↦ all_from r (some c) s zero
      | some m ↦ m ∷ all_from r (some c) s (length m.whole - 1)
    ]

-- The matches of a pattern that matches no empty text; their positions are not kept.
unfoldable pub find_all : Regex → Text → List Found
unfolding all_from
find_all r s = all_from r none s zero
