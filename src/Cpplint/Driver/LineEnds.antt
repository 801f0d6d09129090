-- ===== src/Cpplint/Driver/LineEnds.antt =====
-- Which lines of a file ProcessFile of tools/cpplint/cpplint.py takes to end in a carriage return.
use cppecho.Prelude.{
  ◌≡◌, ℕ, ◌+◌, ◌==◌, ltb, Bool, true, false, not, List, [], ◌∷◌, ◌++◌, arith, length, if◌then◌else◌,
}
use cppecho.Python.Str.{Text, codes, endswith}
use cppecho.Cpplint.Driver.{split_ends}

-- Whether the number is in the list.
pub has_number : ℕ → List ℕ → Bool
has_number k [] = false
has_number k (m ∷ ms) = if m == k then true else has_number k ms

pub ends_in_return : Text → Bool
unfolding endswith
ends_in_return line = endswith line (codes "\r")

-- The numbers are those of the lines from n on.
split_ends-from :
    (k n : ℕ) (lines : List Text)
    → ltb k n ≡ true
    → (has_number k (split_ends n lines).crlf_lines ≡ false)
      × (has_number k (split_ends n lines).lf_lines ≡ false)
unfolding split_ends has_number
split_ends-from k n [] h = ground arith
split_ends-from k n (line ∷ []) h = ground arith
split_ends-from k n (line ∷ next ∷ lines) h =
    ground (arith, split_ends-from k (n + 1) (next ∷ lines) (ground arith))

-- With the lines numbered from n: the number of a line that is not the last one is among those of the
-- lines with a carriage return exactly if the line ends in one, and among those of the lines without
-- exactly if it does not.
pub split_ends_lem :
    (n : ℕ) (before : List Text) (line next : Text) (after : List Text)
    → (has_number (n + length before) (split_ends n (before ++ line ∷ next ∷ after)).crlf_lines
        ≡ ends_in_return line)
      × (has_number (n + length before) (split_ends n (before ++ line ∷ next ∷ after)).lf_lines
          ≡ not (ends_in_return line))
unfolding split_ends has_number ends_in_return
split_ends_lem n [] line next after =
    ground (arith, split_ends-from n (n + 1) (next ∷ after) (ground arith))
split_ends_lem n (first ∷ []) line next after =
    ground (arith, split_ends_lem (n + 1) [] line next after)
split_ends_lem n (first ∷ second ∷ before) line next after =
    ground (arith, split_ends_lem (n + 1) (second ∷ before) line next after)
