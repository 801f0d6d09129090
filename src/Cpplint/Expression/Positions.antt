-- ===== src/Cpplint/Expression/Positions.antt =====
-- CloseExpression and ReverseCloseExpression answer from every position of the file, and where
-- CloseExpression finds an end, that is on the line that it names.
use cppecho.Prelude.{
  ℕ, suc, ◌+◌, ◌≡◌, ◌<◌, refl, List, [], ◌∷◌, Option, none, some, arith, length, get_elem?, drop,
  not, ◌||◌, Bool-cases, inl, inr, get_elem?-drop, drop-suc, get_elem?-get_or, get_or,
}
use cppecho.Python.Str.{Text, codes}
use cppecho.Python.Regex.{matches}
use cppecho.Cpplint.Expression.Forward.{close_expression-close_at}
use cppecho.Cpplint.Expression.Backward.{reverse_close_expression-reverse_at}
use cppecho.Cpplint.Expression.{
  Scan, closed, failed, unclosed, Place, is_in, find_end_of_expression_in_line, close_forward,
  close_at, close_expression, reverse_at, reverse_close_expression, close_backward,
  find_start_of_expression_in_line, shift_or_le,
}

-- A place with a position is on a line of the file.
abbrev pub OnLine : List Text → Place → Option ℕ → Type 0
OnLine elided place none = Unit
OnLine elided place (some p) = get_elem? elided place.linenum ≡ some place.line

close_forward-OnLine :
    (elided : List Text) (line : Text) (linenum : ℕ) (below : List Text) (scan : Scan)
    → get_elem? elided linenum ≡ some line
    → drop (linenum + 1) elided ≡ below
    → OnLine elided
        (close_forward (length elided) line linenum below scan)
        (close_forward (length elided) line linenum below scan).at
unfolding close_forward
close_forward-OnLine elided line linenum below (closed p) e f = e
close_forward-OnLine elided line linenum below failed e f = tt
close_forward-OnLine elided line linenum below (unclosed []) e f = tt
close_forward-OnLine elided line linenum [] (unclosed (c ∷ s)) e f = tt
close_forward-OnLine elided line linenum (next ∷ below) (unclosed (c ∷ s)) e f =
    let one : linenum + 1 + 1 ≡ suc (linenum + 1) = omega arith in
    close_forward-OnLine elided next (linenum + 1) below
      (find_end_of_expression_in_line next 0 (c ∷ s))
      (get_elem?-drop elided (linenum + 1) next below f)
      (rw one (drop-suc elided (linenum + 1) next below f))

close_at-OnLine :
    (elided : List Text) (linenum pos : ℕ) (line : Text) (c : ℕ)
    → get_elem? elided linenum ≡ some line
    → (place : Place) × (close_at elided linenum pos line (some c) ≡ some place)
      × OnLine elided place place.at
unfolding close_at
close_at-OnLine elided linenum pos line c e =
    elim (Bool-cases (not (is_in c (codes "({[<")) || matches shift_or_le (drop pos line))) [
      | inl t ↦ (record { line = line; linenum = length elided; at = none }, rw t refl, tt)
      | inr f ↦
          let scan = find_end_of_expression_in_line line pos [] in
          (
            close_forward (length elided) line linenum (drop (linenum + 1) elided) scan,
            rw f refl,
            close_forward-OnLine elided line linenum (drop (linenum + 1) elided) scan e refl,
          )
    ]

pub close_expression-some :
    (elided : List Text) (linenum pos : ℕ) (line : Text)
    → get_elem? elided linenum ≡ some line
    → pos < length line
    → (place : Place) × (close_expression elided linenum pos ≡ some place)
      × OnLine elided place place.at
close_expression-some elided linenum pos line e h =
    rw
      (close_expression-close_at elided linenum pos line (get_or line pos 0) e
        (get_elem?-get_or line pos 0 h))
      (close_at-OnLine elided linenum pos line (get_or line pos 0) e)

reverse_at-some :
    (elided : List Text) (linenum pos : ℕ) (line : Text) (c : ℕ)
    → (place : Place) × (reverse_at elided linenum pos line (some c) ≡ some place)
unfolding reverse_at
reverse_at-some elided linenum pos line c = elim (Bool-cases (not (is_in c (codes ")}]>")))) [
  | inl t ↦ (record { line = line; linenum = 0; at = none }, rw t refl)
  | inr f ↦ (
    close_backward elided linenum line (find_start_of_expression_in_line line (pos + 1) []),
    rw f refl,
  )
]

pub reverse_close_expression-some :
    (elided : List Text) (linenum pos : ℕ) (line : Text)
    → get_elem? elided linenum ≡ some line
    → pos < length line
    → (place : Place) × (reverse_close_expression elided linenum pos ≡ some place)
reverse_close_expression-some elided linenum pos line e h =
    rw
      (reverse_close_expression-reverse_at elided linenum pos line (get_or line pos 0) e
        (get_elem?-get_or line pos 0 h))
      (reverse_at-some elided linenum pos line (get_or line pos 0))
