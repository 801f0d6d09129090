-- ===== src/Cpplint/Expression/Further.antt =====
-- Where CloseExpression goes from any position: further on, and without an IndexError.
use cppecho.Prelude.{
  ℕ, ◌+◌, ◌≡◌, ◌≢◌, ap, ◌<◌, refl, ◌⊎◌, inl, inr, Bool, not, ◌||◌, List, [], ◌∷◌, Option, none,
  some, arith, length, get_elem?, drop, Bool-cases,
}
use cppecho.Python.Str.{Text, codes}
use cppecho.Python.Regex.{matches}
use cppecho.Cpplint.Expression.Forward.{close_expression-close_at}
use cppecho.Cpplint.Expression.{
  Scan, closed, failed, unclosed, Turn, go, skip, stop, Place, is_in, pop_all, pop_if, pop_pair,
  pairs, or_failed, end_turn, end_scan, find_end_of_expression_in_line, close_forward, close_at,
  close_expression, shift_or_le,
}

-- A pop that returns a position returns the one that it is given.
pop_pair-closed :
    (fits : ℕ → Bool) (i p : ℕ) (stack : Text)
    → pop_pair fits (closed i) stack ≡ stop (closed p)
    → p ≡ i
pop_pair-closed fits i p [] h = absurd (cc)
pop_pair-closed fits i p (d ∷ []) h = ground arith
pop_pair-closed fits i p (d ∷ e ∷ s) h = ground arith

pop_if-closed : (c i p : ℕ) (stack : Text) → pop_if c (closed i) stack ≡ stop (closed p) → p ≡ i
pop_if-closed c i p [] h = absurd (cc)
pop_if-closed c i p (d ∷ []) h = ground arith
pop_if-closed c i p (d ∷ e ∷ s) h = ground arith

pop_if-failed : (c p : ℕ) (stack : Text) → pop_if c failed stack ≢ stop (closed p)
pop_if-failed c p [] h = absurd (cc)
pop_if-failed c p (d ∷ []) h = ground arith
pop_if-failed c p (d ∷ e ∷ s) h = ground arith

or_failed-ne : (p : ℕ) (stack : Text) → or_failed stack ≢ stop (closed p)
or_failed-ne p [] h = cc
or_failed-ne p (d ∷ s) h = cc

end_turn-closed :
    (line : Text) (i char : ℕ) (stack : Text) (p : ℕ)
    → end_turn line i char stack ≡ stop (closed p)
    → p ≡ i + 1
unfolding end_turn
end_turn-closed line i char stack p h = ground (
  arith,
  pop_pair-closed (λ (d : ℕ). pairs d char) (i + 1) p (pop_all b'<' stack),
  pop_if-closed b'<' (i + 1) p stack,
  pop_if-failed b'<' p stack,
  or_failed-ne p (pop_all b'<' stack),
)

turn_closed :
    (line rest : Text) (i : ℕ) (turn : Turn) (p : ℕ)
    → ((q : ℕ) → turn ≡ stop (closed q) → q ≡ i + 1)
    → ((s : Text) → end_scan line rest (i + 1) s ≡ closed p → i + 1 < p)
    → elim turn [
      | go s ↦ end_scan line rest (i + 1) s
      | skip s ↦ end_scan line rest (i + 1) s
      | stop result ↦ result
    ]
      ≡ closed p
    → i < p
turn_closed line rest i (go s) p here below h = omega (arith, below s h)
turn_closed line rest i (skip s) p here below h = omega (arith, below s h)
turn_closed line rest i (stop result) p here below h = omega (arith, here p (ap stop h))

end_scan-closed :
    (line rest : Text) (i : ℕ) (stack : Text) (p : ℕ)
    → end_scan line rest i stack ≡ closed p
    → i < p
unfolding end_scan
end_scan-closed line [] i stack p h = absurd (cc)
end_scan-closed line (char ∷ rest) i stack p h =
    turn_closed line rest i (end_turn line i char stack) p
      (λ q e. end_turn-closed line i char stack q e)
      (λ s e. end_scan-closed line rest (i + 1) s p e) h

-- A position behind `low` on line `linenum`, or on a later line.
abbrev pub IsFurther : ℕ → ℕ → Place → Option ℕ → Type 0
IsFurther linenum low place none = Unit
IsFurther linenum low place (some p) =
    (linenum < place.linenum) ⊎ ((place.linenum ≡ linenum) × (low < p))

IsFurther-later :
    (linenum low : ℕ) (place : Place) (o : Option ℕ)
    → IsFurther (linenum + 1) 0 place o
    → IsFurther linenum low place o
IsFurther-later linenum low place none h = tt
IsFurther-later linenum low place (some p) (inl h) = inl (omega arith)
IsFurther-later linenum low place (some p) (inr (h, q)) = inl (omega arith)

close_forward-IsFurther :
    (total : ℕ) (line : Text) (linenum low : ℕ) (below : List Text) (scan : Scan)
    → ((p : ℕ) → scan ≡ closed p → low < p)
    → IsFurther linenum low
        (close_forward total line linenum below scan)
        (close_forward total line linenum below scan).at
unfolding close_forward
close_forward-IsFurther total line linenum low below (closed p) h = inr (refl, h p refl)
close_forward-IsFurther total line linenum low below failed h = tt
close_forward-IsFurther total line linenum low below (unclosed []) h = tt
close_forward-IsFurther total line linenum low [] (unclosed (c ∷ s)) h = tt
close_forward-IsFurther total line linenum low (next ∷ below) (unclosed (c ∷ s)) h =
    let scan = find_end_of_expression_in_line next 0 (c ∷ s) in
    let place = close_forward total next (linenum + 1) below scan in
    IsFurther-later linenum low place place.at (
      close_forward-IsFurther total next (linenum + 1) 0 below scan
        (λ p e. unfold find_end_of_expression_in_line in end_scan-closed next next 0 (c ∷ s) p e))

close_at-IsFurther :
    (elided : List Text) (linenum pos : ℕ) (line : Text) (c : ℕ)
    → (place : Place) × (close_at elided linenum pos line (some c) ≡ some place)
      × IsFurther linenum pos place place.at
unfolding close_at
close_at-IsFurther elided linenum pos line c =
    elim (Bool-cases (not (is_in c (codes "({[<")) || matches shift_or_le (drop pos line))) [
      | inl e ↦ (record { line = line; linenum = length elided; at = none }, rw e refl, tt)
      | inr e ↦
          let scan = find_end_of_expression_in_line line pos [] in
          (
            close_forward (length elided) line linenum (drop (linenum + 1) elided) scan,
            rw e refl,
            close_forward-IsFurther (length elided) line linenum pos (drop (linenum + 1) elided)
                scan
                (λ p e.
                  unfold find_end_of_expression_in_line in
                  end_scan-closed line (drop pos line) pos [] p e),
          )
    ]

-- From a position of the file, whatever stands there, CloseExpression does not raise an IndexError, and
-- it fails or goes further on.
pub close_expression-IsFurther :
    (elided : List Text) (linenum pos : ℕ) (line : Text) (c : ℕ)
    → get_elem? elided linenum ≡ some line
    → get_elem? line pos ≡ some c
    → (place : Place) × (close_expression elided linenum pos ≡ some place)
      × IsFurther linenum pos place place.at
close_expression-IsFurther elided linenum pos line c e f =
    rw (close_expression-close_at elided linenum pos line c e f)
      (close_at-IsFurther elided linenum pos line c)
