-- ===== src/Cpplint/Expression/Forward.antt =====
-- What CloseExpression finds: a closing bracket of the kind that the opening one wants.
use cppecho.Prelude.{
  ℕ, suc, ◌+◌, ◌-◌, ◌≤◌, ◌<◌, ◌≡◌, refl, ◌⊎◌, inl, inr, Bool, true, not, ◌&&◌, ◌||◌, List, [], ◌∷◌,
  Option, none, some, arith, Bool-cases, ltb, ◌==◌, length, get_elem?, take, drop, get_elem?-drop,
  drop-suc, drop-get_elem?,
}
use native.Mathlib.Numerals.{add-one}
use cppecho.Python.Str.{Text, codes}
use cppecho.Python.Regex.{matches, occurs}
use cppecho.Cpplint.Expression.{
  is_in, Scan, closed, failed, unclosed, Turn, go, skip, stop, operator_at_end, pop_all, pairs,
  before, end_turn, end_scan, find_end_of_expression_in_line, close_expression, close_forward,
  close_at, shift_or_le, Place,
}

-- The bottom of a stack.
abbrev pub bottom : Text → Option ℕ
bottom [] = none
bottom (c ∷ []) = some c
bottom (c ∷ d ∷ s) = bottom (d ∷ s)

-- The closing bracket of an opening one, `<` and `>` included.
abbrev pub closes : ℕ → ℕ → Bool
closes opening closing = pairs opening closing || opening == b'<' && closing == b'>'

-- What a turn at index `i` may do to a stack with bottom `b`.
abbrev Keeps : ℕ → ℕ → ℕ → Turn → Type 0
Keeps b char i (go s) = bottom s ≡ some b
Keeps b char i (skip s) = ⊥
Keeps b char i (stop (closed p)) = (p ≡ i + 1) × (closes b char ≡ true)
Keeps b char i (stop failed) = Unit
Keeps b char i (stop (unclosed s)) = ⊥

pub bottom-pop_all :
    (c b : ℕ) (s : Text) → bottom s ≡ some b → (pop_all c s ≡ []) ⊎ (bottom (pop_all c s) ≡ some b)
unfolding pop_all
bottom-pop_all c b [] h = inl refl
bottom-pop_all c b (d ∷ []) h = ground arith
bottom-pop_all c b (d ∷ e ∷ s) h = ground (arith, bottom-pop_all c b (e ∷ s))

end_turn-Keeps :
    (line : Text) (i char b : ℕ) (stack : Text)
    → bottom stack ≡ some b
    → Keeps b char i (end_turn line i char stack)
unfolding end_turn
end_turn-Keeps line i char b [] h = absurd (cc)
end_turn-Keeps line i char b (c ∷ []) h = ground (arith, bottom-pop_all b'<' b (c ∷ []) h)
end_turn-Keeps line i char b (c ∷ d ∷ s) h = ground (arith, bottom-pop_all b'<' b (c ∷ d ∷ s) h)

-- A position just behind a bracket of a line that closes `b`, and above `low`.
abbrev pub EndsAt : ℕ → Text → ℕ → ℕ → Type 0
EndsAt b line low p = (c : ℕ) × (low < p) × (get_elem? line (p - 1) ≡ some c) × (closes b c ≡ true)

abbrev ScanKeeps : ℕ → Text → ℕ → Scan → Type 0
ScanKeeps b line low (closed p) = EndsAt b line low p
ScanKeeps b line low failed = Unit
ScanKeeps b line low (unclosed s) = bottom s ≡ some b

stop-ScanKeeps :
    (line rest : Text) (i char b : ℕ) (result : Scan)
    → drop i line ≡ char ∷ rest
    → Keeps b char i (stop result)
    → ScanKeeps b line i result
stop-ScanKeeps line rest i char b (closed p) e (q, k) =
    let at_end : p - 1 ≡ i = omega arith in
    (char, omega arith, rw at_end (get_elem?-drop line i char rest e), k)
stop-ScanKeeps line rest i char b failed e k = tt
stop-ScanKeeps line rest i char b (unclosed s) e k = absurd k

ScanKeeps-lower :
    (b : ℕ) (line : Text) (low high : ℕ) (scan : Scan)
    → low ≤ high
    → ScanKeeps b line high scan
    → ScanKeeps b line low scan
ScanKeeps-lower b line low high (closed p) h (c, k, e, q) = (c, omega arith, e, q)
ScanKeeps-lower b line low high failed h k = tt
ScanKeeps-lower b line low high (unclosed s) h k = k

end_scan-ScanKeeps :
    (line rest : Text) (i b : ℕ) (stack : Text)
    → drop i line ≡ rest
    → bottom stack ≡ some b
    → ScanKeeps b line i (end_scan line rest i stack)
unfolding end_scan
end_scan-ScanKeeps line [] i b stack e h = h
end_scan-ScanKeeps line (char ∷ rest) i b stack e h =
    turn (end_turn line i char stack) (end_turn-Keeps line i char b stack h) (λ s k.
      ScanKeeps-lower b line i (i + 1) _ (omega arith)
        (end_scan-ScanKeeps line rest (i + 1) b s (rw add-one (drop-suc line i char rest e)) k))
  where
    turn :
        (t : Turn)
        → Keeps b char i t
        → ((s : Text) → bottom s ≡ some b → ScanKeeps b line i (end_scan line rest (i + 1) s))
        → ScanKeeps b line i (elim t [
          | go s ↦ end_scan line rest (i + 1) s
          | skip s ↦ end_scan line rest (i + 1) s
          | stop result ↦ result
        ])
    turn (go s) k next = next s k
    turn (skip s) k next = absurd k
    turn (stop result) k next = stop-ScanKeeps line rest i char b result e k

-- What a place says about the bracket `b` that is looked for from behind position `low` of a line.
abbrev pub FoundEnd : ℕ → List Text → ℕ → ℕ → Place → Option ℕ → Type 0
FoundEnd b elided linenum low place none = place.linenum ≡ length elided
FoundEnd b elided linenum low place (some p) =
    (get_elem? elided place.linenum ≡ some place.line)
    × EndsAt b place.line 0 p
    × ((linenum < place.linenum) ⊎ ((place.linenum ≡ linenum) × (low < p)))

FoundEnd-later :
    (b : ℕ) (elided : List Text) (linenum low : ℕ) (place : Place) (o : Option ℕ)
    → FoundEnd b elided (linenum + 1) 0 place o
    → FoundEnd b elided linenum low place o
FoundEnd-later b elided linenum low place none h = h
FoundEnd-later b elided linenum low place (some p) (e, k, inl h) = (e, k, inl (omega arith))
FoundEnd-later b elided linenum low place (some p) (e, k, inr (h, q)) = (e, k, inl (omega arith))

close_forward-FoundEnd :
    (b : ℕ) (elided below : List Text) (line : Text) (linenum low : ℕ) (scan : Scan)
    → get_elem? elided linenum ≡ some line
    → drop (linenum + 1) elided ≡ below
    → ScanKeeps b line low scan
    → FoundEnd b elided linenum low
        (close_forward (length elided) line linenum below scan)
        (close_forward (length elided) line linenum below scan).at
unfolding close_forward
close_forward-FoundEnd b elided below line linenum low (closed p) e d k =
    (e, ScanKeeps-lower b line 0 low (closed p) (omega arith) k, inr (refl, k.1))
close_forward-FoundEnd b elided below line linenum low failed e d k = refl
close_forward-FoundEnd b elided below line linenum low (unclosed []) e d k = refl
close_forward-FoundEnd b elided [] line linenum low (unclosed (c ∷ s)) e d k = refl
close_forward-FoundEnd b elided (next ∷ below) line linenum low (unclosed (c ∷ s)) e d k =
    let place =
      close_forward (length elided) next (linenum + 1) below
        (find_end_of_expression_in_line next 0 (c ∷ s)) in
    FoundEnd-later b elided linenum low place place.at (
      close_forward-FoundEnd b elided below next (linenum + 1) 0
        (find_end_of_expression_in_line next 0 (c ∷ s))
        (get_elem?-drop elided (linenum + 1) next below d)
        (rw add-one (drop-suc elided (linenum + 1) next below d))
        (unfold find_end_of_expression_in_line in end_scan-ScanKeeps next next 0 b (c ∷ s) refl k))

-- Whether the character at `pos` is taken for an opening bracket: a `<` is not one behind another `<`
-- or behind the word `operator`.
abbrev pub opens : Text → ℕ → ℕ → Bool
opens line pos c =
    is_in c (codes "([{")
    || c == b'<'
      && not (ltb 0 pos && (before line pos == b'<' || occurs operator_at_end (take pos line)))

opens-end_turn :
    (line : Text) (pos c : ℕ) → opens line pos c ≡ true → end_turn line pos c [] ≡ go (c ∷ [])
unfolding end_turn
opens-end_turn line pos c h = ground arith

end_scan-cons :
    (line rest : Text) (i char : ℕ) (stack s : Text)
    → end_turn line i char stack ≡ go s
    → end_scan line (char ∷ rest) i stack ≡ end_scan line rest (i + 1) s
unfolding end_scan
end_scan-cons line rest i char stack s h = rw (h, end_scan)

opening_scan :
    (line : Text) (pos c : ℕ)
    → get_elem? line pos ≡ some c
    → opens line pos c ≡ true
    → ScanKeeps c line (pos + 1) (find_end_of_expression_in_line line pos [])
unfolding find_end_of_expression_in_line
opening_scan line pos c f h =
    rw
      (
        drop-get_elem? line pos c f,
        end_scan-cons line (drop (suc pos) line) pos c [] (c ∷ []) (opens-end_turn line pos c h),
      )
      (end_scan-ScanKeeps line (drop (suc pos) line) (pos + 1) c (c ∷ []) (rw add-one) refl)

pub close_expression-close_at :
    (elided : List Text) (linenum pos : ℕ) (line : Text) (c : ℕ)
    → get_elem? elided linenum ≡ some line
    → get_elem? line pos ≡ some c
    → close_expression elided linenum pos ≡ close_at elided linenum pos line (some c)
unfolding close_expression
close_expression-close_at elided linenum pos line c e f = ground arith

abbrev Answers : ℕ → List Text → ℕ → ℕ → Option Place → Type 0
Answers c elided linenum low none = ⊥
Answers c elided linenum low (some place) = FoundEnd c elided linenum low place place.at

close_at-Answers :
    (elided : List Text) (linenum pos : ℕ) (line : Text) (c : ℕ)
    → get_elem? elided linenum ≡ some line
    → ScanKeeps c line (pos + 1) (find_end_of_expression_in_line line pos [])
    → Answers c elided linenum (pos + 1) (close_at elided linenum pos line (some c))
unfolding close_at
close_at-Answers elided linenum pos line c e k =
    elim (Bool-cases (not (is_in c (codes "({[<")) || matches shift_or_le (drop pos line))) [
      | inl refused ↦ rw refused refl
      | inr taken ↦ rw taken (
          close_forward-FoundEnd c elided (drop (linenum + 1) elided) line linenum (pos + 1)
            (find_end_of_expression_in_line line pos []) e refl k)
    ]

Answers-some :
    (c : ℕ) (elided : List Text) (linenum low : ℕ) (o : Option Place)
    → Answers c elided linenum low o
    → (place : Place) × (o ≡ some place) × FoundEnd c elided linenum low place place.at
Answers-some c elided linenum low none h = absurd h
Answers-some c elided linenum low (some place) h = (place, refl, h)

-- From an opening bracket, CloseExpression fails with the number of lines and -1, or it answers with a
-- line of the file and the position just behind a bracket of that line, which is of the kind that
-- closes the opening one and stands behind it: on a later line, or further on the same line.
pub close_expression_lem :
    (elided : List Text) (linenum pos : ℕ) (line : Text) (c : ℕ)
    → get_elem? elided linenum ≡ some line
    → get_elem? line pos ≡ some c
    → opens line pos c ≡ true
    → (place : Place) × (close_expression elided linenum pos ≡ some place)
      × FoundEnd c elided linenum (pos + 1) place place.at
close_expression_lem elided linenum pos line c e f h =
    rw (close_expression-close_at elided linenum pos line c e f) (
      Answers-some c elided linenum (pos + 1) (close_at elided linenum pos line (some c))
        (close_at-Answers elided linenum pos line c e (opening_scan line pos c f h)))
