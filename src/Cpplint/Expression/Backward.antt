-- ===== src/Cpplint/Expression/Backward.antt =====
-- What ReverseCloseExpression finds: an opening bracket of the kind that the closing one wants.
use cppecho.Prelude.{
  ℕ, zero, suc, ◌+◌, ◌-◌, ◌≤◌, ◌<◌, ◌≡◌, refl, ◌⊎◌, inl, inr, Bool, true, not, ◌&&◌, ◌||◌, List, [],
  ◌∷◌, Option, none, some, arith, ltb, ◌==◌, length, get_elem?, get_or, take, drop,
  get_elem?-get_or, get_or-get_elem?, get_elem?-lt,
}
use cppecho.Python.Str.{Text, codes}
use cppecho.Python.Regex.{matches, occurs}
use cppecho.Cpplint.Expression.{
  is_in, Scan, closed, failed, unclosed, Turn, go, skip, stop, operator_at_end, spaced_ge, before,
  start_turn, start_scan, find_start_of_expression_in_line, reverse_close_expression,
  close_backward, reverse_at, Place,
}
use cppecho.Cpplint.Expression.Forward.{bottom, bottom-pop_all, closes}

-- What a turn at index `i` may do to a stack with bottom `b`.
abbrev Keeps : ℕ → ℕ → ℕ → Turn → Type 0
Keeps b char i (go s) = bottom s ≡ some b
Keeps b char i (skip s) = bottom s ≡ some b
Keeps b char i (stop (closed p)) = (p ≡ i) × (closes char b ≡ true)
Keeps b char i (stop failed) = Unit
Keeps b char i (stop (unclosed s)) = ⊥

start_turn-Keeps :
    (line : Text) (i char b : ℕ) (stack : Text)
    → bottom stack ≡ some b
    → Keeps b char i (start_turn line i char stack)
unfolding start_turn
start_turn-Keeps line i char b [] h = absurd (cc)
start_turn-Keeps line i char b (c ∷ []) h = ground (arith, bottom-pop_all b'>' b (c ∷ []) h)
start_turn-Keeps line i char b (c ∷ d ∷ s) h = ground (arith, bottom-pop_all b'>' b (c ∷ d ∷ s) h)

-- The position of a bracket of a line that `b` closes, below `high`.
abbrev pub StartsAt : ℕ → Text → ℕ → ℕ → Type 0
StartsAt b line high p = (c : ℕ) × (p < high) × (get_elem? line p ≡ some c) × (closes c b ≡ true)

abbrev ScanKeeps : ℕ → Text → ℕ → Scan → Type 0
ScanKeeps b line high (closed p) = StartsAt b line high p
ScanKeeps b line high failed = Unit
ScanKeeps b line high (unclosed s) = bottom s ≡ some b

stop-ScanKeeps :
    (line : Text) (i high b : ℕ) (result : Scan)
    → i < length line
    → i < high
    → Keeps b (get_or line i 0) i (stop result)
    → ScanKeeps b line high result
stop-ScanKeeps line i high b (closed p) h k (e, c) =
    (get_or line i 0, omega arith, rw e (get_elem?-get_or line i 0 h), c)
stop-ScanKeeps line i high b failed h k e = tt
stop-ScanKeeps line i high b (unclosed s) h k e = elim e [ ]

start_scan-ScanKeeps :
    (count : ℕ) (line : Text) (high b : ℕ) (stack : Text)
    → count ≤ length line
    → count ≤ high
    → bottom stack ≡ some b
    → ScanKeeps b line high (start_scan count line stack)
unfolding start_scan
start_scan-ScanKeeps zero line high b stack h k e = e
start_scan-ScanKeeps (suc zero) line high b stack h k e =
    put (start_turn line 0 (get_or line 0 0) stack)
      (start_turn-Keeps line 0 (get_or line 0 0) b stack e)
  where
    put :
        (t : Turn)
        → Keeps b (get_or line 0 0) 0 t
        → ScanKeeps b line high (elim t as (λ x. Scan) [
          | go s ↦ unclosed s
          | skip s ↦ unclosed s
          | stop result ↦ result
        ])
    put (go s) j = j
    put (skip s) j = j
    put (stop result) j = stop-ScanKeeps line 0 high b result (omega arith) (omega arith) j
start_scan-ScanKeeps (suc (suc i)) line high b stack h k e =
    put (start_turn line (suc i) (get_or line (suc i) 0) stack)
      (start_turn-Keeps line (suc i) (get_or line (suc i) 0) b stack e)
      (λ s. start_scan-ScanKeeps (suc i) line high b s (omega arith) (omega arith))
      (λ s. start_scan-ScanKeeps i line high b s (omega arith) (omega arith))
  where
    put :
        (t : Turn)
        → Keeps b (get_or line (suc i) 0) (suc i) t
        → ((s : Text) → bottom s ≡ some b → ScanKeeps b line high (start_scan (suc i) line s))
        → ((s : Text) → bottom s ≡ some b → ScanKeeps b line high (start_scan i line s))
        → ScanKeeps b line high (elim t as (λ x. Scan) [
          | go s ↦ start_scan (suc i) line s
          | skip s ↦ start_scan i line s
          | stop result ↦ result
        ])
    put (go s) j one two = one s j
    put (skip s) j one two = two s j
    put (stop result) j one two =
        stop-ScanKeeps line (suc i) high b result (omega arith) (omega arith) j

-- An answer: line 0 and -1, or the position of a bracket of a line, on a line above or below `high`.
abbrev pub FoundStart : ℕ → List Text → ℕ → ℕ → Place → Option ℕ → Type 0
FoundStart b elided linenum high place none = place.linenum ≡ 0
FoundStart b elided linenum high place (some p) =
    (c : ℕ) × (get_elem? elided place.linenum ≡ some place.line)
    × (get_elem? place.line p ≡ some c)
    × (closes c b ≡ true)
    × ((place.linenum < linenum) ⊎ ((place.linenum ≡ linenum) × (p < high)))

FoundStart-above :
    (b : ℕ) (elided : List Text) (n high high' : ℕ) (place : Place) (at : Option ℕ)
    → FoundStart b elided n high place at
    → FoundStart b elided (suc n) high' place at
FoundStart-above b elided n high high' place none h = h
FoundStart-above b elided n high high' place (some p) (c, e, f, k, o) =
    (c, e, f, k, inl (omega (arith, o)))

close_backward-FoundStart :
    (elided : List Text) (linenum : ℕ) (line : Text) (high b : ℕ) (scan : Scan)
    → get_elem? elided linenum ≡ some line
    → ScanKeeps b line high scan
    → FoundStart b elided linenum high
        (close_backward elided linenum line scan)
        (close_backward elided linenum line scan).at
unfolding close_backward find_start_of_expression_in_line
close_backward-FoundStart elided linenum line high b (closed p) e (c, l, f, k) =
    (c, e, f, k, inr (refl, l))
close_backward-FoundStart elided linenum line high b failed e h = refl
close_backward-FoundStart elided linenum line high b (unclosed []) e h = refl
close_backward-FoundStart elided zero line high b (unclosed (c ∷ s)) e h = refl
close_backward-FoundStart elided (suc n) line high b (unclosed (c ∷ s)) e h =
    let above = get_or elided n [] in
    let scan = start_scan (length above) above (c ∷ s) in
    let place = close_backward elided n above scan in
    FoundStart-above b elided n (length above) high place place.at (
      close_backward-FoundStart elided n above (length above) b scan
        (get_elem?-get_or elided n [] (omega (arith, get_elem?-lt elided (suc n) line e)))
        (start_scan-ScanKeeps (length above) above (length above) b (c ∷ s) (omega arith)
          (omega arith) h))

-- Whether the character at `pos` is taken for a closing bracket: a `>` is not one behind a `-`, in `>=`
-- between spaces, or behind the word `operator`.
abbrev pub ends : Text → ℕ → ℕ → Bool
ends line pos c =
    is_in c (codes ")]}")
    || c == b'>'
      && not (
          ltb 0 pos
          && (before line pos == b'-'
              || matches spaced_ge (drop (pos - 1) line)
              || occurs operator_at_end (take pos line)))

ends-start_turn :
    (line : Text) (pos c : ℕ) → ends line pos c ≡ true → start_turn line pos c [] ≡ go (c ∷ [])
unfolding start_turn
ends-start_turn line pos c h = ground arith

start_scan-go :
    (line : Text) (pos c : ℕ) (s : Text)
    → start_turn line pos (get_or line pos 0) s ≡ go (c ∷ [])
    → start_scan (suc pos) line s ≡ start_scan pos line (c ∷ [])
unfolding start_scan
start_scan-go line zero c s h = rw (h, start_scan) refl
start_scan-go line (suc i) c s h = rw (h, start_scan) refl

closing_scan :
    (line : Text) (pos c : ℕ)
    → get_elem? line pos ≡ some c
    → ends line pos c ≡ true
    → ScanKeeps c line pos (start_scan (suc pos) line [])
closing_scan line pos c f h =
    let char = get_or-get_elem? line pos c 0 f in
    rw (start_scan-go line pos c [] (rw char (ends-start_turn line pos c h))) (
      start_scan-ScanKeeps pos line pos c (c ∷ []) (omega (arith, get_elem?-lt line pos c f))
        (omega arith) refl)

reverse_at-FoundStart :
    (elided : List Text) (linenum pos : ℕ) (line : Text) (c : ℕ)
    → get_elem? elided linenum ≡ some line
    → get_elem? line pos ≡ some c
    → ends line pos c ≡ true
    → (place : Place) × (reverse_at elided linenum pos line (some c) ≡ some place)
      × FoundStart c elided linenum pos place place.at
unfolding reverse_at find_start_of_expression_in_line
reverse_at-FoundStart elided linenum pos line c e f h =
    let next : pos + 1 ≡ suc pos = omega arith in
    let place = close_backward elided linenum line (start_scan (suc pos) line []) in
    let taken : is_in c (codes ")}]>") ≡ true = ground arith in
    (
      place,
      rw (taken, next) refl,
      close_backward-FoundStart elided linenum line pos c (start_scan (suc pos) line []) e
          (closing_scan line pos c f h),
    )

pub reverse_close_expression-reverse_at :
    (elided : List Text) (linenum pos : ℕ) (line : Text) (c : ℕ)
    → get_elem? elided linenum ≡ some line
    → get_elem? line pos ≡ some c
    → reverse_close_expression elided linenum pos ≡ reverse_at elided linenum pos line (some c)
unfolding reverse_close_expression
reverse_close_expression-reverse_at elided linenum pos line c e f = ground arith

-- From a closing bracket, ReverseCloseExpression fails with line 0 and -1, or it answers with a line of
-- the file and the position of a bracket of that line, which is of the kind that the closing one closes
-- and stands in front of it: on an earlier line, or earlier on the same line.
pub reverse_close_expression_lem :
    (elided : List Text) (linenum pos : ℕ) (line : Text) (c : ℕ)
    → get_elem? elided linenum ≡ some line
    → get_elem? line pos ≡ some c
    → ends line pos c ≡ true
    → (place : Place) × (reverse_close_expression elided linenum pos ≡ some place)
      × FoundStart c elided linenum pos place place.at
reverse_close_expression_lem elided linenum pos line c e f h =
    rw (reverse_close_expression-reverse_at elided linenum pos line c e f)
      (reverse_at-FoundStart elided linenum pos line c e f h)
