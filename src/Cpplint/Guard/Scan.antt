-- ===== src/Cpplint/Guard/Scan.antt =====
-- Which lines of a header CheckForHeaderGuard looks at.
use cppecho.Prelude.{
  ℕ, ◌+◌, ◌≡◌, refl, Bool, true, false, List, [], ◌∷◌, Option, none, some, if◌then◌else◌, arith,
  All, or_else,
}
use cppecho.Python.Str.{
  Text, codes, text_eq, startswith, words, grow, starts_word, is_unicode_space,
}
use cppecho.Cpplint.Guard.{Guard, no_guard, scan_words, scan_endif, scan_guard}

-- The second word of a line whose first word is a directive.
abbrev pub argument : Text → List Text → Option Text
argument directive (first ∷ second ∷ more) = if text_eq first directive then some second else none
argument directive _ = none

abbrev pub numbered : ℕ → Option Text → Option (ℕ × Text)
numbered n none = none
numbered n (some t) = some (n, t)

-- The first line with an argument for the directive, counted from `n` on: its number and the argument.
abbrev pub first_argument : Text → ℕ → List Text → Option (ℕ × Text)
first_argument directive n [] = none
first_argument directive n (line ∷ lines) =
    or_else (numbered n (argument directive (words line))) (first_argument directive (n + 1) lines)

-- The last line that starts with #endif.
abbrev pub last_endif : ℕ → List Text → Option (ℕ × Text)
last_endif n [] = none
last_endif n (line ∷ lines) =
    or_else (last_endif (n + 1) lines)
      (if startswith line (codes "#endif") then some (n, line) else none)

abbrev pub number_or : ℕ → Option (ℕ × Text) → ℕ
number_or d none = d
number_or d (some (n, t)) = n

abbrev pub text_or : Text → Option (ℕ × Text) → Text
text_or d none = d
text_or d (some (n, t)) = t

abbrev is_empty : Text → Bool
is_empty [] = true
is_empty (c ∷ s) = false

text_eq-nil : (t : Text) → text_eq t [] ≡ is_empty t
unfolding text_eq
text_eq-nil [] = refl
text_eq-nil (c ∷ t) = refl

-- No word is empty.
words-nonempty : (s : Text) → All (λ w. is_empty w ≡ false) (words s)
unfolding words
words-nonempty [] = tt
words-nonempty (c ∷ s) = put (is_unicode_space c) (starts_word s) (words s) (words-nonempty s)
  where
    put :
        (b d : Bool) (ws : List Text)
        → All (λ w. is_empty w ≡ false) ws
        → All (λ w. is_empty w ≡ false) (if b then ws else grow c d ws)
    put true d ws a = a
    put false true [] a = (refl, tt)
    put false true (w ∷ ws) a = (refl, a.1)
    put false false ws a = (refl, a)

argument-nonempty :
    (directive : Text) (ws : List Text)
    → All (λ w. is_empty w ≡ false) ws
    → (t : Text) → argument directive ws ≡ some t
    → is_empty t ≡ false
argument-nonempty directive (v ∷ w ∷ ws) a t h = ground (arith, a.1.0)
argument-nonempty directive [] a t h = absurd (cc)
argument-nonempty directive (v ∷ []) a t h = absurd (cc)

-- A text and a line number that stand for the first of several.
abbrev Earlier : Text → ℕ → Option (ℕ × Text) → Text → ℕ → Type 0
Earlier t n o t' n' =
    (t' ≡ (if is_empty t then text_or t o else t))
    × (n' ≡ (if is_empty t then number_or n o else n))

words-step :
    (n : ℕ) (ws : List Text) (g : Guard)
    → Earlier g.ifndef g.ifndef_linenum
        (numbered n (argument (codes "#ifndef") ws))
        (scan_words n ws g).ifndef
        (scan_words n ws g).ifndef_linenum
      × ((scan_words n ws g).define ≡ (
          if is_empty g.define
          then text_or g.define (numbered n (argument (codes "#define") ws))
          else g.define))
      × ((scan_words n ws g).endif ≡ g.endif)
      × ((scan_words n ws g).endif_linenum ≡ g.endif_linenum)
unfolding scan_words
words-step n [] g = ground arith
words-step n (v ∷ []) g = ground arith
words-step n (v ∷ w ∷ ws) g = ground (arith, text_eq-nil g.ifndef, text_eq-nil g.define)

-- What one line does to what is found.
line-step :
    (n : ℕ) (line : Text) (g : Guard)
    → (h : Guard) × ((lines : List Text)
        → scan_guard n (line ∷ lines) g ≡ scan_guard (n + 1) lines h)
      × Earlier g.ifndef g.ifndef_linenum
          (numbered n (argument (codes "#ifndef") (words line)))
          h.ifndef
          h.ifndef_linenum
      × (h.define ≡ (
          if is_empty g.define
          then text_or g.define (numbered n (argument (codes "#define") (words line)))
          else g.define))
      × (h.endif ≡ (if startswith line (codes "#endif") then line else g.endif))
      × (h.endif_linenum ≡ (if startswith line (codes "#endif") then n else g.endif_linenum))
unfolding scan_guard scan_endif
line-step n line g =
    let h = scan_words n (words line) g in
    let (i, d, e, k) = words-step n (words line) g in
    (scan_endif n line h, λ lines. refl, ground arith, ground arith, ground arith, ground arith)

-- The fields of what the scan finds, from what it starts with.
abbrev Found : ℕ → List Text → Guard → Guard → Type 0
Found n lines g r =
    Earlier g.ifndef g.ifndef_linenum (first_argument (codes "#ifndef") n lines) r.ifndef
      r.ifndef_linenum
    × (r.define ≡ (
        if is_empty g.define
        then text_or g.define (first_argument (codes "#define") n lines)
        else g.define))
    × (r.endif ≡ text_or g.endif (last_endif n lines))
    × (r.endif_linenum ≡ number_or g.endif_linenum (last_endif n lines))

scan_guard-Found : (n : ℕ) (lines : List Text) (g : Guard) → Found n lines g (scan_guard n lines g)
scan_guard-Found n [] g = unfold scan_guard in ground arith
scan_guard-Found n (line ∷ lines) g =
    let (h, q, i, d, e, k) = line-step n line g in
    let (i', d', e', k') = scan_guard-Found (n + 1) lines h in
    let fresh = words-nonempty line in
    rw (q lines) (
      ground (
        arith,
        argument-nonempty (codes "#ifndef") (words line) fresh,
        argument-nonempty (codes "#define") (words line) fresh,
      ))

-- The loop of CheckForHeaderGuard keeps the argument and the number of the first #ifndef line with an
-- argument, the argument of the first such #define line, and the last line that starts with #endif with
-- its number; an empty text and 0 stand for what there is not.
pub scan_guard_lem :
    (lines : List Text)
    → ((scan_guard 0 lines no_guard).ifndef ≡ text_or [] (first_argument (codes "#ifndef") 0 lines))
      × ((scan_guard 0 lines no_guard).ifndef_linenum
          ≡ number_or 0 (first_argument (codes "#ifndef") 0 lines))
      × ((scan_guard 0 lines no_guard).define
          ≡ text_or [] (first_argument (codes "#define") 0 lines))
      × ((scan_guard 0 lines no_guard).endif ≡ text_or [] (last_endif 0 lines))
      × ((scan_guard 0 lines no_guard).endif_linenum ≡ number_or 0 (last_endif 0 lines))
scan_guard_lem lines = let ((i, n), d, e, k) = scan_guard-Found 0 lines no_guard in (i, n, d, e, k)
