-- ===== src/Cpplint/Cleanse/Collapse/Total.antt =====
-- Every round of _CollapseStrings leaves a shorter line, so its loop ends.
use cppecho.Prelude.{
  ℕ, zero, suc, ◌+◌, ◌<◌, ◌≡◌, refl, ap, inl, inr, Bool, true, false, List, [], ◌∷◌, ◌++◌, Option,
  none, some, arith, if◌then◌else◌, length, length-append, length-drop, Bool-cases,
}
use cppecho.Python.Str.{Text, codes, text_eq, find}
use cppecho.Python.Regex.{
  Found, star, dot, none_of, opt, lit, set, seq, is_word, re_match, group_text, occurs, re_search,
  sub, matches,
}
use cppecho.Python.Regex.Groups.{three_groups, two_groups}
use cppecho.Cpplint.Cleanse.Collapse.{
  first_quote, rest_of_number, number_at_end, include_pattern, cleanse_line_escapes, Round, done,
  more, close_quote, digits, round, collapse_loop, collapse_strings,
}

-- The round ends the loop or leaves a line of fewer than `n` characters.
abbrev IsShort : ℕ → Round → Type 0
IsShort n (done result) = Unit
IsShort n (more elided collapsed) = length elided < n

close_quote-IsShort :
    (n : ℕ) (elided collapsed head quotes tail : Text) (o : Option ℕ)
    → length tail < n
    → IsShort n (close_quote elided collapsed head quotes tail o)
unfolding close_quote
close_quote-IsShort n elided collapsed head quotes tail none h = tt
close_quote-IsShort n elided collapsed head quotes tail (some k) h =
    omega (arith, length-drop (k + 1) tail)

group_text_at :
    (m : Found) (n : ℕ) (t : Text) (gs : List (ℕ × Text))
    → m.groups ≡ (n, t) ∷ gs
    → group_text m n ≡ t
unfolding group_text
group_text_at m n t gs e = rw e (ground arith)

digits-IsShort :
    (collapsed head s : Text) (o : Option Found)
    → re_match rest_of_number s ≡ o
    → IsShort (suc (length s)) (digits collapsed head o)
unfolding digits
digits-IsShort collapsed head s none e = tt
digits-IsShort collapsed head s (some m) e =
    let (first, rest, newline, p, gs) =
      two_groups (star (seq (opt (lit "'")) (set is_word))) (star dot) ((tt, tt), tt) tt s m e in
    rw (group_text_at m 2 rest ((1, first) ∷ []) gs) (
      omega (arith, ap length p, length-append first (rest ++ newline), length-append rest newline))

-- No number ends the empty text.
no_number : occurs number_at_end [] ≡ false
unfolding re_search
no_number = refl

-- A number at its end makes the text before a quote non-empty.
number_not_empty : (head : Text) → occurs number_at_end head ≡ true → 0 < length head
number_not_empty [] h = absurd (cc (h, no_number))
number_not_empty (c ∷ head) h = omega arith

digits-IsShort_lt :
    (n : ℕ) (collapsed head s : Text)
    → length s < n
    → IsShort n (digits collapsed head (re_match rest_of_number s))
digits-IsShort_lt n collapsed head s h =
    weaken (digits collapsed head (re_match rest_of_number s))
      (digits-IsShort collapsed head s (re_match rest_of_number s) refl)
  where
    weaken : (r : Round) → IsShort (suc (length s)) r → IsShort n r
    weaken (done result) k = tt
    weaken (more elided collapsed') k = omega arith

-- The branches of a round on the head, the quote and the tail of a line.
branches-IsShort :
    (n : ℕ) (elided collapsed head quote tail : Text)
    → length tail < n
    → (occurs number_at_end head ≡ true → suc (length tail) < n)
    → IsShort n (
        if text_eq quote (codes "\"")
        then close_quote elided collapsed head (codes "\"\"") tail (find tail (codes "\""))
        else if occurs number_at_end head
        then digits collapsed head (re_match rest_of_number (b'\'' ∷ tail))
        else close_quote elided collapsed head (codes "''") tail (find tail (codes "'")))
branches-IsShort n elided collapsed head quote tail h k =
    elim (Bool-cases (text_eq quote (codes "\""))) [
      | inl e ↦ rw e (
          close_quote-IsShort n elided collapsed head (codes "\"\"") tail (find tail (codes "\""))
            h)
      | inr e ↦ rw e (elim (Bool-cases (occurs number_at_end head)) [
        | inl number ↦ rw number (digits-IsShort_lt n collapsed head (b'\'' ∷ tail) (k number))
        | inr other ↦ rw other (
            close_quote-IsShort n elided collapsed head (codes "''") tail (find tail (codes "'")) h)
      ])
    ]

group_text_3 :
    (m : Found) (t : Text) (q : Text) (h : Text)
    → m.groups ≡ (3, t) ∷ (2, q) ∷ (1, h) ∷ []
    → (group_text m 3 ≡ t) × (group_text m 1 ≡ h)
unfolding group_text
group_text_3 m t q h e = (rw e refl, rw e refl)

round-IsShort :
    (elided collapsed : Text) (o : Option Found)
    → re_match first_quote elided ≡ o
    → IsShort (length elided) (round elided collapsed o)
unfolding round
round-IsShort elided collapsed none e = tt
round-IsShort elided collapsed (some m) e =
    let (head, x, tail, newline, p, _, gs) =
      three_groups (star (none_of "'\"")) (star dot) _ tt tt elided m e in
    let (t, h) = group_text_3 m tail (x ∷ []) head gs in
    let size : length elided ≡ length head + suc (length tail + length newline) = omega (
      arith,
      ap length p,
      length-append head (x ∷ (tail ++ newline)),
      length-append tail newline,
    ) in
    branches-IsShort (length elided) elided collapsed (group_text m 1) (group_text m 2)
      (group_text m 3) (omega (arith, ap length t))
      (λ number. omega (arith, ap length t, ap length h, number_not_empty (group_text m 1) number))

-- With more fuel than the line has characters the loop ends with a text.
collapse_loop-some :
    (fuel : ℕ) (elided collapsed : Text)
    → length elided < fuel
    → (result : Text) × (collapse_loop fuel elided collapsed ≡ some result)
unfolding collapse_loop
collapse_loop-some zero elided collapsed h = elim h [ ]
collapse_loop-some (suc fuel) elided collapsed h =
    go (round elided collapsed (re_match first_quote elided))
      (round-IsShort elided collapsed (re_match first_quote elided) refl) (collapse_loop-some fuel)
  where
    go :
        (r : Round)
        → IsShort (length elided) r
        → ((e c : Text)
            → length e < fuel
            → (result : Text) × (collapse_loop fuel e c ≡ some result))
        → (result : Text) × (elim r [
          | done result ↦ some result
          | more elided' collapsed' ↦ collapse_loop fuel elided' collapsed'
        ]
            ≡ some result)
    go (done result) short ih = (result, refl)
    go (more e c) short ih = ih e c (omega arith)

if_some :
    (b : Bool) (line : Text) (o : Option Text)
    → (result : Text) × (o ≡ some result)
    → (result : Text) × ((if b then some line else o) ≡ some result)
if_some true line o h = (line, refl)
if_some false line o h = h

-- _CollapseStrings ends on every line.
pub collapse_strings-some : (line : Text) → (result : Text) × (collapse_strings line ≡ some result)
unfolding collapse_strings
collapse_strings-some line =
    let escaped = sub cleanse_line_escapes (λ m. []) line in
    if_some (matches include_pattern line) line (collapse_loop (length escaped + 1) escaped [])
      (collapse_loop-some (length escaped + 1) escaped [] (omega arith))
