-- ===== src/Python/Regex/Tail.antt =====
-- The last group of a pattern that ends with it: what it noted, and how much the pattern passed before.
use cppecho.Prelude.{
  ℕ, ◌+◌, ◌-◌, ◌≤◌, ◌≡◌, refl, ap, ◌∙◌, List, ◌∷◌, some, arith, length, length-append, ==_refl,
  false, ◌==◌,
}
use cppecho.Python.Str.{Text}
use cppecho.Python.Str.Laws.{take-length_append}
use cppecho.Python.Regex.{
  Regex, seq, group, eol, Cursor, start_of, Found, lookup_group, re_match, group_text,
}
use cppecho.Python.Regex.Sound.{Step, Step-Moves}
use cppecho.Python.Regex.Groups.{
  IsGroupFree, min_length, Step-min_length, Step-group, re_match-Step,
}

-- Behind the pattern the group `n` has a text, at least `k` characters shorter than what there was.
pub Notes : ℕ → ℕ → Regex → Type 0
Notes n k r =
    (c d : Cursor)
    → Step r c d
    → (t : Text) × (lookup_group n d.groups ≡ some t) × (k + length t ≤ length c.rest)

pub Notes-seq : (n k : ℕ) (r s : Regex) → Notes n k s → Notes n (min_length r + k) (seq r s)
unfolding Notes
Notes-seq n k r s notes c e (d, a, b) =
    let (t, q, l) = notes d e b in (t, q, omega (arith, Step-min_length r c d a))

pub Notes-group : (n : ℕ) (r : Regex) → IsGroupFree r → Notes n 0 (seq (group n r) eol)
unfolding lookup_group Notes
Notes-group n r free c e (d, a, (_, q)) =
    let (t, p, g) = Step-group n r c d free a in
    let same : e.groups ≡ (n, t) ∷ c.groups = ap (λ (x : Cursor). x.groups) q ∙ g in
    (t, rw (same, ==_refl n), omega (arith, ap length p, length-append t d.rest))

-- The text of the group in a match.
pub match-Notes :
    (n k : ℕ) (r : Regex) (s : Text) (m : Found)
    → Notes n k r
    → re_match r s ≡ some m
    → k + length (group_text m n) ≤ length s
unfolding group_text Notes
match-Notes n k r s m notes h =
    let (d, a, e) = re_match-Step r s m h in
    let (t, q, l) = notes (start_of s) d a in
    let same : lookup_group n m.groups ≡ some t =
      ap (λ (x : Found). lookup_group n x.groups) e ∙ q in
    rw same l

pub noted :
    (m : Found) (n : ℕ) (t : Text) (gs : List (ℕ × Text))
    → m.groups ≡ (n, t) ∷ gs
    → group_text m n ≡ t
unfolding group_text lookup_group
noted m n t gs h = rw (h, ==_refl n) refl

pub noted_before :
    (m : Found) (n k : ℕ) (t u : Text) (gs : List (ℕ × Text))
    → m.groups ≡ (k, u) ∷ (n, t) ∷ gs
    → (k == n) ≡ false
    → group_text m n ≡ t
unfolding group_text lookup_group
noted_before m n k t u gs h e = rw (h, e, ==_refl n) refl

-- How much a match passes.
pub match-whole :
    (r : Regex) (s : Text) (m : Found)
    → re_match r s ≡ some m
    → (min_length r ≤ length m.whole) × (length m.whole ≤ length s)
match-whole r s m h =
    let (d, a, q) = re_match-Step r s m h in
    let (t, p, k) = Step-Moves r (start_of s) d a in
    let passed : d.at - 0 ≡ length t = omega arith in
    let same : m.whole ≡ t =
      ap (λ (x : Found). x.whole) q ∙ rw (passed, p) (take-length_append t d.rest) in
    let size : length s ≡ length t + length d.rest = ap length p ∙ length-append t d.rest in
    (rw same (omega (arith, Step-min_length r (start_of s) d a)), rw same (omega arith))
