-- ===== src/Python/Regex/Within.antt =====
-- Where a match stands in its text: what `search` finds lies inside it, and a first group ends before
-- what the pattern wants behind it.
use cppecho.Prelude.{
  ℕ, ◌+◌, ◌-◌, ◌≤◌, ◌≡◌, refl, sym, ap, ◌∙◌, [], ◌∷◌, Option, none, some, arith, length,
  length-append, Bool, true, false, not, ==_iff,
}
use cppecho.Python.Str.{Text}
use cppecho.Python.Str.Laws.{take-length_append}
use cppecho.Python.Regex.{
  Regex, seq, group, bol, Cursor, run, Found, lookup_group, match_at, search_from, re_match,
  re_search, group_text, text, is_word, at_boundary, is_word_at, first_of_text, close_group,
}
use cppecho.Python.Regex.Sound.{Step, Step-Moves}
use cppecho.Python.Regex.Groups.{
  IsGroupFree, min_length, Step-min_length, Step-group, Step-groups, re_match-Step, found-Step,
}

-- A match inside a text: it starts at a position, and does not go on behind the text.
abbrev pub Within : Regex → ℕ → ℕ → Found → Type 0
Within r low high m =
    (low ≤ m.start) × (m.start + length m.whole ≤ high) × (min_length r ≤ length m.whole)

match_at-Within :
    (r : Regex) (c : Cursor) (m : Found)
    → match_at r c ≡ some m
    → Within r c.at (c.at + length c.rest) m
unfolding match_at
match_at-Within r c m h =
    let (d, a, q) = found-Step r c (run r (λ d. some d) c) m refl h in
    let (t, p, k) = Step-Moves r c d a in
    let passed : d.at - c.at ≡ length t = omega arith in
    let same : m.whole ≡ t =
      ap (λ (x : Found). x.whole) q ∙ rw (passed, p) (take-length_append t d.rest) in
    let start : m.start ≡ c.at = ap (λ (x : Found). x.start) q in
    let size : length c.rest ≡ length t + length d.rest = ap length p ∙ length-append t d.rest in
    (omega arith, rw same (omega arith), rw same (omega (arith, Step-min_length r c d a)))

search_step :
    (r : Regex) (i high : ℕ) (o below : Option Found) (m : Found)
    → ((m : Found) → o ≡ some m → Within r i high m)
    → ((m : Found) → below ≡ some m → Within r (i + 1) high m)
    → elim o [ some m ↦ some m | none ↦ below ] ≡ some m
    → Within r i high m
search_step r i high (some n) below m here later h = here m h
search_step r i high none below m here later h = let (a, b, c) = later m h in (omega arith, b, c)

search_from-Within :
    (r : Regex) (i : ℕ) (before : Option ℕ) (s : Text) (m : Found)
    → search_from r i before s ≡ some m
    → Within r i (i + length s) m
unfolding search_from
search_from-Within r i before [] m h =
    match_at-Within r (record { at = i; before = before; rest = []; groups = [] }) m h
search_from-Within r i before (c ∷ s) m h =
    search_step r i (i + length (c ∷ s))
      (match_at r (record { at = i; before = before; rest = c ∷ s; groups = [] }))
      (search_from r (i + 1) (some c) s) m
      (match_at-Within r (record { at = i; before = before; rest = c ∷ s; groups = [] }))
      (λ m e. let (a, b, k) = search_from-Within r (i + 1) (some c) s m e in (a, omega arith, k)) h

-- What `search` finds lies in the text.
pub re_search-Within :
    (r : Regex) (s : Text) (m : Found) → re_search r s ≡ some m → Within r 0 (length s) m
unfolding re_search
re_search-Within r s m h = let (a, b, c) = search_from-Within r 0 none s m h in (a, omega arith, c)

-- A literal has no group.
pub text-IsGroupFree : (t : Text) → IsGroupFree (text t)
text-IsGroupFree [] = tt
text-IsGroupFree (c ∷ []) = tt
text-IsGroupFree (c ∷ d ∷ t) = (tt, text-IsGroupFree (d ∷ t))

-- A match of `^(r)rest`: the group leaves what `rest` needs.
pub first_group :
    (r rest : Regex)
    → IsGroupFree r
    → IsGroupFree rest
    → (s : Text) (m : Found) → re_match (seq bol (seq (group 1 r) rest)) s ≡ some m
    → min_length rest + length (group_text m 1) ≤ length s
unfolding group_text lookup_group
first_group r rest fr frest s m h =
    let (d, (b, (_, eb), (c, g, q)), e) = re_match-Step (seq bol (seq (group 1 r) rest)) s m h in
    let (t, p, n) = Step-group 1 r b c fr g in
    let same : m.groups ≡ (1, t) ∷ b.groups =
      ap (λ (x : Found). x.groups) e ∙ Step-groups rest c d frest q ∙ n in
    let rest_b : b.rest ≡ s = ap (λ (x : Cursor). x.rest) eb in
    rw same (
      omega (arith, ap length (sym rest_b ∙ p), length-append t c.rest, Step-min_length rest c d q))

-- The last character of a text that has one.
abbrev pub last_of : ℕ → Text → ℕ
last_of c [] = c
last_of c (d ∷ t) = last_of d t

-- Behind a literal stands its last character.
pub text-before :
    (c : ℕ) (t : Text) (a b : Cursor) → Step (text (c ∷ t)) a b → b.before ≡ some (last_of c t)
text-before c [] a b (x, s, r, t, e) =
    let same : x ≡ c = (==_iff x c).0 t in ap (λ (y : Cursor). y.before) e ∙ ap some same
text-before c (d ∷ t) a b (e, h, k) = text-before d t e b k

not_word : (a b : Bool) → a ≡ true → elim a [ true ↦ not b | false ↦ b ] ≡ true → b ≡ false
not_word true true e h = sym h
not_word true false e h = refl
not_word false b e h = absurd (cc)

-- Behind a character of a word, a boundary stands before one that is of no word.
pub boundary_behind :
    (c : Cursor) (x y : ℕ) (s : Text)
    → c.before ≡ some x
    → is_word x ≡ true
    → at_boundary c ≡ true
    → c.rest ≡ y ∷ s
    → is_word y ≡ false
unfolding at_boundary is_word_at first_of_text
boundary_behind c x y s b w h r =
    sym (ap (λ (t : Text). is_word_at (first_of_text t)) r)
    ∙ not_word (is_word_at c.before) (is_word_at (first_of_text c.rest)) (ap is_word_at b ∙ w) h

-- A group leaves what its pattern leaves.
pub group_rest :
    (n : ℕ) (r : Regex) (c e : Cursor)
    → Step (group n r) c e
    → (d : Cursor) × Step r c d × (e.rest ≡ d.rest)
unfolding close_group
group_rest n r c e (d, a, q) = (d, a, ap (λ (x : Cursor). x.rest) q)

-- The texts of three groups.
pub three_texts :
    (m : Found) (a b c : Text)
    → m.groups ≡ (3, c) ∷ (2, b) ∷ (1, a) ∷ []
    → (group_text m 1 ≡ a) × (group_text m 2 ≡ b) × (group_text m 3 ≡ c)
unfolding group_text lookup_group
three_texts m a b c h = (rw h refl, rw h refl, rw h refl)
