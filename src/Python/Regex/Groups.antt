-- ===== src/Python/Regex/Groups.antt =====
-- What a match says: the text that it passed, and the texts of its groups.
use cppecho.Prelude.{
  ℕ, ◌+◌, ◌-◌, ◌≤◌, ◌≡◌, refl, sym, ap, ◌∙◌, inl, inr, Bool, true, List, [], ◌∷◌, ◌++◌, Option,
  none, some, arith, length, take, length-append, min,
}
use cppecho.Python.Str.{Text}
use cppecho.Python.Str.Laws.{take-length_append}
use cppecho.Python.Regex.{
  Regex, eps, set, seq, alt, star, lazy, group, bol, eol, boundary, ahead, unless, back, Cursor,
  close_group, run, start_of, Found, found, re_match,
}
use cppecho.Python.Regex.Sound.{Rounds, here, next, Passes, Step, Moves, Step-Moves, run-Reached}

-- A pattern with no group in it.
abbrev pub IsGroupFree : Regex → Type 0
IsGroupFree (seq r s) = IsGroupFree r × IsGroupFree s
IsGroupFree (alt r s) = IsGroupFree r × IsGroupFree s
IsGroupFree (star r) = IsGroupFree r
IsGroupFree (lazy r) = IsGroupFree r
IsGroupFree (group n r) = ⊥
IsGroupFree (ahead r) = IsGroupFree r
IsGroupFree _ = Unit

Rounds-groups :
    (R : Cursor → Cursor → Type 0)
    → ((c d : Cursor) → R c d → d.groups ≡ c.groups)
    → (c : Cursor) {d : Cursor} → Rounds R c d
    → d.groups ≡ c.groups
Rounds-groups R same c here = refl
Rounds-groups R same c (next {d} {e} r s) = same d e s ∙ Rounds-groups R same c r

Passes-groups : (t : Text) (c d : Cursor) → Passes t c d → d.groups ≡ c.groups
Passes-groups [] c d h = ap (λ (x : Cursor). x.groups) h
Passes-groups (x ∷ t) c e (s, r, a) =
    Passes-groups t (record c { at = c.at + 1; before = some x; rest = s }) e a

pub Step-groups : (r : Regex) (c d : Cursor) → IsGroupFree r → Step r c d → d.groups ≡ c.groups
Step-groups eps c d f h = ap (λ (x : Cursor). x.groups) h
Step-groups (set p) c d f (x, s, r, t, e) = ap (λ (x : Cursor). x.groups) e
Step-groups (seq r s) c e f (d, a, b) = Step-groups s d e f.1 b ∙ Step-groups r c d f.0 a
Step-groups (alt r s) c d f (inl a) = Step-groups r c d f.0 a
Step-groups (alt r s) c d f (inr b) = Step-groups s c d f.1 b
Step-groups (star r) c d f h = Rounds-groups (Step r) (λ x y. Step-groups r x y f) c h
Step-groups (lazy r) c d f h = Rounds-groups (Step r) (λ x y. Step-groups r x y f) c h
Step-groups (group n r) c e f h = absurd f
Step-groups bol c d f (t, h) = ap (λ (x : Cursor). x.groups) h
Step-groups eol c d f (t, h) = ap (λ (x : Cursor). x.groups) h
Step-groups boundary c d f (t, h) = ap (λ (x : Cursor). x.groups) h
Step-groups (ahead r) c e f (d, a, h) = ap (λ (x : Cursor). x.groups) h ∙ Step-groups r c d f a
Step-groups (unless r) c d f h = ap (λ (x : Cursor). x.groups) h
Step-groups (back n) c d f (t, q, a) = Passes-groups t c d a

-- A group notes the text that it passed.
pub Step-group :
    (n : ℕ) (r : Regex) (c e : Cursor)
    → IsGroupFree r
    → Step (group n r) c e
    → (t : Text) × (c.rest ≡ t ++ e.rest) × (e.groups ≡ (n, t) ∷ c.groups)
unfolding close_group
Step-group n r c e f (d, a, q) =
    let (t, p, b) = Step-Moves r c d a in
    let passed : d.at - c.at ≡ length t = omega arith in
    let noted : take (d.at - c.at) c.rest ≡ t = rw (passed, p) (take-length_append t d.rest) in
    (
      t,
      p ∙ ap (λ (x : Cursor). t ++ x.rest) (sym q),
      ap (λ (x : Cursor). x.groups) q
          ∙ ap (λ (u : Text). (n, u) ∷ d.groups) noted
          ∙ ap (λ (gs : List (ℕ × Text)). (n, t) ∷ gs) (Step-groups r c d f a),
    )

pub found-Step :
    (r : Regex) (c : Cursor) (o : Option Cursor) (m : Found)
    → run r (λ d. some d) c ≡ o
    → elim o [ none ↦ none | some d ↦ some (found c d) ] ≡ some m
    → (d : Cursor) × Step r c d × (m ≡ found c d)
found-Step r c none m q h = absurd (cc)
found-Step r c (some d) m q h =
    let (d', a, e) = run-Reached r (λ d. some d) c d q in let same : d' ≡ d = cc in (d', a, cc)

-- A match comes from a step from the start of the text.
pub re_match-Step :
    (r : Regex) (s : Text) (m : Found)
    → re_match r s ≡ some m
    → (d : Cursor) × Step r (start_of s) d × (m ≡ found (start_of s) d)
unfolding re_match
re_match-Step r s m h = found-Step r (start_of s) (run r (λ d. some d) (start_of s)) m refl h

-- A group of one character notes one character.
pub Step-group_set :
    (n : ℕ) (p : ℕ → Bool) (c e : Cursor)
    → Step (group n (set p)) c e
    → (x : ℕ) × (c.rest ≡ x ∷ e.rest) × (p x ≡ true) × (e.groups ≡ (n, x ∷ []) ∷ c.groups)
unfolding close_group
Step-group_set n p c e (d, (x, s, r, t, q), k) =
    let one : c.at + 1 - c.at ≡ 1 = omega arith in
    let at_d : d.at ≡ c.at + 1 = ap (λ (y : Cursor). y.at) q in
    let noted : take (d.at - c.at) c.rest ≡ x ∷ [] = rw (at_d, one, r) refl in
    (
      x,
      r
          ∙ ap (λ (u : Text). x ∷ u)
              (sym (ap (λ (y : Cursor). y.rest) k ∙ ap (λ (y : Cursor). y.rest) q)),
      t,
      ap (λ (y : Cursor). y.groups) k
          ∙ ap (λ (u : Text). (n, u) ∷ d.groups) noted
          ∙ ap (λ (gs : List (ℕ × Text)). (n, x ∷ []) ∷ gs) (ap (λ (y : Cursor). y.groups) q),
    )

-- A match of `^(r)(p)(t)$`: the text is its three groups, and perhaps a newline.
pub three_groups :
    (r t : Regex) (p : ℕ → Bool)
    → IsGroupFree r
    → IsGroupFree t
    → (s : Text) (m : Found)
    → re_match (seq bol (seq (group 1 r) (seq (group 2 (set p)) (seq (group 3 t) eol)))) s ≡ some m
    → (head : Text) × (x : ℕ) × (tail : Text) × (newline : Text) × (s
        ≡ head ++ x ∷ (tail ++ newline))
      × (p x ≡ true)
      × (m.groups ≡ (3, tail) ∷ (2, x ∷ []) ∷ (1, head) ∷ [])
three_groups r t p fr ft s m h =
    let (d, (b, (_, eb), (d₁, g₁, (d₂, g₂, (d₃, g₃, (_, ed))))), e) =
      re_match-Step (seq bol (seq (group 1 r) (seq (group 2 (set p)) (seq (group 3 t) eol)))) s m
        h in
    let (head, r₁, n₁) = Step-group 1 r b d₁ fr g₁ in
    let (x, r₂, px, n₂) = Step-group_set 2 p d₁ d₂ g₂ in
    let (tail, r₃, n₃) = Step-group 3 t d₂ d₃ ft g₃ in
    let rest_b : b.rest ≡ s = ap (λ (y : Cursor). y.rest) eb in
    let groups_b : b.groups ≡ [] = ap (λ (y : Cursor). y.groups) eb in
    let groups_d : d.groups ≡ d₃.groups = ap (λ (y : Cursor). y.groups) ed in
    let groups_m : m.groups ≡ d.groups = ap (λ (y : Found). y.groups) e in
    (
      head,
      x,
      tail,
      d₃.rest,
      sym rest_b ∙ r₁ ∙ ap (λ (u : Text). head ++ u) (r₂ ∙ ap (λ (u : Text). x ∷ u) r₃),
      px,
      groups_m ∙ groups_d ∙ cc (n₃, n₂, n₁, groups_b),
    )

-- A match of `^(r)(t)$` passes no more text than there is.
pub two_groups :
    (r t : Regex)
    → IsGroupFree r
    → IsGroupFree t
    → (s : Text) (m : Found) → re_match (seq bol (seq (group 1 r) (seq (group 2 t) eol))) s ≡ some m
    → (head : Text) × (tail : Text) × (newline : Text) × (s ≡ head ++ (tail ++ newline))
      × (m.groups ≡ (2, tail) ∷ (1, head) ∷ [])
two_groups r t fr ft s m h =
    let (d, (b, (_, eb), (d₁, g₁, (d₂, g₂, (_, ed)))), e) =
      re_match-Step (seq bol (seq (group 1 r) (seq (group 2 t) eol))) s m h in
    let (head, r₁, n₁) = Step-group 1 r b d₁ fr g₁ in
    let (tail, r₂, n₂) = Step-group 2 t d₁ d₂ ft g₂ in
    let rest_b : b.rest ≡ s = ap (λ (y : Cursor). y.rest) eb in
    let groups_b : b.groups ≡ [] = ap (λ (y : Cursor). y.groups) eb in
    let groups_d : d.groups ≡ d₂.groups = ap (λ (y : Cursor). y.groups) ed in
    let groups_m : m.groups ≡ d.groups = ap (λ (y : Found). y.groups) e in
    (
      head,
      tail,
      d₂.rest,
      sym rest_b ∙ r₁ ∙ ap (λ (u : Text). head ++ u) r₂,
      groups_m ∙ groups_d ∙ cc (n₂, n₁, groups_b),
    )

-- The least number of characters that a pattern passes.
abbrev pub min_length : Regex → ℕ
min_length (set p) = 1
min_length (seq r s) = min_length r + min_length s
min_length (alt r s) = min (min_length r) (min_length s)
min_length (group n r) = min_length r
min_length _ = 0

Moves-le : (c d : Cursor) → Moves c d → length d.rest ≤ length c.rest
Moves-le c d (t, r, a) = omega (arith, ap length r, length-append t d.rest)

pub Step-min_length :
    (r : Regex) (c d : Cursor) → Step r c d → min_length r + length d.rest ≤ length c.rest
unfolding close_group
Step-min_length (set p) c d (x, s, r, t, e) =
    omega (arith, ap length r, ap (λ (y : Cursor). length y.rest) e)
Step-min_length (seq r s) c e (d, a, b) =
    omega (arith, Step-min_length r c d a, Step-min_length s d e b)
Step-min_length (alt r s) c d (inl a) = omega (arith, Step-min_length r c d a)
Step-min_length (alt r s) c d (inr b) = omega (arith, Step-min_length s c d b)
Step-min_length (group n r) c e (d, a, q) =
    omega (arith, Step-min_length r c d a, ap (λ (y : Cursor). length y.rest) q)
Step-min_length eps c d h = omega (arith, Moves-le c d (Step-Moves eps c d h))
Step-min_length (star r) c d h = omega (arith, Moves-le c d (Step-Moves (star r) c d h))
Step-min_length (lazy r) c d h = omega (arith, Moves-le c d (Step-Moves (lazy r) c d h))
Step-min_length bol c d h = omega (arith, Moves-le c d (Step-Moves bol c d h))
Step-min_length eol c d h = omega (arith, Moves-le c d (Step-Moves eol c d h))
Step-min_length boundary c d h = omega (arith, Moves-le c d (Step-Moves boundary c d h))
Step-min_length (ahead r) c d h = omega (arith, Moves-le c d (Step-Moves (ahead r) c d h))
Step-min_length (unless r) c d h = omega (arith, Moves-le c d (Step-Moves (unless r) c d h))
Step-min_length (back n) c d h = omega (arith, Moves-le c d (Step-Moves (back n) c d h))
