-- ===== src/Python/Regex/Sound.antt =====
-- The meaning of patterns as a relation between cursors, and that the matcher finds only what the
-- relation allows.
use mathlib.Core.List.{append_assoc}
use cppecho.Prelude.{
  ℕ, zero, suc, ◌+◌, ◌≡◌, refl, sym, ap, ◌∙◌, subst, ◌⊎◌, inl, inr, Bool, true, false, [], ◌∷◌,
  ◌++◌, Option, none, some, ◌==◌, arith, if◌then◌else◌, length, length-append, Bool-cases, ==_iff,
}
use cppecho.Python.Str.{Text}
use cppecho.Python.Regex.{
  Regex, eps, set, seq, alt, star, lazy, group, bol, eol, boundary, ahead, unless, back, Cursor,
  lookup_group, pass_text, Continuation, at_boundary, at_start, at_end, advance, close_group,
  greedy_rounds, lazy_rounds, run,
}

-- Any number of rounds of a relation.
pub data Rounds (R : Cursor → Cursor → Type 0) (c : Cursor) : Cursor → Type 0 where
  here : Rounds R c c
  next : {d e : Cursor} → Rounds R c d → R d e → Rounds R c e

-- The characters of a text, in sequence
abbrev pub Passes : Text → Cursor → Cursor → Type 0
Passes [] c d = d ≡ c
Passes (x ∷ t) c e =
    (s : Text) × (c.rest ≡ x ∷ s)
    × Passes t (record c { at = c.at + 1; before = some x; rest = s }) e

-- `Step r c d`: the pattern can take the cursor from `c` to `d`.
abbrev pub Step : Regex → Cursor → Cursor → Type 0
Step eps c d = d ≡ c
Step (set p) c d =
    (x : ℕ) × (s : Text) × (c.rest ≡ x ∷ s)
    × (p x ≡ true)
    × (d ≡ record c { at = c.at + 1; before = some x; rest = s })
Step (seq r s) c e = (d : Cursor) × Step r c d × Step s d e
Step (alt r s) c d = Step r c d ⊎ Step s c d
Step (star r) c d = Rounds (Step r) c d
Step (lazy r) c d = Rounds (Step r) c d
Step (group n r) c e = (d : Cursor) × Step r c d × (e ≡ close_group n c d)
Step bol c d = (at_start c.before ≡ true) × (d ≡ c)
Step eol c d = (at_end c.rest ≡ true) × (d ≡ c)
Step boundary c d = (at_boundary c ≡ true) × (d ≡ c)
Step (ahead r) c e = (d : Cursor) × Step r c d × (e ≡ record c { groups = d.groups })
Step (unless r) c d = d ≡ c
Step (back n) c d = (t : Text) × (lookup_group n c.groups ≡ some t) × Passes t c d

-- A result that a continuation gave at a place that a relation reaches.
abbrev pub Reached : (Cursor → Type 0) → Continuation → Cursor → Type 0
Reached R k e = (d : Cursor) × R d × (k d ≡ some e)

-- A round of a repetition: it goes on, unless it took nothing.
abbrev again : Continuation → Continuation → Cursor → Continuation
again k rest c d = elim (d.at == c.at) [ true ↦ k d | false ↦ rest d ]

module _ (R : Cursor → Cursor → Type 0) where
  again-Reached :
      (k rest : Continuation) (b c d e : Cursor)
      → Rounds R b c
      → R c d
      → ((d : Cursor) → Rounds R b d → rest d ≡ some e → Reached (Rounds R b) k e)
      → again k rest c d ≡ some e
      → Reached (Rounds R b) k e
  again-Reached k rest b c d e r s ih h = elim (Bool-cases (d.at == c.at)) [
    | inl same ↦ (d, next r s, rw (same, again) at h)
    | inr moved ↦ ih d (next r s) (rw (moved, again) at h)
  ]

module _ (R : Cursor → Cursor → Type 0) (m : Continuation → Cursor → Option Cursor)
    (sound : (k : Continuation) (c e : Cursor) → m k c ≡ some e → Reached (R c) k e) where
  greedy_round :
      (k rest : Continuation) (b c e : Cursor) (o : Option Cursor)
      → Rounds R b c
      → ((d : Cursor) → Rounds R b d → rest d ≡ some e → Reached (Rounds R b) k e)
      → m (again k rest c) c ≡ o
      → elim o [ some d ↦ some d | none ↦ k c ] ≡ some e
      → Reached (Rounds R b) k e
  greedy_round k rest b c e none r ih q p = (c, r, p)
  greedy_round k rest b c e (some d) r ih q p =
      let (d', s, q') = sound (again k rest c) c d q in
      again-Reached R k rest b c d' e r s ih (q' ∙ p)

  lazy_round :
      (k rest : Continuation) (b c e : Cursor) (o : Option Cursor)
      → Rounds R b c
      → ((d : Cursor) → Rounds R b d → rest d ≡ some e → Reached (Rounds R b) k e)
      → k c ≡ o
      → elim o [ some d ↦ some d | none ↦ m (again k rest c) c ] ≡ some e
      → Reached (Rounds R b) k e
  lazy_round k rest b c e none r ih q p =
      let (d', s, q') = sound (again k rest c) c e p in again-Reached R k rest b c d' e r s ih q'
  lazy_round k rest b c e (some d) r ih q p = (c, r, q ∙ p)

  greedy_rounds-Reached :
      (f : ℕ) (k : Continuation) (b c e : Cursor)
      → Rounds R b c
      → greedy_rounds f m k c ≡ some e
      → Reached (Rounds R b) k e
  unfolding greedy_rounds
  greedy_rounds-Reached zero k b c e r h = (c, r, h)
  greedy_rounds-Reached (suc f) k b c e r h =
      greedy_round k (greedy_rounds f m k) b c e (m (again k (greedy_rounds f m k) c) c) r
        (λ d. greedy_rounds-Reached f k b d e) refl h

  lazy_rounds-Reached :
      (f : ℕ) (k : Continuation) (b c e : Cursor)
      → Rounds R b c
      → lazy_rounds f m k c ≡ some e
      → Reached (Rounds R b) k e
  unfolding lazy_rounds
  lazy_rounds-Reached zero k b c e r h = (c, r, h)
  lazy_rounds-Reached (suc f) k b c e r h =
      lazy_round k (lazy_rounds f m k) b c e (k c) r (λ d. lazy_rounds-Reached f k b d e) refl h

advance-Reached :
    (p : ℕ → Bool) (k : Continuation) (c e : Cursor) (s : Text)
    → c.rest ≡ s
    → advance p k c s ≡ some e
    → Reached (Step (set p) c) k e
unfolding advance
advance-Reached p k c e [] r h = absurd (cc)
advance-Reached p k c e (x ∷ s) r h = elim (Bool-cases (p x)) [
  | inl t ↦ (record c { at = c.at + 1; before = some x; rest = s }, (x, s, r, t, refl), rw t at h)
  | inr f ↦ absurd (ground arith)
]

test-Reached :
    (b : Bool) (k : Continuation) (c e : Cursor)
    → (if b then k c else none) ≡ some e
    → (b ≡ true) × (k c ≡ some e)
test-Reached true k c e h = (refl, h)
test-Reached false k c e h = absurd (cc)

pass_text-Reached :
    (t : Text) (k : Continuation) (c e : Cursor)
    → pass_text t k c ≡ some e
    → Reached (Passes t c) k e
unfolding pass_text
pass_text-Reached [] k c e h = (c, refl, h)
pass_text-Reached (x ∷ t) k c e h =
    let (d, (y, s, r, same, q), p) =
      advance-Reached (λ d. d == x) (pass_text t k) c e c.rest refl h in
    let is_x : y ≡ x = (==_iff y x).0 same in
    let (d', a, p') = pass_text-Reached t k d e p in
    (
      d',
      (
        s,
        r ∙ ap (λ (z : ℕ). z ∷ s) is_x,
        subst (λ (u : Cursor). Passes t u d')
            (q ∙ ap (λ (z : ℕ). record c { at = c.at + 1; before = some z; rest = s }) is_x) a,
      ),
      p',
    )

back-Reached :
    (n : ℕ) (k : Continuation) (c e : Cursor) (o : Option Text)
    → lookup_group n c.groups ≡ o
    → elim o [ none ↦ none | some t ↦ pass_text t k c ] ≡ some e
    → Reached (Step (back n) c) k e
back-Reached n k c e none q h = absurd (cc)
back-Reached n k c e (some t) q h = let (d, a, p) = pass_text-Reached t k c e h in (d, (t, q, a), p)

-- What the matcher finds, the relation allows, whatever follows the pattern.
pub run-Reached :
    (r : Regex) (k : Continuation) (c e : Cursor) → run r k c ≡ some e → Reached (Step r c) k e
unfolding run
run-Reached eps k c e h = (c, refl, h)
run-Reached (set p) k c e h = advance-Reached p k c e c.rest refl h
run-Reached (seq r s) k c e h =
    let (d, a, q) = run-Reached r (run s k) c e h in
    let (d', b, q') = run-Reached s k d e q in (d', (d, a, b), q')
run-Reached (alt r s) k c e h =
    branch (run r k c) refl h (run-Reached r k c e) (run-Reached s k c e)
  where
    branch :
        (o : Option Cursor)
        → run r k c ≡ o
        → elim o [ some d ↦ some d | none ↦ run s k c ] ≡ some e
        → (run r k c ≡ some e → Reached (Step r c) k e)
        → (run s k c ≡ some e → Reached (Step s c) k e)
        → Reached (Step (alt r s) c) k e
    branch none q p left right = let (d, a, q') = right p in (d, inr a, q')
    branch (some d) q p left right = let (d', a, q') = left (q ∙ p) in (d', inl a, q')
run-Reached (star r) k c e h =
    greedy_rounds-Reached (Step r) (run r) (run-Reached r) (suc (length c.rest)) k c c e here h
run-Reached (lazy r) k c e h =
    lazy_rounds-Reached (Step r) (run r) (run-Reached r) (suc (length c.rest)) k c c e here h
run-Reached (group n r) k c e h =
    let (d, a, q) = run-Reached r (λ d. k (close_group n c d)) c e h in
    (close_group n c d, (d, a, refl), q)
run-Reached bol k c e h = let (t, q) = test-Reached (at_start c.before) k c e h in (c, (t, refl), q)
run-Reached eol k c e h = let (t, q) = test-Reached (at_end c.rest) k c e h in (c, (t, refl), q)
run-Reached boundary k c e h =
    let (t, q) = test-Reached (at_boundary c) k c e h in (c, (t, refl), q)
run-Reached (ahead r) k c e h = look (run r (λ d. some d) c) refl h (run-Reached r (λ d. some d) c)
  where
    look :
        (o : Option Cursor)
        → run r (λ d. some d) c ≡ o
        → elim o [ some d ↦ k (record c { groups = d.groups }) | none ↦ none ] ≡ some e
        → ((d : Cursor) → run r (λ d. some d) c ≡ some d → Reached (Step r c) (λ d. some d) d)
        → Reached (Step (ahead r) c) k e
    look none q p ih = absurd (cc)
    look (some d) q p ih =
        let (d', a, q') = ih d q in
        let same : d' ≡ d = cc in
        (record c { groups = d.groups }, (d, subst (Step r c) same a, refl), p)
run-Reached (unless r) k c e h = look (run r (λ d. some d) c) h
  where
    look :
        (o : Option Cursor)
        → elim o [ some d ↦ none | none ↦ k c ] ≡ some e
        → Reached (Step (unless r) c) k e
    look none p = (c, refl, p)
    look (some d) p = absurd (cc)
run-Reached (back n) k c e h = back-Reached n k c e (lookup_group n c.groups) refl h

-- Where a step leads: behind some text, which it has counted.
abbrev pub Moves : Cursor → Cursor → Type 0
Moves c d = (t : Text) × (c.rest ≡ t ++ d.rest) × (d.at ≡ c.at + length t)

Moves-refl : (c d : Cursor) → d.rest ≡ c.rest → d.at ≡ c.at → Moves c d
Moves-refl c d r a = ([], sym r, omega arith)

Moves-trans : (c d e : Cursor) → Moves c d → Moves d e → Moves c e
Moves-trans c d e (s, r, a) (t, q, b) =
    (s ++ t, rw (r, q, append_assoc), omega (arith, length-append s t))

Rounds-Moves :
    (R : Cursor → Cursor → Type 0)
    → ((c d : Cursor) → R c d → Moves c d)
    → (c : Cursor) {d : Cursor} → Rounds R c d
    → Moves c d
Rounds-Moves R step c here = Moves-refl c c refl refl
Rounds-Moves R step c (next {d} {e} r s) = Moves-trans c d e (Rounds-Moves R step c r) (step d e s)

Passes-Moves : (t : Text) (c d : Cursor) → Passes t c d → Moves c d
Passes-Moves [] c d h = Moves-refl c d (ap (λ (x : Cursor). x.rest) h) (ap (λ (x : Cursor). x.at) h)
Passes-Moves (x ∷ t) c e (s, r, a) =
    let d = record c { at = c.at + 1; before = some x; rest = s } in
    Moves-trans c d e (x ∷ [], r, omega arith) (Passes-Moves t d e a)

-- Every step passes a text, and counts it.
pub Step-Moves : (r : Regex) (c d : Cursor) → Step r c d → Moves c d
unfolding close_group
Step-Moves eps c d h = Moves-refl c d (ap (λ (x : Cursor). x.rest) h) (ap (λ (x : Cursor). x.at) h)
Step-Moves (set p) c d (x, s, r, t, e) = (x ∷ [], cc, omega (arith, ap (λ (x : Cursor). x.at) e))
Step-Moves (seq r s) c e (d, a, b) = Moves-trans c d e (Step-Moves r c d a) (Step-Moves s d e b)
Step-Moves (alt r s) c d (inl a) = Step-Moves r c d a
Step-Moves (alt r s) c d (inr b) = Step-Moves s c d b
Step-Moves (star r) c d h = Rounds-Moves (Step r) (Step-Moves r) c h
Step-Moves (lazy r) c d h = Rounds-Moves (Step r) (Step-Moves r) c h
Step-Moves (group n r) c e (d, a, q) =
    let (t, p, b) = Step-Moves r c d a in
    (t, p ∙ ap (λ (x : Cursor). t ++ x.rest) (sym q), ap (λ (x : Cursor). x.at) q ∙ b)
Step-Moves bol c d (t, h) =
    Moves-refl c d (ap (λ (x : Cursor). x.rest) h) (ap (λ (x : Cursor). x.at) h)
Step-Moves eol c d (t, h) =
    Moves-refl c d (ap (λ (x : Cursor). x.rest) h) (ap (λ (x : Cursor). x.at) h)
Step-Moves boundary c d (t, h) =
    Moves-refl c d (ap (λ (x : Cursor). x.rest) h) (ap (λ (x : Cursor). x.at) h)
Step-Moves (ahead r) c e (d, a, h) =
    Moves-refl c e (ap (λ (x : Cursor). x.rest) h) (ap (λ (x : Cursor). x.at) h)
Step-Moves (unless r) c d h =
    Moves-refl c d (ap (λ (x : Cursor). x.rest) h) (ap (λ (x : Cursor). x.at) h)
Step-Moves (back n) c d (t, q, a) = Passes-Moves t c d a
