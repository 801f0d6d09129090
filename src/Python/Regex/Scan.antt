-- ===== src/Python/Regex/Scan.antt =====
-- What the matcher does with a repetition of characters, computed: it goes as far as it can, and back.
use cppecho.Prelude.{
  ℕ, ◌+◌, ◌-◌, ◌≡◌, refl, sym, ap, ◌∙◌, Bool, true, false, not, List, [], ◌∷◌, Option, none, some,
  ◌==◌, if◌then◌else◌, arith, length, or_else, all, take, subst, Bool-cases, inl, inr,
}
use cppecho.Python.Str.{Text}
use cppecho.Python.Regex.{
  set, star, dot, Cursor, Continuation, run, greedy_rounds, advance, at_end, eol, group, ◌▹◌,
  close_group, bol, at_start, Found, found, start_of, re_match, group_text,
}
use cppecho.Python.Regex.Tail.{noted, noted_before}

abbrev cursor : ℕ → Option ℕ → Text → List (ℕ × Text) → Cursor
cursor at before rest groups = record { at = at; before = before; rest = rest; groups = groups }

or_else-elim : (o b : Option Cursor) → elim o [ some d ↦ some d | none ↦ b ] ≡ or_else o b
or_else-elim none b = refl
or_else-elim (some d) b = refl

moved : (a : ℕ) → (a + 1 == a) ≡ false
moved a = ground arith

or_else-none : (o : Option Cursor) → or_else o none ≡ o
or_else-none none = refl
or_else-none (some d) = refl

-- A round of the repetition, by its tests.
round_taken :
    (t m : Bool) (x y c : Option Cursor)
    → t ≡ true
    → m ≡ false
    → elim (if◌then◌else◌ {A = Option Cursor} t (elim m [ true ↦ x | false ↦ y ]) none) [
      | some d ↦ some d
      | none ↦ c
    ]
      ≡ or_else y c
round_taken true true x y c h k = absurd (cc)
round_taken true false x y c h k = or_else-elim y c
round_taken false m x y c h k = absurd (cc)

round_stopped :
    (t : Bool) (x c : Option Cursor)
    → t ≡ false
    → elim (if◌then◌else◌ {A = Option Cursor} t x none) [ some d ↦ some d | none ↦ c ] ≡ c
round_stopped true x c h = absurd (cc)
round_stopped false x c h = refl

module _ (p : ℕ → Bool) (k : Continuation) where
  pub star_set-nil :
      (a : ℕ) (b : Option ℕ) (g : List (ℕ × Text))
      → run (star (set p)) k (cursor a b [] g) ≡ k (cursor a b [] g)
  unfolding run greedy_rounds advance
  star_set-nil a b g = refl

  pub star_set-stop :
      (a : ℕ) (b : Option ℕ) (x : ℕ) (s : Text) (g : List (ℕ × Text))
      → p x ≡ false
      → run (star (set p)) k (cursor a b (x ∷ s) g) ≡ k (cursor a b (x ∷ s) g)
  unfolding run greedy_rounds advance
  star_set-stop a b x s g h = round_stopped (p x) _ _ h

  pub star_set-cons :
      (a : ℕ) (b : Option ℕ) (x : ℕ) (s : Text) (g : List (ℕ × Text))
      → p x ≡ true
      → run (star (set p)) k (cursor a b (x ∷ s) g)
        ≡ or_else (run (star (set p)) k (cursor (a + 1) (some x) s g)) (k (cursor a b (x ∷ s) g))
  unfolding run greedy_rounds advance
  star_set-cons a b x s g h = round_taken (p x) (a + 1 == a) _ _ _ h (moved a)

-- The cursor at the end of the text
at_last : Text → ℕ → Option ℕ → List (ℕ × Text) → Cursor
at_last [] a b g = cursor a b [] g
at_last (x ∷ s) a b g = at_last s (a + 1) (some x) g

unfoldable pub no_newline : Text → Bool
no_newline s = all (λ c. not (c == 10)) s

star_dot-end :
    (f : Cursor → Cursor) (s : Text) (a : ℕ) (b : Option ℕ) (g : List (ℕ × Text))
    → no_newline s ≡ true
    → run (star dot) (λ d. if at_end d.rest then some (f d) else none) (cursor a b s g)
      ≡ some (f (at_last s a b g))
unfolding at_last no_newline at_end
star_dot-end f [] a b g h = star_set-nil _ _ a b g
star_dot-end f (x ∷ s) a b g h =
    let k : Continuation = λ (d : Cursor). if at_end d.rest then some (f d) else none in
    star_set-cons (λ c. not (c == 10)) k a b x s g (ground arith)
    ∙ rw (star_dot-end f s (a + 1) (some x) g (ground arith)) refl

at_last-at :
    (s : Text) (a : ℕ) (b : Option ℕ) (g : List (ℕ × Text)) → (at_last s a b g).at ≡ a + length s
unfolding at_last
at_last-at [] a b g = omega arith
at_last-at (x ∷ s) a b g = omega (arith, at_last-at s (a + 1) (some x) g)

at_last-groups :
    (s : Text) (a : ℕ) (b : Option ℕ) (g : List (ℕ × Text)) → (at_last s a b g).groups ≡ g
unfolding at_last
at_last-groups [] a b g = refl
at_last-groups (x ∷ s) a b g = at_last-groups s (a + 1) (some x) g

take-all : (s : Text) → take (length s) s ≡ s
take-all [] = refl
take-all (x ∷ s) = ap (◌∷◌ x) (take-all s)

-- `(.*)$` on a text with no newline notes all of it.
pub group_dot-end :
    (n : ℕ) (s : Text) (a : ℕ) (b : Option ℕ) (g : List (ℕ × Text))
    → no_newline s ≡ true
    → (e : Cursor) × (run (group n (star dot) ▹ eol) (λ d. some d) (cursor a b s g) ≡ some e)
      × (e.groups ≡ (n, s) ∷ g)
unfolding run close_group
group_dot-end n s a b g h =
    let passed : a + length s - a ≡ length s = omega arith in
    (
      close_group n (cursor a b s g) (at_last s a b g),
      star_dot-end (close_group n (cursor a b s g)) s a b g h,
      rw (at_last-at s a b g, at_last-groups s a b g, passed, take-all s) refl,
    )

-- The first character that passes the test, and what follows it
unfoldable pub first_that : (ℕ → Bool) → Text → Option (ℕ × Text)
first_that p [] = none
first_that p (x ∷ s) = if p x then some (x, s) else first_that p s

-- The match from the beginning of a text, and its groups
abbrev pub Matches : Option (ℕ × Text) → Option Found → Type 0
Matches none o = o ≡ none
Matches (some (x, s)) o =
    (m : Found) × (o ≡ some m) × (group_text m 1 ≡ x ∷ []) × (group_text m 2 ≡ s)

module _ (p q : ℕ → Bool) (opposite : (x : ℕ) → q x ≡ not (p x)) where
  abbrev from_token : Continuation
  from_token = run (group 1 (set p) ▹ group 2 (star dot) ▹ eol) (λ d. some d)

  from_token-stop :
      (a : ℕ) (b : Option ℕ) (x : ℕ) (s : Text) (g : List (ℕ × Text))
      → p x ≡ false
      → from_token (cursor a b (x ∷ s) g) ≡ none
  unfolding run advance
  from_token-stop a b x s g h = rw h refl

  from_token-token :
      (a : ℕ) (b : Option ℕ) (x : ℕ) (s : Text) (g : List (ℕ × Text))
      → p x ≡ true
      → no_newline s ≡ true
      → (e : Cursor) × (from_token (cursor a b (x ∷ s) g) ≡ some e)
        × (e.groups ≡ (2, s) ∷ (1, x ∷ []) ∷ g)
  unfolding run advance close_group
  from_token-token a b x s g h k =
      let one : a + 1 - a ≡ 1 = omega arith in
      let (e, f, r) = group_dot-end 2 s (a + 1) (some x) ((1, take (a + 1 - a) (x ∷ s)) ∷ g) k in
      (e, rw h f, r ∙ rw one refl)

  -- What the pattern from here on finds
  abbrev Finds : Option (ℕ × Text) → List (ℕ × Text) → Option Cursor → Type 0
  Finds none g o = o ≡ none
  Finds (some (x, s)) g o = (e : Cursor) × (o ≡ some e) × (e.groups ≡ (2, s) ∷ (1, x ∷ []) ∷ g)

  star-passed :
      (a : ℕ) (b : Option ℕ) (x : ℕ) (s : Text) (g : List (ℕ × Text))
      → p x ≡ false
      → run (star (set q)) from_token (cursor a b (x ∷ s) g)
        ≡ run (star (set q)) from_token (cursor (a + 1) (some x) s g)
  star-passed a b x s g h =
      let passes : q x ≡ true = opposite x ∙ ap not h in
      star_set-cons q from_token a b x s g passes
      ∙ rw (from_token-stop a b x s g h) (or_else-none _)

  star-Finds :
      (s : Text) (a : ℕ) (b : Option ℕ) (g : List (ℕ × Text))
      → no_newline s ≡ true
      → Finds (first_that p s) g (run (star (set q)) from_token (cursor a b s g))
  unfolding first_that no_newline
  star-Finds [] a b g h = star_set-nil q from_token a b g ∙ unfold run advance in refl
  star-Finds (x ∷ s) a b g h = elim (Bool-cases (p x)) [
    | inl e ↦
        let (c, f, r) = from_token-token a b x s g e (ground arith) in
        rw e (c, star_set-stop q from_token a b x s g (opposite x ∙ ap not e) ∙ f, r)
    | inr e ↦ rw e (
        subst (λ o. Finds (first_that p s) g o) (sym (star-passed a b x s g e))
          (star-Finds s (a + 1) (some x) g (ground arith)))
  ]

  Finds-Matches :
      (t : Text) (r : Option (ℕ × Text)) (o : Option Cursor)
      → Finds r [] o
      → Matches r (elim o [ none ↦ none | some d ↦ some (found (start_of t) d) ])
  Finds-Matches t none o h = rw h refl
  Finds-Matches t (some (x, s)) o (e, h, g) =
      let m = found (start_of t) e in
      (m, rw h refl, noted_before m 1 2 (x ∷ []) s [] g refl, noted m 2 s _ g)

  -- `^[^…]*([…])(.*)$` on a text with no newline finds the first of the characters, and notes it and all
  -- that follows it.
  pub match-first_that :
      (s : Text)
      → no_newline s ≡ true
      → Matches
          (first_that p s)
          (re_match (bol ▹ star (set q) ▹ group 1 (set p) ▹ group 2 (star dot) ▹ eol) s)
  unfolding re_match run at_start
  match-first_that s h =
      Finds-Matches s (first_that p s) (run (star (set q)) from_token (cursor 0 none s []))
        (star-Finds s 0 none [] h)
