-- ===== src/Cpplint/Language/Printf/Inside.antt =====
-- What _GetTextInside of tools/cpplint/cpplint.py finds: the text up to the punctuation that closes
-- the one at the end of the pattern.
use cppecho.Prelude.{
  ℕ, suc, ◌+◌, ◌-◌, ◌≡◌, refl, ap, sym, ◌∙◌, ◌↔◌, true, false, inl, inr, Bool-cases, Option-cases,
  ==_iff, List, [], ◌∷◌, ◌++◌, Option, none, some, ◌==◌, arith, length, drop, take, IsSome,
  append_assoc, length-append, subst,
}
use cppecho.Python.Str.{Text}
use cppecho.Python.Str.Laws.{take-length_append}
use cppecho.Python.Regex.{Regex, Found, re_search}
use cppecho.Cpplint.Language.Printf.{
  matching_punctuation, is_closing_punctuation, one_more, inside_scan, text_behind, text_from,
  get_text_inside,
}

-- A text whose punctuation is nested: every opening one is closed by its own kind.
pub data Nested : Text → Type 0 where
  nothing : Nested []
  plain :
      (c : ℕ) (s : Text)
      → matching_punctuation c ≡ none
      → is_closing_punctuation c ≡ false
      → Nested s
      → Nested (c ∷ s)
  inside :
      (c d : ℕ) (s t : Text)
      → matching_punctuation c ≡ some d
      → Nested s
      → Nested t
      → Nested (c ∷ (s ++ d ∷ t))

opening-closing :
    (c d : ℕ)
    → matching_punctuation c ≡ some d
    → (is_closing_punctuation c ≡ false) × (is_closing_punctuation d ≡ true)
unfolding matching_punctuation is_closing_punctuation
opening-closing c d h = (ground arith, ground arith)

differs :
    (c top : ℕ)
    → is_closing_punctuation c ≡ false
    → is_closing_punctuation top ≡ true
    → (c == top) ≡ false
differs c top e f = elim (Bool-cases (c == top)) [
  | inl g ↦ let same : c ≡ top = (==_iff c top).0 g in absurd (cc)
  | inr g ↦ g
]

-- The turns of the loop
module _ (c top : ℕ) (stack : List ℕ) (s : Text) where
  turn-top : (c == top) ≡ true → inside_scan (top ∷ stack) (c ∷ s) ≡ one_more (inside_scan stack s)
  unfolding inside_scan one_more
  turn-top e = rw (e, inside_scan) refl

  turn-closing :
      (c == top) ≡ false
      → is_closing_punctuation c ≡ true
      → inside_scan (top ∷ stack) (c ∷ s) ≡ none
  unfolding inside_scan one_more
  turn-closing e f = rw (e, f, inside_scan) refl

  turn-plain :
      (c == top) ≡ false
      → is_closing_punctuation c ≡ false
      → matching_punctuation c ≡ none
      → inside_scan (top ∷ stack) (c ∷ s) ≡ one_more (inside_scan (top ∷ stack) s)
  unfolding inside_scan one_more
  turn-plain e f g = rw (e, f, g, inside_scan) refl

  turn-opening :
      (d : ℕ)
      → (c == top) ≡ false
      → is_closing_punctuation c ≡ false
      → matching_punctuation c ≡ some d
      → inside_scan (top ∷ stack) (c ∷ s) ≡ one_more (inside_scan (d ∷ top ∷ stack) s)
  unfolding inside_scan one_more
  turn-opening d e f g = rw (e, f, g, inside_scan) refl

-- The loop passes a nested text with the stack that it had before.
scan-Nested :
    (s : Text)
    → Nested s
    → (top : ℕ) (stack : List ℕ) (u : Text) (n : ℕ) → is_closing_punctuation top ≡ true
    → inside_scan (top ∷ stack) u ≡ some n
    → inside_scan (top ∷ stack) (s ++ u) ≡ some (length s + n)
unfolding inside_scan one_more
scan-Nested _ nothing top stack u n f h = h ∙ ap some (omega arith)
scan-Nested _ (plain c s e g k) top stack u n f h =
    turn-plain c top stack (s ++ u) (differs c top g f) g e
    ∙ ap one_more (scan-Nested s k top stack u n f h)
    ∙ ap some (omega arith)
scan-Nested _ (inside c d s t e k l) top stack u n f h =
    let (g, o) = opening-closing c d e in
    let behind = scan-Nested t l top stack u n f h in
    let same : (d == d) ≡ true = (==_iff d d).1 refl in
    let closing : inside_scan (d ∷ top ∷ stack) (d ∷ (t ++ u)) ≡ some (length t + n + 1) =
      turn-top d d (top ∷ stack) (t ++ u) same ∙ ap one_more behind in
    let all = scan-Nested s k d (top ∷ stack) (d ∷ (t ++ u)) (length t + n + 1) o closing in
    ap (λ (x : Text). inside_scan (top ∷ stack) (c ∷ x)) (append_assoc s (d ∷ t) u)
    ∙ turn-opening c top stack (s ++ (d ∷ (t ++ u))) d (differs c top g f) g e
    ∙ ap one_more all
    ∙ ap some (omega (arith, length-append s (d ∷ t)))

one_more-some : (o : Option ℕ) (n : ℕ) → one_more o ≡ some n → (m : ℕ) × (o ≡ some m) × (n ≡ m + 1)
unfolding one_more
one_more-some none n h = absurd (cc)
one_more-some (some m) n h = (m, refl, cc)

-- Nested texts in front of the closing punctuations of the stack: n characters in all
abbrev Closed : List ℕ → Text → ℕ → Type 0
Closed [] s n = n ≡ 0
Closed (top ∷ stack) s n =
    (inner : Text) × (rest : Text) × (m : ℕ) × (s ≡ inner ++ top ∷ rest)
    × Nested inner
    × Closed stack rest m
    × (n ≡ length inner + (m + 1))

close-plain :
    (c top : ℕ) (stack : List ℕ) (s : Text) (m n : ℕ)
    → matching_punctuation c ≡ none
    → is_closing_punctuation c ≡ false
    → Closed (top ∷ stack) s m
    → n ≡ m + 1
    → Closed (top ∷ stack) (c ∷ s) n
close-plain c top stack s m n e f (inner, rest, k, g, nested, closed, p) q =
    (c ∷ inner, rest, k, rw g refl, plain c inner e f nested, closed, omega arith)

close-inside :
    (c d top : ℕ) (stack : List ℕ) (s : Text) (m n : ℕ)
    → matching_punctuation c ≡ some d
    → Closed (d ∷ top ∷ stack) s m
    → n ≡ m + 1
    → Closed (top ∷ stack) (c ∷ s) n
close-inside c d top stack s m n e (i, r, k, g, a, (j, t, l, h, b, closed, p), q) o = (
  c ∷ (i ++ d ∷ j),
  t,
  l,
  rw (g, h) (ap (λ (x : Text). c ∷ x) (sym (append_assoc i (d ∷ j) (top ∷ t)))),
  inside c d i j e a b,
  closed,
  omega (arith, length-append i (d ∷ j)),
)

inside_scan-Closed :
    (s : Text) (stack : List ℕ) (n : ℕ) → inside_scan stack s ≡ some n → Closed stack s n
unfolding inside_scan
inside_scan-Closed s [] n h = cc
inside_scan-Closed [] (top ∷ stack) n h = absurd (cc)
inside_scan-Closed (c ∷ s) (top ∷ stack) n h = elim (Bool-cases (c == top)) [
  | inl e ↦
      let (m, f, g) = one_more-some (inside_scan stack s) n (sym (turn-top c top stack s e) ∙ h) in
      (
        [],
        s,
        m,
        ap (λ (x : ℕ). x ∷ s) ((==_iff c top).0 e),
        nothing,
        inside_scan-Closed s stack m f,
        omega arith,
      )
  | inr e ↦ elim (Bool-cases (is_closing_punctuation c)) [
    | inl f ↦ let k = sym (turn-closing c top stack s e f) ∙ h in absurd (cc)
    | inr f ↦ elim (Option-cases (matching_punctuation c)) [
      | inl g ↦
          let (m, k, l) =
            one_more-some (inside_scan (top ∷ stack) s) n
              (sym (turn-plain c top stack s e f g) ∙ h) in
          close-plain c top stack s m n g f (inside_scan-Closed s (top ∷ stack) m k) l
      | inr (d, g) ↦
          let (m, k, l) =
            one_more-some (inside_scan (d ∷ top ∷ stack) s) n
              (sym (turn-opening c top stack s d e f g) ∙ h) in
          close-inside c d top stack s m n g (inside_scan-Closed s (d ∷ top ∷ stack) m k) l
    ]
  ]
]

behind : Text → Option ℕ → Option Text
behind s none = none
behind s (some n) = some (take (n - 1) s)

text_behind-behind :
    (c d : ℕ) (s : Text)
    → matching_punctuation c ≡ some d
    → text_behind (c ∷ s) ≡ some (behind s (inside_scan (d ∷ []) s))
unfolding text_behind behind
text_behind-behind c d s e = elim (Option-cases (inside_scan (d ∷ []) s)) [
  | inl f ↦ rw (e, f, text_behind) refl
  | inr (n, f) ↦ rw (e, f, text_behind) refl
]

behind-Nested :
    (d : ℕ) (s inner : Text)
    → behind s (inside_scan (d ∷ []) s) ≡ some inner
    → Nested inner × (rest : Text) × (s ≡ inner ++ d ∷ rest)
unfolding behind
behind-Nested d s inner h = elim (Option-cases (inside_scan (d ∷ []) s)) [
  | inl e ↦ let k = sym (ap (behind s) e) ∙ h in absurd (cc)
  | inr (n, e) ↦
      let (i, rest, m, f, nested, g, k) = inside_scan-Closed s (d ∷ []) n e in
      let one : n - 1 ≡ length i = omega (arith, g, k) in
      let two : some (take (n - 1) s) ≡ some inner = sym (ap (behind s) e) ∙ h in
      let three : take (n - 1) s ≡ i =
        ap (λ (x : ℕ). take x s) one ∙ ap (take (length i)) f ∙ take-length_append i (d ∷ rest) in
      let same : i ≡ inner = cc in
      (subst Nested same nested, rest, f ∙ ap (λ (x : Text). x ++ d ∷ rest) same)
]

Nested-behind :
    (c d : ℕ) (inner rest : Text)
    → matching_punctuation c ≡ some d
    → Nested inner
    → behind (inner ++ d ∷ rest) (inside_scan (d ∷ []) (inner ++ d ∷ rest)) ≡ some inner
unfolding behind inside_scan one_more
Nested-behind c d inner rest e nested =
    let same : (d == d) ≡ true = (==_iff d d).1 refl in
    let closing : inside_scan (d ∷ []) (d ∷ rest) ≡ some 1 =
      turn-top d d [] rest same ∙ ap some (omega arith) in
    let scan = scan-Nested inner nested d [] (d ∷ rest) 1 (opening-closing c d e).1 closing in
    let one : length inner + 1 - 1 ≡ length inner = omega arith in
    ap (behind (inner ++ d ∷ rest)) scan
    ∙ ap some (ap (λ (n : ℕ). take n (inner ++ d ∷ rest)) one ∙ take-length_append inner (d ∷ rest))

-- Where the search finds a match whose last character is an opening punctuation, _GetTextInside raises
-- nothing, and returns a text exactly if that text stands behind the match, its own punctuation is nested,
-- and the punctuation that closes the opening one follows it.
pub get_text_inside_lem :
    (text : Text) (start_pattern : Regex) (m : Found) (start c d : ℕ) (s inner : Text)
    → re_search start_pattern text ≡ some m
    → m.start + length m.whole ≡ suc start
    → drop start text ≡ c ∷ s
    → matching_punctuation c ≡ some d
    → IsSome (get_text_inside text start_pattern)
      × ((get_text_inside text start_pattern ≡ some (some inner))
          ↔ (Nested inner × (rest : Text) × (s ≡ inner ++ d ∷ rest)))
unfolding get_text_inside text_from
get_text_inside_lem text start_pattern m start c d s inner h position k e =
    let same : get_text_inside text start_pattern ≡ some (behind s (inside_scan (d ∷ []) s)) =
      rw (h, get_text_inside)
        (ap (text_from text) position ∙ ap text_behind k ∙ text_behind-behind c d s e) in
    (
      (behind s (inside_scan (d ∷ []) s), same),
      (
        λ f. let g = sym same ∙ f in behind-Nested d s inner (cc),
        λ (nested, rest, f). same ∙ ap some (rw f (Nested-behind c d inner rest e nested)),
      ),
    )
