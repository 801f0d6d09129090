-- ===== src/Cpplint/Nesting/Templates/Total.antt =====
-- InTemplateArgumentList ends: each round goes further on, on its line or to a later one.
use cppecho.Prelude.{
  ℕ, zero, suc, ◌+◌, ◌-◌, ◌≤◌, ◌<◌, ◌≡◌, refl, ap, ◌∙◌, inl, inr, Bool, true, false, List, [], ◌∷◌,
  Option, none, some, leb, ◌==◌, arith, length, length-drop, get_elem?, get_elem?-get_or, drop,
  Bool-cases, Option-cases,
}
use cppecho.Python.Str.{Text, codes}
use cppecho.Python.Regex.{Found, re_match, group_text}
use cppecho.Python.Regex.Groups.{re_match-Step, Step-group_set}
use cppecho.Python.Regex.Tail.{noted, match-whole}
use cppecho.Cpplint.Expression.{Place, is_in, close_expression}
use cppecho.Cpplint.Expression.Further.{IsFurther, close_expression-IsFurther}
use cppecho.Cpplint.Nesting.Templates.{
  next_token, Round, answer, go_on, after_close, token_turn, token_round, match_round, round,
  in_template, size, in_template_argument_list,
}

-- What is left of the lines behind a position
left : List Text → ℕ → ℕ → ℕ
unfolding size
left [] linenum pos = 0
left (line ∷ lines) zero pos = size lines + (length line + 1 - pos) + 1
left (line ∷ lines) (suc linenum) pos = left lines linenum pos

left-line :
    (elided : List Text) (linenum pos : ℕ) (line : Text)
    → get_elem? elided linenum ≡ some line
    → left elided linenum pos ≡ size (drop (suc linenum) elided) + (length line + 1 - pos) + 1
unfolding left
left-line [] linenum pos line h = absurd (cc)
left-line (l ∷ ls) zero pos line h = ground arith
left-line (l ∷ ls) (suc linenum) pos line h = left-line ls linenum pos line h

size-drop-le : (n : ℕ) (lines : List Text) → size (drop n lines) ≤ size lines
unfolding size
size-drop-le zero lines = omega arith
size-drop-le (suc n) [] = omega arith
size-drop-le (suc n) (line ∷ lines) = omega (arith, size-drop-le n lines)

left-le-size : (elided : List Text) (l p : ℕ) → left elided l p ≤ size elided
unfolding left size
left-le-size [] l p = omega arith
left-le-size (line ∷ lines) zero p = omega arith
left-le-size (line ∷ lines) (suc l) p = omega (arith, left-le-size lines l p)

left-later :
    (elided : List Text) (linenum l p : ℕ)
    → linenum < l
    → left elided l p ≤ size (drop (suc linenum) elided)
unfolding left size
left-later [] linenum l p h = omega arith
left-later (line ∷ lines) linenum zero p h = elim h [ ]
left-later (line ∷ lines) zero (suc l) p h = left-le-size lines l p
left-later (line ∷ lines) (suc linenum) (suc l) p h = left-later lines linenum l p (omega arith)

-- A match of the pattern for a token notes one character, and passes it.
token_match :
    (s : Text) (m : Found)
    → re_match next_token s ≡ some m
    → (x : ℕ) × (group_text m 1 ≡ x ∷ []) × (0 < length m.whole) × (length m.whole ≤ length s)
token_match s m h =
    let (d, (b, (_, eb), (e, st, g)), q) = re_match-Step next_token s m h in
    let (x, r, _, n) = Step-group_set 1 _ e d g in
    let (low, high) = match-whole next_token s m h in
    let same : m.groups ≡ (1, x ∷ []) ∷ e.groups = ap (λ (y : Found). y.groups) q ∙ n in
    (x, noted m 1 (x ∷ []) e.groups same, omega arith, high)

-- Outside the file the loop has ended.
outside :
    (elided : List Text) (linenum pos : ℕ)
    → get_elem? elided linenum ≡ none
    → round elided linenum pos ≡ some (answer false)
unfolding round
outside elided linenum pos h = rw (h, round) refl

module _ (elided : List Text) (linenum pos : ℕ) (line : Text)
    (here : get_elem? elided linenum ≡ some line) where
  abbrev Progress : Option Round → Type 0
  Progress none = ⊥
  Progress (some (answer b)) = Unit
  Progress (some (go_on l p)) = left elided l p < left elided linenum pos

  later : (l p : ℕ) → linenum < l → left elided l p < left elided linenum pos
  later l p h =
      omega (arith, left-later elided linenum l p h, left-line elided linenum pos line here)

  same_line :
      (p : ℕ) → pos < p → pos ≤ length line → left elided linenum p < left elided linenum pos
  same_line p h k =
      omega (arith, left-line elided linenum pos line here, left-line elided linenum p line here)

  place-Progress :
      (q : ℕ) (place : Place) (o : Option ℕ)
      → pos ≤ q
      → pos ≤ length line
      → IsFurther linenum q place o
      → Progress (some (elim o [ none ↦ answer false | some p ↦ go_on place.linenum p ]))
  place-Progress q place none h k f = tt
  place-Progress q place (some p) h k (inl f) = later place.linenum p f
  place-Progress q place (some p) h k (inr (e, f)) = rw e (same_line p (omega arith) k)

  after_close-Progress :
      (q c : ℕ)
      → pos ≤ q
      → pos ≤ length line
      → get_elem? line q ≡ some c
      → Progress (after_close (close_expression elided linenum q))
  unfolding after_close
  after_close-Progress q c h k e =
      let (place, p, f) = close_expression-IsFurther elided linenum q line c here e in
      rw p (place-Progress q place place.at h k f)

  turn-Progress :
      (p : ℕ) (ends tells opens : Bool)
      → pos < p
      → p ≤ length line
      → Progress (token_turn elided linenum line p ends tells opens)
  unfolding token_turn
  turn-Progress p true tells opens h k = tt
  turn-Progress p false true opens h k = tt
  turn-Progress p false false true h k =
      after_close-Progress (p - 1) _ (omega arith) (omega arith)
        (get_elem?-get_or line (p - 1) 0 (omega arith))
  turn-Progress p false false false h k = elim (Bool-cases (leb (length line) (p + 1))) [
    | inl e ↦ rw e (later (linenum + 1) 0 (omega arith))
    | inr e ↦ rw e (same_line (p + 1) (omega arith) (omega arith))
  ]

  match_round-Progress :
      (o : Option Found)
      → re_match next_token (drop pos line) ≡ o
      → Progress (match_round elided linenum line pos o)
  unfolding match_round token_round
  match_round-Progress none e = later (linenum + 1) 0 (omega arith)
  match_round-Progress (some m) e =
      let (x, g, low, high) = token_match (drop pos line) m e in
      let behind : pos + length m.whole ≤ length line = omega (arith, length-drop pos line) in
      rw g (
        turn-Progress (pos + length m.whole) (is_in x (codes "{};")) (is_in x (codes ">=[]."))
          (x == b'<') (omega arith) behind)

-- In the file a round answers or goes on; it raises nothing.
round-Progress :
    (elided : List Text) (linenum pos : ℕ) (line : Text)
    → (here : get_elem? elided linenum ≡ some line)
    → Progress elided linenum pos line here (round elided linenum pos)
unfolding round
round-Progress elided linenum pos line here =
    rw (here, round)
      (match_round-Progress elided linenum pos line here (re_match next_token (drop pos line)) refl)

module _ (fuel : ℕ) (elided : List Text) (linenum pos : ℕ) (line : Text)
    (here : get_elem? elided linenum ≡ some line) (enough : left elided linenum pos ≤ fuel)
    (below : (l p : ℕ)
      → left elided l p < fuel
      → (b : Bool) × (in_template fuel elided l p ≡ some b)) where
  after_round :
      (o : Option Round)
      → Progress elided linenum pos line here o
      → (b : Bool) × (elim o [
        | none ↦ none
        | some r ↦ elim r [ answer b ↦ some b | go_on l p ↦ in_template fuel elided l p ]
      ]
          ≡ some b)
  after_round none h = absurd h
  after_round (some (answer b)) h = (b, refl)
  after_round (some (go_on l p)) h = below l p (omega arith)

in_template-some :
    (fuel : ℕ) (elided : List Text) (linenum pos : ℕ)
    → left elided linenum pos < fuel
    → (b : Bool) × (in_template fuel elided linenum pos ≡ some b)
unfolding in_template
in_template-some zero elided linenum pos h = elim h [ ]
in_template-some (suc fuel) elided linenum pos h = elim (Option-cases (get_elem? elided linenum)) [
  | inl e ↦ (false, rw (outside elided linenum pos e, in_template) refl)
  | inr (line, e) ↦
      after_round fuel elided linenum pos line e (omega arith)
        (λ l p k. in_template-some fuel elided l p k) (round elided linenum pos)
        (round-Progress elided linenum pos line e)
]

-- In any file and from any position, InTemplateArgumentList answers: it neither loops for ever nor raises
-- an IndexError.
pub in_template_argument_list-some :
    (elided : List Text) (linenum pos : ℕ)
    → (b : Bool) × (in_template_argument_list elided linenum pos ≡ some b)
unfolding in_template_argument_list
in_template_argument_list-some elided linenum pos =
    in_template-some (size elided + 1) elided linenum pos
      (omega (arith, left-le-size elided linenum pos))
