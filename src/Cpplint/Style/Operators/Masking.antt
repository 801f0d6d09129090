-- ===== src/Cpplint/Style/Operators/Masking.antt =====
-- The loop of CheckOperatorSpacing in tools/cpplint/cpplint.py that replaces the operators of operator
-- methods. Each round replaces a character that is no underscore by one.
use cppecho.Prelude.{
  ℕ, zero, suc, ◌+◌, ◌≤◌, ◌<◌, ◌≡◌, refl, sym, ap, ◌∙◌, true, false, [], ◌∷◌, ◌++◌, Option, none,
  some, ◌==◌, arith, length, length-append, map, if◌then◌else◌,
}
use cppecho.Python.Str.{Text, codes}
use cppecho.Python.Regex.{
  Found, Cursor, re_match, is_word, boundary, dot, lit, non_space, plus, space, star, group, ◌▹◌,
  at_boundary,
}
use cppecho.Python.Regex.Groups.{re_match-Step, Step-group, Step-min_length}
use cppecho.Python.Regex.Within.{text-before, boundary_behind, group_rest, three_texts}
use cppecho.Cpplint.Style.Operators.{operator_method, mask_operator, mask_loop, mask_operators}

-- The number of characters that are no underscore
pub plain : Text → ℕ
plain [] = 0
plain (c ∷ s) = if c == b'_' then plain s else suc (plain s)

plain-append : (s t : Text) → plain (s ++ t) ≡ plain s + plain t
unfolding plain
plain-append [] t = omega arith
plain-append (c ∷ s) t = ground (arith, plain-append s t)

abbrev underscores : Text → Text
underscores s = map (λ c. b'_') s

plain-underscores : (s : Text) → plain (underscores s) ≡ 0
unfolding plain
plain-underscores [] = refl
plain-underscores (c ∷ s) = plain-underscores s

length-underscores : (s : Text) → length (underscores s) ≡ length s
length-underscores [] = refl
length-underscores (c ∷ s) = omega (arith, length-underscores s)

plain-cons : (c : ℕ) (s : Text) → is_word c ≡ false → 1 ≤ plain (c ∷ s)
unfolding plain
plain-cons c s h = ground arith

plain-le : (s : Text) → plain s ≤ length s
unfolding plain
plain-le [] = omega arith
plain-le (c ∷ s) = ground (arith, plain-le s)

-- What follows the word `operator` and a boundary begins with a character that is of no word.
boundary-plain :
    (c : Cursor) (t rest : Text)
    → c.before ≡ some b'r'
    → at_boundary c ≡ true
    → c.rest ≡ t ++ rest
    → 1 ≤ length t
    → 1 ≤ plain t
boundary-plain c [] rest b h r l = omega arith
boundary-plain c (y ∷ t) rest b h r l =
    plain-cons y t (boundary_behind c b'r' y (t ++ rest) b refl h r)

-- The three groups of a match, and what is behind them.
record Parts (line : Text) (m : Found) : Type 0 where
  head : Text
  operator : Text
  tail : Text
  newline : Text
  whole : line ≡ head ++ (operator ++ (tail ++ newline))
  is_plain : 1 ≤ plain operator
  masked : mask_operator m ≡ (head ++ underscores operator) ++ tail

operator_method-Parts :
    (line : Text) (m : Found) → re_match operator_method line ≡ some m → Parts line m
unfolding mask_operator
operator_method-Parts line m h =
    let (d, (b, (_, eb), (d₁, g₁, (d₂, g₂, (d₃, g₃, (_, ed))))), e) =
      re_match-Step operator_method line m h in
    let (head, r₁, n₁) = Step-group 1 (star dot ▹ boundary ▹ lit "operator" ▹ boundary) b d₁ _ g₁ in
    let (operator, r₂, n₂) = Step-group 2 (plus non_space) d₁ d₂ _ g₂ in
    let (tail, r₃, n₃) = Step-group 3 (star space ▹ lit "(" ▹ star dot) d₂ d₃ _ g₃ in
    let (c, (s₁, _, (s₂, _, (s₃, lits, (edge, e₃)))), rest₁) =
      group_rest 1 (star dot ▹ boundary ▹ lit "operator" ▹ boundary) b d₁ g₁ in
    let rest_b : b.rest ≡ line = ap (λ (y : Cursor). y.rest) eb in
    let groups_b : b.groups ≡ [] = ap (λ (y : Cursor). y.groups) eb in
    let groups_d : d.groups ≡ d₃.groups = ap (λ (y : Cursor). y.groups) ed in
    let groups_m : m.groups ≡ d.groups = ap (λ (y : Found). y.groups) e in
    let groups : m.groups ≡ (3, tail) ∷ (2, operator) ∷ (1, head) ∷ [] =
      groups_m ∙ groups_d ∙ cc (n₃, n₂, n₁, groups_b) in
    let (t₁, t₂, t₃) = three_texts m head operator tail groups in
    let at_operator : s₃.rest ≡ operator ++ d₂.rest =
      sym (ap (λ (y : Cursor). y.rest) e₃) ∙ sym rest₁ ∙ r₂ in
    let size : 1 ≤ length operator = omega (
      arith,
      Step-min_length (group 2 (plus non_space)) d₁ d₂ g₂,
      ap length r₂,
      length-append operator d₂.rest,
    ) in
    record {
      head = head;
      operator = operator;
      tail = tail;
      newline = d₃.rest;
      whole =
          sym rest_b ∙ r₁ ∙ ap (λ (u : Text). head ++ u) (r₂ ∙ ap (λ (u : Text). operator ++ u) r₃);
      is_plain =
          boundary-plain s₃ operator d₂.rest (text-before b'o' (codes "perator") s₂ s₃ lits) edge
            at_operator size;
      masked = rw (t₁, t₂, t₃) refl;
    }

mask_operator-plain :
    (line : Text) (m : Found)
    → re_match operator_method line ≡ some m
    → (plain (mask_operator m) < plain line) × (length (mask_operator m) ≤ length line)
mask_operator-plain line m h =
    let p = operator_method-Parts line m h in
    let under = underscores p.operator in
    (
      omega (
        arith,
        ap plain p.whole,
        ap plain p.masked,
        p.is_plain,
        plain-append p.head (p.operator ++ (p.tail ++ p.newline)),
        plain-append p.operator (p.tail ++ p.newline),
        plain-append p.tail p.newline,
        plain-append (p.head ++ under) p.tail,
        plain-append p.head under,
        plain-underscores p.operator,
      ),
      omega (
        arith,
        ap length p.whole,
        ap length p.masked,
        length-append p.head (p.operator ++ (p.tail ++ p.newline)),
        length-append p.operator (p.tail ++ p.newline),
        length-append p.tail p.newline,
        length-append (p.head ++ under) p.tail,
        length-append p.head under,
        length-underscores p.operator,
      ),
    )

-- The loop ends with a line of which no operator method is left, and which is not longer.
abbrev pub IsMasked : Text → Option Text → Type 0
IsMasked line o =
    (t : Text) × (o ≡ some t) × (length t ≤ length line) × (re_match operator_method t ≡ none)

mask_loop-IsMasked :
    (fuel : ℕ) (line : Text) → plain line < fuel → IsMasked line (mask_loop fuel line)
unfolding mask_loop
mask_loop-IsMasked zero line h = elim h [ ]
mask_loop-IsMasked (suc fuel) line h =
    round (re_match operator_method line) refl (λ t. mask_loop-IsMasked fuel t)
  where
    round :
        (o : Option Found)
        → re_match operator_method line ≡ o
        → ((t : Text) → plain t < fuel → IsMasked t (mask_loop fuel t))
        → IsMasked line (elim o [ none ↦ some line | some m ↦ mask_loop fuel (mask_operator m) ])
    round none e below = (line, refl, omega arith, e)
    round (some m) e below =
        let (less, short) = mask_operator-plain line m e in
        let (t, q, l, n) = below (mask_operator m) (omega arith) in (t, q, omega arith, n)

pub mask_operators-IsMasked : (line : Text) → IsMasked line (mask_operators line)
unfolding mask_operators
mask_operators-IsMasked line =
    mask_loop-IsMasked (length line + 1) line (omega (arith, plain-le line))
