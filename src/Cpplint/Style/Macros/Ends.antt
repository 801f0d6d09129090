-- ===== src/Cpplint/Style/Macros/Ends.antt =====
-- The search of CheckCheck in tools/cpplint/cpplint.py for an operator: each round shortens the text.
use cppecho.Prelude.{
  ℕ, zero, suc, ◌+◌, ◌<◌, ◌≡◌, refl, [], ◌∷◌, ◌++◌, Option, none, some, arith, length,
  if◌then◌else◌, or_else, length-drop, if-holds, IsSome,
}
use cppecho.Python.Str.{Text, codes, text_eq, member}
use cppecho.Python.Regex.{Found, re_match, group_text, star, dot}
use cppecho.Python.Regex.Tail.{Notes, Notes-seq, Notes-group, match-Notes}
use cppecho.Cpplint.Expression.{Scan, closed, failed, unclosed, find_end_of_expression_in_line}
use cppecho.Cpplint.Style.Macros.Operands.{
  operator_token, operand, character, Round, go_on, ends, pass_parenthesis, at_token, at_operand,
  operand_round, operand_loop, comparison_of,
}

-- A round that goes on leaves a shorter expression.
abbrev Shortens : ℕ → Round → Type 0
Shortens n (go_on lhs rest) = length rest < n
Shortens n (ends comparison) = Unit

token-Notes : Notes 2 1 operator_token
token-Notes =
    Notes-seq 2 1 _ _ (Notes-seq 2 1 _ _ (Notes-seq 2 0 _ _ (Notes-group 2 (star dot) tt)))

operand-Notes : Notes 2 1 operand
operand-Notes = Notes-seq 2 1 _ _ (Notes-seq 2 0 _ _ (Notes-group 2 (star dot) tt))

character-Notes : Notes 2 1 character
character-Notes = Notes-seq 2 1 _ _ (Notes-seq 2 0 _ _ (Notes-group 2 (star dot) tt))

pass_parenthesis-Shortens :
    (n : ℕ) (lhs rest : Text) (scan : Scan)
    → length rest < n
    → Shortens n (pass_parenthesis lhs rest scan)
unfolding pass_parenthesis
pass_parenthesis-Shortens n lhs rest (closed end) h = omega (arith, length-drop end rest)
pass_parenthesis-Shortens n lhs rest failed h = tt
pass_parenthesis-Shortens n lhs rest (unclosed stack) h = tt

at_token-Shortens :
    (n : ℕ) (lhs token rest : Text) → length rest < n → Shortens n (at_token lhs token rest)
unfolding at_token
at_token-Shortens n lhs token rest h =
    let shift =
      member token
        (codes "<<" ∷ codes "<<=" ∷ codes ">>" ∷ codes ">>=" ∷ codes "->*" ∷ codes "->" ∷ []) in
    let comparison : Round = ends (some (record { lhs = lhs; operator = token; rhs = rest })) in
    let passed = pass_parenthesis lhs rest (find_end_of_expression_in_line rest 0 (b'(' ∷ [])) in
    let other : Round = if shift then go_on (lhs ++ token) rest else comparison in
    let below : Round = if member token (codes "&&" ∷ codes "||" ∷ []) then ends none else other in
    if-holds (Shortens n) (text_eq token (codes "(")) passed below
      (pass_parenthesis-Shortens n lhs rest (find_end_of_expression_in_line rest 0 (b'(' ∷ [])) h)
      (if-holds (Shortens n) (member token (codes "&&" ∷ codes "||" ∷ [])) (ends none) other tt
        (if-holds (Shortens n) shift (go_on (lhs ++ token) rest) comparison h tt))

at_operand-Shortens :
    (lhs expression : Text) (o p : Option Found)
    → re_match operand expression ≡ o
    → re_match character expression ≡ p
    → Shortens (length expression) (at_operand lhs (or_else o p))
unfolding at_operand
at_operand-Shortens lhs expression (some m) p e f =
    omega (arith, match-Notes 2 1 operand expression m operand-Notes e)
at_operand-Shortens lhs expression none (some m) e f =
    omega (arith, match-Notes 2 1 character expression m character-Notes f)
at_operand-Shortens lhs expression none none e f = tt

operand_round-Shortens :
    (lhs expression : Text) → Shortens (length expression) (operand_round lhs expression)
unfolding operand_round
operand_round-Shortens lhs expression = round (re_match operator_token expression) refl
  where
    round :
        (o : Option Found)
        → re_match operator_token expression ≡ o
        → Shortens (length expression) (elim o [
          | some m ↦ at_token lhs (group_text m 1) (group_text m 2)
          | none ↦
              at_operand lhs (or_else (re_match operand expression) (re_match character expression))
        ])
    round (some m) e =
        at_token-Shortens (length expression) lhs (group_text m 1) (group_text m 2)
          (omega (arith, match-Notes 2 1 operator_token expression m token-Notes e))
    round none e = at_operand-Shortens lhs expression _ _ refl refl

operand_loop-IsSome :
    (fuel : ℕ) (lhs expression : Text)
    → length expression < fuel
    → IsSome (operand_loop fuel lhs expression)
unfolding operand_loop
operand_loop-IsSome zero lhs expression h = elim h [ ]
operand_loop-IsSome (suc fuel) lhs [] h = (none, refl)
operand_loop-IsSome (suc fuel) lhs (c ∷ expression) h =
    round (operand_round lhs (c ∷ expression)) (operand_round-Shortens lhs (c ∷ expression))
      (λ lhs rest k. operand_loop-IsSome fuel lhs rest (omega arith))
  where
    round :
        (r : Round)
        → Shortens (length (c ∷ expression)) r
        → ((lhs rest : Text)
            → length rest < length (c ∷ expression)
            → IsSome (operand_loop fuel lhs rest))
        → IsSome (elim r [
          | ends comparison ↦ some comparison
          | go_on lhs' rest ↦ operand_loop fuel lhs' rest
        ])
    round (ends comparison) s below = (comparison, refl)
    round (go_on lhs' rest) s below = below lhs' rest s

-- The search of CheckCheck for an operator ends.
pub comparison_of-IsSome : (expression : Text) → IsSome (comparison_of expression)
unfolding comparison_of
comparison_of-IsSome expression =
    operand_loop-IsSome (length expression + 1) [] expression (omega arith)
