-- ===== src/Cpplint/Nesting/Update/Total.antt =====
-- NestingState.Update of tools/cpplint/cpplint.py ends on every line of a file: each round of its loops
-- takes a part of the line away.
use cppecho.Prelude.{
  ℕ, zero, suc, ◌+◌, ◌≤◌, ◌<◌, ◌≡◌, refl, ap, ◌∙◌, List, [], ◌∷◌, Option, none, some, arith, length,
  length-drop, if◌then◌else◌, Bool-cases, inl, inr,
}
use cppecho.Python.Str.{Text, codes, find}
use cppecho.Python.Regex.{
  Regex, Found, re_match, group_of, group_text, or_empty, eol, group, star, dot, ◌▹◌,
}
use cppecho.Python.Regex.Groups.{re_match-Step, Step-group, Step-group_set}
use cppecho.Python.Regex.Tail.{Notes, Notes-seq, Notes-group, match-Notes, noted_before}
use cppecho.Cpplint.Report.{ErrorHandler}
use cppecho.Cpplint.Cleanse.Lines.{CleansedLines}
use cppecho.Cpplint.Nesting.{Block}
use cppecho.Cpplint.Nesting.Blocks.{new_namespace, new_class}
use cppecho.Cpplint.Nesting.Templates.Total.{in_template_argument_list-some}
use cppecho.Cpplint.Nesting.Update.{
  namespace_decl, after_brace, has_brace, consume_namespaces, no_parentheses, class_decl,
  declare_class, next_brace, token_step, consume_braces, update_stack, count_parentheses, begin_top,
}
use cppecho.Cpplint.Nesting.Update.Access.{check_access}

abbrev rest_of_line : Regex
rest_of_line = group 2 (star dot) ▹ eol

namespace-Notes : Notes 2 9 namespace_decl
namespace-Notes =
    let t = Notes-group 2 (star dot) tt in
    Notes-seq 2 9 _ _ (
      Notes-seq 2 9 _ _
        (Notes-seq 2 0 _ _ (Notes-seq 2 0 _ _ (Notes-seq 2 0 _ _ (Notes-seq 2 0 _ _ t)))))

brace-Notes : Notes 2 1 next_brace
brace-Notes =
    Notes-seq 2 1 _ _ (Notes-seq 2 1 _ _ (Notes-seq 2 0 _ _ (Notes-group 2 (star dot) tt)))

after_brace-le : (line : Text) (o : Option ℕ) → length (after_brace line o) ≤ length line
unfolding after_brace
after_brace-le line none = omega arith
after_brace-le line (some i) = omega (arith, length-drop (i + 1) line)

-- What follows the `namespace` of a match
after_namespace :
    (Text → List Block → Option (Text × List Block))
    → ℕ
    → List Block
    → Found
    → Option (Text × List Block)
unfolding has_brace
after_namespace go linenum stack m =
    go (after_brace (group_text m 2) (find (group_text m 2) (codes "{"))) (
      new_namespace (or_empty (group_of m 1)) linenum
        (has_brace (find (group_text m 2) (codes "{")))
      ∷ stack)

module _ (go : Text → List Block → Option (Text × List Block)) (linenum : ℕ) (line : Text)
    (stack : List Block)
    (below : (t : Text) (s : List Block)
      → length t < length line
      → (r : Text × List Block) × (go t s ≡ some r)) where
  namespace_round :
      (o : Option Found)
      → re_match namespace_decl line ≡ o
      → (r : Text × List Block) × (elim o [
        | none ↦ some (line, stack)
        | some m ↦ after_namespace go linenum stack m
      ]
          ≡ some r)
  unfolding after_namespace
  namespace_round none e = ((line, stack), refl)
  namespace_round (some m) e =
      let shorter : 9 + length (group_text m 2) ≤ length line =
        match-Notes 2 9 namespace_decl line m namespace-Notes e in
      below (after_brace (group_text m 2) (find (group_text m 2) (codes "{")))
        (new_namespace (or_empty (group_of m 1)) linenum
            (has_brace (find (group_text m 2) (codes "{")))
          ∷ stack)
        (omega (arith, after_brace-le (group_text m 2) (find (group_text m 2) (codes "{"))))

consume_namespaces-some :
    (fuel linenum : ℕ) (line : Text) (stack : List Block)
    → length line < fuel
    → (r : Text × List Block) × (consume_namespaces fuel linenum line stack ≡ some r)
unfolding consume_namespaces after_namespace
consume_namespaces-some zero linenum line stack h = elim h [ ]
consume_namespaces-some (suc fuel) linenum line stack h =
    namespace_round (consume_namespaces fuel linenum) linenum line stack
      (λ t s k. consume_namespaces-some fuel linenum t s (omega arith))
      (re_match namespace_decl line) refl

declare_class-some :
    (clean_lines : CleansedLines) (linenum : ℕ) (line : Text) (stack : List Block)
    (o : Option Found)
    → (r : Text × List Block) × (declare_class clean_lines linenum line stack o ≡ some r)
unfolding declare_class
declare_class-some clean_lines linenum line stack none = ((line, stack), refl)
declare_class-some clean_lines linenum line stack (some m) =
    elim (Bool-cases (no_parentheses stack)) [
      | inl e ↦
          let (inside, q) =
            in_template_argument_list-some clean_lines.elided linenum (length (group_text m 1)) in
          let next = if inside then (line, stack) else (
            group_text m 4,
            new_class (group_text m 3) (group_text m 2) clean_lines linenum ∷ stack,
          ) in
          (next, rw (e, q) refl)
      | inr e ↦ ((line, stack), rw e refl)
    ]

-- A match of the pattern for a brace notes one character, and leaves less of the line.
brace_match :
    (line : Text) (m : Found)
    → re_match next_brace line ≡ some m
    → (token : ℕ) × (group_text m 1 ≡ token ∷ []) × (length (group_text m 2) < length line)
brace_match line m h =
    let (d, (b, (_, eb), (c, st, (e, g, (f, g', (_, q))))), p) =
      re_match-Step next_brace line m h in
    let (token, r, _, n) = Step-group_set 1 _ c e g in
    let (t, r', n') = Step-group 2 (star dot) e f tt g' in
    let same : m.groups ≡ (2, t) ∷ (1, token ∷ []) ∷ c.groups =
      ap (λ (y : Found). y.groups) p ∙ cc (q, n, n') in
    (
      token,
      noted_before m 1 2 (token ∷ []) t c.groups same refl,
      omega (arith, match-Notes 2 1 next_brace line m brace-Notes h),
    )

module _ {ℓ} {S : Type ℓ} (error : ErrorHandler S) (filename : Text) (clean_lines : CleansedLines)
    (linenum : ℕ) where
  -- What follows the token of a match
  unfoldable pub after_token :
      (Text → List Block → S → Option (List Block × S))
      → Text
      → List Block
      → S
      → Text
      → Text
      → Option (List Block × S)
  after_token go line stack s rest [] = none
  after_token go line stack s rest (token ∷ _) =
      let (next, t) = token_step error filename clean_lines linenum line token stack s in
      go rest next t

  module _ (go : Text → List Block → S → Option (List Block × S)) (line : Text) (stack : List Block)
      (s : S)
      (below : (u : Text) (x : List Block) (y : S)
        → length u < length line
        → (r : List Block × S) × (go u x y ≡ some r)) where
    brace_round :
        (o : Option Found)
        → re_match next_brace line ≡ o
        → (r : List Block × S) × (elim o [
          | none ↦ some (stack, s)
          | some m ↦ after_token go line stack s (group_text m 2) (group_text m 1)
        ]
            ≡ some r)
    unfolding after_token
    brace_round none e = ((stack, s), refl)
    brace_round (some m) e =
        let (token, g, k) = brace_match line m e in
        rw g (
          below (group_text m 2)
            (token_step error filename clean_lines linenum line token stack s).0
            (token_step error filename clean_lines linenum line token stack s).1 k)

  consume_braces-some :
      (fuel : ℕ) (line : Text) (stack : List Block) (s : S)
      → length line < fuel
      → (r : List Block × S) × (consume_braces error filename fuel clean_lines linenum line stack s
          ≡ some r)
  unfolding consume_braces after_token
  consume_braces-some zero line stack s h = elim h [ ]
  consume_braces-some (suc fuel) line stack s h =
      brace_round (consume_braces error filename fuel clean_lines linenum) line stack s
        (λ u x y k. consume_braces-some fuel u x y (omega arith)) (re_match next_brace line) refl

  pub update_stack-some :
      (line : Text) (stack : List Block) (s : S)
      → (r : List Block × S) × (update_stack error filename clean_lines linenum line stack s
          ≡ some r)
  unfolding update_stack
  update_stack-some line stack s =
      let (a, p) =
        consume_namespaces-some (length line + 1) linenum line (count_parentheses line stack)
          (omega arith) in
      let (c, q) = declare_class-some clean_lines linenum a.0 a.1 (re_match class_decl a.0) in
      let checked = check_access error filename linenum c.0 (begin_top line c.1) s in
      let (r, e) = consume_braces-some (length c.0 + 1) c.0 checked.0 checked.1 (omega arith) in
      (r, rw (p, q, e) refl)
