-- ===== src/Cpplint/Nesting/Update/Stacks.antt =====
-- The stack that NestingState.Update leaves does not depend on what is reported.
use cppecho.Prelude.{
  ℕ, zero, suc, ◌+◌, ◌≡◌, refl, sym, ap, ◌∙◌, List, [], ◌∷◌, Option, none, some, length, get_elem?,
  ◌>>=◌, ◌==◌, ◌||◌, Bool-cases, inl, inr,
}
use cppecho.Python.Str.{Text}
use cppecho.Python.Regex.{Found, re_match, group_text}
use cppecho.Cpplint.Report.{ErrorHandler}
use cppecho.Cpplint.Cleanse.Lines.{CleansedLines}
use cppecho.Cpplint.Nesting.{
  Block, Kind, block_info, extern_c_info, class_info, namespace_info, NestingState, top,
  update_preprocessor,
}
use cppecho.Cpplint.Nesting.Update.{
  next_brace, token_step, consume_braces, consume_namespaces, consume_class, count_parentheses,
  begin_top, update_stack, update, with_stack,
}
use cppecho.Cpplint.Nesting.Update.Access.{check_access, access_in, access_of, access_match}
use cppecho.Cpplint.Nesting.Update.Total.{after_token, update_stack-some}

-- A handler that keeps nothing.
abbrev pub silent : ErrorHandler (Unit {0})
silent filename linenum category confidence message s = tt

abbrev stack_of {ℓ} : {S : Type ℓ} → Option (List Block × S) → Option (List Block)
stack_of none = none
stack_of (some r) = some r.0

-- The stack that Update leaves behind a line, from the one that the preprocessor leaves
unfoldable pub stack_behind : Text → CleansedLines → ℕ → Text → List Block → List Block
unfolding update_stack
stack_behind filename clean_lines linenum line stack =
    elim (update_stack silent filename clean_lines linenum line stack tt) [
      | none ↦ stack
      | some (next, s) ↦ next
    ]

module _ {ℓ} {S : Type ℓ} (error : ErrorHandler S) (filename : Text) (clean_lines : CleansedLines)
    (linenum : ℕ) where
  token_step-stack :
      (line : Text) (token : ℕ) (stack : List Block) (s : S)
      → (token_step error filename clean_lines linenum line token stack s).0
        ≡ (token_step silent filename clean_lines linenum line token stack tt).0
  unfolding token_step
  token_step-stack line token [] s = refl
  token_step-stack line token (b ∷ stack) s = elim (Bool-cases (token == b'{')) [
    | inl e ↦ elim (Bool-cases b.seen_open_brace) [
      | inl f ↦ rw (e, f) refl
      | inr f ↦ rw (e, f) refl
    ]
    | inr e ↦ elim (Bool-cases (token == b';' || token == b')')) [
      | inl f ↦ elim (Bool-cases b.seen_open_brace) [
        | inl g ↦ rw (e, f, g) refl
        | inr g ↦ rw (e, f, g) refl
      ]
      | inr f ↦ rw (e, f) refl
    ]
  ]

  access_in-block :
      (line : Text) (b : Block) (k : Kind) (s : S)
      → (access_in error filename linenum line b k s).0
        ≡ (access_in silent filename linenum line b k tt).0
  unfolding access_in access_of
  access_in-block line b (class_info c) s = at_match (re_match access_match line)
    where
      at_match :
          (o : Option Found)
          → (access_of error filename linenum b c o s).0
            ≡ (access_of silent filename linenum b c o tt).0
      at_match none = refl
      at_match (some m) = refl
  access_in-block line b block_info s = refl
  access_in-block line b extern_c_info s = refl
  access_in-block line b (namespace_info name) s = refl

  check_access-stack :
      (line : Text) (stack : List Block) (s : S)
      → (check_access error filename linenum line stack s).0
        ≡ (check_access silent filename linenum line stack tt).0
  unfolding check_access
  check_access-stack line [] s = refl
  check_access-stack line (b ∷ stack) s =
      ap (λ (c : Block). c ∷ stack) (access_in-block line b b.kind s)

  module _ (go : Text → List Block → S → Option (List Block × S))
      (go_silent : Text → List Block → Unit {0} → Option (List Block × Unit {0})) (line : Text)
      (s : S)
      (same : (u : Text) (x y : List Block) (r : S)
        → x ≡ y
        → stack_of (go u x r) ≡ stack_of (go_silent u y tt)) where
    token-stack :
        (rest token : Text) (stack : List Block)
        → stack_of (after_token error filename clean_lines linenum go line stack s rest token)
          ≡ stack_of
              (after_token silent filename clean_lines linenum go_silent line stack tt rest token)
    unfolding after_token
    token-stack rest [] stack = refl
    token-stack rest (token ∷ more) stack =
        same rest _ _ (token_step error filename clean_lines linenum line token stack s).1
          (token_step-stack line token stack s)

    round-stack :
        (o : Option Found) (stack : List Block)
        → stack_of {ℓ} (elim o [
          | none ↦ some (stack, s)
          | some m ↦
              after_token error filename clean_lines linenum go line stack s
                (group_text m 2)
                (group_text m 1)
        ])
          ≡ stack_of {0} (elim o [
            | none ↦ some (stack, tt)
            | some m ↦
                after_token silent filename clean_lines linenum go_silent line stack tt
                  (group_text m 2)
                  (group_text m 1)
          ])
    round-stack none stack = refl
    round-stack (some m) stack = token-stack (group_text m 2) (group_text m 1) stack

  consume_braces-stack :
      (fuel : ℕ) (line : Text) (x y : List Block) (s : S)
      → x ≡ y
      → stack_of (consume_braces error filename fuel clean_lines linenum line x s)
        ≡ stack_of (consume_braces silent filename fuel clean_lines linenum line y tt)
  unfolding consume_braces after_token
  consume_braces-stack zero line x y s e = refl
  consume_braces-stack (suc fuel) line x y s e = rw e (
      round-stack (consume_braces error filename fuel clean_lines linenum)
        (consume_braces silent filename fuel clean_lines linenum) line s
        (λ u v w r f. consume_braces-stack fuel u v w r f) (re_match next_brace line) y)

  behind_class-stack :
      (line : Text) (o : Option (Text × List Block)) (s : S)
      → stack_of {ℓ} (
          o >>= λ c.
          let checked = check_access error filename linenum c.0 (begin_top line c.1) s in
          consume_braces error filename
            (length c.0 + 1)
            clean_lines
            linenum
            c.0
            checked.0
            checked.1)
        ≡ stack_of {0} (
            o >>= λ c.
            let checked = check_access silent filename linenum c.0 (begin_top line c.1) tt in
            consume_braces silent filename
              (length c.0 + 1)
              clean_lines
              linenum
              c.0
              checked.0
              checked.1)
  behind_class-stack line none s = refl
  behind_class-stack line (some c) s =
      consume_braces-stack (length c.0 + 1) c.0 _ _ _
        (check_access-stack c.0 (begin_top line c.1) s)

  update_stack-stack :
      (line : Text) (stack : List Block) (s : S)
      → stack_of {ℓ} (update_stack error filename clean_lines linenum line stack s)
        ≡ stack_of {0} (update_stack silent filename clean_lines linenum line stack tt)
  unfolding update_stack
  update_stack-stack line stack s =
      behind (consume_namespaces (length line + 1) linenum line (count_parentheses line stack))
    where
      behind :
          (o : Option (Text × List Block))
          → stack_of {ℓ} (
              o >>= λ a. consume_class clean_lines linenum a.0 a.1 >>= λ c.
              let checked = check_access error filename linenum c.0 (begin_top line c.1) s in
              consume_braces error filename
                (length c.0 + 1)
                clean_lines
                linenum
                c.0
                checked.0
                checked.1)
            ≡ stack_of {0} (
                o >>= λ a. consume_class clean_lines linenum a.0 a.1 >>= λ c.
                let checked = check_access silent filename linenum c.0 (begin_top line c.1) tt in
                consume_braces silent filename
                  (length c.0 + 1)
                  clean_lines
                  linenum
                  c.0
                  checked.0
                  checked.1)
      behind none = refl
      behind (some a) = behind_class-stack line (consume_class clean_lines linenum a.0 a.1) s

  stack_behind_lem :
      (line : Text) (stack : List Block) (s : S)
      → (t : S) × (update_stack error filename clean_lines linenum line stack s
          ≡ some (stack_behind filename clean_lines linenum line stack, t))
  unfolding stack_behind
  stack_behind_lem line stack s =
      let (r, e) = update_stack-some error filename clean_lines linenum line stack s in
      let (q, f) = update_stack-some silent filename clean_lines linenum line stack tt in
      let same : r.0 ≡ q.0 =
        cc (update_stack-stack line stack s, ap (stack_of {ℓ}) e, ap (stack_of {0}) f) in
      let named : stack_behind filename clean_lines linenum line stack ≡ q.0 =
        rw (f, stack_behind) refl in
      (r.1, e ∙ ap (λ (x : List Block). some (x, r.1)) (same ∙ sym named))

  -- What Update does on a line of the file
  pub update-stack_behind :
      (line : Text) (n : NestingState) (s : S)
      → get_elem? clean_lines.elided linenum ≡ some line
      → let ready = update_preprocessor line (record n { previous_stack_top = top n.stack }) in
        (t : S) × (update error filename clean_lines linenum n s
          ≡ some (
            record ready { stack = stack_behind filename clean_lines linenum line ready.stack },
            t,
          ))
  unfolding update with_stack
  update-stack_behind line n s h =
      let ready = update_preprocessor line (record n { previous_stack_top = top n.stack }) in
      let (t, e) = stack_behind_lem line ready.stack s in (t, rw (h, e) refl)
