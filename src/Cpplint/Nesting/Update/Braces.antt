-- ===== src/Cpplint/Nesting/Update/Braces.antt =====
-- The loop of NestingState.Update over braces, read as a scan of the line from left to right.
use cppecho.Prelude.{
  ℕ, zero, suc, ◌+◌, ◌<◌, ◌≡◌, refl, ◌∙◌, Bool, true, false, not, List, [], ◌∷◌, Option, none, some,
  ◌==◌, arith, length, any, Bool-cases, inl, inr,
}
use cppecho.Python.Str.{Text, codes}
use cppecho.Python.Regex.{Found, re_match, group_text}
use cppecho.Python.Regex.Scan.{no_newline, first_that, Matches, match-first_that}
use cppecho.Cpplint.Report.{ErrorHandler}
use cppecho.Cpplint.Cleanse.Lines.{CleansedLines}
use cppecho.Cpplint.Nesting.{Block}
use cppecho.Cpplint.Nesting.Update.Total.{after_token}
use cppecho.Cpplint.Nesting.Update.{next_brace, token_step, consume_braces}

-- The characters at which the loop stops
unfoldable pub is_token : ℕ → Bool
is_token c = any (λ d. c == d) (codes "{;)}")

first_that-shorter :
    (p : ℕ → Bool) (s : Text) (x : ℕ) (t : Text)
    → first_that p s ≡ some (x, t)
    → no_newline s ≡ true
    → (length t < length s) × (no_newline t ≡ true)
unfolding first_that no_newline
first_that-shorter p [] x t h k = absurd (cc)
first_that-shorter p (y ∷ s) x t h k = elim (Bool-cases (p y)) [
  | inl e ↦ ground arith
  | inr e ↦ ground (arith, first_that-shorter p s x t)
]

brace_Matches :
    (line : Text)
    → no_newline line ≡ true
    → Matches (first_that is_token line) (re_match next_brace line)
unfolding is_token
brace_Matches line h = match-first_that is_token (λ c. not (is_token c)) (λ x. refl) line h

module _ {ℓ} {S : Type ℓ} (error : ErrorHandler S) (filename : Text) (clean_lines : CleansedLines)
    (linenum : ℕ) where
  -- The scan: `line` is what follows the last token, and the last argument but two what is still to read.
  unfoldable pub scan_braces : Text → Text → List Block → S → List Block × S
  scan_braces line [] stack s = (stack, s)
  scan_braces line (c ∷ rest) stack s = elim (is_token c) [
    | true ↦
        scan_braces rest rest (token_step error filename clean_lines linenum line c stack s).0
          (token_step error filename clean_lines linenum line c stack s).1
    | false ↦ scan_braces line rest stack s
  ]

  -- Up to the next token the scan does nothing.
  abbrev Goes : Option (ℕ × Text) → Text → Text → List Block → S → Type ℓ
  Goes none line t stack s = scan_braces line t stack s ≡ (stack, s)
  Goes (some (c, rest)) line t stack s =
      scan_braces line t stack s
      ≡ scan_braces rest rest (token_step error filename clean_lines linenum line c stack s).0
          (token_step error filename clean_lines linenum line c stack s).1

  pub scan_braces-token :
      (line : Text) (c : ℕ) (t : Text) (stack : List Block) (s : S)
      → is_token c ≡ true
      → scan_braces line (c ∷ t) stack s
        ≡ scan_braces t t
            (token_step error filename clean_lines linenum line c stack s).0
            (token_step error filename clean_lines linenum line c stack s).1
  unfolding scan_braces
  scan_braces-token line c t stack s e = rw (e, scan_braces) refl

  pub scan_braces-skip :
      (line : Text) (c : ℕ) (t : Text) (stack : List Block) (s : S)
      → is_token c ≡ false
      → scan_braces line (c ∷ t) stack s ≡ scan_braces line t stack s
  unfolding scan_braces
  scan_braces-skip line c t stack s e = rw (e, scan_braces) refl

  Goes-later :
      (line : Text) (c : ℕ) (t : Text) (stack : List Block) (s : S) (o : Option (ℕ × Text))
      → is_token c ≡ false
      → Goes o line t stack s
      → Goes o line (c ∷ t) stack s
  Goes-later line c t stack s none e h = scan_braces-skip line c t stack s e ∙ h
  Goes-later line c t stack s (some (x, rest)) e h = scan_braces-skip line c t stack s e ∙ h

  scan_braces-Goes :
      (line t : Text) (stack : List Block) (s : S) → Goes (first_that is_token t) line t stack s
  unfolding scan_braces first_that
  scan_braces-Goes line [] stack s = refl
  scan_braces-Goes line (c ∷ t) stack s = elim (Bool-cases (is_token c)) [
    | inl e ↦ rw e (scan_braces-token line c t stack s e)
    | inr e ↦
        rw e
          (Goes-later line c t stack s (first_that is_token t) e (scan_braces-Goes line t stack s))
  ]

  brace_round-scan :
      (fuel : ℕ) (line : Text) (stack : List Block) (s : S) (r : Option (ℕ × Text))
      (o : Option Found)
      → Matches r o
      → Goes r line line stack s
      → ((c : ℕ) (rest : Text) (x : List Block) (t : S)
          → r ≡ some (c, rest)
          → consume_braces error filename fuel clean_lines linenum rest x t
            ≡ some (scan_braces rest rest x t))
      → elim o [
        | none ↦ some (stack, s)
        | some m ↦
            after_token error filename clean_lines linenum
              (consume_braces error filename fuel clean_lines linenum)
              line
              stack
              s
              (group_text m 2)
              (group_text m 1)
      ]
        ≡ some (scan_braces line line stack s)
  unfolding after_token
  brace_round-scan fuel line stack s none o h g below = rw (h, g) refl
  brace_round-scan fuel line stack s (some (c, rest)) o (m, e, f, k) g below =
      rw (e, f, k, g)
        (below c rest (token_step error filename clean_lines linenum line c stack s).0
          (token_step error filename clean_lines linenum line c stack s).1 refl)

  consume_braces-scan :
      (fuel : ℕ) (line : Text) (stack : List Block) (s : S)
      → length line < fuel
      → no_newline line ≡ true
      → consume_braces error filename fuel clean_lines linenum line stack s
        ≡ some (scan_braces line line stack s)
  unfolding consume_braces after_token
  consume_braces-scan zero line stack s h k = elim h [ ]
  consume_braces-scan (suc fuel) line stack s h k =
      brace_round-scan fuel line stack s (first_that is_token line) (re_match next_brace line)
        (brace_Matches line k) (scan_braces-Goes line line stack s)
        (λ c rest x t e.
          let (shorter, clean) = first_that-shorter is_token line c rest e k in
          consume_braces-scan fuel rest x t (omega arith) clean)

  -- On a line with no newline, the loop over the braces ends, and it does what a scan of the characters
  -- from left to right does: at each `{`, `;`, `)` and `}` it makes the step of that token, with the
  -- line from behind the token before, and any other character it passes.
  pub consume_braces-scan_braces :
      (line : Text) (stack : List Block) (s : S)
      → no_newline line ≡ true
      → consume_braces error filename (length line + 1) clean_lines linenum line stack s
        ≡ some (scan_braces line line stack s)
  consume_braces-scan_braces line stack s h =
      consume_braces-scan (length line + 1) line stack s (omega arith) h
