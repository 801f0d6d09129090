-- ===== src/Cpplint/Nesting/Update/Balanced.antt =====
-- The stack of NestingState behind a line whose braces are balanced.
use cppecho.Prelude.{
  ℕ, zero, suc, ◌+◌, ◌≡◌, refl, ap, ◌∙◌, true, false, ◌||◌, List, [], ◌∷◌, ◌++◌, Option, none, some,
  ◌==◌, if◌then◌else◌, arith, length, all, Bool-cases, inl, inr, ◌>>=◌, Option-cases,
}
use cppecho.Python.Str.{Text}
use cppecho.Python.Regex.{matches}
use cppecho.Python.Regex.Scan.{no_newline}
use cppecho.Cpplint.Report.{ErrorHandler}
use cppecho.Cpplint.Cleanse.Lines.{CleansedLines}
use cppecho.Cpplint.Nesting.{Block, seen_open_brace}
use cppecho.Cpplint.Nesting.Blocks.{new_block, new_extern_c}
use cppecho.Cpplint.Nesting.Update.{extern_c, match_asm, open_brace, token_step, consume_braces}
use cppecho.Cpplint.Nesting.Update.Braces.{
  is_token, scan_braces, scan_braces-token, scan_braces-skip, consume_braces-scan_braces,
}

-- How many braces are open behind a character; none at a `}` with none open
next_depth : ℕ → ℕ → Option ℕ
next_depth c zero = if c == b'{' then some 1 else if c == b'}' then none else some 0
next_depth c (suc d) =
    if c == b'{' then some (suc (suc d)) else if c == b'}' then some d else some (suc d)

-- How many braces are open behind a text
unfoldable pub depth_behind : ℕ → Text → Option ℕ
unfolding next_depth
depth_behind d [] = some d
depth_behind d (c ∷ s) = next_depth c d >>= λ e. depth_behind e s

open_brace-seen :
    (linenum : ℕ) (line : Text) (stack : List Block)
    → (b : Block) × (open_brace linenum line stack ≡ b ∷ stack) × (b.seen_open_brace ≡ true)
unfolding open_brace new_block new_extern_c
open_brace-seen linenum line stack = elim (Bool-cases (matches extern_c line)) [
  | inl e ↦ (new_extern_c linenum, rw e refl, refl)
  | inr e ↦ (new_block linenum (matches match_asm line), rw e refl, refl)
]

module _ {ℓ} {S : Type ℓ} (error : ErrorHandler S) (filename : Text) (clean_lines : CleansedLines)
    (linenum : ℕ) where
  abbrev step : Text → ℕ → List Block → S → List Block × S
  step = token_step error filename clean_lines linenum

  step-open :
      (line : Text) (c : ℕ) (stack : List Block) (s : S)
      → (c == b'{') ≡ true
      → seen_open_brace stack ≡ true
      → (b : Block) × ((step line c stack s).0 ≡ b ∷ stack) × (b.seen_open_brace ≡ true)
  unfolding token_step seen_open_brace
  step-open line c [] s h k = rw h (open_brace-seen linenum line [])
  step-open line c (x ∷ stack) s h k =
      let (b, p, q) = open_brace-seen linenum line (x ∷ stack) in (b, ground arith, q)

  step-close :
      (line : Text) (c : ℕ) (x : Block) (stack : List Block) (s : S)
      → (c == b'}') ≡ true
      → (step line c (x ∷ stack) s).0 ≡ stack
  unfolding token_step
  step-close line c x stack s h =
      let opens : (c == b'{') ≡ false = ground arith in
      let ends : (c == b';' || c == b')') ≡ false = ground arith in rw (opens, ends) refl

  step-stay :
      (line : Text) (c : ℕ) (stack : List Block) (s : S)
      → is_token c ≡ true
      → (c == b'{') ≡ false
      → (c == b'}') ≡ false
      → seen_open_brace stack ≡ true
      → (step line c stack s).0 ≡ stack
  unfolding token_step seen_open_brace is_token
  step-stay line c [] s h opens closes k = rw opens refl
  step-stay line c (x ∷ stack) s h opens closes k =
      let ends : (c == b';' || c == b')') ≡ true = ground arith in rw (opens, ends, k) refl

  seen-append :
      (above stack : List Block)
      → all (λ b. b.seen_open_brace) above ≡ true
      → seen_open_brace stack ≡ true
      → seen_open_brace (above ++ stack) ≡ true
  unfolding seen_open_brace
  seen-append [] stack h k = k
  seen-append (x ∷ above) stack h k = ground arith

  -- One token, with blocks above a stack whose braces are all seen
  step-depth :
      (line : Text) (c d : ℕ) (above stack : List Block) (s : S)
      → is_token c ≡ true
      → all (λ b. b.seen_open_brace) above ≡ true
      → seen_open_brace stack ≡ true
      → next_depth c (length above) ≡ some d
      → (now : List Block) × ((step line c (above ++ stack) s).0 ≡ now ++ stack)
        × (all (λ b. b.seen_open_brace) now ≡ true)
        × (length now ≡ d)
  unfolding next_depth
  step-depth line c d [] stack s t a b h = elim (Bool-cases (c == b'{')) [
    | inl e ↦ let (x, p, q) = step-open line c stack s e b in (x ∷ [], p, rw q refl, ground arith)
    | inr e ↦ elim (Bool-cases (c == b'}')) [
      | inl f ↦ absurd (ground arith)
      | inr f ↦ ([], step-stay line c stack s t e f b, refl, ground arith)
    ]
  ]
  step-depth line c d (y ∷ above) stack s t a b h = elim (Bool-cases (c == b'{')) [
    | inl e ↦
        let (x, p, q) =
          step-open line c (y ∷ above ++ stack) s e (seen-append (y ∷ above) stack a b) in
        (x ∷ y ∷ above, p, rw q a, ground arith)
    | inr e ↦ elim (Bool-cases (c == b'}')) [
      | inl f ↦ (above, step-close line c y (above ++ stack) s f, ground arith, ground arith)
      | inr f ↦ (
        y ∷ above,
        step-stay line c (y ∷ above ++ stack) s t e f (seen-append (y ∷ above) stack a b),
        a,
        ground arith,
      )
    ]
  ]

  next_depth-other : (c d : ℕ) → is_token c ≡ false → next_depth c d ≡ some d
  unfolding next_depth is_token
  next_depth-other c zero h = ground arith
  next_depth-other c (suc d) h = ground arith

  scan-depth :
      (line t : Text) (above stack : List Block) (s : S)
      → all (λ b. b.seen_open_brace) above ≡ true
      → seen_open_brace stack ≡ true
      → depth_behind (length above) t ≡ some 0
      → (scan_braces error filename clean_lines linenum line t (above ++ stack) s).0 ≡ stack
  unfolding scan_braces depth_behind
  scan-depth line [] [] stack s a b h = refl
  scan-depth line [] (y ∷ above) stack s a b h = absurd (cc)
  scan-depth line (c ∷ t) above stack s a b h = elim (Bool-cases (is_token c)) [
    | inr e ↦
        ap (λ (r : List Block × S). r.0)
          (scan_braces-skip error filename clean_lines linenum line c t (above ++ stack) s e)
        ∙ scan-depth line t above stack s a b (rw (next_depth-other c (length above) e) at h)
    | inl e ↦ elim (Option-cases (next_depth c (length above))) [
      | inl f ↦ absurd (ground arith)
      | inr (d, f) ↦
          let (now, p, q, r) = step-depth line c d above stack s e a b f in
          let t' = (step line c (above ++ stack) s).1 in
          let deeper : depth_behind (length now) t ≡ some 0 = rw r (rw f at h) in
          ap (λ (r : List Block × S). r.0)
            (scan_braces-token error filename clean_lines linenum line c t (above ++ stack) s e)
          ∙ rw p (scan-depth t t now stack t' q b deeper)
    ]
  ]

  -- On a line with no newline, in which each `}` closes a brace of the line and each brace is closed,
  -- the loop over the braces ends and leaves the stack as it was, if the brace of the innermost block
  -- is seen.
  pub consume_braces-balanced :
      (line : Text) (stack : List Block) (s : S)
      → no_newline line ≡ true
      → depth_behind 0 line ≡ some 0
      → seen_open_brace stack ≡ true
      → (t : S) × (consume_braces error filename (length line + 1) clean_lines linenum line stack s
          ≡ some (stack, t))
  consume_braces-balanced line stack s h k seen =
      let r = scan_braces error filename clean_lines linenum line line stack s in
      (
        r.1,
        consume_braces-scan_braces error filename clean_lines linenum line stack s h
            ∙ ap (λ (x : List Block). some (x, r.1)) (scan-depth line line [] stack s refl seen k),
      )
