-- ===== src/Cpplint/Functions/Bodies.antt =====
-- How CheckForFunctionLengths counts the lines of a body.
use cppecho.Prelude.{
  ℕ, zero, suc, ◌+◌, ◌≡◌, refl, Bool, true, false, List, [], ◌∷◌, ◌++◌, Option, none, some, ℤ,
  if◌then◌else◌, length, drop, get_elem?, get_elem?-drop, drop-suc, All, arith, ◌>>=◌,
}
use cppecho.Python.Str.{Text}
use cppecho.Python.Regex.{matches}
use cppecho.Cpplint.Report.{ErrorHandler}
use cppecho.Cpplint.Functions.{
  FunctionState, is_start, function_end, blank, count_line, end, check, length_step,
  check_for_function_lengths,
}

-- The lines that Count counts.
abbrev pub counted : List Text → ℕ
counted [] = 0
counted (l ∷ ls) = if matches blank l then counted ls else suc (counted ls)

-- A line that neither starts a function nor ends one.
abbrev pub IsInner : Text → Type 0
IsInner l = (is_start l ≡ false) × (matches function_end l ≡ false)

-- The state after `n` more lines of a body.
abbrev pub longer : ℕ → FunctionState → FunctionState
longer n f = record f { lines_in_function = f.lines_in_function + n }

module _ {ℓ} {S : Type ℓ} (error : ErrorHandler S) (filename : Text) (lines : List Text)
    (level : ℤ) where
  -- The check on as many lines as the first argument says, from `linenum` on.
  abbrev pub check_lines : ℕ → ℕ → FunctionState → S → Option (FunctionState × S)
  check_lines zero linenum f s = some (f, s)
  check_lines (suc n) linenum f s = do
    (g, t) ← check_for_function_lengths error filename lines linenum level f s
    check_lines n (linenum + 1) g t

  inner_step :
      (linenum : ℕ) (f : FunctionState) (s : S) (line : Text)
      → get_elem? lines linenum ≡ some line
      → IsInner line
      → check_for_function_lengths error filename lines linenum level f s
        ≡ some ((if matches blank line then f else count_line f), s)
  unfolding check_for_function_lengths length_step
  inner_step linenum f s line e (h, k) = rw (e, h, k) (branch (matches blank line))
    where
      branch :
          (b : Bool)
          → if◌then◌else◌ {A = Option (FunctionState × S)} b (some (f, s)) (some (count_line f, s))
            ≡ some ((if b then f else count_line f), s)
      branch true = refl
      branch false = refl

  last_step :
      (linenum : ℕ) (f : FunctionState) (s : S) (line : Text)
      → get_elem? lines linenum ≡ some line
      → is_start line ≡ false
      → matches function_end line ≡ true
      → check_for_function_lengths error filename lines linenum level f s
        ≡ (elim (check error filename linenum level f s) [ none ↦ none | some t ↦ some (end f, t) ])
  unfolding check_for_function_lengths length_step
  last_step linenum f s line e h k = rw (e, h, k) refl

  count_line-longer : (f : FunctionState) → f.in_a_function ≡ true → count_line f ≡ longer 1 f
  unfolding count_line
  count_line-longer f i = rw i refl

  check_lines-inner :
      (body after : List Text) (linenum : ℕ) (f : FunctionState) (s : S)
      → f.in_a_function ≡ true
      → drop linenum lines ≡ body ++ after
      → All IsInner body
      → check_lines (length body) linenum f s ≡ some (longer (counted body) f, s)
  check_lines-inner [] after linenum f s i e a =
      let z : f.lines_in_function + 0 ≡ f.lines_in_function = omega arith in rw z refl
  check_lines-inner (l ∷ body) after linenum f s i e a =
      let at = get_elem?-drop lines linenum l (body ++ after) e in
      let e' : linenum + 1 ≡ suc linenum = omega arith in
      let next : drop (linenum + 1) lines ≡ body ++ after =
        rw e' (drop-suc lines linenum l (body ++ after) e) in
      rw (inner_step linenum f s l at a.0) (
        branch (λ g j. check_lines-inner body after (linenum + 1) g s j next a.1) (matches blank l))
    where
      branch :
          ((g : FunctionState)
            → g.in_a_function ≡ true
            → check_lines (length body) (linenum + 1) g s ≡ some (longer (counted body) g, s))
          → (b : Bool)
          → check_lines (length body) (linenum + 1) (if b then f else count_line f) s
            ≡ some (longer (if b then counted body else suc (counted body)) f, s)
      branch again true = again f i
      branch again false =
          let more : f.lines_in_function + suc (counted body)
              ≡ f.lines_in_function + 1 + counted body =
            omega arith in
          rw (count_line-longer f i, more) (again (longer 1 f) i)

  behind :
      (body after : List Text) (linenum : ℕ)
      → drop linenum lines ≡ body ++ after
      → drop (linenum + length body) lines ≡ after
  behind [] after linenum e = let z : linenum + 0 ≡ linenum = omega arith in rw z e
  behind (l ∷ body) after linenum e =
      let z : linenum + suc (length body) ≡ suc linenum + length body = omega arith in
      rw z (behind body after (suc linenum) (drop-suc lines linenum l (body ++ after) e))

  -- Inside a function, the check on the lines of a body, none of which starts or ends a function, reports
  -- nothing and adds the number of lines that are not blank to lines_in_function. On the line that ends
  -- the function behind them, Check is called with this number, and the function is left.
  pub check_for_function_lengths-body :
      (body after : List Text) (last : Text) (linenum : ℕ) (f : FunctionState) (s : S)
      → f.in_a_function ≡ true
      → drop linenum lines ≡ body ++ last ∷ after
      → All IsInner body
      → is_start last ≡ false
      → matches function_end last ≡ true
      → (check_lines (length body) linenum f s ≡ some (longer (counted body) f, s))
        × (check_for_function_lengths error filename lines
              (linenum + length body)
              level
              (longer (counted body) f)
              s
            ≡ (elim (check error filename
                (linenum + length body)
                level
                (longer (counted body) f)
                s) [ none ↦ none | some t ↦ some (end (longer (counted body) f), t) ]))
  check_for_function_lengths-body body after last linenum f s i e a h k = (
    check_lines-inner body (last ∷ after) linenum f s i e a,
    last_step (linenum + length body) (longer (counted body) f) s last
        (get_elem?-drop lines (linenum + length body) last after
          (behind body (last ∷ after) linenum e))
        h k,
  )
