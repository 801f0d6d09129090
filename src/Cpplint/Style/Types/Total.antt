-- ===== src/Cpplint/Style/Types/Total.antt =====
-- About the lines that CheckBracesSpacing and _IsType of tools/cpplint/cpplint.py read.
use cppecho.Prelude.{
  ℕ, zero, suc, ◌+◌, ◌-◌, ◌≤◌, ◌<◌, min, ◌≡◌, refl, Bool, true, false, List, [], ◌∷◌, ◌++◌, Option,
  none, some, arith, ◌⊎◌, inl, length, get_elem?, get_elem?-IsSome, All, if-holds, if◌then◌else◌,
  IsSome, bind-IsSome, ◌>>=◌,
}
use cppecho.Python.Str.{Text, codes, contains}
use cppecho.Python.Regex.{
  Regex, Found, re_match, group_text, dot, lit, matches, occurs, none_of, star, ◌▹◌,
}
use cppecho.Python.Regex.Within.{first_group}
use cppecho.Cpplint.Report.{ErrorHandler}
use cppecho.Cpplint.Expression.{Place}
use cppecho.Cpplint.Expression.Positions.{close_expression-some}
use cppecho.Cpplint.Nesting.{Block, is_namespace}
use cppecho.Cpplint.Style.Types.{
  no_space_before_brace, ends_initializer, types, typename_pattern, last_token, token_of,
  trailing_text, join_lines, find_template, occurs_in, search_from, is_declared_in, is_declared,
  next_block_start, is_type, at_brace, check_before_brace, check_else_and_semicolon,
  check_braces_spacing,
}

-- A line number that a search found, if it found one, is not behind the line where it began.
abbrev UpTo : ℕ → Option ℕ → Type 0
UpTo last_line none = Unit
UpTo last_line (some first_line) = first_line ≤ last_line

find_template-IsSome :
    (elided : List Text) (steps first_line : ℕ)
    → first_line < length elided
    → (o : Option ℕ) × (find_template elided steps first_line ≡ some o) × UpTo first_line o
unfolding find_template
find_template-IsSome elided zero first_line h = (none, refl, tt)
find_template-IsSome elided (suc steps) first_line h =
    let (line, e) = get_elem?-IsSome elided first_line h in
    let (o, q, u) = find_template-IsSome elided steps (first_line - 1) (omega arith) in
    rw (e, q) (pick (contains line (codes "template")) o u)
  where
    pick :
        (b : Bool) (o : Option ℕ)
        → UpTo (first_line - 1) o
        → (p : Option ℕ) × ((if b then some (some first_line) else some o) ≡ some p)
          × UpTo first_line p
    pick true o u = (some first_line, refl, omega arith)
    pick false none u = (none, refl, tt)
    pick false (some f) u = (some f, refl, omega arith)

occurs_in-IsSome :
    (r : Regex) (elided : List Text) (steps i : ℕ)
    → i + steps ≤ length elided
    → IsSome (occurs_in r elided steps i)
unfolding occurs_in
occurs_in-IsSome r elided zero i h = (false, refl)
occurs_in-IsSome r elided (suc steps) i h =
    let (line, e) = get_elem?-IsSome elided i (omega arith) in
    rw e (
      if-holds IsSome (occurs r line) (some true) (occurs_in r elided steps (i + 1)) (true, refl)
        (occurs_in-IsSome r elided steps (i + 1) (omega arith)))

search_from-IsSome :
    (r : Regex) (elided : List Text) (last_line : ℕ) (o : Option ℕ)
    → last_line < length elided
    → UpTo last_line o
    → IsSome (search_from r elided last_line o)
unfolding search_from
search_from-IsSome r elided last_line none h u = (false, refl)
search_from-IsSome r elided last_line (some first_line) h u =
    occurs_in-IsSome r elided (last_line + 1 - first_line) first_line (omega arith)

is_declared_in-IsSome :
    (r : Regex) (elided : List Text) (last_line block_start : ℕ)
    → last_line < length elided
    → IsSome (is_declared_in r elided last_line block_start)
unfolding is_declared_in
is_declared_in-IsSome r elided last_line block_start h =
    let (o, e, u) = find_template-IsSome elided (last_line + 1 - block_start) last_line h in
    rw e (search_from-IsSome r elided last_line o h u)

-- The block begins on a line of the file.
abbrev pub InFile : List Text → Block → Type 0
InFile elided b = b.starting_linenum < length elided

is_declared-IsSome :
    (r : Regex) (elided : List Text) (stack : List Block)
    → All (InFile elided) stack
    → IsSome (is_declared r elided stack)
unfolding is_declared
is_declared-IsSome r elided [] h = (false, refl)
is_declared-IsSome r elided (b ∷ stack) h =
    let rest = is_declared r elided stack in
    let here = is_declared_in r elided b.starting_linenum (next_block_start stack) in
    if-holds IsSome (is_namespace b.kind) (some false)
      (here >>= λ found. if found then some true else rest) (false, refl)
      (bind-IsSome here (λ found. if found then some true else rest)
        (is_declared_in-IsSome r elided b.starting_linenum (next_block_start stack) h.0)
        (λ found e.
          if-holds IsSome found (some true) rest (true, refl)
            (is_declared-IsSome r elided stack h.1)))

is_type-IsSome :
    (elided : List Text) (stack : List Block) (expr : Text)
    → All (InFile elided) stack
    → IsSome (is_type elided stack expr)
unfolding is_type
is_type-IsSome elided stack expr h =
    let token = token_of expr (re_match last_token expr) in
    if-holds IsSome (matches types token) (some true)
      (is_declared (typename_pattern token) elided stack) (true, refl)
      (is_declared-IsSome (typename_pattern token) elided stack h)

join_lines-IsSome :
    (elided : List Text) (steps offset : ℕ)
    → (suc steps + offset ≤ length elided) ⊎ (steps ≡ 0)
    → IsSome (join_lines elided steps offset)
unfolding join_lines
join_lines-IsSome elided zero offset h = ([], refl)
join_lines-IsSome elided (suc steps) offset h =
    let (line, e) = get_elem?-IsSome elided offset (ground arith) in
    let rest = join_lines elided steps (offset + 1) in
    rw e (
      bind-IsSome rest (λ lines. some (line ++ lines))
        (join_lines-IsSome elided steps (offset + 1) (inl (ground arith))) (λ lines q. (_, refl)))

trailing_text-IsSome : (elided : List Text) (place : Place) → IsSome (trailing_text elided place)
unfolding trailing_text
trailing_text-IsSome elided place =
    let steps = min (place.linenum + 3) (length elided - 1) - (place.linenum + 1) in
    bind-IsSome (join_lines elided steps (place.linenum + 1)) _
      (join_lines-IsSome elided steps (place.linenum + 1) (ground arith)) (λ lines q. (_, refl))

module _ {ℓ} {S : Type ℓ} (error : ErrorHandler S) (filename : Text) where
  at_brace-IsSome :
      (elided : List Text) (stack : List Block) (linenum : ℕ) (leading_text : Text) (place : Place)
      (s : S)
      → All (InFile elided) stack
      → IsSome (at_brace error filename elided stack linenum leading_text (some place) s)
  unfolding at_brace
  at_brace-IsSome elided stack linenum leading_text place s h =
      let (trailing, e) = trailing_text-IsSome elided place in
      let (found, q) = is_type-IsSome elided stack leading_text h in
      rw (e, q)
        (if-holds IsSome (matches ends_initializer trailing) (some s) (some _) (s, refl) (_, refl))

  check_before_brace-IsSome :
      (elided : List Text) (stack : List Block) (linenum : ℕ) (line : Text) (o : Option Found)
      (s : S)
      → get_elem? elided linenum ≡ some line
      → re_match no_space_before_brace line ≡ o
      → All (InFile elided) stack
      → IsSome (check_before_brace error filename elided stack linenum o s)
  unfolding check_before_brace
  check_before_brace-IsSome elided stack linenum line none s e h k = (s, refl)
  check_before_brace-IsSome elided stack linenum line (some m) s e h k =
      let (place, q, on) =
        close_expression-some elided linenum (length (group_text m 1)) line e
          (omega (arith, first_group (star dot ▹ none_of " ({>") (lit "{") (tt, tt) tt line m h)) in
      rw q (at_brace-IsSome elided stack linenum (group_text m 1) place s k)

  -- On every line of a file CheckBracesSpacing returns, if the blocks on the stack begin on lines of the
  -- file: it reads no line behind the last one, neither behind the brace that it looks for nor above the
  -- blocks, and no character behind the end of a line.
  pub check_braces_spacing-IsSome :
      (elided : List Text) (linenum : ℕ) (stack : List Block) (line : Text) (s : S)
      → get_elem? elided linenum ≡ some line
      → All (InFile elided) stack
      → IsSome (check_braces_spacing error filename elided linenum stack s)
  unfolding check_braces_spacing
  check_braces_spacing-IsSome elided linenum stack line s e h = rw e (
      bind-IsSome
        (check_before_brace error filename elided stack linenum
          (re_match no_space_before_brace line) s)
        (λ u. some (check_else_and_semicolon error filename linenum line u))
        (check_before_brace-IsSome elided stack linenum line (re_match no_space_before_brace line) s
          e refl h)
        (λ u q. (check_else_and_semicolon error filename linenum line u, refl)))
