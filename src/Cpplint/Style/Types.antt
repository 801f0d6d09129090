-- ===== src/Cpplint/Style/Types.antt =====
-- _IsType and CheckBracesSpacing of tools/cpplint/cpplint.py, over `clean_lines.elided`.
pub mod Total
use cppecho.Prelude.{
  ℕ, zero, suc, ◌+◌, ◌-◌, min, Bool, true, false, not, ◌&&◌, ◌||◌, List, [], ◌∷◌, ◌++◌, Option,
  none, some, ◌==◌, if◌then◌else◌, length, take, drop, get_elem?, ◌>>=◌,
}
use cppecho.Python.Str.{Text, codes, contains, is_space}
use cppecho.Python.Regex.{
  Regex, Found, eps, star, plus, space, non_space, opt, lit, bol, eol, dot, boundary, group,
  none_of, one_of, set, text, ◌▹◌, ◌∣∣◌, re_match, group_text, matches, occurs,
}
use cppecho.Cpplint.Report.{ErrorHandler}
use cppecho.Cpplint.Expression.{Place, close_expression, reverse_close_expression}
use cppecho.Cpplint.Nesting.{Block, is_namespace}

-- _TYPES; its last alternative is empty.
abbrev pub types : Regex
types =
    bol
    ▹ (group 1 (lit "char" ▹ opt (group 2 (lit "16_t" ∣∣ lit "32_t")))
        ∣∣ lit "wchar_t"
        ∣∣ lit "bool"
        ∣∣ lit "short"
        ∣∣ lit "int"
        ∣∣ lit "long"
        ∣∣ lit "signed"
        ∣∣ lit "unsigned"
        ∣∣ lit "float"
        ∣∣ lit "double"
        ∣∣ group 3 (lit "ptrdiff_t" ∣∣ lit "size_t" ∣∣ lit "max_align_t" ∣∣ lit "nullptr_t")
        ∣∣ group 4 (
            opt (lit "u")
            ▹ lit "int"
            ▹ opt (group 5 (lit "_fast" ∣∣ lit "_least"))
            ▹ group 6 (lit "8" ∣∣ lit "16" ∣∣ lit "32" ∣∣ lit "64")
            ▹ lit "_t")
        ∣∣ group 7 (opt (lit "u") ▹ lit "int" ▹ group 8 (lit "max" ∣∣ lit "ptr") ▹ lit "_t")
        ∣∣ eps)
    ▹ eol

-- ^.*(\b\S+)$
abbrev pub last_token : Regex
last_token = bol ▹ star dot ▹ group 1 (boundary ▹ plus non_space) ▹ eol

unfoldable pub token_of : Text → Option Found → Text
unfolding group_text
token_of expr none = expr
token_of expr (some m) = group_text m 1

-- \b(?:typename|class|struct)\s+<token>\b
abbrev pub typename_pattern : Text → Regex
typename_pattern token =
    boundary ▹ (lit "typename" ∣∣ lit "class" ∣∣ lit "struct") ▹ plus space ▹ text token ▹ boundary

-- The loop upwards over `steps` lines from `first_line` on: the first that has the word `template`.
-- In the functions up to is_type, none is an IndexError.
unfoldable pub find_template : List Text → ℕ → ℕ → Option (Option ℕ)
unfolding contains
find_template elided zero first_line = some none
find_template elided (suc steps) first_line =
    let rest = find_template elided steps (first_line - 1) in
    get_elem? elided first_line >>= λ line.
    if contains line (codes "template") then some (some first_line) else rest

-- The loop downwards over `steps` lines from `i` on: whether one matches
unfoldable pub occurs_in : Regex → List Text → ℕ → ℕ → Option Bool
occurs_in r elided zero i = some false
occurs_in r elided (suc steps) i =
    let rest = occurs_in r elided steps (i + 1) in
    get_elem? elided i >>= λ line. if occurs r line then some true else rest

-- `next_block_start`, for the blocks below
unfoldable pub next_block_start : List Block → ℕ
next_block_start [] = 0
next_block_start (b ∷ stack) = b.starting_linenum

-- The search from a line with the word `template` to the line of the block
unfoldable pub search_from : Regex → List Text → ℕ → Option ℕ → Option Bool
unfolding occurs_in
search_from r elided last_line none = some false
search_from r elided last_line (some first_line) =
    occurs_in r elided (last_line + 1 - first_line) first_line

-- The search in the lines of one block
unfoldable pub is_declared_in : Regex → List Text → ℕ → ℕ → Option Bool
unfolding find_template search_from
is_declared_in r elided last_line block_start =
    find_template elided (last_line + 1 - block_start) last_line >>= search_from r elided last_line

-- The loop over the stack, from its top
unfoldable pub is_declared : Regex → List Text → List Block → Option Bool
unfolding is_namespace is_declared_in next_block_start
is_declared r elided [] = some false
is_declared r elided (b ∷ stack) =
    let rest = is_declared r elided stack in
    if is_namespace b.kind
    then some false
    else is_declared_in r elided b.starting_linenum (next_block_start stack) >>= λ found.
        if found then some true else rest

-- _IsType
unfoldable pub is_type : List Text → List Block → Text → Option Bool
unfolding token_of is_declared
is_type elided stack expr =
    let token = token_of expr (re_match last_token expr) in
    if matches types token then some true else is_declared (typename_pattern token) elided stack

-- \bdecltype\s*$
abbrev pub decltype_at_end : Regex
decltype_at_end = boundary ▹ lit "decltype" ▹ star space ▹ eol

ends_in_decltype : Place → Bool
ends_in_decltype place = elim place.at [
  | none ↦ false
  | some start_col ↦ occurs decltype_at_end (take start_col place.line)
]

-- IsDecltype; none is an IndexError of ReverseCloseExpression.
unfoldable pub is_decltype : List Text → ℕ → ℕ → Option Bool
unfolding ends_in_decltype reverse_close_expression
is_decltype elided linenum column = elim (reverse_close_expression elided linenum column) [
  | none ↦ none
  | some place ↦ some (ends_in_decltype place)
]

-- ^(.*[^ ({>]){
abbrev pub no_space_before_brace : Regex
no_space_before_brace = bol ▹ group 1 (star dot ▹ none_of " ({>") ▹ lit "{"

-- ^[\s}]*[{.;,)<>\]:]
abbrev pub ends_initializer : Regex
ends_initializer = bol ▹ star (set (λ c. is_space c || c == b'}')) ▹ one_of "{.;,)<>]:"

-- The lines behind the closing one, `steps` of them from `offset` on; none is an IndexError.
unfoldable pub join_lines : List Text → ℕ → ℕ → Option Text
join_lines elided zero offset = some []
join_lines elided (suc steps) offset =
    let rest = join_lines elided steps (offset + 1) in
    get_elem? elided offset >>= λ line. rest >>= λ lines. some (line ++ lines)

-- `trailing_text`
unfoldable pub trailing_text : List Text → Place → Option Text
unfolding join_lines
trailing_text elided place =
    join_lines elided (min (place.linenum + 3) (length elided - 1) - (place.linenum + 1))
      (place.linenum + 1)
    >>= λ lines. some (elim place.at [ none ↦ [] | some endpos ↦ drop endpos place.line ] ++ lines)

-- :\s*;\s*$, ^\s*;\s*$, \s+;\s*$ and \bfor\b
abbrev pub empty_statement : Regex
empty_statement = lit ":" ▹ star space ▹ lit ";" ▹ star space ▹ eol

abbrev pub only_semicolon : Regex
only_semicolon = bol ▹ star space ▹ lit ";" ▹ star space ▹ eol

abbrev pub space_before_semicolon : Regex
space_before_semicolon = plus space ▹ lit ";" ▹ star space ▹ eol

abbrev pub for_word : Regex
for_word = boundary ▹ lit "for" ▹ boundary

module _ {ℓ} {S : Type ℓ} (error : ErrorHandler S) (filename : Text) where
  at_brace : List Text → List Block → ℕ → Text → Option Place → S → Option S
  unfolding trailing_text is_type
  at_brace elided stack linenum leading_text none s = none
  at_brace elided stack linenum leading_text (some place) s =
      trailing_text elided place >>= λ trailing.
      if matches ends_initializer trailing
      then some s
      else (is_type elided stack leading_text >>= λ found. some (
          if found
          then s
          else error filename linenum (codes "whitespace/braces") 5 (codes "Missing space before {")
              s))

  check_before_brace : List Text → List Block → ℕ → Option Found → S → Option S
  unfolding at_brace close_expression group_text
  check_before_brace elided stack linenum none s = some s
  check_before_brace elided stack linenum (some m) s =
      at_brace elided stack linenum (group_text m 1)
        (close_expression elided linenum (length (group_text m 1))) s

  check_else_and_semicolon : ℕ → Text → S → S
  check_else_and_semicolon linenum line s =
      let t =
        if occurs (lit "}else") line
        then error filename linenum (codes "whitespace/braces") 5
            (codes "Missing space before else") s
        else s in
      if occurs empty_statement line
      then error filename linenum (codes "whitespace/semicolon") 5
          (codes "Semicolon defining empty statement. Use {} instead.") t
      else if occurs only_semicolon line
      then error filename linenum (codes "whitespace/semicolon") 5
          (codes
            "Line contains only semicolon. If this should be an empty statement, use {} instead.")
          t
      else if occurs space_before_semicolon line && not (occurs for_word line)
      then error filename linenum (codes "whitespace/semicolon") 5
          (codes
            "Extra space before last semicolon. If this should be an empty statement, use {} instead.")
          t
      else t

  -- CheckBracesSpacing, with the stack of the nesting state; none is an IndexError.
  unfoldable pub check_braces_spacing : List Text → ℕ → List Block → S → Option S
  unfolding check_before_brace check_else_and_semicolon
  check_braces_spacing elided linenum stack s = get_elem? elided linenum >>= λ line.
      check_before_brace elided stack linenum (re_match no_space_before_brace line) s >>= λ t.
      some (check_else_and_semicolon linenum line t)
