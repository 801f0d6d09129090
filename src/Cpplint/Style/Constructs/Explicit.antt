-- ===== src/Cpplint/Style/Constructs/Explicit.antt =====
-- The check for constructors without `explicit` in CheckForNonStandardConstructs of
-- tools/cpplint/cpplint.py.
use cppecho.Prelude.{
  ℕ, ◌+◌, Bool, true, false, not, ◌&&◌, ◌||◌, List, [], ◌∷◌, ◌++◌, Option, none, some, ltb, leb,
  ◌==◌, if◌then◌else◌, is_some, length, ◌>>=◌,
}
use cppecho.Python.Str.{Text, codes, text_eq, count, contains, split, startswith, unicode_strip}
use cppecho.Python.Regex.{
  Regex, Found, star, plus, space, word, opt, lit, boundary, group, none_of, text, ◌▹◌, ◌∣∣◌,
  re_match, group_of, group_text, matches, occurs,
}
use cppecho.Cpplint.Report.{ErrorHandler}

-- The scan of `name.split('::')[-1]`: `part` is what follows the last separator.
last_part : Text → Bool → Text → Text
unfolding startswith
last_part [] second part = part
last_part (c ∷ s) true part = last_part s false s
last_part (c ∷ s) false part = last_part s (startswith (c ∷ s) (codes "::")) part

-- The name without its qualifiers
unfoldable pub base_classname : Text → Text
unfolding last_part
base_classname name = last_part name false name

-- (?:(?:inline|constexpr)\s+)*
abbrev specifiers : Regex
specifiers = star ((lit "inline" ∣∣ lit "constexpr") ▹ plus space)

-- \s+(?:(?:inline|constexpr)\s+)*(explicit\s+)?(?:(?:inline|constexpr)\s+)*<name>\s*
-- \(((?:[^()]|\([^()]*\))*)\)
abbrev pub explicit_constructor : Text → Regex
explicit_constructor name =
    plus space
    ▹ specifiers
    ▹ opt (group 1 (lit "explicit" ▹ plus space))
    ▹ specifiers
    ▹ text name
    ▹ star space
    ▹ lit "("
    ▹ group 2 (star (none_of "()" ∣∣ lit "(" ▹ star (none_of "()") ▹ lit ")"))
    ▹ lit ")"

-- More brackets opened than closed
unfoldable pub is_open : Text → Bool
unfolding count
is_open arg =
    ltb (count arg (codes ">")) (count arg (codes "<"))
    || ltb (count arg (codes ")")) (count arg (codes "("))

-- The arguments with those joined that a comma inside brackets has split, from `arg` on. None is the
-- IndexError behind the last one.
unfoldable pub collapse_from : Text → List Text → Option (List Text)
unfolding is_open
collapse_from arg [] = if is_open arg then none else some (arg ∷ [])
collapse_from arg (next ∷ args) = elim (is_open arg) [
  | true ↦ collapse_from (arg ++ codes "," ++ next) args
  | false ↦ elim (collapse_from next args) [ none ↦ none | some rest ↦ some (arg ∷ rest) ]
]

unfoldable pub collapse_args : List Text → Option (List Text)
unfolding collapse_from
collapse_args [] = some []
collapse_args (arg ∷ args) = collapse_from arg args

split_args : Text → List Text
unfolding split
split_args [] = []
split_args (c ∷ s) = split (c ∷ s) b','

-- `constructor_args`
unfoldable pub constructor_args : Text → Option (List Text)
unfolding collapse_args split_args
constructor_args inside = collapse_args (split_args inside)

pub count_defaulted : List Text → ℕ
unfolding contains
count_defaulted [] = 0
count_defaulted (arg ∷ args) =
    if contains arg (codes "=") then count_defaulted args + 1 else count_defaulted args

unfoldable pub is_noarg : List Text → Bool
unfolding text_eq unicode_strip
is_noarg [] = true
is_noarg (arg ∷ []) = text_eq (unicode_strip arg) (codes "void")
is_noarg _ = false

-- One argument, or all but at most one with a default
unfoldable pub is_onearg : List Text → Bool
unfolding is_noarg count_defaulted
is_onearg args =
    not (is_noarg args)
    && (length args == 1 || leb 1 (length args) && leb (length args) (count_defaulted args + 1))

-- \bstd\s*::\s*initializer_list\b
abbrev pub initializer_list : Regex
initializer_list =
    boundary ▹ lit "std" ▹ star space ▹ lit "::" ▹ star space ▹ lit "initializer_list" ▹ boundary

-- (const\s+)?<name>(\s*<[^>]*>)?(\s+const)?\s*(?:<\w+>\s*)?&
abbrev pub copy_argument : Text → Regex
copy_argument name =
    opt (group 1 (lit "const" ▹ plus space))
    ▹ text name
    ▹ opt (group 2 (star space ▹ lit "<" ▹ star (none_of ">") ▹ lit ">"))
    ▹ opt (group 3 (plus space ▹ lit "const"))
    ▹ star space
    ▹ opt (lit "<" ▹ plus word ▹ lit ">" ▹ star space)
    ▹ lit "&"

first_arg : List Text → Text
first_arg [] = []
first_arg (arg ∷ args) = arg

is_allowed : Text → List Text → Bool
unfolding first_arg unicode_strip
is_allowed name args =
    occurs initializer_list (first_arg args)
    || matches (copy_argument name) (unicode_strip (first_arg args))

module _ {ℓ} {S : Type ℓ} (error : ErrorHandler S) (filename : Text) where
  -- The report on a constructor with these arguments
  unfoldable pub report_constructor : ℕ → Text → Bool → List Text → S → S
  unfolding is_onearg is_noarg is_allowed count_defaulted
  report_constructor linenum name is_marked_explicit args s =
      if not is_marked_explicit && is_onearg args && not (is_allowed name args)
      then (if ltb 0 (count_defaulted args)
          then error filename linenum (codes "runtime/explicit") 5
              (codes "Constructors callable with one argument should be marked explicit.") s
          else error filename linenum (codes "runtime/explicit") 5
              (codes "Single-parameter constructors should be marked explicit.") s)
      else if is_marked_explicit && not (is_onearg args) && is_noarg args
      then error filename linenum (codes "runtime/explicit") 5
          (codes "Zero-parameter constructors should not be marked explicit.") s
      else s

  at_constructor : ℕ → Text → Option Found → S → Option S
  unfolding constructor_args report_constructor group_of group_text
  at_constructor linenum name none s = some s
  at_constructor linenum name (some m) s = constructor_args (group_text m 2) >>= λ args.
      some (report_constructor linenum name (is_some (group_of m 1)) args s)

  -- The check of a line in the class of this name
  unfoldable pub check_explicit : ℕ → Text → Text → S → Option S
  unfolding at_constructor base_classname
  check_explicit linenum line name s =
      let base = base_classname name in
      at_constructor linenum base (re_match (explicit_constructor base) line) s
