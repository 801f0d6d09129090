-- ===== src/Cpplint/Suppress.antt =====
-- The NOLINT suppressions of tools/cpplint/cpplint.py: the maps _error_suppressions and
-- _global_error_suppressions, and the functions that fill, clear and read them.
mod Tests
pub mod Laws
use cppecho.Prelude.{
  ℕ, suc, ◌+◌, ◌-◌, Bool, true, false, ◌&&◌, ◌||◌, List, [], ◌∷◌, ◌++◌, Option, none, some, ◌==◌,
  if◌then◌else◌, length, take, drop, any,
}
use cppecho.Python.Str.{Text, codes, text_eq, startswith, endswith, member}
use cppecho.Python.Regex.{
  Regex, Found, lit, opt, group, plus, star, boundary, none_of, dot, space, eol, ◌▹◌, ◌∣∣◌,
  re_search, group_of, occurs,
}
use cppecho.Cpplint.Categories.{
  error_categories, legacy_error_categories, default_c_suppressed_categories,
  default_kernel_suppressed_categories,
}

-- _error_suppressions: its keys are category names and None; a key with no item holds no line.
-- _global_error_suppressions: the keys, which all map to True.
pub record Suppressions : Type 0 where
  pub lines : List (Option Text × ℕ)
  pub everywhere : List Text

-- ResetNolintSuppressions
abbrev pub reset_nolint_suppressions : Suppressions
reset_nolint_suppressions = record { lines = []; everywhere = [] }

-- \bNOLINT(NEXTLINE)?\b(\([^)]+\))?
abbrev pub nolint : Regex
nolint =
    boundary
    ▹ lit "NOLINT"
    ▹ opt (group 1 (lit "NEXTLINE"))
    ▹ boundary
    ▹ opt (group 2 (lit "(" ▹ plus (none_of ")") ▹ lit ")"))

-- `_error_suppressions.setdefault(category, set()).add(line)`
abbrev pub suppress : Option Text → ℕ → Suppressions → Suppressions
suppress category line sup = record sup { lines = (category, line) ∷ sup.lines }

-- `category[1:-1]`
abbrev pub inner : Text → Text
inner category = take (length category - 2) (drop 1 category)

-- What one NOLINT comment asks for.
pub data Request : Type 0 where
  all_categories nothing : Request
  one_category : Text → Request
  unknown_category : Text → Request

-- The branches on the comment's category.
unfoldable pub request : Option Text → Request
request none = all_categories
request (some category) =
    if text_eq category (codes "(*)")
    then all_categories
    else if startswith category (codes "(") && endswith category (codes ")")
    then (if member (inner category) error_categories
        then one_category (inner category)
        else if member (inner category) legacy_error_categories
        then nothing
        else unknown_category (inner category))
    else nothing

-- The line that a NOLINT comment is about.
unfoldable pub suppressed_line : Found → ℕ → ℕ
unfolding group_of
suppressed_line matched linenum = elim (group_of matched 1) [
  | none ↦ linenum
  | some t ↦ linenum + 1
]

-- The suppressions after a comment, and the message of the error that it is, if it is one.
unfoldable pub apply_request : Request → ℕ → Suppressions → Suppressions × Option Text
apply_request all_categories line sup = (suppress none line sup, none)
apply_request nothing line sup = (sup, none)
apply_request (one_category category) line sup = (suppress (some category) line sup, none)
apply_request (unknown_category category) line sup =
    (sup, some (codes "Unknown NOLINT error category: " ++ category))

-- The branch on whether the line has a comment.
unfoldable pub apply_comment : Option Found → ℕ → Suppressions → Suppressions × Option Text
unfolding apply_request
apply_comment none linenum sup = (sup, none)
apply_comment (some matched) linenum sup =
    apply_request (request (group_of matched 2)) (suppressed_line matched linenum) sup

-- ParseNolintSuppressions up to its call of `error`, whose category is readability/nolint and whose
-- confidence is 5.
unfoldable pub parse_nolint_suppressions : Text → ℕ → Suppressions → Suppressions × Option Text
unfolding apply_comment
parse_nolint_suppressions raw_line linenum sup =
    apply_comment (re_search nolint raw_line) linenum sup

-- \b(?:LINT_C_FILE|vim?:\s*.*(\s*|:)filetype=c(\s*|:|$))
abbrev pub c_file : Regex
c_file =
    boundary
    ▹ (lit "LINT_C_FILE"
        ∣∣ lit "vi"
          ▹ opt (lit "m")
          ▹ lit ":"
          ▹ star space
          ▹ star dot
          ▹ group 1 (star space ∣∣ lit ":")
          ▹ lit "filetype=c"
          ▹ group 2 (star space ∣∣ lit ":" ∣∣ eol))

-- \b(?:LINT_KERNEL_FILE)
abbrev pub kernel_file : Regex
kernel_file = boundary ▹ lit "LINT_KERNEL_FILE"

abbrev add_everywhere : List Text → Suppressions → Suppressions
add_everywhere categories sup = record sup { everywhere = categories ++ sup.everywhere }

-- ProcessGlobalSuppresions
unfoldable pub process_global_suppresions : List Text → Suppressions → Suppressions
process_global_suppresions [] sup = sup
process_global_suppresions (line ∷ lines) sup =
    let c =
      if occurs c_file line then add_everywhere default_c_suppressed_categories sup else sup in
    let kernel =
      if occurs kernel_file line
      then add_everywhere default_kernel_suppressed_categories c
      else c in
    process_global_suppresions lines kernel

key_eq : Option Text → Option Text → Bool
unfolding text_eq
key_eq none none = true
key_eq (some s) (some t) = text_eq s t
key_eq _ _ = false

-- `linenum in _error_suppressions.get(category, set())`
holds : Option Text → ℕ → List (Option Text × ℕ) → Bool
unfolding key_eq
holds category linenum [] = false
holds category linenum ((c, n) ∷ m) = key_eq c category && n == linenum || holds category linenum m

-- IsErrorSuppressedByNolint
unfoldable pub is_error_suppressed_by_nolint : Text → ℕ → Suppressions → Bool
unfolding holds member
is_error_suppressed_by_nolint category linenum sup =
    member category sup.everywhere
    || holds (some category) linenum sup.lines
    || holds none linenum sup.lines
