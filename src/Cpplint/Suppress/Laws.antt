-- ===== src/Cpplint/Suppress/Laws.antt =====
-- What a NOLINT comment suppresses, and which comments are errors.
use cppecho.Prelude.{
  ℕ, suc, ◌+◌, ◌-◌, if◌then◌else◌, ◌≡◌, refl, ◌∙◌, Bool, true, false, not, ◌&&◌, ◌||◌, [], ◌∷◌,
  ◌++◌, Option, none, some, ◌==◌, arith, length, is_some, length-append,
}
use cppecho.Python.Str.{Text, codes, text_eq, startswith, endswith, member}
use cppecho.Python.Str.Laws.{
  text_eq_iff, startswith→append, startswith-append, endswith→append, endswith-append,
  take-length_append,
}
use cppecho.Python.Regex.{Found, re_search, group_of}
use cppecho.Cpplint.Categories.{error_categories, legacy_error_categories}
use cppecho.Cpplint.Suppress.{
  Suppressions, Request, all_categories, nothing, one_category, unknown_category, nolint, inner,
  request, suppressed_line, apply_request, apply_comment, parse_nolint_suppressions, holds, key_eq,
  is_error_suppressed_by_nolint,
}

abbrev pub parenthesized : Text → Text
parenthesized category = codes "(" ++ category ++ codes ")"

inner-parenthesized : (category : Text) → inner (parenthesized category) ≡ category
inner-parenthesized category =
    let e : length (category ++ codes ")") - 1 ≡ length category =
      omega (arith, length-append category (codes ")")) in
    let f : suc (length (category ++ codes ")")) - 2 ≡ length category =
      omega (arith, length-append category (codes ")")) in
    rw f (take-length_append category (codes ")"))

startswith-parenthesized :
    (category : Text) → startswith (parenthesized category) (codes "(") ≡ true
startswith-parenthesized category = startswith-append (codes "(") (category ++ codes ")")

endswith-parenthesized : (category : Text) → endswith (parenthesized category) (codes ")") ≡ true
endswith-parenthesized category = endswith-append (codes "(" ++ category) (codes ")")

parenthesized-inner :
    (t : Text)
    → startswith t (codes "(") ≡ true
    → endswith t (codes ")") ≡ true
    → t ≡ parenthesized (inner t)
unfolding endswith
parenthesized-inner t h k =
    let (u, e) = startswith→append t (codes "(") h in rw e (tail u (rw e at k))
  where
    tail :
        (u : Text)
        → endswith (b'(' ∷ u) (codes ")") ≡ true
        → b'(' ∷ u ≡ parenthesized (inner (b'(' ∷ u))
    tail [] q = cc
    tail (c ∷ u) q =
        let (r, _) = endswith→append (b'(' ∷ c ∷ u) (codes ")") q in
        let drop_one : suc (suc (length u)) - 1 ≡ suc (length u) = omega arith in
        let drop_two : suc (suc (length u)) - 2 ≡ length u = omega arith in
        rw drop_two (rw drop_one at r)

-- Whether a request is about a category.
abbrev pub asks : Request → Text → Bool
asks all_categories category = true
asks (one_category d) category = text_eq d category
asks _ category = false

-- Whether the parenthesised part of a comment is about a category of the list.
abbrev pub names : Option Text → Text → Bool
names none category = true
names (some t) category =
    text_eq t (codes "(*)")
    || member category error_categories && text_eq t (parenthesized category)

asks-request :
    (part : Option Text) (category : Text) → asks (request part) category ≡ names part category
unfolding request
asks-request none category = refl
asks-request (some t) category = ground (
  arith,
  parenthesized-inner t,
  inner-parenthesized category,
  startswith-parenthesized category,
  endswith-parenthesized category,
  text_eq_iff t (parenthesized category),
  text_eq_iff (inner t) category,
)

is_suppressed-apply_request :
    (r : Request) (line : ℕ) (sup : Suppressions) (category : Text) (n : ℕ)
    → is_error_suppressed_by_nolint category n (apply_request r line sup).0
      ≡ (asks r category && line == n || is_error_suppressed_by_nolint category n sup)
unfolding apply_request is_error_suppressed_by_nolint holds key_eq
is_suppressed-apply_request all_categories line sup category n = ground arith
is_suppressed-apply_request nothing line sup category n = ground arith
is_suppressed-apply_request (one_category d) line sup category n = ground arith
is_suppressed-apply_request (unknown_category d) line sup category n = ground arith

-- What a line asks of the suppressions, if it has a NOLINT comment.
abbrev pub line_asks : Option Found → ℕ → Text → ℕ → Bool
line_asks none linenum category n = false
line_asks (some matched) linenum category n =
    names (group_of matched 2) category
    && (if is_some (group_of matched 1) then linenum + 1 else linenum) == n

suppressed_line_lem :
    (m : Found) (linenum : ℕ)
    → suppressed_line m linenum ≡ (if is_some (group_of m 1) then linenum + 1 else linenum)
unfolding suppressed_line
suppressed_line_lem m linenum = ground arith

is_suppressed-apply_comment :
    (comment : Option Found) (linenum : ℕ) (sup : Suppressions) (category : Text) (n : ℕ)
    → is_error_suppressed_by_nolint category n (apply_comment comment linenum sup).0
      ≡ (line_asks comment linenum category n || is_error_suppressed_by_nolint category n sup)
is_suppressed-apply_comment none linenum sup category n = unfold apply_comment in refl
is_suppressed-apply_comment (some m) linenum sup category n =
    unfold apply_comment in
    (is_suppressed-apply_request (request (group_of m 2)) (suppressed_line m linenum) sup category n
      ∙ rw (asks-request (group_of m 2) category, suppressed_line_lem m linenum))

-- After a line is parsed, a category is suppressed on line `n` exactly when it was so before, or
-- the line's NOLINT comment is for line `n` (the next line for NOLINTNEXTLINE, else this one) and has
-- no parenthesised part, or (*), or a category of the list in parentheses, and it is this category.
pub is_suppressed-parse_nolint :
    (raw_line : Text) (linenum : ℕ) (sup : Suppressions) (category : Text) (n : ℕ)
    → is_error_suppressed_by_nolint category n (parse_nolint_suppressions raw_line linenum sup).0
      ≡ (line_asks (re_search nolint raw_line) linenum category n
          || is_error_suppressed_by_nolint category n sup)
unfolding parse_nolint_suppressions
is_suppressed-parse_nolint raw_line linenum sup category n =
    is_suppressed-apply_comment (re_search nolint raw_line) linenum sup category n

-- Whether a comment's part is one that the program reports.
abbrev pub is_unknown : Option Text → Bool
is_unknown none = false
is_unknown (some t) =
    not (text_eq t (codes "(*)"))
    && startswith t (codes "(")
    && endswith t (codes ")")
    && not (member (inner t) error_categories)
    && not (member (inner t) legacy_error_categories)

abbrev pub line_is_unknown : Option Found → Bool
line_is_unknown none = false
line_is_unknown (some matched) = is_unknown (group_of matched 2)

is_unknown-apply_request :
    (part : Option Text) (line : ℕ) (sup : Suppressions)
    → is_some (apply_request (request part) line sup).1 ≡ is_unknown part
unfolding apply_request request
is_unknown-apply_request none line sup = refl
is_unknown-apply_request (some t) line sup = ground arith

unchanged-apply_request :
    (r : Request) (line : ℕ) (sup : Suppressions) (message : Text)
    → (apply_request r line sup).1 ≡ some message
    → (apply_request r line sup).0 ≡ sup
unfolding apply_request
unchanged-apply_request r line sup message h = ground arith

error-apply_comment :
    (comment : Option Found) (linenum : ℕ) (sup : Suppressions)
    → (is_some (apply_comment comment linenum sup).1 ≡ line_is_unknown comment)
      × ((message : Text)
          → (apply_comment comment linenum sup).1 ≡ some message
          → (apply_comment comment linenum sup).0 ≡ sup)
error-apply_comment none linenum sup = unfold apply_comment in (refl, λ message h. refl)
error-apply_comment (some m) linenum sup =
    unfold apply_comment in
    (
      is_unknown-apply_request (group_of m 2) (suppressed_line m linenum) sup,
      λ message.
          unchanged-apply_request (request (group_of m 2)) (suppressed_line m linenum) sup message,
    )

-- A line is reported exactly when its NOLINT comment has a parenthesised part that is not (*) and
-- names no category of either list, and then it suppresses nothing.
pub parse_nolint-error :
    (raw_line : Text) (linenum : ℕ) (sup : Suppressions)
    → (is_some (parse_nolint_suppressions raw_line linenum sup).1
        ≡ line_is_unknown (re_search nolint raw_line))
      × ((message : Text)
          → (parse_nolint_suppressions raw_line linenum sup).1 ≡ some message
          → (parse_nolint_suppressions raw_line linenum sup).0 ≡ sup)
unfolding parse_nolint_suppressions
parse_nolint-error raw_line linenum sup =
    error-apply_comment (re_search nolint raw_line) linenum sup
