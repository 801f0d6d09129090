-- ===== src/Cpplint/Language/Arrays.antt =====
-- The check of CheckLanguage in tools/cpplint/cpplint.py for arrays of variable length.
use cppecho.Prelude.{
  ℕ, zero, suc, Bool, true, false, not, ◌&&◌, ◌||◌, List, [], ◌∷◌, Option, none, some, leb, ◌==◌,
  if◌then◌else◌, length,
}
use cppecho.Python.Str.{
  Text, codes, cons_first, contains, text_eq, startswith, lstrip_by, rstrip_by, is_space,
}
use cppecho.Python.Regex.{
  Regex, Found, star, plus, space, word, digit, is_digit, opt, lit, dot, group, one_of, set, ◌▹◌,
  re_match, group_text, matches, occurs,
}
use cppecho.Cpplint.Report.{ErrorHandler}

-- \s*(.+::)?(\w+) [a-z]\w*\[(.+)];
abbrev pub array_declaration : Regex
array_declaration =
    star space
    ▹ opt (group 1 (plus dot ▹ lit "::"))
    ▹ group 2 (plus word)
    ▹ lit " "
    ▹ set (λ c. leb b'a' c && leb c b'z')
    ▹ star word
    ▹ lit "["
    ▹ group 3 (plus dot)
    ▹ lit "];"

-- How many characters of a text \s|\+|\-|\*|\/|<<|>>] matches at its start, or 0
unfoldable pub separator : Text → ℕ
unfolding startswith
separator [] = 0
separator (c ∷ s) =
    if is_space c || c == b'+' || c == b'-' || c == b'*' || c == b'/'
    then 1
    else if startswith (c ∷ s) (codes "<<")
    then 2
    else if startswith (c ∷ s) (codes ">>]")
    then 3
    else 0

-- The scan of `re.split`: `skip` characters belong to the last separator.
unfoldable pub split_tokens : ℕ → Text → List Text
unfolding separator
split_tokens skip [] = [] ∷ []
split_tokens (suc skip) (c ∷ s) = split_tokens skip s
split_tokens zero (c ∷ s) = elim (separator (c ∷ s)) [
  | zero ↦ cons_first c (split_tokens zero s)
  | suc skip ↦ [] ∷ split_tokens skip s
]

-- [A-Z0-9]
abbrev constant_start : Regex
constant_start = lit "k" ▹ set (λ c. leb b'A' c && leb c b'Z' || is_digit c) ▹ star word

-- (.+::)?
abbrev qualifier : Regex
qualifier = opt (group 1 (plus dot ▹ lit "::"))

-- sizeof\(.+\) and arraysize\(\w+\)
abbrev pub sizeof_call : Regex
sizeof_call = lit "sizeof(" ▹ plus dot ▹ lit ")"

abbrev pub arraysize_call : Regex
arraysize_call = lit "arraysize(" ▹ plus word ▹ lit ")"

-- Whether a token without its parentheses is a constant
unfoldable pub is_constant : Text → Bool
is_constant token =
    length token == 0
    || matches (plus digit) token
    || matches (lit "0" ▹ one_of "xX" ▹ plus (one_of "0123456789abcdefABCDEF")) token
    || matches constant_start token
    || matches (qualifier ▹ constant_start) token
    || matches
        (qualifier
          ▹ set (λ c. leb b'A' c && leb c b'Z')
          ▹ star (set (λ c. leb b'A' c && leb c b'Z' || is_digit c || c == b'_')))
        token

-- What a token is: a constant, one behind which the next one is skipped, or neither
pub data Token : Type 0 where
  constant skips_next variable : Token

unfoldable pub token_of : Text → Token
unfolding is_constant startswith lstrip_by rstrip_by
token_of token =
    let stripped = rstrip_by (λ c. c == b')') (lstrip_by (λ c. c == b'(') token) in
    if occurs sizeof_call token || occurs arraysize_call token || is_constant stripped
    then constant
    else if startswith stripped (codes "sizeof")
    then skips_next
    else variable

-- The loop over the tokens
unfoldable pub is_const : Bool → List Text → Bool
unfolding token_of
is_const skip_next [] = true
is_const true (token ∷ tokens) = is_const false tokens
is_const false (token ∷ tokens) = elim (token_of token) [
  | constant ↦ is_const false tokens
  | skips_next ↦ is_const true tokens
  | variable ↦ false
]

-- Whether a match declares an array whose size is not constant
unfoldable pub is_variable_length : Option Found → Bool
unfolding group_text text_eq contains is_const split_tokens
is_variable_length none = false
is_variable_length (some m) =
    not (text_eq (group_text m 2) (codes "return"))
    && not (text_eq (group_text m 2) (codes "delete"))
    && not (contains (group_text m 3) (codes "]"))
    && not (is_const false (split_tokens zero (group_text m 3)))

module _ {ℓ} {S : Type ℓ} (error : ErrorHandler S) (filename : Text) where
  -- The check of an elided line
  unfoldable pub check_arrays : ℕ → Text → S → S
  unfolding is_variable_length
  check_arrays linenum line s =
      if is_variable_length (re_match array_declaration line)
      then error filename linenum (codes "runtime/arrays") 1
          (codes
            "Do not use variable-length arrays.  Use an appropriately named ('k' followed by CamelCase) compile-time constant for the size.")
          s
      else s
