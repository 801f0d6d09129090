-- ===== src/Cpplint/Cleanse/Collapse.antt =====
-- CleansedLines._CollapseStrings of tools/cpplint/cpplint.py.
pub mod Total
use cppecho.Prelude.{
  ℕ, zero, suc, ◌+◌, Bool, true, false, not, List, [], ◌∷◌, ◌++◌, Option, none, some, ◌==◌,
  if◌then◌else◌, length, take, drop,
}
use cppecho.Python.Str.{Text, codes, text_eq, find}
use cppecho.Python.Regex.{
  Regex, Found, lit, star, plus, opt, space, digit, set, bol, eol, boundary, dot, one_of, none_of,
  group, is_word, is_digit, ◌▹◌, ◌∣∣◌, sub, matches, re_match, group_text, occurs,
}

-- ^\s*#\s*include\s*([<"])([^>"]*)[>"].*$
abbrev pub include_pattern : Regex
include_pattern =
    bol
    ▹ star space
    ▹ lit "#"
    ▹ star space
    ▹ lit "include"
    ▹ star space
    ▹ group 1 (one_of "<\"")
    ▹ group 2 (star (none_of ">\""))
    ▹ one_of ">\""
    ▹ star dot
    ▹ eol

abbrev hex_digit : Regex
hex_digit = digit ∣∣ one_of "abcdefABCDEF"

-- \\([abfnrtv?"\\\']|\d+|x[0-9a-fA-F]+)
abbrev pub cleanse_line_escapes : Regex
cleanse_line_escapes =
    lit "\\" ▹ group 1 (one_of "abfnrtv?\"\\'" ∣∣ plus digit ∣∣ lit "x" ▹ plus hex_digit)

-- ^([^\'"]*)([\'"])(.*)$
abbrev pub first_quote : Regex
first_quote =
    bol ▹ group 1 (star (none_of "'\"")) ▹ group 2 (one_of "'\"") ▹ group 3 (star dot) ▹ eol

-- \b(?:0[bBxX]?|[1-9])[0-9a-fA-F]*$
abbrev pub number_at_end : Regex
number_at_end =
    boundary ▹ (lit "0" ▹ opt (one_of "bBxX") ∣∣ one_of "123456789") ▹ star hex_digit ▹ eol

-- ^((?:\'?[0-9a-zA-Z_])*)(.*)$
abbrev pub rest_of_number : Regex
rest_of_number = bol ▹ group 1 (star (opt (lit "'") ▹ set is_word)) ▹ group 2 (star dot) ▹ eol

-- `s.replace("'", '')`
without_quotes : Text → Text
without_quotes [] = []
without_quotes (c ∷ s) = if c == b'\'' then without_quotes s else c ∷ without_quotes s

-- What a round does: it ends the loop with the text, or goes on with the rest of the line and the
-- text so far.
pub data Round : Type 0 where
  done : Text → Round
  more : Text → Text → Round

-- The branches on the closing quote of a string or a character.
close_quote : Text → Text → Text → Text → Text → Option ℕ → Round
close_quote elided collapsed head quotes tail none = done (collapsed ++ elided)
close_quote elided collapsed head quotes tail (some second_quote) =
    more (drop (second_quote + 1) tail) (collapsed ++ (head ++ quotes))

-- A digit separator. On a line, which holds no newline, the pattern always matches.
digits : Text → Text → Option Found → Round
unfolding without_quotes
digits collapsed head none = done collapsed
digits collapsed head (some literal) =
    more (group_text literal 2) (collapsed ++ (head ++ without_quotes (group_text literal 1)))

-- One round, on the first quote character of the line.
round : Text → Text → Option Found → Round
unfolding close_quote digits
round elided collapsed none = done (collapsed ++ elided)
round elided collapsed (some match) =
    let head = group_text match 1 in
    let tail = group_text match 3 in
    if text_eq (group_text match 2) (codes "\"")
    then close_quote elided collapsed head (codes "\"\"") tail (find tail (codes "\""))
    else if occurs number_at_end head
    then digits collapsed head (re_match rest_of_number (b'\'' ∷ tail))
    else close_quote elided collapsed head (codes "''") tail (find tail (codes "'"))

-- The loop. Each round but the last leaves a shorter line; none means that the fuel ran out.
pub collapse_loop : ℕ → Text → Text → Option Text
unfolding round
collapse_loop zero elided collapsed = none
collapse_loop (suc fuel) elided collapsed =
    elim (round elided collapsed (re_match first_quote elided)) [
      | done result ↦ some result
      | more elided' collapsed' ↦ collapse_loop fuel elided' collapsed'
    ]

-- _CollapseStrings
unfoldable pub collapse_strings : Text → Option Text
collapse_strings elided =
    if matches include_pattern elided
    then some elided
    else (let escaped = sub cleanse_line_escapes (λ m. []) elided in
        collapse_loop (length escaped + 1) escaped [])
