-- ===== src/Cpplint/Language/Printf.antt =====
-- CheckPrintf and _GetTextInside of tools/cpplint/cpplint.py.
pub mod Inside
use cppecho.Prelude.{
  ℕ, zero, suc, ◌+◌, ◌-◌, Bool, true, false, ◌||◌, List, [], ◌∷◌, ◌++◌, Option, none, some, ◌==◌,
  if◌then◌else◌, length, drop, take,
}
use cppecho.Python.Str.{Text, codes, text_eq}
use cppecho.Python.Regex.{
  Regex, Found, star, space, digit, lit, boundary, group, none_of, ◌▹◌, ◌∣∣◌, re_search, group_text,
  occurs,
}
use cppecho.Cpplint.Report.{ErrorHandler}

-- snprintf\s*\(([^,]*),\s*([0-9]*)\s*,
abbrev pub snprintf_size : Regex
snprintf_size =
    lit "snprintf"
    ▹ star space
    ▹ lit "("
    ▹ group 1 (star (none_of ","))
    ▹ lit ","
    ▹ star space
    ▹ group 2 (star digit)
    ▹ star space
    ▹ lit ","

-- \bsprintf\s*\( and \b(strcpy|strcat)\s*\(
abbrev pub sprintf : Regex
sprintf = boundary ▹ lit "sprintf" ▹ star space ▹ lit "("

abbrev pub string_copy : Regex
string_copy = boundary ▹ group 1 (lit "strcpy" ∣∣ lit "strcat") ▹ star space ▹ lit "("

-- The closing punctuation for an opening one
unfoldable pub matching_punctuation : ℕ → Option ℕ
matching_punctuation c =
    if c == b'('
    then some b')'
    else if c == b'{'
    then some b'}'
    else if c == b'['
    then some b']'
    else none

unfoldable pub is_closing_punctuation : ℕ → Bool
is_closing_punctuation c = c == b')' || c == b'}' || c == b']'

unfoldable pub one_more : Option ℕ → Option ℕ
one_more none = none
one_more (some n) = some (n + 1)

-- The loop: how many characters it passes, with the one that closes the first. None is a stack that is
-- not empty in the end, or a punctuation that does not match. The stack has its top in front.
unfoldable pub inside_scan : List ℕ → Text → Option ℕ
unfolding matching_punctuation is_closing_punctuation one_more
inside_scan [] s = some 0
inside_scan (top ∷ stack) [] = none
inside_scan (top ∷ stack) (c ∷ s) = elim (c == top) [
  | true ↦ one_more (inside_scan stack s)
  | false ↦ elim (is_closing_punctuation c) [
    | true ↦ none
    | false ↦ elim (matching_punctuation c) [
      | none ↦ one_more (inside_scan (top ∷ stack) s)
      | some d ↦ one_more (inside_scan (d ∷ top ∷ stack) s)
    ]
  ]
]

-- The text behind an opening punctuation, up to the one that closes it; none as the result is the
-- AssertionError for a text that does not begin with an opening punctuation.
unfoldable pub text_behind : Text → Option (Option Text)
unfolding matching_punctuation inside_scan
text_behind [] = none
text_behind (c ∷ s) = elim (matching_punctuation c) [
  | none ↦ none
  | some d ↦ some (elim (inside_scan (d ∷ []) s) [ none ↦ none | some n ↦ some (take (n - 1) s) ])
]

-- `start_position` is the end of the match; at 0 it is an AssertionError.
unfoldable pub text_from : Text → ℕ → Option (Option Text)
unfolding text_behind
text_from text zero = none
text_from text (suc start) = text_behind (drop start text)

-- _GetTextInside, for a text of one line, in which re.M makes no difference; none as the result is an
-- AssertionError.
unfoldable pub get_text_inside : Text → Regex → Option (Option Text)
unfolding text_from
get_text_inside text start_pattern = elim (re_search start_pattern text) [
  | none ↦ some none
  | some m ↦ text_from text (m.start + length m.whole)
]

module _ {ℓ} {S : Type ℓ} (error : ErrorHandler S) (filename : Text) where
  check_snprintf : ℕ → Option Found → S → S
  unfolding group_text text_eq
  check_snprintf linenum none s = s
  check_snprintf linenum (some m) s =
      if text_eq (group_text m 2) (codes "0")
      then s
      else error filename linenum (codes "runtime/printf") 3
          (codes "If you can, use sizeof("
            ++ group_text m 1
            ++ codes ") instead of "
            ++ group_text m 2
            ++ codes " as the 2nd arg to snprintf.")
          s

  check_sprintf : ℕ → Text → S → S
  check_sprintf linenum line s =
      if occurs sprintf line
      then error filename linenum (codes "runtime/printf") 5
          (codes "Never use sprintf. Use snprintf instead.") s
      else s

  check_copy : ℕ → Option Found → S → S
  unfolding group_text
  check_copy linenum none s = s
  check_copy linenum (some m) s =
      error filename linenum (codes "runtime/printf") 4
        (codes "Almost always, snprintf is better than " ++ group_text m 1) s

  -- CheckPrintf, on the elided line
  unfoldable pub check_printf : ℕ → Text → S → S
  unfolding check_snprintf check_sprintf check_copy
  check_printf linenum line s =
      check_copy linenum (re_search string_copy line)
        (check_sprintf linenum line (check_snprintf linenum (re_search snprintf_size line) s))
