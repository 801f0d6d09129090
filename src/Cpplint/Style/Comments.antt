-- ===== src/Cpplint/Style/Comments.antt =====
-- CheckComment of tools/cpplint/cpplint.py.
use cppecho.Prelude.{
  ℕ, ◌-◌, ◌%◌, Bool, true, not, ◌&&◌, ◌||◌, [], Option, none, some, ltb, leb, ◌==◌, if◌then◌else◌,
  length, take, drop, get_or,
}
use cppecho.Python.Str.{Text, codes, text_eq, count, find, is_space}
use cppecho.Python.Regex.{
  Regex, Found, star, plus, lazy, space, word, opt, lit, bol, eol, dot, group, none_of, ◌▹◌, ◌∣∣◌,
  re_match, sub, group_of, group_text, matches,
}
use cppecho.Cpplint.Report.{ErrorHandler}

-- ^//(\s*)TODO(\(.+?\))?:?(\s|$)?
abbrev pub todo : Regex
todo =
    bol
    ▹ lit "//"
    ▹ group 1 (star space)
    ▹ lit "TODO"
    ▹ opt (group 2 (lit "(" ▹ dot ▹ lazy dot ▹ lit ")"))
    ▹ opt (lit ":")
    ▹ opt (group 3 (space ∣∣ eol))

-- ^.*{ *//
abbrev pub behind_brace : Regex
behind_brace = bol ▹ star dot ▹ lit "{" ▹ star (lit " ") ▹ lit "//"

-- //[^ ]*\w
abbrev pub close_comment : Regex
close_comment = lit "//" ▹ star (none_of " ") ▹ word

-- (///|//\!)(\s+|$)
abbrev pub doxygen : Regex
doxygen = group 1 (lit "///" ∣∣ lit "//!") ▹ group 2 (plus space ∣∣ eol)

-- Whether the quotes in front of the position are closed
unfoldable pub outside_quotes : Text → ℕ → Bool
unfolding sub count
outside_quotes line commentpos =
    count (sub (lit "\\" ▹ dot) (λ m. []) (take commentpos line)) (codes "\"") % 2 == 0

abbrev no_space_at : Text → ℕ → Bool
no_space_at line i = not (is_space (get_or line i 32))

-- Whether the comment stands too near to what is before it
unfoldable pub too_near : Text → ℕ → ℕ → Bool
too_near line next_line_start commentpos =
    not (matches behind_brace line && next_line_start == commentpos)
    && (leb 1 commentpos && no_space_at line (commentpos - 1)
        || leb 2 commentpos && no_space_at line (commentpos - 2))

-- `middle_whitespace != ' ' and middle_whitespace != ''`
is_bad_middle : Option Text → Bool
unfolding text_eq
is_bad_middle none = true
is_bad_middle (some t) = not (text_eq t (codes " ")) && not (text_eq t [])

has_no_username : Option Text → Bool
unfolding text_eq
has_no_username none = true
has_no_username (some t) = text_eq t []

module _ {ℓ} {S : Type ℓ} (error : ErrorHandler S) (filename : Text) where
  check_username : ℕ → Found → S → S
  unfolding group_of has_no_username
  check_username linenum m s =
      if has_no_username (group_of m 2)
      then error filename linenum (codes "readability/todo") 2
          (codes "Missing username in TODO; it should look like \"// TODO(my_username): Stuff.\"") s
      else s

  -- The checks of a TODO
  check_todo : ℕ → Option Found → S → S
  unfolding group_text group_of is_bad_middle check_username
  check_todo linenum none s = s
  check_todo linenum (some m) s =
      let t =
        if ltb 1 (length (group_text m 1))
        then error filename linenum (codes "whitespace/todo") 2
            (codes "Too many spaces before TODO") s
        else s in
      let u = check_username linenum m t in
      if is_bad_middle (group_of m 3)
      then error filename linenum (codes "whitespace/todo") 2
          (codes "TODO(my_username) should be followed by a space") u
      else u

  check_comment_at : Text → ℕ → ℕ → ℕ → S → S
  unfolding outside_quotes too_near check_todo
  check_comment_at line linenum next_line_start commentpos s =
      let comment = drop commentpos line in
      let t =
        if too_near line next_line_start commentpos
        then error filename linenum (codes "whitespace/comments") 2
            (codes "At least two spaces is best between code and comments") s
        else s in
      let u = check_todo linenum (re_match todo comment) t in
      if not (outside_quotes line commentpos)
      then s
      else if matches close_comment comment && not (matches doxygen comment)
      then error filename linenum (codes "whitespace/comments") 4
          (codes "Should have a space between // and comment") u
      else u

  -- CheckComment
  unfoldable pub check_comment : Text → ℕ → ℕ → S → S
  unfolding check_comment_at find
  check_comment line linenum next_line_start s = elim (find line (codes "//")) [
    | none ↦ s
    | some commentpos ↦ check_comment_at line linenum next_line_start commentpos s
  ]
