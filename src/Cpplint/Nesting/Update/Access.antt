-- ===== src/Cpplint/Nesting/Update/Access.antt =====
-- The access keywords of a class in NestingState.Update of tools/cpplint/cpplint.py.
use cppecho.Prelude.{
  ℕ, ◌+◌, not, ◌&&◌, List, [], ◌∷◌, ◌++◌, Option, none, some, ◌==◌, if◌then◌else◌, length,
}
use cppecho.Python.Str.{Text, codes}
use cppecho.Python.Regex.{
  Regex, Found, star, plus, space, lit, bol, eol, dot, boundary, group, opt, none_of, ◌▹◌, ◌∣∣◌,
  re_match, group_of, group_text, or_empty, matches,
}
use cppecho.Cpplint.Report.{ErrorHandler}
use cppecho.Cpplint.Nesting.{Block, Kind, ClassInfo, class_info}
use cppecho.Cpplint.Nesting.Blocks.{blank, parent_of}

-- ^(.*)\b(public|private|protected|signals)(\s+(?:slots\s*)?)?:(?:[^:]|$)
abbrev pub access_match : Regex
access_match =
    bol
    ▹ group 1 (star dot)
    ▹ boundary
    ▹ group 2 (lit "public" ∣∣ lit "private" ∣∣ lit "protected" ∣∣ lit "signals")
    ▹ opt (group 3 (plus space ▹ opt (lit "slots" ▹ star space)))
    ▹ lit ":"
    ▹ (none_of ":" ∣∣ eol)

module _ {ℓ} {S : Type ℓ} (error : ErrorHandler S) (filename : Text) where
  check_indent : ℕ → ClassInfo → Found → S → S
  unfolding parent_of group_of group_text
  check_indent linenum c m s =
      if not (length (group_text m 1) == c.class_indent + 1) && matches blank (group_text m 1)
      then error filename linenum (codes "whitespace/indent") 3
          (group_text m 2
            ++ or_empty (group_of m 3)
            ++ codes ": should be indented +1 space inside "
            ++ parent_of c)
          s
      else s

  unfoldable pub access_of : ℕ → Block → ClassInfo → Option Found → S → Block × S
  unfolding check_indent group_text
  access_of linenum b c none s = (b, s)
  access_of linenum b c (some m) s = (
    record b { kind = class_info (record c { access = group_text m 2 }) },
    check_indent linenum c m s,
  )

  unfoldable pub access_in : ℕ → Text → Block → Kind → S → Block × S
  unfolding access_of
  access_in linenum line b (class_info c) s = access_of linenum b c (re_match access_match line) s
  access_in linenum line b _ s = (b, s)

  -- The access that a keyword on the line gives the innermost class, and the report of its indentation
  unfoldable pub check_access : ℕ → Text → List Block → S → List Block × S
  unfolding access_in
  check_access linenum line [] s = ([], s)
  check_access linenum line (b ∷ stack) s =
      let (c, t) = access_in linenum line b b.kind s in (c ∷ stack, t)
