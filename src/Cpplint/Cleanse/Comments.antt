-- ===== src/Cpplint/Cleanse/Comments.antt =====
-- IsCppString, the multi-line comments and CleanseComments of tools/cpplint/cpplint.py.
pub mod Removal
pub mod Outcome
use cppecho.Prelude.{
  ℕ, zero, suc, ◌+◌, ◌-◌, ◌%◌, Bool, not, ◌&&◌, ◌||◌, List, [], ◌∷◌, Option, none, some, ltb, ◌==◌,
  if◌then◌else◌, length, take, drop, is_some,
}
use cppecho.Python.Str.{
  Text, codes, startswith, endswith, find, find_from, replace, count, unicode_strip, unicode_rstrip,
}
use cppecho.Python.Regex.{
  Regex, lit, star, plus, space, eol, none_of, non_word, ahead, unless, group, ◌▹◌, ◌∣∣◌, sub,
}
use cppecho.Cpplint.Report.{ErrorHandler}

-- The lowest bit of `a - b - c`, which does not depend on the signs.
abbrev odd_difference : ℕ → ℕ → ℕ → Bool
odd_difference a b c = (a + b + c) % 2 == 1

-- IsCppString
unfoldable pub is_cpp_string : Text → Bool
unfolding replace count
is_cpp_string line =
    let line' = replace line (codes "\\\\") (codes "XX") in
    odd_difference (count line' (codes "\"")) (count line' (codes "\\\""))
      (count line' (codes "'\"'"))

-- The test of one line in FindNextMultiLineCommentStart.
unfoldable pub starts_comment : Text → Bool
unfolding unicode_strip startswith find_from
starts_comment line =
    let stripped = unicode_strip line in
    startswith stripped (codes "/*") && not (is_some (find_from stripped (codes "*/") 2))

-- The test of one line in FindNextMultiLineCommentEnd.
unfoldable pub ends_comment : Text → Bool
unfolding unicode_strip endswith
ends_comment line = endswith (unicode_strip line) (codes "*/")

-- Index of the first line from `lineix` on that passes a test, or the number of lines.
pub find_next : (Text → Bool) → List Text → ℕ → ℕ
find_next p [] lineix = lineix
find_next p (l ∷ ls) lineix = if p l then lineix else find_next p ls (lineix + 1)

-- FindNextMultiLineCommentStart and FindNextMultiLineCommentEnd, for a `lineix` of at most `len(lines)`
unfoldable pub find_next_multi_line_comment_start : List Text → ℕ → ℕ
unfolding find_next
find_next_multi_line_comment_start lines lineix =
    find_next starts_comment (drop lineix lines) lineix

unfoldable pub find_next_multi_line_comment_end : List Text → ℕ → ℕ
unfolding find_next
find_next_multi_line_comment_end lines lineix = find_next ends_comment (drop lineix lines) lineix

-- RemoveMultiLineCommentsFromRange, for the `n` lines from `begin` on
unfoldable pub remove_multi_line_comments_from_range : List Text → ℕ → ℕ → List Text
remove_multi_line_comments_from_range [] begin n = []
remove_multi_line_comments_from_range (l ∷ ls) (suc begin) n =
    l ∷ remove_multi_line_comments_from_range ls begin n
remove_multi_line_comments_from_range (l ∷ ls) zero zero = l ∷ ls
remove_multi_line_comments_from_range (l ∷ ls) zero (suc n) =
    codes "/**/" ∷ remove_multi_line_comments_from_range ls zero n

-- The loop of RemoveMultiLineComments. Each round but the last goes past a line, so `fuel` rounds are
-- enough for fewer than `fuel` lines.
module _ {ℓ} {S : Type ℓ} (error : ErrorHandler S) (filename : Text) where
  pub remove_comments_loop : ℕ → List Text → ℕ → S → List Text × S
  unfolding find_next_multi_line_comment_start find_next_multi_line_comment_end
      remove_multi_line_comments_from_range
  remove_comments_loop zero lines lineix s = (lines, s)
  remove_comments_loop (suc fuel) lines lineix s =
      let begin = find_next_multi_line_comment_start lines lineix in
      let end = find_next_multi_line_comment_end lines begin in
      let next =
        remove_comments_loop fuel
          (remove_multi_line_comments_from_range lines begin (end + 1 - begin)) (end + 1) s in
      if not (ltb lineix (length lines)) || not (ltb begin (length lines))
      then (lines, s)
      else if not (ltb end (length lines))
      then (
        lines,
        error filename (begin + 1) (codes "readability/multiline_comment") 5
            (codes "Could not find end of multi-line comment") s,
      )
      else next

  -- RemoveMultiLineComments
  unfoldable pub remove_multi_line_comments : List Text → S → List Text × S
  unfolding remove_comments_loop
  remove_multi_line_comments lines s = remove_comments_loop (length lines + 1) lines 0 s

-- /\*(?:[^*]|\*(?!/))*\*/
abbrev pub c_comment : Regex
c_comment = lit "/*" ▹ star (none_of "*" ∣∣ lit "*" ▹ unless (lit "/")) ▹ lit "*/"

-- _RE_PATTERN_CLEANSE_LINE_C_COMMENTS
abbrev pub cleanse_line_c_comments : Regex
cleanse_line_c_comments = group 1 (
    star space ▹ c_comment ▹ star space ▹ eol
    ∣∣ c_comment ▹ plus space
    ∣∣ plus space ▹ c_comment ▹ ahead non_word
    ∣∣ c_comment)

-- The line without its `//` comment.
abbrev pub cut_comment : Text → Option ℕ → Text
cut_comment line none = line
cut_comment line (some commentpos) =
    if not (is_cpp_string (take commentpos line))
    then unicode_rstrip (take commentpos line)
    else line

-- CleanseComments
unfoldable pub cleanse_comments : Text → Text
cleanse_comments line =
    sub cleanse_line_c_comments (λ m. []) (cut_comment line (find line (codes "//")))
