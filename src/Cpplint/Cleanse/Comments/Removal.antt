-- ===== src/Cpplint/Cleanse/Comments/Removal.antt =====
-- The rounds of RemoveMultiLineComments.
use cppecho.Prelude.{
  ℕ, zero, suc, ◌+◌, ◌-◌, ◌<◌, ◌≡◌, refl, ap, sym, ◌∙◌, ◌⊎◌, inl, inr, Bool, true, false, ◌||◌,
  List, [], ◌∷◌, ◌++◌, length, any, arith, Bool-cases, length-append, drop-length_append,
}
use cppecho.Python.Str.{Text, codes, startswith, find_from, find, unicode_strip}
use cppecho.Cpplint.Report.{ErrorHandler}
use cppecho.Cpplint.Cleanse.Comments.{
  starts_comment, ends_comment, find_next, find_next_multi_line_comment_start,
  find_next_multi_line_comment_end, remove_multi_line_comments_from_range, remove_comments_loop,
}

pub any-append : (p : Text → Bool) (xs ys : List Text) → any p (xs ++ ys) ≡ (any p xs || any p ys)
any-append p [] ys = refl
any-append p (x ∷ xs) ys = rw (any-append p xs ys) (ground arith)

-- The lines before and from the first that passes a test.
abbrev pub Split : (Text → Bool) → List Text → Type 0
Split p ls =
    (pre post : List Text) × (ls ≡ pre ++ post)
    × (any p pre ≡ false)
    × ((post ≡ []) ⊎ ((l : Text) × (rest : List Text) × (post ≡ l ∷ rest) × (p l ≡ true)))
    × ((n : ℕ) → find_next p ls n ≡ n + length pre)

pub find_next-Split : (p : Text → Bool) (ls : List Text) → Split p ls
unfolding find_next
find_next-Split p [] = ([], [], refl, refl, inl refl, λ n. omega arith)
find_next-Split p (l ∷ ls) = elim (Bool-cases (p l)) [
  | inl e ↦ ([], l ∷ ls, refl, refl, inr (l, ls, refl, e), λ n. rw e (omega arith))
  | inr e ↦
      let (pre, post, q, k, c, at) = find_next-Split p ls in
      (l ∷ pre, post, ap (◌∷◌ l) q, rw (e, k) refl, c, λ n. rw (e, at (n + 1)) (omega arith))
]

-- As many lines of `/**/`.
abbrev pub blanks : ℕ → List Text
blanks zero = []
blanks (suc n) = codes "/**/" ∷ blanks n

pub length-blanks : (n : ℕ) → length (blanks n) ≡ n
length-blanks zero = refl
length-blanks (suc n) = ap suc (length-blanks n)

pub any_starts-blanks : (n : ℕ) → any starts_comment (blanks n) ≡ false
unfolding starts_comment startswith find_from find unicode_strip
any_starts-blanks zero = refl
any_starts-blanks (suc n) = any_starts-blanks n

remove_range-append :
    (d x post : List Text)
    → remove_multi_line_comments_from_range (d ++ x ++ post) (length d) (length x)
      ≡ d ++ blanks (length x) ++ post
unfolding remove_multi_line_comments_from_range
remove_range-append (l ∷ d) x post = ap (◌∷◌ l) (remove_range-append d x post)
remove_range-append [] (y ∷ x) post = ap (◌∷◌ (codes "/**/")) (remove_range-append [] x post)
remove_range-append [] [] [] = refl
remove_range-append [] [] (y ∷ post) = refl

pub start_at :
    (done rest pre : List Text)
    → ((n : ℕ) → find_next starts_comment rest n ≡ n + length pre)
    → find_next_multi_line_comment_start (done ++ rest) (length done) ≡ length (done ++ pre)
unfolding find_next_multi_line_comment_start
start_at done rest pre at =
    rw (drop-length_append done rest) (at (length done) ∙ sym (length-append done pre))

pub end_at :
    (d post pre : List Text)
    → ((n : ℕ) → find_next ends_comment post n ≡ n + length pre)
    → find_next_multi_line_comment_end (d ++ post) (length d) ≡ length d + length pre
unfolding find_next_multi_line_comment_end
end_at d post pre at = rw (drop-length_append d post) (at (length d))

module _ {ℓ} {S : Type ℓ} (error : ErrorHandler S) (filename : Text) where
  -- The report on a comment that begins on the line of an index.
  abbrev pub unended : ℕ → S → S
  unended begin s =
      error filename (begin + 1) (codes "readability/multiline_comment") 5
        (codes "Could not find end of multi-line comment") s

  pub loop-stop :
      (fuel lineix : ℕ) (lines : List Text) (s : S)
      → find_next_multi_line_comment_start lines lineix ≡ length lines
      → remove_comments_loop error filename (suc fuel) lines lineix s ≡ (lines, s)
  unfolding remove_comments_loop
  loop-stop fuel lineix lines s h = rw h (ground arith)

  pub loop-error :
      (fuel lineix begin : ℕ) (lines : List Text) (s : S)
      → find_next_multi_line_comment_start lines lineix ≡ begin
      → lineix < length lines
      → begin < length lines
      → find_next_multi_line_comment_end lines begin ≡ length lines
      → remove_comments_loop error filename (suc fuel) lines lineix s ≡ (lines, unended begin s)
  unfolding remove_comments_loop
  loop-error fuel lineix begin lines s h k l e = rw (h, e) (ground arith)

  loop-next :
      (fuel lineix begin end : ℕ) (lines : List Text) (s : S)
      → find_next_multi_line_comment_start lines lineix ≡ begin
      → lineix < length lines
      → begin < length lines
      → find_next_multi_line_comment_end lines begin ≡ end
      → end < length lines
      → remove_comments_loop error filename (suc fuel) lines lineix s
        ≡ remove_comments_loop error filename fuel
            (remove_multi_line_comments_from_range lines begin (end + 1 - begin))
            (end + 1)
            s
  loop-next fuel lineix begin end lines s h k l e m =
      unfold remove_comments_loop in rw (h, e) (ground arith)

  pub loop-blanks :
      (fuel lineix : ℕ) (d x post lines : List Text) (s : S)
      → 0 < length x
      → lines ≡ d ++ x ++ post
      → lineix < length lines
      → find_next_multi_line_comment_start lines lineix ≡ length d
      → find_next_multi_line_comment_end lines (length d) ≡ length d + (length x - 1)
      → remove_comments_loop error filename (suc fuel) lines lineix s
        ≡ remove_comments_loop error filename fuel
            ((d ++ blanks (length x)) ++ post)
            (length (d ++ blanks (length x)))
            s
  loop-blanks fuel lineix d x post lines s p q h b e =
      let long : length lines ≡ length d + (length x + length post) =
        omega (arith, ap length q, length-append (d ++ x) post, length-append d x) in
      let end = length d + (length x - 1) in
      let n : end + 1 - length d ≡ length x = omega arith in
      let next : end + 1 ≡ length (d ++ blanks (length x)) =
        omega (arith, length-append d (blanks (length x)), length-blanks (length x)) in
      let cut : remove_multi_line_comments_from_range lines (length d) (length x)
          ≡ (d ++ blanks (length x)) ++ post =
        rw q (remove_range-append d x post) in
      loop-next fuel lineix (length d) end lines s b h (omega arith) e (omega arith)
      ∙ rw (n, cut, next) refl
