-- ===== src/Cpplint/Cleanse/Comments/Outcome.antt =====
-- What RemoveMultiLineComments leaves.
use cppecho.Prelude.{
  ℕ, zero, suc, ◌+◌, ◌-◌, ◌≤◌, ◌<◌, ◌≡◌, refl, ap, sym, ◌∙◌, ◌⊎◌, inl, inr, true, false, List, [],
  ◌∷◌, ◌++◌, length, any, arith, length-append, append_assoc, append-nil, subst,
}
use cppecho.Python.Str.{Text}
use cppecho.Cpplint.Report.{ErrorHandler}
use cppecho.Cpplint.Cleanse.Comments.{
  starts_comment, ends_comment, find_next_multi_line_comment_start,
  find_next_multi_line_comment_end, remove_comments_loop, remove_multi_line_comments,
}
use cppecho.Cpplint.Cleanse.Comments.Removal.{
  any-append, find_next-Split, blanks, length-blanks, any_starts-blanks, unended, loop-stop,
  loop-error, loop-blanks, start_at, end_at,
}

module _ {ℓ} {S : Type ℓ} (error : ErrorHandler S) (filename : Text) where
  -- The result on a list of lines: with no report, and no line that begins a comment, or with one report
  -- on the first line that does, behind which no line ends a comment.
  abbrev pub Outcome : ℕ → S → List Text × S → Type ℓ
  Outcome total s (ls, t) =
      (length ls ≡ total)
      × (((t ≡ s) × (any starts_comment ls ≡ false))
          ⊎ ((d : List Text) × (l : Text) × (rest : List Text) × (ls ≡ d ++ l ∷ rest)
              × (any starts_comment d ≡ false)
              × (starts_comment l ≡ true)
              × (any ends_comment (l ∷ rest) ≡ false)
              × (t ≡ unended error filename (length d) s)))

  -- A round that empties the lines `x`, when the loop is right from later lines on.
  resumed-Outcome :
      (fuel : ℕ) (done rest d x post : List Text) (s : S)
      → ((done' rest' : List Text)
          → any starts_comment done' ≡ false
          → length rest' < fuel
          → Outcome
              (length (done' ++ rest'))
              s
              (remove_comments_loop error filename fuel (done' ++ rest') (length done') s))
      → length rest < suc fuel
      → length done ≤ length d
      → done ++ rest ≡ (d ++ x) ++ post
      → 0 < length x
      → any starts_comment d ≡ false
      → find_next_multi_line_comment_start (done ++ rest) (length done) ≡ length d
      → find_next_multi_line_comment_end (done ++ rest) (length d) ≡ length d + (length x - 1)
      → Outcome
          (length (done ++ rest))
          s
          (remove_comments_loop error filename (suc fuel) (done ++ rest) (length done) s)
  resumed-Outcome fuel done rest d x post s again h le parts p clean begin end =
      let left = d ++ blanks (length x) in
      let sizes : length done + length rest ≡ length d + length x + length post = omega (
        arith,
        length-append done rest,
        ap length parts,
        length-append (d ++ x) post,
        length-append d x,
      ) in
      let new_sizes : length (left ++ post) ≡ length (done ++ rest) = omega (
        arith,
        length-append done rest,
        length-append left post,
        length-append d (blanks (length x)),
        length-blanks (length x),
      ) in
      subst
        (λ n.
          Outcome n s
            (remove_comments_loop error filename (suc fuel) (done ++ rest) (length done) s))
        new_sizes
        (subst (Outcome (length (left ++ post)) s)
          (sym (
            loop-blanks error filename fuel (length done) d x post (done ++ rest) s p parts
              (omega (arith, length-append done rest)) begin end))
          (again left post
            (rw
              (any-append starts_comment d (blanks (length x)), clean, any_starts-blanks (length x))
              refl)
            (omega arith)))

  -- What the loop does on a first line that begins a comment, when it is right from later lines on.
  ended-Outcome :
      (fuel : ℕ) (done rest d : List Text) (l : Text) (post : List Text) (s : S)
      → ((done' rest' : List Text)
          → any starts_comment done' ≡ false
          → length rest' < fuel
          → Outcome
              (length (done' ++ rest'))
              s
              (remove_comments_loop error filename fuel (done' ++ rest') (length done') s))
      → length rest < suc fuel
      → length done ≤ length d
      → done ++ rest ≡ d ++ l ∷ post
      → any starts_comment d ≡ false
      → starts_comment l ≡ true
      → find_next_multi_line_comment_start (done ++ rest) (length done) ≡ length d
      → Outcome
          (length (done ++ rest))
          s
          (remove_comments_loop error filename (suc fuel) (done ++ rest) (length done) s)
  ended-Outcome fuel done rest d l post s again h le whole clean st begin =
      let (pre, behind, q, k, c, at) = find_next-Split ends_comment (l ∷ post) in
      let end : find_next_multi_line_comment_end (done ++ rest) (length d) ≡ length d + length pre =
        rw whole (end_at d (l ∷ post) pre at) in
      let long : length (done ++ rest) ≡ length d + suc (length post) =
        ap length whole ∙ length-append d (l ∷ post) in
      elim c [
        | inl e ↦
            let all_seen : l ∷ post ≡ pre = q ∙ ap (λ x. pre ++ x) e ∙ append-nil pre in
            let to_end : length d + length pre ≡ length (done ++ rest) =
              omega (arith, ap length all_seen) in
            subst (Outcome (length (done ++ rest)) s)
              (sym (
                loop-error error filename fuel (length done) (length d) (done ++ rest) s begin
                  (omega arith) (omega arith) (end ∙ to_end)))
              (refl, inr (d, l, post, whole, clean, st, ap (any ends_comment) all_seen ∙ k, refl))
        | inr (m, post', e, en) ↦
            let parts : done ++ rest ≡ (d ++ (pre ++ m ∷ [])) ++ post' =
              whole
              ∙ ap (λ y. d ++ y) (q ∙ ap (λ y. pre ++ y) e ∙ sym (append_assoc pre (m ∷ []) post'))
              ∙ sym (append_assoc d (pre ++ m ∷ []) post') in
            let one_more : length (pre ++ m ∷ []) ≡ length pre + 1 = length-append pre (m ∷ []) in
            let end' : length d + length pre ≡ length d + (length (pre ++ m ∷ []) - 1) =
              omega arith in
            resumed-Outcome fuel done rest d (pre ++ m ∷ []) post' s again h le parts (omega arith)
              clean begin (end ∙ end')
      ]

  loop-Outcome :
      (fuel : ℕ) (done rest : List Text) (s : S)
      → any starts_comment done ≡ false
      → length rest < fuel
      → Outcome
          (length (done ++ rest))
          s
          (remove_comments_loop error filename fuel (done ++ rest) (length done) s)
  loop-Outcome zero done rest s a h = elim h [ ]
  loop-Outcome (suc fuel) done rest s a h =
      let (pre, post, q, k, c, at) = find_next-Split starts_comment rest in
      let whole : done ++ rest ≡ (done ++ pre) ++ post =
        ap (λ x. done ++ x) q ∙ sym (append_assoc done pre post) in
      let clean : any starts_comment (done ++ pre) ≡ false =
        rw (any-append starts_comment done pre, a, k) refl in
      let begin = start_at done rest pre at in
      elim c [
        | inl e ↦
            let all_seen : done ++ rest ≡ done ++ pre =
              whole ∙ ap (λ x. (done ++ pre) ++ x) e ∙ append-nil (done ++ pre) in
            subst (Outcome (length (done ++ rest)) s)
              (sym (
                loop-stop error filename fuel (length done) (done ++ rest) s
                  (begin ∙ ap length (sym all_seen))))
              (refl, inl (refl, ap (any starts_comment) all_seen ∙ clean))
        | inr (l, post', e, st) ↦
            ended-Outcome fuel done rest (done ++ pre) l post' s (λ d r. loop-Outcome fuel d r s) h
              (omega (arith, length-append done pre)) (whole ∙ ap (λ x. (done ++ pre) ++ x) e) clean
              st begin
      ]

  -- RemoveMultiLineComments keeps the number of lines. Either it reports nothing and leaves no line that
  -- begins a comment, or it reports once, on the first line left that begins one, and then neither this
  -- line nor a later one ends a comment.
  pub remove_multi_line_comments_lem :
      (lines : List Text) (s : S)
      → Outcome (length lines) s (remove_multi_line_comments error filename lines s)
  unfolding remove_multi_line_comments
  remove_multi_line_comments_lem lines s =
      loop-Outcome (length lines + 1) [] lines s refl (omega arith)
