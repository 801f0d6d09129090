-- ===== src/Cpplint/Nesting/Update/Conditionals.antt =====
-- What NestingState of tools/cpplint/cpplint.py makes of conditionals: it reads the lines as if the
-- branches from the first #else or #elif on were not there.
use cppecho.Prelude.{
  ℕ, ◌≡◌, refl, ap, ◌∙◌, List, [], ◌∷◌, ◌++◌, Option, none, some, get_or, get_or-get_elem?, ◌>>=◌,
  subst,
}
use cppecho.Python.Str.{Text}
use cppecho.Cpplint.Report.{ErrorHandler}
use cppecho.Cpplint.Cleanse.Lines.{CleansedLines}
use cppecho.Cpplint.Nesting.{Block, NestingState, PreprocessorInfo, top, at_else, at_endif}
use cppecho.Cpplint.Nesting.Update.{update}
use cppecho.Cpplint.Nesting.Update.Stacks.{stack_behind, update-stack_behind}
use cppecho.Cpplint.Nesting.Update.Regions.{
  Directive, opening, alternative, closing, other, Region, end, plain, conditional, Branches,
  no_more, branch, lines_of, lines_of_branches, kept, Is, Fits, FitsBranches, stack_behind_all,
  update_all,
}
use cppecho.Cpplint.Nesting.Update.Frames.{
  first_stack, opened, effect, at_alternative, frame_behind, update_preprocessor-effect,
  region_stacks,
}

module _ {ℓ} {S : Type ℓ} (error : ErrorHandler S) (filename : Text)
    (clean_lines : CleansedLines) where
  -- Update on the lines leaves this stack and these checkpoints.
  abbrev Leads :
      List ℕ
      → List Block
      → Option Block
      → List PreprocessorInfo
      → S
      → List Block
      → List PreprocessorInfo
      → Type ℓ
  Leads is stack previous pp_stack s stack' pp_stack' =
      (t : S) × (p : Option Block) × (update_all error filename clean_lines is
          (record { stack = stack; previous_stack_top = previous; pp_stack = pp_stack }) s
        ≡ some (record { stack = stack'; previous_stack_top = p; pp_stack = pp_stack' }, t))

  update_all-append :
      (is js : List ℕ) (n : NestingState) (s : S) (r : NestingState × S)
      → update_all error filename clean_lines is n s ≡ some r
      → update_all error filename clean_lines (is ++ js) n s
        ≡ update_all error filename clean_lines js r.0 r.1
  unfolding update_all
  update_all-append [] js n s r h = cc
  update_all-append (i ∷ is) js n s r h =
      go (update error filename clean_lines i n s) h (λ q k. update_all-append is js q.0 q.1 r k)
    where
      go :
          (o : Option (NestingState × S))
          → (o >>= λ q. update_all error filename clean_lines is q.0 q.1) ≡ some r
          → ((q : NestingState × S)
              → update_all error filename clean_lines is q.0 q.1 ≡ some r
              → update_all error filename clean_lines (is ++ js) q.0 q.1
                ≡ update_all error filename clean_lines js r.0 r.1)
          → (o >>= λ q. update_all error filename clean_lines (is ++ js) q.0 q.1)
            ≡ update_all error filename clean_lines js r.0 r.1
      go none k ih = absurd (cc)
      go (some q) k ih = ih q k

  Leads-append :
      (is js : List ℕ) (a b c : List Block) (previous : Option Block)
      (p q r : List PreprocessorInfo) (s : S)
      → Leads is a previous p s b q
      → ((u : Option Block) (t : S) → Leads js b u q t c r)
      → Leads (is ++ js) a previous p s c r
  Leads-append is js a b c previous p q r s (t, u, e) more =
      let (v, w, f) = more u t in (v, w, update_all-append is js _ s _ e ∙ f)

  Leads-line :
      (d : Directive) (i : ℕ) (is : List ℕ) (a b c : List Block) (previous : Option Block)
      (p q r : List PreprocessorInfo) (s : S)
      → Is clean_lines.elided d i
      → effect d (record { stack = a; previous_stack_top = top a; pp_stack = p })
        ≡ record { stack = b; previous_stack_top = top a; pp_stack = q }
      → ((u : Option Block) (t : S)
          → Leads is
              (stack_behind filename clean_lines i (get_or clean_lines.elided i []) b)
              u
              q
              t
              c
              r)
      → Leads (i ∷ is) a previous p s c r
  unfolding update_all
  Leads-line d i is a b c previous p q r s (text, e, k) f more =
      let n : NestingState = record { stack = a; previous_stack_top = previous; pp_stack = p } in
      let (t, g) = update-stack_behind error filename clean_lines i text n s e in
      let (v, w, h) = more (top a) t in
      let same =
        update_preprocessor-effect text (record n { previous_stack_top = top a })
        ∙ ap (λ (x : Directive). effect x (record n { previous_stack_top = top a })) k
        ∙ f in
      let here : get_or clean_lines.elided i [] ≡ text =
        get_or-get_elem? clean_lines.elided i text [] e in
      let one : update error filename clean_lines i n s
          ≡ some (
            record {
              stack = stack_behind filename clean_lines i (get_or clean_lines.elided i []) b;
              previous_stack_top = top a;
              pp_stack = q;
            },
            t,
          ) =
        rw here (
          g
          ∙ ap
              (λ (x : NestingState).
                some (record x { stack = stack_behind filename clean_lines i text x.stack }, t))
              same) in
      (v, w, rw one h)

  mutual
    unfolding update_all stack_behind_all effect at_else at_endif lines_of kept Fits first_stack
        frame_behind

    region-Leads :
        (x : Region) (stack : List Block) (previous : Option Block)
        (pp_stack : List PreprocessorInfo) (s : S)
        → Fits clean_lines.elided x
        → Leads
            (lines_of x)
            stack
            previous
            pp_stack
            s
            (stack_behind_all filename clean_lines (kept x) stack)
            pp_stack
    region-Leads end stack previous pp_stack s h = (s, previous, refl)
    region-Leads (plain i more) stack previous pp_stack s h =
        Leads-line other i (lines_of more) stack stack _ previous pp_stack pp_stack pp_stack s h.0
          refl (λ u t. region-Leads more _ u pp_stack t h.1)
    region-Leads (conditional i first others e more) stack previous pp_stack s h =
        let frame = opened stack in
        let one = stack_behind filename clean_lines i (get_or clean_lines.elided i []) stack in
        let two = stack_behind_all filename clean_lines (kept first) one in
        let next = frame_behind filename clean_lines others frame two in
        let three =
          stack_behind filename clean_lines e (get_or clean_lines.elided e [])
            (first_stack next.0 next.1) in
        let goal = stack_behind_all filename clean_lines (kept first ++ e ∷ kept more) one in
        Leads-line opening i _ stack stack goal previous pp_stack (frame ∷ pp_stack) pp_stack s h.0
          refl
          (λ u t.
            Leads-append (lines_of first) _ one two goal u (frame ∷ pp_stack) (frame ∷ pp_stack)
              pp_stack t (region-Leads first one u (frame ∷ pp_stack) t h.1)
              (λ v w.
                Leads-append (lines_of_branches others) _ two next.1 goal v (frame ∷ pp_stack)
                  (next.0 ∷ pp_stack) pp_stack w (branches-Leads others two v frame pp_stack w h.2)
                  (λ y z.
                    Leads-line closing e (lines_of more) next.1 (first_stack next.0 next.1) goal y
                      (next.0 ∷ pp_stack) pp_stack pp_stack z h.3 refl
                      (λ k l.
                        subst (λ g. Leads (lines_of more) three k pp_stack l g pp_stack)
                          (region_stacks filename clean_lines first others e more stack one)
                          (region-Leads more three k pp_stack l h.4)))))

    branches-Leads :
        (x : Branches) (stack : List Block) (previous : Option Block) (frame : PreprocessorInfo)
        (pp_stack : List PreprocessorInfo) (s : S)
        → FitsBranches clean_lines.elided x
        → Leads
            (lines_of_branches x)
            stack
            previous
            (frame ∷ pp_stack)
            s
            (frame_behind filename clean_lines x frame stack).1
            ((frame_behind filename clean_lines x frame stack).0 ∷ pp_stack)
    branches-Leads no_more stack previous frame pp_stack s h = (s, previous, refl)
    branches-Leads (branch i body more) stack previous frame pp_stack s h =
        let one =
          stack_behind filename clean_lines i (get_or clean_lines.elided i [])
            frame.stack_before_if in
        let two = stack_behind_all filename clean_lines (kept body) one in
        let f = at_alternative frame stack in
        let next = frame_behind filename clean_lines more f two in
        Leads-line alternative i _ stack frame.stack_before_if next.1 previous (frame ∷ pp_stack)
          (f ∷ pp_stack) (next.0 ∷ pp_stack) s h.0 refl
          (λ u t.
            Leads-append (lines_of body) _ one two next.1 u (f ∷ pp_stack) (f ∷ pp_stack)
              (next.0 ∷ pp_stack) t (region-Leads body one u (f ∷ pp_stack) t h.1)
              (λ v w. branches-Leads more two v f pp_stack w h.2))

  -- Lines in which every #if has its #endif: Update ends on each of them, and behind them the stack is
  -- what the lines without the branches from the first #else or #elif on make of the stack before, with
  -- no preprocessor; the checkpoints are those before.
  pub update_all-kept :
      (x : Region) (n : NestingState) (s : S)
      → Fits clean_lines.elided x
      → (t : S) × (p : Option Block) × (update_all error filename clean_lines (lines_of x) n s
          ≡ some (
            record {
              stack = stack_behind_all filename clean_lines (kept x) n.stack;
              previous_stack_top = p;
              pp_stack = n.pp_stack;
            },
            t,
          ))
  update_all-kept x n s h = region-Leads x n.stack n.previous_stack_top n.pp_stack s h
