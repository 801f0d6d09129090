-- ===== src/Cpplint/Nesting/Update/Frames.antt =====
-- The stacks and checkpoints that the branches of a conditional leave in NestingState of
-- tools/cpplint/cpplint.py.
use cppecho.Prelude.{
  ℕ, ◌≡◌, refl, sym, ap, ◌∙◌, true, false, List, [], ◌∷◌, ◌++◌, get_or, if◌then◌else◌, Bool-cases,
  inl, inr, arith,
}
use cppecho.Python.Str.{Text}
use cppecho.Python.Regex.{matches}
use cppecho.Cpplint.Cleanse.Lines.{CleansedLines}
use cppecho.Cpplint.Nesting.{
  Block, NestingState, PreprocessorInfo, update_preprocessor, if_directive, else_directive,
  endif_directive, at_else, at_endif,
}
use cppecho.Cpplint.Nesting.Update.Stacks.{stack_behind}
use cppecho.Cpplint.Nesting.Update.Regions.{
  Directive, opening, alternative, closing, other, directive_of, Region, Branches, no_more, branch,
  kept, stack_behind_all,
}

-- The stack that the first branch left, while the preprocessor is inside a conditional
unfoldable pub first_stack : PreprocessorInfo → List Block → List Block
first_stack p stack = if p.seen_else then p.stack_before_else else stack

-- The checkpoint that an #if leaves
unfoldable pub opened : List Block → PreprocessorInfo
opened stack = record { stack_before_if = stack; stack_before_else = []; seen_else = false }

-- What update_preprocessor does at a directive
unfoldable pub effect : Directive → NestingState → NestingState
unfolding opened at_else at_endif
effect opening n = record n { pp_stack = opened n.stack ∷ n.pp_stack }
effect alternative n = at_else n.pp_stack n
effect closing n = at_endif n.pp_stack n
effect other n = n

pub update_preprocessor-effect :
    (text : Text) (n : NestingState) → update_preprocessor text n ≡ effect (directive_of text) n
unfolding update_preprocessor effect directive_of
update_preprocessor-effect text n = elim (Bool-cases (matches if_directive text)) [
  | inl e ↦ rw e refl
  | inr e ↦ elim (Bool-cases (matches else_directive text)) [
    | inl f ↦ rw (e, f) refl
    | inr f ↦ elim (Bool-cases (matches endif_directive text)) [
      | inl g ↦ rw (e, f, g) refl
      | inr g ↦ rw (e, f, g) refl
    ]
  ]
]

stack_behind_all-append :
    (filename : Text) (clean_lines : CleansedLines) (is js : List ℕ) (stack : List Block)
    → stack_behind_all filename clean_lines (is ++ js) stack
      ≡ stack_behind_all filename clean_lines js (stack_behind_all filename clean_lines is stack)
unfolding stack_behind_all
stack_behind_all-append filename clean_lines [] js stack = refl
stack_behind_all-append filename clean_lines (i ∷ is) js stack =
    stack_behind_all-append filename clean_lines is js _

-- What an #else or #elif makes of a checkpoint
unfoldable pub at_alternative : PreprocessorInfo → List Block → PreprocessorInfo
at_alternative p stack =
    if p.seen_else then p else record p { seen_else = true; stack_before_else = stack }

-- The checkpoint and the stack behind the branches
unfoldable pub frame_behind :
    Text → CleansedLines → Branches → PreprocessorInfo → List Block → PreprocessorInfo × List Block
unfolding at_alternative
frame_behind filename clean_lines no_more p stack = (p, stack)
frame_behind filename clean_lines (branch i body more) p stack =
    frame_behind filename clean_lines more (at_alternative p stack) (
      stack_behind_all filename clean_lines (kept body)
        (stack_behind filename clean_lines i (get_or clean_lines.elided i []) p.stack_before_if))

first_stack-at_alternative :
    (p : PreprocessorInfo) (stack behind : List Block)
    → first_stack (at_alternative p stack) behind ≡ first_stack p stack
unfolding first_stack at_alternative
first_stack-at_alternative p stack behind = ground arith

-- The branches do not change what the first one left.
first_stack-frame_behind :
    (filename : Text) (clean_lines : CleansedLines) (x : Branches) (p : PreprocessorInfo)
    (stack : List Block)
    → first_stack
        (frame_behind filename clean_lines x p stack).0
        (frame_behind filename clean_lines x p stack).1
      ≡ first_stack p stack
unfolding frame_behind
first_stack-frame_behind filename clean_lines no_more p stack = refl
first_stack-frame_behind filename clean_lines (branch i body more) p stack =
    first_stack-frame_behind filename clean_lines more (at_alternative p stack) _
    ∙ first_stack-at_alternative p stack _

pub region_stacks :
    (filename : Text) (clean_lines : CleansedLines) (first : Region) (others : Branches) (e : ℕ)
    (more : Region) (stack one : List Block)
    → let next =
        frame_behind filename clean_lines others
          (opened stack)
          (stack_behind_all filename clean_lines (kept first) one) in
      stack_behind_all filename clean_lines (kept more) (
        stack_behind filename clean_lines e
          (get_or clean_lines.elided e [])
          (first_stack next.0 next.1))
      ≡ stack_behind_all filename clean_lines (kept first ++ e ∷ kept more) one
unfolding stack_behind_all
region_stacks filename clean_lines first others e more stack one =
    let two = stack_behind_all filename clean_lines (kept first) one in
    let same : first_stack (opened stack) two ≡ two = unfold first_stack opened in refl in
    ap
      (λ (x : List Block).
        stack_behind_all filename clean_lines (kept more)
          (stack_behind filename clean_lines e (get_or clean_lines.elided e []) x))
      (first_stack-frame_behind filename clean_lines others (opened stack) two ∙ same)
    ∙ sym (stack_behind_all-append filename clean_lines (kept first) (e ∷ kept more) one)
