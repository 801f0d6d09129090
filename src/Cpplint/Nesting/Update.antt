-- ===== src/Cpplint/Nesting/Update.antt =====
-- NestingState.Update of tools/cpplint/cpplint.py, in the parts that its comments name.
pub mod Access
pub mod Total
pub mod Stacks
pub mod Braces
pub mod Balanced
pub mod Regions
pub mod Conditionals
pub mod Frames
use cppecho.Prelude.{
  ℕ, zero, suc, ◌+◌, Bool, true, false, not, ◌&&◌, ◌||◌, List, [], ◌∷◌, ◌++◌, Option, none, some, ℤ,
  pos, sub_ℕ, ◌+ℤ◌, eqb_ℤ, ◌==◌, if◌then◌else◌, length, get_elem?, drop, ◌>>=◌,
}
use cppecho.Python.Str.{Text, codes, count, find}
use cppecho.Python.Regex.{
  Regex, Found, set, star, plus, space, word, is_word, lit, bol, eol, dot, boundary, group, opt,
  one_of, none_of, ◌▹◌, ◌∣∣◌, re_match, group_of, group_text, or_empty, matches,
}
use cppecho.Cpplint.Report.{ErrorHandler}
use cppecho.Cpplint.Cleanse.Lines.{CleansedLines}
use cppecho.Cpplint.Nesting.{
  Block, Kind, ClassInfo, class_info, NestingState, Asm, no_asm, inside_asm, end_asm, block_asm,
  top, seen_open_brace, update_preprocessor,
}
use cppecho.Cpplint.Nesting.Blocks.{
  new_block, new_extern_c, new_namespace, new_class, check_begin, check_end,
}
use cppecho.Cpplint.Nesting.Templates.{in_template_argument_list}
use cppecho.Cpplint.Nesting.Update.Access.{check_access}

-- _MATCH_ASM
abbrev pub match_asm : Regex
match_asm =
    bol
    ▹ star space
    ▹ (lit "asm" ∣∣ lit "_asm" ∣∣ lit "__asm" ∣∣ lit "__asm__")
    ▹ opt (plus space ▹ group 1 (lit "volatile" ∣∣ lit "__volatile__"))
    ▹ star space
    ▹ one_of "{("

-- The state of inline assembly behind a line with this change of depth
next_asm : Asm → Text → ℤ → ℤ → Asm
next_asm inside_asm line depth_change depth = if eqb_ℤ depth (pos 0) then end_asm else inside_asm
next_asm block_asm line depth_change depth = block_asm
next_asm _ line depth_change depth =
    if not (eqb_ℤ depth_change (pos 0)) && eqb_ℤ depth (pos 1) && matches match_asm line
    then inside_asm
    else no_asm

count_inner : Text → ℤ → Block → Block
unfolding next_asm
count_inner line depth_change b =
    let depth = b.open_parentheses +ℤ depth_change in
    record b {
      open_parentheses = depth;
      inline_asm = next_asm b.inline_asm line depth_change depth;
    }

-- The parentheses of the line, for the innermost block
unfoldable pub count_parentheses : Text → List Block → List Block
unfolding count_inner count
count_parentheses line [] = []
count_parentheses line (b ∷ stack) =
    count_inner line (sub_ℕ (count line (codes "(")) (count line (codes ")"))) b ∷ stack

-- ^\s*namespace\b\s*([:\w]+)?(.*)$
abbrev pub namespace_decl : Regex
namespace_decl =
    bol
    ▹ star space
    ▹ lit "namespace"
    ▹ boundary
    ▹ star space
    ▹ opt (group 1 (plus (set (λ c. is_word c || c == 58))))
    ▹ group 2 (star dot)
    ▹ eol

after_brace : Text → Option ℕ → Text
after_brace line none = line
after_brace line (some i) = drop (i + 1) line

has_brace : Option ℕ → Bool
has_brace none = false
has_brace (some i) = true

-- The loop over the namespaces at the beginning of the line: what is left of it, and the stack. None
-- means that the fuel ran out.
pub consume_namespaces : ℕ → ℕ → Text → List Block → Option (Text × List Block)
unfolding new_namespace after_brace has_brace find group_of group_text
consume_namespaces zero linenum line stack = none
consume_namespaces (suc fuel) linenum line stack = elim (re_match namespace_decl line) [
  | none ↦ some (line, stack)
  | some m ↦
      consume_namespaces fuel linenum
        (after_brace (group_text m 2) (find (group_text m 2) (codes "{")))
        (new_namespace (or_empty (group_of m 1)) linenum
            (has_brace (find (group_text m 2) (codes "{")))
          ∷ stack)
]

-- ^(\s*(?:template\s*<[\w\s<>,:]*>\s*)?(class|struct)\s+(?:[A-Z_]+\s+)*(\w+(?:::\w+)*))(.*)$
abbrev pub class_decl : Regex
class_decl =
    bol
    ▹ group 1 (
        star space
        ▹ opt (
            lit "template"
            ▹ star space
            ▹ lit "<"
            ▹ star (word ∣∣ space ∣∣ one_of "<>,:")
            ▹ lit ">"
            ▹ star space)
        ▹ group 2 (lit "class" ∣∣ lit "struct")
        ▹ plus space
        ▹ star (plus (one_of "ABCDEFGHIJKLMNOPQRSTUVWXYZ_") ▹ plus space)
        ▹ group 3 (plus word ▹ star (lit "::" ▹ plus word)))
    ▹ group 4 (star dot)
    ▹ eol

no_parentheses : List Block → Bool
no_parentheses [] = true
no_parentheses (b ∷ stack) = eqb_ℤ b.open_parentheses (pos 0)

declare_class : CleansedLines → ℕ → Text → List Block → Option Found → Option (Text × List Block)
unfolding no_parentheses new_class in_template_argument_list group_text
declare_class clean_lines linenum line stack none = some (line, stack)
declare_class clean_lines linenum line stack (some m) =
    if no_parentheses stack
    then (do
      inside ← in_template_argument_list clean_lines.elided linenum (length (group_text m 1))
      some (
          if inside then (line, stack) else (
            group_text m 4,
            new_class (group_text m 3) (group_text m 2) clean_lines linenum ∷ stack,
          )))
    else some (line, stack)

-- A class declaration in what is left of the line. None is that of InTemplateArgumentList.
pub consume_class : CleansedLines → ℕ → Text → List Block → Option (Text × List Block)
unfolding declare_class
consume_class clean_lines linenum line stack =
    declare_class clean_lines linenum line stack (re_match class_decl line)

-- CheckBegin of the innermost block, while its brace is not seen
unfoldable pub begin_top : Text → List Block → List Block
unfolding check_begin
begin_top line [] = []
begin_top line (b ∷ stack) = if b.seen_open_brace then b ∷ stack else check_begin line b ∷ stack

-- ^[^{;)}]*([{;)}])(.*)$
abbrev pub next_brace : Regex
next_brace = bol ▹ star (none_of "{;)}") ▹ group 1 (one_of "{;)}") ▹ group 2 (star dot) ▹ eol

-- ^extern\s*"[^"]*"\s*\{
abbrev pub extern_c : Regex
extern_c =
    bol
    ▹ lit "extern"
    ▹ star space
    ▹ lit "\""
    ▹ star (none_of "\"")
    ▹ lit "\""
    ▹ star space
    ▹ lit "{"

-- `{`, where `line` begins behind the token before it
unfoldable pub open_brace : ℕ → Text → List Block → List Block
unfolding new_extern_c new_block
open_brace linenum line stack =
    if matches extern_c line
    then new_extern_c linenum ∷ stack
    else new_block linenum (matches match_asm line) ∷ stack

module _ {ℓ} {S : Type ℓ} (error : ErrorHandler S) (filename : Text) where
  -- What the token does to the stack, and what it reports
  pub token_step : CleansedLines → ℕ → Text → ℕ → List Block → S → List Block × S
  unfolding open_brace check_end
  token_step clean_lines linenum line token [] s =
      (if token == b'{' then open_brace linenum line [] else [], s)
  token_step clean_lines linenum line token (b ∷ stack) s =
      if token == b'{'
      then (if b.seen_open_brace
          then (open_brace linenum line (b ∷ stack), s)
          else (record b { seen_open_brace = true } ∷ stack, s))
      else if token == b';' || token == b')'
      then (if b.seen_open_brace then (b ∷ stack, s) else (stack, s))
      else (stack, check_end error filename b clean_lines linenum s)

  -- The loop over the braces and semicolons. None means that the fuel ran out.
  pub consume_braces : ℕ → CleansedLines → ℕ → Text → List Block → S → Option (List Block × S)
  unfolding token_step group_text
  consume_braces zero clean_lines linenum line stack s = none
  consume_braces (suc fuel) clean_lines linenum line stack s = elim (re_match next_brace line) [
    | none ↦ some (stack, s)
    | some m ↦ elim (group_text m 1) [
      | [] ↦ none
      | token ∷ _ ↦
          let (next, t) = token_step clean_lines linenum line token stack s in
          consume_braces fuel clean_lines linenum (group_text m 2) next t
    ]
  ]

  with_stack : NestingState → Option (List Block × S) → Option (NestingState × S)
  with_stack n none = none
  with_stack n (some (stack, s)) = some (record n { stack = stack }, s)

  -- The stack behind the line, from the one that the preprocessor leaves.
  unfoldable pub update_stack : CleansedLines → ℕ → Text → List Block → S → Option (List Block × S)
  unfolding count_parentheses consume_namespaces consume_class begin_top check_access consume_braces
  update_stack clean_lines linenum line stack s = do
    (behind_namespaces, with_namespaces) ←
        consume_namespaces (length line + 1) linenum line (count_parentheses line stack)
    (behind_class, with_class) ← consume_class clean_lines linenum behind_namespaces with_namespaces
    let (checked, t) =
        check_access error filename linenum behind_class (begin_top line with_class) s
    consume_braces (length behind_class + 1) clean_lines linenum behind_class checked t

  -- Update; none is an IndexError, or means that the fuel of a loop ran out.
  unfoldable pub update : CleansedLines → ℕ → NestingState → S → Option (NestingState × S)
  unfolding update_preprocessor update_stack with_stack top
  update clean_lines linenum n s = do
    line ← get_elem? clean_lines.elided linenum
    let ready = update_preprocessor line (record n { previous_stack_top = top n.stack })
    with_stack ready (update_stack clean_lines linenum line ready.stack s)
