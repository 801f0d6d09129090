-- ===== src/Cpplint/Nesting.antt =====
-- class NestingState of tools/cpplint/cpplint.py and the objects on its stack: _BlockInfo, _ExternCInfo,
-- _ClassInfo, _NamespaceInfo and _PreprocessorInfo. A stack has its top in front; the source's has it at
-- the end. An object is its value here, so that copy.deepcopy does nothing. previous_stack_top is the
-- value of the object when Update begins: of its fields, the program reads only the class and
-- check_namespace_indentation, which nothing changes.
mod Tests
pub mod Blocks
pub mod Templates
pub mod Update
use cppecho.Prelude.{
  ℕ, Bool, true, false, not, ◌||◌, List, [], ◌∷◌, ◌++◌, Option, none, some, ℤ, pos, if◌then◌else◌,
  reverse,
}
use cppecho.Python.Str.{Text, codes, decimal}
use cppecho.Python.Regex.{Regex, bol, star, space, lit, boundary, ◌▹◌, ◌∣∣◌, group, matches}
use cppecho.Cpplint.Report.{ErrorHandler}

-- _NO_ASM, _INSIDE_ASM, _END_ASM, _BLOCK_ASM
pub data Asm : Type 0 where
  no_asm inside_asm end_asm block_asm : Asm

-- The fields that _ClassInfo adds to _BlockInfo
pub record ClassInfo : Type 0 where
  pub name : Text
  pub is_derived : Bool
  pub is_struct : Bool
  pub access : Text
  pub class_indent : ℕ
  pub last_line : ℕ

-- The class of an object on the stack, with the fields that it adds
pub data Kind : Type 0 where
  block_info extern_c_info : Kind
  class_info : ClassInfo → Kind
  namespace_info : Text → Kind

pub record Block : Type 0 where
  pub kind : Kind
  pub starting_linenum : ℕ
  pub seen_open_brace : Bool
  pub open_parentheses : ℤ
  pub inline_asm : Asm
  pub check_namespace_indentation : Bool

-- The state at an #if
pub record PreprocessorInfo : Type 0 where
  pub stack_before_if : List Block
  pub stack_before_else : List Block
  pub seen_else : Bool

pub record NestingState : Type 0 where
  pub stack : List Block
  pub previous_stack_top : Option Block
  pub pp_stack : List PreprocessorInfo

-- __init__
abbrev pub init : NestingState
init = record { stack = []; previous_stack_top = none; pp_stack = [] }

-- `self.stack[-1]`, if there is one
unfoldable pub top : List Block → Option Block
top [] = none
top (b ∷ stack) = some b

-- SeenOpenBrace
unfoldable pub seen_open_brace : List Block → Bool
seen_open_brace [] = true
seen_open_brace (b ∷ stack) = b.seen_open_brace

unfoldable pub is_class : Kind → Bool
is_class (class_info c) = true
is_class _ = false

unfoldable pub is_namespace : Kind → Bool
is_namespace (namespace_info name) = true
is_namespace _ = false

-- _BlockInfo.IsBlockInfo
unfoldable pub is_block_info : Block → Bool
is_block_info b = elim b.kind [ block_info ↦ true | _ ↦ false ]

abbrev top_is : (Block → Bool) → List Block → Bool
top_is p [] = false
top_is p (b ∷ stack) = p b

-- InNamespaceBody, InExternC, InClassDeclaration, InAsmBlock
unfoldable pub in_namespace_body : NestingState → Bool
unfolding is_namespace
in_namespace_body n = top_is (λ b. is_namespace b.kind) n.stack

unfoldable pub in_extern_c : NestingState → Bool
in_extern_c n = top_is (λ b. elim b.kind [ extern_c_info ↦ true | _ ↦ false ]) n.stack

unfoldable pub in_class_declaration : NestingState → Bool
unfolding is_class
in_class_declaration n = top_is (λ b. is_class b.kind) n.stack

unfoldable pub in_asm_block : NestingState → Bool
in_asm_block n = top_is (λ b. elim b.inline_asm [ no_asm ↦ false | _ ↦ true ]) n.stack

innermost : List Block → Option Block
unfolding is_class
innermost [] = none
innermost (b ∷ stack) = if is_class b.kind then some b else innermost stack

-- InnermostClass
unfoldable pub innermost_class : NestingState → Option Block
unfolding innermost
innermost_class n = innermost n.stack

-- ^\s*#\s*(if|ifdef|ifndef)\b
abbrev pub if_directive : Regex
if_directive =
    bol
    ▹ star space
    ▹ lit "#"
    ▹ star space
    ▹ group 1 (lit "if" ∣∣ lit "ifdef" ∣∣ lit "ifndef")
    ▹ boundary

-- ^\s*#\s*(else|elif)\b
abbrev pub else_directive : Regex
else_directive =
    bol ▹ star space ▹ lit "#" ▹ star space ▹ group 1 (lit "else" ∣∣ lit "elif") ▹ boundary

-- ^\s*#\s*endif\b
abbrev pub endif_directive : Regex
endif_directive = bol ▹ star space ▹ lit "#" ▹ star space ▹ lit "endif" ▹ boundary

-- What the stack is kept for: the first #else keeps it, and every one goes back to the #if.
at_else : List PreprocessorInfo → NestingState → NestingState
at_else [] n = n
at_else (p ∷ pp_stack) n = record n {
  stack = p.stack_before_if;
  pp_stack =
      (if p.seen_else then p else record p { seen_else = true; stack_before_else = n.stack })
      ∷ pp_stack;
}

at_endif : List PreprocessorInfo → NestingState → NestingState
at_endif [] n = n
at_endif (p ∷ pp_stack) n = record n {
  stack = if p.seen_else then p.stack_before_else else n.stack;
  pp_stack = pp_stack;
}

-- UpdatePreprocessor
unfoldable pub update_preprocessor : Text → NestingState → NestingState
unfolding at_else at_endif
update_preprocessor line n =
    if matches if_directive line
    then record n {
      pp_stack =
          (record { stack_before_if = n.stack; stack_before_else = []; seen_else = false })
          ∷ n.pp_stack;
    }
    else if matches else_directive line
    then at_else n.pp_stack n
    else if matches endif_directive line
    then at_endif n.pp_stack n
    else n

module _ {ℓ} {S : Type ℓ} (error : ErrorHandler S) (filename : Text) where
  check_completed : Block → Kind → S → S
  check_completed b (class_info c) s =
      error filename b.starting_linenum (codes "build/class") 5
        (codes "Failed to find complete declaration of class " ++ c.name) s
  check_completed b (namespace_info name) s =
      error filename b.starting_linenum (codes "build/namespaces") 5
        (codes "Failed to find complete declaration of namespace " ++ name) s
  check_completed b _ s = s

  completed_each : List Block → S → S
  unfolding check_completed
  completed_each [] s = s
  completed_each (b ∷ blocks) s = completed_each blocks (check_completed b b.kind s)

  -- CheckCompletedBlocks, from the bottom of the stack
  unfoldable pub check_completed_blocks : NestingState → S → S
  unfolding completed_each
  check_completed_blocks n s = completed_each (reverse n.stack) s
