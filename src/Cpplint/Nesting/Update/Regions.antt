-- ===== src/Cpplint/Nesting/Update/Regions.antt =====
-- Lines with #if, #else, #elif and #endif, as NestingState of tools/cpplint/cpplint.py reads them: "Preprocessor
-- condition evaluates to true from #if up to first #else/#elif/#endif".
use cppecho.Prelude.{
  ℕ, ◌≡◌, List, [], ◌∷◌, ◌++◌, Option, some, get_elem?, get_or, ◌>>=◌, if◌then◌else◌,
}
use cppecho.Python.Str.{Text}
use cppecho.Python.Regex.{matches}
use cppecho.Cpplint.Report.{ErrorHandler}
use cppecho.Cpplint.Cleanse.Lines.{CleansedLines}
use cppecho.Cpplint.Nesting.{Block, NestingState, if_directive, else_directive, endif_directive}
use cppecho.Cpplint.Nesting.Update.{update}
use cppecho.Cpplint.Nesting.Update.Stacks.{stack_behind}

-- What a line is to the preprocessor
pub data Directive : Type 0 where
  opening alternative closing other : Directive

unfoldable pub directive_of : Text → Directive
directive_of line =
    if matches if_directive line
    then opening
    else if matches else_directive line
    then alternative
    else if matches endif_directive line
    then closing
    else other

-- Lines in which every #if has its #endif, by their numbers: other lines, and conditionals with a first
-- branch and any number of others.
mutual
  pub data Region : Type 0 where
    end : Region
    plain : ℕ → Region → Region
    conditional : ℕ → Region → Branches → ℕ → Region → Region

  pub data Branches : Type 0 where
    no_more : Branches
    branch : ℕ → Region → Branches → Branches

unfoldable mutual
  -- All the lines, in their order
  pub lines_of : Region → List ℕ
  lines_of end = []
  lines_of (plain i more) = i ∷ lines_of more
  lines_of (conditional i first others e more) =
      i ∷ (lines_of first ++ (lines_of_branches others ++ (e ∷ lines_of more)))

  pub lines_of_branches : Branches → List ℕ
  lines_of_branches no_more = []
  lines_of_branches (branch i body more) = i ∷ (lines_of body ++ lines_of_branches more)

-- The lines with the branches from the first #else or #elif on left out
unfoldable pub kept : Region → List ℕ
kept end = []
kept (plain i more) = i ∷ kept more
kept (conditional i first others e more) = i ∷ (kept first ++ (e ∷ kept more))

-- A line of the file is this to the preprocessor.
abbrev pub Is : List Text → Directive → ℕ → Type 0
Is elided d i = (text : Text) × (get_elem? elided i ≡ some text) × (directive_of text ≡ d)

unfoldable mutual
  -- The lines of the file are what the region says.
  pub Fits : List Text → Region → Type 0
  Fits elided end = Unit
  Fits elided (plain i more) = Is elided other i × Fits elided more
  Fits elided (conditional i first others e more) =
      Is elided opening i
      × Fits elided first
      × FitsBranches elided others
      × Is elided closing e
      × Fits elided more

  pub FitsBranches : List Text → Branches → Type 0
  FitsBranches elided no_more = Unit
  FitsBranches elided (branch i body more) =
      Is elided alternative i × Fits elided body × FitsBranches elided more

-- The stacks behind lines that no preprocessor looks at
unfoldable pub stack_behind_all : Text → CleansedLines → List ℕ → List Block → List Block
stack_behind_all filename clean_lines [] stack = stack
stack_behind_all filename clean_lines (i ∷ is) stack =
    stack_behind_all filename clean_lines is
      (stack_behind filename clean_lines i (get_or clean_lines.elided i []) stack)

-- Update on these lines, one after the other
unfoldable pub update_all {ℓ} :
    {S : Type ℓ} (error : ErrorHandler S)
    → Text
    → CleansedLines
    → List ℕ
    → NestingState
    → S
    → Option (NestingState × S)
unfolding update
update_all error filename clean_lines [] n s = some (n, s)
update_all error filename clean_lines (i ∷ is) n s =
    update error filename clean_lines i n s >>= λ r.
    update_all error filename clean_lines is r.0 r.1
