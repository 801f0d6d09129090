-- ===== src/Cpplint/Config.antt =====
-- ProcessConfigOverrides of tools/cpplint/cpplint.py: the CPPLINT.cfg files of the directories above a
-- file. What the disk holds and how `re` matches the pattern of an exclude_files line are parameters.
mod Tests
pub mod Walk
use cppecho.Prelude.{
  ℕ, zero, suc, ◌+◌, ◌-◌, ◌*◌, Bool, true, false, not, ◌&&◌, ◌||◌, List, [], ◌∷◌, ◌++◌, Option,
  none, some, ℤ, pos, negsuc, leb, ◌==◌, if◌then◌else◌, length, drop, all, reverse,
}
use cppecho.Python.Str.{Text, codes, text_eq, strip, split, member}
use cppecho.Python.Path.{path_split, path_join, dirname, abspath}
use cppecho.Python.Regex.{is_digit}
use cppecho.Cpplint.State.{CppLintState, apply_overrides}
use cppecho.Cpplint.Report.{Linter}

-- The settings that the files and the command line change, with the state of the reports.
pub record World : Type 0 where
  pub linter : Linter
  pub line_length : ℤ
  pub root : Option Text
  pub hpp_headers : List Text
  pub valid_extensions : List Text

-- A configuration file: not there, not to be opened, or its lines.
pub data ConfigFile : Type 0 where
  absent unreadable : ConfigFile
  readable : List Text → ConfigFile

-- The working directory, the files, and `re.compile(pattern).match(name)`, with none for an error in
-- the pattern.
pub record Disk : Type 0 where
  pub cwd : Text
  pub config_at : Text → ConfigFile
  pub pattern_matches : Text → Text → Option Bool

-- `s.partition(c)`: what stands before the first `c`, and behind it.
unfoldable pub partition : Text → ℕ → Text × Text
partition [] c = ([], [])
partition (d ∷ s) c =
    let (head, tail) = partition s c in if d == c then ([], s) else (d ∷ head, tail)

-- `int(s)`: a sign and digits, with none for a ValueError
digits_value : ℕ → Text → Option ℕ
digits_value n [] = some n
digits_value n (c ∷ s) =
    let rest = digits_value (n * 10 + (c - b'0')) s in if is_digit c then rest else none

negated : ℕ → ℤ
negated zero = pos 0
negated (suc n) = negsuc n

value_of : Text → Option ℕ
unfolding digits_value
value_of [] = none
value_of (c ∷ s) = digits_value 0 (c ∷ s)

with_sign : Text → Option ℤ
unfolding value_of negated
with_sign [] = none
with_sign (c ∷ s) =
    if c == b'-'
    then elim (value_of s) [ none ↦ none | some n ↦ some (negated n) ]
    else elim (value_of (if c == b'+' then s else c ∷ s)) [ none ↦ none | some n ↦ some (pos n) ]

unfoldable pub parse_int : Text → Option ℤ
unfolding with_sign strip
parse_int s = with_sign (strip s)

-- What the state is after a line to stderr.
unfoldable pub warn : Text → World → World
warn message w = record w { linter = record w.linter { stderr = w.linter.stderr ++ message ∷ [] } }

-- The elements of a list that are not in a set, which they join.
join_set : List Text → List Text → List Text
unfolding member
join_set set [] = set
join_set set (t ∷ ts) = join_set (if member t set then set else set ++ t ∷ []) ts

-- ProcessHppHeadersOption; a set is the list of its elements.
unfoldable pub process_hpp_headers_option : Text → World → World
unfolding join_set split
process_hpp_headers_option val w = record w {
  hpp_headers = join_set [] (split val b',');
  valid_extensions = join_set w.valid_extensions (join_set [] (split val b','));
}

-- The variables of the function while it reads a file.
pub record Overrides : Type 0 where
  pub world : World
  pub cfg_filters : List Text
  pub keep_looking : Bool

-- What a line does: the loop goes on, the function returns False, or an error in a pattern is raised.
pub data Flow : Type 0 where
  going : Overrides → Flow
  excluded : World → Flow
  raised : Flow

set_line_length : Option ℤ → World → World
unfolding warn
set_line_length none w = warn (codes "Line length must be numeric.") w
set_line_length (some n) w = record w { line_length = n }

module _ (disk : Disk) (filename : Text) where
  -- The message about a file that is excluded
  excluded_message : Text → Text → Text → Text
  excluded_message cfg_file base_name val =
      codes "Ignoring \""
      ++ filename
      ++ codes "\": file excluded by \""
      ++ cfg_file
      ++ codes "\". File path component \""
      ++ base_name
      ++ codes "\" matches pattern \""
      ++ val
      ++ codes "\"\n"

  exclude : Text → Text → Text → Overrides → Option Bool → Flow
  unfolding warn excluded_message
  exclude cfg_file base_name val o none = raised
  exclude cfg_file base_name val o (some false) = going o
  exclude cfg_file base_name val o (some true) = excluded (
      if o.world.linter.state.quiet
      then o.world
      else warn (excluded_message cfg_file base_name val) o.world)

  -- The branches on the name of an option
  set_option : Text → Text → Text → Text → Overrides → Flow
  unfolding text_eq exclude set_line_length warn process_hpp_headers_option path_join dirname
      parse_int
  set_option cfg_file base_name name val o =
      if text_eq name (codes "set noparent")
      then going (record o { keep_looking = false })
      else if text_eq name (codes "filter")
      then going (record o { cfg_filters = o.cfg_filters ++ val ∷ [] })
      else if text_eq name (codes "exclude_files")
      then exclude cfg_file base_name val o (disk.pattern_matches val base_name)
      else if text_eq name (codes "linelength")
      then going (record o { world = set_line_length (parse_int val) o.world })
      else if text_eq name (codes "root")
      then going
          (record o { world = record o.world { root = some (path_join (dirname cfg_file) val) } })
      else if text_eq name (codes "headers")
      then going (record o { world = process_hpp_headers_option val o.world })
      else going (record o {
        world =
            warn
              (codes "Invalid configuration option ("
                ++ name
                ++ codes ") in file "
                ++ cfg_file
                ++ codes "\n")
              o.world;
      })

  -- One line of a file
  unfoldable pub config_line : Text → Text → Text → Overrides → Flow
  unfolding set_option partition strip text_eq
  config_line cfg_file base_name line o =
      let text = (partition line b'#').0 in
      let (name, val) = partition text b'=' in
      if text_eq (strip text) []
      then going o
      else set_option cfg_file base_name (strip name) (strip val) o

  -- The lines of a file
  unfoldable pub config_lines : Text → Text → List Text → Flow → Flow
  unfolding config_line
  config_lines cfg_file base_name [] f = f
  config_lines cfg_file base_name (line ∷ lines) (going o) =
      config_lines cfg_file base_name lines (config_line cfg_file base_name line o)
  config_lines cfg_file base_name (line ∷ lines) (excluded w) = excluded w
  config_lines cfg_file base_name (line ∷ lines) raised = raised

  read_config : Text → Text → ConfigFile → Overrides → Flow
  unfolding config_lines warn
  read_config cfg_file base_name absent o = going o
  read_config cfg_file base_name unreadable o = going (record o {
    world =
        warn (codes "Skipping config file '" ++ cfg_file ++ codes "': Can't open for reading\n")
          o.world;
    keep_looking = false;
  })
  read_config cfg_file base_name (readable lines) o =
      config_lines cfg_file base_name lines (going o)

  -- The loop over the directories, on fuel; none means that it ran out.
  pub walk : ℕ → Text → Flow → Option Flow
  unfolding read_config path_split path_join text_eq
  walk zero abs_filename f = none
  walk (suc fuel) abs_filename (excluded w) = some (excluded w)
  walk (suc fuel) abs_filename raised = some raised
  walk (suc fuel) abs_filename (going o) =
      let (abs_path, base_name) = path_split abs_filename in
      let cfg_file = path_join abs_path (codes "CPPLINT.cfg") in
      let next = walk fuel abs_path (read_config cfg_file base_name (disk.config_at cfg_file) o) in
      if not o.keep_looking || text_eq base_name [] then some (going o) else next

-- The answer of the function and the state it leaves; none is an exception.
apply_filters : World → CppLintState × Option Text → Option (World × Bool)
apply_filters w (s, none) = some (record w { linter = record w.linter { state = s } }, true)
apply_filters w (s, some message) = none

answer : Option Flow → Option (World × Bool)
unfolding apply_filters apply_overrides
answer none = none
answer (some raised) = none
answer (some (excluded w)) = some (w, false)
answer (some (going o)) =
    apply_filters o.world (apply_overrides (reverse o.cfg_filters) o.world.linter.state)

-- ProcessConfigOverrides
unfoldable pub process_config_overrides : Disk → Text → World → Option (World × Bool)
unfolding walk answer abspath
process_config_overrides disk filename w =
    let abs_filename = abspath disk.cwd filename in
    answer (
      walk disk filename (length abs_filename + 1) abs_filename
        (going (record { world = w; cfg_filters = []; keep_looking = true })))
