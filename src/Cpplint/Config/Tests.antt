-- ===== src/Cpplint/Config/Tests.antt =====
-- Runs and instances of the theorems about configuration files.
use cppecho.Prelude.{
  ◌+◌, ◌≡◌, refl, Bool, true, false, List, [], ◌∷◌, ◌++◌, Option, none, some, pos, negsuc, length,
  if◌then◌else◌,
}
use cppecho.Python.Str.{Text, codes, text_eq, strip, split, startswith, endswith}
use cppecho.Python.Path.{path_split, path_join, dirname, abspath, normpath, slash_join, rfind_suc}
use cppecho.Cpplint.State.{default_filters, apply_overrides, add_filters}
use cppecho.Cpplint.Report.{start}
use cppecho.Cpplint.Config.{
  World, Disk, absent, readable, Flow, going, walk, parse_int, partition, process_config_overrides,
}
use cppecho.Cpplint.Config.Walk.{OnlyFilters, walk-some, process_config_overrides-OnlyFilters}

abbrev world : World
world = record {
  linter = start;
  line_length = pos 80;
  root = none;
  hpp_headers = codes "h" ∷ [];
  valid_extensions = codes "cc" ∷ codes "h" ∷ [];
}

-- A repository with a configuration file at its top, and one for its generated files.
abbrev disk : Disk
disk = record {
  cwd = codes "/w";
  config_at = λ path.
      if text_eq path (codes "/w/CPPLINT.cfg")
      then readable (
          codes "set noparent"
          ∷ codes "filter=-build/c++11 # boost"
          ∷ codes "linelength=100"
          ∷ codes "exclude_files=gen"
          ∷ [])
      else absent;
  pattern_matches = λ pattern name. some (text_eq pattern name);
}

numbers :
    (parse_int (codes " 80 ") ≡ some (pos 80))
    × (parse_int (codes "-1") ≡ some (negsuc 0))
    × (parse_int (codes "80x") ≡ none)
unfolding parse_int strip
numbers = (refl, refl, refl)

abbrev filters_of : Option (World × Bool) → List Text
filters_of none = []
filters_of (some (w, b)) = w.linter.state.filters

abbrev goes_on : Option (World × Bool) → Bool
goes_on none = false
goes_on (some (w, b)) = b

overridden :
    (filters_of (process_config_overrides disk (codes "core/io.cc") world)
      ≡ default_filters ++ codes "-build/c++11" ∷ [])
    × (goes_on (process_config_overrides disk (codes "core/io.cc") world) ≡ true)
    × (goes_on (process_config_overrides disk (codes "gen/io.cc") world) ≡ false)
unfolding process_config_overrides walk partition strip split startswith endswith text_eq path_split
    path_join dirname abspath normpath slash_join rfind_suc apply_overrides add_filters parse_int
overridden = (refl, refl, refl)

walk-some_example :
    (f : Flow) × (walk disk
        (codes "io.cc")
        (length (codes "/w/io.cc") + 1)
        (codes "/w/io.cc")
        (going (record { world = world; cfg_filters = []; keep_looking = true }))
      ≡ some f)
walk-some_example = walk-some disk (codes "io.cc") world (codes "/w/io.cc")

abbrev after : World
after = record world {
  line_length = pos 100;
  linter = record start {
    state = record start.state { filters = default_filters ++ codes "-build/c++11" ∷ [] };
  };
}

process_config_overrides-OnlyFilters_example :
    OnlyFilters start.state after.linter.state
    × (after.linter.suppressions ≡ start.suppressions)
    × (true ≡ false → after.linter.state ≡ start.state)
unfolding process_config_overrides walk partition strip split startswith endswith text_eq path_split
    path_join dirname abspath normpath slash_join rfind_suc apply_overrides add_filters parse_int
process_config_overrides-OnlyFilters_example =
    process_config_overrides-OnlyFilters disk (codes "core/io.cc") world after true refl
