-- ===== src/Cpplint/Driver/Tests.antt =====
-- Runs and instances of the theorems about the processing of files.
use cppecho.Prelude.{
  ◌≡◌, refl, not, Bool, true, false, List, [], ◌∷◌, ◌++◌, Option, none, some, pos, if◌then◌else◌,
}
use cppecho.Python.Str.{Text, codes, text_eq, strip, split, startswith, endswith, member, rstrip_by}
use cppecho.Python.Path.{path_split, path_join, dirname, abspath, normpath, slash_join, rfind_suc}
use cppecho.Cpplint.State.{
  apply_overrides, add_filters, restore_filters, backup_filters, set_verbose_level,
  reset_error_counts, print_error_counts, increment_error_count,
}
use cppecho.Cpplint.Report.{Linter, start, error, should_print_error}
use cppecho.Cpplint.Config.{Disk, absent, readable, partition, process_config_overrides, warn}
use cppecho.Cpplint.Driver.{
  Program, split_ends, check_line_ends, warn_crlf, file_extension, process_file, process_files,
  run_main,
}
use cppecho.Cpplint.Driver.LineEnds.{has_number, ends_in_return, split_ends_lem}
use cppecho.Cpplint.Driver.Restores.{process_files-filters}

abbrev disk : Disk
disk = record {
  cwd = codes "/w";
  config_at = λ path.
      if text_eq path (codes "/w/CPPLINT.cfg")
      then readable (codes "filter=+a,-whitespace/tab" ∷ [])
      else absent;
  pattern_matches = λ pattern name. some false;
}

-- One file with both kinds of line ends.
abbrev contents : Text → Option (List Text)
contents filename =
    if text_eq filename (codes "a.cc")
    then some (codes "int a;\r" ∷ codes "int b;" ∷ [] ∷ [])
    else none

-- A check that finds one error in each file.
abbrev one_error : Text → Text → List Text → Option Linter → Option Linter
one_error filename extension lines l =
    error filename 1 (codes "legal/copyright") 5 (codes "No copyright") l

abbrev program : Program
program = record {
  world = record {
    linter = start;
    line_length = pos 80;
    root = none;
    hpp_headers = codes "h" ∷ [];
    valid_extensions = codes "cc" ∷ codes "h" ∷ [];
  };
  stdout = [];
}

abbrev printed : Option (Program × Bool) → List Text × Bool
printed none = ([], false)
printed (some (p, failed)) = (p.world.linter.stderr ++ p.stdout, failed)

two_files :
    printed (run_main disk contents one_error (codes "a.cc" ∷ codes "b.cc" ∷ []) program) ≡ (
      codes "a.cc:1:  No copyright  [legal/copyright] [5]\n"
          ∷ codes
              "a.cc:1:  Unexpected \\r (^M) found; better to use only \\n  [whitespace/newline] [1]\n"
          ∷ codes "Skipping input 'b.cc': Can't open for reading\n"
          ∷ codes "Done processing a.cc\n"
          ∷ codes "Total errors found: 2\n"
          ∷ [],
      true,
    )
unfolding run_main process_files process_file process_config_overrides partition strip split
    startswith endswith text_eq path_split path_join dirname abspath normpath slash_join rfind_suc
    apply_overrides add_filters warn file_extension member check_line_ends warn_crlf split_ends
    rstrip_by error should_print_error increment_error_count restore_filters backup_filters
    set_verbose_level reset_error_counts print_error_counts
two_files = refl

abbrev nothing_found : Text → Text → List Text → Option Linter → Option Linter
nothing_found filename extension lines l = l

-- The program after a file that cannot be read, in a directory with filters of its own.
abbrev done : Program
done = record program {
  world = record program.world {
    linter = record start { stderr = codes "Skipping input 'b.cc': Can't open for reading\n" ∷ [] };
  };
}

process_files-filters_example : done.world.linter.state.filters ≡ program.world.linter.state.filters
unfolding process_files process_file process_config_overrides partition strip split startswith
    endswith text_eq path_split path_join dirname abspath normpath slash_join rfind_suc
    apply_overrides add_filters warn restore_filters backup_filters set_verbose_level
process_files-filters_example =
    process_files-filters disk contents nothing_found (λ filename extension lines l l' e. cc)
      (codes "b.cc" ∷ []) program done refl

split_ends_lem_example :
    (has_number 2
        (split_ends 1 (codes "int a;\r" ∷ codes "int b;\r" ∷ codes "int c;" ∷ [] ∷ [])).crlf_lines
      ≡ ends_in_return (codes "int b;\r"))
    × (has_number 2
          (split_ends 1 (codes "int a;\r" ∷ codes "int b;\r" ∷ codes "int c;" ∷ [] ∷ [])).lf_lines
        ≡ not (ends_in_return (codes "int b;\r")))
split_ends_lem_example =
    split_ends_lem 1 (codes "int a;\r" ∷ []) (codes "int b;\r") (codes "int c;") ([] ∷ [])
