-- ===== src/Cpplint/Driver.antt =====
-- ProcessFile and main of tools/cpplint/cpplint.py after the command line is parsed. The checks of a
-- file's lines, ProcessFileData, are a parameter: any function of the file's name, extension and lines
-- on the state of the reports. None as a state is an exception, which ends the program.
mod Tests
pub mod LineEnds
pub mod Restores
use cppecho.Prelude.{
  ℕ, zero, suc, ◌+◌, ◌-◌, Bool, true, false, not, ◌&&◌, ◌||◌, List, [], ◌∷◌, ◌++◌, Option, none,
  some, ℤ, ltb, ◌==◌, if◌then◌else◌, length, take, drop, ◌>>=◌,
}
use cppecho.Python.Str.{Text, codes, text_eq, endswith, rstrip_by, member}
use cppecho.Python.Path.{rfind_suc}
use cppecho.Cpplint.State.{
  CppLintState, set_verbose_level, backup_filters, restore_filters, reset_error_counts,
  print_error_counts,
}
use cppecho.Cpplint.Report.{Linter, error}
use cppecho.Cpplint.Config.{World, Disk, warn, process_config_overrides}

-- What is printed to stdout, beside the rest.
pub record Program : Type 0 where
  pub world : World
  pub stdout : List Text

-- The lines without their trailing carriage returns, and the numbers of the lines that have one and of
-- those that have none; the last line, behind the last line feed, is left as it is.
pub record Ends : Type 0 where
  pub lines : List Text
  pub crlf_lines : List ℕ
  pub lf_lines : List ℕ

unfoldable pub split_ends : ℕ → List Text → Ends
unfolding endswith rstrip_by
split_ends n [] = record { lines = []; crlf_lines = []; lf_lines = [] }
split_ends n (last ∷ []) = record { lines = last ∷ []; crlf_lines = []; lf_lines = [] }
split_ends n (line ∷ next ∷ lines) =
    let rest = split_ends (n + 1) (next ∷ lines) in
    if endswith line (codes "\r")
    then record {
      lines = rstrip_by (λ c. c == 13) line ∷ rest.lines;
      crlf_lines = n ∷ rest.crlf_lines;
      lf_lines = rest.lf_lines;
    }
    else record {
      lines = line ∷ rest.lines;
      crlf_lines = rest.crlf_lines;
      lf_lines = n ∷ rest.lf_lines;
    }

abbrev pub carriage_return_message : Text
carriage_return_message = codes "Unexpected \\r (^M) found; better to use only \\n"

-- The warnings for the lines with carriage returns
unfoldable pub warn_crlf : Text → List ℕ → Option Linter → Option Linter
unfolding error
warn_crlf filename [] l = l
warn_crlf filename (linenum ∷ linenums) l =
    warn_crlf filename linenums
      (error filename linenum (codes "whitespace/newline") 1 carriage_return_message l)

mixed : Text → List ℕ → List ℕ → Option Linter → Option Linter
unfolding warn_crlf
mixed filename (f ∷ fs) (c ∷ cs) l = warn_crlf filename (c ∷ cs) l
mixed filename _ _ l = l

-- `if lf_lines and crlf_lines:`
unfoldable pub check_line_ends : Text → Ends → Option Linter → Option Linter
unfolding mixed
check_line_ends filename ends l = mixed filename ends.lf_lines ends.crlf_lines l

-- `filename[filename.rfind('.') + 1:]`
unfoldable pub file_extension : Text → Text
unfolding rfind_suc
file_extension filename = drop (rfind_suc filename b'.') filename

joined : List Text → Text
joined [] = []
joined (e ∷ []) = e
joined (e ∷ f ∷ es) = e ++ codes ", " ++ joined (f ∷ es)

with_linter : World → Option Linter → Option World
with_linter w none = none
with_linter w (some l) = some (record w { linter = l })

-- _RestoreFilters, and the setters at the beginning
pub restored : World → World
unfolding restore_filters
restored w = record w { linter = record w.linter { state = restore_filters w.linter.state } }

pub prepared : ℤ → World → World
unfolding set_verbose_level backup_filters
prepared vlevel w = record w {
  linter = record w.linter { state = backup_filters (set_verbose_level vlevel w.linter.state).0 };
}

module _ (disk : Disk) (read : Text → Option (List Text))
    (process_file_data : Text → Text → List Text → Option Linter → Option Linter) where
  -- The checks of a file that was read
  check_file : Text → Ends → World → Option World
  unfolding file_extension check_line_ends warn with_linter joined member text_eq
  check_file filename ends w =
      if not (text_eq filename (codes "-"))
        && not (member (file_extension filename) w.valid_extensions)
      then some (
          warn
            (codes "Ignoring "
              ++ filename
              ++ codes "; not a valid file name ("
              ++ joined w.valid_extensions
              ++ codes ")\n")
            w)
      else with_linter w (
          check_line_ends filename ends
            (process_file_data filename (file_extension filename) ends.lines (some w.linter)))

  -- The last message, and the filters
  finish : Text → ℕ → List Text → World → Program
  unfolding restored
  finish filename old_errors stdout w = record {
    world = restored w;
    stdout =
        if not w.linter.state.quiet || not (old_errors == w.linter.state.error_count)
        then stdout ++ (codes "Done processing " ++ filename ++ codes "\n") ∷ []
        else stdout;
  }

  finish_checked : Text → ℕ → List Text → Option World → Option Program
  unfolding finish
  finish_checked filename old_errors stdout none = none
  finish_checked filename old_errors stdout (some w) = some (finish filename old_errors stdout w)

  process_lines : Text → ℕ → List Text → World → Option (List Text) → Option Program
  unfolding finish_checked check_file split_ends warn restored
  process_lines filename old_errors stdout w none = some (record {
    world =
        restored
          (warn (codes "Skipping input '" ++ filename ++ codes "': Can't open for reading\n") w);
    stdout = stdout;
  })
  process_lines filename old_errors stdout w (some lines) =
      finish_checked filename old_errors stdout (check_file filename (split_ends 1 lines) w)

  process_configured : Text → ℕ → List Text → Option (World × Bool) → Option Program
  unfolding process_lines restored
  process_configured filename old_errors stdout none = none
  process_configured filename old_errors stdout (some (w, false)) =
      some (record { world = restored w; stdout = stdout })
  process_configured filename old_errors stdout (some (w, true)) =
      process_lines filename old_errors stdout w (read filename)

  -- ProcessFile
  unfoldable pub process_file : Text → ℤ → Program → Option Program
  unfolding process_configured process_config_overrides prepared
  process_file filename vlevel p =
      process_configured filename p.world.linter.state.error_count p.stdout
        (process_config_overrides disk filename (prepared vlevel p.world))

  -- The loop of main, with `_cpplint_state.verbose_level` for each file
  unfoldable pub process_files : List Text → Program → Option Program
  unfolding process_file
  process_files [] p = some p
  process_files (filename ∷ filenames) p = do
    q ← process_file filename p.world.linter.state.verbose_level p
    process_files filenames q

  -- PrintErrorCounts
  print_counts : Program → Program
  unfolding print_error_counts
  print_counts p = record p {
    world = record p.world {
      linter = record p.world.linter {
        stderr = p.world.linter.stderr ++ (print_error_counts p.world.linter.state).0;
      };
    };
    stdout = p.stdout ++ (print_error_counts p.world.linter.state).1 ∷ [];
  }

  counted : Program → Program × Bool
  unfolding print_counts
  counted p = (
    if not p.world.linter.state.quiet || ltb 0 p.world.linter.state.error_count
        then print_counts p
        else p,
    ltb 0 p.world.linter.state.error_count,
  )

  -- main behind ParseArguments: what is left, and whether the exit status is 1
  unfoldable pub run_main : List Text → Program → Option (Program × Bool)
  unfolding process_files counted reset_error_counts
  run_main filenames p = do
    q ← process_files filenames (record p {
      world = record p.world {
        linter = record p.world.linter { state = reset_error_counts p.world.linter.state };
      };
    })
    some (counted q)
