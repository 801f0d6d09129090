-- ===== src/Cpplint/Driver/Restores.antt =====
-- ProcessFile leaves the filters as it finds them.
use cppecho.Prelude.{
  ℕ, ◌≡◌, refl, ap, ◌∙◌, Bool, true, false, not, ◌&&◌, List, [], ◌∷◌, Option, none, some, ℤ,
  Bool-cases, inl, inr, subst, ◌>>=◌,
}
use cppecho.Python.Str.{Text, codes, text_eq, member}
use cppecho.Cpplint.State.{CppLintState, restore_filters, backup_filters, set_verbose_level}
use cppecho.Cpplint.Report.{Linter, error}
use cppecho.Cpplint.Report.Effect.{error-filters_backup}
use cppecho.Cpplint.Config.{World, Disk, warn, process_config_overrides}
use cppecho.Cpplint.Config.Walk.{process_config_overrides-OnlyFilters}
use cppecho.Cpplint.Driver.{
  Program, Ends, split_ends, carriage_return_message, warn_crlf, mixed, check_line_ends,
  file_extension, with_linter, restored, prepared, check_file, finish, finish_checked,
  process_lines, process_configured, process_file, process_files,
}

-- The backup of a state, if the program has not ended.
abbrev HasBackup : List Text → Option Linter → Type 0
HasBackup fs none = Unit
HasBackup fs (some l) = l.state.filters_backup ≡ fs

error-HasBackup :
    (filename : Text) (linenum : ℕ) (category : Text) (confidence : ℕ) (message : Text)
    (fs : List Text) (l : Option Linter)
    → HasBackup fs l
    → HasBackup fs (error filename linenum category confidence message l)
error-HasBackup filename linenum category confidence message fs none h = unfold error in tt
error-HasBackup filename linenum category confidence message fs (some l) h =
    put (error filename linenum category confidence message (some l)) refl
  where
    put :
        (r : Option Linter)
        → error filename linenum category confidence message (some l) ≡ r
        → HasBackup fs r
    put none e = tt
    put (some l') e = error-filters_backup filename linenum category confidence message l l' e ∙ h

warn_crlf-HasBackup :
    (filename : Text) (linenums : List ℕ) (fs : List Text) (l : Option Linter)
    → HasBackup fs l
    → HasBackup fs (warn_crlf filename linenums l)
unfolding warn_crlf
warn_crlf-HasBackup filename [] fs l h = h
warn_crlf-HasBackup filename (n ∷ ns) fs l h =
    warn_crlf-HasBackup filename ns fs
      (error filename n (codes "whitespace/newline") 1 carriage_return_message l)
      (error-HasBackup filename n (codes "whitespace/newline") 1 carriage_return_message fs l h)

mixed-HasBackup :
    (filename : Text) (lfs crlfs : List ℕ) (fs : List Text) (l : Option Linter)
    → HasBackup fs l
    → HasBackup fs (mixed filename lfs crlfs l)
unfolding mixed
mixed-HasBackup filename [] crlfs fs l h = h
mixed-HasBackup filename (f ∷ lfs) [] fs l h = h
mixed-HasBackup filename (f ∷ lfs) (c ∷ crlfs) fs l h =
    warn_crlf-HasBackup filename (c ∷ crlfs) fs l h

abbrev WorldHasBackup : List Text → Option World → Type 0
WorldHasBackup fs none = Unit
WorldHasBackup fs (some w) = w.linter.state.filters_backup ≡ fs

with_linter-WorldHasBackup :
    (fs : List Text) (w : World) (l : Option Linter)
    → HasBackup fs l
    → WorldHasBackup fs (with_linter w l)
unfolding with_linter
with_linter-WorldHasBackup fs w none h = tt
with_linter-WorldHasBackup fs w (some l) h = h

-- The filters that are left, if the program has not ended.
abbrev HasFilters : List Text → Option Program → Type 0
HasFilters fs none = Unit
HasFilters fs (some p) = p.world.linter.state.filters ≡ fs

restored-filters :
    (fs : List Text) (w : World)
    → w.linter.state.filters_backup ≡ fs
    → (restored w).linter.state.filters ≡ fs
unfolding restored restore_filters
restored-filters fs w h = h

abbrev backup_of : CppLintState → List Text
backup_of s = s.filters_backup

prepared-backup :
    (vlevel : ℤ) (w : World)
    → (prepared vlevel w).linter.state.filters_backup ≡ w.linter.state.filters
unfolding prepared backup_filters set_verbose_level
prepared-backup vlevel w = refl

module _ (disk : Disk) (read : Text → Option (List Text))
    (process_file_data : Text → Text → List Text → Option Linter → Option Linter)
    (keeps : (filename extension : Text) (lines : List Text) (l l' : Linter)
      → process_file_data filename extension lines (some l) ≡ some l'
      → l'.state.filters_backup ≡ l.state.filters_backup) where
  data-HasBackup :
      (filename extension : Text) (lines : List Text) (fs : List Text) (l : Linter)
      → l.state.filters_backup ≡ fs
      → HasBackup fs (process_file_data filename extension lines (some l))
  data-HasBackup filename extension lines fs l h =
      put (process_file_data filename extension lines (some l)) refl
    where
      put :
          (r : Option Linter)
          → process_file_data filename extension lines (some l) ≡ r
          → HasBackup fs r
      put none e = tt
      put (some l') e = keeps filename extension lines l l' e ∙ h

  check_file-WorldHasBackup :
      (filename : Text) (ends : Ends) (fs : List Text) (w : World)
      → w.linter.state.filters_backup ≡ fs
      → WorldHasBackup fs (check_file disk read process_file_data filename ends w)
  unfolding check_file check_line_ends
  check_file-WorldHasBackup filename ends fs w h =
      elim (Bool-cases (
        not (text_eq filename (codes "-"))
        && not (member (file_extension filename) w.valid_extensions))) [
          | inl e ↦ rw e (unfold warn in h)
          | inr e ↦ rw e (
              with_linter-WorldHasBackup fs w
                (mixed filename ends.lf_lines ends.crlf_lines
                  (process_file_data filename (file_extension filename) ends.lines (some w.linter)))
                (mixed-HasBackup filename ends.lf_lines ends.crlf_lines fs
                  (process_file_data filename (file_extension filename) ends.lines (some w.linter))
                  (data-HasBackup filename (file_extension filename) ends.lines fs w.linter h)))
        ]

  finish_checked-HasFilters :
      (filename : Text) (old_errors : ℕ) (stdout fs : List Text) (w : Option World)
      → WorldHasBackup fs w
      → HasFilters fs (finish_checked disk read process_file_data filename old_errors stdout w)
  unfolding finish_checked finish
  finish_checked-HasFilters filename old_errors stdout fs none h = tt
  finish_checked-HasFilters filename old_errors stdout fs (some w) h = restored-filters fs w h

  process_lines-HasFilters :
      (filename : Text) (old_errors : ℕ) (stdout fs : List Text) (w : World)
      (lines : Option (List Text))
      → w.linter.state.filters_backup ≡ fs
      → HasFilters fs (process_lines disk read process_file_data filename old_errors stdout w lines)
  unfolding process_lines
  process_lines-HasFilters filename old_errors stdout fs w none h =
      unfold warn restored restore_filters in h
  process_lines-HasFilters filename old_errors stdout fs w (some lines) h =
      finish_checked-HasFilters filename old_errors stdout fs
        (check_file disk read process_file_data filename (split_ends 1 lines) w)
        (check_file-WorldHasBackup filename (split_ends 1 lines) fs w h)

  process_configured-HasFilters :
      (filename : Text) (old_errors : ℕ) (stdout : List Text) (vlevel : ℤ) (w : World)
      (r : Option (World × Bool))
      → process_config_overrides disk filename (prepared vlevel w) ≡ r
      → HasFilters w.linter.state.filters
          (process_configured disk read process_file_data filename old_errors stdout r)
  unfolding process_configured
  process_configured-HasFilters filename old_errors stdout vlevel w none e = tt
  process_configured-HasFilters filename old_errors stdout vlevel w (some (w', b)) e = put b (
      ap backup_of
        (process_config_overrides-OnlyFilters disk filename (prepared vlevel w) w' b e).0)
    where
      put :
          (c : Bool)
          → w'.linter.state.filters_backup ≡ (prepared vlevel w).linter.state.filters_backup
          → HasFilters w.linter.state.filters (
              process_configured disk read process_file_data filename old_errors stdout
                (some (w', c)))
      put false h = restored-filters w.linter.state.filters w' (h ∙ prepared-backup vlevel w)
      put true h =
          process_lines-HasFilters filename old_errors stdout w.linter.state.filters w'
            (read filename) (h ∙ prepared-backup vlevel w)

  process_file-HasFilters :
      (filename : Text) (vlevel : ℤ) (p : Program)
      → HasFilters p.world.linter.state.filters
          (process_file disk read process_file_data filename vlevel p)
  unfolding process_file
  process_file-HasFilters filename vlevel p =
      process_configured-HasFilters filename p.world.linter.state.error_count p.stdout vlevel
        p.world (process_config_overrides disk filename (prepared vlevel p.world)) refl

  process_files-HasFilters :
      (filenames : List Text) (fs : List Text) (p : Program)
      → p.world.linter.state.filters ≡ fs
      → HasFilters fs (process_files disk read process_file_data filenames p)
  unfolding process_files
  process_files-HasFilters [] fs p h = h
  process_files-HasFilters (filename ∷ filenames) fs p h =
      put (process_file disk read process_file_data filename p.world.linter.state.verbose_level p)
        (subst
          (λ gs. HasFilters gs (
            process_file disk read process_file_data filename p.world.linter.state.verbose_level p))
          h (process_file-HasFilters filename p.world.linter.state.verbose_level p))
        (process_files-HasFilters filenames fs)
    where
      put :
          (r : Option Program)
          → HasFilters fs r
          → ((q : Program)
              → q.world.linter.state.filters ≡ fs
              → HasFilters fs (process_files disk read process_file_data filenames q))
          → HasFilters fs (r >>= (λ q. process_files disk read process_file_data filenames q))
      put none k again = tt
      put (some q) k again = again q k

  -- If the checks of a file leave the backup of the filters alone, and the loop of main gets through its
  -- files, then the filters are those that it started with, whatever configuration files and unreadable
  -- or ignored files there are.
  pub process_files-filters :
      (filenames : List Text) (p q : Program)
      → process_files disk read process_file_data filenames p ≡ some q
      → q.world.linter.state.filters ≡ p.world.linter.state.filters
  process_files-filters filenames p q h =
      subst (HasFilters p.world.linter.state.filters) h
        (process_files-HasFilters filenames p.world.linter.state.filters p refl)
