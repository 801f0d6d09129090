-- ===== src/Cpplint/Files/Tests.antt =====
-- Runs and instances of the theorems about file names.
use Prim.Native.Nat.{ℕ, suc}
use cppecho.Prelude.{
  zero, ◌≡◌, refl, true, false, not, ◌&&◌, ◌||◌, [], ◌∷◌, ◌++◌, none, some, arith, All,
  append_assoc,
}
use cppecho.Python.Str.{
  Text, codes, text_eq, endswith, startswith, replace, split, rstrip_by, member,
}
use cppecho.Python.Str.Laws.{endswith-append}
use cppecho.Python.Path.{
  path_split, dirname, path_join, splitext, commonprefix, normpath, abspath, rfind_suc, slash_join,
}
use cppecho.Python.Regex.{re_search, re_match, group_text, group_of}
use cppecho.Cpplint.Includes.{cpp_sys_header, likely_my_header, possible_my_header, other_header}
use cppecho.Cpplint.Files.{
  FileSystem, full_name, has, repository_name, file_split, base_name, extension, no_extension,
  is_source, path_split_to_list, drop_common_suffixes, has_common_suffix, common_suffixes, stem_cc,
  stem_h, unlayered, is_source_extension, files_belong_to_same_module, svn_top,
}
use cppecho.Cpplint.Files.Repository.{IsNameOf, repository_name-IsNameOf}
use cppecho.Cpplint.Files.Suffixes.{drop_common_suffixes-append}
use cppecho.Cpplint.Files.Headers.{classify_include, compare_names}
use cppecho.Cpplint.Files.Modules.{files_belong_to_same_module_lem}

-- A checkout at /w/echo with one file in it.
abbrev checkout : FileSystem
checkout = record {
  cwd = codes "/w/echo/core";
  exists = λ p.
      (text_eq p (codes "/w/echo/.git") || text_eq p (codes "/w/echo/core/async.h"))
      && not (endswith p (codes ".svn"));
}

named :
    (repository_name checkout (codes "async.h") ≡ some (codes "core/async.h"))
    × (repository_name checkout (codes "none.h") ≡ some (codes "/w/echo/core/none.h"))
    × (path_split_to_list (codes "/a/b") ≡ codes "/" ∷ codes "a" ∷ codes "b" ∷ [])
    × (no_extension (codes "core/async.test.cc") ≡ codes "core/async.test")
unfolding repository_name path_split_to_list no_extension full_name abspath path_join replace
    normpath slash_join split startswith endswith text_eq dirname path_split rfind_suc rstrip_by
    commonprefix splitext
named = (refl, refl, refl, refl)

classified :
    (classify_include checkout (codes "async.h") (codes "string") true ≡ some cpp_sys_header)
    × (compare_names (codes "core/async_test.cc") (codes "core/async.h") ≡ likely_my_header)
    × (compare_names (codes "core/async.cc") (codes "net/async-io.h") ≡ possible_my_header)
    × (compare_names (codes "core/async.cc") (codes "core/io.h") ≡ other_header)
unfolding classify_include compare_names drop_common_suffixes has_common_suffix path_split text_eq
    endswith rfind_suc rstrip_by splitext normpath slash_join split startswith member re_match
    re_search
classified = (refl, refl, refl, refl)

same_module :
    files_belong_to_same_module
      (codes "w/base/public/io_test.cc")
      (codes "w/base/public/io_test.cc")
      (codes "base/io-inl.h")
    ≡ (true, codes "w/")
unfolding files_belong_to_same_module stem_cc stem_h unlayered is_source is_source_extension
    extension base_name file_split path_split text_eq endswith rfind_suc rstrip_by splitext replace
    group_text group_of member re_match re_search
same_module = refl

-- Where every path exists, so the root of the file system has an entry .svn too, the loop over SVN
-- directories does not end.
abbrev everywhere : FileSystem
everywhere = record { cwd = codes "/"; exists = λ p. true }

svn_at_root : (fuel : ℕ) (root : Text) → svn_top everywhere fuel root ≡ none
unfolding svn_top has
svn_at_root zero root = refl
svn_at_root (suc fuel) root = svn_at_root fuel (dirname root)

no_svn : (p : Text) → dirname p ≡ p → has checkout p (codes ".svn") ≡ false
unfolding has path_join
no_svn p h = ground (
  arith,
  endswith-append p (codes ".svn"),
  endswith-append (p ++ codes "/") (codes ".svn"),
  append_assoc p (codes "/") (codes ".svn"),
)

repository_name-IsNameOf_example :
    (r : Text) × (repository_name checkout (codes "async.h") ≡ some r)
    × IsNameOf checkout (full_name checkout (codes "async.h")) r
repository_name-IsNameOf_example = repository_name-IsNameOf checkout no_svn (codes "async.h")

drop_common_suffixes-append_example :
    All
      (λ suffix. drop_common_suffixes (codes "core/async" ++ b'_' ∷ suffix) ≡ codes "core/async")
      common_suffixes
drop_common_suffixes-append_example = drop_common_suffixes-append (codes "core/async") b'_' refl

abbrev async_cc : Text
async_cc = codes "w/core/async_test.cc"

files_belong_to_same_module_lem_example :
    ((files_belong_to_same_module async_cc async_cc (codes "core/async.h")).0 ≡ (
      is_source async_cc
      && endswith (codes "core/async.h") (codes ".h")
      && endswith (stem_cc async_cc async_cc) (stem_h (codes "core/async.h"))))
    × ((files_belong_to_same_module async_cc async_cc (codes "core/async.h")).0 ≡ true
        → (files_belong_to_same_module async_cc async_cc (codes "core/async.h")).1
            ++ stem_h (codes "core/async.h")
          ≡ stem_cc async_cc async_cc)
unfolding stem_h unlayered replace endswith text_eq
files_belong_to_same_module_lem_example =
    files_belong_to_same_module_lem async_cc async_cc (codes "core/async.h") cc
