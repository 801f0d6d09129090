-- ===== src/Cpplint/Files.antt =====
-- class FileInfo of tools/cpplint/cpplint.py, and the functions on file names beside it.
mod Tests
pub mod Repository
pub mod Suffixes
pub mod Headers
pub mod Modules
use cppecho.Prelude.{
  ℕ, zero, suc, ◌+◌, ◌-◌, Bool, true, false, not, ◌&&◌, ◌||◌, List, [], ◌∷◌, ◌++◌, Option, none,
  some, ltb, ◌==◌, if◌then◌else◌, length, take, drop, get_or, reverse, ◌>>=◌,
}
use cppecho.Python.Str.{Text, codes, text_eq, endswith, replace, member}
use cppecho.Python.Path.{path_split, dirname, path_join, splitext, commonprefix, normpath, abspath}
use cppecho.Python.Regex.{Regex, Found, alt, group, lit, eol, ◌▹◌, ◌∣∣◌, re_search, group_text}

-- What the program asks of the file system: the working directory and os.path.exists.
pub record FileSystem : Type 0 where
  pub cwd : Text
  pub exists : Text → Bool

-- FullName
unfoldable pub full_name : FileSystem → Text → Text
unfolding abspath replace
full_name fs filename = replace (abspath fs.cwd filename) (codes "\\") (codes "/")

-- Whether a directory has an entry, and whether it is the top of a checkout.
pub has : FileSystem → Text → Text → Bool
unfolding path_join
has fs dir entry = fs.exists (path_join dir entry)

pub is_checkout : FileSystem → Text → Bool
unfolding has
is_checkout fs dir =
    has fs dir (codes ".git") || has fs dir (codes ".hg") || has fs dir (codes ".svn")

-- The loop over SVN directories: `one_up_dir` is always the directory above `root_dir`. It runs on
-- fuel, and has no result when that runs out.
svn_top : FileSystem → ℕ → Text → Option Text
unfolding has dirname
svn_top fs zero root_dir = none
svn_top fs (suc fuel) root_dir =
    let up = svn_top fs fuel (dirname root_dir) in
    if has fs (dirname root_dir) (codes ".svn") then up else some root_dir

-- The loop over all directories above, on fuel too.
checkout_top : FileSystem → ℕ → Text → Text → Option Text
unfolding is_checkout dirname text_eq
checkout_top fs zero root_dir current_dir = none
checkout_top fs (suc fuel) root_dir current_dir =
    let next =
      checkout_top fs fuel (if is_checkout fs current_dir then current_dir else root_dir)
        (dirname current_dir) in
    if text_eq current_dir (dirname current_dir) then some root_dir else next

-- `fullname[len(prefix) + 1:]`
pub below : Text → Text → Text → Text
unfolding commonprefix
below root_dir project_dir fullname = drop (length (commonprefix root_dir project_dir) + 1) fullname

from_svn : Text → Text → Option Text → Option Text
unfolding below
from_svn project_dir fullname none = none
from_svn project_dir fullname (some root_dir) = some (below root_dir project_dir fullname)

from_checkout : FileSystem → Text → Text → Option Text → Option Text
unfolding below is_checkout
from_checkout fs project_dir fullname none = none
from_checkout fs project_dir fullname (some root_dir) =
    if is_checkout fs root_dir then some (below root_dir project_dir fullname) else some fullname

-- The body of RepositoryName, given the full name.
name_below : FileSystem → Text → Option Text
unfolding svn_top checkout_top from_svn from_checkout dirname has
name_below fs fullname =
    let project_dir = dirname fullname in
    if not (fs.exists fullname)
    then some fullname
    else if has fs project_dir (codes ".svn")
    then from_svn project_dir fullname (svn_top fs (length fullname + 1) project_dir)
    else from_checkout fs project_dir fullname
        (checkout_top fs (length fullname + 1) project_dir project_dir)

-- RepositoryName; none means that the loop over SVN directories does not end.
unfoldable pub repository_name : FileSystem → Text → Option Text
unfolding name_below full_name
repository_name fs filename = name_below fs (full_name fs filename)

-- Split, of the file's RepositoryName
unfoldable pub file_split : Text → Text × Text × Text
unfolding path_split splitext
file_split googlename =
    let (project, rest) = path_split googlename in
    let (base, extension) = splitext rest in (project, base, extension)

-- BaseName, Extension, NoExtension and IsSource of a RepositoryName
unfoldable pub base_name : Text → Text
unfolding file_split
base_name googlename = (file_split googlename).1

unfoldable pub extension : Text → Text
unfolding file_split
extension googlename = (file_split googlename).2

unfoldable pub no_extension : Text → Text
unfolding file_split
no_extension googlename = (file_split googlename).0 ++ codes "/" ++ (file_split googlename).1

-- _IsSourceExtension
unfoldable pub is_source_extension : Text → Bool
unfolding member
is_source_extension s = member s (codes "c" ∷ codes "cc" ∷ codes "cpp" ∷ codes "cxx" ∷ [])

unfoldable pub is_source : Text → Bool
unfolding is_source_extension extension
is_source googlename = is_source_extension (drop 1 (extension googlename))

-- PathSplitToList: the loop, on fuel, with the parts found so far in front of each other
path_parts : ℕ → Text → List Text → List Text
unfolding path_split text_eq
path_parts zero path lst = lst
path_parts (suc fuel) path lst =
    let (head, tail) = path_split path in
    let more = path_parts fuel head (tail ∷ lst) in
    if text_eq head path then head ∷ lst else if text_eq tail path then tail ∷ lst else more

unfoldable pub path_split_to_list : Text → List Text
unfolding path_parts
path_split_to_list path = path_parts (length path + 1) path []

-- The suffixes of _DropCommonSuffixes
abbrev pub common_suffixes : List Text
common_suffixes =
    codes "test.cc"
    ∷ codes "regtest.cc"
    ∷ codes "unittest.cc"
    ∷ codes "inl.h"
    ∷ codes "impl.h"
    ∷ codes "internal.h"
    ∷ []

-- Its test of one suffix
unfoldable pub has_common_suffix : Text → Text → Bool
unfolding endswith
has_common_suffix filename suffix =
    let mark = get_or filename (length filename - length suffix - 1) 0 in
    endswith filename suffix
    && ltb (length suffix) (length filename)
    && (mark == b'-' || mark == b'_')

drop_suffix : List Text → Text → Text
unfolding has_common_suffix splitext
drop_suffix [] filename = (splitext filename).0
drop_suffix (suffix ∷ suffixes) filename =
    if has_common_suffix filename suffix
    then take (length filename - length suffix - 1) filename
    else drop_suffix suffixes filename

-- _DropCommonSuffixes
unfoldable pub drop_common_suffixes : Text → Text
unfolding drop_suffix
drop_common_suffixes filename = drop_suffix common_suffixes filename

-- _TEST_FILE_SUFFIX
abbrev pub test_file_suffix : Regex
test_file_suffix = group 1 (lit "_test" ∣∣ lit "_unittest" ∣∣ lit "_regtest") ▹ eol

without_test_suffix : Option Found → Text → Text
unfolding group_text
without_test_suffix none filename_cc = filename_cc
without_test_suffix (some m) filename_cc =
    take (length filename_cc - length (group_text m 1)) filename_cc

-- `filename.replace('/public/', '/').replace('/internal/', '/')`
unfoldable pub unlayered : Text → Text
unfolding replace
unlayered filename =
    replace (replace filename (codes "/public/") (codes "/")) (codes "/internal/") (codes "/")

-- The stem of a .cc file, given its RepositoryName, and that of a header.
unfoldable pub stem_cc : Text → Text → Text
unfolding without_test_suffix unlayered extension base_name
stem_cc googlename filename_cc =
    let cut = take (length filename_cc - length (extension googlename)) filename_cc in
    unlayered (without_test_suffix (re_search test_file_suffix (base_name googlename)) cut)

unfoldable pub stem_h : Text → Text
unfolding unlayered endswith
stem_h filename_h =
    let cut = take (length filename_h - 2) filename_h in
    unlayered (if endswith cut (codes "-inl") then take (length cut - 4) cut else cut)

-- FilesBelongToSameModule, given the RepositoryName of `filename_cc`. An empty stem of the header is a
-- suffix of everything, and the slice `[:-0]` is then empty.
unfoldable pub files_belong_to_same_module : Text → Text → Text → Bool × Text
unfolding is_source stem_cc stem_h
files_belong_to_same_module googlename filename_cc filename_h =
    let cc' = stem_cc googlename filename_cc in
    let h' = stem_h filename_h in
    if not (is_source googlename) || not (endswith filename_h (codes ".h"))
    then (false, [])
    else if endswith cc' h'
    then (true, if text_eq h' [] then [] else take (length cc' - length h') cc')
    else (false, [])
