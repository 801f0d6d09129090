-- ===== src/Hooks.antt =====
-- tools/install_hooks.py: the git hooks of the repository are copied to its .git directory. What it
-- prints is left out. None is an OSError or IOError, which ends the program.
mod Tests
pub mod Uninstalled
use cppecho.Prelude.{
  Bool, true, false, not, ◌&&◌, ◌||◌, List, [], ◌∷◌, ◌++◌, Option, none, some, if◌then◌else◌, ◌>>=◌,
}
use cppecho.Python.Str.{Text, codes, text_eq, startswith, member}
use cppecho.Python.Path.{path_split, path_join}

-- The directories, and the files with their contents; the first entry of a path counts.
pub record Tree : Type 0 where
  pub dirs : List Text
  pub files : List (Text × Text)

-- Whether `glob` with the pattern os.path.join(dir, 'pre-commit*') finds a path, for a directory whose
-- name has no glob character (*, ? or [). It looks in the directory that the pattern's path splits into.
unfoldable pub is_hook_of : Text → Text → Bool
unfolding path_split path_join text_eq startswith
is_hook_of dir path =
    text_eq (path_split path).0 (path_split (path_join dir (codes "pre-commit*"))).0
    && startswith (path_split path).1 (codes "pre-commit")

hooks_among : Text → List Text → List Text
unfolding is_hook_of
hooks_among dir [] = []
hooks_among dir (path ∷ paths) =
    if is_hook_of dir path then path ∷ hooks_among dir paths else hooks_among dir paths

paths_of : List (Text × Text) → List Text
paths_of [] = []
paths_of ((path, content) ∷ files) = path ∷ paths_of files

-- `glob.glob(os.path.join(dir, 'pre-commit*'))`
unfoldable pub glob_hooks : Text → Tree → List Text
unfolding hooks_among paths_of
glob_hooks dir tree = hooks_among dir (paths_of tree.files ++ tree.dirs)

pub content_of : Text → List (Text × Text) → Option Text
unfolding text_eq
content_of path [] = none
content_of path ((p, content) ∷ files) =
    if text_eq p path then some content else content_of path files

without : Text → List (Text × Text) → List (Text × Text)
unfolding text_eq
without path [] = []
without path ((p, content) ∷ files) =
    if text_eq p path then without path files else (p, content) ∷ without path files

-- `os.remove`, of a path that there is
unfoldable pub remove : Text → Tree → Option Tree
unfolding without member
remove path tree =
    if member path tree.dirs then none else some (record tree { files = without path tree.files })

remove_all : List Text → Tree → Option Tree
unfolding remove
remove_all [] tree = some tree
remove_all (path ∷ paths) tree = do rest ← remove path tree; remove_all paths rest

-- uninstall_hooks
unfoldable pub uninstall_hooks : Text → Tree → Option Tree
unfolding glob_hooks remove_all
uninstall_hooks hooks_dir tree = remove_all (glob_hooks hooks_dir tree) tree

-- Where `shutil.copy` writes to
destination : Text → Text → Tree → Text
unfolding path_join path_split member
destination src dst tree = if member dst tree.dirs then path_join dst (path_split src).1 else dst

write : Text → Option Text → Tree → Option Tree
unfolding without
write path none tree = none
write path (some content) tree =
    some (record tree { files = (path, content) ∷ without path tree.files })

-- `shutil.copy`: an error if the source is no file, the destination is a directory or the source, or
-- there is no directory for it.
unfoldable pub copy : Text → Text → Tree → Option Tree
unfolding destination write content_of member text_eq path_split
copy src dst tree =
    let dest = destination src dst tree in
    if member dest tree.dirs || text_eq src dest || not (member (path_split dest).0 tree.dirs)
    then none
    else write dest (content_of src tree.files) tree

copy_all : List Text → Text → Tree → Option Tree
unfolding copy
copy_all [] dst tree = some tree
copy_all (src ∷ srcs) dst tree = do copied ← copy src dst tree; copy_all srcs dst copied

-- install_hooks
unfoldable pub install_hooks : Text → Text → Tree → Option Tree
unfolding glob_hooks copy_all
install_hooks src_dir dst_dir tree = copy_all (glob_hooks src_dir tree) dst_dir tree

-- main, in the working directory that setup_working_dir sets
unfoldable pub run_main : Text → Tree → Option Tree
unfolding uninstall_hooks install_hooks path_join
run_main cwd tree =
    let hooks_src_dir = path_join (path_join cwd (codes "tools")) (codes "git-hooks") in
    let hooks_dst_dir = path_join (path_join cwd (codes ".git")) (codes "hooks") in
    uninstall_hooks hooks_dst_dir tree >>= (λ t. install_hooks hooks_src_dir hooks_dst_dir t)
