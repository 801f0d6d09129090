-- ===== src/Hooks/Tests.antt =====
-- Runs and instances of the theorems about the installation of hooks.
use cppecho.Prelude.{◌≡◌, refl, [], ◌∷◌, none, some, if◌then◌else◌}
use cppecho.Python.Str.{Text, codes, text_eq, startswith, endswith, member, rstrip_by}
use cppecho.Python.Path.{path_split, path_join, rfind_suc}
use cppecho.Hooks.{
  Tree, is_hook_of, content_of, glob_hooks, uninstall_hooks, remove, copy, install_hooks, run_main,
}
use cppecho.Hooks.Uninstalled.{uninstall_hooks_lem}

abbrev tree : Tree
tree = record {
  dirs = codes "/w/tools/git-hooks" ∷ codes "/w/.git/hooks" ∷ [];
  files =
      (codes "/w/tools/git-hooks/pre-commit", codes "new")
      ∷ (codes "/w/.git/hooks/pre-commit-old", codes "old")
      ∷ (codes "/w/.git/hooks/update", codes "kept")
      ∷ [];
}

installed :
    run_main (codes "/w") tree
    ≡ some (record tree {
      files =
          (codes "/w/.git/hooks/pre-commit", codes "new")
          ∷ (codes "/w/tools/git-hooks/pre-commit", codes "new")
          ∷ (codes "/w/.git/hooks/update", codes "kept")
          ∷ [];
    })
unfolding run_main uninstall_hooks install_hooks glob_hooks is_hook_of remove copy path_split
    path_join rfind_suc rstrip_by text_eq startswith endswith member
installed = refl

uninstall_hooks_lem_example :
    (t : Tree) × (uninstall_hooks (codes "/w/.git/hooks") tree ≡ some t)
    × (t.dirs ≡ tree.dirs)
    × ((p : Text)
        → content_of p t.files
          ≡ (if is_hook_of (codes "/w/.git/hooks") p then none else content_of p tree.files))
unfolding glob_hooks is_hook_of path_split rfind_suc rstrip_by text_eq startswith member
uninstall_hooks_lem_example = uninstall_hooks_lem (codes "/w/.git/hooks") tree refl
