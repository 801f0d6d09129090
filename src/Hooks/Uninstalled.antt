-- ===== src/Hooks/Uninstalled.antt =====
-- What uninstall_hooks leaves.
use cppecho.Prelude.{
  ◌≡◌, refl, ap, sym, ◌∙◌, Bool, true, false, not, ◌&&◌, List, [], ◌∷◌, ◌++◌, none, some,
  if◌then◌else◌, arith, inl, inr, Bool-cases, any,
}
use cppecho.Python.Str.{Text, text_eq, member}
use cppecho.Python.Str.Laws.{text_eq_iff}
use cppecho.Hooks.{
  Tree, is_hook_of, hooks_among, paths_of, glob_hooks, content_of, without, remove, remove_all,
  uninstall_hooks,
}

content_of-without :
    (p q : Text) (files : List (Text × Text))
    → content_of p (without q files) ≡ (if text_eq q p then none else content_of p files)
unfolding content_of without
content_of-without p q [] = ground arith
content_of-without p q ((r, c) ∷ files) =
    ground (arith, content_of-without p q files, text_eq_iff r q, text_eq_iff r p, text_eq_iff q p)

-- No path of the list is a directory.
abbrev pub no_dir : List Text → List Text → Bool
no_dir paths dirs = not (any (λ path. member path dirs) paths)

remove_all-content_of :
    (paths : List Text) (tree : Tree)
    → no_dir paths tree.dirs ≡ true
    → (t : Tree) × (remove_all paths tree ≡ some t)
      × (t.dirs ≡ tree.dirs)
      × ((p : Text)
          → content_of p t.files ≡ (if member p paths then none else content_of p tree.files))
unfolding remove_all remove
remove_all-content_of [] tree h = (tree, refl, refl, λ p. unfold member in refl)
remove_all-content_of (q ∷ paths) tree h =
    let here : member q tree.dirs ≡ false = ground arith in
    let smaller : Tree = record tree { files = without q tree.files } in
    let (t, e, d, c) = remove_all-content_of paths smaller (ground arith) in
    (
      t,
      rw here e,
      d,
      λ p.
          c p
          ∙ unfold member in
            ground (arith, content_of-without p q tree.files, text_eq_iff p q, text_eq_iff q p),
    )

member-hooks_among :
    (dir p : Text) (paths : List Text)
    → member p (hooks_among dir paths) ≡ (is_hook_of dir p && member p paths)
unfolding hooks_among member
member-hooks_among dir p [] = ground arith
member-hooks_among dir p (q ∷ paths) = elim (Bool-cases (text_eq p q)) [
  | inl e ↦
      let same : p ≡ q = (text_eq_iff p q).0 e in
      let hook : is_hook_of dir q ≡ is_hook_of dir p = ap (is_hook_of dir) (sym same) in
      ground (arith, hook, e, member-hooks_among dir p paths)
  | inr e ↦ ground (arith, e, member-hooks_among dir p paths)
]

-- A path that is not among those of the files has no content.
content_of-member :
    (p : Text) (files : List (Text × Text)) (others : List Text)
    → member p (paths_of files ++ others) ≡ false
    → content_of p files ≡ none
unfolding content_of paths_of member
content_of-member p [] others h = refl
content_of-member p ((q, c) ∷ files) others h =
    ground (arith, content_of-member p files others, text_eq_iff p q, text_eq_iff q p)

-- When no directory has the name of a hook, uninstall_hooks ends with no error: the files pre-commit* of
-- the hooks' directory are gone, and every other file and all directories are as before.
pub uninstall_hooks_lem :
    (hooks_dir : Text) (tree : Tree)
    → no_dir (glob_hooks hooks_dir tree) tree.dirs ≡ true
    → (t : Tree) × (uninstall_hooks hooks_dir tree ≡ some t)
      × (t.dirs ≡ tree.dirs)
      × ((p : Text)
          → content_of p t.files
            ≡ (if is_hook_of hooks_dir p then none else content_of p tree.files))
unfolding uninstall_hooks glob_hooks
uninstall_hooks_lem hooks_dir tree h =
    let paths = paths_of tree.files ++ tree.dirs in
    let (t, e, d, c) = remove_all-content_of (hooks_among hooks_dir paths) tree h in
    (
      t,
      e,
      d,
      λ p.
          c p
          ∙ ground (
            arith,
            member-hooks_among hooks_dir p paths,
            content_of-member p tree.files tree.dirs,
          ),
    )
