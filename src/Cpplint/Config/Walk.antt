-- ===== src/Cpplint/Config/Walk.antt =====
-- ProcessConfigOverrides ends, and changes nothing of the state of the reports but the filters.
use cppecho.Prelude.{
  ℕ, zero, suc, ◌+◌, ◌<◌, ◌≡◌, refl, ap, sym, ◌∙◌, inl, inr, Bool, true, false, not, ◌||◌, List, [],
  ◌∷◌, Option, none, some, ℤ, if◌then◌else◌, length, arith, Bool-cases, reverse, subst,
}
use cppecho.Python.Str.{Text, codes, text_eq, strip}
use cppecho.Python.Path.{path_split, path_join, abspath}
use cppecho.Python.Path.Laws.{path_split-shorter}
use cppecho.Cpplint.State.{CppLintState, add_filters, apply_overrides}
use cppecho.Cpplint.Report.{Linter}
use cppecho.Cpplint.Config.{
  World, ConfigFile, absent, unreadable, readable, Disk, partition, parse_int, warn,
  process_hpp_headers_option, Overrides, Flow, going, excluded, raised, set_line_length,
  excluded_message, exclude, set_option, config_line, config_lines, read_config, walk,
  apply_filters, answer, process_config_overrides,
}

-- The same settings and counts, and the same suppressions.
abbrev Same : Linter → World → Type 0
Same l w = (w.linter.state ≡ l.state) × (w.linter.suppressions ≡ l.suppressions)

abbrev Keeps : Linter → Flow → Type 0
Keeps l (going o) = Same l o.world
Keeps l (excluded w) = Same l w
Keeps l raised = Unit

warn-Same : (l : Linter) (message : Text) (w : World) → Same l w → Same l (warn message w)
unfolding warn
warn-Same l message w h = h

set_line_length-Same :
    (l : Linter) (n : Option ℤ) (w : World) → Same l w → Same l (set_line_length n w)
unfolding set_line_length
set_line_length-Same l none w h = warn-Same l (codes "Line length must be numeric.") w h
set_line_length-Same l (some n) w h = h

Same-if : (l : Linter) (b : Bool) (v w : World) → Same l v → Same l w → Same l (if b then v else w)
Same-if l true v w h k = h
Same-if l false v w h k = k

module _ (disk : Disk) (filename : Text) (l : Linter) where
  exclude-Keeps :
      (cfg_file base_name val : Text) (o : Overrides) (b : Option Bool)
      → Same l o.world
      → Keeps l (exclude disk filename cfg_file base_name val o b)
  unfolding exclude
  exclude-Keeps cfg_file base_name val o none h = tt
  exclude-Keeps cfg_file base_name val o (some false) h = h
  exclude-Keeps cfg_file base_name val o (some true) h =
      Same-if l o.world.linter.state.quiet o.world
        (warn (excluded_message disk filename cfg_file base_name val) o.world) h
        (warn-Same l (excluded_message disk filename cfg_file base_name val) o.world h)

  set_option-Keeps :
      (cfg_file base_name name val : Text) (o : Overrides)
      → Same l o.world
      → Keeps l (set_option disk filename cfg_file base_name name val o)
  unfolding set_option
  set_option-Keeps cfg_file base_name name val o h =
      elim (Bool-cases (text_eq name (codes "set noparent"))) [
        | inl e ↦ rw e h
        | inr e ↦ rw e (elim (Bool-cases (text_eq name (codes "filter"))) [
          | inl e ↦ rw e h
          | inr e ↦ rw e (elim (Bool-cases (text_eq name (codes "exclude_files"))) [
            | inl e ↦
                rw e (exclude-Keeps cfg_file base_name val o (disk.pattern_matches val base_name) h)
            | inr e ↦ rw e (elim (Bool-cases (text_eq name (codes "linelength"))) [
              | inl e ↦ rw e (set_line_length-Same l (parse_int val) o.world h)
              | inr e ↦ rw e (elim (Bool-cases (text_eq name (codes "root"))) [
                | inl e ↦ rw e h
                | inr e ↦ rw e (elim (Bool-cases (text_eq name (codes "headers"))) [
                  | inl e ↦ rw e (unfold process_hpp_headers_option in h)
                  | inr e ↦ rw e (unfold warn in h)
                ])
              ])
            ])
          ])
        ])
      ]

  config_line-Keeps :
      (cfg_file base_name line : Text) (o : Overrides)
      → Same l o.world
      → Keeps l (config_line disk filename cfg_file base_name line o)
  unfolding config_line
  config_line-Keeps cfg_file base_name line o h =
      let text = (partition line b'#').0 in
      elim (Bool-cases (text_eq (strip text) [])) [
        | inl e ↦ rw e h
        | inr e ↦ rw e (
            set_option-Keeps cfg_file base_name (strip (partition text b'=').0)
              (strip (partition text b'=').1) o h)
      ]

  config_lines-Keeps :
      (cfg_file base_name : Text) (lines : List Text) (f : Flow)
      → Keeps l f
      → Keeps l (config_lines disk filename cfg_file base_name lines f)
  unfolding config_lines
  config_lines-Keeps cfg_file base_name [] f h = h
  config_lines-Keeps cfg_file base_name (line ∷ lines) (going o) h =
      config_lines-Keeps cfg_file base_name lines
        (config_line disk filename cfg_file base_name line o)
        (config_line-Keeps cfg_file base_name line o h)
  config_lines-Keeps cfg_file base_name (line ∷ lines) (excluded w) h = h
  config_lines-Keeps cfg_file base_name (line ∷ lines) raised h = tt

  read_config-Keeps :
      (cfg_file base_name : Text) (file : ConfigFile) (o : Overrides)
      → Same l o.world
      → Keeps l (read_config disk filename cfg_file base_name file o)
  unfolding read_config
  read_config-Keeps cfg_file base_name absent o h = h
  read_config-Keeps cfg_file base_name unreadable o h = unfold warn in h
  read_config-Keeps cfg_file base_name (readable lines) o h =
      config_lines-Keeps cfg_file base_name lines (going o) h

  walk-Keeps :
      (fuel : ℕ) (path : Text) (f : Flow)
      → length path < fuel
      → Keeps l f
      → (g : Flow) × (walk disk filename fuel path f ≡ some g) × Keeps l g
  unfolding walk
  walk-Keeps zero path f h k = elim h [ ]
  walk-Keeps (suc fuel) path (excluded w) h k = (excluded w, refl, k)
  walk-Keeps (suc fuel) path raised h k = (raised, refl, tt)
  walk-Keeps (suc fuel) path (going o) h k =
      elim (Bool-cases (not o.keep_looking || text_eq (path_split path).1 [])) [
        | inl e ↦ (going o, rw e refl, k)
        | inr e ↦
            let (g, q, j) =
              walk-Keeps fuel (path_split path).0
                (read_config disk filename (path_join (path_split path).0 (codes "CPPLINT.cfg"))
                  (path_split path).1
                  (disk.config_at (path_join (path_split path).0 (codes "CPPLINT.cfg"))) o)
                (omega (arith, path_split-shorter path (ground arith)))
                (read_config-Keeps (path_join (path_split path).0 (codes "CPPLINT.cfg"))
                  (path_split path).1
                  (disk.config_at (path_join (path_split path).0 (codes "CPPLINT.cfg"))) o k) in
            (g, rw e q, j)
      ]

-- States that differ in the filters at most.
abbrev pub without_filters : CppLintState → CppLintState
without_filters s = record s { filters = [] }

abbrev pub OnlyFilters : CppLintState → CppLintState → Type 0
OnlyFilters s t = without_filters t ≡ without_filters s

add_filters-OnlyFilters : (f : Text) (s : CppLintState) → OnlyFilters s (add_filters f s).0
unfolding add_filters
add_filters-OnlyFilters f s = refl

apply_overrides-OnlyFilters :
    (fs : List Text) (s : CppLintState) → OnlyFilters s (apply_overrides fs s).0
unfolding apply_overrides
apply_overrides-OnlyFilters [] s = refl
apply_overrides-OnlyFilters (f ∷ fs) s =
    put (add_filters f s).1 (apply_overrides-OnlyFilters fs (add_filters f s).0)
  where
    put :
        (raised : Option Text)
        → OnlyFilters (add_filters f s).0 (apply_overrides fs (add_filters f s).0).0
        → (let after : CppLintState × Option Text = elim raised [
          | none ↦ apply_overrides fs (add_filters f s).0
          | some message ↦ ((add_filters f s).0, some message)
        ] in
            OnlyFilters s after.0)
    put none h = h ∙ add_filters-OnlyFilters f s
    put (some message) h = add_filters-OnlyFilters f s

-- What an answer leaves, given a state of the reports.
abbrev Leaves : Linter → Option (World × Bool) → Type 0
Leaves l none = Unit
Leaves l (some (w, b)) =
    OnlyFilters l.state w.linter.state
    × (w.linter.suppressions ≡ l.suppressions)
    × (b ≡ false → w.linter.state ≡ l.state)

apply_filters-Leaves :
    (l : Linter) (w : World) (r : CppLintState × Option Text)
    → w.linter.suppressions ≡ l.suppressions
    → OnlyFilters l.state r.0
    → Leaves l (apply_filters w r)
unfolding apply_filters
apply_filters-Leaves l w (s, none) h k = (k, h, λ e. absurd (cc e))
apply_filters-Leaves l w (s, some message) h k = tt

answer-Leaves : (l : Linter) (f : Flow) → Keeps l f → Leaves l (answer (some f))
unfolding answer
answer-Leaves l (going o) (h, k) =
    apply_filters-Leaves l o.world (apply_overrides (reverse o.cfg_filters) o.world.linter.state) k
      (apply_overrides-OnlyFilters (reverse o.cfg_filters) o.world.linter.state
        ∙ ap without_filters h)
answer-Leaves l (excluded w) (h, k) = (ap without_filters h, k, λ e. h)
answer-Leaves l raised k = tt

-- The search for configuration files ends, whatever the disk holds: it stops in some directory, at a
-- pattern that excludes the file, or at an error in a pattern.
pub walk-some :
    (disk : Disk) (filename : Text) (w : World) (path : Text)
    → (f : Flow) × (walk disk filename
          (length path + 1)
          path
          (going (record { world = w; cfg_filters = []; keep_looking = true }))
        ≡ some f)
walk-some disk filename w path =
    let (f, e, k) =
      walk-Keeps disk filename w.linter (length path + 1) path
        (going (record { world = w; cfg_filters = []; keep_looking = true })) (omega arith)
        (refl, refl) in
    (f, e)

-- When ProcessConfigOverrides returns, the state of the reports differs in the filters at most, and not
-- even in them when it returns False; the suppressions are as before.
pub process_config_overrides-OnlyFilters :
    (disk : Disk) (filename : Text) (w w' : World) (b : Bool)
    → process_config_overrides disk filename w ≡ some (w', b)
    → OnlyFilters w.linter.state w'.linter.state
      × (w'.linter.suppressions ≡ w.linter.suppressions)
      × (b ≡ false → w'.linter.state ≡ w.linter.state)
unfolding process_config_overrides
process_config_overrides-OnlyFilters disk filename w w' b h =
    let path = abspath disk.cwd filename in
    let (f, e, k) =
      walk-Keeps disk filename w.linter (length path + 1) path
        (going (record { world = w; cfg_filters = []; keep_looking = true })) (omega arith)
        (refl, refl) in
    subst (Leaves w.linter) (sym (ap answer e) ∙ h) (answer-Leaves w.linter f k)
