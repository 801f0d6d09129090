-- ===== src/Cpplint/State/Filters.antt =====
-- The filters of the lint state: which are accepted, and what a backup restores.
use cppecho.Prelude.{
  ◌≡◌, refl, ap, sym, ◌∙◌, subst, true, false, inl, inr, Bool-cases, List, [], ◌∷◌, ◌++◌, map,
  Option, none, some, arith, ◌↔◌, All,
}
use cppecho.Python.Str.{Text, codes, strip, split}
use cppecho.Cpplint.State.{
  CppLintState, is_signed, first_unsigned, clean_filters, default_filters, add_filters, set_filters,
  backup_filters, restore_filters, apply_overrides, increment_error_count,
}
use cppecho.Cpplint.State.Counts.{increments}

abbrev pub IsSigned : List Text → Type 0
IsSigned = All (λ f. is_signed f ≡ true)

first_unsigned-none : (fs : List Text) → first_unsigned fs ≡ none → IsSigned fs
unfolding first_unsigned
first_unsigned-none [] h = tt
first_unsigned-none (f ∷ fs) h = ground (arith, first_unsigned-none fs)

IsSigned-first_unsigned : (fs : List Text) → IsSigned fs → first_unsigned fs ≡ none
unfolding first_unsigned
IsSigned-first_unsigned [] h = refl
IsSigned-first_unsigned (f ∷ fs) h = ground (arith, IsSigned-first_unsigned fs)

default_filters-IsSigned : IsSigned default_filters
unfolding is_signed
default_filters-IsSigned = (refl, tt)

-- The filters that a flag lists: what stands between its commas, stripped, where that is not empty.
abbrev pub keep_items : List Text → List Text
keep_items [] = []
keep_items ([] ∷ fs) = keep_items fs
keep_items ((c ∷ t) ∷ fs) = (c ∷ t) ∷ keep_items fs

abbrev pub listed : Text → List Text
listed filters = keep_items (map strip (split filters b','))

clean_filters-keep_items : (fs : List Text) → clean_filters fs ≡ keep_items (map strip fs)
unfolding clean_filters
clean_filters-keep_items [] = refl
clean_filters-keep_items (f ∷ fs) = go (strip f) (clean_filters-keep_items fs)
  where
    go :
        (t : Text)
        → clean_filters fs ≡ keep_items (map strip fs)
        → (elim t [ [] ↦ clean_filters fs | c ∷ u ↦ (c ∷ u) ∷ clean_filters fs ])
          ≡ keep_items (t ∷ map strip fs)
    go [] h = h
    go (c ∷ u) h = ap (λ (x : List Text). (c ∷ u) ∷ x) h

abbrev pub unsigned_message : Text → Text
unsigned_message f =
    codes "Every filter in --filters must start with + or - (" ++ (f ++ codes " does not)")

-- What a check of filters raises: nothing if every filter has a sign, else the message for the first
-- that has none.
abbrev pub Raised : List Text → Option Text → Type 0
Raised fs none = IsSigned fs
Raised fs (some message) =
    (before : List Text) × (f : Text) × (after : List Text) × (fs ≡ before ++ f ∷ after)
    × IsSigned before
    × (is_signed f ≡ false)
    × (message ≡ unsigned_message f)

Raised-cons :
    (f : Text) (fs : List Text) (o : Option Text)
    → is_signed f ≡ true
    → Raised fs o
    → Raised (f ∷ fs) o
Raised-cons f fs none h r = (h, r)
Raised-cons f fs (some message) h (before, g, after, e, signed, unsigned, same) =
    (f ∷ before, g, after, ap (λ (x : List Text). f ∷ x) e, (h, signed), unsigned, same)

message_of : Option Text → Option Text
message_of none = none
message_of (some f) = some (unsigned_message f)

first_unsigned-Raised : (fs : List Text) → Raised fs (message_of (first_unsigned fs))
unfolding first_unsigned message_of
first_unsigned-Raised [] = tt
first_unsigned-Raised (f ∷ fs) = elim (Bool-cases (is_signed f)) [
  | inl e ↦ rw e (Raised-cons f fs (message_of (first_unsigned fs)) e (first_unsigned-Raised fs))
  | inr e ↦ rw e ([], f, fs, refl, tt, e, refl)
]

set_filters-lists :
    (filters : Text) (s : CppLintState)
    → (set_filters filters s).0 ≡ record s { filters = default_filters ++ listed filters }
unfolding set_filters
set_filters-lists filters s =
    ap (λ (x : List Text). record s { filters = default_filters ++ x })
      (clean_filters-keep_items (split filters b','))

set_filters-message :
    (filters : Text) (s : CppLintState)
    → (set_filters filters s).1 ≡ message_of (first_unsigned (default_filters ++ listed filters))
unfolding set_filters message_of
set_filters-message filters s = rw (sym (clean_filters-keep_items (split filters b','))) (go _)
  where
    go :
        (o : Option Text)
        → elim o [
          | none ↦ none
          | some f ↦ some (
              codes "Every filter in --filters must start with + or - ("
              ++ (f ++ codes " does not)"))
        ]
          ≡ message_of o
    go none = refl
    go (some f) = refl

-- The filters of a flag replace those of the state by the defaults, followed by the items of the flag
-- in their order, and change nothing else. An error is raised exactly when one of these filters has no
-- sign, and its message names the first of them.
pub set_filters-IsSigned :
    (filters : Text) (s : CppLintState)
    → ((set_filters filters s).0 ≡ record s { filters = default_filters ++ listed filters })
      × Raised (default_filters ++ listed filters) (set_filters filters s).1
      × (((set_filters filters s).1 ≡ none) ↔ IsSigned (set_filters filters s).0.filters)
unfolding set_filters
set_filters-IsSigned filters s = (
  set_filters-lists filters s,
  subst (Raised (default_filters ++ listed filters)) (sym (set_filters-message filters s))
      (first_unsigned-Raised (default_filters ++ listed filters)),
  (
    λ h. first_unsigned-none (set_filters filters s).0.filters (ground arith),
    λ h. ground (arith, IsSigned-first_unsigned (set_filters filters s).0.filters h),
  ),
)

restore_filters-increment :
    (category : Text) (s : CppLintState)
    → restore_filters (increment_error_count category s)
      ≡ increment_error_count category (restore_filters s)
unfolding restore_filters increment_error_count
restore_filters-increment category s = ground arith

restore_filters-increments :
    (categories : List Text) (s : CppLintState)
    → restore_filters (increments categories s) ≡ increments categories (restore_filters s)
restore_filters-increments [] s = refl
restore_filters-increments (c ∷ cs) s =
    restore_filters-increments cs (increment_error_count c s)
    ∙ ap (increments cs) (restore_filters-increment c s)

restore-overrides_lem :
    (overrides : List Text) (s : CppLintState)
    → restore_filters (apply_overrides overrides s).0 ≡ restore_filters s
unfolding apply_overrides add_filters restore_filters
restore-overrides_lem [] s = refl
restore-overrides_lem (f ∷ fs) s = ground (arith, restore-overrides_lem fs (add_filters f s).0)

-- A backup, any overrides, those of a configuration that stopped with an error too, any reports, and
-- then the restoring: the filters are those from before the backup, and the rest of the state is what
-- the reports alone make of it, apart from the backup.
pub restore-overrides :
    (overrides categories : List Text) (s : CppLintState)
    → restore_filters (increments categories (apply_overrides overrides (backup_filters s)).0)
      ≡ increments categories (record s { filters_backup = s.filters })
unfolding backup_filters restore_filters
restore-overrides overrides categories s =
    restore_filters-increments categories (apply_overrides overrides (backup_filters s)).0
    ∙ ap (increments categories) (restore-overrides_lem overrides (backup_filters s))
