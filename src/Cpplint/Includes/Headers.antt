-- ===== src/Cpplint/Includes/Headers.antt =====
-- The list of includes: what FindHeader finds.
use cppecho.Prelude.{
  ℕ, ◌≡◌, ap, inl, inr, false, List, [], ◌∷◌, ◌++◌, Option, none, some, All, append_assoc,
  Bool-cases,
}
use cppecho.Python.Str.{Text, text_eq}
use cppecho.Python.Str.Laws.{text_eq_iff}
use cppecho.Cpplint.Includes.{IncludeState, find_in_section, find_in_sections, find_header}

abbrev pub Include : Type 0
Include = Text × ℕ

-- All the includes on the list, in order.
abbrev pub includes : List (List Include) → List Include
includes [] = []
includes (l ∷ ls) = l ++ includes ls

abbrev pub IsOther : Text → Include → Type 0
IsOther header i = text_eq i.0 header ≡ false

-- The first include of the header, with those before it.
abbrev pub FirstAt : Text → List Include → Option ℕ → Type 0
FirstAt header is none = All (IsOther header) is
FirstAt header is (some n) =
    (before : List Include) × (after : List Include) × (is ≡ before ++ (header, n) ∷ after)
    × All (IsOther header) before

FirstAt-cons :
    (header : Text) (i : Include) (is : List Include) (o : Option ℕ)
    → IsOther header i
    → FirstAt header is o
    → FirstAt header (i ∷ is) o
FirstAt-cons header i is none h f = (h, f)
FirstAt-cons header i is (some n) h (before, after, e, b) =
    (i ∷ before, after, ap (◌∷◌ i) e, (h, b))

FirstAt-here :
    (header f : Text) (n : ℕ) (is : List Include)
    → f ≡ header
    → FirstAt header ((f, n) ∷ is) (some n)
FirstAt-here header f n is e = ([], is, ap (λ (t : Text). (t, n) ∷ is) e, tt)

find_in_section-FirstAt :
    (header : Text) (is : List Include) → FirstAt header is (find_in_section header is)
unfolding find_in_section
find_in_section-FirstAt header [] = tt
find_in_section-FirstAt header ((f, n) ∷ is) = elim (Bool-cases (text_eq f header)) [
  | inl e ↦ rw e (FirstAt-here header f n is ((text_eq_iff f header).0 e))
  | inr e ↦ rw e (FirstAt-cons header (f, n) is _ e (find_in_section-FirstAt header is))
]

FirstAt-append :
    (header : Text) (is js : List Include) (n : ℕ)
    → FirstAt header is (some n)
    → FirstAt header (is ++ js) (some n)
FirstAt-append header is js n (before, after, e, b) = (before, after ++ js, rw (e, append_assoc), b)

FirstAt-skip :
    (header : Text) (is js : List Include) (o : Option ℕ)
    → FirstAt header is none
    → FirstAt header js o
    → FirstAt header (is ++ js) o
FirstAt-skip header [] js o h f = f
FirstAt-skip header (i ∷ is) js o (p, h) f =
    FirstAt-cons header i (is ++ js) o p (FirstAt-skip header is js o h f)

abbrev pub later : Option ℕ → Option ℕ → Option ℕ
later o p = elim o [ some n ↦ some n | none ↦ p ]

FirstAt-later :
    (header : Text) (is js : List Include) (o p : Option ℕ)
    → FirstAt header is o
    → FirstAt header js p
    → FirstAt header (is ++ js) (later o p)
FirstAt-later header is js none p f g = FirstAt-skip header is js p f g
FirstAt-later header is js (some n) p f g = FirstAt-append header is js n f

find_in_sections-FirstAt :
    (header : Text) (ls : List (List Include))
    → FirstAt header (includes ls) (find_in_sections header ls)
unfolding find_in_sections
find_in_sections-FirstAt header [] = tt
find_in_sections-FirstAt header (l ∷ ls) =
    FirstAt-later header l (includes ls) (find_in_section header l) (find_in_sections header ls)
      (find_in_section-FirstAt header l) (find_in_sections-FirstAt header ls)

-- FindHeader answers with the line of the first include of the header on the list, over all its
-- sections, and with -1 (none here) exactly when no include on the list is of the header.
pub find_header_lem :
    (header : Text) (s : IncludeState)
    → FirstAt header (includes s.include_list) (find_header header s)
unfolding find_header
find_header_lem header s = find_in_sections-FirstAt header s.include_list
