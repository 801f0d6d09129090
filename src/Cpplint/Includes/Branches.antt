-- ===== src/Cpplint/Includes/Branches.antt =====
-- What ResetSection of the list of includes forgets, at a preprocessor directive and behind it.
use cppecho.Prelude.{
  ◌≡◌, ◌≢◌, refl, ap, ◌∙◌, inl, inr, Bool, true, false, ◌||◌, List, [], ◌∷◌, ◌++◌, arith,
  if◌then◌else◌, Bool-cases,
}
use cppecho.Python.Str.{Text, codes, text_eq}
use cppecho.Python.Str.Laws.{text_eq_iff}
use cppecho.Cpplint.Language.Includes.{append_to_last, add_include}
use cppecho.Cpplint.Includes.{
  IncludeState, find_in_section, find_in_sections, find_header, reset_section, list_after,
  empty_last,
}
use cppecho.Cpplint.Includes.Headers.{Include, includes, later}

-- All but the last section.
abbrev pub but_last : List (List Include) → List (List Include)
but_last [] = []
but_last (l ∷ []) = []
but_last (l ∷ m ∷ ls) = l ∷ but_last (m ∷ ls)

abbrev pub is_else : Text → Bool
is_else directive = text_eq directive (codes "else") || text_eq directive (codes "elif")

includes-empty_last : (ls : List (List Include)) → includes (empty_last ls) ≡ includes (but_last ls)
unfolding empty_last
includes-empty_last [] = refl
includes-empty_last (l ∷ []) = refl
includes-empty_last (l ∷ m ∷ ls) =
    ap (λ (is : List Include). l ++ is) (includes-empty_last (m ∷ ls))

includes-concat_nil : (ls : List (List Include)) → includes (ls ++ [] ∷ []) ≡ includes ls
includes-concat_nil [] = refl
includes-concat_nil (l ∷ ls) = ap (λ (is : List Include). l ++ is) (includes-concat_nil ls)

empty_last-ne-nil : (ls : List (List Include)) → ls ≢ [] → empty_last ls ≢ []
unfolding empty_last
empty_last-ne-nil [] h = h
empty_last-ne-nil (l ∷ []) h = λ e. cc
empty_last-ne-nil (l ∷ m ∷ ls) h = λ e. cc

-- The directives of the first branch are not those of the second.
opens_not_else :
    (directive : Text)
    → (text_eq directive (codes "if")
        || text_eq directive (codes "ifdef")
        || text_eq directive (codes "ifndef"))
      ≡ true
    → is_else directive ≡ false
opens_not_else directive h = ground (
  arith,
  text_eq_iff directive (codes "if"),
  text_eq_iff directive (codes "ifdef"),
  text_eq_iff directive (codes "ifndef"),
  text_eq_iff directive (codes "else"),
  text_eq_iff directive (codes "elif"),
)

includes-list_after :
    (directive : Text) (ls : List (List Include))
    → includes (list_after directive ls) ≡ includes (if is_else directive then but_last ls else ls)
unfolding list_after
includes-list_after directive ls =
    ground (arith, opens_not_else directive, includes-concat_nil ls, includes-empty_last ls)

list_after-ne-nil :
    (directive : Text) (ls : List (List Include)) → ls ≢ [] → list_after directive ls ≢ []
unfolding list_after
list_after-ne-nil directive [] h = absurd (h refl)
list_after-ne-nil directive (l ∷ ls) h = ground (arith, empty_last-ne-nil (l ∷ ls))

abbrev pub is_opening : Text → Bool
is_opening directive =
    text_eq directive (codes "if")
    || text_eq directive (codes "ifdef")
    || text_eq directive (codes "ifndef")

-- One include after another is added to the last section.
abbrev pub add_includes : List Include → IncludeState → IncludeState
add_includes [] s = s
add_includes ((header, linenum) ∷ is) s = add_includes is (add_include header linenum s)

append_to_last-append :
    (i : Include) (last : List Include) (ls : List (List Include))
    → append_to_last i (ls ++ last ∷ []) ≡ ls ++ (last ++ i ∷ []) ∷ []
unfolding append_to_last
append_to_last-append i last [] = refl
append_to_last-append i last (l ∷ []) = refl
append_to_last-append i last (l ∷ m ∷ ls) =
    ap (λ (x : List (List Include)). l ∷ x) (append_to_last-append i last (m ∷ ls))

add_includes-last :
    (added last : List Include) (ls : List (List Include)) (s : IncludeState)
    → s.include_list ≡ ls ++ last ∷ []
    → (l : List Include) × ((add_includes added s).include_list ≡ ls ++ l ∷ [])
unfolding add_include
add_includes-last [] last ls s h = (last, h)
add_includes-last ((header, n) ∷ is) last ls s h =
    add_includes-last is (last ++ (header, n) ∷ []) ls (add_include header n s)
      (ap (append_to_last (header, n)) h ∙ append_to_last-append (header, n) last ls)

empty_last-append :
    (last : List Include) (ls : List (List Include)) → empty_last (ls ++ last ∷ []) ≡ ls ++ [] ∷ []
unfolding empty_last
empty_last-append last [] = refl
empty_last-append last (l ∷ []) = refl
empty_last-append last (l ∷ m ∷ ls) =
    ap (λ (x : List (List Include)). l ∷ x) (empty_last-append last (m ∷ ls))

but_last-last :
    (ls : List (List Include)) → ls ≢ [] → (l : List Include) × (ls ≡ but_last ls ++ l ∷ [])
but_last-last [] h = absurd (h refl)
but_last-last (l ∷ []) h = (l, refl)
but_last-last (l ∷ m ∷ ls) h =
    let (k, e) = but_last-last (m ∷ ls) (λ f. cc) in (k, ap (λ (x : List (List Include)). l ∷ x) e)

empty_last-but_last : (ls : List (List Include)) → ls ≢ [] → empty_last ls ≡ but_last ls ++ [] ∷ []
empty_last-but_last ls h =
    let (l, e) = but_last-last ls h in ap empty_last e ∙ empty_last-append l (but_last ls)

-- The sections in front of the one that a directive leaves to add to
abbrev pub outer : Text → List (List Include) → List (List Include)
outer directive ls = if is_opening directive then ls else but_last ls

list_after-else :
    (directive : Text) (ls : List (List Include))
    → is_else directive ≡ true
    → list_after directive ls ≡ empty_last ls
unfolding list_after
list_after-else directive ls h = ground (arith, opens_not_else directive)

list_after-outer :
    (directive : Text) (ls : List (List Include))
    → ls ≢ []
    → (l : List Include) × (list_after directive ls ≡ outer directive ls ++ l ∷ [])
unfolding list_after
list_after-outer directive ls h = elim (Bool-cases (is_opening directive)) [
  | inl e ↦ ([], rw e refl)
  | inr e ↦ elim (Bool-cases (is_else directive)) [
    | inl f ↦ ([], rw (e, f) (empty_last-but_last ls h))
    | inr f ↦ let (l, k) = but_last-last ls h in (l, rw (e, f) k)
  ]
]

find_in_sections-concat_nil :
    (header : Text) (ls : List (List Include))
    → find_in_sections header (ls ++ [] ∷ []) ≡ find_in_sections header ls
unfolding find_in_sections find_in_section
find_in_sections-concat_nil header [] = refl
find_in_sections-concat_nil header (l ∷ ls) =
    ap (later (find_in_section header l)) (find_in_sections-concat_nil header ls)

-- A directive forgets the last section's includes when it is #else or #elif, keeps all includes else,
-- and starts the order of the sections and the alphabet anew. Whatever includes follow it, a later
-- #else or #elif forgets exactly the section that they are in: the list is then the one of before the
-- directive if that was #if, #ifdef or #ifndef, and that list without its last section else, with an
-- empty section to add to; and FindHeader finds what it would find in those.
pub reset_section_lem :
    (directive alternative header : Text) (added : List Include) (s : IncludeState)
    → s.include_list ≢ []
    → is_else alternative ≡ true
    → let reset = reset_section directive s in
      let later = reset_section alternative (add_includes added reset) in
      (includes reset.include_list
        ≡ includes (if is_else directive then but_last s.include_list else s.include_list))
      × (reset.section ≡ 0)
      × (reset.last_header ≡ [])
      × (later.include_list ≡ outer directive s.include_list ++ [] ∷ [])
      × (find_header header later
          ≡ find_header header (record s { include_list = outer directive s.include_list }))
unfolding reset_section find_header
reset_section_lem directive alternative header added s h k =
    let reset = reset_section directive s in
    let (l, e) = list_after-outer directive s.include_list h in
    let (m, f) = add_includes-last added l (outer directive s.include_list) reset e in
    let back =
      list_after-else alternative (add_includes added reset).include_list k
      ∙ ap empty_last f
      ∙ empty_last-append m (outer directive s.include_list) in
    (
      includes-list_after directive s.include_list,
      refl,
      refl,
      back,
      ap (find_in_sections header) back
          ∙ find_in_sections-concat_nil header (outer directive s.include_list),
    )
