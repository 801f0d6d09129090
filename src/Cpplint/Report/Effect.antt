-- ===== src/Cpplint/Report/Effect.antt =====
-- What the function Error does to the global state.
use cppecho.Prelude.{
  ℕ, suc, ◌+◌, ◌≡◌, refl, ap, sym, ◌∙◌, inl, inr, Bool, true, false, List, [], ◌∷◌, ◌++◌, Option,
  none, some, arith, Option-cases, if◌then◌else◌, length, length-append,
}
use cppecho.Python.Str.{Text}
use cppecho.Cpplint.State.{increment_error_count}
use cppecho.Cpplint.State.Filters.{IsSigned}
use cppecho.Cpplint.Report.{Linter, formatted, print_error, should_print_error, error}
use cppecho.Cpplint.Report.Decision.{prints, should_print_error_lem}

error_by_choice :
    (filename : Text) (linenum : ℕ) (category : Text) (confidence : ℕ) (message : Text) (l : Linter)
    (b : Bool)
    → should_print_error category confidence linenum l ≡ some b
    → error filename linenum category confidence message (some l)
      ≡ some (if b then print_error filename linenum category confidence message l else l)
unfolding error
error_by_choice filename linenum category confidence message l true e = rw (e, error)
error_by_choice filename linenum category confidence message l false e = rw (e, error)

-- With filters that all have a sign, Error does not end the program. A report that is to be printed adds
-- its line to what goes to stderr and one to the count of errors; any other report leaves both as they
-- are. The filters and the suppressions stay the same.
pub error_lem :
    (filename : Text) (linenum : ℕ) (category : Text) (confidence : ℕ) (message : Text) (l : Linter)
    → IsSigned l.state.filters
    → (l' : Linter) × (error filename linenum category confidence message (some l) ≡ some l')
      × (l'.stderr ≡ (
          if prints category confidence linenum l
          then l.stderr
            ++ formatted l.state.output_format filename linenum category confidence message ∷ []
          else l.stderr))
      × (l'.state.error_count ≡ (
          if prints category confidence linenum l
          then suc l.state.error_count
          else l.state.error_count))
      × (l'.suppressions ≡ l.suppressions)
      × (l'.state.filters ≡ l.state.filters)
error_lem filename linenum category confidence message l h =
    go (prints category confidence linenum l) (
      error_by_choice filename linenum category confidence message l
        (prints category confidence linenum l)
        (should_print_error_lem category confidence linenum l h))
  where
    line : Text
    line = formatted l.state.output_format filename linenum category confidence message

    go :
        (b : Bool)
        → error filename linenum category confidence message (some l)
          ≡ some (if b then print_error filename linenum category confidence message l else l)
        → (l' : Linter) × (error filename linenum category confidence message (some l) ≡ some l')
          × (l'.stderr ≡ (if b then l.stderr ++ line ∷ [] else l.stderr))
          × (l'.state.error_count ≡ (if b then suc l.state.error_count else l.state.error_count))
          × (l'.suppressions ≡ l.suppressions)
          × (l'.state.filters ≡ l.state.filters)
    go true e = (
      print_error filename linenum category confidence message l,
      e,
      unfold print_error in refl,
      unfold print_error increment_error_count in ground arith,
      unfold print_error in refl,
      unfold print_error increment_error_count in ground arith,
    )
    go false e = (l, e, refl, refl, refl, refl)

-- One report: line, category, confidence and message.
pub record Item : Type 0 where
  pub linenum : ℕ
  pub category : Text
  pub confidence : ℕ
  pub message : Text

-- One report after another on a file.
abbrev pub report_all : Text → List Item → Option Linter → Option Linter
report_all filename [] l = l
report_all filename (i ∷ is) l =
    report_all filename is (error filename i.linenum i.category i.confidence i.message l)

-- With filters that all have a sign, any reports leave a state with the same filters and
-- suppressions, and the count of errors has grown by the number of lines that went to stderr.
pub report_all_lem :
    (filename : Text) (is : List Item) (l : Linter)
    → IsSigned l.state.filters
    → (l' : Linter) × (report_all filename is (some l) ≡ some l')
      × (length l'.stderr + l.state.error_count ≡ length l.stderr + l'.state.error_count)
      × (l'.suppressions ≡ l.suppressions)
      × (l'.state.filters ≡ l.state.filters)
report_all_lem filename [] l h = (l, refl, omega arith, refl, refl)
report_all_lem filename (i ∷ is) l h =
    let (l₁, e, out, count, sup, filters) =
      error_lem filename i.linenum i.category i.confidence i.message l h in
    let (l₂, q, lines, sup', filters') = report_all_lem filename is l₁ (rw filters h) in
    let step : length l₁.stderr + l.state.error_count ≡ length l.stderr + l₁.state.error_count =
      grows (prints i.category i.confidence i.linenum l)
        (formatted l.state.output_format filename i.linenum i.category i.confidence i.message)
        (ap length out) count in
    (l₂, rw e q, omega arith, sup' ∙ sup, filters' ∙ filters)
  where
    grows :
        (b : Bool) (line : Text) {n k : ℕ}
        → n ≡ length (if b then l.stderr ++ line ∷ [] else l.stderr)
        → k ≡ (if b then suc l.state.error_count else l.state.error_count)
        → n + l.state.error_count ≡ length l.stderr + k
    grows true t p q = omega (arith, length-append l.stderr (t ∷ []))
    grows false t p q = omega arith

-- A report does not touch the backup of the filters.
pub error-filters_backup :
    (filename : Text) (linenum : ℕ) (category : Text) (confidence : ℕ) (message : Text)
    (l l' : Linter)
    → error filename linenum category confidence message (some l) ≡ some l'
    → l'.state.filters_backup ≡ l.state.filters_backup
error-filters_backup filename linenum category confidence message l l' h =
    elim (Option-cases (should_print_error category confidence linenum l)) [
      | inl e ↦ absurd (cc (h, stops e))
      | inr (b, e) ↦
          let q = error_by_choice filename linenum category confidence message l b e in
          kept b (sym q ∙ h)
    ]
  where
    stops :
        should_print_error category confidence linenum l ≡ none
        → error filename linenum category confidence message (some l) ≡ none
    stops e = unfold error in rw (e, error) refl

    kept :
        (b : Bool)
        → some (if b then print_error filename linenum category confidence message l else l)
          ≡ some l'
        → l'.state.filters_backup ≡ l.state.filters_backup
    kept true e =
        let e' : print_error filename linenum category confidence message l ≡ l' = cc in
        ap (λ x. x.state.filters_backup) (sym e')
        ∙ unfold print_error increment_error_count in ground arith
    kept false e = let e' : l ≡ l' = cc in ap (λ x. x.state.filters_backup) (sym e')
