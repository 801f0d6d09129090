-- ===== src/Cpplint/Style/Constructs/Arguments.antt =====
-- The loop of CheckForNonStandardConstructs in tools/cpplint/cpplint.py that joins arguments which a comma
-- inside brackets has split.
use cppecho.Prelude.{
  ℕ, zero, suc, ◌≡◌, refl, sym, ap, subst, ◌∙◌, ◌⊎◌, inl, inr, true, false, if◌then◌else◌, List, [],
  ◌∷◌, ◌++◌, Option, none, some, take, All, append_assoc, Bool-cases,
}
use cppecho.Python.Str.{Text, codes}
use cppecho.Cpplint.Style.Constructs.Explicit.{is_open, collapse_from, collapse_args}

-- Arguments with commas between them
pub join_from : Text → List Text → Text
join_from arg [] = arg
join_from arg (next ∷ args) = arg ++ codes "," ++ join_from next args

pub join : List Text → Text
unfolding join_from
join [] = []
join (arg ∷ args) = join_from arg args

join_from-append : (s t : Text) (args : List Text) → join_from (s ++ t) args ≡ s ++ join_from t args
unfolding join_from
join_from-append s t [] = refl
join_from-append s t (next ∷ args) =
    ap (λ (u : Text). u ++ join_from next args) (append_assoc s t (codes ","))
    ∙ append_assoc s (t ++ codes ",") (join_from next args)

-- From an argument on, brackets are open however many of the arguments behind it are joined to it.
pub StaysOpen : Text → List Text → Type 0
StaysOpen arg args = (k : ℕ) → is_open (join_from arg (take k args)) ≡ true

-- What the loop has done: it has joined arguments such that none has an open bracket, or it has come to
-- one from which brackets stay open.
abbrev pub Outcome : List Text → Option (List Text) → Type 0
Outcome args (some collapsed) =
    (join collapsed ≡ join args) × All (λ arg. is_open arg ≡ false) collapsed
Outcome args none =
    (front : List Text) × (arg : Text) × (back : List Text) × (args ≡ front ++ (arg ∷ back))
    × StaysOpen arg back

-- The same, where the first argument may be joined already
abbrev OutcomeFrom : Text → List Text → Option (List Text) → Type 0
OutcomeFrom arg args (some []) = ⊥
OutcomeFrom arg args (some (x ∷ rest)) =
    (join_from x rest ≡ join_from arg args) × All (λ arg. is_open arg ≡ false) (x ∷ rest)
OutcomeFrom arg args none = StaysOpen arg args ⊎ Outcome args none

alone-StaysOpen : (arg : Text) → is_open arg ≡ true → StaysOpen arg []
unfolding StaysOpen join_from
alone-StaysOpen arg h zero = h
alone-StaysOpen arg h (suc k) = h

joined-StaysOpen :
    (arg next : Text) (args : List Text)
    → is_open arg ≡ true
    → StaysOpen (arg ++ codes "," ++ next) args
    → StaysOpen arg (next ∷ args)
unfolding StaysOpen join_from
joined-StaysOpen arg next args h stays zero = h
joined-StaysOpen arg next args h stays (suc k) =
    ap is_open (sym (join_from-append (arg ++ codes ",") next (take k args))) ∙ stays k

joined-OutcomeFrom :
    (arg next : Text) (args : List Text) (o : Option (List Text))
    → is_open arg ≡ true
    → OutcomeFrom (arg ++ codes "," ++ next) args o
    → OutcomeFrom arg (next ∷ args) o
unfolding join_from
joined-OutcomeFrom arg next args (some []) h f = f
joined-OutcomeFrom arg next args (some (x ∷ rest)) h (j, closed) =
    (j ∙ join_from-append (arg ++ codes ",") next args, closed)
joined-OutcomeFrom arg next args none h (inl stays) = inl (joined-StaysOpen arg next args h stays)
joined-OutcomeFrom arg next args none h (inr (front, x, back, e, stays)) =
    inr (next ∷ front, x, back, ap (λ (r : List Text). next ∷ r) e, stays)

closed-OutcomeFrom :
    (arg next : Text) (args : List Text) (o : Option (List Text))
    → is_open arg ≡ false
    → OutcomeFrom next args o
    → OutcomeFrom arg (next ∷ args) (elim o [ none ↦ none | some rest ↦ some (arg ∷ rest) ])
unfolding join_from
closed-OutcomeFrom arg next args (some []) h f = absurd f
closed-OutcomeFrom arg next args (some (x ∷ rest)) h (j, closed) =
    (ap (λ (t : Text). arg ++ codes "," ++ t) j, (h, closed))
closed-OutcomeFrom arg next args none h (inl stays) = inr ([], next, args, refl, stays)
closed-OutcomeFrom arg next args none h (inr (front, x, back, e, stays)) =
    inr (next ∷ front, x, back, ap (λ (r : List Text). next ∷ r) e, stays)

collapse_from-open :
    (arg next : Text) (args : List Text)
    → is_open arg ≡ true
    → collapse_from arg (next ∷ args) ≡ collapse_from (arg ++ codes "," ++ next) args
unfolding collapse_from
collapse_from-open arg next args h = rw (h, collapse_from) refl

collapse_from-closed :
    (arg next : Text) (args : List Text)
    → is_open arg ≡ false
    → collapse_from arg (next ∷ args)
      ≡ elim (collapse_from next args) [ none ↦ none | some rest ↦ some (arg ∷ rest) ]
unfolding collapse_from
collapse_from-closed arg next args h = rw (h, collapse_from) refl

collapse_from-alone :
    (arg : Text) → collapse_from arg [] ≡ (if is_open arg then none else some (arg ∷ []))
unfolding collapse_from
collapse_from-alone arg = refl

collapse_from-OutcomeFrom :
    (arg : Text) (args : List Text) → OutcomeFrom arg args (collapse_from arg args)
collapse_from-OutcomeFrom arg [] = elim (Bool-cases (is_open arg)) [
  | inl h ↦ rw (collapse_from-alone arg, h) (inl (alone-StaysOpen arg h))
  | inr h ↦ rw (collapse_from-alone arg, h) (refl, (h, tt))
]
collapse_from-OutcomeFrom arg (next ∷ args) = elim (Bool-cases (is_open arg)) [
  | inl h ↦ subst (OutcomeFrom arg (next ∷ args)) (sym (collapse_from-open arg next args h)) (
      joined-OutcomeFrom arg next args (collapse_from (arg ++ codes "," ++ next) args) h
        (collapse_from-OutcomeFrom (arg ++ codes "," ++ next) args))
  | inr h ↦ subst (OutcomeFrom arg (next ∷ args)) (sym (collapse_from-closed arg next args h)) (
      closed-OutcomeFrom arg next args (collapse_from next args) h
        (collapse_from-OutcomeFrom next args))
]

OutcomeFrom-Outcome :
    (arg : Text) (args : List Text) (o : Option (List Text))
    → OutcomeFrom arg args o
    → Outcome (arg ∷ args) o
unfolding join
OutcomeFrom-Outcome arg args (some []) f = absurd f
OutcomeFrom-Outcome arg args (some (x ∷ rest)) h = h
OutcomeFrom-Outcome arg args none (inl stays) = ([], arg, args, refl, stays)
OutcomeFrom-Outcome arg args none (inr (front, x, back, e, stays)) =
    (arg ∷ front, x, back, ap (λ (r : List Text). arg ∷ r) e, stays)

-- The loop over a constructor's arguments ends with arguments that, with commas between them, are the
-- same text as before, and none of which opens more brackets than it closes. Or it ends the program with
-- an IndexError: then there is an argument from which brackets stay open, however many of the arguments
-- behind it are joined to it.
pub collapse_args-Outcome : (args : List Text) → Outcome args (collapse_args args)
unfolding collapse_args join
collapse_args-Outcome [] = (refl, tt)
collapse_args-Outcome (arg ∷ args) =
    OutcomeFrom-Outcome arg args (collapse_from arg args) (collapse_from-OutcomeFrom arg args)
