-- ===== src/Python/Path/Laws.antt =====
-- Directories of a path are shorter paths that it starts with.
use cppecho.Prelude.{
  ℕ, ◌≤◌, ◌≡◌, refl, ap, sym, ◌∙◌, inl, inr, Bool, true, false, [], ◌∷◌, ◌++◌, ◌==◌, ==_refl,
  if◌then◌else◌, take, drop, all, Bool-cases, append_assoc, append-nil, length, length-append, ◌<◌,
  arith, take-append-drop,
}
use cppecho.Python.Str.{Text, text_eq, rstrip_by}
use cppecho.Python.Str.Laws.{text_eq_refl}
use cppecho.Python.Path.{path_split, dirname, commonprefix, rfind_suc}

-- What rstrip leaves is what the text starts with.
pub rstrip_by-append : (p : ℕ → Bool) (s : Text) → (t : Text) × (s ≡ rstrip_by p s ++ t)
unfolding rstrip_by
rstrip_by-append p [] = ([], refl)
rstrip_by-append p (c ∷ s) = let (t, e) = rstrip_by-append p s in put (rstrip_by p s) t e
  where
    put :
        (r t : Text)
        → s ≡ r ++ t
        → (u : Text) × (c ∷ s
            ≡ (elim r [ [] ↦ if p c then [] else c ∷ [] | d ∷ r ↦ c ∷ d ∷ r ]) ++ u)
    put [] t e = elim (Bool-cases (p c)) [
      | inl h ↦ (c ∷ t, rw h (ap (◌∷◌ c) e))
      | inr h ↦ (t, rw h (ap (◌∷◌ c) e))
    ]
    put (d ∷ r) t e = (t, ap (◌∷◌ c) e)

pub dirname-append : (p : Text) → (t : Text) × (p ≡ dirname p ++ t)
unfolding dirname path_split
dirname-append p = put (all (λ c. c == b'/') (take (rfind_suc p b'/') p))
  where
    i : ℕ
    i = rfind_suc p b'/'

    put :
        (b : Bool)
        → (t : Text) × (p ≡ (if b then take i p else rstrip_by (λ c. c == b'/') (take i p)) ++ t)
    put true = (drop i p, sym (take-append-drop i p))
    put false =
        let (t, e) = rstrip_by-append (λ c. c == b'/') (take i p) in
        (
          t ++ drop i p,
          sym (take-append-drop i p)
              ∙ ap (λ h. h ++ drop i p) e
              ∙ append_assoc (rstrip_by (λ c. c == b'/') (take i p)) t (drop i p),
        )

pub commonprefix-append : (p t : Text) → commonprefix p (p ++ t) ≡ p
unfolding commonprefix
commonprefix-append [] t = refl
commonprefix-append (c ∷ p) t = rw (==_refl c) (ap (◌∷◌ c) (commonprefix-append p t))

-- A path is its directory, perhaps slashes, and its last part.
path_split-append : (p : Text) → (t : Text) × (p ≡ ((path_split p).0 ++ t) ++ (path_split p).1)
unfolding path_split
path_split-append p = put (all (λ c. c == b'/') (take (rfind_suc p b'/') p))
  where
    i : ℕ
    i = rfind_suc p b'/'

    put :
        (b : Bool)
        → (t : Text) × (p
            ≡ ((if b then take i p else rstrip_by (λ c. c == b'/') (take i p)) ++ t) ++ drop i p)
    put true =
        ([], sym (take-append-drop i p) ∙ ap (λ h. h ++ drop i p) (sym (append-nil (take i p))))
    put false =
        let (t, e) = rstrip_by-append (λ c. c == b'/') (take i p) in
        (t, sym (take-append-drop i p) ∙ ap (λ h. h ++ drop i p) e)

pub path_split-shorter :
    (p : Text) → text_eq (path_split p).1 [] ≡ false → length (path_split p).0 < length p
path_split-shorter p h = let (t, e) = path_split-append p in put (path_split p).1 h t e
  where
    put :
        (base : Text)
        → text_eq base [] ≡ false
        → (t : Text) → p ≡ ((path_split p).0 ++ t) ++ base
        → length (path_split p).0 < length p
    put [] k t e = absurd (cc (text_eq_refl []))
    put (c ∷ base) k t e = omega (
      arith,
      ap length e,
      length-append ((path_split p).0 ++ t) (c ∷ base),
      length-append (path_split p).0 t,
    )

-- What `rfind` finds lies inside the text.
pub rfind_suc-le : (s : Text) (c : ℕ) → rfind_suc s c ≤ length s
unfolding rfind_suc
rfind_suc-le [] c = omega arith
rfind_suc-le (d ∷ s) c = ground (arith, rfind_suc-le s c)
