-- ===== src/Python/Str/Laws.antt =====
-- What the string tests decide.
use cppecho.Prelude.{
  ℕ, suc, ◌+◌, Option, none, some, if◌then◌else◌, ◌≡◌, refl, ap, true, false, [], ◌∷◌, ◌++◌, ◌↔◌,
  ◌≢◌, inl, inr, arith, ◌==◌, Bool-cases, length, take, drop, ◌-◌, ◌≤◌, length-append,
  drop-length_append, take-append-drop,
}
use cppecho.Python.Str.{Text, text_eq, startswith, endswith, find}

pub text_eq_iff : (s t : Text) → (text_eq s t ≡ true) ↔ (s ≡ t)
unfolding text_eq
text_eq_iff (x ∷ s) (y ∷ t) = ground (arith, text_eq_iff s t)
text_eq_iff _ _ = ground arith

pub text_eq_refl : (s : Text) → text_eq s s ≡ true
text_eq_refl s = (text_eq_iff s s).1 refl

pub text_eq_ne : (s t : Text) → s ≢ t → text_eq s t ≡ false
text_eq_ne s t h = ground (arith, text_eq_iff s t)

pub startswith-append : (p s : Text) → startswith (p ++ s) p ≡ true
unfolding startswith
startswith-append [] [] = refl
startswith-append [] (c ∷ s) = refl
startswith-append (d ∷ p) s = ground (arith, startswith-append p s)

-- A text starts with `p` exactly when it is `p` and something.
pub startswith→append : (s p : Text) → startswith s p ≡ true → (t : Text) × (s ≡ p ++ t)
unfolding startswith
startswith→append s [] h = (s, refl)
startswith→append [] (c ∷ p) h = absurd (cc)
startswith→append (d ∷ s) (c ∷ p) h = elim (Bool-cases (d == c)) [
  | inl e ↦ let (t, q) = startswith→append s p (ground arith) in (t, ground arith)
  | inr e ↦ absurd (ground arith)
]

pub endswith→append :
    (s p : Text)
    → endswith s p ≡ true
    → (s ≡ take (length s - length p) s ++ p) × (length p ≤ length s)
unfolding endswith
endswith→append s p h = (
  cc (
    take-append-drop (length s - length p) s,
    (text_eq_iff (drop (length s - length p) s) p).0 (ground arith),
  ),
  ground arith,
)

pub endswith-append : (s p : Text) → endswith (s ++ p) p ≡ true
unfolding endswith
endswith-append s p =
    let e : length (s ++ p) - length p ≡ length s = omega (arith, length-append s p) in
    rw (e, drop-length_append s p, text_eq_refl p) (ground (arith, length-append s p))

pub take-length_append : (s p : Text) → take (length s) (s ++ p) ≡ s
take-length_append [] p = refl
take-length_append (c ∷ s) p = ap (◌∷◌ c) (take-length_append s p)

-- What `find` finds lies inside the text.
pub find-le : (s p : Text) (i : ℕ) → find s p ≡ some i → i + length p ≤ length s
unfolding find
find-le [] p i h = elim (Bool-cases (text_eq p [])) [
  | inl e ↦
      let empty : p ≡ [] = (text_eq_iff p []).0 e in
      let zero_i : i ≡ 0 = ground arith in rw (empty, zero_i) (omega arith)
  | inr e ↦ absurd (ground arith)
]
find-le (c ∷ s) p i h = elim (Bool-cases (startswith (c ∷ s) p)) [
  | inl e ↦
      let (t, q) = startswith→append (c ∷ s) p e in
      let zero_i : i ≡ 0 = ground arith in omega (arith, ap length q, length-append p t)
  | inr e ↦ below (find s p) refl (find-le s p) (rw (e, if◌then◌else◌) at h)
]
  where
    below :
        (o : Option ℕ)
        → find s p ≡ o
        → ((j : ℕ) → find s p ≡ some j → j + length p ≤ length s)
        → elim o [ none ↦ none | some i ↦ some (suc i) ] ≡ some i
        → i + length p ≤ length (c ∷ s)
    below none e inside k = absurd (cc)
    below (some j) e inside k = let same : suc j ≡ i = ground arith in omega (arith, inside j e)
