-- ===== src/Cpplint/Files/Suffixes.antt =====
-- _DropCommonSuffixes takes each of its suffixes off, with the mark in front of it.
use cppecho.Prelude.{
  ℕ, suc, ◌+◌, ◌-◌, ◌≤◌, ◌<◌, ◌≡◌, refl, ap, sym, ◌∙◌, inl, inr, Bool, true, false, ◌||◌, List, [],
  ◌∷◌, ◌++◌, ◌==◌, length, drop, take, get_or, arith, length-append, append_assoc, All, All-append,
  Bool-cases,
}
use cppecho.Python.Str.{Text, codes, text_eq, endswith}
use cppecho.Python.Str.Laws.{take-length_append, endswith→append, endswith-append}
use cppecho.Cpplint.Files.{common_suffixes, has_common_suffix, drop_suffix, drop_common_suffixes}

drop-append : (n : ℕ) (b s : Text) → drop (length b + n) (b ++ s) ≡ drop n s
drop-append n [] s = let e : 0 + n ≡ n = omega arith in rw e refl
drop-append n (c ∷ b) s =
    let e : suc (length b) + n ≡ suc (length b + n) = omega arith in rw e (drop-append n b s)

get_or-append : (n : ℕ) (b s : Text) (d : ℕ) → get_or (b ++ s) (length b + n) d ≡ get_or s n d
get_or-append n [] s d = let e : 0 + n ≡ n = omega arith in rw e refl
get_or-append n (c ∷ b) s d =
    let e : suc (length b) + n ≡ suc (length b + n) = omega arith in rw e (get_or-append n b s d)

-- A test for a suffix that is shorter than `s` does not depend on what stands before `s`.
has_common_suffix-append :
    (b s suffix : Text)
    → length suffix < length s
    → has_common_suffix (b ++ s) suffix ≡ has_common_suffix s suffix
unfolding has_common_suffix endswith
has_common_suffix-append b s suffix h =
    let e : length (b ++ s) - length suffix ≡ length b + (length s - length suffix) =
      omega (arith, length-append b s) in
    let f : length (b ++ s) - length suffix - 1 ≡ length b + (length s - length suffix - 1) =
      omega (arith, length-append b s) in
    rw
      (
        f,
        e,
        drop-append (length s - length suffix) b s,
        get_or-append (length s - length suffix - 1) b s 0,
      )
      (ground (arith, length-append b s))

endswith-of_append : (b s q : Text) → length q ≤ length s → endswith (b ++ s) q ≡ endswith s q
unfolding endswith
endswith-of_append b s q h =
    let e : length (b ++ s) - length q ≡ length b + (length s - length q) =
      omega (arith, length-append b s) in
    rw (e, drop-append (length s - length q) b s) (ground (arith, length-append b s))

-- A text with another end than a suffix does not have the suffix.
other_end : (x p q : Text) → endswith x q ≡ false → has_common_suffix x (p ++ q) ≡ false
unfolding has_common_suffix
other_end x p q h = elim (Bool-cases (endswith x (p ++ q))) [
  | inr e ↦ rw e refl
  | inl e ↦
      let (k, _) = endswith→append x (p ++ q) e in
      let front = take (length x - length (p ++ q)) x in
      absurd (
        cc (
          h,
          endswith-append (front ++ p) q,
          ap (λ t. endswith t q) (k ∙ sym (append_assoc front p q)),
        ))
]

abbrev pub is_mark : ℕ → Bool
is_mark c = c == b'-' || c == b'_'

hit :
    (stem suffix : Text) (mark : ℕ)
    → is_mark mark ≡ true
    → (has_common_suffix (stem ++ mark ∷ suffix) suffix ≡ true)
      × (take (length (stem ++ mark ∷ suffix) - length suffix - 1) (stem ++ mark ∷ suffix) ≡ stem)
hit stem suffix mark h =
    let e : length (stem ++ mark ∷ suffix) - length suffix - 1 ≡ length stem =
      omega (arith, length-append stem (mark ∷ suffix)) in
    (
      has_common_suffix-append stem (mark ∷ suffix) suffix (omega arith) ∙ alone,
      rw e (take-length_append stem (mark ∷ suffix)),
    )
  where
    alone : has_common_suffix (mark ∷ suffix) suffix ≡ true
    alone =
        unfold has_common_suffix in
        let z : length (mark ∷ suffix) - length suffix - 1 ≡ 0 = omega arith in
        rw (z, endswith-append (mark ∷ []) suffix, h) (ground arith)

drop_suffix-hit :
    (first others : List Text) (stem suffix : Text) (mark : ℕ)
    → is_mark mark ≡ true
    → All (λ s. has_common_suffix (stem ++ mark ∷ suffix) s ≡ false) first
    → drop_suffix (first ++ suffix ∷ others) (stem ++ mark ∷ suffix) ≡ stem
unfolding drop_suffix
drop_suffix-hit [] others stem suffix mark h a =
    let (e, q) = hit stem suffix mark h in rw (e, q) refl
drop_suffix-hit (s ∷ first) others stem suffix mark h a =
    rw a.0 (drop_suffix-hit first others stem suffix mark h a.1)

module _ (stem : Text) (mark : ℕ) where
  -- A suffix that is not longer and that the rest does not have.
  short :
      (s p : Text)
      → length p ≤ length s
      → has_common_suffix (mark ∷ s) p ≡ false
      → has_common_suffix (stem ++ mark ∷ s) p ≡ false
  short s p le e = has_common_suffix-append stem (mark ∷ s) p (omega arith) ∙ e

  -- A name that does not end with a c has no suffix of a source file.
  no_source :
      (s : Text)
      → endswith (mark ∷ s) (codes "c") ≡ false
      → All (λ p. has_common_suffix (stem ++ mark ∷ s) p ≡ false) (take 3 common_suffixes)
  no_source s e =
      let f = endswith-of_append stem (mark ∷ s) (codes "c") (omega arith) ∙ e in
      (
        other_end (stem ++ mark ∷ s) (codes "test.c") (codes "c") f,
        (
          other_end (stem ++ mark ∷ s) (codes "regtest.c") (codes "c") f,
          (other_end (stem ++ mark ∷ s) (codes "unittest.c") (codes "c") f, tt),
        ),
      )

-- A stem with a hyphen or an underscore and one of the six suffixes behind it is cut to the stem.
pub drop_common_suffixes-append :
    (stem : Text) (mark : ℕ)
    → is_mark mark ≡ true
    → All (λ suffix. drop_common_suffixes (stem ++ mark ∷ suffix) ≡ stem) common_suffixes
unfolding drop_common_suffixes has_common_suffix endswith text_eq
drop_common_suffixes-append stem mark h =
    let three = take 3 common_suffixes in
    let cut = λ (first : List Text) (others : List Text) (suffix : Text).
      drop_suffix-hit first others stem suffix mark h in
    let no = λ (s : Text) (p : Text). short stem mark s p in
    let unittest = codes "unittest.cc" in
    let impl = codes "impl.h" in
    let internal = codes "internal.h" in
    let missed = λ (s : Text) (p : Text). has_common_suffix (stem ++ mark ∷ s) p ≡ false in
    (
      cut [] (drop 1 common_suffixes) (codes "test.cc") tt,
      (
        cut (take 1 common_suffixes) (drop 2 common_suffixes) (codes "regtest.cc")
            (no (codes "regtest.cc") (codes "test.cc") (omega arith) refl, tt),
        (
          cut (take 2 common_suffixes) (drop 3 common_suffixes) unittest (
            no unittest (codes "test.cc") (omega arith) refl,
            (no unittest (codes "regtest.cc") (omega arith) refl, tt),
          ),
          (
            cut three (drop 4 common_suffixes) (codes "inl.h")
                (no_source stem mark (codes "inl.h") refl),
            (
              cut (three ++ codes "inl.h" ∷ []) (drop 5 common_suffixes) impl (
                  All-append (missed impl) three (codes "inl.h" ∷ [])
                    (no_source stem mark impl refl)
                    (no impl (codes "inl.h") (omega arith) refl, tt)),
              (
                cut (three ++ codes "inl.h" ∷ impl ∷ []) [] internal (
                    All-append (missed internal) three (codes "inl.h" ∷ impl ∷ [])
                      (no_source stem mark internal refl)
                      (
                        no internal (codes "inl.h") (omega arith) refl,
                        (no internal impl (omega arith) refl, tt),
                      )),
                tt,
              ),
            ),
          ),
        ),
      ),
    )
