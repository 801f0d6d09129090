-- ===== src/Cpplint/Files/Repository.antt =====
-- RepositoryName is the full name without the directory of a checkout above the file.
use cppecho.Prelude.{
  ℕ, zero, suc, ◌+◌, ◌<◌, ◌≡◌, refl, ap, sym, ◌∙◌, ◌⊎◌, inl, inr, Bool, true, false, [], ◌∷◌, ◌++◌,
  some, if◌then◌else◌, length, drop, arith, Bool-cases, length-append, append_assoc, append-nil,
}
use cppecho.Python.Str.{Text, codes, text_eq}
use cppecho.Python.Str.Laws.{text_eq_iff}
use cppecho.Python.Path.{dirname}
use cppecho.Python.Path.Laws.{dirname-append, commonprefix-append}
use cppecho.Cpplint.Files.{
  FileSystem, full_name, has, is_checkout, svn_top, checkout_top, below, from_svn, from_checkout,
  name_below, repository_name,
}

-- The directory is the path itself or shorter.
dirname_cases : (p : Text) → (dirname p ≡ p) ⊎ (length (dirname p) < length p)
dirname_cases p = let (t, e) = dirname-append p in put t e
  where
    put : (t : Text) → p ≡ dirname p ++ t → (dirname p ≡ p) ⊎ (length (dirname p) < length p)
    put [] e = inl (sym (e ∙ append-nil (dirname p)))
    put (c ∷ t) e = inr (omega (arith, ap length e, length-append (dirname p) (c ∷ t)))

drop-past : (root rest : Text) → drop (length root + 1) (root ++ rest) ≡ drop 1 rest
drop-past [] rest = refl
drop-past (c ∷ root) rest =
    let e : suc (length root) + 1 ≡ suc (length root + 1) = omega arith in
    rw e (drop-past root rest)

below_lem : (root t s : Text) → below root (root ++ t) ((root ++ t) ++ s) ≡ drop 1 (t ++ s)
unfolding below
below_lem root t s =
    rw (commonprefix-append root t, append_assoc root t s) (drop-past root (t ++ s))

-- A directory that a path starts with.
abbrev Above : Text → Text → Type 0
Above p dir = (t : Text) × (p ≡ dir ++ t)

Above-dirname : (p dir : Text) → Above p dir → Above p (dirname dir)
Above-dirname p dir (t, e) =
    let (u, q) = dirname-append dir in
    (u ++ t, e ∙ ap (λ d. d ++ t) q ∙ append_assoc (dirname dir) u t)

module _ (fs : FileSystem) where
  svn_top-some :
      ((p : Text) → dirname p ≡ p → has fs p (codes ".svn") ≡ false)
      → (fuel : ℕ) (project root : Text) → length root < fuel
      → is_checkout fs root ≡ true
      → Above project root
      → (top : Text) × (svn_top fs fuel root ≡ some top)
        × (is_checkout fs top ≡ true)
        × Above project top
  unfolding svn_top
  svn_top-some no_root zero project root h c a = elim h [ ]
  svn_top-some no_root (suc fuel) project root h c a =
      elim (Bool-cases (has fs (dirname root) (codes ".svn"))) [
        | inr e ↦ (root, rw e refl, c, a)
        | inl e ↦
            let lt : length (dirname root) < fuel = elim (dirname_cases root) [
              | inl q ↦ absurd (cc (no_root root q, ap (λ d. has fs d (codes ".svn")) q, e))
              | inr q ↦ omega arith
            ] in
            let (top, q, k, b) =
              svn_top-some no_root fuel project (dirname root) lt
                (unfold is_checkout in ground (arith, e)) (Above-dirname project root a) in
            (top, rw e q, k, b)
      ]

  checkout_top-some :
      (fuel : ℕ) (project root current : Text)
      → length current < fuel
      → Above project root
      → Above project current
      → (top : Text) × (checkout_top fs fuel root current ≡ some top) × Above project top
  unfolding checkout_top
  checkout_top-some zero project root current h a b = elim h [ ]
  checkout_top-some (suc fuel) project root current h a b =
      elim (Bool-cases (text_eq current (dirname current))) [
        | inl e ↦ (root, rw e refl, a)
        | inr e ↦
            let lt : length (dirname current) < fuel = elim (dirname_cases current) [
              | inl q ↦ absurd (cc ((text_eq_iff current (dirname current)).1 (sym q), e))
              | inr q ↦ omega arith
            ] in
            let (top, q, k) =
              checkout_top-some fuel project (if is_checkout fs current then current else root)
                (dirname current) lt (choose (is_checkout fs current))
                (Above-dirname project current b) in
            (top, rw e q, k)
      ]
    where
      choose : (x : Bool) → Above project (if x then current else root)
      choose true = b
      choose false = a

  -- The full name, or what stands behind the directory of a checkout and a slash.
  abbrev pub IsNameOf : Text → Text → Type 0
  IsNameOf full r =
      (r ≡ full)
      ⊎ ((root rest : Text) × (full ≡ root ++ rest)
          × (is_checkout fs root ≡ true)
          × (fs.exists full ≡ true)
          × (r ≡ drop 1 rest))

  name_at :
      (project full s top : Text)
      → full ≡ project ++ s
      → Above project top
      → is_checkout fs top ≡ true
      → fs.exists full ≡ true
      → IsNameOf full (below top project full)
  name_at project full s top e (t, q) c x = inr (
    top,
    t ++ s,
    e ∙ ap (λ d. d ++ s) q ∙ append_assoc top t s,
    c,
    x,
    rw (e, q) (below_lem top t s),
  )

  name_below-IsNameOf :
      ((p : Text) → dirname p ≡ p → has fs p (codes ".svn") ≡ false)
      → (full : Text) → (r : Text) × (name_below fs full ≡ some r) × IsNameOf full r
  unfolding name_below
  name_below-IsNameOf no_root full = elim (Bool-cases (fs.exists full)) [
    | inr x ↦ (full, rw x refl, inl refl)
    | inl x ↦ elim (Bool-cases (has fs (dirname full) (codes ".svn"))) [
      | inl v ↦
          let (top, e, c, a) =
            svn_top-some no_root (length full + 1) (dirname full) (dirname full) fits
              (unfold is_checkout in ground (arith, v)) whole in
          (
            below top (dirname full) full,
            rw (x, v, e) (unfold from_svn in refl),
            name_at (dirname full) full s top q a c x,
          )
      | inr v ↦
          let (top, e, a) =
            checkout_top-some (length full + 1) (dirname full) (dirname full) (dirname full) fits
              whole whole in
          elim (Bool-cases (is_checkout fs top)) [
            | inl c ↦ (
              below top (dirname full) full,
              rw (x, v, e) (unfold from_checkout in rw c refl),
              name_at (dirname full) full s top q a c x,
            )
            | inr c ↦ (full, rw (x, v, e) (unfold from_checkout in rw c refl), inl refl)
          ]
    ]
  ]
    where
      s : Text
      s = (dirname-append full).0

      q : full ≡ dirname full ++ s
      q = (dirname-append full).1

      fits : length (dirname full) < length full + 1
      fits = omega (arith, ap length q, length-append (dirname full) s)

      whole : Above (dirname full) (dirname full)
      whole = ([], sym (append-nil (dirname full)))

  -- When no directory that is its own parent has an entry .svn, RepositoryName ends, with the full
  -- name, or, for a file that exists, with what follows a directory and one more character in it,
  -- where that directory has an entry .git, .hg or .svn.
  pub repository_name-IsNameOf :
      ((p : Text) → dirname p ≡ p → has fs p (codes ".svn") ≡ false)
      → (filename : Text)
      → (r : Text) × (repository_name fs filename ≡ some r) × IsNameOf (full_name fs filename) r
  unfolding repository_name
  repository_name-IsNameOf no_root filename = name_below-IsNameOf no_root (full_name fs filename)
