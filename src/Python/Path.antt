-- ===== src/Python/Path.antt =====
-- Python's `os.path` on POSIX, as far as the tools call it.
pub mod Laws
use cppecho.Prelude.{
  ℕ, zero, suc, ◌-◌, Bool, true, false, not, ◌&&◌, ◌||◌, List, [], ◌∷◌, ◌++◌, ltb, ◌==◌,
  if◌then◌else◌, length, take, drop, all, any, reverse,
}
use cppecho.Python.Str.{Text, codes, text_eq, startswith, endswith, split, rstrip_by}

-- One more than `s.rfind(c)`.
unfoldable pub rfind_suc : Text → ℕ → ℕ
rfind_suc [] c = 0
rfind_suc (d ∷ s) c = elim (rfind_suc s c) [ zero ↦ if d == c then 1 else 0 | suc i ↦ suc (suc i) ]

abbrev slashes : Text → Bool
slashes s = all (λ c. c == b'/') s

-- `os.path.split`
unfoldable pub path_split : Text → Text × Text
unfolding rfind_suc rstrip_by
path_split p =
    let i = rfind_suc p b'/' in
    let head = take i p in
    (if slashes head then head else rstrip_by (λ c. c == b'/') head, drop i p)

-- `os.path.dirname`
unfoldable pub dirname : Text → Text
unfolding path_split
dirname p = (path_split p).0

-- `os.path.join` of two parts
unfoldable pub path_join : Text → Text → Text
unfolding startswith endswith text_eq
path_join path b =
    if startswith b (codes "/")
    then b
    else if text_eq path [] || endswith path (codes "/")
    then path ++ b
    else path ++ codes "/" ++ b

-- `os.path.join(*parts)`, for at least one part
abbrev join_onto : Text → List Text → Text
join_onto path [] = path
join_onto path (b ∷ bs) = join_onto (path_join path b) bs

unfoldable pub path_join_all : List Text → Text
unfolding path_join
path_join_all [] = []
path_join_all (a ∷ bs) = join_onto a bs

-- `os.path.splitext`: a dot of the last component, behind something that is not a dot
unfoldable pub splitext : Text → Text × Text
unfolding rfind_suc
splitext p =
    let name = rfind_suc p b'/' in
    let dot = rfind_suc p b'.' - 1 in
    if ltb name dot && any (λ c. not (c == b'.')) (take (dot - name) (drop name p))
    then (take dot p, drop dot p)
    else (p, [])

-- `os.path.commonprefix` of two paths
unfoldable pub commonprefix : Text → Text → Text
commonprefix [] t = []
commonprefix (c ∷ s) [] = []
commonprefix (c ∷ s) (d ∷ t) = if c == d then c ∷ commonprefix s t else []

-- The loop of `os.path.normpath` over the components; the ones kept stand with the last in front.
normal_parts : Bool → List Text → List Text → List Text
unfolding text_eq
normal_parts rooted kept [] = reverse kept
normal_parts rooted [] (p ∷ ps) =
    if text_eq p [] || text_eq p (codes ".")
    then normal_parts rooted [] ps
    else if not (text_eq p (codes "..")) || not rooted
    then normal_parts rooted (p ∷ []) ps
    else normal_parts rooted [] ps
normal_parts rooted (k ∷ ks) (p ∷ ps) =
    if text_eq p [] || text_eq p (codes ".")
    then normal_parts rooted (k ∷ ks) ps
    else if not (text_eq p (codes "..")) || text_eq k (codes "..")
    then normal_parts rooted (p ∷ k ∷ ks) ps
    else normal_parts rooted ks ps

-- `'/'.join(parts)`
unfoldable pub slash_join : List Text → Text
slash_join [] = []
slash_join (p ∷ []) = p
slash_join (p ∷ q ∷ ps) = p ++ codes "/" ++ slash_join (q ∷ ps)

or_dot : Text → Text
or_dot [] = codes "."
or_dot (c ∷ s) = c ∷ s

-- `os.path.normpath`
unfoldable pub normpath : Text → Text
unfolding normal_parts slash_join or_dot startswith split
normpath p =
    let rooted = startswith p (codes "/") in
    let slash =
      if startswith p (codes "//") && not (startswith p (codes "///"))
      then codes "//"
      else if rooted
      then codes "/"
      else [] in
    or_dot (slash ++ slash_join (normal_parts rooted [] (split p b'/')))

-- `os.path.abspath` in a working directory
unfoldable pub abspath : Text → Text → Text
unfolding normpath path_join
abspath cwd p = normpath (path_join cwd p)
