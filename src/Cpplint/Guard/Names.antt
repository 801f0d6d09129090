-- ===== src/Cpplint/Guard/Names.antt =====
-- What a header guard variable looks like.
use cppecho.Prelude.{
  ℕ, ◌≡◌, refl, Bool, true, ◌&&◌, ◌||◌, [], ◌∷◌, ◌++◌, Option, none, some, leb, ◌==◌, arith, all,
  subst, ◌>>=◌,
}
use cppecho.Python.Str.{Text, codes, endswith, upper}
use cppecho.Python.Str.Laws.{endswith-append}
use cppecho.Python.Regex.{is_digit}
use cppecho.Cpplint.Files.{FileSystem, repository_name}
use cppecho.Cpplint.Guard.{
  underscored, guard_of, original_name, fixup_path_from_root, get_header_guard_cpp_variable,
}

-- [A-Z0-9_]
abbrev pub is_macro_char : ℕ → Bool
is_macro_char c = leb b'A' c && leb c b'Z' || is_digit c || c == b'_'

all-macro_char : (path : Text) → all is_macro_char (upper (underscored path) ++ codes "_") ≡ true
unfolding upper underscored
all-macro_char [] = refl
all-macro_char (c ∷ path) = ground (arith, all-macro_char path)

-- A name consists of capital letters, digits and underscores, and ends with an underscore.
abbrev pub IsGuard : Text → Type 0
IsGuard v = (all is_macro_char v ≡ true) × (endswith v (codes "_") ≡ true)

guard_of-IsGuard : (path : Text) → IsGuard (guard_of path)
unfolding guard_of
guard_of-IsGuard path =
    (all-macro_char path, endswith-append (upper (underscored path)) (codes "_"))

-- A header guard variable consists of capital letters, digits and underscores and ends with an
-- underscore, whatever the file name, the setting of --root and the file system.
pub get_header_guard_cpp_variable-IsGuard :
    (fs : FileSystem) (root : Option Text) (filename v : Text)
    → get_header_guard_cpp_variable fs root filename ≡ some v
    → IsGuard v
unfolding get_header_guard_cpp_variable
get_header_guard_cpp_variable-IsGuard fs root filename v h =
    go (repository_name fs (original_name filename)) h
  where
    go :
        (o : Option Text)
        → (o >>= (λ path.
            some (guard_of (fixup_path_from_root fs root (original_name filename) path))))
          ≡ some v
        → IsGuard v
    go none e = absurd (cc)
    go (some path) e =
        let e' : guard_of (fixup_path_from_root fs root (original_name filename) path) ≡ v = cc in
        subst IsGuard e'
          (guard_of-IsGuard (fixup_path_from_root fs root (original_name filename) path))
