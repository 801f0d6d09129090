-- ===== src/Python/Str.antt =====
-- Python's strings as lists of code points, with the methods that the tools call.
pub mod Laws
use Prim.Native.Char.{code}
use Prim.Native.String.{String}
use cppecho.Prelude.{
  ℕ, zero, suc, ◌+◌, ◌-◌, ◌/◌, ◌%◌, Bool, true, false, ◌&&◌, ◌||◌, List, [], ◌∷◌, ◌++◌, Option,
  none, some, not, ltb, leb, ◌==◌, if◌then◌else◌, length, drop,
}

abbrev pub Text : Type 0
Text = List ℕ

-- The code points of a literal.
abbrev pub codes : String → Text
codes String.[] = []
codes (String.◌∷◌ c s) = code c ∷ codes s

-- `a == b`
unfoldable pub text_eq : Text → Text → Bool
text_eq [] [] = true
text_eq (x ∷ xs) (y ∷ ys) = x == y && text_eq xs ys
text_eq _ _ = false

-- `s.startswith(p)`
unfoldable pub startswith : Text → Text → Bool
startswith s [] = true
startswith [] (c ∷ p) = false
startswith (d ∷ s) (c ∷ p) = d == c && startswith s p

-- `s.endswith(p)`
unfoldable pub endswith : Text → Text → Bool
unfolding text_eq
endswith s p = leb (length p) (length s) && text_eq (drop (length s - length p) s) p

-- `s.find(p)`, with none for -1.
unfoldable pub find : Text → Text → Option ℕ
unfolding startswith text_eq
find [] p = if text_eq p [] then some 0 else none
find (c ∷ s) p =
    if startswith (c ∷ s) p then some 0 else elim (find s p) [ none ↦ none | some i ↦ some (suc i) ]

-- `p in s`
unfoldable pub contains : Text → Text → Bool
unfolding find
contains s p = elim (find s p) [ none ↦ false | some i ↦ true ]

-- `s.find(p, start)`, with none for -1, for a start inside the text.
unfoldable pub find_from : Text → Text → ℕ → Option ℕ
unfolding find
find_from s p start = elim (find (drop start s) p) [ none ↦ none | some i ↦ some (start + i) ]

-- The scan of `s.replace(p, q)` for a non-empty `p`: `skip` code points belong to the last match.
replace_from : Text → Text → Text → ℕ → Text
unfolding startswith
replace_from [] p q skip = []
replace_from (c ∷ s) p q (suc skip) = replace_from s p q skip
replace_from (c ∷ s) p q zero = elim (startswith (c ∷ s) p) [
  | true ↦ q ++ replace_from s p q (length p - 1)
  | false ↦ c ∷ replace_from s p q zero
]

-- `s.replace(p, q)` for a non-empty `p`
unfoldable pub replace : Text → Text → Text → Text
unfolding replace_from
replace s p q = replace_from s p q zero

-- The scan of `s.count(p)` for a non-empty `p`, in the same way.
count_from : Text → Text → ℕ → ℕ
unfolding startswith
count_from [] p skip = 0
count_from (c ∷ s) p (suc skip) = count_from s p skip
count_from (c ∷ s) p zero = elim (startswith (c ∷ s) p) [
  | true ↦ suc (count_from s p (length p - 1))
  | false ↦ count_from s p zero
]

-- `s.count(p)` for a non-empty `p`
unfoldable pub count : Text → Text → ℕ
unfolding count_from
count s p = count_from s p zero

-- `str.isspace` of a byte, which `\s` means too: space, \t, \n, \v, \f, \r
abbrev pub is_space : ℕ → Bool
is_space c = c == 32 || leb 9 c && leb c 13

-- `unicode.isspace` of a code point
abbrev pub is_unicode_space : ℕ → Bool
is_unicode_space c =
    is_space c
    || leb 0x1c c && leb c 0x1f
    || c == 0x85
    || c == 0xa0
    || c == 0x1680
    || c == 0x180e
    || leb 0x2000 c && leb c 0x200a
    || c == 0x2028
    || c == 0x2029
    || c == 0x202f
    || c == 0x205f
    || c == 0x3000

-- Drops the leading code points that pass a test.
unfoldable pub lstrip_by : (ℕ → Bool) → Text → Text
lstrip_by p [] = []
lstrip_by p (c ∷ s) = if p c then lstrip_by p s else c ∷ s

-- Drops the trailing ones.
unfoldable pub rstrip_by : (ℕ → Bool) → Text → Text
rstrip_by p [] = []
rstrip_by p (c ∷ s) = elim (rstrip_by p s) [ [] ↦ if p c then [] else c ∷ [] | d ∷ r ↦ c ∷ d ∷ r ]

-- `strip` of a byte string and of a unicode string
unfoldable pub strip : Text → Text
unfolding lstrip_by rstrip_by
strip s = rstrip_by is_space (lstrip_by is_space s)

unfoldable pub unicode_strip : Text → Text
unfolding lstrip_by rstrip_by
unicode_strip s = rstrip_by is_unicode_space (lstrip_by is_unicode_space s)

unfoldable pub unicode_rstrip : Text → Text
unfolding rstrip_by
unicode_rstrip s = rstrip_by is_unicode_space s

-- Puts a code point in front of the first part.
abbrev pub cons_first : ℕ → List Text → List Text
cons_first c [] = (c ∷ []) ∷ []
cons_first c (p ∷ ps) = (c ∷ p) ∷ ps

-- `s.split(sep)` for a separator of one code point
unfoldable pub split : Text → ℕ → List Text
split [] sep = [] ∷ []
split (c ∷ s) sep = if c == sep then [] ∷ split s sep else cons_first c (split s sep)

-- Puts a code point in front of the first word, or makes a word of it.
pub grow : ℕ → Bool → List Text → List Text
grow c true [] = (c ∷ []) ∷ []
grow c true (w ∷ ws) = (c ∷ w) ∷ ws
grow c false ws = (c ∷ []) ∷ ws

pub starts_word : Text → Bool
starts_word [] = false
starts_word (c ∷ s) = not (is_unicode_space c)

-- `s.split()`: the words between white space
unfoldable pub words : Text → List Text
unfolding grow starts_word
words [] = []
words (c ∷ s) = if is_unicode_space c then words s else grow c (starts_word s) (words s)

-- `s.lower()` over ASCII
unfoldable pub lower : Text → Text
lower [] = []
lower (c ∷ s) = (if leb b'A' c && leb c b'Z' then c + 32 else c) ∷ lower s

-- `s.upper()` over ASCII
unfoldable pub upper : Text → Text
upper [] = []
upper (c ∷ s) = (if leb b'a' c && leb c b'z' then c - 32 else c) ∷ upper s

-- `a < b` on strings, by code points
unfoldable pub text_lt : Text → Text → Bool
text_lt [] [] = false
text_lt [] (y ∷ ys) = true
text_lt (x ∷ xs) [] = false
text_lt (x ∷ xs) (y ∷ ys) = ltb x y || x == y && text_lt xs ys

-- `s in (…)` and `s in [...]`
unfoldable pub member : Text → List Text → Bool
unfolding text_eq
member s [] = false
member s (t ∷ ts) = text_eq s t || member s ts

-- The decimal digits of a number in front of `acc`; each round takes one digit.
digits_onto : ℕ → ℕ → Text → Text
digits_onto zero n acc = acc
digits_onto (suc fuel) n acc =
    let more = digits_onto fuel (n / 10) ((n % 10 + 48) ∷ acc) in
    if ltb n 10 then (n + 48) ∷ acc else more

-- `'%d' % n` for a natural number
unfoldable pub decimal : ℕ → Text
unfolding digits_onto
decimal n = digits_onto (n + 1) n []
