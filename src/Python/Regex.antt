-- ===== src/Python/Regex.antt =====
-- Python's `re`: patterns as syntax trees, and its backtracking matcher. A set of characters is its
-- test. `match` and `search` of a compiled pattern are `re_match` and `re_search` here.
pub mod Sound
pub mod Groups
pub mod Tail
pub mod Scan
pub mod Within
pub mod Iter
use Prim.Native.String.{String}
use cppecho.Prelude.{
  ℕ, zero, suc, ◌+◌, ◌-◌, Bool, true, false, not, ◌&&◌, ◌||◌, List, [], ◌∷◌, ◌++◌, Option, none,
  some, leb, ◌==◌, if◌then◌else◌, length, take, any,
}
use cppecho.Python.Str.{Text, codes, is_space}

pub data Regex : Type 0 where
  eps : Regex
  set : (ℕ → Bool) → Regex
  seq alt : Regex → Regex → Regex
  -- `r*` and `r*?`
  star lazy : Regex → Regex
  group : ℕ → Regex → Regex
  -- `^`, `$`, `\b`
  bol eol boundary : Regex
  -- `(?=r)` and `(?!r)`
  ahead unless : Regex → Regex
  -- `\1`, the text that a group has noted
  back : ℕ → Regex

infixr 60 ◌▹◌
infixr 55 ◌∣∣◌
abbrev pub ◌▹◌ : Regex → Regex → Regex
r ▹ s = seq r s

abbrev pub ◌∣∣◌ : Regex → Regex → Regex
r ∣∣ s = alt r s

abbrev pub plus : Regex → Regex
plus r = seq r (star r)

abbrev pub opt : Regex → Regex
opt r = alt r eps

abbrev pub is_digit : ℕ → Bool
is_digit c = leb b'0' c && leb c b'9'

-- `\w`
abbrev pub is_word : ℕ → Bool
is_word c = leb b'a' c && leb c b'z' || leb b'A' c && leb c b'Z' || is_digit c || c == b'_'

abbrev pub digit : Regex
digit = set is_digit

abbrev pub word : Regex
word = set is_word

abbrev pub space : Regex
space = set is_space

-- `\S` and `\W`
abbrev pub non_space : Regex
non_space = set (λ c. not (is_space c))

abbrev pub non_word : Regex
non_word = set (λ c. not (is_word c))

-- `.`
abbrev pub dot : Regex
dot = set (λ c. not (c == 10))

-- `[…]` and `[^…]` of listed characters
abbrev pub one_of : String → Regex
one_of s = let cs = codes s in set (λ c. any (λ d. c == d) cs)

abbrev pub none_of : String → Regex
none_of s = let cs = codes s in set (λ c. not (any (λ d. c == d) cs))

abbrev pub text : Text → Regex
text [] = eps
text (c ∷ []) = set (λ d. d == c)
text (c ∷ s) = seq (set (λ d. d == c)) (text s)

-- The characters of a literal, in sequence.
abbrev pub lit : String → Regex
lit s = text (codes s)

-- Where the matcher stands: what it has passed, and the groups closed so far, the last one first.
pub record Cursor : Type 0 where
  pub at : ℕ
  pub before : Option ℕ
  pub rest : Text
  pub groups : List (ℕ × Text)

abbrev pub Continuation : Type 0
Continuation = Cursor → Option Cursor

is_word_at : Option ℕ → Bool
is_word_at none = false
is_word_at (some c) = is_word c

first_of_text : Text → Option ℕ
first_of_text [] = none
first_of_text (c ∷ s) = some c

pub at_boundary : Cursor → Bool
unfolding is_word_at first_of_text
at_boundary c = elim (is_word_at c.before) [
  | true ↦ not (is_word_at (first_of_text c.rest))
  | false ↦ is_word_at (first_of_text c.rest)
]

pub at_start : Option ℕ → Bool
at_start none = true
at_start (some c) = false

-- `$` also stands before a newline that ends the text.
pub at_end : Text → Bool
at_end [] = true
at_end (c ∷ []) = c == 10
at_end _ = false

advance : (ℕ → Bool) → Continuation → Cursor → Text → Option Cursor
advance p k c [] = none
advance p k c (d ∷ s) =
    if p d then k (record c { at = c.at + 1; before = some d; rest = s }) else none

pub close_group : ℕ → Cursor → Cursor → Cursor
close_group n c d = record d { groups = (n, take (d.at - c.at) c.rest) ∷ d.groups }

-- The rounds of `r*` and `r*?`, given the matcher of `r`. A round that takes nothing is the last.
greedy_rounds : ℕ → (Continuation → Cursor → Option Cursor) → Continuation → Cursor → Option Cursor
greedy_rounds zero m k c = k c
greedy_rounds (suc f) m k c =
    elim (m (λ d. elim (d.at == c.at) [ true ↦ k d | false ↦ greedy_rounds f m k d ]) c) [
      | some d ↦ some d
      | none ↦ k c
    ]

lazy_rounds : ℕ → (Continuation → Cursor → Option Cursor) → Continuation → Cursor → Option Cursor
lazy_rounds zero m k c = k c
lazy_rounds (suc f) m k c = elim (k c) [
  | some d ↦ some d
  | none ↦ m (λ d. elim (d.at == c.at) [ true ↦ k d | false ↦ lazy_rounds f m k d ]) c
]

pub lookup_group : ℕ → List (ℕ × Text) → Option Text
lookup_group n [] = none
lookup_group n ((m, t) ∷ gs) = if m == n then some t else lookup_group n gs

-- The characters of a text, in sequence
pub pass_text : Text → Continuation → Cursor → Option Cursor
unfolding advance
pass_text [] k c = k c
pass_text (x ∷ t) k c = advance (λ d. d == x) (pass_text t k) c c.rest

unfoldable pub run : Regex → Continuation → Cursor → Option Cursor
unfolding advance close_group greedy_rounds lazy_rounds at_start at_end at_boundary lookup_group
    pass_text
run eps k c = k c
run (set p) k c = advance p k c c.rest
run (seq r s) k c = run r (run s k) c
run (alt r s) k c = elim (run r k c) [ some d ↦ some d | none ↦ run s k c ]
run (star r) k c = greedy_rounds (suc (length c.rest)) (run r) k c
run (lazy r) k c = lazy_rounds (suc (length c.rest)) (run r) k c
run (group n r) k c = run r (λ d. k (close_group n c d)) c
run bol k c = if at_start c.before then k c else none
run eol k c = if at_end c.rest then k c else none
run boundary k c = if at_boundary c then k c else none
run (ahead r) k c = elim (run r (λ d. some d) c) [
  | some d ↦ k (record c { groups = d.groups })
  | none ↦ none
]
run (unless r) k c = elim (run r (λ d. some d) c) [ some d ↦ none | none ↦ k c ]
run (back n) k c = elim (lookup_group n c.groups) [ none ↦ none | some t ↦ pass_text t k c ]

-- A match object: where it starts, its text, what follows, and its groups.
pub record Found : Type 0 where
  pub start : ℕ
  pub whole : Text
  pub after : Text
  pub groups : List (ℕ × Text)

abbrev pub found : Cursor → Cursor → Found
found c d = record {
  start = c.at;
  whole = take (d.at - c.at) c.rest;
  after = d.rest;
  groups = d.groups;
}

match_at : Regex → Cursor → Option Found
unfolding run
match_at r c = elim (run r (λ d. some d) c) [ none ↦ none | some d ↦ some (found c d) ]

abbrev pub start_of : Text → Cursor
start_of s = record { at = 0; before = none; rest = s; groups = [] }

-- `pattern.match(s)`
unfoldable pub re_match : Regex → Text → Option Found
unfolding match_at
re_match r s = match_at r (start_of s)

search_from : Regex → ℕ → Option ℕ → Text → Option Found
unfolding match_at
search_from r i before [] = match_at r (record { at = i; before = before; rest = []; groups = [] })
search_from r i before (c ∷ s) =
    elim (match_at r (record { at = i; before = before; rest = c ∷ s; groups = [] })) [
      | some m ↦ some m
      | none ↦ search_from r (i + 1) (some c) s
    ]

-- `pattern.search(s)`
unfoldable pub re_search : Regex → Text → Option Found
unfolding search_from
re_search r s = search_from r 0 none s

-- `m.group(n)` for a numbered group
unfoldable pub group_of : Found → ℕ → Option Text
unfolding lookup_group
group_of m n = lookup_group n m.groups

abbrev pub or_empty : Option Text → Text
or_empty none = []
or_empty (some t) = t

-- `m.group(n)` of a group that every match closes
unfoldable pub group_text : Found → ℕ → Text
unfolding group_of
group_text m n = or_empty (group_of m n)

-- The scan of `pattern.sub`; `skip` characters belong to the last match.
sub_from : Regex → (Found → Text) → Option ℕ → Text → ℕ → Text
unfolding match_at
sub_from r q before [] skip = []
sub_from r q before (c ∷ s) (suc skip) = sub_from r q (some c) s skip
sub_from r q before (c ∷ s) zero =
    elim (match_at r (record { at = 0; before = before; rest = c ∷ s; groups = [] })) [
      | none ↦ c ∷ sub_from r q (some c) s zero
      | some m ↦ q m ++ sub_from r q (some c) s (length m.whole - 1)
    ]

-- `pattern.sub(q, s)` for a pattern that matches no empty text
unfoldable pub sub : Regex → (Found → Text) → Text → Text
unfolding sub_from
sub r q s = sub_from r q none s zero

abbrev pub matches : Regex → Text → Bool
matches r s = elim (re_match r s) [ none ↦ false | some m ↦ true ]

abbrev pub occurs : Regex → Text → Bool
occurs r s = elim (re_search r s) [ none ↦ false | some m ↦ true ]
