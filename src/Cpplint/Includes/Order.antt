-- ===== src/Cpplint/Includes/Order.antt =====
-- The order of includes that CheckNextIncludeOrder accepts.
use cppecho.Prelude.{ℕ, ◌≡◌, Bool, true, false, ◌&&◌, List, [], ◌∷◌, ◌++◌, none, some, leb, All}
use cppecho.Python.Str.{text_eq}
use cppecho.Cpplint.Includes.{
  HeaderType, c_sys_header, cpp_sys_header, likely_my_header, possible_my_header, IncludeState,
  next_section, check_next_include_order,
}

-- Whether a header may come when the file has reached a section.
abbrev pub allowed : HeaderType → ℕ → Bool
allowed c_sys_header section = leb section 2
allowed cpp_sys_header section = leb section 3
allowed _ section = true

abbrev pub is_mine : HeaderType → Bool
is_mine likely_my_header = true
is_mine possible_my_header = true
is_mine _ = false

abbrev pub is_c : HeaderType → Bool
is_c c_sys_header = true
is_c _ = false

abbrev pub is_cpp : HeaderType → Bool
is_cpp cpp_sys_header = true
is_cpp _ = false

abbrev pub is_system : HeaderType → Bool
is_system c_sys_header = true
is_system cpp_sys_header = true
is_system _ = false

-- One header after another: whether every one is accepted.
abbrev pub accepts : List HeaderType → IncludeState → Bool
accepts [] s = true
accepts (h ∷ hs) s =
    text_eq (check_next_include_order h s).1 [] && accepts hs (check_next_include_order h s).0

-- The same over sections alone.
abbrev walk : List HeaderType → ℕ → Bool
walk [] section = true
walk (h ∷ hs) section = elim (next_section h section) [ none ↦ false | some now ↦ walk hs now ]

abbrev pub AllBy : (HeaderType → Bool) → List HeaderType → Type 0
AllBy p = All (λ h. p h ≡ true)

abbrev pub NoSystem : List HeaderType → Type 0
NoSystem = All (λ h. is_system h ≡ false)

-- C++ system headers, and then headers that are no system headers.
abbrev FromCpp : List HeaderType → Type 0
FromCpp hs =
    (cpps : List HeaderType) × (others : List HeaderType) × (hs ≡ cpps ++ others)
    × AllBy is_cpp cpps
    × NoSystem others

abbrev FromC : List HeaderType → Type 0
FromC hs =
    (cs : List HeaderType) × (rest : List HeaderType) × (hs ≡ cs ++ rest)
    × AllBy is_c cs
    × FromCpp rest

-- Headers of this file, C system headers, C++ system headers, and then no system header.
abbrev pub IsOrdered : List HeaderType → Type 0
IsOrdered hs =
    (mine : List HeaderType) × (rest : List HeaderType) × (hs ≡ mine ++ rest)
    × AllBy is_mine mine
    × FromC rest
