-- ===== src/Cpplint/Functions/Levels.antt =====
-- When _FunctionState.Check reports a function, and at which level.
use native.Mathlib.Nat.{pow-succ', mul-le-mul_left, mul-div-le, lt-mul-div-succ, pow-le-pow_right}
use cppecho.Prelude.{
  ℕ, zero, suc, ◌+◌, ◌*◌, ◌/◌, ◌^◌, ◌≤◌, ◌<◌, min, ◌≡◌, refl, ◌⊎◌, inl, inr, false, ◌&&◌, some, pos,
  ltb, ◌==◌, if◌then◌else◌, arith, Bool-cases,
}
use cppecho.Python.Str.{Text, codes}
use cppecho.Cpplint.Report.{ErrorHandler}
use cppecho.Cpplint.Functions.{
  FunctionState, base_trigger, exceeds, shown_trigger, log_2, error_level, size_message, check,
  report_size,
}

log_2-suc : (fuel n : ℕ) → log_2 (suc fuel) n ≡ (if ltb n 2 then 0 else log_2 fuel (n / 2) + 1)
unfolding log_2
log_2-suc fuel n = refl

double : (k : ℕ) → 2 ^ (k + 1) ≡ 2 * 2 ^ k
double k = let e : k + 1 ≡ suc k = omega arith in rw e (pow-succ' 2 k)

pow_mono : (i j : ℕ) → i ≤ j → 2 ^ i ≤ 2 ^ j
pow_mono i j h = pow-le-pow_right (omega arith) h

halved : (k n : ℕ) → 2 ^ k ≤ n / 2 → n / 2 < 2 ^ (k + 1) → (2 ^ (k + 1) ≤ n) × (n < 2 ^ (k + 1 + 1))
halved k n low high = (omega (arith, double k), omega (arith, double k, double (k + 1)))

log_2_lem : (fuel n : ℕ) → 0 < n → n ≤ fuel → (2 ^ log_2 fuel n ≤ n) × (n < 2 ^ (log_2 fuel n + 1))
log_2_lem zero n h k = absurd (omega arith)
log_2_lem (suc fuel) n h k = elim (Bool-cases (ltb n 2)) [
  | inl e ↦ rw (log_2-suc fuel n, e) (ground arith)
  | inr e ↦
      let (low, high) = log_2_lem fuel (n / 2) (ground arith) (ground arith) in
      rw (log_2-suc fuel n, e) (halved (log_2 fuel (n / 2)) n low high)
]

-- The level `l` of a function of at least `base` lines: at most 5, with `base * 2^l` at most the number
-- of lines, and less than `base * 2^(l + 1)` of them when `l` is not 5.
abbrev pub IsLevel : ℕ → ℕ → ℕ → Type 0
IsLevel lines base l = (l ≤ 5) × (base * 2 ^ l ≤ lines) × ((l ≡ 5) ⊎ (lines < base * 2 ^ (l + 1)))

IsLevel-log_2 :
    (lines base : ℕ)
    → 0 < base
    → base ≤ lines
    → IsLevel lines base (min (log_2 (lines / base) (lines / base)) 5)
IsLevel-log_2 lines base h k =
    let n = lines / base in
    let l = log_2 n n in
    let some_left : 0 < n = ground (arith, lt-mul-div-succ lines h) in
    let (low, high) = log_2_lem n n some_left (omega arith) in
    let below : base * n ≤ lines = mul-div-le lines base in
    let above : lines < base * (n + 1) = lt-mul-div-succ lines h in
    let smaller : 2 ^ min l 5 ≤ n = omega (arith, pow_mono (min l 5) l (omega arith)) in
    (
      omega arith,
      omega (arith, mul-le-mul_left base smaller),
      elim (Bool-cases (ltb 5 l)) [
        | inl e ↦ inl (ground arith)
        | inr e ↦
            let same : min l 5 ≡ l = ground arith in
            let next : n + 1 ≤ 2 ^ (l + 1) = omega arith in
            inr (rw same (omega (arith, mul-le-mul_left base next)))
      ],
    )

-- A report of Check, at a level `l`.
abbrev pub reported {ℓ} : {S : Type ℓ} → ErrorHandler S → Text → ℕ → ℕ → FunctionState → S → ℕ → S
reported error filename linenum v f s l =
    error filename linenum (codes "readability/fn_size") l
      (size_message f (base_trigger f.current_function * 2 ^ v)) s

base_trigger-pos : (name : Text) → 0 < base_trigger name
unfolding base_trigger
base_trigger-pos name = ground arith

error_level-IsLevel :
    (lines base : ℕ)
    → 0 < base
    → base ≤ lines
    → (l : ℕ) × (error_level lines base ≡ some l) × IsLevel lines base l
unfolding error_level
error_level-IsLevel lines base h k =
    let n = lines / base in
    let some_left : (n == 0) ≡ false = ground (arith, lt-mul-div-succ lines h) in
    (min (log_2 n n) 5, rw some_left refl, IsLevel-log_2 lines base h k)

fits : (base v lines : ℕ) → base * 2 ^ v < lines → base ≤ lines
fits base v lines h = omega (arith, mul-le-mul_left base (pow_mono 0 v (omega arith)))

-- Check does nothing outside a function, or for at most base * 2^v lines at the verbosity v, where base
-- is 400 for the name of a test and 250 else. Else it reports the function once, at the level that its
-- number of lines has. It raises nothing.
pub check_lem {ℓ} :
    {S : Type ℓ} (error : ErrorHandler S) (filename : Text) (linenum v : ℕ) (f : FunctionState)
    (s : S)
    → (l : ℕ) × (check error filename linenum (pos v) f s
        ≡ some (
            if f.in_a_function && ltb (base_trigger f.current_function * 2 ^ v) f.lines_in_function
            then reported error filename linenum v f s l
            else s))
      × (base_trigger f.current_function * 2 ^ v < f.lines_in_function
          → IsLevel f.lines_in_function (base_trigger f.current_function) l)
unfolding check exceeds shown_trigger report_size
check_lem error filename linenum v f s =
    elim (Bool-cases (ltb (base_trigger f.current_function * 2 ^ v) f.lines_in_function)) [
      | inr e ↦ (0, ground (arith, e), λ h. absurd (ground arith))
      | inl e ↦
          let (l, q, k) =
            error_level-IsLevel f.lines_in_function (base_trigger f.current_function)
              (base_trigger-pos f.current_function)
              (fits (base_trigger f.current_function) v f.lines_in_function (ground arith)) in
          (l, rw (e, q) (ground arith), λ h. k)
    ]
