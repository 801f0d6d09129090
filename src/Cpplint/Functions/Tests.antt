-- ===== src/Cpplint/Functions/Tests.antt =====
-- Runs and instances of the theorems about the lengths of functions.
use cppecho.Prelude.{
  ℕ, ◌*◌, ◌^◌, ◌<◌, ◌≡◌, refl, true, ◌&&◌, List, [], ◌∷◌, none, some, pos, ltb, if◌then◌else◌,
  length,
}
use cppecho.Python.Str.{Text, codes, text_eq, words, lstrip_by}
use cppecho.Python.Regex.{re_match, re_search, group_text, group_of}
use cppecho.Cpplint.Report.{ErrorHandler}
use cppecho.Cpplint.Functions.{
  FunctionState, init, begin, is_start, function_of, base_trigger, error_level, check,
  check_for_function_lengths, end,
}
use cppecho.Cpplint.Functions.Levels.{IsLevel, reported, check_lem}
use cppecho.Cpplint.Functions.Bodies.{counted, check_lines, longer, check_for_function_lengths-body}

-- A handler that keeps the lines and levels of the reports.
abbrev keep : ErrorHandler (List (ℕ × ℕ))
keep filename linenum category confidence message s = (linenum, confidence) ∷ s

abbrev source : List Text
source =
    codes "void Echo::run("
    ∷ codes "    int n) {"
    ∷ codes "  loop(n);"
    ∷ codes ""
    ∷ codes "  stop();"
    ∷ codes "}"
    ∷ []

abbrev inside : FunctionState
inside = record {
  in_a_function = true;
  lines_in_function = 0;
  current_function = codes "Echo::run()";
}

started : check_for_function_lengths keep [] source 0 (pos 0) init [] ≡ some (inside, [])
unfolding check_for_function_lengths is_start words text_eq group_text group_of re_match re_search
    function_of lstrip_by begin
started = refl

levels :
    (error_level 251 250 ≡ some 0)
    × (error_level 400 250 ≡ some 0)
    × (error_level 2000 250 ≡ some 3)
    × (error_level 100000 400 ≡ some 5)
    × (error_level 130 250 ≡ none)
unfolding error_level
levels = (refl, refl, refl, refl, refl)

abbrev long : FunctionState
long = record { in_a_function = true; lines_in_function = 1200; current_function = codes "main()" }

check_lem_example :
    (l : ℕ) × (check keep (codes "a.cc") 7 (pos 1) long []
      ≡ some (
          if long.in_a_function
            && ltb (base_trigger long.current_function * 2 ^ 1) long.lines_in_function
          then reported keep (codes "a.cc") 7 1 long [] l
          else []))
    × (base_trigger long.current_function * 2 ^ 1 < long.lines_in_function
        → IsLevel long.lines_in_function (base_trigger long.current_function) l)
check_lem_example = check_lem keep (codes "a.cc") 7 1 long []

abbrev body : List Text
body = codes "  loop(n);" ∷ codes "" ∷ codes "  stop();" ∷ []

check_for_function_lengths-body_example :
    (check_lines keep [] source (pos 0) (length body) 2 inside []
      ≡ some (longer (counted body) inside, []))
    × (check_for_function_lengths keep [] source 5 (pos 0) (longer (counted body) inside) []
        ≡ (elim (check keep [] 5 (pos 0) (longer (counted body) inside) []) [
          | none ↦ none
          | some t ↦ some (end (longer (counted body) inside), t)
        ]))
unfolding is_start re_match
check_for_function_lengths-body_example =
    check_for_function_lengths-body keep [] source (pos 0) body [] (codes "}") 2 inside [] refl refl
      ((refl, refl), ((refl, refl), ((refl, refl), tt))) refl refl
