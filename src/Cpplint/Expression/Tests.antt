-- ===== src/Cpplint/Expression/Tests.antt =====
-- Runs and instances of the theorems about bracket matching.
use cppecho.Prelude.{◌≡◌, refl, List, [], ◌∷◌, some}
use cppecho.Python.Str.{Text, codes}
use cppecho.Python.Regex.{re_match, re_search}
use cppecho.Cpplint.Expression.{Place, close_expression, reverse_close_expression}
use cppecho.Cpplint.Expression.Backward.{FoundStart, reverse_close_expression_lem}
use cppecho.Cpplint.Expression.Forward.{FoundEnd, close_expression_lem}

abbrev code : List Text
code = codes "f(a[0], map<int," ∷ codes "  g<x>> {})" ∷ codes "a << b(c);" ∷ []

two_lines :
    close_expression code 0 1
    ≡ some (record { line = codes "  g<x>> {})"; linenum = 1; at = some 11 })
unfolding close_expression re_match re_search
two_lines = refl

two_lines_back :
    reverse_close_expression code 1 10
    ≡ some (record { line = codes "f(a[0], map<int,"; linenum = 0; at = some 1 })
unfolding reverse_close_expression re_match re_search
two_lines_back = refl

template_end :
    close_expression code 0 11
    ≡ some (record { line = codes "  g<x>> {})"; linenum = 1; at = some 7 })
unfolding close_expression re_match re_search
template_end = refl

-- The second `<` of a shift is not pushed, and the answer is the end of the call behind it.
shift_end :
    close_expression code 2 3
    ≡ some (record { line = codes "a << b(c);"; linenum = 2; at = some 9 })
unfolding close_expression re_match re_search
shift_end = refl

close_expression_lem_example :
    (place : Place) × (close_expression code 0 1 ≡ some place)
    × FoundEnd b'(' code 0 2 place place.at
close_expression_lem_example =
    close_expression_lem code 0 1 (codes "f(a[0], map<int,") b'(' refl refl refl

reverse_close_expression_lem_example :
    (place : Place) × (reverse_close_expression code 1 10 ≡ some place)
    × FoundStart b')' code 1 10 place place.at
reverse_close_expression_lem_example =
    reverse_close_expression_lem code 1 10 (codes "  g<x>> {})") b')' refl refl refl
