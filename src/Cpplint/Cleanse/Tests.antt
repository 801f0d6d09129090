-- ===== src/Cpplint/Cleanse/Tests.antt =====
-- Runs and instances of the theorems about the cleansing of lines.
use cppecho.Prelude.{ℕ, ◌≡◌, refl, List, [], ◌∷◌, some, length}
use cppecho.Python.Str.{
  Text, codes, find, find_from, startswith, endswith, text_eq, unicode_strip, unicode_rstrip,
}
use cppecho.Python.Regex.{sub}
use cppecho.Cpplint.Cleanse.Comments.{
  remove_multi_line_comments, starts_comment, ends_comment, find_next_multi_line_comment_start,
  find_next_multi_line_comment_end, remove_multi_line_comments_from_range, cleanse_comments,
  is_cpp_string,
}
use cppecho.Cpplint.Report.{ErrorHandler}
use cppecho.Cpplint.Cleanse.Comments.Outcome.{Outcome, remove_multi_line_comments_lem}
use cppecho.Cpplint.Cleanse.Lines.{CleansedLines, cleansed_lines}
use cppecho.Cpplint.Cleanse.Lines.Total.{cleansed_lines-some}

without_comments :
    (cleanse_comments (codes "f(a, /* b */ c);  // call") ≡ codes "f(a, c);")
    × (cleanse_comments (codes "s = \"http://x\";") ≡ codes "s = \"http://x\";")
    × (cleanse_comments (codes "a /* b */") ≡ codes "a")
unfolding cleanse_comments is_cpp_string sub find unicode_rstrip
without_comments = (refl, refl, refl)

abbrev snippet : List Text
snippet =
    codes "const char* s = R\"x(first /*"
    ∷ codes "second)x\"; // done"
    ∷ codes "char c = '\\''; int big = 1'000'000; /* n */"
    ∷ codes "log(\"a \\\"b\\\" c\");"
    ∷ []

cleansed_lines-some_example :
    (c : CleansedLines) × (cleansed_lines snippet ≡ some c)
    × (c.raw_lines ≡ snippet)
    × (c.num_lines ≡ length snippet)
    × (length c.elided ≡ length snippet)
    × (length c.lines ≡ length snippet)
    × (length c.lines_without_raw_strings ≡ length snippet)
cleansed_lines-some_example = cleansed_lines-some snippet

-- A handler that keeps the lines of the reports.
abbrev keep : ErrorHandler (List ℕ)
keep filename linenum category confidence message s = linenum ∷ s

abbrev commented : List Text
commented = codes "a();" ∷ codes "/* b();" ∷ codes "c(); */" ∷ codes "/* d();" ∷ []

comments_removed :
    remove_multi_line_comments keep [] commented []
    ≡ (codes "a();" ∷ codes "/**/" ∷ codes "/**/" ∷ codes "/* d();" ∷ [], 4 ∷ [])
unfolding remove_multi_line_comments starts_comment ends_comment endswith startswith text_eq
    find_from find unicode_strip find_next_multi_line_comment_start find_next_multi_line_comment_end
    remove_multi_line_comments_from_range
comments_removed = refl

remove_multi_line_comments_lem_example :
    Outcome keep [] 4 [] (remove_multi_line_comments keep [] commented [])
remove_multi_line_comments_lem_example = remove_multi_line_comments_lem keep [] commented []
