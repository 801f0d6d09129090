-- ===== src/Cpplint/Language/Tests.antt =====
-- Runs of the checks that CheckLanguage calls, and an instance of the theorem on _GetTextInside.
use cppecho.Prelude.{◌≡◌, refl, ◌↔◌, false, true, List, IsSome, [], ◌∷◌, ◌++◌, some}
use cppecho.Python.Str.{Text, codes}
use cppecho.Python.Regex.{Found, re_match, re_search}
use cppecho.Cpplint.Report.{ErrorHandler}
use cppecho.Cpplint.Files.{FileSystem}
use cppecho.Cpplint.Language.Globals.{check_global_static}
use cppecho.Cpplint.Language.Printf.{string_copy, matching_punctuation, get_text_inside}
use cppecho.Cpplint.Language.Printf.Inside.{Nested, get_text_inside_lem}
use cppecho.Cpplint.Language.Rules.{check_language_line}

abbrev note : ErrorHandler (List Text)
note filename linenum category confidence message s = category ∷ s

abbrev fs : FileSystem
fs = record { cwd = codes "/"; exists = λ path. false }

static_string :
    check_global_static note (codes "a.cc") (codes "static const string kFoo = 3;" ∷ []) 0 []
    ≡ codes "runtime/string" ∷ []
unfolding check_global_static re_match re_search
static_string = refl

-- A function whose return type is a string
string_function :
    check_global_static note (codes "a.cc") (codes "string Foo(int a);" ∷ []) 0 [] ≡ []
unfolding check_global_static re_match re_search
string_function = refl

self_initialised_member :
    check_global_static note (codes "a.cc") (codes "  : foo_(foo_), bar_(x);" ∷ []) 0 []
    ≡ codes "runtime/init" ∷ []
unfolding check_global_static re_match re_search
self_initialised_member = refl

-- A right shift does not separate the tokens of a size, a left shift does.
right_shift :
    check_language_line note fs (codes "a.cc") false 0 (codes "  int a[kSize>>n];") [] ≡ some []
unfolding check_language_line re_match re_search
right_shift = refl

left_shift :
    check_language_line note fs (codes "a.cc") false 0 (codes "  int a[kSize<<n];") []
    ≡ some (codes "runtime/arrays" ∷ [])
unfolding check_language_line re_match re_search
left_shift = refl

memset_in_header :
    check_language_line note fs
      (codes "a.h")
      true
      0
      (codes "namespace { memset(buf, sizeof(buf), 0); memset(b, 2 * s, 0);")
      []
    ≡ some (codes "build/namespaces" ∷ codes "runtime/memset" ∷ [])
unfolding check_language_line re_match re_search
memset_in_header = refl

abbrev call : Text
call = codes "x = strcpy(a(b), {c[1]}) + (1)"

abbrev copy : Found
copy = record {
  start = 4;
  whole = codes "strcpy(";
  after = codes "a(b), {c[1]}) + (1)";
  groups = (1, codes "strcpy") ∷ [];
}

copy_found : re_search string_copy call ≡ some copy
unfolding re_search
copy_found = refl

round : matching_punctuation b'(' ≡ some b')'
unfolding matching_punctuation
round = refl

get_text_inside_lem_example :
    IsSome (get_text_inside call string_copy)
    × ((get_text_inside call string_copy ≡ some (some (codes "a(b), {c[1]}"))) ↔ (
        Nested (codes "a(b), {c[1]}")
        × (rest : Text) × (codes "a(b), {c[1]}) + (1)" ≡ codes "a(b), {c[1]}" ++ b')' ∷ rest)))
get_text_inside_lem_example =
    get_text_inside_lem call string_copy copy 10 b'(' b')' (codes "a(b), {c[1]}) + (1)")
      (codes "a(b), {c[1]}") copy_found refl refl round
