-- ===== src/Cpplint/Categories.antt =====
-- The names of the error categories.
use cppecho.Prelude.{List, [], ◌∷◌}
use cppecho.Python.Str.{Text, codes}

-- _ERROR_CATEGORIES
abbrev pub error_categories : List Text
error_categories =
    codes "build/class"
    ∷ codes "build/c++11"
    ∷ codes "build/c++14"
    ∷ codes "build/c++tr1"
    ∷ codes "build/deprecated"
    ∷ codes "build/endif_comment"
    ∷ codes "build/explicit_make_pair"
    ∷ codes "build/forward_decl"
    ∷ codes "build/header_guard"
    ∷ codes "build/include"
    ∷ codes "build/include_alpha"
    ∷ codes "build/include_order"
    ∷ codes "build/include_what_you_use"
    ∷ codes "build/namespaces"
    ∷ codes "build/printf_format"
    ∷ codes "build/storage_class"
    ∷ codes "legal/copyright"
    ∷ codes "readability/alt_tokens"
    ∷ codes "readability/braces"
    ∷ codes "readability/casting"
    ∷ codes "readability/check"
    ∷ codes "readability/constructors"
    ∷ codes "readability/fn_size"
    ∷ codes "readability/inheritance"
    ∷ codes "readability/multiline_comment"
    ∷ codes "readability/multiline_string"
    ∷ codes "readability/namespace"
    ∷ codes "readability/nolint"
    ∷ codes "readability/nul"
    ∷ codes "readability/strings"
    ∷ codes "readability/todo"
    ∷ codes "readability/utf8"
    ∷ codes "runtime/arrays"
    ∷ codes "runtime/casting"
    ∷ codes "runtime/explicit"
    ∷ codes "runtime/int"
    ∷ codes "runtime/init"
    ∷ codes "runtime/invalid_increment"
    ∷ codes "runtime/member_string_references"
    ∷ codes "runtime/memset"
    ∷ codes "runtime/indentation_namespace"
    ∷ codes "runtime/operator"
    ∷ codes "runtime/printf"
    ∷ codes "runtime/printf_format"
    ∷ codes "runtime/references"
    ∷ codes "runtime/string"
    ∷ codes "runtime/threadsafe_fn"
    ∷ codes "runtime/vlog"
    ∷ codes "whitespace/blank_line"
    ∷ codes "whitespace/braces"
    ∷ codes "whitespace/comma"
    ∷ codes "whitespace/comments"
    ∷ codes "whitespace/empty_conditional_body"
    ∷ codes "whitespace/empty_if_body"
    ∷ codes "whitespace/empty_loop_body"
    ∷ codes "whitespace/end_of_line"
    ∷ codes "whitespace/ending_newline"
    ∷ codes "whitespace/forcolon"
    ∷ codes "whitespace/indent"
    ∷ codes "whitespace/line_length"
    ∷ codes "whitespace/newline"
    ∷ codes "whitespace/operators"
    ∷ codes "whitespace/parens"
    ∷ codes "whitespace/semicolon"
    ∷ codes "whitespace/tab"
    ∷ codes "whitespace/todo"
    ∷ []

-- _LEGACY_ERROR_CATEGORIES
abbrev pub legacy_error_categories : List Text
legacy_error_categories = codes "readability/streams" ∷ codes "readability/function" ∷ []

-- _DEFAULT_C_SUPPRESSED_CATEGORIES and _DEFAULT_KERNEL_SUPPRESSED_CATEGORIES
abbrev pub default_c_suppressed_categories : List Text
default_c_suppressed_categories = codes "readability/casting" ∷ []

abbrev pub default_kernel_suppressed_categories : List Text
default_kernel_suppressed_categories = codes "whitespace/tab" ∷ []
