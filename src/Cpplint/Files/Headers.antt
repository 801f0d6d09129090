-- ===== src/Cpplint/Files/Headers.antt =====
-- _ClassifyInclude of tools/cpplint/cpplint.py and the list of C++ headers that it reads.
use cppecho.Prelude.{
  Bool, true, false, ◌&&◌, ◌||◌, List, [], ◌∷◌, ◌++◌, Option, none, some, if◌then◌else◌,
}
use cppecho.Python.Str.{Text, codes, text_eq, member}
use cppecho.Python.Path.{path_split, normpath}
use cppecho.Python.Regex.{Regex, Found, bol, none_of, plus, ◌▹◌, re_match}
use cppecho.Cpplint.Includes.{
  HeaderType, c_sys_header, cpp_sys_header, likely_my_header, possible_my_header, other_header,
}
use cppecho.Cpplint.Files.{FileSystem, repository_name, drop_common_suffixes}

-- _CPP_HEADERS
abbrev pub cpp_headers : List Text
cpp_headers =
    codes "algobase.h"
    ∷ codes "algo.h"
    ∷ codes "alloc.h"
    ∷ codes "builtinbuf.h"
    ∷ codes "bvector.h"
    ∷ codes "complex.h"
    ∷ codes "defalloc.h"
    ∷ codes "deque.h"
    ∷ codes "editbuf.h"
    ∷ codes "fstream.h"
    ∷ codes "function.h"
    ∷ codes "hash_map"
    ∷ codes "hash_map.h"
    ∷ codes "hash_set"
    ∷ codes "hash_set.h"
    ∷ codes "hashtable.h"
    ∷ codes "heap.h"
    ∷ codes "indstream.h"
    ∷ codes "iomanip.h"
    ∷ codes "iostream.h"
    ∷ codes "istream.h"
    ∷ codes "iterator.h"
    ∷ codes "list.h"
    ∷ codes "map.h"
    ∷ codes "multimap.h"
    ∷ codes "multiset.h"
    ∷ codes "ostream.h"
    ∷ codes "pair.h"
    ∷ codes "parsestream.h"
    ∷ codes "pfstream.h"
    ∷ codes "procbuf.h"
    ∷ codes "pthread_alloc"
    ∷ codes "pthread_alloc.h"
    ∷ codes "rope"
    ∷ codes "rope.h"
    ∷ codes "ropeimpl.h"
    ∷ codes "set.h"
    ∷ codes "slist"
    ∷ codes "slist.h"
    ∷ codes "stack.h"
    ∷ codes "stdiostream.h"
    ∷ codes "stl_alloc.h"
    ∷ codes "stl_relops.h"
    ∷ codes "streambuf.h"
    ∷ codes "stream.h"
    ∷ codes "strfile.h"
    ∷ codes "strstream.h"
    ∷ codes "tempbuf.h"
    ∷ codes "tree.h"
    ∷ codes "type_traits.h"
    ∷ codes "vector.h"
    ∷ codes "algorithm"
    ∷ codes "array"
    ∷ codes "atomic"
    ∷ codes "bitset"
    ∷ codes "chrono"
    ∷ codes "codecvt"
    ∷ codes "complex"
    ∷ codes "condition_variable"
    ∷ codes "deque"
    ∷ codes "exception"
    ∷ codes "forward_list"
    ∷ codes "fstream"
    ∷ codes "functional"
    ∷ codes "future"
    ∷ codes "initializer_list"
    ∷ codes "iomanip"
    ∷ codes "ios"
    ∷ codes "iosfwd"
    ∷ codes "iostream"
    ∷ codes "istream"
    ∷ codes "iterator"
    ∷ codes "limits"
    ∷ codes "list"
    ∷ codes "locale"
    ∷ codes "map"
    ∷ codes "memory"
    ∷ codes "mutex"
    ∷ codes "new"
    ∷ codes "numeric"
    ∷ codes "ostream"
    ∷ codes "queue"
    ∷ codes "random"
    ∷ codes "ratio"
    ∷ codes "regex"
    ∷ codes "scoped_allocator"
    ∷ codes "set"
    ∷ codes "sstream"
    ∷ codes "stack"
    ∷ codes "stdexcept"
    ∷ codes "streambuf"
    ∷ codes "string"
    ∷ codes "strstream"
    ∷ codes "system_error"
    ∷ codes "thread"
    ∷ codes "tuple"
    ∷ codes "typeindex"
    ∷ codes "typeinfo"
    ∷ codes "type_traits"
    ∷ codes "unordered_map"
    ∷ codes "unordered_set"
    ∷ codes "utility"
    ∷ codes "valarray"
    ∷ codes "vector"
    ∷ codes "cassert"
    ∷ codes "ccomplex"
    ∷ codes "cctype"
    ∷ codes "cerrno"
    ∷ codes "cfenv"
    ∷ codes "cfloat"
    ∷ codes "cinttypes"
    ∷ codes "ciso646"
    ∷ codes "climits"
    ∷ codes "clocale"
    ∷ codes "cmath"
    ∷ codes "csetjmp"
    ∷ codes "csignal"
    ∷ codes "cstdalign"
    ∷ codes "cstdarg"
    ∷ codes "cstdbool"
    ∷ codes "cstddef"
    ∷ codes "cstdint"
    ∷ codes "cstdio"
    ∷ codes "cstdlib"
    ∷ codes "cstring"
    ∷ codes "ctgmath"
    ∷ codes "ctime"
    ∷ codes "cuchar"
    ∷ codes "cwchar"
    ∷ codes "cwctype"
    ∷ []

-- ^[^-_.]+
abbrev pub first_component : Regex
first_component = bol ▹ plus (none_of "-_.")

-- Whether both names have a first component, and the same one.
same_component : Option Found → Option Found → Bool
unfolding text_eq
same_component (some m) (some n) = text_eq m.whole n.whole
same_component _ _ = false

-- The comparison of the RepositoryName of the file with a header in quotes.
unfoldable pub compare_names : Text → Text → HeaderType
unfolding same_component drop_common_suffixes path_split normpath
compare_names target include =
    let (target_dir, target_base) = path_split (drop_common_suffixes target) in
    let (include_dir, include_base) = path_split (drop_common_suffixes include) in
    if text_eq target_base include_base
      && (text_eq include_dir target_dir
          || text_eq include_dir (normpath (target_dir ++ codes "/../public")))
    then likely_my_header
    else if same_component (re_match first_component target_base)
        (re_match first_component include_base)
    then possible_my_header
    else other_header

compare_with : Option Text → Text → Option HeaderType
unfolding compare_names
compare_with none include = none
compare_with (some target) include = some (compare_names target include)

-- _ClassifyInclude for the file of a name; none means that RepositoryName does not end.
unfoldable pub classify_include : FileSystem → Text → Text → Bool → Option HeaderType
unfolding compare_with repository_name member
classify_include fs filename include true =
    some (if member include cpp_headers then cpp_sys_header else c_sys_header)
classify_include fs filename include false = compare_with (repository_name fs filename) include
