-- ===== src/Cpplint/Files/Modules.antt =====
-- What FilesBelongToSameModule answers for a source file and a header.
use cppecho.Prelude.{◌≡◌, ◌≢◌, sym, true, ◌&&◌, [], ◌++◌, arith}
use cppecho.Python.Str.{Text, codes, endswith}
use cppecho.Python.Str.Laws.{endswith→append, text_eq_ne}
use cppecho.Cpplint.Files.{is_source, stem_cc, stem_h, files_belong_to_same_module}

-- For a header whose stem is not empty, the answer is yes exactly when the file has the extension of a
-- source file, the header ends with .h, and the stem of the file ends with the stem of the header; then
-- the path that comes with it, put in front of the stem of the header, is the stem of the file.
pub files_belong_to_same_module_lem :
    (googlename filename_cc filename_h : Text)
    → stem_h filename_h ≢ []
    → ((files_belong_to_same_module googlename filename_cc filename_h).0 ≡ (
        is_source googlename
        && endswith filename_h (codes ".h")
        && endswith (stem_cc googlename filename_cc) (stem_h filename_h)))
      × ((files_belong_to_same_module googlename filename_cc filename_h).0 ≡ true
          → (files_belong_to_same_module googlename filename_cc filename_h).1 ++ stem_h filename_h
            ≡ stem_cc googlename filename_cc)
unfolding files_belong_to_same_module
files_belong_to_same_module_lem googlename filename_cc filename_h h = (
  ground arith,
  λ e.
      let ends : endswith (stem_cc googlename filename_cc) (stem_h filename_h) ≡ true =
        ground arith in
      let source : is_source googlename ≡ true = ground arith in
      let header : endswith filename_h (codes ".h") ≡ true = ground arith in
      rw (source, header, ends, text_eq_ne (stem_h filename_h) [] h)
        (sym (endswith→append (stem_cc googlename filename_cc) (stem_h filename_h) ends).0),
)
