-- ===== src/Cpplint/WholeFile/LastLine.antt =====
-- CheckForNewlineAtEOF finds out whether a file ends with a line feed.
use cppecho.Prelude.{
  ℕ, ◌+◌, ◌-◌, ◌<◌, ◌≡◌, refl, ◌∙◌, Bool, true, false, not, List, [], ◌∷◌, ◌++◌, ltb, ◌==◌,
  if◌then◌else◌, length, get_or, arith, length-append,
}
use cppecho.Python.Str.{Text, codes, text_eq, split, cons_first}
use cppecho.Cpplint.Report.{ErrorHandler}
use cppecho.Cpplint.WholeFile.{start_marker, end_marker, with_markers, check_for_newline_at_eof}

-- The last element, or else a text.
abbrev last_or : Text → List Text → Text
last_or d [] = d
last_or d (l ∷ ls) = last_or l ls

get_or-last :
    (d : Text) (ls : List Text) (m : Text)
    → get_or ((d ∷ ls) ++ m ∷ []) (length ls) [] ≡ last_or d ls
get_or-last d [] m = refl
get_or-last d (l ∷ ls) m = get_or-last l ls m

-- Whether the content ends with a line feed, or is empty.
abbrev pub ends_line : Text → Bool
ends_line [] = true
ends_line (c ∷ []) = c == 10
ends_line (c ∷ d ∷ s) = ends_line (d ∷ s)

-- What a code point does to the lines behind it.
abbrev extended : Bool → ℕ → List Text → List Text
extended b c ls = if b then [] ∷ ls else cons_first c ls

split-cons : (c : ℕ) (s : Text) → split (c ∷ s) 10 ≡ extended (c == 10) c (split s 10)
unfolding split
split-cons c s = refl

-- No line, or only an empty one.
abbrev is_blank : List Text → Bool
is_blank [] = true
is_blank ([] ∷ []) = true
is_blank _ = false

abbrev is_nil : List Text → Bool
is_nil [] = true
is_nil (l ∷ ls) = false

length-nonnil : (ls : List Text) → is_nil ls ≡ false → 0 < length ls
length-nonnil [] h = absurd (cc)
length-nonnil (l ∷ ls) h = omega arith

extended-nil : (b : Bool) (c : ℕ) (ls : List Text) → is_nil (extended b c ls) ≡ false
extended-nil true c ls = refl
extended-nil false c [] = refl
extended-nil false c (l ∷ ls) = refl

split-nil : (s : Text) → is_nil (split s 10) ≡ false
split-nil [] = unfold split in refl
split-nil (c ∷ s) = rw (split-cons c s) (extended-nil (c == 10) c (split s 10))

extended-blank :
    (b : Bool) (c : ℕ) (ls : List Text) → is_nil ls ≡ false → is_blank (extended b c ls) ≡ false
extended-blank true c [] h = absurd (cc)
extended-blank true c (l ∷ ls) h = refl
extended-blank false c [] h = refl
extended-blank false c (l ∷ ls) h = refl

split-blank : (c : ℕ) (s : Text) → is_blank (split (c ∷ s) 10) ≡ false
split-blank c s = rw (split-cons c s) (extended-blank (c == 10) c (split s 10) (split-nil s))

extended-last :
    (b : Bool) (c : ℕ) (ls : List Text) (d : Text)
    → is_blank ls ≡ false
    → text_eq (last_or d (extended b c ls)) [] ≡ text_eq (last_or d ls) []
extended-last b c [] d h = absurd (cc)
extended-last true c (l ∷ ls) d h = refl
extended-last false c ([] ∷ []) d h = absurd (cc)
extended-last false c ((e ∷ p) ∷ []) d h = unfold text_eq in refl
extended-last false c (l ∷ m ∷ ls) d h = refl

last_split : (s : Text) (d : Text) → text_eq (last_or d (split s 10)) [] ≡ ends_line s
unfolding text_eq split
last_split [] d = unfold split text_eq in refl
last_split (c ∷ []) d = rw (split-cons c []) (one (c == 10))
  where
    one : (b : Bool) → text_eq (last_or d (extended b c ([] ∷ []))) [] ≡ b
    one true = refl
    one false = refl
last_split (c ∷ e ∷ s) d =
    rw (split-cons c (e ∷ s))
      (extended-last (c == 10) c (split (e ∷ s) 10) d (split-blank e s) ∙ last_split (e ∷ s) d)

-- On the lines of a file between the markers, an error is reported exactly when the file is not empty
-- and does not end with a line feed; it is on the file's last line.
pub check_for_newline_at_eof-split {ℓ} :
    {S : Type ℓ} (error : ErrorHandler S) (filename content : Text) (s : S)
    → check_for_newline_at_eof error filename (with_markers (split content 10)) s ≡ (
        if ends_line content
        then s
        else error filename
            (length (split content 10))
            (codes "whitespace/ending_newline")
            5
            (codes "Could not find a newline character at the end of the file.")
            s)
unfolding check_for_newline_at_eof with_markers
check_for_newline_at_eof-split error filename content s =
    let ls = split content 10 in
    let n : length ((start_marker ∷ ls) ++ end_marker ∷ []) ≡ length ls + 2 =
      omega (arith, length-append (start_marker ∷ ls) (end_marker ∷ [])) in
    let m : length ls + 2 - 2 ≡ length ls = omega arith in
    let long : ltb (length ls + 2) 3 ≡ false =
      ground (arith, length-nonnil ls (split-nil content)) in
    rw (n, m, long, get_or-last start_marker ls end_marker, last_split content start_marker)
      (swapped (ends_line content))
  where
    swapped :
        (b : Bool)
        → (if not b
            then error filename
                (length (split content 10))
                (codes "whitespace/ending_newline")
                5
                (codes "Could not find a newline character at the end of the file.")
                s
            else s)
          ≡ (if b
              then s
              else error filename
                  (length (split content 10))
                  (codes "whitespace/ending_newline")
                  5
                  (codes "Could not find a newline character at the end of the file.")
                  s)
    swapped true = refl
    swapped false = refl
