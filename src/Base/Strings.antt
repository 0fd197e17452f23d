-- ===== src/Base/Strings.antt =====
-- Texts as the source's `String`: their UTF-8 bytes.
use Prim.Native.Nat.{ℕ, zero, suc, ◌+◌}
use Prim.Native.Char.{code}
use Prim.Native.String.{String}
use mathlib.Core.Path.{◌≡◌, refl, sym, ap, ◌∙◌}
use mathlib.Core.Option.{Option, none, some}
use mathlib.Core.Bool.{Bool, true, false, ◌&&◌, ◌||◌}
use mathlib.Core.Logic.{◌↔◌}
use mathlib.Core.List.{List, [], ◌∷◌, ◌++◌}
use native.Mathlib.Omega.{arith}
use mathlib.Core.Logic.{inl, inr}
use secure_file_shredder_and.Base.Tests.{Bool-cases, ◌==◌, ltb, leb, if◌then◌else◌}

abbrev pub Bytes : Type 0
Bytes = List ℕ

abbrev pub Text : Type 0
Text = Bytes

-- The bytes of an ASCII literal.
unfoldable pub codes : String → Text
codes String.[] = []
codes (String.◌∷◌ c s) = code c ∷ codes s

-- `==` on slices.
unfoldable pub bytes_eq : Bytes → Bytes → Bool
bytes_eq [] [] = true
bytes_eq [] (y ∷ ys) = false
bytes_eq (x ∷ xs) [] = false
bytes_eq (x ∷ xs) (y ∷ ys) = x == y && bytes_eq xs ys

pub bytes_eq_iff : (xs ys : Bytes) → (bytes_eq xs ys ≡ true) ↔ (xs ≡ ys)
unfolding bytes_eq
bytes_eq_iff [] [] = ground arith
bytes_eq_iff [] (y ∷ ys) = ground arith
bytes_eq_iff (x ∷ xs) [] = ground arith
bytes_eq_iff (x ∷ xs) (y ∷ ys) = ground (arith, bytes_eq_iff xs ys)

-- `str::starts_with` and `[u8]::starts_with`.
unfoldable pub starts_with : Bytes → Bytes → Bool
starts_with xs [] = true
starts_with [] (y ∷ ys) = false
starts_with (x ∷ xs) (y ∷ ys) = x == y && starts_with xs ys

abbrev pub lower_byte : ℕ → ℕ
lower_byte c = if leb b'A' c && leb c b'Z' then c + 32 else c

abbrev pub is_ascii : Bytes → Bool
is_ascii [] = true
is_ascii (c ∷ s) = ltb c 128 && is_ascii s

abbrev pub map_lower : Bytes → Bytes
map_lower [] = []
map_lower (c ∷ s) = lower_byte c ∷ map_lower s

-- `str::to_lowercase`: by bytes if the text is ASCII, and by the tables of Unicode, which are
-- given, if it is not.
unfoldable pub to_lowercase : (Text → Text) → Text → Text
to_lowercase unicode s = if is_ascii s then map_lower s else unicode s

-- `str::strip_prefix`
unfoldable pub strip_prefix : Text → Text → Option Text
strip_prefix s [] = some s
strip_prefix [] (y ∷ ys) = none
strip_prefix (x ∷ xs) (y ∷ ys) = if x == y then strip_prefix xs ys else none

-- `str::contains` and the windows of a slice: the second occurs in the first.
unfoldable pub contains : Bytes → Bytes → Bool
contains [] needle = starts_with [] needle
contains (x ∷ xs) needle = starts_with (x ∷ xs) needle || contains xs needle

abbrev extend : ℕ → List Text → List Text
extend c [] = (c ∷ []) ∷ []
extend c (line ∷ rest) = (c ∷ line) ∷ rest

abbrev starts_line : Text → Bool
starts_line [] = false
starts_line (c ∷ s) = c == 10

-- A character before the lines that follow it; `newline` says whether `\n` comes next.
unfoldable pub step_line : ℕ → Bool → List Text → List Text
step_line c newline rest =
    if c == 10 then [] ∷ rest else if c == 13 && newline then rest else extend c rest

-- `str::lines`: a line ends in `\n` or in `\r\n`.
unfoldable pub lines : Text → List Text
unfolding step_line
lines [] = []
lines (c ∷ s) = step_line c (starts_line s) (lines s)

-- More lines may follow.
pub step_line-append :
    (c : ℕ) (newline : Bool) (l : Text) (ls ys : List Text)
    → step_line c newline (l ∷ ls) ++ ys ≡ step_line c newline ((l ∷ ls) ++ ys)
unfolding step_line
step_line-append c newline l ls ys = ground arith

abbrev is_white : ℕ → Bool
is_white c = c == 32 || (leb 9 c && leb c 13)

abbrev trim_start : Text → Text
trim_start [] = []
trim_start (c ∷ s) = let rest = trim_start s in if is_white c then rest else c ∷ s

-- A character before what is left of the text behind it, unless both are white.
abbrev keep_char : Bool → ℕ → Text → Text
keep_char true c [] = []
keep_char white c s = c ∷ s

abbrev trim_end : Text → Text
trim_end [] = []
trim_end (c ∷ s) = keep_char (is_white c) c (trim_end s)

-- `str::trim`
unfoldable pub trim : (Text → Text) → Text → Text
trim unicode s = if is_ascii s then trim_end (trim_start s) else unicode s

abbrev add_word : Text → List Text → List Text
add_word [] words = words
add_word (c ∷ s) words = (c ∷ s) ∷ words

abbrev words_from : Text → Text → List Text
words_from current [] = add_word current []
words_from current (c ∷ s) =
    let next = words_from [] s in
    let longer = words_from (current ++ (c ∷ [])) s in
    if is_white c then add_word current next else longer

-- `str::split_whitespace`, with the tables of Unicode for a text that is not ASCII.
unfoldable pub split_whitespace : (Text → List Text) → Text → List Text
split_whitespace unicode s = if is_ascii s then words_from [] s else unicode s

-- ASCII white space only.
abbrev pub all_blank : Text → Bool
all_blank [] = true
all_blank (c ∷ s) = (c == 32 || (leb 9 c && leb c 13)) && all_blank s

-- `s.trim().is_empty()`
unfoldable pub is_blank : (Text → Bool) → Text → Bool
is_blank unicode s = if is_ascii s then all_blank s else unicode s

abbrev between : ℕ → ℕ → ℕ → Bool
between lo hi c = leb lo c && leb c hi

-- `left` more continuation bytes, the next between `lo` and `hi`.
utf8_from : ℕ → ℕ → ℕ → Bytes → Bool
utf8_from zero lo hi [] = true
utf8_from (suc left) lo hi [] = false
utf8_from (suc left) lo hi (c ∷ s) = between lo hi c && utf8_from left 0x80 0xbf s
utf8_from zero lo hi (c ∷ s) =
    let ascii = utf8_from 0 0 0 s in
    let two = utf8_from 1 0x80 0xbf s in
    let three =
      utf8_from 2 (if c == 0xe0 then 0xa0 else 0x80) (if c == 0xed then 0x9f else 0xbf) s in
    let four =
      utf8_from 3 (if c == 0xf0 then 0x90 else 0x80) (if c == 0xf4 then 0x8f else 0xbf) s in
    if ltb c 0x80
    then ascii
    else if between 0xc2 0xdf c
    then two
    else if between 0xe0 0xef c
    then three
    else if between 0xf0 0xf4 c
    then four
    else false

-- What `String::from_utf8` accepts.
unfoldable pub is_utf8 : Bytes → Bool
unfolding utf8_from
is_utf8 = utf8_from 0 0 0

pub is_ascii-append :
    (xs ys : Bytes) → is_ascii xs ≡ true → is_ascii ys ≡ true → is_ascii (xs ++ ys) ≡ true
is_ascii-append [] ys h k = k
is_ascii-append (x ∷ xs) ys h k = ground (arith, is_ascii-append xs ys)

pub map_lower-append : (xs ys : Bytes) → map_lower (xs ++ ys) ≡ map_lower xs ++ map_lower ys
map_lower-append [] ys = refl
map_lower-append (x ∷ xs) ys = rw (map_lower-append xs ys)

pub strip_prefix-append : (xs ys : Bytes) → strip_prefix (xs ++ ys) xs ≡ some ys
unfolding strip_prefix
strip_prefix-append [] ys = refl
strip_prefix-append (x ∷ xs) ys = ground (arith, strip_prefix-append xs ys)

pub lines-cons : (c : ℕ) (s : Text) → (l : Text) × (ls : List Text) × (lines (c ∷ s) ≡ l ∷ ls)
unfolding lines step_line
lines-cons c [] = elim (Bool-cases (c == 10)) [
  | inl h ↦ ([], [], rw h refl)
  | inr h ↦ (c ∷ [], [], ground (arith, h))
]
lines-cons c (d ∷ s) =
    let (l, ls, e) = lines-cons d s in
    elim (Bool-cases (c == 10)) [
      | inl h ↦ ([], lines (d ∷ s), rw h refl)
      | inr h ↦ elim (Bool-cases (c == 13 && d == 10)) [
        | inl k ↦ (l, ls, rw (h, k) e)
        | inr k ↦ (c ∷ l, ls, rw (h, k, e) refl)
      ]
    ]

-- The content ends where a line does.
abbrev pub is_terminated : Bytes → Bool
is_terminated [] = true
is_terminated (c ∷ []) = c == 10
is_terminated (c ∷ d ∷ s) = is_terminated (d ∷ s)

pub lines-append :
    (b rest : Text) → is_terminated b ≡ true → lines (b ++ rest) ≡ lines b ++ lines rest
unfolding lines
lines-append [] rest h = refl
lines-append (c ∷ []) rest h = unfold step_line in (ground (arith, h))
lines-append (c ∷ d ∷ s) rest h =
    let (l, ls, e) = lines-cons d s in
    ap (step_line c (d == 10)) (lines-append (d ∷ s) rest h ∙ ap (λ x. x ++ lines rest) e)
    ∙ sym (step_line-append c (d == 10) l ls (lines rest))
    ∙ ap (λ x. step_line c (d == 10) x ++ lines rest) (sym e)
