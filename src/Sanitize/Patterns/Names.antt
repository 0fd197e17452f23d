-- ===== src/Sanitize/Patterns/Names.antt =====
-- Names of patterns, printed and read.
use mathlib.Core.Path.{ap₂}
use secure_file_shredder_and.Base.{
  ℕ, ◌^◌, ◌<◌, ◌≡◌, refl, ap, ◌∙◌, Bool, true, false, List, [], ◌∷◌, ◌++◌, Text, codes, bytes_eq,
  strip_prefix, to_lowercase, decimal, parse_unsigned, arith, is_ascii, map_lower, if◌then◌else◌,
  lower_byte, leb, ◌-◌, ◌&&◌,
}
use secure_file_shredder_and.Base.Decimal.Laws.{
  parse_unsigned-decimal, decimal-ascii, decimal-lower,
}
use secure_file_shredder_and.Io.Outcome.{Outcome, ok, err}
use secure_file_shredder_and.Sanitize.Patterns.{
  OverwritePattern, single_random, multi_random, zeros, ones, name, from_str, from_lower,
  multi_random_of, unknown_pattern,
}

to_lowercase-multi_random :
    (unicode : Text → Text) (n : ℕ)
    → to_lowercase unicode (name (multi_random n)) ≡ name (multi_random n)
unfolding to_lowercase name codes
to_lowercase-multi_random unicode n = rw (decimal-ascii, decimal-lower)

from_lower-multi_random :
    (rest : Text)
    → from_lower (codes "multi-random-" ++ rest)
      ≡ multi_random_of (codes "multi-random-" ++ rest) (parse_unsigned (2 ^ 32) rest)
unfolding from_lower codes bytes_eq strip_prefix
from_lower-multi_random rest = refl

-- The name of `MultiRandom(n)`, for every count of a `u32`, is read back.
pub from_str-multi_random :
    (unicode : Text → Text) (n : ℕ)
    → n < 2 ^ 32
    → from_str unicode (name (multi_random n)) ≡ ok (multi_random n)
unfolding from_str name multi_random_of
from_str-multi_random unicode n h =
    ap from_lower (to_lowercase-multi_random unicode n)
    ∙ from_lower-multi_random (decimal n)
    ∙ ap (multi_random_of (name (multi_random n))) (parse_unsigned-decimal (2 ^ 32) n h)

-- Which names are read back as their pattern.
abbrev pub reads_back : OverwritePattern → Bool
reads_back single_random = true
reads_back (multi_random n) = true
reads_back zeros = true
reads_back ones = true
reads_back _ = false

abbrev pub CountFits : OverwritePattern → Type 0
CountFits (multi_random n) = n < 2 ^ 32
CountFits _ = Unit

-- What the name of a pattern is read as.
abbrev pub name_read : OverwritePattern → Outcome Text OverwritePattern
name_read p = if reads_back p then ok p else err (unknown_pattern (name p))

-- Of the names that `name` gives, those of the random patterns (with a count below 2^32), of zeros and of ones are read back
-- as their pattern. The others, of the DoD, NIST and custom patterns, are refused as unknown.
pub from_str-name :
    (unicode : Text → Text) (p : OverwritePattern)
    → CountFits p
    → from_str unicode (name p) ≡ name_read p
unfolding from_str name from_lower to_lowercase codes bytes_eq strip_prefix
from_str-name unicode (multi_random n) h = from_str-multi_random unicode n h
from_str-name unicode single_random h = refl
from_str-name unicode _ h = refl

upper_byte : ℕ → ℕ
upper_byte c = if leb b'a' c && leb c b'z' then c - 32 else c

-- `to_ascii_uppercase`
pub map_upper : Text → Text
unfolding upper_byte
map_upper [] = []
map_upper (c ∷ s) = upper_byte c ∷ map_upper s

lower-upper : (c : ℕ) → lower_byte (upper_byte c) ≡ lower_byte c
unfolding upper_byte
lower-upper c = ground arith

map_lower-map_upper : (s : Text) → map_lower (map_upper s) ≡ map_lower s
unfolding map_upper
map_lower-map_upper [] = refl
map_lower-map_upper (c ∷ s) = ap₂ {C = List ℕ} ◌∷◌ (lower-upper c) (map_lower-map_upper s)

is_ascii-map_upper : (s : Text) → is_ascii (map_upper s) ≡ is_ascii s
unfolding map_upper
is_ascii-map_upper [] = refl
is_ascii-map_upper (c ∷ s) = rw (is_ascii-map_upper s) (ground arith)

-- An ASCII name is read alike in upper case.
pub from_str-map_upper :
    (unicode : Text → Text) (s : Text)
    → is_ascii s ≡ true
    → from_str unicode (map_upper s) ≡ from_str unicode s
unfolding from_str to_lowercase
from_str-map_upper unicode s h = rw (is_ascii-map_upper, h, map_lower-map_upper)
