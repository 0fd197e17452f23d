-- ===== src/Io/Float.antt =====
-- Comparisons of `f64`, on the bit patterns: sign, then exponent and fraction.
use secure_file_shredder_and.Base.{ℕ, ◌+◌, ◌/◌, ◌%◌, ◌^◌, Bool, false, ◌||◌, ltb, if◌then◌else◌}

abbrev pub F64 : Type 0
F64 = ℕ

abbrev magnitude : F64 → ℕ
magnitude x = x % 2 ^ 63

abbrev is_negative : F64 → Bool
is_negative x = ltb 0 (x / 2 ^ 63)

abbrev is_nan : F64 → Bool
is_nan x = ltb 0x7ff0000000000000 (magnitude x)

-- `a < b`
unfoldable pub f64_lt : F64 → F64 → Bool
f64_lt a b =
    if is_nan a || is_nan b
    then false
    else if is_negative a
    then (if is_negative b
        then ltb (magnitude b) (magnitude a)
        else ltb 0 (magnitude a + magnitude b))
    else if is_negative b
    then false
    else ltb (magnitude a) (magnitude b)

-- The literals of the source.
abbrev pub f64_0 : F64
f64_0 = 0

abbrev pub f64_5 : F64
f64_5 = 0x4014000000000000

abbrev pub f64_6_5 : F64
f64_6_5 = 0x401a000000000000

abbrev pub f64_7 : F64
f64_7 = 0x401c000000000000

-- `f64::min`: the other one, if one is not a number.
unfoldable pub f64_min : F64 → F64 → F64
f64_min a b = if is_nan a then b else if is_nan b then a else if f64_lt b a then b else a

-- `x.clamp(lo, hi)`
unfoldable pub f64_clamp : F64 → F64 → F64 → F64
f64_clamp x lo hi = if f64_lt x lo then lo else if f64_lt hi x then hi else x
