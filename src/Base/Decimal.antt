-- ===== src/Base/Decimal.antt =====
-- Decimal numbers: what `{}` prints of an unsigned integer, and what `parse` of `u32`, `u64` and
-- `u8` reads.
pub mod Laws
use secure_file_shredder_and.Base.Strings.{Text, Bytes}
use secure_file_shredder_and.Base.Tests.{ltb, leb, ◌==◌, if◌then◌else◌}
use Prim.Native.Nat.{ℕ, zero, suc, ◌+◌, ◌-◌, ◌*◌, ◌/◌, ◌%◌, ◌^◌, ◌<◌}
use mathlib.Core.Bool.{Bool, true, false, ◌&&◌}
use mathlib.Core.Option.{Option, none, some}
use mathlib.Core.List.{List, [], ◌∷◌}

-- The digits of `n` before `tail`; `n < 10 ^ suc fuel` is enough fuel.
print_digits : ℕ → ℕ → Text → Text
print_digits zero n tail = (48 + n % 10) ∷ tail
print_digits (suc fuel) n tail =
    let more = print_digits fuel (n / 10) ((48 + n % 10) ∷ tail) in
    if ltb n 10 then (48 + n) ∷ tail else more

unfoldable pub decimal : ℕ → Text
unfolding print_digits
decimal n = print_digits n n []

-- The digits of `s` behind the value `n`; a result of at least `limit` is an overflow.
parse_digits : ℕ → ℕ → Text → Option ℕ
parse_digits limit n [] = some n
parse_digits limit n (c ∷ s) =
    let more = parse_digits limit (n * 10 + (c - 48)) s in
    if leb 48 c && leb c 57 && ltb (n * 10 + (c - 48)) limit then more else none

-- After a leading `+`, if there is one, at least one digit.
unfoldable pub parse_unsigned : ℕ → Text → Option ℕ
unfolding parse_digits
parse_unsigned limit [] = none
parse_unsigned limit (c ∷ []) = if c == b'+' then none else parse_digits limit 0 (c ∷ [])
parse_unsigned limit (c ∷ s) =
    if c == b'+' then parse_digits limit 0 s else parse_digits limit 0 (c ∷ s)
