-- ===== src/Base/Decimal/Laws.antt =====
-- Printed numbers: parsed, and their digits.
use secure_file_shredder_and.Base.Strings.{Text, is_ascii, map_lower}
use secure_file_shredder_and.Base.Tests.{Bool-cases, ltb, ltb→lt}
use secure_file_shredder_and.Base.Lists.{All}
use secure_file_shredder_and.Base.Decimal.{print_digits, decimal, parse_digits, parse_unsigned}
use Prim.Native.Nat.{ℕ, zero, suc, ◌+◌, ◌-◌, ◌*◌, ◌/◌, ◌%◌, ◌<◌, ◌≤◌}
use mathlib.Core.Path.{◌≡◌, refl, ◌∙◌}
use mathlib.Core.Logic.{inl, inr}
use mathlib.Core.Bool.{true, false}
use mathlib.Core.Option.{some}
use mathlib.Core.List.{[], ◌∷◌}
use native.Mathlib.Omega.{arith}

parse_digits-digit :
    (limit a d : ℕ) (tail : Text)
    → d < 10
    → a * 10 + d < limit
    → parse_digits limit a ((48 + d) ∷ tail) ≡ parse_digits limit (a * 10 + d) tail
unfolding parse_digits
parse_digits-digit limit a d tail l h = let e : 48 + d - 48 ≡ d = omega arith in rw e (ground arith)

parse_digits-print_digits :
    (limit fuel n : ℕ) (tail : Text)
    → n ≤ fuel
    → n < limit
    → parse_digits limit 0 (print_digits fuel n tail) ≡ parse_digits limit n tail
unfolding print_digits
parse_digits-print_digits limit zero n tail f l =
    let e : 0 * 10 + n % 10 ≡ n = omega arith in
    rw e at (parse_digits-digit limit 0 (n % 10) tail (omega arith) (omega arith))
parse_digits-print_digits limit (suc fuel) n tail f l = elim (Bool-cases (ltb n 10)) [
  | inl small ↦
      let e : 0 * 10 + n ≡ n = omega arith in
      rw small (rw e at (parse_digits-digit limit 0 n tail (ltb→lt n 10 small) (omega arith)))
  | inr big ↦
      let e : n / 10 * 10 + n % 10 ≡ n = omega arith in
      rw big (
        parse_digits-print_digits limit fuel (n / 10) _ (small_enough big) (omega arith)
        ∙ (rw e at (parse_digits-digit limit (n / 10) (n % 10) tail (omega arith) (omega arith))))
]
  where
    small_enough : ltb n 10 ≡ false → n / 10 ≤ fuel
    small_enough h = ground arith

-- Digits stand first, and are as they are in lower case.
abbrev StartsWithDigit : Text → Type 0
StartsWithDigit [] = ⊥
StartsWithDigit (c ∷ s) = (48 ≤ c) × (c ≤ 57)

print_digits-StartsWithDigit :
    (fuel n : ℕ) (tail : Text) → StartsWithDigit (print_digits fuel n tail)
unfolding print_digits
print_digits-StartsWithDigit zero n tail = omega arith
print_digits-StartsWithDigit (suc fuel) n tail = elim (Bool-cases (ltb n 10)) [
  | inl small ↦ rw small (ground arith)
  | inr big ↦ rw big (print_digits-StartsWithDigit fuel (n / 10) _)
]

parse_unsigned-digits :
    (limit : ℕ) (s : Text) → StartsWithDigit s → parse_unsigned limit s ≡ parse_digits limit 0 s
unfolding parse_unsigned
parse_unsigned-digits limit [] h = elim h [ ]
parse_unsigned-digits limit (c ∷ []) h = ground arith
parse_unsigned-digits limit (c ∷ d ∷ s) h = ground arith

-- What `{}` prints of a number below the limit, `parse` reads.
pub parse_unsigned-decimal : (limit n : ℕ) → n < limit → parse_unsigned limit (decimal n) ≡ some n
unfolding decimal parse_digits
parse_unsigned-decimal limit n h =
    parse_unsigned-digits limit _ (print_digits-StartsWithDigit n n [])
    ∙ parse_digits-print_digits limit n n [] (omega arith) h

print_digits-ascii :
    (fuel n : ℕ) (tail : Text) → is_ascii tail ≡ true → is_ascii (print_digits fuel n tail) ≡ true
unfolding print_digits
print_digits-ascii zero n tail h = ground arith
print_digits-ascii (suc fuel) n tail h = elim (Bool-cases (ltb n 10)) [
  | inl small ↦ rw small (ground arith)
  | inr big ↦ rw big (print_digits-ascii fuel (n / 10) _ (ground arith))
]

print_digits-lower :
    (fuel n : ℕ) (tail : Text)
    → map_lower tail ≡ tail
    → map_lower (print_digits fuel n tail) ≡ print_digits fuel n tail
unfolding print_digits
print_digits-lower zero n tail h = ground arith
print_digits-lower (suc fuel) n tail h = elim (Bool-cases (ltb n 10)) [
  | inl small ↦ rw small (ground arith)
  | inr big ↦ rw big (print_digits-lower fuel (n / 10) _ (ground arith))
]

pub decimal-ascii : (n : ℕ) → is_ascii (decimal n) ≡ true
unfolding decimal
decimal-ascii n = print_digits-ascii n n [] refl

pub decimal-lower : (n : ℕ) → map_lower (decimal n) ≡ decimal n
unfolding decimal
decimal-lower n = print_digits-lower n n [] refl

-- Digits only.
print_digits-All :
    (fuel n : ℕ) (tail : Text)
    → All (λ c. 48 ≤ c) tail
    → All (λ c. 48 ≤ c) (print_digits fuel n tail)
unfolding print_digits
print_digits-All zero n tail h = (omega arith, h)
print_digits-All (suc fuel) n tail h = elim (Bool-cases (ltb n 10)) [
  | inl small ↦ rw small (omega arith, h)
  | inr big ↦ rw big (print_digits-All fuel (n / 10) _ (omega arith, h))
]

pub decimal-All : (n : ℕ) → All (λ c. 48 ≤ c) (decimal n)
unfolding decimal
decimal-All n = print_digits-All n n [] tt
