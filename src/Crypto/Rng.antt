-- ===== src/Crypto/Rng.antt =====
-- crypto/rng.rs: random bytes with their fallback, and the entropy of a buffer.
pub mod Laws
pub mod Success
use mathlib.Core.List.{foldl}
use secure_file_shredder_and.Base.{
  ℕ, zero, suc, ◌+◌, ◌≡◌, Bool, true, ◌&&◌, Option, none, some, List, [], ◌∷◌, ◌++◌, map, Bytes,
  codes, length, take, replicate, ◌==◌, if◌then◌else◌, ltb,
}
use secure_file_shredder_and.Io.Error.{SanitizerError, crypto}
use secure_file_shredder_and.Io.System.{System, Float}
use secure_file_shredder_and.Io.Float.{F64, f64_0}
use secure_file_shredder_and.Io.Action.{Action, pure, raise, ask, ◌>>=◌}

-- `buf.iter().all(|b| *b == 0)`
all_zero : Bytes → Bool
all_zero [] = true
all_zero (b ∷ buf) = b == 0 && all_zero buf

-- The 32 bytes that seed the fallback.
seed : System → ℕ → Bytes
seed sys t = take 16 (sys.os.clock_bytes t) ++ take 8 (sys.os.stack_bytes t) ++ replicate 8 0

-- The fallback generator, on a buffer of that length.
fallback : System → ℕ → ℕ → Bytes
unfolding seed
fallback sys len t = sys.crates.std_rng (sys.crates.blake3 (seed sys t)) len

abbrev all_zero_output : SanitizerError
all_zero_output = crypto (codes "entropy source produced all-zero output")

-- The `match` on the answer of `OsRng`.
or_fallback : ℕ → Option Bytes → Action SanitizerError Bytes
or_fallback len (some bytes) = pure bytes
or_fallback len none = do
  bytes ← ask (λ sys t. fallback sys len t)
  if all_zero bytes then raise all_zero_output else pure bytes

-- What is left in the buffer.
unfoldable pub secure_random_bytes : Bytes → Action SanitizerError Bytes
unfolding all_zero fallback or_fallback
secure_random_bytes buf = do
  answer ← ask (λ sys t. sys.os.os_random t (length buf))
  or_fallback (length buf) answer

unfoldable pub secure_random_vec : ℕ → Action SanitizerError Bytes
secure_random_vec len = secure_random_bytes (replicate len 0)

-- `counts[i] += 1`
increment : List ℕ → ℕ → List ℕ
increment [] i = []
increment (c ∷ counts) zero = (c + 1) ∷ counts
increment (c ∷ counts) (suc i) = c ∷ increment counts i

tally : Bytes → List ℕ
unfolding increment
tally = foldl increment (replicate 256 0)

positive : List ℕ → List ℕ
positive [] = []
positive (c ∷ counts) = let rest = positive counts in if ltb 0 c then c ∷ rest else rest

term : Float → F64 → ℕ → F64
term f len c = let p = f.div (f.of_nat c) len in f.mul (f.neg p) (f.log2 p)

-- In bits per byte.
unfoldable pub shannon_entropy : Float → Bytes → F64
unfolding tally positive term
shannon_entropy f [] = f64_0
shannon_entropy f (b ∷ data') =
    let len = f.of_nat (length (b ∷ data')) in
    foldl f.add f64_0 (map (term f len) (positive (tally (b ∷ data'))))
