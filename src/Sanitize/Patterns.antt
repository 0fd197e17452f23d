-- ===== src/Sanitize/Patterns.antt =====
-- sanitize/patterns.rs: the overwrite patterns, what each writes, and their names.
pub mod Fill
pub mod Names
pub mod Success
use secure_file_shredder_and.Base.{
  ℕ, zero, suc, ◌+◌, ◌%◌, ◌^◌, max, Option, none, some, List, [], ◌∷◌, ◌++◌, Bytes, Text, codes,
  length, get_elem?, strip_prefix, to_lowercase, drop, replicate, starts_with, bytes_eq, decimal,
  parse_unsigned, Bool, ◌||◌, if◌then◌else◌, map, leb, ltb, ◌&&◌, true, false,
}
use secure_file_shredder_and.Io.Outcome.{Outcome, ok, err, panic}
use secure_file_shredder_and.Io.Error.{SanitizerError}
use secure_file_shredder_and.Io.Action.{Action, lift}
use secure_file_shredder_and.Crypto.Rng.{secure_random_bytes}

pub data OverwritePattern : Type 0 where
  single_random : OverwritePattern
  multi_random : ℕ → OverwritePattern
  dod_three_pass nist_clear nist_purge : OverwritePattern
  custom : Bytes → OverwritePattern
  zeros ones : OverwritePattern

unfoldable pub passes : OverwritePattern → ℕ
passes (multi_random n) = max n 1
passes dod_three_pass = 3
passes _ = 1

-- `buf.fill(value)`
abbrev pub fill : Bytes → ℕ → Bytes
fill [] value = []
fill (_ ∷ buf) value = value ∷ fill buf value

abbrev pub prepend : ℕ → Outcome SanitizerError Bytes → Outcome SanitizerError Bytes
prepend v (ok rest) = ok (v ∷ rest)
prepend v other = other

-- `for (i, b) in buf.iter_mut().enumerate() { *b = pattern[i % pattern.len()]; }`
unfoldable pub fill_custom : Bytes → ℕ → Bytes → Outcome SanitizerError Bytes
fill_custom pattern i [] = ok []
fill_custom pattern i (_ ∷ buf) =
    let rest = fill_custom pattern (i + 1) buf in
    elim (get_elem? pattern (i % length pattern)) [ none ↦ panic | some v ↦ prepend v rest ]

-- What the pass with that index, from 0, leaves in the buffer.
unfoldable pub fill_pass : OverwritePattern → Bytes → ℕ → Action SanitizerError Bytes
fill_pass single_random buf pass = secure_random_bytes buf
fill_pass (multi_random n) buf pass = secure_random_bytes buf
fill_pass dod_three_pass buf zero = lift (ok (fill buf 0x00))
fill_pass dod_three_pass buf (suc zero) = lift (ok (fill buf 0xff))
fill_pass dod_three_pass buf (suc (suc pass)) = secure_random_bytes buf
fill_pass nist_clear buf pass = lift (ok (fill buf 0x00))
fill_pass nist_purge buf pass = secure_random_bytes buf
fill_pass (custom []) buf pass = secure_random_bytes buf
fill_pass (custom (v ∷ pattern)) buf pass = lift (fill_custom (v ∷ pattern) 0 buf)
fill_pass zeros buf pass = lift (ok (fill buf 0x00))
fill_pass ones buf pass = lift (ok (fill buf 0xff))

unfoldable pub name : OverwritePattern → Text
name single_random = codes "single-random"
name (multi_random n) = codes "multi-random-" ++ decimal n
name dod_three_pass = codes "dod-5220.22-m-3pass"
name nist_clear = codes "nist-800-88-clear"
name nist_purge = codes "nist-800-88-purge"
name (custom _) = codes "custom-pattern"
name zeros = codes "zeros"
name ones = codes "ones"

pub invalid_count : Text → Text
invalid_count other = codes "invalid pass count in '" ++ (other ++ codes "'")

pub unknown_pattern : Text → Text
unknown_pattern other =
    codes "unknown overwrite pattern: '"
    ++ (other ++ codes "' (try: random, dod, nist-clear, nist-purge, zeros, ones, multi-random-N)")

multi_random_of : Text → Option ℕ → Outcome Text OverwritePattern
multi_random_of other (some n) = ok (multi_random n)
multi_random_of other none = err (invalid_count other)

-- The last arm of the `match`.
from_other : Text → Option Text → Outcome Text OverwritePattern
from_other other (some n) = multi_random_of other (parse_unsigned (2 ^ 32) n)
from_other other none = err (unknown_pattern other)

-- The `match` on the name in lower case.
unfoldable pub from_lower : Text → Outcome Text OverwritePattern
unfolding from_other multi_random_of
from_lower s =
    if bytes_eq s (codes "random") || bytes_eq s (codes "single-random")
    then ok single_random
    else if bytes_eq s (codes "dod")
        || (bytes_eq s (codes "dod3") || bytes_eq s (codes "dod-5220.22-m"))
    then ok dod_three_pass
    else if bytes_eq s (codes "nist-clear")
    then ok nist_clear
    else if bytes_eq s (codes "nist-purge")
    then ok nist_purge
    else if bytes_eq s (codes "zeros") || bytes_eq s (codes "zero")
    then ok zeros
    else if bytes_eq s (codes "ones") || bytes_eq s (codes "one")
    then ok ones
    else from_other s (strip_prefix s (codes "multi-random-"))

-- `FromStr`, with the tables of Unicode.
unfoldable pub from_str : (Text → Text) → Text → Outcome Text OverwritePattern
unfolding from_lower
from_str unicode s = from_lower (to_lowercase unicode s)
