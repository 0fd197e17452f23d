-- ===== src/Io/System.antt =====
-- What the program does not decide: the operating system's answers, the third-party crates, and
-- the arithmetic of `f64`. Each answer depends on the moment (`World.now`) at which it is asked.
use secure_file_shredder_and.Base.{ℕ, ◌⊎◌, Bool, Option, List, Bytes, Text}
use secure_file_shredder_and.Io.Outcome.{Outcome}
use secure_file_shredder_and.Io.Error.{IoError}
use secure_file_shredder_and.Io.Path.{FilePath}

-- `std::fs::FileType`
pub data FileType : Type 0 where
  regular_file directory other_type : FileType

pub record Os : Type 0 where
  -- the error of the system call that is made now, if it fails
  pub fault : ℕ → Option IoError
  -- of a write that fails now, how many bytes it has put down before
  pub written_before_fault : ℕ → ℕ
  -- what a load of the cancellation flag returns now
  pub cancel_requested : ℕ → Bool
  -- `OsRng.try_fill_bytes` on a buffer of that length
  pub os_random : ℕ → ℕ → Option Bytes
  -- the bytes that seed the fallback: the clock's nanoseconds and an address, little-endian
  pub clock_bytes : ℕ → Bytes
  pub stack_bytes : ℕ → Bytes
  -- `fs::canonicalize`, if it succeeds
  pub canonicalize : ℕ → FilePath → Option FilePath
  -- what `fs::read_dir` yields now: the names, or errors, in the system's order
  pub read_dir : ℕ → FilePath → List (IoError ⊎ Text)
  -- what `WalkDir::new(..).into_iter()` yields now, `none` for an error
  pub walk : ℕ → FilePath → List (Option (FilePath × FileType))
  -- `num_cpus::get`, and the error of building a pool of so many threads
  pub cpus : ℕ → ℕ
  pub pool_error : ℕ → ℕ → Option Text
  -- the order in which the threads of a pool come to an end with the elements of a list
  pub schedule : ℕ → List FilePath → List FilePath
  -- `Command::output` of a program with arguments: whether it succeeded, and what it wrote, by
  -- `String::from_utf8_lossy`; `none` if it cannot be run
  pub run : ℕ → Text → List Text → Option (Bool × Text)
  -- `Utc::now`
  pub utc : ℕ → ℕ
  -- milliseconds of `Instant`
  pub millis : ℕ → ℕ

pub record Crates : Type 0 where
  -- `blake3::hash`
  pub blake3 : Bytes → Bytes
  -- `StdRng::from_seed` and `fill_bytes` of a length
  pub std_rng : Bytes → ℕ → Bytes
  pub hex_encode : Bytes → Text
  pub hex_decode : Text → Option Bytes
  -- HMAC-SHA-256 of a key and a message
  pub hmac_sha256 : Bytes → Bytes → Bytes
  pub sha256 : Bytes → Bytes
  pub sha512 : Bytes → Bytes
  -- AES-256-GCM under a key of 32 bytes and a nonce of 12: message and associated data
  pub aes_encrypt : Bytes → Bytes → Bytes → Bytes → Outcome Text Bytes
  pub aes_decrypt : Bytes → Bytes → Bytes → Bytes → Option Bytes
  -- XChaCha20-Poly1305, likewise, with a nonce of 24
  pub xchacha_encrypt : Bytes → Bytes → Bytes → Bytes → Outcome Text Bytes
  pub xchacha_decrypt : Bytes → Bytes → Bytes → Bytes → Option Bytes
  -- `argon2::Params::new`: the error, if the parameters are invalid
  pub argon2_params : ℕ → ℕ → ℕ → Option Text
  -- Argon2id with such parameters, of a passphrase and a salt, into 32 bytes
  pub argon2_hash : ℕ → ℕ → ℕ → Bytes → Bytes → Outcome Text Bytes
  -- `DateTime::<Utc>::to_rfc3339`
  pub rfc3339 : ℕ → Text

-- What `std` knows of Unicode, for texts that are not all ASCII.
pub record Unicode : Type 0 where
  pub lowercase : Text → Text
  pub is_blank : Text → Bool
  pub split_whitespace : Text → List Text
  pub trim : Text → Text

-- `f64`, as its bit patterns.
pub record Float : Type 0 where
  pub of_nat : ℕ → ℕ
  pub add : ℕ → ℕ → ℕ
  pub mul : ℕ → ℕ → ℕ
  pub div : ℕ → ℕ → ℕ
  pub neg : ℕ → ℕ
  pub log2 : ℕ → ℕ
  -- `{:.2}` and `{:.3}`
  pub fixed : ℕ → ℕ → Text

pub record System : Type 0 where
  pub os : Os
  pub crates : Crates
  pub float : Float
  pub unicode : Unicode
