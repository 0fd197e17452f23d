-- ===== src/Crypto/Kdf.antt =====
-- crypto/kdf.rs: keys from passphrases. Argon2id itself is of the crate `argon2`.
use secure_file_shredder_and.Base.{ℕ, ◌*◌, ◌++◌, Option, none, some, Bytes, Text, codes, replicate}
use secure_file_shredder_and.Io.Outcome.{Outcome, ok, err, panic, out_of_fuel}
use secure_file_shredder_and.Io.Error.{SanitizerError, crypto}
use secure_file_shredder_and.Io.System.{Crates}
use secure_file_shredder_and.Io.Action.{Action}
use secure_file_shredder_and.Crypto.Rng.{secure_random_bytes}

abbrev pub hashed : Outcome Text Bytes → Outcome SanitizerError Bytes
hashed (ok key) = ok key
hashed (err e) = err (crypto (codes "Argon2id derivation failed: " ++ e))
hashed panic = panic
hashed out_of_fuel = out_of_fuel

abbrev pub with_params : Option Text → Outcome Text Bytes → Outcome SanitizerError Bytes
with_params (some e) hash = err (crypto (codes "invalid Argon2id parameters: " ++ e))
with_params none hash = hashed hash

unfoldable pub derive_key_with_params :
    Crates → Bytes → Bytes → ℕ → ℕ → ℕ → Outcome SanitizerError Bytes
derive_key_with_params crates passphrase salt mem_kib iterations parallelism =
    with_params (crates.argon2_params mem_kib iterations parallelism)
      (crates.argon2_hash mem_kib iterations parallelism passphrase salt)

-- 256 MiB, 3 iterations, 4 lanes.
unfoldable pub derive_key : Crates → Bytes → Bytes → Outcome SanitizerError Bytes
unfolding derive_key_with_params
derive_key crates passphrase salt = derive_key_with_params crates passphrase salt (256 * 1024) 3 4

unfoldable pub generate_salt : Action SanitizerError Bytes
generate_salt = secure_random_bytes (replicate 16 0)
