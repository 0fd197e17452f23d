-- ===== src/Crypto/Aead.antt =====
-- crypto/aead.rs: the wrappers of AES-256-GCM and XChaCha20-Poly1305. The ciphers themselves are of
-- the crates `aes_gcm` and `chacha20poly1305`.
pub mod Laws
use secure_file_shredder_and.Base.{
  ℕ, not, Bytes, Text, codes, length, replicate, ◌++◌, ◌==◌, if◌then◌else◌,
}
use secure_file_shredder_and.Io.Outcome.{Outcome, ok, err, panic, out_of_fuel, ok_or}
use secure_file_shredder_and.Io.Error.{SanitizerError, crypto}
use secure_file_shredder_and.Io.System.{Crates}
use secure_file_shredder_and.Io.Action.{Action, pure, raise, lift, ask, ◌>>=◌}
use secure_file_shredder_and.Crypto.Rng.{secure_random_bytes}

abbrev pub aes_key_len : ℕ
aes_key_len = 32

abbrev pub aes_nonce_len : ℕ
aes_nonce_len = 12

abbrev pub wrong_key_len : SanitizerError
wrong_key_len = crypto (codes "AES-256-GCM requires a 32-byte key")

abbrev pub encrypted : Outcome Text Bytes → Outcome SanitizerError Bytes
encrypted (ok ct) = ok ct
encrypted (err e) = err (crypto (codes "AES-256-GCM encryption failed: " ++ e))
encrypted panic = panic
encrypted out_of_fuel = out_of_fuel

abbrev pub decryption_failed : SanitizerError
decryption_failed = crypto (codes "AES-256-GCM decryption/authentication failed")

-- The nonce and the ciphertext. The key's initialisation cannot fail behind the test of its length.
unfoldable pub aes256gcm_encrypt : Bytes → Bytes → Bytes → Action SanitizerError (Bytes × Bytes)
aes256gcm_encrypt key plaintext aad =
    if not (length key == aes_key_len) then raise wrong_key_len else do
      nonce ← secure_random_bytes (replicate aes_nonce_len 0)
      sealed ← ask (λ sys t. sys.crates.aes_encrypt key nonce plaintext aad)
      ct ← lift (encrypted sealed)
      pure (nonce, ct)

-- `Nonce::from_slice` panics on a nonce of another length.
unfoldable pub aes256gcm_decrypt :
    Crates → Bytes → Bytes → Bytes → Bytes → Outcome SanitizerError Bytes
aes256gcm_decrypt crates key nonce ciphertext aad =
    if not (length key == aes_key_len)
    then err wrong_key_len
    else if not (length nonce == aes_nonce_len)
    then panic
    else ok_or (crates.aes_decrypt key nonce ciphertext aad) decryption_failed

abbrev pub xchacha_key_len : ℕ
xchacha_key_len = 32

abbrev pub xchacha_nonce_len : ℕ
xchacha_nonce_len = 24

abbrev pub wrong_xchacha_key_len : SanitizerError
wrong_xchacha_key_len = crypto (codes "XChaCha20-Poly1305 requires a 32-byte key")

abbrev pub xchacha_encrypted : Outcome Text Bytes → Outcome SanitizerError Bytes
xchacha_encrypted (ok ct) = ok ct
xchacha_encrypted (err e) = err (crypto (codes "XChaCha20-Poly1305 encryption failed: " ++ e))
xchacha_encrypted panic = panic
xchacha_encrypted out_of_fuel = out_of_fuel

unfoldable pub xchacha20poly1305_encrypt :
    Bytes → Bytes → Bytes → Action SanitizerError (Bytes × Bytes)
xchacha20poly1305_encrypt key plaintext aad =
    if not (length key == xchacha_key_len) then raise wrong_xchacha_key_len else do
      nonce ← secure_random_bytes (replicate xchacha_nonce_len 0)
      sealed ← ask (λ sys t. sys.crates.xchacha_encrypt key nonce plaintext aad)
      ct ← lift (xchacha_encrypted sealed)
      pure (nonce, ct)

-- `XNonce::from_slice` panics on a nonce of another length.
unfoldable pub xchacha20poly1305_decrypt :
    Crates → Bytes → Bytes → Bytes → Bytes → Outcome SanitizerError Bytes
xchacha20poly1305_decrypt crates key nonce ciphertext aad =
    if not (length key == xchacha_key_len)
    then err wrong_xchacha_key_len
    else if not (length nonce == xchacha_nonce_len)
    then panic
    else ok_or (crates.xchacha_decrypt key nonce ciphertext aad)
        (crypto (codes "XChaCha20-Poly1305 decryption/authentication failed"))
