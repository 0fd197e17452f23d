-- ===== src/Crypto/Rng/Success.antt =====
-- `secure_random_bytes` where the system's source answers.
use secure_file_shredder_and.Base.{ℕ, ◌≡◌, Option, none, some, Bytes, length, replicate}
use secure_file_shredder_and.Io.System.{System}
use secure_file_shredder_and.Io.Action.{Disk}
use secure_file_shredder_and.Io.Quiet.{
  IsQuiet, NoError, NoError-pure, NoError-ask, NoError-given, NoError-pre, NoError-bind,
}
use secure_file_shredder_and.Crypto.Rng.{secure_random_bytes, or_fallback, secure_random_vec}

module _ {sys : System} (quiet : IsQuiet sys) (I : Disk → Type 0) where
  or_fallback-NoError :
      (n : ℕ) (o : Option Bytes) (bytes : Bytes)
      → o ≡ some bytes
      → NoError sys (λ d t. I d) (or_fallback n o) (λ out d t. I d)
  unfolding or_fallback
  or_fallback-NoError n (some x) bytes e = NoError-pure x (λ d t i. i)
  or_fallback-NoError n none bytes e = absurd (cc e)

  pub secure_random_bytes-NoError :
      (buf : Bytes) → NoError sys (λ d t. I d) (secure_random_bytes buf) (λ out d t. I d)
  unfolding secure_random_bytes
  secure_random_bytes-NoError buf =
      NoError-bind {S = λ o d t. I d × ((bytes : Bytes) × (o ≡ some bytes))}
        (NoError-ask _ (λ n d t i. (i, quiet.random_ready n (length buf))))
        λ o. NoError-given λ d t (_, (bytes, e)).
          NoError-pre (or_fallback-NoError (length buf) o bytes e) (λ d t h. h.0)

  pub secure_random_vec-NoError :
      (n : ℕ) → NoError sys (λ d t. I d) (secure_random_vec n) (λ out d t. I d)
  unfolding secure_random_vec
  secure_random_vec-NoError n = secure_random_bytes-NoError (replicate n 0)
