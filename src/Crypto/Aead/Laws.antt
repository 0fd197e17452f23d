-- ===== src/Crypto/Aead/Laws.antt =====
-- Decryption behind encryption.
use secure_file_shredder_and.Base.{
  ℕ, ◌≡◌, refl, sym, ◌∙◌, Option, some, ◌++◌, Bytes, Text, codes, length, replicate,
  length-replicate,
}
use secure_file_shredder_and.Io.Outcome.{Outcome, ok, err, panic, out_of_fuel}
use secure_file_shredder_and.Io.Error.{SanitizerError, crypto}
use secure_file_shredder_and.Io.System.{System}
use secure_file_shredder_and.Io.Action.{pure, lift, ask, ◌>>=◌}
use secure_file_shredder_and.Io.Returns.{Returns, Triple-lift}
use secure_file_shredder_and.Io.Triple.{
  Assertion, Triple, Triple-ask, Triple-bind, Triple-given, Triple-pure, Triple-weaken,
}
use secure_file_shredder_and.Crypto.Rng.{secure_random_bytes}
use secure_file_shredder_and.Crypto.Rng.Laws.{FillsBuffers, secure_random_bytes-errors}
use secure_file_shredder_and.Crypto.Aead.{
  encrypted, aes256gcm_encrypt, xchacha_encrypted, xchacha20poly1305_encrypt,
  xchacha20poly1305_decrypt,
}

abbrev pub Sealer : Type 0
Sealer = Bytes → Bytes → Bytes → Bytes → Outcome Text Bytes

-- A cipher seals or gives an error, and opens what it has sealed under the same key, nonce and
-- associated data.
pub record IsCipher (seal : Sealer) (unseal : Bytes → Bytes → Bytes → Bytes → Option Bytes)
    : Type 0 where
  pub returns : (k n m ad : Bytes) → Returns (seal k n m ad)
  pub opens : (k n m ad c : Bytes) → seal k n m ad ≡ ok c → unseal k n c ad ≡ some m

abbrev pub IsCrypto : SanitizerError → Type 0
IsCrypto e = (text : Text) × (e ≡ crypto text)

-- What `encrypted` and its like do: an error gets a text before it.
record Wraps (wrap : Outcome Text Bytes → Outcome SanitizerError Bytes) : Type 0 where
  returns : (r : Outcome Text Bytes) → Returns r → Returns (wrap r)
  is_ok : (r : Outcome Text Bytes) (c : Bytes) → wrap r ≡ ok c → r ≡ ok c
  is_err : (r : Outcome Text Bytes) (x : SanitizerError) → wrap r ≡ err x → IsCrypto x

wraps :
    (text : Text) (wrap : Outcome Text Bytes → Outcome SanitizerError Bytes)
    → ((c : Bytes) → wrap (ok c) ≡ ok c)
    → ((e : Text) → wrap (err e) ≡ err (crypto (text ++ e)))
    → wrap panic ≡ panic
    → wrap out_of_fuel ≡ out_of_fuel
    → Wraps wrap
wraps text wrap on_ok on_err on_panic on_fuel = record {
  returns = returned;
  is_ok = was_ok;
  is_err = was_err;
}
  where
    returned : (r : Outcome Text Bytes) → Returns r → Returns (wrap r)
    returned (ok c) h = rw (on_ok c) tt
    returned (err e) h = rw (on_err e) tt
    returned panic h = elim h [ ]
    returned out_of_fuel h = elim h [ ]

    was_ok : (r : Outcome Text Bytes) (c : Bytes) → wrap r ≡ ok c → r ≡ ok c
    was_ok (ok b) c e =
        let q : Path (Outcome SanitizerError Bytes) (ok b) (ok c) = sym (on_ok b) ∙ e in cc
    was_ok (err x) c e = absurd (cc (sym (on_err x) ∙ e))
    was_ok panic c e = absurd (cc (sym on_panic ∙ e))
    was_ok out_of_fuel c e = absurd (cc (sym on_fuel ∙ e))

    was_err : (r : Outcome Text Bytes) (x : SanitizerError) → wrap r ≡ err x → IsCrypto x
    was_err (ok b) x e = absurd (cc (sym (on_ok b) ∙ e))
    was_err (err y) x e =
        let q : Path (Outcome SanitizerError Bytes) (err (crypto (text ++ y))) (err x) =
          sym (on_err y) ∙ e in
        let same : crypto (text ++ y) ≡ x = cc in (text ++ y, sym same)
    was_err panic x e = absurd (cc (sym on_panic ∙ e))
    was_err out_of_fuel x e = absurd (cc (sym on_fuel ∙ e))

module _ {sys : System} (fills : FillsBuffers sys) where
  -- A fresh nonce, and what the cipher makes of the message with it.
  seal-Triple :
      (P : Assertion) (nonce_len : ℕ) (seal : System → Bytes → Outcome Text Bytes)
      (wrap : Outcome Text Bytes → Outcome SanitizerError Bytes)
      → Wraps wrap
      → ((nonce : Bytes) → Returns (seal sys nonce))
      → Triple {A = Bytes × Bytes} sys P
          (secure_random_bytes (replicate nonce_len 0) >>= λ nonce.
            ask (λ sys t. seal sys nonce) >>= λ sealed.
            lift (wrap sealed) >>= λ ct. pure (nonce, ct))
          (λ out d t. P d t × (length out.0 ≡ nonce_len) × (seal sys out.0 ≡ ok out.1))
          (λ e d t. P d t × IsCrypto e)
  seal-Triple P nonce_len seal wrap w returns =
      Triple-bind (secure_random_bytes-errors fills P (replicate nonce_len 0)) λ nonce.
        Triple-bind
          {S = λ sealed d t. P d t × (length nonce ≡ nonce_len) × (seal sys nonce ≡ sealed)}
          (Triple-ask _ (λ n d t h. (h.0, h.1 ∙ length-replicate nonce_len 0, refl)))
          λ sealed. Triple-given λ d t known.
            Triple-bind
              {S = λ ct d t. P d t × (length nonce ≡ nonce_len) × (seal sys nonce ≡ ok ct)}
              (Triple-lift (wrap sealed) (w.returns sealed (rw known.2 at (returns nonce)))
                (λ ct d t e g. (g.0, g.1, g.2 ∙ w.is_ok sealed ct e))
                (λ x d t e g. (g.0, w.is_err sealed x e)))
              λ ct. Triple-pure _ (λ d t g. g)

  -- Encryption leaves the disk alone; its result is the cipher's, with a nonce of 12 bytes.
  pub aes256gcm_encrypt-Triple :
      (P : Assertion) (key m ad : Bytes)
      → IsCipher sys.crates.aes_encrypt sys.crates.aes_decrypt
      → length key ≡ 32
      → Triple sys P
          (aes256gcm_encrypt key m ad)
          (λ out d t.
            P d t × (length out.0 ≡ 12) × (sys.crates.aes_encrypt key out.0 m ad ≡ ok out.1))
          (λ e d t. P d t × IsCrypto e)
  unfolding aes256gcm_encrypt
  aes256gcm_encrypt-Triple P key m ad cipher k = rw k (
      seal-Triple P 12 (λ sys nonce. sys.crates.aes_encrypt key nonce m ad) encrypted
        (wraps (codes "AES-256-GCM encryption failed: ") encrypted (λ c. refl) (λ e. refl) refl
          refl)
        (λ nonce. cipher.returns key nonce m ad))

  xchacha20poly1305_encrypt-Triple :
      (P : Assertion) (key m ad : Bytes)
      → IsCipher sys.crates.xchacha_encrypt sys.crates.xchacha_decrypt
      → length key ≡ 32
      → Triple sys P
          (xchacha20poly1305_encrypt key m ad)
          (λ out d t.
            P d t × (length out.0 ≡ 24) × (sys.crates.xchacha_encrypt key out.0 m ad ≡ ok out.1))
          (λ e d t. P d t × IsCrypto e)
  unfolding xchacha20poly1305_encrypt
  xchacha20poly1305_encrypt-Triple P key m ad cipher k = rw k (
      seal-Triple P 24 (λ sys nonce. sys.crates.xchacha_encrypt key nonce m ad) xchacha_encrypted
        (wraps (codes "XChaCha20-Poly1305 encryption failed: ") xchacha_encrypted (λ c. refl)
          (λ e. refl) refl refl)
        (λ nonce. cipher.returns key nonce m ad))

  -- With random buffers of the length that is asked for, a cipher that opens what it seals, and a
  -- key of 32 bytes: what `xchacha20poly1305_encrypt` returns decrypts to the message. An error is of
  -- the ciphers' kind; the nonce has the length on which decryption does not panic.
  pub xchacha20poly1305_round_trip :
      (P : Assertion) (key m ad : Bytes)
      → IsCipher sys.crates.xchacha_encrypt sys.crates.xchacha_decrypt
      → length key ≡ 32
      → Triple sys P
          (xchacha20poly1305_encrypt key m ad)
          (λ out d t. P d t × (xchacha20poly1305_decrypt sys.crates key out.0 out.1 ad ≡ ok m))
          (λ e d t. P d t × IsCrypto e)
  unfolding xchacha20poly1305_decrypt
  xchacha20poly1305_round_trip P key m ad cipher k =
      Triple-weaken (xchacha20poly1305_encrypt-Triple P key m ad cipher k) (λ d t h. h)
        (λ out d t h. (h.0, rw (k, h.1, cipher.opens key out.0 m ad out.1 h.2) refl)) (λ e d t h. h)
