-- ===== src/Vault/Persist.antt =====
-- vault/mod.rs: `open` behind `persist`.
use secure_file_shredder_and.Base.{◌≡◌, refl, ap, ◌∙◌, some, List, Bytes, Text, length}
use secure_file_shredder_and.Io.Outcome.{Outcome, ok, err, panic, out_of_fuel}
use secure_file_shredder_and.Io.Error.{SanitizerError, io, crypto, serde}
use secure_file_shredder_and.Io.System.{System}
use secure_file_shredder_and.Io.Action.{file, Disk, Event, ◌>>=◌}
use secure_file_shredder_and.Io.Returns.{Triple-lift}
use secure_file_shredder_and.Io.Triple.{
  Assertion, Triple, Triple-ask, Triple-bind, Triple-map_err, Triple-given, Triple-weaken,
}
use secure_file_shredder_and.Io.Files.Laws.{read-Triple, same_content}
use secure_file_shredder_and.Io.Files.Whole.{SameBut, write-Triple}
use secure_file_shredder_and.Crypto.Rng.Laws.{FillsBuffers}
use secure_file_shredder_and.Crypto.Aead.{aes256gcm_encrypt, aes256gcm_decrypt}
use secure_file_shredder_and.Crypto.Aead.Laws.{IsCrypto, aes256gcm_encrypt-Triple}
use secure_file_shredder_and.Crypto.Kdf.{derive_key}
use secure_file_shredder_and.Vault.Container.{
  Vault, HeaderJson, find_entry, vault_magic, container_bytes, open_bytes, unlock, header_error,
}
use secure_file_shredder_and.Vault.Container.Laws.{
  SealsHeaders, header_error-Returns, open_bytes-container_bytes,
}
use secure_file_shredder_and.Vault.{persist, open_vault}

-- The errors of the system, of the ciphers and of the printer: not those of a wrong password or of a
-- damaged vault.
abbrev pub IsOutside : SanitizerError → Type 0
IsOutside (io p e) = Unit
IsOutside (crypto text) = Unit
IsOutside (serde text) = Unit
IsOutside _ = ⊥

IsCrypto-IsOutside : (e : SanitizerError) → IsCrypto e → IsOutside e
IsCrypto-IsOutside e (text, same) = rw same tt

header_error-ok {ℓ} : {A : Type ℓ} (r : Outcome Text A) (a : A) → header_error r ≡ ok a → r ≡ ok a
header_error-ok (ok b) a e = cc
header_error-ok (err x) a e = cc
header_error-ok panic a e = cc
header_error-ok out_of_fuel a e = cc

header_error-err {ℓ} :
    {A : Type ℓ} (r : Outcome Text A) (x : SanitizerError) → header_error r ≡ err x → IsOutside x
header_error-err (ok b) x e = absurd (cc e)
header_error-err (err y) x e = let same : serde y ≡ x = cc in rw (← same) tt
header_error-err panic x e = absurd (cc e)
header_error-err out_of_fuel x e = absurd (cc e)

-- What `persist` writes for a vault.
pub record IsContainer (sys : System) (json : HeaderJson) (v : Vault) (b : Bytes) : Type 0 where
  pub nonce : Bytes
  pub ciphertext : Bytes
  pub printed : Bytes
  pub bytes : b ≡ container_bytes v.salt nonce ciphertext
  pub length-nonce : length nonce ≡ 12
  pub prints : json.print_header v.header ≡ ok printed
  pub seals : sys.crates.aes_encrypt v.key nonce printed vault_magic ≡ ok ciphertext

-- The vault that was put down, up to the order of its table.
pub record Reopened (v v' : Vault) : Type 0 where
  pub path : v'.path ≡ v.path
  pub key : v'.key ≡ v.key
  pub salt : v'.salt ≡ v.salt
  pub entries : (id : Text) → find_entry id v'.header.entries ≡ find_entry id v.header.entries

-- A container of the vault is at its path.
abbrev pub Written : System → HeaderJson → Vault → Assertion
Written sys json v d t = (b : Bytes) × (d v.path ≡ some (file b)) × IsContainer sys json v b

module _ {sys : System} {json : HeaderJson} (laws : SealsHeaders sys.crates json)
    (fills : FillsBuffers sys) where
  -- Encryption leaves the disk alone; its result is the cipher's.
  pub sealed-Triple :
      (P : Assertion) (key m ad : Bytes)
      → length key ≡ 32
      → Triple sys P
          (aes256gcm_encrypt key m ad)
          (λ out d t.
            P d t × (length out.0 ≡ 12) × (sys.crates.aes_encrypt key out.0 m ad ≡ ok out.1))
          (λ e d t. P d t × IsOutside e)
  sealed-Triple P key m ad k =
      Triple-weaken (aes256gcm_encrypt-Triple fills P key m ad laws.cipher k) (λ d t h. h)
        (λ out d t h. h) (λ e d t h. (h.0, IsCrypto-IsOutside e h.1))

  -- The container is written whole, or an error leaves the other paths as they were.
  pub persist-Triple :
      {P : Assertion} {Q : Unit {0} → Assertion} {R : SanitizerError → Assertion} (v : Vault)
      → length v.key ≡ 32
      → ((b : Bytes) (d d' : Disk) (t t' : List Event)
          → P d t
          → IsContainer sys json v b
          → d' v.path ≡ some (file b)
          → SameBut v.path d d'
          → Q tt d' t')
      → ((e : SanitizerError) (d d' : Disk) (t t' : List Event)
          → P d t
          → IsOutside e
          → SameBut v.path d d'
          → R e d' t')
      → Triple sys P (persist json v) Q R
  unfolding persist
  persist-Triple {P} {Q} {R} v k run fail =
      Triple-bind {S = λ b d t. P d t × (json.print_header v.header ≡ ok b)}
        (Triple-lift (header_error (json.print_header v.header))
          (header_error-Returns _ (laws.print_returns v.header))
          (λ b d t e h. (h, header_error-ok _ b e))
          (λ x d t e h. fail x d d t t h (header_error-err _ x e) (λ q n. refl)))
        λ printed. Triple-given λ d t (_, prints).
          Triple-bind
            (Triple-weaken (sealed-Triple P v.key printed vault_magic k) (λ d t h. h.0)
              (λ out d t h. h) (λ e d t h. fail e d d t t h.0 h.1 (λ q n. refl)))
            λ out. Triple-map_err _ (
              write-Triple v.path (container_bytes v.salt out.0 out.1)
                (λ d d' t t' h here same.
                  let shape : IsContainer sys json v (container_bytes v.salt out.0 out.1) = record {
                    nonce = out.0;
                    ciphertext = out.1;
                    printed = printed;
                    bytes = refl;
                    length-nonce = h.1;
                    prints = prints;
                    seals = h.2;
                  } in
                  run _ d d' t t' h.0 shape here same)
                (λ e d d' t t' h same. fail _ d d' t t' h.0 tt same))

  open_bytes-IsContainer :
      (v : Vault) (passphrase b : Bytes)
      → derive_key sys.crates passphrase v.salt ≡ ok v.key
      → length v.salt ≡ 16
      → length v.key ≡ 32
      → IsContainer sys json v b
      → (v' : Vault) × (open_bytes sys.crates json v.path passphrase b ≡ ok v') × Reopened v v'
  unfolding unlock aes256gcm_decrypt
  open_bytes-IsContainer v passphrase b derived s k shape =
      let (h, parsed, found) = laws.reads_back v.header shape.printed shape.prints in
      let opened =
        laws.cipher.opens v.key shape.nonce shape.printed vault_magic shape.ciphertext
          shape.seals in
      (
        record { path = v.path; key = v.key; salt = v.salt; header = h },
        ap (open_bytes sys.crates json v.path passphrase) shape.bytes
            ∙ open_bytes-container_bytes v.salt shape.nonce shape.ciphertext s shape.length-nonce
                sys.crates json v.path passphrase
            ∙ rw (derived, k, shape.length-nonce, opened, parsed) refl,
        record { path = refl; key = refl; salt = refl; entries = found },
      )

  pub open_written :
      (v : Vault) (passphrase : Bytes)
      → derive_key sys.crates passphrase v.salt ≡ ok v.key
      → length v.salt ≡ 16
      → length v.key ≡ 32
      → Triple sys
          (Written sys json v)
          (open_vault json v.path passphrase)
          (λ v' d t. Reopened v v')
          (λ e d t. IsOutside e)
  unfolding open_vault
  open_written v passphrase derived s k =
      Triple-bind {S = λ raw d t. IsContainer sys json v raw}
        (Triple-map_err _ (
          Triple-weaken (read-Triple v.path (λ e d t h. tt)) (λ d t h. h)
            (λ raw d t (h, at_path). rw (same_content at_path h.1) h.2) (λ e d t h. tt)))
        λ raw. Triple-given λ d t shape.
          let (v', opened, same) = open_bytes-IsContainer v passphrase raw derived s k shape in
          Triple-bind {S = λ r d t. r ≡ ok v'} (Triple-ask _ (λ n d t h. opened)) λ r.
            Triple-given λ d t e. rw e (
              Triple-lift (ok v') tt (λ a d t q h. let back : a ≡ v' = cc in rw back same)
                (λ x d t q h. absurd (cc q)))

  -- With random buffers of the length that is asked for, ciphers and a printer that read back what
  -- they seal and print, and a salt of 16 bytes: after `persist`, `open` with the passphrase of the
  -- key returns the vault, its table up to order. An error is of the system, the ciphers or the
  -- printer; it is never a wrong password or a bad container, and there is no panic.
  pub persist-open_vault :
      {P : Assertion} (v : Vault) (passphrase : Bytes)
      → derive_key sys.crates passphrase v.salt ≡ ok v.key
      → length v.salt ≡ 16
      → Triple sys P
          (persist json v >>= λ _. open_vault json v.path passphrase)
          (λ v' d t. Reopened v v')
          (λ e d t. IsOutside e)
  persist-open_vault {P} v passphrase derived s =
      let k = laws.length-derive_key passphrase v.salt v.key derived in
      Triple-bind {S = λ _. Written sys json v}
        (persist-Triple v k (λ b d d' t t' h shape here same. (b, here, shape))
          (λ e d d' t t' h out same. out))
        λ _. open_written v passphrase derived s k
