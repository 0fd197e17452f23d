-- ===== src/Vault/Container/Laws.antt =====
-- What `open` makes of a container's bytes.
use secure_file_shredder_and.Base.{
  ℕ, ◌+◌, ◌-◌, ◌≡◌, ◌≢◌, ◌≤◌, ◌<◌, ◌⊎◌, inl, inr, refl, sym, true, false, some, List, [], ◌∷◌, ◌++◌,
  append_assoc, Bytes, Text, codes, length, length-append, length-take, length-drop, take, drop,
  take-append_eq, take-length, bytes_eq, bytes_eq_iff, ltb, ◌==◌, drop-append, if◌then◌else◌, arith,
  Bool-cases,
}
use secure_file_shredder_and.Io.Outcome.{Outcome, ok, err, panic, out_of_fuel, ◌>>=◌}
use secure_file_shredder_and.Io.Path.{FilePath}
use secure_file_shredder_and.Io.Error.{SanitizerError}
use secure_file_shredder_and.Io.System.{Crates}
use secure_file_shredder_and.Io.Returns.{Returns, ok_or-Returns}
use secure_file_shredder_and.Crypto.Aead.{aes256gcm_decrypt}
use secure_file_shredder_and.Crypto.Aead.Laws.{IsCipher}
use secure_file_shredder_and.Crypto.Kdf.{derive_key}
use secure_file_shredder_and.Vault.Container.{
  EntryMeta, VaultHeader, Vault, HeaderJson, find_entry, insert_entry, vault_magic, container_bytes,
  slice, open_bytes, unlock, bad_magic, header_error, or_wrong_password,
}

-- A key finds what was put in under it, and other keys find what they found.
pub find_entry-insert_entry :
    (id : Text) (meta : EntryMeta) (entries : List (Text × EntryMeta)) (other : Text)
    → find_entry other (insert_entry id meta entries)
      ≡ (if bytes_eq id other then some meta else find_entry other entries)
unfolding find_entry insert_entry
find_entry-insert_entry id meta [] other = refl
find_entry-insert_entry id meta ((k, old) ∷ rest) other = ground (
  arith,
  bytes_eq_iff k id,
  bytes_eq_iff k other,
  bytes_eq_iff id other,
  find_entry-insert_entry id meta rest other,
)

-- The magic and the length that `open` tests, and no room for the nonce.
abbrev pub Truncated : Bytes → Type 0
Truncated raw = (take 8 raw ≡ vault_magic) × (28 ≤ length raw) × (length raw < 36)

module _ (crates : Crates) (json : HeaderJson) (path : FilePath) (passphrase raw : Bytes) where
  abbrev open_it : Outcome SanitizerError Vault
  open_it = open_bytes crates json path passphrase raw

  open_bytes-bad_magic : (length raw < 28) ⊎ (take 8 raw ≢ vault_magic) → open_it ≡ err bad_magic
  unfolding open_bytes
  open_bytes-bad_magic h = ground (arith, h, bytes_eq_iff (take 8 raw) vault_magic)

  open_bytes-Truncated : Truncated raw → open_it ≡ panic
  unfolding open_bytes slice
  open_bytes-Truncated (m, l, u) = ground (arith, m, l, u, bytes_eq_iff (take 8 raw) vault_magic)

  -- The parts of a file that is long enough.
  open_bytes-parts :
      take 8 raw ≡ vault_magic
      → 36 ≤ length raw
      → open_it
        ≡ unlock crates json path passphrase
            (take 16 (drop 8 raw))
            (take 12 (drop 24 raw))
            (take (length raw - 36) (drop 36 raw))
  unfolding open_bytes slice
  open_bytes-parts m l = ground (arith, m, l, bytes_eq_iff (take 8 raw) vault_magic)

or_wrong_password-Returns :
    (r : Outcome SanitizerError Bytes) → Returns r → Returns (or_wrong_password r)
or_wrong_password-Returns (ok a) h = tt
or_wrong_password-Returns (err e) h = tt
or_wrong_password-Returns panic h = h
or_wrong_password-Returns out_of_fuel h = h

pub header_error-Returns {ℓ} :
    {A : Type ℓ} (r : Outcome Text A) → Returns r → Returns (header_error r)
header_error-Returns (ok a) h = tt
header_error-Returns (err e) h = tt
header_error-Returns panic h = h
header_error-Returns out_of_fuel h = h

>>=-Returns :
    {A B : Type 0} (r : Outcome SanitizerError A) (k : A → Outcome SanitizerError B)
    → Returns r
    → ((a : A) → r ≡ ok a → Returns (k a))
    → Returns (r >>= k)
>>=-Returns (ok a) k h f = f a refl
>>=-Returns (err e) k h f = tt
>>=-Returns panic k h f = h
>>=-Returns out_of_fuel k h f = h

-- What the program relies on of the ciphers, the key derivation and `serde_json`: they end in a
-- value or an error, what is sealed or printed is read back, and keys are of 32 bytes.
pub record SealsHeaders (crates : Crates) (json : HeaderJson) : Type 0 where
  pub cipher : IsCipher crates.aes_encrypt crates.aes_decrypt
  pub derive_returns : (passphrase salt : Bytes) → Returns (derive_key crates passphrase salt)
  pub length-derive_key :
      (passphrase salt key : Bytes) → derive_key crates passphrase salt ≡ ok key → length key ≡ 32
  pub print_returns : (h : VaultHeader) → Returns (json.print_header h)
  pub parse_returns : (b : Bytes) → Returns (json.parse_header b)
  pub reads_back :
      (h : VaultHeader) (b : Bytes)
      → json.print_header h ≡ ok b
      → (h' : VaultHeader) × (json.parse_header b ≡ ok h')
        × ((id : Text) → find_entry id h'.entries ≡ find_entry id h.entries)

pub decrypt-Returns :
    (crates : Crates) (key nonce ct ad : Bytes)
    → length nonce ≡ 12
    → Returns (aes256gcm_decrypt crates key nonce ct ad)
unfolding aes256gcm_decrypt
decrypt-Returns crates key nonce ct ad n = elim (Bool-cases (length key == 32)) [
  | inl e ↦ rw (e, n) (ok_or-Returns (crates.aes_decrypt key nonce ct ad) _)
  | inr e ↦ rw e tt
]

module _ {crates : Crates} {json : HeaderJson} (laws : SealsHeaders crates json) (path : FilePath)
    (passphrase : Bytes) where
  unlock-Returns :
      (salt nonce ct : Bytes)
      → length nonce ≡ 12
      → Returns (unlock crates json path passphrase salt nonce ct)
  unfolding unlock
  unlock-Returns salt nonce ct n = >>=-Returns _ _ (laws.derive_returns passphrase salt) λ key _.
      >>=-Returns _ _
        (or_wrong_password-Returns _ (decrypt-Returns crates key nonce ct vault_magic n))
        λ plaintext _.
          >>=-Returns _ _ (header_error-Returns _ (laws.parse_returns plaintext)) λ header _. tt

  -- With the ciphers and the printer as said, `open` panics on the bytes that pass its test but end
  -- inside the nonce, and on no others.
  pub open_bytes-Returns :
      (raw : Bytes)
      → (Truncated raw → open_bytes crates json path passphrase raw ≡ panic)
        × (¬ Truncated raw → Returns (open_bytes crates json path passphrase raw))
  open_bytes-Returns raw = (open_bytes-Truncated crates json path passphrase raw, returns)
    where
      shape :
          ¬ Truncated raw
          → (bytes_eq (take 8 raw) vault_magic ≡ true) ⊎ (bytes_eq (take 8 raw) vault_magic ≡ false)
          → (ltb (length raw) 36 ≡ true) ⊎ (ltb (length raw) 36 ≡ false)
          → (length raw < 28)
            ⊎ (take 8 raw ≢ vault_magic)
            ⊎ ((take 8 raw ≡ vault_magic) × (36 ≤ length raw))
      shape h m l = ground (arith, h, m, l, bytes_eq_iff (take 8 raw) vault_magic)

      returns : ¬ Truncated raw → Returns (open_bytes crates json path passphrase raw)
      returns h = elim (shape h (Bool-cases _) (Bool-cases _)) [
        | inl short ↦ rw (open_bytes-bad_magic crates json path passphrase raw (inl short)) tt
        | inr (inl other) ↦ rw (open_bytes-bad_magic crates json path passphrase raw (inr other)) tt
        | inr (inr (m, l)) ↦
            let n : length (take 12 (drop 24 raw)) ≡ 12 =
              omega (arith, l, length-take 12 (drop 24 raw), length-drop 24 raw) in
            rw (open_bytes-parts crates json path passphrase raw m l) (unlock-Returns _ _ _ n)
      ]

pub drop-append_eq {ℓ} :
    {A : Type ℓ} (xs ys : List A) {n : ℕ} → n ≡ length xs → drop n (xs ++ ys) ≡ ys
drop-append_eq xs ys e = rw e (drop-append xs ys)

-- The parts of what `persist` writes.
module _ (salt nonce ct : Bytes) (s : length salt ≡ 16) (n : length nonce ≡ 12) where
  abbrev raw : Bytes
  raw = container_bytes salt nonce ct

  salt_part : take 16 (drop 8 raw) ≡ salt
  unfolding container_bytes codes
  salt_part = take-append_eq salt (nonce ++ ct) (sym s)

  nonce_part : take 12 (drop 24 raw) ≡ nonce
  unfolding container_bytes codes
  nonce_part = rw (drop-append_eq salt (nonce ++ ct) (sym s)) (take-append_eq nonce ct (sym n))

  length-raw : length raw ≡ 36 + length ct
  unfolding container_bytes codes
  length-raw = omega (arith, s, n, length-append salt (nonce ++ ct), length-append nonce ct)

  rest_part : take (length raw - 36) (drop 36 raw) ≡ ct
  unfolding container_bytes codes
  rest_part =
      let two : 28 ≡ length (salt ++ nonce) = omega (arith, s, n, length-append salt nonce) in
      let rest : length raw - 36 ≡ length ct = omega (arith, length-raw) in
      let dropped : drop 28 (salt ++ (nonce ++ ct)) ≡ ct =
        rw (← append_assoc salt nonce ct) (drop-append_eq (salt ++ nonce) ct two) in
      rw (rest, dropped) (take-length ct)

  pub open_bytes-container_bytes :
      (crates : Crates) (json : HeaderJson) (path : FilePath) (passphrase : Bytes)
      → open_bytes crates json path passphrase raw
        ≡ unlock crates json path passphrase salt nonce ct
  open_bytes-container_bytes crates json path passphrase =
      rw
        (
          open_bytes-parts crates json path passphrase raw magic (omega (arith, length-raw)),
          salt_part,
          nonce_part,
          rest_part,
        )
        refl
    where
      magic : take 8 raw ≡ vault_magic
      magic = unfold container_bytes codes in refl
