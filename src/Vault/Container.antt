-- ===== src/Vault/Container.antt =====
-- vault/mod.rs: the bytes of the container file, and the table of the entries.
pub mod Laws
use secure_file_shredder_and.Base.{
  ℕ, ◌+◌, ◌-◌, Bool, not, ◌||◌, ◌&&◌, Option, none, some, List, [], ◌∷◌, ◌++◌, Bytes, Text, codes,
  length, take, drop, bytes_eq, ltb, leb, if◌then◌else◌,
}
use secure_file_shredder_and.Io.Outcome.{Outcome, ok, err, panic, out_of_fuel, ◌>>=◌}
use secure_file_shredder_and.Io.Path.{FilePath}
use secure_file_shredder_and.Io.Error.{SanitizerError, vault, serde, invalid_vault_password}
use secure_file_shredder_and.Io.System.{Crates}
use secure_file_shredder_and.Crypto.Aead.{aes256gcm_decrypt}
use secure_file_shredder_and.Crypto.Kdf.{derive_key}

pub record EntryMeta : Type 0 where
  pub original_name : Text
  pub size : ℕ
  pub sha256 : Text

-- The hash map by its entries, one for a key. Its order is not the program's.
pub record VaultHeader : Type 0 where
  pub entries : List (Text × EntryMeta)

pub record Vault : Type 0 where
  pub path : FilePath
  pub key : Bytes
  pub salt : Bytes
  pub header : VaultHeader

-- `serde_json` on the header.
pub record HeaderJson : Type 0 where
  pub print_header : VaultHeader → Outcome Text Bytes
  pub parse_header : Bytes → Outcome Text VaultHeader

-- `HashMap::get`
unfoldable pub find_entry : Text → List (Text × EntryMeta) → Option EntryMeta
find_entry id [] = none
find_entry id ((k, meta) ∷ rest) =
    let later = find_entry id rest in if bytes_eq k id then some meta else later

-- `HashMap::insert`
unfoldable pub insert_entry : Text → EntryMeta → List (Text × EntryMeta) → List (Text × EntryMeta)
insert_entry id meta [] = (id, meta) ∷ []
insert_entry id meta ((k, old) ∷ rest) =
    let more = insert_entry id meta rest in
    if bytes_eq k id then (k, meta) ∷ rest else (k, old) ∷ more

abbrev pub vault_magic : Bytes
vault_magic = codes "SANIVLT1"

abbrev pub bad_magic : SanitizerError
bad_magic = vault (codes "not a valid vault file (bad magic)")

-- What `persist` writes.
unfoldable pub container_bytes : Bytes → Bytes → Bytes → Bytes
container_bytes salt nonce ciphertext = vault_magic ++ (salt ++ (nonce ++ ciphertext))

-- `&bytes[from..to]`, which panics out of range.
unfoldable pub slice : Bytes → ℕ → ℕ → Outcome SanitizerError Bytes
slice bytes from to =
    if leb from to && leb to (length bytes) then ok (take (to - from) (drop from bytes)) else panic

-- `.map_err(|_| SanitizerError::InvalidVaultPassword)`
abbrev pub or_wrong_password : Outcome SanitizerError Bytes → Outcome SanitizerError Bytes
or_wrong_password (err e) = err invalid_vault_password
or_wrong_password other = other

abbrev pub header_error {ℓ} : {A : Type ℓ} → Outcome Text A → Outcome SanitizerError A
header_error (ok a) = ok a
header_error (err e) = err (serde e)
header_error panic = panic
header_error out_of_fuel = out_of_fuel

-- What `open` does with the parts of the file.
unfoldable pub unlock :
    Crates → HeaderJson → FilePath → Bytes → Bytes → Bytes → Bytes → Outcome SanitizerError Vault
unlock crates json path passphrase salt nonce ciphertext = do
  key ← derive_key crates passphrase salt
  plaintext ← or_wrong_password (aes256gcm_decrypt crates key nonce ciphertext vault_magic)
  header ← header_error (json.parse_header plaintext)
  ok (record { path = path; key = key; salt = salt; header = header })

-- What `open` does with the content of the file.
unfoldable pub open_bytes :
    Crates → HeaderJson → FilePath → Bytes → Bytes → Outcome SanitizerError Vault
unfolding slice
open_bytes crates json path passphrase raw =
    if ltb (length raw) (8 + 16 + 4) || not (bytes_eq (take 8 raw) vault_magic)
    then err bad_magic
    else do
      salt ← slice raw 8 24
      nonce ← slice raw 24 (24 + 12)
      ciphertext ← slice raw (24 + 12) (length raw)
      unlock crates json path passphrase salt nonce ciphertext
