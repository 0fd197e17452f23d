-- ===== src/Vault.antt =====
-- vault/mod.rs: encrypted copies of files beside a container that holds their table.
pub mod Container
pub mod Persist
pub mod Entries
pub mod Extract
pub mod Create
pub mod Destroy
use mathlib.Core.Option
use secure_file_shredder_and.Base.{
  ℕ, ◌⊎◌, inl, inr, Bool, true, false, not, Option, none, some, List, [], ◌∷◌, ◌++◌, Bytes, Text,
  codes, length, take, drop, replicate, bytes_eq, ltb, if◌then◌else◌,
}
use secure_file_shredder_and.Io.Outcome.{Outcome, ok, err, ok_or}
use secure_file_shredder_and.Io.Path.{FilePath, display, file_name, join, set_file_name}
use secure_file_shredder_and.Io.Error.{IoError, SanitizerError, io, vault}
use secure_file_shredder_and.Io.System.{System}
use secure_file_shredder_and.Io.Action.{
  Action, pure, raise, lift, ask, ◌>>=◌, ◌>>◌, map_err, ignore,
}
use secure_file_shredder_and.Io.Files.{read, write, exists}
use secure_file_shredder_and.Io.Folders.{create_dir_all, is_dir, is_file, read_dir, remove_dir}
use secure_file_shredder_and.Crypto.Rng.{secure_random_bytes}
use secure_file_shredder_and.Crypto.Aead.{aes256gcm_encrypt, aes256gcm_decrypt}
use secure_file_shredder_and.Crypto.Memory.{secure_zero}
use secure_file_shredder_and.Crypto.Kdf.{derive_key, generate_salt}
use secure_file_shredder_and.Crypto.Hashing.{sha256_hex}
use secure_file_shredder_and.Storage.Device.{detect_storage_for_path}
use secure_file_shredder_and.Sanitize.Patterns.{nist_purge}
use secure_file_shredder_and.Sanitize.Engine.{ShredOptions, shred_file}
use secure_file_shredder_and.Vault.Container.{
  EntryMeta, VaultHeader, Vault, HeaderJson, find_entry, insert_entry, vault_magic, container_bytes,
  open_bytes, header_error,
}

unfoldable pub already_there : FilePath → SanitizerError
already_there path =
    vault (codes "'" ++ (display path ++ codes "' already exists; refusing to overwrite"))

unfoldable pub persist : HeaderJson → Vault → Action SanitizerError (Unit {0})
persist json v = do
  header_json ← lift (header_error (json.print_header v.header))
  (nonce, ciphertext) ← aes256gcm_encrypt v.key header_json vault_magic
  map_err (io v.path) (write v.path (container_bytes v.salt nonce ciphertext))

-- `Vault::create`
unfoldable pub create_vault : HeaderJson → FilePath → Bytes → Action SanitizerError Vault
unfolding already_there
create_vault json path passphrase = do
  there ← exists path
  if there then raise (already_there path) else do
    salt ← generate_salt
    derived ← ask (λ sys t. derive_key sys.crates passphrase salt)
    key ← lift derived
    let v : Vault = record { path = path; key = key; salt = salt; header = record { entries = [] } }
    persist json v
    pure v

-- `Vault::open`
unfoldable pub open_vault : HeaderJson → FilePath → Bytes → Action SanitizerError Vault
open_vault json path passphrase = do
  raw ← map_err (io path) (read path)
  opened ← ask (λ sys t. open_bytes sys.crates json path passphrase raw)
  lift opened

abbrev or_empty : Option Text → Text
or_empty (some name) = name
or_empty none = []

unfoldable pub entries_dir : Vault → FilePath
entries_dir v =
    set_file_name v.path (codes "." ++ (or_empty (file_name v.path) ++ codes ".entries"))

unfoldable pub entry_blob_path : Vault → Text → FilePath
entry_blob_path v entry_id = join (entries_dir v) (entry_id ++ codes ".blob")

abbrev or_unnamed : Option Text → Text
or_unnamed (some name) = name
or_unnamed none = codes "unnamed"

-- `HashMap::insert` on the vault's table.
abbrev pub with_entry : Vault → Text → EntryMeta → Vault
with_entry v entry_id meta = record v {
  header = record { entries = insert_entry entry_id meta v.header.entries };
}

-- The entry's id, and the vault as it is left.
unfoldable pub add_file : HeaderJson → Vault → FilePath → Action SanitizerError (Text × Vault)
add_file json v source = do
  data' ← map_err (io source) (read source)
  sha256 ← ask (λ sys t. sha256_hex sys.crates data')
  random ← secure_random_bytes (replicate 16 0)
  entry_id ← ask (λ sys t. sys.crates.hex_encode random)
  (nonce, ciphertext) ← aes256gcm_encrypt v.key data' entry_id
  map_err (io (entries_dir v)) (create_dir_all (entries_dir v))
  let entry_path = entry_blob_path v entry_id
  map_err (io entry_path) (write entry_path (nonce ++ ciphertext))
  let meta : EntryMeta = record {
    original_name = or_unnamed (file_name source);
    size = length data';
    sha256 = sha256;
  }
  let v' = with_entry v entry_id meta
  persist json v'
  pure (entry_id, v')

no_such_entry : Text → SanitizerError
no_such_entry entry_id = vault (codes "no such entry: " ++ entry_id)

abbrev corrupt_entry : SanitizerError
corrupt_entry = vault (codes "corrupt vault entry")

abbrev hash_mismatch : SanitizerError
hash_mismatch = vault (codes "integrity check failed: hash mismatch on extraction")

unfoldable pub extract_entry : Vault → Text → FilePath → Action SanitizerError (Unit {0})
unfolding no_such_entry
extract_entry v entry_id dest = do
  meta ← lift (ok_or (find_entry entry_id v.header.entries) (no_such_entry entry_id))
  let entry_path = entry_blob_path v entry_id
  blob ← map_err (io entry_path) (read entry_path)
  if ltb (length blob) 12 then raise corrupt_entry else do
    decrypted ←
        ask (λ sys t. aes256gcm_decrypt sys.crates v.key (take 12 blob) (drop 12 blob) entry_id)
    plaintext ← lift decrypted
    actual_sha ← ask (λ sys t. sha256_hex sys.crates plaintext)
    if not (bytes_eq actual_sha meta.sha256)
        then raise hash_mismatch
        else map_err (io dest) (write dest plaintext)

abbrev summary : List (Text × EntryMeta) → List (Text × Text × ℕ)
summary [] = []
summary ((id, meta) ∷ rest) = (id, meta.original_name, meta.size) ∷ summary rest

unfoldable pub list_entries : Vault → List (Text × Text × ℕ)
list_entries v = summary v.header.entries

abbrev pub purge_options : ShredOptions
purge_options = record {
  pattern = nist_purge;
  verify_passes = false;
  sanitize_filename = true;
  sync_each_pass = true;
}

-- One entry of the directory, whose shredding may fail.
unfoldable pub destroy_blob : FilePath → Bool → Action SanitizerError (Unit {0})
destroy_blob p true = do
  storage ← detect_storage_for_path p
  ignore {E = SanitizerError} (shred_file p purge_options storage false false)
destroy_blob p false = pure tt

abbrev pub entry_name : IoError ⊎ Text → Outcome IoError Text
entry_name (inl e) = err e
entry_name (inr name) = ok name

-- The loop over the directory.
unfoldable pub destroy_entries : FilePath → List (IoError ⊎ Text) → Action SanitizerError (Unit {0})
destroy_entries folder [] = pure tt
destroy_entries folder (entry ∷ rest) = do
  name ← map_err (io folder) (lift (entry_name entry))
  regular ← is_file (join folder name)
  destroy_blob (join folder name) regular
  destroy_entries folder rest

unfoldable pub destroy_folder : FilePath → Bool → Action SanitizerError (Unit {0})
destroy_folder folder true = do
  names ← map_err (io folder) (read_dir folder)
  destroy_entries folder names
  ignore {E = IoError} (remove_dir folder)
destroy_folder folder false = pure tt

-- `Vault::destroy`; the vault as it is dropped.
unfoldable pub destroy : Vault → Action SanitizerError Vault
destroy v = do
  there ← is_dir (entries_dir v)
  destroy_folder (entries_dir v) there
  storage ← detect_storage_for_path v.path
  outcome ← shred_file v.path purge_options storage false false
  pure (record v { header = record { entries = [] }; key = secure_zero v.key })
