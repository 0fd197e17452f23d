-- ===== src/Sanitize/Metadata.antt =====
-- sanitize/metadata.rs: a file is renamed at random a few times and unlinked.
pub mod Laws
pub mod Success
use secure_file_shredder_and.Base.{
  ℕ, zero, suc, Bool, true, false, Option, none, some, Bytes, Text, codes, replicate,
}
use secure_file_shredder_and.Io.Path.{FilePath, parent, join}
use secure_file_shredder_and.Io.Error.{IoError, SanitizerError, io, config}
use secure_file_shredder_and.Io.Action.{Action, pure, raise, ask, ◌>>=◌, ◌>>◌, map_err, try, ignore}
use secure_file_shredder_and.Io.Files.{
  Handle, Metadata, open_write, metadata, set_len, rename, remove_file,
}
use secure_file_shredder_and.Crypto.Rng.{secure_random_vec}

abbrev pub rename_rounds : ℕ
rename_rounds = 3

-- `.unwrap_or_else(|_| vec![0u8; 16])`
abbrev pub or_zeros : Option Bytes → Bytes
or_zeros (some bytes) = bytes
or_zeros none = replicate 16 0

unfoldable pub random_filename : Action SanitizerError Text
random_filename = do
  bytes ← try {F = SanitizerError} (secure_random_vec 16)
  ask (λ sys _. sys.crates.hex_encode (or_zeros bytes))

-- The loop over the rounds that are left; it returns the last name.
unfoldable pub rename_loop : ℕ → FilePath → FilePath → Action SanitizerError FilePath
rename_loop zero dir current = pure current
rename_loop (suc rounds) dir current = do
  random_name ← random_filename
  let new_path = join dir random_name
  map_err (io current) (rename current new_path)
  rename_loop rounds dir new_path

-- `f.metadata()` is asked by the path of `f`.
unfoldable pub clear_timestamps : FilePath → Action IoError (Unit {0})
clear_timestamps path = do f ← open_write path; m ← metadata f.path; set_len f m.len

no_parent : SanitizerError
no_parent = config (codes "file has no parent directory")

rename_in : FilePath → Option FilePath → Action SanitizerError FilePath
rename_in path none = raise no_parent
rename_in path (some dir) = do
  current ← rename_loop rename_rounds dir path
  ignore (clear_timestamps current)
  pure current

unfoldable pub sanitize_metadata_and_unlink : FilePath → Bool → Action SanitizerError (Unit {0})
unfolding rename_in no_parent
sanitize_metadata_and_unlink path true = do
  current ← rename_in path (parent path)
  map_err (io current) (remove_file current)
sanitize_metadata_and_unlink path false = map_err (io path) (remove_file path)
