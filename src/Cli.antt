-- ===== src/Cli.antt =====
-- main.rs: the handlers of the commands that change files, behind the parsing of the arguments. What
-- they print, the progress bars among it, is left out.
pub mod Wipe
use secure_file_shredder_and.Base.{
  ℕ, Bool, true, false, not, Option, none, some, List, [], ◌∷◌, Bytes, Text, codes, ◌==◌, ◌||◌,
  if◌then◌else◌,
}
use secure_file_shredder_and.Io.Outcome.{Outcome, ok, err, panic, out_of_fuel}
use secure_file_shredder_and.Io.Path.{FilePath, display}
use secure_file_shredder_and.Io.Error.{IoError, SanitizerError}
use secure_file_shredder_and.Io.System.{System}
use secure_file_shredder_and.Io.Action.{Action, pure, lift, ask, ◌>>=◌, ◌>>◌, map_err}
use secure_file_shredder_and.Io.Files.{metadata, read}
use secure_file_shredder_and.Crypto.Hashing.{sha256_hex}
use secure_file_shredder_and.Storage.Device.{detect_storage_for_path}
use secure_file_shredder_and.Sanitize.Patterns.{OverwritePattern, from_str}
use secure_file_shredder_and.Sanitize.Engine.{ShredOptions, ShredOutcome, shred_file}
use secure_file_shredder_and.Sanitize.Directory.{DirectoryShredSummary, shred_directory}
use secure_file_shredder_and.Audit.{AuditLog, Json}
use secure_file_shredder_and.Audit.Record.{record_entry, open_log}
use secure_file_shredder_and.Vault.Container.{HeaderJson}
use secure_file_shredder_and.Vault.{
  create_vault, open_vault, add_file, extract_entry, list_entries, destroy,
}

-- `anyhow::Error`: an error of the library behind a text, one as it is, and others.
pub data Anyhow : Type 0 where
  context : Text → SanitizerError → Anyhow
  bare : SanitizerError → Anyhow
  bare_io : IoError → Anyhow
  message : Text → Anyhow

-- `serde_json` on the details of the records, as the texts that the values display as.
pub record DetailsJson : Type 0 where
  pub of_outcome : ShredOutcome → Outcome Text Text
  pub of_counts : ℕ → ℕ → ℕ → Text
  pub of_entry : Text → Text → Text
  pub empty : Text

abbrev or_default : Option Text → Text
or_default (some key) = key
or_default none = codes "sanitizer-default-local-audit-key-change-me"

unfoldable pub audit_key_bytes : Option Text → Bytes
audit_key_bytes audit_key = or_default audit_key

abbrev is_line_end : ℕ → Bool
is_line_end c = c == 10 || c == 13

abbrev keep_line_char : Bool → ℕ → Text → Text
keep_line_char true c [] = []
keep_line_char line_end c s = c ∷ s

-- `input.trim_end_matches(['\n', '\r'])`
unfoldable pub trim_line_end : Text → Text
trim_line_end [] = []
trim_line_end (c ∷ s) = keep_line_char (is_line_end c) c (trim_line_end s)

abbrev pub parsed {ℓ} : {A : Type ℓ} → Outcome Text A → Outcome Anyhow A
parsed (ok a) = ok a
parsed (err e) = err (message e)
parsed panic = panic
parsed out_of_fuel = out_of_fuel

-- The name of a pattern, from the arguments.
unfoldable pub parse_pattern : Text → Action Anyhow OverwritePattern
parse_pattern name sys w = (parsed (from_str sys.unicode.lowercase name), w)

abbrev pub wipe_options : OverwritePattern → Bool → ShredOptions
wipe_options pattern verify = record {
  pattern = pattern;
  verify_passes = verify;
  sanitize_filename = true;
  sync_each_pass = true;
}

unfoldable pub record_audit : Json → AuditLog → Text → FilePath → Text → Action Anyhow AuditLog
record_audit json log operation target details =
    map_err bare (record_entry json log operation (display target) details)

-- `Commands::Wipe`; the log as it is left.
unfoldable pub wipe :
    Json → DetailsJson → AuditLog → FilePath → Text → Bool → Action Anyhow AuditLog
wipe json values log path name no_verify = do
  pattern ← parse_pattern name
  storage ← map_err bare (detect_storage_for_path path)
  file_size ← map_err bare_io (metadata path)
  outcome ←
      map_err (context (codes "wipe failed: "))
        (shred_file path (wipe_options pattern (not no_verify)) storage true true)
  details ← lift (parsed (values.of_outcome outcome))
  record_audit json log (codes "wipe") outcome.path details

-- `Commands::WipeDir`
unfoldable pub wipe_dir :
    Json → DetailsJson → AuditLog → FilePath → Text → Option ℕ → Action Anyhow AuditLog
wipe_dir json values log path name threads = do
  pattern ← parse_pattern name
  summary ←
      map_err (context (codes "directory wipe failed: "))
        (shred_directory path (wipe_options pattern true) threads true true)
  record_audit json log (codes "wipe-dir") path
      (values.of_counts summary.files_processed summary.files_failed summary.bytes_wiped)

-- `VaultAction::Create`
unfoldable pub vault_create :
    Json → DetailsJson → HeaderJson → AuditLog → FilePath → Bytes → Action Anyhow AuditLog
vault_create json values headers log path pw = do
  v ← map_err (context (codes "vault create failed: ")) (create_vault headers path pw)
  record_audit json log (codes "vault-create") path values.empty

-- `VaultAction::Add`
unfoldable pub vault_add :
    Json
    → DetailsJson
    → HeaderJson
    → AuditLog
    → FilePath
    → FilePath
    → Bytes
    → Action Anyhow AuditLog
vault_add json values headers log vault_path source pw = do
  v ← map_err (context (codes "vault open failed: ")) (open_vault headers vault_path pw)
  (entry_id, v') ← map_err (context (codes "vault add failed: ")) (add_file headers v source)
  content ← map_err bare_io (read source)
  sha256 ← ask (λ sys t. sha256_hex sys.crates content)
  record_audit json log (codes "vault-add") vault_path (values.of_entry entry_id sha256)

-- `VaultAction::List`: what is printed.
unfoldable pub vault_list : HeaderJson → FilePath → Bytes → Action Anyhow (List (Text × Text × ℕ))
vault_list headers vault_path pw = do
  v ← map_err (context (codes "vault open failed: ")) (open_vault headers vault_path pw)
  pure (list_entries v)

-- `VaultAction::Extract`
unfoldable pub vault_extract :
    HeaderJson → FilePath → Text → FilePath → Bytes → Action Anyhow (Unit {0})
vault_extract headers vault_path entry_id dest pw = do
  v ← map_err (context (codes "vault open failed: ")) (open_vault headers vault_path pw)
  map_err (context (codes "extract failed: ")) (extract_entry v entry_id dest)

-- `VaultAction::Destroy`
unfoldable pub vault_destroy :
    Json → DetailsJson → HeaderJson → AuditLog → FilePath → Bytes → Action Anyhow AuditLog
vault_destroy json values headers log vault_path pw = do
  v ← map_err (context (codes "vault open failed: ")) (open_vault headers vault_path pw)
  v' ← map_err (context (codes "vault destroy failed: ")) (destroy v)
  record_audit json log (codes "vault-destroy") vault_path values.empty

-- `AuditLog::open`, as `main` calls it.
unfoldable pub open_audit : Json → FilePath → Option Text → Action Anyhow AuditLog
open_audit json path audit_key =
    map_err (context (codes "failed to open audit log: "))
      (open_log json path (audit_key_bytes audit_key) false)
