-- ===== src/Audit/Record.antt =====
-- audit/mod.rs: `AuditLog::open`, `AuditLog::record`, `replay_and_verify` and `verify_file`.
pub mod Laws
pub mod Frame
pub mod Reopen
use secure_file_shredder_and.Base.{ℕ, ◌+◌, Bool, true, false, [], ◌∷◌, Bytes, Text, codes}
use secure_file_shredder_and.Io.Outcome.{Outcome, ok}
use secure_file_shredder_and.Io.Path.{FilePath}
use secure_file_shredder_and.Io.Error.{SanitizerError, io}
use secure_file_shredder_and.Io.System.{System, Crates}
use secure_file_shredder_and.Io.Action.{Action, pure, lift, ask, ◌>>=◌, map_err}
use secure_file_shredder_and.Io.Files.{open_append, write_all, read_to_string, exists}
use secure_file_shredder_and.Crypto.Aead.{aes256gcm_encrypt}
use secure_file_shredder_and.Crypto.Kdf.{derive_key}
use secure_file_shredder_and.Audit.{
  AuditEntry, AuditLog, Json, genesis_hash, audit_salt, tag_of, serde_error, replay_content,
}

-- A computation that asks the system's functions for nothing that changes.
unfoldable pub given_system :
    {A : Type 0} → (System → Outcome SanitizerError A) → Action SanitizerError A
given_system f sys w = (f sys, w)

abbrev pub tagged : Crates → Bytes → AuditEntry → AuditEntry
tagged crates key e = record e { entry_hmac = tag_of crates key e }

-- The text of a line: the printed entry, or it encrypted.
unfoldable pub line_text : Json → Bytes → Bool → Text → Action SanitizerError Text
line_text json key false line = pure line
line_text json key true line = do
  (nonce, ciphertext) ← aes256gcm_encrypt key line (codes "audit-log")
  given_system (λ sys.
      serde_error
        (json.print_sealed (sys.crates.hex_encode nonce) (sys.crates.hex_encode ciphertext)))

-- The entry goes on a line of its own at the end of the file; the result is the log after it.
unfoldable pub append_entry : Json → AuditLog → AuditEntry → Action SanitizerError AuditLog
append_entry json log entry = do
  line ← lift (serde_error (json.print_entry entry))
  file ← map_err (io log.path) (open_append log.path)
  text ← line_text json log.hmac_key log.encrypt_at_rest line
  file ← map_err (io log.path) (write_all file text)
  file ← map_err (io log.path) (write_all file (10 ∷ []))
  pure (record log { last_hash = entry.entry_hmac; next_sequence = log.next_sequence + 1 })

unfoldable pub record_entry : Json → AuditLog → Text → Text → Text → Action SanitizerError AuditLog
record_entry json log operation target details = do
  moment ← ask (λ sys t. sys.os.utc t)
  let entry_no_hmac : AuditEntry = record {
    sequence = log.next_sequence;
    timestamp = moment;
    operation = operation;
    target = target;
    details = details;
    prev_hash = log.last_hash;
    entry_hmac = [];
  }
  entry ← given_system (λ sys. ok (tagged sys.crates log.hmac_key entry_no_hmac))
  append_entry json log entry

unfoldable pub replay_and_verify : Json → FilePath → Bytes → Bool → Action SanitizerError (Text × ℕ)
replay_and_verify json path key encrypted = do
  content ← map_err (io path) (read_to_string path)
  given_system (λ sys. replay_content sys json key encrypted content)

unfoldable pub replay_if : Json → FilePath → Bytes → Bool → Bool → Action SanitizerError (Text × ℕ)
replay_if json path key encrypted true = replay_and_verify json path key encrypted
replay_if json path key encrypted false = pure (genesis_hash, 0)

-- `AuditLog::open`
unfoldable pub open_log : Json → FilePath → Bytes → Bool → Action SanitizerError AuditLog
open_log json path key_material encrypt_at_rest = do
  key ← given_system (λ sys. derive_key sys.crates key_material audit_salt)
  there ← exists path
  (last_hash, next_sequence) ← replay_if json path key encrypt_at_rest there
  pure (record {
    path = path;
    hmac_key = key;
    last_hash = last_hash;
    next_sequence = next_sequence;
    encrypt_at_rest = encrypt_at_rest;
  })

unfoldable pub verify_file : Json → FilePath → Bytes → Bool → Action SanitizerError ℕ
verify_file json path key_material encrypted = do
  key ← given_system (λ sys. derive_key sys.crates key_material audit_salt)
  (_, count) ← replay_and_verify json path key encrypted
  pure count
