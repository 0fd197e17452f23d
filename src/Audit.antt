-- ===== src/Audit.antt =====
-- audit/mod.rs: the log of what was done. Each entry's tag covers the tag of the entry before it.
pub mod Chain
pub mod Tamper
pub mod Replay
pub mod Record
pub mod Append
use secure_file_shredder_and.Base.{
  ℕ, zero, suc, ◌+◌, Bool, true, false, not, Option, none, some, List, [], ◌∷◌, ◌++◌, Bytes, Text,
  codes, decimal, replicate, bytes_eq, lines, is_blank, ◌==◌, if◌then◌else◌,
}
use secure_file_shredder_and.Io.Outcome.{Outcome, ok, err, panic, out_of_fuel, ok_or, ◌>>=◌, ◌>>◌}
use secure_file_shredder_and.Io.Path.{FilePath}
use secure_file_shredder_and.Io.Error.{SanitizerError, crypto, serde, verification}
use secure_file_shredder_and.Io.System.{System, Crates}
use secure_file_shredder_and.Crypto.Aead.{aes256gcm_decrypt}
use secure_file_shredder_and.Crypto.Hashing.{hmac_sha256_hex}

-- `details` is a JSON value, kept as the text that it displays as; `timestamp` is a moment.
pub record AuditEntry : Type 0 where
  pub sequence : ℕ
  pub timestamp : ℕ
  pub operation : Text
  pub target : Text
  pub details : Text
  pub prev_hash : Text
  pub entry_hmac : Text

pub record AuditLog : Type 0 where
  pub path : FilePath
  pub hmac_key : Bytes
  pub last_hash : Text
  pub next_sequence : ℕ
  pub encrypt_at_rest : Bool

-- `serde_json` on the two shapes of a line: an entry, and the nonce and ciphertext of one, whose
-- fields are empty texts where they are missing.
pub record Json : Type 0 where
  pub print_entry : AuditEntry → Outcome Text Text
  pub parse_entry : Text → Outcome Text AuditEntry
  pub print_sealed : Text → Text → Outcome Text Text
  pub parse_sealed : Text → Outcome Text (Text × Text)

unfoldable pub genesis_hash : Text
genesis_hash = replicate 76 b'0'

unfoldable pub audit_salt : Bytes
audit_salt = codes "sanitizer-audit-log-salt-v1-fix"

-- The bytes that are signed: all but the tag.
unfoldable pub canonical_signing_bytes : Crates → AuditEntry → Bytes
canonical_signing_bytes crates e =
    decimal e.sequence
    ++ (codes "|"
        ++ (crates.rfc3339 e.timestamp
            ++ (codes "|"
                ++ (e.operation
                    ++ (codes "|"
                        ++ (e.target
                            ++ (codes "|" ++ (e.details ++ (codes "|" ++ e.prev_hash)))))))))

abbrev pub without_tag : AuditEntry → AuditEntry
without_tag e = record e { entry_hmac = [] }

unfoldable pub tag_of : Crates → Bytes → AuditEntry → Text
tag_of crates key e = hmac_sha256_hex crates key (canonical_signing_bytes crates (without_tag e))

sequence_gap : ℕ → ℕ → ℕ → SanitizerError
sequence_gap line_no expected got = verification (
    codes "audit log tamper detected: sequence gap at line "
    ++ (decimal (line_no + 1)
        ++ (codes " (expected "
            ++ (decimal expected ++ (codes ", got " ++ (decimal got ++ codes ")"))))))

broken_chain : ℕ → SanitizerError
broken_chain sequence =
    verification
      (codes "audit log tamper detected: broken hash chain at sequence " ++ decimal sequence)

bad_tag : ℕ → SanitizerError
bad_tag sequence =
    verification (codes "audit log tamper detected: HMAC mismatch at sequence " ++ decimal sequence)

-- The three tests on an entry.
unfoldable pub check_entry :
    Crates → Bytes → ℕ → Text → ℕ → AuditEntry → Outcome SanitizerError (Unit {0})
unfolding sequence_gap broken_chain bad_tag
check_entry crates key line_no last_hash expected_seq e =
    if not (e.sequence == expected_seq)
    then err (sequence_gap line_no expected_seq e.sequence)
    else if not (bytes_eq e.prev_hash last_hash)
    then err (broken_chain e.sequence)
    else if not (bytes_eq (tag_of crates key e) e.entry_hmac)
    then err (bad_tag e.sequence)
    else ok tt

abbrev pub serde_error {ℓ} : {A : Type ℓ} → Outcome Text A → Outcome SanitizerError A
serde_error (ok a) = ok a
serde_error (err e) = err (serde e)
serde_error panic = panic
serde_error out_of_fuel = out_of_fuel

-- The entry on a line, out of its encryption if the log is encrypted.
unfoldable pub parse_line : Crates → Json → Bytes → Bool → Text → Outcome SanitizerError AuditEntry
parse_line crates json key false line = serde_error (json.parse_entry line)
parse_line crates json key true line = do
  (nonce_hex, ct_hex) ← serde_error (json.parse_sealed line)
  nonce ← ok_or (crates.hex_decode nonce_hex) (crypto (codes "bad nonce hex in audit log"))
  ct ← ok_or (crates.hex_decode ct_hex) (crypto (codes "bad ciphertext hex in audit log"))
  pt ← aes256gcm_decrypt crates key nonce ct (codes "audit-log")
  serde_error (json.parse_entry pt)

-- The loop of `replay_and_verify` over the lines from `line_no` on.
unfoldable pub replay_lines :
    System → Json → Bytes → Bool → ℕ → Text → ℕ → List Text → Outcome SanitizerError (Text × ℕ)
replay_lines sys json key encrypted line_no last_hash expected_seq [] = ok (last_hash, expected_seq)
replay_lines sys json key encrypted line_no last_hash expected_seq (line ∷ rest) =
    let skipped = replay_lines sys json key encrypted (line_no + 1) last_hash expected_seq rest in
    let checked : Outcome SanitizerError (Text × ℕ) = (do
      e ← parse_line sys.crates json key encrypted line
      check_entry sys.crates key line_no last_hash expected_seq e
      replay_lines sys json key encrypted (line_no + 1) e.entry_hmac (expected_seq + 1) rest) in
    if is_blank sys.unicode.is_blank line then skipped else checked

-- What `replay_and_verify` does with the content of the file.
unfoldable pub replay_content :
    System → Json → Bytes → Bool → Text → Outcome SanitizerError (Text × ℕ)
replay_content sys json key encrypted content =
    replay_lines sys json key encrypted 0 genesis_hash 0 (lines content)
