-- ===== src/Audit/Record/Frame.antt =====
-- `record` and the other paths than the log's.
use secure_file_shredder_and.Base.{
  refl, ◌≢◌, ◌∙◌, Bool, true, false, Bytes, Text, length, not, ◌==◌,
}
use secure_file_shredder_and.Io.Outcome.{Outcome}
use secure_file_shredder_and.Io.Path.{FilePath}
use secure_file_shredder_and.Io.Error.{SanitizerError}
use secure_file_shredder_and.Io.System.{System}
use secure_file_shredder_and.Io.Frame.{
  Gives-Unit, Keeps, Keeps-pure, Keeps-raise, Keeps-lift, Keeps-ask, Keeps-if, Keeps-bind,
  Keeps-map_err, Keeps-write_all, Keeps-open_append,
}
use secure_file_shredder_and.Crypto.Rng.Laws.{secure_random_bytes-Keeps}
use secure_file_shredder_and.Crypto.Aead.{aes256gcm_encrypt, aes_key_len}
use secure_file_shredder_and.Audit.{AuditEntry, AuditLog, Json}
use secure_file_shredder_and.Audit.Record.{given_system, line_text, append_entry, record_entry}

module _ {sys : System} {q : FilePath} where
  given_system-Keeps :
      {A : Type 0} (f : System → Outcome SanitizerError A)
      → Keeps sys q (given_system f) (λ a. Unit)
  unfolding given_system
  given_system-Keeps f = record { at = λ w. refl; value = λ w. Gives-Unit (f sys) }

  aes256gcm_encrypt-Keeps :
      (key plaintext aad : Bytes) → Keeps sys q (aes256gcm_encrypt key plaintext aad) (λ a. Unit)
  unfolding aes256gcm_encrypt
  aes256gcm_encrypt-Keeps key plaintext aad =
      Keeps-if (not (length key == aes_key_len)) (Keeps-raise _) (
        Keeps-bind (secure_random_bytes-Keeps _) λ nonce _.
          Keeps-bind (Keeps-ask _) λ sealed _. Keeps-bind (Keeps-lift _) λ ct _. Keeps-pure _ tt)

  line_text-Keeps :
      (json : Json) (key : Bytes) (encrypted : Bool) (line : Text)
      → Keeps sys q (line_text json key encrypted line) (λ a. Unit)
  unfolding line_text
  line_text-Keeps json key false line = Keeps-pure line tt
  line_text-Keeps json key true line =
      Keeps-bind (aes256gcm_encrypt-Keeps key line _) λ out _. given_system-Keeps _

  append_entry-Keeps :
      (json : Json) (log : AuditLog) (e : AuditEntry)
      → q ≢ log.path
      → Keeps sys q (append_entry json log e) (λ a. Unit)
  unfolding append_entry
  append_entry-Keeps json log e n = Keeps-bind (Keeps-lift _) λ line _.
      Keeps-bind (Keeps-map_err _ (Keeps-open_append log.path n)) λ f opened.
        Keeps-bind (line_text-Keeps json _ _ line) λ text _.
          Keeps-bind (Keeps-map_err _ (Keeps-write_all f text (λ same. n (same ∙ opened))))
            λ g kept.
              Keeps-bind (Keeps-map_err _ (Keeps-write_all g _ (λ same. n (same ∙ kept ∙ opened))))
                λ h _. Keeps-pure _ tt

  -- Whatever the system answers, a path other than the log's holds after `record` what it held.
  pub record_entry-Keeps :
      (json : Json) (log : AuditLog) (operation target details : Text)
      → q ≢ log.path
      → Keeps sys q (record_entry json log operation target details) (λ a. Unit)
  unfolding record_entry
  record_entry-Keeps json log operation target details n =
      Keeps-bind (Keeps-ask _)
        λ moment _. Keeps-bind (given_system-Keeps _) λ e _. append_entry-Keeps json log e n
