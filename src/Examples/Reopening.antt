-- ===== src/Examples/Reopening.antt =====
-- `open` on a log of two entries.
use secure_file_shredder_and.Base.{
  ◌≡◌, ◌⊎◌, refl, false, [], ◌∷◌, ◌++◌, List, Bytes, Text, codes, lines, take, replicate,
  starts_with, is_blank,
}
use secure_file_shredder_and.Io.Outcome.{ok}
use secure_file_shredder_and.Io.Triple.{Triple}
use secure_file_shredder_and.Crypto.Hashing.{hmac_sha256_hex}
use secure_file_shredder_and.Crypto.Kdf.{derive_key, derive_key_with_params}
use secure_file_shredder_and.Audit.{
  AuditEntry, AuditLog, genesis_hash, audit_salt, tag_of, parse_line, replay_content,
}
use secure_file_shredder_and.Audit.Chain.{IsChain, Holds, nothing, entry, replay_lines_complete}
use secure_file_shredder_and.Audit.Record.{open_log}
use secure_file_shredder_and.Audit.Record.Reopen.{Has, Refused, fresh, open_log-Triple}
use secure_file_shredder_and.Samples.{
  system_sample, crates_sample, key_sample, first_sample, second_sample, json_sample, path_sample,
}

abbrev derived_sample : Bytes
derived_sample = take 32 (key_sample ++ replicate 32 0)

abbrev entries_sample : List AuditEntry
entries_sample = first_sample ∷ second_sample ∷ []

abbrev two_lines : Text
two_lines = codes "1\n2\n"

entries-Holds :
    Holds system_sample json_sample derived_sample false (codes "1" ∷ codes "2" ∷ []) entries_sample
unfolding parse_line is_blank starts_with codes
entries-Holds = entry refl refl (entry refl refl nothing)

entries-IsChain : IsChain crates_sample derived_sample genesis_hash 0 entries_sample
unfolding tag_of hmac_sha256_hex
entries-IsChain = (refl, refl, refl, (refl, refl, refl, tt))

abbrev two_log : AuditLog
two_log = record {
  path = path_sample;
  hmac_key = derived_sample;
  last_hash = second_sample.entry_hmac;
  next_sequence = 2;
  encrypt_at_rest = false;
}

two_lines-accepted :
    replay_content system_sample json_sample derived_sample false two_lines
    ≡ ok (second_sample.entry_hmac, 2)
unfolding replay_content lines codes
two_lines-accepted =
    replay_lines_complete system_sample json_sample derived_sample false 0 genesis_hash 0
      entries-Holds entries-IsChain

derived : derive_key crates_sample key_sample audit_salt ≡ ok derived_sample
unfolding derive_key derive_key_with_params
derived = refl

open_log-Triple_example :
    Triple system_sample
      (Has path_sample two_lines)
      (open_log json_sample path_sample key_sample false)
      (λ l d t.
        Has path_sample two_lines d t
        × ((l ≡ two_log) ⊎ ((l ≡ fresh two_log) × Refused system_sample)))
      (λ e. Has path_sample two_lines)
open_log-Triple_example =
    open_log-Triple json_sample two_log key_sample two_lines derived two_lines-accepted
