-- ===== src/Examples/Logs.antt =====
-- The theorems on the audit log and on verification, applied to inputs that meet their conditions.
use secure_file_shredder_and.Base.{
  some, none, ℕ, ◌≡◌, ◌≤◌, ◌↔◌, ◌⊎◌, refl, true, false, none, List, [], ◌∷◌, ◌++◌, Bytes, Text,
  codes, length, All, lines, starts_with, is_blank, bytes_eq,
}
use secure_file_shredder_and.Io.Outcome.{ok}
use secure_file_shredder_and.Io.Float.{f64_lt, f64_5, f64_6_5}
use secure_file_shredder_and.Crypto.Rng.{shannon_entropy}
use secure_file_shredder_and.Audit.{
  AuditEntry, genesis_hash, tag_of, parse_line, replay_lines, replay_content,
}
use secure_file_shredder_and.Audit.Chain.{
  IsChain, Holds, nothing, entry, Accepted, replay_lines_complete, replay_lines_iff,
}
use secure_file_shredder_and.Audit.Tamper.{Clash, SameSigned}
use secure_file_shredder_and.Audit.Replay.{
  replay_content_commits, replay_lines-prefix, replay_lines-Regrouped,
}
use secure_file_shredder_and.Verify.{
  contains_subsequence, magic_signatures, is_empty, analyze_bytes, extract_ascii_strings,
  signature_hits_in, classify_confidence,
}
use secure_file_shredder_and.Verify.Signatures.{
  Occurs, contains_subsequence_iff, analyze_bytes-very_low,
}
use secure_file_shredder_and.Verify.Strings.{Runs, long_runs, extract_ascii_strings-Runs}
use secure_file_shredder_and.Io.Path.{display, normal, root_dir}
use secure_file_shredder_and.Sanitize.Engine.{ShredOutcome}
use secure_file_shredder_and.Report.{csv_row}
use secure_file_shredder_and.Report.Csv.{read_row, decimal-IsPlain, read_row-csv_row}
use secure_file_shredder_and.Sanitize.Patterns.{zeros, name}
use secure_file_shredder_and.Base.{decimal}
use secure_file_shredder_and.Storage.Filesystem.{best_mount}
use secure_file_shredder_and.Storage.Filesystem.Mounts.{Chosen, best_mount-Chosen}
use secure_file_shredder_and.Samples.{
  system_sample, crates_sample, tags_sample, key_sample, first_sample, second_sample,
  regrouped_sample, json_sample, path_sample, float_sample,
}

-- Two lines, each of one entry.
abbrev lines_sample : List Text
lines_sample = codes "1" ∷ codes "2" ∷ []

entries_sample :
    Holds system_sample json_sample key_sample false lines_sample
      (first_sample ∷ second_sample ∷ [])
unfolding parse_line is_blank starts_with codes
entries_sample = entry refl refl (entry refl refl nothing)

samples-IsChain :
    IsChain crates_sample key_sample genesis_hash 0 (first_sample ∷ second_sample ∷ [])
unfolding tag_of
samples-IsChain = (refl, refl, refl, (refl, refl, refl, tt))

accepted_sample :
    replay_lines system_sample json_sample key_sample false 0 genesis_hash 0 lines_sample
    ≡ ok (second_sample.entry_hmac, 2)
accepted_sample =
    replay_lines_complete system_sample json_sample key_sample false 0 genesis_hash 0 entries_sample
      samples-IsChain

replay_lines_iff_example :
    (replay_lines system_sample json_sample key_sample false 0 genesis_hash 0 lines_sample
      ≡ ok (second_sample.entry_hmac, 2))
    ↔ Accepted system_sample json_sample key_sample false genesis_hash 0 lines_sample
        (second_sample.entry_hmac, 2)
replay_lines_iff_example =
    replay_lines_iff system_sample json_sample key_sample false 0 genesis_hash 0 lines_sample
      (second_sample.entry_hmac, 2)

abbrev content_sample : Text
content_sample = codes "1\n2\n"

content_accepted :
    replay_content system_sample json_sample key_sample false content_sample
    ≡ ok (second_sample.entry_hmac, 2)
unfolding replay_content lines codes
content_accepted = accepted_sample

replay_content_commits_example :
    (es : List AuditEntry) × (es' : List AuditEntry) × Holds system_sample json_sample key_sample
      false
      (lines content_sample)
      es
    × Holds system_sample json_sample key_sample false (lines content_sample) es'
    × (SameSigned crates_sample es es' ⊎ Clash crates_sample key_sample es es')
replay_content_commits_example =
    replay_content_commits system_sample json_sample key_sample false (tags_sample key_sample)
      content_sample content_sample (second_sample.entry_hmac, 2) content_accepted content_accepted

-- The second entry is cut off.
replay_lines-prefix_example :
    (r : Text × ℕ) × (replay_lines system_sample json_sample key_sample false 0 genesis_hash 0
        (codes "1" ∷ [])
      ≡ ok r)
replay_lines-prefix_example =
    replay_lines-prefix system_sample json_sample key_sample false 0 genesis_hash 0 (codes "1" ∷ [])
      (codes "2" ∷ []) (second_sample.entry_hmac, 2) accepted_sample

regrouped_entries :
    Holds system_sample json_sample key_sample false
      (codes "3" ∷ codes "2" ∷ [])
      (regrouped_sample ∷ second_sample ∷ [])
unfolding parse_line is_blank starts_with codes
regrouped_entries = entry refl refl (entry refl refl nothing)

-- The log now says that `wipe|/tmp/a` was done to `b`.
replay_lines-Regrouped_example :
    replay_lines system_sample json_sample key_sample false 0 genesis_hash 0
      (codes "3" ∷ codes "2" ∷ [])
    ≡ ok (second_sample.entry_hmac, 2)
unfolding codes
replay_lines-Regrouped_example =
    replay_lines-Regrouped system_sample json_sample key_sample false 0 genesis_hash 0 lines_sample
      (codes "3" ∷ codes "2" ∷ []) [] (second_sample ∷ []) first_sample regrouped_sample
      (second_sample.entry_hmac, 2) (codes "/tmp/a", codes "b", refl, refl) entries_sample
      regrouped_entries accepted_sample

contains_subsequence_iff_example :
    (contains_subsequence (1 ∷ 80 ∷ 75 ∷ 3 ∷ []) (80 ∷ 75 ∷ []) ≡ true)
    ↔ ((is_empty {A = ℕ} (80 ∷ 75 ∷ []) ≡ false) × Occurs (80 ∷ 75 ∷ []) (1 ∷ 80 ∷ 75 ∷ 3 ∷ []))
contains_subsequence_iff_example = contains_subsequence_iff (1 ∷ 80 ∷ 75 ∷ 3 ∷ []) (80 ∷ 75 ∷ [])

-- The second holds the path.
abbrev mounts_sample : List Text
mounts_sample =
    codes "/dev/sda1 / ext4 rw 0 0"
    ∷ codes "tmpfs /tmp tmpfs rw 0 0"
    ∷ codes "none /sys sysfs rw"
    ∷ []

abbrev wiped_sample : Bytes
wiped_sample = 200 ∷ 3 ∷ 177 ∷ 14 ∷ []

analyze_bytes-very_low_example :
    All (λ s. ¬ Occurs s.1 wiped_sample) magic_signatures
    × (length (extract_ascii_strings wiped_sample 6) ≤ 5)
    × (f64_lt (shannon_entropy float_sample wiped_sample) f64_5 ≡ false)
    × (f64_lt (shannon_entropy float_sample wiped_sample) f64_6_5 ≡ false)
unfolding analyze_bytes codes classify_confidence signature_hits_in contains_subsequence bytes_eq
    extract_ascii_strings f64_lt shannon_entropy
analyze_bytes-very_low_example = analyze_bytes-very_low float_sample path_sample wiped_sample refl

extract_ascii_strings-Runs_example :
    (rs : List Text) × Runs (codes "top secret" ++ (0 ∷ codes "key")) rs
    × (extract_ascii_strings (codes "top secret" ++ (0 ∷ codes "key")) 6 ≡ long_runs 6 rs)
extract_ascii_strings-Runs_example =
    extract_ascii_strings-Runs (codes "top secret" ++ (0 ∷ codes "key")) 6

best_mount-Chosen_example :
    Chosen system_sample path_sample mounts_sample
      (best_mount system_sample path_sample (none, 0) mounts_sample)
best_mount-Chosen_example = best_mount-Chosen system_sample path_sample mounts_sample

-- A path with a comma and a quote in it.
abbrev outcome_sample : ShredOutcome
outcome_sample = record {
  path = normal (codes "a,\"b") ∷ root_dir ∷ [];
  bytes_wiped = 9;
  passes_completed = 3;
  pattern = codes "zeros";
  duration_ms = 4;
  verification_entropy = none;
  storage_kind = codes "Unknown";
  overwrite_reliable = false;
  warnings = [];
}

read_row-csv_row_example :
    read_row 9 (csv_row float_sample outcome_sample)
    ≡ some (
        display outcome_sample.path
        ∷ decimal 9
        ∷ decimal 3
        ∷ codes "zeros"
        ∷ decimal 4
        ∷ []
        ∷ codes "Unknown"
        ∷ codes "false"
        ∷ decimal 0
        ∷ [])
unfolding name
read_row-csv_row_example =
    read_row-csv_row float_sample outcome_sample zeros (λ x. decimal-IsPlain x) refl
