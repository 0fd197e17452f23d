-- ===== src/Examples/Wiping.antt =====
-- The command `wipe` on /tmp/a, with a log at /log that is not there yet.
use secure_file_shredder_and.Base.{
  ◌≡◌, ◌≢◌, refl, ap, arith, false, true, some, [], ◌∷◌, codes, length, lines, inr, bytes_eq,
  to_lowercase,
}
use secure_file_shredder_and.Io.Outcome.{ok}
use secure_file_shredder_and.Io.Path.{FilePath, root_dir, normal, parent, join}
use secure_file_shredder_and.Io.Triple.{Triple}
use secure_file_shredder_and.Audit.{AuditLog, genesis_hash, replay_lines, replay_content}
use secure_file_shredder_and.Sanitize.Patterns.{dod_three_pass, from_str}
use secure_file_shredder_and.Sanitize.Metadata.Laws.{IsRandomName}
use secure_file_shredder_and.Cli.{DetailsJson, wipe}
use secure_file_shredder_and.Cli.Wipe.{Recorded, Failed, wipe-Triple}
use secure_file_shredder_and.Samples.{
  system_sample, fills_sample, key_sample, path_sample, disk_sample, content_sample,
}
use secure_file_shredder_and.Samples.Printing.{
  line_json, line_json-PrintsLines, line_json-ReadsBack,
}

abbrev far_log_sample : AuditLog
far_log_sample = record {
  path = normal (codes "log") ∷ root_dir ∷ [];
  hmac_key = key_sample;
  last_hash = genesis_hash;
  next_sequence = 0;
  encrypt_at_rest = false;
}

abbrev values_sample : DetailsJson
values_sample = record {
  of_outcome = λ o. ok (codes "{}");
  of_counts = λ processed failed bytes. codes "{}";
  of_entry = λ entry_id sha256. entry_id;
  empty = codes "{}";
}

-- The log is one directory above the file.
far_log_unnamed :
    (dir : FilePath)
    → parent path_sample ≡ some dir
    → ¬ IsRandomName system_sample dir far_log_sample.path
unfolding parent join
far_log_unnamed dir e (bytes, r) =
    let same : normal (codes "tmp") ∷ root_dir ∷ [] ≡ dir = cc in
    let short : length far_log_sample.path ≡ length (normal bytes ∷ dir) = ap length r in
    let long : length (normal (codes "tmp") ∷ root_dir ∷ []) ≡ length dir = ap length same in
    absurd (omega (arith, short, long))

far_log_other : path_sample ≢ far_log_sample.path
far_log_other e =
    let l : length path_sample ≡ length far_log_sample.path = ap length e in
    absurd (omega (arith, l))

far_log_replay : replay_content system_sample line_json key_sample false [] ≡ ok (genesis_hash, 0)
unfolding replay_content replay_lines lines
far_log_replay = refl

wipe-Triple_example :
    Triple system_sample
      (λ d t. d ≡ disk_sample)
      (wipe line_json values_sample far_log_sample path_sample (codes "dod") true)
      (Recorded system_sample line_json far_log_sample [] path_sample true)
      (Failed far_log_sample [] path_sample (length content_sample))
unfolding codes from_str disk_sample bytes_eq to_lowercase
wipe-Triple_example =
    wipe-Triple fills_sample line_json values_sample line_json-PrintsLines far_log_sample [] refl
      refl far_log_replay path_sample (codes "dod") true dod_three_pass content_sample disk_sample
      refl (λ o. tt) (λ o details e f. line_json-ReadsBack details) refl (inr (refl, refl))
      far_log_other far_log_unnamed
