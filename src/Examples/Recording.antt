-- ===== src/Examples/Recording.antt =====
-- `record` on a log that is not there yet.
use secure_file_shredder_and.Base.{◌≡◌, refl, false, [], codes, lines}
use secure_file_shredder_and.Io.Triple.{Triple}
use secure_file_shredder_and.Audit.{AuditLog, genesis_hash, replay_lines, replay_content}
use secure_file_shredder_and.Audit.Record.{record_entry}
use secure_file_shredder_and.Audit.Record.Laws.{HasContent, Extended, InStep, record_entry-Triple}
use secure_file_shredder_and.Samples.{system_sample, key_sample, path_sample}
use secure_file_shredder_and.Samples.Printing.{
  line_json, line_json-PrintsLines, line_json-ReadsBack,
}

abbrev log_sample : AuditLog
log_sample = record {
  path = path_sample;
  hmac_key = key_sample;
  last_hash = genesis_hash;
  next_sequence = 0;
  encrypt_at_rest = false;
}

record_entry-Triple_example :
    Triple system_sample
      (λ d t. HasContent path_sample [] d)
      (record_entry line_json log_sample (codes "wipe") (codes "/tmp/a|b") (codes "{}"))
      (λ log' d t.
        InStep system_sample line_json log' d
        × (log'.next_sequence ≡ 1)
        × Extended path_sample [] d t)
      (λ e. Extended path_sample [])
unfolding replay_content replay_lines lines
record_entry-Triple_example =
    record_entry-Triple line_json log_sample (codes "wipe") (codes "/tmp/a|b") (codes "{}") []
      line_json-PrintsLines (line_json-ReadsBack (codes "{}")) refl refl refl
