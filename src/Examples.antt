-- ===== src/Examples.antt =====
-- Each theorem that has conditions, applied to an input that meets them, and runs of the code.
mod Logs
mod Recording
mod Vaults
mod Wiping
mod Shredding
mod Reopening
mod Detection
use secure_file_shredder_and.Base.{
  ℕ, suc, ◌+◌, ◌*◌, ◌%◌, ◌^◌, ◌==◌, ◌&&◌, ◌≡◌, ◌≤◌, ◌<◌, ◌↔◌, ◌⊎◌, refl, Bool, true, false, Option,
  none, some, List, [], ◌∷◌, ◌++◌, Bytes, codes, length, replicate, arith, All,
}
use secure_file_shredder_and.Io.Outcome.{Outcome, ok, err}
use secure_file_shredder_and.Io.Error.{SanitizerError}
use secure_file_shredder_and.Io.Path.{FilePath}
use secure_file_shredder_and.Io.Action.{file, World}
use secure_file_shredder_and.Io.Triple.{Triple}
use secure_file_shredder_and.Io.Files.Laws.{synced_contents}
use secure_file_shredder_and.Crypto.Rng.{secure_random_bytes}
use secure_file_shredder_and.Sanitize.Patterns.{
  custom, fill_pass, from_str, name, multi_random, dod_three_pass,
}
use secure_file_shredder_and.Sanitize.Patterns.Fill.{Filled, fill_pass-Triple}
use secure_file_shredder_and.Sanitize.Patterns.Names.{
  from_str-name, name_read, from_str-map_upper, map_upper,
}
use secure_file_shredder_and.Sanitize.Metadata.{sanitize_metadata_and_unlink}
use secure_file_shredder_and.Sanitize.Metadata.Laws.{
  Held, Kept, Unlinked, sanitize_metadata_and_unlink-Triple,
}
use secure_file_shredder_and.Sanitize.Engine.{Job, ShredOutcome, shred_file, pass_loop, chunk_loop}
use secure_file_shredder_and.Sanitize.Engine.Chunks.{
  Standing, Partial, ChunksPost, at_pos, chunk_loop-Triple,
}
use secure_file_shredder_and.Sanitize.Engine.Passes.{
  AfterPasses, PassesPost, InPlace, pass_loop-Triple,
}
use secure_file_shredder_and.Sanitize.Engine.Shred.{Shredded, Survives, job_of, shred_file-Triple}
use secure_file_shredder_and.Io.Action.{
  ◌>>=◌, map_err, ask, ignore, lift, pure, raise, record_event, try,
}
use secure_file_shredder_and.Io.Files.{
  metadata, syscall, open_write, seek, write_all, sync_all, update, contents, overwrite, read,
  remove_file, rename, set_len, resize, stat,
}
use secure_file_shredder_and.Io.Path.{Component-discrete, FilePath-discrete, display, join, parent}
use secure_file_shredder_and.Io.Float.{f64_lt}
use secure_file_shredder_and.Crypto.Rng.{secure_random_vec, shannon_entropy}
use secure_file_shredder_and.Sanitize.Engine.{
  is_cancelled, report_progress, end_pass, sync_pass, entropy_warnings, finish, measure_entropy,
  new_buffer, storage_warnings,
}
use secure_file_shredder_and.Sanitize.Metadata.{clear_timestamps, random_filename, rename_loop}
use secure_file_shredder_and.Sanitize.Patterns.{passes, fill_custom}
use secure_file_shredder_and.Storage.Info.{kind_text, overwrite_is_reliable}
use native.Mathlib.Decide.{ℕ_discrete}
use secure_file_shredder_and.Samples.{
  system_sample, fills_sample, tags_sample, path_sample, content_sample, disk_sample,
  options_sample, storage_sample,
}

abbrev job_sample : Job
job_sample = job_of path_sample options_sample false true content_sample

shred_file-Triple_example :
    Triple system_sample
      (λ d t. (d ≡ disk_sample) × (synced_contents t ≡ []))
      (shred_file path_sample options_sample storage_sample false true)
      (Shredded system_sample job_sample disk_sample [])
      (λ e. Survives system_sample job_sample disk_sample [])
unfolding disk_sample codes
shred_file-Triple_example =
    shred_file-Triple path_sample options_sample storage_sample false true disk_sample []
      content_sample fills_sample refl

pass_loop-Triple_example :
    Triple system_sample
      (AfterPasses fills_sample job_sample disk_sample [] 1)
      (pass_loop job_sample 2 1 1 3)
      (PassesPost fills_sample job_sample disk_sample [] 3 9)
      (λ e. InPlace fills_sample job_sample disk_sample [])
pass_loop-Triple_example =
    pass_loop-Triple fills_sample job_sample disk_sample [] 2 1 3 (omega arith)

-- The second chunk of two bytes and the rest of one, of a file of three bytes in chunks of two.
chunk_loop-Triple_example :
    Triple system_sample
      (Partial system_sample job_sample disk_sample [] 0 2 2)
      (chunk_loop job_sample 0 4 (at_pos job_sample 2) (0 ∷ 0 ∷ []) 1 2)
      (ChunksPost system_sample job_sample disk_sample [] 0 2 3)
      (λ e. Standing system_sample job_sample disk_sample [])
chunk_loop-Triple_example =
    chunk_loop-Triple fills_sample job_sample disk_sample [] 0 2 (omega arith) 4 1 2 2 (0 ∷ 0 ∷ [])
      refl (omega arith) refl (1, refl) (omega arith)

sanitize_metadata_and_unlink-Triple_example :
    Triple system_sample
      (Held fills_sample path_sample disk_sample content_sample [] path_sample)
      (sanitize_metadata_and_unlink path_sample true)
      (λ _. Unlinked fills_sample path_sample disk_sample content_sample [])
      (λ e. Kept fills_sample path_sample disk_sample content_sample [])
sanitize_metadata_and_unlink-Triple_example =
    sanitize_metadata_and_unlink-Triple fills_sample path_sample disk_sample content_sample [] true

abbrev pattern_sample : Bytes
pattern_sample = 1 ∷ 2 ∷ 3 ∷ []

fill_pass-Triple_example :
    Triple system_sample
      (λ d t. t ≡ [])
      (fill_pass (custom pattern_sample) (replicate 5 0) 0)
      (λ out d t.
        (t ≡ []) × ((length out ≡ 5) × Filled system_sample (custom pattern_sample) 0 out))
      (λ e d t. t ≡ [])
fill_pass-Triple_example =
    fill_pass-Triple (λ d t. t ≡ []) fills_sample (custom pattern_sample) (replicate 5 0) 0

from_str-name_example : from_str (λ s. s) (name (multi_random 12)) ≡ name_read (multi_random 12)
from_str-name_example = from_str-name (λ s. s) (multi_random 12) (omega arith)

from_str-map_upper_example :
    from_str (λ s. s) (map_upper (codes "nist-clear")) ≡ from_str (λ s. s) (codes "nist-clear")
unfolding codes
from_str-map_upper_example = from_str-map_upper (λ s. s) (codes "nist-clear") refl

abbrev is_ok : Outcome SanitizerError ShredOutcome → Bool
is_ok (ok o) = o.passes_completed == 3 && o.bytes_wiped == 9
is_ok _ = false

-- A run with no fault: three passes over three bytes, and the file is gone.
shred_file_run :
    let (r, w) =
      shred_file path_sample options_sample storage_sample false true system_sample
        (record { disk = disk_sample; now = 0; trace = [] }) in
    (is_ok r ≡ true) × (w.disk path_sample ≡ none)
unfolding shred_file pass_loop chunk_loop disk_sample codes fill_pass secure_random_bytes
    sanitize_metadata_and_unlink name ◌>>=◌ map_err ask ignore lift pure raise record_event try
    metadata syscall open_write seek write_all sync_all update contents overwrite read remove_file
    rename set_len resize stat Component-discrete FilePath-discrete display join parent f64_lt
    secure_random_vec shannon_entropy is_cancelled report_progress end_pass sync_pass
    entropy_warnings finish measure_entropy new_buffer storage_warnings clear_timestamps
    random_filename rename_loop passes fill_custom kind_text overwrite_is_reliable ℕ_discrete
shred_file_run = (refl, refl)
