-- ===== src/Sanitize/Engine.antt =====
-- sanitize/engine.rs: one file is overwritten pass by pass, checked, renamed and unlinked.
pub mod Sweep
pub mod Chunks
pub mod Passes
pub mod Shred
pub mod Ends
pub mod Success
use mathlib.Core.Option
use secure_file_shredder_and.Base.{
  ℕ, zero, suc, ◌+◌, ◌-◌, ◌*◌, ◌%◌, ◌^◌, min, max, Bool, true, false, not, ◌&&◌, Option, none, some,
  List, [], ◌∷◌, ◌++◌, Bytes, Text, codes, length, take, drop, replicate, ltb, ◌==◌, if◌then◌else◌,
}
use secure_file_shredder_and.Io.Outcome.{out_of_fuel}
use secure_file_shredder_and.Io.Path.{FilePath, display}
use secure_file_shredder_and.Io.Error.{SanitizerError, io, cancelled, config}
use secure_file_shredder_and.Io.Float.{F64, f64_lt, f64_7}
use secure_file_shredder_and.Io.Action.{
  Action, pure, raise, lift, ask, ◌>>=◌, ◌>>◌, map_err, try, record_event, progress,
}
use secure_file_shredder_and.Io.Files.{
  Handle, Metadata, metadata, read, open_write, seek, write_all, sync_all,
}
use secure_file_shredder_and.Crypto.Rng.{shannon_entropy}
use secure_file_shredder_and.Storage.Info.{StorageInfo, overwrite_is_reliable, kind_text}
use secure_file_shredder_and.Sanitize.Patterns.{
  OverwritePattern, single_random, multi_random, dod_three_pass, nist_purge, passes, fill_pass,
  name,
}
use secure_file_shredder_and.Sanitize.Metadata.{sanitize_metadata_and_unlink}

-- 1 MiB
abbrev pub chunk_size : ℕ
chunk_size = 1024 * 1024

pub record ShredOptions : Type 0 where
  pub pattern : OverwritePattern
  pub verify_passes : Bool
  pub sanitize_filename : Bool
  pub sync_each_pass : Bool

-- `ShredOptions::default()`
unfoldable pub default_options : ShredOptions
default_options = record {
  pattern = nist_purge;
  verify_passes = true;
  sanitize_filename = true;
  sync_each_pass = true;
}

pub record ShredOutcome : Type 0 where
  pub path : FilePath
  pub bytes_wiped : ℕ
  pub passes_completed : ℕ
  pub pattern : Text
  pub duration_ms : ℕ
  pub verification_entropy : Option F64
  pub storage_kind : Text
  pub overwrite_reliable : Bool
  pub warnings : List Text

-- `cancel.as_ref().map(|c| c.load(..)).unwrap_or(false)`; the flag says whether there is one.
unfoldable pub is_cancelled : Bool → Action SanitizerError Bool
is_cancelled cancel = ask (λ sys t. cancel && sys.os.cancel_requested t)

-- `fetch_add`, which wraps.
abbrev pub add_u64 : ℕ → ℕ → ℕ
add_u64 a b = (a + b) % 2 ^ 64

-- The call of the progress sink, if there is one.
unfoldable pub report_progress : Bool → ℕ → ℕ → ℕ → Action SanitizerError (Unit {0})
report_progress true done pass total = record_event (progress done pass total)
report_progress false done pass total = pure tt

-- What does not change during a call of `shred_file`.
pub record Job : Type 0 where
  pub path : FilePath
  pub options : ShredOptions
  pub has_cancel : Bool
  pub has_progress : Bool
  pub file_len : ℕ

abbrev pub total_passes : Job → ℕ
total_passes job = passes job.options.pattern

-- How the loop over the chunks ends: at the end of the file, or by `break 'passes`; with the count
-- of the bytes wiped.
pub data ChunksEnd : Type 0 where
  finished : Handle → ℕ → ChunksEnd
  interrupted : ℕ → ChunksEnd

-- `while remaining > 0`. Each round writes a byte at least, so `remaining < fuel` is enough.
unfoldable pub chunk_loop : Job → ℕ → ℕ → Handle → Bytes → ℕ → ℕ → Action SanitizerError ChunksEnd
chunk_loop job pass zero file buf remaining wiped = lift out_of_fuel
chunk_loop job pass (suc fuel) file buf zero wiped = pure (finished file wiped)
chunk_loop job pass (suc fuel) file buf (suc left) wiped = do
  let remaining = suc left
  stop ← is_cancelled job.has_cancel
  if stop then pure (interrupted wiped) else do
    let this_chunk = min remaining (length buf)
    chunk ← fill_pass job.options.pattern (take this_chunk buf) pass
    file ← map_err (io job.path) (write_all file chunk)
    let done = add_u64 wiped this_chunk
    report_progress job.has_progress done pass (total_passes job)
    chunk_loop job pass fuel file (chunk ++ drop this_chunk buf) (remaining - this_chunk) done

-- `vec![0u8; CHUNK_SIZE.min(file_len.max(1))]`
unfoldable pub new_buffer : ℕ → Bytes
new_buffer file_len = replicate (min chunk_size (max file_len 1)) 0

unfoldable pub sync_pass : Bool → FilePath → Handle → Action SanitizerError (Unit {0})
sync_pass true path file = map_err (io path) (sync_all file)
sync_pass false path file = pure tt

-- The end of a pass: `break 'passes`, or the sync and the rest of the loop.
unfoldable pub end_pass :
    Job → ℕ → (ℕ → Action SanitizerError (ℕ × ℕ)) → ChunksEnd → Action SanitizerError (ℕ × ℕ)
end_pass job completed rest (interrupted wiped) = pure (completed, wiped)
end_pass job completed rest (finished file wiped) = do
  sync_pass job.options.sync_each_pass job.path file
  rest wiped

-- `'passes: for pass in 0..total_passes`, by the passes left; it returns the passes completed and
-- the bytes wiped.
unfoldable pub pass_loop : Job → ℕ → ℕ → ℕ → ℕ → Action SanitizerError (ℕ × ℕ)
unfolding new_buffer
pass_loop job zero pass completed wiped = pure (completed, wiped)
pass_loop job (suc left) pass completed wiped = do
  stop ← is_cancelled job.has_cancel
  if stop then raise cancelled else do
    file ← map_err (io job.path) (open_write job.path)
    file ← map_err (io job.path) (seek file 0)
    let len = job.file_len
    end ← chunk_loop job pass (suc len) file (new_buffer len) len wiped
    end_pass job completed (λ w. pass_loop job left (pass + 1) (completed + 1) w) end

-- `matches!(options.pattern, ..)`
abbrev pub last_pass_is_random : OverwritePattern → Bool
last_pass_is_random single_random = true
last_pass_is_random (multi_random n) = true
last_pass_is_random dod_three_pass = true
last_pass_is_random nist_purge = true
last_pass_is_random _ = false

-- The entropy of the file after the last pass; a file that cannot be read has none.
unfoldable pub measure_entropy : Bool → FilePath → Action SanitizerError (Option F64)
measure_entropy false path = pure none
measure_entropy true path = do
  data' ← try {F = SanitizerError} (read path)
  ask (λ sys t. Option.map (shannon_entropy sys.float) data')

low_entropy_warning : Text → Text
low_entropy_warning entropy =
    codes "Post-overwrite entropy measured at "
    ++ (entropy
        ++ codes
            " bits/byte, lower than expected for a random pass; the filesystem may have redirected the write (copy-on-write) rather than overwriting in place.")

-- The warning on the measured entropy, if there is one.
unfoldable pub entropy_warnings : Job → Option F64 → (F64 → Text) → List Text
unfolding low_entropy_warning
entropy_warnings job none fixed = []
entropy_warnings job (some entropy) fixed =
    if last_pass_is_random job.options.pattern && f64_lt entropy f64_7 && ltb 4096 job.file_len
    then low_entropy_warning (fixed entropy) ∷ []
    else []

unreliable_warning : StorageInfo → Text
unreliable_warning storage =
    codes "Storage class '"
    ++ (kind_text storage.kind
        ++ codes
            "' does not guarantee overwrite reliability at the physical layer; consider crypto-erase or a native Sanitize/Secure Erase command in addition to this overwrite.")

unfoldable pub storage_warnings : StorageInfo → List Text
unfolding unreliable_warning
storage_warnings storage =
    (if overwrite_is_reliable storage then [] else unreliable_warning storage ∷ []) ++ storage.notes

not_a_file : FilePath → SanitizerError
not_a_file path = config (codes "'" ++ (display path ++ codes "' is not a regular file"))

-- What follows the passes: the entropy, the removal, the outcome.
unfoldable pub finish : Job → StorageInfo → ℕ → ℕ → ℕ → Action SanitizerError ShredOutcome
finish job storage start completed wiped = do
  let complete = completed == total_passes job
  entropy ← measure_entropy (job.options.verify_passes && complete) job.path
  more ← ask (λ sys t. entropy_warnings job entropy (sys.float.fixed 2))
  if not complete then raise cancelled else do
    sanitize_metadata_and_unlink job.path job.options.sanitize_filename
    duration ← ask (λ sys t. sys.os.millis t - start)
    pure (record {
      path = job.path;
      bytes_wiped = wiped;
      passes_completed = completed;
      pattern = name job.options.pattern;
      duration_ms = duration;
      verification_entropy = entropy;
      storage_kind = kind_text storage.kind;
      overwrite_reliable = overwrite_is_reliable storage;
      warnings = storage_warnings storage ++ more;
    })

-- `cancel` and `progress` say whether the caller gave one.
unfoldable pub shred_file :
    FilePath → ShredOptions → StorageInfo → Bool → Bool → Action SanitizerError ShredOutcome
unfolding not_a_file
shred_file path options storage cancel sink = do
  start ← ask (λ sys t. sys.os.millis t)
  m ← map_err (io path) (metadata path)
  if not m.is_file then raise (not_a_file path) else do
    let job : Job = record {
      path = path;
      options = options;
      has_cancel = cancel;
      has_progress = sink;
      file_len = m.len;
    }
    (completed, wiped) ← pass_loop job (total_passes job) 0 0 0
    finish job storage start completed wiped
