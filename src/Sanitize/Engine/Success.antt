-- ===== src/Sanitize/Engine/Success.antt =====
-- `shred_file` where the system refuses nothing and nobody cancels.
use secure_file_shredder_and.Base.{
  ℕ, zero, suc, ◌+◌, ◌≡◌, refl, sym, ◌∙◌, Bool, true, false, ◌&&◌, none, some, List, Bytes, arith,
  ==_iff,
}
use secure_file_shredder_and.Io.Path.{FilePath, parent}
use secure_file_shredder_and.Io.System.{System}
use secure_file_shredder_and.Io.Action.{file, Disk, ◌>>=◌}
use secure_file_shredder_and.Io.Triple.{Triple, Triple-weaken}
use secure_file_shredder_and.Io.Files.{Handle}
use secure_file_shredder_and.Io.Files.Laws.{synced_contents}
use secure_file_shredder_and.Io.Quiet.{
  IsQuiet, NoError, NoError-pure, NoError-ask, NoError-given, NoError-pre, NoError-post,
  NoError-spent, NoError-bind, NoError-map_err, NoError-try, NoError-event, NoError-Triple,
}
use secure_file_shredder_and.Io.Quiet.Calls.{
  NoError-metadata, NoError-open_write, NoError-sync_all, NoError-write_all, NoError-seek,
  NoError-read,
}
use secure_file_shredder_and.Crypto.Rng.Laws.{FillsBuffers}
use secure_file_shredder_and.Storage.Info.{StorageInfo}
use secure_file_shredder_and.Sanitize.Patterns.Success.{fill_pass-NoError}
use secure_file_shredder_and.Sanitize.Metadata.Success.{
  IsFree, IsReady, IsReady-update, sanitize_metadata_and_unlink-NoError,
}
use secure_file_shredder_and.Sanitize.Engine.Shred.{job_of, Shredded, shred_file-Triple}
use secure_file_shredder_and.Sanitize.Engine.{
  Job, ShredOptions, ChunksEnd, finished, interrupted, is_cancelled, report_progress, chunk_loop,
  sync_pass, end_pass, pass_loop, measure_entropy, finish, shred_file, total_passes, new_buffer,
}

module _ {sys : System} (quiet : IsQuiet sys) (folder : FilePath) (job : Job) where
  abbrev I : Disk → Type 0
  I d = IsReady sys folder job.path d

  is_cancelled-NoError :
      (cancel : Bool)
      → NoError sys (λ d t. I d) (is_cancelled cancel) (λ stop d t. I d × (stop ≡ false))
  unfolding is_cancelled
  is_cancelled-NoError cancel = NoError-ask _ (λ n d t i. (i, nobody cancel n))
    where
      nobody : (c : Bool) (n : ℕ) → (c && sys.os.cancel_requested n) ≡ false
      nobody true n = quiet.not_cancelled n
      nobody false n = refl

  report-NoError :
      (on : Bool) (done pass total : ℕ)
      → NoError sys (λ d t. I d) (report_progress on done pass total) (λ u d t. I d)
  unfolding report_progress
  report-NoError true done pass total = NoError-event _ (λ d t i. i)
  report-NoError false done pass total = NoError-pure tt (λ d t i. i)

  -- A loop over the chunks that comes to the end of the file.
  abbrev Finished : ChunksEnd → Type 0
  Finished (finished h w) = Unit
  Finished (interrupted w) = ⊥

  chunk_loop-NoError :
      (pass fuel : ℕ) (h : Handle) (buf : Bytes) (remaining wiped : ℕ)
      → h.path ≡ job.path
      → NoError sys
          (λ d t. I d)
          (chunk_loop job pass fuel h buf remaining wiped)
          (λ end d t. I d × Finished end)
  unfolding chunk_loop
  chunk_loop-NoError pass zero h buf remaining wiped e = NoError-spent
  chunk_loop-NoError pass (suc fuel) h buf zero wiped e = NoError-pure _ (λ d t i. (i, tt))
  chunk_loop-NoError pass (suc fuel) h buf (suc left) wiped e =
      NoError-bind (is_cancelled-NoError job.has_cancel) λ stop. NoError-given λ d t (_, s). rw s (
        NoError-bind {S = λ chunk d t. I d}
          (NoError-pre (fill_pass-NoError quiet I job.options.pattern _ pass) (λ d t h. h.0))
          λ chunk.
            NoError-bind
              (NoError-map_err _ (
                NoError-write_all quiet {I = I} job.path (λ d h. h.0) h chunk e
                  (λ d b i. IsReady-update sys folder job.path d b i)))
              λ k. NoError-given λ d t (_, f).
                NoError-bind {S = λ u d t. I d}
                  (NoError-pre (report-NoError job.has_progress _ pass _) (λ d t h. h.0))
                  λ u. chunk_loop-NoError pass fuel k _ _ _ f)

  sync_pass-NoError :
      (on : Bool) (h : Handle) → NoError sys (λ d t. I d) (sync_pass on job.path h) (λ u d t. I d)
  unfolding sync_pass
  sync_pass-NoError true h =
      NoError-map_err _ (NoError-sync_all quiet {I = I} job.path (λ d h. h.0) h)
  sync_pass-NoError false h = NoError-pure tt (λ d t i. i)

  pass_loop-NoError :
      (left pass completed wiped : ℕ)
      → NoError sys
          (λ d t. I d)
          (pass_loop job left pass completed wiped)
          (λ r d t. I d × (r.0 ≡ completed + left))
  unfolding pass_loop
  pass_loop-NoError zero pass completed wiped = NoError-pure _ (λ d t i. (i, omega arith))
  pass_loop-NoError (suc left) pass completed wiped =
      NoError-bind (is_cancelled-NoError job.has_cancel) λ stop. NoError-given λ d t (_, s). rw s (
        NoError-bind
          (NoError-map_err _
            (NoError-pre (NoError-open_write quiet {I = I} job.path (λ d h. h.0)) (λ d t h. h.0)))
          λ h. NoError-given λ d t (_, e).
            NoError-bind
              (NoError-map_err _ (NoError-pre (NoError-seek quiet {I = I} h 0) (λ d t h. h.0)))
              λ k. NoError-given λ d t (_, f).
                NoError-bind
                  (NoError-pre
                    (chunk_loop-NoError pass (suc job.file_len) k (new_buffer job.file_len)
                      job.file_len wiped (f ∙ e))
                    (λ d t h. h.0))
                  λ end. NoError-given λ d t (_, done).
                    NoError-pre
                      (at_end end done (λ w. pass_loop-NoError left (pass + 1) (completed + 1) w))
                      (λ d t h. h.0))
    where
      at_end :
          (end : ChunksEnd)
          → Finished end
          → ((w : ℕ)
              → NoError sys
                  (λ d t. I d)
                  (pass_loop job left (pass + 1) (completed + 1) w)
                  (λ r d t. I d × (r.0 ≡ completed + 1 + left)))
          → NoError sys
              (λ d t. I d)
              (end_pass job completed (λ w. pass_loop job left (pass + 1) (completed + 1) w) end)
              (λ r d t. I d × (r.0 ≡ completed + suc left))
      at_end (interrupted w) done rest = elim done [ ]
      at_end (finished h w) done rest =
          unfold end_pass in
          NoError-bind {S = λ u d t. I d} (sync_pass-NoError job.options.sync_each_pass h)
            λ u. NoError-post (rest w) (λ r d t h. (h.0, omega (arith, h.1)))

  measure_entropy-NoError :
      (on : Bool) → NoError sys (λ d t. I d) (measure_entropy on job.path) (λ o d t. I d)
  unfolding measure_entropy
  measure_entropy-NoError false = NoError-pure none (λ d t i. i)
  measure_entropy-NoError true =
      NoError-bind {S = λ o d t. I d}
        (NoError-try (NoError-read quiet {I = I} job.path (λ d h. h.0)))
        λ o. NoError-ask _ (λ n d t i. i)

  finish-NoError :
      (storage : StorageInfo) (start completed wiped : ℕ)
      → parent job.path ≡ some folder
      → completed ≡ total_passes job
      → NoError sys (λ d t. I d) (finish job storage start completed wiped) (λ o d t. Unit)
  unfolding finish
  finish-NoError storage start completed wiped up e = rw ((==_iff _ _).1 e) (
      NoError-bind {S = λ o d t. I d} (measure_entropy-NoError (job.options.verify_passes && true))
        λ entropy. NoError-bind {S = λ o d t. I d} (NoError-ask _ (λ n d t i. i)) λ more.
          NoError-bind {S = λ u d t. Unit}
            (sanitize_metadata_and_unlink-NoError quiet folder job.path
              job.options.sanitize_filename up)
            λ u.
              NoError-bind {S = λ n d t. Unit} (NoError-ask _ (λ n d t i. i))
                λ n. NoError-pure _ (λ d t i. i))

  run-NoError :
      (storage : StorageInfo) (start : ℕ)
      → parent job.path ≡ some folder
      → NoError sys
          (λ d t. I d)
          (pass_loop job (total_passes job) 0 0 0 >>= λ r. finish job storage start r.0 r.1)
          (λ o d t. Unit)
  run-NoError storage start up = NoError-bind (pass_loop-NoError (total_passes job) 0 0 0) λ r.
      NoError-given λ d t (_, e).
        NoError-pre (finish-NoError storage start r.0 r.1 up (omega (arith, e))) (λ d t h. h.0)

shred_file-NoError :
    {sys : System} (quiet : IsQuiet sys) (folder path : FilePath) (options : ShredOptions)
    (storage : StorageInfo) (cancel sink : Bool)
    → parent path ≡ some folder
    → NoError sys
        (λ d t. IsReady sys folder path d)
        (shred_file path options storage cancel sink)
        (λ o d t. Unit)
unfolding shred_file
shred_file-NoError {sys} quiet folder path options storage cancel sink up =
    NoError-bind {S = λ n d t. I d} (NoError-ask _ (λ n d t i. i)) λ start.
      NoError-bind (NoError-map_err _ (NoError-metadata quiet {I = I} path (λ d h. h.0))) λ m.
        NoError-given λ d t (_, e). rw e (
          NoError-pre
            (run-NoError quiet folder
              (record {
                path = path;
                options = options;
                has_cancel = cancel;
                has_progress = sink;
                file_len = m.len;
              })
              storage start up)
            (λ d t h. h.0))
  where
    I : Disk → Type 0
    I d = IsReady sys folder path d

-- Where no system call fails, nobody cancels, the random sources answer and fill each buffer to its
-- length, and no directory has a name that the renames may give, `shred_file` ends with a success
-- on each file that has a parent: every pass was put over the whole file and made durable in turn
-- (if each is synced), the file was unlinked and its path is empty, and the outcome counts all
-- passes and, modulo 2^64, all bytes.
pub shred_file-Shredded :
    {sys : System} (path folder : FilePath) (options : ShredOptions) (storage : StorageInfo)
    (cancel sink : Bool) (d₀ : Disk) (s₀ : List (FilePath × Bytes)) (b : Bytes)
    → IsQuiet sys
    → FillsBuffers sys
    → d₀ path ≡ some (file b)
    → parent path ≡ some folder
    → IsFree sys folder d₀
    → Triple sys
        (λ d t. (d ≡ d₀) × (synced_contents t ≡ s₀))
        (shred_file path options storage cancel sink)
        (Shredded sys (job_of path options cancel sink b) d₀ s₀)
        (λ e d t. ⊥)
shred_file-Shredded {sys} path folder options storage cancel sink d₀ s₀ b quiet fills there up
      free =
    Triple-weaken
      (NoError-Triple (shred_file-Triple path options storage cancel sink d₀ s₀ b fills there)
        (shred_file-NoError quiet folder path options storage cancel sink up))
      (λ d t h. (h, ready d (sym h.0))) (λ o d t h. h.0) (λ e d t h. h)
  where
    ready : (d : Disk) → d₀ ≡ d → IsReady sys folder path d
    ready d e = rw (← e) ((b, there), free)
