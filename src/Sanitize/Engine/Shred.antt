-- ===== src/Sanitize/Engine/Shred.antt =====
-- `shred_file` as a whole: what a success has done, and what every error leaves.
use secure_file_shredder_and.Base.{
  ℕ, ◌+◌, ◌*◌, ◌%◌, ◌^◌, ◌<◌, ◌≡◌, inl, refl, sym, ap, ◌∙◌, Bool, true, false, none, some, List, [],
  ◌∷◌, Bytes, length, arith, ◌==◌, ==_iff,
}
use secure_file_shredder_and.Io.Path.{FilePath}
use secure_file_shredder_and.Io.Error.{SanitizerError}
use secure_file_shredder_and.Io.System.{System}
use secure_file_shredder_and.Io.Action.{file, Disk, Event, removed, ◌>>=◌}
use secure_file_shredder_and.Io.Triple.{
  Assertion, Triple, Triple-pure, Triple-raise, Triple-ask, Triple-bind, Triple-map_err, Triple-try,
  Triple-given, Triple-exists, Triple-or, Triple-pre, Triple-weaken,
}
use secure_file_shredder_and.Io.Files.Laws.{
  stat_file, metadata-Triple, read-Triple, synced_contents, data_events,
  synced_contents-data_events,
}
use secure_file_shredder_and.Crypto.Rng.Laws.{FillsBuffers}
use secure_file_shredder_and.Storage.Info.{StorageInfo}
use secure_file_shredder_and.Sanitize.Metadata.Laws.{
  Placed, Untouched, Held, Kept, Unlinked, sanitize_metadata_and_unlink-Triple,
}
use secure_file_shredder_and.Sanitize.Engine.{
  Job, ShredOptions, ShredOutcome, total_passes, measure_entropy, finish, pass_loop, shred_file,
}
use secure_file_shredder_and.Sanitize.Engine.Sweep.{Swept, no_pass}
use secure_file_shredder_and.Sanitize.Engine.Chunks.{Standing}
use secure_file_shredder_and.Sanitize.Engine.Passes.{
  Synced, LastPass, AfterPasses, InPlace, PassesPost, pass_loop-Triple,
}

module _ (sys : System) (job : Job) (d₀ : Disk) (s₀ : List (FilePath × Bytes)) where
  -- A shredded file: the name at which it was unlinked, and what it held then.
  pub record Shredded (o : ShredOutcome) (d : Disk) (t : List Event) : Type 0 where
    pub name : FilePath
    pub content : Bytes
    pub before : List Event
    pub unlinked : t ≡ removed name content ∷ before
    -- it held what the last pass had left, as long as the file was
    pub long : length content ≡ job.file_len
    pub overwritten : LastPass job (total_passes job) content
    -- chunk by chunk each pass was put over the whole file, and synced at once if passes are synced;
    -- the last one put what the file held
    pub swept : Swept sys job (total_passes job) content [] (data_events before)
    -- each pass was made durable in turn
    pub durable :
        job.options.sync_each_pass ≡ true
        → Synced job s₀ (total_passes job) (synced_contents before)
    -- the path is empty, and no other path has changed but for random names beside it
    pub gone : d job.path ≡ none
    pub others : Untouched sys job.path d₀ d
    pub all_passes : o.passes_completed ≡ total_passes job
    pub unmeasured : job.options.verify_passes ≡ false → o.verification_entropy ≡ none
    pub all_bytes : o.bytes_wiped ≡ (total_passes job * job.file_len) % 2 ^ 64

  -- A file of the same length is still there.
  pub record Survives (d : Disk) (t : List Event) : Type 0 where
    pub name : FilePath
    -- its path, or a random name beside it
    pub placed : Placed sys job.path name
    pub content : Bytes
    pub here : d name ≡ some (file content)
    pub long : length content ≡ job.file_len
    pub others : Untouched sys job.path d₀ d

module _ {sys : System} (fills : FillsBuffers sys) (job : Job) (d₀ : Disk)
    (s₀ : List (FilePath × Bytes)) where
  Standing-Survives :
      (s : List (FilePath × Bytes)) (d : Disk) (t : List Event)
      → Standing sys job d₀ s d t
      → Survives sys job d₀ s₀ d t
  Standing-Survives s d t h = record {
    name = job.path;
    placed = inl refl;
    content = h.content;
    here = h.here;
    long = h.long;
    others = λ q ne _. h.others q ne;
  }

  measure_entropy-Triple :
      {R : SanitizerError → Assertion} (P : Assertion) (on : Bool)
      → Triple sys P
          (measure_entropy on job.path)
          (λ entropy d t. P d t × (on ≡ false → entropy ≡ none))
          R
  unfolding measure_entropy
  measure_entropy-Triple P false = Triple-pure _ (λ d t h. (h, λ e. refl))
  measure_entropy-Triple P true =
      Triple-bind {S = λ _. P}
        (Triple-try (
          Triple-weaken (read-Triple {P = P} {R = λ _. P} job.path (λ e d t h. h)) (λ d t h. h)
            (λ b d t h. h.0) (λ e d t h. h)))
        λ _. Triple-ask _ (λ n d t h. (h, λ e. absurd (cc e)))

  -- What is known before the removal.
  abbrev Ready : List Event → Bytes → Assertion
  Ready s b d t =
      Held fills job.path d₀ b s job.path d t
      × (length b ≡ job.file_len)
      × LastPass job (total_passes job) b
      × (job.options.sync_each_pass ≡ true → Synced job s₀ (total_passes job) (synced_contents s))
      × Swept sys job (total_passes job) b [] s

  ready :
      (d : Disk) (t : List Event)
      → AfterPasses fills job d₀ s₀ (total_passes job) d t
      → (s : List Event) × ((b : Bytes) × Ready s b d t)
  ready d t (s, h) =
      let held : Held fills job.path d₀ h.content (data_events t) job.path d t = record {
        here = h.here;
        moved_away = inl refl;
        others = λ q ne _. h.others q ne;
        same_data = refl;
      } in
      (
        data_events t,
        (
          h.content,
          (held, h.long, h.last, (λ on. rw (durable_now h.durable) (h.in_order on)), h.swept),
        ),
      )
    where
      durable_now :
          {s : List (FilePath × Bytes)}
          → synced_contents t ≡ s
          → synced_contents (data_events t) ≡ s
      durable_now e = synced_contents-data_events t ∙ e

  Kept-Survives :
      (s : List Event) (b : Bytes) (d : Disk) (t : List Event)
      → length b ≡ job.file_len
      → Kept fills job.path d₀ b s d t
      → Survives sys job d₀ s₀ d t
  Kept-Survives s b d t l (q, h, placed) = record {
    name = q;
    placed = placed;
    content = b;
    here = h.here;
    long = l;
    others = h.others;
  }

  Unlinked-Shredded :
      (s : List Event) (b : Bytes) (o : ShredOutcome) (d : Disk) (t : List Event)
      → length b ≡ job.file_len
      → LastPass job (total_passes job) b
      → (job.options.sync_each_pass ≡ true → Synced job s₀ (total_passes job) (synced_contents s))
      → Swept sys job (total_passes job) b [] s
      → (job.options.verify_passes ≡ false → o.verification_entropy ≡ none)
      → o.passes_completed ≡ total_passes job
      → o.bytes_wiped ≡ (total_passes job * job.file_len) % 2 ^ 64
      → Unlinked fills job.path d₀ b s d t
      → Shredded sys job d₀ s₀ o d t
  Unlinked-Shredded s b o d t l last sync swept unmeasured n w
        (q, before, removal, same, gone, others) =
      record {
        name = q;
        content = b;
        before = before;
        unlinked = removal;
        long = l;
        overwritten = last;
        swept = rw same swept;
        durable =
            λ on. rw (sym (synced_contents-data_events before) ∙ ap synced_contents same) (sync on);
        gone = gone;
        others = others;
        all_passes = n;
        unmeasured = unmeasured;
        all_bytes = w;
      }

  -- The passes are complete.
  complete-Triple :
      (storage : StorageInfo) (start wiped : ℕ)
      → wiped ≡ (total_passes job * job.file_len) % 2 ^ 64
      → Triple sys
          (AfterPasses fills job d₀ s₀ (total_passes job))
          (finish job storage start (total_passes job) wiped)
          (Shredded sys job d₀ s₀)
          (λ e. Survives sys job d₀ s₀)
  unfolding finish
  complete-Triple storage start wiped w = rw same (
      Triple-pre
        (Triple-exists λ s. Triple-exists λ b. Triple-given λ d t known.
          Triple-bind (measure_entropy-Triple (Ready s b) _) λ entropy.
            Triple-given λ d t (_, none_asked).
              Triple-bind {S = λ _. Ready s b} (Triple-ask _ (λ n d t h. h.0)) λ more.
                Triple-bind {S = λ _. Unlinked fills job.path d₀ b s}
                  (Triple-weaken
                    (sanitize_metadata_and_unlink-Triple fills job.path d₀ b s
                      job.options.sanitize_filename)
                    (λ d t h. h.0) (λ o d t h. h) (λ e d t h. Kept-Survives s b d t known.1 h))
                  λ _.
                    Triple-bind {S = λ _. Unlinked fills job.path d₀ b s}
                      (Triple-ask _ (λ n d t h. h))
                      λ duration. Triple-pure _ (λ d t h.
                        Unlinked-Shredded s b _ d t known.1 known.2 known.3 known.4
                          (λ off. none_asked (rw off refl)) refl w h))
        ready)
    where
      same : (total_passes job == total_passes job) ≡ true
      same = (==_iff _ _).1 refl

  -- A pass was left out.
  cancelled-Triple :
      (storage : StorageInfo) (start completed wiped : ℕ)
      → completed < total_passes job
      → Triple sys
          (InPlace fills job d₀ s₀)
          (finish job storage start completed wiped)
          (Shredded sys job d₀ s₀)
          (λ e. Survives sys job d₀ s₀)
  unfolding finish
  cancelled-Triple storage start completed wiped l =
      let P = InPlace fills job d₀ s₀ in
      rw incomplete (
        Triple-bind (measure_entropy-Triple P _) λ entropy.
          Triple-bind {S = λ _. P} (Triple-ask _ (λ n d t h. h.0))
            λ more. Triple-raise _ (λ d t h. Standing-Survives h.0 d t h.1))
    where
      incomplete : (completed == total_passes job) ≡ false
      incomplete = ground arith

  finish-Triple :
      (storage : StorageInfo) (start : ℕ) (r : ℕ × ℕ)
      → Triple sys
          (PassesPost fills job d₀ s₀
            (total_passes job)
            ((total_passes job * job.file_len) % 2 ^ 64)
            r)
          (finish job storage start r.0 r.1)
          (Shredded sys job d₀ s₀)
          (λ e. Survives sys job d₀ s₀)
  finish-Triple storage start r =
      Triple-or
        (Triple-given
          λ d t h. rw h.0 (Triple-pre (complete-Triple storage start r.1 h.1) (λ d t h. h.2)))
        (Triple-given
          λ d t h. Triple-pre (cancelled-Triple storage start r.0 r.1 h.0) (λ d t h. h.2))

  run-Triple :
      (storage : StorageInfo) (start : ℕ)
      → Triple sys
          (AfterPasses fills job d₀ s₀ 0)
          (pass_loop job (total_passes job) 0 0 0 >>= λ r. finish job storage start r.0 r.1)
          (Shredded sys job d₀ s₀)
          (λ e. Survives sys job d₀ s₀)
  run-Triple storage start =
      Triple-bind
        (Triple-weaken (pass_loop-Triple fills job d₀ s₀ (total_passes job) 0 0 (omega arith))
          (λ d t h. h) (λ r d t h. counted r d t h) (λ e d t h. Standing-Survives h.0 d t h.1))
        λ r. finish-Triple storage start r
    where
      all : 0 + total_passes job ≡ total_passes job
      all = omega arith

      bytes : 0 + total_passes job * job.file_len ≡ total_passes job * job.file_len
      bytes = omega arith

      counted :
          (r : ℕ × ℕ) (d : Disk) (t : List Event)
          → PassesPost fills job d₀ s₀
              (0 + total_passes job)
              ((0 + total_passes job * job.file_len) % 2 ^ 64)
              r
              d
              t
          → PassesPost fills job d₀ s₀
              (total_passes job)
              ((total_passes job * job.file_len) % 2 ^ 64)
              r
              d
              t
      counted r d t h = rw (all, bytes) at h

-- The job of a call of `shred_file` on a file with content `b`.
abbrev pub job_of : FilePath → ShredOptions → Bool → Bool → Bytes → Job
job_of path options cancel sink b = record {
  path = path;
  options = options;
  has_cancel = cancel;
  has_progress = sink;
  file_len = length b;
}

-- On a file, with random sources that fill a buffer to its length, and otherwise whatever the system
-- answers, `shred_file` ends without a panic. On success every pass
-- of the pattern was put over the whole file and made durable in turn (if each is synced), the file
-- was then unlinked, its path is empty, and the outcome counts all passes and, modulo 2^64, all
-- bytes. On any error a file of the same length is still there. Other paths keep what they held,
-- but for random names in the same directory.
pub shred_file-Triple :
    {sys : System} (path : FilePath) (options : ShredOptions) (storage : StorageInfo)
    (cancel sink : Bool) (d₀ : Disk) (s₀ : List (FilePath × Bytes)) (b : Bytes)
    → FillsBuffers sys
    → d₀ path ≡ some (file b)
    → let job = job_of path options cancel sink b in
      Triple sys
        (λ d t. (d ≡ d₀) × (synced_contents t ≡ s₀))
        (shred_file path options storage cancel sink)
        (Shredded sys job d₀ s₀)
        (λ e. Survives sys job d₀ s₀)
unfolding shred_file
shred_file-Triple {sys} path options storage cancel sink d₀ s₀ b fills there =
    Triple-bind {S = λ _. P} (Triple-ask _ (λ n d t h. h)) λ start.
      Triple-bind (Triple-map_err _ (metadata-Triple path (λ e d t h. untouched d t h))) λ m.
        Triple-given λ d t h.
          rw (stat_file m (ap (λ (f : Disk). f path) h.0.0 ∙ there) h.1)
            (Triple-pre (run-Triple fills job d₀ s₀ storage start) (λ d t h. begun d t h.0))
  where
    job : Job
    job = job_of path options cancel sink b

    P : Assertion
    P d t = (d ≡ d₀) × (synced_contents t ≡ s₀)

    standing : (d : Disk) (t : List Event) → P d t → Standing sys job d₀ s₀ d t
    standing d t h = record {
      content = b;
      here = ap (λ (f : Disk). f path) h.0 ∙ there;
      long = refl;
      others = λ q _. ap (λ (f : Disk). f q) h.0;
      durable = h.1;
    }

    untouched : (d : Disk) (t : List Event) → P d t → Survives sys job d₀ s₀ d t
    untouched d t h = Standing-Survives fills job d₀ s₀ s₀ d t (standing d t h)

    begun : (d : Disk) (t : List Event) → P d t → AfterPasses fills job d₀ s₀ 0 d t
    begun d t h =
        (s₀, record { standing = standing d t h; in_order = λ _. refl; last = tt; swept = no_pass })
