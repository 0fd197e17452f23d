-- ===== src/Sanitize/Directory/Laws.antt =====
-- `shred_directory`: a run over a tree and its summary.
use secure_file_shredder_and.Base.{
  ℕ, ◌+◌, ◌%◌, ◌^◌, ◌≤◌, ◌≡◌, refl, Bool, true, false, not, Option, none, some, List, [], ◌∷◌, ◌++◌,
  Text, codes, length, length-append, arith,
}
use secure_file_shredder_and.Io.Outcome.{Outcome, ok, err, panic, out_of_fuel}
use secure_file_shredder_and.Io.Path.{FilePath}
use secure_file_shredder_and.Io.Error.{SanitizerError, config}
use secure_file_shredder_and.Io.System.{System}
use secure_file_shredder_and.Io.Action.{World, Action, lift}
use secure_file_shredder_and.Io.Returns.{Returns, Triple-lift}
use secure_file_shredder_and.Io.Triple.{
  Assertion, Post, Triple, Triple-ask, Triple-bind, Triple-event, Triple-given, Triple-if,
  Triple-ignore, Triple-pure, Triple-raise, Triple-weaken,
}
use secure_file_shredder_and.Io.Folders.{is_folder}
use secure_file_shredder_and.Io.Folders.Laws.{look-Triple, remove_dir-Triple}
use secure_file_shredder_and.Crypto.Rng.Laws.{FillsBuffers}
use secure_file_shredder_and.Storage.Device.Laws.{detect_storage_for_path-Triple}
use secure_file_shredder_and.Sanitize.Engine.{ShredOptions, ShredOutcome, is_cancelled}
use secure_file_shredder_and.Sanitize.Engine.Ends.{shred_file_ends}
use secure_file_shredder_and.Sanitize.Directory.{
  DirectoryShredSummary, no_summary, attempt, result_of, tally_result, report_done, shred_files,
  remove_dirs, shred_directory, walked_files, built,
}

-- `.sum()` of the bytes, without bound.
unfoldable pub all_bytes : List ShredOutcome → ℕ
all_bytes [] = 0
all_bytes (o ∷ outcomes) = o.bytes_wiped + all_bytes outcomes

all_bytes-append :
    (xs : List ShredOutcome) (o : ShredOutcome)
    → all_bytes (xs ++ (o ∷ [])) ≡ all_bytes xs + o.bytes_wiped
unfolding all_bytes
all_bytes-append [] o = omega arith
all_bytes-append (x ∷ xs) o = omega (arith, all_bytes-append xs o)

-- The counters of a summary agree with its lists.
pub record IsTallied (s : DirectoryShredSummary) : Type 0 where
  pub processed : s.files_processed ≡ length s.outcomes
  pub failed : s.files_failed ≡ length s.errors
  pub bytes : s.bytes_wiped ≡ all_bytes s.outcomes % 2 ^ 64

abbrev pub handled : DirectoryShredSummary → ℕ
handled s = s.files_processed + s.files_failed

no_summary-IsTallied : IsTallied no_summary
unfolding all_bytes
no_summary-IsTallied = record { processed = refl; failed = refl; bytes = refl }

tally_result-IsTallied :
    (s : DirectoryShredSummary) (p : FilePath) (r : Outcome SanitizerError ShredOutcome)
    → Returns r
    → IsTallied s
    → IsTallied (tally_result s p r) × (handled (tally_result s p r) ≡ handled s + 1)
unfolding tally_result
tally_result-IsTallied s p (ok o) h c = (
  record {
    processed = omega (arith, c.processed, length-append s.outcomes (o ∷ []));
    failed = c.failed;
    bytes = omega (arith, c.bytes, all_bytes-append s.outcomes o);
  },
  omega arith,
)
tally_result-IsTallied s p (err e) h c = (
  record {
    processed = c.processed;
    failed = omega (arith, c.failed, length-append s.errors ((p, e) ∷ []));
    bytes = c.bytes;
  },
  omega arith,
)
tally_result-IsTallied s p panic h c = elim h [ ]
tally_result-IsTallied s p out_of_fuel h c = elim h [ ]

attempt-Triple :
    {sys : System} {P : Assertion} {A : Type 0} {m : Action SanitizerError A}
    → Triple sys P m (λ a d t. Unit) (λ e d t. Unit)
    → Triple sys P (attempt m) (λ r d t. Returns r) (λ e d t. ⊥)
unfolding attempt
attempt-Triple {sys} {P} {A} {m} T = record { at = λ w p. step (m sys w) (T.at w p) }
  where
    step :
        (r : Outcome SanitizerError A × World)
        → Post (λ a d t. Unit) (λ e d t. Unit) r
        → Post (λ r d t. Returns r) (λ (e : SanitizerError) d t. ⊥) (result_of r.0, r.1)
    step (ok a, w) q = tt
    step (err e, w) q = tt
    step (panic, w) q = q
    step (out_of_fuel, w) q = q

report_done-Triple :
    {sys : System} {P : Type 0} (callback : Bool) (done total : ℕ)
    → Triple sys (λ d t. P) (report_done callback done total) (λ u d t. P) (λ e d t. ⊥)
unfolding report_done
report_done-Triple true done total = Triple-event _ (λ d t h. h)
report_done-Triple false done total = Triple-pure tt (λ d t h. h)

remove_dirs-Triple :
    {sys : System} {P : Type 0} (dirs : List FilePath)
    → Triple sys (λ d t. P) (remove_dirs dirs) (λ u d t. P) (λ e d t. ⊥)
unfolding remove_dirs
remove_dirs-Triple [] = Triple-pure tt (λ d t h. h)
remove_dirs-Triple (p ∷ rest) =
    Triple-bind (Triple-ignore (remove_dir-Triple p (λ d d' t h same. h)))
      λ _. remove_dirs-Triple rest

built-Triple :
    {sys : System} {P : Assertion} (o : Option Text)
    → Triple sys P (lift (built o)) (λ u d t. Unit) (λ e d t. (text : Text) × (e ≡ config text))
built-Triple none = Triple-lift (ok tt) tt (λ u d t e h. tt) (λ e d t q h. absurd (cc q))
built-Triple (some x) =
    Triple-lift (err _) tt (λ u d t q h. tt)
      (λ e d t q h. (codes "failed to build thread pool: " ++ x, cc))

-- A summary of as many files as given at most, and of all if nobody can cancel.
abbrev pub Covers : Bool → ℕ → DirectoryShredSummary → Type 0
Covers cancel n s = IsTallied s × (handled s ≤ n) × (cancel ≡ false → handled s ≡ n)

module _ {sys : System} (fills : FillsBuffers sys) (options : ShredOptions)
    (cancel callback : Bool) where
  shred_files-Triple :
      (total : ℕ) (files : List FilePath) (s : DirectoryShredSummary) (done : ℕ)
      → IsTallied s
      → Triple sys
          (λ d t. Unit)
          (shred_files options cancel callback total files s done)
          (λ s' d t. Covers cancel (handled s + length files) s')
          (λ e d t. ⊥)
  unfolding shred_files
  shred_files-Triple total [] s done c = Triple-pure s (λ d t h. (c, omega arith, λ e. omega arith))
  shred_files-Triple total (p ∷ rest) s done c =
      Triple-bind {S = λ stop d t. cancel ≡ false → stop ≡ false} (is_cancelled-Triple _) λ stop.
        Triple-given λ d t known.
          Triple-if stop
            (λ yes.
              Triple-weaken (shred_files-Triple total rest s done c) (λ d t h. tt)
                (λ s' d t h. (h.0, omega (arith, h.1), λ e. absurd (let z = known e in cc)))
                (λ e d t h. h))
            (λ no.
              Triple-bind {S = λ storage d t. Unit}
                (Triple-weaken (detect_storage_for_path-Triple (λ d t. Unit) p) (λ d t h. tt)
                  (λ i d t h. tt) (λ e d t h. h))
                λ storage.
                  Triple-bind
                    (attempt-Triple (shred_file_ends p options storage cancel false fills))
                    λ result. Triple-bind (report_done-Triple callback (done + 1) total) λ _.
                      Triple-given λ d t returned.
                        let (c', more) = tally_result-IsTallied s p result returned c in
                        Triple-weaken
                          (shred_files-Triple total rest (tally_result s p result) (done + 1) c')
                          (λ d t h. tt)
                          (λ s' d t h. (
                            h.0,
                            omega (arith, h.1, more),
                            λ e. let z = h.2 e in omega (arith, z, more),
                          ))
                          (λ e d t h. h))
    where
      is_cancelled-Triple :
          {R : SanitizerError → Assertion} (u : Unit {0})
          → Triple sys
              (λ d t. Unit)
              (is_cancelled cancel)
              (λ stop d t. cancel ≡ false → stop ≡ false)
              R
      is_cancelled-Triple u = unfold is_cancelled in Triple-ask _ (λ n d t h e. rw e refl)

  -- With random sources that fill a buffer to its length and a pool that comes to an end with each
  -- file, `shred_directory` ends without a panic. Its summary counts its lists, their bytes modulo
  -- 2^64; together they have as many files as the walk met at most, and exactly as many if there
  -- is no cancellation flag: a file whose shredding fails ends neither the run nor another file's.
  -- The one error is of the configuration: that the root is no directory, or that there is no pool.
  pub shred_directory-Triple :
      (root : FilePath) (thread_count : Option ℕ)
      → ((t : ℕ) (files : List FilePath) → length (sys.os.schedule t files) ≡ length files)
      → Triple sys
          (λ d t. Unit)
          (shred_directory root options thread_count cancel callback)
          (λ s d t. (now : ℕ) × Covers cancel (length (walked_files (sys.os.walk now root))) s)
          (λ e d t. (text : Text) × (e ≡ config text))
  unfolding shred_directory
  shred_directory-Triple root thread_count scheduled =
      Triple-bind {S = λ there d t. Unit} (look-Triple is_folder root (λ d t h. tt) (λ d t h. tt))
        λ there.
          Triple-if (not there) (λ _. Triple-raise _ (λ d t h. (_, refl)))
            λ _.
              Triple-bind
                {S = λ files d t. (now : ℕ) × (files ≡ walked_files (sys.os.walk now root))}
                (Triple-ask _ (λ n d t h. (n, refl)))
                λ files. Triple-given λ d t (now, met).
                  Triple-bind {S = λ r d t. (o : Option Text) × (r ≡ built o)}
                    (Triple-ask _ (λ n d t h. (_, refl)))
                    λ r. Triple-given λ d t (o, e).
                      Triple-bind {S = λ u d t. Unit} (rw e (built-Triple o)) λ _.
                        Triple-bind {S = λ order d t. length order ≡ length files}
                          (Triple-ask _ (λ n d t h. scheduled n files))
                          λ order. Triple-given λ d t same.
                            Triple-bind
                              (Triple-weaken
                                (shred_files-Triple (length files) order no_summary 0
                                  no_summary-IsTallied)
                                (λ d t h. tt) (λ s d t h. h) (λ e d t h. elim h [ ]))
                              λ s.
                                Triple-bind {S = λ dirs d t. Covers cancel (length files) s}
                                  (Triple-ask _ (λ n d t h. (
                                    h.0,
                                    omega (arith, h.1, same),
                                    λ e. let z = h.2 e in omega (arith, z, same),
                                  )))
                                  λ dirs.
                                    Triple-bind
                                      (Triple-weaken (remove_dirs-Triple dirs) (λ d t h. h)
                                        (λ u d t h. h) (λ e d t h. elim h [ ]))
                                      λ _. Triple-pure s (λ d t h. (now, rw met at h))
