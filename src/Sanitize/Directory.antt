-- ===== src/Sanitize/Directory.antt =====
-- sanitize/directory.rs: all files of a tree, and then its directories. The threads of the pool
-- work on different files; they are modelled one after the other, in an order that is the system's.
pub mod Laws
use secure_file_shredder_and.Base.{
  ℕ, ◌+◌, ◌%◌, ◌^◌, Bool, true, false, not, Option, none, some, List, [], ◌∷◌, ◌++◌, Text, codes,
  length, ltb, if◌then◌else◌,
}
use secure_file_shredder_and.Io.Outcome.{Outcome, ok, err, panic, out_of_fuel}
use secure_file_shredder_and.Io.Path.{FilePath, display, component_count}
use secure_file_shredder_and.Io.Error.{IoError, SanitizerError, config}
use secure_file_shredder_and.Io.System.{System, FileType, regular_file, directory}
use secure_file_shredder_and.Io.Action.{
  Action, pure, raise, lift, ask, ◌>>=◌, ◌>>◌, ignore, record_event, file_done,
}
use secure_file_shredder_and.Io.Folders.{is_dir, remove_dir}
use secure_file_shredder_and.Storage.Device.{detect_storage_for_path}
use secure_file_shredder_and.Sanitize.Engine.{
  ShredOptions, ShredOutcome, shred_file, is_cancelled, add_u64,
}

-- `errors` keeps the errors that the source keeps as texts.
pub record DirectoryShredSummary : Type 0 where
  pub files_processed : ℕ
  pub files_failed : ℕ
  pub bytes_wiped : ℕ
  pub outcomes : List ShredOutcome
  pub errors : List (FilePath × SanitizerError)

-- `DirectoryShredSummary::default()`
abbrev pub no_summary : DirectoryShredSummary
no_summary = record {
  files_processed = 0;
  files_failed = 0;
  bytes_wiped = 0;
  outcomes = [];
  errors = [];
}

abbrev keep_file : FileType → FilePath → List FilePath → List FilePath
keep_file regular_file p rest = p ∷ rest
keep_file _ p rest = rest

abbrev keep_dir : FileType → FilePath → List FilePath → List FilePath
keep_dir directory p rest = p ∷ rest
keep_dir _ p rest = rest

-- The walk's regular files.
unfoldable pub walked_files : List (Option (FilePath × FileType)) → List FilePath
walked_files [] = []
walked_files (none ∷ rest) = walked_files rest
walked_files (some (p, type) ∷ rest) = keep_file type p (walked_files rest)

-- The walk's directories.
unfoldable pub walked_dirs : List (Option (FilePath × FileType)) → List FilePath
walked_dirs [] = []
walked_dirs (none ∷ rest) = walked_dirs rest
walked_dirs (some (p, type) ∷ rest) = keep_dir type p (walked_dirs rest)

-- A path before the first that is as deep or less.
unfoldable pub insert_by_depth : FilePath → List FilePath → List FilePath
insert_by_depth p [] = p ∷ []
insert_by_depth p (q ∷ rest) =
    let later = insert_by_depth p rest in
    if ltb (component_count p) (component_count q) then q ∷ later else p ∷ (q ∷ rest)

-- `sort_by_key(|p| Reverse(p.components().count()))`, which is stable.
unfoldable pub deepest_first : List FilePath → List FilePath
unfolding insert_by_depth
deepest_first [] = []
deepest_first (p ∷ rest) = insert_by_depth p (deepest_first rest)

abbrev pub processed : DirectoryShredSummary → ShredOutcome → DirectoryShredSummary
processed s o = record s {
  files_processed = s.files_processed + 1;
  bytes_wiped = add_u64 s.bytes_wiped o.bytes_wiped;
  outcomes = s.outcomes ++ (o ∷ []);
}

abbrev pub failed : DirectoryShredSummary → FilePath → SanitizerError → DirectoryShredSummary
failed s p e = record s { files_failed = s.files_failed + 1; errors = s.errors ++ ((p, e) ∷ []) }

module _ {A : Type 0} where
  abbrev pub result_of :
      Outcome SanitizerError A → Outcome SanitizerError (Outcome SanitizerError A)
  result_of (ok a) = ok (ok a)
  result_of (err e) = ok (err e)
  result_of panic = panic
  result_of out_of_fuel = out_of_fuel

  -- A result that is matched on.
  unfoldable pub attempt :
      Action SanitizerError A → Action SanitizerError (Outcome SanitizerError A)
  attempt m sys w = let (r, w') = m sys w in (result_of r, w')

-- The `match` on the result, under the lock.
unfoldable pub tally_result :
    DirectoryShredSummary → FilePath → Outcome SanitizerError ShredOutcome → DirectoryShredSummary
tally_result s p (ok o) = processed s o
tally_result s p (err e) = failed s p e
tally_result s p _ = s

-- The call of `on_file_done`, if there is one.
unfoldable pub report_done : Bool → ℕ → ℕ → Action SanitizerError (Unit {0})
report_done true done total = record_event (file_done done total)
report_done false done total = pure tt

-- The work on the files in the order in which the threads come to their ends: the summary and the
-- counter of the files done.
unfoldable pub shred_files :
    ShredOptions
    → Bool
    → Bool
    → ℕ
    → List FilePath
    → DirectoryShredSummary
    → ℕ
    → Action SanitizerError DirectoryShredSummary
shred_files options cancel callback total [] s done = pure s
shred_files options cancel callback total (p ∷ rest) s done = do
  stop ← is_cancelled cancel
  if stop then shred_files options cancel callback total rest s done else do
    storage ← detect_storage_for_path p
    result ← attempt (shred_file p options storage cancel false)
    report_done callback (done + 1) total
    shred_files options cancel callback total rest (tally_result s p result) (done + 1)

-- The loop over the directories.
unfoldable pub remove_dirs : List FilePath → Action SanitizerError (Unit {0})
remove_dirs [] = pure tt
remove_dirs (dir ∷ rest) = do ignore {E = IoError} (remove_dir dir); remove_dirs rest

abbrev pub or_cpus : Option ℕ → ℕ → ℕ
or_cpus (some n) cpus = n
or_cpus none cpus = cpus

abbrev built : Option Text → Outcome SanitizerError (Unit {0})
built none = ok tt
built (some e) = err (config (codes "failed to build thread pool: " ++ e))

abbrev pub not_a_directory_error : FilePath → SanitizerError
not_a_directory_error root = config (codes "'" ++ (display root ++ codes "' is not a directory"))

-- `cancel` and `callback` say whether the caller gave one.
unfoldable pub shred_directory :
    FilePath → ShredOptions → Option ℕ → Bool → Bool → Action SanitizerError DirectoryShredSummary
shred_directory root options thread_count cancel callback = do
  there ← is_dir root
  if not there then raise (not_a_directory_error root) else do
    files ← ask (λ sys t. walked_files (sys.os.walk t root))
    pool ← ask (λ sys t. built (sys.os.pool_error t (or_cpus thread_count (sys.os.cpus t))))
    lift pool
    order ← ask (λ sys t. sys.os.schedule t files)
    summary ← shred_files options cancel callback (length files) order no_summary 0
    dirs ← ask (λ sys t. deepest_first (walked_dirs (sys.os.walk t root)))
    remove_dirs dirs
    pure summary
