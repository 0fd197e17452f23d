-- ===== src/Sanitize/Metadata/Success.antt =====
-- Renaming and unlinking where the system refuses nothing.
use secure_file_shredder_and.Base.{
  ℕ, zero, suc, ◌≡◌, ◌≢◌, refl, sym, ap, ◌∙◌, Bool, true, false, Option, none, some, Bytes,
}
use secure_file_shredder_and.Io.Path.{FilePath, FilePath-discrete, parent, join}
use secure_file_shredder_and.Io.System.{System}
use secure_file_shredder_and.Io.Action.{Node, file, dir, Disk}
use secure_file_shredder_and.Io.Files.{update}
use secure_file_shredder_and.Io.Files.Laws.{update_self, update_ne}
use secure_file_shredder_and.Io.Quiet.{
  IsQuiet, NoError, NoError-pure, NoError-ask, NoError-given, NoError-pre, NoError-bind,
  NoError-map_err, NoError-try, NoError-ignore, NoError-post,
}
use secure_file_shredder_and.Io.Quiet.Calls.{
  HasFile, NoError-metadata, NoError-open_write, NoError-set_len, NoError-rename,
  NoError-remove_file,
}
use secure_file_shredder_and.Crypto.Rng.Success.{secure_random_vec-NoError}
use secure_file_shredder_and.Sanitize.Metadata.{
  random_filename, rename_loop, clear_timestamps, rename_in, sanitize_metadata_and_unlink,
  rename_rounds,
}

-- No directory has a name that the renames may give.
abbrev pub IsFree : System → FilePath → Disk → Type 0
IsFree sys folder d = (bytes : Bytes) → ¬ (d (join folder (sys.crates.hex_encode bytes)) ≡ some dir)

IsFree-update :
    (sys : System) (folder : FilePath) (d : Disk) (p : FilePath) (v : Option Node)
    → v ≢ some dir
    → IsFree sys folder d
    → IsFree sys folder (update d p v)
IsFree-update sys folder d p v n free bytes e =
    let q = join folder (sys.crates.hex_encode bytes) in
    elim (FilePath-discrete q p) [
      | yes same ↦ n (sym (update_self d p v) ∙ ap (update d p v) (sym same) ∙ e)
      | no other ↦ free bytes (sym (update_ne d p q v other) ∙ e)
    ]

-- The file is at a path, and the names that the renames may give are free of directories.
abbrev pub IsReady : System → FilePath → FilePath → Disk → Type 0
IsReady sys folder p d = HasFile p d × IsFree sys folder d

pub IsReady-update :
    (sys : System) (folder p : FilePath) (d : Disk) (b : Bytes)
    → IsReady sys folder p d
    → IsReady sys folder p (update d p (some (file b)))
IsReady-update sys folder p d b h =
    ((b, update_self _ _ _), IsFree-update sys folder d p _ (λ e. cc) h.1)

module _ {sys : System} (quiet : IsQuiet sys) (folder : FilePath) where
  abbrev Ready : FilePath → Disk → Type 0
  Ready p d = IsReady sys folder p d

  random_filename-NoError :
      (I : Disk → Type 0)
      → NoError sys
          (λ d t. I d)
          random_filename
          (λ name d t. I d × ((bytes : Bytes) × (name ≡ sys.crates.hex_encode bytes)))
  unfolding random_filename
  random_filename-NoError I =
      NoError-bind {S = λ o d t. I d} (NoError-try (secure_random_vec-NoError quiet I 16))
        λ o. NoError-ask _ (λ n d t i. (i, (_, refl)))

  rename_loop-NoError :
      (rounds : ℕ) (p : FilePath)
      → NoError sys (λ d t. Ready p d) (rename_loop rounds folder p) (λ q d t. Ready q d)
  unfolding rename_loop
  rename_loop-NoError zero p = NoError-pure p (λ d t h. h)
  rename_loop-NoError (suc rounds) p = NoError-bind (random_filename-NoError (Ready p)) λ name.
      NoError-given λ d t (_, (bytes, e)). rw e (
        NoError-bind {S = λ u d t. Ready (join folder (sys.crates.hex_encode bytes)) d}
          (NoError-map_err _ (
            NoError-pre
              (NoError-rename quiet {I = Ready p} p (λ d h. h.0)
                (join folder (sys.crates.hex_encode bytes)) (λ d h. h.1 bytes)
                (λ d b h. (
                  (b, update_self _ _ _),
                  IsFree-update sys folder _ _ _ (λ e. cc)
                      (IsFree-update sys folder d p none (λ e. cc) h.1),
                )))
              (λ d t h. h.0)))
          λ u. rename_loop-NoError rounds (join folder (sys.crates.hex_encode bytes)))

  clear_timestamps-NoError :
      (p : FilePath) → NoError sys (λ d t. Ready p d) (clear_timestamps p) (λ u d t. Ready p d)
  unfolding clear_timestamps
  clear_timestamps-NoError p =
      NoError-bind (NoError-open_write quiet {I = Ready p} p (λ d h. h.0)) λ f.
        NoError-given λ d t (_, e).
          NoError-bind {S = λ m d t. Ready p d}
            (rw e (
              NoError-post
                (NoError-pre (NoError-metadata quiet {I = Ready p} p (λ d h. h.0)) (λ d t h. h.0))
                (λ m d t h. h.0)))
            λ m.
              NoError-set_len quiet {I = Ready p} p (λ d h. h.0) f m.len e
                (λ d b h. IsReady-update sys folder p d b h)

  rename_in-NoError :
      (p : FilePath)
      → NoError sys (λ d t. Ready p d) (rename_in p (some folder)) (λ q d t. Ready q d)
  unfolding rename_in
  rename_in-NoError p = NoError-bind (rename_loop-NoError rename_rounds p) λ q.
      NoError-bind {S = λ u d t. Ready q d} (NoError-ignore (clear_timestamps-NoError q))
        λ u. NoError-pure q (λ d t h. h)

  -- A file whose names are free is unlinked with no error.
  pub sanitize_metadata_and_unlink-NoError :
      (p : FilePath) (renaming : Bool)
      → parent p ≡ some folder
      → NoError sys (λ d t. Ready p d) (sanitize_metadata_and_unlink p renaming) (λ u d t. Unit)
  unfolding sanitize_metadata_and_unlink
  sanitize_metadata_and_unlink-NoError p true e = rw e (
      NoError-bind (rename_in-NoError p)
        λ q. NoError-map_err _ (NoError-remove_file quiet {I = Ready q} q (λ d h. h.0)))
  sanitize_metadata_and_unlink-NoError p false e =
      NoError-map_err _ (NoError-remove_file quiet {I = Ready p} p (λ d h. h.0))
