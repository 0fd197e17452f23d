-- ===== src/Io/Quiet/Calls.antt =====
-- The calls on files when the system refuses nothing, for assertions about the disk.
use secure_file_shredder_and.Base.{ℕ, ◌+◌, ◌≡◌, refl, true, Option, none, some, Bytes, take}
use secure_file_shredder_and.Io.Outcome.{err}
use secure_file_shredder_and.Io.Path.{FilePath}
use secure_file_shredder_and.Io.Error.{IoError}
use secure_file_shredder_and.Io.System.{System}
use secure_file_shredder_and.Io.Action.{Node, file, dir, Disk, World}
use secure_file_shredder_and.Io.Quiet.{IsQuiet, Ends, NoError, NoError-syscall}
use secure_file_shredder_and.Io.Files.{
  update, Handle, metadata, stat, open_write, seek, write_all, put, sync_all, flush, rename, moved,
  remove_file, set_len, read, contents,
}

-- A file is at the path.
abbrev pub HasFile : FilePath → Disk → Type 0
HasFile p d = (b : Bytes) × (d p ≡ some (file b))

module _ {sys : System} (quiet : IsQuiet sys) {I : Disk → Type 0} (p : FilePath)
    (there : (d : Disk) → I d → HasFile p d) where
  pub NoError-metadata : NoError sys (λ d t. I d) (metadata p) (λ m d t. I d × (m.is_file ≡ true))
  unfolding metadata stat
  NoError-metadata = NoError-syscall _ quiet (λ w i. let (b, e) = there _ i in rw e (i, refl))

  pub NoError-read : NoError sys (λ d t. I d) (read p) (λ b d t. I d)
  unfolding read contents
  NoError-read = NoError-syscall _ quiet (λ w i. let (b, e) = there _ i in rw e i)

  pub NoError-open_write : NoError sys (λ d t. I d) (open_write p) (λ h d t. I d × (h.path ≡ p))
  unfolding open_write
  NoError-open_write = NoError-syscall _ quiet (λ w i. let (b, e) = there _ i in rw e (i, refl))

  pub NoError-sync_all : (h : Handle) → NoError sys (λ d t. I d) (sync_all h) (λ u d t. I d)
  unfolding sync_all
  NoError-sync_all h = NoError-syscall _ quiet (λ w i. step w i (w.disk h.path))
    where
      step :
          (w : World)
          → I w.disk
          → (o : Option Node) → Ends {E = IoError} (λ u d t. I d) (flush h o w)
      step w i none = i
      step w i (some dir) = i
      step w i (some (file b)) = i

  pub NoError-write_all :
      (h : Handle) (chunk : Bytes)
      → h.path ≡ p
      → ((d : Disk) (b : Bytes) → I d → I (update d p (some (file b))))
      → NoError sys (λ d t. I d) (write_all h chunk) (λ k d t. I d × (k.path ≡ p))
  unfolding write_all
  NoError-write_all h chunk e stable = record {
    at = λ w i. step w i (sys.os.fault w.now) (quiet.no_fault w.now);
  }
    where
      placed :
          (w : World)
          → I w.disk
          → (q : FilePath) → q ≡ p
          → (n : ℕ)
          → Ends {E = IoError} {A = Handle}
              (λ k d t. I d × (k.path ≡ p))
              (put (record { path = q; pos = n }) chunk (w.disk q) w)
      placed w i q s n = rw s (let (b, f) = there _ i in rw f (stable _ _ i, refl))

      step :
          (w : World)
          → I w.disk
          → (o : Option IoError) → o ≡ none
          → let w' = record w { now = w.now + 1 } in
            let part = take (sys.os.written_before_fault w.now) chunk in
            Ends {E = IoError} {A = Handle}
              (λ k d t. I d × (k.path ≡ p))
              (elim o [
                | none ↦ put h chunk (w.disk h.path) w'
                | some e ↦ (err e, (put h part (w.disk h.path) w').1)
              ])
      step w i none z = placed _ i h.path e h.pos
      step w i (some x) z = absurd (cc z)

  pub NoError-set_len :
      (h : Handle) (n : ℕ)
      → h.path ≡ p
      → ((d : Disk) (b : Bytes) → I d → I (update d p (some (file b))))
      → NoError sys (λ d t. I d) (set_len h n) (λ u d t. I d)
  unfolding set_len
  NoError-set_len h n e stable =
      NoError-syscall _ quiet (λ w i. let (b, f) = there _ i in rw (e, f) (stable _ _ i))

  pub NoError-rename :
      {J : Disk → Type 0} (q : FilePath)
      → ((d : Disk) → I d → ¬ (d q ≡ some dir))
      → ((d : Disk) (b : Bytes) → I d → J (update (update d p none) q (some (file b))))
      → NoError sys (λ d t. I d) (rename p q) (λ u d t. J d)
  unfolding rename
  NoError-rename {J} q free run = NoError-syscall _ quiet (λ w i. step w i (w.disk q) refl)
    where
      step :
          (w : World)
          → I w.disk
          → (o : Option Node) → w.disk q ≡ o
          → Ends {E = IoError} (λ u d t. J d) (moved p q (w.disk p) o w)
      step w i (some dir) e = absurd (free _ i e)
      step w i none e = let (b, f) = there _ i in rw f (run _ b i)
      step w i (some (file c)) e = let (b, f) = there _ i in rw f (run _ b i)

  pub NoError-remove_file : NoError sys (λ d t. I d) (remove_file p) (λ u d t. Unit)
  unfolding remove_file
  NoError-remove_file = NoError-syscall _ quiet (λ w i. let (b, f) = there _ i in rw f tt)

module _ {sys : System} (quiet : IsQuiet sys) {I : Disk → Type 0} where
  pub NoError-seek :
      (h : Handle) (n : ℕ) → NoError sys (λ d t. I d) (seek h n) (λ k d t. I d × (k.path ≡ h.path))
  unfolding seek
  NoError-seek h n = NoError-syscall _ quiet (λ w i. (i, refl))
