-- ===== src/Io/Files.antt =====
-- The calls of `std::fs` and `std::io` that the program makes. Each takes a moment, in which the
-- system may refuse it. No other process changes the files meanwhile. The program renames and
-- writes files only, one after the other and never past the end.
pub mod Laws
pub mod Whole
use mathlib.Core.Logic.{ite}
use secure_file_shredder_and.Base.{
  ℕ, ◌+◌, ◌≡◌, refl, Bool, true, false, Option, none, some, List, [], ◌∷◌, ◌++◌, Bytes, length,
  take, drop, replicate, ◌-◌, is_utf8, if◌then◌else◌,
}
use secure_file_shredder_and.Io.Outcome.{Outcome, ok, err}
use secure_file_shredder_and.Io.Path.{FilePath, FilePath-discrete}
use secure_file_shredder_and.Io.Error.{IoError, not_found, is_a_directory, invalid_data}
use secure_file_shredder_and.Io.System.{System}
use secure_file_shredder_and.Io.Action.{
  Node, file, dir, Disk, Event, wrote, synced, renamed, removed, World, Action, pure, ◌>>=◌,
}

unfoldable pub update : Disk → FilePath → Option Node → Disk
update d p v q = ite (FilePath-discrete p q) v (d q)

-- One call: refused now, or carried out on the world of the next moment.
unfoldable pub syscall : {A : Type 0} → (World → Outcome IoError A × World) → Action IoError A
syscall f sys w =
    let w' = record w { now = w.now + 1 } in
    elim (sys.os.fault w.now) [ none ↦ f w' | some e ↦ (err e, w') ]

-- `Metadata`; the length of a directory is not asked for.
pub record Metadata : Type 0 where
  pub is_file : Bool
  pub len : ℕ

unfoldable pub stat : Option Node → Outcome IoError Metadata
stat none = err not_found
stat (some (file b)) = ok (record { is_file = true; len = length b })
stat (some dir) = ok (record { is_file = false; len = 0 })

-- `fs::metadata`
unfoldable pub metadata : FilePath → Action IoError Metadata
unfolding stat
metadata p = syscall (λ w. (stat (w.disk p), w))

unfoldable pub contents : Option Node → Outcome IoError Bytes
contents none = err not_found
contents (some (file b)) = ok b
contents (some dir) = err is_a_directory

-- `fs::read`
unfoldable pub read : FilePath → Action IoError Bytes
unfolding contents
read p = syscall (λ w. (contents (w.disk p), w))

-- `File`, opened for writing: its path, and the offset of the next write.
pub record Handle : Type 0 where
  pub path : FilePath
  pub pos : ℕ

abbrev pub opened : FilePath → Option Node → Outcome IoError Handle
opened p none = err not_found
opened p (some (file b)) = ok (record { path = p; pos = 0 })
opened p (some dir) = err is_a_directory

-- `OpenOptions::new().write(true).open`
unfoldable pub open_write : FilePath → Action IoError Handle
open_write p = syscall (λ w. (opened p (w.disk p), w))

-- `file.seek(SeekFrom::Start(n))`
unfoldable pub seek : Handle → ℕ → Action IoError Handle
seek h n = syscall (λ w. (ok (record h { pos = n }), w))

-- The file after a write of `chunk` at `pos`.
unfoldable pub overwrite : Bytes → ℕ → Bytes → Bytes
overwrite b pos chunk = take pos b ++ (chunk ++ drop (pos + length chunk) b)

abbrev pub put : Handle → Bytes → Option Node → World → Outcome IoError Handle × World
put h chunk none w = (err not_found, w)
put h chunk (some dir) w = (err is_a_directory, w)
put h chunk (some (file b)) w = (
  ok (record h { pos = h.pos + length chunk }),
  record w {
    disk = update w.disk h.path (some (file (overwrite b h.pos chunk)));
    trace = wrote h.path h.pos chunk ∷ w.trace;
  },
)

-- `file.write_all(chunk)`. A write that fails may have put down a part of the chunk.
unfoldable pub write_all : Handle → Bytes → Action IoError Handle
unfolding overwrite
write_all h chunk sys w =
    let w' = record w { now = w.now + 1 } in
    elim (sys.os.fault w.now) [
      | none ↦ put h chunk (w.disk h.path) w'
      | some e ↦
          let part = take (sys.os.written_before_fault w.now) chunk in
          (err e, (put h part (w.disk h.path) w').1)
    ]

abbrev pub flush : Handle → Option Node → World → Outcome IoError (Unit {0}) × World
flush h none w = (ok tt, w)
flush h (some dir) w = (ok tt, w)
flush h (some (file b)) w = (ok tt, record w { trace = synced h.path b ∷ w.trace })

-- `file.sync_all()`
unfoldable pub sync_all : Handle → Action IoError (Unit {0})
sync_all h = syscall (λ w. flush h (w.disk h.path) w)

abbrev pub moved :
    FilePath → FilePath → Option Node → Option Node → World → Outcome IoError (Unit {0}) × World
moved p q none target w = (err not_found, w)
moved p q (some dir) target w = (err is_a_directory, w)
moved p q (some (file b)) (some dir) w = (err is_a_directory, w)
moved p q (some (file b)) _ w = (
  ok tt,
  record w {
    disk = update (update w.disk p none) q (some (file b));
    trace = renamed p q ∷ w.trace;
  },
)

-- `fs::rename` of a file. A file at the new name is replaced.
unfoldable pub rename : FilePath → FilePath → Action IoError (Unit {0})
rename p q = syscall (λ w. moved p q (w.disk p) (w.disk q) w)

abbrev pub unlinked : FilePath → Option Node → World → Outcome IoError (Unit {0}) × World
unlinked p none w = (err not_found, w)
unlinked p (some dir) w = (err is_a_directory, w)
unlinked p (some (file b)) w =
    (ok tt, record w { disk = update w.disk p none; trace = removed p b ∷ w.trace })

-- `fs::remove_file`
unfoldable pub remove_file : FilePath → Action IoError (Unit {0})
remove_file p = syscall (λ w. unlinked p (w.disk p) w)

unfoldable pub resize : Bytes → ℕ → Bytes
resize b n = take n b ++ replicate (n - length b) 0

abbrev pub resized : Handle → ℕ → Option Node → World → Outcome IoError (Unit {0}) × World
resized h n none w = (ok tt, w)
resized h n (some dir) w = (ok tt, w)
resized h n (some (file b)) w =
    (ok tt, record w { disk = update w.disk h.path (some (file (resize b n))) })

-- `file.set_len(n)`
unfoldable pub set_len : Handle → ℕ → Action IoError (Unit {0})
unfolding resize
set_len h n = syscall (λ w. resized h n (w.disk h.path) w)

abbrev pub decoded : Outcome IoError Bytes → Outcome IoError Bytes
decoded (ok b) = if is_utf8 b then ok b else err invalid_data
decoded other = other

-- `fs::read_to_string`
unfoldable pub read_to_string : FilePath → Action IoError Bytes
unfolding contents
read_to_string p = syscall (λ w. (decoded (contents (w.disk p)), w))

abbrev pub is_there : Option Node → Bool
is_there none = false
is_there (some n) = true

-- `path.exists()`: a failure to look counts as absence.
unfoldable pub exists : {E : Type 0} → FilePath → Action E Bool
exists p sys w =
    let w' = record w { now = w.now + 1 } in
    elim (sys.os.fault w.now) [ none ↦ (ok (is_there (w.disk p)), w') | some e ↦ (ok false, w') ]

abbrev pub appended : FilePath → Option Node → World → Outcome IoError Handle × World
appended p none w =
    (ok (record { path = p; pos = 0 }), record w { disk = update w.disk p (some (file [])) })
appended p (some (file b)) w = (ok (record { path = p; pos = length b }), w)
appended p (some dir) w = (err is_a_directory, w)

-- `OpenOptions::new().create(true).append(true).open`
unfoldable pub open_append : FilePath → Action IoError Handle
open_append p = syscall (λ w. appended p (w.disk p) w)

abbrev pub created : FilePath → Option Node → World → Outcome IoError Handle × World
created p (some dir) w = (err is_a_directory, w)
created p _ w =
    (ok (record { path = p; pos = 0 }), record w { disk = update w.disk p (some (file [])) })

-- `File::create`
unfoldable pub create : FilePath → Action IoError Handle
create p = syscall (λ w. created p (w.disk p) w)

-- `fs::write`, and `write_all` behind `File::create`.
unfoldable pub write : FilePath → Bytes → Action IoError (Unit {0})
write p b = do h ← create p; h ← write_all h b; pure tt
