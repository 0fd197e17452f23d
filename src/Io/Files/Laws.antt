-- ===== src/Io/Files/Laws.antt =====
-- The calls by triples, for a file that is there: what the disk and the trace are afterwards.
use mathlib.Core.Logic.{if_pos, if_neg}
use secure_file_shredder_and.Base.{
  ℕ, ◌+◌, ◌-◌, ◌≤◌, ◌≡◌, ◌≢◌, ◌⊎◌, inl, inr, refl, sym, ap, fun_ext, Option, none, some, List, [],
  ◌∷◌, ◌++◌, Bytes, length, take, drop, arith, true, length-append, length-take, length-drop,
  take-length, append-nil,
}
use secure_file_shredder_and.Io.Outcome.{ok, err}
use secure_file_shredder_and.Io.Path.{FilePath}
use secure_file_shredder_and.Io.Error.{IoError}
use secure_file_shredder_and.Io.System.{System}
use secure_file_shredder_and.Io.Action.{
  Node, file, dir, Disk, Event, wrote, synced, renamed, removed, progress, file_done, World,
}
use secure_file_shredder_and.Io.Triple.{Assertion, Triple, Triple-syscall, Post}
use secure_file_shredder_and.Io.Files.{
  update, Handle, Metadata, metadata, stat, read, contents, open_write, opened, seek, write_all,
  put, overwrite, sync_all, rename, moved, remove_file, set_len, resize,
}

pub update_self : (d : Disk) (p : FilePath) (v : Option Node) → update d p v p ≡ v
unfolding update
update_self d p v = if_pos _ refl v (d p)

pub update_ne : (d : Disk) (p q : FilePath) (v : Option Node) → q ≢ p → update d p v q ≡ d q
unfolding update
update_ne d p q v h = if_neg _ (λ e. h (sym e)) v (d q)

pub same_content : {o : Option Node} {b c : Bytes} → o ≡ some (file c) → o ≡ some (file b) → c ≡ b
same_content f g = cc

-- Writing what is there changes nothing.
pub update_same : (d : Disk) (p : FilePath) (v : Option Node) → d p ≡ v → update d p v ≡ d
unfolding update
update_same d p v h = fun_ext λ q. ground arith

pub stat_file :
    {o : Option Node} {b : Bytes} (m : Metadata)
    → o ≡ some (file b)
    → stat o ≡ ok m
    → m ≡ record { is_file = true; len = length b }
unfolding stat
stat_file m h e = ground arith

-- What has been made durable, the latest first.
abbrev pub synced_contents : List Event → List (FilePath × Bytes)
synced_contents [] = []
synced_contents (synced p b ∷ t) = (p, b) ∷ synced_contents t
synced_contents (wrote p n b ∷ t) = synced_contents t
synced_contents (renamed p q ∷ t) = synced_contents t
synced_contents (removed p b ∷ t) = synced_contents t
synced_contents (progress n k m ∷ t) = synced_contents t
synced_contents (file_done n m ∷ t) = synced_contents t

-- The writes and what has been made durable, the latest first.
abbrev pub data_events : List Event → List Event
data_events [] = []
data_events (synced p b ∷ t) = synced p b ∷ data_events t
data_events (wrote p n b ∷ t) = wrote p n b ∷ data_events t
data_events (renamed p q ∷ t) = data_events t
data_events (removed p b ∷ t) = data_events t
data_events (progress n k m ∷ t) = data_events t
data_events (file_done n m ∷ t) = data_events t

pub synced_contents-data_events :
    (t : List Event) → synced_contents (data_events t) ≡ synced_contents t
synced_contents-data_events [] = refl
synced_contents-data_events (synced p b ∷ t) = ap (λ r. (p, b) ∷ r) (synced_contents-data_events t)
synced_contents-data_events (wrote p n b ∷ t) = synced_contents-data_events t
synced_contents-data_events (renamed p q ∷ t) = synced_contents-data_events t
synced_contents-data_events (removed p b ∷ t) = synced_contents-data_events t
synced_contents-data_events (progress n k m ∷ t) = synced_contents-data_events t
synced_contents-data_events (file_done n m ∷ t) = synced_contents-data_events t

-- A lookup by cases that keeps its equation.
Node-cases : (o : Option Node) → (o ≡ none) ⊎ (((b : Bytes) × (o ≡ some (file b))) ⊎ (o ≡ some dir))
Node-cases none = inl refl
Node-cases (some (file b)) = inr (inl (b, refl))
Node-cases (some dir) = inr (inr refl)

module _ {sys : System} {P : Assertion} where
  -- `metadata` only looks.
  pub metadata-Triple :
      {R : IoError → Assertion} (p : FilePath)
      → ((e : IoError) (d : Disk) (t : List Event) → P d t → R e d t)
      → Triple sys P (metadata p) (λ m d t. P d t × (stat (d p) ≡ ok m)) R
  unfolding metadata stat
  metadata-Triple {R} p fail = Triple-syscall _ (λ w q. step w q (w.disk p) refl) fail
    where
      step :
          (w : World)
          → P w.disk w.trace
          → (o : Option Node) → w.disk p ≡ o
          → Post (λ m d t. P d t × (stat (d p) ≡ ok m)) R (stat o, w)
      step w q none e = fail _ _ _ q
      step w q (some (file b)) e = (q, ap stat e)
      step w q (some dir) e = (q, ap stat e)

  -- So does `read`.
  pub read-Triple :
      {R : IoError → Assertion} (p : FilePath)
      → ((e : IoError) (d : Disk) (t : List Event) → P d t → R e d t)
      → Triple sys P (read p) (λ b d t. P d t × (d p ≡ some (file b))) R
  unfolding read contents
  read-Triple {R} p fail = Triple-syscall _ (λ w q. step w q (w.disk p) refl) fail
    where
      step :
          (w : World)
          → P w.disk w.trace
          → (o : Option Node) → w.disk p ≡ o
          → Post (λ b d t. P d t × (d p ≡ some (file b))) R (contents o, w)
      step w q none e = fail _ _ _ q
      step w q (some (file b)) e = (q, e)
      step w q (some dir) e = fail _ _ _ q

  pub open_write-Triple :
      {R : IoError → Assertion} (p : FilePath)
      → ((e : IoError) (d : Disk) (t : List Event) → P d t → R e d t)
      → Triple sys P (open_write p) (λ h d t. P d t × (h ≡ record { path = p; pos = 0 })) R
  unfolding open_write
  open_write-Triple {R} p fail = Triple-syscall _ (λ w q. step w q (w.disk p)) fail
    where
      step :
          (w : World)
          → P w.disk w.trace
          → (o : Option Node)
          → Post (λ h d t. P d t × (h ≡ record { path = p; pos = 0 })) R (opened p o, w)
      step w q none = fail _ _ _ q
      step w q (some (file b)) = (q, refl)
      step w q (some dir) = fail _ _ _ q

  pub seek-Triple :
      {R : IoError → Assertion} (h : Handle) (n : ℕ)
      → ((e : IoError) (d : Disk) (t : List Event) → P d t → R e d t)
      → Triple sys P (seek h n) (λ k d t. P d t × (k ≡ record h { pos = n })) R
  unfolding seek
  seek-Triple h n fail = Triple-syscall _ (λ w q. (q, refl)) fail

-- Calls on a file that is there, with any assertions that hold of the changed world.
module _ {sys : System} {P : Assertion} (p : FilePath)
    (there : (d : Disk) (t : List Event) → P d t → (b : Bytes) × (d p ≡ some (file b))) where
  pub sync_all-Triple :
      {Q : Unit {0} → Assertion} {R : IoError → Assertion} (n : ℕ)
      → ((b : Bytes) (d : Disk) (t : List Event)
          → d p ≡ some (file b)
          → P d t
          → Q tt d (synced p b ∷ t))
      → ((e : IoError) (d : Disk) (t : List Event) → P d t → R e d t)
      → Triple sys P (sync_all (record { path = p; pos = n })) Q R
  unfolding sync_all
  sync_all-Triple {Q} {R} n run fail =
      Triple-syscall _ (λ w q. let (b, e) = there w.disk w.trace q in rw e (run b _ _ e q)) fail

  pub set_len-Triple :
      {Q : Unit {0} → Assertion} {R : IoError → Assertion} (n m : ℕ)
      → ((b : Bytes) (d : Disk) (t : List Event)
          → d p ≡ some (file b)
          → P d t
          → Q tt (update d p (some (file (resize b m)))) t)
      → ((e : IoError) (d : Disk) (t : List Event) → P d t → R e d t)
      → Triple sys P (set_len (record { path = p; pos = n }) m) Q R
  unfolding set_len
  set_len-Triple {Q} {R} n m run fail =
      Triple-syscall _ (λ w q. let (b, e) = there w.disk w.trace q in rw e (run b _ _ e q)) fail

  pub remove_file-Triple :
      {Q : Unit {0} → Assertion} {R : IoError → Assertion}
      → ((b : Bytes) (d : Disk) (t : List Event)
          → d p ≡ some (file b)
          → P d t
          → Q tt (update d p none) (removed p b ∷ t))
      → ((e : IoError) (d : Disk) (t : List Event) → P d t → R e d t)
      → Triple sys P (remove_file p) Q R
  unfolding remove_file
  remove_file-Triple {Q} {R} run fail =
      Triple-syscall _ (λ w q. let (b, e) = there w.disk w.trace q in rw e (run b _ _ e q)) fail

  pub rename-Triple :
      {Q : Unit {0} → Assertion} {R : IoError → Assertion} (q : FilePath)
      → ((b : Bytes) (d : Disk) (t : List Event)
          → d p ≡ some (file b)
          → P d t
          → Q tt (update (update d p none) q (some (file b))) (renamed p q ∷ t))
      → ((e : IoError) (d : Disk) (t : List Event) → P d t → R e d t)
      → Triple sys P (rename p q) Q R
  unfolding rename
  rename-Triple {Q} {R} q run fail = Triple-syscall _ (λ w h. step w h (w.disk q)) fail
    where
      step :
          (w : World) → P w.disk w.trace → (o : Option Node) → Post Q R (moved p q (w.disk p) o w)
      step w h (some dir) = let (b, e) = there w.disk w.trace h in rw e (fail _ _ _ h)
      step w h none = let (b, e) = there w.disk w.trace h in rw e (run b _ _ e h)
      step w h (some (file c)) = let (b, e) = there w.disk w.trace h in rw e (run b _ _ e h)

  pub write_all-Triple :
      {Q : Handle → Assertion} {R : IoError → Assertion} (n : ℕ) (chunk : Bytes)
      → ((b : Bytes) (d : Disk) (t : List Event)
          → d p ≡ some (file b)
          → P d t
          → Q
              (record { path = p; pos = n + length chunk })
              (update d p (some (file (overwrite b n chunk))))
              (wrote p n chunk ∷ t))
      → ((e : IoError) (k : ℕ) (b : Bytes) (d : Disk) (t : List Event)
          → d p ≡ some (file b)
          → P d t
          → R e
              (update d p (some (file (overwrite b n (take k chunk)))))
              (wrote p n (take k chunk) ∷ t))
      → Triple sys P (write_all (record { path = p; pos = n }) chunk) Q R
  unfolding write_all
  write_all-Triple {Q} {R} n chunk run fail = record {
    at = λ w q. step w q (sys.os.fault w.now) (there w.disk w.trace q);
  }
    where
      step :
          (w : World)
          → P w.disk w.trace
          → (o : Option IoError) → ((b : Bytes) × (w.disk p ≡ some (file b)))
          → let w' = record w { now = w.now + 1 } in
            let h : Handle = record { path = p; pos = n } in
            let part = take (sys.os.written_before_fault w.now) chunk in
            Post Q R (elim o [
              | none ↦ put h chunk (w.disk p) w'
              | some e ↦ (err e, (put h part (w.disk p) w').1)
            ])
      step w q none (b, e) = rw e (run b _ _ e q)
      step w q (some x) (b, e) = rw e (fail x _ b _ _ e q)

-- A write inside the file leaves its length, what stands before it and what stands behind it.
pub length-overwrite :
    (b : Bytes) (n : ℕ) (chunk : Bytes)
    → n + length chunk ≤ length b
    → length (overwrite b n chunk) ≡ length b
unfolding overwrite
length-overwrite b n chunk h = omega (
  arith,
  length-append (take n b) (chunk ++ drop (n + length chunk) b),
  length-append chunk (drop (n + length chunk) b),
  length-take n b,
  length-drop (n + length chunk) b,
)

pub resize_self : (b : Bytes) → resize b (length b) ≡ b
unfolding resize
resize_self b =
    let none_left : length b - length b ≡ 0 = omega arith in rw (none_left, take-length, append-nil)
