-- ===== src/Sanitize/Metadata/Laws.antt =====
-- A file while it is renamed and unlinked.
use secure_file_shredder_and.Base.{
  ℕ, zero, suc, ◌≡◌, ◌≢◌, ◌⊎◌, inl, inr, refl, sym, ◌∙◌, Bool, true, false, Option, none, some,
  List, ◌∷◌, Bytes, arith,
}
use secure_file_shredder_and.Io.Path.{FilePath, FilePath-discrete, parent, join}
use secure_file_shredder_and.Io.Error.{io}
use secure_file_shredder_and.Io.System.{System}
use secure_file_shredder_and.Io.Action.{Node, file, Disk, Event, removed, renamed, map_err}
use secure_file_shredder_and.Io.Triple.{
  Assertion, Triple, Triple-pure, Triple-raise, Triple-ask, Triple-bind, Triple-map_err, Triple-try,
  Triple-ignore, Triple-given, Triple-pre, Triple-weaken,
}
use secure_file_shredder_and.Io.Outcome.{ok}
use secure_file_shredder_and.Io.Files.{update, resize, stat, Metadata, remove_file}
use secure_file_shredder_and.Io.Files.Laws.{
  same_content, update_self, update_ne, update_same, stat_file, data_events, metadata-Triple,
  open_write-Triple, set_len-Triple, remove_file-Triple, rename-Triple, resize_self,
}
use secure_file_shredder_and.Crypto.Rng.{secure_random_vec}
use secure_file_shredder_and.Crypto.Rng.Laws.{FillsBuffers, secure_random_bytes-Triple}
use secure_file_shredder_and.Sanitize.Metadata.{
  or_zeros, random_filename, rename_loop, rename_rounds, clear_timestamps, rename_in,
  sanitize_metadata_and_unlink,
}

-- A name that the renames may give in a directory.
abbrev pub IsRandomName : System → FilePath → FilePath → Type 0
IsRandomName sys dir q = (bytes : Bytes) × (q ≡ join dir (sys.crates.hex_encode bytes))

-- Where the renames may put the file.
abbrev pub Placed : System → FilePath → FilePath → Type 0
Placed sys path q =
    (q ≡ path) ⊎ ((dir : FilePath) × (parent path ≡ some dir) × IsRandomName sys dir q)

-- Every other path holds what it held.
abbrev pub Untouched : System → FilePath → Disk → Disk → Type 0
Untouched sys path d₀ d =
    (q : FilePath)
    → q ≢ path
    → ((dir : FilePath) → parent path ≡ some dir → ¬ IsRandomName sys dir q)
    → d q ≡ d₀ q

-- Once a file was renamed away, its old path stays empty until it is given again.
emptied :
    (d : Disk) (cur path : FilePath)
    → (cur ≡ path) ⊎ (d path ≡ none)
    → update d cur none path ≡ none
unfolding update
emptied d cur path h = ground arith

module _ {sys : System} (fills : FillsBuffers sys) (path : FilePath) (d₀ : Disk) (b : Bytes)
    (s : List Event) where
  -- The file, with content `b`, is at `current` and no longer at `path`.
  pub record Held (current : FilePath) (d : Disk) (t : List Event) : Type 0 where
    pub here : d current ≡ some (file b)
    pub moved_away : (current ≡ path) ⊎ (d path ≡ none)
    pub others : Untouched sys path d₀ d
    pub same_data : data_events t ≡ s

  -- Nothing of the content is lost: it is at its path or at a random name.
  abbrev pub Kept : Assertion
  Kept d t = (q : FilePath) × Held q d t × Placed sys path q

  module _ (dir : FilePath) (in_dir : parent path ≡ some dir) where
    abbrev Named : FilePath → Type 0
    Named q = (q ≡ path) ⊎ IsRandomName sys dir q

    placed : (q : FilePath) → Named q → Placed sys path q
    placed q (inl e) = inl e
    placed q (inr r) = inr (dir, in_dir, r)

    random_filename-Triple :
        (P : Assertion)
        → Triple sys P random_filename
            (λ name d t. P d t × ((bytes : Bytes) × (name ≡ sys.crates.hex_encode bytes)))
            (λ e. P)
    unfolding random_filename secure_random_vec
    random_filename-Triple P =
        Triple-bind {S = λ o. P}
          (Triple-try (
            Triple-weaken (secure_random_bytes-Triple fills P _) (λ d t p. p) (λ o d t p. p.0)
              (λ e d t p. p)))
          λ o. Triple-ask _ (λ n d t p. (p, (or_zeros o, refl)))

    not-eq_of_Named : (q cur : FilePath) → q ≢ path → ¬ IsRandomName sys dir q → Named cur → q ≢ cur
    not-eq_of_Named q cur ne nn (inl e) f = ne (f ∙ e)
    not-eq_of_Named q cur ne nn (inr (bytes, e)) f = nn (bytes, f ∙ e)

    away :
        (d : Disk) (cur q : FilePath) (v : Option Node)
        → (cur ≡ path) ⊎ (d path ≡ none)
        → (q ≡ path) ⊎ (update (update d cur none) q v path ≡ none)
    away d cur q v h = elim (FilePath-discrete q path) [
      | yes e ↦ inl e
      | no ne ↦ inr (update_ne _ q path v (λ e. ne (sym e)) ∙ emptied d cur path h)
    ]

    rename_step :
        (cur : FilePath) (bytes : Bytes) (d : Disk) (t : List Event)
        → Named cur
        → Held cur d t
        → let q = join dir (sys.crates.hex_encode bytes) in
          Held q (update (update d cur none) q (some (file b))) (renamed cur q ∷ t)
    rename_step cur bytes d t n h = record {
      here = update_self _ _ _;
      moved_away = away d cur _ _ h.moved_away;
      others = λ r ne nn.
          update_ne _ _ r _ (λ e. nn dir in_dir (bytes, e))
          ∙ update_ne d cur r none (not-eq_of_Named r cur ne (nn dir in_dir) n)
          ∙ h.others r ne nn;
      same_data = h.same_data;
    }

    rename_loop-Triple :
        (rounds : ℕ) (cur : FilePath)
        → Named cur
        → Triple sys
            (Held cur)
            (rename_loop rounds dir cur)
            (λ q d t. Held q d t × Named q)
            (λ e. Kept)
    unfolding rename_loop
    rename_loop-Triple zero cur n = Triple-pure cur (λ d t h. (h, n))
    rename_loop-Triple (suc rounds) cur n =
        Triple-bind
          (Triple-weaken (random_filename-Triple (Held cur)) (λ d t h. h) (λ a d t h. h)
            (λ e d t h. (cur, h, placed cur n)))
          λ name. Triple-given λ d t (h, (bytes, e)).
            let q = join dir (sys.crates.hex_encode bytes) in
            rw e (
              Triple-bind {S = λ _. Held q}
                (Triple-map_err _ (
                  rename-Triple cur (λ d t g. (b, g.0.here)) q
                    (λ c d t f g. rw (same_content f g.0.here) (rename_step cur bytes d t n g.0))
                    (λ e d t g. (cur, g.0, placed cur n))))
                λ _. rename_loop-Triple rounds q (inr (bytes, refl)))

    same_length :
        (q : FilePath) (c : Bytes) (m : Metadata) (d : Disk) (t : List Event)
        → d q ≡ some (file c)
        → stat (d q) ≡ ok m
        → Held q d t
        → Held q (update d q (some (file (resize c m.len)))) t
    same_length q c m d t f e h =
        rw (stat_file m f e, resize_self, update_same d q (some (file c)) f) h

    clear_timestamps-Triple :
        (q : FilePath) → Triple sys (Held q) (clear_timestamps q) (λ _. Held q) (λ _. Held q)
    unfolding clear_timestamps stat
    clear_timestamps-Triple q = Triple-bind (open_write-Triple q (λ e d t h. h)) λ f.
        Triple-given λ d t (h, e). rw e (
          Triple-bind (Triple-pre (metadata-Triple q (λ e d t h. h)) (λ d t h. h.0)) λ m.
            set_len-Triple q (λ d t g. (b, g.0.here)) 0 m.len
              (λ c d t f g. same_length q c m d t f g.1 g.0) (λ e d t g. g.0))

    rename_in-Triple :
        Triple sys
          (Held path)
          (rename_in path (some dir))
          (λ q d t. Held q d t × Placed sys path q)
          (λ e. Kept)
    unfolding rename_in
    rename_in-Triple =
        (Triple-bind (rename_loop-Triple rename_rounds path (inl refl)) λ current.
          Triple-given λ d t (h, n).
            Triple-bind {S = λ _. Held current}
              (Triple-ignore (Triple-pre (clear_timestamps-Triple current) (λ d t h. h.0)))
              λ _. Triple-pure current (λ d t h. (h, placed current n)))

  -- A file that was unlinked: it is at no path that it had, and what it held was `b`.
  abbrev pub Unlinked : Assertion
  Unlinked d t =
      (q : FilePath) × (t' : List Event) × (t ≡ removed q b ∷ t')
      × (data_events t' ≡ s)
      × (d path ≡ none)
      × Untouched sys path d₀ d

  remove_lem :
      (q : FilePath) (c : Bytes) (d : Disk) (t : List Event)
      → Placed sys path q
      → d q ≡ some (file c)
      → Held q d t
      → Unlinked (update d q none) (removed q c ∷ t)
  remove_lem q c d t n f h = (
    q,
    t,
    rw (same_content f h.here),
    h.same_data,
    emptied d q path h.moved_away,
    λ r ne nn. update_ne d q r none (not_placed r ne nn n) ∙ h.others r ne nn,
  )
    where
      not_placed :
          (r : FilePath)
          → r ≢ path
          → ((dir : FilePath) → parent path ≡ some dir → ¬ IsRandomName sys dir r)
          → Placed sys path q
          → r ≢ q
      not_placed r ne nn (inl e) g = ne (g ∙ e)
      not_placed r ne nn (inr (dir, i, (bytes, e))) g = nn dir i (bytes, g ∙ e)

  unlink-Triple :
      (q : FilePath)
      → Placed sys path q
      → Triple sys (Held q) (map_err (io q) (remove_file q)) (λ _. Unlinked) (λ e. Kept)
  unlink-Triple q n = Triple-map_err _ (
      remove_file-Triple q (λ d t g. (b, g.here)) (λ c d t f h. remove_lem q c d t n f h)
        (λ e d t g. (q, g, n)))

  -- With random sources that fill a buffer to its length, from a file with content `b` at `path`: on success the file is unlinked, its content at
  -- that moment was `b`, and nothing was written or synced since; on an error the content is still at the path or at one of the random
  -- names. Either way no other path changes, but for random names in the same directory.
  pub sanitize_metadata_and_unlink-Triple :
      (sanitize_filename : Bool)
      → Triple sys
          (Held path)
          (sanitize_metadata_and_unlink path sanitize_filename)
          (λ _. Unlinked)
          (λ e. Kept)
  unfolding sanitize_metadata_and_unlink
  sanitize_metadata_and_unlink-Triple false = unlink-Triple path (inl refl)
  sanitize_metadata_and_unlink-Triple true =
      Triple-bind (renamed-Triple (parent path) refl)
        λ current. Triple-given λ d t (h, n). Triple-pre (unlink-Triple current n) (λ d t h. h.0)
    where
      renamed-Triple :
          (o : Option FilePath)
          → parent path ≡ o
          → Triple sys
              (Held path)
              (rename_in path o)
              (λ q d t. Held q d t × Placed sys path q)
              (λ e. Kept)
      renamed-Triple none e = unfold rename_in in Triple-raise _ (λ d t h. (path, h, inl refl))
      renamed-Triple (some dir) e = rename_in-Triple dir e
