-- ===== src/Vault/Destroy.antt =====
-- vault/mod.rs: `destroy`.
use secure_file_shredder_and.Base.{
  ◌⊎◌, inl, inr, ◌≡◌, refl, sym, ap, ◌∙◌, Bool, true, false, Option, none, some, List, [], ◌∷◌,
  Bytes, Text, length, replicate,
}
use secure_file_shredder_and.Io.Path.{FilePath, join, parent}
use secure_file_shredder_and.Io.Error.{IoError}
use secure_file_shredder_and.Io.System.{System}
use secure_file_shredder_and.Io.Action.{Node, file, dir, Disk, Event}
use secure_file_shredder_and.Io.Returns.{Returns, Triple-lift}
use secure_file_shredder_and.Io.Triple.{
  Assertion, Triple, Triple-bind, Triple-map_err, Triple-fixed, Triple-ignore, Triple-pure,
  Triple-weaken,
}
use secure_file_shredder_and.Io.Files.Laws.{synced_contents}
use secure_file_shredder_and.Io.Folders.{is_regular, is_folder}
use secure_file_shredder_and.Io.Folders.Laws.{look-Triple, read_dir-Triple, remove_dir-Triple}
use secure_file_shredder_and.Crypto.Rng.Laws.{FillsBuffers}
use secure_file_shredder_and.Storage.Device.Laws.{detect_storage_for_path-Triple}
use secure_file_shredder_and.Sanitize.Metadata.Laws.{Untouched}
use secure_file_shredder_and.Sanitize.Engine.{Job, ShredOutcome}
use secure_file_shredder_and.Sanitize.Engine.Shred.{job_of, Shredded, Survives, shred_file-Triple}
use secure_file_shredder_and.Crypto.Memory.{secure_zero-replicate}
use secure_file_shredder_and.Vault.Container.{Vault}
use secure_file_shredder_and.Vault.Entries.{in_entries_dir_ne}
use secure_file_shredder_and.Vault.{
  entries_dir, destroy, destroy_blob, destroy_entries, destroy_folder, purge_options, entry_name,
}

entry_name-Returns : (entry : IoError ⊎ Text) → Returns (entry_name entry)
entry_name-Returns (inl e) = tt
entry_name-Returns (inr name) = tt

is_regular-file : (o : Option Node) → is_regular o ≡ true → (c : Bytes) × (o ≡ some (file c))
is_regular-file (some (file c)) e = (c, refl)
is_regular-file (some dir) e = absurd (cc e)
is_regular-file none e = absurd (cc e)

module _ {sys : System} (fills : FillsBuffers sys) (v : Vault) (b : Bytes) where
  -- The container is as it was.
  abbrev Intact : Assertion
  Intact d t = d v.path ≡ some (file b)

  -- What is done to a path in the directory of the entries leaves the container.
  outside :
      (name : Text) {d₀ d : Disk}
      → Untouched sys (join (entries_dir v) name) d₀ d
      → d v.path ≡ d₀ v.path
  unfolding join parent
  outside name h =
      h v.path (λ e. in_entries_dir_ne v name (sym e))
        (λ dir e (bytes, r).
          let same : dir ≡ entries_dir v = cc in
          let hex = sys.crates.hex_encode bytes in
          in_entries_dir_ne v hex (sym (r ∙ ap (λ (x : FilePath). join x hex) same)))

  destroy_blob-Triple :
      (name : Text) (regular : Bool)
      → Triple sys
          (λ d t.
            Intact d t
            × (regular ≡ true → (c : Bytes) × (d (join (entries_dir v) name) ≡ some (file c))))
          (destroy_blob (join (entries_dir v) name) regular)
          (λ u. Intact)
          (λ e. Intact)
  unfolding destroy_blob
  destroy_blob-Triple name false = Triple-pure tt (λ d t h. h.0)
  destroy_blob-Triple name true =
      let p = join (entries_dir v) name in
      Triple-bind
        (Triple-weaken (detect_storage_for_path-Triple _ p) (λ d t h. h) (λ i d t h. h.0)
          (λ e d t h. elim h [ ]))
        λ storage. Triple-fixed λ d t (intact, regular).
          let (c, there) = regular refl in
          Triple-ignore (
            Triple-weaken
              (shred_file-Triple p purge_options storage false false d (synced_contents t) c fills
                there)
              (λ d' t' h. (h.0, ap synced_contents h.1))
              (λ o d' t' h. outside name h.others ∙ intact)
              (λ e d' t' h. outside name h.others ∙ intact))

  destroy_entries-Triple :
      (names : List (IoError ⊎ Text))
      → Triple sys Intact (destroy_entries (entries_dir v) names) (λ u. Intact) (λ e. Intact)
  unfolding destroy_entries
  destroy_entries-Triple [] = Triple-pure tt (λ d t h. h)
  destroy_entries-Triple (entry ∷ rest) =
      Triple-bind {S = λ name. Intact}
        (Triple-map_err _ (
          Triple-lift (entry_name entry) (entry_name-Returns entry) (λ name d t e h. h)
            (λ x d t e h. h)))
        λ name.
          Triple-bind
            {S = λ regular d t.
              Intact d t
              × (regular ≡ true → (c : Bytes) × (d (join (entries_dir v) name) ≡ some (file c)))}
            (look-Triple is_regular _ (λ d t h. (h, is_regular-file _))
              (λ d t h. (h, λ e. absurd (cc e))))
            λ regular.
              Triple-bind (destroy_blob-Triple name regular) λ _. destroy_entries-Triple rest

  destroy_folder-Triple :
      (there : Bool)
      → Triple sys Intact (destroy_folder (entries_dir v) there) (λ u. Intact) (λ e. Intact)
  unfolding destroy_folder
  destroy_folder-Triple false = Triple-pure tt (λ d t h. h)
  destroy_folder-Triple true =
      Triple-bind {S = λ names. Intact} (Triple-map_err _ (read_dir-Triple _)) λ names.
        Triple-bind (destroy_entries-Triple names)
          λ _. Triple-ignore (remove_dir-Triple _ (λ d d' t h same. (same _ _).0 h))

  -- A world in which the container was untouched when its own shredding began.
  pub record Begun (C : Disk → List (FilePath × Bytes) → Type 0) : Type 0 where
    pub disk : Disk
    pub synced : List (FilePath × Bytes)
    pub container : disk v.path ≡ some (file b)
    pub rest : C disk synced

  -- With random sources that fill a buffer to its length and a container that is a file, `destroy`
  -- ends without a panic. On success bytes of a random source were written over the whole container
  -- and synced, it was unlinked with them, and its path is empty; the key is all zeros and the table empty. On an error a
  -- file of the container's length is still there, at its path or at a random name beside it. What happens to the blobs does not matter.
  pub destroy-Triple :
      let job = job_of v.path purge_options false false b in
      Triple sys Intact
        (destroy v)
        (λ v' d t.
          (v'.key ≡ replicate (length v.key) 0)
          × (v'.header.entries ≡ [])
          × (d v.path ≡ none)
          × ((o : ShredOutcome) × Begun (λ d₁ s₁. Shredded sys job d₁ s₁ o d t)))
        (λ e d t. Begun (λ d₁ s₁. Survives sys job d₁ s₁ d t))
  unfolding destroy
  destroy-Triple =
      Triple-bind {S = λ there. Intact} (look-Triple is_folder _ (λ d t h. h) (λ d t h. h)) λ there.
        Triple-bind
          (Triple-weaken (destroy_folder-Triple there) (λ d t h. h) (λ u d t h. h)
            (λ e d t h. still_there d t h))
          λ _.
            Triple-bind
              (Triple-weaken (detect_storage_for_path-Triple _ v.path) (λ d t h. h) (λ i d t h. h.0)
                (λ e d t h. elim h [ ]))
              λ storage. Triple-fixed λ d₁ t₁ intact.
                Triple-bind
                  {S = λ o d t. (d v.path ≡ none) × Begun (λ d₁ s₁. Shredded sys job d₁ s₁ o d t)}
                  (Triple-weaken
                    (shred_file-Triple v.path purge_options storage false false d₁
                      (synced_contents t₁) b fills intact)
                    (λ d t h. (h.0, ap synced_contents h.1))
                    (λ o d t h. (h.gone, begun d₁ t₁ intact h)) (λ e d t h. begun d₁ t₁ intact h))
                  λ o. Triple-pure _ (λ d t h. (secure_zero-replicate v.key, refl, h.0, (o, h.1)))
    where
      job : Job
      job = job_of v.path purge_options false false b

      begun :
          {C : Disk → List (FilePath × Bytes) → Type 0} (d₁ : Disk) (t₁ : List Event)
          → d₁ v.path ≡ some (file b)
          → C d₁ (synced_contents t₁)
          → Begun C
      begun d₁ t₁ intact c = record {
        disk = d₁;
        synced = synced_contents t₁;
        container = intact;
        rest = c;
      }

      still_there :
          (d : Disk) (t : List Event)
          → d v.path ≡ some (file b)
          → Begun (λ d₁ s₁. Survives sys job d₁ s₁ d t)
      still_there d t h = begun d t h (record {
        name = v.path;
        placed = inl refl;
        content = b;
        here = h;
        long = refl;
        others = λ q n r. refl;
      })
