-- ===== src/Vault/Entries.antt =====
-- vault/mod.rs: `add_file`.
use secure_file_shredder_and.Base.{
  suc, ◌≡◌, ◌≢◌, ◌≤◌, refl, sym, ap, ◌∙◌, false, some, [], ◌∷◌, ◌++◌, Bytes, Text, length,
  replicate, bytes_eq, bytes_eq_iff, arith,
}
use secure_file_shredder_and.Io.Outcome.{ok}
use secure_file_shredder_and.Io.Path.{
  FilePath, root_dir, cur_dir, parent_dir, normal, join, set_file_name, file_name,
}
use secure_file_shredder_and.Io.System.{System}
use secure_file_shredder_and.Io.Action.{file, Disk}
use secure_file_shredder_and.Io.Triple.{
  Assertion, Triple, Triple-ask, Triple-bind, Triple-map_err, Triple-given, Triple-pure,
  Triple-weaken,
}
use secure_file_shredder_and.Io.Files.Laws.{read-Triple}
use secure_file_shredder_and.Io.Files.Whole.{SameBut, write-Triple}
use secure_file_shredder_and.Io.Folders.Laws.{SameFiles, create_dir_all-Triple}
use secure_file_shredder_and.Crypto.Rng.Laws.{FillsBuffers, secure_random_bytes-errors}
use secure_file_shredder_and.Crypto.Hashing.{sha256_hex}
use secure_file_shredder_and.Vault.Container.{EntryMeta, Vault, HeaderJson, find_entry}
use secure_file_shredder_and.Vault.Container.Laws.{SealsHeaders, find_entry-insert_entry}
use secure_file_shredder_and.Vault.Persist.{IsOutside, Written, sealed-Triple, persist-Triple}
use secure_file_shredder_and.Vault.{add_file, entries_dir, entry_blob_path, with_entry, or_unnamed}

length-set_file_name : (p : FilePath) (n : Text) → length p ≤ length (set_file_name p n)
unfolding set_file_name
length-set_file_name [] n = omega arith
length-set_file_name (root_dir ∷ p) n = omega arith
length-set_file_name (cur_dir ∷ p) n = omega arith
length-set_file_name (parent_dir ∷ p) n = omega arith
length-set_file_name (normal m ∷ p) n = omega arith

-- A path in the directory of the entries is longer than the container's.
pub in_entries_dir_ne : (v : Vault) (name : Text) → join (entries_dir v) name ≢ v.path
unfolding join entries_dir
in_entries_dir_ne v name e =
    let l : suc (length (entries_dir v)) ≡ length v.path = ap length e in
    let m : length v.path ≤ length (entries_dir v) = length-set_file_name v.path _ in
    absurd (omega (arith, l, m))

bytes_ne : (a b : Text) → a ≢ b → bytes_eq a b ≡ false
bytes_ne a b h = ground (arith, h, bytes_eq_iff a b)

-- The files outside the container and the directory of the entries are still there.
abbrev pub Kept : Vault → Disk → Disk → Type 0
Kept v d₀ d =
    (q : FilePath) (c : Bytes)
    → q ≢ v.path
    → ((name : Text) → q ≢ join (entries_dir v) name)
    → d₀ q ≡ some (file c)
    → d q ≡ some (file c)

-- The vault's table has the entry, with the hash of the content, and the encrypted content is at
-- its path.
pub record IsEntry (sys : System) (v : Vault) (entry_id : Text) (b : Bytes) (d : Disk)
    : Type 0 where
  pub meta : EntryMeta
  pub nonce : Bytes
  pub ciphertext : Bytes
  pub found : find_entry entry_id v.header.entries ≡ some meta
  pub hash : meta.sha256 ≡ sha256_hex sys.crates b
  pub size : meta.size ≡ length b
  pub blob : d (entry_blob_path v entry_id) ≡ some (file (nonce ++ ciphertext))
  pub length-nonce : length nonce ≡ 12
  pub seals : sys.crates.aes_encrypt v.key nonce b entry_id ≡ ok ciphertext

-- What `add_file` leaves of a source.
pub record Added (sys : System) (v : Vault) (source : FilePath) (d₀ : Disk) (entry_id : Text)
    (v' : Vault) (d : Disk) : Type 0 where
  pub content : Bytes
  pub read : d₀ source ≡ some (file content)
  pub path : v'.path ≡ v.path
  pub key : v'.key ≡ v.key
  pub entry : IsEntry sys v' entry_id content d
  -- the entries of other ids
  pub others :
      (id : Text) → id ≢ entry_id → find_entry id v'.header.entries ≡ find_entry id v.header.entries

module _ (v : Vault) (d₀ : Disk) {d d' : Disk} where
  Kept-SameFiles : Kept v d₀ d → SameFiles d d' → Kept v d₀ d'
  Kept-SameFiles h same q c n m f = (same q c).0 (h q c n m f)

  Kept-blob :
      (entry_id : Text) → Kept v d₀ d → SameBut (entry_blob_path v entry_id) d d' → Kept v d₀ d'
  unfolding entry_blob_path
  Kept-blob entry_id h same q c n m f = same q (m _) ∙ h q c n m f

  Kept-container : Kept v d₀ d → SameBut v.path d d' → Kept v d₀ d'
  Kept-container h same q c n m f = same q n ∙ h q c n m f

Kept-refl : (v : Vault) {d d₀ : Disk} → d ≡ d₀ → Kept v d₀ d
Kept-refl v e q c n m f = ap (λ (d : Disk). d q) e ∙ f

abbrev meta_of : FilePath → Bytes → Text → EntryMeta
meta_of source b sha = record {
  original_name = or_unnamed (file_name source);
  size = length b;
  sha256 = sha;
}

module _ {sys : System} {json : HeaderJson} (laws : SealsHeaders sys.crates json)
    (fills : FillsBuffers sys) (v : Vault) (k : length v.key ≡ 32) where
  blob_ne : (entry_id : Text) → entry_blob_path v entry_id ≢ v.path
  unfolding entry_blob_path
  blob_ne entry_id = in_entries_dir_ne v _

  added :
      (source : FilePath) (d₀ : Disk) (b : Bytes) (sha entry_id nonce ciphertext : Bytes) (d : Disk)
      → d₀ source ≡ some (file b)
      → sha ≡ sha256_hex sys.crates b
      → length nonce ≡ 12
      → sys.crates.aes_encrypt v.key nonce b entry_id ≡ ok ciphertext
      → d (entry_blob_path v entry_id) ≡ some (file (nonce ++ ciphertext))
      → Added sys v source d₀ entry_id (with_entry v entry_id (meta_of source b sha)) d
  unfolding entry_blob_path entries_dir
  added source d₀ b sha entry_id nonce ciphertext d there hashed n seals here =
      let meta = meta_of source b sha in
      let self = (bytes_eq_iff entry_id entry_id).1 refl in
      record {
        content = b;
        read = there;
        path = refl;
        key = refl;
        entry = record {
          meta = meta;
          nonce = nonce;
          ciphertext = ciphertext;
          found = find_entry-insert_entry entry_id meta v.header.entries entry_id ∙ rw self refl;
          hash = hashed;
          size = refl;
          blob = here;
          length-nonce = n;
          seals = seals;
        };
        others = λ id ne.
            find_entry-insert_entry entry_id meta v.header.entries id
            ∙ rw (bytes_ne entry_id id (λ e. ne (sym e))) refl;
      }

  -- With random buffers of the length that is asked for and ciphers and a printer that end without a
  -- panic, `add_file` puts the encrypted content of the source and its hash into the vault, under
  -- the id that it returns, keeps the entries of the other ids, and puts a container of the new
  -- vault, encrypted with its key, at the vault's path. An error is of the system, the ciphers or the printer. All files outside the container and the directory of the
  -- entries keep what they held, on an error too.
  pub add_file-Triple :
      (source : FilePath) (d₀ : Disk)
      → Triple sys
          (λ d t. d ≡ d₀)
          (add_file json v source)
          (λ out d t.
            Kept v d₀ d × Added sys v source d₀ out.0 out.1 d × Written sys json out.1 d t)
          (λ e d t. Kept v d₀ d × IsOutside e)
  unfolding add_file
  add_file-Triple source d₀ =
      Triple-bind {S = λ b d t. Kept v d₀ d × (d₀ source ≡ some (file b))}
        (Triple-map_err _ (
          Triple-weaken (read-Triple source (λ e d t h. h)) (λ d t h. h)
            (λ b d t h. (Kept-refl v h.0, sym (ap (λ (d : Disk). d source) h.0) ∙ h.1))
            (λ e d t h. (Kept-refl v h, tt))))
        λ b. Triple-given λ d t (_, there).
          Triple-bind {S = λ sha d t. Kept v d₀ d × (sha ≡ sha256_hex sys.crates b)}
            (Triple-ask _ (λ n d t h. (h.0, refl)))
            λ sha. Triple-given λ d t (_, hashed).
              Triple-bind {S = λ random. Kept'}
                (Triple-weaken (secure_random_bytes-errors fills Kept' (replicate 16 0))
                  (λ d t h. h.0) (λ out d t h. h.0) (λ e d t h. (h.0, rw h.1.1 tt)))
                λ random.
                  Triple-bind {S = λ entry_id. Kept'} (Triple-ask _ (λ n d t h. h)) λ entry_id.
                    Triple-bind (sealed-Triple laws fills Kept' v.key b entry_id k) λ out.
                      Triple-given λ d t (_, n, seals).
                        Triple-bind {S = λ _. Kept'}
                          (Triple-map_err _ (
                            create_dir_all-Triple (entries_dir v)
                              (λ d d' t h same. Kept-SameFiles v d₀ h.0 same)
                              (λ e d t h. (h.0, tt))))
                          λ _.
                            Triple-bind
                              {S = λ _ d t.
                                Kept' d t
                                × (d (entry_blob_path v entry_id) ≡ some (file (out.0 ++ out.1)))}
                              (Triple-map_err _ (
                                write-Triple (entry_blob_path v entry_id) (out.0 ++ out.1)
                                  (λ d d' t t' h here same. (Kept-blob v d₀ entry_id h same, here))
                                  (λ e d d' t t' h same. (Kept-blob v d₀ entry_id h same, tt))))
                              λ _.
                                Triple-bind
                                  {S = λ _ d t.
                                    Kept' d t
                                    × Added sys v source d₀ entry_id
                                        (with_entry v entry_id (meta_of source b sha)) d
                                    × Written sys json
                                        (with_entry v entry_id (meta_of source b sha)) d t}
                                  (persist-Triple laws fills
                                    (with_entry v entry_id (meta_of source b sha)) k
                                    (λ c d d' t t' h shape here same. (
                                      Kept-container v d₀ h.0 same,
                                      added source d₀ b sha entry_id out.0 out.1 d' there hashed n
                                          seals (same _ (blob_ne entry_id) ∙ h.1),
                                      (c, here, shape),
                                    ))
                                    (λ e d d' t t' h outside same.
                                      (Kept-container v d₀ h.0 same, outside)))
                                  λ _. Triple-pure _ (λ d t h. h)
    where
      Kept' : Assertion
      Kept' d t = Kept v d₀ d
