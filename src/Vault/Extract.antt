-- ===== src/Vault/Extract.antt =====
-- vault/mod.rs: `extract_entry`, alone and behind `add_file`.
use secure_file_shredder_and.Base.{
  ◌≡◌, refl, sym, ap, ◌∙◌, false, Option, none, some, ◌++◌, Bytes, Text, length, length-append,
  take, drop, take-append_eq, bytes_eq_iff, ltb, arith,
}
use secure_file_shredder_and.Io.Outcome.{Outcome, ok, ok_or}
use secure_file_shredder_and.Io.Path.{FilePath}
use secure_file_shredder_and.Io.System.{System}
use secure_file_shredder_and.Io.Action.{file, Disk, ◌>>=◌}
use secure_file_shredder_and.Io.Returns.{Triple-lift, ok_or-Returns}
use secure_file_shredder_and.Io.Triple.{
  Triple, Triple-ask, Triple-bind, Triple-map_err, Triple-given, Triple-weaken,
}
use secure_file_shredder_and.Io.Files.Laws.{read-Triple, same_content}
use secure_file_shredder_and.Io.Files.Whole.{write-Triple}
use secure_file_shredder_and.Crypto.Rng.Laws.{FillsBuffers}
use secure_file_shredder_and.Crypto.Aead.{aes256gcm_decrypt}
use secure_file_shredder_and.Crypto.Hashing.{sha256_hex}
use secure_file_shredder_and.Vault.Container.{EntryMeta, Vault, HeaderJson, find_entry}
use secure_file_shredder_and.Vault.Container.Laws.{SealsHeaders, drop-append_eq}
use secure_file_shredder_and.Vault.Persist.{IsOutside}
use secure_file_shredder_and.Vault.Entries.{IsEntry, add_file-Triple}
use secure_file_shredder_and.Vault.{add_file, extract_entry, entry_blob_path}

found_same : {o : Option EntryMeta} {a b : EntryMeta} → o ≡ some a → o ≡ some b → a ≡ b
found_same p q = cc

ok_or-some :
    {E : Type 0} {A : Type 0} (o : Option A) (e : E) (a : A)
    → Path (Outcome E A) (ok_or o e) (ok a)
    → o ≡ some a
ok_or-some (some b) e a q = cc
ok_or-some none e a q = absurd (cc q)

-- The bytes of an entry, as `add_file` makes them.
record IsBlob (sys : System) (key entry_id b : Bytes) (meta : EntryMeta) (blob : Bytes)
    : Type 0 where
  nonce : Bytes
  ciphertext : Bytes
  hash : meta.sha256 ≡ sha256_hex sys.crates b
  bytes : blob ≡ nonce ++ ciphertext
  length-nonce : length nonce ≡ 12
  seals : sys.crates.aes_encrypt key nonce b entry_id ≡ ok ciphertext

module _ {sys : System} {json : HeaderJson} (laws : SealsHeaders sys.crates json) where
  -- The nonce is the first twelve bytes, and the rest is decrypted to the content.
  opens :
      (key entry_id b blob : Bytes) (meta : EntryMeta)
      → length key ≡ 32
      → IsBlob sys key entry_id b meta blob
      → (ltb (length blob) 12 ≡ false)
        × (aes256gcm_decrypt sys.crates key (take 12 blob) (drop 12 blob) entry_id ≡ ok b)
  unfolding aes256gcm_decrypt
  opens key entry_id b blob meta k shape =
      let n = shape.length-nonce in
      let nonce_part : take 12 blob ≡ shape.nonce =
        rw shape.bytes (take-append_eq shape.nonce shape.ciphertext (sym n)) in
      let rest_part : drop 12 blob ≡ shape.ciphertext =
        rw shape.bytes (drop-append_eq shape.nonce shape.ciphertext (sym n)) in
      let opened = laws.cipher.opens key shape.nonce b entry_id shape.ciphertext shape.seals in
      (
        ground (arith, n, ap length shape.bytes, length-append shape.nonce shape.ciphertext),
        rw (nonce_part, rest_part, k, n, opened) refl,
      )

  IsBlob-of :
      (v : Vault) (entry_id b : Bytes) (meta : EntryMeta) (blob : Bytes) (d : Disk)
      → IsEntry sys v entry_id b d
      → find_entry entry_id v.header.entries ≡ some meta
      → d (entry_blob_path v entry_id) ≡ some (file blob)
      → IsBlob sys v.key entry_id b meta blob
  IsBlob-of v entry_id b meta blob d h found here = record {
    nonce = h.nonce;
    ciphertext = h.ciphertext;
    hash = ap (λ (m : EntryMeta). m.sha256) (found_same found h.found) ∙ h.hash;
    bytes = same_content here h.blob;
    length-nonce = h.length-nonce;
    seals = h.seals;
  }

  extract_entry-IsEntry :
      (v : Vault) (entry_id : Text) (dest : FilePath) (b : Bytes)
      → length v.key ≡ 32
      → Triple sys
          (λ d t. IsEntry sys v entry_id b d)
          (extract_entry v entry_id dest)
          (λ u d t. d dest ≡ some (file b))
          (λ e d t. IsOutside e)
  unfolding extract_entry
  extract_entry-IsEntry v entry_id dest b k =
      Triple-bind
        {S = λ meta d t.
          IsEntry sys v entry_id b d × (find_entry entry_id v.header.entries ≡ some meta)}
        (Triple-lift _ (ok_or-Returns _ _) (λ meta d t e h. (h, ok_or-some _ _ meta e))
          (λ x d t e h. absurd (cc (rw h.found at e))))
        λ meta.
          Triple-bind {S = λ blob d t. IsBlob sys v.key entry_id b meta blob}
            (Triple-map_err _ (
              Triple-weaken (read-Triple _ (λ e d t h. tt)) (λ d t h. h)
                (λ blob d t ((h, found), here). IsBlob-of v entry_id b meta blob d h found here)
                (λ e d t h. tt)))
            λ blob. Triple-given λ d t shape.
              let (long, opened) = opens v.key entry_id b blob meta k shape in
              rw long (
                Triple-bind {S = λ r d t. r ≡ ok b} (Triple-ask _ (λ n d t h. opened)) λ r.
                  Triple-given λ d t e. rw e (
                    Triple-bind {S = λ m d t. m ≡ b}
                      (Triple-lift (ok b) tt (λ a d t q h. cc) (λ x d t q h. absurd (cc q)))
                      λ plaintext. Triple-given λ d t same. rw same (
                        Triple-bind {S = λ sha d t. sha ≡ sha256_hex sys.crates b}
                          (Triple-ask _ (λ n d t h. refl))
                          λ sha. Triple-given λ d t same.
                            let equal = (bytes_eq_iff sha meta.sha256).1 (same ∙ sym shape.hash) in
                            rw equal (
                              Triple-map_err _ (
                                write-Triple dest b (λ d d' t t' h here others. here)
                                  (λ e d d' t t' h others. tt))))))

  -- With random buffers of the length that is asked for, and ciphers and a printer that read back
  -- what they seal and print: after `add_file` on a vault with a key of 32 bytes, `extract_entry` with the id that it returned
  -- writes the content of the source to the destination. An error is of the system, the ciphers or
  -- the printer: never a missing entry, a failed integrity check or a corrupt entry, and there is
  -- no panic.
  pub add_file-extract_entry :
      FillsBuffers sys
      → (v : Vault) (source dest : FilePath) (d₀ : Disk) → length v.key ≡ 32
      → Triple sys
          (λ d t. d ≡ d₀)
          (add_file json v source >>= λ out. extract_entry out.1 out.0 dest)
          (λ u d t. (b : Bytes) × (d₀ source ≡ some (file b)) × (d dest ≡ some (file b)))
          (λ e d t. IsOutside e)
  add_file-extract_entry fills v source dest d₀ k =
      Triple-bind
        (Triple-weaken (add_file-Triple laws fills v k source d₀) (λ d t h. h) (λ out d t h. h)
          (λ e d t h. h.1))
        λ out. Triple-given λ d t (_, a, _).
          Triple-weaken (extract_entry-IsEntry out.1 out.0 dest a.content (ap length a.key ∙ k))
            (λ d t h. rw (same_content a.read h.1.read) h.1.entry)
            (λ u d t h. (a.content, a.read, h)) (λ e d t h. h)
