-- ===== src/Vault/Create.antt =====
-- vault/mod.rs: `create`, and `open` behind it.
use secure_file_shredder_and.Base.{
  ◌≡◌, ◌⊎◌, inl, inr, refl, sym, ap, ◌∙◌, Option, none, some, [], ◌++◌, Bytes, Text, codes, length,
  replicate,
}
use secure_file_shredder_and.Io.Outcome.{Outcome, ok, err, panic, out_of_fuel}
use secure_file_shredder_and.Io.Path.{FilePath}
use secure_file_shredder_and.Io.Error.{SanitizerError, crypto}
use secure_file_shredder_and.Io.System.{System, Crates}
use secure_file_shredder_and.Io.Action.{Action, file, Disk, World, ◌>>=◌}
use secure_file_shredder_and.Io.Returns.{Triple-lift}
use secure_file_shredder_and.Io.Triple.{
  Triple, Triple-ask, Triple-bind, Triple-given, Triple-pure, Triple-raise, Triple-if,
  Triple-weaken,
}
use secure_file_shredder_and.Io.Files.Whole.{SameBut, exists-Triple}
use secure_file_shredder_and.Crypto.Rng.Laws.{FillsBuffers, secure_random_bytes-errors}
use secure_file_shredder_and.Crypto.Kdf.{
  derive_key, derive_key_with_params, with_params, generate_salt,
}
use secure_file_shredder_and.Vault.Container.{Vault, HeaderJson, find_entry}
use secure_file_shredder_and.Vault.Container.Laws.{SealsHeaders}
use secure_file_shredder_and.Vault.Persist.{
  IsOutside, Reopened, IsContainer, Written, persist-Triple, open_written,
}
use secure_file_shredder_and.Vault.{create_vault, open_vault, already_there}

-- What follows an action that ends with a value.
>>=-eq :
    {A B : Type 0} {sys : System} {w w' : World} (m : Action SanitizerError A)
    (f : A → Action SanitizerError B) (a : A)
    → m sys w ≡ (ok a, w')
    → (m >>= f) sys w ≡ f a sys w'
unfolding ◌>>=◌
>>=-eq m f a e = rw e refl

-- A new vault is at its path, and the other paths are as they were.
pub record Created (sys : System) (json : HeaderJson) (path : FilePath) (passphrase : Bytes)
    (d₀ : Disk) (v : Vault) (d : Disk) : Type 0 where
  pub at_path : v.path ≡ path
  pub empty : (id : Text) → find_entry id v.header.entries ≡ none
  pub derived : derive_key sys.crates passphrase v.salt ≡ ok v.key
  pub length-salt : length v.salt ≡ 16
  pub length-key : length v.key ≡ 32
  pub content : Bytes
  pub here : d path ≡ some (file content)
  pub shape : IsContainer sys json v content
  pub others : SameBut path d₀ d

-- An error of `create`: the one for a path that is there, or one from outside.
abbrev pub Refused : FilePath → SanitizerError → Type 0
Refused path e = (e ≡ already_there path) ⊎ IsOutside e

with_params-err :
    (o : Option Text) (r : Outcome Text Bytes) (x : SanitizerError)
    → with_params o r ≡ err x
    → IsOutside x
with_params-err (some e) r x q =
    let same : crypto (codes "invalid Argon2id parameters: " ++ e) ≡ x = cc in rw (← same) tt
with_params-err none (ok key) x q = absurd (cc q)
with_params-err none (err e) x q =
    let same : crypto (codes "Argon2id derivation failed: " ++ e) ≡ x = cc in rw (← same) tt
with_params-err none panic x q = absurd (cc q)
with_params-err none out_of_fuel x q = absurd (cc q)

derive_key-err :
    (crates : Crates) (passphrase salt : Bytes) (x : SanitizerError)
    → derive_key crates passphrase salt ≡ err x
    → IsOutside x
unfolding derive_key derive_key_with_params
derive_key-err crates passphrase salt x q = with_params-err _ _ x q

module _ {sys : System} {json : HeaderJson} (laws : SealsHeaders sys.crates json)
    (fills : FillsBuffers sys) where
  -- With random buffers of the length that is asked for and ciphers and a printer that end without a
  -- panic, `create` puts an empty vault at the path, with the key of the passphrase and its salt.
  -- Whatever it ends in, the other paths are as they were, and there is no panic.
  pub create_vault-Triple :
      (path : FilePath) (passphrase : Bytes) (d₀ : Disk)
      → Triple sys
          (λ d t. d ≡ d₀)
          (create_vault json path passphrase)
          (λ v d t. Created sys json path passphrase d₀ v d)
          (λ e d t. Refused path e × SameBut path d₀ d)
  unfolding create_vault generate_salt find_entry
  create_vault-Triple path passphrase d₀ =
      Triple-bind {S = λ there d t. d ≡ d₀} (exists-Triple path (λ d t h. h) (λ d t h. h)) λ there.
        Triple-if there (λ _. Triple-raise _ (λ d t h. (inl refl, same d h)))
          λ _.
            Triple-bind {S = λ salt d t. (d ≡ d₀) × (length salt ≡ 16)}
              (Triple-weaken (secure_random_bytes-errors fills (λ d t. d ≡ d₀) (replicate 16 0))
                (λ d t h. h) (λ salt d t h. h) (λ e d t h. (inr (rw h.1.1 tt), same d h.0)))
              λ salt. Triple-given λ d t (_, s).
                Triple-bind {S = λ r d t. (d ≡ d₀) × (r ≡ derive_key sys.crates passphrase salt)}
                  (Triple-ask _ (λ n d t h. (h.0, refl)))
                  λ r. Triple-given λ d t (_, e).
                    Triple-bind
                      {S = λ key d t. (d ≡ d₀) × (derive_key sys.crates passphrase salt ≡ ok key)}
                      (Triple-lift r (rw e (laws.derive_returns passphrase salt))
                        (λ key d t q h. (h.0, sym e ∙ q))
                        (λ x d t q h. (inr (derive_key-err _ _ _ x (sym e ∙ q)), same d h.0)))
                      λ key. Triple-given λ d t (_, derived).
                        let v : Vault = record {
                          path = path;
                          key = key;
                          salt = salt;
                          header = record { entries = [] };
                        } in
                        let k = laws.length-derive_key passphrase salt key derived in
                        Triple-bind {S = λ _ d t. Created sys json path passphrase d₀ v d}
                          (persist-Triple laws fills v k
                            (λ b d d' t t' h shape here others. record {
                              at_path = refl;
                              empty = λ id. refl;
                              derived = derived;
                              length-salt = s;
                              length-key = k;
                              content = b;
                              here = here;
                              shape = shape;
                              others = moved d d' h.0 others;
                            })
                            (λ x d d' t t' h out others. (inr out, moved d d' h.0 others)))
                          λ _. Triple-pure v (λ d t h. h)
    where
      same : (d : Disk) → d ≡ d₀ → SameBut path d₀ d
      same d e q n = ap (λ (d : Disk). d q) e

      moved : (d d' : Disk) → d ≡ d₀ → SameBut path d d' → SameBut path d₀ d'
      moved d d' e others q n = others q n ∙ ap (λ (d : Disk). d q) e

  -- With random buffers of the length that is asked for, and ciphers and a printer that read back
  -- what they seal and print: `open` behind `create`, with the same passphrase, returns a vault in
  -- which no id is found. The one error that is not of the system, the ciphers or the printer is
  -- that of a path that is there; there is no panic.
  pub create_vault-open_vault :
      (path : FilePath) (passphrase : Bytes) (d₀ : Disk)
      → Triple sys
          (λ d t. d ≡ d₀)
          (create_vault json path passphrase >>= λ v. open_vault json path passphrase)
          (λ v d t. (id : Text) → find_entry id v.header.entries ≡ none)
          (λ e d t. Refused path e)
  create_vault-open_vault path passphrase d₀ =
      Triple-bind
        (Triple-weaken (create_vault-Triple path passphrase d₀) (λ d t h. h) (λ v d t h. h)
          (λ e d t h. h.0))
        λ v. Triple-given λ d t c.
          Triple-weaken (open_at v path (sym c.at_path) passphrase c)
            (λ d t h. (h.content, ap d h.at_path ∙ h.here, h.shape))
            (λ v' d t r id. r.entries id ∙ c.empty id) (λ e d t out. inr out)
    where
      open_at :
          (v : Vault) (p : FilePath)
          → p ≡ v.path
          → (passphrase : Bytes) {d₁ d : Disk} → Created sys json path passphrase d₁ v d
          → Triple sys
              (Written sys json v)
              (open_vault json p passphrase)
              (λ v' d t. Reopened v v')
              (λ e d t. IsOutside e)
      open_at v p e passphrase c =
          rw e (open_written laws fills v passphrase c.derived c.length-salt c.length-key)
