-- ===== src/Examples/Vaults.antt =====
-- The theorems on vaults, on a vault at /tmp/v with the passphrase `key`.
use secure_file_shredder_and.Base.{
  false, ◌≡◌, refl, none, some, [], ◌∷◌, ◌++◌, Bytes, Text, codes, length, replicate, take,
}
use secure_file_shredder_and.Io.Outcome.{ok, panic}
use secure_file_shredder_and.Io.Path.{FilePath, root_dir, normal}
use secure_file_shredder_and.Io.System.{Crates}
use secure_file_shredder_and.Io.Action.{file, ◌>>=◌}
use secure_file_shredder_and.Io.Returns.{Returns}
use secure_file_shredder_and.Io.Triple.{Triple}
use secure_file_shredder_and.Crypto.Aead.{xchacha20poly1305_encrypt, xchacha20poly1305_decrypt}
use secure_file_shredder_and.Crypto.Aead.Laws.{IsCrypto, xchacha20poly1305_round_trip}
use secure_file_shredder_and.Crypto.Kdf.{derive_key, derive_key_with_params}
use secure_file_shredder_and.Sanitize.Engine.{ShredOutcome}
use secure_file_shredder_and.Sanitize.Engine.Shred.{job_of, Shredded, Survives}
use secure_file_shredder_and.Vault.Container.{Vault, open_bytes, find_entry, vault_magic}
use secure_file_shredder_and.Vault.Container.Laws.{Truncated, open_bytes-Returns}
use secure_file_shredder_and.Vault.Persist.{Written, Reopened, IsOutside, persist-open_vault}
use secure_file_shredder_and.Vault.Entries.{Kept, Added, add_file-Triple}
use secure_file_shredder_and.Vault.Extract.{add_file-extract_entry}
use secure_file_shredder_and.Vault.Create.{Refused, create_vault-open_vault}
use secure_file_shredder_and.Vault.Destroy.{Begun, destroy-Triple}
use secure_file_shredder_and.Vault.{
  persist, create_vault, open_vault, add_file, extract_entry, destroy, purge_options,
}
use secure_file_shredder_and.Samples.{
  system_sample, crates_sample, fills_sample, path_sample, disk_sample, content_sample,
}
use secure_file_shredder_and.Samples.Sealing.{header_json_sample, seals_sample, xchacha_sample}

abbrev vault_path_sample : FilePath
vault_path_sample = normal (codes "v") ∷ normal (codes "tmp") ∷ root_dir ∷ []

abbrev vault_key_sample : Bytes
vault_key_sample = take 32 (codes "key" ++ replicate 32 0)

abbrev vault_sample : Vault
vault_sample = record {
  path = vault_path_sample;
  key = vault_key_sample;
  salt = replicate 16 7;
  header = record { entries = [] };
}

persist-open_vault_example :
    Triple system_sample
      (λ d t. d ≡ disk_sample)
      (persist header_json_sample vault_sample >>= λ _.
        open_vault header_json_sample vault_path_sample (codes "key"))
      (λ v' d t. Reopened vault_sample v')
      (λ e d t. IsOutside e)
unfolding derive_key derive_key_with_params
persist-open_vault_example =
    persist-open_vault seals_sample fills_sample vault_sample (codes "key") refl refl

add_file-extract_entry_example :
    Triple system_sample
      (λ d t. d ≡ disk_sample)
      (add_file header_json_sample vault_sample path_sample >>= λ out.
        extract_entry out.1 out.0 (normal (codes "out") ∷ []))
      (λ u d t.
        (b : Bytes) × (disk_sample path_sample ≡ some (file b))
        × (d (normal (codes "out") ∷ []) ≡ some (file b)))
      (λ e d t. IsOutside e)
unfolding codes
add_file-extract_entry_example =
    add_file-extract_entry seals_sample fills_sample vault_sample path_sample
      (normal (codes "out") ∷ []) disk_sample refl

add_file-Triple_example :
    Triple system_sample
      (λ d t. d ≡ disk_sample)
      (add_file header_json_sample vault_sample path_sample)
      (λ out d t.
        Kept vault_sample disk_sample d
        × Added system_sample vault_sample path_sample disk_sample out.0 out.1 d
        × Written system_sample header_json_sample out.1 d t)
      (λ e d t. Kept vault_sample disk_sample d × IsOutside e)
unfolding codes
add_file-Triple_example =
    add_file-Triple seals_sample fills_sample vault_sample refl path_sample disk_sample

create_vault-open_vault_example :
    Triple system_sample
      (λ d t. d ≡ (λ p. none))
      (create_vault header_json_sample vault_path_sample (codes "key") >>= λ v.
        open_vault header_json_sample vault_path_sample (codes "key"))
      (λ v d t. (id : Text) → find_entry id v.header.entries ≡ none)
      (λ e d t. Refused vault_path_sample e)
create_vault-open_vault_example =
    create_vault-open_vault seals_sample fills_sample vault_path_sample (codes "key") (λ p. none)

-- The magic and 24 bytes more.
abbrev cut_sample : Bytes
cut_sample = vault_magic ++ replicate 24 0

open_bytes-Returns_example :
    (Truncated cut_sample
      → open_bytes crates_sample header_json_sample vault_path_sample (codes "key") cut_sample
        ≡ panic)
    × (¬ Truncated cut_sample
        → Returns (
            open_bytes crates_sample header_json_sample vault_path_sample (codes "key") cut_sample))
open_bytes-Returns_example =
    open_bytes-Returns seals_sample vault_path_sample (codes "key") cut_sample

-- A cipher that opens nothing.
abbrev closed_sample : Crates
closed_sample = record crates_sample { aes_decrypt = λ key nonce c ad. none }

destroy-Triple_example :
    let job = job_of vault_path_sample purge_options false false content_sample in
    Triple system_sample
      (λ d t. d vault_path_sample ≡ some (file content_sample))
      (destroy vault_sample)
      (λ v' d t.
        (v'.key ≡ replicate (length vault_key_sample) 0)
        × (v'.header.entries ≡ [])
        × (d vault_path_sample ≡ none)
        × ((o : ShredOutcome) × Begun fills_sample vault_sample content_sample
              (λ d₁ s₁. Shredded system_sample job d₁ s₁ o d t)))
      (λ e d t.
        Begun fills_sample vault_sample content_sample
          (λ d₁ s₁. Survives system_sample job d₁ s₁ d t))
destroy-Triple_example = destroy-Triple fills_sample vault_sample content_sample

xchacha20poly1305_round_trip_example :
    Triple system_sample
      (λ d t. t ≡ [])
      (xchacha20poly1305_encrypt vault_key_sample (codes "text") (codes "ad"))
      (λ out d t.
        (t ≡ [])
        × (xchacha20poly1305_decrypt crates_sample vault_key_sample out.0 out.1 (codes "ad")
            ≡ ok (codes "text")))
      (λ e d t. (t ≡ []) × IsCrypto e)
unfolding codes
xchacha20poly1305_round_trip_example =
    xchacha20poly1305_round_trip fills_sample (λ d t. t ≡ []) vault_key_sample (codes "text")
      (codes "ad") xchacha_sample refl
