-- ===== src/Samples/Sealing.antt =====
-- A printer of tables of one entry at most, and the ciphers of the samples.
use secure_file_shredder_and.Base.{
  ℕ, ◌≡◌, refl, sym, ap, ◌∙◌, some, List, [], ◌∷◌, ◌++◌, Bytes, Text, codes, length, take, drop,
  take-append_eq, drop-append, length-take, length-append, length-replicate, replicate, arith,
}
use secure_file_shredder_and.Io.Outcome.{Outcome, ok, err}
use secure_file_shredder_and.Crypto.Aead.Laws.{IsCipher}
use secure_file_shredder_and.Crypto.Kdf.{derive_key, derive_key_with_params}
use secure_file_shredder_and.Vault.Container.{EntryMeta, VaultHeader, HeaderJson}
use secure_file_shredder_and.Vault.Container.Laws.{SealsHeaders}
use secure_file_shredder_and.Io.Returns.{Returns}
use secure_file_shredder_and.Samples.{crates_sample}

-- A text behind its length.
abbrev measured : Text → Bytes → Bytes
measured s rest = length s ∷ (s ++ rest)

abbrev print_sample : List (Text × EntryMeta) → Outcome Text Bytes
print_sample [] = ok []
print_sample ((id, meta) ∷ []) =
    ok (measured id (measured meta.original_name (meta.size ∷ meta.sha256)))
print_sample _ = err (codes "two entries")

abbrev parse_last : Text → Text → Bytes → Outcome Text VaultHeader
parse_last id name [] = err (codes "no size")
parse_last id name (size ∷ sha) =
    let meta : EntryMeta = record { original_name = name; size = size; sha256 = sha } in
    ok (record { entries = (id, meta) ∷ [] })

abbrev parse_name : Text → Bytes → Outcome Text VaultHeader
parse_name id [] = err (codes "no name")
parse_name id (n ∷ rest) = parse_last id (take n rest) (drop n rest)

abbrev parse_sample : Bytes → Outcome Text VaultHeader
parse_sample [] = ok (record { entries = [] })
parse_sample (n ∷ rest) = parse_name (take n rest) (drop n rest)

abbrev pub header_json_sample : HeaderJson
header_json_sample = record {
  print_header = λ h. print_sample h.entries;
  parse_header = parse_sample;
}

parse_last-Returns : (id name b : Bytes) → Returns (parse_last id name b)
parse_last-Returns id name [] = tt
parse_last-Returns id name (x ∷ b) = tt

parse_name-Returns : (id b : Bytes) → Returns (parse_name id b)
parse_name-Returns id [] = tt
parse_name-Returns id (n ∷ b) = parse_last-Returns id (take n b) (drop n b)

parse-Returns : (b : Bytes) → Returns (parse_sample b)
parse-Returns [] = tt
parse-Returns (n ∷ b) = parse_name-Returns (take n b) (drop n b)

print-Returns : (es : List (Text × EntryMeta)) → Returns (print_sample es)
print-Returns [] = tt
print-Returns (e ∷ []) = tt
print-Returns (e ∷ f ∷ es) = tt

-- What was printed is read back.
read_back :
    (es : List (Text × EntryMeta)) (b : Bytes)
    → print_sample es ≡ ok b
    → parse_sample b ≡ ok (record { entries = es })
read_back [] b e = let same : [] ≡ b = cc in ap parse_sample (sym same)
read_back ((id, meta) ∷ []) b e =
    let rest = meta.size ∷ meta.sha256 in
    let same : measured id (measured meta.original_name rest) ≡ b = cc in
    ap parse_sample (sym same)
    ∙ rw
        (
          take-append_eq id (measured meta.original_name rest) refl,
          drop-append id (measured meta.original_name rest),
          take-append_eq meta.original_name rest refl,
          drop-append meta.original_name rest,
        )
        refl
read_back (d ∷ f ∷ es) b e = absurd (cc e)

pub aes_sample : IsCipher crates_sample.aes_encrypt crates_sample.aes_decrypt
aes_sample = record {
  returns = λ k n m ad. tt;
  opens = λ k n m ad c e. let same : m ≡ c = cc in ap some (sym same);
}

pub xchacha_sample : IsCipher crates_sample.xchacha_encrypt crates_sample.xchacha_decrypt
xchacha_sample = record {
  returns = λ k n m ad. tt;
  opens = λ k n m ad c e.
      let same : ad ++ m ≡ c = cc in
      ap (λ x. some (drop (length ad) x)) (sym same) ∙ ap some (drop-append ad m);
}

length-key_sample : (pass : Bytes) → length (take 32 (pass ++ replicate 32 0)) ≡ 32
length-key_sample pass = omega (
  arith,
  length-take 32 (pass ++ replicate 32 0),
  length-append pass (replicate 32 0),
  length-replicate {A = ℕ} 32 0,
)

pub seals_sample : SealsHeaders crates_sample header_json_sample
unfolding derive_key derive_key_with_params
seals_sample = record {
  cipher = aes_sample;
  derive_returns = λ pass salt. tt;
  length-derive_key = λ pass salt key e.
      let same : take 32 (pass ++ replicate 32 0) ≡ key = cc in
      sym (ap length same) ∙ length-key_sample pass;
  print_returns = λ h. print-Returns h.entries;
  parse_returns = parse-Returns;
  reads_back = λ h b e. (h, read_back h.entries b e, λ id. refl);
}
