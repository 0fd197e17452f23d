-- ===== src/Verify.antt =====
-- verify/mod.rs: what is left in a file that can be recognised.
pub mod Signatures
pub mod Strings
use secure_file_shredder_and.Base.{
  ℕ, zero, suc, ◌+◌, ◌≡◌, Bool, true, false, not, ◌&&◌, ◌||◌, List, [], ◌∷◌, ◌++◌, map, Bytes, Text,
  codes, length, take, decimal, starts_with, contains, if◌then◌else◌, ltb, leb, bytes_eq,
}
use secure_file_shredder_and.Io.Path.{FilePath}
use secure_file_shredder_and.Io.Error.{SanitizerError, io}
use secure_file_shredder_and.Io.System.{System, Float}
use secure_file_shredder_and.Io.Float.{F64, f64_0, f64_5, f64_6_5, f64_lt, f64_min, f64_clamp}
use secure_file_shredder_and.Io.Action.{Action, pure, ask, map_err, ◌>>=◌}
use secure_file_shredder_and.Io.Files.{read}
use secure_file_shredder_and.Crypto.Rng.{shannon_entropy}

-- `MAGIC_SIGNATURES`
abbrev pub magic_signatures : List (Text × Bytes)
magic_signatures =
    (codes "PDF", codes "%PDF")
    ∷ (codes "ZIP/DOCX/XLSX/JAR", 0x50 ∷ 0x4B ∷ 0x03 ∷ 0x04 ∷ [])
    ∷ (codes "PNG", 0x89 ∷ 0x50 ∷ 0x4E ∷ 0x47 ∷ 0x0D ∷ 0x0A ∷ 0x1A ∷ 0x0A ∷ [])
    ∷ (codes "JPEG", 0xFF ∷ 0xD8 ∷ 0xFF ∷ [])
    ∷ (codes "GIF", codes "GIF8")
    ∷ (codes "ELF", 0x7F ∷ 0x45 ∷ 0x4C ∷ 0x46 ∷ [])
    ∷ (codes "Windows PE/EXE", 0x4D ∷ 0x5A ∷ [])
    ∷ (codes "SQLite DB", codes "SQLite format 3" ++ (0 ∷ []))
    ∷ (codes "Windows Registry Hive", codes "regf")
    ∷ (codes "BZip2", codes "BZh")
    ∷ (codes "Gzip", 0x1F ∷ 0x8B ∷ [])
    ∷ []

pub data RecoveryConfidence : Type 0 where
  very_low low moderate high : RecoveryConfidence

-- `Display`
unfoldable pub confidence_text : RecoveryConfidence → Text
confidence_text very_low = codes "Very Low"
confidence_text low = codes "Low"
confidence_text moderate = codes "Moderate"
confidence_text high = codes "High"

pub record VerificationReport : Type 0 where
  pub path : FilePath
  pub bytes_examined : ℕ
  pub entropy : F64
  pub signature_hits : List Text
  pub ascii_strings_found : ℕ
  pub sample_strings : List Text
  pub recovery_confidence : RecoveryConfidence
  pub confidence_score : F64
  pub summary : Text

abbrev pub is_empty {ℓ} : {A : Type ℓ} → List A → Bool
is_empty [] = true
is_empty (x ∷ xs) = false

-- `haystack.windows(n).any(|w| w == needle)`, for `n` the length of `needle`.
abbrev pub any_window : Bytes → Bytes → Bool
any_window [] needle = false
any_window (b ∷ haystack) needle =
    (leb (length needle) (length (b ∷ haystack))
      && bytes_eq (take (length needle) (b ∷ haystack)) needle)
    || any_window haystack needle

unfoldable pub contains_subsequence : Bytes → Bytes → Bool
contains_subsequence haystack needle =
    if is_empty needle || ltb (length haystack) (length needle)
    then false
    else any_window haystack needle

-- The loop of `analyze_bytes` over the signatures.
unfoldable pub signature_hits_in : Bytes → List (Text × Bytes) → List Text
signature_hits_in data' [] = []
signature_hits_in data' ((name, magic) ∷ rest) =
    let hits = signature_hits_in data' rest in
    if contains_subsequence data' magic then name ∷ hits else hits

abbrev pub is_printable : ℕ → Bool
is_printable b = leb 0x20 b && leb b 0x7E

-- The current run, if it is long enough, before what comes after it.
abbrev pub keep_run : ℕ → Bytes → List Text → List Text
keep_run min_len current results =
    if leb min_len (length current) then current ∷ results else results

-- The loop of `extract_ascii_strings`, with the run that is being read. A run is ASCII, so
-- `from_utf8_lossy` leaves it as it is.
abbrev pub extract_from : ℕ → Bytes → Bytes → List Text
extract_from min_len current [] = keep_run min_len current []
extract_from min_len current (b ∷ data') =
    let longer = extract_from min_len (current ++ (b ∷ [])) data' in
    let fresh = extract_from min_len [] data' in
    if is_printable b then longer else keep_run min_len current fresh

unfoldable pub extract_ascii_strings : Bytes → ℕ → List Text
extract_ascii_strings data' min_len = extract_from min_len [] data'

unfoldable pub classify_confidence : F64 → List Text → ℕ → RecoveryConfidence
classify_confidence entropy signatures string_count =
    if not (is_empty signatures)
    then high
    else if ltb 50 string_count
    then high
    else if f64_lt entropy f64_5
    then moderate
    else if ltb 5 string_count || f64_lt entropy f64_6_5
    then low
    else very_low

-- 0.02, 0.15, 0.45 and 0.85
abbrev base_score : RecoveryConfidence → F64
base_score very_low = 0x3f947ae147ae147b
base_score low = 0x3fc3333333333333
base_score moderate = 0x3fdccccccccccccd
base_score high = 0x3feb333333333333

-- The literals are 0.03, 0.1; 1000, 0.05; 7.9, -0.02; and 0, 1.
unfoldable pub confidence_to_score : Float → RecoveryConfidence → F64 → List Text → ℕ → F64
confidence_to_score f bucket entropy signatures string_count =
    let sig_bonus =
      f64_min (f.mul (f.of_nat (length signatures)) 0x3f9eb851eb851eb8) 0x3fb999999999999a in
    let string_bonus =
      f64_min (f.div (f.of_nat string_count) 0x408f400000000000) 0x3fa999999999999a in
    let entropy_penalty = if f64_lt 0x401f99999999999a entropy then 0xbf947ae147ae147b else f64_0 in
    f64_clamp (f.add (f.add (f.add (base_score bucket) sig_bonus) string_bonus) entropy_penalty)
      f64_0 0x3ff0000000000000

unfoldable pub build_summary : Float → RecoveryConfidence → F64 → List Text → ℕ → Text
build_summary f very_low entropy signatures string_count =
    codes "No recognizable file signatures or meaningful strings detected; measured entropy "
    ++ (f.fixed 2 entropy
        ++ codes
            " bits/byte is consistent with a fully randomized overwrite. Recovery of the original content from this data is very unlikely.")
build_summary f low entropy signatures string_count =
    codes "Entropy "
    ++ (f.fixed 2 entropy
        ++ (codes " bits/byte with "
            ++ (decimal string_count
                ++ codes
                    " short ASCII strings detected; no known file signatures found. Sanitization appears largely effective, though the region isn't perfectly random.")))
build_summary f moderate entropy signatures string_count =
    codes "Entropy "
    ++ (f.fixed 2 entropy
        ++ codes
            " bits/byte is lower than expected for a random overwrite pass, suggesting structured or non-random residual data. Recommend re-running sanitization or investigating filesystem copy-on-write/journaling behavior.")
build_summary f high entropy signatures string_count =
    codes "Detected "
    ++ (decimal (length signatures)
        ++ (codes " recognizable file signature(s) and "
            ++ (decimal string_count
                ++ codes
                    " ASCII string(s) of length >= 6 in the target region. Sanitization is very likely incomplete -- original or related data may still be recoverable.")))

unfoldable pub analyze_bytes : Float → FilePath → Bytes → VerificationReport
analyze_bytes f path data' =
    let entropy = shannon_entropy f data' in
    let hits = signature_hits_in data' magic_signatures in
    let strings = extract_ascii_strings data' 6 in
    let count = length strings in
    let confidence = classify_confidence entropy hits count in
    record {
      path = path;
      bytes_examined = length data';
      entropy = entropy;
      signature_hits = hits;
      ascii_strings_found = count;
      sample_strings = take 10 strings;
      recovery_confidence = confidence;
      confidence_score = confidence_to_score f confidence entropy hits count;
      summary = build_summary f confidence entropy hits count;
    }

unfoldable pub verify_sanitization : FilePath → Action SanitizerError VerificationReport
verify_sanitization path = do
  data' ← map_err (io path) (read path)
  ask (λ sys t. analyze_bytes sys.float path data')
