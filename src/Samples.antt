-- ===== src/Samples.antt =====
-- A system, files and logs for the examples.
pub mod Sealing
pub mod Printing
use native.Mathlib.Decide.{ℕ_discrete}
use secure_file_shredder_and.Base.{
  refl, ℕ, ◌+◌, ◌*◌, ◌≡◌, sym, ap, ◌∙◌, true, false, none, some, [], ◌∷◌, ◌++◌, Bytes, Text, codes,
  length, take, drop, replicate, length-take, length-append, length-replicate, decimal, arith,
  starts_with, is_blank, ◌⊎◌, inl, inr, if◌then◌else◌,
}
use secure_file_shredder_and.Io.Outcome.{Outcome, ok, err}
use secure_file_shredder_and.Io.Path.{FilePath, root_dir, normal}
use secure_file_shredder_and.Io.System.{System, directory, regular_file, Os, Crates, Float}
use secure_file_shredder_and.Io.Action.{file, Disk}
use secure_file_shredder_and.Crypto.Hashing.{hmac_sha256_hex}
use secure_file_shredder_and.Crypto.Rng.Laws.{FillsBuffers}
use secure_file_shredder_and.Storage.Info.{StorageInfo, ssd}
use secure_file_shredder_and.Sanitize.Patterns.{dod_three_pass}
use secure_file_shredder_and.Sanitize.Engine.{ShredOptions}
use secure_file_shredder_and.Audit.Append.{PrintsLines, IsOneLine}
use secure_file_shredder_and.Audit.{AuditEntry, Json, genesis_hash, tag_of}

abbrev pub path_sample : FilePath
path_sample = normal (codes "a") ∷ normal (codes "tmp") ∷ root_dir ∷ []

abbrev pub os_sample : Os
os_sample = record {
  fault = λ t. none;
  written_before_fault = λ t. 0;
  cancel_requested = λ t. false;
  os_random = λ t n. some (replicate n (t + 1));
  clock_bytes = λ t. replicate 16 t;
  stack_bytes = λ t. replicate 8 9;
  canonicalize = λ t p. some p;
  read_dir = λ t p. inr (codes "b") ∷ [];
  walk = λ t p. some (p, directory) ∷ (some (path_sample, regular_file) ∷ []);
  cpus = λ t. 2;
  pool_error = λ t n. none;
  schedule = λ t xs. xs;
  run = λ t program args. none;
  utc = λ t. 5;
  millis = λ t. t;
}

-- Toy ciphers: a tag is the first 64 bytes of the message, filled up with zeros.
abbrev pub crates_sample : Crates
crates_sample = record {
  blake3 = λ b. take 32 (b ++ replicate 32 0);
  std_rng = λ seed n. replicate n 5;
  hex_encode = λ b. b;
  hex_decode = λ s. some s;
  hmac_sha256 = λ key m. take 64 (m ++ replicate 64 b'0');
  sha256 = λ b. take 64 (b ++ replicate 64 b'0');
  sha512 = λ b. take 64 (b ++ replicate 64 b'1');
  aes_encrypt = λ key nonce m ad. ok m;
  aes_decrypt = λ key nonce c ad. some c;
  xchacha_encrypt = λ key nonce m ad. ok (ad ++ m);
  xchacha_decrypt = λ key nonce c ad. some (drop (length ad) c);
  argon2_params = λ m t p. none;
  argon2_hash = λ m t p pass salt. ok (take 32 (pass ++ replicate 32 0));
  rfc3339 = λ t. decimal t;
}

-- Toy arithmetic, in which each sum is 7.9.
abbrev pub float_sample : Float
float_sample = record {
  of_nat = λ n. n;
  add = λ a b. 0x401f99999999999a;
  mul = λ a b. a * b;
  div = λ a b. a;
  neg = λ a. a;
  log2 = λ a. a;
  fixed = λ n x. decimal x;
}

abbrev pub system_sample : System
system_sample = record {
  os = os_sample;
  crates = crates_sample;
  float = float_sample;
  unicode = record {
    lowercase = λ s. s;
    is_blank = λ s. false;
    split_whitespace = λ s. s ∷ [];
    trim = λ s. s;
  };
}

some_inj_length :
    (n m : ℕ) (b : ℕ) (bytes : Bytes) → some (replicate n b) ≡ some bytes → length bytes ≡ n
some_inj_length n m b bytes e =
    let same : replicate n b ≡ bytes = cc in ap length (sym same) ∙ length-replicate n b

pub fills_sample : FillsBuffers system_sample
fills_sample = record {
  length-os_random = λ t n bytes e. some_inj_length n t (t + 1) bytes e;
  length-std_rng = λ s n. length-replicate n 5;
}

pub tags_sample : (key m : Bytes) → length (hmac_sha256_hex crates_sample key m) ≡ 64
unfolding hmac_sha256_hex
tags_sample key m = omega (
  arith,
  length-take 64 (m ++ replicate 64 b'0'),
  length-append m (replicate 64 b'0'),
  length-replicate {A = ℕ} 64 b'0',
)

abbrev pub content_sample : Bytes
content_sample = 83 ∷ 69 ∷ 67 ∷ []

-- Every path whose name is one letter is a file.
unfoldable pub disk_sample : Disk
disk_sample (normal (c ∷ []) ∷ rest) = some (file content_sample)
disk_sample _ = none

abbrev pub options_sample : ShredOptions
options_sample = record {
  pattern = dod_three_pass;
  verify_passes = true;
  sanitize_filename = true;
  sync_each_pass = true;
}

abbrev pub storage_sample : StorageInfo
storage_sample = record {
  path = path_sample;
  kind = ssd;
  device_name = none;
  trim_supported = none;
  is_network = false;
  is_removable = false;
  notes = [];
}

abbrev pub key_sample : Bytes
key_sample = codes "key"

abbrev unsigned_first : AuditEntry
unsigned_first = record {
  sequence = 0;
  timestamp = 5;
  operation = codes "wipe";
  target = codes "/tmp/a|b";
  details = codes "{}";
  prev_hash = genesis_hash;
  entry_hmac = [];
}

abbrev pub first_sample : AuditEntry
first_sample = record unsigned_first { entry_hmac = tag_of crates_sample key_sample unsigned_first }

abbrev unsigned_second : AuditEntry
unsigned_second = record {
  sequence = 1;
  timestamp = 6;
  operation = codes "wipe";
  target = codes "/tmp/c";
  details = codes "{}";
  prev_hash = first_sample.entry_hmac;
  entry_hmac = [];
}

abbrev pub second_sample : AuditEntry
second_sample = record unsigned_second {
  entry_hmac = tag_of crates_sample key_sample unsigned_second;
}

-- The first entry, its target split at the bar.
abbrev pub regrouped_sample : AuditEntry
regrouped_sample = record first_sample {
  operation = codes "wipe" ++ (codes "|" ++ codes "/tmp/a");
  target = codes "b";
}

-- Each of three lines stands for an entry.
abbrev parse_sample : Text → Outcome Text AuditEntry
parse_sample line =
    if starts_with line (codes "1")
    then ok first_sample
    else if starts_with line (codes "2")
    then ok second_sample
    else if starts_with line (codes "3")
    then ok regrouped_sample
    else err (codes "no entry")

pub AuditEntry-discrete : Discrete AuditEntry
AuditEntry-discrete = hlevel ℕ_discrete

-- Only the first entry can be printed.
abbrev print_sample : AuditEntry → Outcome Text Text
print_sample e = elim (AuditEntry-discrete e first_sample) [
  | yes _ ↦ ok (codes "1")
  | no _ ↦ err (codes "no line")
]

abbrev pub json_sample : Json
json_sample = record {
  print_entry = print_sample;
  parse_entry = parse_sample;
  print_sealed = λ nonce ct. ok ct;
  parse_sealed = λ line. ok ([], line);
}
