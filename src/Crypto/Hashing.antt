-- ===== src/Crypto/Hashing.antt =====
-- crypto/hashing.rs: hashes in hexadecimal. The hash functions are of the crates `sha2`, `blake3` and
-- `hmac`.
use secure_file_shredder_and.Base.{
  Bool, false, Option, none, some, List, [], ◌∷◌, ◌++◌, Bytes, Text, bytes_eq, ◌⊎◌, inl, inr, ◌^◌,
  length, take, drop, replicate, ◌==◌, if◌then◌else◌,
}
use secure_file_shredder_and.Io.Outcome.{Outcome, ok, err}
use secure_file_shredder_and.Io.Error.{IoError}
use secure_file_shredder_and.Io.System.{Crates}

unfoldable pub sha256_hex : Crates → Bytes → Text
sha256_hex crates bytes = crates.hex_encode (crates.sha256 bytes)

unfoldable pub sha512_hex : Crates → Bytes → Text
sha512_hex crates bytes = crates.hex_encode (crates.sha512 bytes)

unfoldable pub blake3_hex : Crates → Bytes → Text
blake3_hex crates bytes = crates.hex_encode (crates.blake3 bytes)

-- What a reader gives, read by read: an error, or bytes, no more than the buffer has room for, of
-- which none mean the end.
abbrev pub Reader : Type 0
Reader = List (IoError ⊎ Bytes)

-- The buffer after a read, which fills its start.
abbrev read_into : Bytes → Bytes → Bytes
read_into chunk buf = chunk ++ drop (length chunk) buf

-- The loop, with what the hasher was given so far, of which it has the hash in the end.
unfoldable pub hash_chunks : Crates → Bytes → Bytes → Reader → Outcome IoError Text
unfolding blake3_hex
hash_chunks crates sofar buf [] = ok (blake3_hex crates sofar)
hash_chunks crates sofar buf (inl e ∷ rest) = err e
hash_chunks crates sofar buf (inr chunk ∷ rest) =
    let n = length chunk in
    let filled = read_into chunk buf in
    let more = hash_chunks crates (sofar ++ take n filled) filled rest in
    if n == 0 then ok (blake3_hex crates sofar) else more

unfoldable pub blake3_hash_reader : Crates → Reader → Outcome IoError Text
unfolding hash_chunks
blake3_hash_reader crates reader = hash_chunks crates [] (replicate (2 ^ 16) 0) reader

unfoldable pub hmac_sha256_hex : Crates → Bytes → Bytes → Text
hmac_sha256_hex crates key bytes = crates.hex_encode (crates.hmac_sha256 key bytes)

abbrev pub verify_slice : Bytes → Option Bytes → Bool
verify_slice tag (some given) = bytes_eq tag given
verify_slice tag none = false

unfoldable pub hmac_sha256_verify : Crates → Bytes → Bytes → Text → Bool
hmac_sha256_verify crates key bytes tag_hex =
    verify_slice (crates.hmac_sha256 key bytes) (crates.hex_decode tag_hex)
