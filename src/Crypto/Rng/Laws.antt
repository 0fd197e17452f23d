-- ===== src/Crypto/Rng/Laws.antt =====
-- Where the bytes of a random buffer come from, and how many they are.
use secure_file_shredder_and.Base.{
  ℕ, zero, suc, ◌≡◌, ◌⊎◌, inl, inr, refl, ap, ◌∙◌, true, false, Option, none, some, ◌++◌, Bytes,
  Text, length, take, replicate,
}
use secure_file_shredder_and.Io.System.{System}
use secure_file_shredder_and.Io.Error.{SanitizerError, crypto}
use secure_file_shredder_and.Io.Path.{FilePath}
use secure_file_shredder_and.Io.Frame.{
  Keeps, Keeps-pure, Keeps-raise, Keeps-ask, Keeps-if, Keeps-bind,
}
use secure_file_shredder_and.Io.Triple.{
  Assertion, Triple, Triple-given, Triple-pure, Triple-raise, Triple-ask, Triple-bind, Triple-if,
  Triple-pre, Triple-weaken,
}
use secure_file_shredder_and.Crypto.Rng.{secure_random_bytes, or_fallback, fallback, seed, all_zero}

-- `OsRng` and `StdRng` fill the buffer that they are given.
pub record FillsBuffers (sys : System) : Type 0 where
  pub length-os_random :
      (t n : ℕ) (bytes : Bytes) → sys.os.os_random t n ≡ some bytes → length bytes ≡ n
  pub length-std_rng : (s : Bytes) (n : ℕ) → length (sys.crates.std_rng s n) ≡ n

-- Bytes that a random source has given: the system's, or, where it has refused, a generator seeded
-- with the clock and an address, and then not all zero.
abbrev pub FromOs : System → Bytes → Type 0
FromOs sys out = (t : ℕ) × (sys.os.os_random t (length out) ≡ some out)

abbrev pub NoOsRandom : System → ℕ → Type 0
NoOsRandom sys n = (t : ℕ) × (sys.os.os_random t n ≡ none)

abbrev pub FromSeed : System → Bytes → Type 0
FromSeed sys out =
    NoOsRandom sys (length out)
    × (¬ (out ≡ replicate (length out) 0))
    × ((t : ℕ) × (out
          ≡ sys.crates.std_rng
              (sys.crates.blake3
                (take 16 (sys.os.clock_bytes t) ++ take 8 (sys.os.stack_bytes t) ++ replicate 8 0))
              (length out)))

abbrev pub Drawn : System → Bytes → Type 0
Drawn sys out = FromOs sys out ⊎ FromSeed sys out

all_zero-replicate : (n : ℕ) → all_zero (replicate n 0) ≡ true
unfolding all_zero
all_zero-replicate zero = refl
all_zero-replicate (suc n) = all_zero-replicate n

not_zeros : (b : Bytes) → all_zero b ≡ false → ¬ (b ≡ replicate (length b) 0)
not_zeros b e z =
    let f : all_zero b ≡ true = ap all_zero z ∙ all_zero-replicate (length b) in absurd (cc)

module _ {sys : System} (fills : FillsBuffers sys) (P : Assertion) where
  -- An answer of `OsRng` on a buffer of that length.
  abbrev Answered : ℕ → Option Bytes → Type 0
  Answered n o = (t : ℕ) × (sys.os.os_random t n ≡ o)

  abbrev Given : ℕ → Bytes → Assertion
  Given n out d t = P d t × (length out ≡ n) × Drawn sys out

  abbrev Failed : ℕ → SanitizerError → Assertion
  Failed n e d t = P d t × ((text : Text) × (e ≡ crypto text)) × NoOsRandom sys n

  or_fallback-Triple :
      (n : ℕ) (o : Option Bytes)
      → Answered n o
      → Triple sys P (or_fallback n o) (Given n) (Failed n)
  unfolding or_fallback fallback seed
  or_fallback-Triple n (some bytes) (t, e) =
      let l : length bytes ≡ n = fills.length-os_random t n bytes e in
      Triple-pure bytes (λ d tr p. (p, l, inl (t, rw (← l) at e)))
  or_fallback-Triple n none refused =
      Triple-bind {S = λ out d t. P d t × Seeded out}
        (Triple-ask _ (λ u d tr p. (p, (fills.length-std_rng _ n, (u, refl)))))
        λ bytes. Triple-given λ d t (_, h).
          Triple-if (all_zero bytes) (λ _. Triple-raise _ (λ d t p. (p.0, (_, refl), refused)))
            (λ z. Triple-pure bytes (λ d t p. (p.0, h.0, inr (drawn bytes h z))))
    where
      Seeded : Bytes → Type 0
      Seeded out =
          (length out ≡ n)
          × ((t : ℕ) × (out
                ≡ sys.crates.std_rng
                    (sys.crates.blake3 (
                      take 16 (sys.os.clock_bytes t)
                      ++ take 8 (sys.os.stack_bytes t)
                      ++ replicate 8 0))
                    n))

      drawn : (out : Bytes) → Seeded out → all_zero out ≡ false → FromSeed sys out
      drawn out (l, (u, e)) z = (rw (← l) at refused, not_zeros out z, (u, rw (← l) at e))

  pub secure_random_bytes-Drawn :
      (buf : Bytes)
      → Triple sys P
          (secure_random_bytes buf)
          (λ out d t. P d t × (length out ≡ length buf) × Drawn sys out)
          (λ e d t. P d t × ((text : Text) × (e ≡ crypto text)) × NoOsRandom sys (length buf))
  unfolding secure_random_bytes
  secure_random_bytes-Drawn buf =
      Triple-bind {S = λ o d t. P d t × Answered (length buf) o}
        (Triple-ask _ (λ n d t p. (p, (n, refl))))
        λ o. Triple-given λ d t h. Triple-pre (or_fallback-Triple (length buf) o h.1) (λ d t h. h.0)

module _ {sys : System} (fills : FillsBuffers sys) where
  -- The one error is of the kind of the ciphers'.
  pub secure_random_bytes-errors :
      (P : Assertion) (buf : Bytes)
      → Triple sys P
          (secure_random_bytes buf)
          (λ out d t. P d t × (length out ≡ length buf))
          (λ e d t. P d t × ((text : Text) × (e ≡ crypto text)))
  secure_random_bytes-errors P buf =
      Triple-weaken (secure_random_bytes-Drawn fills P buf) (λ d t h. h) (λ a d t h. (h.0, h.1))
        (λ e d t h. (h.0, h.1))

  -- The length alone.
  pub secure_random_bytes-Triple :
      (P : Assertion) (buf : Bytes)
      → Triple sys P
          (secure_random_bytes buf)
          (λ out d t. P d t × (length out ≡ length buf))
          (λ e. P)
  secure_random_bytes-Triple P buf =
      Triple-weaken (secure_random_bytes-errors P buf) (λ d t h. h) (λ a d t h. h) (λ e d t h. h.0)

module _ {sys : System} {q : FilePath} where
  or_fallback-Keeps : (n : ℕ) (o : Option Bytes) → Keeps sys q (or_fallback n o) (λ a. Unit)
  unfolding or_fallback
  or_fallback-Keeps n (some bytes) = Keeps-pure bytes tt
  or_fallback-Keeps n none =
      Keeps-bind (Keeps-ask _)
        λ bytes _. Keeps-if (all_zero bytes) (Keeps-raise _) (Keeps-pure bytes tt)

  pub secure_random_bytes-Keeps : (buf : Bytes) → Keeps sys q (secure_random_bytes buf) (λ a. Unit)
  unfolding secure_random_bytes
  secure_random_bytes-Keeps buf =
      Keeps-bind (Keeps-ask _) λ answer _. or_fallback-Keeps (length buf) answer
