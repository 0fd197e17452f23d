-- ===== src/Sanitize/Patterns/Fill.antt =====
-- What a pass writes: `fill_pass` against a description of the byte that each pattern fixes.
use secure_file_shredder_and.Base.{
  ℕ, zero, suc, ◌+◌, ◌%◌, ◌≤◌, ◌≡◌, refl, ap, Bool, true, false, Option, none, some, [], ◌∷◌, Bytes,
  length, get_elem?, get_elem?-lt, arith,
}
use secure_file_shredder_and.Io.Outcome.{Outcome, ok}
use secure_file_shredder_and.Io.Error.{SanitizerError}
use secure_file_shredder_and.Io.System.{System}
use secure_file_shredder_and.Io.Action.{lift}
use secure_file_shredder_and.Io.Triple.{Assertion, Triple, Triple-weaken}
use secure_file_shredder_and.Crypto.Rng.{secure_random_bytes}
use secure_file_shredder_and.Crypto.Rng.Laws.{FillsBuffers, Drawn, secure_random_bytes-Drawn}
use secure_file_shredder_and.Sanitize.Patterns.{
  OverwritePattern, single_random, multi_random, dod_three_pass, nist_clear, nist_purge, custom,
  zeros, ones, passes, fill, fill_custom, fill_pass,
}

-- Every pattern has a pass.
pub passes_pos : (p : OverwritePattern) → 1 ≤ passes p
unfolding passes
passes_pos (multi_random n) = omega arith
passes_pos single_random = omega arith
passes_pos _ = omega arith

-- The byte that a pass fixes at an offset of its buffer; `none` where it is random.
abbrev pub fixed_byte : OverwritePattern → ℕ → ℕ → Option ℕ
fixed_byte dod_three_pass zero i = some 0
fixed_byte dod_three_pass (suc zero) i = some 255
fixed_byte nist_clear pass i = some 0
fixed_byte (custom (v ∷ pattern)) pass i = get_elem? (v ∷ pattern) (i % suc (length pattern))
fixed_byte zeros pass i = some 0
fixed_byte ones pass i = some 255
fixed_byte _ pass i = none

-- The passes that are random throughout.
abbrev pub random_pass : OverwritePattern → ℕ → Bool
random_pass single_random pass = true
random_pass (multi_random n) pass = true
random_pass dod_three_pass (suc (suc k)) = true
random_pass nist_purge pass = true
random_pass (custom []) pass = true
random_pass _ pass = false

-- The bytes from offset `i` on are those that `want` fixes.
abbrev pub Agrees : (ℕ → Option ℕ) → ℕ → Bytes → Type 0
Agrees want i [] = Unit
Agrees want i (v ∷ rest) = ((b : ℕ) → want i ≡ some b → v ≡ b) × Agrees want (i + 1) rest

-- What a pass puts into a buffer: the fixed bytes, or bytes that a random source has given.
abbrev pub Filled : System → OverwritePattern → ℕ → Bytes → Type 0
Filled sys p pass out =
    Agrees (fixed_byte p pass) 0 out × (random_pass p pass ≡ true → Drawn sys out)

fill-Agrees :
    (want : ℕ → Option ℕ) (value i : ℕ) (buf : Bytes)
    → ((j b : ℕ) → want j ≡ some b → value ≡ b)
    → Agrees want i (fill buf value)
fill-Agrees want value i [] h = tt
fill-Agrees want value i (_ ∷ buf) h = (h i, fill-Agrees want value (i + 1) buf h)

length-fill : (buf : Bytes) (value : ℕ) → length (fill buf value) ≡ length buf
length-fill [] value = refl
length-fill (_ ∷ buf) value = ap suc (length-fill buf value)

free-Agrees :
    (want : ℕ → Option ℕ) (i : ℕ) (buf : Bytes) → ((j : ℕ) → want j ≡ none) → Agrees want i buf
free-Agrees want i [] h = tt
free-Agrees want i (_ ∷ buf) h = (λ b e. cc (h i), free-Agrees want (i + 1) buf h)

-- What a filled buffer is to be: as long as the buffer before, with the bytes of the pass.
abbrev Fills : System → OverwritePattern → ℕ → Bytes → Bytes → Type 0
Fills sys p pass buf out = (length out ≡ length buf) × Filled sys p pass out

module _ (v : ℕ) (pattern : Bytes) where
  fill_custom-cons :
      (i x b : ℕ) (buf rest : Bytes)
      → get_elem? (v ∷ pattern) (i % suc (length pattern)) ≡ some b
      → fill_custom (v ∷ pattern) (i + 1) buf ≡ ok rest
      → fill_custom (v ∷ pattern) i (x ∷ buf) ≡ ok (b ∷ rest)
  unfolding fill_custom
  fill_custom-cons i x b buf rest e f = ground (arith, e, f)

  -- The index of the loop is always in range.
  fill_custom_lem :
      (i : ℕ) (buf : Bytes)
      → (out : Bytes) × (fill_custom (v ∷ pattern) i buf ≡ ok out)
        × (length out ≡ length buf)
        × Agrees (fixed_byte (custom (v ∷ pattern)) 0) i out
  unfolding fill_custom
  fill_custom_lem i [] = ([], refl, refl, tt)
  fill_custom_lem i (x ∷ buf) =
      let (b, e) = get_elem?-lt (v ∷ pattern) (i % suc (length pattern)) (omega arith) in
      let (out, f, n, a) = fill_custom_lem (i + 1) buf in
      (b ∷ out, fill_custom-cons i x b buf out e f, ap suc n, (λ c g. cc, a))

module _ {sys : System} (P : Assertion) where
  lift-Triple :
      (p : OverwritePattern) (pass : ℕ) (buf out : Bytes) (r : Outcome SanitizerError Bytes)
      → r ≡ ok out
      → Fills sys p pass buf out
      → Triple sys P (lift r) (λ o d t. P d t × Fills sys p pass buf o) (λ e. P)
  unfolding lift
  lift-Triple p pass buf out r e h = record { at = λ w q. rw e (q, h) }

  fill-Triple :
      (p : OverwritePattern) (pass value : ℕ) (buf : Bytes)
      → random_pass p pass ≡ false
      → ((j b : ℕ) → fixed_byte p pass j ≡ some b → value ≡ b)
      → Triple {E = SanitizerError} sys P
          (lift (ok (fill buf value)))
          (λ o d t. P d t × Fills sys p pass buf o)
          (λ e. P)
  fill-Triple p pass value buf fixed h =
      lift-Triple p pass buf (fill buf value) _ refl
        (length-fill buf value, (fill-Agrees _ value 0 buf h, λ e. absurd (cc)))

  module _ (fills : FillsBuffers sys) where
    random-Triple :
        (p : OverwritePattern) (pass : ℕ) (buf : Bytes)
        → ((j : ℕ) → fixed_byte p pass j ≡ none)
        → Triple sys P (secure_random_bytes buf) (λ o d t. P d t × Fills sys p pass buf o) (λ e. P)
    random-Triple p pass buf h =
        Triple-weaken (secure_random_bytes-Drawn fills P buf) (λ d t q. q)
          (λ o d t q. (q.0, (q.1, (free-Agrees _ 0 o h, λ e. q.2)))) (λ e d t q. q.0)

    -- With random sources that fill a buffer to its length, a pass keeps the buffer's length, and puts the byte that the pattern fixes for the pass at
    -- every offset where it fixes one; what a random pass puts is what a random source gave. It changes neither the disk nor the trace, also where the
    -- random source fails, and it never indexes a custom pattern out of range.
    pub fill_pass-Triple :
        (p : OverwritePattern) (buf : Bytes) (pass : ℕ)
        → Triple sys P
            (fill_pass p buf pass)
            (λ out d t. P d t × ((length out ≡ length buf) × Filled sys p pass out))
            (λ e. P)
    unfolding fill_pass
    fill_pass-Triple single_random buf pass = random-Triple single_random pass buf (λ j. refl)
    fill_pass-Triple (multi_random n) buf pass = random-Triple (multi_random n) pass buf (λ j. refl)
    fill_pass-Triple dod_three_pass buf zero = fill-Triple dod_three_pass 0 0 buf refl (λ j b e. cc)
    fill_pass-Triple dod_three_pass buf (suc zero) =
        fill-Triple dod_three_pass 1 255 buf refl (λ j b e. cc)
    fill_pass-Triple dod_three_pass buf (suc (suc k)) =
        random-Triple dod_three_pass (suc (suc k)) buf (λ j. refl)
    fill_pass-Triple nist_clear buf pass = fill-Triple nist_clear pass 0 buf refl (λ j b e. cc)
    fill_pass-Triple nist_purge buf pass = random-Triple nist_purge pass buf (λ j. refl)
    fill_pass-Triple (custom []) buf pass = random-Triple (custom []) pass buf (λ j. refl)
    fill_pass-Triple (custom (v ∷ pattern)) buf pass =
        let (out, e, n, a) = fill_custom_lem v pattern 0 buf in
        lift-Triple (custom (v ∷ pattern)) pass buf out _ e (n, (a, λ f. absurd (cc (f))))
    fill_pass-Triple zeros buf pass = fill-Triple zeros pass 0 buf refl (λ j b e. cc)
    fill_pass-Triple ones buf pass = fill-Triple ones pass 255 buf refl (λ j b e. cc)
