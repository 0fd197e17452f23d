-- ===== src/Verify/Strings.antt =====
-- The strings that `extract_ascii_strings` finds.
use secure_file_shredder_and.Base.{
  ℕ, ◌≡◌, inl, inr, refl, true, false, List, [], ◌∷◌, ◌++◌, append-nil, append_assoc, Bytes, Text,
  All, Bool-cases,
}
use secure_file_shredder_and.Verify.{is_printable, keep_run, extract_from, extract_ascii_strings}

abbrev pub Printable : Bytes → Type 0
Printable = All (λ b. is_printable b ≡ true)

-- The maximal printable runs of the bytes, in order, the empty ones included: each but the last
-- ends before a byte that is not printable.
pub data Runs : Bytes → List Text → Type 0 where
  last_run : {r : Text} → Printable r → Runs r (r ∷ [])
  run :
      {r : Text} (b : ℕ) {rest : Bytes} {rs : List Text}
      → Printable r
      → is_printable b ≡ false
      → Runs rest rs
      → Runs (r ++ (b ∷ rest)) (r ∷ rs)

-- Those of `n` bytes or more.
abbrev pub long_runs : ℕ → List Text → List Text
long_runs n [] = []
long_runs n (r ∷ rs) = keep_run n r (long_runs n rs)

Found : ℕ → Bytes → List Text → Type 0
Found n data' strings = (rs : List Text) × Runs data' rs × (strings ≡ long_runs n rs)

Printable-snoc :
    (current : Bytes) (b : ℕ)
    → Printable current
    → is_printable b ≡ true
    → Printable (current ++ (b ∷ []))
Printable-snoc [] b p q = (q, tt)
Printable-snoc (c ∷ current) b p q = (p.0, Printable-snoc current b p.1 q)

extract_from-Found :
    (n : ℕ) (current data' : Bytes)
    → Printable current
    → Found n (current ++ data') (extract_from n current data')
unfolding Found
extract_from-Found n current [] p = (current ∷ [], rw (append-nil current) (last_run p), refl)
extract_from-Found n current (b ∷ data') p = elim (Bool-cases (is_printable b)) [
  | inl q ↦
      let (rs, runs, e) =
        extract_from-Found n (current ++ (b ∷ [])) data' (Printable-snoc current b p q) in
      (rs, rw (append_assoc current (b ∷ []) data') at runs, rw q e)
  | inr q ↦
      let (rs, runs, e) = extract_from-Found n [] data' tt in
      (current ∷ rs, run b p q runs, rw (q, e) refl)
]

-- The strings that are found in some bytes are their maximal runs of printable characters that
-- have at least `min_len` characters, in order.
pub extract_ascii_strings-Runs :
    (data' : Bytes) (min_len : ℕ)
    → (rs : List Text) × Runs data' rs
      × (extract_ascii_strings data' min_len ≡ long_runs min_len rs)
unfolding extract_ascii_strings Found
extract_ascii_strings-Runs data' min_len = extract_from-Found min_len [] data' tt
