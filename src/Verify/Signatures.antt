-- ===== src/Verify/Signatures.antt =====
-- What the verdict of `analyze_bytes` says about the bytes: which signatures are in them.
use secure_file_shredder_and.Base.{
  ℕ, ◌≡◌, ◌≤◌, ◌↔◌, inl, inr, refl, sym, ap, ◌∙◌, true, false, ◌&&◌, List, [], ◌∷◌, ◌++◌, Bytes,
  Text, codes, length, length-append, take, drop, take-append-drop, take-append_eq, bytes_eq,
  bytes_eq_iff, leb, arith, All, Bool-cases,
}
use secure_file_shredder_and.Io.Path.{FilePath}
use secure_file_shredder_and.Io.System.{Float}
use secure_file_shredder_and.Io.Float.{F64, f64_lt, f64_5, f64_6_5}
use secure_file_shredder_and.Crypto.Rng.{shannon_entropy}
use secure_file_shredder_and.Verify.{
  very_low, magic_signatures, is_empty, any_window, contains_subsequence, signature_hits_in,
  extract_ascii_strings, classify_confidence, analyze_bytes,
}

-- One text is a part of the other.
abbrev pub Occurs : Bytes → Bytes → Type 0
Occurs needle haystack =
    (before : Bytes) × (after : Bytes) × (haystack ≡ before ++ (needle ++ after))

window_iff :
    (needle haystack : Bytes)
    → ((leb (length needle) (length haystack) && bytes_eq (take (length needle) haystack) needle)
        ≡ true)
      ↔ ((after : Bytes) × (haystack ≡ needle ++ after))
window_iff needle haystack = (
  λ h.
      let s = (bytes_eq_iff (take (length needle) haystack) needle).0 (ground (arith, h)) in
      (
        drop (length needle) haystack,
        sym (take-append-drop (length needle) haystack)
            ∙ ap (λ x. x ++ drop (length needle) haystack) s,
      ),
  λ (after, e).
      let long : length needle ≤ length haystack =
        omega (arith, ap length e, length-append needle after) in
      let s : take (length needle) haystack ≡ needle =
        ap (take (length needle)) e ∙ take-append_eq needle after refl in
      let b = (bytes_eq_iff (take (length needle) haystack) needle).1 s in ground (arith, long, b),
)

any_window_sound :
    (haystack needle : Bytes) → any_window haystack needle ≡ true → Occurs needle haystack
any_window_sound [] needle h = absurd (cc)
any_window_sound (b ∷ haystack) needle h =
    elim (Bool-cases (
      leb (length needle) (length (b ∷ haystack))
      && bytes_eq (take (length needle) (b ∷ haystack)) needle)) [
        | inl w ↦ let (after, e) = (window_iff needle (b ∷ haystack)).0 w in ([], after, e)
        | inr w ↦
            let (before, after, e) = any_window_sound haystack needle (rw w at h) in
            (b ∷ before, after, ap (λ x. b ∷ x) e)
      ]

any_window_complete :
    (before needle after : Bytes)
    → is_empty needle ≡ false
    → any_window (before ++ (needle ++ after)) needle ≡ true
any_window_complete [] [] after n = absurd (cc)
any_window_complete [] (x ∷ needle) after n =
    rw ((window_iff (x ∷ needle) ((x ∷ needle) ++ after)).1 (after, refl)) refl
any_window_complete (b ∷ before) needle after n =
    ground (arith, any_window_complete before needle after n)

-- The search finds a text that is not empty exactly if it is a part of the bytes.
pub contains_subsequence_iff :
    (haystack needle : Bytes)
    → (contains_subsequence haystack needle ≡ true)
      ↔ ((is_empty needle ≡ false) × Occurs needle haystack)
unfolding contains_subsequence
contains_subsequence_iff haystack needle = (
  λ h.
      let n : is_empty needle ≡ false = ground (arith, h) in
      (n, any_window_sound haystack needle (ground (arith, h))),
  λ (n, (before, after, e)).
      let found : any_window haystack needle ≡ true =
        rw e (any_window_complete before needle after n) in
      let long : length needle ≤ length haystack =
        omega (
          arith,
          ap length e,
          length-append before (needle ++ after),
          length-append needle after,
        ) in
      ground (arith, n, found, long),
)

-- No text was found.
no_hits :
    (data' : Bytes) (sigs : List (Text × Bytes))
    → signature_hits_in data' sigs ≡ []
    → All (λ s. contains_subsequence data' s.1 ≡ false) sigs
unfolding signature_hits_in
no_hits data' [] h = tt
no_hits data' ((name, magic) ∷ rest) h = elim (Bool-cases (contains_subsequence data' magic)) [
  | inl c ↦ absurd (cc (rw c at h))
  | inr c ↦ (c, no_hits data' rest (rw c at h))
]

-- A list that is empty as the test sees it.
is_empty_eq : (xs : List Text) → is_empty xs ≡ true → xs ≡ []
is_empty_eq [] h = refl
is_empty_eq (x ∷ xs) h = absurd (cc)

classify_confidence_very_low :
    (entropy : F64) (signatures : List Text) (count : ℕ)
    → classify_confidence entropy signatures count ≡ very_low
    → (is_empty signatures ≡ true)
      × (count ≤ 5)
      × (f64_lt entropy f64_5 ≡ false)
      × (f64_lt entropy f64_6_5 ≡ false)
unfolding classify_confidence
classify_confidence_very_low entropy signatures count h = ground (arith, h)

none-Occurs :
    (data' : Bytes) (sigs : List (Text × Bytes))
    → All (λ s. is_empty s.1 ≡ false) sigs
    → All (λ s. contains_subsequence data' s.1 ≡ false) sigs
    → All (λ s. ¬ Occurs s.1 data') sigs
none-Occurs data' [] n c = tt
none-Occurs data' (s ∷ sigs) n c = (
  λ o. absurd (cc (c.0, (contains_subsequence_iff data' s.1).1 (n.0, o))),
  none-Occurs data' sigs n.1 c.1,
)

magic_signatures_not_empty : All (λ s. is_empty s.1 ≡ false) magic_signatures
unfolding codes
magic_signatures_not_empty =
    (refl, (refl, (refl, (refl, (refl, (refl, (refl, (refl, (refl, (refl, (refl, tt)))))))))))

-- A report calls recovery very unlikely only for bytes in which none of the eleven signatures
-- occurs, that have at most five strings of six characters or more, and whose entropy is not
-- below 5.0 nor below 6.5.
pub analyze_bytes-very_low :
    (f : Float) (path : FilePath) (data' : Bytes)
    → (analyze_bytes f path data').recovery_confidence ≡ very_low
    → All (λ s. ¬ Occurs s.1 data') magic_signatures
      × (length (extract_ascii_strings data' 6) ≤ 5)
      × (f64_lt (shannon_entropy f data') f64_5 ≡ false)
      × (f64_lt (shannon_entropy f data') f64_6_5 ≡ false)
unfolding analyze_bytes
analyze_bytes-very_low f path data' h =
    let (e, c, l, m) = classify_confidence_very_low _ _ _ h in
    let a = no_hits data' magic_signatures (is_empty_eq _ e) in
    (none-Occurs data' magic_signatures magic_signatures_not_empty a, c, l, m)
