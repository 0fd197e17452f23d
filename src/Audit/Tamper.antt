-- ===== src/Audit/Tamper.antt =====
-- What the chain of tags protects, and what it does not.
use secure_file_shredder_and.Base.{
  ℕ, ◌+◌, ◌≡◌, ◌≢◌, ◌⊎◌, inl, inr, sym, ap, ◌∙◌, List, [], ◌∷◌, ◌++◌, append_assoc, Bytes, Text,
  codes, bytes_eq, bytes_eq_iff, length, length-append, arith, Bool-cases, decimal,
}
use secure_file_shredder_and.Io.System.{Crates}
use secure_file_shredder_and.Crypto.Hashing.{hmac_sha256_hex}
use secure_file_shredder_and.Audit.{AuditEntry, tag_of, without_tag, canonical_signing_bytes}
use secure_file_shredder_and.Audit.Chain.{IsChain, last_tag}

abbrev pub signed : Crates → AuditEntry → Bytes
signed crates e = canonical_signing_bytes crates (without_tag e)

-- The same signed bytes, entry by entry.
abbrev pub SameSigned : Crates → List AuditEntry → List AuditEntry → Type 0
SameSigned crates [] [] = Unit
SameSigned crates [] (e ∷ es) = ⊥
SameSigned crates (e ∷ es) [] = ⊥
SameSigned crates (e ∷ es) (e' ∷ es') =
    (signed crates e ≡ signed crates e') × SameSigned crates es es'

-- At one place, entries with different signed bytes and one tag: two messages on which the code's
-- HMAC collides.
abbrev pub Clash : Crates → Bytes → List AuditEntry → List AuditEntry → Type 0
Clash crates key [] es' = ⊥
Clash crates key (e ∷ es) [] = ⊥
Clash crates key (e ∷ es) (e' ∷ es') =
    ((signed crates e ≢ signed crates e')
      × (hmac_sha256_hex crates key (signed crates e)
          ≡ hmac_sha256_hex crates key (signed crates e')))
    ⊎ Clash crates key es es'

suffix_eq : (xs ys h k : Bytes) → length h ≡ length k → xs ++ h ≡ ys ++ k → h ≡ k
suffix_eq [] [] h k l e = e
suffix_eq [] (y ∷ ys) h k l e = absurd (omega (arith, ap length e, length-append ys k))
suffix_eq (x ∷ xs) [] h k l e = absurd (omega (arith, ap length e, length-append xs h))
suffix_eq (x ∷ xs) (y ∷ ys) h k l e = suffix_eq xs ys h k l (cc)

module _ (crates : Crates) (key : Bytes) where
  -- Signed bytes end in the tag of the entry before.
  front : AuditEntry → Bytes
  front e =
      decimal e.sequence
      ++ (codes "|"
          ++ (crates.rfc3339 e.timestamp
              ++ (codes "|"
                  ++ (e.operation
                      ++ (codes "|" ++ (e.target ++ (codes "|" ++ (e.details ++ codes "|"))))))))

  signed_split : (e : AuditEntry) → signed crates e ≡ front e ++ e.prev_hash
  unfolding canonical_signing_bytes front
  signed_split e = simp append_assoc

  -- A chain of tags fixes what was signed, up to a collision at one place.
  pub last_tag_commits :
      ((m : Bytes) → length (hmac_sha256_hex crates key m) ≡ 64)
      → (h h' : Text) (n n' : ℕ) (es es' : List AuditEntry) → length es ≡ length es'
      → length h ≡ length h'
      → IsChain crates key h n es
      → IsChain crates key h' n' es'
      → last_tag h es ≡ last_tag h' es'
      → ((h ≡ h') × SameSigned crates es es') ⊎ Clash crates key es es'
  unfolding tag_of
  last_tag_commits size h h' n n' [] [] l m c c' t = inl (t, tt)
  last_tag_commits size h h' n n' [] (e' ∷ es') l m c c' t = absurd (omega (arith, l))
  last_tag_commits size h h' n n' (e ∷ es) [] l m c c' t = absurd (omega (arith, l))
  last_tag_commits size h h' n n' (e ∷ es) (e' ∷ es') l m c c' t =
      let l' : length es ≡ length es' = omega (arith, l) in
      let tags : length e.entry_hmac ≡ length e'.entry_hmac =
        ap length (sym c.2) ∙ size _ ∙ sym (size _) ∙ ap length c'.2 in
      elim (last_tag_commits size e.entry_hmac e'.entry_hmac (n + 1) (n' + 1) es es' l' tags c.3
        c'.3 t) [
          | inr x ↦ inr (inr x)
          | inl (same_tag, rest) ↦
              elim (Bool-cases (bytes_eq (signed crates e) (signed crates e'))) [
                | inl b ↦
                    let s = (bytes_eq_iff (signed crates e) (signed crates e')).0 b in
                    let heads : length e.prev_hash ≡ length e'.prev_hash =
                      ap length c.1 ∙ m ∙ sym (ap length c'.1) in
                    let p =
                      suffix_eq (front e) (front e') e.prev_hash e'.prev_hash heads
                        (sym (signed_split e) ∙ s ∙ signed_split e') in
                    inl (sym c.1 ∙ p ∙ c'.1, (s, rest))
                | inr b ↦ inr (
                    inl (
                      λ s. absurd (cc (b, (bytes_eq_iff (signed crates e) (signed crates e')).1 s)),
                      c.2 ∙ same_tag ∙ sym c'.2,
                    ))
              ]
        ]
