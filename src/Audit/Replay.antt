-- ===== src/Audit/Replay.antt =====
-- What `replay_and_verify` detects in a changed log, and what it lets through.
use secure_file_shredder_and.Base.{
  ℕ, ◌+◌, ◌≡◌, ◌⊎◌, inl, inr, refl, sym, ap, ◌∙◌, Bool, List, [], ◌∷◌, ◌++◌, append_assoc, Bytes,
  Text, codes, length, length-append, arith, lines,
}
use secure_file_shredder_and.Io.Outcome.{ok}
use secure_file_shredder_and.Io.System.{System, Crates}
use secure_file_shredder_and.Crypto.Hashing.{hmac_sha256_hex}
use secure_file_shredder_and.Audit.{
  AuditEntry, Json, genesis_hash, tag_of, canonical_signing_bytes, replay_lines, replay_content,
}
use secure_file_shredder_and.Audit.Chain.{
  IsChain, last_tag, Holds, nothing, blank, entry, replay_lines_complete, replay_lines_sound,
}
use secure_file_shredder_and.Audit.Tamper.{Clash, SameSigned, last_tag_commits}

module _ (sys : System) (json : Json) (key : Bytes) (encrypted : Bool) where
  -- Where tags have 64 characters: two texts that the replay accepts with the same last tag and the
  -- same number of entries hold entries with the same signed bytes, one by one, or at one place
  -- entries with different signed bytes and one tag, on which the HMAC collides.
  pub replay_content_commits :
      ((m : Bytes) → length (hmac_sha256_hex sys.crates key m) ≡ 64)
      → (content content' : Text) (r : Text × ℕ)
      → replay_content sys json key encrypted content ≡ ok r
      → replay_content sys json key encrypted content' ≡ ok r
      → (es : List AuditEntry) × (es' : List AuditEntry) × Holds sys json key encrypted
          (lines content)
          es
        × Holds sys json key encrypted (lines content') es'
        × (SameSigned sys.crates es es' ⊎ Clash sys.crates key es es')
  unfolding replay_content
  replay_content_commits size content content' r q q' =
      let (es, held, chain, last) =
        replay_lines_sound sys json key encrypted 0 genesis_hash 0 (lines content) r q in
      let (es', held', chain', last') =
        replay_lines_sound sys json key encrypted 0 genesis_hash 0 (lines content') r q' in
      let same = sym last ∙ last' in
      let counts : 0 + length es ≡ 0 + length es' = ap (λ p. p.1) same in
      let count : length es ≡ length es' = omega (arith, counts) in
      (
        es,
        es',
        held,
        held',
        elim (last_tag_commits sys.crates key size genesis_hash genesis_hash 0 0 es es' count refl
            chain chain' (ap (λ p. p.0) same)) [ inl (h, s) ↦ inl s | inr x ↦ inr x ],
      )

  Holds-prefix :
      (ls ls' : List Text) (es : List AuditEntry)
      → Holds sys json key encrypted (ls ++ ls') es
      → (xs : List AuditEntry) × (ys : List AuditEntry) × Holds sys json key encrypted ls xs
        × (es ≡ xs ++ ys)
  Holds-prefix [] ls' es held = ([], es, nothing, refl)
  Holds-prefix (l ∷ ls) ls' es (blank b r) =
      let (xs, ys, held, e) = Holds-prefix ls ls' es r in (xs, ys, blank b held, e)
  Holds-prefix (l ∷ ls) ls' _ (entry {e = a} {es} b p r) =
      let (xs, ys, held, e) = Holds-prefix ls ls' es r in
      (a ∷ xs, ys, entry b p held, ap (λ zs. a ∷ zs) e)

  IsChain-prefix :
      (h : Text) (n : ℕ) (xs ys : List AuditEntry)
      → IsChain sys.crates key h n (xs ++ ys)
      → IsChain sys.crates key h n xs
  IsChain-prefix h n [] ys c = tt
  IsChain-prefix h n (x ∷ xs) ys c = (c.0, c.1, c.2, IsChain-prefix x.entry_hmac (n + 1) xs ys c.3)

  -- The lines at the end of an accepted log can be cut off: what is left is accepted too.
  pub replay_lines-prefix :
      (line_no : ℕ) (h : Text) (n : ℕ) (ls ls' : List Text) (r : Text × ℕ)
      → replay_lines sys json key encrypted line_no h n (ls ++ ls') ≡ ok r
      → (r' : Text × ℕ) × (replay_lines sys json key encrypted line_no h n ls ≡ ok r')
  replay_lines-prefix line_no h n ls ls' r q =
      let (es, held, chain, last) =
        replay_lines_sound sys json key encrypted line_no h n (ls ++ ls') r q in
      let (xs, ys, kept, e) = Holds-prefix ls ls' es held in
      let chain' = IsChain-prefix h n xs ys (rw (sym e) chain) in
      (_, replay_lines_complete sys json key encrypted line_no h n kept chain')

-- The words of a target up to a bar, moved to the operation.
abbrev pub Regrouped : AuditEntry → AuditEntry → Type 0
Regrouped e e' =
    (b : Text) × (c : Text) × (e.target ≡ b ++ (codes "|" ++ c))
    × (e' ≡ record e { operation = e.operation ++ (codes "|" ++ b); target = c })

module _ (crates : Crates) (key : Bytes) where
  tag_of-Regrouped :
      (e e' : AuditEntry)
      → Regrouped e e'
      → (tag_of crates key e ≡ tag_of crates key e')
        × (e.sequence ≡ e'.sequence)
        × (e.prev_hash ≡ e'.prev_hash)
        × (e.entry_hmac ≡ e'.entry_hmac)
  unfolding tag_of canonical_signing_bytes
  tag_of-Regrouped e e' (b, c, t, q) = rw q (rw t (simp append_assoc), refl, refl, refl)

  IsChain-Regrouped :
      (h : Text) (n : ℕ) (xs ys : List AuditEntry) (e e' : AuditEntry)
      → Regrouped e e'
      → IsChain crates key h n (xs ++ (e ∷ ys))
      → IsChain crates key h n (xs ++ (e' ∷ ys))
  IsChain-Regrouped h n [] ys e e' g c =
      let (t, s, p, m) = tag_of-Regrouped e e' g in
      (sym s ∙ c.0, sym p ∙ c.1, sym t ∙ c.2 ∙ m, rw (sym m) c.3)
  IsChain-Regrouped h n (x ∷ xs) ys e e' g c =
      (c.0, c.1, c.2, IsChain-Regrouped x.entry_hmac (n + 1) xs ys e e' g c.3)

last_tag-Regrouped :
    (h : Text) (xs ys : List AuditEntry) (e e' : AuditEntry)
    → e.entry_hmac ≡ e'.entry_hmac
    → last_tag h (xs ++ (e ∷ ys)) ≡ last_tag h (xs ++ (e' ∷ ys))
last_tag-Regrouped h [] ys e e' m = ap (λ t. last_tag t ys) m
last_tag-Regrouped h (x ∷ xs) ys e e' m = last_tag-Regrouped x.entry_hmac xs ys e e' m

length-Regrouped :
    (xs ys : List AuditEntry) (e e' : AuditEntry)
    → length (xs ++ (e ∷ ys)) ≡ length (xs ++ (e' ∷ ys))
length-Regrouped xs ys e e' = length-append xs (e ∷ ys) ∙ sym (length-append xs (e' ∷ ys))

module _ (sys : System) (json : Json) (key : Bytes) (encrypted : Bool) where
  Holds-unique :
      (ls : List Text) (es es' : List AuditEntry)
      → Holds sys json key encrypted ls es
      → Holds sys json key encrypted ls es'
      → es ≡ es'
  Holds-unique [] _ _ nothing nothing = refl
  Holds-unique (l ∷ ls) es es' (blank b r) (blank b' r') = Holds-unique ls es es' r r'
  Holds-unique (l ∷ ls) _ _ (blank b r) (entry b' p' r') = absurd (cc (b, b'))
  Holds-unique (l ∷ ls) _ _ (entry b p r) (blank b' r') = absurd (cc (b, b'))
  Holds-unique (l ∷ ls) _ _ (entry {es} b p r) (entry {es = es'} b' p' r') =
      cc (p, p', Holds-unique ls es es' r r')

  -- The tag does not tell the bar between the operation and the target from a bar in one of them.
  -- In an accepted log, an entry whose target has a bar in it can be replaced by the one that has the
  -- words of its target up to the bar in its operation, with no new tag: the replay of a text that
  -- holds the changed entries has the same result.
  pub replay_lines-Regrouped :
      (line_no : ℕ) (h : Text) (n : ℕ) (ls ls' : List Text) (xs ys : List AuditEntry)
      → (e e' : AuditEntry) (r : Text × ℕ) → Regrouped e e'
      → Holds sys json key encrypted ls (xs ++ (e ∷ ys))
      → Holds sys json key encrypted ls' (xs ++ (e' ∷ ys))
      → replay_lines sys json key encrypted line_no h n ls ≡ ok r
      → replay_lines sys json key encrypted line_no h n ls' ≡ ok r
  replay_lines-Regrouped line_no h n ls ls' xs ys e e' r g held held' q =
      let (es, all, chain, last) = replay_lines_sound sys json key encrypted line_no h n ls r q in
      let u = Holds-unique ls es (xs ++ (e ∷ ys)) all held in
      let c = IsChain-Regrouped sys.crates key h n xs ys e e' g (rw (sym u) chain) in
      let m = (tag_of-Regrouped sys.crates key e e' g).3 in
      let tags = last_tag-Regrouped h xs ys e e' m in
      let count = length-Regrouped xs ys e e' in
      replay_lines_complete sys json key encrypted line_no h n held' c
      ∙ ap ok (rw (sym tags, sym count, sym u) (sym last))
