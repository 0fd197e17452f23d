-- ===== src/Audit/Chain.antt =====
-- The replay in `replay_and_verify` and chains of entries.
use secure_file_shredder_and.Base.{
  ℕ, suc, ◌+◌, ◌≡◌, ◌↔◌, inl, inr, refl, sym, ap, ◌∙◌, Bool, true, false, List, [], ◌∷◌, Bytes,
  Text, bytes_eq_iff, is_blank, length, arith, Bool-cases,
}
use secure_file_shredder_and.Io.Outcome.{
  Outcome, ok, err, panic, out_of_fuel, ◌>>=◌, ◌>>◌, >>=-eq-ok,
}
use secure_file_shredder_and.Io.Error.{SanitizerError}
use secure_file_shredder_and.Io.System.{System, Crates}
use secure_file_shredder_and.Audit.{AuditEntry, Json, tag_of, check_entry, parse_line, replay_lines}

module _ (crates : Crates) (key : Bytes) where
  -- Entries in sequence from `n` on, each linked to the tag before it and rightly tagged.
  abbrev pub IsChain : Text → ℕ → List AuditEntry → Type 0
  IsChain h n [] = Unit
  IsChain h n (e ∷ es) =
      (e.sequence ≡ n)
      × (e.prev_hash ≡ h)
      × (tag_of crates key e ≡ e.entry_hmac)
      × IsChain e.entry_hmac (n + 1) es

  check_entry_iff :
      (line_no : ℕ) (h : Text) (n : ℕ) (e : AuditEntry)
      → (check_entry crates key line_no h n e ≡ ok tt)
        ↔ ((e.sequence ≡ n) × (e.prev_hash ≡ h) × (tag_of crates key e ≡ e.entry_hmac))
  unfolding check_entry
  check_entry_iff line_no h n e =
      ground (arith, bytes_eq_iff e.prev_hash h, bytes_eq_iff (tag_of crates key e) e.entry_hmac)

abbrev pub last_tag : Text → List AuditEntry → Text
last_tag h [] = h
last_tag h (e ∷ es) = last_tag e.entry_hmac es

module _ (sys : System) (json : Json) (key : Bytes) (encrypted : Bool) where
  -- The lines that are not blank hold these entries.
  pub data Holds : List Text → List AuditEntry → Type 0 where
    nothing : Holds [] []
    blank :
        {line : Text} {rest : List Text} {es : List AuditEntry}
        → is_blank sys.unicode.is_blank line ≡ true
        → Holds rest es
        → Holds (line ∷ rest) es
    entry :
        {line : Text} {rest : List Text} {e : AuditEntry} {es : List AuditEntry}
        → is_blank sys.unicode.is_blank line ≡ false
        → parse_line sys.crates json key encrypted line ≡ ok e
        → Holds rest es
        → Holds (line ∷ rest) (e ∷ es)

  -- A chain is accepted, with its last tag and the number that comes next.
  pub replay_lines_complete :
      (line_no : ℕ) (h : Text) (n : ℕ) {ls : List Text} {es : List AuditEntry}
      → Holds ls es
      → IsChain sys.crates key h n es
      → replay_lines sys json key encrypted line_no h n ls ≡ ok (last_tag h es, n + length es)
  unfolding replay_lines
  replay_lines_complete line_no h n nothing c = ground arith
  replay_lines_complete line_no h n (blank b r) c =
      rw b (replay_lines_complete (line_no + 1) h n r c)
  replay_lines_complete line_no h n (entry {e} {es} b p r) c =
      let accepted = (check_entry_iff sys.crates key line_no h n e).1 (c.0, c.1, c.2) in
      let next : n + suc (length es) ≡ n + 1 + length es = omega arith in
      rw (b, p, ◌>>=◌, accepted, ◌>>=◌, next)
        (replay_lines_complete (line_no + 1) e.entry_hmac (n + 1) r c.3)

  -- The texts that are accepted, and the result.
  abbrev pub Accepted : Text → ℕ → List Text → Text × ℕ → Type 0
  Accepted h n ls r =
      (es : List AuditEntry) × Holds ls es
      × IsChain sys.crates key h n es
      × (r ≡ (last_tag h es, n + length es))

  checked_cases :
      (line_no : ℕ) (h : Text) (n : ℕ) (line : Text) (rest : List Text) (r : Text × ℕ)
      → ((e : AuditEntry)
          → replay_lines sys json key encrypted (line_no + 1) e.entry_hmac (n + 1) rest ≡ ok r
          → Accepted e.entry_hmac (n + 1) rest r)
      → is_blank sys.unicode.is_blank line ≡ false
      → (o : Outcome SanitizerError AuditEntry) → parse_line sys.crates json key encrypted line ≡ o
      → (o >>= λ e.
          check_entry sys.crates key line_no h n e
          >> replay_lines sys json key encrypted (line_no + 1) e.entry_hmac (n + 1) rest)
        ≡ ok r
      → Accepted h n (line ∷ rest) r
  checked_cases line_no h n line rest r ih b (ok e) p q =
      let (u, c, f) = >>=-eq-ok (check_entry sys.crates key line_no h n e) _ q in
      let (s, l, g) = (check_entry_iff sys.crates key line_no h n e).0 c in
      let (es, held, chain, last) = ih e f in
      let next : n + 1 + length es ≡ n + suc (length es) = omega arith in
      (e ∷ es, entry b p held, (s, l, g, chain), rw next at last)
  checked_cases line_no h n line rest r ih b (err e) p q = cc
  checked_cases line_no h n line rest r ih b panic p q = cc
  checked_cases line_no h n line rest r ih b out_of_fuel p q = cc

  pub replay_lines_sound :
      (line_no : ℕ) (h : Text) (n : ℕ) (ls : List Text) (r : Text × ℕ)
      → replay_lines sys json key encrypted line_no h n ls ≡ ok r
      → Accepted h n ls r
  unfolding replay_lines
  replay_lines_sound line_no h n [] r q = ([], nothing, tt, ground arith)
  replay_lines_sound line_no h n (line ∷ rest) r q =
      elim (Bool-cases (is_blank sys.unicode.is_blank line)) [
        | inl b ↦
            let (es, held, chain, last) = replay_lines_sound (line_no + 1) h n rest r (rw b at q) in
            (es, blank b held, chain, last)
        | inr b ↦
            checked_cases line_no h n line rest r
              (λ e. replay_lines_sound (line_no + 1) e.entry_hmac (n + 1) rest r) b _ refl
              (rw b at q)
      ]

  -- From any tag and number, the replay accepts lines exactly if the entries that they hold are a
  -- chain: in sequence from that number, each linked to the tag before it and rightly tagged. Its
  -- result is then the last tag and the number that comes next.
  pub replay_lines_iff :
      (line_no : ℕ) (h : Text) (n : ℕ) (ls : List Text) (r : Text × ℕ)
      → (replay_lines sys json key encrypted line_no h n ls ≡ ok r) ↔ Accepted h n ls r
  replay_lines_iff line_no h n ls r = (
    replay_lines_sound line_no h n ls r,
    λ (es, held, chain, last). replay_lines_complete line_no h n held chain ∙ ap ok (sym last),
  )
