-- ===== src/Audit/Append.antt =====
-- The replay of a log with one more line, as `record` appends it.
use mathlib.Core.Path.{ap₂}
use secure_file_shredder_and.Base.{
  ℕ, suc, ◌+◌, ◌≡◌, ◌≤◌, ◌⊎◌, refl, ap, ◌∙◌, true, false, List, [], ◌∷◌, ◌++◌, Bytes, Text, length,
  length-append, arith, All, lines, step_line, is_terminated, lines-append, is_blank,
}
use secure_file_shredder_and.Io.Outcome.{ok, err}
use secure_file_shredder_and.Io.System.{System}
use secure_file_shredder_and.Audit.{
  AuditEntry, Json, genesis_hash, tag_of, parse_line, replay_content, serde_error,
}
use secure_file_shredder_and.Audit.Chain.{
  IsChain, last_tag, Holds, nothing, blank, entry, replay_lines_complete, replay_lines_sound,
}

-- No control characters.
abbrev pub IsOneLine : Text → Type 0
IsOneLine = All (λ c. 32 ≤ c)

lines-one : (s : Text) → IsOneLine s → lines (s ++ (10 ∷ [])) ≡ s ∷ []
unfolding lines step_line
lines-one [] h = refl
lines-one (c ∷ s) h = ground (arith, h.0, lines-one s h.1)

-- What `serde_json` keeps to on entries: it prints or gives an error, and prints one line that is
-- not blank.
pub record PrintsLines (sys : System) (json : Json) : Type 0 where
  pub prints :
      (e : AuditEntry)
      → ((text : Text) × (json.print_entry e ≡ ok text))
        ⊎ ((x : Text) × (json.print_entry e ≡ err x))
  pub one_line : (e : AuditEntry) (text : Text) → json.print_entry e ≡ ok text → IsOneLine text
  pub not_blank :
      (e : AuditEntry) (text : Text)
      → json.print_entry e ≡ ok text
      → is_blank sys.unicode.is_blank text ≡ false

-- Entries with these details are read back from what is printed of them. `serde_json` keeps to it
-- where the details hold no floating-point number.
abbrev pub ReadsBack : Json → Text → Type 0
ReadsBack json details =
    (e : AuditEntry) (text : Text)
    → e.details ≡ details
    → json.print_entry e ≡ ok text
    → json.parse_entry text ≡ ok e

module _ (sys : System) (json : Json) (key : Bytes) where
  Holds-append :
      (ls ls' : List Text) (es es' : List AuditEntry)
      → Holds sys json key false ls es
      → Holds sys json key false ls' es'
      → Holds sys json key false (ls ++ ls') (es ++ es')
  Holds-append [] ls' _ es' nothing h = h
  Holds-append (l ∷ ls) ls' es es' (blank b r) h = blank b (Holds-append ls ls' es es' r h)
  Holds-append (l ∷ ls) ls' _ es' (entry {es} b p r) h = entry b p (Holds-append ls ls' es es' r h)

  IsChain-append :
      (h : Text) (n : ℕ) (es : List AuditEntry) (e : AuditEntry)
      → IsChain sys.crates key h n es
      → IsChain sys.crates key (last_tag h es) (n + length es) (e ∷ [])
      → IsChain sys.crates key h n (es ++ (e ∷ []))
  IsChain-append h n [] e c c' = let z : n + 0 ≡ n = omega arith in (rw z at c'.0, c'.1, c'.2, tt)
  IsChain-append h n (x ∷ es) e c c' =
      let z : n + suc (length es) ≡ n + 1 + length es = omega arith in
      (c.0, c.1, c.2, IsChain-append x.entry_hmac (n + 1) es e c.3 (rw z at c'))

  last_tag-append :
      (h : Text) (es : List AuditEntry) (e : AuditEntry)
      → last_tag h (es ++ (e ∷ [])) ≡ e.entry_hmac
  last_tag-append h [] e = refl
  last_tag-append h (x ∷ es) e = last_tag-append x.entry_hmac es e

  -- One more entry on a line of its own.
  pub replay_content-append :
      PrintsLines sys json
      → (b : Bytes) (h : Text) (n : ℕ) (e : AuditEntry) (text : Text) → is_terminated b ≡ true
      → replay_content sys json key false b ≡ ok (h, n)
      → e.sequence ≡ n
      → e.prev_hash ≡ h
      → tag_of sys.crates key e ≡ e.entry_hmac
      → json.print_entry e ≡ ok text
      → json.parse_entry text ≡ ok e
      → replay_content sys json key false (b ++ (text ++ (10 ∷ []))) ≡ ok (e.entry_hmac, n + 1)
  unfolding replay_content parse_line
  replay_content-append laws b h n e text term accepted seq prev tag printed read =
      let (es, held, chain, last) =
        replay_lines_sound sys json key false 0 genesis_hash 0 (lines b) (h, n) accepted in
      let one : Holds sys json key false (text ∷ []) (e ∷ []) =
        entry (laws.not_blank e text printed) (ap serde_error read) nothing in
      let split : lines (b ++ (text ++ (10 ∷ []))) ≡ lines b ++ (text ∷ []) =
        lines-append b (text ++ (10 ∷ [])) term
        ∙ ap (λ x. lines b ++ x) (lines-one text (laws.one_line e text printed)) in
      let number : n ≡ 0 + length es = ap (λ p. p.1) last in
      let linked : IsChain sys.crates key (last_tag genesis_hash es) (0 + length es) (e ∷ []) =
        (seq ∙ number, prev ∙ ap (λ p. p.0) last, tag, tt) in
      let chained = IsChain-append genesis_hash 0 es e chain linked in
      let count : 0 + length (es ++ (e ∷ [])) ≡ n + 1 =
        omega (arith, length-append es (e ∷ []), number) in
      let pair = ap₂ {C = Text × ℕ} (λ t m. (t, m)) (last_tag-append genesis_hash es e) count in
      rw split (
        replay_lines_complete sys json key false 0 genesis_hash 0
          (Holds-append (lines b) (text ∷ []) es (e ∷ []) held one) chained)
      ∙ ap ok pair
