-- ===== src/Cli/Wipe.antt =====
-- The command `wipe` as a whole: the file and the audit log together.
use secure_file_shredder_and.Base.{
  ℕ, ◌+◌, ◌≡◌, ◌≢◌, ◌⊎◌, inl, inr, refl, sym, ap, ◌∙◌, Bool, true, false, not, none, some, List, [],
  append-nil, Bytes, Text, codes, length, is_terminated,
}
use secure_file_shredder_and.Io.Outcome.{Outcome, ok, err, panic, out_of_fuel}
use secure_file_shredder_and.Io.Path.{FilePath, display, parent}
use secure_file_shredder_and.Io.System.{System}
use secure_file_shredder_and.Io.Action.{file, Disk, Event}
use secure_file_shredder_and.Io.Returns.{Returns, Triple-lift}
use secure_file_shredder_and.Io.Frame.{Keeps-Triple}
use secure_file_shredder_and.Io.Triple.{
  Assertion, Triple, Triple-bind, Triple-fixed, Triple-given, Triple-map_err, Triple-pre,
  Triple-weaken,
}
use secure_file_shredder_and.Io.Files.Laws.{metadata-Triple, synced_contents}
use secure_file_shredder_and.Crypto.Rng.Laws.{FillsBuffers}
use secure_file_shredder_and.Storage.Device.Laws.{detect_storage_for_path-Triple}
use secure_file_shredder_and.Sanitize.Patterns.{OverwritePattern, from_str}
use secure_file_shredder_and.Sanitize.Metadata.Laws.{IsRandomName, Untouched}
use secure_file_shredder_and.Sanitize.Engine.{ShredOutcome}
use secure_file_shredder_and.Sanitize.Engine.Shred.{shred_file-Triple}
use secure_file_shredder_and.Audit.{AuditLog, Json, replay_content}
use secure_file_shredder_and.Audit.Append.{PrintsLines, ReadsBack}
use secure_file_shredder_and.Audit.Record.Laws.{HasContent, Extended, InStep, record_entry-appends}
use secure_file_shredder_and.Audit.Record.Frame.{record_entry-Keeps}
use secure_file_shredder_and.Cli.{
  Anyhow, DetailsJson, parsed, parse_pattern, wipe_options, record_audit, wipe,
}

parsed-Returns {ℓ} : {A : Type ℓ} (r : Outcome Text A) → Returns r → Returns (parsed r)
parsed-Returns (ok a) h = tt
parsed-Returns (err e) h = tt
parsed-Returns panic h = h
parsed-Returns out_of_fuel h = h

parsed_ok {ℓ} : {A : Type ℓ} (r : Outcome Text A) (a : A) → parsed r ≡ ok a → r ≡ ok a
parsed_ok (ok b) a e = cc
parsed_ok (err x) a e = absurd (cc e)
parsed_ok panic a e = absurd (cc e)
parsed_ok out_of_fuel a e = absurd (cc e)

parse_pattern-Triple :
    {sys : System} {P : Assertion} {R : Anyhow → Assertion} (name : Text)
    (pattern : OverwritePattern)
    → from_str sys.unicode.lowercase name ≡ ok pattern
    → Triple sys P (parse_pattern name) (λ x d t. P d t × (x ≡ pattern)) R
unfolding parse_pattern
parse_pattern-Triple name pattern e = record { at = λ w p. rw e (p, refl) }

HasContent-same :
    {p : FilePath} {c : Bytes} (d d' : Disk) → d' p ≡ d p → HasContent p c d → HasContent p c d'
HasContent-same d d' e (inl h) = inl (e ∙ h)
HasContent-same d d' e (inr (h, z)) = inr (e ∙ h, z)

-- A file of that many bytes is there.
abbrev pub Left : ℕ → Disk → Type 0
Left n d = (q : FilePath) × (c : Bytes) × (d q ≡ some (file c)) × (length c ≡ n)

-- The log has one more entry than before, behind what its file held, and is in step with its file if
-- no entropy was asked for.
abbrev pub Recorded : System → Json → AuditLog → Bytes → FilePath → Bool → AuditLog → Assertion
Recorded sys json log c path no_verify log' d t =
    ((no_verify ≡ true → InStep sys json log' d)
      × (log'.next_sequence ≡ log.next_sequence + 1)
      × Extended log.path c d t)
    × (d path ≡ none)

-- The log's file begins with what it held, and the file to wipe is gone or left.
abbrev pub Failed : AuditLog → Bytes → FilePath → ℕ → Anyhow → Assertion
Failed log c path n e d t = Extended log.path c d t × ((d path ≡ none) ⊎ Left n d)

module _ {sys : System} (fills : FillsBuffers sys) (json : Json) (values : DetailsJson)
    (laws : PrintsLines sys json) (log : AuditLog) (c : Bytes) (plain : log.encrypt_at_rest ≡ false)
    (term : is_terminated c ≡ true)
    (accepted : replay_content sys json log.hmac_key false c
      ≡ ok (log.last_hash, log.next_sequence)) where
  record_audit-Triple :
      (path : FilePath) (n : ℕ) (operation : Text) (target : FilePath) (details : Text)
      (no_verify : Bool)
      → path ≢ log.path
      → (no_verify ≡ true → ReadsBack json details)
      → Triple sys
          (λ d t. HasContent log.path c d × (d path ≡ none))
          (record_audit json log operation target details)
          (Recorded sys json log c path no_verify)
          (Failed log c path n)
  unfolding record_audit
  record_audit-Triple path n operation target details no_verify other back = Triple-map_err _ (
      Triple-weaken
        (Keeps-Triple none (record_entry-Keeps json log operation (display target) details other) (
          record_entry-appends json log operation (display target) details c laws plain term
            accepted))
        (λ d t h. h) (λ log' d t h. (((λ on. h.0.0 (back on)), h.0.1, h.0.2), h.1))
        (λ e d t h. (h.0, inl h.1)))

  -- With random sources that fill a buffer to its length, a printer of entries that ends without
  -- a panic and prints one line that is not blank, details that are read back where no entropy was
  -- measured, a log that is not encrypted and in step with its file, a name that is read as a
  -- pattern, and a file whose path is not the log's and to which the renames do not give the log's:
  -- on success of `wipe` the file is gone, the log's file begins with what it held, and the log has one more entry and, with
  -- `--no-verify`, is in step with its file. On an error the log's file still begins with what it
  -- held, and the file is gone or one of its length is left. There is no panic.
  pub wipe-Triple :
      (path : FilePath) (name : Text) (no_verify : Bool) (pattern : OverwritePattern) (b : Bytes)
      (d₀ : Disk)
      → from_str sys.unicode.lowercase name ≡ ok pattern
      → ((o : ShredOutcome) → Returns (values.of_outcome o))
      → ((o : ShredOutcome) (details : Text)
          → o.verification_entropy ≡ none
          → values.of_outcome o ≡ ok details
          → ReadsBack json details)
      → d₀ path ≡ some (file b)
      → HasContent log.path c d₀
      → path ≢ log.path
      → ((dir : FilePath) → parent path ≡ some dir → ¬ IsRandomName sys dir log.path)
      → Triple sys
          (λ d t. d ≡ d₀)
          (wipe json values log path name no_verify)
          (Recorded sys json log c path no_verify)
          (Failed log c path (length b))
  unfolding wipe
  wipe-Triple path name no_verify pattern b d₀ named prints back there logged other unnamed =
      Triple-bind (parse_pattern-Triple name pattern named) λ p. Triple-given λ d t (_, e). rw e (
        Triple-bind {S = λ storage d t. d ≡ d₀}
          (Triple-map_err _ (
            Triple-weaken (detect_storage_for_path-Triple (λ d t. d ≡ d₀) path) (λ d t h. h.0)
              (λ i d t h. h.0) (λ e d t h. elim h [ ])))
          λ storage.
            Triple-bind {S = λ m d t. d ≡ d₀}
              (Triple-map_err _ (
                Triple-weaken (metadata-Triple path (λ e d t h. h)) (λ d t h. h) (λ m d t h. h.0)
                  (λ e d t h. untouched d t h)))
              λ m.
                Triple-bind
                  {S = λ o d t.
                    (HasContent log.path c d × (d path ≡ none))
                    × (no_verify ≡ true → o.verification_entropy ≡ none)}
                  (Triple-map_err _ (
                    Triple-fixed λ d t same.
                      Triple-weaken
                        (shred_file-Triple path (wipe_options pattern (not no_verify)) storage true
                          true d (synced_contents t) b fills (at d same ∙ there))
                        (λ d' t' h. (h.0, ap synced_contents h.1))
                        (λ o d' t' h.
                          ((beside d d' same h.others, h.gone), λ on. h.unmeasured (rw on refl)))
                        (λ e d' t' h. (
                          begins d' t' (beside d d' same h.others),
                          inr (h.name, h.content, h.here, h.long),
                        ))))
                  λ o. Triple-given λ d t (_, unmeasured).
                    Triple-bind
                      {S = λ details d t.
                        (HasContent log.path c d × (d path ≡ none))
                        × (values.of_outcome o ≡ ok details)}
                      (Triple-lift (parsed (values.of_outcome o)) (parsed-Returns _ (prints o))
                        (λ details d t q h. (h.0, parsed_ok _ details q))
                        (λ x d t q h. (begins d t h.0.0, inl h.0.1)))
                      λ details. Triple-given λ d t (_, is_text).
                        Triple-pre
                          (record_audit-Triple path (length b) (codes "wipe") o.path details
                            no_verify other (λ on. back o details (unmeasured on) is_text))
                          (λ d t h. h.0))
    where
      at : (d : Disk) {q : FilePath} → d ≡ d₀ → d q ≡ d₀ q
      at d {q} e = ap (λ (d : Disk). d q) e

      begins : (d : Disk) (t : List Event) → HasContent log.path c d → Extended log.path c d t
      begins d t h = ([], rw append-nil h)

      beside : (d d' : Disk) → d ≡ d₀ → Untouched sys path d d' → HasContent log.path c d'
      beside d d' e others =
          HasContent-same d₀ d' (others log.path (λ q. other (sym q)) unnamed ∙ at d e) logged

      untouched :
          (d : Disk) (t : List Event)
          → d ≡ d₀
          → Extended log.path c d t × ((d path ≡ none) ⊎ Left (length b) d)
      untouched d t same = (
        begins d t (HasContent-same d₀ d (at d same) logged),
        inr (path, b, at d same ∙ there, refl),
      )
