-- ===== src/Audit/Record/Reopen.antt =====
-- `open` on a log that is there, encrypted or not.
use secure_file_shredder_and.Base.{
  ℕ, ◌+◌, ◌≡◌, ◌⊎◌, inl, inr, refl, sym, ap, ◌∙◌, Bool, true, false, Option, none, some, [], Bytes,
  Text, lines, is_utf8, if◌then◌else◌,
}
use secure_file_shredder_and.Io.Outcome.{Outcome, ok, err}
use secure_file_shredder_and.Io.Path.{FilePath}
use secure_file_shredder_and.Io.Error.{IoError, invalid_data, SanitizerError}
use secure_file_shredder_and.Io.System.{System}
use secure_file_shredder_and.Io.Action.{Node, file, dir, Disk, World}
use secure_file_shredder_and.Io.Files.{read_to_string, exists, contents, decoded, is_there}
use secure_file_shredder_and.Io.Files.Laws.{same_content}
use secure_file_shredder_and.Io.Triple.{
  Assertion, Post, Triple, Triple-bind, Triple-map_err, Triple-given, Triple-pre, Triple-pure,
  Triple-syscall, Triple-weaken,
}
use secure_file_shredder_and.Crypto.Kdf.{derive_key}
use secure_file_shredder_and.Audit.{
  AuditLog, Json, genesis_hash, audit_salt, replay_content, replay_lines,
}
use secure_file_shredder_and.Audit.Record.{replay_and_verify, replay_if, open_log}
use secure_file_shredder_and.Audit.Record.Laws.{HasContent, given_system-Triple}

-- The system refuses some call.
abbrev pub Refused : System → Type 0
Refused sys = (t : ℕ) × ((e : IoError) × (sys.os.fault t ≡ some e))

-- The log with no entries.
abbrev pub fresh : AuditLog → AuditLog
fresh log = record log { last_hash = genesis_hash; next_sequence = 0 }

-- The content at a path, as an assertion.
abbrev pub Has : FilePath → Bytes → Assertion
Has p b d t = HasContent p b d

module _ {sys : System} (p : FilePath) (b : Bytes) where
  read_to_string-Triple :
      Triple sys (Has p b) (read_to_string p) (λ c d t. Has p b d t × (c ≡ b)) (λ e. Has p b)
  unfolding read_to_string contents
  read_to_string-Triple = Triple-syscall _ (λ w h. step w h (w.disk p) refl) (λ e d t h. h)
    where
      same : (d : Disk) (c : Bytes) → HasContent p b d → d p ≡ some (file c) → c ≡ b
      same d c (inl e) f = same_content f e
      same d c (inr (e, z)) f = absurd (cc (sym e ∙ f))

      utf8 :
          (w : World)
          → HasContent p b w.disk
          → (c : Bytes) → c ≡ b
          → (u : Bool)
          → Post {E = IoError}
              (λ c d t. Has p b d t × (c ≡ b))
              (λ e. Has p b)
              (if u then ok c else err invalid_data, w)
      utf8 w h c e true = (h, e)
      utf8 w h c e false = h

      step :
          (w : World)
          → HasContent p b w.disk
          → (o : Option Node) → w.disk p ≡ o
          → Post (λ c d t. Has p b d t × (c ≡ b)) (λ e. Has p b) (decoded (contents o), w)
      step w h none e = h
      step w h (some dir) e = h
      step w h (some (file c)) e = utf8 w h c (same w.disk c h e) (is_utf8 c)

  -- The answer is right, or the look was refused.
  exists-Triple :
      Triple {E = SanitizerError} sys
        (Has p b)
        (exists p)
        (λ there d t. Has p b d t × ((there ≡ true) ⊎ ((there ≡ false) × ((b ≡ []) ⊎ Refused sys))))
        (λ e. Has p b)
  unfolding exists
  exists-Triple = record { at = λ w h. step w h (sys.os.fault w.now) refl }
    where
      seen :
          (d : Disk)
          → HasContent p b d
          → (is_there (d p) ≡ true) ⊎ ((is_there (d p) ≡ false) × ((b ≡ []) ⊎ Refused sys))
      seen d (inl e) = inl (ap is_there e)
      seen d (inr (e, z)) = inr (ap is_there e, inl z)

      step :
          (w : World)
          → HasContent p b w.disk
          → (o : Option IoError) → sys.os.fault w.now ≡ o
          → let w' = record w { now = w.now + 1 } in
            Post {E = SanitizerError}
              (λ there d t.
                Has p b d t × ((there ≡ true) ⊎ ((there ≡ false) × ((b ≡ []) ⊎ Refused sys))))
              (λ e. Has p b)
              (elim o [ none ↦ (ok (is_there (w.disk p)), w') | some e ↦ (ok false, w') ])
      step w h none e = (h, seen w.disk h)
      step w h (some x) e = (h, inr (refl, inr (w.now, (x, e))))

replay_nil :
    (sys : System) (json : Json) (log : AuditLog) (b : Bytes)
    → replay_content sys json log.hmac_key log.encrypt_at_rest b
      ≡ ok (log.last_hash, log.next_sequence)
    → b ≡ []
    → Path (Text × ℕ) (genesis_hash, 0) (log.last_hash, log.next_sequence)
unfolding replay_content replay_lines lines
replay_nil sys json log b accepted e =
    let r : Path (Outcome SanitizerError (Text × ℕ)) (ok (genesis_hash, 0))
        (ok (log.last_hash, log.next_sequence)) =
      rw e at accepted in
    cc

-- Where no look is refused the log is as it was.
abbrev pub Answer : System → AuditLog → Text × ℕ → Type 0
Answer sys log r =
    Path (Text × ℕ) r (log.last_hash, log.next_sequence)
    ⊎ (Path (Text × ℕ) r (genesis_hash, 0) × Refused sys)

module _ {sys : System} (json : Json) (log : AuditLog) (b : Bytes)
    (accepted : replay_content sys json log.hmac_key log.encrypt_at_rest b
      ≡ ok (log.last_hash, log.next_sequence)) where
  replay_and_verify-Triple :
      Triple sys
        (Has log.path b)
        (replay_and_verify json log.path log.hmac_key log.encrypt_at_rest)
        (λ r d t. Has log.path b d t × (r ≡ (log.last_hash, log.next_sequence)))
        (λ e. Has log.path b)
  unfolding replay_and_verify
  replay_and_verify-Triple = Triple-bind (Triple-map_err _ (read_to_string-Triple log.path b)) λ c.
      Triple-given λ d t (_, e). rw e (Triple-pre (given_system-Triple _ _ accepted) (λ d t h. h.0))

  replay_if-Triple :
      (there : Bool)
      → (there ≡ true) ⊎ ((there ≡ false) × ((b ≡ []) ⊎ Refused sys))
      → Triple sys
          (Has log.path b)
          (replay_if json log.path log.hmac_key log.encrypt_at_rest there)
          (λ r d t. Has log.path b d t × Answer sys log r)
          (λ e. Has log.path b)
  unfolding replay_if
  replay_if-Triple true h =
      Triple-weaken replay_and_verify-Triple (λ d t h. h) (λ r d t h. (h.0, inl h.1)) (λ e d t h. h)
  replay_if-Triple false (inl e) = absurd (cc e)
  replay_if-Triple false (inr (e, inl z)) =
      Triple-pure _ (λ d t h. (h, inl (replay_nil sys json log b accepted z)))
  replay_if-Triple false (inr (e, inr r)) = Triple-pure _ (λ d t h. (h, inr (refl, r)))

module _ {sys : System} (json : Json) (log : AuditLog) (material b : Bytes)
    (derived : derive_key sys.crates material audit_salt ≡ ok log.hmac_key)
    (accepted : replay_content sys json log.hmac_key log.encrypt_at_rest b
      ≡ ok (log.last_hash, log.next_sequence)) where
  -- On a log whose content (nothing, if the file is not there) replays to its last tag and its next
  -- number, with the material from which its key is derived, `open` gives the log or ends with an
  -- error; only if the system refuses some call may it give the log that has no entries instead. It
  -- keeps the log's file, and neither panics nor runs out of fuel.
  pub open_log-Triple :
      Triple sys
        (Has log.path b)
        (open_log json log.path material log.encrypt_at_rest)
        (λ l d t. Has log.path b d t × ((l ≡ log) ⊎ ((l ≡ fresh log) × Refused sys)))
        (λ e. Has log.path b)
  unfolding open_log
  open_log-Triple = Triple-bind (given_system-Triple _ _ derived) λ key. Triple-given λ d t (_, e).
      rw e (
        Triple-bind (Triple-pre (exists-Triple log.path b) (λ d t h. h.0)) λ there.
          Triple-given λ d t (_, seen).
            Triple-bind
              (Triple-pre (replay_if-Triple json log b accepted there seen) (λ d t h. h.0))
              λ r. Triple-pure _ (λ d t h. (h.0, held r h.1)))
    where
      as_log : Text × ℕ → AuditLog
      as_log r = record log { last_hash = r.0; next_sequence = r.1 }

      held :
          (r : Text × ℕ)
          → Answer sys log r
          → (as_log r ≡ log) ⊎ ((as_log r ≡ fresh log) × Refused sys)
      held r (inl e) = inl (ap as_log e)
      held r (inr (e, refused)) = inr (ap as_log e, refused)
