-- ===== src/Audit/Record/Laws.antt =====
-- `record`: the log in memory and its file.
use secure_file_shredder_and.Base.{
  ℕ, zero, suc, ◌+◌, ◌≡◌, ◌≤◌, ◌⊎◌, inl, inr, refl, sym, ap, ◌∙◌, Bool, true, false, none, some,
  List, [], ◌∷◌, ◌++◌, append-nil, append_assoc, Bytes, Text, length, length-append, arith, take,
  drop, take-length, is_terminated,
}
use secure_file_shredder_and.Io.Outcome.{Outcome, ok, err}
use secure_file_shredder_and.Io.Path.{FilePath}
use secure_file_shredder_and.Io.Error.{SanitizerError, io, serde}
use secure_file_shredder_and.Io.System.{System}
use secure_file_shredder_and.Io.Action.{file, Disk, Event, World, lift, map_err}
use secure_file_shredder_and.Io.Files.{Handle, overwrite, write_all, open_append, appended}
use secure_file_shredder_and.Io.Files.Laws.{update_self, same_content, write_all-Triple}
use secure_file_shredder_and.Io.Triple.{
  Assertion, Post, Triple, Triple-ask, Triple-bind, Triple-map_err, Triple-given, Triple-pre,
  Triple-pure, Triple-syscall, Triple-weaken,
}
use secure_file_shredder_and.Audit.{AuditEntry, AuditLog, Json, tag_of, replay_content, serde_error}
use secure_file_shredder_and.Audit.Append.{PrintsLines, ReadsBack, replay_content-append}
use secure_file_shredder_and.Audit.Record.{
  tagged, given_system, line_text, append_entry, record_entry,
}

drop-beyond : (n : ℕ) (xs : Bytes) → length xs ≤ n → drop n xs ≡ []
drop-beyond zero [] h = refl
drop-beyond (suc n) [] h = refl
drop-beyond zero (x ∷ xs) h = absurd (omega arith)
drop-beyond (suc n) (x ∷ xs) h = drop-beyond n xs (omega arith)

overwrite_end : (b chunk : Bytes) → overwrite b (length b) chunk ≡ b ++ chunk
unfolding overwrite
overwrite_end b chunk =
    rw (take-length, drop-beyond (length b + length chunk) b (omega arith), append-nil) refl

-- The content at a path; a file that is not there has none.
abbrev pub HasContent : FilePath → Bytes → Disk → Type 0
HasContent p b d = (d p ≡ some (file b)) ⊎ ((d p ≡ none) × (b ≡ []))

module _ (p : FilePath) where
  abbrev At : Bytes → Assertion
  At b d t = d p ≡ some (file b)

  -- What was there is still there, with more behind it.
  abbrev pub Extended : Bytes → Assertion
  Extended b d t = (more : Bytes) × HasContent p (b ++ more) d

  abbrev handle : ℕ → Handle
  handle n = record { path = p; pos = n }

module _ {sys : System} (p : FilePath) where
  write-Triple :
      (b₀ sofar b chunk : Bytes)
      → b ≡ b₀ ++ sofar
      → Triple sys
          (At p b)
          (map_err (io p) (write_all (handle p (length b)) chunk))
          (λ h d t. (h ≡ handle p (length b + length chunk)) × At p (b ++ chunk) d t)
          (λ e. Extended p b₀)
  write-Triple b₀ sofar b chunk s = Triple-map_err _ (
      write_all-Triple p (λ d t h. (b, h)) (length b) chunk
        (λ c d t f h. (refl, update_self _ _ _ ∙ ap (λ x. some (file x)) (at_end c d chunk f h)))
        (λ x k c d t f h. (
          sofar ++ take k chunk,
          inl (
              update_self _ _ _
              ∙ ap (λ x. some (file x))
                  (at_end c d (take k chunk) f h
                    ∙ ap (λ x. x ++ take k chunk) s
                    ∙ append_assoc b₀ sofar (take k chunk))),
        )))
    where
      at_end :
          (c : Bytes) (d : Disk) (chunk : Bytes)
          → d p ≡ some (file c)
          → d p ≡ some (file b)
          → overwrite c (length b) chunk ≡ b ++ chunk
      at_end c d chunk f h = rw (same_content f h) (overwrite_end b chunk)

  open-Triple :
      (b : Bytes)
      → Triple sys
          (λ d t. HasContent p b d)
          (map_err (io p) (open_append p))
          (λ h d t. (h ≡ handle p (length b)) × At p b d t)
          (λ e. Extended p b)
  unfolding open_append
  open-Triple b =
      Triple-map_err _ (Triple-syscall _ (λ w h. step w h) (λ e d t h. ([], rw append-nil h)))
    where
      step :
          (w : World)
          → HasContent p b w.disk
          → Post
              (λ h d t. (h ≡ handle p (length b)) × At p b d t)
              (λ e. Extended p b)
              (appended p (w.disk p) w)
      step w (inl e) = rw e (refl, e)
      step w (inr (e, z)) = rw (e, z) (refl, update_self _ _ _)

-- The log as the caller holds it agrees with the file: a replay of the file ends with its last tag
-- and its next number, and the file ends where a line does.
pub record InStep (sys : System) (json : Json) (log : AuditLog) (d : Disk) : Type 0 where
  pub content : Bytes
  pub here : HasContent log.path content d
  pub terminated : is_terminated content ≡ true
  pub replayed :
      replay_content sys json log.hmac_key false content ≡ ok (log.last_hash, log.next_sequence)

module _ {sys : System} {A : Type 0} {P : Assertion} where
  pub given_system-Triple :
      {R : SanitizerError → Assertion} (f : System → Outcome SanitizerError A) (a : A)
      → f sys ≡ ok a
      → Triple sys P (given_system f) (λ x d t. P d t × (x ≡ a)) R
  unfolding given_system
  given_system-Triple f a e = record { at = λ w p. rw e (p, refl) }

  lift-Triple :
      {Q : A → Assertion} {R : SanitizerError → Assertion} (r : Outcome SanitizerError A)
      → ((a : A) (d : Disk) (t : List Event) → r ≡ ok a → P d t → Q a d t)
      → ((x : SanitizerError) (d : Disk) (t : List Event) → P d t → R x d t)
      → ((a : A) × (r ≡ ok a)) ⊎ ((x : SanitizerError) × (r ≡ err x))
      → Triple sys P (lift r) Q R
  unfolding lift
  lift-Triple r h k (inl (a, e)) = record { at = λ w p. rw e (h a _ _ e p) }
  lift-Triple r h k (inr (x, e)) = record { at = λ w p. rw e (k x _ _ p) }

line_text-Triple :
    {sys : System} {P : Assertion} {R : SanitizerError → Assertion} (json : Json) (key : Bytes)
    (line : Text) (encrypted : Bool)
    → encrypted ≡ false
    → Triple sys P (line_text json key encrypted line) (λ text d t. P d t × (text ≡ line)) R
unfolding line_text
line_text-Triple json key line true e = absurd (cc (e))
line_text-Triple json key line false e = Triple-pure line (λ d t h. (h, refl))

-- Terminated content, a text and the end of its line.
is_terminated-append : (b text : Bytes) → is_terminated (b ++ (text ++ (10 ∷ []))) ≡ true
is_terminated-append [] [] = refl
is_terminated-append [] (c ∷ []) = refl
is_terminated-append [] (c ∷ d ∷ text) = is_terminated-append [] (d ∷ text)
is_terminated-append (c ∷ []) [] = refl
is_terminated-append (c ∷ []) (d ∷ text) = is_terminated-append [] (d ∷ text)
is_terminated-append (c ∷ d ∷ b) text = is_terminated-append (d ∷ b) text

module _ {sys : System} (json : Json) (log : AuditLog) (b : Bytes) (laws : PrintsLines sys json)
    (plain : log.encrypt_at_rest ≡ false) (details : Text) (term : is_terminated b ≡ true)
    (accepted : replay_content sys json log.hmac_key false b
      ≡ ok (log.last_hash, log.next_sequence)) where
  -- What is left of `record`.
  abbrev After : AuditLog → Assertion
  After log' d t =
      (ReadsBack json details → InStep sys json log' d)
      × (log'.next_sequence ≡ log.next_sequence + 1)
      × Extended log.path b d t

  after :
      (e : AuditEntry) (text : Text) (d : Disk) (t : List Event)
      → e.details ≡ details
      → e.sequence ≡ log.next_sequence
      → e.prev_hash ≡ log.last_hash
      → tag_of sys.crates log.hmac_key e ≡ e.entry_hmac
      → json.print_entry e ≡ ok text
      → At log.path (b ++ (text ++ (10 ∷ []))) d t
      → After (record log { last_hash = e.entry_hmac; next_sequence = log.next_sequence + 1 }) d t
  after e text d t same seq prev tag printed h = (
    λ back. record {
      content = b ++ (text ++ (10 ∷ []));
      here = inl h;
      terminated = is_terminated-append b text;
      replayed =
          replay_content-append sys json log.hmac_key laws b log.last_hash log.next_sequence e text
            term accepted seq prev tag printed (back e text same printed);
    },
    refl,
    (text ++ (10 ∷ []), inl h),
  )

  append_entry-Triple :
      (e : AuditEntry)
      → e.details ≡ details
      → e.sequence ≡ log.next_sequence
      → e.prev_hash ≡ log.last_hash
      → tag_of sys.crates log.hmac_key e ≡ e.entry_hmac
      → Triple sys
          (λ d t. HasContent log.path b d)
          (append_entry json log e)
          After
          (λ x. Extended log.path b)
  unfolding append_entry
  append_entry-Triple e same seq prev tag =
      Triple-bind {S = λ line d t. HasContent log.path b d × (json.print_entry e ≡ ok line)}
        (lift-Triple _ (λ line d t q h. (h, serde_ok line q)) (λ x d t h. ([], rw append-nil h))
          (outcome (laws.prints e)))
        λ line. Triple-given λ d t (_, printed).
          Triple-bind (Triple-pre (open-Triple log.path b) (λ d t h. h.0)) λ f.
            Triple-given λ d t (opened_at, _). rw opened_at (
              Triple-bind {S = λ text d t. At log.path b d t × (text ≡ line)}
                (Triple-pre (line_text-Triple json log.hmac_key line log.encrypt_at_rest plain)
                  (λ d t h. h.1))
                λ text. Triple-given λ d t (_, unsealed). rw unsealed (
                  Triple-bind
                    (Triple-pre (write-Triple log.path b [] b line (sym (append-nil b)))
                      (λ d t h. h.0))
                    λ f. Triple-given λ d t (moved_to, _).
                      rw (moved_to, ← length-append b line)
                        (Triple-bind
                          (Triple-pre (write-Triple log.path b line (b ++ line) (10 ∷ []) refl)
                            (λ d t h. h.1))
                          λ f. Triple-pure _ (λ d t h.
                            after e line d t same seq prev tag printed (rw append_assoc at h.1)))))
    where
      serde_ok :
          (line : Text) → serde_error (json.print_entry e) ≡ ok line → json.print_entry e ≡ ok line
      serde_ok line q = elim (laws.prints e) [
        | inl (text, p) ↦
            let r : Path (Outcome SanitizerError Text) (ok text) (ok line) = rw p at q in
            let same : text ≡ line = cc in p ∙ ap ok same
        | inr (x, p) ↦ absurd (cc (rw p at q))
      ]

      outcome :
          (((text : Text) × (json.print_entry e ≡ ok text))
            ⊎ ((x : Text) × (json.print_entry e ≡ err x)))
          → ((a : Text) × (serde_error (json.print_entry e) ≡ ok a))
            ⊎ ((x : SanitizerError) × (serde_error (json.print_entry e) ≡ err x))
      outcome (inl (text, p)) = inl (text, rw p refl)
      outcome (inr (x, p)) = inr (serde x, rw p refl)

-- `record` behind a log in step with its file.
pub record_entry-appends :
    {sys : System} (json : Json) (log : AuditLog) (operation target details : Text) (b : Bytes)
    → PrintsLines sys json
    → log.encrypt_at_rest ≡ false
    → is_terminated b ≡ true
    → replay_content sys json log.hmac_key false b ≡ ok (log.last_hash, log.next_sequence)
    → Triple sys
        (λ d t. HasContent log.path b d)
        (record_entry json log operation target details)
        (λ log' d t.
          (ReadsBack json details → InStep sys json log' d)
          × (log'.next_sequence ≡ log.next_sequence + 1)
          × Extended log.path b d t)
        (λ e. Extended log.path b)
unfolding record_entry
record_entry-appends {sys} json log operation target details b laws plain term accepted =
    Triple-bind {S = λ _ d t. HasContent log.path b d} (Triple-ask _ (λ n d t h. h)) λ moment.
      Triple-bind (given_system-Triple _ _ refl) λ e. Triple-given λ d t h. rw h.1 (
        Triple-pre
          (append_entry-Triple json log b laws plain details term accepted _ refl refl refl (tag _))
          (λ d t h. h.0))
  where
    tag :
        (e : AuditEntry)
        → tag_of sys.crates log.hmac_key (tagged sys.crates log.hmac_key e)
          ≡ tag_of sys.crates log.hmac_key e
    tag e = unfold tag_of in refl

-- With a printer of entries that ends without a panic and prints one line that is not blank, details
-- with which entries are read back, and a log that is not encrypted and in step with its file:
-- `record` leaves the log and the file in step, with one more entry at the end of the file; on an
-- error the file still begins with what it held. It neither panics nor runs out of fuel.
pub record_entry-Triple :
    {sys : System} (json : Json) (log : AuditLog) (operation target details : Text) (b : Bytes)
    → PrintsLines sys json
    → ReadsBack json details
    → log.encrypt_at_rest ≡ false
    → is_terminated b ≡ true
    → replay_content sys json log.hmac_key false b ≡ ok (log.last_hash, log.next_sequence)
    → Triple sys
        (λ d t. HasContent log.path b d)
        (record_entry json log operation target details)
        (λ log' d t.
          InStep sys json log' d
          × (log'.next_sequence ≡ log.next_sequence + 1)
          × Extended log.path b d t)
        (λ e. Extended log.path b)
record_entry-Triple json log operation target details b laws back plain term accepted =
    Triple-weaken
      (record_entry-appends json log operation target details b laws plain term accepted)
      (λ d t h. h) (λ log' d t h. (h.0 back, h.1, h.2)) (λ e d t h. h)
