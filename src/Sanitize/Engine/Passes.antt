-- ===== src/Sanitize/Engine/Passes.antt =====
-- The loop over the passes.
use secure_file_shredder_and.Base.{
  ℕ, zero, suc, ◌+◌, ◌*◌, ◌%◌, ◌^◌, ◌<◌, min, max, ◌≡◌, ◌⊎◌, inl, inr, refl, ap, Bool, true, false,
  List, [], ◌∷◌, Bytes, some, length, take, arith, length-replicate, take-length,
}
use secure_file_shredder_and.Io.Path.{FilePath}
use secure_file_shredder_and.Io.Error.{SanitizerError, io}
use secure_file_shredder_and.Io.System.{System}
use secure_file_shredder_and.Io.Action.{Action, file, Disk, Event, synced, map_err}
use secure_file_shredder_and.Io.Triple.{
  Assertion, Triple, Triple-pure, Triple-raise, Triple-ask, Triple-bind, Triple-map_err,
  Triple-given, Triple-exists, Triple-pre, Triple-if, Triple-weaken,
}
use secure_file_shredder_and.Io.Files.{Handle, open_write, seek}
use secure_file_shredder_and.Io.Files.Laws.{
  same_content, data_events, open_write-Triple, seek-Triple, sync_all-Triple,
}
use secure_file_shredder_and.Crypto.Rng.Laws.{FillsBuffers}
use secure_file_shredder_and.Sanitize.Patterns.Fill.{Agrees}
use secure_file_shredder_and.Sanitize.Engine.{
  Job, ChunksEnd, finished, interrupted, pass_loop, end_pass, sync_pass, is_cancelled, new_buffer,
  chunk_size, chunk_loop,
}
use secure_file_shredder_and.Sanitize.Engine.Sweep.{Swept, made_durable, not_synced, Cancelled}
use secure_file_shredder_and.Sanitize.Engine.Chunks.{
  Standing, Partial, at_pos, ChunksPost, Aligned, wanted, chunk_loop-Triple,
}

-- The length of the buffer.
abbrev pub buffer_len : Job → ℕ
buffer_len job = min chunk_size (max job.file_len 1)

-- A content that the pass has left: as long as the file was, each byte as the pattern fixes it.
abbrev pub PassContent : Job → ℕ → Bytes → Type 0
PassContent job pass b = (length b ≡ job.file_len) × Agrees (wanted job (buffer_len job) pass) 0 b

-- The contents made durable are those of the first `k` passes in their order, on top of `s₀`.
abbrev pub Synced : Job → List (FilePath × Bytes) → ℕ → List (FilePath × Bytes) → Type 0
Synced job s₀ zero s = s ≡ s₀
Synced job s₀ (suc k) [] = ⊥
Synced job s₀ (suc k) ((p, b) ∷ s) = (p ≡ job.path) × PassContent job k b × Synced job s₀ k s

-- The file holds what the last of `k` passes has left.
abbrev pub LastPass : Job → ℕ → Bytes → Type 0
LastPass job zero b = Unit
LastPass job (suc k) b = Agrees (wanted job (buffer_len job) k) 0 b

module _ {sys : System} (fills : FillsBuffers sys) (job : Job) (d₀ : Disk)
    (s₀ : List (FilePath × Bytes)) where
  -- After `k` passes, with `s` made durable.
  pub record Wiped (k : ℕ) (s : List (FilePath × Bytes)) (d : Disk) (t : List Event) : Type 0 where
    pub standing : Standing sys job d₀ s d t
    pub open standing use *
    pub in_order : job.options.sync_each_pass ≡ true → Synced job s₀ k s
    pub last : LastPass job k standing.content
    pub swept : Swept sys job k standing.content [] (data_events t)

  abbrev pub AfterPasses : ℕ → Assertion
  AfterPasses k d t = (s : List (FilePath × Bytes)) × Wiped k s d t

  -- The file is in place, with its length.
  abbrev pub InPlace : Assertion
  InPlace d t = (s : List (FilePath × Bytes)) × Standing sys job d₀ s d t

  -- All `n` passes are complete, or the loop was left before, by the flag.
  abbrev pub PassesPost : ℕ → ℕ → ℕ × ℕ → Assertion
  PassesPost n w r d t =
      ((r.0 ≡ n) × (r.1 ≡ w) × AfterPasses n d t) ⊎ ((r.0 < n) × Cancelled sys job × InPlace d t)

  -- A whole pass is on the disk, and not yet synced.
  abbrev Full : ℕ → List (FilePath × Bytes) → Assertion
  Full k s = Partial sys job d₀ s k (buffer_len job) job.file_len

  whole_file :
      (k : ℕ) (s : List (FilePath × Bytes)) (d : Disk) (t : List Event) (h : Full k s d t)
      → take job.file_len h.content ≡ h.content
  whole_file k s d t h = rw (← h.long) (take-length h.content)

  -- The end of a pass whose bytes are all written.
  end_synced :
      (k : ℕ) (s : List (FilePath × Bytes)) (b : Bytes) (d : Disk) (t : List Event)
      (h : Full k s d t)
      → job.options.sync_each_pass ≡ true
      → b ≡ h.content
      → Swept sys job (suc k) h.content [] (synced job.path b ∷ data_events t)
  end_synced k s b d t h on e =
      rw e (made_durable on h.long (rw (whole_file k s d t h) at h.swept.1))

  end_not_synced :
      (k : ℕ) (s : List (FilePath × Bytes)) (d : Disk) (t : List Event) (h : Full k s d t)
      → job.options.sync_each_pass ≡ false
      → Swept sys job (suc k) h.content [] (data_events t)
  end_not_synced k s d t h off = not_synced off h.long (rw (whole_file k s d t h) at h.swept.1)

  whole :
      (k : ℕ) (s : List (FilePath × Bytes)) (d : Disk) (t : List Event) (h : Full k s d t)
      → Agrees (wanted job (buffer_len job) k) 0 h.content
  whole k s d t h =
      let e : take job.file_len h.content ≡ h.content = rw (← h.long) (take-length h.content) in
      rw e at h.written

  module _ (k : ℕ) (s : List (FilePath × Bytes))
      (before : job.options.sync_each_pass ≡ true → Synced job s₀ k s) where
    synced_pass :
        (b : Bytes) (d : Disk) (t : List Event)
        → job.options.sync_each_pass ≡ true
        → d job.path ≡ some (file b)
        → Full k s d t
        → Wiped (suc k) ((job.path, b) ∷ s) d (synced job.path b ∷ t)
    synced_pass b d t sync f h = record {
      standing = record {
        content = h.content;
        here = h.here;
        long = h.long;
        others = h.others;
        durable = ap (λ r. (job.path, b) ∷ r) h.durable;
      };
      in_order = λ on. (refl, written_out, before on);
      last = whole k s d t h;
      swept = end_synced k s b d t h sync (same_content f h.here);
    }
      where
        written_out : PassContent job k b
        written_out = rw (same_content f h.here) (h.long, whole k s d t h)

    sync_pass-Triple :
        Triple sys
          (Full k s)
          (sync_pass job.options.sync_each_pass job.path (at_pos job job.file_len))
          (λ _. AfterPasses (suc k))
          (λ e. InPlace)
    sync_pass-Triple = go job.options.sync_each_pass refl
      where
        go :
            (on : Bool)
            → job.options.sync_each_pass ≡ on
            → Triple sys
                (Full k s)
                (sync_pass on job.path (at_pos job job.file_len))
                (λ _. AfterPasses (suc k))
                (λ e. InPlace)
        go true e =
            unfold sync_pass in
            Triple-map_err _ (
              sync_all-Triple job.path (λ d t h. (h.content, h.here)) job.file_len
                (λ b d t f h. ((job.path, b) ∷ s, synced_pass b d t e f h))
                (λ x d t h. (s, h.standing)))
        go false e =
            unfold sync_pass in
            Triple-pure tt (λ d t h. (
              s,
              record {
                standing = h.standing;
                in_order = λ on. cc;
                last = whole k s d t h;
                swept = end_not_synced k s d t h e;
              },
            ))

  abbrev Open : ℕ → List (FilePath × Bytes) → Handle → Assertion
  Open k s f d t = Wiped k s d t × (f ≡ at_pos job 0)

  open-Triple :
      (k : ℕ) (s : List (FilePath × Bytes))
      → Triple sys
          (Wiped k s)
          (map_err (io job.path) (open_write job.path))
          (Open k s)
          (λ e. InPlace)
  open-Triple k s = Triple-map_err _ (open_write-Triple job.path (λ e d t h. (s, h.standing)))

  rewind-Triple :
      (k : ℕ) (s : List (FilePath × Bytes)) (f : Handle)
      → Triple sys (Open k s f) (map_err (io job.path) (seek f 0)) (Open k s) (λ e. InPlace)
  rewind-Triple k s f = Triple-given λ d t h.
      rw h.1 (
        Triple-map_err _ (Triple-pre (seek-Triple _ 0 (λ e d t h. (s, h.standing))) (λ d t h. h.0)))

  some_room : 0 < buffer_len job
  some_room = omega arith

  -- The chunks of pass `k`, from the open file on.
  chunks-Triple :
      (k wiped : ℕ) (s : List (FilePath × Bytes)) (f : Handle)
      → wiped < 2 ^ 64
      → let len = job.file_len in
        Triple sys
          (Open k s f)
          (chunk_loop job k (suc len) f (new_buffer len) len wiped)
          (ChunksPost sys job d₀ s k (buffer_len job) ((wiped + len) % 2 ^ 64))
          (λ e. InPlace)
  unfolding new_buffer
  chunks-Triple k wiped s f w = Triple-given λ d t h. rw h.1 (
      Triple-weaken
        (chunk_loop-Triple fills job d₀ s k (buffer_len job) some_room (suc job.file_len)
          job.file_len 0 wiped _ (length-replicate _ 0) (omega arith) (omega arith)
          (aligned job.file_len) w)
        (λ d t h. record {
          standing = h.0.standing;
          written = tt;
          swept = (h.0.standing.content, h.0.swept);
        })
        (λ o d t h. h) (λ e d t h. (s, h)))
    where
      aligned : (n : ℕ) → Aligned fills job d₀ s k (buffer_len job) some_room n 0
      aligned zero = tt
      aligned (suc n) = (0, omega arith)

  end_pass-Triple :
      (k n w w' : ℕ) (s : List (FilePath × Bytes)) (rest : ℕ → Action SanitizerError (ℕ × ℕ))
      (end : ChunksEnd)
      → (job.options.sync_each_pass ≡ true → Synced job s₀ k s)
      → k < n
      → Triple sys (AfterPasses (k + 1)) (rest w) (PassesPost n w') (λ e. InPlace)
      → Triple sys
          (ChunksPost sys job d₀ s k (buffer_len job) w end)
          (end_pass job k rest end)
          (PassesPost n w')
          (λ e. InPlace)
  unfolding end_pass
  end_pass-Triple k n w w' s rest (interrupted wiped) before l T =
      Triple-pure _ (λ d t h. inr (l, h.1, (s, h.0)))
  end_pass-Triple k n w w' s rest (finished f wiped) before l T =
      let one_more : k + 1 ≡ suc k = omega arith in
      Triple-given λ d t h.
        rw (h.0, h.1)
          (Triple-bind (Triple-pre (sync_pass-Triple k s before) (λ d t h. h.2))
            λ _. rw one_more at T)

  -- With random sources that fill a buffer to its length, from the start of pass `k` with `k` passes
  -- completed and a count below 2^64: the loop completes all its passes, each of
  -- which wrote chunks of its pattern one behind the other over the whole file, bytes of a random
  -- source where the pass is random, and synced them at once if every pass is synced; or it is left
  -- by the cancellation flag before the last pass is complete. Then the file is in place with its
  -- length, as it is on an error.
  pub pass_loop-Triple :
      (left k wiped : ℕ)
      → wiped < 2 ^ 64
      → Triple sys
          (AfterPasses k)
          (pass_loop job left k k wiped)
          (PassesPost (k + left) ((wiped + left * job.file_len) % 2 ^ 64))
          (λ e. InPlace)
  unfolding pass_loop is_cancelled
  pass_loop-Triple zero k wiped w =
      let e : k + 0 ≡ k = omega arith in
      Triple-pure _ (λ d t h. inl (omega arith, omega arith, rw e h))
  pass_loop-Triple (suc left) k wiped w = Triple-bind (Triple-ask _ (λ n d t h. h)) λ stop.
      Triple-if stop (λ _. Triple-raise _ (λ d t h. (h.0, h.1.standing)))
        λ _. Triple-exists λ s. Triple-given λ d t now. Triple-bind (open-Triple k s) λ f.
          Triple-bind (rewind-Triple k s f) λ f. Triple-bind (chunks-Triple k wiped s f w) λ end.
            end_pass-Triple k (k + suc left) _ _ s _ end now.in_order (omega arith) (
              rw (passes, count) at
                (pass_loop-Triple left (k + 1) ((wiped + job.file_len) % 2 ^ 64) (omega arith)))
    where
      passes : k + 1 + left ≡ k + suc left
      passes = omega arith

      count :
          ((wiped + job.file_len) % 2 ^ 64 + left * job.file_len) % 2 ^ 64
          ≡ (wiped + suc left * job.file_len) % 2 ^ 64
      count = omega arith
