-- ===== src/Sanitize/Engine/Chunks.antt =====
-- One pass over the file: `chunk_loop`.
use secure_file_shredder_and.Base.{
  ℕ, zero, suc, ◌+◌, ◌-◌, ◌*◌, ◌%◌, ◌^◌, ◌≤◌, ◌<◌, min, ◌≡◌, ◌≢◌, refl, sym, ap, ◌∙◌, Bool, true,
  false, Option, some, List, [], ◌∷◌, ◌++◌, Bytes, length, take, drop, arith, length-append,
  length-take, length-drop, take-append_eq, append_assoc,
}
use native.Mathlib.Decide.{dec_le}
use native.Mathlib.Nat.{mul-add-mod_self_right, mod-eq_of_lt}
use secure_file_shredder_and.Io.Path.{FilePath}
use secure_file_shredder_and.Io.Error.{io}
use secure_file_shredder_and.Io.System.{System}
use secure_file_shredder_and.Io.Action.{file, Disk, Event, wrote, map_err}
use secure_file_shredder_and.Io.Triple.{
  Assertion, Triple, Triple-pure, Triple-ask, Triple-bind, Triple-map_err, Triple-given, Triple-pre,
  Triple-if, Triple-weaken, Triple-event,
}
use secure_file_shredder_and.Io.Files.{Handle, update, overwrite, write_all}
use secure_file_shredder_and.Io.Files.Laws.{
  same_content, update_self, update_ne, synced_contents, data_events, write_all-Triple,
  length-overwrite,
}
use secure_file_shredder_and.Crypto.Rng.Laws.{FillsBuffers}
use secure_file_shredder_and.Sanitize.Engine.Sweep.{
  Swept, put_chunk, Cancelled, is_cancelled-Cancelled,
}
use secure_file_shredder_and.Sanitize.Patterns.Fill.{fixed_byte, Agrees, Filled, fill_pass-Triple}
use secure_file_shredder_and.Sanitize.Engine.{
  Job, ChunksEnd, finished, interrupted, chunk_loop, is_cancelled, report_progress, add_u64,
}

pub Agrees-append :
    (want : ℕ → Option ℕ) (i : ℕ) (xs ys : Bytes)
    → Agrees want i xs
    → Agrees want (i + length xs) ys
    → Agrees want i (xs ++ ys)
Agrees-append want i [] ys hx hy = let e : i + 0 ≡ i = omega arith in rw e at hy
Agrees-append want i (x ∷ xs) ys hx hy =
    let e : i + suc (length xs) ≡ i + 1 + length xs = omega arith in
    (hx.0, Agrees-append want (i + 1) xs ys hx.1 (rw e at hy))

-- The same bytes at another offset, where the two descriptions agree.
Agrees-shift :
    (want other : ℕ → Option ℕ) (i k : ℕ) (xs : Bytes)
    → ((j : ℕ) → j < length xs → other (k + j) ≡ want (i + j))
    → Agrees want i xs
    → Agrees other k xs
Agrees-shift want other i k [] h a = tt
Agrees-shift want other i k (x ∷ xs) h a = (
  (λ b e. a.0 b (sym first ∙ e)),
  Agrees-shift want other (i + 1) (k + 1) xs (λ j l. rest j l) a.1,
)
  where
    first : other k ≡ want i
    first =
        let e : k + 0 ≡ k = omega arith in
        let f : i + 0 ≡ i = omega arith in rw (e, f) at (h 0 (omega arith))

    rest : (j : ℕ) → j < length xs → other (k + 1 + j) ≡ want (i + 1 + j)
    rest j l =
        let e : k + suc j ≡ k + 1 + j = omega arith in
        let f : i + suc j ≡ i + 1 + j = omega arith in rw (e, f) at (h (suc j) (omega arith))

take-overwrite :
    (b : Bytes) (n : ℕ) (chunk : Bytes)
    → n ≤ length b
    → take (n + length chunk) (overwrite b n chunk) ≡ take n b ++ chunk
unfolding overwrite
take-overwrite b n chunk h =
    let e : n + length chunk ≡ length (take n b ++ chunk) =
      omega (arith, length-append (take n b) chunk, length-take n b) in
    rw (← append_assoc) (take-append_eq (take n b ++ chunk) _ e)

module _ (sys : System) (job : Job) (d₀ : Disk) (s : List (FilePath × Bytes)) where
  -- The file is at its path with its length, and no other path has changed.
  pub record Standing (d : Disk) (t : List Event) : Type 0 where
    pub content : Bytes
    pub here : d job.path ≡ some (file content)
    pub long : length content ≡ job.file_len
    pub others : (q : FilePath) → q ≢ job.path → d q ≡ d₀ q
    pub durable : synced_contents t ≡ s

module _ (job : Job) (chunk_len pass : ℕ) where
  -- What a pass fixes at an offset of the file: the pattern starts anew with each chunk.
  abbrev pub wanted : ℕ → Option ℕ
  wanted j = fixed_byte job.options.pattern pass (j % chunk_len)

  -- The first `n` bytes are those of the pass.
  abbrev pub Written : ℕ → Bytes → Type 0
  Written n b = Agrees wanted 0 (take n b)

  Written-overwrite :
      (k : ℕ) (b chunk : Bytes)
      → k * chunk_len + length chunk ≤ length b
      → length chunk ≤ chunk_len
      → Written (k * chunk_len) b
      → Agrees (fixed_byte job.options.pattern pass) 0 chunk
      → Written (k * chunk_len + length chunk) (overwrite b (k * chunk_len) chunk)
  Written-overwrite k b chunk h l w a = rw (take-overwrite b (k * chunk_len) chunk (omega arith)) (
      Agrees-append wanted 0 _ chunk w
        (Agrees-shift (fixed_byte job.options.pattern pass) wanted 0 _ chunk shifted a))
    where
      start : length (take (k * chunk_len) b) ≡ k * chunk_len
      start = omega (arith, length-take (k * chunk_len) b)

      offset : (j : ℕ) → 0 + length (take (k * chunk_len) b) + j ≡ k * chunk_len + j
      offset j = omega (arith, start)

      shifted :
          (j : ℕ)
          → j < length chunk
          → wanted (0 + length (take (k * chunk_len) b) + j)
            ≡ fixed_byte job.options.pattern pass (0 + j)
      shifted j m =
          let inside : j < chunk_len = omega arith in
          let e : (0 + length (take (k * chunk_len) b) + j) % chunk_len ≡ 0 + j =
            rw (offset j, mul-add-mod_self_right, mod-eq_of_lt inside) (omega arith) in
          ap (fixed_byte job.options.pattern pass) e

abbrev pub at_pos : Job → ℕ → Handle
at_pos job n = record { path = job.path; pos = n }

module _ (sys : System) (job : Job) (d₀ : Disk) (s : List (FilePath × Bytes))
    (pass chunk_len : ℕ) where
  -- The pass has written the first `n` bytes.
  pub record Partial (n : ℕ) (d : Disk) (t : List Event) : Type 0 where
    pub standing : Standing sys job d₀ s d t
    pub open standing use *
    pub written : Written job chunk_len pass n standing.content
    pub swept : (last : Bytes) × Swept sys job pass last (take n standing.content) (data_events t)

  -- How the loop ends: with the count of the bytes wiped after a whole pass, or by the flag.
  abbrev pub ChunksPost : ℕ → ChunksEnd → Assertion
  ChunksPost w (finished h wiped) d t =
      (h ≡ at_pos job job.file_len) × (wiped ≡ w) × Partial job.file_len d t
  ChunksPost w (interrupted wiped) d t = Standing sys job d₀ s d t × Cancelled sys job

module _ {sys : System} (fills : FillsBuffers sys) (job : Job) (d₀ : Disk)
    (s : List (FilePath × Bytes)) (pass chunk_len : ℕ) (some_room : 0 < chunk_len) where
  abbrev Begun : ℕ → Assertion
  Begun = Partial sys job d₀ s pass chunk_len

  there :
      {n : ℕ} (d : Disk) (t : List Event) → Begun n d t → (b : Bytes) × (d job.path ≡ some (file b))
  there d t h = (h.content, h.here)

  report-Triple :
      (n done pass total : ℕ)
      → Triple sys
          (Begun n)
          (report_progress job.has_progress done pass total)
          (λ _. Begun n)
          (λ e. Standing sys job d₀ s)
  unfolding report_progress
  report-Triple n done pass total = go job.has_progress
    where
      go :
          (b : Bool)
          → Triple sys
              (Begun n)
              (report_progress b done pass total)
              (λ _. Begun n)
              (λ e. Standing sys job d₀ s)
      go true = Triple-event _ λ d t h. record {
        standing = record {
          content = h.content;
          here = h.here;
          long = h.long;
          others = h.others;
          durable = h.durable;
        };
        written = h.written;
        swept = h.swept;
      }
      go false = Triple-pure tt (λ d t h. h)

  -- The disk after a write inside the file.
  Standing-write :
      (n : ℕ) (b chunk : Bytes) (d : Disk) (t : List Event)
      → d job.path ≡ some (file b)
      → n + length chunk ≤ job.file_len
      → Standing sys job d₀ s d t
      → Standing sys job d₀ s
          (update d job.path (some (file (overwrite b n chunk))))
          (wrote job.path n chunk ∷ t)
  Standing-write n b chunk d t f l h = record {
    content = overwrite b n chunk;
    here = update_self _ _ _;
    long = length-overwrite b n chunk (rw (← fits) at l) ∙ fits;
    others = λ q ne. update_ne d job.path q _ ne ∙ h.others q ne;
    durable = h.durable;
  }
    where
      fits : length b ≡ job.file_len
      fits = ap length (same_content f h.here) ∙ h.long

  Partial-write :
      (k : ℕ) (b c : Bytes) (d : Disk) (t : List Event)
      → d job.path ≡ some (file b)
      → k * chunk_len + length c ≤ job.file_len
      → length c ≤ chunk_len
      → Filled sys job.options.pattern pass c
      → Begun (k * chunk_len) d t
      → Begun
          (k * chunk_len + length c)
          (update d job.path (some (file (overwrite b (k * chunk_len) c))))
          (wrote job.path (k * chunk_len) c ∷ t)
  unfolding Standing-write
  Partial-write k b c d t f l m a h = record {
    standing = Standing-write (k * chunk_len) b c d t f l h.standing;
    written =
        Written-overwrite job chunk_len pass k b c
          (omega (arith, ap length (same_content f h.here), h.long)) m
          (rw (← same_content f h.here) at h.written) a.0;
    swept = (
      h.swept.0,
      rw (take-overwrite b (k * chunk_len) c inside) (
          next (length (take (k * chunk_len) b)) refl
            (omega (arith, length-take (k * chunk_len) b, inside))
            (rw (← same_content f h.here) at h.swept.1)),
    );
  }
    where
      inside : k * chunk_len ≤ length b
      inside = omega (arith, ap length (same_content f h.here), h.long)

      next :
          (n : ℕ)
          → length (take (k * chunk_len) b) ≡ n
          → n ≡ k * chunk_len
          → Swept sys job pass h.swept.0 (take (k * chunk_len) b) (data_events t)
          → Swept sys job pass h.swept.0
              (take (k * chunk_len) b ++ c)
              (wrote job.path (k * chunk_len) c ∷ data_events t)
      next n e g sw = rw (e ∙ g) at (put_chunk c a sw)

  -- Where the next chunk begins: behind `k` whole chunks, unless nothing is left.
  abbrev pub Aligned : ℕ → ℕ → Type 0
  Aligned zero pos = Unit
  Aligned (suc left) pos = (k : ℕ) × (pos ≡ k * chunk_len)

  Aligned-next :
      (k left : ℕ)
      → Aligned (suc left - min (suc left) chunk_len) (k * chunk_len + min (suc left) chunk_len)
  Aligned-next k left = elim (dec_le chunk_len (suc left)) [
    | yes p ↦
        let e : min (suc left) chunk_len ≡ chunk_len = omega arith in
        rw e (aligned (suc left - chunk_len))
    | no p ↦ let e : suc left - min (suc left) chunk_len ≡ 0 = omega arith in rw e tt
  ]
    where
      aligned : (n : ℕ) → Aligned n (k * chunk_len + chunk_len)
      aligned zero = tt
      aligned (suc n) = (k + 1, omega arith)

  -- What the buffer is after a round.
  length-refill :
      (n : ℕ) (chunk buf : Bytes)
      → length chunk ≡ length (take n buf)
      → length buf ≡ chunk_len
      → length (chunk ++ drop n buf) ≡ chunk_len
  length-refill n chunk buf e f =
      omega (arith, length-append chunk (drop n buf), length-take n buf, length-drop n buf)

  -- The round's write, at a multiple of the buffer's length.
  write-Triple :
      (k n left : ℕ) (chunk : Bytes)
      → length chunk ≡ n
      → n ≤ chunk_len
      → n ≤ left
      → k * chunk_len + left ≡ job.file_len
      → Filled sys job.options.pattern pass chunk
      → Triple sys
          (Begun (k * chunk_len))
          (map_err (io job.path) (write_all (at_pos job (k * chunk_len)) chunk))
          (λ h d t. (h ≡ at_pos job (k * chunk_len + n)) × Begun (k * chunk_len + n) d t)
          (λ e. Standing sys job d₀ s)
  write-Triple k n left chunk e l m f a = rw (← e) (
      Triple-map_err _ (
        write_all-Triple job.path there (k * chunk_len) chunk
          (λ b d t g h. (refl, Partial-write k b chunk d t g (omega arith) (omega arith) a h))
          (λ x c b d t g h.
            Standing-write (k * chunk_len) b (take c chunk) d t g
              (omega (arith, length-take c chunk)) h.standing)))

  -- With random sources that fill a buffer to its length, a buffer that is not empty, more fuel than
  -- bytes left, and a position that is a multiple of the buffer's length, behind bytes of the pass:
  -- the loop ends. Either chunks of the pass were written one behind the other up to the end of
  -- the file, the whole file holds these bytes, and the count has grown by what was left modulo 2^64;
  -- or there is a cancellation flag, and it is set at some moment. The file keeps its length, and no
  -- other path changes, also on an error.
  pub chunk_loop-Triple :
      (fuel remaining pos wiped : ℕ) (buf : Bytes)
      → length buf ≡ chunk_len
      → remaining < fuel
      → pos + remaining ≡ job.file_len
      → Aligned remaining pos
      → wiped < 2 ^ 64
      → Triple sys
          (Begun pos)
          (chunk_loop job pass fuel (at_pos job pos) buf remaining wiped)
          (ChunksPost sys job d₀ s pass chunk_len ((wiped + remaining) % 2 ^ 64))
          (λ e. Standing sys job d₀ s)
  unfolding chunk_loop is_cancelled
  chunk_loop-Triple zero remaining pos wiped buf b f e a w = absurd (omega arith)
  chunk_loop-Triple (suc fuel) zero pos wiped buf b f e a w =
      let p : pos ≡ job.file_len = omega arith in
      Triple-pure _ (λ d t h. (ap (at_pos job) p, omega arith, rw p at h))
  chunk_loop-Triple (suc fuel) (suc left) pos wiped buf b f e (k, a) w =
      let n = min (suc left) chunk_len in
      rw (a, b)
        (Triple-bind {S = λ stop d t. Begun (k * chunk_len) d t × (stop ≡ true → Cancelled sys job)}
          (Triple-ask _ (λ t d tr h. (h, is_cancelled-Cancelled sys job t)))
          λ stop. Triple-given λ d t (_, flag).
            Triple-pre
              (Triple-if stop (λ e. Triple-pure _ (λ d t h. (h.standing, flag e)))
                λ _.
                  Triple-bind
                    (Triple-weaken
                      (fill_pass-Triple (Begun (k * chunk_len)) fills job.options.pattern
                        (take n buf) pass)
                      (λ d t h. h) (λ o d t h. h) (λ x d t h. h.standing))
                    λ chunk. Triple-given λ d t (h, (l, g)).
                      Triple-bind
                        (Triple-pre
                          (write-Triple k n (suc left) chunk (omega (arith, length-take n buf))
                            (omega arith) (omega arith) (omega arith) g)
                          (λ d t h. h.0))
                        λ h. Triple-given λ d t (same, _). rw same (
                          Triple-bind (Triple-pre (report-Triple _ _ _ _) (λ d t h. h.1)) λ _.
                            rw count at (
                              chunk_loop-Triple fuel (suc left - n) (k * chunk_len + n)
                                (add_u64 wiped n) (chunk ++ drop n buf)
                                (length-refill n chunk buf l b) (omega arith) (omega arith)
                                (Aligned-next k left) (omega arith))))
              (λ d t h. h.0))
    where
      count :
          (add_u64 wiped (min (suc left) chunk_len) + (suc left - min (suc left) chunk_len))
            % 2 ^ 64
          ≡ (wiped + suc left) % 2 ^ 64
      count = omega arith
