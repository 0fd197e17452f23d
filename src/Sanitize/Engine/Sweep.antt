-- ===== src/Sanitize/Engine/Sweep.antt =====
-- What the passes do to a file, told from the writes and the syncs alone.
use secure_file_shredder_and.Base.{
  ℕ, suc, ◌≡◌, refl, sym, ◌&&◌, Bool, true, false, List, [], ◌∷◌, ◌++◌, Bytes, length,
}
use secure_file_shredder_and.Io.System.{System}
use secure_file_shredder_and.Io.Action.{Event, wrote, synced}
use secure_file_shredder_and.Sanitize.Patterns.Fill.{Filled}
use secure_file_shredder_and.Sanitize.Engine.{Job}

module _ (sys : System) (job : Job) where
  -- In this history of writes and syncs `k` passes are over, of which the last has put `last` over the
  -- whole file, and the next has written `so_far`, from the start of the file on.
  pub data Swept : ℕ → Bytes → Bytes → List Event → Type 0 where
    no_pass : {b : Bytes} {es : List Event} → Swept 0 b [] es
    -- the next chunk, right behind what is written
    put_chunk :
        {k : ℕ} {last so_far : Bytes} {es : List Event} (c : Bytes)
        → Filled sys job.options.pattern k c
        → Swept k last so_far es
        → Swept k last (so_far ++ c) (wrote job.path (length so_far) c ∷ es)
    -- the end of a pass: the whole file is written, and synced at once, if passes are synced
    made_durable :
        {k : ℕ} {last all : Bytes} {es : List Event}
        → job.options.sync_each_pass ≡ true
        → length all ≡ job.file_len
        → Swept k last all es
        → Swept (suc k) all [] (synced job.path all ∷ es)
    not_synced :
        {k : ℕ} {last all : Bytes} {es : List Event}
        → job.options.sync_each_pass ≡ false
        → length all ≡ job.file_len
        → Swept k last all es
        → Swept (suc k) all [] es

  -- There is a flag for cancellation, and it is set at some moment.
  abbrev pub Cancelled : Type 0
  Cancelled = (job.has_cancel ≡ true) × ((n : ℕ) × (sys.os.cancel_requested n ≡ true))

  cancelled_by :
      (c r : Bool) (n : ℕ)
      → c ≡ job.has_cancel
      → r ≡ sys.os.cancel_requested n
      → (c && r) ≡ true
      → Cancelled
  cancelled_by true true n e f g = (sym e, (n, sym f))
  cancelled_by true false n e f g = absurd (cc g)
  cancelled_by false r n e f g = absurd (cc g)

  -- What a look at the flag says.
  pub is_cancelled-Cancelled :
      (n : ℕ) → (job.has_cancel && sys.os.cancel_requested n) ≡ true → Cancelled
  is_cancelled-Cancelled n = cancelled_by job.has_cancel (sys.os.cancel_requested n) n refl refl
