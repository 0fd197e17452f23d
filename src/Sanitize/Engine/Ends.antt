-- ===== src/Sanitize/Engine/Ends.antt =====
-- `shred_file` on what may not be a file.
use secure_file_shredder_and.Base.{
  ◌≡◌, refl, sym, ap, ◌∙◌, Bool, false, Option, none, some, List, Bytes,
}
use secure_file_shredder_and.Io.Outcome.{ok}
use secure_file_shredder_and.Io.Path.{FilePath}
use secure_file_shredder_and.Io.System.{System}
use secure_file_shredder_and.Io.Action.{Node, file, dir, Disk, Event}
use secure_file_shredder_and.Io.Triple.{
  Triple, Triple-ask, Triple-bind, Triple-fixed, Triple-given, Triple-map_err, Triple-raise,
  Triple-weaken,
}
use secure_file_shredder_and.Io.Files.{Metadata, stat}
use secure_file_shredder_and.Io.Files.Laws.{metadata-Triple, synced_contents}
use secure_file_shredder_and.Crypto.Rng.Laws.{FillsBuffers}
use secure_file_shredder_and.Storage.Info.{StorageInfo}
use secure_file_shredder_and.Sanitize.Engine.{ShredOptions, shred_file}
use secure_file_shredder_and.Sanitize.Engine.Shred.{shred_file-Triple}

stat-no_file :
    (o : Option Node) (m : Metadata)
    → ((b : Bytes) → ¬ (o ≡ some (file b)))
    → stat o ≡ ok m
    → m.is_file ≡ false
unfolding stat
stat-no_file none m h e = absurd (cc e)
stat-no_file (some (file b)) m h e = absurd (h b refl)
stat-no_file (some dir) m h e =
    let same : record { is_file = false; len = 0 } ≡ m = cc in
    sym (ap (λ (m : Metadata). m.is_file) same)

-- With random sources that fill a buffer to its length, `shred_file` ends with an outcome or an
-- error, whatever is at the path: a file, a directory or nothing.
pub shred_file_ends :
    {sys : System} (path : FilePath) (options : ShredOptions) (storage : StorageInfo)
    (cancel sink : Bool)
    → FillsBuffers sys
    → Triple sys
        (λ d t. Unit)
        (shred_file path options storage cancel sink)
        (λ o d t. Unit)
        (λ e d t. Unit)
unfolding shred_file
shred_file_ends {sys} path options storage cancel sink fills =
    Triple-fixed λ d t h. by_node d t (d path) refl
  where
    Ends : Disk → List Event → Type 0
    Ends d t =
        Triple sys (λ d' t'. (d' ≡ d) × (t' ≡ t)) (shred_file path options storage cancel sink)
          (λ o d t. Unit) (λ e d t. Unit)

    no_file :
        (d : Disk) (t : List Event) (o : Option Node)
        → d path ≡ o
        → ((b : Bytes) → ¬ (o ≡ some (file b)))
        → Ends d t
    no_file d t o e none_there =
        Triple-bind {S = λ start d' t'. d' ≡ d} (Triple-ask _ (λ n d t h. h.0)) λ start.
          Triple-bind {S = λ m d' t'. m.is_file ≡ false}
            (Triple-map_err _ (
              Triple-weaken (metadata-Triple path (λ e d t h. tt)) (λ d t h. h)
                (λ m d' t' h.
                  stat-no_file o m none_there
                    (ap stat (sym e ∙ sym (ap (λ (d : Disk). d path) h.0)) ∙ h.1))
                (λ e d t h. h)))
            λ m. Triple-given λ d t h. rw h (Triple-raise _ (λ d t h. tt))

    by_node : (d : Disk) (t : List Event) (o : Option Node) → d path ≡ o → Ends d t
    by_node d t (some (file b)) e =
        Triple-weaken
          (shred_file-Triple path options storage cancel sink d (synced_contents t) b fills e)
          (λ d' t' h. (h.0, ap synced_contents h.1)) (λ o d t h. tt) (λ e d t h. tt)
    by_node d t none e = no_file d t none e (λ b q. cc)
    by_node d t (some dir) e = no_file d t (some dir) e (λ b q. cc)
