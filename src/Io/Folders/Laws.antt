-- ===== src/Io/Folders/Laws.antt =====
-- Triples of the calls of Io/Folders.antt: no call on a directory changes what a file holds.
use secure_file_shredder_and.Base.{
  ◌+◌, ◌≡◌, ◌↔◌, ◌⊎◌, refl, sym, ◌∙◌, Bool, false, Option, none, some, List, [], ◌∷◌, Bytes, Text,
}
use secure_file_shredder_and.Io.Outcome.{Outcome, ok, err, panic, out_of_fuel, ◌>>=◌}
use secure_file_shredder_and.Io.Path.{FilePath, FilePath-discrete}
use secure_file_shredder_and.Io.Error.{IoError, already_exists, not_a_directory}
use secure_file_shredder_and.Io.System.{System}
use secure_file_shredder_and.Io.Action.{Node, file, dir, Disk, Event, World}
use secure_file_shredder_and.Io.Triple.{Assertion, Post, Triple, Triple-syscall}
use secure_file_shredder_and.Io.Files.{update}
use secure_file_shredder_and.Io.Files.Laws.{update_self, update_ne}
use secure_file_shredder_and.Io.Folders.{
  make_dirs, with_dirs, create_dir_all, look, read_dir, listed, remove_dir, dropped,
}

-- Each file is the same before and after.
abbrev pub SameFiles : Disk → Disk → Type 0
SameFiles d d' = (q : FilePath) (b : Bytes) → (d q ≡ some (file b)) ↔ (d' q ≡ some (file b))

-- Where there is no file before, and none after, the files are the same.
update-SameFiles :
    (d : Disk) (p : FilePath) (v : Option Node)
    → ((b : Bytes) → ¬ (d p ≡ some (file b)))
    → ((b : Bytes) → ¬ (v ≡ some (file b)))
    → SameFiles d (update d p v)
update-SameFiles d p v before after q b = elim (FilePath-discrete q p) [
  | yes e ↦
      let here = update_self d p v in
      (λ f. absurd (before b (rw e at f)), λ f. absurd (after b (sym here ∙ (rw e at f))))
  | no n ↦ let away = update_ne d p q v n in (λ f. away ∙ f, λ f. sym away ∙ f)
]

abbrev Made : Disk → Outcome IoError Disk → Type 0
Made d (ok d') = SameFiles d d'
Made d (err e) = Unit
Made d panic = ⊥
Made d out_of_fuel = ⊥

make_dirs-SameFiles : (taken : IoError) (p : FilePath) (d : Disk) → Made d (make_dirs taken p d)
unfolding make_dirs
make_dirs-SameFiles taken [] d = λ q b. (λ f. f, λ f. f)
make_dirs-SameFiles taken (c ∷ p) d =
    at_node (make_dirs-SameFiles not_a_directory p d) (d (c ∷ p)) refl
  where
    under :
        d (c ∷ p) ≡ none
        → (r : Outcome IoError Disk) → Made d r
        → Made d (r >>= λ d'. ok (update d' (c ∷ p) (some dir)))
    under e (ok d') h = λ q b.
        let up =
          update-SameFiles d' (c ∷ p) (some dir) (λ b f. let g = (h (c ∷ p) b).1 f in cc)
            (λ b f. cc) q b in
        (λ f. up.0 ((h q b).0 f), λ f. (h q b).1 (up.1 f))
    under e (err x) h = tt
    under e panic h = h
    under e out_of_fuel h = h

    at_node :
        Made d (make_dirs not_a_directory p d)
        → (o : Option Node) → d (c ∷ p) ≡ o
        → Made d (elim o [
          | none ↦ make_dirs not_a_directory p d >>= λ d'. ok (update d' (c ∷ p) (some dir))
          | some n ↦ elim n [ file b ↦ err taken | dir ↦ ok d ]
        ])
    at_node above none e = under e (make_dirs not_a_directory p d) above
    at_node above (some (file b)) e = tt
    at_node above (some dir) e = λ q b. (λ f. f, λ f. f)

module _ {sys : System} {P : Assertion} where
  pub create_dir_all-Triple :
      {Q : Unit {0} → Assertion} {R : IoError → Assertion} (p : FilePath)
      → ((d d' : Disk) (t : List Event) → P d t → SameFiles d d' → Q tt d' t)
      → ((e : IoError) (d : Disk) (t : List Event) → P d t → R e d t)
      → Triple sys P (create_dir_all p) Q R
  unfolding create_dir_all
  create_dir_all-Triple {Q} {R} p run fail =
      Triple-syscall _
        (λ w h.
          step w h (make_dirs already_exists p w.disk)
            (make_dirs-SameFiles already_exists p w.disk))
        fail
    where
      step :
          (w : World)
          → P w.disk w.trace
          → (r : Outcome IoError Disk) → Made w.disk r
          → Post Q R (with_dirs r w)
      step w h (ok d') m = run _ _ _ h m
      step w h (err e) m = fail _ _ _ h
      step w h panic m = elim m [ ]
      step w h out_of_fuel m = elim m [ ]

  -- An answer of `is_dir` or `is_file`; `false` also if the system does not look.
  pub look-Triple :
      {E : Type 0} {Q : Bool → Assertion} {R : E → Assertion} (test : Option Node → Bool)
      (p : FilePath)
      → ((d : Disk) (t : List Event) → P d t → Q (test (d p)) d t)
      → ((d : Disk) (t : List Event) → P d t → Q false d t)
      → Triple sys P (look test p) Q R
  unfolding look
  look-Triple {E} {Q} {R} test p run fail = record { at = λ w h. step w h (sys.os.fault w.now) }
    where
      step :
          (w : World)
          → P w.disk w.trace
          → (o : Option IoError)
          → let w' = record w { now = w.now + 1 } in
            Post {E = E} Q R
              (elim o [ none ↦ (ok (test (w.disk p)), w') | some e ↦ (ok false, w') ])
      step w h none = run _ _ h
      step w h (some e) = fail _ _ h

  pub read_dir-Triple : (p : FilePath) → Triple sys P (read_dir p) (λ names. P) (λ e. P)
  unfolding read_dir
  read_dir-Triple p = record {
    at = λ w h.
        (Triple-syscall {sys = sys} {P = P} {Q = λ names. P} {R = λ e. P} _
            (λ w' h'. step (sys.os.read_dir w.now p) w' h' (w'.disk p)) (λ e d t h. h)).at
          w h;
  }
    where
      step :
          (names : List (IoError ⊎ Text)) (w : World)
          → P w.disk w.trace
          → (o : Option Node) → Post (λ names. P) (λ e. P) (listed names o w)
      step names w h none = h
      step names w h (some (file b)) = h
      step names w h (some dir) = h

  pub remove_dir-Triple :
      {Q : Assertion} (p : FilePath)
      → ((d d' : Disk) (t : List Event) → P d t → SameFiles d d' → Q d' t)
      → Triple sys P (remove_dir p) (λ u. Q) (λ e. Q)
  unfolding remove_dir
  remove_dir-Triple {Q} p run = record {
    at = λ w h.
        (Triple-syscall {sys = sys} {P = P} {Q = λ u. Q} {R = λ e. Q} _
            (λ w' h'. step (sys.os.read_dir w.now p) w' h' (w'.disk p) refl)
            (λ e d t h. unchanged d t h)).at
          w h;
  }
    where
      unchanged : (d : Disk) (t : List Event) → P d t → Q d t
      unchanged d t h = run d d t h (λ q b. (λ f. f, λ f. f))

      step :
          (names : List (IoError ⊎ Text)) (w : World)
          → P w.disk w.trace
          → (o : Option Node) → w.disk p ≡ o
          → Post (λ u. Q) (λ e. Q) (dropped p names o w)
      step names w h none e = unchanged _ _ h
      step names w h (some (file b)) e = unchanged _ _ h
      step [] w h (some dir) e = run _ _ _ h (update-SameFiles _ p none (λ b f. cc) (λ b f. cc))
      step (n ∷ names) w h (some dir) e = unchanged _ _ h
