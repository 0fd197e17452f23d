-- ===== src/Io/Files/Whole.antt =====
-- Triples of the calls that put a whole file down, or ask whether a path is there.
use secure_file_shredder_and.Base.{
  arith, suc, ◌+◌, ◌≡◌, ◌≢◌, refl, ap, ◌∙◌, Bool, false, Option, none, some, List, [], ◌∷◌,
  append-nil, Bytes, length,
}
use secure_file_shredder_and.Io.Outcome.{ok}
use secure_file_shredder_and.Io.Path.{FilePath}
use secure_file_shredder_and.Io.Error.{IoError}
use secure_file_shredder_and.Io.System.{System}
use secure_file_shredder_and.Io.Action.{Node, file, dir, Disk, Event, World}
use secure_file_shredder_and.Io.Triple.{
  Assertion, Post, Triple, Triple-bind, Triple-given, Triple-pure, Triple-syscall,
}
use secure_file_shredder_and.Io.Files.{update, overwrite, create, created, write, exists, is_there}
use secure_file_shredder_and.Io.Files.Laws.{update_self, update_ne, same_content, write_all-Triple}

-- The second disk is the first but at a path.
abbrev pub SameBut : FilePath → Disk → Disk → Type 0
SameBut p d d' = (q : FilePath) → q ≢ p → d' q ≡ d q

pub update-SameBut : (d : Disk) (p : FilePath) (v : Option Node) → SameBut p d (update d p v)
update-SameBut d p v q h = update_ne d p q v h

overwrite_empty : (b : Bytes) → overwrite [] 0 b ≡ b
unfolding overwrite
overwrite_empty [] = refl
overwrite_empty (x ∷ b) =
    let n : 0 + suc (length b) ≡ suc (length b) = omega arith in rw n (append-nil (x ∷ b))

module _ {sys : System} {P : Assertion} where
  create-Triple :
      {R : IoError → Assertion} (p : FilePath)
      → ((e : IoError) (d d' : Disk) (t t' : List Event) → P d t → SameBut p d d' → R e d' t')
      → Triple sys P
          (create p)
          (λ h d t.
            (h ≡ record { path = p; pos = 0 })
            × (d₀ : Disk) × (t₀ : List Event) × P d₀ t₀
            × (d p ≡ some (file []))
            × SameBut p d₀ d)
          R
  unfolding create
  create-Triple {R} p fail =
      Triple-syscall _ (λ w h. step w h (w.disk p)) (λ e d t h. fail e d d t t h (λ q n. refl))
    where
      step :
          (w : World)
          → P w.disk w.trace
          → (o : Option Node)
          → Post
              (λ h d t.
                (h ≡ record { path = p; pos = 0 })
                × (d₀ : Disk) × (t₀ : List Event) × P d₀ t₀
                × (d p ≡ some (file []))
                × SameBut p d₀ d)
              R
              (created p o w)
      step w h none = (refl, w.disk, w.trace, h, update_self _ _ _, update-SameBut _ _ _)
      step w h (some (file b)) = (refl, w.disk, w.trace, h, update_self _ _ _, update-SameBut _ _ _)
      step w h (some dir) = fail _ _ _ _ _ h (λ q n. refl)

  -- The whole file is down, or an error leaves the other paths as they were.
  pub write-Triple :
      {Q : Unit {0} → Assertion} {R : IoError → Assertion} (p : FilePath) (b : Bytes)
      → ((d d' : Disk) (t t' : List Event)
          → P d t
          → d' p ≡ some (file b)
          → SameBut p d d'
          → Q tt d' t')
      → ((e : IoError) (d d' : Disk) (t t' : List Event) → P d t → SameBut p d d' → R e d' t')
      → Triple sys P (write p b) Q R
  unfolding write
  write-Triple {Q} {R} p b run fail = Triple-bind (create-Triple p fail) λ h.
      Triple-given λ d t opened. rw opened.0 (
        Triple-bind {S = λ k. Q tt}
          (write_all-Triple p (λ d t h. ([], h.4)) 0 b
            (λ c d t f h.
              run h.1 _ h.2 _ h.3
                (update_self _ _ _
                  ∙ ap (λ x. some (file x))
                      (ap (λ x. overwrite x 0 b) (same_content f h.4) ∙ overwrite_empty b))
                (λ q n. update_ne _ _ _ _ n ∙ h.5 q n))
            (λ e k c d t f h. fail e h.1 _ h.2 _ h.3 (λ q n. update_ne _ _ _ _ n ∙ h.5 q n)))
          λ k. Triple-pure tt (λ d t h. h))

  -- `exists` answers for the path, or, if it cannot look, `false`.
  pub exists-Triple :
      {E : Type 0} {Q : Bool → Assertion} {R : E → Assertion} (p : FilePath)
      → ((d : Disk) (t : List Event) → P d t → Q (is_there (d p)) d t)
      → ((d : Disk) (t : List Event) → P d t → Q false d t)
      → Triple sys P (exists p) Q R
  unfolding exists
  exists-Triple {E} {Q} {R} p run fail = record { at = λ w h. step w h (sys.os.fault w.now) }
    where
      step :
          (w : World)
          → P w.disk w.trace
          → (o : Option IoError)
          → let w' = record w { now = w.now + 1 } in
            Post {E = E} Q R
              (elim o [ none ↦ (ok (is_there (w.disk p)), w') | some e ↦ (ok false, w') ])
      step w h none = run _ _ h
      step w h (some e) = fail _ _ h
