-- ===== src/Storage/Filesystem/Mounts.antt =====
-- Which mount `detect` takes for a path.
use secure_file_shredder_and.Base.{
  ℕ, ◌≡◌, ◌≤◌, ◌<◌, ◌⊎◌, inl, inr, refl, ap, Bool, true, false, ◌||◌, Option, none, some, List, [],
  ◌∷◌, ◌++◌, Text, length, leb, arith, All, Bool-cases, split_whitespace, if◌then◌else◌,
}
use secure_file_shredder_and.Io.Path.{
  FilePath, FilePath-discrete, same_path, path_starts_with, parse_path,
}
use secure_file_shredder_and.Io.System.{System}
use secure_file_shredder_and.Storage.Filesystem.{candidate, fields_of, on_mount, better, best_mount}

-- The second path's components are the outermost of the first; paths have the innermost first.
abbrev pub Beneath : FilePath → FilePath → Type 0
Beneath p q = (inner : FilePath) × (p ≡ inner ++ q)

same_path-true : (p q : FilePath) → same_path p q ≡ true → p ≡ q
same_path-true p q = go (FilePath-discrete p q)
  where
    go : (c : Dec (p ≡ q)) → Path Bool (elim c [ yes _ ↦ true | no _ ↦ false ]) true → p ≡ q
    go (yes e) h = e
    go (no n) h = absurd (cc h)

same_path_refl : (p : FilePath) → same_path p p ≡ true
same_path_refl p = go (FilePath-discrete p p)
  where
    go : (c : Dec (p ≡ p)) → Path Bool (elim c [ yes _ ↦ true | no _ ↦ false ]) true
    go (yes e) = refl
    go (no n) = absurd (n refl)

or_true : (a b : Bool) → (a || b) ≡ true → (a ≡ true) ⊎ (b ≡ true)
or_true true b e = inl refl
or_true false b e = inr e

or_right : (a : Bool) → (a || true) ≡ true
or_right true = refl
or_right false = refl

path_starts_with-Beneath : (p q : FilePath) → path_starts_with p q ≡ true → Beneath p q
unfolding path_starts_with
path_starts_with-Beneath [] q e = ([], same_path-true [] q e)
path_starts_with-Beneath (c ∷ p) q e = elim (or_true (same_path (c ∷ p) q) _ e) [
  | inl s ↦ ([], same_path-true (c ∷ p) q s)
  | inr r ↦ let (inner, f) = path_starts_with-Beneath p q r in (c ∷ inner, ap (λ x. c ∷ x) f)
]

path_starts_with_refl : (q : FilePath) → path_starts_with q q ≡ true
unfolding path_starts_with
path_starts_with_refl [] = same_path_refl []
path_starts_with_refl (c ∷ q) = rw (same_path_refl (c ∷ q)) refl

path_starts_with-append : (inner q : FilePath) → path_starts_with (inner ++ q) q ≡ true
unfolding path_starts_with
path_starts_with-append [] q = path_starts_with_refl q
path_starts_with-append (c ∷ inner) q =
    rw (path_starts_with-append inner q) (or_right (same_path (c ∷ (inner ++ q)) q))

module _ (sys : System) (canonical : FilePath) where
  -- The line has three fields or more, the second names a mount point that holds the path, and the
  -- third is the type; a mount is the type with the mount point.
  abbrev pub Mounts : Text → Text × Text → Type 0
  Mounts line x =
      ((source : Text) × ((rest : List Text) × (split_whitespace sys.unicode.split_whitespace line
            ≡ source ∷ x.1 ∷ x.0 ∷ rest)))
      × Beneath canonical (parse_path x.1)

  abbrev Found : List Text → Option (Text × Text) → Type 0
  Found fields none =
      (x : Text × Text)
      → ((source : Text) × ((rest : List Text) × (fields ≡ source ∷ x.1 ∷ x.0 ∷ rest)))
      → ¬ Beneath canonical (parse_path x.1)
  Found fields (some x) =
      ((source : Text) × ((rest : List Text) × (fields ≡ source ∷ x.1 ∷ x.0 ∷ rest)))
      × Beneath canonical (parse_path x.1)
      × ((y : Text × Text)
          → ((source : Text) × ((rest : List Text) × (fields ≡ source ∷ y.1 ∷ y.0 ∷ rest)))
          → y ≡ x)

  found : (fields : List Text) → Found fields (on_mount canonical (fields_of fields))
  found [] = λ x (s, (r, e)). absurd (cc e)
  found (a ∷ []) = λ x (s, (r, e)). absurd (cc e)
  found (a ∷ b ∷ []) = λ x (s, (r, e)). absurd (cc e)
  found (source ∷ mount_point ∷ fstype ∷ rest) = go _ refl
    where
      unique :
          (y : Text × Text)
          → ((s : Text) × ((r : List Text) × ((source ∷ mount_point ∷ fstype ∷ rest)
                  ≡ s ∷ y.1 ∷ y.0 ∷ r)))
          → y ≡ (fstype, mount_point)
      unique (t, m) (s, (r, e)) =
          let a : m ≡ mount_point = cc in let b : t ≡ fstype = cc in rw (a, b) refl

      go :
          (b : Bool)
          → path_starts_with canonical (parse_path mount_point) ≡ b
          → Found
              (source ∷ mount_point ∷ fstype ∷ rest)
              (if b then some (fstype, mount_point) else none)
      go true e = ((source, (rest, refl)), path_starts_with-Beneath _ _ e, unique)
      go false e = λ x h (inner, f).
          let same : x.1 ≡ mount_point = ap (λ y. y.1) (unique x h) in
          let beneath : canonical ≡ inner ++ parse_path mount_point = rw same at f in
          let yes_it_is : path_starts_with canonical (parse_path mount_point) ≡ true =
            rw beneath (path_starts_with-append inner (parse_path mount_point)) in
          absurd (cc (e, yes_it_is))

  -- A line's candidate is the mount on it that holds the path.
  candidate-Mounts :
      (line : Text) (c : Option (Text × Text))
      → candidate sys canonical line ≡ c
      → Found (split_whitespace sys.unicode.split_whitespace line) c
  unfolding candidate
  candidate-Mounts line c e = rw (← e) (found (split_whitespace sys.unicode.split_whitespace line))

  -- No mount on the line that holds the path is longer, or as long.
  abbrev pub NotLonger : ℕ → Text → Type 0
  NotLonger n line = (y : Text × Text) → Mounts line y → length y.1 ≤ n

  abbrev pub Shorter : ℕ → Text → Type 0
  Shorter n line = (y : Text × Text) → Mounts line y → length y.1 < n

  -- It is mounted by one of the lines: none before has a longer mount that holds the path, and those
  -- behind have shorter ones.
  abbrev pub Picked : Text × Text → List Text → Type 0
  Picked x [] = ⊥
  Picked x (line ∷ rest) =
      (Mounts line x × All (Shorter (length x.1)) rest)
      ⊎ (NotLonger (length x.1) line × Picked x rest)

  -- What the loop over the mount table returns.
  abbrev pub Chosen : List Text → Option (Text × Text) → Type 0
  Chosen mounts none = All (λ line. (y : Text × Text) → ¬ Mounts line y) mounts
  Chosen mounts (some x) = Picked x mounts

  abbrev length_of : Option (Text × Text) → ℕ
  length_of none = 0
  length_of (some x) = length x.1

  -- What is chosen after a best mount of before.
  abbrev Choice : Option (Text × Text) → List Text → Option (Text × Text) → Type 0
  Choice best mounts none = (best ≡ none) × Chosen mounts none
  Choice best mounts (some x) =
      ((best ≡ some x) × All (Shorter (length x.1)) mounts)
      ⊎ ((length_of best ≤ length x.1) × Picked x mounts)

  skip :
      (best : Option (Text × Text)) (line : Text) (mounts : List Text) (r : Option (Text × Text))
      → ((y : Text × Text) → ¬ Mounts line y)
      → Choice best mounts r
      → Choice best (line ∷ mounts) r
  skip best line mounts none no_mount h = (h.0, (no_mount, h.1))
  skip best line mounts (some x) no_mount (inl (e, h)) =
      inl (e, ((λ y m. absurd (no_mount y m)), h))
  skip best line mounts (some x) no_mount (inr (l, h)) =
      inr (l, inr ((λ y m. absurd (no_mount y m)), h))

  taken :
      (best : Option (Text × Text)) (line : Text) (mounts : List Text) (y : Text × Text)
      → Mounts line y
      → ((z : Text × Text) → Mounts line z → z ≡ y)
      → length_of best ≤ length y.1
      → (r : Option (Text × Text)) → Choice (some y) mounts r
      → Choice best (line ∷ mounts) r
  taken best line mounts y m one l none h = absurd (cc (h.0))
  taken best line mounts y m one l (some x) (inl (e, h)) =
      let same : y ≡ x = cc in inr (rw same at l, inl (rw same at m, h))
  taken best line mounts y m one l (some x) (inr (k, h)) = inr (
    omega (arith, k, l),
    inr ((λ z n. omega (arith, k, ap (λ (w : Text × Text). length w.1) (one z n))), h),
  )

  kept :
      (x : Text × Text) (line : Text) (mounts : List Text) (y : Text × Text)
      → ((z : Text × Text) → Mounts line z → z ≡ y)
      → length y.1 < length x.1
      → (r : Option (Text × Text)) → Choice (some x) mounts r
      → Choice (some x) (line ∷ mounts) r
  kept x line mounts y one l none h = absurd (cc (h.0))
  kept x line mounts y one l (some z) (inl (e, h)) =
      let same : x ≡ z = cc in
      inl (
        e,
        (
          (λ w n. omega (
            arith,
            l,
            ap (λ (v : Text × Text). length v.1) (one w n),
            ap (λ (v : Text × Text). length v.1) same,
          )),
          h,
        ),
      )
  kept x line mounts y one l (some z) (inr (k, h)) =
      inr (k, inr ((λ w n. omega (arith, k, l, ap (λ (v : Text × Text). length v.1) (one w n))), h))

  abbrev Chooses : List Text → Type 0
  Chooses mounts =
      (best : Option (Text × Text))
      → Choice best mounts (best_mount sys canonical (best, length_of best) mounts)

  shorter :
      (line : Text) (mounts : List Text) (y : Text × Text)
      → Chooses mounts
      → ((z : Text × Text) → Mounts line z → z ≡ y)
      → (best : Option (Text × Text)) → leb (length_of best) (length y.1) ≡ false
      → Choice best (line ∷ mounts) (best_mount sys canonical (best, length_of best) mounts)
  shorter line mounts y h one none b = absurd (ground (arith, b))
  shorter line mounts y h one (some x) b =
      kept x line mounts y one (ground (arith, b)) _ (h (some x))

  round :
      (line : Text) (mounts : List Text)
      → Chooses mounts
      → (best c : Option (Text × Text))
      → Found (split_whitespace sys.unicode.split_whitespace line) c
      → Choice best
          (line ∷ mounts)
          (best_mount sys canonical (better c (best, length_of best)) mounts)
  round line mounts h best none no_mount =
      skip best line mounts _ (λ y m. no_mount y m.0 m.1) (h best)
  round line mounts h best (some y) (m, beneath, one) =
      elim (Bool-cases (leb (length_of best) (length y.1))) [
        | inl b ↦ rw b (
            taken best line mounts y (m, beneath) (λ z n. one z n.0) (ground (arith, b)) _
              (h (some y)))
        | inr b ↦ rw b (shorter line mounts y h (λ z n. one z n.0) best b)
      ]

  choose : (mounts : List Text) → Chooses mounts
  unfolding best_mount
  choose [] none = (refl, tt)
  choose [] (some x) = inl (refl, tt)
  choose (line ∷ mounts) best =
      round line mounts (choose mounts) best _ (candidate-Mounts line _ refl)

  Choice-Chosen :
      (mounts : List Text) (r : Option (Text × Text)) → Choice none mounts r → Chosen mounts r
  Choice-Chosen mounts none h = h.1
  Choice-Chosen mounts (some x) (inl (e, h)) = absurd (cc e)
  Choice-Chosen mounts (some x) (inr (l, h)) = h

  -- The loop over the mount table chooses a mount of one of its lines, whose mount point holds the
  -- path (its components are the path's outermost): no mount point of a line before it that holds the
  -- path is longer, and those of the lines behind it that do are shorter. It chooses none only if
  -- no line's mount point holds the path.
  pub best_mount-Chosen :
      (mounts : List Text) → Chosen mounts (best_mount sys canonical (none, 0) mounts)
  best_mount-Chosen mounts = Choice-Chosen mounts _ (choose mounts none)
