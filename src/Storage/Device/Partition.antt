-- ===== src/Storage/Device/Partition.antt =====
-- What `strip_partition_suffix` makes of the names of partitions and of whole devices.
use secure_file_shredder_and.Base.{
  ℕ, ◌≡◌, refl, ap, ◌∙◌, true, false, ◌&&◌, Option, none, some, [], ◌∷◌, ◌++◌, Text, codes, All,
  All-append, arith, ◌==◌, starts_with, if◌then◌else◌,
}
use secure_file_shredder_and.Storage.Device.{
  split_last, is_digit, all_digits, has_no_char, trim_digits, or_whole, strip_at,
  strip_partition_suffix,
}

abbrev Lacks : ℕ → Text → Type 0
Lacks c = All (λ d. (d == c) ≡ false)

split_last-none : (c : ℕ) (s : Text) → Lacks c s → split_last c s ≡ none
split_last-none c [] h = refl
split_last-none c (d ∷ s) h = rw (split_last-none c s h.1, h.0) refl

split_last-append :
    (c : ℕ) (before after : Text)
    → Lacks c after
    → (c == c) ≡ true
    → split_last c (before ++ (c ∷ after)) ≡ some (before, after)
split_last-append c [] after h e = rw (split_last-none c after h, e) refl
split_last-append c (d ∷ before) after h e = rw (split_last-append c before after h e) refl

digits-Lacks : (s : Text) → all_digits s ≡ true → Lacks b'p' s
digits-Lacks [] h = tt
digits-Lacks (c ∷ s) h = (ground (arith, h), digits-Lacks s (ground (arith, h)))

trim_digits-nil : (s : Text) → all_digits s ≡ true → trim_digits s ≡ []
trim_digits-nil [] h = refl
trim_digits-nil (c ∷ s) h =
    let more : all_digits s ≡ true = ground (arith, h) in
    let first : is_digit c ≡ true = ground (arith, h) in rw (trim_digits-nil s more, first) refl

trim_digits-append :
    (name : Text) (c : ℕ) (digits : Text)
    → is_digit c ≡ false
    → all_digits digits ≡ true
    → trim_digits (name ++ (c ∷ digits)) ≡ name ++ (c ∷ [])
trim_digits-append [] c digits h e = rw (trim_digits-nil digits e, h) refl
trim_digits-append (d ∷ name) c digits h e = rw (trim_digits-append name c digits h e) (kept name)
  where
    kept :
        (name : Text)
        → (if is_digit d && has_no_char (name ++ (c ∷ [])) then [] else d ∷ (name ++ (c ∷ [])))
          ≡ d ∷ (name ++ (c ∷ []))
    kept [] = ground arith
    kept (x ∷ name) = ground arith

or_whole-append : (dev name : Text) (c : ℕ) → or_whole dev (name ++ (c ∷ [])) ≡ name ++ (c ∷ [])
or_whole-append dev [] c = refl
or_whole-append dev (d ∷ name) c = refl

module _ (name : Text) (c : ℕ) (digits : Text) (not_digit : is_digit c ≡ false)
    (number : all_digits digits ≡ true) where
  trimmed :
      (dev : Text) → dev ≡ name ++ (c ∷ digits) → or_whole dev (trim_digits dev) ≡ name ++ (c ∷ [])
  trimmed dev e = rw e (
      ap (or_whole (name ++ (c ∷ digits))) (trim_digits-append name c digits not_digit number)
      ∙ or_whole-append _ name c)

  -- A name that does not begin with `nvme`, such as `sda1` or `mmcblk0p1`, loses the digits at its
  -- end, and no more.
  pub strip_partition_suffix-digits :
      starts_with (name ++ (c ∷ digits)) (codes "nvme") ≡ false
      → strip_partition_suffix (name ++ (c ∷ digits)) ≡ name ++ (c ∷ [])
  unfolding strip_partition_suffix
  strip_partition_suffix-digits other = go (split_last b'p' (name ++ (c ∷ digits)))
    where
      go : (o : Option (Text × Text)) → strip_at (name ++ (c ∷ digits)) o ≡ name ++ (c ∷ [])
      go none = trimmed _ refl
      go (some (before, after)) = rw other (trimmed _ refl)

starts_with-append : (xs ys : Text) → starts_with (xs ++ ys) xs ≡ true
unfolding starts_with
starts_with-append [] ys = refl
starts_with-append (x ∷ xs) ys = ground (arith, starts_with-append xs ys)

-- The partition of an NVMe namespace: what stands before the last `p` and the number behind it.
pub strip_partition_suffix-nvme :
    (rest digits : Text)
    → all_digits digits ≡ true
    → has_no_char digits ≡ false
    → strip_partition_suffix (codes "nvme" ++ (rest ++ (b'p' ∷ digits))) ≡ codes "nvme" ++ rest
unfolding strip_partition_suffix codes
strip_partition_suffix-nvme rest digits number some_digit =
    rw (split_last-append b'p' (codes "nvme" ++ rest) digits (digits-Lacks digits number) refl)
      (rw (starts_with-append (codes "nvme") (rest ++ (b'p' ∷ digits)), number, some_digit) refl)

-- A whole NVMe device, `nvme` with a controller's number, `n` and a namespace's number, loses the
-- number of its namespace.
pub strip_partition_suffix-whole_nvme :
    (controller namespace : Text)
    → all_digits controller ≡ true
    → all_digits namespace ≡ true
    → strip_partition_suffix (codes "nvme" ++ (controller ++ (b'n' ∷ namespace)))
      ≡ codes "nvme" ++ (controller ++ (b'n' ∷ []))
unfolding strip_partition_suffix codes
strip_partition_suffix-whole_nvme controller namespace h e =
    rw (split_last-none b'p' (codes "nvme" ++ (controller ++ (b'n' ∷ namespace))) lacks)
      (trimmed (codes "nvme" ++ controller) b'n' namespace refl e _ refl)
  where
    lacks : Lacks b'p' (codes "nvme" ++ (controller ++ (b'n' ∷ namespace)))
    lacks = (
      refl,
      (
        refl,
        (
          refl,
          (
            refl,
            All-append _ controller (b'n' ∷ namespace) (digits-Lacks controller h)
                (refl, digits-Lacks namespace e),
          ),
        ),
      ),
    )
