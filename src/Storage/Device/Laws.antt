-- ===== src/Storage/Device/Laws.antt =====
-- The result of the detection of the storage class.
use secure_file_shredder_and.Base.{
  ℕ, ◌≡◌, ◌≢◌, ◌↔◌, ◌⊎◌, inl, inr, refl, Bool, true, false, Option, none, some, [], Text, codes,
  arith, Bool-cases, starts_with, ◌==◌, ◌||◌,
}
use secure_file_shredder_and.Io.Error.{SanitizerError}
use secure_file_shredder_and.Io.Path.{FilePath}
use secure_file_shredder_and.Io.System.{System}
use secure_file_shredder_and.Io.Action.{Node, file, dir, World, try}
use secure_file_shredder_and.Io.Files.{read_to_string, contents, decoded}
use secure_file_shredder_and.Io.Triple.{
  Assertion, Post, Triple, Triple-pure, Triple-ask, Triple-bind, Triple-given, Triple-pre,
  Triple-try, Triple-syscall,
}
use secure_file_shredder_and.Storage.Info.{
  StorageKind, hdd, ssd, nvme, usb_removable, network_share, unknown, StorageInfo,
  overwrite_is_reliable, reliable_kind,
}
use secure_file_shredder_and.Storage.Device.{
  MountState, Located, found, device, locate, on_device, on_local, dev_name_of, classify,
  by_rotation, flash_notes, device_info, is_one, is_positive, read_number, probe,
  detect_storage_for_path, settled,
}

-- How the parts of the result belong together.
pub record IsConsistent (info : StorageInfo) : Type 0 where
  pub network : (info.kind ≡ network_share) ↔ (info.is_network ≡ true)
  pub removable : (info.kind ≡ usb_removable) ↔ (info.is_removable ≡ true)
  -- whoever is told that overwriting is not reliable is told why, unless the kind is not known
  pub explained : info.notes ≡ [] → (overwrite_is_reliable info ≡ true) ⊎ (info.kind ≡ unknown)

settled-IsConsistent :
    (canonical : FilePath) (kind : StorageKind) (name : Option Text) (net : Bool) (note : Text)
    → (kind ≡ network_share) ↔ (net ≡ true)
    → kind ≢ usb_removable
    → IsConsistent (settled canonical kind name net note)
settled-IsConsistent canonical kind name net note h k = record {
  network = h;
  removable = (λ e. absurd (k e), λ e. cc);
  explained = λ e. cc;
}

-- Of what is found before the device is looked up.
abbrev Settles : Located → Type 0
Settles (found info) = IsConsistent info
Settles (device name) = Unit

on_device-Settles : (canonical : FilePath) (o : Option Text) → Settles (on_device canonical o)
unfolding on_device
on_device-Settles canonical none = settled-IsConsistent _ _ _ _ _ (λ e. cc, λ e. cc) (λ e. cc)
on_device-Settles canonical (some name) =
    elim (Bool-cases (starts_with name (codes "dm-") || starts_with name (codes "mapper/"))) [
      | inl e ↦ rw e (settled-IsConsistent _ _ _ _ _ (λ e. cc, λ e. cc) (λ e. cc))
      | inr e ↦ rw e tt
    ]

on_local-Settles : (canonical : FilePath) (s : MountState) → Settles (on_local canonical s)
unfolding on_local
on_local-Settles canonical s = elim (Bool-cases s.is_network) [
  | inl e ↦ rw e (settled-IsConsistent _ _ _ _ _ (λ e. refl, λ e. refl) (λ e. cc))
  | inr e ↦ rw e (on_device-Settles canonical (dev_name_of s.mount_source))
]

locate-Settles :
    (canonical : FilePath) (cloud : Option Text) (s : MountState)
    → Settles (locate canonical cloud s)
unfolding locate
locate-Settles canonical (some cloud) s =
    settled-IsConsistent _ _ _ _ _ (λ e. cc, λ e. cc) (λ e. cc)
locate-Settles canonical none s = on_local-Settles canonical s

-- The result for a device, of each kind that `classify` gives.
abbrev of_kind : FilePath → Text → Option Bool → Bool → StorageKind → StorageInfo
of_kind canonical base trim_supported removable kind = record {
  path = canonical;
  kind = kind;
  device_name = some base;
  trim_supported = trim_supported;
  is_network = false;
  is_removable = removable;
  notes = flash_notes kind trim_supported;
}

module _ (canonical : FilePath) (base : Text) (t : Option Bool) where
  fixed-IsConsistent :
      (kind : StorageKind)
      → kind ≢ usb_removable
      → kind ≢ network_share
      → (flash_notes kind t ≡ [] → (reliable_kind kind ≡ true) ⊎ (kind ≡ unknown))
      → IsConsistent (of_kind canonical base t false kind)
  unfolding overwrite_is_reliable
  fixed-IsConsistent kind u n h = record {
    network = (λ e. absurd (n e), λ e. cc);
    removable = (λ e. absurd (u e), λ e. cc);
    explained = h;
  }

  rotation-IsConsistent :
      (o : Option ℕ) → IsConsistent (of_kind canonical base t false (by_rotation o))
  unfolding flash_notes
  rotation-IsConsistent none = fixed-IsConsistent unknown (λ e. cc) (λ e. cc) (λ e. inr refl)
  rotation-IsConsistent (some v) = elim (Bool-cases (v == 1)) [
    | inl e ↦ rw e (fixed-IsConsistent hdd (λ e. cc) (λ e. cc) (λ e. inl refl))
    | inr e ↦ elim (Bool-cases (v == 0)) [
      | inl z ↦ rw (e, z) (fixed-IsConsistent ssd (λ e. cc) (λ e. cc) (λ e. absurd (cc)))
      | inr z ↦ rw (e, z) (fixed-IsConsistent unknown (λ e. cc) (λ e. cc) (λ e. inr refl))
    ]
  ]

  classify-IsConsistent :
      (removable is_nvme : Bool) (o : Option ℕ)
      → IsConsistent (of_kind canonical base t removable (classify removable is_nvme o))
  unfolding classify overwrite_is_reliable flash_notes
  classify-IsConsistent true is_nvme o = record {
    network = (λ e. cc, λ e. cc);
    removable = (λ e. refl, λ e. refl);
    explained = λ e. inl refl;
  }
  classify-IsConsistent false true o =
      fixed-IsConsistent nvme (λ e. cc) (λ e. cc) (λ e. absurd (cc))
  classify-IsConsistent false false o = rotation-IsConsistent o

device_info-IsConsistent :
    (canonical : FilePath) (base : Text) (rotational removable granularity : Option ℕ)
    → IsConsistent (device_info canonical base rotational removable granularity)
unfolding device_info
device_info-IsConsistent canonical base rotational removable granularity =
    classify-IsConsistent canonical base (is_positive granularity) (is_one removable)
      (starts_with base (codes "nvme")) rotational

module _ {sys : System} {P : Assertion} where
  -- A file that is read as a text, whatever comes of it.
  try_read-Triple :
      {R : SanitizerError → Assertion} (p : FilePath)
      → Triple sys P (try (read_to_string p)) (λ o. P) R
  unfolding read_to_string contents
  try_read-Triple p = Triple-try (Triple-syscall _ (λ w h. step w h (w.disk p)) (λ e d t h. h))
    where
      step :
          (w : World)
          → P w.disk w.trace
          → (o : Option Node) → Post (λ a. P) (λ e. P) (decoded (contents o), w)
      step w h none = h
      step w h (some dir) = h
      step w h (some (file b)) = ground arith

  read_number-Triple :
      {R : SanitizerError → Assertion} (limit : ℕ) (path : Text)
      → Triple sys P (read_number limit path) (λ o. P) R
  unfolding read_number
  read_number-Triple limit path =
      Triple-bind {S = λ o. P} (try_read-Triple _) λ text. Triple-ask _ (λ n d t h. h)

  probe-Triple :
      {R : SanitizerError → Assertion} (canonical : FilePath) (l : Located)
      → Settles l
      → Triple sys P (probe canonical l) (λ info d t. P d t × IsConsistent info) R
  unfolding probe
  probe-Triple canonical (found info) c = Triple-pure info (λ d t h. (h, c))
  probe-Triple canonical (device name) c =
      Triple-bind {S = λ o. P} (read_number-Triple _ _) λ rotational.
        Triple-bind {S = λ o. P} (read_number-Triple _ _) λ removable.
          Triple-bind {S = λ o. P} (read_number-Triple _ _)
            λ granularity. Triple-pure _ (λ d t h. (h, device_info-IsConsistent _ _ _ _ _))

-- Whatever the system answers, the detection ends with a result and no error, changes neither the
-- disk nor the trace, and its result is consistent: the network flag is set exactly for a network
-- share and the removable flag exactly for removable media, and without a note the kind is one that
-- overwriting is reliable on or is not known.
pub detect_storage_for_path-Triple :
    {sys : System} (P : Assertion) (path : FilePath)
    → Triple sys P
        (detect_storage_for_path path)
        (λ info d t. P d t × IsConsistent info)
        (λ e d t. ⊥)
unfolding detect_storage_for_path
detect_storage_for_path-Triple P path =
    Triple-bind {S = λ o. P} (Triple-ask _ (λ n d t h. h)) λ resolved.
      Triple-bind {S = λ o. P} (try_read-Triple _) λ mounts.
        Triple-bind {S = λ l d t. P d t × Settles l}
          (Triple-ask _ (λ n d t h. (h, locate-Settles _ _ _)))
          λ l. Triple-given λ d t h. Triple-pre (probe-Triple _ l h.1) (λ d t h. h.0)
