-- ===== src/Storage/Device.antt =====
-- storage/device.rs: how the class of the storage behind a path is found.
pub mod Partition
pub mod Laws
use secure_file_shredder_and.Base.{
  ℕ, ◌^◌, Bool, true, false, not, ◌||◌, ◌&&◌, Option, none, some, List, [], ◌∷◌, ◌++◌, Text, codes,
  length, lines, bytes_eq, leb, ltb, ◌==◌, if◌then◌else◌, split_whitespace, starts_with,
  strip_prefix, contains, to_lowercase, trim, parse_unsigned,
}
use secure_file_shredder_and.Io.Error.{SanitizerError}
use secure_file_shredder_and.Io.Path.{FilePath, parse_path, path_starts_with, display}
use secure_file_shredder_and.Io.System.{System}
use secure_file_shredder_and.Io.Action.{Action, pure, ask, try, ◌>>=◌}
use secure_file_shredder_and.Io.Files.{read_to_string}
use secure_file_shredder_and.Storage.Info.{
  StorageKind, hdd, ssd, nvme, usb_removable, network_share, virtual_or_container, cloud_synced,
  unknown, StorageInfo,
}

-- The markers of the synced folders, each with its name.
abbrev pub cloud_markers : List (Text × Text)
cloud_markers =
    (codes "onedrive", codes "Microsoft OneDrive")
    ∷ (codes "dropbox", codes "Dropbox")
    ∷ (codes "google drive", codes "Google Drive")
    ∷ (codes "googledrive", codes "Google Drive")
    ∷ (codes "my drive", codes "Google Drive")
    ∷ (codes "syncthing", codes "Syncthing")
    ∷ (codes "nextcloud", codes "Nextcloud")
    ∷ (codes "owncloud", codes "ownCloud")
    ∷ (codes "icloud drive", codes "iCloud Drive")
    ∷ (codes "icloud", codes "iCloud Drive")
    ∷ []

-- The loop over the markers.
unfoldable pub first_marker : Text → List (Text × Text) → Option Text
first_marker path_str [] = none
first_marker path_str ((marker, label) ∷ rest) =
    let later = first_marker path_str rest in if contains path_str marker then some label else later

unfoldable pub detect_cloud_sync : (Text → Text) → FilePath → Option Text
detect_cloud_sync unicode path = first_marker (to_lowercase unicode (display path)) cloud_markers

abbrev pub is_network_type : Text → Bool
is_network_type t =
    bytes_eq t (codes "nfs")
    || (bytes_eq t (codes "nfs4")
        || (bytes_eq t (codes "cifs")
            || (bytes_eq t (codes "smbfs")
                || (bytes_eq t (codes "smb3") || bytes_eq t (codes "9p")))))

-- The variables of the loop over the mount table.
pub record MountState : Type 0 where
  pub mount_source : Option Text
  pub is_network : Bool
  pub best_match_len : ℕ

abbrev pub no_mount : MountState
no_mount = record { mount_source = none; is_network = false; best_match_len = 0 }

-- One round of the loop, on the fields of a line.
unfoldable pub consider : FilePath → List Text → MountState → MountState
consider canonical (source ∷ mount_point ∷ fstype ∷ rest) s =
    if path_starts_with canonical (parse_path mount_point)
      && leb s.best_match_len (length mount_point)
    then record {
      mount_source = some source;
      is_network = is_network_type fstype;
      best_match_len = length mount_point;
    }
    else s
consider canonical fields s = s

unfoldable pub mount_loop : System → FilePath → MountState → List Text → MountState
unfolding consider
mount_loop sys canonical s [] = s
mount_loop sys canonical s (line ∷ mounts) =
    mount_loop sys canonical
      (consider canonical (split_whitespace sys.unicode.split_whitespace line) s) mounts

-- A result of which only the kind, the device, the network flag and a note differ.
abbrev pub settled : FilePath → StorageKind → Option Text → Bool → Text → StorageInfo
settled canonical kind device_name is_network note = record {
  path = canonical;
  kind = kind;
  device_name = device_name;
  trim_supported = none;
  is_network = is_network;
  is_removable = false;
  notes = note ∷ [];
}

-- What is known before the device is looked up: the result, or the name of the device.
pub data Located : Type 0 where
  found : StorageInfo → Located
  device : Text → Located

synced_note : Text → Text
synced_note cloud = codes "Path appears to reside inside a " ++ (cloud ++ codes " synced folder.")

network_note : Text
network_note =
    codes "Mounted via a network filesystem; local sanitization will not affect the remote copy."

no_device_note : Text
no_device_note = codes "Could not resolve underlying block device from mount table."

mapper_note : Text
mapper_note =
    codes
      "Backed by device-mapper (LVM, LUKS, or a virtual/encrypted container); underlying physical medium may differ."

-- `mount_source.as_deref().and_then(|s| s.strip_prefix("/dev/"))`
abbrev pub dev_name_of : Option Text → Option Text
dev_name_of none = none
dev_name_of (some source) = strip_prefix source (codes "/dev/")

abbrev pub on_device : FilePath → Option Text → Located
unfolding no_device_note mapper_note
on_device canonical none = found (settled canonical unknown none false no_device_note)
on_device canonical (some dev_name) =
    if starts_with dev_name (codes "dm-") || starts_with dev_name (codes "mapper/")
    then found (settled canonical virtual_or_container (some dev_name) false mapper_note)
    else device dev_name

abbrev pub on_local : FilePath → MountState → Located
unfolding network_note
on_local canonical s =
    if s.is_network
    then found (settled canonical network_share s.mount_source true network_note)
    else on_device canonical (dev_name_of s.mount_source)

unfoldable pub locate : FilePath → Option Text → MountState → Located
unfolding synced_note on_device on_local
locate canonical (some cloud) s =
    found (settled canonical cloud_synced s.mount_source false (synced_note cloud))
locate canonical none s = on_local canonical s

-- Before and behind the last occurrence of the character (`rfind`).
abbrev pub split_last : ℕ → Text → Option (Text × Text)
split_last c [] = none
split_last c (d ∷ s) = elim (split_last c s) [
  | some (before, after) ↦ some (d ∷ before, after)
  | none ↦ if d == c then some ([], s) else none
]

abbrev pub is_digit : ℕ → Bool
is_digit c = leb b'0' c && leb c b'9'

abbrev pub all_digits : Text → Bool
all_digits [] = true
all_digits (c ∷ s) = is_digit c && all_digits s

abbrev pub has_no_char : Text → Bool
has_no_char [] = true
has_no_char (c ∷ s) = false

-- `trim_end_matches(|c| c.is_ascii_digit())`
abbrev pub trim_digits : Text → Text
trim_digits [] = []
trim_digits (c ∷ s) =
    let rest = trim_digits s in if is_digit c && has_no_char rest then [] else c ∷ rest

abbrev pub or_whole : Text → Text → Text
or_whole dev [] = dev
or_whole dev (c ∷ trimmed) = c ∷ trimmed

abbrev pub strip_at : Text → Option (Text × Text) → Text
strip_at dev none = or_whole dev (trim_digits dev)
strip_at dev (some (before, after)) =
    if starts_with dev (codes "nvme") && (all_digits after && not (has_no_char after))
    then before
    else or_whole dev (trim_digits dev)

unfoldable pub strip_partition_suffix : Text → Text
strip_partition_suffix dev = strip_at dev (split_last b'p' dev)

abbrev pub number_in : System → ℕ → Option Text → Option ℕ
number_in sys limit none = none
number_in sys limit (some text) = parse_unsigned limit (trim sys.unicode.trim text)

-- `fs::read_to_string(path).ok().and_then(|s| s.trim().parse().ok())`
unfoldable pub read_number : ℕ → Text → Action SanitizerError (Option ℕ)
read_number limit path = do
  text ← try {F = SanitizerError} (read_to_string (parse_path path))
  ask (λ sys t. number_in sys limit text)

-- `.map(|v| v == 1).unwrap_or(false)`
abbrev pub is_one : Option ℕ → Bool
is_one none = false
is_one (some v) = v == 1

abbrev pub is_positive : Option ℕ → Option Bool
is_positive none = none
is_positive (some g) = some (ltb 0 g)

abbrev pub by_rotation : Option ℕ → StorageKind
by_rotation none = unknown
by_rotation (some v) = if v == 1 then hdd else if v == 0 then ssd else unknown

unfoldable pub classify : Bool → Bool → Option ℕ → StorageKind
classify removable is_nvme rotational =
    if removable then usb_removable else if is_nvme then nvme else by_rotation rotational

wear_note : Text
wear_note =
    codes
      "Non-rotational storage: wear-leveling and the flash translation layer mean overwritten logical blocks may not map to the same physical NAND cells; overwrite-only sanitization cannot be guaranteed. Prefer crypto-erase or ATA/NVMe Secure Erase / Sanitize commands where available."

trim_note : Text
trim_note = codes "Device advertises TRIM/discard support."

abbrev pub trim_notes : Option Bool → List Text
unfolding trim_note
trim_notes (some true) = trim_note ∷ []
trim_notes _ = []

unfoldable pub flash_notes : StorageKind → Option Bool → List Text
unfolding wear_note trim_notes
flash_notes ssd trim_supported = wear_note ∷ trim_notes trim_supported
flash_notes nvme trim_supported = wear_note ∷ trim_notes trim_supported
flash_notes _ trim_supported = []

unfoldable pub device_info : FilePath → Text → Option ℕ → Option ℕ → Option ℕ → StorageInfo
device_info canonical base_dev rotational removable discard_granularity =
    let removable = is_one removable in
    let trim_supported = is_positive discard_granularity in
    let kind = classify removable (starts_with base_dev (codes "nvme")) rotational in
    record {
      path = canonical;
      kind = kind;
      device_name = some base_dev;
      trim_supported = trim_supported;
      is_network = false;
      is_removable = removable;
      notes = flash_notes kind trim_supported;
    }

-- What the files below /sys/block say of the device.
unfoldable pub probe : FilePath → Located → Action SanitizerError StorageInfo
probe canonical (found info) = pure info
probe canonical (device dev_name) = do
  let base_dev = strip_partition_suffix dev_name
  let sys_block = codes "/sys/block/" ++ base_dev
  rotational ← read_number (2 ^ 8) (sys_block ++ codes "/queue/rotational")
  removable ← read_number (2 ^ 8) (sys_block ++ codes "/removable")
  granularity ← read_number (2 ^ 64) (sys_block ++ codes "/queue/discard_granularity")
  pure (device_info canonical base_dev rotational removable granularity)

abbrev pub or_empty : Option Text → Text
or_empty (some text) = text
or_empty none = []

abbrev pub or_path : FilePath → Option FilePath → FilePath
or_path path (some canonical) = canonical
or_path path none = path

-- `linux::detect`
unfoldable pub detect_storage_for_path : FilePath → Action SanitizerError StorageInfo
detect_storage_for_path path = do
  resolved ← ask (λ sys t. sys.os.canonicalize t path)
  let canonical = or_path path resolved
  mounts ← try {F = SanitizerError} (read_to_string (parse_path (codes "/proc/mounts")))
  located ← ask (λ sys t.
      locate canonical (detect_cloud_sync sys.unicode.lowercase canonical)
        (mount_loop sys canonical no_mount (lines (or_empty mounts))))
  probe canonical located

unc_note : Text
unc_note = codes "UNC network path; local sanitization will not affect the remote copy."

ioctl_note : Text
ioctl_note =
    codes
      "Definitive HDD/SSD/NVMe classification on Windows requires IOCTL_STORAGE_QUERY_PROPERTY via the platform layer; run with elevated privileges for full detection."

abbrev pub on_windows : FilePath → Option Text → StorageInfo
unfolding synced_note unc_note ioctl_note
on_windows canonical (some cloud) = settled canonical cloud_synced none false (synced_note cloud)
on_windows canonical none =
    if starts_with (display canonical) (92 ∷ 92 ∷ [])
    then settled canonical network_share none true unc_note
    else settled canonical unknown none false ioctl_note

-- `windows::detect`
unfoldable pub detect_storage_windows : FilePath → Action SanitizerError StorageInfo
unfolding on_windows
detect_storage_windows path = do
  resolved ← ask (λ sys t. sys.os.canonicalize t path)
  let canonical = or_path path resolved
  ask (λ sys t. on_windows canonical (detect_cloud_sync sys.unicode.lowercase canonical))
