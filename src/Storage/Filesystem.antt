-- ===== src/Storage/Filesystem.antt =====
-- storage/filesystem.rs: the kinds of file system, what is known of each, and how the one that holds
-- a path is found on Linux.
pub mod Mounts
use secure_file_shredder_and.Base.{
  ℕ, ◌≡◌, Bool, true, false, ◌||◌, ◌&&◌, not, Option, none, some, List, [], ◌∷◌, ◌++◌, Text, codes,
  length, lines, bytes_eq, leb, if◌then◌else◌, split_whitespace,
}
use secure_file_shredder_and.Io.Path.{FilePath, parse_path, path_starts_with}
use secure_file_shredder_and.Io.Error.{SanitizerError}
use secure_file_shredder_and.Io.System.{System}
use secure_file_shredder_and.Io.Action.{Action, pure, ask, try, ◌>>=◌}
use secure_file_shredder_and.Io.Files.{read_to_string}

pub data FilesystemKind : Type 0 where
  ntfs refs fat32 exfat ext4 xfs btrfs zfs f2fs apfs tmpfs overlay unknown : FilesystemKind

pub record FilesystemInfo : Type 0 where
  pub path : FilePath
  pub kind : FilesystemKind
  pub is_journaling : Bool
  pub is_copy_on_write : Bool
  pub supports_dedup : Bool
  pub supports_compression : Bool
  pub supports_snapshots : Bool
  pub notes : List Text

-- What `for_kind` knows: journaling, copy on write, deduplication, compression, snapshots, note.
abbrev pub traits : FilesystemKind → Bool × Bool × Bool × Bool × Bool × Text
traits ntfs = (
  true,
  false,
  false,
  true,
  true,
  codes
      "NTFS journal ($LogFile) and Volume Shadow Copy Service may retain recoverable data outside the target file's allocated clusters.",
)
traits refs = (
  true,
  true,
  true,
  false,
  true,
  codes
      "ReFS is copy-on-write with block cloning/dedup; overwriting a file's logical content may not overwrite the original physical blocks.",
)
traits fat32 = (
  false,
  false,
  false,
  false,
  false,
  codes
      "No journaling or COW; direct overwrite is comparatively reliable on the underlying medium, subject to storage-class caveats.",
)
traits exfat = (
  false,
  false,
  false,
  false,
  false,
  codes
      "No journaling or COW; direct overwrite is comparatively reliable on the underlying medium, subject to storage-class caveats.",
)
traits ext4 = (
  true,
  false,
  false,
  false,
  false,
  codes
      "ext4 journal (data=ordered/journal mode) may retain copies of recently written metadata or, in data-journaling mode, file content.",
)
traits xfs = (
  true,
  false,
  false,
  false,
  false,
  codes
      "XFS metadata journal may retain metadata remnants; data blocks are generally overwritten in place.",
)
traits btrfs = (
  false,
  true,
  true,
  true,
  true,
  codes
      "Btrfs is copy-on-write with native snapshot support; deleting/overwriting a file does not affect blocks retained by existing snapshots.",
)
traits zfs = (
  true,
  true,
  true,
  true,
  true,
  codes
      "ZFS is copy-on-write with snapshots, dedup, and compression; overwritten data may remain accessible via existing snapshots or the dedup table.",
)
traits f2fs = (
  true,
  true,
  false,
  true,
  false,
  codes
      "F2FS is a log-structured, flash-friendly filesystem with its own wear-leveling; overwrite semantics resemble SSD/NVMe caveats.",
)
traits apfs = (
  true,
  true,
  false,
  true,
  true,
  codes
      "APFS is copy-on-write with native snapshots; overwritten data may persist in snapshot-retained blocks.",
)
traits tmpfs = (
  false,
  false,
  false,
  false,
  false,
  codes
      "tmpfs is RAM-backed; data does not persist to physical storage but may be swapped to disk under memory pressure.",
)
traits overlay = (
  false,
  true,
  false,
  false,
  false,
  codes
      "OverlayFS (common in containers); the lower read-only layer is not modified by writes to the upper layer, so overwrite may not reach original data.",
)
traits unknown = (
  false,
  false,
  false,
  false,
  false,
  codes
      "Filesystem type could not be determined; sanitization strategy defaults to conservative multi-pass overwrite plus verification.",
)

recommendation : Text
recommendation =
    codes
      "Recommendation: use crypto-erase or verify no snapshots/COW references remain before relying on overwrite alone."

-- `FilesystemInfo::for_kind`
unfoldable pub for_kind : FilePath → FilesystemKind → FilesystemInfo
unfolding recommendation
for_kind path kind =
    let (journaling, cow, dedup, compression, snapshots, note) = traits kind in
    record {
      path = path;
      kind = kind;
      is_journaling = journaling;
      is_copy_on_write = cow;
      supports_dedup = dedup;
      supports_compression = compression;
      supports_snapshots = snapshots;
      notes = note ∷ (if cow || snapshots then recommendation ∷ [] else []);
    }

-- `fields[1]` and `fields[2]` of a line of /proc/mounts with three fields or more.
abbrev pub fields_of : List Text → Option (Text × Text)
fields_of (source ∷ mount_point ∷ fstype ∷ rest) = some (fstype, mount_point)
fields_of _ = none

abbrev pub on_mount : FilePath → Option (Text × Text) → Option (Text × Text)
on_mount canonical none = none
on_mount canonical (some (fstype, mount_point)) =
    if path_starts_with canonical (parse_path mount_point) then some (fstype, mount_point) else none

-- The file system that a line mounts, with its mount point, if that holds the path.
unfoldable pub candidate : System → FilePath → Text → Option (Text × Text)
candidate sys canonical line =
    on_mount canonical (fields_of (split_whitespace sys.unicode.split_whitespace line))

-- One round of the loop over the mounts: the best so far and its length.
abbrev pub better : Option (Text × Text) → Option (Text × Text) × ℕ → Option (Text × Text) × ℕ
better none state = state
better (some (fstype, mount_point)) (best, best_len) =
    if leb best_len (length mount_point)
    then (some (fstype, mount_point), length mount_point)
    else (best, best_len)

unfoldable pub best_mount :
    System → FilePath → Option (Text × Text) × ℕ → List Text → Option (Text × Text)
best_mount sys canonical (best, best_len) [] = best
best_mount sys canonical state (line ∷ mounts) =
    best_mount sys canonical (better (candidate sys canonical line) state) mounts

-- The `match` on the type that the mount table names.
unfoldable pub kind_of_type : Text → FilesystemKind
kind_of_type t =
    if bytes_eq t (codes "ext4") || (bytes_eq t (codes "ext3") || bytes_eq t (codes "ext2"))
    then ext4
    else if bytes_eq t (codes "xfs")
    then xfs
    else if bytes_eq t (codes "btrfs")
    then btrfs
    else if bytes_eq t (codes "zfs")
    then zfs
    else if bytes_eq t (codes "f2fs")
    then f2fs
    else if bytes_eq t (codes "ntfs")
        || (bytes_eq t (codes "ntfs3") || bytes_eq t (codes "fuseblk"))
    then ntfs
    else if bytes_eq t (codes "vfat") || (bytes_eq t (codes "fat32") || bytes_eq t (codes "msdos"))
    then fat32
    else if bytes_eq t (codes "exfat")
    then exfat
    else if bytes_eq t (codes "tmpfs")
    then tmpfs
    else if bytes_eq t (codes "overlay")
    then overlay
    else unknown

abbrev kind_of_mount : Option (Text × Text) → FilesystemKind
kind_of_mount none = unknown
kind_of_mount (some (fstype, mount_point)) = kind_of_type fstype

abbrev or_empty : Option Text → Text
or_empty (some text) = text
or_empty none = []

abbrev or_path : FilePath → Option FilePath → FilePath
or_path path (some canonical) = canonical
or_path path none = path

-- `linux::detect`
unfoldable pub detect : FilePath → Action SanitizerError FilesystemInfo
detect path = do
  found ← ask (λ sys t. sys.os.canonicalize t path)
  let canonical = or_path path found
  mounts ← try {F = SanitizerError} (read_to_string (parse_path (codes "/proc/mounts")))
  ask (λ sys t.
      for_kind canonical
        (kind_of_mount (best_mount sys canonical (none, 0) (lines (or_empty mounts)))))

-- `windows::detect`
unfoldable pub detect_windows : FilePath → Action SanitizerError FilesystemInfo
detect_windows path = do
  found ← ask (λ sys t. sys.os.canonicalize t path)
  let info = for_kind (or_path path found) ntfs
  pure (record info {
    notes =
        info.notes
        ++ (codes
              "Assumed NTFS; call GetVolumeInformationW via the platform layer for definitive detection (NTFS/ReFS/FAT32/exFAT)."
            ∷ []);
  })
