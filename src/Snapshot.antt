-- ===== src/Snapshot.antt =====
-- snapshot/mod.rs: what may keep copies of a file. The programs that list snapshots are the system's.
pub mod Laws
use secure_file_shredder_and.Base.{
  ℕ, zero, suc, ◌+◌, ◌-◌, Bool, true, false, not, Option, none, some, List, [], ◌∷◌, ◌++◌, Text,
  codes, length, decimal, contains, starts_with, to_lowercase, lines, is_blank, split_whitespace,
  ltb, if◌then◌else◌,
}
use secure_file_shredder_and.Io.Path.{FilePath, display}
use secure_file_shredder_and.Io.Error.{SanitizerError}
use secure_file_shredder_and.Io.System.{System, Unicode}
use secure_file_shredder_and.Io.Action.{Action, pure, ask, ◌>>=◌}
use secure_file_shredder_and.Verify.{is_empty}

pub record SnapshotFinding : Type 0 where
  pub mechanism : Text
  pub description : Text
  pub remediation : Text

pub record SnapshotScanReport : Type 0 where
  pub findings : List SnapshotFinding

unfoldable pub has_risk : SnapshotScanReport → Bool
has_risk scan = not (is_empty scan.findings)

-- The markers of backup tools, each with what it tells.
abbrev pub markers : List (Text × Text)
markers =
    (codes ".git", codes "Git repository history may retain committed versions of the file.")
    ∷ (codes "time machine", codes "Apple Time Machine backup target may retain historical copies.")
    ∷ (codes "backuppc", codes "BackupPC repository may retain historical copies.")
    ∷ (codes "borgbackup", codes "Borg backup repository may retain historical copies.")
    ∷ (codes ".restic", codes "Restic backup repository may retain historical copies.")
    ∷ (codes "veeam", codes "Veeam backup repository may retain historical copies.")
    ∷ []

backup_finding : Text → Text → SnapshotFinding
backup_finding marker desc = record {
  mechanism = marker;
  description = desc;
  remediation =
      codes
        "Locate and separately purge the backup repository's retained copies, subject to its own retention/immutability policy.";
}

-- The loop over the markers.
unfoldable pub marked : Text → List (Text × Text) → List SnapshotFinding
unfolding backup_finding
marked path_str [] = []
marked path_str ((marker, desc) ∷ rest) =
    let found = marked path_str rest in
    if contains path_str marker then backup_finding marker desc ∷ found else found

unfoldable pub generic_backup_dir_scan : (Text → Text) → FilePath → List SnapshotFinding
generic_backup_dir_scan unicode path = marked (to_lowercase unicode (display path)) markers

-- `iter.filter(..).count()`
unfoldable pub count_if : (Text → Bool) → List Text → ℕ
count_if test [] = 0
count_if test (line ∷ rest) =
    let counted = count_if test rest in if test line then counted + 1 else counted

-- What a program says: whether it succeeded, and its output as a text; `none` if it cannot run.
abbrev pub Answer : Type 0
Answer = Option (Bool × Text)

-- One finding for as many snapshots, if there are any.
abbrev found : (ℕ → SnapshotFinding) → ℕ → List SnapshotFinding
found finding count = if ltb 0 count then finding count ∷ [] else []

-- The `match` on the output of a program whose lines are counted.
unfoldable pub scan_lines : (Text → Bool) → (ℕ → SnapshotFinding) → Answer → List SnapshotFinding
scan_lines test finding (some (true, stdout)) = found finding (count_if test (lines stdout))
scan_lines test finding _ = []

abbrev pub btrfs_finding : ℕ → SnapshotFinding
btrfs_finding count = record {
  mechanism = codes "Btrfs snapshot";
  description =
      decimal count
      ++ codes
          " Btrfs snapshot(s) detected on this filesystem; deleted/overwritten files may remain accessible via a snapshot taken before sanitization.";
  remediation =
      codes
        "Identify and delete relevant snapshots with `btrfs subvolume delete`, respecting any retention requirements, then re-run verification.";
}

abbrev pub lvm_finding : ℕ → SnapshotFinding
lvm_finding count = record {
  mechanism = codes "LVM snapshot";
  description =
      decimal count
      ++ codes
          " LVM snapshot volume(s) detected on this system; they may retain pre-sanitization data blocks.";
  remediation =
      codes
        "Review `lvs` output and remove stale snapshots with `lvremove` once no longer needed for recovery purposes.";
}

abbrev pub zfs_finding : ℕ → SnapshotFinding
zfs_finding count = record {
  mechanism = codes "ZFS snapshot";
  description =
      decimal count
      ++ codes
          " ZFS snapshot(s) detected; sanitized data may remain accessible via `zfs rollback` or snapshot mounts.";
  remediation =
      codes
        "Destroy relevant snapshots with `zfs destroy pool/dataset@snapshot` once retention policy allows.";
}

-- `!l.trim().is_empty()`
abbrev pub is_filled : Unicode → Text → Bool
is_filled unicode line = not (is_blank unicode.is_blank line)

abbrev has_second : List Text → Bool
has_second (first ∷ (second ∷ rest)) = true
has_second _ = false

-- `l.split_whitespace().nth(1).is_some()`
abbrev pub has_origin : Unicode → Text → Bool
has_origin unicode line = has_second (split_whitespace unicode.split_whitespace line)

unfoldable pub scan_btrfs : Unicode → Answer → List SnapshotFinding
unfolding scan_lines
scan_btrfs unicode = scan_lines (is_filled unicode) btrfs_finding

unfoldable pub scan_lvm : Unicode → Answer → List SnapshotFinding
unfolding scan_lines
scan_lvm unicode = scan_lines (has_origin unicode) lvm_finding

unfoldable pub scan_zfs : Unicode → Answer → List SnapshotFinding
unfolding scan_lines
scan_zfs unicode = scan_lines (is_filled unicode) zfs_finding

-- `linux::scan` on the answers of `btrfs`, `lvs` and `zfs`.
unfoldable pub linux_scan : Unicode → Answer → Answer → Answer → List SnapshotFinding
linux_scan unicode btrfs lvs zfs =
    scan_btrfs unicode btrfs ++ (scan_lvm unicode lvs ++ scan_zfs unicode zfs)

-- `matches(..).count()`: a match is skipped before the next is looked for.
unfoldable pub count_matches : Text → ℕ → Text → ℕ
count_matches needle skip [] = 0
count_matches needle (suc skip) (c ∷ s) = count_matches needle skip s
count_matches needle zero (c ∷ s) =
    let next = count_matches needle 0 s in
    let behind = count_matches needle (length needle - 1) s in
    if starts_with (c ∷ s) needle then behind + 1 else next

vss_finding : ℕ → SnapshotFinding
vss_finding count = record {
  mechanism = codes "Volume Shadow Copy (VSS)";
  description =
      decimal count
      ++ codes
          " Volume Shadow Copy snapshot(s) detected; File History and System Restore may also depend on these, and they can retain pre-sanitization file versions.";
  remediation =
      codes
        "Review and delete relevant shadow copies with `vssadmin delete shadows` (administrative privileges required), respecting System Restore needs.";
}

history_finding : SnapshotFinding
history_finding = record {
  mechanism = codes "Windows File History / System Restore";
  description =
      codes
        "If File History or System Restore is enabled on this volume, historical file versions may be retained independently of the live filesystem.";
  remediation =
      codes
        "Check File History settings and System Protection configuration; disable or purge history for the relevant drive if full sanitization is required.";
}

abbrev shadows : Answer → List SnapshotFinding
unfolding vss_finding
shadows (some (status, stdout)) =
    found vss_finding (count_matches (codes "Shadow Copy ID") 0 stdout)
shadows none = []

-- `windows::scan` on the answer of `vssadmin`.
unfoldable pub windows_scan : Answer → List SnapshotFinding
unfolding history_finding shadows
windows_scan vssadmin = shadows vssadmin ++ (history_finding ∷ [])

-- `scan_for_snapshots` on the answers of the programs.
unfoldable pub snapshot_report : Unicode → FilePath → Answer → Answer → Answer → SnapshotScanReport
snapshot_report unicode path btrfs lvs zfs = record {
  findings = linux_scan unicode btrfs lvs zfs ++ generic_backup_dir_scan unicode.lowercase path;
}

-- `scan_for_snapshots` on Linux.
unfoldable pub scan_for_snapshots : FilePath → Action SanitizerError SnapshotScanReport
scan_for_snapshots path = do
  btrfs ← ask (λ sys t.
      sys.os.run t (codes "btrfs")
        (codes "subvolume" ∷ (codes "list" ∷ (codes "-s" ∷ (display path ∷ [])))))
  lvs ← ask (λ sys t.
      sys.os.run t (codes "lvs")
        (codes "--noheadings" ∷ (codes "-o" ∷ (codes "lv_name,origin" ∷ []))))
  zfs ← ask (λ sys t.
      sys.os.run t (codes "zfs")
        (codes "list" ∷ (codes "-t" ∷ (codes "snapshot" ∷ (codes "-H" ∷ [])))))
  ask (λ sys t. snapshot_report sys.unicode path btrfs lvs zfs)
