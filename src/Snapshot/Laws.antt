-- ===== src/Snapshot/Laws.antt =====
-- When snapshot/mod.rs reports a risk on Linux.
use secure_file_shredder_and.Base.{
  ℕ, ◌≡◌, refl, Bool, true, false, not, ◌||◌, none, some, List, [], ◌∷◌, ◌++◌, Text, contains,
  to_lowercase, lines, ltb, arith, if◌then◌else◌,
}
use secure_file_shredder_and.Io.Path.{FilePath, display}
use secure_file_shredder_and.Io.System.{Unicode}
use secure_file_shredder_and.Verify.{is_empty}
use secure_file_shredder_and.Snapshot.{
  SnapshotFinding, has_risk, markers, marked, generic_backup_dir_scan, count_if, Answer, scan_lines,
  is_filled, has_origin, btrfs_finding, lvm_finding, zfs_finding, scan_btrfs, scan_lvm, scan_zfs,
  linux_scan, snapshot_report,
}

abbrev pub any : (Text → Bool) → List Text → Bool
any test [] = false
any test (line ∷ rest) = test line || any test rest

-- The program has succeeded, and a line of its output is as said.
abbrev pub lists : (Text → Bool) → Answer → Bool
lists test (some (true, stdout)) = any test (lines stdout)
lists test _ = false

-- A marker of a backup tool stands in the path, in lower case.
abbrev pub is_named : Text → List (Text × Text) → Bool
is_named path [] = false
is_named path ((marker, desc) ∷ rest) = contains path marker || is_named path rest

filled_if : (b : Bool) (x : SnapshotFinding) → not (is_empty (if b then x ∷ [] else [])) ≡ b
filled_if true x = refl
filled_if false x = refl

count_if-any : (test : Text → Bool) (ls : List Text) → ltb 0 (count_if test ls) ≡ any test ls
unfolding count_if
count_if-any test [] = ground arith
count_if-any test (line ∷ rest) = ground (arith, count_if-any test rest)

scan_lines-lists :
    (test : Text → Bool) (finding : ℕ → SnapshotFinding) (answer : Answer)
    → not (is_empty (scan_lines test finding answer)) ≡ lists test answer
unfolding scan_lines
scan_lines-lists test finding none = refl
scan_lines-lists test finding (some (false, stdout)) = refl
scan_lines-lists test finding (some (true, stdout)) =
    rw (count_if-any test (lines stdout)) (filled_if _ _)

marked-is_named :
    (path : Text) (ms : List (Text × Text)) → not (is_empty (marked path ms)) ≡ is_named path ms
unfolding marked
marked-is_named path [] = refl
marked-is_named path ((marker, desc) ∷ rest) = ground (arith, marked-is_named path rest)

is_empty-append :
    (xs ys : List SnapshotFinding)
    → not (is_empty (xs ++ ys)) ≡ not (is_empty xs) || not (is_empty ys)
is_empty-append [] ys = refl
is_empty-append (x ∷ xs) ys = refl

-- Whatever the programs say, the scan on Linux reports a risk exactly if `btrfs` or `zfs` succeeds and writes
-- a line that is not blank, `lvs` succeeds and writes a line of two words, or the path has a
-- backup tool's marker.
pub snapshot_report-has_risk :
    (unicode : Unicode) (path : FilePath) (btrfs lvs zfs : Answer)
    → has_risk (snapshot_report unicode path btrfs lvs zfs) ≡ (
        (lists (is_filled unicode) btrfs
          || (lists (has_origin unicode) lvs || lists (is_filled unicode) zfs))
        || is_named (to_lowercase unicode.lowercase (display path)) markers)
unfolding has_risk snapshot_report linux_scan scan_btrfs scan_lvm scan_zfs generic_backup_dir_scan
snapshot_report-has_risk unicode path btrfs lvs zfs =
    rw
      (
        is_empty-append (linux_scan unicode btrfs lvs zfs)
            (generic_backup_dir_scan unicode.lowercase path),
        is_empty-append (scan_btrfs unicode btrfs) (scan_lvm unicode lvs ++ scan_zfs unicode zfs),
        is_empty-append (scan_lvm unicode lvs) (scan_zfs unicode zfs),
        scan_lines-lists (is_filled unicode) btrfs_finding btrfs,
        scan_lines-lists (has_origin unicode) lvm_finding lvs,
        scan_lines-lists (is_filled unicode) zfs_finding zfs,
        marked-is_named (to_lowercase unicode.lowercase (display path)) markers,
      )
      refl
