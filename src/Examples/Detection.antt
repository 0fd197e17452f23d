-- ===== src/Examples/Detection.antt =====
-- The theorems on devices, directories and snapshots, each on a concrete input.

use secure_file_shredder_and.Base.{
  ℕ, ◌≡◌, ◌||◌, refl, true, false, none, some, [], ◌∷◌, ◌++◌, Text, codes, length, to_lowercase,
}
use secure_file_shredder_and.Io.Error.{config}
use secure_file_shredder_and.Io.Path.{root_dir, display}
use secure_file_shredder_and.Io.Triple.{Triple}
use secure_file_shredder_and.Storage.Device.{detect_storage_for_path, strip_partition_suffix}
use secure_file_shredder_and.Storage.Device.Laws.{IsConsistent, detect_storage_for_path-Triple}
use secure_file_shredder_and.Storage.Device.Partition.{
  strip_partition_suffix-nvme, strip_partition_suffix-whole_nvme,
}
use secure_file_shredder_and.Sanitize.Directory.{shred_directory, walked_files}
use secure_file_shredder_and.Sanitize.Directory.Laws.{Covers, shred_directory-Triple}
use secure_file_shredder_and.Snapshot.{has_risk, markers, is_filled, has_origin, snapshot_report}
use secure_file_shredder_and.Snapshot.Laws.{lists, is_named, snapshot_report-has_risk}
use secure_file_shredder_and.Samples.{system_sample, fills_sample, path_sample, options_sample}

detect_storage_for_path-Triple_example :
    Triple system_sample
      (λ d t. t ≡ [])
      (detect_storage_for_path path_sample)
      (λ info d t. (t ≡ []) × IsConsistent info)
      (λ e d t. ⊥)
detect_storage_for_path-Triple_example = detect_storage_for_path-Triple (λ d t. t ≡ []) path_sample

strip_partition_suffix-nvme_example :
    strip_partition_suffix (codes "nvme" ++ (codes "0n1" ++ (b'p' ∷ codes "2")))
    ≡ codes "nvme" ++ codes "0n1"
unfolding codes
strip_partition_suffix-nvme_example =
    strip_partition_suffix-nvme (codes "0n1") (codes "2") refl refl

strip_partition_suffix-whole_nvme_example :
    strip_partition_suffix (codes "nvme" ++ (codes "0" ++ (b'n' ∷ codes "1")))
    ≡ codes "nvme" ++ (codes "0" ++ (b'n' ∷ []))
unfolding codes
strip_partition_suffix-whole_nvme_example =
    strip_partition_suffix-whole_nvme (codes "0") (codes "1") refl refl

shred_directory-Triple_example :
    Triple system_sample
      (λ d t. Unit)
      (shred_directory (root_dir ∷ []) options_sample (some 4) false true)
      (λ s d t.
        (now : ℕ) × Covers false
          (length (walked_files (system_sample.os.walk now (root_dir ∷ []))))
          s)
      (λ e d t. (text : Text) × (e ≡ config text))
shred_directory-Triple_example =
    shred_directory-Triple fills_sample options_sample false true (root_dir ∷ []) (some 4)
      (λ t files. refl)

snapshot_report-has_risk_example :
    has_risk (
      snapshot_report system_sample.unicode path_sample
        (some (true, codes "ID 5"))
        none
        (some (false, codes "x")))
    ≡ ((lists (is_filled system_sample.unicode) (some (true, codes "ID 5"))
          || (lists (has_origin system_sample.unicode) none
              || lists (is_filled system_sample.unicode) (some (false, codes "x"))))
        || is_named (to_lowercase system_sample.unicode.lowercase (display path_sample)) markers)
snapshot_report-has_risk_example =
    snapshot_report-has_risk system_sample.unicode path_sample (some (true, codes "ID 5")) none
      (some (false, codes "x"))
