-- ===== src/Examples/Shredding.antt =====
-- The shredding of /tmp/a by a system that refuses nothing.
use secure_file_shredder_and.Base.{◌≡◌, ◌≢◌, refl, true, false, some, [], ◌∷◌, Text, codes}
use secure_file_shredder_and.Io.Path.{FilePath, root_dir, normal, parent, join}
use secure_file_shredder_and.Io.Action.{dir}
use secure_file_shredder_and.Io.Triple.{Triple}
use secure_file_shredder_and.Io.Files.Laws.{synced_contents}
use secure_file_shredder_and.Io.Quiet.{IsQuiet}
use secure_file_shredder_and.Sanitize.Metadata.Success.{IsFree}
use secure_file_shredder_and.Sanitize.Engine.{shred_file}
use secure_file_shredder_and.Sanitize.Engine.Shred.{Shredded, job_of}
use secure_file_shredder_and.Sanitize.Engine.Success.{shred_file-Shredded}
use secure_file_shredder_and.Samples.{
  system_sample, fills_sample, path_sample, content_sample, disk_sample, options_sample,
  storage_sample,
}

abbrev tmp_sample : FilePath
tmp_sample = normal (codes "tmp") ∷ root_dir ∷ []

system_sample-IsQuiet : IsQuiet system_sample
system_sample-IsQuiet = record {
  no_fault = λ t. refl;
  not_cancelled = λ t. refl;
  random_ready = λ t n. (_, refl);
}

disk_sample-no_dir : (n : Text) → disk_sample (normal n ∷ tmp_sample) ≢ some dir
unfolding disk_sample
disk_sample-no_dir [] e = cc
disk_sample-no_dir (c ∷ []) e = cc
disk_sample-no_dir (c ∷ d ∷ rest) e = cc

disk_sample-IsFree : IsFree system_sample tmp_sample disk_sample
unfolding join
disk_sample-IsFree bytes = disk_sample-no_dir bytes

shred_file-Shredded_example :
    Triple system_sample
      (λ d t. (d ≡ disk_sample) × (synced_contents t ≡ []))
      (shred_file path_sample options_sample storage_sample false true)
      (Shredded system_sample
        (job_of path_sample options_sample false true content_sample)
        disk_sample
        [])
      (λ e d t. ⊥)
unfolding disk_sample codes parent
shred_file-Shredded_example =
    shred_file-Shredded path_sample tmp_sample options_sample storage_sample false true disk_sample
      [] content_sample system_sample-IsQuiet fills_sample refl refl disk_sample-IsFree
