-- ===== src/Report.antt =====
-- report/mod.rs: the report on a run, with its totals and its CSV form.
pub mod Csv
use secure_file_shredder_and.Base.{
  ℕ, zero, suc, ◌+◌, ◌%◌, ◌^◌, Bool, true, false, not, ◌||◌, Option, none, some, List, [], ◌∷◌,
  ◌++◌, Text, codes, length, decimal, contains, to_lowercase, ◌==◌, if◌then◌else◌,
}
use secure_file_shredder_and.Io.Path.{FilePath, display}
use secure_file_shredder_and.Io.Error.{SanitizerError, io}
use secure_file_shredder_and.Io.System.{System, Float}
use secure_file_shredder_and.Io.Float.{F64}
use secure_file_shredder_and.Io.Action.{Action, pure, ask, ◌>>=◌, ◌>>◌, map_err}
use secure_file_shredder_and.Io.Files.{Handle, create, write_all}
use secure_file_shredder_and.Sanitize.Engine.{ShredOutcome}
use secure_file_shredder_and.Snapshot.{SnapshotScanReport}
use secure_file_shredder_and.Verify.{VerificationReport, is_empty}

pub record SanitizationReport : Type 0 where
  pub report_id : Text
  pub generated_at : ℕ
  pub tool_version : Text
  pub outcomes : List ShredOutcome
  pub verifications : List VerificationReport
  pub snapshot_findings : List SnapshotScanReport
  pub total_files : ℕ
  pub total_bytes_wiped : ℕ
  pub total_warnings : ℕ

-- `.sum()` of a `u64`, which wraps in the release build.
abbrev pub sum_bytes : List ShredOutcome → ℕ
sum_bytes [] = 0
sum_bytes (o ∷ outcomes) = (o.bytes_wiped + sum_bytes outcomes) % 2 ^ 64

abbrev pub sum_warnings : List ShredOutcome → ℕ
sum_warnings [] = 0
sum_warnings (o ∷ outcomes) = length o.warnings + sum_warnings outcomes

-- `SanitizationReport::new`; the identifier is of the crate `uuid`.
unfoldable pub new_report :
    (ℕ → Text)
    → List ShredOutcome
    → List VerificationReport
    → List SnapshotScanReport
    → Action SanitizerError SanitizationReport
new_report uuid outcomes verifications snapshot_findings = do
  id ← ask (λ sys t. uuid t)
  moment ← ask (λ sys t. sys.os.utc t)
  pure (record {
    report_id = id;
    generated_at = moment;
    tool_version = codes "1.0.0";
    outcomes = outcomes;
    verifications = verifications;
    snapshot_findings = snapshot_findings;
    total_files = length outcomes;
    total_bytes_wiped = sum_bytes outcomes;
    total_warnings = sum_warnings outcomes;
  })

-- `s.contains(c)`
abbrev pub has_char : ℕ → Text → Bool
has_char c [] = false
has_char c (d ∷ s) = d == c || has_char c s

-- `s.replace('"', "\"\"")`
abbrev pub double_quotes : Text → Text
double_quotes [] = []
double_quotes (c ∷ s) =
    let rest = double_quotes s in if c == b'"' then b'"' ∷ b'"' ∷ rest else c ∷ rest

unfoldable pub csv_escape : Text → Text
csv_escape s =
    if has_char b',' s || (has_char b'"' s || has_char 10 s)
    then b'"' ∷ (double_quotes s ++ (b'"' ∷ []))
    else s

abbrev pub bool_text : Bool → Text
bool_text true = codes "true"
bool_text false = codes "false"

abbrev pub entropy_text : Float → Option F64 → Text
entropy_text f (some e) = f.fixed 3 e
entropy_text f none = []

csv_header : Text
csv_header =
    codes
      "path,bytes_wiped,passes_completed,pattern,duration_ms,verification_entropy,storage_kind,overwrite_reliable,warning_count"

-- A line of the file, without its end.
unfoldable pub csv_row : Float → ShredOutcome → Text
csv_row f o =
    csv_escape (display o.path)
    ++ (b','
        ∷ (decimal o.bytes_wiped
            ++ (b','
                ∷ (decimal o.passes_completed
                    ++ (b','
                        ∷ (o.pattern
                            ++ (b','
                                ∷ (decimal o.duration_ms
                                    ++ (b','
                                        ∷ (entropy_text f o.verification_entropy
                                            ++ (b','
                                                ∷ (csv_escape o.storage_kind
                                                    ++ (b','
                                                        ∷ (bool_text o.overwrite_reliable
                                                            ++ (b','
                                                            ∷ decimal
                                                            (length o.warnings))))))))))))))))

-- The loop over the outcomes. A line is one write here; of a write that fails a part may be there.
unfoldable pub write_rows : FilePath → Handle → List ShredOutcome → Action SanitizerError (Unit {0})
write_rows path file [] = pure tt
write_rows path file (o ∷ outcomes) = do
  row ← ask (λ sys t. csv_row sys.float o)
  file ← map_err (io path) (write_all file (row ++ (10 ∷ [])))
  write_rows path file outcomes

unfoldable pub write_csv : SanitizationReport → FilePath → Action SanitizerError (Unit {0})
unfolding csv_header
write_csv report path = do
  file ← map_err (io path) (create path)
  file ← map_err (io path) (write_all file (csv_header ++ (10 ∷ [])))
  write_rows path file report.outcomes
