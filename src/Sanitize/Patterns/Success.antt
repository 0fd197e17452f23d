-- ===== src/Sanitize/Patterns/Success.antt =====
-- `fill_pass` where the system's random source answers.
use secure_file_shredder_and.Base.{
  ℕ, zero, suc, ◌+◌, ◌%◌, ◌≡◌, ap, Option, none, some, [], ◌∷◌, Bytes, length, get_elem?,
}
use secure_file_shredder_and.Io.Outcome.{Outcome, ok, err, panic, out_of_fuel}
use secure_file_shredder_and.Io.Error.{SanitizerError}
use secure_file_shredder_and.Io.System.{System}
use secure_file_shredder_and.Io.Action.{Disk}
use secure_file_shredder_and.Io.Quiet.{IsQuiet, NoError, NoError-lift}
use secure_file_shredder_and.Crypto.Rng.Success.{secure_random_bytes-NoError}
use secure_file_shredder_and.Sanitize.Patterns.{
  OverwritePattern, single_random, multi_random, dod_three_pass, nist_clear, nist_purge, custom,
  zeros, ones, fill_custom, fill_pass, prepend,
}

prepend_no_error :
    (v : ℕ) (r : Outcome SanitizerError Bytes) (e : SanitizerError)
    → ¬ (r ≡ err e)
    → ¬ (prepend v r ≡ err e)
prepend_no_error v (ok b) e h q = absurd (cc q)
prepend_no_error v (err x) e h q = let same : x ≡ e = cc in h (ap err same)
prepend_no_error v panic e h q = absurd (cc q)
prepend_no_error v out_of_fuel e h q = absurd (cc q)

fill_custom_no_error :
    (pattern : Bytes) (i : ℕ) (buf : Bytes) (e : SanitizerError)
    → ¬ (fill_custom pattern i buf ≡ err e)
unfolding fill_custom
fill_custom_no_error pattern i [] e q = absurd (cc q)
fill_custom_no_error pattern i (x ∷ buf) e q =
    at_index (get_elem? pattern (i % length pattern)) (fill_custom pattern (i + 1) buf)
      (fill_custom_no_error pattern (i + 1) buf e) q
  where
    at_index :
        (o : Option ℕ) (r : Outcome SanitizerError Bytes)
        → ¬ (r ≡ err e)
        → ¬ (
            Path
              (Outcome SanitizerError Bytes)
              (elim o [ none ↦ panic | some v ↦ prepend v r ])
              (err e))
    at_index none r h p = absurd (cc p)
    at_index (some v) r h p = prepend_no_error v r e h p

module _ {sys : System} (quiet : IsQuiet sys) (I : Disk → Type 0) where
  -- A pass fails only where the random source does.
  pub fill_pass-NoError :
      (pattern : OverwritePattern) (buf : Bytes) (pass : ℕ)
      → NoError sys (λ d t. I d) (fill_pass pattern buf pass) (λ out d t. I d)
  unfolding fill_pass
  fill_pass-NoError single_random buf pass = secure_random_bytes-NoError quiet I buf
  fill_pass-NoError (multi_random n) buf pass = secure_random_bytes-NoError quiet I buf
  fill_pass-NoError dod_three_pass buf zero = NoError-lift _ (λ e q. cc) (λ a d t i. i)
  fill_pass-NoError dod_three_pass buf (suc zero) = NoError-lift _ (λ e q. cc) (λ a d t i. i)
  fill_pass-NoError dod_three_pass buf (suc (suc pass)) = secure_random_bytes-NoError quiet I buf
  fill_pass-NoError nist_clear buf pass = NoError-lift _ (λ e q. cc) (λ a d t i. i)
  fill_pass-NoError nist_purge buf pass = secure_random_bytes-NoError quiet I buf
  fill_pass-NoError (custom []) buf pass = secure_random_bytes-NoError quiet I buf
  fill_pass-NoError (custom (v ∷ pattern)) buf pass =
      NoError-lift _ (λ e q. fill_custom_no_error (v ∷ pattern) 0 buf e q) (λ a d t i. i)
  fill_pass-NoError zeros buf pass = NoError-lift _ (λ e q. cc) (λ a d t i. i)
  fill_pass-NoError ones buf pass = NoError-lift _ (λ e q. cc) (λ a d t i. i)
