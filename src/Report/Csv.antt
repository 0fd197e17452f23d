-- ===== src/Report/Csv.antt =====
-- The rows of the CSV form against a reader of CSV.
use secure_file_shredder_and.Base.{
  ℕ, zero, suc, ◌≡◌, ◌≤◌, ◌<◌, inl, inr, refl, All, decimal, codes, length, List, ◌∙◌, Bool, true,
  false, ◌||◌, Option, none, some, [], ◌∷◌, ◌++◌, append-nil, append_assoc, Text, arith, ◌==◌,
  if◌then◌else◌, Bool-cases,
}
use mathlib.Core.Option
use secure_file_shredder_and.Base.Decimal.Laws.{decimal-All}
use secure_file_shredder_and.Io.Float.{F64}
use secure_file_shredder_and.Sanitize.Patterns.{
  OverwritePattern, single_random, multi_random, dod_three_pass, nist_clear, nist_purge, custom,
  zeros, ones, name,
}
use secure_file_shredder_and.Io.Path.{display}
use secure_file_shredder_and.Io.System.{Float}
use secure_file_shredder_and.Sanitize.Engine.{ShredOutcome}
use secure_file_shredder_and.Report.{
  has_char, double_quotes, csv_escape, bool_text, entropy_text, csv_row,
}

abbrev pub with_char : ℕ → Option (Text × Text) → Option (Text × Text)
with_char c none = none
with_char c (some (field, rest)) = some (c ∷ field, rest)

-- A field that is not in quotes: up to a comma or the end of the line.
abbrev pub read_plain : Text → Option (Text × Text)
read_plain [] = some ([], [])
read_plain (c ∷ s) =
    let more = read_plain s in if c == b',' || c == 10 then some ([], c ∷ s) else with_char c more

-- A field in quotes, from behind the first; `closing` says that a quote was read which ends the
-- field unless another one follows.
abbrev pub read_quoted : Bool → Text → Option (Text × Text)
read_quoted true [] = some ([], [])
read_quoted false [] = none
read_quoted true (c ∷ s) =
    let more = read_quoted false s in if c == b'"' then with_char c more else some ([], c ∷ s)
read_quoted false (c ∷ s) =
    let closed = read_quoted true s in
    let more = read_quoted false s in if c == b'"' then closed else with_char c more

-- The first field of a line, and what follows it. A carriage return is a character as any other.
unfoldable pub read_field : Text → Option (Text × Text)
read_field [] = some ([], [])
read_field (c ∷ s) =
    let quoted = read_quoted false s in
    let plain = read_plain (c ∷ s) in if c == b'"' then quoted else plain

-- Behind a field there is a comma, or the line ends.
abbrev pub ends_field : Text → Bool
ends_field [] = true
ends_field (c ∷ s) = c == b',' || c == 10

quoted_lem :
    (s rest : Text)
    → ends_field rest ≡ true
    → read_quoted false (double_quotes s ++ (b'"' ∷ rest)) ≡ some (s, rest)
quoted_lem [] [] h = refl
quoted_lem [] (c ∷ rest) h = ground (arith, h)
quoted_lem (c ∷ s) rest h = elim (Bool-cases (c == b'"')) [
  | inl q ↦ let e : c ≡ b'"' = ground (arith, q) in rw (q, e, quoted_lem s rest h) refl
  | inr q ↦ rw q (rw q (rw (quoted_lem s rest h) refl))
]

plain_lem :
    (s rest : Text)
    → has_char b',' s ≡ false
    → has_char 10 s ≡ false
    → ends_field rest ≡ true
    → read_plain (s ++ rest) ≡ some (s, rest)
plain_lem [] [] h k e = refl
plain_lem [] (c ∷ rest) h k e = ground (arith, e)
plain_lem (c ∷ s) rest h k e =
    ground (arith, h, k, plain_lem s rest (ground (arith, h)) (ground (arith, k)) e)

-- A text without a quote does not begin with one.
read_field-plain :
    (s rest : Text)
    → has_char b'"' s ≡ false
    → ends_field rest ≡ true
    → read_field (s ++ rest) ≡ read_plain (s ++ rest)
unfolding read_field
read_field-plain [] [] h e = refl
read_field-plain [] (c ∷ rest) h e = ground (arith, e)
read_field-plain (c ∷ s) rest h e = ground (arith, h)

-- What `csv_escape` writes is read back as the text, whatever its characters are, if a comma or the
-- end of the line follows.
pub read_field-csv_escape :
    (s rest : Text) → ends_field rest ≡ true → read_field (csv_escape s ++ rest) ≡ some (s, rest)
unfolding read_field csv_escape
read_field-csv_escape s rest e =
    elim (Bool-cases (has_char b',' s || (has_char b'"' s || has_char 10 s))) [
      | inl q ↦ rw (q, append_assoc) (quoted_lem s rest e)
      | inr q ↦ rw q (
          read_field-plain s rest (ground (arith, q)) e
          ∙ plain_lem s rest (ground (arith, q)) (ground (arith, q)) e)
    ]

-- No character that would have to be quoted.
abbrev pub IsPlain : Text → Type 0
IsPlain s = (has_char b',' s ≡ false) × (has_char b'"' s ≡ false) × (has_char 10 s ≡ false)

has_char-append :
    (c : ℕ) (s t : Text) → has_char c s ≡ false → has_char c t ≡ false → has_char c (s ++ t) ≡ false
has_char-append c [] t h k = k
has_char-append c (d ∷ s) t h k = ground (arith, h, has_char-append c s t (ground (arith, h)) k)

has_char-digits : (c : ℕ) (s : Text) → c < 48 → All (λ d. 48 ≤ d) s → has_char c s ≡ false
has_char-digits c [] l h = refl
has_char-digits c (d ∷ s) l h = ground (arith, l, h.0, has_char-digits c s l h.1)

pub decimal-IsPlain : (n : ℕ) → IsPlain (decimal n)
decimal-IsPlain n =
    let digits = decimal-All n in
    (
      has_char-digits b',' _ (omega arith) digits,
      has_char-digits b'"' _ (omega arith) digits,
      has_char-digits 10 _ (omega arith) digits,
    )

name-IsPlain : (p : OverwritePattern) → IsPlain (name p)
unfolding name codes
name-IsPlain single_random = (refl, refl, refl)
name-IsPlain (multi_random n) =
    let (a, b, c) = decimal-IsPlain n in
    (
      has_char-append b',' (codes "multi-random-") (decimal n) refl a,
      has_char-append b'"' (codes "multi-random-") (decimal n) refl b,
      has_char-append 10 (codes "multi-random-") (decimal n) refl c,
    )
name-IsPlain dod_three_pass = (refl, refl, refl)
name-IsPlain nist_clear = (refl, refl, refl)
name-IsPlain nist_purge = (refl, refl, refl)
name-IsPlain (custom v) = (refl, refl, refl)
name-IsPlain zeros = (refl, refl, refl)
name-IsPlain ones = (refl, refl, refl)

bool_text-IsPlain : (b : Bool) → IsPlain (bool_text b)
unfolding codes
bool_text-IsPlain true = (refl, refl, refl)
bool_text-IsPlain false = (refl, refl, refl)

read_field-IsPlain :
    (s rest : Text) → IsPlain s → ends_field rest ≡ true → read_field (s ++ rest) ≡ some (s, rest)
read_field-IsPlain s rest (a, b, c) e = read_field-plain s rest b e ∙ plain_lem s rest a c e

abbrev pub with_rest : Option (Text × Text) → (Text → Option (List Text)) → Option (List Text)
with_rest none more = none
with_rest (some (field, [])) more = some (field ∷ [])
with_rest (some (field, c ∷ rest)) more =
    if c == b',' then Option.map (λ fields. field ∷ fields) (more rest) else none

-- The fields of a line, no more than that many.
unfoldable pub read_row : ℕ → Text → Option (List Text)
unfolding read_field
read_row zero s = none
read_row (suc n) s = with_rest (read_field s) (read_row n)

read_row-cons :
    (n : ℕ) (s field rest : Text) (fields : List Text)
    → read_field (s ++ (b',' ∷ rest)) ≡ some (field, b',' ∷ rest)
    → read_row n rest ≡ some fields
    → read_row (suc n) (s ++ (b',' ∷ rest)) ≡ some (field ∷ fields)
unfolding read_row
read_row-cons n s field rest fields e h = rw (e, h) refl

read_row-last : (n : ℕ) (s : Text) → IsPlain s → read_row (suc n) s ≡ some (s ∷ [])
unfolding read_row
read_row-last n s h =
    let e : read_field s ≡ some (s, []) = rw append-nil at (read_field-IsPlain s [] h refl) in
    rw e refl

entropy_text-IsPlain :
    (f : Float) (o : Option F64) → ((x : F64) → IsPlain (f.fixed 3 x)) → IsPlain (entropy_text f o)
entropy_text-IsPlain f none h = (refl, refl, refl)
entropy_text-IsPlain f (some x) h = h x

-- Where numbers with three places have no comma, quote or line feed, and the outcome names a pattern:
-- a reader for which quotes enclose a field, a doubled quote is one, and a comma or a line feed ends a
-- field gets the nine values of an outcome from its row, whatever its path and storage class hold.
pub read_row-csv_row :
    (f : Float) (o : ShredOutcome) (p : OverwritePattern)
    → ((x : F64) → IsPlain (f.fixed 3 x))
    → o.pattern ≡ name p
    → read_row 9 (csv_row f o)
      ≡ some (
          display o.path
          ∷ decimal o.bytes_wiped
          ∷ decimal o.passes_completed
          ∷ o.pattern
          ∷ decimal o.duration_ms
          ∷ entropy_text f o.verification_entropy
          ∷ o.storage_kind
          ∷ bool_text o.overwrite_reliable
          ∷ decimal (length o.warnings)
          ∷ [])
unfolding csv_row
read_row-csv_row f o p fixed named =
    read_row-cons 8 _ _ _ _ (read_field-csv_escape (display o.path) _ refl) (
      read_row-cons 7 _ _ _ _ (number o.bytes_wiped _) (
        read_row-cons 6 _ _ _ _ (number o.passes_completed _) (
          read_row-cons 5 _ _ _ _ (read_field-IsPlain o.pattern _ (rw named (name-IsPlain p)) refl)
            (read_row-cons 4 _ _ _ _ (number o.duration_ms _) (
              read_row-cons 3 _ _ _ _
                (read_field-IsPlain (entropy_text f o.verification_entropy) _
                  (entropy_text-IsPlain f o.verification_entropy fixed) refl)
                (read_row-cons 2 _ _ _ _ (read_field-csv_escape o.storage_kind _ refl) (
                  read_row-cons 1 _ _ _ _
                    (read_field-IsPlain (bool_text o.overwrite_reliable) _
                      (bool_text-IsPlain o.overwrite_reliable) refl)
                    (read_row-last 0 _ (decimal-IsPlain (length o.warnings))))))))))
  where
    number :
        (n : ℕ) (rest : Text)
        → read_field (decimal n ++ (b',' ∷ rest)) ≡ some (decimal n, b',' ∷ rest)
    number n rest = read_field-IsPlain (decimal n) _ (decimal-IsPlain n) refl
