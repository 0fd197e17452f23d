-- ===== src/Samples/Printing.antt =====
-- A toy printer of entries that reads back each of them: a number is that many times `a`, with a `b`
-- behind, and a text its length and its characters.
use secure_file_shredder_and.Base.{
  ℕ, zero, suc, ◌≡◌, inl, refl, sym, ap, ◌∙◌, false, [], ◌∷◌, Text, length, arith, is_blank, ◌==◌,
  if◌then◌else◌,
}
use secure_file_shredder_and.Io.Outcome.{ok}
use secure_file_shredder_and.Audit.{AuditEntry, Json}
use secure_file_shredder_and.Audit.Append.{PrintsLines, ReadsBack, IsOneLine}
use secure_file_shredder_and.Samples.{system_sample}

abbrev put : ℕ → Text → Text
put zero rest = 98 ∷ rest
put (suc n) rest = 97 ∷ put n rest

abbrev get : Text → ℕ × Text
get [] = (0, [])
get (c ∷ s) = let r = get s in if c == 97 then (suc r.0, r.1) else (0, s)

get-put : (n : ℕ) (rest : Text) → Path (ℕ × Text) (get (put n rest)) (n, rest)
get-put zero rest = refl
get-put (suc n) rest = ap (λ (r : ℕ × Text). (suc r.0, r.1)) (get-put n rest)

abbrev put_all : Text → Text → Text
put_all [] rest = rest
put_all (c ∷ s) rest = put c (put_all s rest)

abbrev get_all : ℕ → Text → Text × Text
get_all zero s = ([], s)
get_all (suc n) s = let r = get s in let more = get_all n r.1 in (r.0 ∷ more.0, more.1)

get_all-put_all :
    (t rest : Text) → Path (Text × Text) (get_all (length t) (put_all t rest)) (t, rest)
get_all-put_all [] rest = refl
get_all-put_all (c ∷ t) rest =
    rw (get-put c (put_all t rest))
      (ap (λ (r : Text × Text). (c ∷ r.0, r.1)) (get_all-put_all t rest))

abbrev put_text : Text → Text → Text
put_text t rest = put (length t) (put_all t rest)

abbrev get_text : Text → Text × Text
get_text s = let r = get s in get_all r.0 r.1

get_text-put_text : (t rest : Text) → Path (Text × Text) (get_text (put_text t rest)) (t, rest)
get_text-put_text t rest = rw (get-put (length t) (put_all t rest)) (get_all-put_all t rest)

pub print_line : AuditEntry → Text
print_line e = put e.sequence (
    put e.timestamp (
      put_text e.operation
        (put_text e.target (put_text e.details (put_text e.prev_hash (put_text e.entry_hmac []))))))

pub read_line : Text → AuditEntry
read_line s =
    let n = get s in
    let t = get n.1 in
    let op = get_text t.1 in
    let target = get_text op.1 in
    let details = get_text target.1 in
    let prev = get_text details.1 in
    let tag = get_text prev.1 in
    record {
      sequence = n.0;
      timestamp = t.0;
      operation = op.0;
      target = target.0;
      details = details.0;
      prev_hash = prev.0;
      entry_hmac = tag.0;
    }

read_line-print_line : (e : AuditEntry) → read_line (print_line e) ≡ e
unfolding read_line print_line
read_line-print_line e =
    rw
      (
        get-put e.sequence _,
        get-put e.timestamp _,
        get_text-put_text e.operation _,
        get_text-put_text e.target _,
        get_text-put_text e.details _,
        get_text-put_text e.prev_hash _,
        get_text-put_text e.entry_hmac _,
      )
      refl

abbrev pub line_json : Json
line_json = record {
  print_entry = λ e. ok (print_line e);
  parse_entry = λ s. ok (read_line s);
  print_sealed = λ nonce ct. ok ct;
  parse_sealed = λ line. ok ([], line);
}

put-IsOneLine : (n : ℕ) (rest : Text) → IsOneLine rest → IsOneLine (put n rest)
put-IsOneLine zero rest h = (omega arith, h)
put-IsOneLine (suc n) rest h = (omega arith, put-IsOneLine n rest h)

put_all-IsOneLine : (t rest : Text) → IsOneLine rest → IsOneLine (put_all t rest)
put_all-IsOneLine [] rest h = h
put_all-IsOneLine (c ∷ t) rest h = put-IsOneLine c _ (put_all-IsOneLine t rest h)

put_text-IsOneLine : (t rest : Text) → IsOneLine rest → IsOneLine (put_text t rest)
put_text-IsOneLine t rest h = put-IsOneLine (length t) _ (put_all-IsOneLine t rest h)

print_line-IsOneLine : (e : AuditEntry) → IsOneLine (print_line e)
unfolding print_line
print_line-IsOneLine e = put-IsOneLine e.sequence _ (
    put-IsOneLine e.timestamp _ (
      put_text-IsOneLine e.operation _ (
        put_text-IsOneLine e.target _ (
          put_text-IsOneLine e.details _
            (put_text-IsOneLine e.prev_hash _ (put_text-IsOneLine e.entry_hmac [] tt))))))

put-not_blank : (n : ℕ) (rest : Text) → is_blank (λ s. false) (put n rest) ≡ false
unfolding is_blank
put-not_blank zero rest = ground arith
put-not_blank (suc n) rest = ground arith

print_line-not_blank : (e : AuditEntry) → is_blank (λ s. false) (print_line e) ≡ false
unfolding print_line
print_line-not_blank e = put-not_blank e.sequence _

pub line_json-PrintsLines : PrintsLines system_sample line_json
line_json-PrintsLines = record {
  prints = λ e. inl (print_line e, refl);
  one_line =
      λ e text q. let same : print_line e ≡ text = cc in rw (← same) (print_line-IsOneLine e);
  not_blank =
      λ e text q. let same : print_line e ≡ text = cc in rw (← same) (print_line-not_blank e);
}

pub line_json-ReadsBack : (details : Text) → ReadsBack line_json details
line_json-ReadsBack details e text d q =
    let same : print_line e ≡ text = cc in ap ok (ap read_line (sym same) ∙ read_line-print_line e)
