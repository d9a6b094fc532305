-- ===== src/Ndjson/Lines.antt =====
-- The lines of a file that records were written to.
use energy_optimizer.Prelude.{
  false, Option, none, some, List, ◌∷◌, [], ◌++◌, ◌==◌, nat_eq, ◌≡◌, refl, sym, ap, ◌∙◌, arith,
  length, Result, ok, err, All, append_assoc, append-nil,
}
use energy_optimizer.Floats.{FloatOps}
use energy_optimizer.Series.{StoreError}
use energy_optimizer.Bytes.{Bytes, is_line_end, split_lines, strip, strip_right}
use energy_optimizer.Bytes.Lines.{
  split_lines-IsText, end_last, strip_right-end, strip_right-IsText, is_terminated-end,
}
use energy_optimizer.Json.{Format}
use energy_optimizer.Scan.Balanced.{IsObjectText}
use energy_optimizer.Scan.Cut.{strip-brace}
use energy_optimizer.Ndjson.{HouseholdLoadRecord}
use energy_optimizer.Ndjson.Encode.{payload, encode, encode_household_records}
use energy_optimizer.Ndjson.Parse.{Reading, behind, read_on, parse_line, parse_lines}
use energy_optimizer.Ndjson.Valid.{IsRecord, IsFaithful, decode-payload}

module _ {Num : Type 0} where
  -- The records `rs`, and then what else is read.
  abbrev pub after : List (HouseholdLoadRecord Num) → Reading Num → Reading Num
  after rs reading = record reading { records = rs ++ reading.records }

-- Behind its brace, an object's text is not blank.
pub object_not_blank : (t : Bytes) → IsObjectText t → (length (strip t) == 0) ≡ false
object_not_blank t o = ap (λ l. length (strip l) == 0) o.braced ∙ rw strip-brace (ground arith)

module _ {Num : Type 0} ⦃f : FloatOps Num⦄ (format : Format Num) where
  -- A record that can be written and read.
  abbrev pub IsWritable : HouseholdLoadRecord Num → Type 0
  IsWritable r = IsRecord r × IsFaithful format r

  -- A line that holds a record, for any line whose content is the record's text.
  pub parse_line-text :
      (r : HouseholdLoadRecord Num) (line : Bytes)
      → IsWritable r
      → strip_right is_line_end line ≡ format.dumps (payload format r)
      → parse_line format line ≡ ok (some r)
  unfolding parse_line
  parse_line-text r line (valid, back) e =
      rw
        (
          e,
          object_not_blank (format.dumps (payload format r)) back.one_object,
          back.value_back,
          decode-payload format r valid back,
        )
        refl

  pub parse_line-encode :
      (r : HouseholdLoadRecord Num)
      → IsWritable r
      → parse_line format (encode format r) ≡ ok (some r)
  unfolding encode
  parse_line-encode r w =
      parse_line-text r (format.dumps (payload format r) ++ 10 ∷ []) w
        (strip_right-end (format.dumps (payload format r)) ∙ strip_right-IsText _ w.1.one_line)

  pub parse_lines-cons :
      (line : Bytes) (lines : List Bytes) (r : HouseholdLoadRecord Num) (rest : Reading Num)
      → parse_line format line ≡ ok (some r)
      → parse_lines format lines ≡ ok rest
      → parse_lines format (line ∷ lines) ≡ ok (behind r rest)
  unfolding parse_lines
  parse_lines-cons line lines r rest e e' = rw (parse_lines, e, e') refl

  pub split_lines-encode :
      (r : HouseholdLoadRecord Num) (rest : Bytes)
      → IsWritable r
      → split_lines (encode format r ++ rest) ≡ encode format r ∷ split_lines rest
  unfolding encode
  split_lines-encode r rest w =
      ap split_lines (append_assoc (format.dumps (payload format r)) (10 ∷ []) rest)
      ∙ split_lines-IsText (format.dumps (payload format r)) rest w.1.one_line

  -- The records that were written are read, whatever is read behind them.
  pub parse_lines-encode :
      (rs : List (HouseholdLoadRecord Num)) (rest : Bytes) (reading : Reading Num)
      → All IsWritable rs
      → parse_lines format (split_lines rest) ≡ ok reading
      → parse_lines format (split_lines (encode_household_records format rs ++ rest))
        ≡ ok (after rs reading)
  unfolding encode_household_records
  parse_lines-encode [] rest reading w e = e
  parse_lines-encode (r ∷ rs) rest reading w e =
      ap (λ l. parse_lines format (split_lines l))
        (append_assoc (encode format r) (encode_household_records format rs) rest)
      ∙ ap (parse_lines format)
          (split_lines-encode r (encode_household_records format rs ++ rest) w.0)
      ∙ parse_lines-cons (encode format r) _ r (after rs reading) (parse_line-encode r w.0)
          (parse_lines-encode rs rest reading w.1 e)

  read_on-eq-ok :
      (o : Result StoreError (Option (HouseholdLoadRecord Num)))
      (m : Result StoreError (Reading Num)) (rs : List (HouseholdLoadRecord Num))
      → read_on o m ≡ ok (record { records = rs; incomplete = false })
      → (r : HouseholdLoadRecord Num) × (rest : List (HouseholdLoadRecord Num)) × (o ≡ ok (some r))
        × (m ≡ ok (record { records = rest; incomplete = false }))
        × (rs ≡ r ∷ rest)
  read_on-eq-ok (err e) m rs h = cc
  read_on-eq-ok (ok none) m rs h = ground arith
  read_on-eq-ok (ok (some r)) (err e) rs h = cc
  read_on-eq-ok (ok (some r)) (ok reading) rs h =
      (r, reading.records, refl, ground (arith, h), ground (arith, h))

  parse_lines-eq-ok :
      (line : Bytes) (lines : List Bytes) (rs : List (HouseholdLoadRecord Num))
      → parse_lines format (line ∷ lines) ≡ ok (record { records = rs; incomplete = false })
      → (r : HouseholdLoadRecord Num) × (rest : List (HouseholdLoadRecord Num)) × (parse_line format
            line
          ≡ ok (some r))
        × (parse_lines format lines ≡ ok (record { records = rest; incomplete = false }))
        × (rs ≡ r ∷ rest)
  unfolding parse_lines
  parse_lines-eq-ok line lines rs e =
      read_on-eq-ok (parse_line format line) (parse_lines format lines) rs e

  -- Lines behind lines that are read to their end.
  pub parse_lines-append :
      (ls ms : List Bytes) (rs : List (HouseholdLoadRecord Num)) (reading : Reading Num)
      → parse_lines format ls ≡ ok (record { records = rs; incomplete = false })
      → parse_lines format ms ≡ ok reading
      → parse_lines format (ls ++ ms) ≡ ok (after rs reading)
  unfolding parse_lines
  parse_lines-append [] ms rs reading e e' =
      let same : [] ≡ rs = ground (arith, e) in
      e' ∙ ap (λ (l : List (HouseholdLoadRecord Num)). ok (after l reading)) same
  parse_lines-append (l ∷ ls) ms rs reading e e' =
      let (r, rest, e1, e2, e3) = parse_lines-eq-ok l ls rs e in
      parse_lines-cons l (ls ++ ms) r (after rest reading) e1
        (parse_lines-append ls ms rest reading e2 e')
      ∙ ap (λ l. ok (after l reading)) (sym e3)

  parse_line-end :
      (l : Bytes) (r : HouseholdLoadRecord Num)
      → parse_line format l ≡ ok (some r)
      → parse_line format (l ++ 10 ∷ []) ≡ ok (some r)
  unfolding parse_line
  parse_line-end l r e = rw (strip_right-end l, is_terminated-end l) (ground (arith, e))

  -- The last line may lack its end, if it is read to a record.
  pub parse_lines-end_last :
      (ls : List Bytes) (rs : List (HouseholdLoadRecord Num))
      → parse_lines format ls ≡ ok (record { records = rs; incomplete = false })
      → parse_lines format (end_last ls) ≡ ok (record { records = rs; incomplete = false })
  parse_lines-end_last [] rs e = e
  parse_lines-end_last (l ∷ []) rs e =
      let (r, rest, e1, e2, e3) = parse_lines-eq-ok l [] rs e in
      parse_lines-cons (l ++ 10 ∷ []) [] r _ (parse_line-end l r e1) e2
      ∙ ap (λ (x : List (HouseholdLoadRecord Num)). ok (record { records = x; incomplete = false }))
          (sym e3)
  parse_lines-end_last (l ∷ m ∷ ls) rs e =
      let (r, rest, e1, e2, e3) = parse_lines-eq-ok l (m ∷ ls) rs e in
      parse_lines-cons l (end_last (m ∷ ls)) r _ e1 (parse_lines-end_last (m ∷ ls) rest e2)
      ∙ ap (λ (x : List (HouseholdLoadRecord Num)). ok (record { records = x; incomplete = false }))
          (sym e3)

  -- The records that were written are read.
  pub parse_lines-encode_records :
      (rs : List (HouseholdLoadRecord Num))
      → All IsWritable rs
      → parse_lines format (split_lines (encode_household_records format rs))
        ≡ ok (record { records = rs; incomplete = false })
  parse_lines-encode_records rs w =
      ap (λ l. parse_lines format (split_lines l))
        (sym (append-nil (encode_household_records format rs)))
      ∙ parse_lines-encode rs [] (record { records = []; incomplete = false }) w
          (unfold parse_lines split_lines in refl)
      ∙ ap (λ (l : List (HouseholdLoadRecord Num)). ok (record { records = l; incomplete = false }))
          (append-nil rs)
